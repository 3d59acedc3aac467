-- ===== src/Http2/Command/Lists.antt =====
-- The commands that hold a list: CmdSettings and CmdHeaders of bayserver_docker_http/h2/command, and
-- CmdPreface, which is no frame.
use bay_server_python.Prelude.{
  ℕ, zero, suc, ◌+◌, Bytes, List, [], ◌∷◌, ltb, ◌==◌, if◌then◌else◌, false, slice,
}
use bay_server_python.Prelude.Results.{ok, err, runtime_error, out_of_fuel}
use bay_server_python.Protocol.Packet.{data_len}
use bay_server_python.Protocol.Accessor.{
  M, ◌>>=◌, ◌>>◌, pure, fail, put_byte, put_short, put_int, put_bytes, get_byte, get_short, get_int,
  get_bytes,
}
use bay_server_python.Http2.Flags.{ack, padded, priority}
use bay_server_python.Http2.HeaderBlock
use bay_server_python.Http2.HeaderBlock.{HeaderBlock}
use bay_server_python.Http2.Unpacker.{H2Packet, connection_preface}
use bay_server_python.Http2.Command.{extract_int31, extract_flag, Priority}

pub record Item : Type 0 where
  pub id : ℕ
  pub value : ℕ

unfoldable pub put_items : List Item → M (Unit {0})
put_items [] = pure tt
put_items (i ∷ is) = do put_short i.id; put_int i.value; put_items is

unfoldable pub put_settings : ℕ → List Item → M (Unit {0})
unfolding put_items
put_settings flags items = if ack flags then pure tt else put_items items

-- The loop of `unpack`, which reads an item in each round. `len` is the length of the data.
unfoldable pub get_items : ℕ → ℕ → ℕ → M (List Item)
get_items zero len pos a = err out_of_fuel
get_items (suc fuel) len pos a =
    let more = (do
      id ← get_short
      value ← get_int
      items ← get_items fuel len (pos + 6)
      pure (record { id = id; value = value } ∷ items)) in
    if ltb pos len then more a else ok ([], a)

unfoldable pub get_settings : H2Packet → M (List Item)
unfolding get_items data_len
get_settings p =
    let len = data_len p.packet in if ack p.flags then pure [] else get_items (suc len) len 0

pub record Headers : Type 0 where
  pub header_blocks : List HeaderBlock
  pub pad_length : ℕ
  pub depends : Priority

unfoldable pub write_header_block : List HeaderBlock → M (Unit {0})
write_header_block [] = pure tt
write_header_block (b ∷ bs) = do HeaderBlock.pack b; write_header_block bs

-- With the flag of the priority, `pack` reads the field `stream_depency`, which no command has: for the
-- AttributeError stands `runtime_error`.
unfoldable pub put_headers : ℕ → Headers → M (Unit {0})
unfolding write_header_block
put_headers flags c = do
  if padded flags then put_byte c.pad_length else pure tt
  if priority flags then fail runtime_error else pure tt
  write_header_block c.header_blocks

-- `read_header_block`: a block takes a byte at least, which the fuel counts.
unfoldable pub read_blocks : ℕ → ℕ → M (List HeaderBlock)
read_blocks zero len a = err out_of_fuel
read_blocks (suc fuel) len a =
    let more = (do b ← HeaderBlock.unpack; bs ← read_blocks fuel len; pure (b ∷ bs)) in
    if ltb a.pos len then more a else ok ([], a)

abbrev pub no_priority : Priority
no_priority = record { weight = 0; excluded = false; stream_dependency = 0 }

abbrev pub read_priority : M Priority
read_priority = do
  val ← get_int
  weight ← get_byte
  pure (record {
    weight = weight;
    excluded = extract_flag val == 1;
    stream_dependency = extract_int31 val;
  })

-- The padding behind the blocks is read as further blocks.
unfoldable pub get_headers : H2Packet → M Headers
unfolding read_blocks data_len extract_int31 extract_flag
get_headers p = do
  pad ← if padded p.flags then get_byte else pure 0
  depends ← if priority p.flags then read_priority else pure no_priority
  blocks ← read_blocks (suc (data_len p.packet)) (data_len p.packet)
  pure (record { header_blocks = blocks; pad_length = pad; depends = depends })

unfoldable pub put_preface : M (Unit {0})
put_preface = put_bytes connection_preface

-- The protocol's name in the preface.
unfoldable pub get_preface : M Bytes
get_preface = do preface_data ← get_bytes 24; pure (slice 6 14 preface_data)
