-- ===== src/Http2/Command/RoundTrip.antt =====
-- The payloads of the HTTP/2 commands: what is written, and that it is read back.
use mathlib.Core.Path.{subst}
use bay_server_python.Prelude.{
  ℕ, zero, suc, ◌+◌, ◌-◌, ◌^◌, Bool-cases, inl, inr, ◌≤◌, ◌<◌, ◌≡◌, refl, sym, ap, ◌∙◌, Bytes, List,
  [], ◌∷◌, ◌++◌, append-nil, length, length-append, ltb, lt→ltb, le→ltb, ◌==◌, Bool, true, false,
  All, arith,
}
use bay_server_python.Prelude.Bits.{
  bit_and_mask, bit_and_mask_lt, bit_or_disjoint, bit_and_top_set, bit_and_top_clear,
}
use bay_server_python.Prelude.Results.{ok}
use bay_server_python.Protocol.Packet.{data_len}
use bay_server_python.Protocol.Accessor.{
  Accessor, bind-ok, put_int, get_byte, get_short, get_int, get_bytes,
}
use bay_server_python.Protocol.Accessor.Append.{
  Appends, Appends->>, short_bytes, int_bytes, appended-nil, put_byte-Appends, put_short-Appends,
  put_int-Appends, put_bytes-Appends,
}
use bay_server_python.Protocol.Accessor.Read.{
  Holds, Holds-advanced, Reads, Reads->>=, Reads-map, pure-Reads, advanced, get_byte-Reads,
  get_bytes-Reads, get_int-int_bytes, get_short-short_bytes,
}
use bay_server_python.Http2.HpackInt.RoundTrip.{hpack_bytes, string_bytes}
use bay_server_python.Http2.HeaderBlock
use bay_server_python.Http2.HeaderBlock.{HeaderBlock}
use bay_server_python.Http2.HeaderBlock.RoundTrip.{
  block_bytes, IsPackable, IsRead, pack-Appends, unpack-block_bytes,
}
use bay_server_python.Http2.Unpacker.{H2Packet}
use bay_server_python.Http2.Command.{
  extract_int31, extract_flag, consolidate_flag_and_int32, make_stream_depency32, GoAway,
  put_go_away, get_go_away, get_rest, put_unless_empty, Priority, put_priority, get_priority,
}
use bay_server_python.Http2.Command.Lists.{
  Item, put_items, get_items, write_header_block, read_blocks,
}

-- The 32 bits of a flag and a number of 31 bits.
abbrev pub flag_bit : Bool → ℕ
flag_bit true = 2147483648
flag_bit false = 0

flag_bit_le : (e : Bool) → flag_bit e ≤ 2147483648
flag_bit_le true = omega arith
flag_bit_le false = omega arith

make_stream_depency32-eq :
    (e : Bool) (dep : ℕ) → dep < 2147483648 → make_stream_depency32 e dep ≡ flag_bit e + dep
unfolding make_stream_depency32 extract_int31
make_stream_depency32-eq true dep h = rw (bit_and_mask_lt 31 dep h) (bit_or_disjoint 31 1 dep h)
make_stream_depency32-eq false dep h = rw (bit_and_mask_lt 31 dep h) (bit_or_disjoint 31 0 dep h)

extract_int31-eq : (e : Bool) (dep : ℕ) → dep < 2147483648 → extract_int31 (flag_bit e + dep) ≡ dep
unfolding extract_int31
extract_int31-eq true dep h = bit_and_mask 31 (2147483648 + dep) ∙ omega (arith, h)
extract_int31-eq false dep h = bit_and_mask 31 (0 + dep) ∙ omega (arith, h)

pub consolidate-eq : (n : ℕ) → n < 2147483648 → consolidate_flag_and_int32 0 n ≡ n
unfolding consolidate_flag_and_int32
consolidate-eq n h = rw (bit_and_mask_lt 31 n h) (bit_or_disjoint 31 0 n h ∙ omega arith)

abbrev pub priority_bytes : Priority → Bytes
priority_bytes c = int_bytes (flag_bit c.excluded + c.stream_dependency) ++ (c.weight ∷ [])

pub put_priority-Appends :
    (c : Priority)
    → c.weight < 256
    → c.stream_dependency < 2147483648
    → Appends (put_priority c) (priority_bytes c)
unfolding put_priority
put_priority-Appends c hw hd = rw (make_stream_depency32-eq c.excluded c.stream_dependency hd) (
    Appends->> _ _ (int_bytes (flag_bit c.excluded + c.stream_dependency)) (c.weight ∷ [])
      (put_int-Appends (flag_bit c.excluded + c.stream_dependency)) (put_byte-Appends c.weight hw))

abbrev pub item_bytes : List Item → Bytes
item_bytes [] = []
item_bytes (i ∷ is) = short_bytes i.id ++ (int_bytes i.value ++ item_bytes is)

pub put_items-Appends : (is : List Item) → Appends (put_items is) (item_bytes is)
unfolding put_items
put_items-Appends [] = λ a e. ap (λ b. ok (tt, b)) (sym (appended-nil a))
put_items-Appends (i ∷ is) =
    Appends->> _ _ (short_bytes i.id) (int_bytes i.value ++ item_bytes is) (put_short-Appends i.id)
      (Appends->> _ _ (int_bytes i.value) (item_bytes is) (put_int-Appends i.value)
        (put_items-Appends is))

-- An item fits its fields.
abbrev pub ItemFits : Item → Type 0
ItemFits i = (i.id < 65536) × (i.value < 4294967296)

pub get_items-Reads :
    (fuel len pos : ℕ) (is : List Item)
    → All ItemFits is
    → len ≡ pos + length (item_bytes is)
    → length (item_bytes is) < fuel
    → Reads (get_items fuel len pos) (item_bytes is) is
unfolding get_items
get_items-Reads zero len pos is fit e enough a rest hold = absurd (omega (arith, enough))
get_items-Reads (suc fuel) len pos [] fit e enough a rest hold =
    rw (get_items, le→ltb pos len (omega (arith, e))) (pure-Reads [] a rest hold)
get_items-Reads (suc fuel) len pos (i ∷ is) fit e enough a rest hold =
    rw (get_items, lt→ltb pos len (omega (arith, e)))
      (Reads->>= get_short _ (short_bytes i.id) (int_bytes i.value ++ item_bytes is) i.id (i ∷ is)
        (get_short-short_bytes i.id fit.0.0)
        (Reads->>= get_int _ (int_bytes i.value) (item_bytes is) i.value (i ∷ is)
          (get_int-int_bytes i.value fit.0.1)
          (Reads-map (get_items fuel len (pos + 6)) (λ l. i ∷ l) (item_bytes is) is
            (get_items-Reads fuel len (pos + 6) is fit.1 (omega (arith, e))
              (omega (arith, enough)))))
        a rest hold)

abbrev pub blocks_bytes : List HeaderBlock → Bytes
blocks_bytes [] = []
blocks_bytes (b ∷ bs) = block_bytes b ++ blocks_bytes bs

pub write_header_block-Appends :
    (bs : List HeaderBlock) → All IsPackable bs → Appends (write_header_block bs) (blocks_bytes bs)
unfolding write_header_block
write_header_block-Appends [] h = λ a e. ap (λ b. ok (tt, b)) (sym (appended-nil a))
write_header_block-Appends (b ∷ bs) h =
    Appends->> (HeaderBlock.pack b) (write_header_block bs) (block_bytes b) (blocks_bytes bs)
      (pack-Appends b h.0) (write_header_block-Appends bs h.1)

hpack_bytes_some : (v p head : ℕ) → 0 < length (hpack_bytes v p head)
unfolding hpack_bytes
hpack_bytes_some v p head = elim (Bool-cases (ltb v (2 ^ p - 1))) [
  | inl e ↦ rw e (omega arith)
  | inr e ↦ rw e (omega arith)
]

block_bytes_some : (b : HeaderBlock) → IsRead b → 0 < length (block_bytes b)
block_bytes_some (HeaderBlock.index i) h = hpack_bytes_some i 7 1
block_bytes_some (HeaderBlock.known_header i v) h =
    omega (arith, hpack_bytes_some i 4 0, length-append (hpack_bytes i 4 0) (string_bytes 0 v))
block_bytes_some (HeaderBlock.unknown_header n v) h = omega arith
block_bytes_some (HeaderBlock.overload_known_header i v) h = absurd h
block_bytes_some (HeaderBlock.new_header n v) h = absurd h
block_bytes_some (HeaderBlock.update_dynamic_table_size n) h = absurd h

pub read_blocks-eq :
    (fuel len : ℕ) (bs : List HeaderBlock) (a : Accessor)
    → All IsRead bs
    → Holds a (blocks_bytes bs)
    → len ≡ a.pos + length (blocks_bytes bs)
    → length (blocks_bytes bs) < fuel
    → (b : Accessor) × (read_blocks fuel len a ≡ ok (bs, b))
unfolding read_blocks
read_blocks-eq zero len bs a h hold e enough = absurd (omega (arith, enough))
read_blocks-eq (suc fuel) len [] a h hold e enough =
    (a, rw (read_blocks, le→ltb a.pos len (omega (arith, e))) refl)
read_blocks-eq (suc fuel) len (b ∷ bs) a h hold e enough =
    let s = block_bytes b in
    let size = length-append s (blocks_bytes bs) in
    let some_bytes = block_bytes_some b h.0 in
    let (c, rest) =
      read_blocks-eq fuel len bs (advanced (length s) a) h.1
        (Holds-advanced s (blocks_bytes bs) a hold) (omega (arith, e, size))
        (omega (arith, enough, size, some_bytes)) in
    (
      c,
      rw (read_blocks, lt→ltb a.pos len (omega (arith, e, size, some_bytes)))
          (bind-ok HeaderBlock.unpack _ {a = a} (unpack-block_bytes b h.0 a (blocks_bytes bs) hold)
            ∙ bind-ok (read_blocks fuel len) _ {a = advanced (length s) a} rest),
    )

abbrev pub go_away_bytes : GoAway → Bytes
go_away_bytes c = int_bytes c.last_stream_id ++ (int_bytes c.error_code ++ c.debug_data)

put_unless_empty-Appends : (s : Bytes) → Appends (put_unless_empty s) s
put_unless_empty-Appends [] = λ a e. ap (λ b. ok (tt, b)) (sym (appended-nil a))
put_unless_empty-Appends (b ∷ s) = put_bytes-Appends (b ∷ s)

pub put_go_away-Appends : (c : GoAway) → Appends (put_go_away c) (go_away_bytes c)
unfolding put_go_away
put_go_away-Appends c =
    Appends->> (put_int c.last_stream_id) _ (int_bytes c.last_stream_id)
      (int_bytes c.error_code ++ c.debug_data) (put_int-Appends c.last_stream_id)
      (Appends->> (put_int c.error_code) _ (int_bytes c.error_code) c.debug_data
        (put_int-Appends c.error_code) (put_unless_empty-Appends c.debug_data))

abbrev goes : ℕ → ℕ → Bytes → GoAway
goes last code debug = record { last_stream_id = last; error_code = code; debug_data = debug }

pub get_go_away-eq :
    (c : GoAway) (p : H2Packet) (a : Accessor)
    → c.last_stream_id < 2147483648
    → c.error_code < 4294967296
    → Holds a (go_away_bytes c)
    → a.pos ≡ 0
    → data_len p.packet ≡ length (go_away_bytes c)
    → (b : Accessor) × (get_go_away p a ≡ ok (c, b))
unfolding get_go_away extract_int31
get_go_away-eq c p a hl hc hold start size =
    let rest = int_bytes c.error_code ++ c.debug_data in
    let a1 = advanced 4 a in
    let a2 = advanced 4 a1 in
    let hold1 = Holds-advanced (int_bytes c.last_stream_id) rest a hold in
    let hold2 = Holds-advanced (int_bytes c.error_code) c.debug_data a1 hold1 in
    let left : data_len p.packet - a2.pos ≡ length c.debug_data = omega (arith, size, start) in
    let stream : extract_int31 c.last_stream_id ≡ c.last_stream_id =
      bit_and_mask_lt 31 c.last_stream_id hl in
    let reads : get_bytes (data_len p.packet - a2.pos) a2
        ≡ ok (c.debug_data, advanced (length c.debug_data) a2) =
      ap (λ n. get_bytes n a2) left
      ∙ get_bytes-Reads c.debug_data a2 []
          (subst (Holds a2) (sym (append-nil c.debug_data)) hold2) in
    (
      advanced (length c.debug_data) a2,
      bind-ok get_int _ {a = a} (get_int-int_bytes c.last_stream_id (omega (arith, hl)) a rest hold)
          ∙ bind-ok get_int _ {a = a1} (get_int-int_bytes c.error_code hc a1 c.debug_data hold1)
          ∙ bind-ok (get_rest p) _ {a = a2} reads
          ∙ rw stream refl,
    )

extract_flag-eq :
    (e : Bool) (dep : ℕ) → dep < 2147483648 → (extract_flag (flag_bit e + dep) == 1) ≡ e
unfolding extract_flag
extract_flag-eq true dep h = rw (bit_and_top_set 31 dep h) refl
extract_flag-eq false dep h =
    let low : 0 + dep ≡ dep = omega arith in rw (low, bit_and_top_clear 31 dep h) refl

abbrev prioritized : ℕ → Bool → ℕ → Priority
prioritized weight excluded dep = record {
  weight = weight;
  excluded = excluded;
  stream_dependency = dep;
}

pub get_priority-Reads :
    (c : Priority) (p : H2Packet)
    → c.weight < 256
    → c.stream_dependency < 2147483648
    → Reads (get_priority p) (priority_bytes c) c
unfolding get_priority
get_priority-Reads c p hw h =
    let val = flag_bit c.excluded + c.stream_dependency in
    let bound = flag_bit_le c.excluded in
    Reads->>= get_int _ (int_bytes val) (c.weight ∷ []) val c
      (get_int-int_bytes val (omega (arith, bound, h)))
      (subst (Reads _ (c.weight ∷ []))
        (λ i.
          prioritized c.weight (extract_flag-eq c.excluded c.stream_dependency h i)
            (extract_int31-eq c.excluded c.stream_dependency h i))
        (Reads-map get_byte (λ w. prioritized w (extract_flag val == 1) (extract_int31 val))
          (c.weight ∷ []) c.weight (get_byte-Reads c.weight)))
