-- ===== src/Http2/CommandUnpacker/RoundTrip.antt =====
-- A command that is packed is the command that the other side reads.
use mathlib.Core.Path.{subst}
use bay_server_python.Prelude.{
  ℕ, suc, ◌+◌, ◌-◌, ◌<◌, ◌≡◌, ◌≢◌, append_assoc, refl, sym, ap, ◌∙◌, Bytes, List, [], ◌++◌, length,
  slice, slice_middle, append-nil, false, All, arith,
}
use bay_server_python.Prelude.Bits.{bit_and_mask_lt}
use bay_server_python.Prelude.Results.{Result, ok, ◌>>=◌}
use bay_server_python.Protocol.Packet.{data_len}
use bay_server_python.Protocol.Accessor.{M, bind-ok, new_data_accessor, get_int}
use bay_server_python.Protocol.Accessor.Append.{
  Appends, int_bytes, put_int-Appends, put_bytes-Appends,
}
use bay_server_python.Protocol.Accessor.Read.{Reads, Reads-map, get_int-int_bytes, get_bytes-Reads}
use bay_server_python.Http2.Flags.{padded, priority, ack}
use bay_server_python.Http2.HeaderBlock.RoundTrip.{IsPackable, IsRead}
use bay_server_python.Protocol.Receiver.{Action, continue}
use bay_server_python.Http2.Unpacker.{H2Packet, Unpacker, frames, reset_state}
use bay_server_python.Http2.Unpacker.Frames.{frame_header, frame_packet, frames-frame}
use bay_server_python.Http2.Command.{
  extract_int31, unpack, put_data, get_data, GoAway, Priority, put_window_update, get_window_update,
  get_rst_stream, put_rst_stream, get_ping, get_go_away, get_priority, put_ping,
}
use bay_server_python.Http2.Command.Lists.{
  Item, put_settings, get_settings, Headers, put_headers, get_headers, read_blocks, no_priority,
}
use bay_server_python.Http2.Command.Frames.{pack-eq, unpack-eq, unpack-Reads, frame_packet-Holds}
use bay_server_python.Http2.Command.RoundTrip.{
  priority_bytes, put_priority-Appends, get_priority-Reads, item_bytes, put_items-Appends, ItemFits,
  get_items-Reads, blocks_bytes, write_header_block-Appends, read_blocks-eq, go_away_bytes,
  put_go_away-Appends, get_go_away-eq, consolidate-eq,
}
use bay_server_python.Http2.CommandUnpacker.{
  H2Command, send_data, headers, prioritize, rst_stream, settings, ping, go_away, window_update,
  preface, kind_of, put_command, pack_command, read_command, packet_received, command_receiver,
}

-- What the fields of a command hold, and the frames without padding, priority or acknowledgement.
abbrev pub IsPlain : ℕ → H2Command → Type 0
IsPlain flags (send_data buf) = padded flags ≡ false
IsPlain flags (headers c) =
    (padded flags ≡ false)
    × (priority flags ≡ false)
    × All IsPackable c.header_blocks
    × All IsRead c.header_blocks
    × (c.pad_length ≡ 0)
    × (c.depends ≡ no_priority)
IsPlain flags (prioritize c) = (c.weight < 256) × (c.stream_dependency < 2147483648)
IsPlain flags (rst_stream code) = code < 4294967296
IsPlain flags (settings items) = (ack flags ≡ false) × All ItemFits items
IsPlain flags (ping d) = length d ≡ 8
IsPlain flags (go_away c) = (c.last_stream_id < 2147483648) × (c.error_code < 4294967296)
IsPlain flags (window_update n) = n < 2147483648
IsPlain flags (preface name) = ⊥

-- The payload of the specification.
abbrev pub payload : H2Command → Bytes
payload (send_data buf) = buf
payload (headers c) = blocks_bytes c.header_blocks
payload (prioritize c) = priority_bytes c
payload (rst_stream code) = int_bytes code
payload (settings items) = item_bytes items
payload (ping d) = d
payload (go_away c) = go_away_bytes c
payload (window_update n) = int_bytes n
payload (preface name) = []

put_command-Appends :
    (flags : ℕ) (c : H2Command) → IsPlain flags c → Appends (put_command flags c) (payload c)
unfolding put_data put_headers put_rst_stream put_settings put_window_update put_ping
put_command-Appends flags (send_data buf) h = λ a e. rw (put_data, h) (put_bytes-Appends buf a e)
put_command-Appends flags (headers c) (unpadded, plain, packs, reads, pad, dep) =
    λ a e. rw (put_headers, unpadded, plain) (write_header_block-Appends c.header_blocks packs a e)
put_command-Appends flags (prioritize c) h = put_priority-Appends c h.0 h.1
put_command-Appends flags (rst_stream code) h = put_int-Appends code
put_command-Appends flags (settings items) h =
    λ a e. rw (put_settings, h.0) (put_items-Appends items a e)
put_command-Appends flags (ping d) h = put_bytes-Appends d
put_command-Appends flags (go_away c) h = put_go_away-Appends c
put_command-Appends flags (window_update n) h =
    λ a e. rw (put_window_update, consolidate-eq n h) (put_int-Appends n a e)
put_command-Appends flags (preface name) h = absurd h

module _ (flags stream_id : ℕ) where
  abbrev frame : H2Command → H2Packet
  frame c = frame_packet (kind_of c) flags stream_id (payload c)

  -- What `unpack` of a command's class gets from the frame.
  abbrev Gets : {A : Type 0} → (H2Packet → M A) → H2Command → A → Type 0
  Gets get c v = unpack get (frame c) ≡ ok (stream_id, flags, v)

  data_len-frame : (c : H2Command) → data_len (frame c).packet ≡ length (payload c)
  unfolding data_len
  data_len-frame c = omega arith

  get_data-frame : (buf : Bytes) → Gets get_data (send_data buf) buf
  unfolding get_data data_len
  get_data-frame buf =
      let p = frame (send_data buf) in
      let header = frame_header (length buf) 0 flags stream_id in
      let inside : slice 9 (9 + (9 + length buf - 9)) p.packet.buf ≡ buf =
        ap (λ t. slice 9 (9 + (9 + length buf - 9)) (header ++ t)) (sym (append-nil buf))
        ∙ slice_middle 9 (9 + (9 + length buf - 9)) header buf [] refl (omega arith) in
      unpack-eq get_data p buf (new_data_accessor p.packet)
        (ap (λ t. ok (t, new_data_accessor p.packet)) inside)

  get_headers-frame : (c : Headers) → IsPlain flags (headers c) → Gets get_headers (headers c) c
  unfolding get_headers new_data_accessor
  get_headers-frame c (unpadded, plain, packs, reads, pad, dep) =
      let p = frame (headers c) in
      let size = data_len-frame (headers c) in
      let (b, blocks) =
        read_blocks-eq (suc (data_len p.packet)) (data_len p.packet) c.header_blocks
          (new_data_accessor p.packet) reads
          (frame_packet-Holds 1 flags stream_id (payload (headers c))) (omega (arith, size))
          (omega (arith, size)) in
      unpack-eq get_headers p c b (
        rw (get_headers, unpadded, plain)
          (bind-ok (read_blocks (suc (data_len p.packet)) (data_len p.packet)) _
              {a = new_data_accessor p.packet} blocks
            ∙ λ i. ok (record c { pad_length = sym pad i; depends = sym dep i }, b)))

  get_settings-frame :
      (items : List Item)
      → IsPlain flags (settings items)
      → Gets get_settings (settings items) items
  unfolding get_settings
  get_settings-frame items h =
      let p = frame (settings items) in
      let size = data_len-frame (settings items) in
      unpack-Reads get_settings 4 flags stream_id (item_bytes items) items (λ a rest hold.
        rw (get_settings, h.0)
          (get_items-Reads (suc (data_len p.packet)) (data_len p.packet) 0 items h.1
            (omega (arith, size)) (omega (arith, size)) a rest hold))

  get_go_away-frame : (c : GoAway) → IsPlain flags (go_away c) → Gets get_go_away (go_away c) c
  get_go_away-frame c h =
      let p = frame (go_away c) in
      let (b, reads) =
        get_go_away-eq c p (new_data_accessor p.packet) h.0 h.1
          (frame_packet-Holds 7 flags stream_id (go_away_bytes c))
          (unfold new_data_accessor in refl) (data_len-frame (go_away c)) in
      unpack-eq get_go_away p c b reads

  get_window_update-frame : (n : ℕ) → n < 2147483648 → Gets get_window_update (window_update n) n
  unfolding get_window_update extract_int31
  get_window_update-frame n h = unpack-Reads get_window_update 8 flags stream_id (int_bytes n) n (
      subst (Reads (get_window_update (frame (window_update n))) (int_bytes n))
        (bit_and_mask_lt 31 n h)
        (Reads-map get_int extract_int31 (int_bytes n) n (get_int-int_bytes n (omega (arith, h)))))

  get_rst_stream-frame : (n : ℕ) → n < 4294967296 → Gets get_rst_stream (rst_stream n) n
  unfolding get_rst_stream
  get_rst_stream-frame n h =
      unpack-Reads get_rst_stream 3 flags stream_id (int_bytes n) n (get_int-int_bytes n h)

  get_ping-frame : (d : Bytes) → length d ≡ 8 → Gets get_ping (ping d) d
  unfolding get_ping
  get_ping-frame d h = unpack-Reads get_ping 6 flags stream_id d d (rw (sym h) (get_bytes-Reads d))

  get_priority-frame :
      (c : Priority) → IsPlain flags (prioritize c) → Gets get_priority (prioritize c) c
  get_priority-frame c h =
      unpack-Reads get_priority 2 flags stream_id (priority_bytes c) c
        (get_priority-Reads c (frame (prioritize c)) h.0 h.1)

  kind_lt : (c : H2Command) → IsPlain flags c → kind_of c < 256
  kind_lt (send_data buf) h = omega arith
  kind_lt (headers c) h = omega arith
  kind_lt (prioritize c) h = omega arith
  kind_lt (rst_stream code) h = omega arith
  kind_lt (settings items) h = omega arith
  kind_lt (ping d) h = omega arith
  kind_lt (go_away c) h = omega arith
  kind_lt (window_update n) h = omega arith
  kind_lt (preface name) h = absurd h

  abbrev made : {A : Type 0} → (A → H2Command) → Result (ℕ × ℕ × A) → Result (ℕ × ℕ × H2Command)
  made make r = r >>= λ x. ok (x.0, x.1, make x.2)

  read_command-frame :
      (c : H2Command) → IsPlain flags c → read_command (frame c) ≡ ok (stream_id, flags, c)
  unfolding read_command
  read_command-frame (send_data buf) h = ap (made send_data) (get_data-frame buf)
  read_command-frame (headers c) h = ap (made headers) (get_headers-frame c h)
  read_command-frame (prioritize c) h = ap (made prioritize) (get_priority-frame c h)
  read_command-frame (rst_stream code) h = ap (made rst_stream) (get_rst_stream-frame code h)
  read_command-frame (settings items) h = ap (made settings) (get_settings-frame items h)
  read_command-frame (ping d) h = ap (made ping) (get_ping-frame d h)
  read_command-frame (go_away c) h = ap (made go_away) (get_go_away-frame c h)
  read_command-frame (window_update n) h = ap (made window_update) (get_window_update-frame n h)
  read_command-frame (preface name) h = absurd h

-- Every kind of frame, without padding, priority or acknowledgement and with fields that fit: its packet is
-- the frame of the specification with the command's payload, and from this packet the other side's
-- handler gets the command, with its stream and its flags.
pub command-roundtrip :
    {R : Type 0} (handle : ℕ × ℕ × H2Command → Result R) (stream_id flags : ℕ) (c : H2Command)
    → stream_id < 2147483648
    → flags < 256
    → IsPlain flags c
    → (p : H2Packet) × (pack_command stream_id flags c ≡ ok p)
      × (p ≡ frame_packet (kind_of c) flags stream_id (payload c))
      × (packet_received handle p ≡ handle (stream_id, flags, c))
unfolding pack_command packet_received
command-roundtrip handle stream_id flags c hs hf h = (
  frame_packet (kind_of c) flags stream_id (payload c),
  pack-eq (put_command flags c) (kind_of c) flags stream_id (payload c)
      (kind_lt flags stream_id c h) hf hs (put_command-Appends flags c h),
  refl,
  ap (λ r. r >>= handle) (read_command-frame flags stream_id c h),
)

-- From one end of a connection to the other, for every kind of frame without padding, priority or
-- acknowledgement, with fields that fit, header blocks that are an index below 127 or a literal by index or
-- by name with texts in ASCII, and less than 2^24 bytes of payload, for a handler that goes on: the bytes of
-- the packed command, read in front of a frame and with bytes in the frame or behind it, reach the other side's
-- handler as this command with its stream and flags, and the bytes behind them are read in front of a frame
-- again.
pub command-received :
    {H : Type 0} (handle : H → ℕ × ℕ × H2Command → H × Result Action) (h h' : H) (u : Unpacker)
    (stream_id flags : ℕ) (c : H2Command) (rest : Bytes)
    → stream_id < 2147483648
    → flags < 256
    → IsPlain flags c
    → length (payload c) < 16777216
    → payload c ++ rest ≢ []
    → handle h (stream_id, flags, c) ≡ (h', ok continue)
    → (p : H2Packet) × (pack_command stream_id flags c ≡ ok p)
      × (frames (command_receiver handle) (h, reset_state u) (p.packet.buf ++ rest)
          ≡ frames (command_receiver handle) (h', reset_state u) rest)
unfolding pack_command
command-received handle h h' u stream_id flags c rest hs hf plain size some_bytes goes =
    let p = frame_packet (kind_of c) flags stream_id (payload c) in
    let header = frame_header (length (payload c)) (kind_of c) flags stream_id in
    let receives : command_receiver handle h p ≡ (h', ok continue) =
      rw (command_receiver, read_command-frame flags stream_id c plain) goes in
    (
      p,
      pack-eq (put_command flags c) (kind_of c) flags stream_id (payload c)
          (kind_lt flags stream_id c plain) hf hs (put_command-Appends flags c plain),
      ap (frames (command_receiver handle) (h, reset_state u))
            (append_assoc header (payload c) rest)
          ∙ frames-frame (command_receiver handle) h h' u (kind_of c) flags stream_id (payload c)
              rest size hs some_bytes receives,
    )
