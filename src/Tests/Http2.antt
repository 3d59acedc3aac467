-- ===== src/Tests/Http2.antt =====
-- HTTP/2 at concrete inputs.
use bay_server_python.Prelude.{
  ℕ, ◌+◌, ◌<◌, ◌≡◌, ◌≢◌, refl, Bytes, [], ◌∷◌, ◌++◌, codes, length, true, false, none, arith,
  replicate, ap, sym, append-nil, text_eq,
}
use bay_server_python.Prelude.Results.{ok, err, runtime_error}
use bay_server_python.Protocol.Packet.{Packet}
use bay_server_python.Protocol.Accessor.{new_data_accessor, read_limit}
use bay_server_python.Protocol.Accessor.Append.{IsAtEnd, appended}
use bay_server_python.Protocol.Accessor.Read.{Holds, advanced}
use bay_server_python.Protocol.Accessor.Fill.{packet_of}
use bay_server_python.Protocol.Pump.{pump, stuck}
use bay_server_python.Protocol.Receiver.{continue, Receiver}
use bay_server_python.Util.StringUtil.{is_ascii}
use bay_server_python.Http2.Huffman.{all_bits, decode, bits_of}
use bay_server_python.Http2.Huffman.Decode.{code_of, encode_bits, decode_zero}
use bay_server_python.Http2.HpackInt.{get_hpack_int}
use bay_server_python.Http2.HpackInt.RoundTrip.{hpack_bytes, groups, get_hpack_int-Reads}
use bay_server_python.Http2.HeaderTable.{get, insert, name_get, empty, static_table, get_idx_list}
use bay_server_python.Http2.HeaderTable.Laws.{get_idx_list-insert}
use bay_server_python.Http2.HeaderBlock.{HeaderBlock, index, known_header, pack, unpack}
use bay_server_python.Http2.HeaderBlock.RoundTrip.{
  block_bytes, pack-Appends, unpack-block_bytes, unpack_large_index,
}
use bay_server_python.Http2.HeaderCoding.{build_header_block, analyze_header_block}
use bay_server_python.Http2.HeaderCoding.Fields.{Analysed}
use bay_server_python.Http2.HeaderCoding.RoundTrip.{analyze-build_header_block}
use bay_server_python.Http2.Unpacker.{
  read_length, Unpacker, H2Packet, reset_state, frames, fuel, step, read_header_item,
}
use bay_server_python.Http2.Unpacker.Chunks.{frames-append, frames_end}
use bay_server_python.Http2.Unpacker.Frames.{
  frame_header, frames-frame, frames-empty_frame, header_read,
}

-- The accessor in front of some bytes of a packet, and the one behind them.
abbrev packet_with : Bytes → Packet
packet_with s = packet_of 1 16384 (replicate 9 0) s

packet_with-Holds : (s : Bytes) → length s < 20 → Holds (new_data_accessor (packet_with s)) s
unfolding new_data_accessor read_limit
packet_with-Holds s h = record {
  front = replicate 9 0;
  back = [];
  splits = ap (λ t. replicate 9 0 ++ t) (sym (append-nil s));
  before = refl;
  limit = omega arith;
}

blank-IsAtEnd : IsAtEnd (new_data_accessor (packet_with []))
unfolding new_data_accessor
blank-IsAtEnd = record { at_end = refl; tight = refl; unlimited = refl }

-- 1337 under a prefix of five bits, as in RFC 7541.
abbrev coded_1337 : Bytes
coded_1337 = 31 ∷ 154 ∷ 10 ∷ []

coded_1337-hpack_bytes : hpack_bytes 1337 5 0 ≡ coded_1337
unfolding hpack_bytes groups
coded_1337-hpack_bytes = refl

get_hpack_int-Reads_example :
    get_hpack_int 5 (new_data_accessor (packet_with (hpack_bytes 1337 5 0 ++ (7 ∷ []))))
    ≡ ok (
      (1337, 0),
      advanced
          (length (hpack_bytes 1337 5 0))
          (new_data_accessor (packet_with (hpack_bytes 1337 5 0 ++ (7 ∷ [])))),
    )
get_hpack_int-Reads_example =
    get_hpack_int-Reads 1337 5 0 (omega arith)
      (new_data_accessor (packet_with (hpack_bytes 1337 5 0 ++ (7 ∷ [])))) (7 ∷ [])
      (packet_with-Holds (hpack_bytes 1337 5 0 ++ (7 ∷ []))
        (unfold hpack_bytes groups in omega arith))

-- `:authority: a.com`
abbrev authority : HeaderBlock
authority = known_header 1 (codes "a.com")

authority_ascii : is_ascii (codes "a.com") ≡ true
unfolding is_ascii
authority_ascii = refl

pack-Appends_example :
    pack authority (new_data_accessor (packet_with []))
    ≡ ok (tt, appended (block_bytes authority) (new_data_accessor (packet_with [])))
pack-Appends_example =
    pack-Appends authority authority_ascii (new_data_accessor (packet_with [])) blank-IsAtEnd

unpack-block_bytes_example :
    unpack (new_data_accessor (packet_with (block_bytes authority ++ [])))
    ≡ ok (
      authority,
      advanced
          (length (block_bytes authority))
          (new_data_accessor (packet_with (block_bytes authority ++ []))),
    )
unpack-block_bytes_example =
    unpack-block_bytes authority ((λ e. absurd (omega (arith, e))), authority_ascii)
      (new_data_accessor (packet_with (block_bytes authority ++ []))) []
      (packet_with-Holds (block_bytes authority ++ []) (unfold hpack_bytes in omega arith))

unpack_large_index_example :
    (unpack (new_data_accessor (packet_with (block_bytes (index 200) ++ [])))
      ≡ ok
          (index 127, advanced 1 (new_data_accessor (packet_with (block_bytes (index 200) ++ [])))))
    × (1 < length (block_bytes (index 200)))
unpack_large_index_example =
    unpack_large_index 200 (omega arith)
      (new_data_accessor (packet_with (block_bytes (index 200) ++ []))) []
      (packet_with-Holds (block_bytes (index 200) ++ []) (unfold hpack_bytes groups in omega arith))

-- The text "a" is coded by 00011, and 0 by 1111111111000; a one and more bits follow.
decode_zero_example : decode (0x1f ∷ 0xfe ∷ 0x3f ∷ []) ≡ err runtime_error
decode_zero_example =
    decode_zero (codes "a") (0x1f ∷ 0xfe ∷ 0x3f ∷ []) true (true ∷ true ∷ true ∷ true ∷ true ∷ [])
      ((omega arith, omega arith), tt) (unfold all_bits bits_of encode_bits code_of in refl)

abbrev x_name : Bytes
x_name = codes "x-a"

no_name : name_get x_name [] ≡ none
unfolding name_get
no_name = refl

no_static_name : name_get x_name static_table.name_map ≡ none
unfolding name_get static_table text_eq
no_static_name = refl

get_idx_list-insert_example :
    (get_idx_list x_name (insert x_name (codes "1") empty) ≡ 61 ∷ [])
    × (get 61 (insert x_name (codes "1") empty)
        ≡ ok (record { name = codes "www-authenticate"; value = [] }))
    × (get 62 (insert x_name (codes "1") empty) ≡ ok (record { name = x_name; value = codes "1" }))
get_idx_list-insert_example = get_idx_list-insert x_name (codes "1") empty no_static_name no_name

analyze-build_header_block_example :
    (b : HeaderBlock) × (build_header_block (codes ":path") (codes "/a") empty ≡ ok b)
    × Analysed (codes ":path") (codes "/a") empty (analyze_header_block b empty)
analyze-build_header_block_example =
    analyze-build_header_block (codes ":path") (codes "/a") empty (unfold name_get in refl)

-- A handler that counts the frames.
abbrev counter : Receiver ℕ H2Packet
counter n p = (n + 1, ok continue)

abbrev blank : Unpacker
blank = reset_state (record {
  state = read_length;
  tmp_buf = [];
  item_start = 0;
  item_len = 3;
  item_pos = 0;
  preface_read = true;
  kind = 0;
  payload_len = 0;
  flags = 0;
  stream_id = 0;
  server_mode = true;
})

abbrev ping : Bytes
ping = frame_header 2 6 0 3 ++ (1 ∷ 2 ∷ [])

frames-frame_example :
    frames counter (0, reset_state blank) (frame_header 2 6 0 3 ++ ((1 ∷ 2 ∷ []) ++ (5 ∷ [])))
    ≡ frames counter (1, reset_state blank) (5 ∷ [])
frames-frame_example =
    frames-frame counter 0 1 blank 6 0 3 (1 ∷ 2 ∷ []) (5 ∷ []) (omega arith) (omega arith) (λ p. cc)
      refl

frames-empty_frame_example :
    frames counter (0, reset_state blank) (frame_header 0 4 1 0)
    ≡ ((0, header_read counter 0 false 0 4 1 0 blank), ok continue)
frames-empty_frame_example = frames-empty_frame counter 0 blank 4 1 0 (omega arith)

frames_end_example :
    pump
      (fuel counter ping)
      (step counter)
      (record { handler = 0; unpacker = blank; suspended = false })
      ping
    ≢ stuck
frames_end_example =
    frames_end counter (record { handler = 0; unpacker = blank; suspended = false }) ping
      (omega arith)

-- Two bytes of the length of a frame.
abbrev begun : Unpacker
begun = record blank { tmp_buf = 0 ∷ 0 ∷ []; item_pos = 2 }

two_bytes : frames counter (0, blank) (0 ∷ 0 ∷ []) ≡ ((0, begun), ok continue)
unfolding frames pump read_header_item
two_bytes = refl

frames-append_example :
    frames counter (0, blank) ((0 ∷ 0 ∷ []) ++ (2 ∷ 6 ∷ 0 ∷ []))
    ≡ frames counter (0, begun) (2 ∷ 6 ∷ 0 ∷ [])
frames-append_example =
    frames-append counter 0 0 blank begun (0 ∷ 0 ∷ []) (2 ∷ 6 ∷ 0 ∷ []) (omega arith) two_bytes
