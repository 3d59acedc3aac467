-- ===== src/Http2/HeaderBlock/RoundTrip.antt =====
-- What `pack` writes, and what `unpack` makes of it.
use bay_server_python.Prelude.Results.{ok}
use mathlib.Core.Path.{subst}
use bay_server_python.Prelude.{
  ℕ, suc, ◌+◌, ◌-◌, ◌≤◌, ◌<◌, ◌≡◌, ◌≢◌, refl, sym, ap, Bytes, [], ◌∷◌, ◌++◌, ltb, lt→ltb, le→ltb,
  ◌==◌, true, false, not, Bool-cases, inl, inr, arith, length,
}
use bay_server_python.Prelude.Bits.{bit_and_mask, bit_and_mask_lt, bit_seven, bit_six, bit_five}
use bay_server_python.Protocol.Accessor.{◌>>=◌, ◌>>◌, pure, put_byte, get_byte, Accessor}
use bay_server_python.Protocol.Accessor.Append.{Appends->>, put_byte-Appends, IsAtEnd, appended}
use bay_server_python.Protocol.Accessor.Read.{
  Reads, Reads->>=, Reads-map, get_byte-Reads, pure-Reads, Holds, advanced,
}
use bay_server_python.Util.StringUtil.{IsAscii}
use bay_server_python.Http2.HpackInt.{
  put_hpack_int, put_hpack_string, get_hpack_int_rest, get_hpack_string,
}
use bay_server_python.Http2.HpackInt.RoundTrip.{
  groups, groups-ne-nil, hpack_bytes, string_bytes, put_hpack_int-Appends, get_hpack_int_rest-Reads,
  put_hpack_string-Appends, get_hpack_string-Reads,
}
use bay_server_python.Http2.HeaderBlock.{
  HeaderBlock, index, overload_known_header, new_header, known_header, unknown_header,
  update_dynamic_table_size, pack, unpack, unpack_byte, full_prefix, read_known, read_unknown, set,
}

-- The bytes of the blocks that `pack` can write.
abbrev pub block_bytes : HeaderBlock → Bytes
block_bytes (index i) = hpack_bytes i 7 1
block_bytes (known_header i v) = hpack_bytes i 4 0 ++ string_bytes 0 v
block_bytes (unknown_header n v) = 0 ∷ (string_bytes 0 n ++ string_bytes 0 v)
block_bytes _ = []

-- The blocks that `pack` writes: of three kinds, with texts in ASCII; for any other it raises.
abbrev pub IsPackable : HeaderBlock → Type 0
IsPackable (overload_known_header i v) = ⊥
IsPackable (new_header n v) = ⊥
IsPackable (update_dynamic_table_size n) = ⊥
IsPackable (index i) = Unit
IsPackable (known_header i v) = IsAscii v
IsPackable (unknown_header n v) = IsAscii n × IsAscii v

-- At the end of a packet, `pack` of a block of an operation that it knows, with texts in ASCII, appends the
-- bytes of the block: the index in HPACK's form under its prefix, and the texts with their lengths.
pub pack-Appends :
    (b : HeaderBlock)
    → IsPackable b
    → (a : Accessor) → IsAtEnd a
    → pack b a ≡ ok (tt, appended (block_bytes b) a)
unfolding pack
pack-Appends (index i) h = put_hpack_int-Appends i 7 1 (omega arith) (omega arith)
pack-Appends (overload_known_header i v) h = absurd h
pack-Appends (new_header n v) h = absurd h
pack-Appends (known_header i v) h =
    Appends->> (put_hpack_int i 4 0) (put_hpack_string v false) (hpack_bytes i 4 0)
      (string_bytes 0 v) (put_hpack_int-Appends i 4 0 (omega arith) (omega arith))
      (put_hpack_string-Appends v h)
pack-Appends (unknown_header n v) h =
    Appends->> (put_byte 0) (do put_hpack_string n false; put_hpack_string v false) (0 ∷ [])
      (string_bytes 0 n ++ string_bytes 0 v) (put_byte-Appends 0 (omega arith))
      (Appends->> (put_hpack_string n false) (put_hpack_string v false) (string_bytes 0 n)
        (string_bytes 0 v) (put_hpack_string-Appends n h.0) (put_hpack_string-Appends v h.1))
pack-Appends (update_dynamic_table_size n) h = absurd h

-- What `unpack` gives back: an indexed field below 127, and a literal with a table index or a name and
-- with texts in ASCII.
abbrev pub IsRead : HeaderBlock → Type 0
IsRead (index i) = i < 127
IsRead (known_header i v) = (i ≢ 0) × IsAscii v
IsRead (unknown_header n v) = IsAscii n × IsAscii v
IsRead _ = ⊥

-- The first byte decides the branch.
first-index : (i : ℕ) → i < 128 → unpack_byte (128 + i) ≡ pure (index i)
first-index i h = rw (bit_seven (128 + i) (omega arith), bit_and_mask 7 (128 + i)) (ground arith)

unpack_index : (i : ℕ) → i < 128 → Reads unpack ((128 + i) ∷ []) (index i)
unfolding unpack
unpack_index i h =
    Reads->>= get_byte unpack_byte ((128 + i) ∷ []) [] (128 + i) (index i)
      (get_byte-Reads (128 + i)) (rw (first-index i h) (pure-Reads (index i)))

no_flags : (b : ℕ) → b < 32 → (set b 0x80 ≡ false) × (set b 0x40 ≡ false) × (set b 0x20 ≡ false)
no_flags b h = (ground (arith, bit_seven b), ground (arith, bit_six b), ground (arith, bit_five b))

first-known : (b : ℕ) → 0 < b → b < 16 → unpack_byte b ≡ read_known b
first-known b p h =
    let (seven, six, five) = no_flags b (omega arith) in
    let some_index : not (b == 0) ≡ true = ground arith in
    rw (seven, six, five, bit_and_mask_lt 4 b h, some_index)

first-unknown : unpack_byte 0 ≡ read_unknown
first-unknown = refl

-- The first byte of a literal's index, and how the rest of the index is read.
record KnownPrefix (i : ℕ) : Type 0 where
  first : ℕ
  more : Bytes
  bytes : hpack_bytes i 4 0 ≡ first ∷ more
  positive : 0 < first
  low : first < 16
  reads : Reads (full_prefix 0xf first) more i

known_prefix : (i : ℕ) → 0 < i → KnownPrefix i
unfolding hpack_bytes
known_prefix i p = elim (Bool-cases (ltb i 15)) [
  | inl small ↦ record {
    first = i;
    more = [];
    bytes = rw small (ap (λ n. n ∷ []) zero_add_i);
    positive = p;
    low = ground arith;
    reads = let partial : (i == 0xf) ≡ false = ground arith in rw partial (pure-Reads i);
  }
  | inr full ↦ record {
    first = 15;
    more = groups (suc (i - 15)) (i - 15);
    bytes = rw full refl;
    positive = omega arith;
    low = omega arith;
    reads = subst (Reads (full_prefix 0xf 15) (groups (suc (i - 15)) (i - 15))) (ground arith) (
        Reads-map get_hpack_int_rest (λ (r : ℕ). 15 + r) (groups (suc (i - 15)) (i - 15)) (i - 15)
          (get_hpack_int_rest-Reads (i - 15)));
  }
]
  where
    zero_add_i : 0 + i ≡ i
    zero_add_i = omega arith

unpack_known :
    (i : ℕ) (v : Bytes)
    → 0 < i
    → IsAscii v
    → Reads unpack (hpack_bytes i 4 0 ++ string_bytes 0 v) (known_header i v)
unfolding unpack
unpack_known i v p h =
    subst (λ t. Reads (get_byte >>= unpack_byte) (t ++ string_bytes 0 v) (known_header i v))
      (sym k.bytes)
      (Reads->>= get_byte unpack_byte (k.first ∷ []) (k.more ++ string_bytes 0 v) k.first
        (known_header i v) (get_byte-Reads k.first)
        (rw (first-known k.first k.positive k.low) (
          Reads->>= (full_prefix 0xf k.first) _ k.more (string_bytes 0 v) i (known_header i v)
            k.reads
            (Reads-map get_hpack_string (known_header i) (string_bytes 0 v) v
              (get_hpack_string-Reads v h)))))
  where
    k : KnownPrefix i
    k = known_prefix i p

unpack_unknown :
    (n v : Bytes)
    → IsAscii n
    → IsAscii v
    → Reads unpack (0 ∷ (string_bytes 0 n ++ string_bytes 0 v)) (unknown_header n v)
unfolding unpack
unpack_unknown n v hn hv =
    Reads->>= get_byte unpack_byte (0 ∷ []) (string_bytes 0 n ++ string_bytes 0 v) 0
      (unknown_header n v) (get_byte-Reads 0)
      (Reads->>= get_hpack_string _ (string_bytes 0 n) (string_bytes 0 v) n (unknown_header n v)
        (get_hpack_string-Reads n hn)
        (Reads-map get_hpack_string (unknown_header n) (string_bytes 0 v) v
          (get_hpack_string-Reads v hv)))

positive : (i : ℕ) → i ≢ 0 → 0 < i
positive i h = omega (arith, h)

index_bytes : (i : ℕ) → i < 127 → hpack_bytes i 7 1 ≡ (128 + i) ∷ []
unfolding hpack_bytes
index_bytes i h = rw (lt→ltb i 127 h) refl

-- In front of the bytes of an indexed field below 127, or of a literal by index or by name with texts in
-- ASCII, `unpack` returns the block and passes exactly its bytes.
pub unpack-block_bytes :
    (b : HeaderBlock)
    → IsRead b
    → (a : Accessor) (rest : Bytes) → Holds a (block_bytes b ++ rest)
    → unpack a ≡ ok (b, advanced (length (block_bytes b)) a)
unpack-block_bytes (index i) h =
    subst (λ t. Reads unpack t (index i)) (sym (index_bytes i h)) (unpack_index i (omega arith))
unpack-block_bytes (known_header i v) h = unpack_known i v (positive i h.0) h.1
unpack-block_bytes (unknown_header n v) h = unpack_unknown n v h.0 h.1
unpack-block_bytes (overload_known_header i v) h = absurd h
unpack-block_bytes (new_header n v) h = absurd h
unpack-block_bytes (update_dynamic_table_size n) h = absurd h

large_index_bytes : (i : ℕ) → 127 ≤ i → hpack_bytes i 7 1 ≡ 255 ∷ groups (suc (i - 127)) (i - 127)
unfolding hpack_bytes
large_index_bytes i h = rw (le→ltb i 127 h) refl

-- In front of the bytes of an indexed field of 127 or more, `unpack` returns the index 127 and passes the
-- first byte only, though the bytes of the field are several.
pub unpack_large_index :
    (i : ℕ)
    → 127 ≤ i
    → (a : Accessor) (rest : Bytes) → Holds a (block_bytes (index i) ++ rest)
    → (unpack a ≡ ok (index 127, advanced 1 a)) × (1 < length (block_bytes (index i)))
unpack_large_index i h a rest hold =
    let bytes = large_index_bytes i h in
    (
      unpack_index 127 (omega arith) a (groups (suc (i - 127)) (i - 127) ++ rest)
          (subst (λ t. Holds a (t ++ rest)) bytes hold),
      subst (λ t. 1 < length t) (sym bytes)
          (several (groups (suc (i - 127)) (i - 127)) (groups-ne-nil (i - 127))),
    )
  where
    several : (t : Bytes) → t ≢ [] → 1 < length (255 ∷ t)
    several [] ne = absurd (ne refl)
    several (x ∷ t) ne = omega arith
