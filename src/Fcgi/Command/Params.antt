-- ===== src/Fcgi/Command/Params.antt =====
-- The name-value lists of Params are read back.
use bay_server_python.Prelude.{
  ℕ, zero, suc, ◌+◌, ◌*◌, ◌/◌, ◌%◌, ◌^◌, ◌≤◌, ◌<◌, ◌≡◌, sym, ap, ◌∙◌, bit_and, Bytes, List, [], ◌∷◌,
  ◌++◌, length, length-append, append_assoc, append-nil, ltb, ◌==◌, if◌then◌else◌, true, false,
  Bool-cases, inl, inr, arith, lt→ltb, le→ltb, All,
}
use bay_server_python.Prelude.Bits.{bit_and_mask, bit_and_mask_lt, set_bit_seven}
use bay_server_python.Prelude.Results.{ok}
use bay_server_python.Protocol.Packet.{data_len}
use bay_server_python.Protocol.Accessor.{
  Accessor, put_bytes, get_byte, get_bytes, read_limit, bind-ok,
}
use bay_server_python.Protocol.Accessor.Append.{
  Appends, Appends->>, Appends-eq, put_bytes-Appends, put_byte-Appends, appended-nil,
}
use bay_server_python.Protocol.Accessor.Read.{
  Holds, advanced, Reads, Reads->>=, pure-Reads, get_byte-Reads, get_bytes-Reads, int_value,
  Holds-advanced, advanced-advanced, Reads-map,
}
use bay_server_python.Fcgi.Command.{
  Param, write_length, read_length, put_param, put_params, get_param, params_loop, get_params,
}

-- The specification's length: one byte below 128, else four with the top bit set.
unfoldable pub length_bytes : ℕ → Bytes
length_bytes n =
    if ltb n 128
    then n ∷ []
    else (n / 16777216 % 128 + 128) ∷ (n / 65536 % 256) ∷ (n / 256 % 256) ∷ (n % 256) ∷ []

abbrev pub param_bytes : Param → Bytes
param_bytes (name, value) =
    length_bytes (length name) ++ (length_bytes (length value) ++ (name ++ value))

abbrev pub params_bytes : List Param → Bytes
params_bytes [] = []
params_bytes (p ∷ ps) = param_bytes p ++ params_bytes ps

-- A length has 31 bits.
abbrev pub Fits : Param → Type 0
Fits (name, value) = (length name < 2 ^ 31) × (length value < 2 ^ 31)

pub write_length-Appends : (n : ℕ) → n < 2 ^ 31 → Appends (write_length n) (length_bytes n)
unfolding write_length length_bytes
write_length-Appends n h = elim (Bool-cases (ltb n 128)) [
  | inl short ↦
      let single : (n / 128 == 0) ≡ true = ground arith in
      rw (short, single) (put_byte-Appends n (ground arith))
  | inr long ↦
      let several : (n / 128 == 0) ≡ false = ground arith in
      rw
        (
          long,
          several,
          bit_and_mask 8 (n / 65536),
          bit_and_mask 8 (n / 256),
          bit_and_mask 8 n,
          bit_and_mask_lt 8 (n / 16777216) (omega arith),
          set_bit_seven (n / 16777216) (omega arith),
        )
        (Appends-eq (ap (λ k. (k + 128) ∷ (n / 65536 % 256) ∷ (n / 256 % 256) ∷ (n % 256) ∷ []) top)
          (put_bytes-Appends
            ((n / 16777216 + 128) ∷ (n / 65536 % 256) ∷ (n / 256 % 256) ∷ (n % 256) ∷ [])))
]
  where
    top : n / 16777216 ≡ n / 16777216 % 128
    top = omega arith

pub read_length-Reads : (n : ℕ) → n < 2 ^ 31 → Reads read_length (length_bytes n) n
unfolding read_length length_bytes
read_length-Reads n h = elim (Bool-cases (ltb n 128)) [
  | inl short ↦
      let single : (n / 128 == 0) ≡ true = ground arith in
      rw short (Reads->>= get_byte _ (n ∷ []) [] n n (get_byte-Reads n) (rw single (pure-Reads n)))
  | inr long ↦
      let b1 = n / 16777216 % 128 + 128 in
      let several : (b1 / 128 == 0) ≡ false = ground arith in
      let top : bit_and b1 0x7f ≡ n / 16777216 % 128 = bit_and_mask 7 b1 ∙ omega arith in
      let value : n / 16777216 % 128 * 16777216
            + n / 65536 % 256 * 65536
            + n / 256 % 256 * 256
            + n % 256
          ≡ n =
        omega arith in
      rw long (
        Reads->>= get_byte _ (b1 ∷ []) ((n / 65536 % 256) ∷ (n / 256 % 256) ∷ (n % 256) ∷ []) b1 n
          (get_byte-Reads b1)
          (rw several (
            Reads->>= get_byte _ ((n / 65536 % 256) ∷ []) ((n / 256 % 256) ∷ (n % 256) ∷ [])
              (n / 65536 % 256) n (get_byte-Reads (n / 65536 % 256))
              (Reads->>= get_byte _ ((n / 256 % 256) ∷ []) ((n % 256) ∷ []) (n / 256 % 256) n
                (get_byte-Reads (n / 256 % 256))
                (Reads->>= get_byte _ ((n % 256) ∷ []) [] (n % 256) n (get_byte-Reads (n % 256)) (
                  rw
                    (
                      top,
                      int_value (n / 16777216 % 128) (n / 65536 % 256) (n / 256 % 256) (n % 256)
                          (omega arith) (omega arith) (omega arith),
                      value,
                    )
                    (pure-Reads n)))))))
]

pub put_param-Appends : (p : Param) → Fits p → Appends (put_param p) (param_bytes p)
unfolding put_param
put_param-Appends (name, value) (h, k) =
    Appends->> (write_length (length name)) _ (length_bytes (length name))
      (length_bytes (length value) ++ (name ++ value)) (write_length-Appends (length name) h)
      (Appends->> (write_length (length value)) _ (length_bytes (length value)) (name ++ value)
        (write_length-Appends (length value) k)
        (Appends->> (put_bytes name) (put_bytes value) name value (put_bytes-Appends name)
          (put_bytes-Appends value)))

-- `pack` writes the name-value list.
pub put_params-Appends : (ps : List Param) → All Fits ps → Appends (put_params ps) (params_bytes ps)
unfolding put_params
put_params-Appends [] h a e = ap (λ b. ok (tt, b)) (sym (appended-nil a))
put_params-Appends (p ∷ ps) h a e =
    Appends->> (put_param p) (put_params ps) (param_bytes p) (params_bytes ps)
      (put_param-Appends p h.0) (put_params-Appends ps h.1) a e

pub get_param-Reads : (p : Param) → Fits p → Reads get_param (param_bytes p) p
unfolding get_param
get_param-Reads (name, value) (h, k) =
    Reads->>= read_length _ (length_bytes (length name))
      (length_bytes (length value) ++ (name ++ value)) (length name) (name, value)
      (read_length-Reads (length name) h)
      (Reads->>= read_length _ (length_bytes (length value)) (name ++ value) (length value)
        (name, value) (read_length-Reads (length value) k)
        (Reads->>= (get_bytes (length name)) _ name value name (name, value) (get_bytes-Reads name)
          (Reads-map (get_bytes (length value)) (λ v. (name, v)) value value
            (get_bytes-Reads value))))

-- The accessor reads to the end of the data.
abbrev pub ReadsData : Accessor → Type 0
ReadsData a = read_limit a ≡ data_len a.packet

length_bytes-positive : (n : ℕ) → 0 < length (length_bytes n)
unfolding length_bytes
length_bytes-positive n = elim (Bool-cases (ltb n 128)) [
  | inl short ↦ rw short (omega arith)
  | inr long ↦ rw long (omega arith)
]

param_bytes-positive : (p : Param) → 0 < length (param_bytes p)
param_bytes-positive (name, value) = omega (
  arith,
  length_bytes-positive (length name),
  length-append (length_bytes (length name)) (length_bytes (length value) ++ (name ++ value)),
)

params_bytes-length : (ps : List Param) → length ps ≤ length (params_bytes ps)
params_bytes-length [] = omega arith
params_bytes-length (p ∷ ps) = omega (
  arith,
  params_bytes-length ps,
  param_bytes-positive p,
  length-append (param_bytes p) (params_bytes ps),
)

params_loop-eq :
    (fuel : ℕ) (qs ps : List Param) (a : Accessor)
    → All Fits ps
    → ReadsData a
    → Holds a (params_bytes ps)
    → length ps < fuel
    → params_loop fuel qs a ≡ ok (qs ++ ps, advanced (length (params_bytes ps)) a)
unfolding params_loop read_limit
params_loop-eq zero qs ps a all data' h l = absurd (omega arith)
params_loop-eq (suc fuel) qs [] a all data' h l =
    let last : ltb a.pos (data_len a.packet) ≡ false =
      le→ltb a.pos _ (omega (arith, h.limit, data')) in
    rw last (
      ap (λ r. ok (r, a)) (sym (append-nil qs))
      ∙ ap (λ n. ok (qs ++ [], record a { pos = n })) (omega arith))
params_loop-eq (suc fuel) qs (p ∷ ps) a all data' h l =
    let first_bytes = param_bytes p in
    let more : ltb a.pos (data_len a.packet) ≡ true = lt→ltb a.pos _ (
      omega (
        arith,
        h.limit,
        data',
        param_bytes-positive p,
        length-append first_bytes (params_bytes ps),
      )) in
    rw more (
      bind-ok get_param _ {a = a} (get_param-Reads p all.0 a (params_bytes ps) h)
      ∙ params_loop-eq fuel (qs ++ (p ∷ [])) ps (advanced (length first_bytes) a) all.1 data'
          (Holds-advanced first_bytes (params_bytes ps) a h) (omega arith)
      ∙ ap (λ r. ok (r, advanced (length (params_bytes ps)) (advanced (length first_bytes) a)))
          (append_assoc qs (p ∷ []) ps)
      ∙ ap (λ b. ok (qs ++ (p ∷ ps), b)) (advanced-advanced first_bytes (params_bytes ps) a))

-- `unpack` reads the whole name-value list back.
pub get_params-eq :
    (ps : List Param) (a : Accessor)
    → All Fits ps
    → ReadsData a
    → Holds a (params_bytes ps)
    → get_params a ≡ ok (ps, advanced (length (params_bytes ps)) a)
unfolding get_params
get_params-eq ps a all data' h =
    params_loop-eq (suc (data_len a.packet)) [] ps a all data' h
      (omega (arith, params_bytes-length ps, h.limit, data'))
