-- ===== src/Http1/CmdHeader/RoundTrip.antt =====
-- The header of a request, as it is packed and read back.
use bay_server_python.Prelude.{
  ◌<◌, ◌≡◌, refl, sym, ap, ◌∙◌, Bytes, List, [], ◌∷◌, ◌++◌, append-nil, append_assoc, length,
  length-append, All, All-append, true, false, arith,
}
use bay_server_python.Prelude.Results.{ok, ◌>>=◌}
use bay_server_python.Protocol.Accessor.{Accessor, put_bytes, put_byte}
use bay_server_python.Protocol.Accessor.Append.{
  Appends, Appends->>, Appends-eq, IsAtEnd, appended, appended-nil, put_bytes-Appends,
  put_byte-Appends,
}
use bay_server_python.Http1.Unpacker.Headers.{IsText}
use bay_server_python.Http1.CmdHeader.{
  Request, new_request, add_header, unpack_message_header, unpack_loop, finished, unpack, crlf,
  pack_message_header, pack_headers, pack_request_line, pack,
}
use bay_server_python.Http1.CmdHeader.Lines.{
  IsNameByte, IsWordByte, Starts, read_name-eq, request_line, header_line, unpack_request_line-eq,
  loop-line,
}

-- A field that is read as it was written: the name is a token in lower case, and the value does not start
-- with a space.
pub record IsField (nv : Bytes × Bytes) : Type 0 where
  pub name : All IsNameByte nv.0
  pub name_text : All IsText nv.0
  pub value_text : All IsText nv.1
  pub starts : Starts nv.1

-- The three words of the request line, without spaces.
pub record IsWord (s : Bytes) : Type 0 where
  pub text : All IsText s
  pub word : All IsWordByte s

unfoldable pub fields_bytes : List (Bytes × Bytes) → Bytes
fields_bytes [] = 13 ∷ 10 ∷ []
fields_bytes (nv ∷ l) = header_line nv ++ (13 ∷ 10 ∷ fields_bytes l)

-- The message of the specification.
abbrev pub message : Request → Bytes
message c = request_line c ++ (13 ∷ 10 ∷ fields_bytes c.headers)

abbrev field_bytes : Bytes × Bytes → Bytes
field_bytes nv = nv.0 ++ ((58 ∷ []) ++ (nv.1 ++ crlf))

pack_message_header-Appends :
    (nv : Bytes × Bytes) → Appends (pack_message_header nv) (field_bytes nv)
pack_message_header-Appends (name, value) =
    Appends->> (put_bytes name) _ name ((58 ∷ []) ++ (value ++ crlf)) (put_bytes-Appends name) (
      Appends->> (put_byte 58) _ (58 ∷ []) (value ++ crlf) (put_byte-Appends 58 (omega arith)) (
        Appends->> (put_bytes value) (put_bytes crlf) value crlf (put_bytes-Appends value)
          (put_bytes-Appends crlf)))

pairs_bytes : List (Bytes × Bytes) → Bytes
pairs_bytes [] = []
pairs_bytes (nv ∷ l) = field_bytes nv ++ pairs_bytes l

pack_headers-Appends : (l : List (Bytes × Bytes)) → Appends (pack_headers l) (pairs_bytes l)
unfolding pack_headers pairs_bytes
pack_headers-Appends [] = λ a e. ap (λ b. ok (tt, b)) (sym (appended-nil a))
pack_headers-Appends (nv ∷ l) =
    Appends->> (pack_message_header nv) (pack_headers l) (field_bytes nv) (pairs_bytes l)
      (pack_message_header-Appends nv) (pack_headers-Appends l)

-- The fields and the empty line.
pairs-fields : (l : List (Bytes × Bytes)) → pairs_bytes l ++ crlf ≡ fields_bytes l
unfolding pairs_bytes fields_bytes
pairs-fields [] = refl
pairs-fields ((name, value) ∷ l) = simp (append_assoc, pairs-fields l)

abbrev first_bytes : Request → Bytes
first_bytes c = c.method ++ ((32 ∷ []) ++ (c.uri ++ ((32 ∷ []) ++ (c.version ++ crlf))))

pack_request_line-Appends : (c : Request) → Appends (pack_request_line c) (first_bytes c)
unfolding pack_request_line
pack_request_line-Appends c =
    Appends->> (put_bytes c.method) _ c.method
      ((32 ∷ []) ++ (c.uri ++ ((32 ∷ []) ++ (c.version ++ crlf)))) (put_bytes-Appends c.method)
      (Appends->> (put_byte 32) _ (32 ∷ []) (c.uri ++ ((32 ∷ []) ++ (c.version ++ crlf)))
        (put_byte-Appends 32 (omega arith))
        (Appends->> (put_bytes c.uri) _ c.uri ((32 ∷ []) ++ (c.version ++ crlf))
          (put_bytes-Appends c.uri)
          (Appends->> (put_byte 32) _ (32 ∷ []) (c.version ++ crlf)
            (put_byte-Appends 32 (omega arith))
            (Appends->> (put_bytes c.version) (put_bytes crlf) c.version crlf
              (put_bytes-Appends c.version) (put_bytes-Appends crlf)))))

message-eq : (c : Request) → first_bytes c ++ (pairs_bytes c.headers ++ crlf) ≡ message c
message-eq c = simp (append_assoc, pairs-fields c.headers)

pack-Appends : (c : Request) → Appends (pack c) (message c)
unfolding pack
pack-Appends c = Appends-eq {m = pack c} (message-eq c) (
    Appends->> (pack_request_line c) _ (first_bytes c) (pairs_bytes c.headers ++ crlf)
      (pack_request_line-Appends c)
      (Appends->> (pack_headers c.headers) (put_bytes crlf) (pairs_bytes c.headers) crlf
        (pack_headers-Appends c.headers) (put_bytes-Appends crlf)))

loop-fields :
    (front : Bytes) (l : List (Bytes × Bytes)) (c : Request)
    → All IsField l
    → (buf : Bytes) → buf ≡ front ++ fields_bytes l
    → unpack_loop buf (fields_bytes l) (length front) (length front) 0 false c
      ≡ ok (false, record c { headers = c.headers ++ l })
unfolding fields_bytes
loop-fields front [] c h buf e =
    unfold unpack_loop in λ i. ok (false, record c { headers = sym (append-nil c.headers) i })
loop-fields front (nv ∷ l) c (f, h) buf e =
    let (name, value) = nv in
    let line = name ++ (58 ∷ value) in
    let text : All IsText line =
      All-append IsText name (58 ∷ value) f.name_text ((refl, refl), f.value_text) in
    let long : 0 < length line = omega (arith, length-append name (58 ∷ value)) in
    let reads : unpack_message_header line c ≡ ok (add_header name value c) =
      unfold unpack_message_header in
      ap (λ r. r >>= λ x. ok (add_header x.0 x.1 c)) (read_name-eq name value f.name f.starts) in
    loop-line front line (fields_bytes l) false c (add_header name value c) text long reads buf e
    ∙ loop-fields (front ++ (line ++ crlf)) l (add_header name value c) h buf (
        e
        ∙ sym (
            append_assoc front (line ++ crlf) (fields_bytes l)
            ∙ ap (λ t. front ++ t) (append_assoc line crlf (fields_bytes l))))
    ∙ ap (λ t. ok (false, record c { headers = t })) (append_assoc c.headers ((name, value) ∷ []) l)

-- A request whose words have no spaces and whose fields are tokens in lower case with values that do not
-- start with a space: at the end of a packet its header is written as the message of the specification,
-- and from the bytes of this message the same request is read.
pub request-roundtrip :
    (c : Request)
    → IsWord c.method
    → IsWord c.uri
    → IsWord c.version
    → All IsField c.headers
    → ((a : Accessor) → IsAtEnd a → pack c a ≡ ok (tt, appended (message c) a))
      × (unpack (message c) ≡ ok c)
unfolding unpack
request-roundtrip c hm hu hv fields =
    let line = request_line c in
    let text : All IsText line =
      All-append IsText c.method (32 ∷ (c.uri ++ (32 ∷ c.version))) hm.text
        ((refl, refl), All-append IsText c.uri (32 ∷ c.version) hu.text ((refl, refl), hv.text)) in
    let long : 0 < length line =
      omega (arith, length-append c.method (32 ∷ (c.uri ++ (32 ∷ c.version)))) in
    let first = record new_request { method = c.method; uri = c.uri; version = c.version } in
    (
      pack-Appends c,
      ap (λ r. r >>= finished)
          (loop-line [] line (fields_bytes c.headers) true new_request first text long
              (unpack_request_line-eq c new_request hm.word hu.word hv.word) (message c) refl
            ∙ loop-fields (line ++ crlf) c.headers first fields (message c)
                (sym (append_assoc line crlf (fields_bytes c.headers)))),
    )
