-- ===== src/Http1/CmdHeader.antt =====
-- bayserver_docker_http/h1/command/cmd_header.py: the header of a request. A text is the list of its
-- ASCII codes. The header of a response, whose status is read by `int`, is not part of the model.
pub mod Lines
pub mod RoundTrip
use bay_server_python.Prelude.{
  ℕ, suc, ◌+◌, Bytes, List, [], ◌∷◌, ◌++◌, length, slice, ltb, leb, ◌==◌, if◌then◌else◌, Bool, true,
  false, not, ◌&&◌,
}
use bay_server_python.Prelude.Results.{Result, ok, err, protocol_error, ◌>>=◌}
use bay_server_python.Protocol.Accessor.{M, ◌>>◌, pure, put_byte, put_bytes}

pub record Request : Type 0 where
  pub method : Bytes
  pub uri : Bytes
  pub version : Bytes
  pub headers : List (Bytes × Bytes)

abbrev pub new_request : Request
new_request = record { method = []; uri = []; version = []; headers = [] }

abbrev pub add_header : Bytes → Bytes → Request → Request
add_header name value c = record c { headers = c.headers ++ ((name, value) ∷ []) }

-- CharUtil.lower
unfoldable pub lower : ℕ → ℕ
lower b = if leb 65 b && leb b 90 then b + 32 else b

-- `line.split(" ")`, with the item that is being read.
unfoldable pub split : Bytes → Bytes → List Bytes
split item [] = item ∷ []
split item (b ∷ s) =
    let rest = split (if b == 32 then [] else item ++ (b ∷ [])) s in
    if b == 32 then item ∷ rest else rest

abbrev pub three_items : Request → List Bytes → Result Request
three_items c (m ∷ u ∷ v ∷ []) = ok (record c { method = m; uri = u; version = v })
three_items c _ = err protocol_error

unfoldable pub unpack_request_line : Bytes → Request → Result Request
unfolding split
unpack_request_line line c = three_items c (split [] line)

-- The value of a line behind its name, where `skipping` drops the spaces in front of it.
unfoldable pub read_value : Bool → Bytes → Bytes → Bytes
read_value skipping buf [] = buf
read_value skipping buf (b ∷ s) =
    let skip = skipping && b == 32 in read_value skip (if skip then buf else buf ++ (b ∷ [])) s

-- The name, and then the value.
unfoldable pub read_name : Bool → Bytes → Bytes → Result (Bytes × Bytes)
unfolding read_value lower
read_name skipping buf [] = err protocol_error
read_name skipping buf (b ∷ s) =
    let skip = skipping && b == 32 in
    let rest = read_name skip (if skip then buf else buf ++ (lower b ∷ [])) s in
    if not skip && b == 58 then ok (buf, read_value true [] s) else rest

unfoldable pub unpack_message_header : Bytes → Request → Result Request
unfolding read_name
unpack_message_header line c = read_name true [] line >>= λ nv. ok (add_header nv.0 nv.1 c)

abbrev pub read_line : Bool → Bytes → Request → Result Request
read_line true line c = unpack_request_line line c
read_line false line c = unpack_message_header line c

-- The loop of `unpack` over the bytes that are left; `pos` counts those that were read, and the Boolean is
-- STATE_READ_FIRST_LINE.
unfoldable pub unpack_loop : Bytes → Bytes → ℕ → ℕ → ℕ → Bool → Request → Result (Bool × Request)
unfolding unpack_request_line unpack_message_header
unpack_loop buf [] pos start len first c = ok (first, c)
unpack_loop buf (b ∷ rest) pos start len first c =
    let same_line =
      unpack_loop buf rest (suc pos) start (if b == 13 then len else suc len) first c in
    if not (b == 10)
    then same_line
    else if len == 0
    then ok (first, c)
    else read_line first (slice start (start + len) buf) c >>= λ d.
        unpack_loop buf rest (suc pos) (suc pos) 0 false d

abbrev pub finished : Bool × Request → Result Request
finished (true, c) = err protocol_error
finished (false, c) = ok c

-- `unpack` of a packet whose data are the bytes: a packet of HTTP/1 has no header.
unfoldable pub unpack : Bytes → Result Request
unfolding unpack_loop
unpack buf = unpack_loop buf buf 0 0 0 true new_request >>= finished

abbrev pub crlf : Bytes
crlf = 13 ∷ 10 ∷ []

abbrev pub pack_message_header : Bytes × Bytes → M (Unit {0})
pack_message_header (name, value) = do put_bytes name; put_byte 58; put_bytes value; put_bytes crlf

unfoldable pub pack_headers : List (Bytes × Bytes) → M (Unit {0})
pack_headers [] = pure tt
pack_headers (nv ∷ l) = do pack_message_header nv; pack_headers l

unfoldable pub pack_request_line : Request → M (Unit {0})
pack_request_line c = do
  put_bytes c.method
  put_byte 32
  put_bytes c.uri
  put_byte 32
  put_bytes c.version
  put_bytes crlf

unfoldable pub pack : Request → M (Unit {0})
unfolding pack_request_line pack_headers
pack c = do pack_request_line c; pack_headers c.headers; put_bytes crlf
