-- ===== src/Util/StringUtil.antt =====
-- bayserver_core/util/string_util.py: the text of a byte string. A text is the list of its code points.
-- The codecs are Python's: the decoder of UTF-8 reports one error for the longest start of a character
-- that the next byte does not continue.
use bay_server_python.Prelude.{
  ℕ, ◌+◌, ◌-◌, ◌*◌, ◌≡◌, refl, Bytes, List, [], ◌∷◌, ◌++◌, Option, none, some, Bool, true, ◌&&◌,
  ltb, leb, ◌==◌, if◌then◌else◌,
}
use bay_server_python.Prelude.Results.{Result, ok, err, value_error, ◌>>=◌}

unfoldable pub is_ascii : Bytes → Bool
is_ascii [] = true
is_ascii (b ∷ s) = ltb b 128 && is_ascii s

abbrev pub IsAscii : Bytes → Type 0
IsAscii s = is_ascii s ≡ true

-- Between two characters, or inside one: the bytes that it still lacks, the bits so far, and the range
-- of the next byte.
pub data Pending : Type 0 where
  idle : Pending
  inside : ℕ → ℕ → ℕ → ℕ → Pending

abbrev between : ℕ → ℕ → ℕ → Bool
between lo hi b = leb lo b && leb b hi

-- What a byte completes, `none` for an error, and what is pending behind it.
abbrev Decoded : Type 0
Decoded = List (Option ℕ) × Pending

first_byte : ℕ → Decoded
first_byte b =
    if ltb b 0x80
    then (some b ∷ [], idle)
    else if between 0xc2 0xdf b
    then ([], inside 1 (b - 0xc0) 0x80 0xbf)
    else if b == 0xe0
    then ([], inside 2 0 0xa0 0xbf)
    else if b == 0xed
    then ([], inside 2 13 0x80 0x9f)
    else if between 0xe1 0xef b
    then ([], inside 2 (b - 0xe0) 0x80 0xbf)
    else if b == 0xf0
    then ([], inside 3 0 0x90 0xbf)
    else if b == 0xf4
    then ([], inside 3 4 0x80 0x8f)
    else if between 0xf1 0xf3 b
    then ([], inside 3 (b - 0xf0) 0x80 0xbf)
    else (none ∷ [], idle)

later_byte : ℕ → ℕ → ℕ → Decoded
later_byte lacks bits b =
    let more = bits * 64 + (b - 0x80) in
    if lacks == 1 then (some more ∷ [], idle) else ([], inside (lacks - 1) more 0x80 0xbf)

next_byte : Pending → ℕ → Decoded
unfolding first_byte later_byte
next_byte idle b = first_byte b
next_byte (inside lacks bits lo hi) b =
    if between lo hi b then later_byte lacks bits b else (none ∷ (first_byte b).0, (first_byte b).1)

unfoldable pub decode_utf8 : Pending → Bytes → List (Option ℕ)
unfolding next_byte
decode_utf8 idle [] = []
decode_utf8 (inside lacks bits lo hi) [] = none ∷ []
decode_utf8 p (b ∷ s) = (next_byte p b).0 ++ decode_utf8 (next_byte p b).1 s

-- `errors='strict'` and `errors='replace'`.
unfoldable pub strict : List (Option ℕ) → Result Bytes
strict [] = ok []
strict (none ∷ l) = err value_error
strict (some c ∷ l) = strict l >>= λ s. ok (c ∷ s)

unfoldable pub replaced : List (Option ℕ) → Bytes
replaced [] = []
replaced (none ∷ l) = 0xfffd ∷ replaced l
replaced (some c ∷ l) = c ∷ replaced l

unfoldable pub from_bytes : Bytes → Bytes
unfolding is_ascii decode_utf8 replaced
from_bytes s = if is_ascii s then s else replaced (decode_utf8 idle s)

-- `decode("us-ascii")`, and where it fails `decode("utf-8")`, which may raise UnicodeDecodeError.
unfoldable pub ascii_or_utf8 : Bytes → Result Bytes
unfolding is_ascii decode_utf8 strict
ascii_or_utf8 s = if is_ascii s then ok s else strict (decode_utf8 idle s)

pub from_bytes-ascii : (s : Bytes) → IsAscii s → from_bytes s ≡ s
unfolding from_bytes
from_bytes-ascii s h = rw h refl

pub ascii_or_utf8-ascii : (s : Bytes) → IsAscii s → ascii_or_utf8 s ≡ ok s
unfolding ascii_or_utf8
ascii_or_utf8-ascii s h = rw h refl
