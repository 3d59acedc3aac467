-- ===== src/Http2/Flags.antt =====
-- bayserver_docker_http/h2/h2_flags.py: the flags of a frame as a number.
pub mod Laws
use bay_server_python.Prelude.{ℕ, ◌-◌, bit_and, bit_or, ◌==◌, if◌then◌else◌, Bool, not}

abbrev pub flags_none : ℕ
flags_none = 0x0

abbrev pub flags_ack : ℕ
flags_ack = 0x1

abbrev pub flags_end_stream : ℕ
flags_end_stream = 0x1

abbrev pub flags_end_headers : ℕ
flags_end_headers = 0x4

abbrev pub flags_padded : ℕ
flags_padded = 0x8

abbrev pub flags_priority : ℕ
flags_priority = 0x20

unfoldable pub has_flag : ℕ → ℕ → Bool
has_flag flags flag = not (bit_and flags flag == 0)

-- `flags & ~flag` is what is left of the flags without those of `flag`.
unfoldable pub set_flag : ℕ → Bool → ℕ → ℕ
set_flag flag val flags = if val then bit_or flags flag else flags - bit_and flags flag

abbrev pub ack : ℕ → Bool
ack flags = has_flag flags flags_ack

abbrev pub end_stream : ℕ → Bool
end_stream flags = has_flag flags flags_end_stream

abbrev pub end_headers : ℕ → Bool
end_headers flags = has_flag flags flags_end_headers

abbrev pub padded : ℕ → Bool
padded flags = has_flag flags flags_padded

abbrev pub priority : ℕ → Bool
priority flags = has_flag flags flags_priority

abbrev pub set_ack : Bool → ℕ → ℕ
set_ack val flags = set_flag flags_ack val flags

abbrev pub set_end_stream : Bool → ℕ → ℕ
set_end_stream val flags = set_flag flags_end_stream val flags

abbrev pub set_end_headers : Bool → ℕ → ℕ
set_end_headers val flags = set_flag flags_end_headers val flags

abbrev pub set_padded : Bool → ℕ → ℕ
set_padded val flags = set_flag flags_padded val flags

abbrev pub set_priority : Bool → ℕ → ℕ
set_priority val flags = set_flag flags_priority val flags
