-- ===== src/Dynamic/Json.antt =====
-- `checkJSON` (dynamic/json.go). The decoder of encoding/json/jsontext is a parameter: what its
-- n-th `ReadToken` gives, and the depth of its stack behind it.
pub mod Reads
use rulite.Base.{
  ℕ, zero, suc, ◌^◌, ◌*◌, ◌+◌, Bool, not, ◌&&◌, ◌||◌, Option, none, some, Bytes, length, ltb, leb,
  ◌==◌, if◌then◌else◌,
}
use rulite.Dynamic.Failure.{
  DynamicError, limit_exceeded, plain, unexpected_root, null_value, trailing_data, out_of_fuel,
}

abbrev pub max_document_bytes : ℕ
max_document_bytes = 2 ^ 20

abbrev pub max_params_bytes : ℕ
max_params_bytes = 16 * 2 ^ 10

abbrev pub max_definitions : ℕ
max_definitions = 256

-- A token has a kind, a byte, and leaves the stack at a depth.
pub data Reading : Type 0 where
  token : ℕ → ℕ → Reading
  end_of_input : Reading
  broken : DynamicError → Reading

-- `d.ReadToken()` of a new decoder over the data, called for the n-th time.
abbrev pub Decoder : Type 0
Decoder = Bytes → ℕ → Reading

-- How the loop leaves: with an error, or behind the root value. `unfinished` belongs to the model.
pub data Scan : Type 0 where
  complete : ℕ → Scan
  stopped : DynamicError → Scan
  unfinished : Scan

pub record Limits : Type 0 where
  pub root : ℕ
  pub depth : ℕ
  pub tokens : ℕ

abbrev pub eof : DynamicError
eof = DynamicError.foreign 0

-- The body of the loop behind `ReadToken`: how the loop leaves, if it does.
abbrev pub round : Limits → ℕ → ℕ → ℕ → Option Scan
round limits n kind depth =
    if (n == 0) && not (kind == limits.root)
    then some (stopped (plain unexpected_root))
    else if leb limits.tokens n || ltb limits.depth depth
    then some (stopped limit_exceeded)
    else if kind == b'n'
    then some (stopped (plain null_value))
    else if depth == 0
    then some (complete n)
    else none

abbrev pub after_reading : Limits → ℕ → Reading → Option Scan
after_reading limits n (token kind depth) = round limits n kind depth
after_reading limits n end_of_input = some (stopped eof)
after_reading limits n (broken e) = some (stopped e)

unfoldable pub scan : ℕ → (ℕ → Reading) → Limits → ℕ → Scan
scan zero read limits n = unfinished
scan (suc fuel) read limits n = elim (after_reading limits n (read n)) [
  | some left ↦ left
  | none ↦ scan fuel read limits (suc n)
]

-- The read behind the root value.
abbrev pub after_root : Reading → Option DynamicError
after_root (token kind depth) = some (plain trailing_data)
after_root end_of_input = none
after_root (broken e) = some e

abbrev pub finish_scan : (ℕ → Reading) → Scan → Option DynamicError
finish_scan read (complete n) = after_root (read (suc n))
finish_scan read (stopped e) = some e
finish_scan read unfinished = some out_of_fuel

unfoldable pub check_json : Decoder → Bytes → ℕ → Limits → Option DynamicError
unfolding scan
check_json decoder data_bytes byte_limit limits =
    if ltb byte_limit (length data_bytes)
    then some limit_exceeded
    else finish_scan (decoder data_bytes) (scan (suc limits.tokens) (decoder data_bytes) limits 0)
