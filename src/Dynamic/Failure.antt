-- ===== src/Dynamic/Failure.antt =====
-- The errors of dynamic (dynamic/errors.go). Errors of code outside of the repository, of validators
-- and of the CEL compiler are numbers.
use rulite.Base.{ℕ, List, [], ◌++◌, Option, none, some, Bytes}
use rulite.Base.Int.{ℤ, pos, negsuc}
use rulite.Base.Strings.{codes, decimal}
use rulite.Compile.Validate.{ValidationIssue}

-- The texts of the `errors.New` in json.go, params.go and definition.go.
pub data Message : Type 0 where
  unexpected_root null_value trailing_data : Message
  recursive_schema custom_decoding duration_type map_keys embedded_field : Message
  field_name field_option unsupported_type : Message
  invalid_text invalid_tag : Message

pub data Stage : Type 0 where
  decode_stage validate_stage condition_stage action_stage : Stage

-- `out_of_fuel` belongs to the model: a loop that has not ended.
pub data DynamicError : Type 0 where
  invalid_definition limit_exceeded invalid_registry registry_frozen : DynamicError
  registry_not_frozen invalid_action duplicate_action unknown_action invalid_params out_of_fuel :
      DynamicError
  plain : Message → DynamicError
  foreign : ℕ → DynamicError
  root_issues : List ValidationIssue → DynamicError
  joined : DynamicError → DynamicError → DynamicError
  compile_failed : Stage → ℤ → DynamicError → DynamicError

pub record CompileError : Type 0 where
  pub stage : Stage
  pub index : ℤ
  pub cause : DynamicError

-- `compileError`, of which the result is an `error`.
unfoldable pub compile_error : Stage → ℤ → DynamicError → DynamicError
compile_error stage index cause = compile_failed stage index cause

abbrev pub whole : ℤ
whole = negsuc 0

abbrev pub stage_text : Stage → Bytes
stage_text decode_stage = codes "decode"
stage_text validate_stage = codes "validate"
stage_text condition_stage = codes "condition"
stage_text action_stage = codes "action"

abbrev place_text : ℤ → Bytes
place_text (pos i) = codes " at definition " ++ decimal i
place_text (negsuc i) = []

unfoldable pub error_text : Option CompileError → Bytes
error_text none = codes "rulite/dynamic: compilation failed"
error_text (some e) =
    codes "rulite/dynamic: " ++ stage_text e.stage ++ codes " failed" ++ place_text e.index

abbrev pub stage_of : Option CompileError → Bytes
stage_of none = []
stage_of (some e) = stage_text e.stage

abbrev pub index_of : Option CompileError → ℤ
index_of none = whole
index_of (some e) = e.index

abbrev pub unwrap : Option CompileError → Option DynamicError
unwrap none = none
unwrap (some e) = some e.cause

-- `(value, error)` of this package.
pub data Outcome {ℓ} (A : Type ℓ) : Type ℓ where
  ok : A → Outcome A
  failed : DynamicError → Outcome A

abbrev pub and_try {ℓ κ} : {A : Type ℓ} {B : Type κ} → Outcome A → (A → Outcome B) → Outcome B
and_try (ok a) next = next a
and_try (failed e) next = failed e

-- The first of two checks that refuses.
abbrev pub or_else : Option DynamicError → Option DynamicError → Option DynamicError
or_else none later = later
or_else (some e) later = some e
