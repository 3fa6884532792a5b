-- ===== src/Dynamic/Definition.antt =====
-- Definitions and their validation (dynamic/definition.go). A Go string is its bytes. `json.Unmarshal`
-- to definitions is a parameter, as is the decoder that reads the tokens.
pub mod Allowed
pub mod Passes
pub mod Accepts
pub mod Refuses
use rulite.Base.{
  ℕ, suc, ◌+◌, ◌-◌, List, [], ◌∷◌, map, Bool, true, not, ◌||◌, Option, none, some, Bytes, bytes_eq,
  length, ltb, if◌then◌else◌,
}
use rulite.Base.Int.{pos}
use rulite.Base.Strings.{valid_string, runes}
use rulite.Errors.{RuleId, Err}
use rulite.World.{Context, Pointer, Eff, Condition, Action, pure}
use rulite.Condition.{all_of}
use rulite.Rule.{Rule, Priority, trim_space, new_rule, with_priority, when, then_do}
use rulite.RuleSet.{Compilation, rule_set, issues, compile}
use rulite.Dynamic.Failure.{
  DynamicError, limit_exceeded, invalid_definition, invalid_action, invalid_params, plain,
  invalid_text, invalid_tag, root_issues, joined, compile_error, validate_stage, decode_stage,
  whole, Outcome, ok, failed, or_else, and_try,
}
use rulite.Dynamic.Json.{
  Decoder, Limits, check_json, max_document_bytes, max_params_bytes, max_definitions,
}
use rulite.Dynamic.Pattern.{valid_action_name}

pub record Definition : Type 0 where
  pub id : RuleId
  pub priority : Priority
  pub description : Bytes
  pub tags : List Bytes
  pub condition : Bytes
  pub action : Bytes
  pub params : Bytes

-- What is left of the budget decides; the budget that is used comes out.
abbrev pub take_bytes : ℕ → Bytes → Outcome ℕ
take_bytes used text =
    if ltb (max_document_bytes - used) (length text)
    then failed limit_exceeded
    else ok (used + length text)

unfoldable pub take_texts : ℕ → List Bytes → Outcome ℕ
take_texts used [] = ok used
take_texts used (text ∷ texts) = and_try (take_bytes used text) (λ more. take_texts more texts)

abbrev pub take_tag : ℕ → Bytes → Outcome ℕ
take_tag used tag =
    if ltb 128 (length tag) || ltb (max_document_bytes - used) (length tag)
    then failed limit_exceeded
    else if not (valid_string tag)
    then failed (plain invalid_tag)
    else ok (used + length tag)

unfoldable pub take_tags : ℕ → List Bytes → Outcome ℕ
take_tags used [] = ok used
take_tags used (tag ∷ tags) = and_try (take_tag used tag) (λ more. take_tags more tags)

abbrev pub text_refusal : Definition → Option DynamicError
text_refusal d =
    if not (valid_string d.description)
      || not (valid_string d.condition)
      || bytes_eq (trim_space (runes d.condition)) []
    then some (plain invalid_text)
    else none

abbrev pub size_refusal : Definition → Option DynamicError
size_refusal d =
    if ltb 4096 (length d.description) || ltb 32 (length d.tags)
    then some limit_exceeded
    else if not (valid_action_name d.action)
    then some invalid_action
    else none

abbrev pub params_limits : Limits
params_limits = record { root = b'{'; depth = 16; tokens = 4096 }

abbrev pub params_refusal : Decoder → Definition → Option DynamicError
params_refusal decoder d = elim (check_json decoder d.params max_params_bytes params_limits) [
  | none ↦ none
  | some e ↦ some (joined invalid_params e)
]

abbrev pub unless : Option DynamicError → Outcome ℕ → Outcome ℕ
unless none next = next
unless (some e) next = failed e

-- The body of the loop, with the errors that it gives to `fail`.
unfoldable pub check_definition : Decoder → ℕ → Definition → Outcome ℕ
unfolding take_texts take_tags
check_definition decoder used d = unless (size_refusal d) (
    and_try (take_texts used (d.id ∷ d.description ∷ d.condition ∷ d.action ∷ [])) (λ texts.
      unless (text_refusal d) (
        and_try (take_tags texts d.tags) (λ tags.
          and_try (take_bytes tags d.params)
            (λ total. unless (params_refusal decoder d) (ok total))))))

abbrev pub definition_failed : ℕ → DynamicError → DynamicError
definition_failed index e = compile_error validate_stage (pos index) (joined invalid_definition e)

unfoldable pub validate_each : Decoder → ℕ → ℕ → List Definition → Option DynamicError
unfolding check_definition
validate_each decoder index used [] = none
validate_each decoder index used (d ∷ ds) = elim (check_definition decoder used d) [
  | failed e ↦ some (definition_failed index e)
  | ok total ↦ validate_each decoder (suc index) total ds
]

abbrev does_nothing : Action (Unit {0})
does_nothing ctx input = pure none

-- A rule without callbacks of its own, which is compiled for its identity.
abbrev pub metadata_rule : Definition → Rule (Unit {0})
metadata_rule d =
    then_do (when (with_priority (new_rule d.id) d.priority) (some (all_of []))) (some does_nothing)

abbrev pub identity_refusal : Compilation (Unit {0}) → Option DynamicError
identity_refusal (rule_set set) = none
identity_refusal (issues found) = some (compile_error validate_stage whole (root_issues found))

unfoldable pub validate_definitions : Decoder → List Definition → Option DynamicError
unfolding validate_each
validate_definitions decoder ds =
    if ltb max_definitions (length ds)
    then some (compile_error validate_stage whole limit_exceeded)
    else or_else (validate_each decoder 0 0 ds) (identity_refusal (compile (map metadata_rule ds)))

abbrev pub document_limits : Limits
document_limits = record { root = b'['; depth = 18; tokens = 131072 }

abbrev pub decode_failed : DynamicError → DynamicError
decode_failed e = compile_error decode_stage whole (joined invalid_definition e)

-- The definitions, if validation accepts them.
abbrev pub validated : Decoder → List Definition → Outcome (List Definition)
validated decoder ds = elim (validate_definitions decoder ds) [ some e ↦ failed e | none ↦ ok ds ]

abbrev pub decoded : Decoder → Outcome (List Definition) → Outcome (List Definition)
decoded decoder (failed e) = failed (decode_failed e)
decoded decoder (ok ds) = validated decoder ds

unfoldable pub decode :
    Decoder → (Bytes → Outcome (List Definition)) → Bytes → Outcome (List Definition)
unfolding validate_definitions
decode decoder unmarshal source =
    elim (check_json decoder source max_document_bytes document_limits) [
      | some e ↦ failed (decode_failed e)
      | none ↦ decoded decoder (unmarshal source)
    ]
