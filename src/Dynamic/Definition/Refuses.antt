-- ===== src/Dynamic/Definition/Refuses.antt =====
-- Lists of definitions that validation refuses (dynamic/definition.go).
use rulite.Base.{
  ◌≤◌, ◌<◌, List, [], map, ◌≡◌, refl, sym, ◌∙◌, subst, false, Option, none, some, Bool-cases, inl,
  inr, length, ltb, arith,
}
use rulite.RuleSet.{Compilation, rule_set, issues, compile}
use rulite.Dynamic.Failure.{
  DynamicError, or_else, compile_error, validate_stage, whole, limit_exceeded, root_issues,
}
use rulite.Compile.Validate.{ValidationIssue}
use mathlib.Core.Option.{some-injective}
use rulite.Dynamic.Json.{Decoder, max_document_bytes, max_definitions}
use rulite.Dynamic.Definition.{
  Definition, validate_each, validate_definitions, metadata_rule, identity_refusal,
}
use rulite.Dynamic.Definition.Passes.{AllAllowed, total_size, StopsAt, Passes, validate_each-Passes}
use rulite.Dynamic.Definition.Accepts.{
  ids_ok, compiles, identities, metadata_rules-ids_ok, validate_definitions-few,
  validate_definitions-limit,
}

-- The ways in which a list is refused.
pub data Refused (decoder : Decoder) (ds : List Definition) (e : DynamicError) : Type 0 where
  too_many :
      max_definitions < length ds
      → e ≡ compile_error validate_stage whole limit_exceeded
      → Refused decoder ds e
  at_definition : StopsAt decoder 0 0 ds e → Refused decoder ds e
  by_identities :
      (found : List ValidationIssue)
      → AllAllowed decoder ds
      → total_size ds ≤ max_document_bytes
      → ids_ok [] (identities ds) ≡ false
      → e ≡ compile_error validate_stage whole (root_issues found)
      → Refused decoder ds e

identity_refusal-some :
    (c : Compilation Unit) (e : DynamicError)
    → identity_refusal c ≡ some e
    → (found : List ValidationIssue) × (compiles c ≡ false)
      × (e ≡ compile_error validate_stage whole (root_issues found))
identity_refusal-some (rule_set set) e h = ground arith
identity_refusal-some (issues found) e h = (found, refl, sym (some-injective _ _ h))

Refused-or_else :
    (decoder : Decoder) (ds : List Definition) (e : DynamicError) (o : Option DynamicError)
    → Passes decoder 0 0 ds o
    → or_else o (identity_refusal (compile (map metadata_rule ds))) ≡ some e
    → Refused decoder ds e
Refused-or_else decoder ds e none (each, fits) h =
    let (found, fails, same) = identity_refusal-some (compile (map metadata_rule ds)) e h in
    by_identities found each (omega arith) (sym (metadata_rules-ids_ok ds) ∙ fails) same
Refused-or_else decoder ds e (some x) stops h =
    at_definition (subst (StopsAt decoder 0 0 ds) (some-injective _ _ h) stops)

-- A refusal has one of three causes: too many definitions; the first definition that is not allowed
-- or does not fit in the budget, with its index and the error of its checks; or, when all are
-- allowed and fit, identities that are malformed or repeated.
pub validate_definitions-Refused :
    (decoder : Decoder) (ds : List Definition) (e : DynamicError)
    → validate_definitions decoder ds ≡ some e
    → Refused decoder ds e
validate_definitions-Refused decoder ds e h = elim (Bool-cases (ltb max_definitions (length ds))) [
  | inl many ↦
      too_many (ground arith)
        (some-injective _ _ (sym h ∙ validate_definitions-limit decoder ds many))
  | inr few ↦
      Refused-or_else decoder ds e (validate_each decoder 0 0 ds)
        (validate_each-Passes decoder 0 0 ds (omega arith))
        (sym (validate_definitions-few decoder ds (ground arith)) ∙ h)
]
