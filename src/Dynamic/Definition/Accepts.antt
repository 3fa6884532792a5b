-- ===== src/Dynamic/Definition/Accepts.antt =====
-- Whole lists of definitions that pass validation (dynamic/definition.go), and the identities that
-- the root package compiles.
use rulite.Base.{
  ◌≤◌, List, [], ◌∷◌, map, ◌≡◌, ◌↔◌, refl, sym, ap, ◌∙◌, subst, Bool, true, false, ◌&&◌, Option,
  none, some, Bytes, length, ltb, All, arith, is_some,
}
use rulite.Errors.{RuleId}
use rulite.Rule.{Rule, rule_entry, when, then_do, with_priority, new_rule}
use rulite.Compile.Layout.{Compiled, compiled, invalid, compile_rules}
use rulite.Compile.Accepts.{name_ok, rules_ok}
use rulite.Compile.Accepts.Entries.{all_rules, all_groups}
use rulite.Compile.Accepts.Whole.{succeeds, well_formed, compile_definitions-well_formed}
use rulite.RuleSet.{Compilation, rule_set, issues, compile, packed}
use rulite.Dynamic.Failure.{
  DynamicError, or_else, compile_error, validate_stage, whole, limit_exceeded,
}
use rulite.Dynamic.Json.{Decoder, max_document_bytes, max_definitions}
use rulite.Dynamic.Definition.{
  Definition, validate_each, validate_definitions, metadata_rule, identity_refusal,
}
use rulite.Dynamic.Definition.Passes.{
  AllAllowed, total_size, Passes, validate_each-Passes, validate_each-allowed,
}

-- Well-formed identities, none of which comes twice.
abbrev pub ids_ok : List Bytes → List RuleId → Bool
ids_ok seen [] = true
ids_ok seen (id ∷ ids) = name_ok seen id && ids_ok (id ∷ seen) ids

module _ {Host : Type 0} where
  abbrev pub ids_of : List (Rule Host) → List RuleId
  ids_of rs = map (λ (r : Rule Host). r.id) rs

  -- A rule with both callbacks.
  abbrev pub IsComplete : Rule Host → Type 0
  IsComplete r = (is_some r.condition ≡ true) × (is_some r.action ≡ true)

  abbrev pub compiles : Compilation Host → Bool
  compiles (rule_set set) = true
  compiles (issues found) = false

  rules_ok-ids_ok :
      (seen : List Bytes) (rs : List (Rule Host))
      → All IsComplete rs
      → rules_ok seen rs ≡ ids_ok seen (ids_of rs)
  rules_ok-ids_ok seen [] h = refl
  rules_ok-ids_ok seen (r ∷ rs) (h, hs) =
      ground (arith, h.0, h.1, rules_ok-ids_ok (r.id ∷ seen) rs hs)

  all_rules-rule_entry : (rs : List (Rule Host)) → all_rules (map rule_entry rs) ≡ rs
  all_rules-rule_entry [] = refl
  all_rules-rule_entry (r ∷ rs) = ap (λ xs. r ∷ xs) (all_rules-rule_entry rs)

  all_groups-rule_entry : (rs : List (Rule Host)) → all_groups (map rule_entry rs) ≡ []
  all_groups-rule_entry [] = refl
  all_groups-rule_entry (r ∷ rs) = all_groups-rule_entry rs

  well_formed-ids_ok :
      (rs : List (Rule Host))
      → All IsComplete rs
      → well_formed (map rule_entry rs) ≡ ids_ok [] (ids_of rs)
  well_formed-ids_ok rs h =
      rw (all_rules-rule_entry rs, all_groups-rule_entry rs)
        (ground (arith, rules_ok-ids_ok [] rs h))

  compiles-packed : (c : Compiled Host) → compiles (packed c) ≡ succeeds c
  compiles-packed (compiled s) = refl
  compiles-packed (invalid found) = refl

  -- Rules with both callbacks compile exactly if their identities are well formed and distinct.
  pub compile-ids_ok :
      (rs : List (Rule Host)) → All IsComplete rs → compiles (compile rs) ≡ ids_ok [] (ids_of rs)
  unfolding compile compile_rules
  compile-ids_ok rs h =
      compiles-packed _
      ∙ compile_definitions-well_formed (record { rules = rs; entries = [] })
      ∙ well_formed-ids_ok rs h

metadata_rules-IsComplete : (ds : List Definition) → All IsComplete (map metadata_rule ds)
unfolding when then_do
metadata_rules-IsComplete [] = tt
metadata_rules-IsComplete (d ∷ ds) = ((refl, refl), metadata_rules-IsComplete ds)

abbrev pub identities : List Definition → List RuleId
identities ds = map (λ (d : Definition). d.id) ds

metadata_rules-ids : (ds : List Definition) → ids_of (map metadata_rule ds) ≡ identities ds
unfolding when then_do with_priority new_rule
metadata_rules-ids [] = refl
metadata_rules-ids (d ∷ ds) = ap (λ ids. d.id ∷ ids) (metadata_rules-ids ds)

identity_refusal-compiles :
    (c : Compilation Unit) → (identity_refusal c ≡ none) ↔ (compiles c ≡ true)
identity_refusal-compiles (rule_set set) = ground arith
identity_refusal-compiles (issues found) = ground arith

pub metadata_rules-ids_ok :
    (ds : List Definition) → compiles (compile (map metadata_rule ds)) ≡ ids_ok [] (identities ds)
metadata_rules-ids_ok ds =
    compile-ids_ok (map metadata_rule ds) (metadata_rules-IsComplete ds)
    ∙ ap (ids_ok []) (metadata_rules-ids ds)

-- The rules for a whole list.
pub record AreAllowed (decoder : Decoder) (ds : List Definition) : Type 0 where
  pub few : length ds ≤ max_definitions
  pub each : AllAllowed decoder ds
  pub fits : total_size ds ≤ max_document_bytes
  pub identified : ids_ok [] (identities ds) ≡ true

or_else-none : (a b : Option DynamicError) → or_else a b ≡ none → (a ≡ none) × (b ≡ none)
or_else-none none b h = (refl, h)
or_else-none (some e) b h = ground arith

pub validate_definitions-few :
    (decoder : Decoder) (ds : List Definition)
    → length ds ≤ max_definitions
    → validate_definitions decoder ds
      ≡ or_else (validate_each decoder 0 0 ds) (identity_refusal (compile (map metadata_rule ds)))
unfolding validate_definitions
validate_definitions-few decoder ds h = ground arith

validate_definitions-many :
    (decoder : Decoder) (ds : List Definition)
    → validate_definitions decoder ds ≡ none
    → length ds ≤ max_definitions
unfolding validate_definitions
validate_definitions-many decoder ds h = ground arith

validate_definitions-each :
    (decoder : Decoder) (ds : List Definition)
    → validate_definitions decoder ds ≡ none
    → (length ds ≤ max_definitions)
      × (validate_each decoder 0 0 ds ≡ none)
      × (identity_refusal (compile (map metadata_rule ds)) ≡ none)
validate_definitions-each decoder ds h =
    let few = validate_definitions-many decoder ds h in
    let (each, identified) = or_else-none _ _ (sym (validate_definitions-few decoder ds few) ∙ h) in
    (few, each, identified)

pub validate_definitions-limit :
    (decoder : Decoder) (ds : List Definition)
    → ltb max_definitions (length ds) ≡ true
    → validate_definitions decoder ds ≡ some (compile_error validate_stage whole limit_exceeded)
unfolding validate_definitions
validate_definitions-limit decoder ds h = rw h refl

-- Validation accepts a list exactly if it has at most 256 definitions that are each allowed, take at
-- most 2^20 bytes together, and have well-formed identities that differ.
pub validate_definitions-AreAllowed :
    (decoder : Decoder) (ds : List Definition)
    → (validate_definitions decoder ds ≡ none) ↔ AreAllowed decoder ds
validate_definitions-AreAllowed decoder ds = (there, back)
  where
    there : validate_definitions decoder ds ≡ none → AreAllowed decoder ds
    there h =
        let (few, each, identified) = validate_definitions-each decoder ds h in
        let (allowed, fits) =
          subst (Passes decoder 0 0 ds) each (validate_each-Passes decoder 0 0 ds (omega arith)) in
        record {
          few = few;
          each = allowed;
          fits = omega arith;
          identified = sym (metadata_rules-ids_ok ds) ∙ (identity_refusal-compiles _).0 identified;
        }

    back : AreAllowed decoder ds → validate_definitions decoder ds ≡ none
    back h =
        let each = validate_each-allowed decoder 0 0 ds h.each (omega (arith, h.fits)) in
        let identified =
          (identity_refusal-compiles _).1 (metadata_rules-ids_ok ds ∙ h.identified) in
        validate_definitions-few decoder ds h.few ∙ rw (each, identified) refl
