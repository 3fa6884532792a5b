-- ===== src/Compile/Accepts/Whole.antt =====
-- Validation of whole definitions (compile_internal.go, `compileDefinitions`), beside a Boolean
-- description of well-formed ones.
use rulite.Base.{ℕ, suc, List, [], ◌∷◌, ◌++◌, ◌≡◌, refl, ◌∙◌, Bool, true, false, ◌&&◌, Bytes, arith}
use rulite.Rule.{Rule, Group, Entry}
use rulite.Compile.Validate.{
  ValidationIssue, Validation, validate_entry, validate_from, no_validation,
}
use rulite.Compile.Accepts.{rules_ok, groups_ok, is_clean, Agrees, Checks, Soils}
use rulite.Compile.Layout.{
  Compiled, compiled, invalid, DefinitionList, definitions_of, validation_of, finish_compile,
  compile_definitions,
}
use rulite.Compile.Accepts.Entries.{
  after_rules, rules_in, groups_in, all_rules, all_groups, after_groups, entry_ok, entries_ok,
  validate_entry-Soils, validate_entry-Checks,
}

module _ {Host : Type 0} where
  validate_from-Soils :
      (index : ℕ) (es : List (Entry Host)) (v : Validation) → Soils v (validate_from index es v)
  unfolding validate_from
  validate_from-Soils index [] v h = h
  validate_from-Soils index (e ∷ es) v h =
      validate_from-Soils (suc index) es _ (validate_entry-Soils index e v h)

  validate_from-clean :
      (index : ℕ) (es : List (Entry Host)) (v : Validation) (seen groups : List Bytes)
      → Agrees v seen groups
      → is_clean v.issues ≡ true
      → is_clean (validate_from index es v).issues ≡ entries_ok seen groups es
  unfolding validate_from
  validate_from-clean index [] v seen groups h clean = clean
  validate_from-clean index (e ∷ es) v seen groups h clean =
      go (entry_ok seen groups e) refl (validate_entry-Checks index e v seen groups h)
        (validate_from-clean (suc index) es (validate_entry index e v)
          (after_rules seen (rules_in e)) (after_groups groups (groups_in e)))
        (validate_from-Soils (suc index) es (validate_entry index e v))
    where
      go :
          (b : Bool)
          → entry_ok seen groups e ≡ b
          → Checks b v
              (validate_entry index e v)
              (after_rules seen (rules_in e))
              (after_groups groups (groups_in e))
          → (Agrees
                (validate_entry index e v)
                (after_rules seen (rules_in e))
                (after_groups groups (groups_in e))
              → is_clean (validate_entry index e v).issues ≡ true
              → is_clean (validate_from (suc index) es (validate_entry index e v)).issues
                ≡ entries_ok (after_rules seen (rules_in e)) (after_groups groups (groups_in e)) es)
          → Soils
              (validate_entry index e v)
              (validate_from (suc index) es (validate_entry index e v))
          → is_clean (validate_from (suc index) es (validate_entry index e v)).issues ≡ (
              b
              && entries_ok (after_rules seen (rules_in e)) (after_groups groups (groups_in e)) es)
      go true same checks later soils = later checks.1 (checks.0 ∙ clean)
      go false same checks later soils = soils checks

  rules_ok-append :
      (seen : List Bytes) (rs more : List (Rule Host))
      → rules_ok seen (rs ++ more) ≡ (rules_ok seen rs && rules_ok (after_rules seen rs) more)
  rules_ok-append seen [] more = refl
  rules_ok-append seen (r ∷ rs) more = ground (arith, rules_ok-append (r.id ∷ seen) rs more)

  groups_ok-append :
      (seen : List Bytes) (gs more : List (Group Host))
      → groups_ok seen (gs ++ more) ≡ (groups_ok seen gs && groups_ok (after_groups seen gs) more)
  groups_ok-append seen [] more = refl
  groups_ok-append seen (g ∷ gs) more = ground (arith, groups_ok-append (g.id ∷ seen) gs more)

  entries_ok-flat :
      (seen groups : List Bytes) (es : List (Entry Host))
      → entries_ok seen groups es
        ≡ (rules_ok seen (all_rules es) && groups_ok groups (all_groups es))
  entries_ok-flat seen groups [] = refl
  entries_ok-flat seen groups (e ∷ es) = ground (
    arith,
    rules_ok-append seen (rules_in e) (all_rules es),
    groups_ok-append groups (groups_in e) (all_groups es),
    entries_ok-flat (after_rules seen (rules_in e)) (after_groups groups (groups_in e)) es,
  )

  -- Whether the definitions are well formed, described without the pass.
  abbrev pub well_formed : List (Entry Host) → Bool
  well_formed es = rules_ok [] (all_rules es) && groups_ok [] (all_groups es)

  abbrev pub succeeds : Compiled Host → Bool
  succeeds (compiled s) = true
  succeeds (invalid issues) = false

  succeeds-finish_compile :
      (es : List (Entry Host)) (v : Validation) (issues : List ValidationIssue)
      → succeeds (finish_compile es v issues) ≡ is_clean issues
  succeeds-finish_compile es v [] = refl
  succeeds-finish_compile es v (issue ∷ issues) = refl

  -- Compilation succeeds exactly on well-formed definitions: every rule, alone or in a group, has a
  -- well-formed name that no rule before it has, a condition and an action, and every group has a
  -- well-formed name that no group before it has.
  pub compile_definitions-well_formed :
      (d : DefinitionList Host) → succeeds (compile_definitions d) ≡ well_formed (definitions_of d)
  unfolding compile_definitions
  compile_definitions-well_formed d =
      succeeds-finish_compile (definitions_of d) (validation_of (definitions_of d)) _
      ∙ validate_from-clean 0 (definitions_of d) no_validation [] [] (λ k. refl, λ k. refl) refl
      ∙ entries_ok-flat [] [] (definitions_of d)
