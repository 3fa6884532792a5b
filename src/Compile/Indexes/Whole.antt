-- ===== src/Compile/Indexes/Whole.antt =====
-- The identity index through the layout loop (compile_internal.go).
use rulite.Base.{
  ℕ, suc, List, [], ◌∷◌, ◌≡◌, refl, sym, ap, ◌∙◌, subst, Bool, true, Option, none, some, lookup,
  get_elem?, All, arith,
}
use rulite.Base.Sorting.{Pairs, sort_stable-Pairs, All-sort_stable}
use rulite.Rule.{Group, Entry}
use rulite.Ledger.{RuleMetadata, CompiledSnapshot}
use rulite.Compile.Validate.{Validation, ValidationIssue}
use rulite.Compile.Layout.{
  Tables, indexed, placed_group, placed_members, place_entry, place_rule, place_group, place_from,
  lay_out, entry_runs_before, top_rule_metadata, execution_order, any_group, compiled,
  finish_compile, validation_of, DefinitionList, definitions_of, compile_definitions,
}
use rulite.Compile.Accepts.{rules_ok}
use rulite.Compile.Accepts.Entries.{rules_in, all_rules}
use rulite.Compile.Accepts.Whole.{succeeds, well_formed, compile_definitions-well_formed}
use rulite.Compile.Indexes.{IndexedFrom, IndexedFrom-get}
use rulite.Compile.Places.{compiled_set}
use rulite.Compile.Indexes.Placing.{
  and-both, All-swap, All-always, All-indexed, Pairs-indexed, rules_ok-Pairs, all_rules-Pairs,
  flip_ids, placed_members-Placement, file, Differ, EntriesDiffer, IsFiled,
}

module _ {Host : Type 0} where
  rules_in-none : (e : Entry Host) → e.group ≡ none → rules_in e ≡ e.rule ∷ []
  rules_in-none e same = rw (same, rules_in) refl

  rules_in-some : (e : Entry Host) (g : Group Host) → e.group ≡ some g → rules_in e ≡ g.members
  rules_in-some e g same = rw (same, rules_in) refl

  place_entry-IsFiled :
      (has_groups : Bool) (top_order index : ℕ) (e : Entry Host) (t : Tables Host)
      (pending : List (ℕ × Entry Host))
      → Pairs Differ (rules_in e)
      → All (λ f. EntriesDiffer e f.1) pending
      → IsFiled t ((index, e) ∷ pending)
      → IsFiled (place_entry has_groups top_order index e t) pending
  unfolding place_entry place_rule place_group
  place_entry-IsFiled has_groups top_order index e t pending own differ h = go e.group refl
    where
      go :
          (o : Option (Group Host))
          → e.group ≡ o
          → IsFiled (place_entry has_groups top_order index e t) pending
      go none same =
          file e (top_rule_metadata index top_order e.rule ∷ []) t _ index pending
            (record {
              pairs = (tt, tt);
              same_ids = λ P k. subst (All (λ r. P r.id)) (rules_in-none e same) k;
            })
            differ (rw (same, place_entry) refl) (rw (same, place_entry) refl) h
      go (some g) same =
          let group = placed_group index top_order g t in
          file e (placed_members group g.members) t _ index pending
            (placed_members-Placement e g group (rules_in-some e g same)
              (subst (Pairs Differ) (rules_in-some e g same) own))
            differ (rw (same, place_entry) refl) (rw (same, place_entry) refl) h

  place_from-IsFiled :
      (has_groups : Bool) (top_order : ℕ) (es : List (ℕ × Entry Host)) (t : Tables Host)
      → All (λ e. Pairs Differ (rules_in e.1)) es
      → Pairs (λ e f. EntriesDiffer e.1 f.1) es
      → IsFiled t es
      → IsFiled (place_from has_groups top_order es t) []
  unfolding place_from
  place_from-IsFiled has_groups top_order [] t own differ h = h
  place_from-IsFiled has_groups top_order ((index, e) ∷ es) t own differ h =
      place_from-IsFiled has_groups (suc top_order) es _ own.1 differ.1
        (place_entry-IsFiled has_groups top_order index e t es own.0 differ.0 h)

  -- Every rule of the set stands in the index at its own place.
  abbrev pub IsIndexed : CompiledSnapshot Host → Type 0
  IsIndexed s = IndexedFrom 0 s.metadata.rules s.metadata.by_id

  lay_out-IsIndexed :
      (v : Validation) (es : List (Entry Host))
      → rules_ok [] (all_rules es) ≡ true
      → IsIndexed (lay_out v es)
  unfolding lay_out
  lay_out-IsIndexed v es good =
      let (pairs, own) = all_rules-Pairs es (rules_ok-Pairs [] (all_rules es) good).0 in
      (place_from-IsFiled (any_group es) 0 (execution_order es) _
        (All-sort_stable entry_runs_before (λ e. Pairs Differ (rules_in e.1)) (indexed 0 es)
          (All-indexed (λ e. Pairs Differ (rules_in e)) 0 es own))
        (sort_stable-Pairs (λ e f. EntriesDiffer e.1 f.1) entry_runs_before
          (λ e f k.
            All-swap (λ a b (d : Differ a b). flip_ids a b d) (rules_in e.1) (rules_in f.1) k)
          (indexed 0 es) (Pairs-indexed EntriesDiffer 0 es pairs))
        (record { filed = tt; clear = All-always (execution_order es) })).filed

  finish_compile-IsIndexed :
      (es : List (Entry Host)) (v : Validation) (issues : List ValidationIssue)
      {s : CompiledSnapshot Host}
      → rules_ok [] (all_rules es) ≡ true
      → finish_compile es v issues ≡ compiled s
      → IsIndexed s
  unfolding compiled_set
  finish_compile-IsIndexed es v [] {s} good e =
      subst IsIndexed (ap (λ c. compiled_set c s) e) (lay_out-IsIndexed v es good)
  finish_compile-IsIndexed es v (issue ∷ rest) good e = cc

  -- In every compiled set the index maps the identity of each rule to the place of that rule.
  pub compile_definitions-IsIndexed :
      (d : DefinitionList Host) (s : CompiledSnapshot Host) (order : ℕ) (info : RuleMetadata)
      → compile_definitions d ≡ compiled s
      → get_elem? s.metadata.rules order ≡ some info
      → lookup info.id s.metadata.by_id ≡ some order
  unfolding compile_definitions
  compile_definitions-IsIndexed d s order info made has =
      let well : well_formed (definitions_of d) ≡ true =
        sym (compile_definitions-well_formed d) ∙ ap succeeds made in
      let good = (and-both (rules_ok [] (all_rules (definitions_of d))) _ well).0 in
      IndexedFrom-get 0 s.metadata.rules s.metadata.by_id order
        (finish_compile-IsIndexed (definitions_of d) (validation_of (definitions_of d)) _ good made)
        has
      ∙ ap some (omega arith)
