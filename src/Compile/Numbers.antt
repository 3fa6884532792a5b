-- ===== src/Compile/Numbers.antt =====
-- The groups of a compiled set: the index of each one, and its range (compile_internal.go, the layout
-- loop of `compileDefinitions`).
use rulite.Base.{
  ℕ, suc, List, [], ◌∷◌, ◌++◌, ◌≡◌, refl, ap, subst, Bool, true, false, Option, none, some,
  get_elem?, get_elem?-append_left, get_elem?-snoc, All, All-append, All-map,
}
use rulite.Rule.{Rule, Group, Entry}
use rulite.Ledger.{CompiledEntry, GroupMetadata, CompiledSnapshot}
use rulite.Compile.Validate.{ValidationIssue, Validation}
use rulite.Compile.Layout.{
  Tables, place_rule, place_group, place_entry, place_from, any_group, execution_order, lay_out,
  compiled, DefinitionList, definitions_of, validation_of, finish_compile, compile_definitions,
}
use rulite.Compile.Places.{compiled_set}

-- An entry of a group stands in the table of groups at its index, and has its range.
abbrev pub Numbered : List GroupMetadata → ℕ → ℕ → Option GroupMetadata → Type 0
Numbered groups start stop none = Unit
Numbered groups start stop (some g) =
    (get_elem? groups g.index ≡ some g) × (start ≡ g.start) × (stop ≡ g.stop)

abbrev pub IsNumbered : List GroupMetadata → CompiledEntry → Type 0
IsNumbered groups e = Numbered groups e.start e.stop e.group

IsNumbered-append :
    (groups more : List GroupMetadata) (e : CompiledEntry)
    → IsNumbered groups e
    → IsNumbered (groups ++ more) e
IsNumbered-append groups more e h = go e.group h
  where
    go :
        (o : Option GroupMetadata)
        → Numbered groups e.start e.stop o
        → Numbered (groups ++ more) e.start e.stop o
    go none k = tt
    go (some g) k = (get_elem?-append_left groups more g.index g k.0, k.1, k.2)

module _ {Host : Type 0} where
  abbrev AllNumbered : Tables Host → Type 0
  AllNumbered t = All (IsNumbered t.groups) t.entries

  place_rule-AllNumbered :
      (has_groups : Bool) (index top_order : ℕ) (rule : Rule Host) (t : Tables Host)
      → AllNumbered t
      → AllNumbered (place_rule has_groups index top_order rule t)
  unfolding place_rule
  place_rule-AllNumbered false index top_order rule t h = h
  place_rule-AllNumbered true index top_order rule t h =
      All-append (IsNumbered t.groups) t.entries (_ ∷ []) h (tt, tt)

  place_group-AllNumbered :
      (index top_order : ℕ) (g : Group Host) (t : Tables Host)
      → AllNumbered t
      → AllNumbered (place_group index top_order g t)
  unfolding place_group
  place_group-AllNumbered index top_order g t h =
      All-append _ t.entries (_ ∷ [])
        (All-map (λ e k. IsNumbered-append t.groups (_ ∷ []) e k) t.entries h)
        ((get_elem?-snoc t.groups _, refl, refl), tt)

  place_entry-AllNumbered :
      (has_groups : Bool) (top_order index : ℕ) (entry : Entry Host) (t : Tables Host)
      → AllNumbered t
      → AllNumbered (place_entry has_groups top_order index entry t)
  unfolding place_entry
  place_entry-AllNumbered has_groups top_order index entry t h = go entry.group refl
    where
      go :
          (o : Option (Group Host))
          → entry.group ≡ o
          → AllNumbered (place_entry has_groups top_order index entry t)
      go none e =
          rw (e, place_entry) (place_rule-AllNumbered has_groups index top_order entry.rule t h)
      go (some g) e = rw (e, place_entry) (place_group-AllNumbered index top_order g t h)

  place_from-AllNumbered :
      (has_groups : Bool) (top_order : ℕ) (es : List (ℕ × Entry Host)) (t : Tables Host)
      → AllNumbered t
      → AllNumbered (place_from has_groups top_order es t)
  unfolding place_from
  place_from-AllNumbered has_groups top_order [] t h = h
  place_from-AllNumbered has_groups top_order (e ∷ es) t h =
      place_from-AllNumbered has_groups (suc top_order) es _
        (place_entry-AllNumbered has_groups top_order e.0 e.1 t h)

  abbrev pub GroupsNumbered : CompiledSnapshot Host → Type 0
  GroupsNumbered s = All (IsNumbered s.metadata.groups) s.metadata.entries

  lay_out-GroupsNumbered :
      (v : Validation) (definitions : List (Entry Host)) → GroupsNumbered (lay_out v definitions)
  unfolding lay_out
  lay_out-GroupsNumbered v definitions =
      place_from-AllNumbered (any_group definitions) 0 (execution_order definitions) _ tt

  finish_compile-GroupsNumbered :
      (definitions : List (Entry Host)) (v : Validation) (issues : List ValidationIssue)
      {s : CompiledSnapshot Host}
      → finish_compile definitions v issues ≡ compiled s
      → GroupsNumbered s
  unfolding compiled_set
  finish_compile-GroupsNumbered definitions v [] {s} e =
      subst GroupsNumbered (ap (λ c. compiled_set c s) e) (lay_out-GroupsNumbered v definitions)
  finish_compile-GroupsNumbered definitions v (issue ∷ rest) e = cc

  -- In every compiled set the entry of a group has the range of that group, which stands in the
  -- table of groups at its own index.
  pub compile_definitions-GroupsNumbered :
      (d : DefinitionList Host) {s : CompiledSnapshot Host}
      → compile_definitions d ≡ compiled s
      → GroupsNumbered s
  unfolding compile_definitions
  compile_definitions-GroupsNumbered d e =
      finish_compile-GroupsNumbered (definitions_of d) (validation_of (definitions_of d)) _ e
