-- ===== src/Compile/Places.antt =====
-- The places of the rules, callbacks and entries of a compiled set (compile_internal.go, the layout
-- loop of `compileDefinitions`).
use rulite.Base.{
  ℕ, suc, ◌+◌, ◌≤◌, List, [], ◌∷◌, ◌++◌, map, ◌≡◌, refl, sym, ap, ◌∙◌, subst, Bool, true, false,
  ◌||◌, Option, none, some, is_some, length, length-append, length-snoc, length-map, All, inl, inr,
  ◌⊎◌, arith,
}
use rulite.Base.Sorting.{length-sort_stable, All-sort_stable}
use rulite.Rule.{Rule, Group, Entry}
use rulite.Ledger.{CompiledEntry, GroupMetadata, CompiledSnapshot}
use rulite.Compile.Validate.{ValidationIssue, Validation}
use rulite.Compile.Layout.{
  Tables, indexed, place_rule, placed_group, placed_members, snapshot_of, place_group, place_entry,
  place_from, any_group, execution_order, entry_runs_before, rule_runs_before, member_metadata,
  member_callbacks, lay_out, Compiled, compiled, invalid, DefinitionList, definitions_of,
  validation_of, finish_compile, compile_definitions,
}
use rulite.Execution.Outcome.{Job}
use rulite.Execution.Loops.{IsChained}
use rulite.Execution.Whole.{IsLaidOut}

length-indexed {ℓ} : {A : Type ℓ} (i : ℕ) (xs : List A) → length (indexed i xs) ≡ length xs
length-indexed i [] = refl
length-indexed i (x ∷ xs) = ap suc (length-indexed (suc i) xs)

-- Entries that follow one another from `lo` to `hi`.
abbrev pub Spans : ℕ → List CompiledEntry → ℕ → Type 0
Spans lo [] hi = lo ≡ hi
Spans lo (e ∷ es) hi = (e.start ≡ lo) × (e.start ≤ e.stop) × Spans e.stop es hi

Spans-snoc :
    (lo mid : ℕ) (es : List CompiledEntry) (e : CompiledEntry)
    → Spans lo es mid
    → e.start ≡ mid
    → e.start ≤ e.stop
    → Spans lo (es ++ e ∷ []) e.stop
Spans-snoc lo mid [] e h from up = (omega arith, up, refl)
Spans-snoc lo mid (d ∷ es) e h from up = (h.0, h.1, Spans-snoc d.stop mid es e h.2 from up)

or-right : (a b : Bool) → b ≡ true → (a || b) ≡ true
or-right a b e = ground arith

module _ {Host : Type 0} where
  -- Without groups no entries are kept; with them they span all the rules.
  abbrev pub Fits : Bool → Tables Host → Type 0
  Fits false t = t.entries ≡ []
  Fits true t = Spans 0 t.entries (length t.rules)

  pub record IsPlaced (has_groups : Bool) (t : Tables Host) : Type 0 where
    pub aligned : length t.rules ≡ length t.callbacks
    pub fits : Fits has_groups t

  place_rule-IsPlaced :
      (has_groups : Bool) (index top_order : ℕ) (rule : Rule Host) (t : Tables Host)
      → IsPlaced has_groups t
      → IsPlaced has_groups (place_rule has_groups index top_order rule t)
  unfolding place_rule
  place_rule-IsPlaced false index top_order rule t h = record {
    aligned = length-snoc t.rules _ ∙ ap (λ n. n + 1) h.aligned ∙ sym (length-snoc t.callbacks _);
    fits = h.fits;
  }
  place_rule-IsPlaced true index top_order rule t h = record {
    aligned = length-snoc t.rules _ ∙ ap (λ n. n + 1) h.aligned ∙ sym (length-snoc t.callbacks _);
    fits =
        subst (Spans 0 _) (sym (length-snoc t.rules _))
          (Spans-snoc 0 (length t.rules) t.entries _ h.fits refl (omega arith));
  }

  pub length-placed_members :
      (group : GroupMetadata) (members : List (Rule Host))
      → length (placed_members group members) ≡ length members
  unfolding placed_members
  length-placed_members group members =
      length-sort_stable rule_runs_before (map (member_metadata group) (indexed 0 members))
      ∙ length-map (member_metadata group) (indexed 0 members)
      ∙ length-indexed 0 members

  place_group-IsPlaced :
      (index top_order : ℕ) (g : Group Host) (t : Tables Host)
      → IsPlaced true t
      → IsPlaced true (place_group index top_order g t)
  unfolding place_group
  place_group-IsPlaced index top_order g t h =
      let placed = placed_members (placed_group index top_order g t) g.members in
      let rules : length (t.rules ++ placed) ≡ length t.rules + length placed =
        length-append t.rules placed in
      let callbacks : length (t.callbacks ++ map (member_callbacks g.members) placed)
          ≡ length t.callbacks + length placed =
        length-append t.callbacks _
        ∙ ap (λ n. length t.callbacks + n) (length-map (member_callbacks g.members) placed) in
      record {
        aligned = rules ∙ ap (λ n. n + length placed) h.aligned ∙ sym callbacks;
        fits =
            subst (Spans 0 _)
              (sym (rules ∙ ap (λ n. length t.rules + n) (length-placed_members _ g.members)))
              (Spans-snoc 0 (length t.rules) t.entries _ h.fits refl (omega arith));
      }

  -- A set that counts no groups has none.
  abbrev pub Agrees : Bool → Option (Group Host) → Type 0
  Agrees has_groups none = Unit
  Agrees has_groups (some g) = has_groups ≡ true

  place_entry-IsPlaced :
      (has_groups : Bool) (top_order index : ℕ) (entry : Entry Host) (t : Tables Host)
      → Agrees has_groups entry.group
      → IsPlaced has_groups t
      → IsPlaced has_groups (place_entry has_groups top_order index entry t)
  unfolding place_entry
  place_entry-IsPlaced has_groups top_order index entry t agrees h = go entry.group refl agrees
    where
      go :
          (o : Option (Group Host))
          → entry.group ≡ o
          → Agrees has_groups o
          → IsPlaced has_groups (place_entry has_groups top_order index entry t)
      go none e a =
          rw (e, place_entry) (place_rule-IsPlaced has_groups index top_order entry.rule t h)
      go (some g) e a =
          rw (e, a, place_entry)
            (place_group-IsPlaced index top_order g t (subst (λ b. IsPlaced b t) a h))

  place_from-IsPlaced :
      (has_groups : Bool) (top_order : ℕ) (es : List (ℕ × Entry Host)) (t : Tables Host)
      → All (λ e. Agrees has_groups e.1.group) es
      → IsPlaced has_groups t
      → IsPlaced has_groups (place_from has_groups top_order es t)
  unfolding place_from
  place_from-IsPlaced has_groups top_order [] t all h = h
  place_from-IsPlaced has_groups top_order (e ∷ es) t all h =
      place_from-IsPlaced has_groups (suc top_order) es _ all.1
        (place_entry-IsPlaced has_groups top_order e.0 e.1 t all.0 h)

  Agrees-group :
      (b rest : Bool) (o : Option (Group Host))
      → ((is_some o || rest) ≡ true → b ≡ true)
      → Agrees b o
  Agrees-group b rest none h = tt
  Agrees-group b rest (some g) h = h refl

  Agrees-any_group :
      (b : Bool) (i : ℕ) (es : List (Entry Host))
      → (any_group es ≡ true → b ≡ true)
      → All (λ e. Agrees b e.1.group) (indexed i es)
  Agrees-any_group b i [] h = tt
  Agrees-any_group b i (e ∷ es) h = (
    Agrees-group b (any_group es) e.group h,
    Agrees-any_group b (suc i) es (λ k. h (or-right (is_some e.group) (any_group es) k)),
  )

  unfoldable pub tables_of : Validation → List (Entry Host) → Tables Host
  tables_of v definitions =
      place_from (any_group definitions) 0 (execution_order definitions) (record {
        rules = [];
        callbacks = [];
        by_id = v.by_id;
        groups = [];
        by_group_id = v.by_group_id;
        entries = [];
      })

  pub lay_out-IsPlaced :
      (v : Validation) (definitions : List (Entry Host))
      → IsPlaced (any_group definitions) (tables_of v definitions)
  unfolding tables_of
  lay_out-IsPlaced v definitions =
      place_from-IsPlaced (any_group definitions) 0 (execution_order definitions) _
        (All-sort_stable entry_runs_before (λ e. Agrees (any_group definitions) e.1.group)
          (indexed 0 definitions) (Agrees-any_group (any_group definitions) 0 definitions (λ e. e)))
        (empty (any_group definitions))
    where
      empty :
          (b : Bool)
          → IsPlaced b (record {
            rules = [];
            callbacks = [];
            by_id = v.by_id;
            groups = [];
            by_group_id = v.by_group_id;
            entries = [];
          })
      empty false = record { aligned = refl; fits = refl }
      empty true = record { aligned = refl; fits = refl }

  -- The places of a compiled set.
  record IsSpanned (s : CompiledSnapshot Host) : Type 0 where
    aligned : length s.metadata.rules ≡ length s.callbacks
    spanned : (s.metadata.entries ≡ []) ⊎ Spans 0 s.metadata.entries (length s.metadata.rules)

  IsPlaced-IsSpanned :
      (has_groups : Bool) (t : Tables Host) → IsPlaced has_groups t → IsSpanned (snapshot_of t)
  IsPlaced-IsSpanned false t h = record { aligned = h.aligned; spanned = inl h.fits }
  IsPlaced-IsSpanned true t h = record { aligned = h.aligned; spanned = inr h.fits }

  unfoldable pub compiled_set : Compiled Host → CompiledSnapshot Host → CompiledSnapshot Host
  compiled_set (compiled s) other = s
  compiled_set (invalid found) other = other

  lay_out-IsSpanned :
      (v : Validation) (definitions : List (Entry Host)) → IsSpanned (lay_out v definitions)
  unfolding lay_out tables_of
  lay_out-IsSpanned v definitions =
      IsPlaced-IsSpanned (any_group definitions) _ (lay_out-IsPlaced v definitions)

  finish_compile-IsSpanned :
      (definitions : List (Entry Host)) (v : Validation) (issues : List ValidationIssue)
      {s : CompiledSnapshot Host}
      → finish_compile definitions v issues ≡ compiled s
      → IsSpanned s
  unfolding compiled_set
  finish_compile-IsSpanned definitions v [] {s} e =
      subst IsSpanned (ap (λ c. compiled_set c s) e) (lay_out-IsSpanned v definitions)
  finish_compile-IsSpanned definitions v (issue ∷ rest) e = cc

module _ {Host : Type 0} (job : Job Host) where
  Spans-IsChained :
      (lo : ℕ) (es : List CompiledEntry)
      → Spans lo es (length job.snapshot.callbacks)
      → IsChained job lo es
  Spans-IsChained lo [] h = omega arith
  Spans-IsChained lo (e ∷ es) h = (h.0, h.1, Spans-IsChained e.stop es h.2)

  spanned-IsLaidOut : IsSpanned job.snapshot → IsLaidOut job
  spanned-IsLaidOut h = record { aligned = h.aligned; chained = go h.spanned }
    where
      go :
          (job.snapshot.metadata.entries ≡ [])
            ⊎ Spans 0 job.snapshot.metadata.entries (length job.snapshot.metadata.rules)
          → IsChained job 0 job.snapshot.metadata.entries
      go (inl bare) = subst (IsChained job 0) (sym bare) (omega arith)
      go (inr spans) =
          Spans-IsChained 0 job.snapshot.metadata.entries
            (subst (Spans 0 job.snapshot.metadata.entries) h.aligned spans)

  -- Every set that compileDefinitions returns is laid out: rules and callbacks have the same places,
  -- and the entries, if there are groups, follow one another from the first rule to the last.
  pub compile_definitions-IsLaidOut :
      (d : DefinitionList Host) → compile_definitions d ≡ compiled job.snapshot → IsLaidOut job
  unfolding compile_definitions lay_out tables_of
  compile_definitions-IsLaidOut d e =
      spanned-IsLaidOut
        (finish_compile-IsSpanned (definitions_of d) (validation_of (definitions_of d)) _ e)
