-- ===== src/Result/Once.antt =====
-- The fired rules of one entry, and a visit of a rule in a group (execution_internal.go,
-- `executeRules` and `resolveGroup`).
pub mod Whole
pub mod Sets
use rulite.Base.{
  ℕ, suc, ◌+◌, ◌≤◌, ◌<◌, List, [], ◌∷◌, ◌++◌, ◌≡◌, refl, sym, ap, ◌∙◌, subst, Bool, true, false,
  not, ◌&&◌, Option, none, some, ◌==◌, leb, ltb, if◌then◌else◌, Bool-cases, inl, inr, ◌⊎◌, All,
  arith, length, get_elem?-set_self, set,
}
use rulite.Errors.{RuleId, Err, Phase, action_phase, condition_phase}
use rulite.Rule.{GroupKind, first_match, first_fire}
use rulite.Ledger.{CompiledEntry, GroupMetadata, ExecutionRecord, GroupRecord, rule_fired}
use rulite.Policy.{continue_on_error, stop_on_error, stop_on_first_match, stop_on_first_fire}
use rulite.Execution.State.{
  Execution, group_record, resolved_groups, same_kind, on_result, fail, resolve_group,
  mark_evaluated,
}
use rulite.Execution.Calls.{Caught, ran, recovered}
use rulite.Execution.Outcome.{Flow, next, leave, Job, is_resolved}
use rulite.Execution.Induction.{length-resolved_groups}
use rulite.Execution.Moves.{Moves, At, visit-At}
use rulite.Execution.Automaton.{
  Answers, Check, visit, settle, match_rule, attempt, after_attempt, noted, unless_noted,
  local_advance, fail_condition, fail_action, fire, stop_by_panic,
}
use rulite.Result.{is_fired}

-- The records of fired rules with an order in a range.
abbrev pub hit : ℕ → ℕ → ExecutionRecord → ℕ
hit lo hi q = if is_fired q.state && (leb lo q.order && ltb q.order hi) then 1 else 0

abbrev pub fired_in : ℕ → ℕ → List ExecutionRecord → ℕ
fired_in lo hi [] = 0
fired_in lo hi (q ∷ qs) = hit lo hi q + fired_in lo hi qs

pub fired_in-snoc :
    (lo hi : ℕ) (qs : List ExecutionRecord) (q : ExecutionRecord)
    → fired_in lo hi (qs ++ q ∷ []) ≡ fired_in lo hi qs + hit lo hi q
fired_in-snoc lo hi [] q = omega arith
fired_in-snoc lo hi (p ∷ qs) q = omega (arith, fired_in-snoc lo hi qs q)

pub hit-le : (lo hi : ℕ) (q : ExecutionRecord) → hit lo hi q ≤ 1
hit-le lo hi q = elim (Bool-cases (is_fired q.state && (leb lo q.order && ltb q.order hi))) [
  | inl e ↦ rw e (omega arith)
  | inr e ↦ rw e (omega arith)
]

hit-below : (lo hi : ℕ) (q : ExecutionRecord) → q.order < lo → hit lo hi q ≡ 0
hit-below lo hi q h = ground arith

pub hit-above : (lo hi : ℕ) (q : ExecutionRecord) → hi ≤ q.order → hit lo hi q ≡ 0
hit-above lo hi q h = ground arith

pub fired_in-below :
    (lo hi : ℕ) (qs : List ExecutionRecord) → All (λ q. q.order < lo) qs → fired_in lo hi qs ≡ 0
fired_in-below lo hi [] h = refl
fired_in-below lo hi (q ∷ qs) h = omega (arith, hit-below lo hi q h.0, fired_in-below lo hi qs h.1)

group_record-set :
    (groups : List GroupRecord) (i : ℕ) (v : GroupRecord)
    → i < length groups
    → group_record (set groups i v) i ≡ v
group_record-set groups i v h = rw (group_record, get_elem?-set_self groups i v h) refl

module _ {Host : Type 0} (job : Job Host) (entry : CompiledEntry) (group : GroupMetadata)
    (grouped : entry.group ≡ some group) where
  open job use {config}

  abbrev pub count : Execution Host → ℕ
  count x = fired_in entry.start entry.stop x.result.records

  -- The group has been resolved.
  abbrev Taken : Execution Host → Type 0
  Taken x = is_resolved (group_record x.result.groups group.index).state ≡ true

  abbrev pub HasRecord : Execution Host → Type 0
  HasRecord x = group.index < length x.result.groups

  -- The loop goes on only while no rule has fired.
  abbrev pub Once : Flow → Execution Host → Type 0
  Once next x = count x ≡ 0
  Once (leave stopped) x = count x ≤ 1

  noted-Once :
      (check : Check Host) (x : Execution Host) → count x ≤ 1 → count (noted job check x) ≤ 1
  noted-Once none x h = h
  noted-Once (some (e, host)) x h = h

  -- Nothing fired, or one rule did and the group is resolved.
  abbrev Settled : Execution Host → Type 0
  Settled x = (count x ≡ 0) ⊎ ((count x ≤ 1) × Taken x)

  Settled-le : (x : Execution Host) → Settled x → count x ≤ 1
  Settled-le x (inl h) = omega (arith, h)
  Settled-le x (inr h) = h.0

  local_advance-Once :
      (order : ℕ) (x : Execution Host) → Settled x → At Once (local_advance job entry.group order x)
  local_advance-Once order x h =
      elim (Bool-cases (is_resolved (group_record x.result.groups group.index).state)) [
        | inl e ↦ rw (grouped, e) (Settled-le x h)
        | inr e ↦ rw (grouped, e) (elim h [ inl none_fired ↦ none_fired | inr taken ↦ cc ])
      ]

  resolves :
      (kind : GroupKind) (id : RuleId) (groups : List GroupRecord)
      → group.index < length groups
      → same_kind group.kind kind ≡ true
      → is_resolved (group_record (resolved_groups kind entry.group id groups) group.index).state
        ≡ true
  resolves kind id groups has same =
      rw (grouped, same) (ap (λ r. is_resolved r.state) (group_record-set groups group.index _ has))

  -- Before an action: a first-fire group, or one that the match has resolved.
  abbrev Ready : Execution Host → Type 0
  Ready x = (same_kind group.kind first_fire ≡ true) ⊎ Taken x

  fire-Taken :
      (order : ℕ) (id : RuleId) (x : Execution Host)
      → HasRecord x
      → Ready x
      → Taken (fire job entry order id x)
  fire-Taken order id x has ready = elim (Bool-cases (same_kind group.kind first_fire)) [
    | inl same ↦ resolves first_fire id x.result.groups has same
    | inr other ↦ rw (grouped, other) (elim ready [ inl same ↦ cc | inr taken ↦ taken ])
  ]

  -- A match readies its group, whatever the kind of the group is.
  match-Ready :
      (id : RuleId) (x : Execution Host)
      → HasRecord x
      → Ready (on_result (resolve_group first_match entry.group id) x)
  match-Ready id x has = elim (Bool-cases (same_kind group.kind first_match)) [
    | inl same ↦ inr (resolves first_match id x.result.groups has same)
    | inr other ↦ inl (other_kind group.kind other)
  ]
    where
      other_kind :
          (kind : GroupKind) → same_kind kind first_match ≡ false → same_kind kind first_fire ≡ true
      other_kind first_match h = cc
      other_kind first_fire h = refl

  -- Nothing has fired, and the group has its record.
  abbrev Idle : Execution Host → Type 0
  Idle x = HasRecord x × (count x ≡ 0)

  failed-count :
      (order : ℕ) (phase : Phase) (err : Err) (continued by_panic : Bool) (x : Execution Host)
      → count x ≡ 0
      → count (fail order phase err continued by_panic x) ≡ 0
  failed-count order phase err continued by_panic x h =
      omega (arith, h, fired_in-snoc entry.start entry.stop x.result.records _)

  fired-count :
      (order : ℕ) (id : RuleId) (x : Execution Host)
      → count x ≡ 0
      → count (fire job entry order id x) ≤ 1
  fired-count order id x h =
      let q : ExecutionRecord = record { order = order; state = rule_fired; failure_index = 0 } in
      omega (
        arith,
        h,
        fired_in-snoc entry.start entry.stop x.result.records q,
        hit-le entry.start entry.stop q,
      )

  visit_moves :
      (order : ℕ) → Moves job entry order Idle Idle (λ x. Idle x × Ready x) (λ _. Settled) Once
  visit_moves order = record {
    marks = λ x h. h;
    condition_panics = λ panic check x h.
        noted-Once check (stop_by_panic job order condition_phase panic x)
          (omega (arith, failed-count order condition_phase panic false true x h.1));
    condition_fails = λ err x h.
        failed-count order condition_phase err (config.policy.condition_errors == continue_on_error)
          false x h.1;
    misses = λ x h. h.1;
    observed = λ e host x h. omega (arith, h);
    condition_stops = λ x h e. omega (arith, h);
    matches = λ id x h. (
      (
        subst (λ n. group.index < n)
            (sym (length-resolved_groups first_match entry.group id x.result.groups)) h.0,
        h.1,
      ),
      match-Ready id x h.0,
    );
    skips =
        λ e host x h. omega (arith, h.0.1, fired_in-snoc entry.start entry.stop x.result.records _);
    action_panics = λ panic check x h.
        noted-Once check (stop_by_panic job order action_phase panic x)
          (omega (arith, failed-count order action_phase panic false true x h.0.1));
    action_fails = λ err x h. inl (
        failed-count order action_phase err (config.policy.action_errors == continue_on_error) false
          x h.0.1);
    fires = λ id x h. inr (fired-count order id x h.0.1, fire-Taken order id x h.0.0 h.1);
    tried_observed = λ failed e host x h. Settled-le x h;
    action_stops = λ failed x h e. Settled-le x h;
    match_stops = λ failed x h e. Settled-le x h;
    fire_stops = λ failed x h e f. Settled-le x h;
    advances = λ failed x h e f. local_advance-Once order x h;
  }

  -- A visit in a group in which nothing has fired leaves it so, or fires its rule and leaves.
  pub visit-Once :
      (order : ℕ) (id : RuleId) (a : Answers Host) (x : Execution Host)
      → HasRecord x
      → count x ≡ 0
      → At Once (visit job entry order id a x)
  visit-Once order id a x has h = visit-At job entry order (visit_moves order) id a x (has, h)
