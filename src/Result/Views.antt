-- ===== src/Result/Views.antt =====
-- The view of every rule of a finished execution (result.go, `ruleAt`).
use rulite.Base.{
  ℕ, ◌≤◌, ◌<◌, List, [], ◌∷◌, ◌≡◌, refl, ap, subst, ◌∙◌, Bool, true, false, Option, none, some,
  get_elem?, get_elem?-some, length, leb, ◌==◌, if◌then◌else◌, Bool-cases, inl, inr, arith, All,
  ◌⊎◌,
}
use mathlib.Core.Option.{some-injective}
use rulite.Errors.{Failure}
use rulite.Ledger.{
  GroupMetadata, GroupRecord, GroupState, not_entered, resolved, exhausted, interrupted, Result,
  RuleMetadata, SnapshotMetadata, ExecutionRecord, RuleState, rule_not_evaluated, rule_unmatched,
  rule_fired, rule_failed, rule_skipped, not_skipped, skip_context_done, execution_stopped,
  group_resolved,
}
use rulite.Execution.State.{id_at}
use rulite.Execution.Records.{IsRecorded, Settled, IsSettled}
use rulite.Result.Search.{find_record, search_record-find_record}
use rulite.Execution.Outcome.{is_resolved}
use rulite.Result.{
  RuleExecution, seen_as, view_with, record_view, settled_view, locally_passed, passed_at, rule_at,
}

-- The first record of the rule, if it has one, and what a property of all records says of it.
find_record-All :
    (P : ExecutionRecord → Type 0) (records : List ExecutionRecord) (order : ℕ)
    (q : ExecutionRecord)
    → All P records
    → find_record records order ≡ some q
    → P q × (q.order ≡ order)
find_record-All P [] order q all e = cc
find_record-All P (r ∷ rs) order q all e =
    go (find_record-All P rs order q all.1) (r.order == order) refl e
  where
    go :
        ((find_record rs order ≡ some q) → P q × (q.order ≡ order))
        → (b : Bool) → (r.order == order) ≡ b
        → (if b then some r else find_record rs order) ≡ some q
        → P q × (q.order ≡ order)
    go later true same h =
        let here : r ≡ q = some-injective _ _ h in
        (subst P here all.0, subst (λ p. p.order ≡ order) here (ground arith))
    go later false other h = later h

-- A member that its group passed over: the group was resolved in front of it.
pub record PassedOver (info : RuleMetadata) (groups : List GroupRecord) (order : ℕ) : Type 0 where
  pub group : GroupMetadata
  pub own : GroupRecord
  pub grouped : info.group ≡ some group
  pub listed : get_elem? groups group.index ≡ some own
  pub ended : own.state ≡ resolved
  pub behind : own.skipped_from ≤ order

passed_at-PassedOver :
    (info : RuleMetadata) (groups : List GroupRecord) (order : ℕ) (group : GroupMetadata)
    (found : Option GroupRecord)
    → info.group ≡ some group
    → get_elem? groups group.index ≡ found
    → passed_at found order ≡ true
    → PassedOver info groups order
passed_at-PassedOver info groups order group none grouped listed h = ground arith
passed_at-PassedOver info groups order group (some own) grouped listed h = record {
  group = group;
  own = own;
  grouped = grouped;
  listed = listed;
  ended = state own.state (ground arith);
  behind = ground arith;
}
  where
    state : (s : GroupState) → is_resolved s ≡ true → s ≡ resolved
    state resolved e = refl
    state not_entered e = ground arith
    state exhausted e = ground arith
    state interrupted e = ground arith

locally_passed-PassedOver :
    (info : RuleMetadata) (groups : List GroupRecord) (order : ℕ)
    → locally_passed info.group groups order ≡ true
    → PassedOver info groups order
locally_passed-PassedOver info groups order h = go info.group refl h
  where
    go :
        (o : Option GroupMetadata)
        → info.group ≡ o
        → locally_passed o groups order ≡ true
        → PassedOver info groups order
    go none e h = ground arith
    go (some g) e h = passed_at-PassedOver info groups order g (get_elem? groups g.index) e refl h

PassedOver-locally_passed :
    (info : RuleMetadata) (groups : List GroupRecord) (order : ℕ)
    → PassedOver info groups order
    → locally_passed info.group groups order ≡ true
PassedOver-locally_passed info groups order h =
    let behind : leb h.own.skipped_from order ≡ true = ground (arith, h.behind) in
    rw (h.grouped, h.listed, h.ended, behind) refl

not_passed :
    (info : RuleMetadata) (groups : List GroupRecord) (order : ℕ)
    → locally_passed info.group groups order ≡ false
    → ¬ PassedOver info groups order
not_passed info groups order h over =
    ground (arith, h, PassedOver-locally_passed info groups order over)

-- What the view of the rule at `order` says, told from the ledger by a scan. A passed over member
-- is not evaluated, because its group was resolved. Of the others those behind the frontier are not
-- evaluated, because the execution stopped, and those before it have their record, a failed one
-- also the failure listed for its own identity, or are unmatched without one.
abbrev pub Tells : Result → RuleMetadata → ℕ → RuleExecution → Type 0
Tells r info order x = elim x.state [
  | rule_fired ↦
      (¬ PassedOver info r.groups order)
      × (order < r.evaluated_through)
      × (q : ExecutionRecord) × (find_record r.records order ≡ some q)
      × (q.state ≡ rule_fired)
  | rule_skipped ↦
      (¬ PassedOver info r.groups order)
      × (order < r.evaluated_through)
      × (q : ExecutionRecord) × (find_record r.records order ≡ some q)
      × (q.state ≡ rule_skipped)
      × (x.skip ≡ skip_context_done)
  | rule_failed ↦
      (¬ PassedOver info r.groups order)
      × (order < r.evaluated_through)
      × (q : ExecutionRecord) × (f : Failure) × (find_record r.records order ≡ some q)
      × (q.state ≡ rule_failed)
      × (get_elem? r.failures q.failure_index ≡ some f)
      × (f.rule_id ≡ info.id)
      × (x.failure ≡ some f)
  | rule_unmatched ↦
      (¬ PassedOver info r.groups order)
      × (order < r.evaluated_through)
      × (find_record r.records order ≡ none)
  | rule_not_evaluated ↦
      PassedOver info r.groups order × (x.not_evaluated ≡ group_resolved)
      ⊎ (¬ PassedOver info r.groups order)
        × (r.evaluated_through ≤ order)
        × (x.not_evaluated ≡ execution_stopped)
]

-- The view with the record `found` by a scan.
abbrev pub IsTold : Result → RuleMetadata → ℕ → Option RuleExecution → Type 0
IsTold r info order answer =
    (x : RuleExecution) × (answer ≡ some x)
    × (x.order ≡ order)
    × (x.metadata ≡ info)
    × Tells r info order x

Settled-IsTold :
    (metadata : SnapshotMetadata) (r : Result) (info : RuleMetadata) (order : ℕ)
    (q : ExecutionRecord) (state : RuleState)
    → get_elem? metadata.rules order ≡ some info
    → find_record r.records order ≡ some q
    → q.order ≡ order
    → q.state ≡ state
    → (¬ PassedOver info r.groups order)
    → order < r.evaluated_through
    → Settled metadata r.failures q.order q.failure_index state
    → IsTold r info order (settled_view r.failures info order state q.failure_index)
Settled-IsTold metadata r info order q rule_fired has found same state here inside h =
    (_, refl, refl, refl, (here, inside, q, found, state))
Settled-IsTold metadata r info order q rule_skipped has found same state here inside h =
    (_, refl, refl, refl, (here, inside, q, found, state, refl))
Settled-IsTold metadata r info order q rule_failed has found same state here inside
      (f, listed, id) =
    let own : f.rule_id ≡ info.id =
      id ∙ ap (λ k. id_at (some metadata) k) same ∙ rw (has, id_at) refl in
    (
      seen_as info order rule_failed (some f) not_skipped,
      rw (listed, settled_view) refl,
      refl,
      refl,
      (here, inside, q, f, found, state, listed, own, refl),
    )
Settled-IsTold metadata r info order q rule_not_evaluated has found same state here inside h =
    absurd h
Settled-IsTold metadata r info order q rule_unmatched has found same state here inside h = absurd h

module _ (metadata : SnapshotMetadata) (n : ℕ) (r : Result) (recorded : IsRecorded metadata n r)
    (info : RuleMetadata) (order : ℕ) (has : get_elem? metadata.rules order ≡ some info) where
  record-IsTold :
      (found : Option ExecutionRecord)
      → find_record r.records order ≡ found
      → (¬ PassedOver info r.groups order)
      → order < r.evaluated_through
      → IsTold r info order (record_view r.failures info order found)
  record-IsTold none missing here inside = (_, refl, refl, refl, (here, inside, missing))
  record-IsTold (some q) found here inside =
      let (settled, same) =
        find_record-All (IsSettled metadata r.failures) r.records order q recorded.4 found in
      Settled-IsTold metadata r info order q q.state has found same refl here inside settled

  view-IsTold : IsTold r info order (view_with r info order (find_record r.records order))
  view-IsTold = elim (Bool-cases (locally_passed info.group r.groups order)) [
    | inl passed ↦
        rw (passed, view_with)
          (_, refl, refl, refl, inl (locally_passed-PassedOver info r.groups order passed, refl))
    | inr free ↦
        let here = not_passed info r.groups order free in
        elim (Bool-cases (leb r.evaluated_through order)) [
          | inl beyond ↦
              rw (free, beyond, view_with) (_, refl, refl, refl, inr (here, ground arith, refl))
          | inr inside ↦
              rw (free, inside, view_with)
                (record-IsTold (find_record r.records order) refl here (ground arith))
        ]
  ]

-- For a recorded ledger, ruleAt answers at every place of a rule, without an index out of range,
-- with the rule's own metadata and what a scan of the ledger tells of it, although it searches the
-- records by bisection: a member that its resolved group passed over is told as that and as nothing
-- else, a rule behind the frontier as stopped, and every other one by its record or as unmatched.
pub rule_at-IsTold :
    (metadata : SnapshotMetadata) (n : ℕ) (r : Result) (order : ℕ)
    → IsRecorded metadata n r
    → order < length metadata.rules
    → (info : RuleMetadata) × (get_elem? metadata.rules order ≡ some info)
      × IsTold r info order (rule_at r metadata order)
unfolding rule_at
rule_at-IsTold metadata n r order recorded inside =
    let (info, has) = get_elem?-some metadata.rules order inside in
    (
      info,
      has,
      rw (has, search_record-find_record r.records order recorded.3, rule_at)
          (view-IsTold metadata n r recorded info order has),
    )
