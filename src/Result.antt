-- ===== src/Result.antt =====
-- What a result answers (result.go): the view of one rule, computed from the sparse records, the
-- frontier and the groups, and the lists of matched and fired rules. A Go index out of range would
-- be a panic: here `none`.
pub mod Search
pub mod Groups
pub mod Views
pub mod Collect
pub mod Tallies
pub mod Explain
pub mod Describe
pub mod Texts
pub mod Once
use rulite.Base.{
  ℕ, List, [], ◌∷◌, ◌++◌, ◌&&◌, ◌||◌, Bool, true, false, not, Option, none, some, lookup, get_elem?,
  length, ltb, leb, if◌then◌else◌, is_some,
}
use rulite.Errors.{RuleId, GroupId, Phase, condition_phase, action_phase, Failure}
use rulite.Ledger.{
  RuleMetadata, SnapshotMetadata, GroupMetadata, GroupRecord, Result, RuleState, rule_not_evaluated,
  rule_unmatched, rule_fired, rule_failed, rule_skipped, SkipReason, not_skipped, skip_context_done,
  NotEvaluatedReason, not_evaluated_none, execution_stopped, group_resolved, StopReason, stop_none,
  stop_completed, ExecutionRecord,
}
use rulite.Execution.Outcome.{is_resolved}
use rulite.Result.Search.{search_record}

-- `RuleExecution`; the zero `Failure` is `none`.
pub record RuleExecution : Type 0 where
  pub metadata : RuleMetadata
  pub order : ℕ
  pub state : RuleState
  pub failure : Option Failure
  pub skip : SkipReason
  pub not_evaluated : NotEvaluatedReason

abbrev pub unseen : RuleMetadata → ℕ → NotEvaluatedReason → RuleExecution
unseen info order reason = record {
  metadata = info;
  order = order;
  state = rule_not_evaluated;
  failure = none;
  skip = not_skipped;
  not_evaluated = reason;
}

abbrev pub seen_as : RuleMetadata → ℕ → RuleState → Option Failure → SkipReason → RuleExecution
seen_as info order state failure skip = record {
  metadata = info;
  order = order;
  state = state;
  failure = failure;
  skip = skip;
  not_evaluated = not_evaluated_none;
}

-- The rule lies behind the point where its resolved group was left.
abbrev pub is_passed : GroupRecord → ℕ → Bool
is_passed g order = is_resolved g.state && leb g.skipped_from order

abbrev pub passed_at : Option GroupRecord → ℕ → Bool
passed_at none order = false
passed_at (some g) order = is_passed g order

abbrev pub locally_passed : Option GroupMetadata → List GroupRecord → ℕ → Bool
locally_passed none groups order = false
locally_passed (some group) groups order = passed_at (get_elem? groups group.index) order

abbrev pub settled_view : List Failure → RuleMetadata → ℕ → RuleState → ℕ → Option RuleExecution
settled_view failures info order rule_failed index = elim (get_elem? failures index) [
  | none ↦ none
  | some f ↦ some (seen_as info order rule_failed (some f) not_skipped)
]
settled_view failures info order rule_skipped index =
    some (seen_as info order rule_skipped none skip_context_done)
settled_view failures info order state index = some (seen_as info order state none not_skipped)

abbrev pub record_view :
    List Failure → RuleMetadata → ℕ → Option ExecutionRecord → Option RuleExecution
record_view failures info order none = some (seen_as info order rule_unmatched none not_skipped)
record_view failures info order (some r) = settled_view failures info order r.state r.failure_index

-- The body of `ruleAt`, with the record that the search finds.
abbrev pub view_with : Result → RuleMetadata → ℕ → Option ExecutionRecord → Option RuleExecution
view_with r info order found =
    if locally_passed info.group r.groups order
    then some (unseen info order group_resolved)
    else if leb r.evaluated_through order
    then some (unseen info order execution_stopped)
    else record_view r.failures info order found

-- `Result.ruleAt`
unfoldable pub rule_at : Result → SnapshotMetadata → ℕ → Option RuleExecution
unfolding search_record
rule_at r m order = elim (get_elem? m.rules order) [
  | none ↦ none
  | some info ↦ view_with r info order (search_record r.records order)
]

abbrev some_view : Option RuleExecution → Option (Option RuleExecution)
some_view none = none
some_view (some x) = some (some x)

-- `Result.Rule`: the inner `none` is an unknown identity, or a result without an execution.
unfoldable pub rule : Result → RuleId → Option (Option RuleExecution)
unfolding rule_at
rule r id = elim r.metadata [
  | none ↦ some none
  | some m ↦ elim (lookup id m.by_id) [
    | none ↦ some none
    | some order ↦ some_view (rule_at r m order)
  ]
]

-- `Matched`, `ActionStarted`, `Fired` and `Evaluated` of a view.
abbrev pub failed_action : Option Failure → Bool
failed_action none = false
failed_action (some f) = elim f.phase [ condition_phase ↦ false | action_phase ↦ true ]

unfoldable pub view_matched : RuleExecution → Bool
view_matched x = elim x.state [
  | rule_fired ↦ true
  | rule_skipped ↦ true
  | rule_failed ↦ failed_action x.failure
  | _ ↦ false
]

unfoldable pub view_action_started : RuleExecution → Bool
unfolding view_matched
view_action_started x = view_matched x && elim x.state [ rule_skipped ↦ false | _ ↦ true ]

unfoldable pub view_fired : RuleExecution → Bool
view_fired x = elim x.state [ rule_fired ↦ true | _ ↦ false ]

unfoldable pub view_evaluated : RuleExecution → Bool
view_evaluated x = elim x.state [ rule_not_evaluated ↦ false | _ ↦ true ]

-- The identities of the records that a test keeps; `none` at an index out of range.
abbrev pub rule_id_at : SnapshotMetadata → ℕ → Option RuleId
rule_id_at m order = elim (get_elem? m.rules order) [ none ↦ none | some info ↦ some info.id ]

abbrev pub one_id : Option RuleId → Option (List RuleId)
one_id none = none
one_id (some id) = some (id ∷ [])

abbrev pub kept_id : SnapshotMetadata → ℕ → Bool → Option (List RuleId)
kept_id m order false = some []
kept_id m order true = one_id (rule_id_at m order)

abbrev pub matched_failure : SnapshotMetadata → ℕ → Option Failure → Option (List RuleId)
matched_failure m order none = none
matched_failure m order (some f) = kept_id m order (failed_action (some f))

-- What one record adds to `Matched`, and to `Fired`.
abbrev pub matched_state :
    SnapshotMetadata → List Failure → ℕ → ℕ → RuleState → Option (List RuleId)
matched_state m failures order index rule_failed =
    matched_failure m order (get_elem? failures index)
matched_state m failures order index state = kept_id m order true

abbrev pub matched_id : SnapshotMetadata → List Failure → ExecutionRecord → Option (List RuleId)
matched_id m failures r = matched_state m failures r.order r.failure_index r.state

abbrev pub is_fired : RuleState → Bool
is_fired rule_fired = true
is_fired _ = false

abbrev pub fired_id : SnapshotMetadata → ExecutionRecord → Option (List RuleId)
fired_id m r = kept_id m r.order (is_fired r.state)

abbrev pub joined : Option (List RuleId) → Option (List RuleId) → Option (List RuleId)
joined none _ = none
joined (some ids) none = none
joined (some ids) (some more) = some (ids ++ more)

abbrev pub collect {ℓ} : {A : Type ℓ} → (A → Option (List RuleId)) → List A → Option (List RuleId)
collect f [] = some []
collect f (a ∷ rest) = joined (f a) (collect f rest)

-- `Result.Matched` and `Result.Fired`; the zero result has no records.
abbrev pub metadata_of : Result → SnapshotMetadata
metadata_of r = elim r.metadata [
  | some m ↦ m
  | none ↦ record { rules = []; by_id = []; groups = []; by_group_id = []; entries = [] }
]

unfoldable pub matched : Result → Option (List RuleId)
matched r = collect (matched_id (metadata_of r) r.failures) r.records

unfoldable pub fired : Result → Option (List RuleId)
fired r = collect (fired_id (metadata_of r)) r.records

unfoldable pub stopped : Result → Bool
stopped r = elim r.stop [ stop_none ↦ false | stop_completed ↦ false | _ ↦ true ]

unfoldable pub executed : Result → Bool
executed r = is_some r.metadata
