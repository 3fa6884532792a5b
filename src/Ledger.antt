-- ===== src/Ledger.antt =====
-- The data of a compiled set and of an execution: the metadata of compile_internal.go, the ledger
-- types of result.go and group_result.go, the trace data of trace.go, and the events of observer.go.
use rulite.Base.{ℕ, List, [], Option, none}
use rulite.Errors.{Err, RuleId, GroupId, Failure}
use rulite.World.{Condition, Action, Context, Eff, ConditionOutcome, NodeView}
use rulite.Rule.{Priority, RuleDetails, GroupKind}

pub record GroupMetadata : Type 0 where
  pub id : GroupId
  pub kind : GroupKind
  pub priority : Priority
  pub registration_index : ℕ
  pub top_level_order : ℕ
  pub index : ℕ
  pub start : ℕ
  pub stop : ℕ

pub record RuleMetadata : Type 0 where
  pub id : RuleId
  pub priority : Priority
  pub registration_index : ℕ
  pub top_level_order : ℕ
  pub member_index : ℕ
  pub group : Option GroupMetadata
  pub details : Option RuleDetails

-- `compiledEntry`; its field `end` is `stop` here.
pub record CompiledEntry : Type 0 where
  pub start : ℕ
  pub stop : ℕ
  pub group : Option GroupMetadata

pub record SnapshotMetadata : Type 0 where
  pub rules : List RuleMetadata
  pub by_id : List (RuleId × ℕ)
  pub groups : List GroupMetadata
  pub by_group_id : List (GroupId × ℕ)
  pub entries : List CompiledEntry

module _ (Host : Type 0) where
  pub record RuleCallbacks : Type 0 where
    pub condition : Option (Condition Host)
    pub action : Option (Action Host)

module _ (Host : Type 0) where
  pub record CompiledSnapshot : Type 0 where
    pub metadata : SnapshotMetadata
    pub callbacks : List (RuleCallbacks Host)

-- snapshot.go; version and digest are opaque strings.
pub record SnapshotInfo : Type 0 where
  pub version : List ℕ
  pub revision : ℕ
  pub digest : List ℕ

abbrev pub zero_info : SnapshotInfo
zero_info = record { version = []; revision = 0; digest = [] }

pub record Counts : Type 0 where
  pub total : ℕ
  pub evaluated : ℕ
  pub not_evaluated : ℕ
  pub matched : ℕ
  pub unmatched : ℕ
  pub fired : ℕ
  pub skipped : ℕ
  pub failed : ℕ
  pub condition_failed : ℕ
  pub action_failed : ℕ
  pub panic_recovered : ℕ

pub data RuleState : Type 0 where
  rule_not_evaluated rule_unmatched rule_fired rule_failed rule_skipped : RuleState

pub data SkipReason : Type 0 where
  not_skipped skip_context_done : SkipReason

pub data NotEvaluatedReason : Type 0 where
  not_evaluated_none execution_stopped group_resolved : NotEvaluatedReason

pub data StopReason : Type 0 where
  stop_none stop_completed stop_first_match stop_first_fire stop_condition_error : StopReason
  stop_action_error stop_context_canceled stop_context_deadline_exceeded stop_panic : StopReason

pub record ExecutionRecord : Type 0 where
  pub order : ℕ
  pub state : RuleState
  pub failure_index : ℕ

pub data GroupState : Type 0 where
  not_entered resolved exhausted interrupted : GroupState

pub data GroupEndReason : Type 0 where
  end_none end_resolved end_exhausted end_execution_stopped : GroupEndReason

pub record GroupRecord : Type 0 where
  pub state : GroupState
  pub end_reason : GroupEndReason
  pub stop : StopReason
  pub selected : RuleId
  pub skipped_from : ℕ

abbrev pub zero_group_record : GroupRecord
zero_group_record = record {
  state = not_entered;
  end_reason = end_none;
  stop = stop_none;
  selected = [];
  skipped_from = 0;
}

pub record GroupResult : Type 0 where
  pub metadata : GroupMetadata
  pub ledger : GroupRecord

-- A frozen condition tree, `ConditionTrace`.
mutual
  pub data ConditionTrace : Type 0 where
    node : NodeView → ConditionTraces → ConditionTrace

  pub data ConditionTraces : Type 0 where
    nil : ConditionTraces
    cons : ConditionTrace → ConditionTraces → ConditionTraces

-- Durations are clock readings subtracted; `tree` is `none` where `hasTree` is false.
pub record RuleTiming : Type 0 where
  pub condition : ℕ
  pub action : ℕ
  pub tree : Option ConditionTrace

pub record TraceData : Type 0 where
  pub duration : ℕ
  pub rules : List RuleTiming

pub data EventKind : Type 0 where
  event_none execution_started rule_evaluated rule_matched rule_fired_event rule_failed_event :
      EventKind
  execution_finished group_resolved_event group_finished : EventKind

pub record EventSummary : Type 0 where
  pub counts : Counts
  pub stop : StopReason

pub record Event : Type 0 where
  pub identity : SnapshotInfo
  pub rule : Option RuleMetadata
  pub order : ℕ
  pub failure : Option Failure
  pub summary : Option EventSummary
  pub group : Option GroupResult
  pub kind : EventKind
  pub outcome : ConditionOutcome

pub record Diagnostic : Type 0 where
  pub event : Event
  pub cause : Err

pub record Result : Type 0 where
  pub metadata : Option SnapshotMetadata
  pub identity : SnapshotInfo
  pub counts : Counts
  pub stop : StopReason
  pub records : List ExecutionRecord
  pub failures : List Failure
  pub trace : Option TraceData
  pub diagnostics : List Diagnostic
  pub evaluated_through : ℕ
  pub groups : List GroupRecord

abbrev pub zero_counts : Counts
zero_counts = record {
  total = 0;
  evaluated = 0;
  not_evaluated = 0;
  matched = 0;
  unmatched = 0;
  fired = 0;
  skipped = 0;
  failed = 0;
  condition_failed = 0;
  action_failed = 0;
  panic_recovered = 0;
}

abbrev pub zero_result : Result
zero_result = record {
  metadata = none;
  identity = zero_info;
  counts = zero_counts;
  stop = stop_none;
  records = [];
  failures = [];
  trace = none;
  diagnostics = [];
  evaluated_through = 0;
  groups = [];
}

abbrev pub Observer : Type 0 → Type 0
Observer Host = Context Host → Event → Eff Host (Option Err)
