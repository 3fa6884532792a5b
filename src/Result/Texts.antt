-- ===== src/Result/Texts.antt =====
-- The names that enumerations print as (group.go, group_result.go, result.go, observer.go,
-- explain.go and execution_errors.go). The `default` branches are for numbers that are no constant.
use rulite.Base.{Bytes}
use rulite.Base.Strings.{codes}
use rulite.Errors.{Phase, condition_phase, action_phase}
use rulite.Rule.{GroupKind, first_match, first_fire}
use rulite.Ledger.{
  RuleState, rule_not_evaluated, rule_unmatched, rule_fired, rule_failed, rule_skipped, StopReason,
  stop_none, stop_completed, stop_first_match, stop_first_fire, stop_condition_error,
  stop_action_error, stop_context_canceled, stop_context_deadline_exceeded, stop_panic, GroupState,
  not_entered, resolved, exhausted, interrupted, GroupEndReason, end_none, end_resolved,
  end_exhausted, end_execution_stopped, EventKind, event_none, execution_started, rule_evaluated,
  rule_matched, rule_fired_event, rule_failed_event, execution_finished, group_resolved_event,
  group_finished,
}

abbrev pub group_kind_text : GroupKind → Bytes
group_kind_text first_match = codes "first-match"
group_kind_text first_fire = codes "first-fire"

abbrev pub group_state_text : GroupState → Bytes
group_state_text not_entered = codes "not-entered"
group_state_text resolved = codes "resolved"
group_state_text exhausted = codes "exhausted"
group_state_text interrupted = codes "interrupted"

abbrev pub group_end_text : GroupEndReason → Bytes
group_end_text end_none = codes "none"
group_end_text end_resolved = codes "resolved"
group_end_text end_exhausted = codes "exhausted"
group_end_text end_execution_stopped = codes "execution-stopped"

abbrev pub stop_reason_text : StopReason → Bytes
stop_reason_text stop_none = codes "none"
stop_reason_text stop_completed = codes "completed"
stop_reason_text stop_first_match = codes "first-match"
stop_reason_text stop_first_fire = codes "first-fire"
stop_reason_text stop_condition_error = codes "condition-error"
stop_reason_text stop_action_error = codes "action-error"
stop_reason_text stop_context_canceled = codes "context-canceled"
stop_reason_text stop_context_deadline_exceeded = codes "context-deadline-exceeded"
stop_reason_text stop_panic = codes "panic"

abbrev pub event_kind_text : EventKind → Bytes
event_kind_text event_none = codes "none"
event_kind_text execution_started = codes "execution-started"
event_kind_text rule_evaluated = codes "rule-evaluated"
event_kind_text rule_matched = codes "rule-matched"
event_kind_text rule_fired_event = codes "rule-fired"
event_kind_text rule_failed_event = codes "rule-failed"
event_kind_text execution_finished = codes "execution-finished"
event_kind_text group_resolved_event = codes "group-resolved"
event_kind_text group_finished = codes "group-finished"

abbrev pub rule_state_text : RuleState → Bytes
rule_state_text rule_not_evaluated = codes "not-evaluated"
rule_state_text rule_unmatched = codes "unmatched"
rule_state_text rule_fired = codes "fired"
rule_state_text rule_failed = codes "failed"
rule_state_text rule_skipped = codes "skipped"

abbrev pub phase_text : Phase → Bytes
phase_text condition_phase = codes "condition"
phase_text action_phase = codes "action"
