-- ===== src/Result/Describe.antt =====
-- The answers of views and events about their rule, beside its state: `RuleInfo`, `RuleExecution`
-- and `Event` (metadata.go, result.go, observer.go).
use rulite.Base.{ℕ, List, Option, none, some}
use rulite.Errors.{GroupId, Phase, condition_phase, action_phase, Failure}
use rulite.World.{ConditionOutcome}
use rulite.Rule.{Text, details_value}
use rulite.Ledger.{
  RuleMetadata, Event, rule_evaluated, rule_matched, rule_fired_event, rule_failed_event, Counts,
  StopReason, stop_none,
}
use rulite.RuleSet.{RuleInfo}

unfoldable pub member_index : RuleMetadata → Option ℕ
member_index info = elim info.group [ none ↦ none | some group ↦ some info.member_index ]

unfoldable pub group_id : RuleMetadata → Option GroupId
group_id info = elim info.group [ none ↦ none | some group ↦ some group.id ]

unfoldable pub name : RuleMetadata → Text
name info = (details_value info.details).name

unfoldable pub description : RuleMetadata → Text
description info = (details_value info.details).description

unfoldable pub tags : RuleMetadata → List Text
tags info = (details_value info.details).tags

-- `Event.Rule`
unfoldable pub event_rule : Event → Option RuleInfo
event_rule e = elim e.rule [
  | none ↦ none
  | some info ↦ some (record { metadata = info; order = e.order })
]

abbrev failure_phase : Option Failure → Option (Option Phase)
failure_phase none = none
failure_phase (some f) = some (some f.phase)

-- `Event.Phase`: the outer `none` is the dereference of a missing failure.
unfoldable pub event_phase : Event → Option (Option Phase)
event_phase e = elim e.kind [
  | rule_evaluated ↦ some (some condition_phase)
  | rule_matched ↦ some (some condition_phase)
  | rule_fired_event ↦ some (some action_phase)
  | rule_failed_event ↦ failure_phase e.failure
  | _ ↦ some none
]

unfoldable pub event_outcome : Event → Option ConditionOutcome
event_outcome e = elim e.kind [
  | rule_evaluated ↦ some e.outcome
  | rule_matched ↦ some e.outcome
  | _ ↦ none
]

unfoldable pub event_counts : Event → Option Counts
event_counts e = elim e.summary [ none ↦ none | some s ↦ some s.counts ]

unfoldable pub event_stop_reason : Event → StopReason
event_stop_reason e = elim e.summary [ none ↦ stop_none | some s ↦ s.stop ]
