-- ===== src/Otel/Attributes.antt =====
-- What the observer tells of events (otel/adapter.go).
use rulite.Base.{
  ℕ, List, [], ◌∷◌, ◌++◌, Bool, true, false, not, Option, none, some, Bytes, lookup, if◌then◌else◌,
}
use rulite.Base.Int.{pos}
use rulite.Base.Strings.{codes}
use rulite.Errors.{Phase, condition_phase}
use rulite.World.{ConditionOutcome, outcome_false, outcome_true}
use rulite.Rule.{Priority, contains}
use rulite.Ledger.{
  Event, StopReason, stop_context_canceled, stop_context_deadline_exceeded, Counts, zero_counts,
}
use rulite.Result.Describe.{event_outcome, event_counts, event_stop_reason}
use rulite.Result.Texts.{stop_reason_text, phase_text}
use rulite.Otel.Config.{Config, valid_text}
use rulite.Otel.Adapter.{Adapter, attribute}
use rulite.Otel.Sdk.{
  text, number, truth, Attribute, Instrument, execution_count, rules_evaluated, rules_matched,
  rules_fired, rules_failed, ExecutionObserver,
}

abbrev pub rule_id_of : Event → Bytes
rule_id_of e = elim e.rule [ none ↦ [] | some info ↦ info.id ]

abbrev pub priority_of : Event → Priority
priority_of e = elim e.rule [ none ↦ pos 0 | some info ↦ info.priority ]

abbrev pub order_of : Event → ℕ
order_of e = elim e.rule [ none ↦ 0 | some info ↦ e.order ]

abbrev pub outcome_text : ConditionOutcome → Bytes
outcome_text outcome_false = codes "false"
outcome_text outcome_true = codes "true"
outcome_text _ = codes "error"

abbrev pub outcome_attributes : Option ConditionOutcome → List Attribute
outcome_attributes none = []
outcome_attributes (some o) =
    attribute (codes "rulite.condition.outcome") (text (outcome_text o)) ∷ []

unfoldable pub event_attributes : Config → Event → Phase → List Attribute
event_attributes c e phase =
    attribute (codes "rulite.rule.priority") (number (priority_of e))
    ∷ attribute (codes "rulite.rule.order") (number (pos (order_of e)))
    ∷ attribute (codes "rulite.rule.phase") (text (phase_text phase))
    ∷ ((if c.hide_rule_ids
          then []
          else attribute (codes "rulite.rule.id") (text (rule_id_of e)) ∷ [])
        ++ outcome_attributes (event_outcome e))

-- Whether an allowlist of rules leaves the event out.
abbrev pub is_filtered : Option (List Bytes) → Bytes → Bool
is_filtered none id = false
is_filtered (some ids) id = not (contains id ids)

abbrev pub counts_of : Event → Counts
counts_of e = elim (event_counts e) [ none ↦ zero_counts | some c ↦ c ]

abbrev pub is_error_stop : StopReason → Bool
is_error_stop stop_context_canceled = true
is_error_stop stop_context_deadline_exceeded = true
is_error_stop _ = false

abbrev pub number_attribute : Bytes → ℕ → Attribute
number_attribute key n = attribute key (number (pos n))

unfoldable pub finish_attributes : StopReason → Counts → ExecutionObserver → List Attribute
finish_attributes stop counts s =
    attribute (codes "rulite.stop.reason") (text (stop_reason_text stop))
    ∷ number_attribute (codes "rulite.rules.total") counts.total
    ∷ number_attribute (codes "rulite.rules.evaluated") counts.evaluated
    ∷ number_attribute (codes "rulite.rules.matched") counts.matched
    ∷ number_attribute (codes "rulite.rules.fired") counts.fired
    ∷ number_attribute (codes "rulite.rules.failed") counts.failed
    ∷ number_attribute (codes "rulite.events.recorded") s.emitted
    ∷ number_attribute (codes "rulite.events.dropped") s.dropped
    ∷ number_attribute (codes "rulite.events.filtered") s.filtered
    ∷ []

abbrev pub finish_attributes_for : Adapter → Event → Option (List Attribute)
finish_attributes_for a e = elim (lookup e.identity.version a.versions) [
  | none ↦ a.fallback (event_stop_reason e)
  | some sets ↦ sets (event_stop_reason e)
]

abbrev pub incomplete : Attribute
incomplete = attribute (codes "rulite.observation.incomplete") (truth true)

abbrev pub version_attribute : Bytes → Attribute
version_attribute version =
    if valid_text version
    then attribute (codes "rulite.ruleset.version") (text version)
    else attribute (codes "rulite.ruleset.version.omitted") (truth true)

abbrev pub phase_shown : Option (Option Phase) → Phase
phase_shown (some (some phase)) = phase
phase_shown _ = condition_phase

abbrev pub values : Counts → List (Instrument × ℕ)
values c =
    (execution_count, 1)
    ∷ (rules_evaluated, c.evaluated)
    ∷ (rules_matched, c.matched)
    ∷ (rules_fired, c.fired)
    ∷ (rules_failed, c.failed)
    ∷ []
