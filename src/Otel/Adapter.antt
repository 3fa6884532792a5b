-- ===== src/Otel/Adapter.antt =====
-- The adapter and the observer of one execution (otel/adapter.go).
use rulite.Base.{
  ℕ, List, [], ◌∷◌, Bool, true, false, not, ◌||◌, Option, none, some, Bytes, insert, if◌then◌else◌,
}
use rulite.Base.Strings.{codes}
use rulite.Ledger.{
  EventKind, rule_matched, rule_fired_event, rule_failed_event, StopReason, stop_none,
}
use rulite.Result.Texts.{stop_reason_text}
use rulite.Otel.Config.{Config, AdapterOption, configure}
use rulite.Otel.Sdk.{
  Value, text, Attribute, Instrument, execution_count, rules_evaluated, rules_matched, rules_fired,
  rules_failed, execution_duration, rule_events,
}

abbrev pub attribute : Bytes → Value → Attribute
attribute key value = record { key = key; value = value }

-- `terminalAttributes`: there is no set for `StopNone`.
abbrev pub TerminalAttributes : Type 0
TerminalAttributes = StopReason → Option (List Attribute)

abbrev stop_attributes : Bytes → Bool → StopReason → List Attribute
stop_attributes version include reason =
    attribute (codes "rulite.stop.reason") (text (stop_reason_text reason))
    ∷ (if include then attribute (codes "rulite.ruleset.version") (text version) ∷ [] else [])

unfoldable pub make_terminal_attributes : Bytes → Bool → TerminalAttributes
make_terminal_attributes version include stop_none = none
make_terminal_attributes version include reason = some (stop_attributes version include reason)

-- The index into the four sets of a rule.
abbrev rule_event_name : EventKind → Bytes
rule_event_name rule_matched = codes "matched"
rule_event_name rule_fired_event = codes "fired"
rule_event_name rule_failed_event = codes "failed"
rule_event_name _ = codes "evaluated"

abbrev pub RuleAttributes : Type 0
RuleAttributes = EventKind → List Attribute

abbrev rule_attributes : Bytes → RuleAttributes
rule_attributes id kind =
    attribute (codes "rulite.rule.id") (text id)
    ∷ attribute (codes "rulite.rule.event") (text (rule_event_name kind))
    ∷ []

pub record Adapter : Type 0 where
  pub config : Config
  pub fallback : TerminalAttributes
  pub versions : List (Bytes × TerminalAttributes)
  pub rules : List (Bytes × RuleAttributes)

abbrev version_table : List Bytes → List (Bytes × TerminalAttributes)
version_table [] = []
version_table (v ∷ vs) = insert v (make_terminal_attributes v true) (version_table vs)

abbrev rule_table : List Bytes → List (Bytes × RuleAttributes)
rule_table [] = []
rule_table (id ∷ ids) = insert id (rule_attributes id) (rule_table ids)

-- The adapter of a configuration.
unfoldable pub build_adapter : Config → Adapter
unfolding make_terminal_attributes
build_adapter c = record {
  config = c;
  fallback =
      if c.version_metrics
      then make_terminal_attributes (codes "other") true
      else make_terminal_attributes [] false;
  versions = if c.version_metrics then version_table c.metric_versions else [];
  rules = rule_table c.rule_metrics;
}

-- The error of `New`.
pub data NewError : Type 0 where
  invalid_config : NewError
  instrument_error : ℕ → NewError

pub data NewAdapter : Type 0 where
  adapter : Adapter → NewAdapter
  not_built : NewError → NewAdapter

-- The first instrument of the meter that cannot be made, by the number of its error.
abbrev first_failure : (Instrument → Option ℕ) → List Instrument → Option ℕ
first_failure create [] = none
first_failure create (i ∷ rest) = elim (create i) [
  | some e ↦ some e
  | none ↦ first_failure create rest
]

abbrev instruments : Config → List Instrument
instruments c =
    execution_count
    ∷ rules_evaluated
    ∷ rules_matched
    ∷ rules_fired
    ∷ rules_failed
    ∷ execution_duration
    ∷ elim c.rule_metrics [ [] ↦ [] | _ ↦ rule_events ∷ [] ]

-- Providers that are nil are false; `create` is what the meter answers for an instrument.
unfoldable pub new : Bool → Bool → (Instrument → Option ℕ) → List AdapterOption → NewAdapter
unfolding build_adapter configure
new traces metrics create options =
    if not traces || not metrics then not_built invalid_config else elim (configure options) [
      | none ↦ not_built invalid_config
      | some c ↦ elim (first_failure create (instruments c)) [
        | some e ↦ not_built (instrument_error e)
        | none ↦ adapter (build_adapter c)
      ]
    ]
