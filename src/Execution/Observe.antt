-- ===== src/Execution/Observe.antt =====
-- Delivery of events to the observer (observer_internal.go, and `groupAt` of group_result.go).
use rulite.Base.{
  ℕ, List, [], ◌∷◌, ◌++◌, Bool, true, false, Option, none, some, if◌then◌else◌, get_elem?, ◌==◌,
}
use rulite.Errors.{Err, observer_panic_error, Failure, condition_phase, action_phase}
use rulite.World.{returned, panicked, Context, Eff, ConditionOutcome, outcome_error, not_evaluated}
use rulite.Ledger.{
  GroupMetadata, RuleMetadata, GroupState, not_entered, GroupResult, end_execution_stopped,
  EventKind, execution_started, rule_evaluated, rule_failed_event, Event, Result, Observer,
  zero_info, SnapshotMetadata,
}
use rulite.Policy.{propagate_panics}
use rulite.Execution.State.{Execution, Run, ◌>>◌, pure, group_record}

abbrev is_not_entered : GroupState → Bool
is_not_entered not_entered = true
is_not_entered _ = false

-- `Result.groupAt` at a group's own metadata.
abbrev pub group_view : Result → GroupMetadata → GroupResult
group_view r group =
    let g = group_record r.groups group.index in
    record {
      metadata = group;
      ledger =
          if is_not_entered g.state
          then record g { end_reason = end_execution_stopped; stop = r.stop }
          else g;
    }

abbrev pub blank_event : EventKind → Event
blank_event kind = record {
  identity = zero_info;
  rule = none;
  order = 0;
  failure = none;
  summary = none;
  group = none;
  kind = kind;
  outcome = not_evaluated;
}

abbrev pub rule_at_order : Option SnapshotMetadata → ℕ → Option RuleMetadata
rule_at_order none order = none
rule_at_order (some m) order = get_elem? m.rules order

abbrev pub last_failure : List Failure → Option Failure
last_failure [] = none
last_failure (f ∷ []) = some f
last_failure (f ∷ g ∷ fs) = last_failure (g ∷ fs)

-- What `observeRule` delivers: a failed condition is first reported as an evaluation.
abbrev pub failed_events : Event → Option Failure → List Event
failed_events event none = event ∷ []
failed_events event (some f) =
    let shown = record event { failure = some f } in
    elim f.phase [
      | condition_phase ↦
          record shown { kind = rule_evaluated; outcome = outcome_error }
          ∷ record shown { outcome = outcome_error }
          ∷ []
      | action_phase ↦ shown ∷ []
    ]

abbrev pub is_rule_failed : EventKind → Bool
is_rule_failed rule_failed_event = true
is_rule_failed _ = false

abbrev pub rule_events : EventKind → ℕ → ConditionOutcome → Result → List Event
rule_events kind order outcome r =
    let event = record (blank_event kind) {
      rule = rule_at_order r.metadata order;
      order = order;
      outcome = outcome;
    } in
    if is_rule_failed kind then failed_events event (last_failure r.failures) else event ∷ []

abbrev is_execution_started : EventKind → Bool
is_execution_started execution_started = true
is_execution_started _ = false

abbrev pub summary_event : EventKind → Result → Event
summary_event kind r =
    let counts =
      (if is_execution_started kind
        then record r.counts { not_evaluated = r.counts.total }
        else r.counts) in
    record (blank_event kind) { summary = some (record { counts = counts; stop = r.stop }) }

module _ {Host : Type 0} where
  -- `callObserver`
  unfoldable pub call_observer : Context Host → Observer Host → Event → ℕ → Eff Host (Option Err)
  call_observer ctx observer event mode w = elim (observer ctx event w) [
    | returned err w' ↦ returned err w'
    | panicked p w' ↦
        if mode == propagate_panics
        then panicked p w'
        else returned (some (observer_panic_error p)) w'
  ]

  -- What is left of the observer and the diagnostics after a delivery.
  abbrev pub note_delivery : Event → Option Err → Execution Host → Execution Host
  note_delivery event none x = x
  note_delivery event (some err) x = record x {
    observer = none;
    result = record x.result {
      diagnostics = x.result.diagnostics ++ record { event = event; cause = err } ∷ [];
    };
  }

  -- `execution.observe`
  unfoldable pub observe : Context Host → Event → Run Host (Unit {0})
  unfolding call_observer
  observe ctx event x w = elim x.observer [
    | none ↦ returned (tt, x) w
    | some observer ↦
        let sent = record event { identity = x.result.identity } in
        elim (call_observer ctx observer sent x.panic_mode w) [
          | returned err w' ↦ returned (tt, note_delivery sent err x) w'
          | panicked p w' ↦ panicked p w'
        ]
  ]

  unfoldable pub observe_each : Context Host → List Event → Run Host (Unit {0})
  unfolding observe
  observe_each ctx [] = pure tt
  observe_each ctx (event ∷ events) = observe ctx event >> observe_each ctx events

  -- `execution.observeRule`
  unfoldable pub observe_rule :
      Context Host → EventKind → ℕ → ConditionOutcome → Run Host (Unit {0})
  unfolding observe_each
  observe_rule ctx kind order outcome x w =
      observe_each ctx (rule_events kind order outcome x.result) x w

  -- `execution.observeSummary`
  unfoldable pub observe_summary : Context Host → EventKind → Run Host (Unit {0})
  unfolding observe
  observe_summary ctx kind x w = observe ctx (summary_event kind x.result) x w

  -- `execution.observeGroup`
  unfoldable pub observe_group : Context Host → EventKind → GroupMetadata → Run Host (Unit {0})
  unfolding observe
  observe_group ctx kind group x w =
      observe ctx (record (blank_event kind) { group = some (group_view x.result group) }) x w
