-- ===== src/Otel/Observer.antt =====
-- The observer of one execution, and `Fire` (otel/adapter.go).
pub mod Logic
pub mod Keeps
pub mod Rules
pub mod Session
pub mod Deliveries
pub mod Whole
pub mod Fires
use rulite.Base.{
  ℕ, ◌+◌, ◌-◌, List, [], ◌∷◌, ◌++◌, Bool, true, false, not, ◌&&◌, ◌||◌, Option, none, some, Bytes,
  lookup, ◌==◌, if◌then◌else◌,
}
use rulite.Base.Int.{ℤ, pos, ltb_ℤ}
use rulite.Base.Strings.{codes, decimal}
use rulite.Errors.{Err, user, Phase, condition_phase, nil_call}
use rulite.World.{
  World, Call, returned, panicked, Eff, Context, ConditionOutcome, outcome_false, outcome_true,
  ◌>>=◌, ◌>>◌, pure,
}
use rulite.Rule.{Priority, contains}
use rulite.Ledger.{
  Event, EventKind, execution_started, rule_evaluated, rule_matched, rule_fired_event,
  rule_failed_event, execution_finished, StopReason, stop_context_canceled,
  stop_context_deadline_exceeded, Counts, zero_counts, Result, zero_result, Observer,
}
use rulite.Policy.{FireOption, option_observer}
use rulite.Result.Describe.{event_phase, event_outcome, event_counts, event_stop_reason}
use rulite.Result.Texts.{stop_reason_text, event_kind_text, phase_text}
use rulite.Otel.Config.{Config, valid_text}
use rulite.Otel.Adapter.{Adapter, RuleAttributes, attribute}
use rulite.Otel.Sdk.{
  Span, Value, text, number, truth, Attribute, Instrument, execution_count, rules_evaluated,
  rules_matched, rules_fired, rules_failed, execution_duration, rule_events, Telemetry,
  set_attributes, set_error_status, add_event, end_span, add_count, record_duration, Sdk,
  ExecutionObserver, Observed, ask, tell, modify, get,
}
use rulite.Otel.Attributes.{
  rule_id_of, priority_of, order_of, outcome_text, outcome_attributes, event_attributes,
  is_filtered, counts_of, is_error_stop, number_attribute, finish_attributes, finish_attributes_for,
  incomplete, version_attribute, phase_shown, values,
}

-- `ErrEventLimit`, an error of another package than the root.
abbrev pub event_limit_error : Err
event_limit_error = user 0

abbrev pub fresh_observer : ExecutionObserver
fresh_observer = record {
  span = none;
  started = none;
  emitted = 0;
  dropped = 0;
  filtered = 0;
  closed = false;
}

abbrev limit_error : ExecutionObserver → Option Err
limit_error s = if s.dropped == 0 then none else some event_limit_error

module _ {H : Type 0} (sdk : Sdk H) where
  abbrev skip : Eff (Observed H) (Unit {0})
  skip = pure tt

  -- A call of a method on `s.span`, which may be nil.
  abbrev pub with_span :
      {A : Type 0} → (Span → Eff (Observed H) A) → Option Span → Eff (Observed H) A
  with_span f none w = panicked nil_call w
  with_span f (some span) w = f span w

  abbrev pub on_span : {A : Type 0} → (Span → Eff (Observed H) A) → Eff (Observed H) A
  on_span f w = with_span f w.host.observer.span w

  abbrev pub recording : Eff (Observed H) Bool
  recording = on_span (λ span. ask (sdk.is_recording span))

  abbrev pub tell_span : (Span → Telemetry) → Eff (Observed H) (Unit {0})
  tell_span t = on_span (λ span. tell sdk (t span))

  abbrev pub when_true : Bool → Eff (Observed H) (Unit {0}) → Eff (Observed H) (Unit {0})
  when_true true m = m
  when_true false m = skip

  abbrev start_clock : Bool → Eff (Observed H) (Unit {0})
  start_clock true = ask sdk.now >>= λ t. modify (λ s. record s { started = some t })
  start_clock false = skip

  abbrev start_attributes : Adapter → Event → Eff (Observed H) (Unit {0})
  start_attributes a e =
      tell_span (λ span.
        set_attributes span
          (attribute (codes "rulite.snapshot.revision") (text (decimal e.identity.revision)) ∷ []))
      >> when_true a.config.trace_versions
          (tell_span (λ span. set_attributes span (version_attribute e.identity.version ∷ [])))

  -- The first case of `Observe`.
  unfoldable pub begin_observation : Adapter → Event → Eff (Observed H) (Unit {0})
  begin_observation a e =
      (ask (sdk.enabled execution_duration) >>= start_clock)
      >> (ask sdk.start_span >>= λ span. modify (λ s. record s { span = some span }))
      >> (recording >>= λ on. when_true on (start_attributes a e))

  abbrev pub count_sets : Event → Option RuleAttributes → Eff (Observed H) (Unit {0})
  count_sets e none = skip
  count_sets e (some sets) = ask (sdk.enabled rule_events) >>= λ on.
      when_true on (tell sdk (add_count rule_events 1 (some (sets e.kind))))

  abbrev pub count_rule : Adapter → Event → Eff (Observed H) (Unit {0})
  count_rule a e = count_sets e (lookup (rule_id_of e) a.rules)

  abbrev pub add_event_for : Adapter → Event → Eff (Observed H) (Unit {0})
  add_event_for a e = tell_span (λ span.
      add_event span (event_kind_text e.kind)
        (event_attributes a.config e (phase_shown (event_phase e))))

  abbrev pub count_emitted : Eff (Observed H) (Unit {0})
  count_emitted = modify (λ s. record s { emitted = s.emitted + 1 })

  abbrev emit : Adapter → Event → Eff (Observed H) (Unit {0})
  emit a e = add_event_for a e >> count_emitted

  -- The event is filtered, dropped or emitted.
  abbrev pub record_rule : Adapter → Event → ExecutionObserver → Eff (Observed H) (Unit {0})
  record_rule a e s =
      if is_filtered a.config.trace_rules (rule_id_of e)
      then modify (λ o. record o { filtered = o.filtered + 1 })
      else if not (ltb_ℤ (pos s.emitted) a.config.event_limit)
      then modify (λ o. record o { dropped = o.dropped + 1 })
      else emit a e

  -- `executionObserver.rule`
  unfoldable pub rule : Adapter → Event → Eff (Observed H) (Unit {0})
  unfolding event_attributes
  rule a e = count_rule a e >> (recording >>= λ on. when_true on (get >>= λ s. record_rule a e s))

  abbrev count_value : Option (List Attribute) → Instrument × ℕ → Eff (Observed H) (Unit {0})
  count_value attributes (instrument, value) =
      if value == 0
      then skip
      else ask (sdk.enabled instrument) >>= λ on.
          when_true on (tell sdk (add_count instrument value attributes))

  abbrev pub count_all :
      Option (List Attribute) → List (Instrument × ℕ) → Eff (Observed H) (Unit {0})
  count_all attributes [] = skip
  count_all attributes (v ∷ vs) = count_value attributes v >> count_all attributes vs

  -- `time.Since(s.started)`; a zero time is no duration.
  abbrev duration : Option ℕ → Eff (Observed H) (Option ℕ)
  duration none = pure none
  duration (some t) = ask sdk.now >>= λ n. pure (some (n - t))

  abbrev record_time : Option (List Attribute) → Option ℕ → Eff (Observed H) (Unit {0})
  record_time attributes none = skip
  record_time attributes (some d) = tell sdk (record_duration d attributes)

  abbrev finish_span : Event → Eff (Observed H) (Unit {0})
  finish_span e =
      (get >>= λ s.
      tell_span
        (λ span. set_attributes span (finish_attributes (event_stop_reason e) (counts_of e) s)))
      >> when_true (not ((counts_of e).failed == 0) || is_error_stop (event_stop_reason e))
          (tell_span (λ span. set_error_status span (codes "execution failed or canceled")))

  abbrev close : Eff (Observed H) (Unit {0})
  close = modify (λ s. record s { closed = true }) >> tell_span end_span

  abbrev pub finish_calls : Adapter → Event → Option ℕ → Eff (Observed H) (Unit {0})
  finish_calls a e d =
      count_all (finish_attributes_for a e) (values (counts_of e))
      >> record_time (finish_attributes_for a e) d
      >> (recording >>= λ on. when_true on (finish_span e))
      >> close

  -- `executionObserver.finish`
  unfoldable pub finish : Adapter → Event → Eff (Observed H) (Option Err)
  finish a e = (get >>= λ s. duration s.started) >>= λ d.
      finish_calls a e d >> (get >>= λ s. pure (limit_error s))

  -- `executionObserver.Observe`
  unfoldable pub observe_kind : Adapter → Event → EventKind → Eff (Observed H) (Option Err)
  unfolding begin_observation rule finish
  observe_kind a e execution_started = begin_observation a e >> pure none
  observe_kind a e execution_finished = finish a e
  observe_kind a e rule_evaluated = rule a e >> pure none
  observe_kind a e rule_matched = rule a e >> pure none
  observe_kind a e rule_fired_event = rule a e >> pure none
  observe_kind a e rule_failed_event = rule a e >> pure none
  observe_kind a e _ = pure none

  abbrev pub observe : Adapter → Observer (Observed H)
  observe a ctx e = observe_kind a e e.kind

  -- A call whose panics are recovered and forgotten.
  abbrev pub recovered : Call (Observed H) (Unit {0}) → Call (Observed H) (Unit {0})
  recovered (returned _ w) = returned tt w
  recovered (panicked _ w) = returned tt w

  abbrev pub end_incomplete : Span → Eff (Observed H) (Unit {0})
  end_incomplete span w = recovered (
      (tell sdk (set_attributes span (incomplete ∷ []))
          >> tell sdk (set_error_status span (codes "observation incomplete")))
        w)

  abbrev end_recovered : Span → Eff (Observed H) (Unit {0})
  end_recovered span w = recovered (tell sdk (end_span span) w)

  -- `cleanup` of an observer with that span and that mark: the span ends whether or not the calls
  -- before panic.
  abbrev pub clean_span : Option Span → Bool → Eff (Observed H) (Unit {0})
  clean_span none closed = skip
  clean_span (some span) true = skip
  clean_span (some span) false =
      modify (λ o. record o { closed = true }) >> end_incomplete span >> end_recovered span

  -- `executionObserver.cleanup`
  unfoldable pub cleanup : Eff (Observed H) (Unit {0})
  cleanup = get >>= λ s. clean_span s.span s.closed

  -- A deferred call of `cleanup`.
  abbrev pub then_cleanup : {A : Type 0} → Call (Observed H) A → Call (Observed H) A
  then_cleanup (returned a w) = elim (cleanup w) [
    | returned _ v ↦ returned a v
    | panicked q v ↦ panicked q v
  ]
  then_cleanup (panicked p w) = elim (cleanup w) [
    | returned _ v ↦ panicked p v
    | panicked q v ↦ panicked q v
  ]

-- The errors of `Adapter.Fire` before the executor is called.
pub data FireRefusal : Type 0 where
  invalid_adapter invalid_executor : FireRefusal

-- What `Fire` of an executor is: a call with options, on a context and an input that are chosen.
abbrev pub Executor : Type 0 → Type 0 → Type 0
Executor H R = List (FireOption (Observed H)) → Eff (Observed H) R

pub data Fired (R : Type 0) : Type 0 where
  executed : R → Fired R
  not_executed : FireRefusal → Fired R

module _ {H R : Type 0} (sdk : Sdk H) where
  -- `Adapter.Fire`
  unfoldable pub fire :
      Option Adapter
      → Option (Executor H R)
      → List (FireOption (Observed H))
      → Eff (Observed H) (Fired R)
  unfolding cleanup observe_kind
  fire none executor options = pure (not_executed invalid_adapter)
  fire (some a) none options = pure (not_executed invalid_executor)
  fire (some a) (some executor) options = modify (λ s. fresh_observer) >> (λ w. then_cleanup sdk (
      (executor (options ++ option_observer (some (observe sdk a)) ∷ []) >>= λ r. pure (executed r))
        w))
