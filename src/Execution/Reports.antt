-- ===== src/Execution/Reports.antt =====
-- The error of an execution against its ledger (execution_internal.go, `fail`, `contextDone` and
-- `finish`; `ExecutionError` of execution_errors.go).
pub mod Whole
use rulite.Base.{
  ℕ, List, [], ◌∷◌, ◌++◌, ◌≡◌, refl, sym, ap, ◌∙◌, subst, Bool, true, false, not, ◌&&◌,
  if◌then◌else◌, Option, none, some, ◌==◌, Bool-cases, inl, inr, ◌⊎◌, map, append-nil, map-append,
}
use rulite.Errors.{RuleId, Err, Phase, condition_phase, action_phase, Failure, Cause, rule_failure}
use rulite.Ledger.{
  CompiledEntry, GroupMetadata, Result, StopReason, stop_none, stop_first_match, stop_first_fire,
  stop_condition_error, stop_action_error, stop_context_canceled, stop_context_deadline_exceeded,
  stop_panic,
}
use rulite.Policy.{stop_on_error, stop_on_first_match, stop_on_first_fire}
use rulite.Execution.State.{
  Execution, observe_context_error, on_result, set_stop, is_stop_panic, context_stop,
  context_causes, fail, id_at, group_record,
}
use rulite.Execution.Calls.{Caught, ran, recovered}
use rulite.Execution.Outcome.{Flow, Job, is_resolved}
use rulite.Execution.Automaton.{
  Answers, Check, visit, settle, match_rule, attempt, after_attempt, noted, unless_noted,
  local_advance, fail_condition, fail_action, fire, skip,
}
use rulite.Execution.Endings.{OnFlow}
use rulite.Execution.Moves.{Moves, At, visit-At, local_advance-At}
use rulite.Execution.Stops.{context_stop-cases}

-- What the context adds behind the failures, and the stop reason that belongs to it.
pub record Boundary (stop : StopReason) (causes : List Cause) : Type 0 where
  pub error : Err
  pub cause : Option Err
  pub added : causes ≡ context_causes error cause
  pub stopped_by : stop ≡ context_stop error

-- The causes behind the failures at a stop: those of the context, if it ended the execution. A
-- panic goes before the context as a stop reason, and may have its causes behind it.
abbrev pub IsTail : StopReason → List Cause → Type 0
IsTail stop_context_canceled causes = Boundary stop_context_canceled causes
IsTail stop_context_deadline_exceeded causes = Boundary stop_context_deadline_exceeded causes
IsTail stop_panic causes =
    (causes ≡ []) ⊎ ((e : Err) × (cause : Option Err) × (causes ≡ context_causes e cause))
IsTail _ causes = causes ≡ []

abbrev pub Listed : List Failure → List Cause → List Cause → Type 0
Listed failures tail causes = causes ≡ map rule_failure failures ++ tail

IsTail-context : (e : Err) (cause : Option Err) → IsTail (context_stop e) (context_causes e cause)
IsTail-context e cause = elim (context_stop-cases e) [
  | inl same ↦
      subst (λ s. IsTail s (context_causes e cause)) (sym same)
        (record { error = e; cause = cause; added = refl; stopped_by = sym same })
  | inr same ↦
      subst (λ s. IsTail s (context_causes e cause)) (sym same)
        (record { error = e; cause = cause; added = refl; stopped_by = sym same })
]

module _ {Host : Type 0} (job : Job Host) where
  open job use {ctx, config}

  -- The failures are the causes so far.
  abbrev Even : Execution Host → Type 0
  Even x = x.causes ≡ map rule_failure x.result.failures

  abbrev pub Reported : Bool → Execution Host → Type 0
  Reported true x =
      (tail : List Cause) × IsTail x.result.stop tail × Listed x.result.failures tail x.causes
  Reported false x = (x.result.stop ≡ stop_none) × Even x

  pub observed-Reported :
      (e : Err) (host : Host) (x : Execution Host)
      → Reported false x
      → Reported true (observe_context_error ctx e host x)
  observed-Reported e host x (going, even) = (
    context_causes e (ctx.cause host),
    subst
        (λ s.
          IsTail (if is_stop_panic s then s else context_stop e)
            (context_causes e (ctx.cause host)))
        (sym going) (IsTail-context e (ctx.cause host)),
    ap (λ xs. xs ++ context_causes e (ctx.cause host)) even,
  )

  noted-Reported :
      (check : Check Host) (x : Execution Host)
      → x.result.stop ≡ stop_panic
      → Even x
      → Reported true (noted job check x)
  noted-Reported none x stop even = (
    [],
    subst (λ s. IsTail s []) (sym stop) (inl refl),
    even ∙ sym (append-nil (map rule_failure x.result.failures)),
  )
  noted-Reported (some (e, host)) x stop even = (
    context_causes e (ctx.cause host),
    subst
        (λ s.
          IsTail (if is_stop_panic s then s else context_stop e)
            (context_causes e (ctx.cause host)))
        (sym stop) (inr (e, ctx.cause host, refl)),
    ap (λ xs. xs ++ context_causes e (ctx.cause host)) even,
  )

  -- A stop that is no panic and not the context's.
  stop-Reported :
      (stop : StopReason) (x : Execution Host)
      → IsTail stop []
      → Even x
      → Reported true (on_result (set_stop stop) x)
  stop-Reported stop x plain even =
      ([], plain, even ∙ sym (append-nil (map rule_failure x.result.failures)))

  fail-Even :
      (order : ℕ) (phase : Phase) (err : Err) (continued by_panic : Bool) (x : Execution Host)
      → Even x
      → Even (fail order phase err continued by_panic x)
  fail-Even order phase err continued by_panic x even =
      let failure : Failure = record {
        rule_id = id_at x.result.metadata order;
        phase = phase;
        cause = err;
        continued = continued;
      } in
      ap (λ xs. xs ++ rule_failure failure ∷ []) even
      ∙ sym (map-append rule_failure x.result.failures (failure ∷ []))

  visit_moves :
      (entry : CompiledEntry) (order : ℕ)
      → Moves job entry order
          (Reported false)
          (Reported false)
          (Reported false)
          (λ _. Reported false)
          (OnFlow Reported)
  visit_moves entry order = record {
    marks = λ x h. h;
    condition_panics = λ panic check x h.
        noted-Reported check _ refl (fail-Even order condition_phase panic false true x h.1);
    condition_fails = λ err x h. (h.0, fail-Even order condition_phase err _ false x h.1);
    misses = λ x h. h;
    observed = observed-Reported;
    condition_stops = λ x h e. stop-Reported stop_condition_error x refl h.1;
    matches = λ id x h. h;
    skips = observed-Reported;
    action_panics = λ panic check x h.
        noted-Reported check _ refl (fail-Even order action_phase panic false true x h.1);
    action_fails = λ err x h. (h.0, fail-Even order action_phase err _ false x h.1);
    fires = λ id x h. h;
    tried_observed = λ failed e host x h. observed-Reported e host x h;
    action_stops = λ failed x h e. stop-Reported stop_action_error x refl h.1;
    match_stops = λ failed x h e. stop-Reported stop_first_match x refl h.1;
    fire_stops = λ failed x h e f. stop-Reported stop_first_fire x refl h.1;
    advances =
        λ failed x h e f. local_advance-At job (OnFlow Reported) entry.group order x h (λ g. h);
  }

  pub visit-Reported :
      (entry : CompiledEntry) (order : ℕ) (id : RuleId) (a : Answers Host) (x : Execution Host)
      → Reported false x
      → At (OnFlow Reported) (visit job entry order id a x)
  visit-Reported entry order id a x h = visit-At job entry order (visit_moves entry order) id a x h
