-- ===== src/Execution/Stops.antt =====
-- Why an execution stopped: the stop reason of a finished ledger against the policy
-- (execution_internal.go, `StopReason` of result.go).
pub mod Whole
use rulite.Base.{
  ℕ, zero, suc, ◌+◌, ◌-◌, List, [], ◌∷◌, ◌≡◌, refl, sym, ap, ◌∙◌, subst, Bool, true, false, not,
  ◌&&◌, Option, none, some, ◌==◌, Bool-cases, inl, inr, ◌⊎◌, arith, if◌then◌else◌,
}
use rulite.Errors.{
  RuleId, Err, Phase, ExecutionError, invalid_group, duplicate_group_id, invalid_rule_set,
  invalid_rule, duplicate_rule_id, invalid_condition, nil_context, nil_input, invalid_engine,
  invalid_policy, invalid_panic_mode, invalid_runtime, revision_exhausted, canceled,
  deadline_exceeded, wrapped, panic_error, observer_panic_error, user,
}
use rulite.World.{World}
use rulite.Ledger.{
  CompiledEntry, GroupMetadata, Result, SnapshotInfo, StopReason, stop_none, stop_completed,
  stop_first_match, stop_first_fire, stop_condition_error, stop_action_error, stop_context_canceled,
  stop_context_deadline_exceeded, stop_panic,
}
use rulite.Policy.{ExecutionPolicy, stop_on_error, stop_on_first_match, stop_on_first_fire}
use rulite.Execution.State.{
  Execution, on_result, observe_context_error, context_stop, is_stop_panic, fail, group_record,
}
use rulite.Execution.Calls.{Caught, ran, recovered}
use rulite.Execution.Outcome.{Flow, next, leave, Job, is_resolved, is_entered}
use rulite.Execution.Visit.{exhaust}
use rulite.Execution.Automaton.{
  Answers, Check, visit, settle, match_rule, attempt, after_attempt, noted, unless_noted,
  local_advance, fail_condition, fail_action, fire, ledger,
}
use rulite.Execution.Runs.{
  Visits, ends, cut, leaves, goes_on, entered, entered_group, Performs, blocked, performs, closed,
  closed_group, Passes, passes_all, passes_stop, passes_on, Covers, covers_range, covers_entries,
  Executes, never_started, stops, completes,
}
use rulite.Execution.Endings.{OnFlow}
use rulite.Execution.Moves.{Moves, At, visit-At, local_advance-At}
use rulite.Execution.Loop.{begin, execute, whole_range, groups_ready}
use rulite.Execution.Whole.{IsLaidOut, Finishes, execute-Finishes}

-- A reason other than completion that the policy allows.
abbrev pub IsStopFor : ExecutionPolicy → StopReason → Type 0
IsStopFor policy stop_none = ⊥
IsStopFor policy stop_completed = ⊥
IsStopFor policy stop_first_match = (policy.stop == stop_on_first_match) ≡ true
IsStopFor policy stop_first_fire = (policy.stop == stop_on_first_fire) ≡ true
IsStopFor policy stop_condition_error = (policy.condition_errors == stop_on_error) ≡ true
IsStopFor policy stop_action_error = (policy.action_errors == stop_on_error) ≡ true
IsStopFor policy stop_context_canceled = Unit
IsStopFor policy stop_context_deadline_exceeded = Unit
IsStopFor policy stop_panic = Unit

pub context_stop-cases :
    (e : Err)
    → (context_stop e ≡ stop_context_deadline_exceeded) ⊎ (context_stop e ≡ stop_context_canceled)
context_stop-cases invalid_group = inr refl
context_stop-cases duplicate_group_id = inr refl
context_stop-cases invalid_rule_set = inr refl
context_stop-cases invalid_rule = inr refl
context_stop-cases duplicate_rule_id = inr refl
context_stop-cases invalid_condition = inr refl
context_stop-cases nil_context = inr refl
context_stop-cases nil_input = inr refl
context_stop-cases invalid_engine = inr refl
context_stop-cases invalid_policy = inr refl
context_stop-cases invalid_panic_mode = inr refl
context_stop-cases invalid_runtime = inr refl
context_stop-cases revision_exhausted = inr refl
context_stop-cases canceled = inr refl
context_stop-cases deadline_exceeded = inl refl
context_stop-cases (user n) = inr refl
context_stop-cases (wrapped cause detail) = inr refl
context_stop-cases (panic_error id phase payload) = inr refl
context_stop-cases (observer_panic_error payload) = inr refl

context_stop-IsStopFor : (policy : ExecutionPolicy) (e : Err) → IsStopFor policy (context_stop e)
context_stop-IsStopFor policy e = elim (context_stop-cases e) [
  | inl same ↦ subst (IsStopFor policy) (sym same) tt
  | inr same ↦ subst (IsStopFor policy) (sym same) tt
]

module _ {Host : Type 0} (job : Job Host) where
  open job use {ctx, config}

  -- The stop reason of a ledger that has stopped, or has not.
  abbrev pub Ended : Bool → Execution Host → Type 0
  Ended true x = IsStopFor config.policy x.result.stop
  Ended false x = x.result.stop ≡ stop_none

  pub observed-Ended :
      (e : Err) (host : Host) (x : Execution Host)
      → x.result.stop ≡ stop_none
      → Ended true (observe_context_error ctx e host x)
  observed-Ended e host x h =
      subst (λ s. IsStopFor config.policy (if is_stop_panic s then s else context_stop e)) (sym h)
        (context_stop-IsStopFor config.policy e)

  noted-Ended :
      (check : Check Host) (x : Execution Host)
      → x.result.stop ≡ stop_panic
      → Ended true (noted job check x)
  noted-Ended none x h = subst (IsStopFor config.policy) (sym h) tt
  noted-Ended (some (e, host)) x h =
      subst (λ s. IsStopFor config.policy (if is_stop_panic s then s else context_stop e)) (sym h)
        tt

  visit_moves :
      (entry : CompiledEntry) (order : ℕ)
      → Moves job entry order
          (Ended false)
          (Ended false)
          (Ended false)
          (λ _. Ended false)
          (OnFlow Ended)
  visit_moves entry order = record {
    marks = λ x h. h;
    condition_panics = λ panic check x h. noted-Ended check _ refl;
    condition_fails = λ err x h. h;
    misses = λ x h. h;
    observed = observed-Ended;
    condition_stops = λ x h e. e;
    matches = λ id x h. h;
    skips = observed-Ended;
    action_panics = λ panic check x h. noted-Ended check _ refl;
    action_fails = λ err x h. h;
    fires = λ id x h. h;
    tried_observed = λ failed e host x h. observed-Ended e host x h;
    action_stops = λ failed x h e. ground arith;
    match_stops = λ failed x h e. e;
    fire_stops = λ failed x h e f. ground arith;
    advances = λ failed x h e f. local_advance-At job (OnFlow Ended) entry.group order x h (λ g. h);
  }

  pub visit-Ended :
      (entry : CompiledEntry) (order : ℕ) (id : RuleId) (a : Answers Host) (x : Execution Host)
      → Ended false x
      → At (OnFlow Ended) (visit job entry order id a x)
  visit-Ended entry order id a x h = visit-At job entry order (visit_moves entry order) id a x h
