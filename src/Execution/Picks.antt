-- ===== src/Execution/Picks.antt =====
-- How many rules the selection policy lets through (execution_internal.go, `StopOnFirstMatch` and
-- `StopOnFirstFire` of policy.go).
pub mod Whole
use rulite.Base.{
  ℕ, ◌+◌, ◌≤◌, ◌≡◌, refl, sym, subst, Bool, true, false, not, ◌&&◌, Option, none, some, ◌==◌,
  if◌then◌else◌, Bool-cases, inl, inr, arith,
}
use rulite.Errors.{RuleId, Err, condition_phase, action_phase}
use rulite.Ledger.{
  CompiledEntry, GroupMetadata, Counts, Result, StopReason, stop_none, stop_completed,
  stop_first_match, stop_first_fire, stop_condition_error, stop_action_error, stop_context_canceled,
  stop_context_deadline_exceeded, stop_panic,
}
use rulite.Policy.{ExecutionPolicy, stop_on_error, stop_on_first_match, stop_on_first_fire}
use rulite.Execution.State.{
  Execution, observe_context_error, context_stop, is_stop_panic, count_failure, count_skipped,
  group_record,
}
use rulite.Execution.Calls.{Caught, ran, recovered}
use rulite.Execution.Outcome.{Flow, Job, is_resolved}
use rulite.Execution.Automaton.{
  Answers, Check, visit, settle, match_rule, attempt, after_attempt, noted, unless_noted,
  local_advance, fail_condition, fail_action, fire,
}
use rulite.Execution.Endings.{OnFlow}
use rulite.Execution.Moves.{Moves, At, visit-At, local_advance-At}
use rulite.Execution.Stops.{context_stop-cases}

-- The rules that count for the policy: matched ones, fired ones, or none.
abbrev pub picked : ExecutionPolicy → Counts → ℕ
picked policy c =
    if policy.stop == stop_on_first_match
    then c.matched
    else if policy.stop == stop_on_first_fire
    then c.fired
    else 0

-- How many have been picked at a stop.
abbrev pub Picks : StopReason → ℕ → Type 0
Picks stop_completed n = n ≡ 0
Picks stop_first_match n = n ≡ 1
Picks stop_first_fire n = n ≡ 1
Picks stop_condition_error n = n ≡ 0
Picks _ n = n ≤ 1

Picks-observed :
    (s : StopReason) (e : Err) (n : ℕ)
    → n ≤ 1
    → Picks (if is_stop_panic s then s else context_stop e) n
Picks-observed s e n h = go s
  where
    at_context : Picks (context_stop e) n
    at_context = elim (context_stop-cases e) [
      | inl same ↦ subst (λ s. Picks s n) (sym same) h
      | inr same ↦ subst (λ s. Picks s n) (sym same) h
    ]

    go : (s : StopReason) → Picks (if is_stop_panic s then s else context_stop e) n
    go stop_panic = h
    go stop_none = at_context
    go stop_completed = at_context
    go stop_first_match = at_context
    go stop_first_fire = at_context
    go stop_condition_error = at_context
    go stop_action_error = at_context
    go stop_context_canceled = at_context
    go stop_context_deadline_exceeded = at_context

-- One more matched rule, and the rules that fired with it, are one more picked rule at most.
picked-step :
    (policy : ExecutionPolicy) (c d : Counts)
    → d.matched ≡ c.matched + 1
    → d.fired ≤ c.fired + 1
    → picked policy c ≡ 0
    → picked policy d ≤ 1
picked-step policy c d m f h = elim (Bool-cases (policy.stop == stop_on_first_match)) [
  | inl e ↦ ground arith
  | inr e ↦ elim (Bool-cases (policy.stop == stop_on_first_fire)) [
    | inl k ↦ ground arith
    | inr k ↦ ground arith
  ]
]

module _ {Host : Type 0} (job : Job Host) where
  open job use {ctx, config}

  abbrev count : Result → ℕ
  count r = picked config.policy r.counts

  abbrev pub Picked : Bool → Execution Host → Type 0
  Picked true x = Picks x.result.stop (count x.result)
  Picked false x = count x.result ≡ 0

  pub observed-Picked :
      (e : Err) (host : Host) (x : Execution Host)
      → count x.result ≤ 1
      → Picked true (observe_context_error ctx e host x)
  observed-Picked e host x h = Picks-observed x.result.stop e (count x.result) h

  noted-Picked :
      (check : Check Host) (x : Execution Host)
      → count x.result ≤ 1
      → x.result.stop ≡ stop_panic
      → Picked true (noted job check x)
  noted-Picked none x h s = subst (λ s. Picks s (count x.result)) (sym s) h
  noted-Picked (some (e, host)) x h s = observed-Picked e host x h

  -- Behind an action, from the counts before it.
  record Tried (failed : Bool) (x : Execution Host) : Type 0 where
    before : Counts
    picked_before : picked config.policy before ≡ 0
    matched : x.result.counts.matched ≡ before.matched + 1
    fired : x.result.counts.fired ≡ before.fired + (if failed then 0 else 1)

  Tried-le : (failed : Bool) (x : Execution Host) → Tried failed x → count x.result ≤ 1
  Tried-le failed x t =
      picked-step config.policy t.before x.result.counts t.matched (ground (arith, t.fired))
        t.picked_before

  visit_moves :
      (entry : CompiledEntry) (order : ℕ)
      → Moves job entry order (Picked false) (Picked false) (Picked false) Tried (OnFlow Picked)
  visit_moves entry order = record {
    marks = λ x h. h;
    condition_panics = λ panic check x h. noted-Picked check _ (omega (arith, h)) refl;
    condition_fails = λ err x h. h;
    misses = λ x h. h;
    observed = λ e host x h. observed-Picked e host x (omega (arith, h));
    condition_stops = λ x h e. h;
    matches = λ id x h. h;
    skips = λ e host x h. Picks-observed x.result.stop e _ (
        picked-step config.policy x.result.counts (count_skipped x.result.counts) refl (omega arith)
          h);
    action_panics = λ panic check x h.
        noted-Picked check _
          (picked-step config.policy x.result.counts
            (count_failure action_phase true x.result.counts) refl (omega arith) h)
          refl;
    action_fails = λ err x h. record {
      before = x.result.counts;
      picked_before = h;
      matched = refl;
      fired = omega arith;
    };
    fires = λ id x h. record {
      before = x.result.counts;
      picked_before = h;
      matched = refl;
      fired = refl;
    };
    tried_observed = λ failed e host x t. observed-Picked e host x (Tried-le failed x t);
    action_stops = λ failed x t e. Tried-le failed x t;
    match_stops = λ failed x t e. ground (arith, t.picked_before, t.matched);
    fire_stops = λ failed x t e f. ground (arith, t.picked_before, t.matched, t.fired);
    advances = λ failed x t e f.
        let none_picked : Picked false x = ground (arith, t.picked_before, t.fired) in
        local_advance-At job (OnFlow Picked) entry.group order x none_picked (λ g. none_picked);
  }

  pub visit-Picked :
      (entry : CompiledEntry) (order : ℕ) (id : RuleId) (a : Answers Host) (x : Execution Host)
      → Picked false x
      → At (OnFlow Picked) (visit job entry order id a x)
  visit-Picked entry order id a x h = visit-At job entry order (visit_moves entry order) id a x h
