-- ===== src/Execution/Refine.antt =====
-- The parts of a visit (execution_internal.go, the loop body of `executeRules`) beside the automaton.
use rulite.Base.{
  ℕ, ◌≡◌, refl, true, false, not, ◌&&◌, Option, none, some, if◌then◌else◌, ◌==◌, is_some,
  Bool-cases, ◌+◌, inl, inr,
}
use rulite.Errors.{RuleId, Phase, condition_phase, action_phase, Err}
use rulite.World.{World, outcome_error, outcome_false, not_evaluated}
use rulite.Policy.{stop_on_error, stop_on_first_match, stop_on_first_fire}
use rulite.Ledger.{
  CompiledEntry, rule_evaluated, rule_fired_event, rule_failed_event, stop_condition_error,
  stop_action_error, stop_first_match, stop_first_fire, GroupMetadata,
}
use rulite.Rule.{first_fire}
use rulite.Execution.State.{
  Execution, Run, ◌>>=◌, pure, context_done, group_record, observe_context_error, on_result,
  on_counts, count_unmatched, set_stop, ◌>>◌,
}
use rulite.Execution.Calls.{Caught, ran, recovered}
use rulite.Execution.Outcome.{
  Flow, next, leave, Job, change, unless_done, panic_stop, condition_failed, condition_missed,
  after_action, action_returned, advance, is_resolved, skip_from, decisions, after_call,
  observe_resolved,
}
use rulite.Execution.After.{After, After-map, After-pure, heard}
use rulite.Execution.After.Events.{
  After-rule_event, After-resolved_event, After-check, After-unless,
}
use rulite.Execution.Automaton.{
  ledger, noted, unless_noted, stop_by_panic, local_advance, after_attempt, attempt, fail_condition,
  fail_action, fire,
}

module _ {Host : Type 0} (job : Job Host) where
  open job use {ctx, config}

  -- A method whose effect on the ledger is `f`, for one of the values of `I`.
  abbrev pub Makes :
      {I A : Type 0}
      → (I → Execution Host → A × Execution Host)
      → Execution Host
      → A
      → Execution Host
      → Type 0
  Makes {I} f x a z = (i : I) × (f i (ledger x) ≡ (a, ledger z)) × (z.panic_mode ≡ x.panic_mode)

  pub panic_stop-After :
      (order : ℕ) (phase : Phase) (panic : Err) (x : Execution Host) (w : World Host)
      → After x.panic_mode
          (Makes (λ c y. (leave true, noted job c (stop_by_panic job order phase panic y))) x)
          (panic_stop job order phase panic x w)
  unfolding panic_stop
  panic_stop-After order phase panic x w =
      After-rule_event ctx rule_failed_event order
        (elim phase [ condition_phase ↦ outcome_error | action_phase ↦ not_evaluated ])
        (stop_by_panic job order phase panic x) w (context_done ctx >>= λ done. pure (leave true))
        (λ o d w'.
          After-check ctx x.panic_mode (heard (stop_by_panic job order phase panic x) o d) w'
            (λ done. pure (leave true))
            (λ w''.
              After-pure (leave true) (heard (stop_by_panic job order phase panic x) o d) w''
                (none, refl, refl))
            (λ e host w''.
              After-pure (leave true)
                (observe_context_error ctx e host
                  (heard (stop_by_panic job order phase panic x) o d))
                w'' (some (e, host), refl, refl)))

  pub condition_failed-After :
      (order : ℕ) (err : Err) (x : Execution Host) (w : World Host)
      → After x.panic_mode
          (Makes
            (λ c y. unless_noted job c (fail_condition job order err y) (
              if config.policy.condition_errors == stop_on_error
              then (
                leave true,
                on_result (set_stop stop_condition_error) (fail_condition job order err y),
              )
              else (next, fail_condition job order err y)))
            x)
          (condition_failed job order err x w)
  unfolding condition_failed
  condition_failed-After order err x w =
      After-rule_event ctx rule_failed_event order outcome_error (fail_condition job order err x) w
        (unless_done ctx rest)
        (λ o d w'.
          After-unless ctx x.panic_mode (heard (fail_condition job order err x) o d) w' rest
            (λ w''. elim (Bool-cases (config.policy.condition_errors == stop_on_error)) [
              | inl e ↦ rw e (After-pure (leave true) _ w'' (none, refl, refl))
              | inr e ↦ rw e (After-pure next _ w'' (none, refl, refl))
            ])
            (λ e host. (some (e, host), refl, refl)))
    where
      rest : Run Host Flow
      rest =
          if config.policy.condition_errors == stop_on_error
          then (change (set_stop stop_condition_error) >> pure (leave true))
          else pure next

  pub condition_missed-After :
      (order : ℕ) (x : Execution Host) (w : World Host)
      → After x.panic_mode
          (Makes
            (λ c y.
              unless_noted job c
                (on_result (on_counts count_unmatched) y)
                (next, on_result (on_counts count_unmatched) y))
            x)
          (condition_missed job order x w)
  unfolding condition_missed
  condition_missed-After order x w =
      After-rule_event ctx rule_evaluated order outcome_false
        (on_result (on_counts count_unmatched) x) w (unless_done ctx (pure next))
        (λ o d w'.
          After-unless ctx x.panic_mode (heard (on_result (on_counts count_unmatched) x) o d) w'
            (pure next) (λ w''. After-pure next _ w'' (none, refl, refl))
            (λ e host. (some (e, host), refl, refl)))

  -- A method whose effect on the ledger is that of the pure function.
  abbrev Does : Flow × Execution Host → Execution Host → Flow → Execution Host → Type 0
  Does f x flow z = (f ≡ (flow, ledger z)) × (z.panic_mode ≡ x.panic_mode)

  advance-After :
      (group : Option GroupMetadata) (order : ℕ) (x : Execution Host) (w : World Host)
      → After x.panic_mode
          (Does (local_advance job group order (ledger x)) x)
          (advance job group order x w)
  advance-After none order x w = After-pure next x w (refl, refl)
  advance-After (some group) order x w =
      elim (Bool-cases (is_resolved (group_record x.result.groups group.index).state)) [
        | inl e ↦ rw e (After-pure (leave false) (skip_from group (order + 1) x) w (refl, refl))
        | inr e ↦ rw e (After-pure next x w (refl, refl))
      ]

  -- The decisions behind an action whose context is not done.
  decided :
      (entry : CompiledEntry) (order : ℕ) (err : Option Err) (x : Execution Host) (w : World Host)
      → After x.panic_mode
          (Does (after_attempt job entry order (is_some err) (ledger x)) x)
          (decisions job entry order err x w)
  unfolding after_attempt
  decided entry order err x w =
      elim (Bool-cases (is_some err && (config.policy.action_errors == stop_on_error))) [
        | inl e ↦
            rw e (After-pure (leave true) (on_result (set_stop stop_action_error) x) w (refl, refl))
        | inr e ↦ rw e (elim (Bool-cases (config.policy.stop == stop_on_first_match)) [
          | inl m ↦
              rw m
                (After-pure (leave true) (on_result (set_stop stop_first_match) x) w (refl, refl))
          | inr m ↦
              rw m
                (elim (Bool-cases
                  (not (is_some err) && (config.policy.stop == stop_on_first_fire))) [
                    | inl f ↦ rw f (
                        After-pure (leave true) (on_result (set_stop stop_first_fire) x) w
                          (refl, refl))
                    | inr f ↦ rw f (advance-After entry.group order x w)
                  ])
        ])
      ]

  after_action-After :
      (entry : CompiledEntry) (order : ℕ) (err : Option Err) (x : Execution Host) (w : World Host)
      → After x.panic_mode
          (Makes (λ c y. unless_noted job c y (after_attempt job entry order (is_some err) y)) x)
          (after_action job entry order err x w)
  unfolding after_action
  after_action-After entry order err x w =
      After-unless ctx x.panic_mode x w (decisions job entry order err)
        (λ w'.
          After-map (decisions job entry order err x w') (λ flow z h. (none, h.0, h.1))
            (decided entry order err x w'))
        (λ e host. (some (e, host), refl, refl))

  action_returned-After :
      (entry : CompiledEntry) (order : ℕ) (id : RuleId) (err : Option Err) (x : Execution Host)
      (w : World Host)
      → After x.panic_mode
          (Makes (attempt job entry order id (ran err)) x)
          (action_returned job entry order id err x w)
  unfolding action_returned attempt
  action_returned-After entry order id (some err) x w =
      After-rule_event ctx rule_failed_event order not_evaluated (fail_action job order err x) w
        (after_action job entry order (some err))
        (λ o d w'.
          After-map _ (λ flow z h. h)
            (after_action-After entry order (some err) (heard (fail_action job order err x) o d)
              w'))
  action_returned-After entry order id none x w =
      After-rule_event ctx rule_fired_event order not_evaluated (fire job entry order id x) w
        (observe_resolved ctx first_fire entry.group >> after_action job entry order none)
        (λ o d w'.
          After-resolved_event ctx first_fire entry.group (heard (fire job entry order id x) o d) w'
            (after_action job entry order none)
            (λ o' d' w''.
              After-map _ (λ flow z h. h)
                (after_action-After entry order none (heard (fire job entry order id x) o' d')
                  w'')))

  pub after_call-After :
      (entry : CompiledEntry) (order : ℕ) (id : RuleId) (answer : Caught (Option Err))
      (x : Execution Host) (w : World Host)
      → After x.panic_mode
          (Makes (attempt job entry order id answer) x)
          (after_call job entry order id answer x w)
  unfolding attempt
  after_call-After entry order id (recovered panic) x w =
      After-map _ (λ flow z h. h) (panic_stop-After order action_phase panic x w)
  after_call-After entry order id (ran err) x w = action_returned-After entry order id err x w
