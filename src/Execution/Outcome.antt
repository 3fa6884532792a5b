-- ===== src/Execution/Outcome.antt =====
-- What `executeRules` does behind each callback: the branches of its loop body.
use rulite.Base.{
  ℕ, ◌+◌, ◌-◌, Bool, true, false, not, ◌&&◌, Option, none, some, if◌then◌else◌, ◌==◌, is_some,
}
use rulite.Errors.{RuleId, Phase, condition_phase, action_phase, Err}
use rulite.World.{
  returned, Context, Pointer, Eff, outcome_false, outcome_true, outcome_error, not_evaluated,
}
use rulite.Rule.{GroupKind, first_match, first_fire}
use rulite.Ledger.{
  GroupMetadata, CompiledEntry, RuleCallbacks, CompiledSnapshot, rule_fired, rule_skipped,
  stop_first_match, stop_first_fire, stop_condition_error, stop_action_error, stop_panic,
  GroupState, not_entered, resolved, rule_evaluated, rule_matched, rule_fired_event,
  rule_failed_event, group_resolved_event, Result,
}
use rulite.Policy.{
  ExecutionConfig, stop_on_first_match, stop_on_first_fire, stop_on_error, continue_on_error,
}
use rulite.Execution.State.{
  Execution, Run, ◌>>=◌, ◌>>◌, pure, modify, lift, on_result, on_counts, set_stop, add_record, fail,
  count_unmatched, count_skipped, count_fired, group_record, on_group, resolve_group, same_kind,
  context_done,
}
use rulite.Execution.Observe.{observe_rule, observe_group}
use rulite.Execution.Calls.{Caught, ran, recovered, call_action, on_timing}

-- How the loop body goes on: to the next rule, or out of `executeRules` with its result.
pub data Flow : Type 0 where
  next : Flow
  leave : Bool → Flow

abbrev pub is_resolved : GroupState → Bool
is_resolved resolved = true
is_resolved _ = false

abbrev pub is_entered : GroupState → Bool
is_entered not_entered = false
is_entered _ = true

module _ {Host : Type 0} where
  abbrev pub change : (Result → Result) → Run Host (Unit {0})
  change f = modify (on_result f)

  -- A step that only some entries take.
  abbrev pub when_so : Bool → Run Host (Unit {0}) → Run Host (Unit {0})
  when_so b m = if b then m else pure tt

  -- `if entry.group != nil && entry.group.kind == kind { x.observeGroup(…, entry.group) }`
  abbrev pub observe_resolved :
      Context Host → GroupKind → Option GroupMetadata → Run Host (Unit {0})
  observe_resolved ctx kind none = pure tt
  observe_resolved ctx kind (some group) =
      when_so (same_kind group.kind kind) (observe_group ctx group_resolved_event group)

  abbrev pub skip_from : GroupMetadata → ℕ → Execution Host → Execution Host
  skip_from group order = on_result (on_group group.index (λ g. record g { skipped_from = order }))

  -- `if x.contextDone(ctx) { return true }`
  abbrev pub unless_done : Context Host → Run Host Flow → Run Host Flow
  unless_done ctx m = do done ← context_done ctx; if done then pure (leave true) else m

-- The arguments that `execute` and `executeRules` share: the clock, the context, the input, the
-- compiled set and the configuration.
pub record Job (Host : Type 0) : Type 0 where
  pub now : Host → ℕ × Host
  pub ctx : Context Host
  pub input : Pointer
  pub snapshot : CompiledSnapshot Host
  pub config : ExecutionConfig Host

module _ {Host : Type 0} (job : Job Host) where
  open job use {now, ctx, input, snapshot, config}

  -- `time.Now()`, read only under tracing.
  abbrev pub read_clock : Eff Host ℕ
  read_clock w = let (t, host) = now w.host in returned t (record w { host = host })

  -- A recovered panic ends the execution; a done context is still noted.
  unfoldable pub panic_stop : ℕ → Phase → Err → Run Host Flow
  unfolding observe_rule context_done
  panic_stop order phase panic = do
    modify (fail order phase panic false true)
    change (set_stop stop_panic)
    observe_rule ctx rule_failed_event order
        (elim phase [ condition_phase ↦ outcome_error | action_phase ↦ not_evaluated ])
    done ← context_done ctx
    pure (leave true)

  unfoldable pub condition_failed : ℕ → Err → Run Host Flow
  unfolding observe_rule context_done
  condition_failed order err = do
    modify
        (fail order condition_phase err (config.policy.condition_errors == continue_on_error) false)
    observe_rule ctx rule_failed_event order outcome_error
    unless_done ctx (
        if config.policy.condition_errors == stop_on_error
        then (change (set_stop stop_condition_error) >> pure (leave true))
        else pure next)

  unfoldable pub condition_missed : ℕ → Run Host Flow
  unfolding observe_rule context_done
  condition_missed order = do
    change (on_counts count_unmatched)
    observe_rule ctx rule_evaluated order outcome_false
    unless_done ctx (pure next)

  -- The end of the loop body, behind an action that returned.
  abbrev pub advance : Option GroupMetadata → ℕ → Run Host Flow
  advance none order x w = returned (next, x) w
  advance (some group) order x w =
      if is_resolved (group_record x.result.groups group.index).state
      then returned (leave false, skip_from group (order + 1) x) w
      else returned (next, x) w

  -- Error stop, global selection, local advancement, in this order.
  abbrev pub decisions : CompiledEntry → ℕ → Option Err → Run Host Flow
  decisions entry order err =
      if is_some err && (config.policy.action_errors == stop_on_error)
      then (change (set_stop stop_action_error) >> pure (leave true))
      else if config.policy.stop == stop_on_first_match
      then (change (set_stop stop_first_match) >> pure (leave true))
      else if not (is_some err) && (config.policy.stop == stop_on_first_fire)
      then (change (set_stop stop_first_fire) >> pure (leave true))
      else advance entry.group order

  unfoldable pub after_action : CompiledEntry → ℕ → Option Err → Run Host Flow
  unfolding context_done
  after_action entry order err = unless_done ctx (decisions entry order err)

  unfoldable pub action_returned : CompiledEntry → ℕ → RuleId → Option Err → Run Host Flow
  unfolding after_action observe_rule observe_group
  action_returned entry order id (some err) = do
    modify (fail order action_phase err (config.policy.action_errors == continue_on_error) false)
    observe_rule ctx rule_failed_event order not_evaluated
    after_action entry order (some err)
  action_returned entry order id none = do
    change (add_record order rule_fired)
    change (on_counts count_fired)
    change (resolve_group first_fire entry.group id)
    observe_rule ctx rule_fired_event order not_evaluated
    observe_resolved ctx first_fire entry.group
    after_action entry order none

  abbrev pub after_call : CompiledEntry → ℕ → RuleId → Caught (Option Err) → Run Host Flow
  after_call entry order id (recovered panic) = panic_stop order action_phase panic
  after_call entry order id (ran err) = action_returned entry order id err

  -- The call of the action, with its time if the execution is traced.
  unfoldable pub run_action :
      Bool → ℕ → RuleId → RuleCallbacks Host → Run Host (Caught (Option Err))
  unfolding call_action
  run_action false order id callbacks =
      lift (call_action ctx input callbacks.action id config.panic_mode)
  run_action true order id callbacks = do
    start ← lift read_clock
    outcome ← lift (call_action ctx input callbacks.action id config.panic_mode)
    stop ← lift read_clock
    change (on_timing order (λ t. record t { action = stop - start }))
    pure outcome

  unfoldable pub attempt_action : CompiledEntry → ℕ → RuleId → RuleCallbacks Host → Run Host Flow
  unfolding panic_stop action_returned run_action
  attempt_action entry order id callbacks =
      run_action config.trace order id callbacks >>= after_call entry order id

  unfoldable pub condition_matched : CompiledEntry → ℕ → RuleId → RuleCallbacks Host → Run Host Flow
  unfolding attempt_action observe_rule observe_group context_done
  condition_matched entry order id callbacks = do
    change (resolve_group first_match entry.group id)
    observe_rule ctx rule_evaluated order outcome_true
    observe_rule ctx rule_matched order outcome_true
    observe_resolved ctx first_match entry.group
    done ← context_done ctx
    (if done
        then (change (λ r. on_counts count_skipped (add_record order rule_skipped r))
            >> pure (leave true))
        else attempt_action entry order id callbacks)

  abbrev pub after_condition :
      CompiledEntry → ℕ → RuleId → RuleCallbacks Host → Caught (Bool × Option Err) → Run Host Flow
  after_condition entry order id callbacks (recovered panic) =
      panic_stop order condition_phase panic
  after_condition entry order id callbacks (ran (matched, some err)) = condition_failed order err
  after_condition entry order id callbacks (ran (false, none)) = condition_missed order
  after_condition entry order id callbacks (ran (true, none)) =
      condition_matched entry order id callbacks
