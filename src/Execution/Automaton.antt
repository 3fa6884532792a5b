-- ===== src/Execution/Automaton.antt =====
-- The specification of the state machine: what one visit of a rule does to the ledger, as a pure
-- function of the answers that it gets. Events, traces, the clock and the world are gone.
use rulite.Base.{ℕ, ◌+◌, [], Bool, true, false, not, ◌&&◌, Option, none, some, if◌then◌else◌, ◌==◌}
use rulite.Errors.{RuleId, Phase, condition_phase, action_phase, Err}
use rulite.Rule.{first_match, first_fire}
use rulite.Ledger.{
  GroupMetadata, CompiledEntry, rule_fired, rule_skipped, stop_first_match, stop_first_fire,
  stop_condition_error, stop_action_error, stop_panic,
}
use rulite.Policy.{stop_on_first_match, stop_on_first_fire, stop_on_error, continue_on_error}
use rulite.Execution.State.{
  Execution, on_result, on_counts, set_stop, add_record, fail, mark_evaluated, count_unmatched,
  count_skipped, count_fired, group_record, resolve_group, observe_context_error,
}
use rulite.Execution.Calls.{Caught, ran, recovered}
use rulite.Execution.Outcome.{Flow, next, leave, Job, is_resolved, skip_from}

-- What a read of the context found: nothing, or an error and the host at that moment.
abbrev pub Check : Type 0 → Type 0
Check Host = Option (Err × Host)

-- The answers that one visit receives, in order; those that it does not ask for are ignored.
pub record Answers (Host : Type 0) : Type 0 where
  pub condition : Caught (Bool × Option Err)
  pub settled : Check Host
  pub action : Caught (Option Err)
  pub finished : Check Host

-- The part of an execution that the automaton is about.
abbrev pub ledger : {Host : Type 0} → Execution Host → Execution Host
ledger x = record x { observer = none; result = record x.result { diagnostics = []; trace = none } }

module _ {Host : Type 0} (job : Job Host) where
  open job use {ctx, config}

  abbrev pub noted : Check Host → Execution Host → Execution Host
  noted none x = x
  noted (some (e, host)) x = observe_context_error ctx e host x

  -- A done context ends the execution; otherwise the rest decides.
  abbrev pub unless_noted :
      Check Host → Execution Host → Flow × Execution Host → Flow × Execution Host
  unless_noted none x rest = rest
  unless_noted (some (e, host)) x rest = (leave true, observe_context_error ctx e host x)

  abbrev pub stop_by_panic : ℕ → Phase → Err → Execution Host → Execution Host
  stop_by_panic order phase panic x =
      on_result (set_stop stop_panic) (fail order phase panic false true x)

  abbrev pub fail_condition : ℕ → Err → Execution Host → Execution Host
  fail_condition order err x =
      fail order condition_phase err (config.policy.condition_errors == continue_on_error) false x

  abbrev pub fail_action : ℕ → Err → Execution Host → Execution Host
  fail_action order err x =
      fail order action_phase err (config.policy.action_errors == continue_on_error) false x

  abbrev pub local_advance : Option GroupMetadata → ℕ → Execution Host → Flow × Execution Host
  local_advance none order x = (next, x)
  local_advance (some group) order x =
      if is_resolved (group_record x.result.groups group.index).state
      then (leave false, skip_from group (order + 1) x)
      else (next, x)

  -- Error stop, global selection, local advancement, in this order of precedence.
  unfoldable pub after_attempt : CompiledEntry → ℕ → Bool → Execution Host → Flow × Execution Host
  after_attempt entry order failed x =
      if failed && (config.policy.action_errors == stop_on_error)
      then (leave true, on_result (set_stop stop_action_error) x)
      else if config.policy.stop == stop_on_first_match
      then (leave true, on_result (set_stop stop_first_match) x)
      else if not failed && (config.policy.stop == stop_on_first_fire)
      then (leave true, on_result (set_stop stop_first_fire) x)
      else local_advance entry.group order x

  abbrev pub fire : CompiledEntry → ℕ → RuleId → Execution Host → Execution Host
  fire entry order id x =
      on_result (resolve_group first_fire entry.group id)
        (on_result (on_counts count_fired) (on_result (add_record order rule_fired) x))

  unfoldable pub attempt :
      CompiledEntry
      → ℕ
      → RuleId
      → Caught (Option Err)
      → Check Host
      → Execution Host
      → Flow × Execution Host
  unfolding after_attempt
  attempt entry order id (recovered panic) check x =
      (leave true, noted check (stop_by_panic order action_phase panic x))
  attempt entry order id (ran (some err)) check x =
      unless_noted check (fail_action order err x)
        (after_attempt entry order true (fail_action order err x))
  attempt entry order id (ran none) check x =
      unless_noted check (fire entry order id x)
        (after_attempt entry order false (fire entry order id x))

  abbrev pub skip : ℕ → Execution Host → Execution Host
  skip order x = on_result (λ r. on_counts count_skipped (add_record order rule_skipped r)) x

  unfoldable pub match_rule :
      CompiledEntry
      → ℕ
      → RuleId
      → Check Host
      → Caught (Option Err)
      → Check Host
      → Execution Host
      → Flow × Execution Host
  unfolding attempt
  match_rule entry order id (some (e, host)) action finished x =
      (leave true, skip order (observe_context_error ctx e host x))
  match_rule entry order id none action finished x = attempt entry order id action finished x

  -- What follows the condition's answer.
  unfoldable pub settle :
      CompiledEntry
      → ℕ
      → RuleId
      → Check Host
      → Caught (Option Err)
      → Check Host
      → Caught (Bool × Option Err)
      → Execution Host
      → Flow × Execution Host
  unfolding match_rule
  settle entry order id settled action finished (recovered panic) x =
      (leave true, noted settled (stop_by_panic order condition_phase panic x))
  settle entry order id settled action finished (ran (matched, some err)) x =
      unless_noted settled (fail_condition order err x) (
        if config.policy.condition_errors == stop_on_error
        then (leave true, on_result (set_stop stop_condition_error) (fail_condition order err x))
        else (next, fail_condition order err x))
  settle entry order id settled action finished (ran (false, none)) x =
      unless_noted settled (on_result (on_counts count_unmatched) x)
        (next, on_result (on_counts count_unmatched) x)
  settle entry order id settled action finished (ran (true, none)) x =
      match_rule entry order id settled action finished
        (on_result (resolve_group first_match entry.group id) x)

  unfoldable pub visit :
      CompiledEntry → ℕ → RuleId → Answers Host → Execution Host → Flow × Execution Host
  unfolding settle
  visit entry order id a x =
      settle entry order id a.settled a.action a.finished a.condition
        (on_result (mark_evaluated order) x)
