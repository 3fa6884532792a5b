-- ===== src/Execution/Moves.antt =====
-- A visit of a rule, taken apart once: what holds behind every visit follows from what the changes of
-- the ledger do.
use rulite.Base.{
  ℕ, ◌+◌, ◌≡◌, Bool, true, false, not, ◌&&◌, Option, none, some, ◌==◌, Bool-cases, inl, inr,
}
use rulite.Errors.{RuleId, Err, condition_phase, action_phase}
use rulite.Rule.{first_match}
use rulite.Ledger.{
  CompiledEntry, GroupMetadata, stop_first_match, stop_first_fire, stop_condition_error,
  stop_action_error,
}
use rulite.Policy.{stop_on_error, stop_on_first_match, stop_on_first_fire}
use rulite.Execution.State.{
  Execution, observe_context_error, on_result, on_counts, set_stop, mark_evaluated, count_unmatched,
  resolve_group, group_record,
}
use rulite.Execution.Calls.{Caught, ran, recovered}
use rulite.Execution.Outcome.{Flow, next, leave, Job, is_resolved, skip_from}
use rulite.Execution.Automaton.{
  Answers, Check, visit, settle, match_rule, attempt, after_attempt, noted, unless_noted,
  local_advance, fail_condition, fail_action, fire, skip, stop_by_panic,
}

abbrev pub At : {Host : Type 0} → (Flow → Execution Host → Type 0) → Flow × Execution Host → Type 0
At After (flow, x) = After flow x

-- What holds before a visit, behind its mark, behind a match, behind the action (which failed or did
-- not), and behind the visit, for each way on.
pub record Moves {Host : Type 0} (job : Job Host) (entry : CompiledEntry) (order : ℕ)
    (Before Pending Matched : Execution Host → Type 0) (Tried : Bool → Execution Host → Type 0)
    (After : Flow → Execution Host → Type 0) : Type 0 where
  pub marks : (x : Execution Host) → Before x → Pending (on_result (mark_evaluated order) x)
  pub condition_panics :
      (panic : Err) (check : Check Host) (x : Execution Host)
      → Pending x
      → After (leave true) (noted job check (stop_by_panic job order condition_phase panic x))
  pub condition_fails :
      (err : Err) (x : Execution Host) → Pending x → After next (fail_condition job order err x)
  pub misses :
      (x : Execution Host) → Pending x → After next (on_result (on_counts count_unmatched) x)
  pub observed :
      (e : Err) (host : Host) (x : Execution Host)
      → After next x
      → After (leave true) (observe_context_error job.ctx e host x)
  pub condition_stops :
      (x : Execution Host)
      → After next x
      → (job.config.policy.condition_errors == stop_on_error) ≡ true
      → After (leave true) (on_result (set_stop stop_condition_error) x)
  pub matches :
      (id : RuleId) (x : Execution Host)
      → Pending x
      → Matched (on_result (resolve_group first_match entry.group id) x)
  pub skips :
      (e : Err) (host : Host) (x : Execution Host)
      → Matched x
      → After (leave true) (skip job order (observe_context_error job.ctx e host x))
  pub action_panics :
      (panic : Err) (check : Check Host) (x : Execution Host)
      → Matched x
      → After (leave true) (noted job check (stop_by_panic job order action_phase panic x))
  pub action_fails :
      (err : Err) (x : Execution Host) → Matched x → Tried true (fail_action job order err x)
  pub fires :
      (id : RuleId) (x : Execution Host) → Matched x → Tried false (fire job entry order id x)
  pub tried_observed :
      (failed : Bool) (e : Err) (host : Host) (x : Execution Host)
      → Tried failed x
      → After (leave true) (observe_context_error job.ctx e host x)
  pub action_stops :
      (failed : Bool) (x : Execution Host)
      → Tried failed x
      → (failed && (job.config.policy.action_errors == stop_on_error)) ≡ true
      → After (leave true) (on_result (set_stop stop_action_error) x)
  pub match_stops :
      (failed : Bool) (x : Execution Host)
      → Tried failed x
      → (job.config.policy.stop == stop_on_first_match) ≡ true
      → After (leave true) (on_result (set_stop stop_first_match) x)
  pub fire_stops :
      (failed : Bool) (x : Execution Host)
      → Tried failed x
      → (job.config.policy.stop == stop_on_first_match) ≡ false
      → (not failed && (job.config.policy.stop == stop_on_first_fire)) ≡ true
      → After (leave true) (on_result (set_stop stop_first_fire) x)
  pub advances :
      (failed : Bool) (x : Execution Host)
      → Tried failed x
      → (job.config.policy.stop == stop_on_first_match) ≡ false
      → (not failed && (job.config.policy.stop == stop_on_first_fire)) ≡ false
      → At After (local_advance job entry.group order x)

-- Where the records of the groups do not matter, a rule is left as it goes on.
pub local_advance-At :
    {Host : Type 0} (job : Job Host) (After : Flow → Execution Host → Type 0)
    (group : Option GroupMetadata) (order : ℕ) (x : Execution Host)
    → After next x
    → ((g : GroupMetadata) → After (leave false) (skip_from g (order + 1) x))
    → At After (local_advance job group order x)
local_advance-At job After none order x h k = h
local_advance-At job After (some group) order x h k =
    elim (Bool-cases (is_resolved (group_record x.result.groups group.index).state)) [
      | inl e ↦ rw e (k group)
      | inr e ↦ rw e h
    ]

module _ {Host : Type 0} (job : Job Host) (entry : CompiledEntry) (order : ℕ)
    {Before Pending Matched : Execution Host → Type 0} {Tried : Bool → Execution Host → Type 0}
    {After : Flow → Execution Host → Type 0}
    (moves : Moves job entry order Before Pending Matched Tried After) where
  open job use {config}

  unless_noted-At :
      (check : Check Host) (x : Execution Host) (rest : Flow × Execution Host)
      → ((e : Err) (host : Host) → After (leave true) (observe_context_error job.ctx e host x))
      → At After rest
      → At After (unless_noted job check x rest)
  unless_noted-At none x rest h k = k
  unless_noted-At (some (e, host)) x rest h k = h e host

  after_attempt-At :
      (failed : Bool) (x : Execution Host)
      → Tried failed x
      → At After (after_attempt job entry order failed x)
  unfolding after_attempt
  after_attempt-At failed x h =
      elim (Bool-cases (failed && (config.policy.action_errors == stop_on_error))) [
        | inl e ↦ rw e (moves.action_stops failed x h e)
        | inr e ↦ rw e (elim (Bool-cases (config.policy.stop == stop_on_first_match)) [
          | inl m ↦ rw m (moves.match_stops failed x h m)
          | inr m ↦
              rw m (elim (Bool-cases (not failed && (config.policy.stop == stop_on_first_fire))) [
                | inl f ↦ rw f (moves.fire_stops failed x h m f)
                | inr f ↦ rw f (moves.advances failed x h m f)
              ])
        ])
      ]

  tried-At :
      (check : Check Host) (failed : Bool) (x : Execution Host)
      → Tried failed x
      → At After (unless_noted job check x (after_attempt job entry order failed x))
  tried-At check failed x h =
      unless_noted-At check x _ (λ e host. moves.tried_observed failed e host x h)
        (after_attempt-At failed x h)

  attempt-At :
      (id : RuleId) (answer : Caught (Option Err)) (check : Check Host) (x : Execution Host)
      → Matched x
      → At After (attempt job entry order id answer check x)
  unfolding attempt
  attempt-At id (recovered panic) check x h = moves.action_panics panic check x h
  attempt-At id (ran (some err)) check x h =
      tried-At check true (fail_action job order err x) (moves.action_fails err x h)
  attempt-At id (ran none) check x h =
      tried-At check false (fire job entry order id x) (moves.fires id x h)

  match_rule-At :
      (id : RuleId) (settled : Check Host) (action : Caught (Option Err)) (finished : Check Host)
      (x : Execution Host)
      → Matched x
      → At After (match_rule job entry order id settled action finished x)
  unfolding match_rule
  match_rule-At id none action finished x h = attempt-At id action finished x h
  match_rule-At id (some (e, host)) action finished x h = moves.skips e host x h

  settle-At :
      (id : RuleId) (settled : Check Host) (action : Caught (Option Err)) (finished : Check Host)
      (answer : Caught (Bool × Option Err)) (x : Execution Host)
      → Pending x
      → At After (settle job entry order id settled action finished answer x)
  unfolding settle
  settle-At id settled action finished (recovered panic) x h =
      moves.condition_panics panic settled x h
  settle-At id settled action finished (ran (matched, some err)) x h =
      let failed = moves.condition_fails err x h in
      unless_noted-At settled (fail_condition job order err x) _
        (λ e host. moves.observed e host (fail_condition job order err x) failed)
        (elim (Bool-cases (config.policy.condition_errors == stop_on_error)) [
          | inl e ↦ rw e (moves.condition_stops (fail_condition job order err x) failed e)
          | inr e ↦ rw e failed
        ])
  settle-At id settled action finished (ran (false, none)) x h =
      let missed = moves.misses x h in
      unless_noted-At settled _ _ (λ e host. moves.observed e host _ missed) missed
  settle-At id settled action finished (ran (true, none)) x h =
      match_rule-At id settled action finished _ (moves.matches id x h)

  pub visit-At :
      (id : RuleId) (a : Answers Host) (x : Execution Host)
      → Before x
      → At After (visit job entry order id a x)
  unfolding visit
  visit-At id a x h = settle-At id a.settled a.action a.finished a.condition _ (moves.marks x h)
