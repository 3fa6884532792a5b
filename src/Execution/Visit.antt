-- ===== src/Execution/Visit.antt =====
-- The callback state machine, `executeRules`: the loop over the rules of one entry.
use rulite.Base.{
  ℕ, zero, suc, ◌-◌, List, Bool, true, false, not, ◌||◌, Option, none, some, if◌then◌else◌,
  get_elem?, set, ◌==◌, is_some,
}
use rulite.Errors.{RuleId, index_out_of_range, Err}
use rulite.World.{returned, panicked, Context, Eff, allocate, update_at}
use rulite.Condition.{fresh_root, finished_recording, with_recorder}
use rulite.Ledger.{GroupMetadata, CompiledEntry, RuleCallbacks, exhausted, GroupRecord, Result}
use rulite.Execution.State.{
  Run, ◌>>=◌, ◌>>◌, pure, lift, on_result, mark_evaluated, group_record, context_done,
}
use rulite.Execution.Calls.{Caught, ran, recovered, call_condition, frozen_tree, on_timing}
use rulite.Execution.Outcome.{
  Flow, next, leave, Job, change, unless_done, read_clock, panic_stop, condition_failed,
  condition_missed, condition_matched, after_condition,
}

abbrev pub exhausted_groups : Option GroupMetadata → List GroupRecord → List GroupRecord
exhausted_groups none groups = groups
exhausted_groups (some group) groups =
    set groups group.index (record (group_record groups group.index) { state = exhausted })

abbrev pub exhaust : CompiledEntry → Result → Result
exhaust entry r = record r { groups = exhausted_groups entry.group r.groups }

module _ {Host : Type 0} (job : Job Host) where
  open job use {now, ctx, input, snapshot, config}

  -- What tracing writes behind a condition: its time, and the tree that its recorder grew.
  abbrev pub finish_node : ℕ → Caught (Bool × Option Err) → Eff Host (Unit {0})
  finish_node place (recovered panic) w = returned tt w
  finish_node place (ran (matched, err)) w = update_at place (finished_recording matched err) w

  abbrev pub panic_of : Caught (Bool × Option Err) → Option Err
  panic_of (recovered panic) = some panic
  panic_of (ran _) = none

  abbrev pub note_tree : ℕ → ℕ → ℕ → Caught (Bool × Option Err) → Run Host (Unit {0})
  note_tree order place elapsed outcome x w =
      returned
        (
          tt,
          on_result
              (on_timing order (λ t. record t {
                condition = elapsed;
                tree = frozen_tree w.recordings (panic_of outcome) place;
              }))
              x,
        )
        w

  abbrev pub close_node :
      ℕ → ℕ → ℕ → Caught (Bool × Option Err) → Run Host (Caught (Bool × Option Err))
  close_node order place start outcome = do
    stop ← lift (read_clock job)
    lift (finish_node place outcome)
    note_tree order place (stop - start) outcome
    pure outcome

  abbrev pub call_traced :
      ℕ → ℕ → RuleId → RuleCallbacks Host → ℕ → Run Host (Caught (Bool × Option Err))
  call_traced place order id callbacks start = do
    change (mark_evaluated order)
    outcome ← lift (
        call_condition (with_recorder (some place) ctx) input callbacks.condition id
          config.panic_mode)
    close_node order place start outcome

  -- The call of the condition, with its recorder, its time and its tree if the execution is traced.
  unfoldable pub evaluate_condition :
      Bool → Context Host → ℕ → RuleId → RuleCallbacks Host → Run Host (Caught (Bool × Option Err))
  unfolding call_condition frozen_tree finished_recording
  evaluate_condition false condition_ctx order id callbacks = do
    change (mark_evaluated order)
    lift (call_condition condition_ctx input callbacks.condition id config.panic_mode)
  evaluate_condition true condition_ctx order id callbacks = do
    place ← lift (allocate fresh_root)
    start ← lift (read_clock job)
    call_traced place order id callbacks start

  -- The loop body behind its context check; an index out of range is a panic.
  unfoldable pub visit_rule : Context Host → CompiledEntry → ℕ → Run Host Flow
  unfolding evaluate_condition condition_failed condition_missed condition_matched panic_stop
  visit_rule condition_ctx entry order x w = elim (get_elem? snapshot.callbacks order) [
    | none ↦ panicked index_out_of_range w
    | some callbacks ↦ elim (get_elem? snapshot.metadata.rules order) [
      | none ↦ panicked index_out_of_range w
      | some info ↦
          (evaluate_condition config.trace condition_ctx order info.id callbacks
              >>= after_condition job entry order info.id callbacks)
            x w
    ]
  ]

  -- The context check at the head of the loop body.
  abbrev pub checks_here : CompiledEntry → ℕ → Bool
  checks_here entry order = not (is_some entry.group) || not (order == entry.start)

  unfoldable pub loop_body : Context Host → CompiledEntry → ℕ → Run Host Flow
  unfolding visit_rule context_done
  loop_body condition_ctx entry order =
      if checks_here entry order
      then unless_done ctx (visit_rule condition_ctx entry order)
      else visit_rule condition_ctx entry order

  -- `for order := entry.start; order < entry.end; order++`, with the number of rules left.
  unfoldable pub visit_rules : Context Host → CompiledEntry → ℕ → ℕ → Run Host Bool
  unfolding loop_body
  visit_rules condition_ctx entry zero order = change (exhaust entry) >> pure false
  visit_rules condition_ctx entry (suc left) order = loop_body condition_ctx entry order >>= λ flow.
      elim flow [
        | leave stopped ↦ pure stopped
        | next ↦ visit_rules condition_ctx entry left (suc order)
      ]
