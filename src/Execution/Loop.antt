-- ===== src/Execution/Loop.antt =====
-- `execute`: the entries in turn, and the frame around them.
use rulite.Base.{
  ℕ, ◌-◌, List, [], ◌∷◌, Bool, true, false, not, ◌&&◌, Option, none, some, if◌then◌else◌, length,
  replicate, is_some,
}
use rulite.Errors.{ExecutionError}
use rulite.World.{Call, returned, panicked, Context, Eff}
use rulite.Condition.{with_recorder}
use rulite.Ledger.{
  GroupMetadata, CompiledEntry, SnapshotInfo, zero_counts, stop_completed, interrupted,
  end_resolved, end_exhausted, end_execution_stopped, GroupRecord, zero_group_record,
  execution_started, execution_finished, group_finished, Result, zero_result,
}
use rulite.Execution.State.{
  Execution, Run, ◌>>=◌, ◌>>◌, pure, modify, lift, on_result, on_counts, set_stop, group_record,
  on_group, context_done,
}
use rulite.Execution.Observe.{observe_group, observe_summary}
use rulite.Execution.Calls.{set_duration}
use rulite.Execution.Outcome.{Job, change, read_clock, is_resolved, is_entered}
use rulite.Execution.Visit.{visit_rules}

abbrev pub enter_group : CompiledEntry → GroupMetadata → Result → Result
enter_group entry group =
    on_group group.index
      (λ _. record zero_group_record { state = interrupted; skipped_from = entry.stop })

abbrev pub end_group : Bool → Result → GroupRecord → GroupRecord
end_group stopped r g =
    if stopped
    then record g { end_reason = end_execution_stopped; stop = r.stop }
    else if is_resolved g.state
    then record g { end_reason = end_resolved }
    else record g { end_reason = end_exhausted }

abbrev pub end_here : {Host : Type 0} → GroupMetadata → Bool → Execution Host → Execution Host
end_here group stopped x = on_result (λ r. on_group group.index (end_group stopped r) r) x

abbrev pub count_not_evaluated : Result → Result
count_not_evaluated = on_counts (λ c. record c { not_evaluated = c.total - c.evaluated })

module _ {Host : Type 0} (job : Job Host) where
  open job use {now, ctx, input, snapshot, config}

  -- A nested Fire must not write into the enclosing condition's recording.
  abbrev pub condition_context : Context Host
  condition_context =
      if not config.trace && is_some ctx.recorder then with_recorder none ctx else ctx

  -- A group is entered behind a check of the context; then `loop` runs.
  abbrev pub enter_then : Option GroupMetadata → CompiledEntry → Run Host Bool → Run Host Bool
  enter_then none entry loop = loop
  enter_then (some group) entry loop = do
    done ← context_done ctx
    (if done then pure true else (change (enter_group entry group) >> loop))

  unfoldable pub execute_rules : CompiledEntry → Run Host Bool
  unfolding visit_rules context_done
  execute_rules entry =
      enter_then entry.group entry
        (visit_rules job condition_context entry (entry.stop - entry.start) entry.start)

  -- `execution.finishGroup`
  unfoldable pub finish_group : GroupMetadata → Bool → Run Host (Unit {0})
  unfolding observe_group
  finish_group group stopped x w =
      if is_entered (group_record x.result.groups group.index).state
      then (modify (end_here group stopped) >> observe_group ctx group_finished group) x w
      else returned (tt, x) w

  abbrev pub finish_entry : Option GroupMetadata → Bool → Run Host (Unit {0})
  finish_entry none stopped = pure tt
  finish_entry (some group) stopped = finish_group group stopped

  -- The loop over the entries of a set with groups: whether it stopped.
  unfoldable pub visit_entries : List CompiledEntry → Run Host Bool
  unfolding execute_rules finish_group
  visit_entries [] = pure false
  visit_entries (entry ∷ entries) = execute_rules entry >>= λ stopped.
      finish_entry entry.group stopped >>= λ _. elim stopped [
        | true ↦ pure true
        | false ↦ visit_entries entries
      ]

  abbrev pub whole_range : CompiledEntry
  whole_range = record { start = 0; stop = length snapshot.callbacks; group = none }

  abbrev pub groups_ready : Execution Host → Execution Host
  groups_ready =
      on_result
        (λ r. record r { groups = replicate (length snapshot.metadata.groups) zero_group_record })

  abbrev pub run_listed : List CompiledEntry → Run Host Bool
  run_listed [] = execute_rules whole_range
  run_listed (entry ∷ entries) = modify groups_ready >> visit_entries (entry ∷ entries)

  unfoldable pub run_entries : Run Host Bool
  unfolding execute_rules visit_entries
  run_entries = run_listed snapshot.metadata.entries

  -- From the first event to the last stop reason.
  abbrev pub complete_unless : Bool → Run Host (Unit {0})
  complete_unless true = pure tt
  complete_unless false = change (set_stop stop_completed)

  abbrev pub run_unless : Bool → Run Host Bool
  run_unless true = pure true
  run_unless false = run_entries

  unfoldable pub run_all : Run Host (Unit {0})
  unfolding run_entries context_done observe_summary
  run_all = do
    observe_summary ctx execution_started
    done ← context_done ctx
    stopped ← run_unless done
    complete_unless stopped

  abbrev pub execution_error : Execution Host → Option ExecutionError
  execution_error x = elim x.causes [
    | [] ↦ none
    | c ∷ cs ↦ some (record { causes = c ∷ cs; failures = x.result.failures })
  ]

  abbrev pub stop_clock : Bool → ℕ → Run Host (Unit {0})
  stop_clock false start = pure tt
  stop_clock true start = do stop ← lift (read_clock job); change (set_duration (stop - start))

  -- `execution.finish` up to its return.
  unfoldable pub finish : ℕ → Run Host (Unit {0})
  unfolding observe_summary
  finish start = do
    change count_not_evaluated
    observe_summary ctx execution_finished
    stop_clock config.trace start

  abbrev pub begin : SnapshotInfo → Execution Host
  begin identity = record {
    result = record zero_result {
      metadata = some snapshot.metadata;
      identity = identity;
      counts = record zero_counts { total = length snapshot.metadata.rules };
      trace =
          if config.trace
          then some (record {
            duration = 0;
            rules =
                replicate (length snapshot.metadata.rules)
                  (record { condition = 0; action = 0; tree = none });
          })
          else none;
    };
    causes = [];
    observer = config.observer;
    panic_mode = config.panic_mode;
  }

  abbrev pub start_clock : Bool → Eff Host ℕ
  start_clock false w = returned 0 w
  start_clock true w = read_clock job w

  abbrev pub outcome_of :
      Call Host (Unit {0} × Execution Host) → Call Host (Result × Option ExecutionError)
  outcome_of (returned (_, x) w) = returned (x.result, execution_error x) w
  outcome_of (panicked p w) = panicked p w

  abbrev pub execute_from : SnapshotInfo → Call Host ℕ → Call Host (Result × Option ExecutionError)
  execute_from identity (panicked p w) = panicked p w
  execute_from identity (returned start w) =
      outcome_of ((run_all >> finish start) (begin identity) w)

  unfoldable pub execute : SnapshotInfo → Eff Host (Result × Option ExecutionError)
  unfolding run_all finish
  execute identity w = execute_from identity (start_clock config.trace w)
