-- ===== src/Execution/Whole.antt =====
-- `execute` (execution_internal.go) beside its specification.
use rulite.Base.{
  ℕ, List, [], ◌∷◌, ◌≡◌, refl, sym, subst, Bool, true, false, Option, ◌-◌, ◌==◌, All, arith,
}
use rulite.Errors.{ExecutionError}
use rulite.World.{Call, returned, panicked, World}
use rulite.Policy.{propagate_panics}
use rulite.Ledger.{
  CompiledEntry, SnapshotInfo, Result, execution_started, execution_finished, stop_completed,
}
use rulite.Execution.State.{
  Execution, ◌>>=◌, ◌>>◌, on_result, set_stop, context_done, observe_context_error,
}
use rulite.Execution.Outcome.{Job, read_clock, change}
use rulite.Execution.Loop.{
  execute_rules, visit_entries, whole_range, groups_ready, run_listed, run_entries, run_all,
  run_unless, complete_unless, stop_clock, finish, begin, execution_error, start_clock, outcome_of,
  execute_from, execute,
}
use rulite.Execution.After.{After, After-bind, After-map, After-pure, heard}
use rulite.Execution.After.Events.{After-check, After-summary}
use rulite.Execution.After.Calls.{After-lift}
use rulite.Execution.Calls.{set_duration}
use rulite.Execution.Automaton.{ledger}
use rulite.Execution.Runs.{
  Covers, covers_range, covers_entries, count_rest, Executes, never_started, stops, completes,
}
use rulite.Execution.Loops.{
  IsAligned, IsInRange, IsChained, IsChained-IsInRange, execute_rules-After, visit_entries-After,
}

module _ {Host : Type 0} (job : Job Host) where
  open job use {ctx, snapshot, config}

  -- A compiled set whose places fit together.
  pub record IsLaidOut : Type 0 where
    pub aligned : IsAligned job
    pub chained : IsChained job 0 snapshot.metadata.entries

  module _ (laid_out : IsLaidOut) where
    CoversTo : Execution Host → Bool → Execution Host → Type 0
    CoversTo x stopped z =
        Covers job (ledger x) stopped (ledger z) × (z.panic_mode ≡ config.panic_mode)

    run_listed-After :
        (entries : List CompiledEntry) (x : Execution Host) (w : World Host)
        → snapshot.metadata.entries ≡ entries
        → All (IsInRange job) entries
        → x.panic_mode ≡ config.panic_mode
        → After config.panic_mode (CoversTo x) (run_listed job entries x w)
    unfolding CoversTo
    run_listed-After [] x w e inside mode =
        After-map (execute_rules job (whole_range job) x w)
          (λ stopped z h. (covers_range e h.0, h.1))
          (execute_rules-After job laid_out.aligned (whole_range job) x w (omega arith, omega arith)
            mode)
    run_listed-After (entry ∷ entries) x w e inside mode =
        After-map (visit_entries job (entry ∷ entries) (groups_ready job x) w)
          (λ stopped z h. (covers_entries entry entries e h.0, h.1))
          (visit_entries-After job laid_out.aligned (entry ∷ entries) (groups_ready job x) w inside
            mode)

    -- The ledger when `finish` begins.
    ReadyTo : Execution Host → Unit {0} → Execution Host → Type 0
    ReadyTo x _ z =
        Executes job (ledger x) (count_rest job (ledger z)) × (z.panic_mode ≡ config.panic_mode)

    completed :
        (x : Execution Host) (stopped : Bool) (y : Execution Host) (w : World Host)
        → CoversTo x stopped y
        → After config.panic_mode (ReadyTo x) (complete_unless job stopped y w)
    unfolding CoversTo ReadyTo
    completed x true y w h = After-pure tt y w (stops (ledger y) h.0 refl, h.1)
    completed x false y w h =
        After-pure tt (on_result (set_stop stop_completed) y) w (completes (ledger y) h.0 refl, h.1)

    run_all-After :
        (x : Execution Host) (w : World Host)
        → x.panic_mode ≡ config.panic_mode
        → After config.panic_mode (ReadyTo x) (run_all job x w)
    unfolding run_all run_entries CoversTo ReadyTo
    run_all-After x w mode =
        After-summary ctx config.panic_mode execution_started x w
          (context_done ctx >>= λ done.
            run_unless job done >>= λ stopped. complete_unless job stopped)
          mode
          (λ o d w₁.
            After-check ctx config.panic_mode (heard x o d) w₁
              (λ done. run_unless job done >>= λ stopped. complete_unless job stopped)
              (λ w₂. After-bind (run_entries job) (complete_unless job) (heard x o d) w₂ (
                After-map (run_listed job snapshot.metadata.entries (heard x o d) w₂)
                  (λ stopped y h w₃. completed x stopped y w₃ h)
                  (run_listed-After snapshot.metadata.entries (heard x o d) w₂ refl
                    (IsChained-IsInRange job 0 snapshot.metadata.entries laid_out.chained) mode)))
              (λ e host w₂.
                After-pure tt (observe_context_error ctx e host (heard x o d)) w₂
                  (never_started e host refl, mode)))

    -- `finish` sets the last count and changes nothing else of the ledger.
    finish-After :
        (start : ℕ) (x : Execution Host) (w : World Host)
        → x.panic_mode ≡ config.panic_mode
        → After config.panic_mode
            (λ _ z. ledger z ≡ count_rest job (ledger x))
            (finish job start x w)
    unfolding finish
    finish-After start x w mode =
        After-summary ctx config.panic_mode execution_finished (count_rest job x) w
          (stop_clock job config.trace start) mode
          (λ o d w₁. go config.trace (heard (count_rest job x) o d) w₁ refl)
      where
        go :
            (traced : Bool) (y : Execution Host) (w₁ : World Host)
            → ledger y ≡ count_rest job (ledger x)
            → After config.panic_mode
                (λ _ z. ledger z ≡ count_rest job (ledger x))
                (stop_clock job traced start y w₁)
        go false y w₁ same = After-pure tt y w₁ same
        go true y w₁ same =
            After-lift config.panic_mode (read_clock job) y w₁
              (λ stop. change (set_duration (stop - start))) tt (λ stop w₂. After-pure tt _ w₂ same)

  -- How `execute` ends: with a ledger that the specification allows and the error that belongs to
  -- it, or with a panic that was to be propagated.
  abbrev pub EndsWell : SnapshotInfo → Call Host (Result × Option ExecutionError) → Type 0
  EndsWell identity (panicked p w) = (config.panic_mode == propagate_panics) ≡ true
  EndsWell identity (returned (result, error) w) =
      (z : Execution Host) × Executes job (ledger (begin job identity)) (ledger z)
      × (z.result ≡ result)
      × (execution_error job z ≡ error)

  module _ (laid_out : IsLaidOut) (identity : SnapshotInfo) where
    whole-After :
        (start : ℕ) (w : World Host)
        → After config.panic_mode
            (λ _ z. Executes job (ledger (begin job identity)) (ledger z))
            ((run_all job >> finish job start) (begin job identity) w)
    unfolding ReadyTo
    whole-After start w =
        After-bind (run_all job) (λ _. finish job start) (begin job identity) w
          (After-map (run_all job (begin job identity) w)
            (λ _ y h w'.
              After-map (finish job start y w')
                (λ _ z same. subst (Executes job (ledger (begin job identity))) (sym same) h.0)
                (finish-After laid_out start y w' h.1))
            (run_all-After laid_out (begin job identity) w refl))

    outcome_of-EndsWell :
        (c : Call Host (Unit {0} × Execution Host))
        → After config.panic_mode (λ _ z. Executes job (ledger (begin job identity)) (ledger z)) c
        → EndsWell identity (outcome_of job c)
    outcome_of-EndsWell (returned (_, z) w) h = (z, h.ends, refl, refl)
    outcome_of-EndsWell (panicked p w) h = h.ends

    -- On a set whose places fit together, execute returns a ledger that the automaton allows, with one
    -- visit for each rule reached, and the error that belongs to it, whatever callbacks, observers,
    -- traces, clocks and contexts do. Only PropagatePanics lets a panic out instead.
    pub execute-EndsWell : (w : World Host) → EndsWell identity (execute job identity w)
    unfolding execute
    execute-EndsWell w = go config.trace
      where
        go :
            (traced : Bool)
            → EndsWell identity (execute_from job identity (start_clock job traced w))
        go false = outcome_of-EndsWell _ (whole-After 0 w)
        go true = outcome_of-EndsWell _ (whole-After (job.now w.host).0 _)

  -- A call of `execute` that satisfies `P` if it returns; only `PropagatePanics` lets a panic out.
  abbrev pub Finishes :
      (Result → Option ExecutionError → Type 0)
      → Call Host (Result × Option ExecutionError)
      → Type 0
  Finishes P (returned (result, error) w) = P result error
  Finishes P (panicked p w) = (config.panic_mode == propagate_panics) ≡ true

  EndsWell-Finishes :
      (P : Result → Option ExecutionError → Type 0) (identity : SnapshotInfo)
      (c : Call Host (Result × Option ExecutionError))
      → ((z : Execution Host)
          → Executes job (ledger (begin job identity)) (ledger z)
          → P z.result (execution_error job z))
      → EndsWell identity c
      → Finishes P c
  EndsWell-Finishes P identity (returned (result, error) w) k (z, executes, same, fails) =
      subst (λ e. P result e) fails (subst (λ r. P r (execution_error job z)) same (k z executes))
  EndsWell-Finishes P identity (panicked p w) k h = h

  pub execute-Finishes :
      (P : Result → Option ExecutionError → Type 0) (laid_out : IsLaidOut) (identity : SnapshotInfo)
      (w : World Host)
      → ((z : Execution Host)
          → Executes job (ledger (begin job identity)) (ledger z)
          → P z.result (execution_error job z))
      → Finishes P (execute job identity w)
  execute-Finishes P laid_out identity w k =
      EndsWell-Finishes P identity (execute job identity w) k (execute-EndsWell laid_out identity w)
