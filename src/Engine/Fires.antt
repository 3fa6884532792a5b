-- ===== src/Engine/Fires.antt =====
-- `Engine.Fire` on every engine that the library builds (engine.go).
use rulite.Base.{ℕ, List, ◌≡◌, refl, ap, true, Option, none, some, length, is_some, ◌==◌}
use rulite.Errors.{ExecutionError, nil_context, nil_input}
use rulite.World.{World, Call, returned, panicked, Context, Pointer}
use rulite.Ledger.{Result, zero_result, CompiledSnapshot, SnapshotInfo}
use rulite.Policy.{
  FireOption, ExecutionConfig, Configured, configured, rejected, configure_execution,
  propagate_panics,
}
use rulite.Compile.Layout.{DefinitionList, compile_definitions, compiled}
use rulite.Compile.Places.{compile_definitions-IsLaidOut}
use rulite.Execution.Outcome.{Job}
use rulite.Execution.Loop.{execute}
use rulite.Execution.Whole.{Finishes}
use rulite.Execution.Counts.{IsPartition, execute-IsPartition}
use rulite.Execution.Records.{IsRecorded, execute-IsRecorded}
use rulite.Execution.Reports.Whole.{Reports, execute-Reports}
use rulite.Execution.Picks.{picked, Picks}
use rulite.Execution.Picks.Whole.{execute-Picks}
use rulite.Result.{executed}
use rulite.Result.Tallies.{IsListed, execute-IsListed}
use rulite.Engine.{
  Engine, FireError, preflight, execution, fire, fire_as, fire_engine, start, wrapped_call,
}

module _ {Host : Type 0} where
  -- What a completed execution of a set promises.
  pub record IsComplete (s : CompiledSnapshot Host) (r : Result) : Type 0 where
    pub ran : executed r ≡ true
    pub partition : IsPartition (length s.metadata.rules) r
    pub recorded : IsRecorded s.metadata (length s.metadata.rules) r
    pub listed : IsListed r

  abbrev pub Kept : CompiledSnapshot Host → ExecutionConfig Host → Result → Type 0
  Kept s config r = IsComplete s r × Picks r.stop (picked config.policy r.counts)

  -- What an execution under a configuration returns: a complete result, with no more rules matched or
  -- fired than its policy asks for, and with no error or one that tells its failures, and never an error of the preflight; a panic leaves it under
  -- PropagatePanics only.
  abbrev pub RunsWell :
      CompiledSnapshot Host → ExecutionConfig Host → Call Host (Result × Option FireError) → Type 0
  RunsWell s config (returned (r, none) w') = Kept s config r × Reports r none
  RunsWell s config (returned (r, some (execution e)) w') = Kept s config r × Reports r (some e)
  RunsWell s config (returned (r, some (preflight e)) w') = ⊥
  RunsWell s config (panicked p w') = (config.panic_mode == propagate_panics) ≡ true

  -- The call behind its checks, which refuse bad options: an execution of the engine's set, under the
  -- engine's identity, for the context, the input and the configuration given.
  abbrev pub StartsWell :
      (Host → ℕ × Host)
      → SnapshotInfo
      → CompiledSnapshot Host
      → Context Host
      → Pointer
      → Configured Host
      → World Host
      → Call Host (Result × Option FireError)
      → Type 0
  StartsWell now identity s ctx input (rejected e) w call =
      call ≡ returned (zero_result, some (preflight e)) w
  StartsWell now identity s ctx input (configured config) w call =
      (call
        ≡ wrapped_call (
            execute (record { now = now; ctx = ctx; input = input; snapshot = s; config = config })
              identity w))
      × RunsWell s config call

  -- What `Fire` does in the world `w` for a context, an input and the configuration of its options.
  abbrev pub FiresWell :
      (Host → ℕ × Host)
      → SnapshotInfo
      → CompiledSnapshot Host
      → Option (Context Host)
      → Option Pointer
      → Configured Host
      → World Host
      → Call Host (Result × Option FireError)
      → Type 0
  FiresWell now identity s none input c w call =
      call ≡ returned (zero_result, some (preflight nil_context)) w
  FiresWell now identity s (some ctx) none c w call =
      call ≡ returned (zero_result, some (preflight nil_input)) w
  FiresWell now identity s (some ctx) (some input) c w call =
      StartsWell now identity s ctx input c w call

  complete :
      (s : CompiledSnapshot Host) (r : Result)
      → IsPartition (length s.metadata.rules) r
      → IsRecorded s.metadata (length s.metadata.rules) r
      → IsListed r
      → IsComplete s r
  unfolding executed
  complete s r a b c = record { ran = ap is_some b.0; partition = a; recorded = b; listed = c }

  wrapped_call-RunsWell :
      (job : Job Host) (w : World Host) (c : Call Host (Result × Option ExecutionError))
      → Finishes job (λ r error. IsPartition (length job.snapshot.metadata.rules) r) c
      → Finishes job
          (λ r error. IsRecorded job.snapshot.metadata (length job.snapshot.metadata.rules) r)
          c
      → Finishes job (λ r error. IsListed r) c
      → Finishes job (λ r error. Picks r.stop (picked job.config.policy r.counts)) c
      → Finishes job Reports c
      → RunsWell job.snapshot job.config (wrapped_call c)
  wrapped_call-RunsWell job w (returned (r, none) w') a b c picks told =
      ((complete job.snapshot r a b c, picks), told)
  wrapped_call-RunsWell job w (returned (r, some e) w') a b c picks told =
      ((complete job.snapshot r a b c, picks), told)
  wrapped_call-RunsWell job w (panicked p w') a b c picks told = a

  module _ (now : Host → ℕ × Host) (d : DefinitionList Host) (s : CompiledSnapshot Host)
      (made : compile_definitions d ≡ compiled s) where
    start-StartsWell :
        (ctx : Context Host) (input : Pointer) (identity : SnapshotInfo) (c : Configured Host)
        (w : World Host)
        → StartsWell now identity s ctx input c w (start now ctx input s identity c w)
    unfolding start
    start-StartsWell ctx input identity (rejected e) w = refl
    start-StartsWell ctx input identity (configured config) w =
        let job : Job Host = record {
          now = now;
          ctx = ctx;
          input = input;
          snapshot = s;
          config = config;
        } in
        let laid_out = compile_definitions-IsLaidOut job d made in
        (
          refl,
          wrapped_call-RunsWell job w (execute job identity w)
              (execute-IsPartition job identity w laid_out)
              (execute-IsRecorded job identity w laid_out)
              (execute-IsListed job identity w laid_out) (execute-Picks job identity w laid_out)
              (execute-Reports job identity w laid_out),
        )

    -- Fire on an engine over a compiled set. Without a context it is refused for that, and with one
    -- but without an input for that; then, if an option is bad, with the error of the options. Each
    -- refusal has the zero result and leaves the world untouched. Every other call is the execution of
    -- the engine's set under its identity, with the configuration of its defaults and the options: its
    -- counts partition the rules, its records are in order, its lists agree with the counts, its policy
    -- bounds how many rules are matched or fired, and its error tells its failures; only under
    -- PropagatePanics may a panic leave it.
    pub fire-FiresWell :
        (e : Engine Host) (ctx : Option (Context Host)) (input : Option Pointer)
        (options : List (FireOption Host)) (w : World Host)
        → e.snapshot ≡ some s
        → FiresWell now e.identity s ctx input
            (configure_execution e.defaults options)
            w
            (fire now (some e) ctx input options w)
    unfolding fire fire_as fire_engine
    fire-FiresWell e none input options w has = refl
    fire-FiresWell e (some ctx) none options w has = refl
    fire-FiresWell e (some ctx) (some input) options w has =
        rw (has, fire)
          (start-StartsWell ctx input e.identity (configure_execution e.defaults options) w)
