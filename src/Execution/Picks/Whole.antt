-- ===== src/Execution/Picks/Whole.antt =====
-- The selection policy over whole executions.
use rulite.Base.{List, true, false, Bool, arith}
use rulite.World.{World}
use rulite.Ledger.{GroupRecord, SnapshotInfo}
use rulite.Execution.State.{Execution, on_result}
use rulite.Execution.Outcome.{Job}
use rulite.Execution.Automaton.{ledger}
use rulite.Execution.Loop.{begin, execute}
use rulite.Execution.Whole.{IsLaidOut, Finishes, execute-Finishes}
use rulite.Execution.Endings.{Endings, Executes-Endings}
use rulite.Execution.Picks.{picked, Picks, Picked, observed-Picked, visit-Picked}

module _ {Host : Type 0} (job : Job Host) where
  open job use {config}

  Picked-free :
      (stopped : Bool) (x : Execution Host) (groups : List GroupRecord)
      → Picked job stopped x
      → Picked job stopped (on_result (λ r. record r { groups = groups }) x)
  Picked-free true x groups h = h
  Picked-free false x groups h = h

  Picked-Endings : Endings job (Picked job)
  Picked-Endings = record {
    free = Picked-free;
    observed = λ e host x h. observed-Picked job e host x (omega (arith, h));
    visited = visit-Picked job;
  }

  -- Under StopOnFirstMatch at most one rule is matched, and under StopOnFirstFire at most one fires, in
  -- every execution of a set whose places fit together: exactly one where the stop reason says so,
  -- none where the execution is completed or stopped by a condition's error. Only PropagatePanics
  -- lets a panic out instead.
  pub execute-Picks :
      (identity : SnapshotInfo) (w : World Host)
      → IsLaidOut job
      → Finishes job
          (λ r error. Picks r.stop (picked config.policy r.counts))
          (execute job identity w)
  execute-Picks identity w laid_out =
      execute-Finishes job (λ r error. Picks r.stop (picked config.policy r.counts)) laid_out
        identity w
        (λ z executes.
          Executes-Endings job Picked-Endings
            (λ x. Picks x.result.stop (picked config.policy x.result.counts))
            (ledger (begin job identity)) (ledger z) executes (λ x h. h) (λ x h. h) (ground arith))
