-- ===== src/Execution/Stops/Whole.antt =====
-- The stop reason of whole executions.
use rulite.Base.{List, ◌≡◌, refl, true, false, Bool, inl, inr, ◌⊎◌}
use rulite.World.{World}
use rulite.Ledger.{GroupRecord, SnapshotInfo, StopReason, stop_completed}
use rulite.Execution.State.{Execution, on_result}
use rulite.Execution.Outcome.{Job}
use rulite.Execution.Automaton.{ledger}
use rulite.Execution.Loop.{begin, execute}
use rulite.Execution.Whole.{IsLaidOut, Finishes, execute-Finishes}
use rulite.Execution.Endings.{Endings, Executes-Endings}
use rulite.Execution.Stops.{IsStopFor, Ended, observed-Ended, visit-Ended}

module _ {Host : Type 0} (job : Job Host) where
  open job use {config}

  Ended-free :
      (stopped : Bool) (x : Execution Host) (groups : List GroupRecord)
      → Ended job stopped x
      → Ended job stopped (on_result (λ r. record r { groups = groups }) x)
  Ended-free true x groups h = h
  Ended-free false x groups h = h

  Ended-Endings : Endings job (Ended job)
  Ended-Endings = record {
    free = Ended-free;
    observed = observed-Ended job;
    visited = visit-Ended job;
  }

  -- The reason of a finished execution.
  abbrev pub IsReason : StopReason → Type 0
  IsReason s = (s ≡ stop_completed) ⊎ IsStopFor config.policy s

  -- Every execution of a set whose places fit together gives a reason: completion, or a stop that
  -- the policy asks for (first match, first fire, a condition error, an action error), or the context or
  -- a recovered panic. Only PropagatePanics lets a panic out instead.
  pub execute-IsReason :
      (identity : SnapshotInfo) (w : World Host)
      → IsLaidOut job
      → Finishes job (λ r error. IsReason r.stop) (execute job identity w)
  execute-IsReason identity w laid_out =
      execute-Finishes job (λ r error. IsReason r.stop) laid_out identity w
        (λ z executes.
          Executes-Endings job Ended-Endings (λ x. IsReason x.result.stop)
            (ledger (begin job identity)) (ledger z) executes (λ x h. inr h) (λ x h. inl refl) refl)
