-- ===== src/Execution/Reports/Whole.antt =====
-- The error of whole executions.
use rulite.Base.{
  List, [], ◌∷◌, ◌≡◌, ◌≢◌, refl, sym, ◌∙◌, subst, append-nil, true, false, Bool, Option, none, some,
  map,
}
use rulite.World.{World}
use rulite.Errors.{Failure, Cause, rule_failure, ExecutionError}
use rulite.Ledger.{GroupRecord, Result, SnapshotInfo, stop_completed}
use rulite.Execution.State.{Execution, on_result, set_stop}
use rulite.Execution.Outcome.{Job}
use rulite.Execution.Automaton.{ledger}
use rulite.Execution.Loop.{begin, execute, execution_error}
use rulite.Execution.Whole.{IsLaidOut, Finishes, execute-Finishes}
use rulite.Execution.Endings.{Endings, Executes-Endings}
use rulite.Execution.Reports.{IsTail, Listed, Reported, observed-Reported, visit-Reported}

-- No error, where nothing failed and the context ended nothing; or one that lists the failures of
-- the result, and whose causes are these failures in order and what the context added.
abbrev pub Reports : Result → Option ExecutionError → Type 0
Reports r none = (r.failures ≡ []) × IsTail r.stop []
Reports r (some e) =
    (e.failures ≡ r.failures)
    × (e.causes ≢ [])
    × (tail : List Cause) × IsTail r.stop tail
    × Listed r.failures tail e.causes

Listed-empty :
    (failures : List Failure) (tail : List Cause)
    → Listed failures tail []
    → (failures ≡ []) × (tail ≡ [])
Listed-empty [] tail h = (refl, sym h)
Listed-empty (f ∷ fs) tail h = cc

Listed-Reports :
    (r : Result) (causes tail : List Cause)
    → IsTail r.stop tail
    → Listed r.failures tail causes
    → Reports r (elim causes [
      | [] ↦ none
      | c ∷ cs ↦ some (record { causes = c ∷ cs; failures = r.failures })
    ])
Listed-Reports r [] tail h listed =
    let (no_failures, no_tail) = Listed-empty r.failures tail listed in
    (no_failures, subst (IsTail r.stop) no_tail h)
Listed-Reports r (c ∷ cs) tail h listed = (refl, cc, tail, h, listed)

module _ {Host : Type 0} (job : Job Host) where
  Reported-free :
      (stopped : Bool) (x : Execution Host) (groups : List GroupRecord)
      → Reported job stopped x
      → Reported job stopped (on_result (λ r. record r { groups = groups }) x)
  Reported-free true x groups h = h
  Reported-free false x groups h = h

  Reported-Endings : Endings job (Reported job)
  Reported-Endings = record {
    free = Reported-free;
    observed = observed-Reported job;
    visited = visit-Reported job;
  }

  -- The error that an execution of a set whose places fit together returns with its result: none exactly
  -- where no rule failed and the context stopped nothing, and otherwise one with the result's
  -- failures, whose causes are these failures in order and then the context's error, with its cause if
  -- that is another one. The context adds them exactly where the stop reason is its own, or behind
  -- a panic. Only PropagatePanics lets a panic out instead.
  pub execute-Reports :
      (identity : SnapshotInfo) (w : World Host)
      → IsLaidOut job
      → Finishes job Reports (execute job identity w)
  execute-Reports identity w laid_out =
      execute-Finishes job Reports laid_out identity w (λ z executes.
        Executes-Endings job Reported-Endings (λ x. Reports x.result (execution_error job x))
          (ledger (begin job identity)) (ledger z) executes
          (λ y h. Listed-Reports y.result y.causes h.0 h.1 h.2)
          (λ y h.
            Listed-Reports (set_stop stop_completed y.result) y.causes [] refl
              (h.1 ∙ sym (append-nil (map rule_failure y.result.failures))))
          (refl, refl))
