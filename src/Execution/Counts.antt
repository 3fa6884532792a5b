-- ===== src/Execution/Counts.antt =====
-- The counts of a completed ledger (`Counts` of result.go).
use rulite.Base.{ℕ, suc, ◌+◌, ◌≤◌, ◌≡◌, Bool, length, length-snoc, arith, subst, sym}
use rulite.Errors.{Err, Phase, condition_phase, action_phase}
use rulite.World.{World}
use rulite.Ledger.{Result, SnapshotMetadata, SnapshotInfo}
use rulite.Execution.State.{Execution, fail}
use rulite.Execution.Outcome.{Job}
use rulite.Execution.Loop.{begin, execute, count_not_evaluated}
use rulite.Execution.Automaton.{ledger}
use rulite.Execution.Whole.{IsLaidOut, Finishes, execute-Finishes}
use rulite.Execution.Induction.{Executes-Kept}
use rulite.Execution.Steps.{Steps, Steps-Kept}

-- `open` counts the rules that are evaluated and not settled yet.
abbrev IsBalancedBy : ℕ → ℕ → ℕ → Result → Type 0
IsBalancedBy total open_rules n r =
    let c = r.counts in
    (c.evaluated ≡ c.matched + c.unmatched + c.condition_failed + open_rules)
    × (c.matched ≡ c.fired + c.skipped + c.action_failed)
    × (c.failed ≡ c.condition_failed + c.action_failed)
    × (c.panic_recovered ≤ c.failed)
    × (c.evaluated ≤ n + open_rules)
    × (r.evaluated_through ≤ n + open_rules)
    × (length r.failures ≡ c.failed)
    × (length r.records ≡ c.fired + c.skipped + c.failed)
    × (c.total ≡ total)

module _ (total : ℕ) {Host : Type 0} (metadata : SnapshotMetadata) where
  fail-IsBalanced :
      (order : ℕ) (phase : Phase) (err : Err) (continued recovered : Bool) (x : Execution Host)
      → IsBalancedBy total 1 order x.result
      → IsBalancedBy total 0 (suc order) (fail order phase err continued recovered x).result
  fail-IsBalanced order condition_phase err continued recovered x h = grind (arith, length-snoc)
  fail-IsBalanced order action_phase err continued recovered x h = grind (arith, length-snoc)

  balanced_steps : Steps Host metadata (IsBalancedBy total 0) (IsBalancedBy total 1)
  balanced_steps = record {
    weaken = λ m n r le h. omega arith;
    free = λ n r stop groups same h. h;
    ready = λ r h. h;
    free_pending = λ n r stop groups same h. h;
    marks = λ order info r has h. omega arith;
    fails = fail-IsBalanced;
    misses = λ order r h. omega arith;
    skips = λ order r h. grind (arith, length-snoc);
    fires = λ order r h. grind (arith, length-snoc);
  }

-- The counts of a finished execution of `total` rules.
pub record IsPartition (total : ℕ) (r : Result) : Type 0 where
  pub all : r.counts.total ≡ total
  pub evaluation : r.counts.total ≡ r.counts.evaluated + r.counts.not_evaluated
  pub conditions :
      r.counts.evaluated ≡ r.counts.matched + r.counts.unmatched + r.counts.condition_failed
  pub actions : r.counts.matched ≡ r.counts.fired + r.counts.skipped + r.counts.action_failed
  pub failures : r.counts.failed ≡ r.counts.condition_failed + r.counts.action_failed
  pub panics : r.counts.panic_recovered ≤ r.counts.failed
  pub listed : length r.failures ≡ r.counts.failed
  pub recorded : length r.records ≡ r.counts.fired + r.counts.skipped + r.counts.failed
  pub frontier : r.evaluated_through ≤ total

-- The last count makes a balanced ledger a partition.
partition :
    (total n : ℕ) (r : Result)
    → total ≡ n
    → IsBalancedBy total 0 n r
    → IsPartition total (count_not_evaluated r)
partition total n r same h = omega arith

IsPartition-ledger :
    {Host : Type 0} (total : ℕ) (z : Execution Host)
    → IsPartition total (ledger z).result
    → IsPartition total z.result
IsPartition-ledger total z h = omega arith

module _ {Host : Type 0} (job : Job Host) where
  open job use {snapshot}

  -- Every execution of a set whose places fit together returns a ledger whose counts partition its
  -- rules: total = evaluated + not evaluated, evaluated = matched + unmatched + failed conditions,
  -- matched = fired + skipped + failed actions; a failure is listed for each failed rule and a
  -- record for each fired, skipped or failed one. Only PropagatePanics lets a panic out instead.
  pub execute-IsPartition :
      (identity : SnapshotInfo) (w : World Host)
      → IsLaidOut job
      → Finishes job
          (λ r error. IsPartition (length snapshot.metadata.rules) r)
          (execute job identity w)
  execute-IsPartition identity w laid_out =
      execute-Finishes job (λ r error. IsPartition (length snapshot.metadata.rules) r) laid_out
        identity w
        (λ z executes.
          let (r, balanced, same) =
            Executes-Kept job
              (Steps-Kept job (balanced_steps (length snapshot.metadata.rules) snapshot.metadata))
              (ledger (begin job identity)) (ledger z) laid_out executes (omega arith) in
          IsPartition-ledger _ z (
            subst (IsPartition (length snapshot.metadata.rules)) (sym same)
              (partition _ _ r laid_out.aligned balanced)))
