-- ===== src/Execution/Records.antt =====
-- The sparse records of a ledger: their order, the frontier, and the failures that they point at
-- (result.go, `executionRecord`).
use rulite.Base.{
  ℕ, suc, ◌+◌, ◌≤◌, ◌<◌, List, [], ◌∷◌, ◌++◌, ◌≡◌, refl, sym, subst, some, length, get_elem?, arith,
  All, All-append, All-map, get_elem?-append_left, get_elem?-snoc, ap,
}
use rulite.Errors.{Failure}
use rulite.Ledger.{
  Result, RuleState, rule_not_evaluated, rule_unmatched, rule_fired, rule_failed, rule_skipped,
  ExecutionRecord, SnapshotMetadata, SnapshotInfo,
}
use rulite.Execution.State.{Execution, id_at}
use rulite.World.{World}
use rulite.Execution.Steps.{Steps, Steps-Kept}
use rulite.Execution.Outcome.{Job}
use rulite.Execution.Loop.{begin, execute, count_not_evaluated}
use rulite.Execution.Automaton.{ledger}
use rulite.Execution.Whole.{IsLaidOut, Finishes, execute-Finishes}
use rulite.Execution.Induction.{Executes-Kept}

-- Each order is at least `lo` and above the one before it.
abbrev pub Ascends : ℕ → List ExecutionRecord → Type 0
Ascends lo [] = Unit
Ascends lo (r ∷ rs) = (lo ≤ r.order) × Ascends (r.order + 1) rs

Ascends-snoc :
    (lo n : ℕ) (rs : List ExecutionRecord) (r : ExecutionRecord)
    → lo ≤ n
    → n ≤ r.order
    → All (λ q. q.order < n) rs
    → Ascends lo rs
    → Ascends lo (rs ++ r ∷ [])
Ascends-snoc lo n [] r a b below h = (omega arith, tt)
Ascends-snoc lo n (q ∷ rs) r a b below h =
    (h.0, Ascends-snoc (q.order + 1) n rs r (omega arith) b below.1 h.1)

-- What the state of a record says, under the failures and the metadata of its ledger.
abbrev pub Settled : SnapshotMetadata → List Failure → ℕ → ℕ → RuleState → Type 0
Settled metadata failures order index rule_fired = Unit
Settled metadata failures order index rule_skipped = Unit
Settled metadata failures order index rule_failed =
    (f : Failure) × (get_elem? failures index ≡ some f) × (f.rule_id ≡ id_at (some metadata) order)
Settled metadata failures order index rule_not_evaluated = ⊥
Settled metadata failures order index rule_unmatched = ⊥

abbrev pub IsSettled : SnapshotMetadata → List Failure → ExecutionRecord → Type 0
IsSettled metadata failures r = Settled metadata failures r.order r.failure_index r.state

Settled-append :
    (metadata : SnapshotMetadata) (failures more : List Failure) (order index : ℕ)
    (state : RuleState)
    → Settled metadata failures order index state
    → Settled metadata (failures ++ more) order index state
Settled-append metadata failures more order index rule_fired h = tt
Settled-append metadata failures more order index rule_skipped h = tt
Settled-append metadata failures more order index rule_failed (f, at, same) =
    (f, get_elem?-append_left failures more index f at, same)
Settled-append metadata failures more order index rule_not_evaluated h = h
Settled-append metadata failures more order index rule_unmatched h = h

module _ (metadata : SnapshotMetadata) where
  abbrev pub IsRecorded : ℕ → Result → Type 0
  IsRecorded n r =
      (r.metadata ≡ some metadata)
      × (r.evaluated_through ≤ n)
      × All (λ q. q.order < r.evaluated_through) r.records
      × Ascends 0 r.records
      × All (IsSettled metadata r.failures) r.records

  abbrev IsPending : ℕ → Result → Type 0
  IsPending order r =
      (r.metadata ≡ some metadata)
      × (r.evaluated_through ≡ suc order)
      × All (λ q. q.order < order) r.records
      × Ascends 0 r.records
      × All (IsSettled metadata r.failures) r.records

  -- A record of the pending rule, behind those of the rules before it.
  added :
      (order : ℕ) (r : Result) (failures : List Failure) (q : ExecutionRecord)
      → IsPending order r
      → q.order ≡ order
      → All (IsSettled metadata failures) r.records
      → IsSettled metadata failures q
      → IsRecorded (suc order) (record r { records = r.records ++ q ∷ []; failures = failures })
  added order r failures q h same old new = (
    h.0,
    omega arith,
    All-append _ r.records (q ∷ []) (All-map (λ p (k : p.order < order). omega arith) r.records h.2)
        (omega arith, tt),
    Ascends-snoc 0 order r.records q (omega arith) (omega arith) h.2 h.3,
    All-append _ r.records (q ∷ []) old (new, tt),
  )

  pub IsRecorded-steps : (Host : Type 0) → Steps Host metadata IsRecorded IsPending
  IsRecorded-steps Host = record {
    weaken = λ m n r le h. (h.0, omega arith, h.2, h.3, h.4);
    free = λ n r stop groups same h. h;
    ready = λ r h. h;
    free_pending = λ n r stop groups same h. h;
    marks = λ order info r has h. (
      h.0,
      omega arith,
      All-map (λ p (k : p.order < r.evaluated_through). omega arith) r.records h.2,
      h.3,
      h.4,
    );
    fails = λ order phase err continued recovered x h.
        added order x.result _ _ h refl
          (All-map
            (λ q k. Settled-append metadata x.result.failures _ q.order q.failure_index q.state k)
            x.result.records h.4)
          (_, get_elem?-snoc x.result.failures _, ap (λ m. id_at m order) h.0);
    misses = λ order r h. (
      h.0,
      omega arith,
      All-map (λ p (k : p.order < order). omega arith) r.records h.2,
      h.3,
      h.4,
    );
    skips = λ order r h. added order r r.failures _ h refl h.4 tt;
    fires = λ order r h. added order r r.failures _ h refl h.4 tt;
  }

IsRecorded-ledger :
    {Host : Type 0} (metadata : SnapshotMetadata) (n : ℕ) (z : Execution Host)
    → IsRecorded metadata n (ledger z).result
    → IsRecorded metadata n z.result
IsRecorded-ledger metadata n z h = h

module _ {Host : Type 0} (job : Job Host) where
  open job use {snapshot}

  -- In every execution of a set whose places fit together, the records ascend strictly in the order
  -- of the rules and lie below the frontier, the frontier lies within the rules, and each failed
  -- record points at a listed failure of its own rule. Only PropagatePanics lets a panic out instead.
  pub execute-IsRecorded :
      (identity : SnapshotInfo) (w : World Host)
      → IsLaidOut job
      → Finishes job
          (λ r error. IsRecorded snapshot.metadata (length snapshot.metadata.rules) r)
          (execute job identity w)
  execute-IsRecorded identity w laid_out =
      execute-Finishes job
        (λ r error. IsRecorded snapshot.metadata (length snapshot.metadata.rules) r) laid_out
        identity w
        (λ z executes.
          let (r, recorded, same) =
            Executes-Kept job (Steps-Kept job (IsRecorded-steps snapshot.metadata Host))
              (ledger (begin job identity)) (ledger z) laid_out executes
              (refl, omega arith, tt, tt, tt) in
          IsRecorded-ledger snapshot.metadata _ z (
            subst (IsRecorded snapshot.metadata (length snapshot.metadata.rules)) (sym same) (
              subst (λ n. IsRecorded snapshot.metadata n (count_not_evaluated r))
                (sym laid_out.aligned) recorded)))
