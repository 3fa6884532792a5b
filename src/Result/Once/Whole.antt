-- ===== src/Result/Once/Whole.antt =====
-- The fired rules of a group over whole executions.
use rulite.Base.{
  ℕ, zero, suc, ◌≤◌, ◌<◌, List, [], ◌∷◌, ◌++◌, ◌≡◌, refl, sym, ap, ◌∙◌, subst, Bool, true, false,
  Option, none, some, some-injective, Bool-cases, inl, inr, All, All-append, All-map, arith, length,
  get_elem?, length-replicate,
}
use rulite.World.{World}
use rulite.Ledger.{
  CompiledEntry, GroupMetadata, ExecutionRecord, Result, SnapshotInfo, SnapshotMetadata,
}
use rulite.Execution.State.{Execution, group_record}
use rulite.Execution.Outcome.{Job, is_entered}
use rulite.Execution.Automaton.{ledger}
use rulite.Execution.Runs.{
  Visits, ends, cut, leaves, goes_on, entered, Performs, blocked, performs, closed, Passes,
  passes_stop, passes_on, Covers, covers_range, covers_entries, Executes, never_started, stops,
  completes,
}
use rulite.Execution.Loop.{begin, execute}
use rulite.Execution.Loops.{IsChained}
use rulite.Execution.Induction.{Kept, entered-Kept, performs-Kept, closed-Kept, passes-Kept}
use rulite.Execution.Steps.{Steps, Steps-Kept}
use rulite.Execution.Moves.{At}
use rulite.Execution.Whole.{IsLaidOut, Finishes, execute-Finishes}
use rulite.Result.Once.{fired_in, fired_in-snoc, fired_in-below, hit-above, Once, visit-Once}

module _ (size : ℕ) where
  -- The orders seen so far, and the number of groups.
  abbrev IsBelow : ℕ → Result → Type 0
  IsBelow n r = (length r.groups ≡ size) × All (λ q. q.order < n) r.records

  IsBelow-up : (n : ℕ) (r : Result) → IsBelow n r → IsBelow (suc n) r
  IsBelow-up n r h = (h.0, All-map (λ q (k : q.order < n). omega arith) r.records h.1)

  IsBelow-add :
      (n : ℕ) (r : Result) (q : ExecutionRecord)
      → IsBelow n r
      → q.order ≡ n
      → All (λ p. p.order < suc n) (r.records ++ q ∷ [])
  IsBelow-add n r q h same = All-append _ r.records (q ∷ []) (IsBelow-up n r h).1 (omega arith, tt)

  IsBelow-steps :
      (Host : Type 0) (metadata : SnapshotMetadata)
      → length metadata.groups ≡ size
      → Steps Host metadata IsBelow IsBelow
  IsBelow-steps Host metadata sized = record {
    weaken = λ m n r le h. (h.0, All-map (λ q (k : q.order < m). omega arith) r.records h.1);
    free = λ n r stop groups same h. (same ∙ h.0, h.1);
    ready = λ r h. (length-replicate (length metadata.groups) _ ∙ sized, h.1);
    free_pending = λ n r stop groups same h. (same ∙ h.0, h.1);
    marks = λ order info r has h. h;
    fails = λ order phase err continued recovered x h. (h.0, IsBelow-add order x.result _ h refl);
    misses = λ order r h. IsBelow-up order r h;
    skips = λ order r h. (h.0, IsBelow-add order r _ h refl);
    fires = λ order r h. (h.0, IsBelow-add order r _ h refl);
  }

-- Behind a range, its fired rules stay as they are.
abbrev IsBehind : ℕ → ℕ → ℕ → Result → Type 0
IsBehind lo hi n r = (hi ≤ n) × (fired_in lo hi r.records ≤ 1)

IsBehind-add :
    (lo hi n : ℕ) (r : Result) (q : ExecutionRecord)
    → IsBehind lo hi n r
    → q.order ≡ n
    → fired_in lo hi (r.records ++ q ∷ []) ≤ 1
IsBehind-add lo hi n r q h same =
    omega (arith, h.1, fired_in-snoc lo hi r.records q, hit-above lo hi q (omega (arith, h.0)))

IsBehind-steps :
    (lo hi : ℕ) (Host : Type 0) (metadata : SnapshotMetadata)
    → Steps Host metadata (IsBehind lo hi) (IsBehind lo hi)
IsBehind-steps lo hi Host metadata = record {
  weaken = λ m n r le h. (omega (arith, h.0), h.1);
  free = λ n r stop groups same h. h;
  ready = λ r h. h;
  free_pending = λ n r stop groups same h. h;
  marks = λ order info r has h. h;
  fails = λ order phase err continued recovered x h.
      (omega (arith, h.0), IsBehind-add lo hi order x.result _ h refl);
  misses = λ order r h. (omega (arith, h.0), h.1);
  skips = λ order r h. (omega (arith, h.0), IsBehind-add lo hi order r _ h refl);
  fires = λ order r h. (omega (arith, h.0), IsBehind-add lo hi order r _ h refl);
}

module _ {Host : Type 0} (job : Job Host) (entry : CompiledEntry) (group : GroupMetadata)
    (grouped : entry.group ≡ some group)
    (has : group.index < length job.snapshot.metadata.groups) where
  abbrev Below : ℕ → Result → Type 0
  Below n r = IsBelow (length job.snapshot.metadata.groups) n r

  below : Kept job Below
  below =
      Steps-Kept job
        (IsBelow-steps (length job.snapshot.metadata.groups) Host job.snapshot.metadata refl)

  behind : Kept job (IsBehind entry.start entry.stop)
  behind = Steps-Kept job (IsBehind-steps entry.start entry.stop Host job.snapshot.metadata)

  abbrev fired_here : Execution Host → ℕ
  fired_here x = fired_in entry.start entry.stop x.result.records

  Visits-once :
      (stopped : Bool) {z : Execution Host} (left order : ℕ) {x : Execution Host}
      → Visits job entry stopped z left order x
      → Below order x.result
      → fired_here x ≡ 0
      → fired_here z ≤ 1
  Visits-once stopped zero order (ends s e) b h = rw e (omega (arith, h))
  Visits-once stopped (suc left) order (cut err host s e) b h = rw e (omega (arith, h))
  Visits-once stopped (suc left) order {x} (leaves info a at e) b h =
      subst (At (Once job entry group grouped)) e
        (visit-Once job entry group grouped order info.id a x (omega (arith, has, b.0)) h)
  Visits-once stopped (suc left) order {x} (goes_on info a y at e more) b h =
      Visits-once stopped left (suc order) more
        (subst (λ p. Below (suc order) p.1.result) e (below.visited entry order info a x at b))
        (subst (At (Once job entry group grouped)) e
          (visit-Once job entry group grouped order info.id a x (omega (arith, has, b.0)) h))

  Performs-once :
      (stopped : Bool) {x z : Execution Host}
      → Performs job entry x stopped z
      → Below entry.start x.result
      → fired_here z ≤ 1
  Performs-once stopped {x} (blocked g e host at s same) b =
      rw same (omega (arith, fired_in-below entry.start entry.stop x.result.records b.1))
  Performs-once stopped {x} (performs v) b =
      let inside = entered-Kept job below entry entry.start x b in
      Visits-once stopped _ _ v inside
        (fired_in-below entry.start entry.stop (entered job entry x).result.records inside.1)

  closed-once :
      (g : Option GroupMetadata) (stopped : Bool) (x : Execution Host)
      → fired_here x ≤ 1
      → fired_here (closed job g stopped x) ≤ 1
  closed-once none stopped x h = h
  closed-once (some g) stopped x h =
      elim (Bool-cases (is_entered (group_record x.result.groups g.index).state)) [
        | inl e ↦ rw e h
        | inr e ↦ rw e h
      ]

  chain-le :
      (lo k : ℕ) (entries : List CompiledEntry)
      → IsChained job lo entries
      → get_elem? entries k ≡ some entry
      → lo ≤ entry.start
  chain-le lo k [] chain at = cc
  chain-le lo zero (e ∷ entries) chain at =
      omega (arith, chain.0, ap (λ d. d.start) (some-injective e entry at))
  chain-le lo (suc k) (e ∷ entries) chain at =
      omega (arith, chain.0, chain.1, chain-le e.stop k entries chain.2 at)

  Passes-here :
      (lo : ℕ) (entries : List CompiledEntry) (stopped : Bool) {x z : Execution Host}
      → Passes job stopped z (entry ∷ entries) x
      → IsChained job lo (entry ∷ entries)
      → Below lo x.result
      → fired_here z ≤ 1
  Passes-here lo entries stopped {x} (passes_stop y p s same) chain b = rw same (
      closed-once entry.group true y
        (Performs-once true p (subst (λ n. Below n x.result) (sym chain.0) b)))
  Passes-here lo entries stopped {x} (passes_on y p more) chain b =
      (passes-Kept job behind entries stopped entry.stop chain.2 more (
        omega arith,
        closed-once entry.group false y
            (Performs-once false p (subst (λ n. Below n x.result) (sym chain.0) b)),
      )).1

  Passes-once :
      (k lo : ℕ) (entries : List CompiledEntry) (stopped : Bool) {x z : Execution Host}
      → Passes job stopped z entries x
      → IsChained job lo entries
      → get_elem? entries k ≡ some entry
      → Below lo x.result
      → fired_here z ≤ 1
  Passes-once k lo [] stopped p chain at b = cc
  Passes-once zero lo (e ∷ entries) stopped {x} {z} p chain at b =
      let same = some-injective e entry at in
      Passes-here lo entries stopped (subst (λ d. Passes job stopped z (d ∷ entries) x) same p)
        (subst (λ d. IsChained job lo (d ∷ entries)) same chain) b
  Passes-once (suc k) lo (e ∷ entries) stopped {x} (passes_stop y p s same) chain at b =
      let seen = closed-Kept job below e.group true e.stop y (
        performs-Kept job below e true chain.1 p (subst (λ n. Below n x.result) (sym chain.0) b)) in
      rw same (
        omega (
          arith,
          fired_in-below entry.start entry.stop (closed job e.group true y).result.records (
              All-map
                (λ q (below_here : q.order < e.stop).
                  omega (arith, chain-le e.stop k entries chain.2 at))
                (closed job e.group true y).result.records seen.1),
        ))
  Passes-once (suc k) lo (e ∷ entries) stopped {x} (passes_on y p more) chain at b =
      Passes-once k e.stop entries stopped more chain.2 at (
        closed-Kept job below e.group false e.stop y (
          performs-Kept job below e false chain.1 p
            (subst (λ n. Below n x.result) (sym chain.0) b)))

  Covers-once :
      (k : ℕ) (stopped : Bool) {x z : Execution Host}
      → IsLaidOut job
      → get_elem? job.snapshot.metadata.entries k ≡ some entry
      → Covers job x stopped z
      → x.result.records ≡ []
      → fired_here z ≤ 1
  Covers-once k stopped laid_out at (covers_range bare p) h = cc
  Covers-once k stopped {x} laid_out at (covers_entries e entries same p) h =
      Passes-once k 0 (e ∷ entries) stopped p (subst (IsChained job 0) same laid_out.chained)
        (subst (λ es. get_elem? es k ≡ some entry) same at)
        (
          length-replicate (length job.snapshot.metadata.groups) _,
          subst (All (λ (q : ExecutionRecord). q.order < 0)) (sym h) tt,
        )

  Executes-once :
      (k : ℕ) (x z : Execution Host)
      → IsLaidOut job
      → get_elem? job.snapshot.metadata.entries k ≡ some entry
      → Executes job x z
      → x.result.records ≡ []
      → fired_here z ≤ 1
  Executes-once k x z laid_out at (never_started e host same) h = rw same (rw h (omega arith))
  Executes-once k x z laid_out at (stops y p same) h = rw same (Covers-once k true laid_out at p h)
  Executes-once k x z laid_out at (completes y p same) h =
      rw same (Covers-once k false laid_out at p h)

  -- One execution fires at most one rule of a group.
  pub execute-once :
      (identity : SnapshotInfo) (w : World Host) (k : ℕ)
      → IsLaidOut job
      → get_elem? job.snapshot.metadata.entries k ≡ some entry
      → Finishes job
          (λ r error. fired_in entry.start entry.stop r.records ≤ 1)
          (execute job identity w)
  execute-once identity w k laid_out at =
      execute-Finishes job (λ r error. fired_in entry.start entry.stop r.records ≤ 1) laid_out
        identity w
        (λ z executes.
          Executes-once k (ledger (begin job identity)) (ledger z) laid_out at executes refl)
