-- ===== src/Execution/Induction.antt =====
-- Induction over an execution: what every visit keeps, every execution keeps.
use rulite.Base.{
  ℕ, zero, suc, ◌+◌, ◌-◌, ◌≤◌, List, [], ◌∷◌, ◌≡◌, refl, replicate, length-set, subst, Bool, true,
  false, Option, none, some, get_elem?, length, arith, sym, Bool-cases, inl, inr,
}
use rulite.Errors.{RuleId}
use rulite.Rule.{GroupKind}
use rulite.Ledger.{
  CompiledEntry, RuleMetadata, StopReason, GroupRecord, GroupMetadata, Result, stop_completed,
  zero_group_record,
}
use rulite.Execution.State.{
  Execution, observe_context_error, group_record, set_stop, same_kind, resolved_groups,
}
use rulite.Execution.Outcome.{Job, is_entered}
use rulite.Execution.Visit.{exhausted_groups}
use rulite.Execution.Automaton.{Answers, visit}
use rulite.Execution.Runs.{
  Visits, ends, cut, leaves, goes_on, entered, Performs, blocked, performs, closed, Passes,
  passes_all, passes_stop, passes_on, Covers, covers_range, covers_entries, Executes, never_started,
  stops, completes, entered_group,
}
use rulite.Execution.Loop.{whole_range, count_not_evaluated}
use rulite.Execution.Loops.{IsChained, IsChained-le}
use rulite.Execution.Whole.{IsLaidOut}

pub length-resolved_groups :
    (kind : GroupKind) (group : Option GroupMetadata) (id : RuleId) (groups : List GroupRecord)
    → length (resolved_groups kind group id groups) ≡ length groups
length-resolved_groups kind none id groups = refl
length-resolved_groups kind (some group) id groups = elim (Bool-cases (same_kind group.kind kind)) [
  | inl e ↦ rw e (length-set groups group.index _)
  | inr e ↦ rw e refl
]

length-exhausted_groups :
    (group : Option GroupMetadata) (groups : List GroupRecord)
    → length (exhausted_groups group groups) ≡ length groups
length-exhausted_groups none groups = refl
length-exhausted_groups (some group) groups = length-set groups group.index _

-- A property of the ledger, with a bound for the orders that it has seen. Stops are free, and so are
-- the records of the groups, but for their number.
pub record Kept {Host : Type 0} (job : Job Host) (I : ℕ → Result → Type 0) : Type 0 where
  pub weaken : (m n : ℕ) (r : Result) → m ≤ n → I m r → I n r
  pub free :
      (n : ℕ) (r : Result) (stop : StopReason) (groups : List GroupRecord)
      → length groups ≡ length r.groups
      → I n r
      → I n (record r { stop = stop; groups = groups })
  pub ready :
      (r : Result)
      → I 0 r
      → I 0
          (record r { groups = replicate (length job.snapshot.metadata.groups) zero_group_record })
  pub visited :
      (entry : CompiledEntry) (order : ℕ) (info : RuleMetadata) (a : Answers Host)
      (x : Execution Host)
      → get_elem? job.snapshot.metadata.rules order ≡ some info
      → I order x.result
      → I (suc order) (visit job entry order info.id a x).1.result

module _ {Host : Type 0} (job : Job Host) {I : ℕ → Result → Type 0} (kept : Kept job I) where
  visits-Kept :
      (entry : CompiledEntry) (stopped : Bool) {z : Execution Host} (left order : ℕ)
      {x : Execution Host}
      → Visits job entry stopped z left order x
      → I order x.result
      → I (order + left) z.result
  visits-Kept entry stopped zero order {x} (ends _ e) h = rw e (
      kept.weaken order (order + zero) _ (omega arith)
        (kept.free order x.result _ _ (length-exhausted_groups entry.group x.result.groups) h))
  visits-Kept entry stopped (suc left) order {x} (cut err host _ e) h =
      rw e
        (kept.weaken order (order + suc left) _ (omega arith) (kept.free order x.result _ _ refl h))
  visits-Kept entry stopped (suc left) order {x} (leaves info a has e) h =
      kept.weaken (suc order) (order + suc left) _ (omega arith)
        (subst (λ p. I (suc order) p.1.result) e (kept.visited entry order info a x has h))
  visits-Kept entry stopped {z} (suc left) order {x} (goes_on info a y has e more) h =
      subst (λ n. I n z.result) (omega arith)
        (visits-Kept entry stopped left (suc order) more
          (subst (λ p. I (suc order) p.1.result) e (kept.visited entry order info a x has h)))

  pub entered-Kept :
      (entry : CompiledEntry) (n : ℕ) (x : Execution Host)
      → I n x.result
      → I n (entered job entry x).result
  entered-Kept entry n x h = go entry.group
    where
      go : (group : Option GroupMetadata) → I n (entered_group entry group x).result
      go none = h
      go (some group) = kept.free n x.result _ _ (length-set x.result.groups group.index _) h

  pub performs-Kept :
      (entry : CompiledEntry) (stopped : Bool) {x z : Execution Host}
      → entry.start ≤ entry.stop
      → Performs job entry x stopped z
      → I entry.start x.result
      → I entry.stop z.result
  performs-Kept entry stopped {x} inside (blocked group e host _ _ same) h =
      rw same
        (kept.weaken entry.start entry.stop _ inside (kept.free entry.start x.result _ _ refl h))
  performs-Kept entry stopped {x} {z} inside (performs v) h =
      subst (λ n. I n z.result) (omega arith)
        (visits-Kept entry stopped (entry.stop - entry.start) entry.start v
          (entered-Kept entry entry.start x h))

  pub closed-Kept :
      (group : Option GroupMetadata) (stopped : Bool) (n : ℕ) (x : Execution Host)
      → I n x.result
      → I n (closed job group stopped x).result
  closed-Kept none stopped n x h = h
  closed-Kept (some group) stopped n x h =
      elim (Bool-cases (is_entered (group_record x.result.groups group.index).state)) [
        | inl e ↦ rw e (kept.free n x.result _ _ (length-set x.result.groups group.index _) h)
        | inr e ↦ rw e h
      ]

  pub passes-Kept :
      (entries : List CompiledEntry) (stopped : Bool) (lo : ℕ) {x z : Execution Host}
      → IsChained job lo entries
      → Passes job stopped z entries x
      → I lo x.result
      → I (length job.snapshot.callbacks) z.result
  passes-Kept [] stopped lo {x} chain (passes_all _ e) h = rw e (kept.weaken lo _ _ chain h)
  passes-Kept (entry ∷ entries) stopped lo {x} chain (passes_stop y p _ e) h = rw e (
      closed-Kept entry.group true _ y (
        kept.weaken entry.stop _ _ (IsChained-le job entry.stop entries chain.2)
          (performs-Kept entry true chain.1 p (subst (λ n. I n x.result) (sym chain.0) h))))
  passes-Kept (entry ∷ entries) stopped lo {x} chain (passes_on y p more) h =
      passes-Kept entries stopped entry.stop chain.2 more (
        closed-Kept entry.group false entry.stop y
          (performs-Kept entry false chain.1 p (subst (λ n. I n x.result) (sym chain.0) h)))

  covers-Kept :
      (stopped : Bool) {x z : Execution Host}
      → IsLaidOut job
      → Covers job x stopped z
      → I 0 x.result
      → I (length job.snapshot.callbacks) z.result
  covers-Kept stopped laid (covers_range _ p) h =
      performs-Kept (whole_range job) stopped (omega arith) p h
  covers-Kept stopped {x} laid (covers_entries entry entries e p) h =
      passes-Kept (entry ∷ entries) stopped 0 (subst (IsChained job 0) e laid.chained) p
        (kept.ready x.result h)

  -- What holds of the first ledger holds of the last one, but for the count of what is left.
  pub Executes-Kept :
      (x z : Execution Host)
      → IsLaidOut job
      → Executes job x z
      → I 0 x.result
      → (r : Result) × I (length job.snapshot.callbacks) r × (z.result ≡ count_not_evaluated r)
  Executes-Kept x z laid (never_started e host same) h = (
    (observe_context_error job.ctx e host x).result,
    kept.weaken 0 _ _ (omega arith) (kept.free 0 x.result _ _ refl h),
    rw same,
  )
  Executes-Kept x z laid (stops y p same) h = (y.result, covers-Kept true laid p h, rw same)
  Executes-Kept x z laid (completes y p same) h = (
    set_stop stop_completed y.result,
    kept.free _ y.result _ _ refl (covers-Kept false laid p h),
    rw same,
  )
