-- ===== src/Execution/Steps.antt =====
-- A visit, taken apart into the changes of the ledger that it can make: to keep a property over an
-- execution it is enough to keep it over these.
use rulite.Base.{
  ℕ, suc, ◌≤◌, List, ◌≡◌, refl, length, length-set, replicate, Bool, true, false, Option, none,
  some, get_elem?, Bool-cases, inl, inr,
}
use rulite.Rule.{first_match, first_fire}
use rulite.Errors.{Err, Phase, condition_phase, action_phase}
use rulite.Ledger.{
  CompiledEntry, RuleMetadata, Result, StopReason, GroupRecord, GroupMetadata, SnapshotMetadata,
  rule_fired, rule_skipped, zero_group_record,
}
use rulite.Execution.State.{
  Execution, fail, mark_evaluated, on_counts, count_unmatched, count_skipped, count_fired,
  add_record, group_record,
}
use rulite.Execution.Outcome.{Job, is_resolved}
use rulite.Execution.Automaton.{Check, noted, local_advance}
use rulite.Execution.Moves.{Moves, At, visit-At}
use rulite.Execution.Induction.{Kept, length-resolved_groups}

-- `J order` holds of a ledger in which the rule at `order` has been marked and not yet settled.
pub record Steps (Host : Type 0) (metadata : SnapshotMetadata) (I J : ℕ → Result → Type 0)
    : Type 0 where
  pub weaken : (m n : ℕ) (r : Result) → m ≤ n → I m r → I n r
  pub free :
      (n : ℕ) (r : Result) (stop : StopReason) (groups : List GroupRecord)
      → length groups ≡ length r.groups
      → I n r
      → I n (record r { stop = stop; groups = groups })
  pub ready :
      (r : Result)
      → I 0 r
      → I 0 (record r { groups = replicate (length metadata.groups) zero_group_record })
  pub free_pending :
      (n : ℕ) (r : Result) (stop : StopReason) (groups : List GroupRecord)
      → length groups ≡ length r.groups
      → J n r
      → J n (record r { stop = stop; groups = groups })
  pub marks :
      (order : ℕ) (info : RuleMetadata) (r : Result)
      → get_elem? metadata.rules order ≡ some info
      → I order r
      → J order (mark_evaluated order r)
  pub fails :
      (order : ℕ) (phase : Phase) (err : Err) (continued recovered : Bool) (x : Execution Host)
      → J order x.result
      → I (suc order) (fail order phase err continued recovered x).result
  pub misses : (order : ℕ) (r : Result) → J order r → I (suc order) (on_counts count_unmatched r)
  pub skips :
      (order : ℕ) (r : Result)
      → J order r
      → I (suc order) (on_counts count_skipped (add_record order rule_skipped r))
  pub fires :
      (order : ℕ) (r : Result)
      → J order r
      → I (suc order) (on_counts count_fired (add_record order rule_fired r))

module _ {Host : Type 0} (job : Job Host) {I J : ℕ → Result → Type 0}
    (steps : Steps Host job.snapshot.metadata I J) where
  noted-I :
      (n : ℕ) (check : Check Host) (x : Execution Host)
      → I n x.result
      → I n (noted job check x).result
  noted-I n none x h = h
  noted-I n (some (e, host)) x h = steps.free n x.result _ _ refl h

  local_advance-I :
      (group : Option GroupMetadata) (n order : ℕ) (x : Execution Host)
      → I n x.result
      → At (λ _ y. I n y.result) (local_advance job group order x)
  local_advance-I none n order x h = h
  local_advance-I (some group) n order x h =
      elim (Bool-cases (is_resolved (group_record x.result.groups group.index).state)) [
        | inl e ↦ rw e (steps.free n x.result _ _ (length-set x.result.groups group.index _) h)
        | inr e ↦ rw e h
      ]

  step_moves :
      (entry : CompiledEntry) (order : ℕ) (info : RuleMetadata)
      → get_elem? job.snapshot.metadata.rules order ≡ some info
      → Moves job entry order
          (λ x. I order x.result)
          (λ x. J order x.result)
          (λ x. J order x.result)
          (λ _ x. I (suc order) x.result)
          (λ _ x. I (suc order) x.result)
  step_moves entry order info has = record {
    marks = λ x h. steps.marks order info x.result has h;
    condition_panics = λ panic check x h.
        noted-I (suc order) check _
          (steps.free _ _ _ _ refl (steps.fails order condition_phase panic false true x h));
    condition_fails = λ err x h. steps.fails order condition_phase err _ false x h;
    misses = λ x h. steps.misses order x.result h;
    observed = λ e host x h. steps.free _ x.result _ _ refl h;
    condition_stops = λ x h e. steps.free _ x.result _ _ refl h;
    matches = λ id x h.
        steps.free_pending order x.result _ _
          (length-resolved_groups first_match entry.group id x.result.groups) h;
    skips = λ e host x h. steps.skips order _ (steps.free_pending order x.result _ _ refl h);
    action_panics = λ panic check x h.
        noted-I (suc order) check _
          (steps.free _ _ _ _ refl (steps.fails order action_phase panic false true x h));
    action_fails = λ err x h. steps.fails order action_phase err _ false x h;
    fires = λ id x h.
        steps.free _ _ _ _ (length-resolved_groups first_fire entry.group id x.result.groups)
          (steps.fires order x.result h);
    tried_observed = λ failed e host x h. steps.free _ x.result _ _ refl h;
    action_stops = λ failed x h e. steps.free _ x.result _ _ refl h;
    match_stops = λ failed x h e. steps.free _ x.result _ _ refl h;
    fire_stops = λ failed x h e f. steps.free _ x.result _ _ refl h;
    advances = λ failed x h e f. local_advance-I entry.group (suc order) order x h;
  }

  pub Steps-Kept : Kept job I
  Steps-Kept = record {
    weaken = steps.weaken;
    free = steps.free;
    ready = steps.ready;
    visited = λ entry order info a x has h.
        visit-At job entry order (step_moves entry order info has) info.id a x h;
  }
