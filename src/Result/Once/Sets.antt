-- ===== src/Result/Once/Sets.antt =====
-- The fired rules of a group over whole executions of compiled sets.
use rulite.Base.{ℕ, ◌≤◌, ◌≡◌, subst, some, get_elem?, All-get, get_elem?-lt}
use rulite.World.{World}
use rulite.Ledger.{CompiledEntry, GroupMetadata, SnapshotInfo}
use rulite.Compile.Layout.{compiled, DefinitionList, compile_definitions}
use rulite.Compile.Places.{compile_definitions-IsLaidOut}
use rulite.Compile.Numbers.{Numbered, IsNumbered, compile_definitions-GroupsNumbered}
use rulite.Execution.Outcome.{Job}
use rulite.Execution.Loop.{execute}
use rulite.Execution.Whole.{Finishes}
use rulite.Result.Once.{fired_in}
use rulite.Result.Once.Whole.{execute-once}

-- Every execution of a compiled set fires at most one rule in the range of a group, whatever the
-- policy, the conditions and the actions are. Only PropagatePanics lets a panic out instead.
pub execute-FiresOnce :
    {Host : Type 0} (job : Job Host) (d : DefinitionList Host) (identity : SnapshotInfo)
    (w : World Host) (k : ℕ) (entry : CompiledEntry) (group : GroupMetadata)
    → compile_definitions d ≡ compiled job.snapshot
    → get_elem? job.snapshot.metadata.entries k ≡ some entry
    → entry.group ≡ some group
    → Finishes job
        (λ r error. fired_in group.start group.stop r.records ≤ 1)
        (execute job identity w)
execute-FiresOnce job d identity w k entry group made at grouped =
    let numbered : Numbered job.snapshot.metadata.groups entry.start entry.stop (some group) =
      subst (Numbered job.snapshot.metadata.groups entry.start entry.stop) grouped (
        All-get (IsNumbered job.snapshot.metadata.groups) job.snapshot.metadata.entries k
          (compile_definitions-GroupsNumbered d made) at) in
    let has = get_elem?-lt job.snapshot.metadata.groups group.index group numbered.0 in
    subst
      (λ hi.
        Finishes job (λ r error. fired_in group.start hi r.records ≤ 1) (execute job identity w))
      numbered.2
      (subst
        (λ lo.
          Finishes job (λ r error. fired_in lo entry.stop r.records ≤ 1) (execute job identity w))
        numbered.1
        (execute-once job entry group grouped has identity w k
          (compile_definitions-IsLaidOut job d made) at))
