-- ===== src/Result/Groups.antt =====
-- The views of groups (group_result.go, `groupAt`).
use rulite.Base.{ℕ, suc, List, [], ◌∷◌, Option, none, some, lookup, get_elem?}
use rulite.Errors.{GroupId}
use rulite.Ledger.{
  GroupMetadata, GroupRecord, zero_group_record, GroupResult, GroupState, not_entered,
  end_execution_stopped, Result, StopReason,
}

-- A group that was never entered has no record of its own: it shows the stop of the whole.
abbrev never_entered : GroupState → StopReason → GroupRecord → GroupRecord
never_entered not_entered stop g = record g { end_reason = end_execution_stopped; stop = stop }
never_entered _ stop g = g

abbrev group_ledger : Option GroupRecord → GroupRecord
group_ledger none = zero_group_record
group_ledger (some g) = g

-- `Result.groupAt` of a group's metadata.
unfoldable pub group_at : Result → ℕ → GroupMetadata → GroupResult
group_at r index group =
    let g = group_ledger (get_elem? r.groups index) in
    record { metadata = group; ledger = never_entered g.state r.stop g }

abbrev some_group : Result → ℕ → Option GroupMetadata → Option (Option GroupResult)
some_group r index none = none
some_group r index (some group) = some (some (group_at r index group))

-- `Result.Group`; the outer `none` is an index out of range.
unfoldable pub group : Result → GroupId → Option (Option GroupResult)
unfolding group_at
group r id = elim r.metadata [
  | none ↦ some none
  | some m ↦ elim (lookup id m.by_group_id) [
    | none ↦ some none
    | some index ↦ some_group r index (get_elem? m.groups index)
  ]
]

abbrev group_ats : Result → ℕ → List GroupMetadata → List GroupResult
group_ats r index [] = []
group_ats r index (group ∷ groups) = group_at r index group ∷ group_ats r (suc index) groups

-- `Result.Groups`
unfoldable pub groups : Result → List GroupResult
unfolding group_at
groups r = elim r.metadata [ none ↦ [] | some m ↦ group_ats r 0 m.groups ]
