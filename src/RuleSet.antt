-- ===== src/RuleSet.antt =====
-- A compiled set, its identity and its views (ruleset.go, snapshot.go, and `RuleInfo`). A nil
-- pointer is `none`; a set without a snapshot is the zero value of the struct.
use rulite.Base.{
  ℕ, suc, List, [], ◌∷◌, Bool, Option, none, some, Bytes, lookup, length, get_elem?, is_some,
}
use rulite.Errors.{Err, invalid_rule_set, RuleId}
use rulite.Rule.{Rule, Entry}
use rulite.Ledger.{RuleMetadata, CompiledSnapshot, SnapshotInfo, zero_info}
use rulite.Compile.Validate.{ValidationIssue}
use rulite.Compile.Layout.{Compiled, compiled, invalid, compile_rules, compile_entries}

-- `(value, error)`: one of the two.
pub data Attempt {ℓ} (A : Type ℓ) : Type ℓ where
  done : A → Attempt A
  refused : Err → Attempt A

pub record RuleSet (Host : Type 0) : Type 0 where
  pub snapshot : Option (CompiledSnapshot Host)
  pub identity : SnapshotInfo

-- What `Compile` returns: a set, or the issues of the `ValidationError`.
pub data Compilation (Host : Type 0) : Type 0 where
  rule_set : RuleSet Host → Compilation Host
  issues : List ValidationIssue → Compilation Host

pub record RuleInfo : Type 0 where
  pub metadata : RuleMetadata
  pub order : ℕ

-- The index of `metadata.rules[order]`; the outer `none` is a Go panic.
abbrev info_at : List RuleMetadata → Option ℕ → Option (Option RuleInfo)
info_at rules none = some none
info_at rules (some order) = elim (get_elem? rules order) [
  | none ↦ none
  | some info ↦ some (some (record { metadata = info; order = order }))
]

abbrev views_from : ℕ → List RuleMetadata → List RuleInfo
views_from order [] = []
views_from order (info ∷ infos) =
    record { metadata = info; order = order } ∷ views_from (suc order) infos

module _ {Host : Type 0} where
  abbrev pub packed : Compiled Host → Compilation Host
  packed (compiled s) = rule_set (record { snapshot = some s; identity = zero_info })
  packed (invalid found) = issues found

  unfoldable pub compile : List (Rule Host) → Compilation Host
  compile rules = packed (compile_rules rules)

  unfoldable pub compile_all : List (Entry Host) → Compilation Host
  compile_all entries = packed (compile_entries entries)

  -- `set.snapshot` of a set that may be nil: `RuleSet.Valid` asks whether it is there.
  abbrev pub snapshot_in : Option (RuleSet Host) → Option (CompiledSnapshot Host)
  snapshot_in none = none
  snapshot_in (some s) = s.snapshot

  abbrev pub valid : Option (RuleSet Host) → Bool
  valid set = is_some (snapshot_in set)

  abbrev pub len : Option (RuleSet Host) → ℕ
  len set = elim (snapshot_in set) [ none ↦ 0 | some s ↦ length s.metadata.rules ]

  unfoldable pub rule : Option (RuleSet Host) → RuleId → Option (Option RuleInfo)
  rule set id = elim (snapshot_in set) [
    | none ↦ some none
    | some s ↦ info_at s.metadata.rules (lookup id s.metadata.by_id)
  ]

  unfoldable pub rules : Option (RuleSet Host) → List RuleInfo
  rules set = elim (snapshot_in set) [ none ↦ [] | some s ↦ views_from 0 s.metadata.rules ]

  unfoldable pub with_identity : Option (RuleSet Host) → Bytes → Bytes → Attempt (RuleSet Host)
  with_identity set version digest = elim (snapshot_in set) [
    | none ↦ refused invalid_rule_set
    | some s ↦ done (record {
      snapshot = some s;
      identity = record { version = version; revision = 0; digest = digest };
    })
  ]

  abbrev pub set_identity : Option (RuleSet Host) → SnapshotInfo
  set_identity none = zero_info
  set_identity (some s) = s.identity
