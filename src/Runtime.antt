-- ===== src/Runtime.antt =====
-- A runtime: an engine that is replaced while calls fire it (runtime.go). `Publish` runs under its
-- lock and ends in one atomic store; a firing call begins with one atomic load and keeps what it
-- loaded. Any interleaving of such calls is a sequence of these two moments (Runtime/Moments).
pub mod Moments
use rulite.Base.{ℕ, ◌+◌, ◌%◌, ◌^◌, ◌-◌, List, [], Option, none, some, ◌==◌, if◌then◌else◌, is_some}
use rulite.Errors.{Err, invalid_engine, invalid_runtime, revision_exhausted}
use rulite.World.{Context, Pointer, Eff}
use rulite.Ledger.{SnapshotInfo, zero_info, Result}
use rulite.Policy.{FireOption}
use rulite.RuleSet.{Attempt, done, refused}
use rulite.Engine.{Engine, FireError, fire_as}

pub record Publication (Host : Type 0) : Type 0 where
  pub engine : Engine Host
  pub identity : SnapshotInfo

-- `Runtime`, less its lock.
pub record Runtime (Host : Type 0) : Type 0 where
  pub current : Option (Publication Host)

-- `^SnapshotRevision(0)`
abbrev pub max_revision : ℕ
max_revision = 18446744073709551615

module _ {Host : Type 0} where
  abbrev pub empty_runtime : Runtime Host
  empty_runtime = record { current = none }

  abbrev pub revision_of : Runtime Host → ℕ
  revision_of r = elim r.current [ none ↦ 0 | some old ↦ old.identity.revision ]

  -- The next identity: its revision wraps, as a `uint64` does.
  abbrev pub next_identity : Runtime Host → Engine Host → SnapshotInfo
  next_identity r e = record e.identity { revision = (revision_of r + 1) % 2 ^ 64 }

  -- The part of `Publish` under the lock.
  unfoldable pub replace : Runtime Host → Engine Host → Attempt SnapshotInfo × Runtime Host
  replace r e = if revision_of r == max_revision then (refused revision_exhausted, r) else (
    done (next_identity r e),
    record { current = some (record { engine = e; identity = next_identity r e }) },
  )

  -- `Runtime.Publish` on a runtime that is not nil.
  unfoldable pub publish : Runtime Host → Option (Engine Host) → Attempt SnapshotInfo × Runtime Host
  unfolding replace
  publish r none = (refused invalid_engine, r)
  publish r (some e) = if is_some e.snapshot then replace r e else (refused invalid_engine, r)

  unfoldable pub publish_to :
      Option (Runtime Host) → Option (Engine Host) → Attempt SnapshotInfo × Option (Runtime Host)
  unfolding publish
  publish_to none next = (refused invalid_runtime, none)
  publish_to (some r) next = let (answer, r') = publish r next in (answer, some r')

  abbrev pub kept_if_done : Attempt SnapshotInfo × Runtime Host → Attempt (Runtime Host)
  kept_if_done (done identity, r) = done r
  kept_if_done (refused e, r) = refused e

  unfoldable pub new_runtime : Option (Engine Host) → Attempt (Runtime Host)
  unfolding publish
  new_runtime initial = kept_if_done (publish empty_runtime initial)

  abbrev current_of : Option (Runtime Host) → Option (Publication Host)
  current_of none = none
  current_of (some r) = r.current

  unfoldable pub snapshot : Option (Runtime Host) → SnapshotInfo
  snapshot r = elim (current_of r) [ none ↦ zero_info | some p ↦ p.identity ]

  -- What a firing call loads at its start.
  unfoldable pub captured : Option (Runtime Host) → Option (Engine Host) × SnapshotInfo
  captured r = elim (current_of r) [
    | none ↦ (none, zero_info)
    | some p ↦ (some p.engine, p.identity)
  ]

module _ {Host : Type 0} (now : Host → ℕ × Host) where
  -- `Runtime.Fire`
  unfoldable pub fire :
      Option (Runtime Host)
      → Option (Context Host)
      → Option Pointer
      → List (FireOption Host)
      → Eff Host (Result × Option FireError)
  unfolding fire_as
  fire r ctx input options =
      fire_as now (captured r).0 ctx input (captured r).1 invalid_runtime options
