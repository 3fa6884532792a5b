-- ===== src/Engine.antt =====
-- An engine: a compiled set with its default options, and `Fire` with its preflight (engine.go).
-- A nil pointer, a nil context and a nil input are `none`. `now` is the clock.
pub mod Fires
use rulite.Base.{ℕ, List, [], Option, none, some}
use rulite.Errors.{Err, invalid_rule_set, nil_context, nil_input, invalid_engine, ExecutionError}
use rulite.World.{World, Call, returned, panicked, Context, Pointer, Eff}
use rulite.Rule.{Rule}
use rulite.Ledger.{CompiledSnapshot, SnapshotInfo, zero_info, Result, zero_result}
use rulite.Policy.{
  FireOption, ExecutionConfig, Configured, configured, rejected, zero_config, configure_execution,
}
use rulite.Compile.Validate.{ValidationIssue}
use rulite.RuleSet.{
  Attempt, done, refused, RuleSet, Compilation, rule_set, issues, compile, snapshot_in,
  set_identity,
}
use rulite.Execution.Outcome.{Job}
use rulite.Execution.Loop.{execute}

pub record Engine (Host : Type 0) : Type 0 where
  pub snapshot : Option (CompiledSnapshot Host)
  pub defaults : ExecutionConfig Host
  pub identity : SnapshotInfo

-- The error of a call of `Fire`: one of the preflight, or the error of the execution.
pub data FireError : Type 0 where
  preflight : Err → FireError
  execution : ExecutionError → FireError

-- The error of `NewEngine`.
pub data NewEngine (Host : Type 0) : Type 0 where
  engine : Engine Host → NewEngine Host
  not_compiled : List ValidationIssue → NewEngine Host
  not_built : Err → NewEngine Host

abbrev pub fire_error : Option ExecutionError → Option FireError
fire_error none = none
fire_error (some e) = some (execution e)

module _ {Host : Type 0} where
  abbrev built : CompiledSnapshot Host → SnapshotInfo → Configured Host → Attempt (Engine Host)
  built s identity (rejected e) = refused e
  built s identity (configured config) =
      done (record { snapshot = some s; defaults = config; identity = identity })

  unfoldable pub new_engine_from_rule_set :
      Option (RuleSet Host) → List (FireOption Host) → Attempt (Engine Host)
  unfolding configure_execution
  new_engine_from_rule_set set options = elim (snapshot_in set) [
    | none ↦ refused invalid_rule_set
    | some s ↦ built s (set_identity set) (configure_execution (zero_config Host) options)
  ]

  abbrev from_attempt : Attempt (Engine Host) → NewEngine Host
  from_attempt (done e) = engine e
  from_attempt (refused e) = not_built e

  unfoldable pub new_engine : List (Rule Host) → NewEngine Host
  unfolding new_engine_from_rule_set
  new_engine rules = elim (compile rules) [
    | issues found ↦ not_compiled found
    | rule_set set ↦ from_attempt (new_engine_from_rule_set (some set) [])
  ]

  abbrev pub engine_identity : Option (Engine Host) → SnapshotInfo
  engine_identity none = zero_info
  engine_identity (some e) = e.identity

  -- A preflight failure: the zero result, and nothing has been called.
  abbrev pub refuse : Err → Eff Host (Result × Option FireError)
  refuse e w = returned (zero_result, some (preflight e)) w

  abbrev pub wrapped_call :
      Call Host (Result × Option ExecutionError) → Call Host (Result × Option FireError)
  wrapped_call (returned (result, error) w) = returned (result, fire_error error) w
  wrapped_call (panicked p w) = panicked p w

module _ {Host : Type 0} (now : Host → ℕ × Host) where
  unfoldable pub start :
      Context Host
      → Pointer
      → CompiledSnapshot Host
      → SnapshotInfo
      → Configured Host
      → Eff Host (Result × Option FireError)
  start ctx input s identity (rejected e) w = refuse e w
  start ctx input s identity (configured config) w = wrapped_call (
      execute (record { now = now; ctx = ctx; input = input; snapshot = s; config = config })
        identity w)

  -- The checks of `engine.fire` behind the context and the input.
  unfoldable pub fire_engine :
      Option (Engine Host)
      → Context Host
      → Pointer
      → SnapshotInfo
      → Err
      → List (FireOption Host)
      → Eff Host (Result × Option FireError)
  unfolding start
  fire_engine none ctx input identity bad options = refuse bad
  fire_engine (some e) ctx input identity bad options = elim e.snapshot [
    | none ↦ refuse bad
    | some s ↦ start ctx input s identity (configure_execution e.defaults options)
  ]

  -- `engine.fire`
  unfoldable pub fire_as :
      Option (Engine Host)
      → Option (Context Host)
      → Option Pointer
      → SnapshotInfo
      → Err
      → List (FireOption Host)
      → Eff Host (Result × Option FireError)
  unfolding fire_engine
  fire_as e none input identity bad options = refuse nil_context
  fire_as e (some ctx) none identity bad options = refuse nil_input
  fire_as e (some ctx) (some input) identity bad options =
      fire_engine e ctx input identity bad options

  -- `Engine.Fire`
  unfoldable pub fire :
      Option (Engine Host)
      → Option (Context Host)
      → Option Pointer
      → List (FireOption Host)
      → Eff Host (Result × Option FireError)
  unfolding fire_as
  fire e ctx input options = fire_as e ctx input (engine_identity e) invalid_engine options
