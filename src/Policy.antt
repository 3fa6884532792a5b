-- ===== src/Policy.antt =====
-- Execution policies and options (policy.go, and `WithObserver` of observer.go). The modes are
-- `uint8` values that a caller may convert from any number, so an option carries a number and
-- `configure_execution` rejects those above the last constant.
pub mod Configure
pub mod Options
use rulite.Base.{ℕ, List, [], ◌∷◌, Bool, true, false, ◌||◌, Option, none, some, ltb, if◌then◌else◌}
use rulite.Errors.{Err, invalid_policy, invalid_panic_mode}
use rulite.Ledger.{Observer}

abbrev pub evaluate_all : ℕ
evaluate_all = 0

abbrev pub stop_on_first_match : ℕ
stop_on_first_match = 1

abbrev pub stop_on_first_fire : ℕ
stop_on_first_fire = 2

abbrev pub stop_on_error : ℕ
stop_on_error = 0

abbrev pub continue_on_error : ℕ
continue_on_error = 1

abbrev pub recover_panics : ℕ
recover_panics = 0

abbrev pub propagate_panics : ℕ
propagate_panics = 1

pub record ExecutionPolicy : Type 0 where
  pub stop : ℕ
  pub condition_errors : ℕ
  pub action_errors : ℕ

abbrev pub default_policy : ExecutionPolicy
default_policy = record { stop = 0; condition_errors = 0; action_errors = 0 }

abbrev pub with_stop : ExecutionPolicy → ℕ → ExecutionPolicy
with_stop p mode = record p { stop = mode }

abbrev pub with_condition_errors : ExecutionPolicy → ℕ → ExecutionPolicy
with_condition_errors p mode = record p { condition_errors = mode }

abbrev pub with_action_errors : ExecutionPolicy → ℕ → ExecutionPolicy
with_action_errors p mode = record p { action_errors = mode }

-- `FireOption` with its `optionKind`.
pub data FireOption (Host : Type 0) : Type 0 where
  option_none option_trace : FireOption Host
  option_policy : ExecutionPolicy → FireOption Host
  option_panic : ℕ → FireOption Host
  option_observer : Option (Observer Host) → FireOption Host

pub record ExecutionConfig (Host : Type 0) : Type 0 where
  pub policy : ExecutionPolicy
  pub panic_mode : ℕ
  pub trace : Bool
  pub observer : Option (Observer Host)

pub data Configured (Host : Type 0) : Type 0 where
  configured : ExecutionConfig Host → Configured Host
  rejected : Err → Configured Host

abbrev pub zero_config : (Host : Type 0) → ExecutionConfig Host
zero_config Host = record {
  policy = default_policy;
  panic_mode = 0;
  trace = false;
  observer = none;
}

abbrev pub policy_invalid : ExecutionPolicy → Bool
policy_invalid p =
    ltb stop_on_first_fire p.stop
    || ltb continue_on_error p.condition_errors
    || ltb continue_on_error p.action_errors

module _ {Host : Type 0} where
  -- The `switch` of one option.
  abbrev pub apply_option : ExecutionConfig Host → FireOption Host → Configured Host
  apply_option config option_none = configured config
  apply_option config (option_policy p) =
      if policy_invalid p
      then rejected invalid_policy
      else configured (record config { policy = p })
  apply_option config option_trace = configured (record config { trace = true })
  apply_option config (option_observer o) = configured (record config { observer = o })
  apply_option config (option_panic mode) =
      if ltb propagate_panics mode
      then rejected invalid_panic_mode
      else configured (record config { panic_mode = mode })

  unfoldable pub configure_execution :
      ExecutionConfig Host → List (FireOption Host) → Configured Host
  configure_execution config [] = configured config
  configure_execution config (option ∷ options) = elim (apply_option config option) [
    | rejected e ↦ rejected e
    | configured next ↦ configure_execution next options
  ]
