-- ===== src/Policy/Configure.antt =====
-- The modes of a configuration that options give (policy.go, `configureExecution`).
use rulite.Base.{◌≤◌, List, [], ◌∷◌, ◌≡◌, refl, subst, ltb, Bool-cases, inl, inr, arith, ◌⊎◌}
use rulite.Errors.{Err, invalid_policy, invalid_panic_mode}
use rulite.Policy.{
  FireOption, option_none, option_trace, option_policy, option_panic, option_observer,
  ExecutionConfig, Configured, configured, rejected, policy_invalid, apply_option,
  configure_execution, stop_on_first_fire, continue_on_error, propagate_panics,
}

module _ {Host : Type 0} where
  -- Every mode is one of the named constants.
  pub record IsValid (c : ExecutionConfig Host) : Type 0 where
    pub stop : c.policy.stop ≤ stop_on_first_fire
    pub condition_errors : c.policy.condition_errors ≤ continue_on_error
    pub action_errors : c.policy.action_errors ≤ continue_on_error
    pub panic_mode : c.panic_mode ≤ propagate_panics

  pub Configured-cases :
      (a : Configured Host)
      → ((e : Err) × (a ≡ rejected e)) ⊎ ((c : ExecutionConfig Host) × (a ≡ configured c))
  Configured-cases (rejected e) = inl (e, refl)
  Configured-cases (configured c) = inr (c, refl)

  abbrev pub IsGood : Configured Host → Type 0
  IsGood (rejected e) = (e ≡ invalid_policy) ⊎ (e ≡ invalid_panic_mode)
  IsGood (configured c) = IsValid c

  apply_option-IsGood :
      (c : ExecutionConfig Host) (o : FireOption Host) → IsValid c → IsGood (apply_option c o)
  apply_option-IsGood c option_none h = h
  apply_option-IsGood c option_trace h = record {
    stop = h.stop;
    condition_errors = h.condition_errors;
    action_errors = h.action_errors;
    panic_mode = h.panic_mode;
  }
  apply_option-IsGood c (option_observer o) h = record {
    stop = h.stop;
    condition_errors = h.condition_errors;
    action_errors = h.action_errors;
    panic_mode = h.panic_mode;
  }
  apply_option-IsGood c (option_policy p) h = elim (Bool-cases (policy_invalid p)) [
    | inl e ↦ rw e (inl refl)
    | inr e ↦ rw e (record {
      stop = ground arith;
      condition_errors = ground arith;
      action_errors = ground arith;
      panic_mode = h.panic_mode;
    })
  ]
  apply_option-IsGood c (option_panic mode) h = elim (Bool-cases (ltb propagate_panics mode)) [
    | inl e ↦ rw e (inr refl)
    | inr e ↦ rw e (record {
      stop = h.stop;
      condition_errors = h.condition_errors;
      action_errors = h.action_errors;
      panic_mode = ground arith;
    })
  ]

  -- Whatever numbers callers convert to modes, a configuration that comes out of valid defaults is
  -- valid; otherwise the error is one of the two that name the option.
  pub configure_execution-IsGood :
      (c : ExecutionConfig Host) (options : List (FireOption Host))
      → IsValid c
      → IsGood (configure_execution c options)
  unfolding configure_execution
  configure_execution-IsGood c [] h = h
  configure_execution-IsGood c (o ∷ options) h = elim (Configured-cases (apply_option c o)) [
    | inl (e, same) ↦ rw (same, configure_execution) (subst IsGood same (apply_option-IsGood c o h))
    | inr (d, same) ↦
        rw (same, configure_execution)
          (configure_execution-IsGood d options (subst IsGood same (apply_option-IsGood c o h)))
  ]
