-- ===== src/Policy/Options.antt =====
-- The configuration that a list of options decides (policy.go, `configureExecution`).
use rulite.Base.{
  ℕ, ◌≤◌, ◌<◌, List, [], ◌∷◌, ◌++◌, ◌≡◌, refl, ap, ◌∙◌, subst, ltb, Bool, true, false, ◌||◌, Option,
  Bool-cases, inl, inr, arith, All, ◌⊎◌,
}
use rulite.Ledger.{Observer}
use rulite.Errors.{Err, invalid_policy, invalid_panic_mode}
use rulite.Policy.{
  FireOption, option_none, option_trace, option_policy, option_panic, option_observer,
  ExecutionPolicy, ExecutionConfig, Configured, configured, rejected, policy_invalid, apply_option,
  configure_execution, stop_on_first_fire, continue_on_error, propagate_panics,
}
use rulite.Policy.Configure.{Configured-cases}

-- The last one of a list, or what stands without it.
abbrev pub last_or {ℓ} : {A : Type ℓ} → A → List A → A
last_or a [] = a
last_or a (x ∷ xs) = last_or x xs

module _ {Host : Type 0} where
  -- An option whose modes are all named constants.
  abbrev pub IsNamed : FireOption Host → Type 0
  IsNamed (option_policy p) =
      (p.stop ≤ stop_on_first_fire)
      × (p.condition_errors ≤ continue_on_error)
      × (p.action_errors ≤ continue_on_error)
  IsNamed (option_panic mode) = mode ≤ propagate_panics
  IsNamed _ = Unit

  -- An option with another mode, and its error.
  abbrev pub IsUnnamed : FireOption Host → Err → Type 0
  IsUnnamed (option_policy p) e =
      (e ≡ invalid_policy)
      × ((stop_on_first_fire < p.stop)
          ⊎ ((continue_on_error < p.condition_errors) ⊎ (continue_on_error < p.action_errors)))
  IsUnnamed (option_panic mode) e = (e ≡ invalid_panic_mode) × (propagate_panics < mode)
  IsUnnamed _ e = ⊥

  -- The options of each kind, in their order.
  abbrev pub policies : List (FireOption Host) → List ExecutionPolicy
  policies [] = []
  policies (option_policy p ∷ options) = p ∷ policies options
  policies (_ ∷ options) = policies options

  abbrev pub panic_modes : List (FireOption Host) → List ℕ
  panic_modes [] = []
  panic_modes (option_panic mode ∷ options) = mode ∷ panic_modes options
  panic_modes (_ ∷ options) = panic_modes options

  abbrev pub observers : List (FireOption Host) → List (Option (Observer Host))
  observers [] = []
  observers (option_observer o ∷ options) = o ∷ observers options
  observers (_ ∷ options) = observers options

  abbrev pub asks_trace : List (FireOption Host) → Bool
  asks_trace [] = false
  asks_trace (option_trace ∷ options) = true
  asks_trace (_ ∷ options) = asks_trace options

  -- What an accepted configuration has of the defaults `c` and of the options.
  pub record IsMade (c : ExecutionConfig Host) (options : List (FireOption Host))
      (made : ExecutionConfig Host) : Type 0 where
    pub named : All IsNamed options
    pub policy : made.policy ≡ last_or c.policy (policies options)
    pub panic_mode : made.panic_mode ≡ last_or c.panic_mode (panic_modes options)
    pub trace : made.trace ≡ (c.trace || asks_trace options)
    pub observer : made.observer ≡ last_or c.observer (observers options)

  -- The first option that has another mode.
  pub record FirstUnnamed (options : List (FireOption Host)) (e : Err) : Type 0 where
    pub before : List (FireOption Host)
    pub option : FireOption Host
    pub after : List (FireOption Host)
    pub split : options ≡ before ++ option ∷ after
    pub earlier : All IsNamed before
    pub unnamed : IsUnnamed option e

  abbrev pub Decides : ExecutionConfig Host → List (FireOption Host) → Configured Host → Type 0
  Decides c options (configured made) = IsMade c options made
  Decides c options (rejected e) = FirstUnnamed options e

  Decides-rejected :
      (c : ExecutionConfig Host) (o : FireOption Host) (options : List (FireOption Host)) (e : Err)
      → IsUnnamed o e
      → Decides c (o ∷ options) (rejected e)
  Decides-rejected c o options e h = record {
    before = [];
    option = o;
    after = options;
    split = refl;
    earlier = tt;
    unnamed = h;
  }

  Decides-later :
      (c : ExecutionConfig Host) (o : FireOption Host) (options : List (FireOption Host)) (e : Err)
      → IsNamed o
      → FirstUnnamed options e
      → Decides c (o ∷ options) (rejected e)
  Decides-later c o options e named h = record {
    before = o ∷ h.before;
    option = h.option;
    after = h.after;
    split = ap (λ xs. o ∷ xs) h.split;
    earlier = (named, h.earlier);
    unnamed = h.unnamed;
  }

  -- What an accepted option in front of others passes on to them.
  record PassesOn (c : ExecutionConfig Host) (o : FireOption Host)
      (options : List (FireOption Host)) (d : ExecutionConfig Host) : Type 0 where
    named : IsNamed o
    policy : last_or d.policy (policies options) ≡ last_or c.policy (policies (o ∷ options))
    panic_mode :
        last_or d.panic_mode (panic_modes options)
        ≡ last_or c.panic_mode (panic_modes (o ∷ options))
    trace : (d.trace || asks_trace options) ≡ (c.trace || asks_trace (o ∷ options))
    observer : last_or d.observer (observers options) ≡ last_or c.observer (observers (o ∷ options))

  abbrev Applied :
      ExecutionConfig Host → FireOption Host → List (FireOption Host) → Configured Host → Type 0
  Applied c o options (rejected e) = IsUnnamed o e
  Applied c o options (configured d) = PassesOn c o options d

  apply_option-Applied :
      (c : ExecutionConfig Host) (o : FireOption Host) (options : List (FireOption Host))
      → Applied c o options (apply_option c o)
  apply_option-Applied c option_none options = record {
    named = tt;
    policy = refl;
    panic_mode = refl;
    trace = refl;
    observer = refl;
  }
  apply_option-Applied c option_trace options = record {
    named = tt;
    policy = refl;
    panic_mode = refl;
    trace = ground arith;
    observer = refl;
  }
  apply_option-Applied c (option_observer x) options = record {
    named = tt;
    policy = refl;
    panic_mode = refl;
    trace = refl;
    observer = refl;
  }
  apply_option-Applied c (option_policy p) options = elim (Bool-cases (policy_invalid p)) [
    | inl e ↦ rw e (refl, ground arith)
    | inr e ↦ rw e (record {
      named = (ground arith, ground arith, ground arith);
      policy = refl;
      panic_mode = refl;
      trace = refl;
      observer = refl;
    })
  ]
  apply_option-Applied c (option_panic m) options = elim (Bool-cases (ltb propagate_panics m)) [
    | inl e ↦ rw e (refl, ground arith)
    | inr e ↦ rw e (record {
      named = ground arith;
      policy = refl;
      panic_mode = refl;
      trace = refl;
      observer = refl;
    })
  ]

  Decides-cons :
      (c : ExecutionConfig Host) (o : FireOption Host) (options : List (FireOption Host))
      (d : ExecutionConfig Host) (answer : Configured Host)
      → PassesOn c o options d
      → Decides d options answer
      → Decides c (o ∷ options) answer
  Decides-cons c o options d (rejected e) step h = Decides-later c o options e step.named h
  Decides-cons c o options d (configured made) step h = record {
    named = (step.named, h.named);
    policy = h.policy ∙ step.policy;
    panic_mode = h.panic_mode ∙ step.panic_mode;
    trace = h.trace ∙ step.trace;
    observer = h.observer ∙ step.observer;
  }

  -- The options are accepted where all their modes are named constants. The configuration then has
  -- the policy, the panic mode and the observer of the last option that sets them, or those of the
  -- defaults, and traces where the defaults or an option ask for it. Otherwise the first option with
  -- another mode decides the error.
  pub configure_execution-Decides :
      (c : ExecutionConfig Host) (options : List (FireOption Host))
      → Decides c options (configure_execution c options)
  unfolding configure_execution
  configure_execution-Decides c [] = record {
    named = tt;
    policy = refl;
    panic_mode = refl;
    trace = ground arith;
    observer = refl;
  }
  configure_execution-Decides c (o ∷ options) =
      let step = apply_option-Applied c o options in
      elim (Configured-cases (apply_option c o)) [
        | inl (e, same) ↦
            rw (same, configure_execution)
              (Decides-rejected c o options e (subst (Applied c o options) same step))
        | inr (d, same) ↦
            rw (same, configure_execution)
              (Decides-cons c o options d (configure_execution d options)
                (subst (Applied c o options) same step) (configure_execution-Decides d options))
      ]
