-- ===== src/Dynamic/Build/Rules.antt =====
-- The rules that definitions compile to (dynamic/definition.go, `compileValidated`).
use rulite.Base.{
  Zip, ℕ, suc, ◌+◌, List, [], ◌∷◌, ◌++◌, map, ◌≡◌, refl, sym, ap, subst, ◌∙◌, Option, none, some,
  lookup, length, All, inl, inr, ◌⊎◌, arith,
}
use rulite.Base.Int.{pos}
use rulite.Errors.{Payload}
use rulite.World.{World, returned, panicked, Eff, Condition, Action, pure}
use rulite.Base.Strings.{runes}
use rulite.Rule.{
  Rule, details_value, trim_space, normalize_tags, then_do, when, with_tags, with_description,
  with_priority, new_rule,
}
use rulite.Dynamic.Failure.{
  DynamicError, unknown_action, compile_error, action_stage, Outcome, ok, failed,
}
use rulite.Dynamic.Registry.{ActionFactory, Actions}
use rulite.Dynamic.Definition.{Definition}
use rulite.Dynamic.Build.{Compiler, prepend, build_rule, placed, resolve, build_rules, with_action}
use rulite.Dynamic.Build.Conditions.{Ends, Ends-bind, Ends-self, IsCheckOf}

module _ {Host : Type 0} where
  -- The action that the registered factory makes of the parameters of a definition.
  pub record IsMadeFor (capabilities : Actions Host) (d : Definition) (action : Action Host)
      : Type 0 where
    pub factory : ActionFactory Host
    pub registered : lookup d.action capabilities ≡ some factory
    pub called_in : World Host
    pub left_behind : World Host
    pub made : factory d.params called_in ≡ returned (ok action) left_behind

  -- The rule of a definition: its fields, the condition that was compiled, and the action that was
  -- made for it.
  pub record IsRuleOf (compiler : Compiler Host) (capabilities : Actions Host) (d : Definition)
      (rule : Rule Host) : Type 0 where
    pub check : Condition Host
    pub action : Action Host
    pub compiled_check : compiler d.condition ≡ ok check
    pub made_for : IsMadeFor capabilities d action
    pub own_id : rule.id ≡ d.id
    pub own_priority : rule.priority ≡ d.priority
    pub own_name : (details_value rule.details).name ≡ []
    pub own_description :
        (details_value rule.details).description ≡ trim_space (runes d.description)
    pub own_tags : (details_value rule.details).tags ≡ normalize_tags (map runes d.tags)
    pub own_condition : rule.condition ≡ some check
    pub own_action : rule.action ≡ some action

  build_rule-IsRuleOf :
      (compiler : Compiler Host) (capabilities : Actions Host) (d : Definition)
      (check : Condition Host) (action : Action Host)
      → compiler d.condition ≡ ok check
      → IsMadeFor capabilities d action
      → IsRuleOf compiler capabilities d (build_rule d check action)
  unfolding build_rule then_do when with_tags with_description with_priority new_rule
  build_rule-IsRuleOf compiler capabilities d check action good made = record {
    check = check;
    action = action;
    compiled_check = good;
    made_for = made;
    own_id = refl;
    own_priority = refl;
    own_name = refl;
    own_description = refl;
    own_tags = refl;
    own_condition = refl;
    own_action = refl;
  }

  -- Why a definition gets no action: its name is not registered, or the registered factory refuses
  -- its parameters.
  abbrev pub Fails : Actions Host → Definition → DynamicError → Type 0
  Fails capabilities d cause =
      (lookup d.action capabilities ≡ none) × (cause ≡ unknown_action)
      ⊎ (factory : ActionFactory Host) × (lookup d.action capabilities ≡ some factory)
        × (called_in : World Host) × (left_behind : World Host) × (factory d.params called_in
            ≡ returned (failed cause) left_behind)

  -- The first definition that gets no action, with its index and the cause.
  pub record FailsAt (capabilities : Actions Host) (index : ℕ) (ds : List Definition)
      (e : DynamicError) : Type 0 where
    pub before : List Definition
    pub after : List Definition
    pub definition : Definition
    pub cause : DynamicError
    pub split : ds ≡ before ++ definition ∷ after
    pub earlier :
        All (λ (d : Definition). (action : Action Host) × IsMadeFor capabilities d action) before
    pub fails : Fails capabilities definition cause
    pub shown : e ≡ compile_error action_stage (pos (index + length before)) cause

  FailsAt-later :
      (capabilities : Actions Host) (index : ℕ) (d : Definition) (ds : List Definition)
      (action : Action Host) (e : DynamicError)
      → IsMadeFor capabilities d action
      → FailsAt capabilities (suc index) ds e
      → FailsAt capabilities index (d ∷ ds) e
  FailsAt-later capabilities index d ds action e made h = record {
    before = d ∷ h.before;
    after = h.after;
    definition = h.definition;
    cause = h.cause;
    split = ap (λ xs. d ∷ xs) h.split;
    earlier = ((action, made), h.earlier);
    fails = h.fails;
    shown = h.shown ∙ ap (λ n. compile_error action_stage (pos n) h.cause) (omega arith);
  }

  fails_here :
      (capabilities : Actions Host) (index : ℕ) (d : Definition) (ds : List Definition)
      (cause : DynamicError)
      → Fails capabilities d cause
      → FailsAt capabilities index (d ∷ ds) (compile_error action_stage (pos index) cause)
  fails_here capabilities index d ds cause h = record {
    before = [];
    after = ds;
    definition = d;
    cause = cause;
    split = refl;
    earlier = tt;
    fails = h;
    shown = ap (λ n. compile_error action_stage (pos n) cause) (omega arith);
  }

  -- A panic of the registered factory for the parameters of a definition.
  abbrev pub PanicsFor : Actions Host → Definition → Payload → World Host → Type 0
  PanicsFor capabilities d p v =
      (factory : ActionFactory Host) × (lookup d.action capabilities ≡ some factory)
      × (called_in : World Host) × (factory d.params called_in ≡ panicked p v)

  -- The first definition that gets no action, because its factory panics.
  pub record PanicsAt (capabilities : Actions Host) (ds : List Definition) (p : Payload)
      (v : World Host) : Type 0 where
    pub before : List Definition
    pub after : List Definition
    pub definition : Definition
    pub split : ds ≡ before ++ definition ∷ after
    pub earlier :
        All (λ (d : Definition). (action : Action Host) × IsMadeFor capabilities d action) before
    pub panics : PanicsFor capabilities definition p v

  PanicsAt-later :
      (capabilities : Actions Host) (d : Definition) (ds : List Definition) (action : Action Host)
      (p : Payload) (v : World Host)
      → IsMadeFor capabilities d action
      → PanicsAt capabilities ds p v
      → PanicsAt capabilities (d ∷ ds) p v
  PanicsAt-later capabilities d ds action p v made h = record {
    before = d ∷ h.before;
    after = h.after;
    definition = h.definition;
    split = ap (λ xs. d ∷ xs) h.split;
    earlier = ((action, made), h.earlier);
    panics = h.panics;
  }

  panics_here :
      (capabilities : Actions Host) (d : Definition) (ds : List Definition) (p : Payload)
      (v : World Host)
      → PanicsFor capabilities d p v
      → PanicsAt capabilities (d ∷ ds) p v
  panics_here capabilities d ds p v h = record {
    before = [];
    after = ds;
    definition = d;
    split = refl;
    earlier = tt;
    panics = h;
  }

  abbrev pub Builds :
      Compiler Host → Actions Host → ℕ → List Definition → Outcome (List (Rule Host)) → Type 0
  Builds compiler capabilities index ds (ok rules) = Zip (IsRuleOf compiler capabilities) ds rules
  Builds compiler capabilities index ds (failed e) = FailsAt capabilities index ds e

  -- What `resolve` returns at a definition.
  abbrev Resolved : Actions Host → Definition → ℕ → Outcome (Action Host) → Type 0
  Resolved capabilities d index (ok action) = IsMadeFor capabilities d action
  Resolved capabilities d index (failed e) =
      (cause : DynamicError) × Fails capabilities d cause
      × (e ≡ compile_error action_stage (pos index) cause)

  placed-Resolved :
      (capabilities : Actions Host) (d : Definition) (index : ℕ) (factory : ActionFactory Host)
      (w v : World Host) (made : Outcome (Action Host))
      → lookup d.action capabilities ≡ some factory
      → factory d.params w ≡ returned made v
      → Resolved capabilities d index (placed index made)
  placed-Resolved capabilities d index factory w v (ok action) registered h = record {
    factory = factory;
    registered = registered;
    called_in = w;
    left_behind = v;
    made = h;
  }
  placed-Resolved capabilities d index factory w v (failed e) registered h =
      (e, inr (factory, registered, w, v, h), refl)

  resolve-Resolved :
      (capabilities : Actions Host) (d : Definition) (index : ℕ) (w : World Host)
      (capability : Option (ActionFactory Host))
      → lookup d.action capabilities ≡ capability
      → Ends
          (Resolved capabilities d index)
          (PanicsFor capabilities d)
          (resolve index capability d.params w)
  unfolding resolve
  resolve-Resolved capabilities d index w none missing = (unknown_action, inl (missing, refl), refl)
  resolve-Resolved capabilities d index w (some factory) registered =
      Ends-bind (λ made. (v : World Host) × (factory d.params w ≡ returned made v))
        (λ (p : Payload) (v : World Host). factory d.params w ≡ panicked p v)
        (Resolved capabilities d index) (PanicsFor capabilities d) (factory d.params)
        (λ made. pure (placed index made)) w (Ends-self (factory d.params w))
        (λ made v (u, h). placed-Resolved capabilities d index factory w u made registered h)
        (λ p v h. (factory, registered, w, h))

  prepend-Builds :
      (compiler : Compiler Host) (capabilities : Actions Host) (index : ℕ) (d : Definition)
      (ds : List Definition) (rule : Rule Host) (o : Outcome (List (Rule Host)))
      → IsRuleOf compiler capabilities d rule
      → Builds compiler capabilities (suc index) ds o
      → Builds compiler capabilities index (d ∷ ds) (prepend rule o)
  prepend-Builds compiler capabilities index d ds rule (ok rules) h k = (h, k)
  prepend-Builds compiler capabilities index d ds rule (failed e) h k =
      FailsAt-later capabilities index d ds h.action e h.made_for k

  with_action-Builds :
      (compiler : Compiler Host) (capabilities : Actions Host) (index : ℕ) (d : Definition)
      (ds : List Definition) (check : Condition Host) (rest : Eff Host (Outcome (List (Rule Host))))
      (made : Outcome (Action Host)) (v : World Host)
      → IsCheckOf compiler d check
      → Ends (Builds compiler capabilities (suc index) ds) (PanicsAt capabilities ds) (rest v)
      → Resolved capabilities d index made
      → Ends
          (Builds compiler capabilities index (d ∷ ds))
          (PanicsAt capabilities (d ∷ ds))
          (with_action d check rest made v)
  with_action-Builds compiler capabilities index d ds check rest (failed e) v good built
        (cause, fails, shown) =
      subst (FailsAt capabilities index (d ∷ ds)) (sym shown)
        (fails_here capabilities index d ds cause fails)
  with_action-Builds compiler capabilities index d ds check rest (ok action) v good built made =
      Ends-bind (Builds compiler capabilities (suc index) ds) (PanicsAt capabilities ds)
        (Builds compiler capabilities index (d ∷ ds)) (PanicsAt capabilities (d ∷ ds)) rest
        (λ rules. pure (prepend (build_rule d check action) rules)) v built
        (λ rules x h.
          prepend-Builds compiler capabilities index d ds (build_rule d check action) rules
            (build_rule-IsRuleOf compiler capabilities d check action good made) h)
        (λ p x h. PanicsAt-later capabilities d ds action p x made h)

  pub build_rules-Builds :
      (compiler : Compiler Host) (capabilities : Actions Host) (index : ℕ) (ds : List Definition)
      (checks : List (Condition Host)) (w : World Host)
      → Zip (IsCheckOf compiler) ds checks
      → Ends
          (Builds compiler capabilities index ds)
          (PanicsAt capabilities ds)
          (build_rules index capabilities ds checks w)
  unfolding build_rules
  build_rules-Builds compiler capabilities index [] [] w h = tt
  build_rules-Builds compiler capabilities index [] (check ∷ checks) w h = elim h [ ]
  build_rules-Builds compiler capabilities index (d ∷ ds) [] w h = elim h [ ]
  build_rules-Builds compiler capabilities index (d ∷ ds) (check ∷ checks) w (good, goods) =
      let rest = build_rules (suc index) capabilities ds checks in
      Ends-bind (Resolved capabilities d index) (PanicsFor capabilities d)
        (Builds compiler capabilities index (d ∷ ds)) (PanicsAt capabilities (d ∷ ds))
        (resolve index (lookup d.action capabilities) d.params) (with_action d check rest) w
        (resolve-Resolved capabilities d index w (lookup d.action capabilities) refl)
        (λ made v resolved.
          with_action-Builds compiler capabilities index d ds check rest made v good
            (build_rules-Builds compiler capabilities (suc index) ds checks v goods) resolved)
        (λ p v h. panics_here capabilities d ds p v h)
