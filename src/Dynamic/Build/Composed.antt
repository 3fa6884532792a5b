-- ===== src/Dynamic/Build/Composed.antt =====
-- Compilation of definitions to a set (dynamic/definition.go): `Compile` and `CompileJSON`, with
-- what they call of the root package.
use rulite.Base.{Zip, List, [], ◌∷◌, ◌≡◌, refl, sym, ap, ◌∙◌, subst, true, is_some, All, arith}
use rulite.Base.Strings.{codes}
use rulite.World.{World, Condition, Call, returned, panicked, ◌>>=◌, pure}
use rulite.Rule.{Rule}
use rulite.RuleSet.{RuleSet, Compilation, rule_set, issues, compile}
use rulite.Dynamic.Failure.{
  DynamicError, compile_error, condition_stage, whole, Outcome, ok, failed,
}
use rulite.Dynamic.Json.{Decoder}
use rulite.Dynamic.Registry.{Actions}
use rulite.Dynamic.Definition.{Definition}
use rulite.Dynamic.Definition.Accepts.{
  AreAllowed, ids_of, ids_ok, identities, IsComplete, compiles, compile-ids_ok,
}
use rulite.Dynamic.Build.{Compiler, compile_validated, compile_built, from_compilation}
use rulite.Dynamic.Build.Conditions.{IsCheckOf, Ends, Ends-bind, FirstBad}
use rulite.Dynamic.Build.Rules.{IsRuleOf, Builds, FailsAt, PanicsAt}
use rulite.Dynamic.Build.Whole.{
  BuildsWell, bad_condition, bad_compiler, builds, compile_validated-BuildsWell,
}

module _ {Host : Type 0} where
  rule-IsComplete :
      (compiler : Compiler Host) (capabilities : Actions Host) (d : Definition) (r : Rule Host)
      → IsRuleOf compiler capabilities d r
      → IsComplete r × (r.id ≡ d.id)
  rule-IsComplete compiler capabilities d r h =
      ((ap is_some h.own_condition, ap is_some h.own_action), h.own_id)

  rules-IsComplete :
      (compiler : Compiler Host) (capabilities : Actions Host) (ds : List Definition)
      (rules : List (Rule Host))
      → Zip (IsRuleOf compiler capabilities) ds rules
      → All IsComplete rules × (ids_of rules ≡ identities ds)
  rules-IsComplete compiler capabilities [] [] h = (tt, refl)
  rules-IsComplete compiler capabilities [] (r ∷ rs) h = elim h [ ]
  rules-IsComplete compiler capabilities (d ∷ ds) [] h = elim h [ ]
  rules-IsComplete compiler capabilities (d ∷ ds) (r ∷ rs) (h, hs) =
      let (complete, same) = rule-IsComplete compiler capabilities d r h in
      let (all, ids) = rules-IsComplete compiler capabilities ds rs hs in
      ((complete, all), ap (λ id. id ∷ ids_of rs) same ∙ ap (λ xs. d.id ∷ xs) ids)

  compiles-set :
      (c : Compilation Host) → compiles c ≡ true → (set : RuleSet Host) × (c ≡ rule_set set)
  compiles-set (rule_set set) h = (set, refl)
  compiles-set (issues found) h = ground arith

  -- The rules of allowed definitions are a set of the root package.
  pub rules-compile :
      (decoder : Decoder) (compiler : Compiler Host) (capabilities : Actions Host)
      (ds : List Definition) (rules : List (Rule Host))
      → AreAllowed decoder ds
      → Zip (IsRuleOf compiler capabilities) ds rules
      → (set : RuleSet Host) × (compile rules ≡ rule_set set)
  rules-compile decoder compiler capabilities ds rules allowed h =
      let (complete, ids) = rules-IsComplete compiler capabilities ds rules h in
      compiles-set (compile rules)
        (compile-ids_ok rules complete ∙ ap (ids_ok []) ids ∙ allowed.identified)

  -- Why allowed definitions are not compiled: the first condition that does not compile, without
  -- definitions the compiler's own failure, or, where all conditions compile, the first definition
  -- that gets no action.
  pub data IsUnbuilt (compiler : Compiler Host) (capabilities : Actions Host) (ds : List Definition)
      (e : DynamicError) : Type 0 where
    by_condition : FirstBad compiler 0 ds e → IsUnbuilt compiler capabilities ds e
    by_compiler :
        (cause : DynamicError)
        → ds ≡ []
        → compiler (codes "true") ≡ failed cause
        → e ≡ compile_error condition_stage whole cause
        → IsUnbuilt compiler capabilities ds e
    by_action :
        (checks : List (Condition Host))
        → Zip (IsCheckOf compiler) ds checks
        → FailsAt capabilities 0 ds e
        → IsUnbuilt compiler capabilities ds e

  -- The set that the root package compiles of the rules of `ds`, one for each in their order, or why
  -- there is none.
  abbrev pub Configured :
      Compiler Host → Actions Host → List Definition → Outcome (RuleSet Host) → Type 0
  Configured compiler capabilities ds (failed e) = IsUnbuilt compiler capabilities ds e
  Configured compiler capabilities ds (ok set) =
      (rules : List (Rule Host)) × Zip (IsRuleOf compiler capabilities) ds rules
      × (compile rules ≡ rule_set set)

  built-Configured :
      (decoder : Decoder) (compiler : Compiler Host) (capabilities : Actions Host)
      (ds : List Definition) (checks : List (Condition Host)) (o : Outcome (List (Rule Host)))
      → AreAllowed decoder ds
      → Zip (IsCheckOf compiler) ds checks
      → Builds compiler capabilities 0 ds o
      → Configured compiler capabilities ds (compile_built o)
  built-Configured decoder compiler capabilities ds checks (failed e) allowed zip h =
      by_action checks zip h
  built-Configured decoder compiler capabilities ds checks (ok rules) allowed zip h =
      let (set, same) = rules-compile decoder compiler capabilities ds rules allowed h in
      subst (Configured compiler capabilities ds) (sym (ap from_compilation same)) (rules, h, same)

  pub compile_built-bind :
      (decoder : Decoder) (compiler : Compiler Host) (capabilities : Actions Host)
      (ds : List Definition) (w : World Host)
      → AreAllowed decoder ds
      → Ends
          (Configured compiler capabilities ds)
          (PanicsAt capabilities ds)
          ((compile_validated compiler capabilities ds >>= λ rules. pure (compile_built rules)) w)
  compile_built-bind decoder compiler capabilities ds w allowed =
      Ends-bind (λ o. Configured compiler capabilities ds (compile_built o))
        (PanicsAt capabilities ds) (Configured compiler capabilities ds) (PanicsAt capabilities ds)
        (compile_validated compiler capabilities ds) (λ rules. pure (compile_built rules)) w
        (outcome _ (compile_validated-BuildsWell compiler capabilities ds w)) (λ rules v h. h)
        (λ p v h. h)
    where
      each :
          (checks : List (Condition Host)) (c : Call Host (Outcome (List (Rule Host))))
          → Zip (IsCheckOf compiler) ds checks
          → Ends (Builds compiler capabilities 0 ds) (PanicsAt capabilities ds) c
          → Ends
              (λ o. Configured compiler capabilities ds (compile_built o))
              (PanicsAt capabilities ds)
              c
      each checks (returned o v) zip h =
          built-Configured decoder compiler capabilities ds checks o allowed zip h
      each checks (panicked p v) zip h = h

      outcome :
          (c : Call Host (Outcome (List (Rule Host))))
          → BuildsWell compiler capabilities ds w c
          → Ends
              (λ o. Configured compiler capabilities ds (compile_built o))
              (PanicsAt capabilities ds)
              c
      outcome _ (bad_condition e h) = by_condition h
      outcome _ (bad_compiler cause empty bad) = by_compiler cause empty bad refl
      outcome _ (builds checks c zip h) = each checks c zip h
