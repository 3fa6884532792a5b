-- ===== src/Dynamic/Build/Whole.antt =====
-- `compileValidated` on all definitions (dynamic/definition.go).
use rulite.Base.{Zip, List, [], ◌∷◌, ◌≡◌, refl, sym, ap, subst, inl, inr}
use rulite.Base.Strings.{codes}
use rulite.World.{World, Call, returned, Condition}
use rulite.Rule.{Rule}
use rulite.Dynamic.Failure.{
  DynamicError, compile_error, condition_stage, whole, Outcome, ok, failed,
}
use rulite.Dynamic.Registry.{Actions}
use rulite.Dynamic.Definition.{Definition}
use rulite.Dynamic.Definition.Passes.{Outcome-cases}
use rulite.Dynamic.Build.{Compiler, all_conditions, check_compiler, build_rules, compile_validated}
use rulite.Dynamic.Build.Conditions.{
  Ends, IsCheckOf, FirstBad, Conditions, compile_conditions-Conditions,
}
use rulite.Dynamic.Build.Rules.{Builds, PanicsAt, build_rules-Builds}

module _ {Host : Type 0} where
  -- What `compileValidated` does: the conditions decide before any factory is called.
  pub data BuildsWell (compiler : Compiler Host) (capabilities : Actions Host)
      (ds : List Definition) (w : World Host)
      : Call Host (Outcome (List (Rule Host))) → Type 0 where
    bad_condition :
        (e : DynamicError)
        → FirstBad compiler 0 ds e
        → BuildsWell compiler capabilities ds w (returned (failed e) w)
    bad_compiler :
        (cause : DynamicError)
        → ds ≡ []
        → compiler (codes "true") ≡ failed cause
        → BuildsWell compiler capabilities ds w
            (returned (failed (compile_error condition_stage whole cause)) w)
    builds :
        (checks : List (Condition Host)) (c : Call Host (Outcome (List (Rule Host))))
        → Zip (IsCheckOf compiler) ds checks
        → Ends (Builds compiler capabilities 0 ds) (PanicsAt capabilities ds) c
        → BuildsWell compiler capabilities ds w c

  compile_validated-failed :
      (compiler : Compiler Host) (capabilities : Actions Host) (ds : List Definition)
      (w : World Host) (e : DynamicError)
      → all_conditions compiler ds ≡ failed e
      → compile_validated compiler capabilities ds w ≡ returned (failed e) w
  unfolding compile_validated
  compile_validated-failed compiler capabilities ds w e h = rw h refl

  compile_validated-ok :
      (compiler : Compiler Host) (capabilities : Actions Host) (ds : List Definition)
      (w : World Host) (checks : List (Condition Host))
      → all_conditions compiler ds ≡ ok checks
      → compile_validated compiler capabilities ds w ≡ build_rules 0 capabilities ds checks w
  unfolding compile_validated
  compile_validated-ok compiler capabilities ds w checks h = rw h refl

  -- Every definition gets the rule of its own fields, trimmed as the builders trim them, of its
  -- compiled condition and of the action that the registered factory makes of its parameters, in the
  -- order of the definitions. Otherwise the first condition that does not compile is told, with its
  -- index and cause and before any factory is called (without definitions, the compiler's own
  -- failure); or the first definition whose action is not registered or whose factory refuses its
  -- parameters, with its index and that cause; or the factory of the first such definition panics.
  pub compile_validated-BuildsWell :
      (compiler : Compiler Host) (capabilities : Actions Host) (ds : List Definition)
      (w : World Host)
      → BuildsWell compiler capabilities ds w (compile_validated compiler capabilities ds w)
  unfolding all_conditions
  compile_validated-BuildsWell compiler capabilities [] w =
      elim (Outcome-cases (compiler (codes "true"))) [
        | inl (cause, bad) ↦
            subst (BuildsWell compiler capabilities [] w)
              (sym (compile_validated-failed compiler capabilities [] w _ (ap check_compiler bad)))
              (bad_compiler cause refl bad)
        | inr (check, good) ↦
            subst (BuildsWell compiler capabilities [] w)
              (sym (compile_validated-ok compiler capabilities [] w [] (ap check_compiler good)))
              (builds [] _ tt (build_rules-Builds compiler capabilities 0 [] [] w tt))
      ]
  compile_validated-BuildsWell compiler capabilities (d ∷ ds) w =
      decided (all_conditions compiler (d ∷ ds)) refl
        (compile_conditions-Conditions compiler 0 (d ∷ ds))
    where
      decided :
          (o : Outcome (List (Condition Host)))
          → all_conditions compiler (d ∷ ds) ≡ o
          → Conditions compiler 0 (d ∷ ds) o
          → BuildsWell compiler capabilities
              (d ∷ ds)
              w
              (compile_validated compiler capabilities (d ∷ ds) w)
      decided (failed e) same h =
          subst (BuildsWell compiler capabilities (d ∷ ds) w)
            (sym (compile_validated-failed compiler capabilities (d ∷ ds) w e same))
            (bad_condition e h)
      decided (ok checks) same h =
          subst (BuildsWell compiler capabilities (d ∷ ds) w)
            (sym (compile_validated-ok compiler capabilities (d ∷ ds) w checks same))
            (builds checks _ h (build_rules-Builds compiler capabilities 0 (d ∷ ds) checks w h))
