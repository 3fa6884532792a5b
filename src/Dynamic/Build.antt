-- ===== src/Dynamic/Build.antt =====
-- Compilation of definitions to ordinary rules and sets (dynamic/definition.go). The CEL compiler is a
-- parameter. The copies that the code makes of definitions are the definitions here.
pub mod Conditions
pub mod Rules
pub mod Whole
pub mod Composed
pub mod Configured
use rulite.Base.{ℕ, suc, List, [], ◌∷◌, map, Option, none, some, Bytes, lookup, if◌then◌else◌}
use rulite.Base.Int.{pos}
use rulite.Base.Strings.{codes, runes}
use rulite.World.{Eff, Condition, Action, ◌>>=◌, pure}
use rulite.Rule.{Rule, new_rule, with_priority, with_description, with_tags, when, then_do}
use rulite.RuleSet.{RuleSet, Compilation, rule_set, issues, compile}
use rulite.Dynamic.Failure.{
  DynamicError, unknown_action, root_issues, compile_error, condition_stage, action_stage, whole,
  Outcome, ok, failed,
}
use rulite.Dynamic.Json.{Decoder}
use rulite.Dynamic.Registry.{ActionFactory, Actions, Registry, snapshot}
use rulite.Dynamic.Definition.{Definition, validated, decode}

-- `compiler.Compile` of a CEL compiler.
abbrev pub Compiler : Type 0 → Type 0
Compiler Host = Bytes → Outcome (Condition Host)

abbrev pub prepend {ℓ} : {A : Type ℓ} → A → Outcome (List A) → Outcome (List A)
prepend a (ok rest) = ok (a ∷ rest)
prepend a (failed e) = failed e

-- Goes on behind a step that may fail.
abbrev pub and_run {ℓ} :
    {Host : Type 0} {A : Type ℓ} {B : Type 0}
    → Outcome A
    → (A → Eff Host (Outcome B))
    → Eff Host (Outcome B)
and_run (ok a) next = next a
and_run (failed e) next = pure (failed e)

module _ {Host : Type 0} where
  unfoldable pub compile_conditions :
      Compiler Host → ℕ → List Definition → Outcome (List (Condition Host))
  compile_conditions compiler index [] = ok []
  compile_conditions compiler index (d ∷ ds) = elim (compiler d.condition) [
    | failed e ↦ failed (compile_error condition_stage (pos index) e)
    | ok check ↦ prepend check (compile_conditions compiler (suc index) ds)
  ]

  -- Without definitions the compiler is still asked for one condition.
  abbrev pub check_compiler : Outcome (Condition Host) → Outcome (List (Condition Host))
  check_compiler (ok check) = ok []
  check_compiler (failed e) = failed (compile_error condition_stage whole e)

  unfoldable pub all_conditions : Compiler Host → List Definition → Outcome (List (Condition Host))
  unfolding compile_conditions
  all_conditions compiler [] = check_compiler (compiler (codes "true"))
  all_conditions compiler (d ∷ ds) = compile_conditions compiler 0 (d ∷ ds)

  -- `rules[i]`
  unfoldable pub build_rule : Definition → Condition Host → Action Host → Rule Host
  build_rule d check action =
      then_do
        (when
          (with_tags
            (with_description (with_priority (new_rule d.id) d.priority) (runes d.description))
            (map runes d.tags))
          (some check))
        (some action)

  abbrev pub placed : ℕ → Outcome (Action Host) → Outcome (Action Host)
  placed index (ok action) = ok action
  placed index (failed e) = failed (compile_error action_stage (pos index) e)

  -- `factory(d.Params)` of a capability that may be missing.
  unfoldable pub resolve :
      ℕ → Option (ActionFactory Host) → Bytes → Eff Host (Outcome (Action Host))
  resolve index none raw = pure (failed (compile_error action_stage (pos index) unknown_action))
  resolve index (some factory) raw = factory raw >>= λ made. pure (placed index made)

  -- Behind the action of a definition: its rule in front of those of the other ones.
  abbrev pub with_action :
      Definition
      → Condition Host
      → Eff Host (Outcome (List (Rule Host)))
      → Outcome (Action Host)
      → Eff Host (Outcome (List (Rule Host)))
  with_action d check rest (failed e) = pure (failed e)
  with_action d check rest (ok action) =
      rest >>= λ rules. pure (prepend (build_rule d check action) rules)

  unfoldable pub build_rules :
      ℕ
      → Actions Host
      → List Definition
      → List (Condition Host)
      → Eff Host (Outcome (List (Rule Host)))
  unfolding build_rule resolve
  build_rules index capabilities (d ∷ ds) (check ∷ checks) =
      resolve index (lookup d.action capabilities) d.params
      >>= with_action d check (build_rules (suc index) capabilities ds checks)
  build_rules index capabilities ds checks = pure (ok [])

  -- `compileValidated`
  unfoldable pub compile_validated :
      Compiler Host → Actions Host → List Definition → Eff Host (Outcome (List (Rule Host)))
  unfolding all_conditions build_rules
  compile_validated compiler capabilities ds =
      and_run (all_conditions compiler ds) (λ checks. build_rules 0 capabilities ds checks)

  -- `CompileRules`
  unfoldable pub compile_rule_list :
      Decoder
      → List Definition
      → Compiler Host
      → Registry Host
      → Eff Host (Outcome (List (Rule Host)))
  unfolding compile_validated
  compile_rule_list decoder ds compiler registry = and_run (snapshot registry) (λ capabilities.
      and_run (validated decoder ds) (λ owned. compile_validated compiler capabilities owned))

  abbrev pub from_compilation : Compilation Host → Outcome (RuleSet Host)
  from_compilation (rule_set set) = ok set
  from_compilation (issues found) = failed (root_issues found)

  -- `rulite.Compile(rules...)` of rules that may have failed.
  abbrev pub compile_built : Outcome (List (Rule Host)) → Outcome (RuleSet Host)
  compile_built (ok rules) = from_compilation (compile rules)
  compile_built (failed e) = failed e

  -- `Compile`
  unfoldable pub compile_configured :
      Decoder → List Definition → Compiler Host → Registry Host → Eff Host (Outcome (RuleSet Host))
  unfolding compile_rule_list
  compile_configured decoder ds compiler registry =
      compile_rule_list decoder ds compiler registry >>= λ rules. pure (compile_built rules)

  -- `CompileJSON`
  unfoldable pub compile_json :
      Decoder
      → (Bytes → Outcome (List Definition))
      → Bytes
      → Compiler Host
      → Registry Host
      → Eff Host (Outcome (RuleSet Host))
  unfolding compile_validated
  compile_json decoder unmarshal source compiler registry =
      and_run (snapshot registry) (λ capabilities.
        and_run (decode decoder unmarshal source) (λ ds.
          compile_validated compiler capabilities ds >>= λ rules. pure (compile_built rules)))
