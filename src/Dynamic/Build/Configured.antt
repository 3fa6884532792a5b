-- ===== src/Dynamic/Build/Configured.antt =====
-- `CompileJSON` (dynamic/definition.go) from end to end.
use rulite.Base.{
  List, ◌≡◌, refl, subst, none, some, Bytes, true, false, inl, inr, Option-cases, Bool-cases,
}
use rulite.Errors.{Payload}
use rulite.World.{World, Call, returned, panicked, Eff}
use rulite.Dynamic.Failure.{
  DynamicError, invalid_registry, registry_not_frozen, compile_error, decode_stage, whole, joined,
  invalid_definition, Outcome, ok, failed,
}
use rulite.RuleSet.{RuleSet}
use rulite.Dynamic.Json.{Decoder, check_json, max_document_bytes}
use rulite.Dynamic.Registry.{Actions, Registry, snapshot}
use rulite.Dynamic.Definition.{Definition, validate_definitions, decode, validated, document_limits}
use rulite.Dynamic.Definition.Passes.{Outcome-cases}
use rulite.Dynamic.Definition.Accepts.{AreAllowed, validate_definitions-AreAllowed}
use rulite.Dynamic.Definition.Refuses.{Refused, validate_definitions-Refused}
use rulite.Dynamic.Build.{Compiler, and_run, compile_json}
use rulite.Dynamic.Build.Conditions.{Ends}
use rulite.Dynamic.Build.Rules.{PanicsAt}
use rulite.Dynamic.Build.Composed.{Configured, compile_built-bind}

-- A source in its bounds that holds the definitions `ds`.
pub record Holds (decoder : Decoder) (unmarshal : Bytes → Outcome (List Definition))
    (source : Bytes) (ds : List Definition) : Type 0 where
  pub bounded : check_json decoder source max_document_bytes document_limits ≡ none
  pub unmarshalled : unmarshal source ≡ ok ds

-- Why a source gives no allowed definitions.
pub data IsRefusedSource (decoder : Decoder) (unmarshal : Bytes → Outcome (List Definition))
    (source : Bytes) (e : DynamicError) : Type 0 where
  by_bounds :
      (cause : DynamicError)
      → check_json decoder source max_document_bytes document_limits ≡ some cause
      → e ≡ compile_error decode_stage whole (joined invalid_definition cause)
      → IsRefusedSource decoder unmarshal source e
  by_shape :
      (cause : DynamicError)
      → check_json decoder source max_document_bytes document_limits ≡ none
      → unmarshal source ≡ failed cause
      → e ≡ compile_error decode_stage whole (joined invalid_definition cause)
      → IsRefusedSource decoder unmarshal source e
  by_definitions :
      (ds : List Definition)
      → Holds decoder unmarshal source ds
      → Refused decoder ds e
      → IsRefusedSource decoder unmarshal source e

-- What `decode` returns.
abbrev Decodes :
    Decoder → (Bytes → Outcome (List Definition)) → Bytes → Outcome (List Definition) → Type 0
Decodes decoder unmarshal source (ok ds) = Holds decoder unmarshal source ds × AreAllowed decoder ds
Decodes decoder unmarshal source (failed e) = IsRefusedSource decoder unmarshal source e

decode-Decodes :
    (decoder : Decoder) (unmarshal : Bytes → Outcome (List Definition)) (source : Bytes)
    → Decodes decoder unmarshal source (decode decoder unmarshal source)
unfolding decode
decode-Decodes decoder unmarshal source =
    elim (Option-cases (check_json decoder source max_document_bytes document_limits)) [
      | inr (x, e) ↦ rw (e, decode) (by_bounds x e refl)
      | inl e ↦ elim (Outcome-cases (unmarshal source)) [
        | inl (x, bad) ↦ rw (e, bad, decode) (by_shape x e bad refl)
        | inr (ds, good) ↦ elim (Option-cases (validate_definitions decoder ds)) [
          | inl passed ↦
              rw (e, good, passed, decode, validated)
                (
                  record { bounded = e; unmarshalled = good },
                  (validate_definitions-AreAllowed decoder ds).0 passed,
                )
          | inr (x, refused) ↦
              rw (e, good, refused, decode, validated)
                (by_definitions ds (record { bounded = e; unmarshalled = good })
                  (validate_definitions-Refused decoder ds x refused))
        ]
      ]
    ]

module _ {Host : Type 0} where
  -- Why a registry cannot be read: there is none, or it is still open.
  abbrev pub IsUnreadable : Registry Host → DynamicError → Type 0
  IsUnreadable none e = e ≡ invalid_registry
  IsUnreadable (some s) e = (s.frozen ≡ false) × (e ≡ registry_not_frozen)

  -- The actions of a frozen registry.
  abbrev pub AreRead : Registry Host → Actions Host → Type 0
  AreRead none capabilities = ⊥
  AreRead (some s) capabilities = (s.frozen ≡ true) × (capabilities ≡ s.actions)

  abbrev Reads : Registry Host → Outcome (Actions Host) → Type 0
  Reads registry (ok capabilities) = AreRead registry capabilities
  Reads registry (failed e) = IsUnreadable registry e

  snapshot-Reads : (registry : Registry Host) → Reads registry (snapshot registry)
  unfolding snapshot
  snapshot-Reads none = refl
  snapshot-Reads (some s) = elim (Bool-cases s.frozen) [
    | inl e ↦ rw (e, snapshot) (refl, refl)
    | inr e ↦ rw (e, snapshot) (refl, refl)
  ]

  -- What `CompileJSON` makes of a source.
  pub data IsCompiled (decoder : Decoder) (unmarshal : Bytes → Outcome (List Definition))
      (source : Bytes) (compiler : Compiler Host) (registry : Registry Host)
      : Outcome (RuleSet Host) → Type 0 where
    unreadable :
        (e : DynamicError)
        → IsUnreadable registry e
        → IsCompiled decoder unmarshal source compiler registry (failed e)
    refused_source :
        (e : DynamicError) (capabilities : Actions Host)
        → AreRead registry capabilities
        → IsRefusedSource decoder unmarshal source e
        → IsCompiled decoder unmarshal source compiler registry (failed e)
    configured :
        (ds : List Definition) (capabilities : Actions Host) (o : Outcome (RuleSet Host))
        → AreRead registry capabilities
        → Holds decoder unmarshal source ds
        → AreAllowed decoder ds
        → Configured compiler capabilities ds o
        → IsCompiled decoder unmarshal source compiler registry o

  -- A panic of the factory of one of the definitions of the source.
  abbrev pub PanicsIn :
      Decoder
      → (Bytes → Outcome (List Definition))
      → Bytes
      → Registry Host
      → Payload
      → World Host
      → Type 0
  PanicsIn decoder unmarshal source registry p v =
      (ds : List Definition) × (capabilities : Actions Host) × AreRead registry capabilities
      × Holds decoder unmarshal source ds
      × AreAllowed decoder ds
      × PanicsAt capabilities ds p v

  and_run-Ends {ℓ} :
      {A : Type ℓ} {B : Type 0} (Q : Outcome B → Type 0) (F : Payload → World Host → Type 0)
      (o : Outcome A) (next : A → Eff Host (Outcome B)) (w : World Host)
      → ((a : A) → o ≡ ok a → Ends Q F (next a w))
      → ((e : DynamicError) → o ≡ failed e → Q (failed e))
      → Ends Q F (and_run o next w)
  and_run-Ends Q F (ok a) next w h k = h a refl
  and_run-Ends Q F (failed e) next w h k = k e refl

  Ends-map :
      {A : Type 0} (P Q : A → Type 0) (E F : Payload → World Host → Type 0) (c : Call Host A)
      → ((a : A) → P a → Q a)
      → ((p : Payload) (v : World Host) → E p v → F p v)
      → Ends P E c
      → Ends Q F c
  Ends-map P Q E F (returned a v) h k ends = h a ends
  Ends-map P Q E F (panicked p v) h k ends = k p v ends

  -- CompileJSON refuses a registry that is nil or open, with its own error for each. Then it refuses
  -- a source out of the bounds on documents, one that does not unmarshal, and one whose definitions
  -- are not allowed, each at its stage with its cause. For the allowed definitions of the source it
  -- returns the set that the root package compiles of their rules, one for each in their order,
  -- which never fails, or the error of the first condition or action that fails; and only a panic
  -- of the factory of one of them leaves it.
  pub compile_json-IsCompiled :
      (decoder : Decoder) (unmarshal : Bytes → Outcome (List Definition)) (source : Bytes)
      (compiler : Compiler Host) (registry : Registry Host) (w : World Host)
      → Ends
          (IsCompiled decoder unmarshal source compiler registry)
          (PanicsIn decoder unmarshal source registry)
          (compile_json decoder unmarshal source compiler registry w)
  unfolding compile_json
  compile_json-IsCompiled decoder unmarshal source compiler registry w =
      let Q = IsCompiled decoder unmarshal source compiler registry in
      let F = PanicsIn decoder unmarshal source registry in
      and_run-Ends Q F (snapshot registry) _ w
        (λ capabilities h.
          let read = subst (Reads registry) h (snapshot-Reads registry) in
          and_run-Ends Q F (decode decoder unmarshal source) _ w
            (λ ds passed.
              let (holds, allowed) =
                subst (Decodes decoder unmarshal source) passed
                  (decode-Decodes decoder unmarshal source) in
              Ends-map (Configured compiler capabilities ds) Q (PanicsAt capabilities ds) F _
                (λ o made. configured ds capabilities o read holds allowed made)
                (λ p v panics. (ds, capabilities, read, holds, allowed, panics))
                (compile_built-bind decoder compiler capabilities ds w allowed))
            (λ e stop. refused_source e capabilities read (
              subst (Decodes decoder unmarshal source) stop
                (decode-Decodes decoder unmarshal source))))
        (λ e stop. unreadable e (subst (Reads registry) stop (snapshot-Reads registry)))
