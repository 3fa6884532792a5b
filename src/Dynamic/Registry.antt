-- ===== src/Dynamic/Registry.antt =====
-- The registry of typed actions (dynamic/registry.go). A call runs under the registry's lock, so it
-- is a function of the state. Strict JSON decoding to the Go type of an action's parameters is a
-- parameter, as are the type itself and what package reflect tells of it.
pub mod Registers
pub mod History
use rulite.Base.{
  ℕ, List, [], ◌∷◌, Bool, true, false, not, ◌||◌, Option, none, some, Bytes, is_some, lookup,
  insert, length, leb, if◌then◌else◌,
}
use rulite.Base.Strings.{codes}
use rulite.Errors.{Err}
use rulite.World.{Context, Pointer, Eff, Action, ◌>>=◌, pure}
use rulite.Dynamic.Failure.{
  DynamicError, invalid_registry, registry_frozen, registry_not_frozen, invalid_action,
  duplicate_action, limit_exceeded, invalid_params, joined, Outcome, ok, failed, or_else,
}
use rulite.Dynamic.Pattern.{valid_action_name}
use rulite.Dynamic.Schema.{Kind, struct_kind, TypeId, Reflection, validate_param_type}
use rulite.Dynamic.Schema.Searches.{unvisited}

abbrev pub ActionFactory : Type 0 → Type 0
ActionFactory Host = Bytes → Eff Host (Outcome (Action Host))

abbrev pub Actions : Type 0 → Type 0
Actions Host = List (Bytes × ActionFactory Host)

pub record RegistryState (Host : Type 0) : Type 0 where
  pub frozen : Bool
  pub actions : Actions Host

-- A nil registry, and one without a state, is `none`.
abbrev pub Registry : Type 0 → Type 0
Registry Host = Option (RegistryState Host)

-- The Go type of an action's parameters: which one it is, and `json.Unmarshal` to it.
pub record Params (P : Type 0) : Type 0 where
  pub params_type : TypeId
  pub unmarshal : Bytes → Outcome P

abbrev pub TypedAction : Type 0 → Type 0 → Type 0
TypedAction Host P = Context Host → Pointer → P → Eff Host (Option Err)

abbrev pub Validator : Type 0 → Type 0 → Type 0
Validator Host P = P → Eff Host (Option DynamicError)

-- Enough for the deepest search through parameter types.
abbrev pub type_fuel : ℕ
type_fuel = 18

abbrev is_struct : Kind → Bool
is_struct struct_kind = true
is_struct _ = false

-- `errors.Join(sentinel, err)` of an error that is there.
abbrev pub joined_to : DynamicError → Option DynamicError → Option DynamicError
joined_to sentinel none = none
joined_to sentinel (some e) = some (joined sentinel e)

abbrev pub failure_of {ℓ} : {A : Type ℓ} → Outcome A → Option DynamicError
failure_of (ok a) = none
failure_of (failed e) = some e

-- `json.Unmarshal([]byte("{}"), &probe, …)` behind the check of the type.
abbrev schema_refusal : {P : Type 0} → Reflection → Params P → Option DynamicError
schema_refusal r p =
    or_else
      (joined_to invalid_action (validate_param_type r type_fuel p.params_type 0 unvisited).error)
      (joined_to invalid_action (failure_of (p.unmarshal (codes "{}"))))

module _ {Host : Type 0} where
  abbrev pub new_registry : Registry Host
  new_registry = some (record { frozen = false; actions = [] })

  -- More than one validator, or a nil one.
  abbrev bad_validators : {P : Type 0} → List (Option (Validator Host P)) → Bool
  bad_validators [] = false
  bad_validators (none ∷ []) = true
  bad_validators (some v ∷ []) = false
  bad_validators _ = true

  -- The checks of `Register`, in their order.
  unfoldable pub register_refusal :
      {P : Type 0}
      → Reflection
      → Params P
      → RegistryState Host
      → Bytes
      → Option (TypedAction Host P)
      → List (Option (Validator Host P))
      → Option DynamicError
  register_refusal r p s name action validators =
      if s.frozen
      then some registry_frozen
      else if not (valid_action_name name) || not (is_some action) || bad_validators validators
      then some invalid_action
      else if is_some (lookup name s.actions)
      then some duplicate_action
      else if leb 256 (length s.actions)
      then some limit_exceeded
      else if not (is_struct (r.types p.params_type).kind)
      then some invalid_action
      else schema_refusal r p

  abbrev bound : {P : Type 0} → TypedAction Host P → P → Action Host
  bound action params ctx input = action ctx input params

  abbrev pub bind_params : {P : Type 0} → TypedAction Host P → Outcome P → Outcome (Action Host)
  bind_params action (ok params) = ok (bound action params)
  bind_params action (failed e) = failed (joined invalid_params e)

  -- Behind the validator: the parameters are decoded again, for the execution.
  abbrev pub after_validator :
      {P : Type 0}
      → Params P
      → TypedAction Host P
      → Bytes
      → Option DynamicError
      → Outcome (Action Host)
  after_validator p action raw (some e) = failed (joined invalid_params e)
  after_validator p action raw none = bind_params action (p.unmarshal raw)

  -- The factory that `Register` stores.
  abbrev decode_then :
      {P : Type 0}
      → Params P
      → TypedAction Host P
      → List (Option (Validator Host P))
      → Bytes
      → P
      → Eff Host (Outcome (Action Host))
  decode_then p action (some validator ∷ _) raw params =
      validator params >>= λ e. pure (after_validator p action raw e)
  decode_then p action _ raw params = pure (ok (bound action params))

  unfoldable pub make_action :
      {P : Type 0}
      → Params P
      → TypedAction Host P
      → List (Option (Validator Host P))
      → ActionFactory Host
  make_action p action validators raw = elim (p.unmarshal raw) [
    | failed e ↦ pure (failed (joined invalid_params e))
    | ok params ↦ decode_then p action validators raw params
  ]

  -- A nil action is never stored: `Register` refuses it.
  abbrev stored :
      {P : Type 0}
      → Params P
      → Option (TypedAction Host P)
      → List (Option (Validator Host P))
      → Bytes
      → Actions Host
      → Actions Host
  stored p none validators name actions = actions
  stored p (some action) validators name actions =
      insert name (make_action p action validators) actions

  unfoldable pub register :
      {P : Type 0}
      → Reflection
      → Params P
      → Registry Host
      → Bytes
      → Option (TypedAction Host P)
      → List (Option (Validator Host P))
      → Option DynamicError × Registry Host
  unfolding register_refusal make_action
  register r p none name action validators = (some invalid_registry, none)
  register r p (some s) name action validators =
      elim (register_refusal r p s name action validators) [
        | some e ↦ (some e, some s)
        | none ↦ (none, some (record s { actions = stored p action validators name s.actions }))
      ]

  unfoldable pub freeze : Registry Host → Option DynamicError × Registry Host
  freeze none = (some invalid_registry, none)
  freeze (some s) = (none, some (record s { frozen = true }))

  unfoldable pub snapshot : Registry Host → Outcome (Actions Host)
  snapshot none = failed invalid_registry
  snapshot (some s) = if s.frozen then ok s.actions else failed registry_not_frozen
