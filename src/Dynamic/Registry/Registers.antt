-- ===== src/Dynamic/Registry/Registers.antt =====
-- What a call of `Register` (dynamic/registry.go) does, whatever its arguments are.
use rulite.Base.{
  ◌<◌, List, ◌≡◌, refl, true, false, Option, none, some, Option-cases, inl, inr, ◌⊎◌, Bytes,
  bytes_eq, lookup, insert, lookup-insert, lookup-insert_self, length, arith, is_some,
}
use rulite.Dynamic.Failure.{DynamicError}
use rulite.Dynamic.Pattern.{valid_action_name}
use rulite.Dynamic.Schema.{Reflection}
use rulite.Dynamic.Registry.{
  RegistryState, Registry, Params, TypedAction, Validator, register_refusal, make_action, register,
}

-- A refusal: an error, and the registry as it was.
abbrev pub Refuses :
    {Host : Type 0} → RegistryState Host → Option DynamicError × Registry Host → Type 0
Refuses s result = (e : DynamicError) × (result ≡ (some e, some s))

is_some-none {ℓ} : {A : Type ℓ} (o : Option A) → is_some o ≡ false → o ≡ none
is_some-none none h = refl
is_some-none (some a) h = ground arith

module _ {Host P : Type 0} where
  -- One more action under a name that is new, and nothing else.
  pub record IsAdded (s : RegistryState Host) (p : Params P) (name : Bytes)
      (validators : List (Option (Validator Host P))) (action : TypedAction Host P)
      (t : RegistryState Host) : Type 0 where
    pub was_open : s.frozen ≡ false
    pub stays_open : t.frozen ≡ false
    pub named : valid_action_name name ≡ true
    pub room : length s.actions < 256
    pub fresh : lookup name s.actions ≡ none
    pub stored : lookup name t.actions ≡ some (make_action p action validators)
    pub others :
        (other : Bytes)
        → bytes_eq name other ≡ false
        → lookup other t.actions ≡ lookup other s.actions
    pub inserted : t.actions ≡ insert name (make_action p action validators) s.actions

  abbrev pub Adds :
      RegistryState Host
      → Params P
      → Bytes
      → Option (TypedAction Host P)
      → List (Option (Validator Host P))
      → Option DynamicError × Registry Host
      → Type 0
  Adds s p name none validators result = ⊥
  Adds s p name (some action) validators result =
      (t : RegistryState Host) × (result ≡ (none, some t)) × IsAdded s p name validators action t

  register_refusal-none :
      (r : Reflection) (p : Params P) (s : RegistryState Host) (name : Bytes)
      (action : Option (TypedAction Host P)) (validators : List (Option (Validator Host P)))
      → register_refusal r p s name action validators ≡ none
      → (s.frozen ≡ false)
        × (valid_action_name name ≡ true)
        × (is_some action ≡ true)
        × (is_some (lookup name s.actions) ≡ false)
        × (length s.actions < 256)
  unfolding register_refusal
  register_refusal-none r p s name action validators h = ground arith

  -- Register either refuses, with an error and the registry untouched, or adds exactly the action
  -- under a new and well-formed name to an open registry with room for it.
  pub register-Adds :
      (r : Reflection) (p : Params P) (s : RegistryState Host) (name : Bytes)
      (action : Option (TypedAction Host P)) (validators : List (Option (Validator Host P)))
      → Refuses s (register r p (some s) name action validators)
        ⊎ Adds s p name action validators (register r p (some s) name action validators)
  unfolding register
  register-Adds r p s name none validators =
      elim (Option-cases (register_refusal r p s name none validators)) [
        | inl e ↦
            let (opened, named, there, fresh, room) =
              register_refusal-none r p s name none validators e in
            absurd (ground arith)
        | inr (d, e) ↦ inl (d, rw (e, register) refl)
      ]
  register-Adds r p s name (some action) validators =
      elim (Option-cases (register_refusal r p s name (some action) validators)) [
        | inl e ↦
            let (opened, named, there, fresh, room) =
              register_refusal-none r p s name (some action) validators e in
            inr (
              record s { actions = insert name (make_action p action validators) s.actions },
              rw (e, register) refl,
              record {
                was_open = opened;
                stays_open = opened;
                named = named;
                room = room;
                fresh = is_some-none (lookup name s.actions) fresh;
                stored = lookup-insert_self name (make_action p action validators) s.actions;
                others = λ other ne.
                    rw (lookup-insert name other (make_action p action validators) s.actions, ne)
                      refl;
                inserted = refl;
              },
            )
        | inr (d, e) ↦ inl (d, rw (e, register) refl)
      ]
