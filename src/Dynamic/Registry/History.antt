-- ===== src/Dynamic/Registry/History.antt =====
-- Sequences of calls on a registry (dynamic/registry.go): each call runs under the lock, so calls of
-- concurrent goroutines follow one another in some order.
use rulite.Base.{
  ◌≤◌, List, [], ◌∷◌, ◌++◌, ◌≡◌, refl, ap, sym, ◌∙◌, subst, true, false, Option, none, some,
  Bool-cases, inl, inr, Bytes, bytes_eq, lookup, insert, length, All, All-append, length-snoc,
  arith, if◌then◌else◌,
}
use rulite.Base.Sorting.{Pairs}
use rulite.Dynamic.Failure.{ok, failed, registry_not_frozen}
use rulite.Dynamic.Pattern.{valid_action_name}
use rulite.Dynamic.Schema.{Reflection}
use rulite.Dynamic.Registry.{
  ActionFactory, Actions, RegistryState, Registry, Params, TypedAction, Validator, register, freeze,
  snapshot, make_action,
}
use rulite.Dynamic.Registry.Registers.{IsAdded, register-Adds}

module _ {Host : Type 0} where
  -- The registries that calls make of a registry, those that are refused included.
  pub data Follows (r : Reflection) (s : Registry Host) : Registry Host → Type 1 where
    at_first : Follows r s s
    registers :
        {P : Type 0} (p : Params P) (t : Registry Host) (name : Bytes)
        (action : Option (TypedAction Host P)) (validators : List (Option (Validator Host P)))
        → Follows r s t
        → Follows r s (register r p t name action validators).1
    freezes : (t : Registry Host) → Follows r s t → Follows r s (freeze t).1

  abbrev IsNamed : Bytes × ActionFactory Host → Type 0
  IsNamed a = valid_action_name a.0 ≡ true

  abbrev OtherName : Bytes × ActionFactory Host → Bytes × ActionFactory Host → Type 0
  OtherName a b = bytes_eq a.0 b.0 ≡ false

  pub record IsSound (s : RegistryState Host) : Type 0 where
    pub few : length s.actions ≤ 256
    pub named : All IsNamed s.actions
    pub distinct : Pairs OtherName s.actions

  abbrev pub IsSoundRegistry : Registry Host → Type 0
  IsSoundRegistry none = Unit
  IsSoundRegistry (some s) = IsSound s

  Pairs-snoc :
      (xs : Actions Host) (a : Bytes × ActionFactory Host)
      → Pairs OtherName xs
      → All (λ b. OtherName b a) xs
      → Pairs OtherName (xs ++ a ∷ [])
  Pairs-snoc [] a h k = (tt, tt)
  Pairs-snoc (b ∷ xs) a (first, rest) (other, others) =
      (All-append (OtherName b) xs (a ∷ []) first (other, tt), Pairs-snoc xs a rest others)

  lookup-others :
      (name : Bytes) (factory : ActionFactory Host) (xs : Actions Host)
      → lookup name xs ≡ none
      → All (λ b. OtherName b (name, factory)) xs
  lookup-others name factory [] h = tt
  lookup-others name factory ((other, f) ∷ xs) h = elim (Bool-cases (bytes_eq other name)) [
    | inl e ↦ ground (arith, e)
    | inr e ↦ (
      e,
      lookup-others name factory xs
          (subst (λ b. (if b then some f else lookup name xs) ≡ none) e h),
    )
  ]

  -- A name that is not there goes behind the others.
  insert-fresh :
      (name : Bytes) (factory : ActionFactory Host) (xs : Actions Host)
      → lookup name xs ≡ none
      → insert name factory xs ≡ xs ++ (name, factory) ∷ []
  insert-fresh name factory [] h = refl
  insert-fresh name factory ((other, f) ∷ xs) h = elim (Bool-cases (bytes_eq other name)) [
    | inl e ↦ ground (arith, e)
    | inr e ↦ rw e (
        ap (λ bs. (other, f) ∷ bs)
          (insert-fresh name factory xs
            (subst (λ b. (if b then some f else lookup name xs) ≡ none) e h)))
  ]

  added-IsSound :
      {P : Type 0} (s t : RegistryState Host) (p : Params P) (name : Bytes)
      (validators : List (Option (Validator Host P))) (action : TypedAction Host P)
      → IsAdded s p name validators action t
      → IsSound s
      → IsSound t
  added-IsSound s t p name validators action h sound =
      let factory = make_action p action validators in
      let grown = h.inserted ∙ insert-fresh name factory s.actions h.fresh in
      record {
        few = ground (arith, h.room, length-snoc s.actions (name, factory), ap length grown);
        named =
            subst (All IsNamed) (sym grown)
              (All-append IsNamed s.actions ((name, factory) ∷ []) sound.named (h.named, tt));
        distinct = subst (Pairs OtherName) (sym grown) (
            Pairs-snoc s.actions (name, factory) sound.distinct
              (lookup-others name factory s.actions h.fresh));
      }

  register-IsSound :
      {P : Type 0} (r : Reflection) (p : Params P) (t : Registry Host) (name : Bytes)
      (action : Option (TypedAction Host P)) (validators : List (Option (Validator Host P)))
      → IsSoundRegistry t
      → IsSoundRegistry (register r p t name action validators).1
  unfolding register
  register-IsSound r p none name action validators h = tt
  register-IsSound r p (some s) name none validators h =
      elim (register-Adds r p s name none validators) [
        | inl (e, same) ↦ subst IsSoundRegistry (sym (ap (λ x. x.1) same)) h
        | inr never ↦ absurd never
      ]
  register-IsSound r p (some s) name (some action) validators h =
      elim (register-Adds r p s name (some action) validators) [
        | inl (e, same) ↦ subst IsSoundRegistry (sym (ap (λ x. x.1) same)) h
        | inr (t, same, added) ↦
            subst IsSoundRegistry (sym (ap (λ x. x.1) same))
              (added-IsSound s t p name validators action added h)
      ]

  freeze-IsSound : (t : Registry Host) → IsSoundRegistry t → IsSoundRegistry (freeze t).1
  unfolding freeze
  freeze-IsSound none h = tt
  freeze-IsSound (some s) h = record { few = h.few; named = h.named; distinct = h.distinct }

  -- Whatever is registered, refused and frozen, and in whatever order, a sound registry stays sound:
  -- it holds at most 256 actions, under different names that are all well formed.
  pub Follows-IsSound :
      (r : Reflection) (s t : Registry Host) → Follows r s t → IsSoundRegistry s → IsSoundRegistry t
  Follows-IsSound r s _ at_first h = h
  Follows-IsSound r s _ (registers p t name action validators f) h =
      register-IsSound r p t name action validators (Follows-IsSound r s t f h)
  Follows-IsSound r s _ (freezes t f) h = freeze-IsSound t (Follows-IsSound r s t f h)

  snapshot-frozen :
      (s : RegistryState Host) (actions : Actions Host)
      → snapshot (some s) ≡ ok actions
      → s.frozen ≡ true
  unfolding snapshot
  snapshot-frozen s actions h = elim (Bool-cases s.frozen) [
    | inl e ↦ e
    | inr e ↦ ground (
      arith,
      subst (λ b. (if b then ok s.actions else failed registry_not_frozen) ≡ ok actions) e h,
    )
  ]

  register-snapshot :
      {P : Type 0} (r : Reflection) (p : Params P) (t : Registry Host) (name : Bytes)
      (action : Option (TypedAction Host P)) (validators : List (Option (Validator Host P)))
      (actions : Actions Host)
      → snapshot t ≡ ok actions
      → snapshot (register r p t name action validators).1 ≡ ok actions
  unfolding register
  register-snapshot r p none name action validators actions h = h
  register-snapshot r p (some s) name none validators actions h =
      elim (register-Adds r p s name none validators) [
        | inl (e, same) ↦ subst (λ x. snapshot x ≡ ok actions) (sym (ap (λ x. x.1) same)) h
        | inr never ↦ absurd never
      ]
  register-snapshot r p (some s) name (some action) validators actions h =
      elim (register-Adds r p s name (some action) validators) [
        | inl (e, same) ↦ subst (λ x. snapshot x ≡ ok actions) (sym (ap (λ x. x.1) same)) h
        | inr (t, same, added) ↦
            let frozen = snapshot-frozen s actions h in absurd (ground (arith, added.was_open))
      ]

  freeze-snapshot :
      (t : Registry Host) (actions : Actions Host)
      → snapshot t ≡ ok actions
      → snapshot (freeze t).1 ≡ ok actions
  unfolding snapshot freeze
  freeze-snapshot none actions h = h
  freeze-snapshot (some s) actions h =
      subst (λ b. (if b then ok s.actions else failed registry_not_frozen) ≡ ok actions)
        (snapshot-frozen s actions h) h

  -- Once a compilation can read a registry, no call changes what the later ones read.
  pub Follows-snapshot :
      (r : Reflection) (s t : Registry Host) (actions : Actions Host)
      → Follows r s t
      → snapshot s ≡ ok actions
      → snapshot t ≡ ok actions
  Follows-snapshot r s _ actions at_first h = h
  Follows-snapshot r s _ actions (registers p t name action validators f) h =
      register-snapshot r p t name action validators actions (Follows-snapshot r s t actions f h)
  Follows-snapshot r s _ actions (freezes t f) h =
      freeze-snapshot t actions (Follows-snapshot r s t actions f h)
