-- ===== src/Result/Collect.antt =====
-- Collecting identities from records (result.go, the loops of `Matched` and `Fired`).
use rulite.Base.{
  ℕ, ◌+◌, List, [], ◌∷◌, ◌++◌, ◌≡◌, refl, sym, ap, subst, ◌∙◌, true, Option, none, some, length,
  length-append, get_elem?, get_elem?-append_left, arith,
}
use mathlib.Core.Option.{some-injective}
use rulite.Errors.{RuleId, Failure}
use rulite.Ledger.{
  RuleMetadata, SnapshotMetadata, ExecutionRecord, RuleState, rule_fired, rule_failed, rule_skipped,
  rule_unmatched, rule_not_evaluated,
}
use rulite.Result.{rule_id_at, collect, joined, matched_id, matched_state, matched_failure, kept_id}

module _ {ℓ} {A : Type ℓ} where
  collect-cons :
      (f : A → Option (List RuleId)) (x : A) (xs : List A) {ids : List RuleId}
      → collect f (x ∷ xs) ≡ some ids
      → (first rest : List RuleId) × (f x ≡ some first)
        × (collect f xs ≡ some rest)
        × (ids ≡ first ++ rest)
  collect-cons f x xs {ids} e = go (f x) (collect f xs) refl refl e
    where
      go :
          (o p : Option (List RuleId))
          → f x ≡ o
          → collect f xs ≡ p
          → joined o p ≡ some ids
          → (first rest : List RuleId) × (f x ≡ some first)
            × (collect f xs ≡ some rest)
            × (ids ≡ first ++ rest)
      go none p fx cx j = cc
      go (some first) none fx cx j = cc
      go (some first) (some rest) fx cx j = (first, rest, fx, cx, sym (some-injective _ _ j))

  -- The test finds as many identities as `n`, without a fault.
  pub record Tallied (f : A → Option (List RuleId)) (xs : List A) (n : ℕ) : Type ℓ where
    pub ids : List RuleId
    pub collected : collect f xs ≡ some ids
    pub counted : length ids ≡ n

  Tallied-cons :
      (f : A → Option (List RuleId)) (x : A) (xs : List A) (first : List RuleId) {n : ℕ}
      → f x ≡ some first
      → Tallied f xs n
      → Tallied f (x ∷ xs) (length first + n)
  Tallied-cons f x xs first e t = record {
    ids = first ++ t.ids;
    collected = rw (e, t.collected);
    counted = omega (arith, length-append first t.ids, t.counted);
  }

  Tallied-uncons :
      (f : A → Option (List RuleId)) (x : A) (xs : List A) {n : ℕ}
      → Tallied f (x ∷ xs) n
      → (first : List RuleId) × (m : ℕ) × (f x ≡ some first)
        × Tallied f xs m
        × (length first + m ≡ n)
  Tallied-uncons f x xs t =
      let (first, rest, fx, cx, same) = collect-cons f x xs t.collected in
      (
        first,
        length rest,
        fx,
        record { ids = rest; collected = cx; counted = refl },
        sym (length-append first rest) ∙ ap length (sym same) ∙ t.counted,
      )

  pub Tallied-snoc :
      (f : A → Option (List RuleId)) (xs : List A) (a : A) (more : List RuleId) {n : ℕ}
      → Tallied f xs n
      → f a ≡ some more
      → Tallied f (xs ++ a ∷ []) (n + length more)
  Tallied-snoc f [] a more t e =
      let none_yet : length t.ids ≡ 0 = ap length (sym (some-injective _ _ t.collected)) in
      subst (Tallied f (a ∷ [])) (omega (arith, t.counted, none_yet))
        (Tallied-cons f a [] more e (record { ids = []; collected = refl; counted = refl }))
  Tallied-snoc f (x ∷ xs) a more t e =
      let (first, m, fx, rest, same) = Tallied-uncons f x xs t in
      subst (Tallied f (x ∷ xs ++ a ∷ [])) (omega (arith, same))
        (Tallied-cons f x (xs ++ a ∷ []) first fx (Tallied-snoc f xs a more rest e))

  pub Tallied-mono :
      (f g : A → Option (List RuleId))
      → ((a : A) (ids : List RuleId) → f a ≡ some ids → g a ≡ some ids)
      → (xs : List A) {n : ℕ} → Tallied f xs n
      → Tallied g xs n
  Tallied-mono f g le [] t = record { ids = t.ids; collected = t.collected; counted = t.counted }
  Tallied-mono f g le (x ∷ xs) t =
      let (first, m, fx, rest, same) = Tallied-uncons f x xs t in
      subst (Tallied g (x ∷ xs)) same
        (Tallied-cons g x xs first (le x first fx) (Tallied-mono f g le xs rest))

-- More failures behind the listed ones change no record.
pub matched_id-append :
    (m : SnapshotMetadata) (failures more : List Failure) (q : ExecutionRecord) (ids : List RuleId)
    → matched_id m failures q ≡ some ids
    → matched_id m (failures ++ more) q ≡ some ids
matched_id-append m failures more q ids e = go q.state e
  where
    at :
        (o : Option Failure)
        → get_elem? failures q.failure_index ≡ o
        → matched_failure m q.order o ≡ some ids
        → matched_failure m q.order (get_elem? (failures ++ more) q.failure_index) ≡ some ids
    at none has e = cc
    at (some f) has e = rw (get_elem?-append_left failures more q.failure_index f has) e

    go :
        (state : RuleState)
        → matched_state m failures q.order q.failure_index state ≡ some ids
        → matched_state m (failures ++ more) q.order q.failure_index state ≡ some ids
    go rule_failed e = at _ refl e
    go rule_fired e = e
    go rule_skipped e = e
    go rule_unmatched e = e
    go rule_not_evaluated e = e

pub kept_id-there :
    (m : SnapshotMetadata) (order : ℕ) (info : RuleMetadata)
    → get_elem? m.rules order ≡ some info
    → kept_id m order true ≡ some (info.id ∷ [])
kept_id-there m order info has = rw (has, rule_id_at)
