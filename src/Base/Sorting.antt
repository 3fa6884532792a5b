-- ===== src/Base/Sorting.antt =====
-- `slices.SortStableFunc`, by insertion: the stable order under a comparison is one list, whatever
-- algorithm finds it. `before a b` is `cmp(a, b) < 0`.
use Prim.Native.Nat.{ℕ, suc, ◌<◌}
use mathlib.Core.Path.{◌≡◌, refl, ap, ◌∙◌}
use mathlib.Core.Logic.{◌⊎◌, inl, inr}
use mathlib.Core.Bool.{Bool}
use mathlib.Core.List.{List, [], ◌∷◌, ◌++◌}
use native.Mathlib.Omega.{arith}
use rulite.Base.Tests.{if◌then◌else◌, Bool-cases}
use rulite.Base.Lists.{All-split, length, All, All-both}
use rulite.Base.Int.{ℤ, ◌≤ℤ◌, ◌<ℤ◌, ltb_ℤ}
use mathlib.Core.List.Permᴰ
use mathlib.Core.List.{Permᴰ}

module _ {ℓ} {A : Type ℓ} (before : A → A → Bool) where
  -- `x` was registered before every element of the list, so it stays in front of its equals.
  abbrev pub insert_stable : A → List A → List A
  insert_stable x [] = x ∷ []
  insert_stable x (y ∷ ys) = if before y x then y ∷ insert_stable x ys else x ∷ y ∷ ys

  abbrev pub sort_stable : List A → List A
  sort_stable [] = []
  sort_stable (x ∷ xs) = insert_stable x (sort_stable xs)

  pub length-insert_stable : (x : A) (ys : List A) → length (insert_stable x ys) ≡ suc (length ys)
  length-insert_stable x [] = refl
  length-insert_stable x (y ∷ ys) = ground (arith, length-insert_stable x ys)

  pub length-sort_stable : (xs : List A) → length (sort_stable xs) ≡ length xs
  length-sort_stable [] = refl
  length-sort_stable (x ∷ xs) =
      length-insert_stable x (sort_stable xs) ∙ ap suc (length-sort_stable xs)

  pub All-insert_stable {κ} :
      (P : A → Type κ) (x : A) (ys : List A) → P x → All P ys → All P (insert_stable x ys)
  All-insert_stable P x [] h k = (h, tt)
  All-insert_stable P x (y ∷ ys) h k = elim (Bool-cases (before y x)) [
    | inl e ↦ rw e (k.0, All-insert_stable P x ys h k.1)
    | inr e ↦ rw e (h, k)
  ]

  pub All-sort_stable {κ} : (P : A → Type κ) (xs : List A) → All P xs → All P (sort_stable xs)
  All-sort_stable P [] h = tt
  All-sort_stable P (x ∷ xs) h =
      All-insert_stable P x (sort_stable xs) h.0 (All-sort_stable P xs h.1)

  pub insert_stable-perm : (x : A) (ys : List A) → Permᴰ (insert_stable x ys) (x ∷ ys)
  insert_stable-perm x [] = Permᴰ.refl (x ∷ [])
  insert_stable-perm x (y ∷ ys) = elim (Bool-cases (before y x)) [
    | inl e ↦ rw e (Permᴰ.trans (Permᴰ.cons refl (insert_stable-perm x ys)) (Permᴰ.swap refl refl))
    | inr e ↦ rw e (Permᴰ.refl (x ∷ y ∷ ys))
  ]

  pub sort_stable-perm : (xs : List A) → Permᴰ (sort_stable xs) xs
  sort_stable-perm [] = Permᴰ.nil
  sort_stable-perm (x ∷ xs) =
      Permᴰ.trans (insert_stable-perm x (sort_stable xs)) (Permᴰ.cons refl (sort_stable-perm xs))

-- The order that a stable sort by descending key leaves: higher keys first, equal keys by place.
module _ {ℓ} {A : Type ℓ} (place : A → ℕ) (key : A → ℤ) where
  abbrev pub Precedes : A → A → Type 0
  Precedes a b = (key b ≤ℤ key a) × ((key b <ℤ key a) ⊎ (place a < place b))

  abbrev pub Ordered : List A → Type ℓ
  Ordered [] = Unit
  Ordered (x ∷ xs) = All (Precedes x) xs × Ordered xs

  -- The places ascend.
  abbrev pub Placed : List A → Type ℓ
  Placed [] = Unit
  Placed (x ∷ xs) = All (λ y. place x < place y) xs × Placed xs

  abbrev pub by_key : A → A → Bool
  by_key a b = ltb_ℤ (key b) (key a)

  insert_stable-Ordered :
      (x : A) (ys : List A)
      → All (λ y. place x < place y) ys
      → Ordered ys
      → Ordered (insert_stable by_key x ys)
  insert_stable-Ordered x [] first h = (tt, tt)
  insert_stable-Ordered x (y ∷ ys) first h = elim (Bool-cases (by_key y x)) [
    | inl e ↦
        let higher : key x <ℤ key y = ground arith in
        rw e (
          All-insert_stable by_key (Precedes y) x ys (omega arith, inl higher) h.0,
          insert_stable-Ordered x ys first.1 h.1,
        )
    | inr e ↦
        let not_higher : key y ≤ℤ key x = ground arith in
        rw e (
          (
            (not_higher, inr first.0),
            All-both (λ z. place x < place z) (Precedes y) (λ z p q. (omega arith, inr p)) ys
                first.1 h.0,
          ),
          h,
        )
  ]

  pub sort_stable-Ordered : (xs : List A) → Placed xs → Ordered (sort_stable by_key xs)
  sort_stable-Ordered [] h = tt
  sort_stable-Ordered (x ∷ xs) h =
      insert_stable-Ordered x (sort_stable by_key xs)
        (All-sort_stable by_key (λ y. place x < place y) xs h.0) (sort_stable-Ordered xs h.1)

-- A relation between every two elements, in their order.
abbrev pub Pairs {ℓ κ} : {A : Type ℓ} → (A → A → Type κ) → List A → Type (ℓ ⊔ κ)
Pairs R [] = Unit
Pairs R (x ∷ xs) = All (R x) xs × Pairs R xs

module _ {ℓ κ} {A : Type ℓ} (R : A → A → Type κ) where
  insert_stable-Pairs :
      (before : A → A → Bool) (symmetric : (a b : A) → R a b → R b a) (x : A) (ys : List A)
      → All (R x) ys
      → Pairs R ys
      → Pairs R (insert_stable before x ys)
  insert_stable-Pairs before symmetric x [] h k = (tt, tt)
  insert_stable-Pairs before symmetric x (y ∷ ys) h k = elim (Bool-cases (before y x)) [
    | inl e ↦ rw e (
      All-insert_stable before (R y) x ys (symmetric x y h.0) k.0,
      insert_stable-Pairs before symmetric x ys h.1 k.1,
    )
    | inr e ↦ rw e (h, k)
  ]

  pub sort_stable-Pairs :
      (before : A → A → Bool) (symmetric : (a b : A) → R a b → R b a) (xs : List A)
      → Pairs R xs
      → Pairs R (sort_stable before xs)
  sort_stable-Pairs before symmetric [] h = tt
  sort_stable-Pairs before symmetric (x ∷ xs) h =
      insert_stable-Pairs before symmetric x (sort_stable before xs)
        (All-sort_stable before (R x) xs h.0) (sort_stable-Pairs before symmetric xs h.1)

  pub Pairs-append :
      (xs ys : List A) → Pairs R (xs ++ ys) → Pairs R xs × All (λ x. All (R x) ys) xs × Pairs R ys
  Pairs-append [] ys h = (tt, tt, h)
  Pairs-append (x ∷ xs) ys h =
      let (a, b, c) = Pairs-append xs ys h.1 in
      let (left, right) = All-split (R x) xs ys h.0 in ((left, a), (right, b), c)
