-- ===== src/Dynamic/Pattern/Language.antt =====
-- What a regular expression means, beside the matcher of dynamic/registry.go's names.
use rulite.Base.{
  ℕ, List, [], ◌∷◌, ◌++◌, ◌≡◌, ◌↔◌, refl, sym, ap, subst, ◌∙◌, true, Bytes, if◌then◌else◌,
  Bool-cases, inl, inr, ◌⊎◌, arith,
}
use rulite.Dynamic.Pattern.{
  Pattern, nothing, empty, byte_class, seq, alt, star, in_class, nullable, derive, match_string,
}

-- The texts that an expression describes.
pub data Matches : Pattern → Bytes → Type 0 where
  is_empty : Matches empty []
  is_byte :
      (c : ℕ) (ranges : List (ℕ × ℕ))
      → in_class c ranges ≡ true
      → Matches (byte_class ranges) (c ∷ [])
  both :
      (p q : Pattern) (s t u : Bytes) → Matches p s → Matches q t → s ++ t ≡ u → Matches (seq p q) u
  on_left : (p q : Pattern) (s : Bytes) → Matches p s → Matches (alt p q) s
  on_right : (p q : Pattern) (s : Bytes) → Matches q s → Matches (alt p q) s
  none_of : (p : Pattern) → Matches (star p) []
  more_of :
      (p : Pattern) (c : ℕ) (s t u : Bytes)
      → Matches p (c ∷ s)
      → Matches (star p) t
      → s ++ t ≡ u
      → Matches (star p) (c ∷ u)

nullable-Matches : (p : Pattern) → nullable p ≡ true → Matches p []
nullable-Matches nothing h = ground arith
nullable-Matches empty h = is_empty
nullable-Matches (byte_class ranges) h = ground arith
nullable-Matches (seq p q) h =
    both p q [] [] [] (nullable-Matches p (ground arith)) (nullable-Matches q (ground arith)) refl
nullable-Matches (alt p q) h = elim (Bool-cases (nullable p)) [
  | inl e ↦ on_left p q [] (nullable-Matches p e)
  | inr e ↦ on_right p q [] (nullable-Matches q (ground arith))
]
nullable-Matches (star p) h = none_of p

append-empty : (s t : Bytes) → s ++ t ≡ [] → (s ≡ []) × (t ≡ [])
append-empty [] t h = (refl, h)
append-empty (c ∷ s) t h = ground arith

Matches-nullable : (p : Pattern) (s : Bytes) → Matches p s → s ≡ [] → nullable p ≡ true
Matches-nullable _ _ is_empty e = refl
Matches-nullable _ _ (is_byte c ranges within) e = ground arith
Matches-nullable _ _ (both p q s t u m k same) e =
    let (left, right) = append-empty s t (same ∙ e) in
    ground (arith, Matches-nullable p s m left, Matches-nullable q t k right)
Matches-nullable _ _ (on_left p q s m) e = ground (arith, Matches-nullable p s m e)
Matches-nullable _ _ (on_right p q s m) e = ground (arith, Matches-nullable q s m e)
Matches-nullable _ _ (none_of p) e = refl
Matches-nullable _ _ (more_of p c s t u m k same) e = refl

alt-cases : {p q : Pattern} {s : Bytes} → Matches (alt p q) s → Matches p s ⊎ Matches q s
alt-cases (on_left _ _ _ m) = inl m
alt-cases (on_right _ _ _ m) = inr m

-- The two parts of a sequence.
abbrev pub Parts : Pattern → Pattern → Bytes → Type 0
Parts p q u = (s : Bytes) × (t : Bytes) × Matches p s × Matches q t × (s ++ t ≡ u)

pub seq-Parts : {p q : Pattern} {u : Bytes} → Matches (seq p q) u → Parts p q u
seq-Parts (both _ _ s t u m k same) = (s, t, m, k, same)

no_text : {s : Bytes} → ¬ Matches nothing s
no_text m = elim m [ ]

derive_class-Matches :
    (c : ℕ) (ranges : List (ℕ × ℕ)) (s : Bytes)
    → Matches (derive c (byte_class ranges)) s
    → Matches (byte_class ranges) (c ∷ s)
derive_class-Matches c ranges s m = elim (Bool-cases (in_class c ranges)) [
  | inl e ↦ rest e (subst (λ b. Matches (if b then empty else nothing) s) e m)
  | inr e ↦ absurd (no_text (subst (λ b. Matches (if b then empty else nothing) s) e m))
]
  where
    rest :
        {s : Bytes}
        → in_class c ranges ≡ true
        → Matches empty s
        → Matches (byte_class ranges) (c ∷ s)
    rest e is_empty = is_byte c ranges e

-- A byte in front of the first part of a sequence, or in front of its second part if the first part
-- may be empty.
derive-Matches : (c : ℕ) (p : Pattern) (s : Bytes) → Matches (derive c p) s → Matches p (c ∷ s)
derive-Matches c nothing s m = elim m [ ]
derive-Matches c empty s m = elim m [ ]
derive-Matches c (byte_class ranges) s m = derive_class-Matches c ranges s m
derive-Matches c (seq p q) s m = elim (alt-cases m) [
  | inl k ↦
      let (front, back, first, second, same) = seq-Parts k in
      both p q (c ∷ front) back (c ∷ s) (derive-Matches c p front first) second (ap (◌∷◌ c) same)
  | inr k ↦ elim (Bool-cases (nullable p)) [
    | inl e ↦
        let second : Matches (derive c q) s =
          subst (λ b. Matches (if b then derive c q else nothing) s) e k in
        both p q [] (c ∷ s) (c ∷ s) (nullable-Matches p e) (derive-Matches c q s second) refl
    | inr e ↦ absurd (no_text (subst (λ b. Matches (if b then derive c q else nothing) s) e k))
  ]
]
derive-Matches c (alt p q) s m = elim (alt-cases m) [
  | inl k ↦ on_left p q (c ∷ s) (derive-Matches c p s k)
  | inr k ↦ on_right p q (c ∷ s) (derive-Matches c q s k)
]
derive-Matches c (star p) s m =
    let (front, back, first, more, same) = seq-Parts m in
    more_of p c front back s (derive-Matches c p front first) more same

cons-injective : {x y : ℕ} {xs ys : Bytes} → x ∷ xs ≡ y ∷ ys → (x ≡ y) × (xs ≡ ys)
cons-injective h = (cc, cc)

-- What a byte leaves of a sequence.
seq-derive :
    (c : ℕ) (p q : Pattern) (s t u : Bytes)
    → Matches p s
    → Matches q t
    → s ++ t ≡ c ∷ u
    → ((rest : Bytes) → s ≡ c ∷ rest → Matches (derive c p) rest)
    → (t ≡ c ∷ u → Matches (derive c q) u)
    → Matches (derive c (seq p q)) u
seq-derive c p q [] t u m k same left right = on_right _ _ u (
    subst (λ b. Matches (if b then derive c q else nothing) u) (sym (Matches-nullable p [] m refl))
      (right same))
seq-derive c p q (d ∷ s) t u m k same left right =
    let (head, tail) = cons-injective same in
    on_left _ _ u (both _ _ s t u (left s (ap (λ e. e ∷ s) head)) k tail)

Matches-derive :
    (c : ℕ) (p : Pattern) (s u : Bytes) → Matches p s → s ≡ c ∷ u → Matches (derive c p) u
Matches-derive c _ _ u is_empty e = ground arith
Matches-derive c _ _ u (is_byte d ranges within) e =
    let (head, tail) = cons-injective e in
    subst (λ b. Matches (if b then empty else nothing) u)
      (sym (subst (λ b. in_class b ranges ≡ true) head within))
      (subst (Matches empty) tail is_empty)
Matches-derive c _ _ u (both p q s t v m k same) e =
    seq-derive c p q s t u m k (same ∙ e) (λ rest. Matches-derive c p s rest m)
      (Matches-derive c q t u k)
Matches-derive c _ _ u (on_left p q s m) e = on_left _ _ u (Matches-derive c p s u m e)
Matches-derive c _ _ u (on_right p q s m) e = on_right _ _ u (Matches-derive c q s u m e)
Matches-derive c _ _ u (none_of p) e = ground arith
Matches-derive c _ _ u (more_of p d s t v m k same) e =
    let (head, tail) = cons-injective e in
    both _ _ s t u (Matches-derive c p (d ∷ s) s m (ap (λ b. b ∷ s) head)) k (same ∙ tail)

pub match_string-Matches : (p : Pattern) (s : Bytes) → (match_string p s ≡ true) ↔ Matches p s
unfolding match_string
match_string-Matches p [] = (nullable-Matches p, λ m. Matches-nullable p [] m refl)
match_string-Matches p (c ∷ s) =
    let (there, back) = match_string-Matches (derive c p) s in
    (λ h. derive-Matches c p s (there h), λ m. back (Matches-derive c p (c ∷ s) s m refl))
