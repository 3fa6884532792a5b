-- ===== src/Rule/Tags.antt =====
-- The normalized tags of a rule (metadata.go, `RuleBuilder.Tags`).
use rulite.Base.{
  List, [], ◌∷◌, ◌++◌, ◌≡◌, true, false, ◌||◌, All, All-append, bytes_eq, bytes_eq_refl, Bool-cases,
  inl, inr, arith,
}
use rulite.Rule.{Text, trim_space, contains, keep_tag, normalize_from, normalize_tags}

-- No tag appears twice.
abbrev pub Distinct : List Text → Type 0
Distinct [] = Unit
Distinct (t ∷ ts) = All (λ u. bytes_eq t u ≡ false) ts × Distinct ts

-- An input tag is blank or kept.
abbrev pub IsKept : List Text → Text → Type 0
IsKept kept tag = (bytes_eq (trim_space tag) [] || contains (trim_space tag) kept) ≡ true

Distinct-snoc :
    (t : Text) (ts : List Text) → contains t ts ≡ false → Distinct ts → Distinct (ts ++ t ∷ [])
Distinct-snoc t [] new h = (tt, tt)
Distinct-snoc t (u ∷ us) new h = (
  All-append (λ v. bytes_eq u v ≡ false) us (t ∷ []) h.0 (ground arith, tt),
  Distinct-snoc t us (ground arith) h.1,
)

contains-append :
    (t : Text) (ts more : List Text) → contains t ts ≡ true → contains t (ts ++ more) ≡ true
contains-append t [] more h = cc
contains-append t (u ∷ us) more h = ground (arith, contains-append t us more)

contains-snoc : (t : Text) (ts : List Text) → contains t (ts ++ t ∷ []) ≡ true
contains-snoc t [] = ground (arith, bytes_eq_refl t)
contains-snoc t (u ∷ us) = ground (arith, contains-snoc t us)

-- Tags that are distinct and not blank.
pub record IsNormal (ts : List Text) : Type 0 where
  pub distinct : Distinct ts
  pub named : All (λ t. bytes_eq t [] ≡ false) ts

keep_tag-IsNormal : (seen : List Text) (tag : Text) → IsNormal seen → IsNormal (keep_tag seen tag)
keep_tag-IsNormal seen tag h =
    elim (Bool-cases (bytes_eq (trim_space tag) [] || contains (trim_space tag) seen)) [
      | inl e ↦ rw e h
      | inr e ↦ rw e (record {
        distinct = Distinct-snoc (trim_space tag) seen (ground arith) h.distinct;
        named = All-append _ seen (trim_space tag ∷ []) h.named (ground arith, tt);
      })
    ]

keep_tag-contains :
    (seen : List Text) (tag t : Text)
    → contains t seen ≡ true
    → contains t (keep_tag seen tag) ≡ true
keep_tag-contains seen tag t h =
    elim (Bool-cases (bytes_eq (trim_space tag) [] || contains (trim_space tag) seen)) [
      | inl e ↦ rw e h
      | inr e ↦ rw e (contains-append t seen (trim_space tag ∷ []) h)
    ]

keep_tag-IsKept : (seen : List Text) (tag : Text) → IsKept (keep_tag seen tag) tag
keep_tag-IsKept seen tag =
    elim (Bool-cases (bytes_eq (trim_space tag) [] || contains (trim_space tag) seen)) [
      | inl e ↦ rw e e
      | inr e ↦ rw e (ground (arith, contains-snoc (trim_space tag) seen))
    ]

normalize_from-contains :
    (tags seen : List Text) (t : Text)
    → contains t seen ≡ true
    → contains t (normalize_from seen tags) ≡ true
unfolding normalize_from
normalize_from-contains [] seen t h = h
normalize_from-contains (tag ∷ tags) seen t h =
    normalize_from-contains tags (keep_tag seen tag) t (keep_tag-contains seen tag t h)

normalize_from-lem :
    (tags seen : List Text)
    → IsNormal seen
    → IsNormal (normalize_from seen tags) × All (IsKept (normalize_from seen tags)) tags
unfolding normalize_from
normalize_from-lem [] seen h = (h, tt)
normalize_from-lem (tag ∷ tags) seen h =
    let (normal, rest) =
      normalize_from-lem tags (keep_tag seen tag) (keep_tag-IsNormal seen tag h) in
    (
      normal,
      (
        ground (
          arith,
          keep_tag-IsKept seen tag,
          normalize_from-contains tags (keep_tag seen tag) (trim_space tag),
        ),
        rest,
      ),
    )

-- The tags of a rule are distinct and not empty, and every tag given is kept in its trimmed form
-- unless nothing is left of it.
pub normalize_tags-IsNormal :
    (tags : List Text) → IsNormal (normalize_tags tags) × All (IsKept (normalize_tags tags)) tags
unfolding normalize_tags
normalize_tags-IsNormal tags = normalize_from-lem tags [] (record { distinct = tt; named = tt })
