-- ===== src/Compile/Indexes.antt =====
-- The identity index of a compiled set (compile_internal.go, `metadata.byID`).
pub mod Placing
pub mod Whole
use rulite.Base.{
  ℕ, zero, suc, ◌+◌, List, [], ◌∷◌, ◌++◌, map, ◌≡◌, refl, sym, ap, ◌∙◌, subst, Bool, true, false,
  ◌&&◌, not, Option, none, some, lookup, insert, lookup-insert, lookup-insert_self, bytes_eq,
  bytes_eq_iff, bytes_eq_refl, Bytes, length, get_elem?, All, All-append, All-map, arith,
  Bool-cases, inl, inr, if◌then◌else◌,
}
use mathlib.Core.Option.{some-injective}
use rulite.Errors.{RuleId}
use rulite.Ledger.{RuleMetadata}
use rulite.Base.Sorting.{Pairs}
use rulite.Compile.Layout.{index_rules}

-- Two identities that differ.
abbrev pub Apart : RuleId → RuleId → Type 0
Apart a b = bytes_eq a b ≡ false

pub bytes_eq_sym : (a b : Bytes) → bytes_eq a b ≡ bytes_eq b a
bytes_eq_sym [] [] = refl
bytes_eq_sym [] (y ∷ b) = refl
bytes_eq_sym (x ∷ a) [] = refl
bytes_eq_sym (x ∷ a) (y ∷ b) = ground (arith, bytes_eq_sym a b)

-- The index has each rule at its place, counted from `n`.
abbrev pub IndexedFrom : ℕ → List RuleMetadata → List (RuleId × ℕ) → Type 0
IndexedFrom n [] m = Unit
IndexedFrom n (r ∷ rs) m = (lookup r.id m ≡ some n) × IndexedFrom (suc n) rs m

lookup-index_rules :
    (k : RuleId) (n : ℕ) (infos : List RuleMetadata) (m : List (RuleId × ℕ))
    → All (λ i. Apart i.id k) infos
    → lookup k (index_rules n infos m) ≡ lookup k m
lookup-index_rules k n [] m h = refl
lookup-index_rules k n (i ∷ infos) m h =
    lookup-index_rules k (suc n) infos (insert i.id n m) h.1
    ∙ rw (lookup-insert i.id k n m, h.0) refl

pub index_rules-IndexedFrom :
    (n : ℕ) (infos : List RuleMetadata) (m : List (RuleId × ℕ))
    → Pairs (λ a b. Apart a.id b.id) infos
    → IndexedFrom n infos (index_rules n infos m)
index_rules-IndexedFrom n [] m h = tt
index_rules-IndexedFrom n (i ∷ infos) m h = (
  lookup-index_rules i.id (suc n) infos (insert i.id n m)
        (All-map (λ b (e : Apart i.id b.id). bytes_eq_sym b.id i.id ∙ e) infos h.0)
      ∙ lookup-insert_self i.id n m,
  index_rules-IndexedFrom (suc n) infos (insert i.id n m) h.1,
)

pub IndexedFrom-index_rules :
    (n start : ℕ) (rules infos : List RuleMetadata) (m : List (RuleId × ℕ))
    → All (λ r. All (λ i. Apart i.id r.id) infos) rules
    → IndexedFrom n rules m
    → IndexedFrom n rules (index_rules start infos m)
IndexedFrom-index_rules n start [] infos m apart h = tt
IndexedFrom-index_rules n start (r ∷ rules) infos m apart h = (
  lookup-index_rules r.id start infos m apart.0 ∙ h.0,
  IndexedFrom-index_rules (suc n) start rules infos m apart.1 h.1,
)

pub IndexedFrom-append :
    (n k : ℕ) (xs ys : List RuleMetadata) (m : List (RuleId × ℕ))
    → n + length xs ≡ k
    → IndexedFrom n xs m
    → IndexedFrom k ys m
    → IndexedFrom n (xs ++ ys) m
IndexedFrom-append n k [] ys m e h t =
    let same : k ≡ n = omega arith in subst (λ i. IndexedFrom i ys m) same t
IndexedFrom-append n k (x ∷ xs) ys m e h t =
    (h.0, IndexedFrom-append (suc n) k xs ys m (omega arith) h.1 t)

pub IndexedFrom-get :
    (n : ℕ) (rules : List RuleMetadata) (m : List (RuleId × ℕ)) (order : ℕ) {info : RuleMetadata}
    → IndexedFrom n rules m
    → get_elem? rules order ≡ some info
    → lookup info.id m ≡ some (n + order)
IndexedFrom-get n [] m order h e = cc
IndexedFrom-get n (r ∷ rules) m zero h e =
    ap (λ i. lookup i.id m) (sym (some-injective _ _ e)) ∙ h.0 ∙ ap some (omega arith)
IndexedFrom-get n (r ∷ rules) m (suc order) h e =
    IndexedFrom-get (suc n) rules m order h.1 e ∙ ap some (omega arith)
