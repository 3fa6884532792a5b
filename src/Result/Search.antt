-- ===== src/Result/Search.antt =====
-- `slices.BinarySearchFunc` over the records of a ledger, as the standard library runs it, beside a
-- scan of the records (result.go, `ruleAt`).
use Prim.Native.Nat.{◌/◌}
use rulite.Base.{
  ℕ, zero, suc, ◌+◌, ◌-◌, ◌≤◌, ◌<◌, List, [], ◌∷◌, ◌≡◌, refl, sym, subst, true, false, Option, none,
  some, get_elem?, get_elem?-some, length, ltb, ◌==◌, if◌then◌else◌, arith, Bool-cases, inl, inr,
}
use rulite.Ledger.{ExecutionRecord}
use rulite.Execution.Records.{Ascends}

abbrev order_at : List ExecutionRecord → ℕ → ℕ
order_at records h = elim (get_elem? records h) [ none ↦ 0 | some r ↦ r.order ]

order_at-some :
    (records : List ExecutionRecord) (h : ℕ) (r : ExecutionRecord)
    → get_elem? records h ≡ some r
    → order_at records h ≡ r.order
order_at-some records h r e = rw (e, order_at)

-- `for i < j { h := int(uint(i+j) >> 1); if cmp(x[h]) < 0 { i = h + 1 } else { j = h } }`
unfoldable pub search_from : ℕ → List ExecutionRecord → ℕ → ℕ → ℕ → ℕ
search_from zero records target i j = i
search_from (suc fuel) records target i j = elim (ltb i j) [
  | false ↦ i
  | true ↦ elim (ltb (order_at records ((i + j) / 2)) target) [
    | true ↦ search_from fuel records target ((i + j) / 2 + 1) j
    | false ↦ search_from fuel records target i ((i + j) / 2)
  ]
]

abbrev exact : ℕ → Option ExecutionRecord → Option ExecutionRecord
exact target none = none
exact target (some r) = if r.order == target then some r else none

unfoldable pub search_record : List ExecutionRecord → ℕ → Option ExecutionRecord
unfolding search_from
search_record records target =
    exact target
      (get_elem? records (search_from (suc (length records)) records target 0 (length records)))

-- The specification: the first record of the rule.
abbrev pub find_record : List ExecutionRecord → ℕ → Option ExecutionRecord
find_record [] target = none
find_record (r ∷ rs) target = if r.order == target then some r else find_record rs target

-- The first `i` records are below the target; the record at `j` is not.
abbrev Below : ℕ → ℕ → List ExecutionRecord → Type 0
Below target zero rs = Unit
Below target (suc i) [] = Unit
Below target (suc i) (r ∷ rs) = (r.order < target) × Below target i rs

abbrev From : ℕ → ℕ → List ExecutionRecord → Type 0
From target j [] = Unit
From target zero (r ∷ rs) = target ≤ r.order
From target (suc j) (r ∷ rs) = From target j rs

Ascends-le :
    (lo : ℕ) (rs : List ExecutionRecord) (h : ℕ) {r : ExecutionRecord}
    → Ascends lo rs
    → get_elem? rs h ≡ some r
    → lo ≤ r.order
Ascends-le lo [] h a e = cc
Ascends-le lo (q ∷ rs) zero a e = ground arith
Ascends-le lo (q ∷ rs) (suc h) a e = omega (arith, Ascends-le (q.order + 1) rs h a.1 e)

Below-of :
    (target lo : ℕ) (rs : List ExecutionRecord) (h : ℕ) {r : ExecutionRecord}
    → Ascends lo rs
    → get_elem? rs h ≡ some r
    → r.order < target
    → Below target (suc h) rs
Below-of target lo [] h a e below = tt
Below-of target lo (q ∷ rs) zero a e below = (ground arith, tt)
Below-of target lo (q ∷ rs) (suc h) a e below = (
  omega (arith, Ascends-le (q.order + 1) rs h a.1 e),
  Below-of target (q.order + 1) rs h a.1 e below,
)

From-of :
    (target : ℕ) (rs : List ExecutionRecord) (h : ℕ) {r : ExecutionRecord}
    → get_elem? rs h ≡ some r
    → target ≤ r.order
    → From target h rs
From-of target [] h e le = tt
From-of target (q ∷ rs) zero e le = ground arith
From-of target (q ∷ rs) (suc h) e le = From-of target rs h e le

From-length : (target : ℕ) (rs : List ExecutionRecord) → From target (length rs) rs
From-length target [] = tt
From-length target (r ∷ rs) = From-length target rs

module _ (target : ℕ) (records : List ExecutionRecord) (ascends : Ascends 0 records) where
  search_from_lem :
      (fuel i j : ℕ)
      → j - i < fuel
      → i ≤ j
      → j ≤ length records
      → Below target i records
      → From target j records
      → Below target (search_from fuel records target i j) records
        × From target (search_from fuel records target i j) records
  unfolding search_from
  search_from_lem zero i j enough le inside below from = absurd (omega arith)
  search_from_lem (suc fuel) i j enough le inside below from = elim (Bool-cases (ltb i j)) [
    | inr e ↦ rw (e, search_from) (below, subst (λ k. From target k records) (ground arith) from)
    | inl e ↦
        let (r, has) = get_elem?-some records ((i + j) / 2) (ground arith) in
        let at : order_at records ((i + j) / 2) ≡ r.order =
          order_at-some records ((i + j) / 2) r has in
        elim (Bool-cases (ltb (order_at records ((i + j) / 2)) target)) [
          | inl low ↦
              let next : suc ((i + j) / 2) ≡ (i + j) / 2 + 1 = omega arith in
              rw (e, low, search_from)
                (search_from_lem fuel ((i + j) / 2 + 1) j (ground arith) (ground arith) inside
                  (subst (λ k. Below target k records) next
                    (Below-of target 0 records ((i + j) / 2) ascends has (ground arith)))
                  from)
          | inr high ↦
              rw (e, high, search_from)
                (search_from_lem fuel i ((i + j) / 2) (ground arith) (omega arith) (ground arith)
                  below (From-of target records ((i + j) / 2) has (ground arith)))
        ]
  ]

find_record-above :
    (target lo : ℕ) (rs : List ExecutionRecord)
    → target < lo
    → Ascends lo rs
    → find_record rs target ≡ none
find_record-above target lo [] h a = refl
find_record-above target lo (r ∷ rs) h a =
    ground (arith, find_record-above target (r.order + 1) rs (omega arith) a.1)

exact-find_record :
    (target lo p : ℕ) (rs : List ExecutionRecord)
    → Ascends lo rs
    → Below target p rs
    → From target p rs
    → exact target (get_elem? rs p) ≡ find_record rs target
exact-find_record target lo p [] a below from = refl
exact-find_record target lo zero (r ∷ rs) a below from = elim (Bool-cases (r.order == target)) [
  | inl e ↦ rw e
  | inr e ↦ rw e (sym (find_record-above target (r.order + 1) rs (ground arith) a.1))
]
exact-find_record target lo (suc p) (r ∷ rs) a below from =
    ground (arith, exact-find_record target (r.order + 1) p rs a.1 below.1 from)

-- On records in ascending order the binary search finds what a scan finds.
pub search_record-find_record :
    (records : List ExecutionRecord) (target : ℕ)
    → Ascends 0 records
    → search_record records target ≡ find_record records target
unfolding search_record
search_record-find_record records target a =
    let (below, from) =
      search_from_lem target records a (suc (length records)) 0 (length records) (omega arith)
        (omega arith) (omega arith) tt (From-length target records) in
    exact-find_record target 0 _ records a below from
