-- ===== src/Compile/Order.antt =====
-- The execution order of a compiled set: descending priority, registration order among equals
-- (compile_internal.go).
use mathlib.Core.List.{Permᴰ}
use rulite.Base.{ℕ, suc, ◌<◌, List, [], ◌∷◌, map, All, arith}
use rulite.Base.Int.{pos}
use rulite.Base.Sorting.{sort_stable-perm, sort_stable-Ordered, Ordered, Placed}
use rulite.Rule.{Rule, Entry, entry_priority}
use rulite.Ledger.{GroupMetadata}
use rulite.Compile.Layout.{
  indexed, entry_runs_before, execution_order, placed_members, rule_runs_before, member_metadata,
}

All-indexed {ℓ} :
    {A : Type ℓ} (lo i : ℕ) (xs : List A) → lo < i → All (λ p. lo < p.0) (indexed i xs)
All-indexed lo i [] h = tt
All-indexed lo i (x ∷ xs) h = (h, All-indexed lo (suc i) xs (omega arith))

Placed-indexed {ℓ} :
    {A : Type ℓ} (i : ℕ) (xs : List A) → Placed (λ p. p.0) (λ p. pos 0) (indexed i xs)
Placed-indexed i [] = tt
Placed-indexed i (x ∷ xs) = (All-indexed i (suc i) xs (omega arith), Placed-indexed (suc i) xs)

module _ {Host : Type 0} where
  -- The definitions are executed by descending priority, those of one priority in the order of their
  -- registration, and each of them exactly once.
  pub execution_order-Ordered :
      (definitions : List (Entry Host))
      → Ordered (λ p. p.0) (λ p. entry_priority p.1) (execution_order definitions)
        × Permᴰ (execution_order definitions) (indexed 0 definitions)
  execution_order-Ordered definitions = (
    sort_stable-Ordered (λ p. p.0) (λ p. entry_priority p.1) (indexed 0 definitions)
        (Placed-indexed 0 definitions),
    sort_stable-perm entry_runs_before (indexed 0 definitions),
  )

  All-members :
      (group : GroupMetadata) (lo i : ℕ) (members : List (Rule Host))
      → lo < i
      → All (λ m. lo < m.member_index) (map (member_metadata group) (indexed i members))
  All-members group lo i [] h = tt
  All-members group lo i (m ∷ ms) h = (h, All-members group lo (suc i) ms (omega arith))

  Placed-members :
      (group : GroupMetadata) (i : ℕ) (members : List (Rule Host))
      → Placed
          (λ m. m.member_index)
          (λ m. m.priority)
          (map (member_metadata group) (indexed i members))
  Placed-members group i [] = tt
  Placed-members group i (m ∷ ms) =
      (All-members group i (suc i) ms (omega arith), Placed-members group (suc i) ms)

  -- The members of a group keep to the same order among themselves.
  pub placed_members-Ordered :
      (group : GroupMetadata) (members : List (Rule Host))
      → Ordered (λ m. m.member_index) (λ m. m.priority) (placed_members group members)
        × Permᴰ (placed_members group members) (map (member_metadata group) (indexed 0 members))
  unfolding placed_members
  placed_members-Ordered group members = (
    sort_stable-Ordered (λ m. m.member_index) (λ m. m.priority) _ (Placed-members group 0 members),
    sort_stable-perm rule_runs_before (map (member_metadata group) (indexed 0 members)),
  )
