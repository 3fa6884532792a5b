-- ===== src/Dynamic/Schema/Ends.antt =====
-- The depth that the search through parameter types (dynamic/params.go) reaches.
use rulite.Base.{
  ℕ, zero, suc, ◌+◌, ◌≤◌, ◌<◌, List, [], ◌∷◌, ◌≢◌, sym, subst, none, some, Option-cases, Bool-cases,
  inl, inr, Bytes, length, ltb, arith,
}
use rulite.Dynamic.Failure.{out_of_fuel}
use rulite.Dynamic.Schema.Closed.{and_then-some}
use rulite.Dynamic.Schema.{
  Kind, pointer_kind, slice_kind, map_kind, struct_kind, scalar_kind, other_kind, TypeId, Field,
  ReflectType, Reflection, Visited, Checked, Check, member, refusal, is_skipped, label,
  field_refusal, and_then, check_unless, check_fields, is_string_kind, check_kind,
  validate_param_type,
}

abbrev Ends : Checked → Type 0
Ends c = c.error ≢ some out_of_fuel

and_then-Ends :
    (c : Checked) (next : Visited → Checked)
    → Ends c
    → ((v : Visited) → Ends (next v))
    → Ends (and_then c next)
and_then-Ends c next h k = elim (Option-cases c.error) [
  | inl e ↦ rw e (k c.visited)
  | inr (d, e) ↦ subst Ends (sym (and_then-some c next d e)) h
]

check_unless-Ends :
    (names : List Bytes) (f : Field) (v : Visited) (c : Checked)
    → Ends c
    → Ends (check_unless (field_refusal names f) v c)
check_unless-Ends names f v c h = ground (arith, h)

check_fields-Ends :
    (check : Check) (names : List Bytes) (fs : List Field) (v : Visited)
    → ((t : TypeId) (w : Visited) → Ends (check t w))
    → Ends (check_fields check names fs v)
unfolding check_fields
check_fields-Ends check names [] v h = ground arith
check_fields-Ends check names (f ∷ fs) v h = elim (Bool-cases f.anonymous) [
  | inl e ↦ rw e (ground arith)
  | inr e ↦ elim (Bool-cases (is_skipped f)) [
    | inl s ↦ rw (e, s) (check_fields-Ends check names fs v h)
    | inr s ↦
        rw (e, s)
          (check_unless-Ends names f v _ (
            and_then-Ends (check f.field_type v) (check_fields check (label f ∷ names) fs)
              (h f.field_type v) (λ w. check_fields-Ends check (label f ∷ names) fs w h)))
  ]
]

check_kind-Ends :
    (r : Reflection) (check : Check) (info : ReflectType) (kind : Kind) (v : Visited)
    → ((t : TypeId) (w : Visited) → Ends (check t w))
    → Ends (check_kind r check info kind v)
unfolding check_kind
check_kind-Ends r check info (scalar_kind _) v h = ground arith
check_kind-Ends r check info (other_kind _) v h = ground arith
check_kind-Ends r check info pointer_kind v h = h info.elem_type v
check_kind-Ends r check info slice_kind v h = h info.elem_type v
check_kind-Ends r check info map_kind v h =
    elim (Bool-cases (is_string_kind (r.types info.key).kind)) [
      | inl e ↦ rw e (
          and_then-Ends (check info.key v) (check info.elem_type) (h info.key v) (h info.elem_type))
      | inr e ↦ rw e (ground arith)
    ]
check_kind-Ends r check info struct_kind v h = elim (Bool-cases (ltb 64 (length info.fields))) [
  | inl e ↦ rw e (ground arith)
  | inr e ↦ rw e (check_fields-Ends check [] info.fields v h)
]

refusal-deep :
    (r : Reflection) (t : TypeId) (depth : ℕ) (v : Visited)
    → 16 < depth
    → refusal r t depth v ≢ none
unfolding refusal
refusal-deep r t depth v h = ground arith

refusal-ends :
    (r : Reflection) (t : TypeId) (depth : ℕ) (v : Visited) → refusal r t depth v ≢ some out_of_fuel
unfolding refusal
refusal-ends r t depth v = ground arith

-- The search ends for every program's types, those that lead back to themselves included: it goes
-- no deeper than level 17, where the limit refuses.
pub validate_param_type-ends :
    (r : Reflection) (fuel : ℕ) (t : TypeId) (depth : ℕ) (v : Visited)
    → depth ≤ 17
    → 17 < depth + fuel
    → (validate_param_type r fuel t depth v).error ≢ some out_of_fuel
unfolding validate_param_type
validate_param_type-ends r zero t depth v h k = absurd (omega arith)
validate_param_type-ends r (suc fuel) t depth v h k = elim (Option-cases (refusal r t depth v)) [
  | inr (d, e) ↦ rw (e, validate_param_type) (ground (arith, refusal-ends r t depth v))
  | inl e ↦
      let shallow : depth ≤ 16 = ground (arith, refusal-deep r t depth v) in
      elim (Bool-cases (member t v.seen)) [
        | inl known ↦ rw (e, known, validate_param_type) (ground arith)
        | inr fresh ↦
            rw (e, fresh, validate_param_type)
              (check_kind-Ends r (λ u w. validate_param_type r fuel u (suc depth) w) (r.types t)
                (r.types t).kind _
                (λ u w.
                  validate_param_type-ends r fuel u (suc depth) w (omega arith) (omega arith)))
      ]
]
