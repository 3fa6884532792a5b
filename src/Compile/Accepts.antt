-- ===== src/Compile/Accepts.antt =====
-- Which definitions compile (compile_internal.go): validation against an independent description.
pub mod Entries
pub mod Whole
use rulite.Base.{
  ℕ, suc, List, [], ◌∷◌, ◌++◌, ◌≡◌, refl, sym, ap, ◌∙◌, subst, Bool, true, false, not, ◌&&◌, ◌||◌,
  Option, none, some, is_some, lookup, insert, lookup-insert, bytes_eq, bytes_eq_iff, Bytes,
  Bool-cases, Option-cases, inl, inr, arith, if◌then◌else◌,
}
use rulite.Errors.{
  RuleId, GroupId, Err, wrapped, invalid_rule, invalid_condition, action_is_nil, condition_is_nil,
}
use rulite.Rule.{Rule, Group, Entry}
use rulite.Rule.Ids.{valid_rule_id}
use rulite.Compile.Validate.{
  ValidationIssue, Validation, Position, add_issue, check_rule_id, check_callback, check_group_id,
  validate_rule, validate_members, validate_entry, validate_from, no_validation, shown_id,
}

abbrev pub is_listed : Bytes → List Bytes → Bool
is_listed id [] = false
is_listed id (j ∷ js) = bytes_eq j id || is_listed id js

-- A name of the right form that is not among those seen before.
abbrev pub name_ok : List Bytes → Bytes → Bool
name_ok seen id = valid_rule_id id && not (is_listed id seen)

module _ {Host : Type 0} where
  -- A complete rule, under a good name.
  abbrev pub rule_ok : List Bytes → Rule Host → Bool
  rule_ok seen r = name_ok seen r.id && (is_some r.condition && is_some r.action)

  abbrev pub rules_ok : List Bytes → List (Rule Host) → Bool
  rules_ok seen [] = true
  rules_ok seen (r ∷ rs) = rule_ok seen r && rules_ok (r.id ∷ seen) rs

  abbrev pub groups_ok : List Bytes → List (Group Host) → Bool
  groups_ok seen [] = true
  groups_ok seen (g ∷ gs) = name_ok seen g.id && groups_ok (g.id ∷ seen) gs

abbrev pub is_clean : List ValidationIssue → Bool
is_clean [] = true
is_clean (_ ∷ _) = false

is_clean-snoc : (xs : List ValidationIssue) (x : ValidationIssue) → is_clean (xs ++ x ∷ []) ≡ false
is_clean-snoc [] x = refl
is_clean-snoc (y ∷ xs) x = refl

-- The map has the names of the list.
abbrev Knows : List (Bytes × ℕ) → List Bytes → Type 0
Knows m seen = (k : Bytes) → is_some (lookup k m) ≡ is_listed k seen

abbrev pub Agrees : Validation → List Bytes → List Bytes → Type 0
Agrees v seen groups = Knows v.by_id seen × Knows v.by_group_id groups

-- What a check does to the pass: if it holds, nothing but the new names; else an issue.
abbrev pub Checks : Bool → Validation → Validation → List Bytes → List Bytes → Type 0
Checks true v v' seen groups = (is_clean v'.issues ≡ is_clean v.issues) × Agrees v' seen groups
Checks false v v' seen groups = is_clean v'.issues ≡ false

abbrev pub Soils : Validation → Validation → Type 0
Soils v v' = is_clean v.issues ≡ false → is_clean v'.issues ≡ false

pub Checks-and :
    (a b : Bool) (v v' v'' : Validation) (seen seen' groups groups' : List Bytes)
    → Checks a v v' seen groups
    → Soils v' v''
    → (Agrees v' seen groups → Checks b v' v'' seen' groups')
    → Checks (a && b) v v'' seen' groups'
Checks-and false b v v' v'' seen seen' groups groups' h soils k = soils h
Checks-and true true v v' v'' seen seen' groups groups' h soils k = ((k h.1).0 ∙ h.0, (k h.1).1)
Checks-and true false v v' v'' seen seen' groups groups' h soils k = k h.1

Knows-insert :
    (m : List (Bytes × ℕ)) (seen : List Bytes) (id : Bytes) (n : ℕ)
    → Knows m seen
    → Knows (insert id n m) (id ∷ seen)
Knows-insert m seen id n h k = elim (Bool-cases (bytes_eq id k)) [
  | inl e ↦ rw (lookup-insert id k n m, e) refl
  | inr e ↦ rw (lookup-insert id k n m, e) (h k)
]

pub check_rule_id-Checks :
    (at : Position) (id : RuleId) (v : Validation) (seen groups : List Bytes)
    → Agrees v seen groups
    → Checks (name_ok seen id) v (check_rule_id at id v) (id ∷ seen) groups
unfolding check_rule_id
check_rule_id-Checks at id v seen groups h = elim (Bool-cases (valid_rule_id id)) [
  | inr bad ↦ rw (bad, check_rule_id) (is_clean-snoc v.issues _)
  | inl good ↦ elim (Option-cases (lookup id v.by_id)) [
    | inl fresh ↦
        let new : is_listed id seen ≡ false = sym (h.0 id) ∙ ap is_some fresh in
        rw (good, fresh, new, check_rule_id)
          (refl, (Knows-insert v.by_id seen id at.index h.0, h.1))
    | inr (first, known) ↦
        let old : is_listed id seen ≡ true = sym (h.0 id) ∙ ap is_some known in
        rw (good, known, old, check_rule_id) (is_clean-snoc v.issues _)
  ]
]

pub check_group_id-Checks :
    (index : ℕ) (id : GroupId) (v : Validation) (seen groups : List Bytes)
    → Agrees v seen groups
    → Checks (name_ok groups id) v (check_group_id index id v) seen (id ∷ groups)
unfolding check_group_id
check_group_id-Checks index id v seen groups h = elim (Bool-cases (valid_rule_id id)) [
  | inr bad ↦ rw (bad, check_group_id) (is_clean-snoc v.issues _)
  | inl good ↦ elim (Option-cases (lookup id v.by_group_id)) [
    | inl fresh ↦
        let new : is_listed id groups ≡ false = sym (h.1 id) ∙ ap is_some fresh in
        rw (good, fresh, new, check_group_id)
          (refl, (h.0, Knows-insert v.by_group_id groups id index h.1))
    | inr (first, known) ↦
        let old : is_listed id groups ≡ true = sym (h.1 id) ∙ ap is_some known in
        rw (good, known, old, check_group_id) (is_clean-snoc v.issues _)
  ]
]

pub check_callback-Checks {ℓ} :
    {A : Type ℓ} (at : Position) (id : RuleId) (callback : Option A) (cause : Err) (v : Validation)
    (seen groups : List Bytes)
    → Agrees v seen groups
    → Checks (is_some callback) v (check_callback at id callback cause v) seen groups
check_callback-Checks at id (some f) cause v seen groups h = (refl, h)
check_callback-Checks at id none cause v seen groups h = is_clean-snoc v.issues _

pub check_callback-Soils {ℓ} :
    {A : Type ℓ} (at : Position) (id : RuleId) (callback : Option A) (cause : Err) (v : Validation)
    → Soils v (check_callback at id callback cause v)
check_callback-Soils at id (some f) cause v h = h
check_callback-Soils at id none cause v h = is_clean-snoc v.issues _

pub check_rule_id-Soils :
    (at : Position) (id : RuleId) (v : Validation) → Soils v (check_rule_id at id v)
unfolding check_rule_id
check_rule_id-Soils at id v h = elim (Bool-cases (valid_rule_id id)) [
  | inr bad ↦ rw (bad, check_rule_id) (is_clean-snoc v.issues _)
  | inl good ↦ elim (Option-cases (lookup id v.by_id)) [
    | inl fresh ↦ rw (good, fresh, check_rule_id) h
    | inr (first, known) ↦ rw (good, known, check_rule_id) (is_clean-snoc v.issues _)
  ]
]

pub check_group_id-Soils :
    (index : ℕ) (id : GroupId) (v : Validation) → Soils v (check_group_id index id v)
unfolding check_group_id
check_group_id-Soils index id v h = elim (Bool-cases (valid_rule_id id)) [
  | inr bad ↦ rw (bad, check_group_id) (is_clean-snoc v.issues _)
  | inl good ↦ elim (Option-cases (lookup id v.by_group_id)) [
    | inl fresh ↦ rw (good, fresh, check_group_id) h
    | inr (first, known) ↦ rw (good, known, check_group_id) (is_clean-snoc v.issues _)
  ]
]
