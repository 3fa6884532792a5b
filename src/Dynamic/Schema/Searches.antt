-- ===== src/Dynamic/Schema/Searches.antt =====
-- The whole search through parameter types (dynamic/params.go).
use rulite.Base.{
  ℕ, zero, suc, List, [], ◌∷◌, ◌≡◌, refl, sym, ap, ◌∙◌, subst, true, false, none, Option-cases,
  Bool-cases, inl, inr, ◌⊎◌, All, All-map, arith,
}
use rulite.Dynamic.Schema.{
  TypeId, Reflection, Visited, Checked, Check, member, delete, refusal, check_kind, entered,
  left_type, validate_param_type,
}
use rulite.Dynamic.Schema.Closed.{
  parts_of, IsPlain, AllSeen, IsSearched, Extends, Finds, IsCheck, Extends-refl, refusal-none,
  FindsAll,
}
use rulite.Dynamic.Schema.Kinds.{Errorless, check_kind-KindFinds}

delete-head : (t : TypeId) (us : List TypeId) → delete t (t ∷ us) ≡ us
delete-head t us = ground arith

member-here : (t : TypeId) (us : List TypeId) → member t (t ∷ us) ≡ true
member-here t us = ground arith

member-later : (t u : TypeId) (us : List TypeId) → member t us ≡ true → member t (u ∷ us) ≡ true
member-later t u us h = ground arith

member-cons :
    (t u : TypeId) (us : List TypeId) → member u (t ∷ us) ≡ true → (t ≡ u) ⊎ (member u us ≡ true)
member-cons t u us h = ground arith

-- Known of a type, with the seen types.
abbrev IsKnown : Reflection → List TypeId → TypeId → Type 0
IsKnown r seen t = IsPlain r t × AllSeen seen (parts_of (r.types t) (r.types t).kind)

-- A type leaves the path when its parts are seen.
off_path :
    (r : Reflection) (t u : TypeId) (active path seen : List TypeId)
    → active ≡ t ∷ path
    → IsKnown r seen t
    → (member u active ≡ true) ⊎ IsKnown r seen u
    → (member u path ≡ true) ⊎ IsKnown r seen u
off_path r t u active path seen same known (inr k) = inr k
off_path r t u active path seen same known (inl on) =
    elim (member-cons t u path (subst (λ us. member u us ≡ true) same on)) [
      | inl here ↦ inr (subst (IsKnown r seen) here known)
      | inr later ↦ inl later
    ]

-- Behind a type that was entered, its parts and its kind are known: the path is as before.
left_type-Extends :
    (r : Reflection) (t : TypeId) (v : Visited) (c : Checked)
    → IsPlain r t
    → FindsAll r (parts_of (r.types t) (r.types t).kind) (entered t v) c
    → Extends r v (left_type t c).visited × (member t (left_type t c).visited.seen ≡ true)
left_type-Extends r t v c plain (later, found) =
    let path = ap (delete t) later.same_path ∙ delete-head t v.active in
    (
      record {
        same_path = path;
        still_seen = λ u e. later.still_seen u (member-later u t v.seen e);
        searched = λ u e.
            subst (λ us. (member u us ≡ true) ⊎ IsKnown r c.visited.seen u) (sym path)
              (off_path r t u c.visited.active v.active c.visited.seen later.same_path
                (plain, found) (later.searched u e));
      },
      later.still_seen t (member-here t v.seen),
    )

entered-IsSearched :
    (r : Reflection) (t : TypeId) (v : Visited) → IsSearched r v → IsSearched r (entered t v)
entered-IsSearched r t v h u e = elim (member-cons t u v.seen e) [
  | inl here ↦ inl (subst (λ x. member x (t ∷ v.active) ≡ true) here (member-here t v.active))
  | inr later ↦ elim (h u later) [
    | inl on ↦ inl (member-later u t v.active on)
    | inr (plain, parts) ↦ inr (plain, All-map (λ x. member-later x t v.seen) _ parts)
  ]
]

-- The outcome of a call, by the branches of its body.
abbrev check_inside : Reflection → Check → TypeId → Visited → Checked
check_inside r check t v =
    left_type t (check_kind r check (r.types t) (r.types t).kind (entered t v))

validate_param_type-refused :
    (r : Reflection) (fuel : ℕ) (t : TypeId) (depth : ℕ) (v : Visited)
    → Errorless (validate_param_type r (suc fuel) t depth v)
    → refusal r t depth v ≡ none
unfolding validate_param_type
validate_param_type-refused r fuel t depth v e = elim (Option-cases (refusal r t depth v)) [
  | inl free ↦ free
  | inr (d, stop) ↦ ground (arith, stop)
]

validate_param_type-inside :
    (r : Reflection) (fuel : ℕ) (t : TypeId) (depth : ℕ) (v : Visited)
    → refusal r t depth v ≡ none
    → member t v.seen ≡ false
    → validate_param_type r (suc fuel) t depth v
      ≡ check_inside r (λ u w. validate_param_type r fuel u (suc depth) w) t v
unfolding validate_param_type
validate_param_type-inside r fuel t depth v free fresh = rw (free, fresh, validate_param_type) refl

validate_param_type-known :
    (r : Reflection) (fuel : ℕ) (t : TypeId) (depth : ℕ) (v : Visited)
    → refusal r t depth v ≡ none
    → member t v.seen ≡ true
    → (validate_param_type r (suc fuel) t depth v).visited ≡ v
unfolding validate_param_type
validate_param_type-known r fuel t depth v free known = rw (free, known, validate_param_type) refl

check_inside-Finds :
    (r : Reflection) (check : Check) (t : TypeId) (depth : ℕ) (v : Visited)
    → IsCheck r check
    → IsSearched r v
    → refusal r t depth v ≡ none
    → Finds r t v (check_inside r check t v)
check_inside-Finds r check t depth v good h free e =
    let (small, own, pointers, no_duration) = refusal-none r t depth v free in
    let (found, shaped) =
      check_kind-KindFinds r check (r.types t) (r.types t).kind (entered t v) good
        (entered-IsSearched r t v h) e in
    left_type-Extends r t v (check_kind r check (r.types t) (r.types t).kind (entered t v))
      (record {
        size = small;
        own_methods = own;
        pointer_methods = pointers;
        no_duration = no_duration;
        shaped = shaped;
      })
      found

validate_param_type-IsCheck :
    (r : Reflection) (fuel depth : ℕ) → IsCheck r (λ t v. validate_param_type r fuel t depth v)
unfolding validate_param_type
validate_param_type-IsCheck r zero depth t v h e = ground arith
validate_param_type-IsCheck r (suc fuel) depth t v h e =
    let free = validate_param_type-refused r fuel t depth v e in
    elim (Bool-cases (member t v.seen)) [
      | inl known ↦
          let same = validate_param_type-known r fuel t depth v free known in
          subst (λ w. Extends r v w × (member t w.seen ≡ true)) (sym same)
            (Extends-refl r v h, known)
      | inr fresh ↦
          let same = validate_param_type-inside r fuel t depth v free fresh in
          subst (λ c. Extends r v c.visited × (member t c.visited.seen ≡ true)) (sym same)
            (check_inside-Finds r (λ u w. validate_param_type r fuel u (suc depth) w) t depth v
              (validate_param_type-IsCheck r fuel (suc depth)) h free (subst Errorless same e))
    ]

-- The types that a type is built of, at any depth.
pub data Reaches (r : Reflection) : TypeId → TypeId → Type 0 where
  itself : (t : TypeId) → Reaches r t t
  through :
      (t u w : TypeId)
      → member u (parts_of (r.types t) (r.types t).kind) ≡ true
      → Reaches r u w
      → Reaches r t w

All-member :
    (P : TypeId → Type 0) (ts : List TypeId) (t : TypeId) → All P ts → member t ts ≡ true → P t
All-member P [] t h e = ground arith
All-member P (u ∷ us) t h e = elim (member-cons u t us e) [
  | inl same ↦ subst P same h.0
  | inr later ↦ All-member P us t h.1 later
]

seen-IsPlain :
    (r : Reflection) (v : Visited) (t w : TypeId)
    → IsSearched r v
    → v.active ≡ []
    → Reaches r t w
    → member t v.seen ≡ true
    → IsPlain r w
seen-IsPlain r v _ _ h idle (itself t) e = elim (h t e) [
  | inl on ↦ absurd (ground (arith, subst (λ us. member t us ≡ true) idle on))
  | inr (plain, parts) ↦ plain
]
seen-IsPlain r v _ _ h idle (through t u w part reach) e = elim (h t e) [
  | inl on ↦ absurd (ground (arith, subst (λ us. member t us ≡ true) idle on))
  | inr (plain, parts) ↦
      seen-IsPlain r v u w h idle reach (All-member (λ x. member x v.seen ≡ true) _ u parts part)
]

abbrev pub unvisited : Visited
unvisited = record { active = []; seen = [] }

-- A parameter type that is accepted is made of plain data only, at every depth: no type in it is
-- too large, decodes itself, is a duration or of a kind that JSON cannot fill, no struct embeds
-- another one or has a field under a bad name or with a foreign option, and map keys are strings.
pub validate_param_type-IsPlain :
    (r : Reflection) (fuel : ℕ) (t u : TypeId)
    → (validate_param_type r fuel t 0 unvisited).error ≡ none
    → Reaches r t u
    → IsPlain r u
validate_param_type-IsPlain r fuel t u e reach =
    let (later, seen) =
      validate_param_type-IsCheck r fuel 0 t unvisited (λ x k. ground (arith, k)) e in
    seen-IsPlain r _ t u later.searched later.same_path reach seen
