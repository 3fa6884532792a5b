-- ===== src/Dynamic/Schema/Closed.antt =====
-- The search through parameter types (dynamic/params.go): what holds of the types that it has seen.
use rulite.Base.{
  ℕ, List, [], ◌∷◌, ◌≡◌, ◌≤◌, refl, sym, ap, ◌∙◌, true, false, Option, none, some, Option-cases,
  inl, inr, ◌⊎◌, Bytes, length, All, All-map, arith, ◌==◌, if◌then◌else◌,
}
use rulite.Dynamic.Failure.{DynamicError}
use rulite.Dynamic.Json.{max_params_bytes}
use rulite.Dynamic.Schema.{
  Kind, pointer_kind, slice_kind, map_kind, struct_kind, scalar_kind, other_kind, TypeId, Field,
  ReflectType, Reflection, Visited, Checked, Check, member, has_decoder, refusal, param_field_name,
  is_skipped, label, field_options, options_ok, field_refusal, and_then, check_unless,
  is_string_kind,
}

-- The types of the fields that are decoded.
abbrev pub field_types : List Field → List TypeId
field_types [] = []
field_types (f ∷ fs) = if is_skipped f then field_types fs else f.field_type ∷ field_types fs

-- The types that a type is made of.
abbrev pub parts_of : ReflectType → Kind → List TypeId
parts_of info pointer_kind = info.elem_type ∷ []
parts_of info slice_kind = info.elem_type ∷ []
parts_of info map_kind = info.key ∷ info.elem_type ∷ []
parts_of info struct_kind = field_types info.fields
parts_of info _ = []

abbrev pub FieldFits : Field → Type 0
FieldFits f =
    (f.anonymous ≡ false)
    × ((is_skipped f ≡ true)
        ⊎ ((param_field_name (label f) ≡ true) × (options_ok (field_options f) ≡ true)))

-- What the kind of a type asks of it, its parts left aside.
abbrev pub Shaped : Reflection → ReflectType → Kind → Type 0
Shaped r info pointer_kind = Unit
Shaped r info slice_kind = Unit
Shaped r info map_kind = is_string_kind (r.types info.key).kind ≡ true
Shaped r info struct_kind = (length info.fields ≤ 64) × All FieldFits info.fields
Shaped r info (scalar_kind _) = Unit
Shaped r info (other_kind _) = ⊥

-- A type of plain data, its parts left aside.
pub record IsPlain (r : Reflection) (t : TypeId) : Type 0 where
  pub size : (r.types t).size ≤ max_params_bytes
  pub own_methods : has_decoder (r.types t).methods ≡ false
  pub pointer_methods : has_decoder (r.types t).pointer_methods ≡ false
  pub no_duration : (t == r.duration) ≡ false
  pub shaped : Shaped r (r.types t) (r.types t).kind

abbrev pub AllSeen : List TypeId → List TypeId → Type 0
AllSeen seen ts = All (λ u. member u seen ≡ true) ts

-- Every seen type is on the path that the search is on, or it is plain and its parts are seen.
abbrev pub IsSearched : Reflection → Visited → Type 0
IsSearched r v =
    (t : TypeId)
    → member t v.seen ≡ true
    → (member t v.active ≡ true)
      ⊎ (IsPlain r t × AllSeen v.seen (parts_of (r.types t) (r.types t).kind))

-- Both lead from one state of the search to a later one.
pub record Extends (r : Reflection) (v w : Visited) : Type 0 where
  pub same_path : w.active ≡ v.active
  pub still_seen : (t : TypeId) → member t v.seen ≡ true → member t w.seen ≡ true
  pub searched : IsSearched r w

-- A check that passed has seen its type.
abbrev pub Finds : Reflection → TypeId → Visited → Checked → Type 0
Finds r t v c = c.error ≡ none → Extends r v c.visited × (member t c.visited.seen ≡ true)

abbrev pub IsCheck : Reflection → Check → Type 0
IsCheck r check = (t : TypeId) (v : Visited) → IsSearched r v → Finds r t v (check t v)

pub Extends-refl : (r : Reflection) (v : Visited) → IsSearched r v → Extends r v v
Extends-refl r v h = record { same_path = refl; still_seen = λ t e. e; searched = h }

pub Extends-trans :
    (r : Reflection) (u v w : Visited) → Extends r u v → Extends r v w → Extends r u w
Extends-trans r u v w h k = record {
  same_path = k.same_path ∙ h.same_path;
  still_seen = λ t e. k.still_seen t (h.still_seen t e);
  searched = k.searched;
}

AllSeen-later :
    (r : Reflection) (v w : Visited) (ts : List TypeId)
    → Extends r v w
    → AllSeen v.seen ts
    → AllSeen w.seen ts
AllSeen-later r v w ts h = All-map (h.still_seen) ts

pub and_then-some :
    (c : Checked) (next : Visited → Checked) (d : DynamicError)
    → c.error ≡ some d
    → and_then c next ≡ c
and_then-some c next d e = rw e refl

-- The second of two checks runs behind the first one.
pub and_then-none :
    (c : Checked) (next : Visited → Checked)
    → (and_then c next).error ≡ none
    → (c.error ≡ none) × (and_then c next ≡ next c.visited)
and_then-none c next h = elim (Option-cases c.error) [
  | inl e ↦ (e, rw e refl)
  | inr (d, e) ↦
      let same : c.error ≡ none =
        ap (λ (x : Checked). x.error) (sym (and_then-some c next d e)) ∙ h in
      absurd (ground arith)
]

pub check_unless-none :
    (o : Option DynamicError) (v : Visited) (next : Checked)
    → (check_unless o v next).error ≡ none
    → (o ≡ none) × (check_unless o v next ≡ next)
check_unless-none none v next h = (refl, refl)
check_unless-none (some e) v next h = ground arith

pub field_refusal-none :
    (names : List Bytes) (f : Field)
    → field_refusal names f ≡ none
    → (param_field_name (label f) ≡ true) × (options_ok (field_options f) ≡ true)
field_refusal-none names f h = ground arith

pub refusal-none :
    (r : Reflection) (t : TypeId) (depth : ℕ) (v : Visited)
    → refusal r t depth v ≡ none
    → ((r.types t).size ≤ max_params_bytes)
      × (has_decoder (r.types t).methods ≡ false)
      × (has_decoder (r.types t).pointer_methods ≡ false)
      × ((t == r.duration) ≡ false)
unfolding refusal
refusal-none r t depth v h = ground arith

-- What a passed check of all parts has found.
abbrev pub FindsAll : Reflection → List TypeId → Visited → Checked → Type 0
FindsAll r ts v c = Extends r v c.visited × AllSeen c.visited.seen ts
