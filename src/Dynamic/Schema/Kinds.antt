-- ===== src/Dynamic/Schema/Kinds.antt =====
-- Fields and kinds in the search through parameter types (dynamic/params.go).
use rulite.Base.{
  List, [], ◌∷◌, ◌≡◌, ◌≤◌, refl, sym, ◌∙◌, subst, true, false, none, Bool-cases, inl, inr, Bytes,
  length, All, arith,
}
use rulite.Dynamic.Schema.{
  Kind, pointer_kind, slice_kind, map_kind, struct_kind, scalar_kind, other_kind, Field,
  ReflectType, Reflection, Visited, Checked, Check, member, is_skipped, label, field_refusal,
  and_then, check_unless, check_fields, is_string_kind, check_kind,
}
use rulite.Dynamic.Schema.Closed.{
  field_types, parts_of, FieldFits, Shaped, IsSearched, Extends, IsCheck, Extends-refl,
  Extends-trans, and_then-none, check_unless-none, field_refusal-none, FindsAll,
}

check_fields-skipped :
    (check : Check) (names : List Bytes) (f : Field) (fs : List Field) (v : Visited)
    → f.anonymous ≡ false
    → is_skipped f ≡ true
    → check_fields check names (f ∷ fs) v ≡ check_fields check names fs v
unfolding check_fields
check_fields-skipped check names f fs v named skipped = rw (named, skipped) refl

abbrev check_decoded : Check → List Bytes → Field → List Field → Visited → Checked
check_decoded check names f fs v =
    check_unless (field_refusal names f) v
      (and_then (check f.field_type v) (check_fields check (label f ∷ names) fs))

check_fields-decoded :
    (check : Check) (names : List Bytes) (f : Field) (fs : List Field) (v : Visited)
    → f.anonymous ≡ false
    → is_skipped f ≡ false
    → check_fields check names (f ∷ fs) v ≡ check_decoded check names f fs v
unfolding check_fields
check_fields-decoded check names f fs v named skipped = rw (named, skipped) refl

check_fields-named :
    (check : Check) (names : List Bytes) (f : Field) (fs : List Field) (v : Visited)
    → (check_fields check names (f ∷ fs) v).error ≡ none
    → f.anonymous ≡ false
unfolding check_fields
check_fields-named check names f fs v e = elim (Bool-cases f.anonymous) [
  | inl anonymous ↦ ground (arith, anonymous)
  | inr named ↦ named
]

abbrev pub Errorless : Checked → Type 0
Errorless c = c.error ≡ none

-- The loop over the fields, of which `c` is the outcome.
abbrev FieldsFind : Reflection → List Field → Visited → Checked → Type 0
FieldsFind r fs v c = FindsAll r (field_types fs) v c × All FieldFits fs

FieldsFind-skipped :
    (r : Reflection) (f : Field) (fs : List Field) (v : Visited) (c : Checked)
    → f.anonymous ≡ false
    → is_skipped f ≡ true
    → FieldsFind r fs v c
    → FieldsFind r (f ∷ fs) v c
FieldsFind-skipped r f fs v c named skipped (found, fit) =
    (rw skipped found, ((named, inl skipped), fit))

FieldsFind-decoded :
    (r : Reflection) (f : Field) (fs : List Field) (v w : Visited) (c : Checked)
    → FieldFits f
    → is_skipped f ≡ false
    → Extends r v w × (member f.field_type w.seen ≡ true)
    → FieldsFind r fs w c
    → FieldsFind r (f ∷ fs) v c
FieldsFind-decoded r f fs v w c fits decoded (first, seen) ((later, found), fit) = (
  rw decoded (Extends-trans r v w c.visited first later, (later.still_seen _ seen, found)),
  (fits, fit),
)

check_fields-FieldsFind :
    (r : Reflection) (check : Check) (names : List Bytes) (fs : List Field) (v : Visited)
    → IsCheck r check
    → IsSearched r v
    → Errorless (check_fields check names fs v)
    → FieldsFind r fs v (check_fields check names fs v)
unfolding check_fields
check_fields-FieldsFind r check names [] v good h e = ((Extends-refl r v h, tt), tt)
check_fields-FieldsFind r check names (f ∷ fs) v good h e =
    let named = check_fields-named check names f fs v e in
    elim (Bool-cases (is_skipped f)) [
      | inl skipped ↦
          let same = check_fields-skipped check names f fs v named skipped in
          subst (FieldsFind r (f ∷ fs) v) (sym same) (
            FieldsFind-skipped r f fs v (check_fields check names fs v) named skipped
              (check_fields-FieldsFind r check names fs v good h (subst Errorless same e)))
      | inr decoded ↦
          let same = check_fields-decoded check names f fs v named decoded in
          let (fits, runs) =
            check_unless-none (field_refusal names f) v _ (subst Errorless same e) in
          let (passes, goes) =
            and_then-none (check f.field_type v) (check_fields check (label f ∷ names) fs)
              (subst Errorless (same ∙ runs) e) in
          let first = good f.field_type v h passes in
          subst (FieldsFind r (f ∷ fs) v) (sym (same ∙ runs ∙ goes)) (
            FieldsFind-decoded r f fs v (check f.field_type v).visited
              (check_fields check (label f ∷ names) fs (check f.field_type v).visited)
              (named, inr (field_refusal-none names f fits)) decoded first
              (check_fields-FieldsFind r check (label f ∷ names) fs (check f.field_type v).visited
                good first.0.searched (subst Errorless (same ∙ runs ∙ goes) e)))
    ]

-- The `switch`, of which `c` is the outcome.
abbrev KindFinds : Reflection → ReflectType → Kind → Visited → Checked → Type 0
KindFinds r info kind v c = FindsAll r (parts_of info kind) v c × Shaped r info kind

check_map-KindFinds :
    (r : Reflection) (check : Check) (info : ReflectType) (v : Visited)
    → IsCheck r check
    → IsSearched r v
    → is_string_kind (r.types info.key).kind ≡ true
    → Errorless (and_then (check info.key v) (check info.elem_type))
    → KindFinds r info map_kind v (and_then (check info.key v) (check info.elem_type))
check_map-KindFinds r check info v good h named e =
    let (passes, goes) = and_then-none (check info.key v) (check info.elem_type) e in
    let (first, key_seen) = good info.key v h passes in
    let w = (check info.key v).visited in
    let (later, elem_seen) = good info.elem_type w first.searched (subst Errorless goes e) in
    subst (KindFinds r info map_kind v) (sym goes) (
      (
        Extends-trans r v w (check info.elem_type w).visited first later,
        (later.still_seen _ key_seen, (elem_seen, tt)),
      ),
      named,
    )

check_kind-map :
    (r : Reflection) (check : Check) (info : ReflectType) (v : Visited)
    → is_string_kind (r.types info.key).kind ≡ true
    → check_kind r check info map_kind v ≡ and_then (check info.key v) (check info.elem_type)
unfolding check_kind
check_kind-map r check info v named = rw named refl

check_kind-struct :
    (r : Reflection) (check : Check) (info : ReflectType) (v : Visited)
    → length info.fields ≤ 64
    → check_kind r check info struct_kind v ≡ check_fields check [] info.fields v
unfolding check_kind
check_kind-struct r check info v few = ground arith

string_key :
    (r : Reflection) (check : Check) (info : ReflectType) (v : Visited)
    → Errorless (check_kind r check info map_kind v)
    → is_string_kind (r.types info.key).kind ≡ true
unfolding check_kind
string_key r check info v e = elim (Bool-cases (is_string_kind (r.types info.key).kind)) [
  | inl named ↦ named
  | inr other ↦ ground (arith, other)
]

few_fields :
    (r : Reflection) (check : Check) (info : ReflectType) (v : Visited)
    → Errorless (check_kind r check info struct_kind v)
    → length info.fields ≤ 64
unfolding check_kind
few_fields r check info v e = ground arith

pub check_kind-KindFinds :
    (r : Reflection) (check : Check) (info : ReflectType) (kind : Kind) (v : Visited)
    → IsCheck r check
    → IsSearched r v
    → Errorless (check_kind r check info kind v)
    → KindFinds r info kind v (check_kind r check info kind v)
unfolding check_kind
check_kind-KindFinds r check info (scalar_kind _) v good h e = ((Extends-refl r v h, tt), tt)
check_kind-KindFinds r check info (other_kind _) v good h e = ground arith
check_kind-KindFinds r check info pointer_kind v good h e =
    let (later, seen) = good info.elem_type v h e in ((later, (seen, tt)), tt)
check_kind-KindFinds r check info slice_kind v good h e =
    let (later, seen) = good info.elem_type v h e in ((later, (seen, tt)), tt)
check_kind-KindFinds r check info map_kind v good h e =
    let named = string_key r check info v e in
    let same = check_kind-map r check info v named in
    subst (KindFinds r info map_kind v) (sym same)
      (check_map-KindFinds r check info v good h named (subst Errorless same e))
check_kind-KindFinds r check info struct_kind v good h e =
    let few = few_fields r check info v e in
    let same = check_kind-struct r check info v few in
    let (found, fit) =
      check_fields-FieldsFind r check [] info.fields v good h (subst Errorless same e) in
    subst (KindFinds r info struct_kind v) (sym same) (found, (few, fit))
