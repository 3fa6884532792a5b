-- ===== src/Dynamic/Schema.antt =====
-- `validateParamType` and `paramFieldName` (dynamic/params.go). What package reflect tells of the
-- program's types is a parameter: types are numbers, so that two of them can be compared, and a type
-- may lead back to itself.
pub mod Closed
pub mod Ends
pub mod Kinds
pub mod Searches
use rulite.Base.{
  ℕ, zero, suc, List, [], ◌∷◌, Bool, true, false, not, ◌&&◌, ◌||◌, Option, none, some, Bytes,
  bytes_eq, length, ltb, leb, ◌==◌, if◌then◌else◌,
}
use rulite.Base.Strings.{codes, cut_parts}
use rulite.Rule.{contains}
use rulite.Dynamic.Failure.{
  DynamicError, limit_exceeded, plain, recursive_schema, custom_decoding, duration_type, map_keys,
  embedded_field, field_name, field_option, unsupported_type, out_of_fuel,
}
use rulite.Dynamic.Json.{max_params_bytes}

-- The kinds that the `switch` lists together.
pub data ScalarKind : Type 0 where
  bool_kind string_kind : ScalarKind
  int_kind int8_kind int16_kind int32_kind int64_kind : ScalarKind
  uint_kind uint8_kind uint16_kind uint32_kind uint64_kind : ScalarKind
  float32_kind float64_kind : ScalarKind

-- Its `default`.
pub data OtherKind : Type 0 where
  uintptr_kind complex64_kind complex128_kind array_kind : OtherKind
  chan_kind func_kind interface_kind unsafe_pointer_kind : OtherKind

-- `reflect.Kind`
pub data Kind : Type 0 where
  scalar_kind : ScalarKind → Kind
  pointer_kind slice_kind map_kind struct_kind : Kind
  other_kind : OtherKind → Kind

abbrev pub TypeId : Type 0
TypeId = ℕ

-- `reflect.StructField`; `json` is `Tag.Get("json")`.
pub record Field : Type 0 where
  pub name : Bytes
  pub pkg_path : Bytes
  pub json : Bytes
  pub anonymous : Bool
  pub field_type : TypeId

-- What the code asks of a `reflect.Type`; the methods are by name, also those of a pointer to it.
pub record ReflectType : Type 0 where
  pub kind : Kind
  pub size : ℕ
  pub elem_type : TypeId
  pub key : TypeId
  pub fields : List Field
  pub methods : List Bytes
  pub pointer_methods : List Bytes

pub record Reflection : Type 0 where
  pub types : TypeId → ReflectType
  pub duration : TypeId

-- The maps `active` and `seen`, as the types that they hold.
pub record Visited : Type 0 where
  pub active : List TypeId
  pub seen : List TypeId

pub record Checked : Type 0 where
  pub error : Option DynamicError
  pub visited : Visited

abbrev pub Check : Type 0
Check = TypeId → Visited → Checked

abbrev pub member : TypeId → List TypeId → Bool
member t [] = false
member t (u ∷ us) = (u == t) || member t us

-- `delete(active, tp)`; the type is there once at most.
abbrev pub delete : TypeId → List TypeId → List TypeId
delete t [] = []
delete t (u ∷ us) = if u == t then us else u ∷ delete t us

abbrev pub passed : Visited → Checked
passed v = record { error = none; visited = v }

abbrev pub rejected : DynamicError → Visited → Checked
rejected e v = record { error = some e; visited = v }

abbrev pub has_decoder : List Bytes → Bool
has_decoder methods =
    contains (codes "UnmarshalJSON") methods
    || contains (codes "UnmarshalJSONFrom") methods
    || contains (codes "UnmarshalText") methods

-- The checks before a type is entered.
unfoldable pub refusal : Reflection → TypeId → ℕ → Visited → Option DynamicError
refusal r t depth v =
    let info = r.types t in
    if ltb 16 depth
      || ltb max_params_bytes info.size
      || (leb 128 (length v.seen) && not (member t v.seen))
    then some limit_exceeded
    else if member t v.active
    then some (plain recursive_schema)
    else if has_decoder info.methods || has_decoder info.pointer_methods
    then some (plain custom_decoding)
    else if t == r.duration
    then some (plain duration_type)
    else none

abbrev name_byte : Bool → ℕ → Bool
name_byte first c =
    (leb b'a' c && leb c b'z')
    || (leb b'A' c && leb c b'Z')
    || c == b'_'
    || (not first && leb b'0' c && leb c b'9')

abbrev name_bytes : Bool → Bytes → Bool
name_bytes first [] = true
name_bytes first (c ∷ s) = name_byte first c && name_bytes false s

unfoldable pub param_field_name : Bytes → Bool
param_field_name name = not (length name == 0) && leb (length name) 64 && name_bytes true name

abbrev pub is_skipped : Field → Bool
is_skipped f = not (bytes_eq f.pkg_path []) || bytes_eq f.json (codes "-")

-- The JSON name of a field: the first part of its tag, or its own name.
abbrev pub label : Field → Bytes
label f =
    let (first, options) = cut_parts b',' f.json in if bytes_eq first [] then f.name else first

abbrev pub field_options : Field → List Bytes
field_options f = let (first, options) = cut_parts b',' f.json in options

abbrev pub options_ok : List Bytes → Bool
options_ok [] = true
options_ok (o ∷ os) =
    (bytes_eq o (codes "omitempty") || bytes_eq o (codes "omitzero")) && options_ok os

-- What stops the loop at a field that is decoded, before its type is looked at.
abbrev pub field_refusal : List Bytes → Field → Option DynamicError
field_refusal names f =
    if not (param_field_name (label f)) || contains (label f) names
    then some (plain field_name)
    else if not (options_ok (field_options f))
    then some (plain field_option)
    else none

-- Goes on behind a check that has passed.
abbrev pub and_then : Checked → (Visited → Checked) → Checked
and_then c next = elim c.error [ none ↦ next c.visited | some e ↦ c ]

abbrev pub check_unless : Option DynamicError → Visited → Checked → Checked
check_unless none v next = next
check_unless (some e) v next = rejected e v

unfoldable pub check_fields : Check → List Bytes → List Field → Visited → Checked
check_fields check names [] v = passed v
check_fields check names (f ∷ fs) v =
    if f.anonymous
    then rejected (plain embedded_field) v
    else if is_skipped f
    then check_fields check names fs v
    else check_unless (field_refusal names f) v
        (and_then (check f.field_type v) (check_fields check (label f ∷ names) fs))

abbrev pub is_string_kind : Kind → Bool
is_string_kind (scalar_kind string_kind) = true
is_string_kind _ = false

-- The `switch`.
unfoldable pub check_kind : Reflection → Check → ReflectType → Kind → Visited → Checked
unfolding check_fields
check_kind r check info pointer_kind v = check info.elem_type v
check_kind r check info slice_kind v = check info.elem_type v
check_kind r check info map_kind v =
    if is_string_kind (r.types info.key).kind
    then and_then (check info.key v) (check info.elem_type)
    else rejected (plain map_keys) v
check_kind r check info struct_kind v =
    if ltb 64 (length info.fields)
    then rejected limit_exceeded v
    else check_fields check [] info.fields v
check_kind r check info (scalar_kind _) v = passed v
check_kind r check info (other_kind _) v = rejected (plain unsupported_type) v

abbrev pub entered : TypeId → Visited → Visited
entered t v = record { active = t ∷ v.active; seen = t ∷ v.seen }

abbrev pub left_type : TypeId → Checked → Checked
left_type t c = record c { visited = record c.visited { active = delete t c.visited.active } }

unfoldable pub validate_param_type : Reflection → ℕ → TypeId → ℕ → Visited → Checked
unfolding check_kind refusal
validate_param_type r zero t depth v = rejected out_of_fuel v
validate_param_type r (suc fuel) t depth v = elim (refusal r t depth v) [
  | some e ↦ rejected e v
  | none ↦ elim (member t v.seen) [
    | true ↦ passed v
    | false ↦ left_type t (
        check_kind r (λ u w. validate_param_type r fuel u (suc depth) w) (r.types t)
          (r.types t).kind (entered t v))
  ]
]
