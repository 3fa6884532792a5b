-- ===== src/Tests/Dynamic.antt =====
-- Concrete documents, types, registries and definitions of dynamic/, and the theorems applied to
-- them.
use rulite.Base.{
  if◌then◌else◌, ◌==◌, ℕ, zero, suc, List, [], ◌∷◌, ◌≡◌, ◌≢◌, ◌↔◌, ◌⊎◌, ◌+◌, ◌≤◌, refl, true, false,
  none, some, Bytes, length, arith,
}
use rulite.Base.Int.{pos}
use rulite.Base.Strings.{codes, decimal}
use rulite.World.{World, returned, Condition}
use rulite.Dynamic.Failure.{
  DynamicError, invalid_action, invalid_definition, limit_exceeded, joined, compile_error,
  validate_stage, error_text, ok, failed, out_of_fuel,
}
use rulite.Dynamic.Json.{
  Reading, token, end_of_input, Decoder, scan, unfinished, check_json, max_params_bytes,
}
use rulite.Dynamic.Json.Reads.{IsRest, check_json-IsRest, scan-ends}
use rulite.Dynamic.Pattern.{valid_action_name}
use rulite.Dynamic.Pattern.Names.{IsActionName, valid_action_name-IsActionName}
use rulite.Dynamic.Schema.{
  Field, ReflectType, Reflection, struct_kind, scalar_kind, string_kind, param_field_name,
  validate_param_type,
}
use rulite.Dynamic.Schema.Closed.{IsPlain}
use rulite.Dynamic.Schema.Searches.{unvisited, itself, through, validate_param_type-IsPlain}
use rulite.Dynamic.Schema.Ends.{validate_param_type-ends}
use rulite.Dynamic.Registry.{
  RegistryState, Registry, Params, TypedAction, Actions, new_registry, register, freeze, snapshot,
}
use rulite.Dynamic.Registry.Registers.{Refuses, Adds, register-Adds}
use rulite.Dynamic.Registry.History.{
  Follows, at_first, registers, freezes, IsSoundRegistry, Follows-IsSound, Follows-snapshot,
}
use rulite.Dynamic.Definition.{Definition, params_limits, validate_definitions}
use rulite.Dynamic.Definition.Accepts.{AreAllowed, validate_definitions-AreAllowed}
use rulite.Dynamic.Definition.Refuses.{Refused, validate_definitions-Refused}
use rulite.Dynamic.Build.{Compiler, compile_validated, compile_json}
use rulite.Dynamic.Build.Conditions.{Ends}
use rulite.Dynamic.Build.Whole.{BuildsWell, compile_validated-BuildsWell}
use rulite.Dynamic.Definition.{document_limits}
use rulite.Dynamic.Json.{max_document_bytes}
use rulite.Dynamic.Build.Configured.{IsCompiled, PanicsIn, compile_json-IsCompiled}

-- The tokens of `{}`, whatever the bytes are.
abbrev braces : ℕ → Reading
braces zero = token b'{' 1
braces (suc zero) = token b'}' 0
braces (suc (suc n)) = end_of_input

-- The tokens of `[]`.
abbrev brackets : ℕ → Reading
brackets zero = token b'[' 1
brackets (suc zero) = token b']' 0
brackets (suc (suc n)) = end_of_input

abbrev list_source : Bytes
list_source = codes "[]"

-- The decoder of the two texts that the tests have.
abbrev decoder : Decoder
decoder [] = braces
decoder (c ∷ cs) = if c == b'[' then brackets else braces

abbrev empty_object : Bytes
empty_object = codes "{}"

object_passes : check_json decoder empty_object max_params_bytes params_limits ≡ none
unfolding check_json
object_passes = refl

check_json-IsRest_example :
    (check_json decoder empty_object max_params_bytes params_limits ≡ none)
    ↔ ((length empty_object ≤ max_params_bytes) × IsRest (decoder empty_object) params_limits 0)
check_json-IsRest_example = check_json-IsRest decoder empty_object max_params_bytes params_limits

scan-ends_example : scan 4097 (decoder empty_object) params_limits 0 ≢ unfinished
scan-ends_example =
    scan-ends (decoder empty_object) params_limits 4097 0 (omega arith) (omega arith)

abbrev log_name : Bytes
log_name = codes "audit.log/v1"

log_name-valid : valid_action_name log_name ≡ true
unfolding valid_action_name
log_name-valid = refl

valid_action_name-IsActionName_example :
    (valid_action_name log_name ≡ true) ↔ ((length log_name ≤ 128) × IsActionName log_name)
valid_action_name-IsActionName_example = valid_action_name-IsActionName log_name

-- `struct { Text string }`
abbrev text_field : Field
text_field = record {
  name = codes "Text";
  pkg_path = [];
  json = codes "text,omitempty";
  anonymous = false;
  field_type = 1;
}

abbrev types : ℕ → ReflectType
types zero = record {
  kind = struct_kind;
  size = 16;
  elem_type = 0;
  key = 0;
  fields = text_field ∷ [];
  methods = [];
  pointer_methods = [];
}
types (suc n) = record {
  kind = scalar_kind string_kind;
  size = 16;
  elem_type = 0;
  key = 0;
  fields = [];
  methods = codes "String" ∷ [];
  pointer_methods = codes "String" ∷ [];
}

abbrev reflection : Reflection
reflection = record { types = types; duration = 7 }

types-pass : (validate_param_type reflection 18 0 0 unvisited).error ≡ none
unfolding validate_param_type param_field_name
types-pass = refl

validate_param_type-IsPlain_example : IsPlain reflection 1
validate_param_type-IsPlain_example =
    validate_param_type-IsPlain reflection 18 0 1 types-pass (through 0 1 1 refl (itself 1))

validate_param_type-ends_example :
    (validate_param_type reflection 18 0 0 unvisited).error ≢ some out_of_fuel
validate_param_type-ends_example =
    validate_param_type-ends reflection 18 0 0 unvisited (omega arith) (omega arith)

-- Parameters without content.
abbrev params : Params (Unit {0})
params = record { params_type = 0; unmarshal = λ raw. ok tt }

abbrev log : TypedAction ℕ (Unit {0})
log ctx input p w = returned none (record w { host = w.host + 1 })

abbrev empty_state : RegistryState ℕ
empty_state = record { frozen = false; actions = [] }

register-Adds_example :
    Refuses empty_state (register reflection params (some empty_state) log_name (some log) [])
    ⊎ Adds empty_state params log_name
        (some log)
        []
        (register reflection params (some empty_state) log_name (some log) [])
register-Adds_example = register-Adds reflection params empty_state log_name (some log) []

registry : Registry ℕ
unfolding register freeze
registry = (freeze (register reflection params new_registry log_name (some log) []).1).1

registry-Follows : Follows reflection new_registry registry
unfolding registry
registry-Follows = freezes _ (registers params new_registry log_name (some log) [] at_first)

empty-IsSound : IsSoundRegistry (new_registry {Host = ℕ})
empty-IsSound = record { few = omega arith; named = tt; distinct = tt }

Follows-IsSound_example : IsSoundRegistry registry
Follows-IsSound_example =
    Follows-IsSound reflection new_registry registry registry-Follows empty-IsSound

capabilities : Actions ℕ
unfolding registry snapshot
capabilities = elim (snapshot registry) [ ok actions ↦ actions | failed e ↦ [] ]

registry-snapshot : snapshot registry ≡ ok capabilities
unfolding registry snapshot capabilities valid_action_name validate_param_type param_field_name
registry-snapshot = refl

Follows-snapshot_example : snapshot (freeze registry).1 ≡ ok capabilities
Follows-snapshot_example =
    Follows-snapshot reflection registry (freeze registry).1 capabilities
      (freezes registry at_first) registry-snapshot

abbrev definition_named : Bytes → Definition
definition_named action = record {
  id = codes "audit";
  priority = pos 3;
  description = codes "Writes a line.";
  tags = codes "ops" ∷ [];
  condition = codes "input.enabled";
  action = action;
  params = empty_object;
}

abbrev good_list : List Definition
good_list = definition_named log_name ∷ []

abbrev bad_list : List Definition
bad_list = definition_named (codes "Log") ∷ []

validate_definitions-AreAllowed_example :
    (validate_definitions decoder good_list ≡ none) ↔ AreAllowed decoder good_list
validate_definitions-AreAllowed_example = validate_definitions-AreAllowed decoder good_list

abbrev bad_name : DynamicError
bad_name = compile_error validate_stage (pos 0) (joined invalid_definition invalid_action)

bad_list-fails : validate_definitions decoder bad_list ≡ some bad_name
unfolding validate_definitions valid_action_name
bad_list-fails = refl

validate_definitions-Refused_example : Refused decoder bad_list bad_name
validate_definitions-Refused_example =
    validate_definitions-Refused decoder bad_list bad_name bad_list-fails

abbrev enabled : Condition ℕ
enabled ctx input w = returned (true, none) w

abbrev compiler : Compiler ℕ
compiler text = ok enabled

abbrev initial : World ℕ
initial = record { recordings = []; host = 0 }

compile_validated-BuildsWell_example :
    BuildsWell compiler capabilities good_list initial
      (compile_validated compiler capabilities good_list initial)
compile_validated-BuildsWell_example =
    compile_validated-BuildsWell compiler capabilities good_list initial

list_source_passes : check_json decoder list_source max_document_bytes document_limits ≡ none
unfolding check_json
list_source_passes = refl

compile_json-IsCompiled_example :
    Ends
      (IsCompiled decoder (λ source. ok good_list) list_source compiler registry)
      (PanicsIn decoder (λ source. ok good_list) list_source registry)
      (compile_json decoder (λ source. ok good_list) list_source compiler registry initial)
compile_json-IsCompiled_example =
    compile_json-IsCompiled decoder (λ source. ok good_list) list_source compiler registry initial

error_text_runs :
    error_text (some (record { stage = validate_stage; index = pos 12; cause = limit_exceeded }))
    ≡ codes "rulite/dynamic: validate failed at definition 12"
unfolding error_text decimal
error_text_runs = refl
