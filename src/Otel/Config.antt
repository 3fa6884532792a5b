-- ===== src/Otel/Config.antt =====
-- The options of an adapter (otel/options.go).
pub mod Bounds
use rulite.Base.{
  ℕ, List, [], ◌∷◌, Bool, true, false, not, ◌&&◌, ◌||◌, Option, none, some, Bytes, bytes_eq, length,
  ltb, leb, ◌==◌, if◌then◌else◌,
}
use rulite.Base.Int.{ℤ, pos, negsuc, ltb_ℤ}
use rulite.Base.Strings.{codes, valid_string}

-- `optionKind` is a number; `unknown_kind` is any that is no constant.
pub data OptionKind : Type 0 where
  option_none option_event_limit option_metric_versions option_rule_metrics : OptionKind
  option_trace_versions option_hide_rule_ids option_trace_rules unknown_kind : OptionKind

pub record AdapterOption : Type 0 where
  pub kind : OptionKind
  pub limit : ℤ
  pub values : List Bytes

abbrev option_of : OptionKind → AdapterOption
option_of kind = record { kind = kind; limit = pos 0; values = [] }

unfoldable pub with_event_limit : ℤ → AdapterOption
with_event_limit limit = record (option_of option_event_limit) { limit = limit }

unfoldable pub with_metric_versions : List Bytes → AdapterOption
with_metric_versions versions = record (option_of option_metric_versions) { values = versions }

unfoldable pub with_rule_metrics : List Bytes → AdapterOption
with_rule_metrics ids = record (option_of option_rule_metrics) { values = ids }

unfoldable pub with_trace_versions : AdapterOption
with_trace_versions = option_of option_trace_versions

unfoldable pub without_trace_rule_ids : AdapterOption
without_trace_rule_ids = option_of option_hide_rule_ids

unfoldable pub with_trace_rules : List Bytes → AdapterOption
with_trace_rules ids = record (option_of option_trace_rules) { values = ids }

-- A nil map of trace rules is `none`.
pub record Config : Type 0 where
  pub event_limit : ℤ
  pub metric_versions : List Bytes
  pub version_metrics : Bool
  pub rule_metrics : List Bytes
  pub trace_versions : Bool
  pub hide_rule_ids : Bool
  pub trace_rules : Option (List Bytes)

abbrev pub default_config : Config
default_config = record {
  event_limit = pos 128;
  metric_versions = [];
  version_metrics = false;
  rule_metrics = [];
  trace_versions = false;
  hide_rule_ids = false;
  trace_rules = none;
}

unfoldable pub valid_text : Bytes → Bool
valid_text value = not (length value == 0) && leb (length value) 128 && valid_string value

abbrev is_metric_versions : OptionKind → Bool
is_metric_versions option_metric_versions = true
is_metric_versions _ = false

abbrev pub max_values : OptionKind → ℕ
max_values kind = if is_metric_versions kind then 16 else 64

abbrev pub values_ok : OptionKind → List Bytes → Bool
values_ok kind [] = true
values_ok kind (value ∷ values) =
    not (not (valid_text value) || (is_metric_versions kind && bytes_eq value (codes "other")))
    && values_ok kind values

-- Whether the list of an option is refused.
abbrev pub list_refused : OptionKind → List Bytes → Bool
list_refused kind values = ltb (max_values kind) (length values) || not (values_ok kind values)

abbrev pub limit_refused : ℤ → Bool
limit_refused limit = ltb_ℤ limit (pos 0) || ltb_ℤ (pos 1024) limit

-- The body of the loop; `none` is `ErrInvalidConfig`.
unfoldable pub apply_option : Config → AdapterOption → OptionKind → Option Config
apply_option c o option_none = some c
apply_option c o option_event_limit =
    if limit_refused o.limit then none else some (record c { event_limit = o.limit })
apply_option c o option_metric_versions =
    if list_refused option_metric_versions o.values
    then none
    else some (record c { metric_versions = o.values; version_metrics = true })
apply_option c o option_rule_metrics =
    if list_refused option_rule_metrics o.values
    then none
    else some (record c { rule_metrics = o.values })
apply_option c o option_trace_rules =
    if list_refused option_trace_rules o.values
    then none
    else some (record c { trace_rules = some o.values })
apply_option c o option_trace_versions = some (record c { trace_versions = true })
apply_option c o option_hide_rule_ids = some (record c { hide_rule_ids = true })
apply_option c o unknown_kind = none

unfoldable pub configure_from : Config → List AdapterOption → Option Config
unfolding apply_option
configure_from c [] = some c
configure_from c (o ∷ os) = elim (apply_option c o o.kind) [
  | none ↦ none
  | some d ↦ configure_from d os
]

unfoldable pub configure : List AdapterOption → Option Config
unfolding configure_from
configure os = configure_from default_config os
