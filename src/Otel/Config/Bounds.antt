-- ===== src/Otel/Config/Bounds.antt =====
-- What comes out of the options of an adapter (otel/options.go).
use rulite.Base.{
  ℕ, ◌≤◌, List, [], ◌∷◌, ◌≡◌, refl, sym, subst, Bool, true, false, not, ◌&&◌, Option, none, some,
  Option-cases, Bool-cases, inl, inr, Bytes, bytes_eq, length, All, arith,
}
use rulite.Base.Int.{ℤ, pos, negsuc}
use rulite.Base.Strings.{codes}
use rulite.Otel.Config.{
  OptionKind, option_none, option_event_limit, option_metric_versions, option_rule_metrics,
  option_trace_versions, option_hide_rule_ids, option_trace_rules, unknown_kind, AdapterOption,
  Config, default_config, valid_text, max_values, values_ok, list_refused, limit_refused,
  apply_option, configure_from, configure,
}

-- Whether an option is fit, whatever was configured before it.
abbrev pub option_ok : AdapterOption → OptionKind → Bool
option_ok o option_event_limit = not (limit_refused o.limit)
option_ok o option_metric_versions = not (list_refused option_metric_versions o.values)
option_ok o option_rule_metrics = not (list_refused option_rule_metrics o.values)
option_ok o option_trace_rules = not (list_refused option_trace_rules o.values)
option_ok o unknown_kind = false
option_ok o _ = true

abbrev pub options_ok : List AdapterOption → Bool
options_ok [] = true
options_ok (o ∷ os) = option_ok o o.kind && options_ok os

abbrev AllValid : List Bytes → Type 0
AllValid values = All (λ value. valid_text value ≡ true) values

abbrev IsRuleList : Option (List Bytes) → Type 0
IsRuleList none = Unit
IsRuleList (some ids) = (length ids ≤ 64) × AllValid ids

abbrev HasLimit : ℤ → Type 0
HasLimit limit = (n : ℕ) × (limit ≡ pos n) × (n ≤ 1024)

abbrev HasVersions : List Bytes → Type 0
HasVersions versions =
    (length versions ≤ 16)
    × AllValid versions
    × All (λ value. bytes_eq value (codes "other") ≡ false) versions

-- At most 1024 events, 16 versions of which none is the reserved one, and 64 rules, of valid texts.
abbrev pub IsBounded : Config → Type 0
IsBounded c =
    HasLimit c.event_limit
    × HasVersions c.metric_versions
    × IsRuleList (some c.rule_metrics)
    × IsRuleList c.trace_rules

abbrev pub Decides : Bool → Option Config → Type 0
Decides good none = good ≡ false
Decides good (some c) = (good ≡ true) × IsBounded c

default_config-IsBounded : IsBounded default_config
default_config-IsBounded = ((128, refl, omega arith), (omega arith, tt, tt), (omega arith, tt), tt)

values_ok-AllValid :
    (kind : OptionKind) (values : List Bytes) → values_ok kind values ≡ true → AllValid values
values_ok-AllValid kind [] h = tt
values_ok-AllValid kind (value ∷ values) h =
    (ground arith, values_ok-AllValid kind values (ground arith))

values_ok-reserved :
    (values : List Bytes)
    → values_ok option_metric_versions values ≡ true
    → All (λ value. bytes_eq value (codes "other") ≡ false) values
values_ok-reserved [] h = tt
values_ok-reserved (value ∷ values) h = (ground arith, values_ok-reserved values (ground arith))

list_refused-false :
    (kind : OptionKind) (values : List Bytes)
    → list_refused kind values ≡ false
    → (length values ≤ max_values kind) × (values_ok kind values ≡ true)
list_refused-false kind values h = ground arith

limit_refused-false :
    (limit : ℤ) → limit_refused limit ≡ false → (n : ℕ) × (limit ≡ pos n) × (n ≤ 1024)
limit_refused-false (pos n) h = (n, refl, ground arith)
limit_refused-false (negsuc n) h = ground arith

accepted_list :
    (kind : OptionKind) (values : List Bytes)
    → list_refused kind values ≡ false
    → (length values ≤ max_values kind) × AllValid values
accepted_list kind values e =
    let (few, good) = list_refused-false kind values e in (few, values_ok-AllValid kind values good)

apply_option-Decides :
    (c : Config) (o : AdapterOption) (kind : OptionKind)
    → IsBounded c
    → Decides (option_ok o kind) (apply_option c o kind)
unfolding apply_option
apply_option-Decides c o option_none h = (refl, h)
apply_option-Decides c o option_event_limit (limit, versions, rules, traced) =
    elim (Bool-cases (limit_refused o.limit)) [
      | inl e ↦ rw e refl
      | inr e ↦ rw e (refl, (limit_refused-false o.limit e, versions, rules, traced))
    ]
apply_option-Decides c o option_metric_versions (limit, versions, rules, traced) =
    elim (Bool-cases (list_refused option_metric_versions o.values)) [
      | inl e ↦ rw e refl
      | inr e ↦
          let (few, good) = list_refused-false option_metric_versions o.values e in
          let valid = values_ok-AllValid option_metric_versions o.values good in
          rw e (refl, (limit, (few, valid, values_ok-reserved o.values good), rules, traced))
    ]
apply_option-Decides c o option_rule_metrics (limit, versions, rules, traced) =
    elim (Bool-cases (list_refused option_rule_metrics o.values)) [
      | inl e ↦ rw e refl
      | inr e ↦ rw e (refl, (limit, versions, accepted_list option_rule_metrics o.values e, traced))
    ]
apply_option-Decides c o option_trace_rules (limit, versions, rules, traced) =
    elim (Bool-cases (list_refused option_trace_rules o.values)) [
      | inl e ↦ rw e refl
      | inr e ↦ rw e (refl, (limit, versions, rules, accepted_list option_trace_rules o.values e))
    ]
apply_option-Decides c o option_trace_versions h = (refl, h)
apply_option-Decides c o option_hide_rule_ids h = (refl, h)
apply_option-Decides c o unknown_kind h = refl

configure_from-none :
    (c : Config) (o : AdapterOption) (os : List AdapterOption)
    → apply_option c o o.kind ≡ none
    → configure_from c (o ∷ os) ≡ none
unfolding configure_from
configure_from-none c o os e = rw (e, configure_from) refl

configure_from-some :
    (c d : Config) (o : AdapterOption) (os : List AdapterOption)
    → apply_option c o o.kind ≡ some d
    → configure_from c (o ∷ os) ≡ configure_from d os
unfolding configure_from
configure_from-some c d o os e = rw (e, configure_from) refl

configure_from-Decides :
    (c : Config) (os : List AdapterOption)
    → IsBounded c
    → Decides (options_ok os) (configure_from c os)
unfolding configure_from
configure_from-Decides c [] h = (refl, h)
configure_from-Decides c (o ∷ os) h =
    let one = apply_option-Decides c o o.kind h in
    elim (Option-cases (apply_option c o o.kind)) [
      | inl e ↦
          let bad = subst (Decides (option_ok o o.kind)) e one in
          subst (Decides (options_ok (o ∷ os))) (sym (configure_from-none c o os e)) (rw bad refl)
      | inr (d, e) ↦
          let (good, bounded) = subst (Decides (option_ok o o.kind)) e one in
          subst (Decides (options_ok (o ∷ os))) (sym (configure_from-some c d o os e))
            (rw good (configure_from-Decides d os bounded))
    ]

-- A configuration is accepted exactly if each option is fit by itself, and it is within the limits.
pub configure-Decides : (os : List AdapterOption) → Decides (options_ok os) (configure os)
unfolding configure
configure-Decides os = configure_from-Decides default_config os default_config-IsBounded
