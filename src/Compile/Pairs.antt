-- ===== src/Compile/Pairs.antt =====
-- Where the rules and the callbacks of a compiled set come from (compile_internal.go, the layout loop
-- of `compileDefinitions`).
pub mod Whole
use rulite.Base.{
  ℕ, zero, ◌+◌, List, [], ◌∷◌, ◌++◌, ◌≡◌, true, false, Option, none, some, length, get_elem?, Zip,
  if◌then◌else◌,
}
use native.Mathlib.Nat.{zero-add}
use rulite.Rule.{Rule, Group, Entry}
use rulite.Ledger.{GroupMetadata, RuleMetadata, RuleCallbacks, CompiledEntry, CompiledSnapshot}
use rulite.Compile.Validate.{Validation, ValidationIssue}
use rulite.Compile.Layout.{
  Tables, any_group, execution_order, rule_callbacks, top_rule_metadata, lay_out, Compiled,
  compiled, DefinitionList, definitions_of, validation_of, finish_compile, compile_definitions,
}
use rulite.Compile.Places.{Spans, Fits, IsPlaced, tables_of, lay_out-IsPlaced, compiled_set}

module _ {Host : Type 0} where
  -- The place of a definition's rule in its entry: the entry itself, or the member of its group at
  -- the member index that the metadata has.
  abbrev pub IsMember : Option (Group Host) → Rule Host → Rule Host → RuleMetadata → Type 0
  IsMember none own rule info = (rule ≡ own) × (info.group ≡ none)
  IsMember (some g) own rule info =
      (get_elem? g.members info.member_index ≡ some rule)
      × (group : GroupMetadata) × (info.group ≡ some group)
      × (group.id ≡ g.id)
      × (group.kind ≡ g.kind)
      × (group.priority ≡ g.priority)

  -- The metadata and the callbacks of one place are those of one rule of the definitions, the one at
  -- the indexes that the metadata has.
  pub record IsFrom (definitions : List (Entry Host)) (info : RuleMetadata)
      (callbacks : RuleCallbacks Host) : Type 0 where
    pub entry : Entry Host
    pub rule : Rule Host
    pub registered : get_elem? definitions info.registration_index ≡ some entry
    pub member : IsMember entry.group entry.rule rule info
    pub own_id : info.id ≡ rule.id
    pub own_priority : info.priority ≡ rule.priority
    pub own_details : info.details ≡ rule.details
    pub own_condition : callbacks.condition ≡ rule.condition
    pub own_action : callbacks.action ≡ rule.action

  abbrev pub rules_of : Entry Host → ℕ
  rules_of entry = elim entry.group [ none ↦ 1 | some g ↦ length g.members ]

  -- How many rules the definitions have.
  abbrev pub count_rules : List (Entry Host) → ℕ
  count_rules [] = 0
  count_rules (entry ∷ entries) = rules_of entry + count_rules entries

  abbrev count_indexed : List (ℕ × Entry Host) → ℕ
  count_indexed [] = 0
  count_indexed (e ∷ es) = rules_of e.1 + count_indexed es

  module _ (definitions : List (Entry Host)) where
    -- The tables after `count` rules.
    record IsFilled (count : ℕ) (t : Tables Host) : Type 0 where
      paired : Zip (IsFrom definitions) t.rules t.callbacks
      counted : length t.rules ≡ count
