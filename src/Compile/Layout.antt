-- ===== src/Compile/Layout.antt =====
-- The second half of `compileDefinitions`: definitions in execution order, flattened, with their
-- indexes (compile_internal.go).
use rulite.Base.{
  ℕ, suc, ◌+◌, List, [], ◌∷◌, ◌++◌, map, Bool, false, none, some, insert, if◌then◌else◌, length,
  get_elem?, is_some, ◌||◌,
}
use rulite.Base.Int.{ltb_ℤ}
use rulite.Base.Sorting.{sort_stable}
use rulite.Errors.{RuleId, GroupId}
use rulite.Rule.{Rule, Group, Entry, rule_entry, entry_priority, Priority}
use rulite.Ledger.{GroupMetadata, RuleMetadata, CompiledEntry, RuleCallbacks, CompiledSnapshot}
use rulite.Compile.Validate.{Validation, ValidationIssue, validate_from, no_validation}

-- `priorityComparison(a, b) < 0`
abbrev pub runs_before : Priority → Priority → Bool
runs_before a b = ltb_ℤ b a

-- Each definition with its registration index.
abbrev pub indexed {ℓ} : {A : Type ℓ} → ℕ → List A → List (ℕ × A)
indexed i [] = []
indexed i (x ∷ xs) = (i, x) ∷ indexed (suc i) xs

-- The tables that the layout loop grows.
pub record Tables (Host : Type 0) : Type 0 where
  pub rules : List RuleMetadata
  pub callbacks : List (RuleCallbacks Host)
  pub by_id : List (RuleId × ℕ)
  pub groups : List GroupMetadata
  pub by_group_id : List (GroupId × ℕ)
  pub entries : List CompiledEntry

-- `metadata.byID[info.id] = order` for each rule from `order` on.
abbrev pub index_rules : ℕ → List RuleMetadata → List (RuleId × ℕ) → List (RuleId × ℕ)
index_rules order [] m = m
index_rules order (info ∷ rest) m = index_rules (suc order) rest (insert info.id order m)

abbrev pub rule_runs_before : RuleMetadata → RuleMetadata → Bool
rule_runs_before a b = runs_before a.priority b.priority

module _ {Host : Type 0} where
  abbrev pub rule_callbacks : Rule Host → RuleCallbacks Host
  rule_callbacks r = record { condition = r.condition; action = r.action }

  abbrev pub top_rule_metadata : ℕ → ℕ → Rule Host → RuleMetadata
  top_rule_metadata index top_order rule = record {
    id = rule.id;
    priority = rule.priority;
    registration_index = index;
    top_level_order = top_order;
    member_index = 0;
    group = none;
    details = rule.details;
  }

  abbrev pub member_metadata : GroupMetadata → ℕ × Rule Host → RuleMetadata
  member_metadata group (member, rule) = record {
    id = rule.id;
    priority = rule.priority;
    registration_index = group.registration_index;
    top_level_order = group.top_level_order;
    member_index = member;
    group = some group;
    details = rule.details;
  }

  -- `definition.members[info.memberIndex]`: a position out of range would be a Go panic; every
  -- member index comes from this list.
  abbrev pub member_callbacks : List (Rule Host) → RuleMetadata → RuleCallbacks Host
  member_callbacks members info = elim (get_elem? members info.member_index) [
    | none ↦ record { condition = none; action = none }
    | some rule ↦ rule_callbacks rule
  ]

  -- A top-level rule; the entry list is kept only beside groups.
  unfoldable pub place_rule : Bool → ℕ → ℕ → Rule Host → Tables Host → Tables Host
  place_rule has_groups index top_order rule t =
      let start = length t.rules in
      record {
        rules = t.rules ++ top_rule_metadata index top_order rule ∷ [];
        callbacks = t.callbacks ++ rule_callbacks rule ∷ [];
        by_id = insert rule.id start t.by_id;
        groups = t.groups;
        by_group_id = t.by_group_id;
        entries =
            if has_groups
            then t.entries ++ record { start = start; stop = start + 1; group = none } ∷ []
            else t.entries;
      }

  abbrev pub placed_group : ℕ → ℕ → Group Host → Tables Host → GroupMetadata
  placed_group index top_order definition t = record {
    id = definition.id;
    kind = definition.kind;
    priority = definition.priority;
    registration_index = index;
    top_level_order = top_order;
    index = length t.groups;
    start = length t.rules;
    stop = length t.rules + length definition.members;
  }

  -- `metadata.rules[start:group.end]` after its sort.
  unfoldable pub placed_members : GroupMetadata → List (Rule Host) → List RuleMetadata
  placed_members group members =
      sort_stable rule_runs_before (map (member_metadata group) (indexed 0 members))

  unfoldable pub place_group : ℕ → ℕ → Group Host → Tables Host → Tables Host
  unfolding placed_members
  place_group index top_order definition t =
      let group = placed_group index top_order definition t in
      let infos = placed_members group definition.members in
      record {
        rules = t.rules ++ infos;
        callbacks = t.callbacks ++ map (member_callbacks definition.members) infos;
        by_id = index_rules group.start infos t.by_id;
        groups = t.groups ++ group ∷ [];
        by_group_id = insert group.id group.index t.by_group_id;
        entries =
            t.entries ++ record { start = group.start; stop = group.stop; group = some group } ∷ [];
      }

  unfoldable pub place_entry : Bool → ℕ → ℕ → Entry Host → Tables Host → Tables Host
  unfolding place_rule place_group
  place_entry has_groups top_order index entry t = elim entry.group [
    | none ↦ place_rule has_groups index top_order entry.rule t
    | some group ↦ place_group index top_order group t
  ]

  unfoldable pub place_from : Bool → ℕ → List (ℕ × Entry Host) → Tables Host → Tables Host
  unfolding place_entry
  place_from has_groups top_order [] t = t
  place_from has_groups top_order ((index, entry) ∷ rest) t =
      place_from has_groups (suc top_order) rest (place_entry has_groups top_order index entry t)

  -- `groupCount != 0`
  abbrev pub any_group : List (Entry Host) → Bool
  any_group [] = false
  any_group (entry ∷ entries) = is_some entry.group || any_group entries

  abbrev pub entry_runs_before : ℕ × Entry Host → ℕ × Entry Host → Bool
  entry_runs_before a b = runs_before (entry_priority a.1) (entry_priority b.1)

  -- The definitions in execution order, with their registration indexes.
  abbrev pub execution_order : List (Entry Host) → List (ℕ × Entry Host)
  execution_order definitions = sort_stable entry_runs_before (indexed 0 definitions)

  abbrev pub snapshot_of : Tables Host → CompiledSnapshot Host
  snapshot_of t = record {
    metadata = record {
      rules = t.rules;
      by_id = t.by_id;
      groups = t.groups;
      by_group_id = t.by_group_id;
      entries = t.entries;
    };
    callbacks = t.callbacks;
  }

  unfoldable pub lay_out : Validation → List (Entry Host) → CompiledSnapshot Host
  unfolding place_from
  lay_out v definitions = snapshot_of (
      place_from (any_group definitions) 0 (execution_order definitions) (record {
        rules = [];
        callbacks = [];
        by_id = v.by_id;
        groups = [];
        by_group_id = v.by_group_id;
        entries = [];
      }))

-- `(*compiledSnapshot, error)`: one of the two.
pub data Compiled (Host : Type 0) : Type 0 where
  compiled : CompiledSnapshot Host → Compiled Host
  invalid : List ValidationIssue → Compiled Host

-- `definitionList`
pub record DefinitionList (Host : Type 0) : Type 0 where
  pub rules : List (Rule Host)
  pub entries : List (Entry Host)

module _ {Host : Type 0} where
  -- `definitionList.at` for every index below `len`.
  abbrev pub definitions_of : DefinitionList Host → List (Entry Host)
  definitions_of d = elim d.entries [ [] ↦ map rule_entry d.rules | _ ↦ d.entries ]

  abbrev pub finish_compile : List (Entry Host) → Validation → List ValidationIssue → Compiled Host
  finish_compile definitions v [] = compiled (lay_out v definitions)
  finish_compile definitions v (issue ∷ issues) = invalid (issue ∷ issues)

  abbrev pub validation_of : List (Entry Host) → Validation
  validation_of definitions = validate_from 0 definitions no_validation

  unfoldable pub compile_definitions : DefinitionList Host → Compiled Host
  unfolding validate_from lay_out
  compile_definitions d =
      let v = validation_of (definitions_of d) in finish_compile (definitions_of d) v v.issues

  unfoldable pub compile_rules : List (Rule Host) → Compiled Host
  unfolding compile_definitions
  compile_rules rules = compile_definitions (record { rules = rules; entries = [] })

  unfoldable pub compile_entries : List (Entry Host) → Compiled Host
  unfolding compile_definitions
  compile_entries entries = compile_definitions (record { rules = []; entries = entries })
