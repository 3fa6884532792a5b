-- ===== src/Rule.antt =====
-- Rules, groups and entries: the immutable definitions that an application builds (rule.go,
-- group.go, and the builder methods of metadata.go). A nil callback is `none`; a nil `*ruleDetails`
-- is `none` too. An `int32` priority is an integer: the code only compares priorities.
mod Trim
pub mod Ids
pub mod Tags
unfoldable pub use Trim.{Text, is_space, trim_left, trim_space}
use rulite.Base.{ℕ, List, [], ◌∷◌, ◌++◌, Bool, ◌||◌, Option, none, some, bytes_eq, if◌then◌else◌}
use rulite.Base.Int.{ℤ, pos}
use rulite.Errors.{RuleId, GroupId}
use rulite.World.{Condition, Action}

abbrev pub Priority : Type 0
Priority = ℤ

abbrev pub default_priority : Priority
default_priority = pos 0

pub record RuleDetails : Type 0 where
  pub name : Text
  pub description : Text
  pub tags : List Text

-- `ruleDetails.value`
abbrev pub details_value : Option RuleDetails → RuleDetails
details_value none = record { name = []; description = []; tags = [] }
details_value (some d) = d

module _ (Host : Type 0) where
  pub record Rule : Type 0 where
    pub id : RuleId
    pub priority : Priority
    pub details : Option RuleDetails
    pub condition : Option (Condition Host)
    pub action : Option (Action Host)

  pub record RuleBuilder : Type 0 where
    pub id : RuleId
    pub priority : Priority
    pub details : Option RuleDetails

  pub record ActionBuilder : Type 0 where
    pub id : RuleId
    pub priority : Priority
    pub details : Option RuleDetails
    pub condition : Option (Condition Host)

pub data GroupKind : Type 0 where
  first_match first_fire : GroupKind

module _ (Host : Type 0) where
  pub record Group : Type 0 where
    pub id : GroupId
    pub kind : GroupKind
    pub priority : Priority
    pub members : List (Rule Host)

module _ (Host : Type 0) where
  pub record Entry : Type 0 where
    pub rule : Rule Host
    pub group : Option (Group Host)

-- One round of the loop of `RuleBuilder.Tags`; `seen` holds the tags kept so far.
abbrev pub contains : Text → List Text → Bool
contains t [] = Bool.false
contains t (u ∷ us) = bytes_eq u t || contains t us

abbrev pub keep_tag : List Text → Text → List Text
keep_tag seen tag =
    let trimmed = trim_space tag in
    if bytes_eq trimmed [] || contains trimmed seen then seen else seen ++ trimmed ∷ []

pub normalize_from : List Text → List Text → List Text
normalize_from seen [] = seen
normalize_from seen (tag ∷ tags) = normalize_from (keep_tag seen tag) tags

unfoldable pub normalize_tags : List Text → List Text
unfolding normalize_from
normalize_tags tags = normalize_from [] tags

module _ {Host : Type 0} where
  unfoldable pub new_rule : RuleId → RuleBuilder Host
  new_rule id = record { id = id; priority = default_priority; details = none }

  unfoldable pub with_priority : RuleBuilder Host → Priority → RuleBuilder Host
  with_priority b priority = record b { priority = priority }

  unfoldable pub with_name : RuleBuilder Host → Text → RuleBuilder Host
  with_name b name = record b {
    details = some (record (details_value b.details) { name = trim_space name });
  }

  unfoldable pub with_description : RuleBuilder Host → Text → RuleBuilder Host
  with_description b description = record b {
    details = some (record (details_value b.details) { description = trim_space description });
  }

  unfoldable pub with_tags : RuleBuilder Host → List Text → RuleBuilder Host
  unfolding normalize_tags
  with_tags b tags = record b {
    details = some (record (details_value b.details) { tags = normalize_tags tags });
  }

  unfoldable pub when : RuleBuilder Host → Option (Condition Host) → ActionBuilder Host
  when b condition = record {
    id = b.id;
    priority = b.priority;
    details = b.details;
    condition = condition;
  }

  unfoldable pub then_do : ActionBuilder Host → Option (Action Host) → Rule Host
  then_do b action = record {
    id = b.id;
    priority = b.priority;
    details = b.details;
    condition = b.condition;
    action = action;
  }

  abbrev pub zero_rule : Rule Host
  zero_rule = record { id = []; priority = pos 0; details = none; condition = none; action = none }

  -- `FirstMatchGroup` and `FirstFireGroup`
  unfoldable pub new_group : GroupKind → GroupId → List (Rule Host) → Group Host
  new_group kind id members = record { id = id; kind = kind; priority = pos 0; members = members }

  unfoldable pub group_with_priority : Group Host → Priority → Group Host
  group_with_priority g priority = record g { priority = priority }

  abbrev pub rule_entry : Rule Host → Entry Host
  rule_entry r = record { rule = r; group = none }

  abbrev pub group_entry : Group Host → Entry Host
  group_entry g = record { rule = zero_rule; group = some g }

  abbrev pub entry_priority : Entry Host → Priority
  entry_priority e = elim e.group [ none ↦ e.rule.priority | some g ↦ g.priority ]
