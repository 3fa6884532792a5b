-- ===== src/Compile/Validate.antt =====
-- The first half of `compileDefinitions`: every definition is visited in registration order, and
-- its issues are collected (compile_internal.go, errors.go).
use rulite.Base.{
  ℕ, suc, List, [], ◌∷◌, ◌++◌, Bool, true, false, Option, none, some, Bytes, lookup, insert,
  if◌then◌else◌,
}
use rulite.Errors.{
  RuleId, GroupId, Err, wrapped, invalid_rule, invalid_condition, invalid_group, duplicate_rule_id,
  duplicate_group_id, malformed_id, condition_is_nil, action_is_nil, first_registered_at,
}
use rulite.Rule.{Rule, Entry}
use rulite.Rule.Ids.{valid_rule_id}

pub record ValidationIssue : Type 0 where
  pub index : ℕ
  pub rule_id : RuleId
  pub cause : Err
  pub group_id : GroupId
  pub member_index : ℕ
  pub in_group : Bool
  pub group_issue : Bool

-- The variables that the closures of `compileDefinitions` share.
pub record Validation : Type 0 where
  pub by_id : List (RuleId × ℕ)
  pub by_group_id : List (GroupId × ℕ)
  pub issues : List ValidationIssue

-- Where a rule stands: the arguments of `validateRule` behind the rule.
pub record Position : Type 0 where
  pub index : ℕ
  pub member : ℕ
  pub group_id : GroupId
  pub in_group : Bool

abbrev pub add_issue : ValidationIssue → Validation → Validation
add_issue issue v = record v { issues = v.issues ++ issue ∷ [] }

-- The identity that an issue shows: empty if it is not well formed.
abbrev pub shown_id : Bytes → Bytes
shown_id id = if valid_rule_id id then id else []

abbrev pub rule_issue : Position → RuleId → Err → ValidationIssue
rule_issue at id cause = record {
  index = at.index;
  rule_id = shown_id id;
  cause = cause;
  group_id = at.group_id;
  member_index = at.member;
  in_group = at.in_group;
  group_issue = false;
}

abbrev pub group_issue_at : ℕ → GroupId → Err → ValidationIssue
group_issue_at index id cause = record {
  index = index;
  rule_id = [];
  cause = cause;
  group_id = shown_id id;
  member_index = 0;
  in_group = false;
  group_issue = true;
}

-- The identity check of `validateRule`.
unfoldable pub check_rule_id : Position → RuleId → Validation → Validation
check_rule_id at id v = elim (valid_rule_id id) [
  | false ↦ add_issue (rule_issue at id (wrapped invalid_rule malformed_id)) v
  | true ↦ elim (lookup id v.by_id) [
    | some first ↦
        add_issue (rule_issue at id (wrapped duplicate_rule_id (first_registered_at first))) v
    | none ↦ record v { by_id = insert id at.index v.by_id }
  ]
]

-- A check for a nil callback.
abbrev pub check_callback {ℓ} :
    {A : Type ℓ} → Position → RuleId → Option A → Err → Validation → Validation
check_callback at id (some _) cause v = v
check_callback at id none cause v = add_issue (rule_issue at id cause) v

unfoldable pub check_group_id : ℕ → GroupId → Validation → Validation
check_group_id index id v = elim (valid_rule_id id) [
  | false ↦ add_issue (group_issue_at index id (wrapped invalid_group malformed_id)) v
  | true ↦ elim (lookup id v.by_group_id) [
    | some first ↦
        add_issue (group_issue_at index id (wrapped duplicate_group_id (first_registered_at first)))
          v
    | none ↦ record v { by_group_id = insert id index v.by_group_id }
  ]
]

module _ {Host : Type 0} where
  unfoldable pub validate_rule : Position → Rule Host → Validation → Validation
  unfolding check_rule_id
  validate_rule at rule v =
      check_callback at rule.id rule.action (wrapped invalid_rule action_is_nil) (
        check_callback at rule.id rule.condition (wrapped invalid_condition condition_is_nil)
          (check_rule_id at rule.id v))

  unfoldable pub validate_members : ℕ → ℕ → GroupId → List (Rule Host) → Validation → Validation
  unfolding validate_rule
  validate_members index member group_id [] v = v
  validate_members index member group_id (rule ∷ rules) v =
      let at : Position = record {
        index = index;
        member = member;
        group_id = group_id;
        in_group = true;
      } in
      validate_members index (suc member) group_id rules (validate_rule at rule v)

  -- The body of the loop over the definitions.
  unfoldable pub validate_entry : ℕ → Entry Host → Validation → Validation
  unfolding validate_members check_group_id
  validate_entry index entry v = elim entry.group [
    | none ↦
        validate_rule (record { index = index; member = 0; group_id = []; in_group = false })
          entry.rule v
    | some group ↦
        validate_members index 0 (shown_id group.id) group.members (check_group_id index group.id v)
  ]

  unfoldable pub validate_from : ℕ → List (Entry Host) → Validation → Validation
  unfolding validate_entry
  validate_from index [] v = v
  validate_from index (entry ∷ entries) v =
      validate_from (suc index) entries (validate_entry index entry v)

abbrev pub no_validation : Validation
no_validation = record { by_id = []; by_group_id = []; issues = [] }
