-- ===== src/Compile/Accepts/Entries.antt =====
-- Validation of rules, of the members of a group and of entries (compile_internal.go, the closures and
-- the loop of `compileDefinitions`).
use rulite.Base.{
  ℕ, suc, List, [], ◌∷◌, ◌++◌, ◌≡◌, refl, Bool, true, false, ◌&&◌, Option, none, some, is_some,
  Bytes,
}
use rulite.Errors.{GroupId}
use rulite.Rule.{Rule, Group, Entry}
use rulite.Compile.Validate.{
  Validation, Position, check_rule_id, check_group_id, validate_rule, validate_members,
  validate_entry,
}
use rulite.Compile.Accepts.{
  name_ok, rule_ok, rules_ok, groups_ok, is_clean, Agrees, Checks, Soils, Checks-and,
  check_rule_id-Checks, check_group_id-Checks, check_callback-Checks, check_callback-Soils,
  check_rule_id-Soils, check_group_id-Soils,
}

pub with_true :
    (a : Bool) (v v' : Validation) (seen groups : List Bytes)
    → Checks a v v' seen groups
    → Checks (a && true) v v' seen groups
with_true a v v' seen groups h =
    Checks-and a true v v' v' seen seen groups groups h (λ k. k) (λ k. (refl, k))

module _ {Host : Type 0} where
  pub validate_rule-Soils :
      (at : Position) (r : Rule Host) (v : Validation) → Soils v (validate_rule at r v)
  unfolding validate_rule
  validate_rule-Soils at r v h =
      check_callback-Soils at r.id r.action _ _
        (check_callback-Soils at r.id r.condition _ _ (check_rule_id-Soils at r.id v h))

  pub validate_rule-Checks :
      (at : Position) (r : Rule Host) (v : Validation) (seen groups : List Bytes)
      → Agrees v seen groups
      → Checks (rule_ok seen r) v (validate_rule at r v) (r.id ∷ seen) groups
  unfolding validate_rule
  validate_rule-Checks at r v seen groups h =
      Checks-and (name_ok seen r.id) (is_some r.condition && is_some r.action) v
        (check_rule_id at r.id v) _ (r.id ∷ seen) (r.id ∷ seen) groups groups
        (check_rule_id-Checks at r.id v seen groups h)
        (λ k.
          check_callback-Soils at r.id r.action _ _
            (check_callback-Soils at r.id r.condition _ _ k))
        (λ k.
          Checks-and (is_some r.condition) (is_some r.action) (check_rule_id at r.id v) _ _
            (r.id ∷ seen) (r.id ∷ seen) groups groups
            (check_callback-Checks at r.id r.condition _ _ (r.id ∷ seen) groups k)
            (check_callback-Soils at r.id r.action _ _)
            (check_callback-Checks at r.id r.action _ _ (r.id ∷ seen) groups))

  -- The names seen behind some rules, and behind some groups.
  abbrev pub after_rules : List Bytes → List (Rule Host) → List Bytes
  after_rules seen [] = seen
  after_rules seen (r ∷ rs) = after_rules (r.id ∷ seen) rs

  pub validate_members-Soils :
      (index member : ℕ) (id : GroupId) (rs : List (Rule Host)) (v : Validation)
      → Soils v (validate_members index member id rs v)
  unfolding validate_members
  validate_members-Soils index member id [] v h = h
  validate_members-Soils index member id (r ∷ rs) v h =
      validate_members-Soils index (suc member) id rs _ (validate_rule-Soils _ r v h)

  pub validate_members-Checks :
      (index member : ℕ) (id : GroupId) (rs : List (Rule Host)) (v : Validation)
      (seen groups : List Bytes)
      → Agrees v seen groups
      → Checks
          (rules_ok seen rs)
          v
          (validate_members index member id rs v)
          (after_rules seen rs)
          groups
  unfolding validate_members
  validate_members-Checks index member id [] v seen groups h = (refl, h)
  validate_members-Checks index member id (r ∷ rs) v seen groups h =
      Checks-and (rule_ok seen r) (rules_ok (r.id ∷ seen) rs) v _ _ (r.id ∷ seen) _ groups groups
        (validate_rule-Checks _ r v seen groups h)
        (validate_members-Soils index (suc member) id rs _)
        (validate_members-Checks index (suc member) id rs _ (r.id ∷ seen) groups)

  -- The rules and the groups of definitions, in registration order.
  abbrev pub rules_in : Entry Host → List (Rule Host)
  rules_in e = elim e.group [ none ↦ e.rule ∷ [] | some g ↦ g.members ]

  abbrev pub groups_in : Entry Host → List (Group Host)
  groups_in e = elim e.group [ none ↦ [] | some g ↦ g ∷ [] ]

  abbrev pub all_rules : List (Entry Host) → List (Rule Host)
  all_rules [] = []
  all_rules (e ∷ es) = rules_in e ++ all_rules es

  abbrev pub all_groups : List (Entry Host) → List (Group Host)
  all_groups [] = []
  all_groups (e ∷ es) = groups_in e ++ all_groups es

  abbrev pub after_groups : List Bytes → List (Group Host) → List Bytes
  after_groups seen [] = seen
  after_groups seen (g ∷ gs) = after_groups (g.id ∷ seen) gs

  abbrev pub entry_ok : List Bytes → List Bytes → Entry Host → Bool
  entry_ok seen groups e = groups_ok groups (groups_in e) && rules_ok seen (rules_in e)

  abbrev pub entries_ok : List Bytes → List Bytes → List (Entry Host) → Bool
  entries_ok seen groups [] = true
  entries_ok seen groups (e ∷ es) =
      entry_ok seen groups e
      && entries_ok (after_rules seen (rules_in e)) (after_groups groups (groups_in e)) es

  pub validate_entry-Soils :
      (index : ℕ) (e : Entry Host) (v : Validation) → Soils v (validate_entry index e v)
  unfolding validate_entry
  validate_entry-Soils index e v h = go e.group refl
    where
      go :
          (o : Option (Group Host))
          → e.group ≡ o
          → is_clean (validate_entry index e v).issues ≡ false
      go none same = rw (same, validate_entry) (validate_rule-Soils _ e.rule v h)
      go (some g) same =
          rw (same, validate_entry)
            (validate_members-Soils index 0 _ g.members _ (check_group_id-Soils index g.id v h))

  pub validate_entry-Checks :
      (index : ℕ) (e : Entry Host) (v : Validation) (seen groups : List Bytes)
      → Agrees v seen groups
      → Checks
          (entry_ok seen groups e)
          v
          (validate_entry index e v)
          (after_rules seen (rules_in e))
          (after_groups groups (groups_in e))
  unfolding validate_entry
  validate_entry-Checks index e v seen groups h = go e.group refl
    where
      go :
          (o : Option (Group Host))
          → e.group ≡ o
          → Checks
              (entry_ok seen groups e)
              v
              (validate_entry index e v)
              (after_rules seen (rules_in e))
              (after_groups groups (groups_in e))
      go none same =
          rw (same, validate_entry, rules_in, groups_in)
            (with_true (rule_ok seen e.rule) v _ _ groups
              (validate_rule-Checks _ e.rule v seen groups h))
      go (some g) same =
          rw (same, validate_entry, rules_in, groups_in)
            (Checks-and (name_ok groups g.id && true) (rules_ok seen g.members) v
              (check_group_id index g.id v) _ seen _ (g.id ∷ groups) (g.id ∷ groups)
              (with_true (name_ok groups g.id) v _ seen (g.id ∷ groups)
                (check_group_id-Checks index g.id v seen groups h))
              (validate_members-Soils index 0 _ g.members _)
              (validate_members-Checks index 0 _ g.members _ seen (g.id ∷ groups)))
