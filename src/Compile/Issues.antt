-- ===== src/Compile/Issues.antt =====
-- The error of a refused compilation and its index of issues by rule (errors.go,
-- `ValidationError`). A nil error is `none`.
use rulite.Base.{
  ℕ, suc, List, [], ◌∷◌, ◌++◌, ◌≡◌, refl, sym, ◌∙◌, subst, Bool, true, false, Option, none, some,
  lookup, insert, lookup-insert, bytes_eq, bytes_eq_iff, length, length-snoc, get_elem?,
  get_elem?-middle, if◌then◌else◌, arith, Bool-cases, inl, inr,
}
use mathlib.Core.List.{append-nil, append_assoc}
use rulite.Errors.{RuleId, GroupId}
use rulite.Compile.Validate.{ValidationIssue}

pub record ValidationError : Type 0 where
  pub issues : List ValidationIssue
  pub by_id : List (RuleId × List ℕ)

-- `e.byID[id]`: no entry reads as no positions.
abbrev read_positions : Option (List ℕ) → List ℕ
read_positions none = []
read_positions (some at) = at

abbrev pub positions : List (RuleId × List ℕ) → RuleId → List ℕ
positions m id = read_positions (lookup id m)

-- `ValidationIssue.RuleID`, `GroupID` and `MemberIndex`.
abbrev pub issue_rule_id : ValidationIssue → Option RuleId
issue_rule_id i = if bytes_eq i.rule_id [] then none else some i.rule_id

abbrev pub issue_group_id : ValidationIssue → Option GroupId
issue_group_id i = if bytes_eq i.group_id [] then none else some i.group_id

abbrev pub issue_member_index : ValidationIssue → Option ℕ
issue_member_index i = if i.in_group then some i.member_index else none

-- One round of the loop of `newValidationError`.
abbrev pub index_issue : ℕ → Option RuleId → List (RuleId × List ℕ) → List (RuleId × List ℕ)
index_issue index none m = m
index_issue index (some id) m = insert id (positions m id ++ index ∷ []) m

abbrev pub index_issues : ℕ → List ValidationIssue → List (RuleId × List ℕ) → List (RuleId × List ℕ)
index_issues index [] m = m
index_issues index (i ∷ issues) m =
    index_issues (suc index) issues (index_issue index (issue_rule_id i) m)

unfoldable pub new_validation_error : List ValidationIssue → ValidationError
new_validation_error issues = record { issues = issues; by_id = index_issues 0 issues [] }

-- `e.issues[position]` for each position; `none` at one out of range.
abbrev pub issues_at : List ValidationIssue → List ℕ → Option (List ValidationIssue)
issues_at issues [] = some []
issues_at issues (p ∷ ps) = elim (get_elem? issues p) [
  | none ↦ none
  | some i ↦ elim (issues_at issues ps) [ none ↦ none | some rest ↦ some (i ∷ rest) ]
]

-- `ValidationError.IssuesForRule`
unfoldable pub issues_for_rule : Option ValidationError → RuleId → Option (List ValidationIssue)
issues_for_rule none id = some []
issues_for_rule (some e) id = issues_at e.issues (positions e.by_id id)

-- The specification: the issues that name the rule, in order.
abbrev is_about : RuleId → Option RuleId → Bool
is_about id none = false
is_about id (some other) = bytes_eq other id

abbrev pub issues_about : RuleId → List ValidationIssue → List ValidationIssue
issues_about id [] = []
issues_about id (i ∷ issues) =
    if is_about id (issue_rule_id i) then i ∷ issues_about id issues else issues_about id issues

-- Reading the positions finds the issues.
abbrev Reads : List ValidationIssue → List ℕ → List ValidationIssue → Type 0
Reads all [] [] = Unit
Reads all (p ∷ ps) (i ∷ found) = (get_elem? all p ≡ some i) × Reads all ps found
Reads all [] (_ ∷ _) = ⊥
Reads all (_ ∷ _) [] = ⊥

Reads-issues_at :
    (all : List ValidationIssue) (ps : List ℕ) (found : List ValidationIssue)
    → Reads all ps found
    → issues_at all ps ≡ some found
Reads-issues_at all [] [] h = refl
Reads-issues_at all (p ∷ ps) (i ∷ found) h =
    rw (h.0, Reads-issues_at all ps found h.1, issues_at) refl
Reads-issues_at all [] (i ∷ found) h = absurd h
Reads-issues_at all (p ∷ ps) [] h = absurd h

Reads-snoc :
    (all : List ValidationIssue) (ps : List ℕ) (p : ℕ) (i : ValidationIssue)
    (found : List ValidationIssue)
    → Reads all ps found
    → get_elem? all p ≡ some i
    → Reads all (ps ++ p ∷ []) (found ++ i ∷ [])
Reads-snoc all [] p i [] h has = (has, tt)
Reads-snoc all (q ∷ ps) p i (j ∷ found) h has = (h.0, Reads-snoc all ps p i found h.1 has)
Reads-snoc all [] p i (j ∷ found) h has = absurd h
Reads-snoc all (q ∷ ps) p i [] h has = absurd h

-- The issues from a position on.
abbrev Tail : List ValidationIssue → ℕ → List ValidationIssue → Type 0
Tail all n [] = Unit
Tail all n (i ∷ rest) = (get_elem? all n ≡ some i) × Tail all (suc n) rest

Tail-append :
    (before rest : List ValidationIssue) (all : List ValidationIssue)
    → all ≡ before ++ rest
    → Tail all (length before) rest
Tail-append before [] all e = tt
Tail-append before (i ∷ rest) all e = (
  rw e (get_elem?-middle before i rest),
  subst (λ n. Tail all n rest) (omega (arith, length-snoc before i))
      (Tail-append (before ++ i ∷ []) rest all (e ∙ sym (append_assoc before (i ∷ []) rest))),
)

module _ (id : RuleId) (all : List ValidationIssue) where
  index_issue-Reads :
      (n : ℕ) (o : Option RuleId) (i : ValidationIssue) (m : List (RuleId × List ℕ))
      (found : List ValidationIssue)
      → get_elem? all n ≡ some i
      → Reads all (positions m id) found
      → Reads all
          (positions (index_issue n o m) id)
          (if is_about id o then found ++ i ∷ [] else found)
  index_issue-Reads n none i m found has h = h
  index_issue-Reads n (some other) i m found has h = elim (Bool-cases (bytes_eq other id)) [
    | inl e ↦
        let same : other ≡ id = (bytes_eq_iff other id).0 e in
        rw (lookup-insert other id (positions m other ++ n ∷ []) m, e)
          (subst (λ k. Reads all (positions m k ++ n ∷ []) (found ++ i ∷ [])) (sym same)
            (Reads-snoc all (positions m id) n i found h has))
    | inr e ↦ rw (lookup-insert other id (positions m other ++ n ∷ []) m, e) h
  ]

  index_issues-Reads :
      (n : ℕ) (rest : List ValidationIssue) (m : List (RuleId × List ℕ))
      (found : List ValidationIssue)
      → Tail all n rest
      → Reads all (positions m id) found
      → Reads all (positions (index_issues n rest m) id) (found ++ issues_about id rest)
  index_issues-Reads n [] m found tail h =
      subst (Reads all (positions m id)) (sym (append-nil found)) h
  index_issues-Reads n (i ∷ rest) m found tail h =
      subst (Reads all (positions (index_issues n (i ∷ rest) m) id))
        (joined (is_about id (issue_rule_id i)) refl)
        (index_issues-Reads (suc n) rest (index_issue n (issue_rule_id i) m) _ tail.1
          (index_issue-Reads n (issue_rule_id i) i m found tail.0 h))
    where
      joined :
          (b : Bool)
          → is_about id (issue_rule_id i) ≡ b
          → (if b then found ++ i ∷ [] else found) ++ issues_about id rest
            ≡ found ++ (if b then i ∷ issues_about id rest else issues_about id rest)
      joined true e = append_assoc found (i ∷ []) (issues_about id rest)
      joined false e = refl

-- The index of a validation error answers for every rule with the issues that name it, in the
-- order in which they were found, without an index out of range.
pub issues_for_rule-issues_about :
    (issues : List ValidationIssue) (id : RuleId)
    → issues_for_rule (some (new_validation_error issues)) id ≡ some (issues_about id issues)
unfolding issues_for_rule new_validation_error
issues_for_rule-issues_about issues id =
    Reads-issues_at issues _ _
      (index_issues-Reads id issues 0 issues [] [] (Tail-append [] issues issues refl) tt)
