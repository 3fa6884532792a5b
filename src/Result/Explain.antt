-- ===== src/Result/Explain.antt =====
-- The views of a whole ledger: `Explanation` with its entries (explain.go, explain_entry.go) and
-- `Trace` (trace.go). `none` is an index out of range.
use rulite.Base.{
  ℕ, zero, suc, ◌+◌, ◌-◌, ◌≤◌, List, [], ◌∷◌, ◌≡◌, refl, sym, ap, ◌∙◌, subst, Option, none, some,
  get_elem?, length, arith,
}
use rulite.Ledger.{Result, SnapshotMetadata, CompiledEntry, GroupResult, RuleTiming}
use rulite.Execution.Records.{IsRecorded}
use rulite.Result.{RuleExecution, rule_at}
use rulite.Result.Groups.{group_at}
use rulite.Result.Views.{rule_at-IsTold, Tells}

abbrev cons_view : Option RuleExecution → Option (List RuleExecution) → Option (List RuleExecution)
cons_view none _ = none
cons_view (some x) none = none
cons_view (some x) (some xs) = some (x ∷ xs)

-- The views of `left` rules from `order` on.
abbrev pub views_from : Result → SnapshotMetadata → ℕ → ℕ → Option (List RuleExecution)
views_from r m zero order = some []
views_from r m (suc left) order = cons_view (rule_at r m order) (views_from r m left (suc order))

-- `Explanation.Rules`
abbrev explained_with : Result → Option SnapshotMetadata → Option (List RuleExecution)
explained_with r none = some []
explained_with r (some m) = views_from r m r.counts.total 0

unfoldable pub explained_rules : Result → Option (List RuleExecution)
explained_rules r = explained_with r r.metadata

-- `Explanation.entryCount` and `entryAt`.
abbrev entry_count : Result → List CompiledEntry → ℕ
entry_count r [] = r.counts.total
entry_count r (e ∷ es) = length (e ∷ es)

abbrev entry_at : List CompiledEntry → ℕ → Option CompiledEntry
entry_at [] order = some (record { start = order; stop = order + 1; group = none })
entry_at (e ∷ es) order = get_elem? (e ∷ es) order

pub record EntryExplanation : Type 0 where
  pub entry : CompiledEntry
  pub order : ℕ

abbrev cons_entry :
    ℕ → Option CompiledEntry → Option (List EntryExplanation) → Option (List EntryExplanation)
cons_entry order none _ = none
cons_entry order (some e) none = none
cons_entry order (some e) (some es) = some (record { entry = e; order = order } ∷ es)

abbrev entries_from : List CompiledEntry → ℕ → ℕ → Option (List EntryExplanation)
entries_from entries zero order = some []
entries_from entries (suc left) order =
    cons_entry order (entry_at entries order) (entries_from entries left (suc order))

-- `Explanation.Entries`
unfoldable pub explained_entries : Result → Option (List EntryExplanation)
explained_entries r = elim r.metadata [
  | none ↦ some []
  | some m ↦ entries_from m.entries (entry_count r m.entries) 0
]

-- `EntryExplanation.Rule`, `Group` and `Members`; the inner `none` is a wrong kind of entry.
abbrev some_rule : Option RuleExecution → Option (Option RuleExecution)
some_rule none = none
some_rule (some x) = some (some x)

unfoldable pub entry_rule :
    Result → SnapshotMetadata → EntryExplanation → Option (Option RuleExecution)
entry_rule r m x = elim x.entry.group [
  | some group ↦ some none
  | none ↦ some_rule (rule_at r m x.entry.start)
]

unfoldable pub entry_group : Result → EntryExplanation → Option GroupResult
entry_group r x = elim x.entry.group [
  | none ↦ none
  | some group ↦ some (group_at r group.index group)
]

unfoldable pub entry_members :
    Result → SnapshotMetadata → EntryExplanation → Option (List RuleExecution)
entry_members r m x = elim x.entry.group [
  | none ↦ some []
  | some group ↦ views_from r m (x.entry.stop - x.entry.start) x.entry.start
]

-- `RuleTrace`, and `Trace.Rules` and `Trace.Duration` of a result with a trace.
pub record RuleTrace : Type 0 where
  pub execution : RuleExecution
  pub timing : RuleTiming

abbrev cons_trace :
    Option RuleExecution → Option RuleTiming → Option (List RuleTrace) → Option (List RuleTrace)
cons_trace none _ _ = none
cons_trace (some x) none _ = none
cons_trace (some x) (some t) none = none
cons_trace (some x) (some t) (some rest) = some (record { execution = x; timing = t } ∷ rest)

abbrev traces_from : Result → SnapshotMetadata → List RuleTiming → ℕ → ℕ → Option (List RuleTrace)
traces_from r m timings zero order = some []
traces_from r m timings (suc left) order =
    cons_trace (rule_at r m order) (get_elem? timings order)
      (traces_from r m timings left (suc order))

unfoldable pub traced_rules : Result → SnapshotMetadata → Option (List RuleTrace)
traced_rules r m = elim r.trace [
  | none ↦ some []
  | some t ↦ traces_from r m t.rules r.counts.total 0
]

unfoldable pub traced_duration : Result → ℕ
traced_duration r = elim r.trace [ none ↦ 0 | some t ↦ t.duration ]

-- The views of the rules from `order` on, each telling of the rule at its own place.
abbrev pub AllTell : Result → SnapshotMetadata → ℕ → List RuleExecution → Type 0
AllTell r m order [] = Unit
AllTell r m order (x ∷ xs) =
    (get_elem? m.rules order ≡ some x.metadata)
    × (x.order ≡ order)
    × Tells r x.metadata order x
    × AllTell r m (suc order) xs

views_from-AllTell :
    (m : SnapshotMetadata) (n : ℕ) (r : Result) (left order : ℕ)
    → IsRecorded m n r
    → order + left ≤ length m.rules
    → (xs : List RuleExecution) × (views_from r m left order ≡ some xs)
      × (length xs ≡ left)
      × AllTell r m order xs
views_from-AllTell m n r zero order recorded inside = ([], refl, refl, tt)
views_from-AllTell m n r (suc left) order recorded inside =
    let (info, has, (x, answer, at, about, tells)) =
      rule_at-IsTold m n r order recorded (omega arith) in
    let (xs, rest, count, all) = views_from-AllTell m n r left (suc order) recorded (omega arith) in
    let own : get_elem? m.rules order ≡ some x.metadata = has ∙ ap some (sym about) in
    (
      x ∷ xs,
      rw (answer, rest) refl,
      ap suc count,
      (own, at, subst (λ i. Tells r i order x) (sym about) tells, all),
    )

-- Explanation.Rules of a recorded ledger that counts all its rules answers with one view for each
-- rule, in their order and without an index out of range, and each view tells the truth.
pub explained_rules-AllTell :
    (m : SnapshotMetadata) (n : ℕ) (r : Result)
    → IsRecorded m n r
    → r.counts.total ≡ length m.rules
    → (xs : List RuleExecution) × (explained_rules r ≡ some xs)
      × (length xs ≡ length m.rules)
      × AllTell r m 0 xs
unfolding explained_rules
explained_rules-AllTell m n r recorded total =
    let (xs, e, count, all) = views_from-AllTell m n r r.counts.total 0 recorded (omega arith) in
    (xs, ap (explained_with r) recorded.0 ∙ e, count ∙ total, all)
