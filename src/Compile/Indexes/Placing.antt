-- ===== src/Compile/Indexes/Placing.antt =====
-- What the layout loop adds to the identity index with each entry (compile_internal.go).
use rulite.Base.{
  ℕ, suc, List, [], ◌∷◌, ◌++◌, map, ◌≡◌, ◌∙◌, subst, Bool, true, false, ◌&&◌, Bytes, length, All,
  All-append, All-map, All-both, All-split, arith,
}
use rulite.Base.Sorting.{Pairs, Pairs-append, sort_stable-Pairs, All-sort_stable}
use rulite.Errors.{RuleId}
use rulite.Rule.{Rule, Group, Entry}
use rulite.Ledger.{RuleMetadata, GroupMetadata}
use rulite.Compile.Layout.{
  Tables, indexed, index_rules, placed_members, rule_runs_before, member_metadata,
}
use rulite.Compile.Accepts.{is_listed, rule_ok, rules_ok}
use rulite.Compile.Accepts.Entries.{rules_in, all_rules}
use rulite.Compile.Indexes.{
  Apart, bytes_eq_sym, IndexedFrom, index_rules-IndexedFrom, IndexedFrom-index_rules,
  IndexedFrom-append,
}

is_listed-Apart :
    (id : Bytes) (seen : List Bytes) → is_listed id seen ≡ false → All (λ j. Apart j id) seen
is_listed-Apart id [] h = tt
is_listed-Apart id (j ∷ js) h = (ground arith, is_listed-Apart id js (ground arith))

pub and-both : (a b : Bool) → (a && b) ≡ true → (a ≡ true) × (b ≡ true)
and-both a b h = (ground arith, ground arith)

pub All-swap {ℓ κ μ ν} :
    {A : Type ℓ} {B : Type κ} {R : A → B → Type μ} {S : B → A → Type ν}
    (f : (a : A) (b : B) → R a b → S b a) (xs : List A) (ys : List B)
    → All (λ a. All (R a) ys) xs
    → All (λ b. All (S b) xs) ys
All-swap f xs [] h = tt
All-swap f xs (y ∷ ys) h =
    (All-map (λ a k. f a y k.0) xs h, All-swap f xs ys (All-map (λ a k. k.1) xs h))

pub All-always {ℓ} : {A : Type ℓ} (xs : List A) → All (λ _. Unit {0}) xs
All-always [] = tt
All-always (x ∷ xs) = (tt, All-always xs)

pub All-indexed {ℓ κ} :
    {A : Type ℓ} (P : A → Type κ) (i : ℕ) (xs : List A) → All P xs → All (λ p. P p.1) (indexed i xs)
All-indexed P i [] h = tt
All-indexed P i (x ∷ xs) h = (h.0, All-indexed P (suc i) xs h.1)

pub Pairs-indexed {ℓ κ} :
    {A : Type ℓ} (R : A → A → Type κ) (i : ℕ) (xs : List A)
    → Pairs R xs
    → Pairs (λ p q. R p.1 q.1) (indexed i xs)
Pairs-indexed R i [] h = tt
Pairs-indexed R i (x ∷ xs) h = (All-indexed (R x) (suc i) xs h.0, Pairs-indexed R (suc i) xs h.1)

module _ {Host : Type 0} where
  abbrev pub Differ : Rule Host → Rule Host → Type 0
  Differ a b = Apart a.id b.id

  pub rules_ok-Pairs :
      (seen : List Bytes) (rs : List (Rule Host))
      → rules_ok seen rs ≡ true
      → Pairs Differ rs × All (λ r. All (λ j. Apart j r.id) seen) rs
  rules_ok-Pairs seen [] h = (tt, tt)
  rules_ok-Pairs seen (r ∷ rs) h =
      let (good, rest) = and-both (rule_ok seen r) (rules_ok (r.id ∷ seen) rs) h in
      let (pairs, apart) = rules_ok-Pairs (r.id ∷ seen) rs rest in
      (
        (All-map (λ q k. k.0) rs apart, pairs),
        (is_listed-Apart r.id seen (ground arith), All-map (λ q k. k.1) rs apart),
      )

  abbrev pub EntriesDiffer : Entry Host → Entry Host → Type 0
  EntriesDiffer e f = All (λ a. All (Differ a) (rules_in f)) (rules_in e)

  spread :
      (xs : List (Rule Host)) (es : List (Entry Host))
      → All (λ a. All (Differ a) (all_rules es)) xs
      → All (λ f. All (λ a. All (Differ a) (rules_in f)) xs) es
  spread xs [] h = tt
  spread xs (f ∷ es) h = (
    All-map (λ a k. (All-split (Differ a) (rules_in f) (all_rules es) k).0) xs h,
    spread xs es (All-map (λ a k. (All-split (Differ a) (rules_in f) (all_rules es) k).1) xs h),
  )

  pub all_rules-Pairs :
      (es : List (Entry Host))
      → Pairs Differ (all_rules es)
      → Pairs EntriesDiffer es × All (λ e. Pairs Differ (rules_in e)) es
  all_rules-Pairs [] h = (tt, tt)
  all_rules-Pairs (e ∷ es) h =
      let (own, across, rest) = Pairs-append Differ (rules_in e) (all_rules es) h in
      let (pairs, each) = all_rules-Pairs es rest in
      ((spread (rules_in e) es across, pairs), (own, each))

  pub flip_ids : (a b : Rule Host) → Differ a b → Differ b a
  flip_ids a b h = bytes_eq_sym b.id a.id ∙ h

  -- The rules of an entry, as they are placed.
  pub record Placement (e : Entry Host) (infos : List RuleMetadata) : Type 1 where
    pub pairs : Pairs (λ a b. Apart a.id b.id) infos
    pub same_ids : (P : RuleId → Type 0) → All (λ r. P r.id) (rules_in e) → All (λ i. P i.id) infos

  All-members :
      (P : RuleId → Type 0) (group : GroupMetadata) (i : ℕ) (members : List (Rule Host))
      → All (λ r. P r.id) members
      → All (λ m. P m.id) (map (member_metadata group) (indexed i members))
  All-members P group i [] h = tt
  All-members P group i (m ∷ ms) h = (h.0, All-members P group (suc i) ms h.1)

  Pairs-members :
      (group : GroupMetadata) (i : ℕ) (members : List (Rule Host))
      → Pairs Differ members
      → Pairs (λ a b. Apart a.id b.id) (map (member_metadata group) (indexed i members))
  Pairs-members group i [] h = tt
  Pairs-members group i (m ∷ ms) h =
      (All-members (λ k. Apart m.id k) group (suc i) ms h.0, Pairs-members group (suc i) ms h.1)

  pub placed_members-Placement :
      (e : Entry Host) (g : Group Host) (group : GroupMetadata)
      → rules_in e ≡ g.members
      → Pairs Differ g.members
      → Placement e (placed_members group g.members)
  unfolding placed_members
  placed_members-Placement e g group same h = record {
    pairs =
        sort_stable-Pairs (λ a b. Apart a.id b.id) rule_runs_before
          (λ a b (k : Apart a.id b.id). bytes_eq_sym b.id a.id ∙ k) _
          (Pairs-members group 0 g.members h);
    same_ids = λ P k.
        All-sort_stable rule_runs_before (λ m. P m.id) _
          (All-members P group 0 g.members (subst (All (λ r. P r.id)) same k));
  }

  -- The index has every placed rule, and the entries that follow share no identity with them.
  pub record IsFiled (t : Tables Host) (pending : List (ℕ × Entry Host)) : Type 0 where
    pub filed : IndexedFrom 0 t.rules t.by_id
    pub clear : All (λ f. All (λ r. All (λ q. Apart q.id r.id) (rules_in f.1)) t.rules) pending

  pub file :
      (e : Entry Host) (infos : List RuleMetadata) (t t' : Tables Host) (i : ℕ)
      (pending : List (ℕ × Entry Host))
      → Placement e infos
      → All (λ f. EntriesDiffer e f.1) pending
      → t'.rules ≡ t.rules ++ infos
      → t'.by_id ≡ index_rules (length t.rules) infos t.by_id
      → IsFiled t ((i, e) ∷ pending)
      → IsFiled t' pending
  file e infos t t' i pending placed differ rules by_id h = record {
    filed =
        rw (rules, by_id)
          (IndexedFrom-append 0 (length t.rules) t.rules infos _ (omega arith)
            (IndexedFrom-index_rules 0 (length t.rules) t.rules infos t.by_id
              (All-map (λ r k. placed.same_ids (λ id. Apart id r.id) k) t.rules h.clear.0) h.filed)
            (index_rules-IndexedFrom (length t.rules) infos t.by_id placed.pairs));
    clear = rw rules (
        All-both (λ f. All (λ r. All (λ q. Apart q.id r.id) (rules_in f.1)) t.rules)
          (λ f. EntriesDiffer e f.1)
          (λ f old new.
            All-append (λ r. All (λ q. Apart q.id r.id) (rules_in f.1)) t.rules infos old
              (placed.same_ids (λ id. All (λ q. Apart q.id id) (rules_in f.1))
                (All-map (λ a k. All-map (λ b (d : Differ a b). flip_ids a b d) (rules_in f.1) k)
                  (rules_in e) new)))
          pending h.clear.1 differ);
  }
