-- ===== src/Compile/Pairs/Whole.antt =====
-- Where the rules and the callbacks of whole compiled sets come from.
use rulite.Base.{ℕ, List, [], ◌≡◌, Bool, true, false, length, Zip}
use rulite.Rule.{Entry}
use rulite.Ledger.{CompiledEntry, CompiledSnapshot}
use rulite.Compile.Layout.{any_group}
use rulite.Compile.Places.{Spans}
use rulite.Compile.Pairs.{IsFrom, count_rules}

-- The entries, with groups and without them, beside `n` rules.
abbrev pub IsSpanned : Bool → List CompiledEntry → ℕ → Type 0
IsSpanned true entries n = Spans 0 entries n
IsSpanned false entries n = entries ≡ []

module _ {Host : Type 0} where
  -- What a compiled set has of its definitions.
  pub record IsPaired (definitions : List (Entry Host)) (s : CompiledSnapshot Host) : Type 0 where
    pub paired : Zip (IsFrom definitions) s.metadata.rules s.callbacks
    pub counted : length s.metadata.rules ≡ count_rules definitions
    pub spanned : IsSpanned (any_group definitions) s.metadata.entries (length s.metadata.rules)
