-- ===== src/Rule/Ids.antt =====
-- `validRuleID` (compile_internal.go) over the bytes of an identity.
use rulite.Base.{ℕ, suc, List, [], ◌∷◌, Bool, true, ◌||◌, ◌&&◌, leb, ltb, ◌==◌, length}
use rulite.Errors.{RuleId}

abbrev pub is_alphanumeric : ℕ → Bool
is_alphanumeric c = (leb b'a' c && leb c b'z') || (leb b'0' c && leb c b'9')

abbrev pub is_separator : ℕ → Bool
is_separator c = c == b'.' || c == b'_' || c == b'/' || c == b'-'

-- The loop, from `index` on.
pub check_bytes : ℕ → List ℕ → Bool
check_bytes index [] = true
check_bytes index (c ∷ rest) =
    (is_alphanumeric c || (ltb 0 index && is_separator c)) && check_bytes (suc index) rest

unfoldable pub valid_rule_id : RuleId → Bool
unfolding check_bytes
valid_rule_id id = ltb 0 (length id) && leb (length id) 128 && check_bytes 0 id
