-- ===== src/Rule/Trim.antt =====
-- Descriptive texts, as their code points, and `strings.TrimSpace`.
use mathlib.Core.List.{reverse}
use rulite.Base.{ℕ, List, [], ◌∷◌, Bool, ◌||◌, ◌&&◌, leb, ◌==◌, if◌then◌else◌}

abbrev pub Text : Type 0
Text = List ℕ

-- `unicode.IsSpace`
abbrev pub is_space : ℕ → Bool
is_space c =
    (leb 9 c && leb c 13)
    || c == 32
    || c == 0x85
    || c == 0xa0
    || c == 0x1680
    || (leb 0x2000 c && leb c 0x200a)
    || c == 0x2028
    || c == 0x2029
    || c == 0x202f
    || c == 0x205f
    || c == 0x3000

unfoldable pub trim_left : Text → Text
trim_left [] = []
trim_left (c ∷ t) = if is_space c then trim_left t else c ∷ t

unfoldable pub trim_space : Text → Text
unfolding trim_left
trim_space t = reverse (trim_left (reverse (trim_left t)))
