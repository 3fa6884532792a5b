-- ===== src/Dynamic/Pattern/Rounds.antt =====
-- Classes and stars of an expression, as the texts that they describe.
use rulite.Base.{ℕ, List, [], ◌∷◌, ◌++◌, ◌≡◌, refl, sym, ap, subst, ◌∙◌, true, Bytes, All}
use rulite.Dynamic.Pattern.{Pattern, byte_class, star, in_class}
use rulite.Dynamic.Pattern.Language.{Matches, is_byte, none_of, more_of}

-- The one byte of a class.
abbrev pub OneOf : List (ℕ × ℕ) → Bytes → Type 0
OneOf ranges s = (c : ℕ) × (in_class c ranges ≡ true) × (s ≡ c ∷ [])

pub class-OneOf :
    {ranges : List (ℕ × ℕ)} {s : Bytes} → Matches (byte_class ranges) s → OneOf ranges s
class-OneOf (is_byte c ranges within) = (c, within, refl)

abbrev pub joined : List Bytes → Bytes
joined [] = []
joined (s ∷ parts) = s ++ joined parts

-- The rounds of a star.
abbrev pub Rounds : Pattern → Bytes → Type 0
Rounds p u = (parts : List Bytes) × All (Matches p) parts × (joined parts ≡ u)

pub star-Rounds : {p : Pattern} {u : Bytes} → Matches (star p) u → Rounds p u
star-Rounds (none_of p) = ([], tt, refl)
star-Rounds (more_of p c s t u m k same) =
    let (parts, all, spelled) = star-Rounds k in
    ((c ∷ s) ∷ parts, (m, all), ap (λ r. c ∷ s ++ r) spelled ∙ ap (λ r. c ∷ r) same)

joined-All :
    (ranges : List (ℕ × ℕ)) (P : ℕ → Type 0)
    → ((c : ℕ) → in_class c ranges ≡ true → P c)
    → (parts : List Bytes) → All (Matches (byte_class ranges)) parts
    → All P (joined parts)
joined-All ranges P within [] h = tt
joined-All ranges P within (s ∷ parts) h =
    let (c, inside, same) = class-OneOf h.0 in
    subst (λ r. All P (r ++ joined parts)) (sym same)
      (within c inside, joined-All ranges P within parts h.1)

-- A star over a class describes the texts of its bytes.
pub star_class-All :
    (ranges : List (ℕ × ℕ)) (P : ℕ → Type 0) (u : Bytes)
    → ((c : ℕ) → in_class c ranges ≡ true → P c)
    → Matches (star (byte_class ranges)) u
    → All P u
star_class-All ranges P u within m =
    let (parts, all, spelled) = star-Rounds m in
    subst (All P) spelled (joined-All ranges P within parts all)

pub All-star_class :
    (ranges : List (ℕ × ℕ)) (P : ℕ → Type 0) (u : Bytes)
    → ((c : ℕ) → P c → in_class c ranges ≡ true)
    → All P u
    → Matches (star (byte_class ranges)) u
All-star_class ranges P [] within h = none_of _
All-star_class ranges P (c ∷ u) within h =
    more_of _ c [] u u (is_byte c ranges (within c h.0)) (All-star_class ranges P u within h.1) refl
