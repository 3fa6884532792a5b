-- ===== src/Base/Strings.antt =====
-- Go's strings: literals, UTF-8 (unicode/utf8), `strings.Split` and `strconv.Itoa`.
use Prim.Native.Nat.{ℕ, zero, suc, ◌+◌, ◌-◌, ◌*◌, ◌%◌, ◌/◌}
use Prim.Native.Char.{code}
use Prim.Native.String.{String}
use mathlib.Core.Bool.{Bool, true, false, ◌&&◌}
use mathlib.Core.Path.{◌≡◌, refl}
use mathlib.Core.Option.{Option, none, some}
use mathlib.Core.List.{List, [], ◌∷◌}
use rulite.Base.Tests.{ltb, leb, ◌==◌, if◌then◌else◌, Bytes}

-- The bytes of an ASCII literal.
abbrev pub codes : String → Bytes
codes String.[] = []
codes (String.◌∷◌ c s) = code c ∷ codes s

abbrev is_continuation : ℕ → Bool
is_continuation c = leb 0x80 c && leb c 0xbf

-- The lowest and the highest second byte behind a first one.
abbrev second_ok : ℕ → ℕ → Bool
second_ok a b =
    leb (if a == 0xe0 then 0xa0 else if a == 0xf0 then 0x90 else 0x80) b
    && leb b (if a == 0xed then 0x9f else if a == 0xf4 then 0x8f else 0xbf)

abbrev two_bytes : ℕ → Bytes → Option (ℕ × ℕ)
two_bytes a (b ∷ s) = if is_continuation b then some ((a - 0xc0) * 64 + (b - 0x80), 1) else none
two_bytes a s = none

abbrev three_bytes : ℕ → Bytes → Option (ℕ × ℕ)
three_bytes a (b ∷ c ∷ s) =
    if second_ok a b && is_continuation c
    then some ((a - 0xe0) * 4096 + (b - 0x80) * 64 + (c - 0x80), 2)
    else none
three_bytes a s = none

abbrev four_bytes : ℕ → Bytes → Option (ℕ × ℕ)
four_bytes a (b ∷ c ∷ d ∷ s) =
    if second_ok a b && is_continuation c && is_continuation d
    then some ((a - 0xf0) * 262144 + (b - 0x80) * 4096 + (c - 0x80) * 64 + (d - 0x80), 3)
    else none
four_bytes a s = none

-- The code point that starts with byte `a`, and the number of bytes it takes from the rest.
abbrev first_rune : ℕ → Bytes → Option (ℕ × ℕ)
first_rune a s =
    if ltb a 0x80
    then some (a, 0)
    else if ltb a 0xc2
    then none
    else if ltb a 0xe0
    then two_bytes a s
    else if ltb a 0xf0
    then three_bytes a s
    else if ltb a 0xf5
    then four_bytes a s
    else none

-- `utf8.ValidString`; the number counts the bytes of a code point that are behind it already.
valid_from : ℕ → Bytes → Bool
valid_from n [] = true
valid_from (suc n) (_ ∷ s) = valid_from n s
valid_from zero (a ∷ s) = elim (first_rune a s) [
  | none ↦ false
  | some (_, more) ↦ valid_from more s
]

unfoldable pub valid_string : Bytes → Bool
unfolding valid_from
valid_string s = valid_from 0 s

-- The code points that a string stands for; a byte that is not UTF-8 stands for U+FFFD.
runes_from : ℕ → Bytes → List ℕ
runes_from n [] = []
runes_from (suc n) (_ ∷ s) = runes_from n s
runes_from zero (a ∷ s) = elim (first_rune a s) [
  | none ↦ 0xfffd ∷ runes_from 0 s
  | some (rune, more) ↦ rune ∷ runes_from more s
]

unfoldable pub runes : Bytes → List ℕ
unfolding runes_from
runes s = runes_from 0 s

-- `strings.Split(s, sep)` for a separator of one byte: the first part, and the other ones.
abbrev pub cut_parts : ℕ → Bytes → Bytes × List Bytes
cut_parts sep [] = ([], [])
cut_parts sep (c ∷ s) =
    let (part, parts) = cut_parts sep s in
    if c == sep then ([], part ∷ parts) else (c ∷ part, parts)

-- `strconv.Itoa`
digits : ℕ → ℕ → Bytes → Bytes
digits zero n s = s
digits (suc fuel) n s =
    let rest = digits fuel (n / 10) ((b'0' + n % 10) ∷ s) in
    if ltb n 10 then (b'0' + n) ∷ s else rest

unfoldable pub decimal : ℕ → Bytes
unfolding digits
decimal n = digits (suc n) n []

decimal_runs : decimal 1024 ≡ codes "1024"
unfolding decimal
decimal_runs = refl

runes_run : runes (0xe2 ∷ 0x82 ∷ 0xac ∷ b'x' ∷ []) ≡ 0x20ac ∷ b'x' ∷ []
unfolding runes
runes_run = refl
