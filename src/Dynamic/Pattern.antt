-- ===== src/Dynamic/Pattern.antt =====
-- `actionName` (dynamic/registry.go): a regular expression, and its matcher by derivatives, which
-- reads the text once.
pub mod Language
pub mod Rounds
pub mod Names
use rulite.Base.{ℕ, List, [], ◌∷◌, Bool, true, false, ◌&&◌, ◌||◌, Bytes, leb, length, if◌then◌else◌}

pub data Pattern : Type 0 where
  nothing empty : Pattern
  byte_class : List (ℕ × ℕ) → Pattern
  seq alt : Pattern → Pattern → Pattern
  star : Pattern → Pattern

-- Whether a byte is in one of the ranges of a class.
abbrev pub in_class : ℕ → List (ℕ × ℕ) → Bool
in_class c [] = false
in_class c ((low, high) ∷ ranges) = (leb low c && leb c high) || in_class c ranges

abbrev pub nullable : Pattern → Bool
nullable nothing = false
nullable empty = true
nullable (byte_class ranges) = false
nullable (seq p q) = nullable p && nullable q
nullable (alt p q) = nullable p || nullable q
nullable (star p) = true

-- What is left to match behind a byte.
abbrev pub derive : ℕ → Pattern → Pattern
derive c nothing = nothing
derive c empty = nothing
derive c (byte_class ranges) = if in_class c ranges then empty else nothing
derive c (seq p q) = alt (seq (derive c p) q) (if nullable p then derive c q else nothing)
derive c (alt p q) = alt (derive c p) (derive c q)
derive c (star p) = seq (derive c p) (star p)

-- The whole text is matched, as `^` and `$` ask.
unfoldable pub match_string : Pattern → Bytes → Bool
match_string p [] = nullable p
match_string p (c ∷ s) = match_string (derive c p) s

abbrev one_byte : ℕ → Pattern
one_byte c = byte_class ((c, c) ∷ [])

-- `[a-z][a-z0-9_]*`
abbrev component : Pattern
component =
    seq (byte_class ((b'a', b'z') ∷ []))
      (star (byte_class ((b'a', b'z') ∷ (b'0', b'9') ∷ (b'_', b'_') ∷ [])))

-- `^[a-z][a-z0-9_]*(\.[a-z][a-z0-9_]*)*/v[1-9][0-9]*$`
abbrev pub action_name : Pattern
action_name = seq component (
    seq (star (seq (one_byte b'.') component)) (
      seq (one_byte b'/') (
        seq (one_byte b'v')
          (seq (byte_class ((b'1', b'9') ∷ [])) (star (byte_class ((b'0', b'9') ∷ [])))))))

-- `len(name) <= 128 && actionName.MatchString(name)`
unfoldable pub valid_action_name : Bytes → Bool
unfolding match_string
valid_action_name name = leb (length name) 128 && match_string action_name name
