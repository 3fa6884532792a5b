-- ===== src/Dynamic/Pattern/Names.antt =====
-- The names that dynamic/registry.go accepts for actions, described without an expression.
use rulite.Base.{
  ℕ, List, [], ◌∷◌, ◌++◌, ◌≡◌, ◌≤◌, ◌↔◌, refl, sym, ap, ◌∙◌, true, Bytes, length, All, inl, inr,
  ◌⊎◌, arith,
}
use rulite.Dynamic.Pattern.{
  Pattern, byte_class, seq, star, in_class, one_byte, component, action_name, valid_action_name,
  match_string,
}
use rulite.Dynamic.Pattern.Language.{
  Matches, is_byte, both, none_of, more_of, seq-Parts, match_string-Matches,
}
use rulite.Dynamic.Pattern.Rounds.{class-OneOf, joined, star-Rounds, star_class-All, All-star_class}

abbrev pub IsLetter : ℕ → Type 0
IsLetter c = (b'a' ≤ c) × (c ≤ b'z')

abbrev pub IsDigit : ℕ → Type 0
IsDigit c = (b'0' ≤ c) × (c ≤ b'9')

abbrev pub IsNameByte : ℕ → Type 0
IsNameByte c = IsLetter c ⊎ (IsDigit c ⊎ (c ≡ b'_'))

-- A lower-case letter, and letters, digits and underscores behind it.
pub record IsComponent (text : Bytes) : Type 0 where
  pub initial : ℕ
  pub others : Bytes
  pub letter : IsLetter initial
  pub bytes : All IsNameByte others
  pub spelled : text ≡ initial ∷ others

-- Texts with a dot in front of each.
abbrev pub dotted : List Bytes → Bytes
dotted [] = []
dotted (text ∷ texts) = b'.' ∷ text ++ dotted texts

-- Components with dots between them, and behind `/v` a number without a leading zero.
pub record IsActionName (name : Bytes) : Type 0 where
  pub first : Bytes
  pub more : List Bytes
  pub lead : ℕ
  pub digits : Bytes
  pub first_component : IsComponent first
  pub more_components : All IsComponent more
  pub lead_digit : (b'1' ≤ lead) × (lead ≤ b'9')
  pub only_digits : All IsDigit digits
  pub spelled : name ≡ first ++ (dotted more ++ b'/' ∷ b'v' ∷ lead ∷ digits)

abbrev name_ranges : List (ℕ × ℕ)
name_ranges = (b'a', b'z') ∷ (b'0', b'9') ∷ (b'_', b'_') ∷ []

abbrev digit_ranges : List (ℕ × ℕ)
digit_ranges = (b'0', b'9') ∷ []

in_class-IsNameByte : (c : ℕ) → in_class c name_ranges ≡ true → IsNameByte c
in_class-IsNameByte c h = ground arith

IsNameByte-in_class : (c : ℕ) → IsNameByte c → in_class c name_ranges ≡ true
IsNameByte-in_class c (inl h) = ground (arith, h)
IsNameByte-in_class c (inr (inl h)) = ground (arith, h)
IsNameByte-in_class c (inr (inr h)) = ground (arith, h)

component-IsComponent : (s : Bytes) → Matches component s → IsComponent s
component-IsComponent s m =
    let (front, back, first, rest, same) = seq-Parts m in
    let (c, within, alone) = class-OneOf first in
    record {
      initial = c;
      others = back;
      letter = ground arith;
      bytes = star_class-All name_ranges IsNameByte back in_class-IsNameByte rest;
      spelled = sym same ∙ ap (λ r. r ++ back) alone;
    }

IsComponent-component : (s : Bytes) → IsComponent s → Matches component s
IsComponent-component s h =
    both _ _ (h.initial ∷ []) h.others s (is_byte h.initial _ (ground (arith, h.letter)))
      (All-star_class name_ranges IsNameByte h.others IsNameByte-in_class h.bytes) (sym h.spelled)

-- A component behind a dot.
dot-IsComponent :
    (s : Bytes)
    → Matches (seq (one_byte b'.') component) s
    → (t : Bytes) × IsComponent t × (s ≡ b'.' ∷ t)
dot-IsComponent s m =
    let (front, back, dot, rest, same) = seq-Parts m in
    let (c, within, alone) = class-OneOf dot in
    let is_dot : c ≡ b'.' = ground arith in
    (
      back,
      component-IsComponent back rest,
      sym same ∙ ap (λ r. r ++ back) alone ∙ ap (λ d. d ∷ back) is_dot,
    )

parts-dotted :
    (parts : List Bytes)
    → All (Matches (seq (one_byte b'.') component)) parts
    → (more : List Bytes) × All IsComponent more × (joined parts ≡ dotted more)
parts-dotted [] h = ([], tt, refl)
parts-dotted (s ∷ parts) h =
    let (t, component_t, same) = dot-IsComponent s h.0 in
    let (more, all, spelled) = parts-dotted parts h.1 in
    (
      t ∷ more,
      (component_t, all),
      ap (λ r. r ++ joined parts) same ∙ ap (λ r. b'.' ∷ t ++ r) spelled,
    )

dotted-Matches :
    (more : List Bytes)
    → All IsComponent more
    → Matches (star (seq (one_byte b'.') component)) (dotted more)
dotted-Matches [] h = none_of _
dotted-Matches (t ∷ more) h =
    more_of _ b'.' t (dotted more) (t ++ dotted more)
      (both _ _ (b'.' ∷ []) t (b'.' ∷ t) (is_byte b'.' _ refl) (IsComponent-component t h.0) refl)
      (dotted-Matches more h.1) refl

abbrev version : Pattern
version =
    seq (one_byte b'/')
      (seq (one_byte b'v') (seq (byte_class ((b'1', b'9') ∷ [])) (star (byte_class digit_ranges))))

-- A number behind `/v`.
abbrev IsVersion : Bytes → Type 0
IsVersion s =
    (lead : ℕ) × (digits : Bytes) × ((b'1' ≤ lead) × (lead ≤ b'9'))
    × All IsDigit digits
    × (s ≡ b'/' ∷ b'v' ∷ lead ∷ digits)

number_of :
    (s : Bytes)
    → Matches (seq (byte_class ((b'1', b'9') ∷ [])) (star (byte_class digit_ranges))) s
    → (lead : ℕ) × (digits : Bytes) × ((b'1' ≤ lead) × (lead ≤ b'9'))
      × All IsDigit digits
      × (s ≡ lead ∷ digits)
number_of s m =
    let (front, back, first, rest, same) = seq-Parts m in
    let (c, within, alone) = class-OneOf first in
    (
      c,
      back,
      ground arith,
      star_class-All digit_ranges IsDigit back (λ d inside. ground arith) rest,
      sym same ∙ ap (λ r. r ++ back) alone,
    )

-- A text behind one byte.
behind_byte :
    (b : ℕ) (p : Pattern) (s : Bytes)
    → Matches (seq (one_byte b) p) s
    → (t : Bytes) × Matches p t × (s ≡ b ∷ t)
behind_byte b p s m =
    let (front, back, first, rest, same) = seq-Parts m in
    let (c, within, alone) = class-OneOf first in
    let here : c ≡ b = ground arith in
    (back, rest, sym same ∙ ap (λ r. r ++ back) alone ∙ ap (λ d. d ∷ back) here)

version-IsVersion : (s : Bytes) → Matches version s → IsVersion s
version-IsVersion s m =
    let (t, rest, slash) = behind_byte b'/' _ s m in
    let (u, number, letter) = behind_byte b'v' _ t rest in
    let (lead, digits, first, all, same) = number_of u number in
    (lead, digits, first, all, slash ∙ ap (λ r. b'/' ∷ r) letter ∙ ap (λ r. b'/' ∷ b'v' ∷ r) same)

IsVersion-version :
    (lead : ℕ) (digits : Bytes)
    → (b'1' ≤ lead) × (lead ≤ b'9')
    → All IsDigit digits
    → Matches version (b'/' ∷ b'v' ∷ lead ∷ digits)
IsVersion-version lead digits first all =
    let number =
      both _ _ (lead ∷ []) digits (lead ∷ digits)
        (is_byte lead ((b'1', b'9') ∷ []) (ground (arith, first)))
        (All-star_class digit_ranges IsDigit digits (λ d h. ground (arith, h)) all) refl in
    both _ _ (b'/' ∷ []) (b'v' ∷ lead ∷ digits) _ (is_byte b'/' _ refl)
      (both _ _ (b'v' ∷ []) (lead ∷ digits) _ (is_byte b'v' _ refl) number refl) refl

Matches-IsActionName : (name : Bytes) → Matches action_name name → IsActionName name
Matches-IsActionName name m =
    let (front, back, head, behind, same) = seq-Parts m in
    let (middle, end, rounds, version_end, rest) = seq-Parts behind in
    let (parts, all, spelled) = star-Rounds rounds in
    let (more, components, dots) = parts-dotted parts all in
    let (lead, digits, first, numbers, tail) = version-IsVersion end version_end in
    record {
      first = front;
      more = more;
      lead = lead;
      digits = digits;
      first_component = component-IsComponent front head;
      more_components = components;
      lead_digit = first;
      only_digits = numbers;
      spelled =
          sym same
          ∙ ap (λ r. front ++ r)
              (sym rest
                ∙ ap (λ r. r ++ end) (sym spelled ∙ dots)
                ∙ ap (λ r. dotted more ++ r) tail);
    }

IsActionName-Matches : (name : Bytes) → IsActionName name → Matches action_name name
IsActionName-Matches name h =
    both _ _ h.first _ name (IsComponent-component h.first h.first_component)
      (both _ _ (dotted h.more) _ _ (dotted-Matches h.more h.more_components)
        (IsVersion-version h.lead h.digits h.lead_digit h.only_digits) refl)
      (sym h.spelled)

-- A name is accepted exactly if it has at most 128 bytes and consists of components with dots
-- between them, each a lower-case letter with letters, digits and underscores behind it, and behind
-- these of `/v` and a number without a leading zero.
pub valid_action_name-IsActionName :
    (name : Bytes) → (valid_action_name name ≡ true) ↔ ((length name ≤ 128) × IsActionName name)
unfolding valid_action_name
valid_action_name-IsActionName name =
    let (there, back) = match_string-Matches action_name name in
    let named : (match_string action_name name ≡ true) ↔ IsActionName name =
      (λ h. Matches-IsActionName name (there h), λ h. back (IsActionName-Matches name h)) in
    ground (arith, named)
