-- ===== src/Dynamic/Definition/Allowed.antt =====
-- The definitions that pass validation (dynamic/definition.go), described without its loop.
use rulite.Base.{
  ℕ, ◌+◌, ◌≤◌, List, [], ◌∷◌, ◌≡◌, refl, true, false, Option, none, some, Option-cases, inl, inr,
  Bytes, bytes_eq, length, All, arith,
}
use rulite.Base.Strings.{valid_string, runes}
use rulite.Rule.{trim_space}
use rulite.Dynamic.Failure.{DynamicError, Outcome, ok, failed, and_try}
use rulite.Dynamic.Json.{Decoder, check_json, max_document_bytes, max_params_bytes}
use rulite.Dynamic.Pattern.{valid_action_name}
use rulite.Dynamic.Definition.{
  Definition, take_bytes, take_texts, take_tag, take_tags, text_refusal, size_refusal,
  params_limits, params_refusal, unless, check_definition,
}

abbrev pub sum_lengths : List Bytes → ℕ
sum_lengths [] = 0
sum_lengths (text ∷ texts) = length text + sum_lengths texts

abbrev pub texts_of : Definition → List Bytes
texts_of d = d.id ∷ d.description ∷ d.condition ∷ d.action ∷ []

-- The bytes that a definition takes of the budget.
abbrev pub size_of : Definition → ℕ
size_of d =
    length d.id
    + (length d.description + (length d.condition + length d.action))
    + sum_lengths d.tags
    + length d.params

abbrev pub TagFits : Bytes → Type 0
TagFits tag = (length tag ≤ 128) × (valid_string tag ≡ true)

-- The rules for one definition, the budget that all share left aside.
pub record IsAllowed (decoder : Decoder) (d : Definition) : Type 0 where
  pub short : length d.description ≤ 4096
  pub few_tags : length d.tags ≤ 32
  pub named : valid_action_name d.action ≡ true
  pub readable : valid_string d.description ≡ true
  pub readable_condition : valid_string d.condition ≡ true
  pub not_blank : bytes_eq (trim_space (runes d.condition)) [] ≡ false
  pub tags_fit : All TagFits d.tags
  pub params_pass : check_json decoder d.params max_params_bytes params_limits ≡ none

and_try-ok {ℓ κ} :
    {A : Type ℓ} {B : Type κ} (o : Outcome A) (f : A → Outcome B) (b : B)
    → and_try o f ≡ ok b
    → (a : A) × (o ≡ ok a) × (f a ≡ ok b)
and_try-ok (ok a) f b h = (a, refl, h)
and_try-ok (failed e) f b h = ground arith

unless-ok :
    (o : Option DynamicError) (next : Outcome ℕ) (t : ℕ)
    → unless o next ≡ ok t
    → (o ≡ none) × (next ≡ ok t)
unless-ok none next t h = (refl, h)
unless-ok (some e) next t h = ground arith

take_bytes-ok :
    (used t : ℕ) (text : Bytes)
    → used ≤ max_document_bytes
    → take_bytes used text ≡ ok t
    → (t ≡ used + length text) × (t ≤ max_document_bytes)
take_bytes-ok used t text h e = ground arith

take_texts-ok :
    (used t : ℕ) (texts : List Bytes)
    → used ≤ max_document_bytes
    → take_texts used texts ≡ ok t
    → (t ≡ used + sum_lengths texts) × (t ≤ max_document_bytes)
unfolding take_texts
take_texts-ok used t [] h e = ground arith
take_texts-ok used t (text ∷ texts) h e =
    let (more, first, rest) = and_try-ok (take_bytes used text) _ t e in
    let (same, fits) = take_bytes-ok used more text h first in
    let (all, small) = take_texts-ok more t texts fits rest in (omega (arith, same, all), small)

take_tag-ok :
    (used t : ℕ) (tag : Bytes)
    → used ≤ max_document_bytes
    → take_tag used tag ≡ ok t
    → (t ≡ used + length tag) × (t ≤ max_document_bytes) × TagFits tag
take_tag-ok used t tag h e = ground arith

take_tags-ok :
    (used t : ℕ) (tags : List Bytes)
    → used ≤ max_document_bytes
    → take_tags used tags ≡ ok t
    → (t ≡ used + sum_lengths tags) × (t ≤ max_document_bytes) × All TagFits tags
unfolding take_tags
take_tags-ok used t [] h e = ground arith
take_tags-ok used t (tag ∷ tags) h e =
    let (more, first, rest) = and_try-ok (take_tag used tag) (λ a. take_tags a tags) t e in
    let (same, fits, good) = take_tag-ok used more tag h first in
    let (all, small, others) = take_tags-ok more t tags fits rest in
    (omega (arith, same, all), small, (good, others))

text_refusal-none :
    (d : Definition)
    → text_refusal d ≡ none
    → (valid_string d.description ≡ true)
      × (valid_string d.condition ≡ true)
      × (bytes_eq (trim_space (runes d.condition)) [] ≡ false)
text_refusal-none d h = ground arith

size_refusal-none :
    (d : Definition)
    → size_refusal d ≡ none
    → (length d.description ≤ 4096) × (length d.tags ≤ 32) × (valid_action_name d.action ≡ true)
size_refusal-none d h = ground arith

params_refusal-none :
    (decoder : Decoder) (d : Definition)
    → params_refusal decoder d ≡ none
    → check_json decoder d.params max_params_bytes params_limits ≡ none
params_refusal-none decoder d h =
    elim (Option-cases (check_json decoder d.params max_params_bytes params_limits)) [
      | inl e ↦ e
      | inr (x, e) ↦ ground (arith, e)
    ]

-- What a round of the loop says of its definition and of the budget.
pub check_definition-ok :
    (decoder : Decoder) (used t : ℕ) (d : Definition)
    → used ≤ max_document_bytes
    → check_definition decoder used d ≡ ok t
    → IsAllowed decoder d × (t ≡ used + size_of d) × (t ≤ max_document_bytes)
unfolding check_definition
check_definition-ok decoder used t d h e =
    let (sizes, e1) = unless-ok (size_refusal d) _ t e in
    let (texts, e2, e3) = and_try-ok (take_texts used (texts_of d)) _ t e1 in
    let (readable, e4) = unless-ok (text_refusal d) _ t e3 in
    let (tags, e5, e6) = and_try-ok (take_tags texts d.tags) _ t e4 in
    let (total, e7, e8) = and_try-ok (take_bytes tags d.params) _ t e6 in
    let (params, e9) = unless-ok (params_refusal decoder d) _ t e8 in
    let (same_texts, fit_texts) = take_texts-ok used texts (texts_of d) h e2 in
    let (same_tags, fit_tags, good_tags) = take_tags-ok texts tags d.tags fit_texts e5 in
    let (same_params, fit_params) = take_bytes-ok tags total d.params fit_tags e7 in
    let same : total ≡ t = ground arith in
    let (short, few, named) = size_refusal-none d sizes in
    let (a, b, c) = text_refusal-none d readable in
    (
      record {
        short = short;
        few_tags = few;
        named = named;
        readable = a;
        readable_condition = b;
        not_blank = c;
        tags_fit = good_tags;
        params_pass = params_refusal-none decoder d params;
      },
      omega (arith, same, same_params, same_tags, same_texts),
      ground (arith, same, fit_params),
    )
