-- ===== src/Dynamic/Definition/Passes.antt =====
-- Validation of definitions that keep to its rules (dynamic/definition.go).
use rulite.Base.{
  ℕ, suc, ◌+◌, ◌≤◌, List, [], ◌∷◌, ◌++◌, ◌≡◌, refl, sym, ap, ◌∙◌, subst, Option, none, some, inl,
  inr, ◌⊎◌, Bytes, length, All, arith,
}
use rulite.Dynamic.Failure.{DynamicError, Outcome, ok, failed, and_try}
use rulite.Dynamic.Json.{Decoder, max_document_bytes}
use rulite.Dynamic.Definition.{
  Definition, take_bytes, take_texts, take_tag, take_tags, text_refusal, size_refusal,
  params_refusal, check_definition, validate_each, definition_failed,
}
use rulite.Dynamic.Definition.Allowed.{
  IsAllowed, TagFits, sum_lengths, size_of, texts_of, check_definition-ok,
}

take_bytes-fits :
    (used : ℕ) (text : Bytes)
    → used + length text ≤ max_document_bytes
    → take_bytes used text ≡ ok (used + length text)
take_bytes-fits used text h = ground arith

take_texts-fits :
    (used : ℕ) (texts : List Bytes)
    → used + sum_lengths texts ≤ max_document_bytes
    → take_texts used texts ≡ ok (used + sum_lengths texts)
unfolding take_texts
take_texts-fits used [] h = ap ok (omega arith)
take_texts-fits used (text ∷ texts) h =
    ap (λ o. and_try o (λ more. take_texts more texts)) (take_bytes-fits used text (omega arith))
    ∙ take_texts-fits (used + length text) texts (omega arith)
    ∙ ap ok (omega arith)

take_tag-fits :
    (used : ℕ) (tag : Bytes)
    → used + length tag ≤ max_document_bytes
    → TagFits tag
    → take_tag used tag ≡ ok (used + length tag)
take_tag-fits used tag h fits = ground arith

take_tags-fits :
    (used : ℕ) (tags : List Bytes)
    → used + sum_lengths tags ≤ max_document_bytes
    → All TagFits tags
    → take_tags used tags ≡ ok (used + sum_lengths tags)
unfolding take_tags
take_tags-fits used [] h fit = ap ok (omega arith)
take_tags-fits used (tag ∷ tags) h (fits, fit) =
    ap (λ o. and_try o (λ more. take_tags more tags)) (take_tag-fits used tag (omega arith) fits)
    ∙ take_tags-fits (used + length tag) tags (omega arith) fit
    ∙ ap ok (omega arith)

size_refusal-allowed :
    (decoder : Decoder) (d : Definition) → IsAllowed decoder d → size_refusal d ≡ none
size_refusal-allowed decoder d h = ground (arith, h.short, h.few_tags, h.named)

text_refusal-allowed :
    (decoder : Decoder) (d : Definition) → IsAllowed decoder d → text_refusal d ≡ none
text_refusal-allowed decoder d h = ground (arith, h.readable, h.readable_condition, h.not_blank)

params_refusal-allowed :
    (decoder : Decoder) (d : Definition) → IsAllowed decoder d → params_refusal decoder d ≡ none
params_refusal-allowed decoder d h = rw (h.params_pass, params_refusal) refl

check_definition-allowed :
    (decoder : Decoder) (used : ℕ) (d : Definition)
    → IsAllowed decoder d
    → used + size_of d ≤ max_document_bytes
    → check_definition decoder used d ≡ ok (used + size_of d)
unfolding check_definition
check_definition-allowed decoder used d h fits =
    let texts = used + sum_lengths (texts_of d) in
    let tags = texts + sum_lengths d.tags in
    rw
      (
        size_refusal-allowed decoder d h,
        take_texts-fits used (texts_of d) (omega arith),
        text_refusal-allowed decoder d h,
        take_tags-fits texts d.tags (omega arith) h.tags_fit,
        take_bytes-fits tags d.params (omega arith),
        params_refusal-allowed decoder d h,
      )
      (ap ok (omega arith))

abbrev pub total_size : List Definition → ℕ
total_size [] = 0
total_size (d ∷ ds) = size_of d + total_size ds

abbrev pub AllAllowed : Decoder → List Definition → Type 0
AllAllowed decoder ds = All (IsAllowed decoder) ds

validate_each-step :
    (decoder : Decoder) (index used t : ℕ) (d : Definition) (ds : List Definition)
    → check_definition decoder used d ≡ ok t
    → validate_each decoder index used (d ∷ ds) ≡ validate_each decoder (suc index) t ds
unfolding validate_each
validate_each-step decoder index used t d ds e = rw (e, validate_each) refl

validate_each-stop :
    (decoder : Decoder) (index used : ℕ) (d : Definition) (ds : List Definition) (e : DynamicError)
    → check_definition decoder used d ≡ failed e
    → validate_each decoder index used (d ∷ ds) ≡ some (definition_failed index e)
unfolding validate_each
validate_each-stop decoder index used d ds x e = rw (e, validate_each) refl

pub validate_each-allowed :
    (decoder : Decoder) (index used : ℕ) (ds : List Definition)
    → AllAllowed decoder ds
    → used + total_size ds ≤ max_document_bytes
    → validate_each decoder index used ds ≡ none
unfolding validate_each
validate_each-allowed decoder index used [] h fits = refl
validate_each-allowed decoder index used (d ∷ ds) (h, hs) fits =
    validate_each-step decoder index used (used + size_of d) d ds
      (check_definition-allowed decoder used d h (omega arith))
    ∙ validate_each-allowed decoder (suc index) (used + size_of d) ds hs (omega arith)

pub Outcome-cases {ℓ} :
    {A : Type ℓ} (o : Outcome A) → ((e : DynamicError) × (o ≡ failed e)) ⊎ ((a : A) × (o ≡ ok a))
Outcome-cases (failed e) = inl (e, refl)
Outcome-cases (ok a) = inr (a, refl)

-- The first definition that is not allowed, or that is too much for what those before it leave of
-- the budget.
pub record StopsAt (decoder : Decoder) (index used : ℕ) (ds : List Definition)
    (error : DynamicError) : Type 0 where
  pub before : List Definition
  pub after : List Definition
  pub definition : Definition
  pub cause : DynamicError
  pub shown : error ≡ definition_failed (index + length before) cause
  pub split : ds ≡ before ++ definition ∷ after
  pub allowed : AllAllowed decoder before
  pub fits : used + total_size before ≤ max_document_bytes
  pub refused : ¬ (
      IsAllowed decoder definition
      × (used + total_size before + size_of definition ≤ max_document_bytes))
  pub caused : check_definition decoder (used + total_size before) definition ≡ failed cause

-- How validation goes through the definitions.
abbrev pub Passes : Decoder → ℕ → ℕ → List Definition → Option DynamicError → Type 0
Passes decoder index used ds none =
    AllAllowed decoder ds × (used + total_size ds ≤ max_document_bytes)
Passes decoder index used ds (some e) = StopsAt decoder index used ds e

Passes-cons :
    (decoder : Decoder) (index used : ℕ) (d : Definition) (ds : List Definition)
    (o : Option DynamicError)
    → IsAllowed decoder d
    → Passes decoder (suc index) (used + size_of d) ds o
    → Passes decoder index used (d ∷ ds) o
Passes-cons decoder index used d ds none h (hs, fits) = ((h, hs), omega arith)
Passes-cons decoder index used d ds (some e) h k =
    let same : used + size_of d + total_size k.before ≡ used + (size_of d + total_size k.before) =
      omega arith in
    record {
      before = d ∷ k.before;
      after = k.after;
      definition = k.definition;
      cause = k.cause;
      shown = k.shown ∙ ap (λ n. definition_failed n k.cause) (omega arith);
      split = ap (λ xs. d ∷ xs) k.split;
      allowed = (h, k.allowed);
      fits = omega (arith, k.fits);
      refused = λ (x, y). k.refused (x, omega arith);
      caused = subst (λ n. check_definition decoder n k.definition ≡ failed k.cause) same k.caused;
    }

refused_definition :
    (decoder : Decoder) (used : ℕ) (d : Definition) (e : DynamicError)
    → check_definition decoder used d ≡ failed e
    → ¬ (IsAllowed decoder d × (used + size_of d ≤ max_document_bytes))
refused_definition decoder used d e stop (h, fits) =
    let same = sym stop ∙ check_definition-allowed decoder used d h fits in absurd (ground arith)

pub validate_each-Passes :
    (decoder : Decoder) (index used : ℕ) (ds : List Definition)
    → used ≤ max_document_bytes
    → Passes decoder index used ds (validate_each decoder index used ds)
unfolding validate_each
validate_each-Passes decoder index used [] h = (tt, omega arith)
validate_each-Passes decoder index used (d ∷ ds) h =
    elim (Outcome-cases (check_definition decoder used d)) [
      | inl (e, stop) ↦
          subst (Passes decoder index used (d ∷ ds))
            (sym (validate_each-stop decoder index used d ds e stop))
            (let same : used ≡ used + 0 = omega arith in
              record {
                before = [];
                after = ds;
                definition = d;
                cause = e;
                shown = ap (λ n. definition_failed n e) (omega arith);
                split = refl;
                allowed = tt;
                fits = omega arith;
                refused = λ (x, y). refused_definition decoder used d e stop (x, omega arith);
                caused = subst (λ n. check_definition decoder n d ≡ failed e) same stop;
              })
      | inr (t, goes) ↦
          let (allowed, same, fits) = check_definition-ok decoder used t d h goes in
          subst (Passes decoder index used (d ∷ ds))
            (sym (validate_each-step decoder index used t d ds goes))
            (Passes-cons decoder index used d ds _ allowed (
              subst (λ n. Passes decoder (suc index) n ds (validate_each decoder (suc index) t ds))
                same (validate_each-Passes decoder (suc index) t ds fits)))
    ]
