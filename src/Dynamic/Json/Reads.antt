-- ===== src/Dynamic/Json/Reads.antt =====
-- Which documents `checkJSON` (dynamic/json.go) lets pass.
use rulite.Base.{
  ℕ, zero, suc, ◌+◌, ◌≤◌, ◌<◌, ◌≡◌, ◌≢◌, ◌↔◌, refl, Option, none, some, Option-cases, Bytes, length,
  inl, inr, subst, ap, ◌∙◌, arith, ltb, Bool-cases,
}
use rulite.Dynamic.Json.{
  Reading, token, end_of_input, broken, Decoder, Scan, complete, stopped, unfinished, Limits, round,
  after_reading, scan, after_root, finish_scan, check_json,
}

-- A token inside of the root value: within the limits, not null, and the n-th one.
abbrev Within : Limits → ℕ → ℕ → ℕ → Type 0
Within limits n kind depth =
    (n ≡ 0 → kind ≡ limits.root) × (n < limits.tokens) × (depth ≤ limits.depth) × (kind ≢ b'n')

-- The reads from the n-th one on are the rest of one root value, followed by the end of the input.
pub data IsRest (read : ℕ → Reading) (limits : Limits) : ℕ → Type 0 where
  closes :
      (n : ℕ) (kind : ℕ)
      → read n ≡ token kind 0
      → Within limits n kind 0
      → read (suc n) ≡ end_of_input
      → IsRest read limits n
  goes_on :
      (n : ℕ) (kind depth : ℕ)
      → read n ≡ token kind depth
      → 0 < depth
      → Within limits n kind depth
      → IsRest read limits (suc n)
      → IsRest read limits n

-- After the last token that the limit allows, the loop leaves.
round-ends :
    (limits : Limits) (n kind depth : ℕ) → limits.tokens ≤ n → round limits n kind depth ≢ none
round-ends limits n kind depth h = ground arith

after_reading-ends :
    (limits : Limits) (n : ℕ) (r : Reading) → limits.tokens ≤ n → after_reading limits n r ≢ none
after_reading-ends limits n (token kind depth) h = round-ends limits n kind depth h
after_reading-ends limits n end_of_input h = ground arith
after_reading-ends limits n (broken e) h = ground arith

round-finished : (limits : Limits) (n kind depth : ℕ) → round limits n kind depth ≢ some unfinished
round-finished limits n kind depth = ground arith

after_reading-finished :
    (limits : Limits) (n : ℕ) (r : Reading) → after_reading limits n r ≢ some unfinished
after_reading-finished limits n (token kind depth) = round-finished limits n kind depth
after_reading-finished limits n end_of_input = ground arith
after_reading-finished limits n (broken e) = ground arith

-- The loop over the tokens ends for every decoder, one that never stops included: it reads at most
-- one token more than the limit.
pub scan-ends :
    (read : ℕ → Reading) (limits : Limits) (fuel n : ℕ)
    → n ≤ limits.tokens
    → limits.tokens < n + fuel
    → scan fuel read limits n ≢ unfinished
unfolding scan
scan-ends read limits zero n h k = absurd (omega arith)
scan-ends read limits (suc fuel) n h k = elim (Option-cases (after_reading limits n (read n))) [
  | inl e ↦
      let more : n < limits.tokens = ground (arith, after_reading-ends limits n (read n)) in
      rw (e, scan) (scan-ends read limits fuel (suc n) (omega arith) (omega arith))
  | inr (s, e) ↦ rw (e, scan) (ground (arith, after_reading-finished limits n (read n)))
]

-- What the round of one reading says.
abbrev Answers : Limits → ℕ → Reading → Option Scan → Type 0
Answers limits n r none =
    (kind : ℕ) × (depth : ℕ) × (r ≡ token kind depth) × (0 < depth) × Within limits n kind depth
Answers limits n r (some (complete m)) =
    (m ≡ n) × (kind : ℕ) × (r ≡ token kind 0) × Within limits n kind 0
Answers limits n r (some (stopped e)) = Unit
Answers limits n r (some unfinished) = Unit

round-none :
    (limits : Limits) (n kind depth : ℕ)
    → round limits n kind depth ≡ none
    → (0 < depth) × Within limits n kind depth
round-none limits n kind depth e = ground arith

round-complete :
    (limits : Limits) (n kind depth m : ℕ)
    → round limits n kind depth ≡ some (complete m)
    → (m ≡ n) × (depth ≡ 0) × Within limits n kind depth
round-complete limits n kind depth m e = ground arith

round-Answers :
    (limits : Limits) (n kind depth : ℕ) (o : Option Scan)
    → round limits n kind depth ≡ o
    → Answers limits n (token kind depth) o
round-Answers limits n kind depth none e =
    let (opens, within) = round-none limits n kind depth e in (kind, depth, refl, opens, within)
round-Answers limits n kind depth (some (complete m)) e =
    let (same, closed, within) = round-complete limits n kind depth m e in
    (same, kind, ground arith, ground arith)
round-Answers limits n kind depth (some (stopped _)) e = tt
round-Answers limits n kind depth (some unfinished) e = tt

after_reading-Answers :
    (limits : Limits) (n : ℕ) (r : Reading) → Answers limits n r (after_reading limits n r)
after_reading-Answers limits n (token kind depth) =
    round-Answers limits n kind depth (round limits n kind depth) refl
after_reading-Answers limits n end_of_input = tt
after_reading-Answers limits n (broken _) = tt

after_root-none : (r : Reading) → after_root r ≡ none → r ≡ end_of_input
after_root-none (token _ _) e = ground arith
after_root-none end_of_input e = refl
after_root-none (broken _) e = ground arith

scan-more :
    (read : ℕ → Reading) (limits : Limits) (fuel n : ℕ)
    → after_reading limits n (read n) ≡ none
    → scan (suc fuel) read limits n ≡ scan fuel read limits (suc n)
unfolding scan
scan-more read limits fuel n e = rw (e, scan) refl

scan-left :
    (read : ℕ → Reading) (limits : Limits) (fuel n : ℕ) (s : Scan)
    → after_reading limits n (read n) ≡ some s
    → scan (suc fuel) read limits n ≡ s
unfolding scan
scan-left read limits fuel n s e = rw (e, scan) refl

left-IsRest :
    (read : ℕ → Reading) (limits : Limits) (n : ℕ) (s : Scan)
    → Answers limits n (read n) (some s)
    → finish_scan read s ≡ none
    → IsRest read limits n
left-IsRest read limits n (complete m) (same, kind, reads, within) h =
    closes n kind reads within (subst (λ k. read (suc k) ≡ end_of_input) same (after_root-none _ h))
left-IsRest read limits n (stopped e) answers h = ground arith
left-IsRest read limits n unfinished answers h = ground arith

scan-IsRest :
    (read : ℕ → Reading) (limits : Limits) (fuel n : ℕ)
    → finish_scan read (scan fuel read limits n) ≡ none
    → IsRest read limits n
unfolding scan
scan-IsRest read limits zero n h = ground arith
scan-IsRest read limits (suc fuel) n h = elim (Option-cases (after_reading limits n (read n))) [
  | inl e ↦
      let (kind, depth, reads, opens, within) =
        subst (Answers limits n (read n)) e (after_reading-Answers limits n (read n)) in
      goes_on n kind depth reads opens within
        (scan-IsRest read limits fuel (suc n) (rw (← scan-more read limits fuel n e) h))
  | inr (s, e) ↦
      left-IsRest read limits n s
        (subst (Answers limits n (read n)) e (after_reading-Answers limits n (read n)))
        (rw (← scan-left read limits fuel n s e) h)
]

round-closed :
    (limits : Limits) (n kind : ℕ)
    → Within limits n kind 0
    → round limits n kind 0 ≡ some (complete n)
round-closed limits n kind h = ground arith

round-open :
    (limits : Limits) (n kind depth : ℕ)
    → 0 < depth
    → Within limits n kind depth
    → round limits n kind depth ≡ none
round-open limits n kind depth opens h = ground arith

IsRest-scan :
    (read : ℕ → Reading) (limits : Limits) (fuel n : ℕ)
    → limits.tokens < n + fuel
    → IsRest read limits n
    → finish_scan read (scan fuel read limits n) ≡ none
unfolding scan
IsRest-scan read limits zero n h (closes _ kind reads within end) = absurd (omega arith)
IsRest-scan read limits zero n h (goes_on _ kind depth reads opens within rest) =
    absurd (omega arith)
IsRest-scan read limits (suc fuel) n h (closes _ kind reads within end) =
    let left =
      scan-left read limits fuel n (complete n)
        (ap (after_reading limits n) reads ∙ round-closed limits n kind within) in
    rw (left, end) refl
IsRest-scan read limits (suc fuel) n h (goes_on _ kind depth reads opens within rest) =
    let more =
      scan-more read limits fuel n
        (ap (after_reading limits n) reads ∙ round-open limits n kind depth opens within) in
    rw more (IsRest-scan read limits fuel (suc n) (omega arith) rest)

-- `checkJSON` lets a document pass exactly if it fits the byte limit and its tokens are one value
-- of the asked kind that ends with the input, without null, within the limits on depth and tokens.
pub check_json-IsRest :
    (decoder : Decoder) (document : Bytes) (byte_limit : ℕ) (limits : Limits)
    → (check_json decoder document byte_limit limits ≡ none)
      ↔ ((length document ≤ byte_limit) × IsRest (decoder document) limits 0)
unfolding check_json
check_json-IsRest decoder document byte_limit limits =
    elim (Bool-cases (ltb byte_limit (length document))) [
      | inl e ↦ rw e (ground arith)
      | inr e ↦ rw e (
          ground (
            arith,
            scan-IsRest (decoder document) limits (suc limits.tokens) 0,
            IsRest-scan (decoder document) limits (suc limits.tokens) 0,
          ))
    ]
