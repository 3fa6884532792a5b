-- ===== src/World.antt =====
-- What a callback runs in. `Host` is everything that the library does not own: the business state
-- behind the `*T` pointers, the captures of closures, observers, the clock, and whether a context is
-- done. The library's own shared store is the list of condition recordings
-- (condition_trace_internal.go), which contexts point into.
use rulite.Base.{ℕ, List, Bool, Option, none, some, [], ◌∷◌, ◌++◌, length, set, get_elem?}
use rulite.Base.Int.{ℤ}
use rulite.Errors.{Err, Payload}

pub data ConditionKind : Type 0 where
  condition_leaf condition_all condition_any condition_not : ConditionKind

pub data ConditionOutcome : Type 0 where
  not_evaluated outcome_false outcome_true outcome_error : ConditionOutcome

pub data ConditionNotEvaluatedReason : Type 0 where
  reason_none short_circuit : ConditionNotEvaluatedReason

-- `ConditionTrace` without its children.
pub record NodeView : Type 0 where
  pub kind : ConditionKind
  pub index : ℤ
  pub outcome : ConditionOutcome
  pub err : Option Err
  pub reason : ConditionNotEvaluatedReason

-- `conditionRecording`; the children are the places of other recordings in the store.
pub record Recording : Type 0 where
  pub view : NodeView
  pub started : Bool
  pub finished : Bool
  pub operator : Bool
  pub opaque : Bool
  pub children : List ℕ

pub record World (Host : Type 0) : Type 0 where
  pub recordings : List Recording
  pub host : Host

-- A call returns, or leaves by a panic; what it wrote stays written.
pub data Call (Host A : Type 0) : Type 0 where
  returned : A → World Host → Call Host A
  panicked : Payload → World Host → Call Host A

-- `context.Context`: reading `Err` may find that time has passed. `recorder` is the value under
-- `conditionRecorderKey`, the one value that the library stores in a context.
pub record Context (Host : Type 0) : Type 0 where
  pub err : Host → Option Err × Host
  pub cause : Host → Option Err
  pub recorder : Option ℕ

-- Pointers to the caller's state are addresses in the host.
abbrev pub Pointer : Type 0
Pointer = ℕ

abbrev pub Eff : Type 0 → Type 0 → Type 0
Eff Host A = World Host → Call Host A

module _ {Host : Type 0} where
  infixl 5 ◌>>=◌ ◌>>◌
  abbrev pub ◌>>=◌ : {A B : Type 0} → Eff Host A → (A → Eff Host B) → Eff Host B
  ◌>>=◌ m f w = elim (m w) [ returned a w' ↦ f a w' | panicked p w' ↦ panicked p w' ]

  abbrev pub ◌>>◌ : {B : Type 0} → Eff Host (Unit {0}) → Eff Host B → Eff Host B
  m >> k = m >>= λ _. k

  abbrev pub pure : {A : Type 0} → A → Eff Host A
  pure a w = returned a w

  -- `&conditionRecording{…}`: the new recording's place.
  abbrev pub allocate : Recording → Eff Host ℕ
  allocate r w = returned (length w.recordings) (record w { recordings = w.recordings ++ r ∷ [] })

  -- A change of a recording under its lock.
  abbrev pub update_at : ℕ → (Recording → Recording) → Eff Host (Unit {0})
  update_at i f w = elim (get_elem? w.recordings i) [
    | none ↦ returned tt w
    | some r ↦ returned tt (record w { recordings = set w.recordings i (f r) })
  ]

abbrev pub Condition : Type 0 → Type 0
Condition Host = Context Host → Pointer → Eff Host (Bool × Option Err)

abbrev pub Action : Type 0 → Type 0
Action Host = Context Host → Pointer → Eff Host (Option Err)
