-- ===== src/Otel/Sdk.antt =====
-- The OpenTelemetry SDK as otel/adapter.go calls it, a parameter: each call may answer or panic, and
-- may change the host. Calls that record something are told in a list, in their order. Contexts,
-- which only the SDK reads here, are part of the host.
use rulite.Base.{ℕ, List, [], ◌∷◌, ◌++◌, Bool, Option, Bytes}
use rulite.Base.Int.{ℤ}
use rulite.Errors.{Payload}
use rulite.World.{World, Call, returned, panicked, Eff}

abbrev pub Span : Type 0
Span = ℕ

pub data Value : Type 0 where
  text : Bytes → Value
  number : ℤ → Value
  truth : Bool → Value

pub record Attribute : Type 0 where
  pub key : Bytes
  pub value : Value

pub data Instrument : Type 0 where
  execution_count rules_evaluated rules_matched rules_fired rules_failed : Instrument
  execution_duration rule_events : Instrument

-- A nil measurement option is `none`.
pub data Telemetry : Type 0 where
  set_attributes : Span → List Attribute → Telemetry
  set_error_status : Span → Bytes → Telemetry
  add_event : Span → Bytes → List Attribute → Telemetry
  end_span : Span → Telemetry
  add_count : Instrument → ℕ → Option (List Attribute) → Telemetry
  record_duration : ℕ → Option (List Attribute) → Telemetry

pub data Reply (H A : Type 0) : Type 0 where
  answers : A → H → Reply H A
  panics : Payload → H → Reply H A

pub record Sdk (H : Type 0) : Type 0 where
  pub start_span : H → Reply H Span
  pub is_recording : Span → H → Reply H Bool
  pub enabled : Instrument → H → Reply H Bool
  pub accept : Telemetry → H → Reply H (Unit {0})
  pub now : H → Reply H ℕ

-- `executionObserver`; a zero time and a nil span are `none`.
pub record ExecutionObserver : Type 0 where
  pub span : Option Span
  pub started : Option ℕ
  pub emitted : ℕ
  pub dropped : ℕ
  pub filtered : ℕ
  pub closed : Bool

-- The host of an observed execution: the rest of the program, the observer, and what was told.
pub record Observed (H : Type 0) : Type 0 where
  pub rest : H
  pub observer : ExecutionObserver
  pub told : List Telemetry

module _ {H : Type 0} where
  abbrev pub replied : {A : Type 0} → World (Observed H) → Reply H A → Call (Observed H) A
  replied w (answers a h) = returned a (record w { host = record w.host { rest = h } })
  replied w (panics p h) = panicked p (record w { host = record w.host { rest = h } })

  -- A question to the SDK.
  abbrev pub ask : {A : Type 0} → (H → Reply H A) → Eff (Observed H) A
  ask question w = replied w (question w.host.rest)

  abbrev pub note : Telemetry → World (Observed H) → World (Observed H)
  note t w = record w { host = record w.host { told = w.host.told ++ t ∷ [] } }

  abbrev pub tell : Sdk H → Telemetry → Eff (Observed H) (Unit {0})
  tell sdk t w = ask (sdk.accept t) (note t w)

  abbrev pub modify : (ExecutionObserver → ExecutionObserver) → Eff (Observed H) (Unit {0})
  modify f w = returned tt (record w { host = record w.host { observer = f w.host.observer } })

  abbrev pub get : Eff (Observed H) ExecutionObserver
  get w = returned w.host.observer w
