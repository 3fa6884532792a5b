-- ===== src/Otel/Observer/Logic.antt =====
-- Calls of the observer (otel/adapter.go) and what they tell the SDK, whatever it answers.
use rulite.Base.{ℕ, ◌+◌, List, [], ◌∷◌, ◌++◌, ◌≡◌, arith}
use rulite.World.{World, Call, returned, panicked, Eff, ◌>>=◌, ◌>>◌}
use rulite.Otel.Sdk.{
  Telemetry, set_attributes, set_error_status, add_event, end_span, add_count, record_duration,
  Reply, answers, panics, Sdk, ExecutionObserver, Observed, ask, tell, replied,
}

-- How often events were added, and spans ended.
abbrev pub events_told : List Telemetry → ℕ
events_told [] = 0
events_told (add_event span name attributes ∷ ts) = 1 + events_told ts
events_told (_ ∷ ts) = events_told ts

abbrev pub ends_told : List Telemetry → ℕ
ends_told [] = 0
ends_told (end_span span ∷ ts) = 1 + ends_told ts
ends_told (_ ∷ ts) = ends_told ts

pub events_told-append :
    (ts us : List Telemetry) → events_told (ts ++ us) ≡ events_told ts + events_told us
events_told-append [] us = omega arith
events_told-append (set_attributes _ _ ∷ ts) us = events_told-append ts us
events_told-append (set_error_status _ _ ∷ ts) us = events_told-append ts us
events_told-append (add_event _ _ _ ∷ ts) us = omega (arith, events_told-append ts us)
events_told-append (end_span _ ∷ ts) us = events_told-append ts us
events_told-append (add_count _ _ _ ∷ ts) us = events_told-append ts us
events_told-append (record_duration _ _ ∷ ts) us = events_told-append ts us

pub ends_told-append : (ts us : List Telemetry) → ends_told (ts ++ us) ≡ ends_told ts + ends_told us
ends_told-append [] us = omega arith
ends_told-append (set_attributes _ _ ∷ ts) us = ends_told-append ts us
ends_told-append (set_error_status _ _ ∷ ts) us = ends_told-append ts us
ends_told-append (add_event _ _ _ ∷ ts) us = ends_told-append ts us
ends_told-append (end_span _ ∷ ts) us = omega (arith, ends_told-append ts us)
ends_told-append (add_count _ _ _ ∷ ts) us = ends_told-append ts us
ends_told-append (record_duration _ _ ∷ ts) us = ends_told-append ts us

-- A condition on the observer and on what was told.
abbrev pub Assertion : Type 1
Assertion = ExecutionObserver → List Telemetry → Type 0

-- Where a call leaves the observer: returning a value, or by a panic.
abbrev pub Leaves : {H A : Type 0} → (A → Assertion) → Assertion → Call (Observed H) A → Type 0
Leaves Q R (returned a w) = Q a w.host.observer w.host.told
Leaves Q R (panicked p w) = R w.host.observer w.host.told

Leaves-elim :
    {H A B : Type 0} (Q : A → Assertion) (P : B → Assertion) (R : Assertion)
    (f : A → Eff (Observed H) B) (c : Call (Observed H) A)
    → Leaves Q R c
    → ((a : A) (v : World (Observed H)) → Q a v.host.observer v.host.told → Leaves P R (f a v))
    → Leaves P R (elim c [ returned a v ↦ f a v | panicked p v ↦ panicked p v ])
Leaves-elim Q P R f (returned a v) h k = k a v h
Leaves-elim Q P R f (panicked p v) h k = h

pub Leaves-bind :
    {H A B : Type 0} (Q : A → Assertion) (P : B → Assertion) (R : Assertion)
    (m : Eff (Observed H) A) (f : A → Eff (Observed H) B) (w : World (Observed H))
    → Leaves Q R (m w)
    → ((a : A) (v : World (Observed H)) → Q a v.host.observer v.host.told → Leaves P R (f a v))
    → Leaves P R ((m >>= f) w)
Leaves-bind Q P R m f w h k = Leaves-elim Q P R f (m w) h k

pub Leaves-then :
    {H B : Type 0} (Q : Assertion) (P : B → Assertion) (R : Assertion)
    (m : Eff (Observed H) (Unit {0})) (k : Eff (Observed H) B) (w : World (Observed H))
    → Leaves (λ _. Q) R (m w)
    → ((v : World (Observed H)) → Q v.host.observer v.host.told → Leaves P R (k v))
    → Leaves P R ((m >> k) w)
Leaves-then Q P R m k w h next = Leaves-elim (λ _. Q) P R (λ _. k) (m w) h (λ a v. next v)

pub Leaves-weaken :
    {H A : Type 0} (Q P : A → Assertion) (R S : Assertion) (c : Call (Observed H) A)
    → ((a : A) (s : ExecutionObserver) (t : List Telemetry) → Q a s t → P a s t)
    → ((s : ExecutionObserver) (t : List Telemetry) → R s t → S s t)
    → Leaves Q R c
    → Leaves P S c
Leaves-weaken Q P R S (returned a w) f g h = f a _ _ h
Leaves-weaken Q P R S (panicked p w) f g h = g _ _ h

Leaves-replied :
    {H A : Type 0} (Q : A → Assertion) (R : Assertion) (w : World (Observed H)) (reply : Reply H A)
    → ((a : A) → Q a w.host.observer w.host.told)
    → R w.host.observer w.host.told
    → Leaves Q R (replied w reply)
Leaves-replied Q R w (answers a h) q r = q a
Leaves-replied Q R w (panics p h) q r = r

-- A question changes neither the observer nor what was told.
pub Leaves-ask :
    {H A : Type 0} (Q : A → Assertion) (R : Assertion) (question : H → Reply H A)
    (w : World (Observed H))
    → ((a : A) → Q a w.host.observer w.host.told)
    → R w.host.observer w.host.told
    → Leaves Q R (ask question w)
Leaves-ask Q R question w q r = Leaves-replied Q R w (question w.host.rest) q r

pub Leaves-tell :
    {H : Type 0} (Q R : Assertion) (sdk : Sdk H) (t : Telemetry) (w : World (Observed H))
    → Q w.host.observer (w.host.told ++ t ∷ [])
    → R w.host.observer (w.host.told ++ t ∷ [])
    → Leaves (λ _. Q) R (tell sdk t w)
Leaves-tell Q R sdk t w q r =
    Leaves-replied (λ _. Q) R (record w { host = record w.host { told = w.host.told ++ t ∷ [] } }) _
      (λ _. q) r
