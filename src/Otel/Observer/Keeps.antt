-- ===== src/Otel/Observer/Keeps.antt =====
-- The budget of events and the end of the span through the calls of the observer (otel/adapter.go).
use rulite.Base.{
  ℕ, ◌+◌, ◌≤◌, List, [], ◌∷◌, ◌++◌, ◌≡◌, Bool, true, false, Option, none, some, arith, is_some,
}
use rulite.World.{World, Eff, ◌>>=◌, ◌>>◌}
use rulite.Otel.Sdk.{Span, Telemetry, Reply, Sdk, ExecutionObserver, Observed, ask, tell}
use rulite.Otel.Observer.{with_span, on_span, when_true}
use rulite.Otel.Observer.Logic.{
  events_told, ends_told, events_told-append, ends_told-append, Leaves, Leaves-bind, Leaves-then,
  Leaves-ask, Leaves-tell,
}

abbrev pub bit : Bool → ℕ
bit true = 1
bit false = 0

-- `limit` bounds the events; before the execution the SDK had been told `events` events and `ends`
-- ends of spans.
module _ (limit events ends : ℕ) where
  -- The observer whenever a call is over, also by a panic.
  pub record IsLeft (s : ExecutionObserver) (told : List Telemetry) : Type 0 where
    pub bounded : events_told told ≤ events + limit
    pub ended : ends_told told ≡ ends + bit s.closed
    pub only_started : s.closed ≡ true → is_some s.span ≡ true

-- At work; `sp` is what is known of the span.
module _ (limit events ends : ℕ) (sp : Option Span → Type 0) where
  -- The observer at work.
  pub record IsOpen (s : ExecutionObserver) (told : List Telemetry) : Type 0 where
    pub counted : events_told told ≡ events + s.emitted
    pub within : s.emitted ≤ limit
    pub not_ended : ends_told told ≡ ends
    pub not_closed : s.closed ≡ false
    pub spanned : sp s.span

  pub IsOpen-IsLeft :
      (s : ExecutionObserver) (told : List Telemetry)
      → IsOpen s told
      → IsLeft limit events ends s told
  IsOpen-IsLeft s told h = record {
    bounded = omega (arith, h.counted, h.within);
    ended = rw h.not_closed (omega (arith, h.not_ended));
    only_started = λ e. ground (arith, h.not_closed);
  }

  -- A call that keeps the observer at work.
  abbrev pub Keeps : {H : Type 0} → Eff (Observed H) (Unit {0}) → Type 0
  Keeps {H} m =
      (w : World (Observed H))
      → IsOpen w.host.observer w.host.told
      → Leaves (λ _. IsOpen) (IsLeft limit events ends) (m w)

module _ {H : Type 0} (limit events ends : ℕ) (sp : Option Span → Type 0) where
  pub Keeps-then :
      (m k : Eff (Observed H) (Unit {0}))
      → Keeps limit events ends sp m
      → Keeps limit events ends sp k
      → Keeps limit events ends sp (m >> k)
  Keeps-then m k h next w o =
      Leaves-then (IsOpen limit events ends sp) (λ _. IsOpen limit events ends sp)
        (IsLeft limit events ends) m k w (h w o) next

  pub Keeps-ask :
      {A : Type 0} (question : H → Reply H A) (f : A → Eff (Observed H) (Unit {0}))
      → ((a : A) → Keeps limit events ends sp (f a))
      → Keeps limit events ends sp (ask question >>= f)
  Keeps-ask question f h w o =
      Leaves-bind (λ _. IsOpen limit events ends sp) (λ _. IsOpen limit events ends sp)
        (IsLeft limit events ends) (ask question) f w
        (Leaves-ask _ _ question w (λ a. o) (IsOpen-IsLeft limit events ends sp _ _ o))
        (λ a v k. h a v k)

  pub Keeps-tell :
      (sdk : Sdk H) (t : Telemetry)
      → events_told (t ∷ []) ≡ 0
      → ends_told (t ∷ []) ≡ 0
      → Keeps limit events ends sp (tell sdk t)
  Keeps-tell sdk t no_event no_end w o =
      let s = w.host.observer in
      let told = w.host.told in
      let after : IsOpen limit events ends sp s (told ++ t ∷ []) = record {
        counted = omega (arith, events_told-append told (t ∷ []), o.counted, no_event);
        within = o.within;
        not_ended = omega (arith, ends_told-append told (t ∷ []), o.not_ended, no_end);
        not_closed = o.not_closed;
        spanned = o.spanned;
      } in
      Leaves-tell (IsOpen limit events ends sp) (IsLeft limit events ends) sdk t w after
        (IsOpen-IsLeft limit events ends sp _ _ after)

  with_span-Keeps :
      (sdk : Sdk H) (f : Span → Eff (Observed H) (Unit {0})) (o : Option Span)
      → ((span : Span) → Keeps limit events ends sp (f span))
      → Keeps limit events ends sp (with_span sdk f o)
  with_span-Keeps sdk f none h w o = IsOpen-IsLeft limit events ends sp _ _ o
  with_span-Keeps sdk f (some span) h w o = h span w o

  pub Keeps-on_span :
      (sdk : Sdk H) (f : Span → Eff (Observed H) (Unit {0}))
      → ((span : Span) → Keeps limit events ends sp (f span))
      → Keeps limit events ends sp (on_span sdk f)
  Keeps-on_span sdk f h w o = with_span-Keeps sdk f w.host.observer.span h w o

  pub Keeps-when :
      (sdk : Sdk H) (b : Bool) (m : Eff (Observed H) (Unit {0}))
      → Keeps limit events ends sp m
      → Keeps limit events ends sp (when_true sdk b m)
  Keeps-when sdk true m h = h
  Keeps-when sdk false m h = λ w o. o
