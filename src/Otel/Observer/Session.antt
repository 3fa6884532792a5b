-- ===== src/Otel/Observer/Session.antt =====
-- The observer through one execution (otel/adapter.go): its first and its last event, and `cleanup`.
use rulite.Base.{
  ℕ, ◌+◌, ◌-◌, ◌≤◌, List, [], ◌∷◌, ◌++◌, ◌≡◌, refl, ap, subst, true, not, ◌||◌, Option, none, some,
  Bool-cases, inl, inr, arith, is_some, ◌==◌,
}
use rulite.Base.Strings.{codes}
use rulite.World.{World, ◌>>=◌, ◌>>◌, pure}
use rulite.Ledger.{Event}
use rulite.Result.Describe.{event_stop_reason}
use rulite.Otel.Sdk.{
  Span, Telemetry, set_attributes, set_error_status, end_span, add_count, record_duration,
  Instrument, execution_duration, Attribute, Sdk, ExecutionObserver, Observed, ask, tell, modify,
  get,
}
use rulite.Otel.Adapter.{Adapter}
use rulite.Otel.Observer.{
  with_span, recording, tell_span, when_true, start_clock, start_attributes, begin_observation,
  count_all, count_value, duration, record_time, finish_span, close, finish_calls, finish,
  finish_attributes_for, values, counts_of, limit_error, finish_attributes, is_error_stop,
}
use rulite.Otel.Observer.Logic.{
  events_told, ends_told, events_told-append, ends_told-append, Assertion, Leaves, Leaves-bind,
  Leaves-then, Leaves-ask, Leaves-tell,
}
use rulite.Otel.Observer.Keeps.{
  IsOpen, IsLeft, IsOpen-IsLeft, Keeps, Keeps-then, Keeps-ask, Keeps-tell, Keeps-when,
}
use rulite.Otel.Observer.Rules.{
  Keeps-recording, Keeps-tell_span, start_clock-Keeps, start_attributes-Keeps,
}

abbrev pub AnySpan : Option Span → Type 0
AnySpan o = Unit

abbrev pub HasSpan : Option Span → Type 0
HasSpan o = is_some o ≡ true

module _ {H : Type 0} (limit events ends : ℕ) (sdk : Sdk H) where
  pub begin_observation-Keeps :
      (a : Adapter) (e : Event) → Keeps limit events ends AnySpan (begin_observation sdk a e)
  unfolding begin_observation
  begin_observation-Keeps a e =
      Keeps-then limit events ends AnySpan
        ((ask (sdk.enabled execution_duration) >>= start_clock sdk)
          >> (ask sdk.start_span >>= λ span. modify (λ s. record s { span = some span })))
        (recording sdk >>= λ b. when_true sdk b (start_attributes sdk a e))
        (Keeps-then limit events ends AnySpan
          (ask (sdk.enabled execution_duration) >>= start_clock sdk)
          (ask sdk.start_span >>= λ span. modify (λ s. record s { span = some span }))
          (Keeps-ask limit events ends AnySpan (sdk.enabled execution_duration) (start_clock sdk)
            (start_clock-Keeps limit events ends AnySpan sdk))
          (Keeps-ask limit events ends AnySpan sdk.start_span
            (λ span. modify (λ s. record s { span = some span }))
            (λ span w o. record {
              counted = o.counted;
              within = o.within;
              not_ended = o.not_ended;
              not_closed = o.not_closed;
              spanned = tt;
            })))
        (Keeps-recording limit events ends AnySpan sdk _ (λ b.
          Keeps-when limit events ends AnySpan sdk b _
            (start_attributes-Keeps limit events ends AnySpan sdk a e)))

  -- A nil span panics, so there is one behind the question whether it records.
  recording-HasSpan :
      (w : World (Observed H)) (o : Option Span)
      → w.host.observer.span ≡ o
      → IsOpen limit events ends AnySpan w.host.observer w.host.told
      → Leaves
          (λ _. IsOpen limit events ends HasSpan)
          (IsLeft limit events ends)
          (with_span sdk (λ span. ask (sdk.is_recording span)) o w)
  recording-HasSpan w none same h = IsOpen-IsLeft limit events ends AnySpan _ _ h
  recording-HasSpan w (some span) same h =
      let known : IsOpen limit events ends HasSpan w.host.observer w.host.told = record {
        counted = h.counted;
        within = h.within;
        not_ended = h.not_ended;
        not_closed = h.not_closed;
        spanned = ap is_some same;
      } in
      Leaves-ask (λ _. IsOpen limit events ends HasSpan) (IsLeft limit events ends)
        (sdk.is_recording span) w (λ a. known) (IsOpen-IsLeft limit events ends HasSpan _ _ known)

  -- The calls of `finish` before the span is closed.
  count_value-Keeps :
      (sp : Option Span → Type 0) (attributes : Option (List Attribute)) (v : Instrument × ℕ)
      → Keeps limit events ends sp (count_value sdk attributes v)
  count_value-Keeps sp attributes (instrument, value) w o = elim (Bool-cases (value == 0)) [
    | inl nothing ↦ rw nothing o
    | inr some_value ↦ rw some_value (
        let t = add_count instrument value attributes in
        Keeps-ask limit events ends sp (sdk.enabled instrument) (λ b. when_true sdk b (tell sdk t))
          (λ b.
            Keeps-when limit events ends sp sdk b (tell sdk t)
              (Keeps-tell limit events ends sp sdk t refl refl))
          w o)
  ]

  count_all-Keeps :
      (sp : Option Span → Type 0) (attributes : Option (List Attribute))
      (vs : List (Instrument × ℕ))
      → Keeps limit events ends sp (count_all sdk attributes vs)
  count_all-Keeps sp attributes [] = λ w o. o
  count_all-Keeps sp attributes (v ∷ vs) =
      Keeps-then limit events ends sp (count_value sdk attributes v) (count_all sdk attributes vs)
        (count_value-Keeps sp attributes v) (count_all-Keeps sp attributes vs)

  record_time-Keeps :
      (sp : Option Span → Type 0) (attributes : Option (List Attribute)) (d : Option ℕ)
      → Keeps limit events ends sp (record_time sdk attributes d)
  record_time-Keeps sp attributes none = λ w o. o
  record_time-Keeps sp attributes (some d) =
      Keeps-tell limit events ends sp sdk (record_duration d attributes) refl refl

  finish_span-Keeps :
      (sp : Option Span → Type 0) (e : Event) → Keeps limit events ends sp (finish_span sdk e)
  finish_span-Keeps sp e =
      Keeps-then limit events ends sp
        (get >>= λ s.
          tell_span sdk
            (λ span. set_attributes span (finish_attributes (event_stop_reason e) (counts_of e) s)))
        (when_true sdk (not ((counts_of e).failed == 0) || is_error_stop (event_stop_reason e))
          (tell_span sdk (λ span. set_error_status span (codes "execution failed or canceled"))))
        (λ w o. Keeps-tell_span limit events ends sp sdk _ (λ span. (refl, refl)) w o)
        (Keeps-when limit events ends sp sdk _ _
          (Keeps-tell_span limit events ends sp sdk _ (λ span. (refl, refl))))

  -- Marked as closed, before the span ends.
  record IsClosing (s : ExecutionObserver) (told : List Telemetry) : Type 0 where
    few : events_told told ≤ events + limit
    running : ends_told told ≡ ends
    marked : s.closed ≡ true
    started : is_some s.span ≡ true

  end_span-IsLeft :
      (span : Span) (w : World (Observed H))
      → IsClosing w.host.observer w.host.told
      → Leaves
          (λ _. IsLeft limit events ends)
          (IsLeft limit events ends)
          (tell sdk (end_span span) w)
  end_span-IsLeft span w h =
      let told = w.host.told in
      let t = end_span span in
      let after : IsLeft limit events ends w.host.observer (told ++ t ∷ []) = record {
        bounded = omega (arith, events_told-append told (t ∷ []), h.few);
        ended = rw h.marked (omega (arith, ends_told-append told (t ∷ []), h.running));
        only_started = λ e. h.started;
      } in
      Leaves-tell (IsLeft limit events ends) (IsLeft limit events ends) sdk t w after after

  close-IsLeft :
      (o : Option Span) (w : World (Observed H))
      → w.host.observer.span ≡ o
      → IsClosing w.host.observer w.host.told
      → Leaves
          (λ _. IsLeft limit events ends)
          (IsLeft limit events ends)
          (with_span sdk (λ span. tell sdk (end_span span)) o w)
  close-IsLeft none w same h = absurd (ground (arith, subst HasSpan same h.started))
  close-IsLeft (some span) w same h = end_span-IsLeft span w h

  -- The span ends behind the mark that it is closed.
  closed-IsLeft :
      (w : World (Observed H))
      → IsOpen limit events ends HasSpan w.host.observer w.host.told
      → Leaves (λ _. IsLeft limit events ends) (IsLeft limit events ends) (close sdk w)
  closed-IsLeft w o =
      close-IsLeft w.host.observer.span
        (record w { host = record w.host { observer = record w.host.observer { closed = true } } })
        refl
        (record {
          few = omega (arith, o.counted, o.within);
          running = o.not_ended;
          marked = refl;
          started = o.spanned;
        })

  duration-Leaves :
      (o : Option ℕ) (w : World (Observed H))
      → IsOpen limit events ends AnySpan w.host.observer w.host.told
      → Leaves (λ _. IsOpen limit events ends AnySpan) (IsLeft limit events ends) (duration sdk o w)
  duration-Leaves none w h = h
  duration-Leaves (some t) w h =
      Leaves-bind (λ _. IsOpen limit events ends AnySpan) (λ _. IsOpen limit events ends AnySpan)
        (IsLeft limit events ends) (ask sdk.now) (λ n. pure (some (n - t))) w
        (Leaves-ask _ _ sdk.now w (λ a. h) (IsOpen-IsLeft limit events ends AnySpan _ _ h))
        (λ a v k. k)

  -- Everything of `finish` behind the duration.
  finish_calls-IsLeft :
      (a : Adapter) (e : Event) (d : Option ℕ) (w : World (Observed H))
      → IsOpen limit events ends AnySpan w.host.observer w.host.told
      → Leaves (λ _. IsLeft limit events ends) (IsLeft limit events ends) (finish_calls sdk a e d w)
  finish_calls-IsLeft a e d w o =
      let attributes = finish_attributes_for a e in
      let counts = count_all sdk attributes (values (counts_of e)) in
      let time = record_time sdk attributes d in
      let Open : (sp : Option Span → Type 0) → Assertion = λ sp. IsOpen limit events ends sp in
      let Left = IsLeft limit events ends in
      Leaves-then (Open HasSpan) (λ _. Left) Left
        (counts >> time >> (recording sdk >>= λ on. when_true sdk on (finish_span sdk e)))
        (close sdk) w
        (Leaves-then (Open AnySpan) (λ _. Open HasSpan) Left (counts >> time)
          (recording sdk >>= λ on. when_true sdk on (finish_span sdk e)) w
          (Keeps-then limit events ends AnySpan counts time
            (count_all-Keeps AnySpan attributes (values (counts_of e)))
            (record_time-Keeps AnySpan attributes d) w o)
          (λ v h.
            Leaves-bind (λ _. Open HasSpan) (λ _. Open HasSpan) Left (recording sdk)
              (λ on. when_true sdk on (finish_span sdk e)) v
              (recording-HasSpan v v.host.observer.span refl h)
              (λ on u k.
                Keeps-when limit events ends HasSpan sdk on (finish_span sdk e)
                  (finish_span-Keeps HasSpan e) u k)))
        closed-IsLeft

  pub finish-IsLeft :
      (a : Adapter) (e : Event) (w : World (Observed H))
      → IsOpen limit events ends AnySpan w.host.observer w.host.told
      → Leaves (λ _. IsLeft limit events ends) (IsLeft limit events ends) (finish sdk a e w)
  unfolding finish
  finish-IsLeft a e w o =
      Leaves-bind (λ _. IsOpen limit events ends AnySpan) (λ _. IsLeft limit events ends)
        (IsLeft limit events ends) (get >>= λ s. duration sdk s.started) _ w
        (duration-Leaves w.host.observer.started w o)
        (λ d v h.
          Leaves-then (IsLeft limit events ends) (λ _. IsLeft limit events ends)
            (IsLeft limit events ends) (finish_calls sdk a e d) (get >>= λ s. pure (limit_error s))
            v (finish_calls-IsLeft a e d v h) (λ u k. k))
