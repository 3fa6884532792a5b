-- ===== src/Otel/Observer/Whole.antt =====
-- Whole executions under the observer (otel/adapter.go), from its first event to `cleanup`.
use rulite.Base.{
  ℕ, ◌+◌, ◌≤◌, [], ◌∷◌, ◌++◌, ◌≡◌, refl, sym, ap, ◌∙◌, subst, Bool, true, false, Option, none, some,
  Bool-cases, inl, inr, arith, is_some,
}
use rulite.Base.Int.{pos}
use rulite.Base.Strings.{codes}
use rulite.World.{World, Call, returned, panicked, ◌>>◌}
use rulite.Otel.Sdk.{
  Span, Telemetry, set_attributes, set_error_status, end_span, Sdk, Observed, tell, modify,
}
use rulite.Otel.Adapter.{Adapter}
use rulite.Otel.Observer.{
  recovered, clean_span, cleanup, end_incomplete, incomplete, end_recovered, fresh_observer,
}
use rulite.Otel.Observer.Logic.{
  events_told, ends_told, events_told-append, ends_told-append, Assertion, Leaves, Leaves-then,
  Leaves-tell,
}
use rulite.Otel.Observer.Keeps.{bit, IsOpen, IsLeft}
use rulite.Otel.Observer.Session.{AnySpan}
use rulite.Otel.Observer.Deliveries.{Delivers, Delivers-Left}

module _ {H : Type 0} (limit events ends : ℕ) (sdk : Sdk H) (a : Adapter) where
  -- Behind `cleanup`: the events are within the limit, and the span has ended if there is one.
  abbrev pub IsCleaned : Bool → Assertion
  IsCleaned has_span s told =
      (events_told told ≤ events + limit) × (ends_told told ≡ ends + bit has_span)

  -- Nothing leaves by a panic.
  abbrev Returns : Assertion → Call (Observed H) (Unit {0}) → Type 0
  Returns Q c = Leaves (λ _. Q) (λ s told. ⊥) c

  recovered-Returns :
      (Q : Assertion) (c : Call (Observed H) (Unit {0}))
      → Leaves (λ _. Q) Q c
      → Returns Q (recovered sdk c)
  recovered-Returns Q (returned x w) h = h
  recovered-Returns Q (panicked p w) h = h

  -- A call to the SDK that neither adds an event nor ends a span.
  tell-IsCleaned :
      (t : Telemetry) (b : Bool) (w : World (Observed H))
      → events_told (t ∷ []) ≡ 0
      → ends_told (t ∷ []) ≡ 0
      → IsCleaned b w.host.observer w.host.told
      → Leaves (λ _. IsCleaned b) (IsCleaned b) (tell sdk t w)
  tell-IsCleaned t b w no_event no_end (few, ended) =
      let told = w.host.told in
      let after : IsCleaned b w.host.observer (told ++ t ∷ []) = (
        omega (arith, events_told-append told (t ∷ []), no_event),
        omega (arith, ends_told-append told (t ∷ []), no_end),
      ) in
      Leaves-tell (IsCleaned b) (IsCleaned b) sdk t w after after

  end_incomplete-Returns :
      (span : Span) (w : World (Observed H))
      → IsCleaned false w.host.observer w.host.told
      → Returns (IsCleaned false) (end_incomplete sdk span w)
  end_incomplete-Returns span w h =
      let first = set_attributes span (incomplete ∷ []) in
      let second = set_error_status span (codes "observation incomplete") in
      recovered-Returns (IsCleaned false) _ (
        Leaves-then (IsCleaned false) (λ _. IsCleaned false) (IsCleaned false) (tell sdk first)
          (tell sdk second) w (tell-IsCleaned first false w refl refl h)
          (λ v k. tell-IsCleaned second false v refl refl k))

  end_span-Returns :
      (span : Span) (w : World (Observed H))
      → IsCleaned false w.host.observer w.host.told
      → Returns (IsCleaned true) (recovered sdk (tell sdk (end_span span) w))
  end_span-Returns span w (few, ended) =
      let told = w.host.told in
      let t = end_span span in
      let after : IsCleaned true w.host.observer (told ++ t ∷ []) = (
        omega (arith, events_told-append told (t ∷ [])),
        omega (arith, ends_told-append told (t ∷ [])),
      ) in
      recovered-Returns (IsCleaned true) (tell sdk t w)
        (Leaves-tell (IsCleaned true) (IsCleaned true) sdk t w after after)

  clean-Returns :
      (span : Option Span) (closed : Bool) (w : World (Observed H))
      → w.host.observer.span ≡ span
      → w.host.observer.closed ≡ closed
      → IsLeft limit events ends w.host.observer w.host.told
      → Returns (IsCleaned (is_some span)) (clean_span sdk span closed w)
  clean-Returns none closed w s c h = elim (Bool-cases w.host.observer.closed) [
    | inl e ↦ absurd (ground (arith, subst (λ o. is_some o ≡ true) s (h.only_started e)))
    | inr e ↦ (h.bounded, h.ended ∙ ap (λ b. ends + bit b) e)
  ]
  clean-Returns (some span) true w s c h = (h.bounded, h.ended ∙ ap (λ b. ends + bit b) c)
  clean-Returns (some span) false w s c h =
      Leaves-then (IsCleaned false) (λ _. IsCleaned true) (λ x told. ⊥)
        (modify (λ o. record o { closed = true }) >> end_incomplete sdk span)
        (end_recovered sdk span) w
        (end_incomplete-Returns span
          (record w {
            host = record w.host { observer = record w.host.observer { closed = true } };
          })
          (h.bounded, h.ended ∙ ap (λ b. ends + bit b) c))
        (λ v k. end_span-Returns span v k)

  -- Whatever the SDK answers and wherever it panics, an execution adds at most the configured number
  -- of events, and behind `cleanup`, which returns, the span that was started has ended once.
  pub cleanup-IsCleaned :
      (w u : World (Observed H))
      → a.config.event_limit ≡ pos limit
      → w.host.observer ≡ fresh_observer
      → events_told w.host.told ≡ events
      → ends_told w.host.told ≡ ends
      → Delivers sdk a w u
      → (v : World (Observed H)) × (cleanup sdk u ≡ returned tt v)
        × IsCleaned (is_some u.host.observer.span) v.host.observer v.host.told
  unfolding cleanup
  cleanup-IsCleaned w u same fresh no_events no_ends d = returns _ (
      clean-Returns u.host.observer.span u.host.observer.closed u refl refl (
        Delivers-Left limit events ends sdk a w u same
          (subst (λ s. IsOpen limit events ends AnySpan s w.host.told) (sym fresh)
            (record {
              counted = omega (arith, no_events);
              within = omega arith;
              not_ended = no_ends;
              not_closed = refl;
              spanned = tt;
            }))
          d))
    where
      returns :
          (c : Call (Observed H) (Unit {0}))
          → Returns (IsCleaned (is_some u.host.observer.span)) c
          → (v : World (Observed H)) × (c ≡ returned tt v)
            × IsCleaned (is_some u.host.observer.span) v.host.observer v.host.told
      returns (returned tt v) h = (v, refl, h)
      returns (panicked p v) h = elim h [ ]
