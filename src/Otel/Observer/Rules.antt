-- ===== src/Otel/Observer/Rules.antt =====
-- The observer's calls for one event (otel/adapter.go), each from an observer at work.
use rulite.Base.{
  ℕ, ◌+◌, ◌<◌, List, [], ◌∷◌, ◌++◌, ◌≡◌, refl, subst, Bool, true, false, not, Option, none, some,
  Bool-cases, inl, inr, arith, Bytes, lookup,
}
use rulite.Base.Int.{pos, ltb_ℤ}
use rulite.World.{World, Eff, ◌>>=◌}
use rulite.Ledger.{Event}
use rulite.Otel.Sdk.{
  Span, Telemetry, add_event, add_count, rule_events, Attribute, Sdk, ExecutionObserver, Observed,
  ask, tell, modify,
}
use rulite.Otel.Adapter.{Adapter, RuleAttributes}
use rulite.Otel.Observer.{
  with_span, recording, tell_span, when_true, start_clock, start_attributes, count_sets,
  add_event_for, count_emitted, emit, record_rule, rule, is_filtered, rule_id_of,
}
use rulite.Otel.Observer.Logic.{
  events_told, ends_told, events_told-append, ends_told-append, Leaves, Leaves-bind, Leaves-then,
  Leaves-ask, Leaves-tell,
}
use rulite.Otel.Observer.Keeps.{
  IsOpen, IsLeft, IsOpen-IsLeft, Keeps, Keeps-then, Keeps-ask, Keeps-tell, Keeps-on_span,
  Keeps-when,
}

module _ {H : Type 0} (limit events ends : ℕ) (sp : Option Span → Type 0) (sdk : Sdk H) where
  abbrev AtWork : Eff (Observed H) (Unit {0}) → Type 0
  AtWork m = Keeps limit events ends sp m

  recording-Leaves :
      (o : Option Span) (w : World (Observed H))
      → IsOpen limit events ends sp w.host.observer w.host.told
      → Leaves
          (λ _. IsOpen limit events ends sp)
          (IsLeft limit events ends)
          (with_span sdk (λ span. ask (sdk.is_recording span)) o w)
  recording-Leaves none w h = IsOpen-IsLeft limit events ends sp _ _ h
  recording-Leaves (some span) w h =
      Leaves-ask (λ _. IsOpen limit events ends sp) (IsLeft limit events ends)
        (sdk.is_recording span) w (λ a. h) (IsOpen-IsLeft limit events ends sp _ _ h)

  pub Keeps-recording :
      (f : Bool → Eff (Observed H) (Unit {0}))
      → ((b : Bool) → AtWork (f b))
      → AtWork (recording sdk >>= f)
  Keeps-recording f h w o =
      Leaves-bind (λ _. IsOpen limit events ends sp) (λ _. IsOpen limit events ends sp)
        (IsLeft limit events ends) (recording sdk) f w (recording-Leaves w.host.observer.span w o)
        (λ b v k. h b v k)

  pub Keeps-tell_span :
      (t : Span → Telemetry)
      → ((span : Span) → (events_told (t span ∷ []) ≡ 0) × (ends_told (t span ∷ []) ≡ 0))
      → AtWork (tell_span sdk t)
  Keeps-tell_span t quiet =
      Keeps-on_span limit events ends sp sdk (λ span. tell sdk (t span))
        (λ span. Keeps-tell limit events ends sp sdk (t span) (quiet span).0 (quiet span).1)

  pub start_clock-Keeps : (b : Bool) → AtWork (start_clock sdk b)
  start_clock-Keeps false = λ w o. o
  start_clock-Keeps true =
      Keeps-ask limit events ends sp sdk.now (λ t. modify (λ s. record s { started = some t }))
        (λ t w o. record {
          counted = o.counted;
          within = o.within;
          not_ended = o.not_ended;
          not_closed = o.not_closed;
          spanned = o.spanned;
        })

  pub start_attributes-Keeps : (a : Adapter) (e : Event) → AtWork (start_attributes sdk a e)
  start_attributes-Keeps a e =
      Keeps-then limit events ends sp _ _ (Keeps-tell_span _ (λ span. (refl, refl))) (
        Keeps-when limit events ends sp sdk a.config.trace_versions _
          (Keeps-tell_span _ (λ span. (refl, refl))))

  count_sets-Keeps : (e : Event) (o : Option RuleAttributes) → AtWork (count_sets sdk e o)
  count_sets-Keeps e none = λ w o. o
  count_sets-Keeps e (some sets) =
      let t = add_count rule_events 1 (some (sets e.kind)) in
      Keeps-ask limit events ends sp (sdk.enabled rule_events) (λ b. when_true sdk b (tell sdk t))
        (λ b.
          Keeps-when limit events ends sp sdk b (tell sdk t)
            (Keeps-tell limit events ends sp sdk t refl refl))

  -- Between the call that adds an event and its count.
  record IsAdding (s : ExecutionObserver) (told : List Telemetry) : Type 0 where
    one_more : events_told told ≡ events + s.emitted + 1
    room : s.emitted < limit
    running : ends_told told ≡ ends
    still_open : s.closed ≡ false
    spanned : sp s.span

  IsAdding-IsLeft :
      (s : ExecutionObserver) (told : List Telemetry)
      → IsAdding s told
      → IsLeft limit events ends s told
  IsAdding-IsLeft s told h = record {
    bounded = omega (arith, h.one_more, h.room);
    ended = rw h.still_open (omega (arith, h.running));
    only_started = λ e. ground (arith, h.still_open);
  }

  add_event-IsAdding :
      (name : Bytes) (attributes : List Attribute) (o : Option Span) (w : World (Observed H))
      → w.host.observer.emitted < limit
      → IsOpen limit events ends sp w.host.observer w.host.told
      → Leaves
          (λ _. IsAdding)
          (IsLeft limit events ends)
          (with_span sdk (λ span. tell sdk (add_event span name attributes)) o w)
  add_event-IsAdding name attributes none w room h = IsOpen-IsLeft limit events ends sp _ _ h
  add_event-IsAdding name attributes (some span) w room h =
      let told = w.host.told in
      let t = add_event span name attributes in
      let after : IsAdding w.host.observer (told ++ t ∷ []) = record {
        one_more = omega (arith, events_told-append told (t ∷ []), h.counted);
        room = room;
        running = omega (arith, ends_told-append told (t ∷ []), h.not_ended);
        still_open = h.not_closed;
        spanned = h.spanned;
      } in
      Leaves-tell IsAdding (IsLeft limit events ends) sdk t w after (IsAdding-IsLeft _ _ after)

  emit-Keeps :
      (a : Adapter) (e : Event) (w : World (Observed H))
      → w.host.observer.emitted < limit
      → IsOpen limit events ends sp w.host.observer w.host.told
      → Leaves (λ _. IsOpen limit events ends sp) (IsLeft limit events ends) (emit sdk a e w)
  emit-Keeps a e w room o =
      Leaves-then IsAdding (λ _. IsOpen limit events ends sp) (IsLeft limit events ends)
        (add_event_for sdk a e) (count_emitted sdk) w
        (add_event-IsAdding _ _ w.host.observer.span w room o)
        (λ v h. record {
          counted = omega (arith, h.one_more);
          within = omega (arith, h.room);
          not_ended = h.running;
          not_closed = h.still_open;
          spanned = h.spanned;
        })

  record_rule-Keeps :
      (a : Adapter) (e : Event) (w : World (Observed H))
      → a.config.event_limit ≡ pos limit
      → IsOpen limit events ends sp w.host.observer w.host.told
      → Leaves
          (λ _. IsOpen limit events ends sp)
          (IsLeft limit events ends)
          (record_rule sdk a e w.host.observer w)
  record_rule-Keeps a e w same o =
      elim (Bool-cases (is_filtered a.config.trace_rules (rule_id_of e))) [
        | inl out ↦ rw out (record {
          counted = o.counted;
          within = o.within;
          not_ended = o.not_ended;
          not_closed = o.not_closed;
          spanned = o.spanned;
        })
        | inr kept ↦
            let full = not (ltb_ℤ (pos w.host.observer.emitted) a.config.event_limit) in
            elim (Bool-cases full) [
              | inl no_room ↦
                  rw (kept, no_room)
                    (record {
                      counted = o.counted;
                      within = o.within;
                      not_ended = o.not_ended;
                      not_closed = o.not_closed;
                      spanned = o.spanned;
                    })
              | inr room ↦
                  let less : not (ltb_ℤ (pos w.host.observer.emitted) (pos limit)) ≡ false =
                    subst (λ l. not (ltb_ℤ (pos w.host.observer.emitted) l) ≡ false) same room in
                  rw (kept, room) (emit-Keeps a e w (ground arith) o)
            ]
      ]

  pub rule-Keeps :
      (a : Adapter) (e : Event) → a.config.event_limit ≡ pos limit → AtWork (rule sdk a e)
  unfolding rule
  rule-Keeps a e same =
      Keeps-then limit events ends sp _ _ (count_sets-Keeps e (lookup (rule_id_of e) a.rules)) (
        Keeps-recording _
          (λ b. Keeps-when limit events ends sp sdk b _ (λ w o. record_rule-Keeps a e w same o)))
