-- ===== src/Otel/Observer/Deliveries.antt =====
-- The observer through the deliveries of one execution (otel/adapter.go).
use rulite.Base.{ℕ, ◌≡◌, sym, subst, Option, none, inl, inr, ◌⊎◌}
use rulite.Base.Int.{pos}
use rulite.Errors.{Err}
use rulite.World.{World, Call, returned, panicked, Context, ◌>>◌, pure}
use rulite.Ledger.{
  Event, EventKind, event_none, execution_started, rule_evaluated, rule_matched, rule_fired_event,
  rule_failed_event, execution_finished, group_resolved_event, group_finished,
}
use rulite.Otel.Sdk.{Sdk, Observed}
use rulite.Otel.Adapter.{Adapter}
use rulite.Otel.Observer.{begin_observation, rule, observe_kind, observe}
use rulite.Otel.Observer.Logic.{Leaves, Leaves-then, Leaves-weaken}
use rulite.Otel.Observer.Keeps.{IsOpen, IsLeft, IsOpen-IsLeft}
use rulite.Otel.Observer.Rules.{rule-Keeps}
use rulite.Otel.Observer.Session.{AnySpan, begin_observation-Keeps, finish-IsLeft}

-- The world that a call leaves, whichever way it ends.
abbrev pub left_by : {H A : Type 0} → Call H A → World H
left_by (returned a w) = w
left_by (panicked p w) = w

abbrev IsFinish : EventKind → Type 0
IsFinish execution_finished = Unit
IsFinish _ = ⊥

module _ {H : Type 0} (sdk : Sdk H) (a : Adapter) where
  -- Deliveries of events in an execution: between them the rest of the program runs, and the last
  -- one may fail, panic or be the finish, behind which nothing is delivered.
  pub data Delivers : World (Observed H) → World (Observed H) → Type 0 where
    at_rest : (w : World (Observed H)) → Delivers w w
    meanwhile :
        (w v u : World (Observed H))
        → v.host.observer ≡ w.host.observer
        → v.host.told ≡ w.host.told
        → Delivers v u
        → Delivers w u
    delivered :
        (ctx : Context (Observed H)) (e : Event) (w v u : World (Observed H))
        → ¬ IsFinish e.kind
        → observe sdk a ctx e w ≡ returned none v
        → Delivers v u
        → Delivers w u
    last :
        (ctx : Context (Observed H)) (e : Event) (w : World (Observed H))
        → Delivers w (left_by (observe sdk a ctx e w))

module _ {H : Type 0} (limit events ends : ℕ) (sdk : Sdk H) (a : Adapter) where
  abbrev Work : World (Observed H) → Type 0
  Work w = IsOpen limit events ends AnySpan w.host.observer w.host.told

  abbrev Left : World (Observed H) → Type 0
  Left w = IsLeft limit events ends w.host.observer w.host.told

  Leaves-left_by :
      {A : Type 0} (c : Call (Observed H) A)
      → Leaves (λ _. IsLeft limit events ends) (IsLeft limit events ends) c
      → Left (left_by c)
  Leaves-left_by (returned x w) h = h
  Leaves-left_by (panicked p w) h = h

  rule-Work :
      (e : Event) (w : World (Observed H))
      → a.config.event_limit ≡ pos limit
      → Work w
      → Leaves
          (λ _. IsOpen limit events ends AnySpan)
          (IsLeft limit events ends)
          ((rule sdk a e >> pure {A = Option Err} none) w)
  rule-Work e w same o =
      Leaves-then (IsOpen limit events ends AnySpan) (λ _. IsOpen limit events ends AnySpan)
        (IsLeft limit events ends) (rule sdk a e) (pure none) w
        (rule-Keeps limit events ends AnySpan sdk a e same w o) (λ v h. h)

  -- Every event but the last one leaves the observer at work.
  observe_kind-Work :
      (e : Event) (kind : EventKind) (w : World (Observed H))
      → a.config.event_limit ≡ pos limit
      → ¬ IsFinish kind
      → Work w
      → Leaves
          (λ _. IsOpen limit events ends AnySpan)
          (IsLeft limit events ends)
          (observe_kind sdk a e kind w)
  unfolding observe_kind
  observe_kind-Work e execution_started w same more o =
      Leaves-then (IsOpen limit events ends AnySpan) (λ _. IsOpen limit events ends AnySpan)
        (IsLeft limit events ends) (begin_observation sdk a e) (pure none) w
        (begin_observation-Keeps limit events ends sdk a e w o) (λ v h. h)
  observe_kind-Work e rule_evaluated w same more o = rule-Work e w same o
  observe_kind-Work e rule_matched w same more o = rule-Work e w same o
  observe_kind-Work e rule_fired_event w same more o = rule-Work e w same o
  observe_kind-Work e rule_failed_event w same more o = rule-Work e w same o
  observe_kind-Work e execution_finished w same more o = absurd (more tt)
  observe_kind-Work e event_none w same more o = o
  observe_kind-Work e group_resolved_event w same more o = o
  observe_kind-Work e group_finished w same more o = o

  is_finish : (kind : EventKind) → IsFinish kind ⊎ (¬ IsFinish kind)
  is_finish execution_finished = inl tt
  is_finish execution_started = inr (λ h. h)
  is_finish rule_evaluated = inr (λ h. h)
  is_finish rule_matched = inr (λ h. h)
  is_finish rule_fired_event = inr (λ h. h)
  is_finish rule_failed_event = inr (λ h. h)
  is_finish event_none = inr (λ h. h)
  is_finish group_resolved_event = inr (λ h. h)
  is_finish group_finished = inr (λ h. h)

  finish_kind-Left :
      (e : Event) (kind : EventKind) (w : World (Observed H))
      → IsFinish kind
      → Work w
      → Leaves
          (λ _. IsLeft limit events ends)
          (IsLeft limit events ends)
          (observe_kind sdk a e kind w)
  unfolding observe_kind
  finish_kind-Left e execution_finished w h o = finish-IsLeft limit events ends sdk a e w o
  finish_kind-Left e execution_started w h o = elim h [ ]
  finish_kind-Left e rule_evaluated w h o = elim h [ ]
  finish_kind-Left e rule_matched w h o = elim h [ ]
  finish_kind-Left e rule_fired_event w h o = elim h [ ]
  finish_kind-Left e rule_failed_event w h o = elim h [ ]
  finish_kind-Left e event_none w h o = elim h [ ]
  finish_kind-Left e group_resolved_event w h o = elim h [ ]
  finish_kind-Left e group_finished w h o = elim h [ ]

  observe-Left :
      (ctx : Context (Observed H)) (e : Event) (w : World (Observed H))
      → a.config.event_limit ≡ pos limit
      → Work w
      → Left (left_by (observe sdk a ctx e w))
  observe-Left ctx e w same o = elim (is_finish e.kind) [
    | inl ends_it ↦ Leaves-left_by (observe sdk a ctx e w) (finish_kind-Left e e.kind w ends_it o)
    | inr more ↦ Leaves-left_by (observe sdk a ctx e w) (
        Leaves-weaken (λ _. IsOpen limit events ends AnySpan) (λ _. IsLeft limit events ends)
          (IsLeft limit events ends) (IsLeft limit events ends) (observe sdk a ctx e w)
          (λ x s t h. IsOpen-IsLeft limit events ends AnySpan s t h) (λ s t h. h)
          (observe_kind-Work e e.kind w same more o))
  ]

  pub Delivers-Left :
      (w u : World (Observed H))
      → a.config.event_limit ≡ pos limit
      → Work w
      → Delivers sdk a w u
      → Left u
  Delivers-Left _ _ same o (at_rest w) = IsOpen-IsLeft limit events ends AnySpan _ _ o
  Delivers-Left _ _ same o (meanwhile w v u s t d) =
      Delivers-Left v u same
        (subst (λ x. IsOpen limit events ends AnySpan x v.host.told) (sym s)
          (subst (IsOpen limit events ends AnySpan w.host.observer) (sym t) o))
        d
  Delivers-Left _ _ same o (delivered ctx e w v u more run d) =
      Delivers-Left v u same
        (subst (Leaves (λ _. IsOpen limit events ends AnySpan) (IsLeft limit events ends)) run
          (observe_kind-Work e e.kind w same more o))
        d
  Delivers-Left _ _ same o (last ctx e w) = observe-Left ctx e w same o
