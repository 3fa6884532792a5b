-- ===== src/Execution/After/Events.antt =====
-- Postconditions of deliveries to observers and of checks of the context (observer_internal.go).
use rulite.Base.{
  ℕ, List, [], ◌∷◌, ◌≡◌, Bool, true, false, Option, none, some, if◌then◌else◌, ◌==◌, Bool-cases,
  inl, inr,
}
use rulite.Base.{subst}
use rulite.Errors.{Err, observer_panic_error}
use rulite.World.{Call, returned, panicked, Context, World, ConditionOutcome}
use rulite.Rule.{GroupKind}
use rulite.Policy.{propagate_panics}
use rulite.Ledger.{Event, EventKind, Observer, Diagnostic, GroupMetadata, group_resolved_event}
use rulite.Execution.State.{
  Execution, Run, ◌>>=◌, ◌>>◌, pure, same_kind, context_done, observe_context_error,
}
use rulite.Execution.Observe.{
  observe, observe_each, observe_rule, observe_group, observe_summary, call_observer, summary_event,
  blank_event, group_view,
}
use rulite.Execution.Outcome.{Flow, leave, observe_resolved, unless_done}
use rulite.Execution.After.{
  After, deliver_call, Answered, heard, After-bind, After-pure, After-deliver,
}

module _ {Host : Type 0} where
  call_observer-Answered :
      (ctx : Context Host) (observer : Observer Host) (event : Event) (mode : ℕ) (w : World Host)
      → Answered mode (call_observer ctx observer event mode w)
  unfolding call_observer
  call_observer-Answered ctx observer event mode w = go (observer ctx event w)
    where
      go :
          (c : Call Host (Option Err))
          → Answered mode (elim c [
            | returned err w' ↦ returned err w'
            | panicked p w' ↦
                if mode == propagate_panics
                then panicked p w'
                else returned (some (observer_panic_error p)) w'
          ])
      go (returned err w') = tt
      go (panicked p w') = elim (Bool-cases (mode == propagate_panics)) [
        | inl e ↦ rw e e
        | inr e ↦ rw e tt
      ]

  module _ {P : Unit {0} → Execution Host → Type 0} (ctx : Context Host) where
    pub observe-After :
        (event : Event) (x : Execution Host) (w : World Host)
        → ((o : Option (Observer Host)) (d : List Diagnostic) → P tt (heard x o d))
        → After x.panic_mode P (observe ctx event x w)
    unfolding observe
    observe-After event x w k = go x.observer
      where
        go :
            (o : Option (Observer Host))
            → After x.panic_mode P (elim o [
              | none ↦ returned (tt, x) w
              | some observer ↦
                  deliver_call
                    (record event { identity = x.result.identity })
                    x
                    (call_observer ctx observer
                      (record event { identity = x.result.identity })
                      x.panic_mode
                      w)
            ])
        go none = After-pure tt x w (k x.observer x.result.diagnostics)
        go (some observer) =
            After-deliver _ x _ k (call_observer-Answered ctx observer _ x.panic_mode w)

  module _ (ctx : Context Host) where
    pub observe_each-After :
        {P : Unit {0} → Execution Host → Type 0} (events : List Event) (x : Execution Host)
        (w : World Host)
        → ((o : Option (Observer Host)) (d : List Diagnostic) → P tt (heard x o d))
        → After x.panic_mode P (observe_each ctx events x w)
    unfolding observe_each
    observe_each-After [] x w k = After-pure tt x w (k x.observer x.result.diagnostics)
    observe_each-After (event ∷ events) x w k =
        After-bind (observe ctx event) (λ _. observe_each ctx events) x w
          (observe-After ctx event x w
            (λ o d w'. observe_each-After events (heard x o d) w' (λ o' d'. k o' d')))

  module _ {P : Unit {0} → Execution Host → Type 0} (ctx : Context Host) where
    pub observe_rule-After :
        (kind : EventKind) (order : ℕ) (outcome : ConditionOutcome) (x : Execution Host)
        (w : World Host)
        → ((o : Option (Observer Host)) (d : List Diagnostic) → P tt (heard x o d))
        → After x.panic_mode P (observe_rule ctx kind order outcome x w)
    unfolding observe_rule
    observe_rule-After kind order outcome x w k = observe_each-After ctx _ x w k

    pub observe_summary-After :
        (kind : EventKind) (x : Execution Host) (w : World Host)
        → ((o : Option (Observer Host)) (d : List Diagnostic) → P tt (heard x o d))
        → After x.panic_mode P (observe_summary ctx kind x w)
    unfolding observe_summary
    observe_summary-After kind x w k = observe-After ctx (summary_event kind x.result) x w k

    pub observe_group-After :
        (kind : EventKind) (group : GroupMetadata) (x : Execution Host) (w : World Host)
        → ((o : Option (Observer Host)) (d : List Diagnostic) → P tt (heard x o d))
        → After x.panic_mode P (observe_group ctx kind group x w)
    unfolding observe_group
    observe_group-After kind group x w k =
        observe-After ctx (record (blank_event kind) { group = some (group_view x.result group) }) x
          w k

    pub observe_resolved-After :
        (kind : GroupKind) (group : Option GroupMetadata) (x : Execution Host) (w : World Host)
        → ((o : Option (Observer Host)) (d : List Diagnostic) → P tt (heard x o d))
        → After x.panic_mode P (observe_resolved ctx kind group x w)
    observe_resolved-After kind none x w k = After-pure tt x w (k x.observer x.result.diagnostics)
    observe_resolved-After kind (some group) x w k = elim (Bool-cases (same_kind group.kind kind)) [
      | inl e ↦ rw e (observe_group-After group_resolved_event group x w k)
      | inr e ↦ rw e (After-pure tt x w (k x.observer x.result.diagnostics))
    ]

  -- A read of the context: no error, or the error and its place in the ledger.
  module _ {mode : ℕ} {P : Bool → Execution Host → Type 0} (ctx : Context Host) where
    pub context_done-After :
        (x : Execution Host) (w : World Host)
        → P false x
        → ((e : Err) (host : Host) → P true (observe_context_error ctx e host x))
        → After mode P (context_done ctx x w)
    unfolding context_done
    context_done-After x w clear done = go (ctx.err w.host).0
      where
        go :
            (err : Option Err)
            → After mode P (elim err [
              | none ↦ returned (false, x) (record w { host = (ctx.err w.host).1 })
              | some e ↦
                  returned
                    (true, observe_context_error ctx e (ctx.err w.host).1 x)
                    (record w { host = (ctx.err w.host).1 })
            ])
        go none = After-pure false x _ clear
        go (some e) = After-pure true _ _ (done e _)

-- The same lemmas in front of the rest of a method.
module _ {Host B : Type 0} {P : B → Execution Host → Type 0} (ctx : Context Host) where
  pub After-rule_event :
      (kind : EventKind) (order : ℕ) (outcome : ConditionOutcome) (x : Execution Host)
      (w : World Host) (k : Run Host B)
      → ((o : Option (Observer Host)) (d : List Diagnostic) (w' : World Host)
          → After x.panic_mode P (k (heard x o d) w'))
      → After x.panic_mode P ((observe_rule ctx kind order outcome >> k) x w)
  After-rule_event kind order outcome x w k h =
      After-bind (observe_rule ctx kind order outcome) (λ _. k) x w
        (observe_rule-After ctx kind order outcome x w h)

  pub After-resolved_event :
      (kind : GroupKind) (group : Option GroupMetadata) (x : Execution Host) (w : World Host)
      (k : Run Host B)
      → ((o : Option (Observer Host)) (d : List Diagnostic) (w' : World Host)
          → After x.panic_mode P (k (heard x o d) w'))
      → After x.panic_mode P ((observe_resolved ctx kind group >> k) x w)
  After-resolved_event kind group x w k h =
      After-bind (observe_resolved ctx kind group) (λ _. k) x w
        (observe_resolved-After ctx kind group x w h)

  pub After-check :
      (mode : ℕ) (x : Execution Host) (w : World Host) (f : Bool → Run Host B)
      → ((w' : World Host) → After mode P (f false x w'))
      → ((e : Err) (host : Host) (w' : World Host)
          → After mode P (f true (observe_context_error ctx e host x) w'))
      → After mode P ((context_done ctx >>= f) x w)
  After-check mode x w f clear done =
      After-bind (context_done ctx) f x w (context_done-After ctx x w clear done)

module _ {Host : Type 0} {P : Flow → Execution Host → Type 0} (ctx : Context Host) where
  pub After-unless :
      (mode : ℕ) (x : Execution Host) (w : World Host) (m : Run Host Flow)
      → ((w' : World Host) → After mode P (m x w'))
      → ((e : Err) (host : Host) → P (leave true) (observe_context_error ctx e host x))
      → After mode P (unless_done ctx m x w)
  After-unless mode x w m clear done =
      After-check ctx mode x w (λ done. if done then pure (leave true) else m) clear
        (λ e host w'. After-pure (leave true) (observe_context_error ctx e host x) w' (done e host))

module _ {Host B : Type 0} {P : B → Execution Host → Type 0} (ctx : Context Host) where
  -- In front of the rest of a method, under a mode that the execution has copied.
  pub After-summary :
      (mode : ℕ) (kind : EventKind) (x : Execution Host) (w : World Host) (k : Run Host B)
      → x.panic_mode ≡ mode
      → ((o : Option (Observer Host)) (d : List Diagnostic) (w' : World Host)
          → After mode P (k (heard x o d) w'))
      → After mode P ((observe_summary ctx kind >> k) x w)
  After-summary mode kind x w k same h =
      After-bind (observe_summary ctx kind) (λ _. k) x w
        (subst
          (λ m.
            After m (λ _ x'. (w' : World Host) → After mode P (k x' w'))
              (observe_summary ctx kind x w))
          same (observe_summary-After ctx kind x w h))
