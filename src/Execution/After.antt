-- ===== src/Execution/After.antt =====
-- Postconditions of the methods of an execution, one rule for each way to build one: callbacks,
-- observers and contexts answer whatever they like.
pub mod Events
pub mod Calls
use rulite.Base.{
  ℕ, List, [], ◌∷◌, ◌++◌, ◌≡◌, Bool, true, false, Option, none, some, if◌then◌else◌, ◌==◌,
  Bool-cases, inl, inr, get_elem?, set,
}
use rulite.Base.{subst}
use rulite.Errors.{
  Err, observer_panic_error, RuleId, Phase, condition_phase, action_phase, nil_call,
}
use rulite.World.{
  Eff, Pointer, Condition, Action, Recording, update_at, Call, returned, panicked, Context, World,
  ConditionOutcome,
}
use rulite.Rule.{GroupKind}
use rulite.Policy.{propagate_panics}
use rulite.Ledger.{Event, EventKind, Observer, Diagnostic, GroupMetadata, group_resolved_event}
use rulite.Execution.State.{
  Execution, Run, ◌>>=◌, ◌>>◌, pure, lift, same_kind, context_done, observe_context_error,
}
use rulite.Execution.Observe.{
  observe, observe_each, observe_rule, observe_group, observe_summary, call_observer, note_delivery,
  summary_event, blank_event, group_view,
}
use rulite.Execution.Calls.{recover_call, call_condition, call_action}
use rulite.Execution.Outcome.{Flow, leave, observe_resolved, unless_done}

-- How a call ends: it returns with `P`, or a panic leaves it, under `PropagatePanics` only.
abbrev pub Ends :
    {Host A : Type 0} → ℕ → (A → Execution Host → Type 0) → Call Host (A × Execution Host) → Type 0
Ends mode P (returned (a, x) w) = P a x
Ends mode P (panicked p w) = (mode == propagate_panics) ≡ true

-- The same as a record, so that `P` can be read off a goal.
pub record After {Host A : Type 0} (mode : ℕ) (P : A → Execution Host → Type 0)
    (c : Call Host (A × Execution Host)) : Type 0 where
  pub ends : Ends mode P c

abbrev bind_call :
    {Host A B : Type 0}
    → (A → Run Host B)
    → Call Host (A × Execution Host)
    → Call Host (B × Execution Host)
bind_call f (returned (a, x) w) = f a x w
bind_call f (panicked p w) = panicked p w

-- A call that handles panics by the mode: only `PropagatePanics` lets one through.
abbrev pub Answered : {Host A : Type 0} → ℕ → Call Host A → Type 0
Answered mode (returned a w) = Unit
Answered mode (panicked p w) = (mode == propagate_panics) ≡ true

abbrev pub deliver_call :
    {Host : Type 0}
    → Event
    → Execution Host
    → Call Host (Option Err)
    → Call Host (Unit {0} × Execution Host)
deliver_call event x (returned err w) = returned (tt, note_delivery event err x) w
deliver_call event x (panicked p w) = panicked p w

-- What a delivery of events may change.
abbrev pub heard :
    {Host : Type 0} → Execution Host → Option (Observer Host) → List Diagnostic → Execution Host
heard x o d = record x { observer = o; result = record x.result { diagnostics = d } }

module _ {Host : Type 0} {mode : ℕ} where
  bind_call-After :
      {A B : Type 0} {P : B → Execution Host → Type 0} (f : A → Run Host B)
      (c : Call Host (A × Execution Host))
      → After mode (λ a x'. (w' : World Host) → After mode P (f a x' w')) c
      → After mode P (bind_call f c)
  bind_call-After f (returned (a, x') w') h = h.ends w'
  bind_call-After f (panicked p w') h = record { ends = h.ends }

  pub After-bind :
      {A B : Type 0} {P : B → Execution Host → Type 0} (m : Run Host A) (f : A → Run Host B)
      (x : Execution Host) (w : World Host)
      → After mode (λ a x'. (w' : World Host) → After mode P (f a x' w')) (m x w)
      → After mode P ((m >>= f) x w)
  After-bind m f x w h = bind_call-After f (m x w) h

  pub After-map :
      {A : Type 0} {P Q : A → Execution Host → Type 0} (c : Call Host (A × Execution Host))
      → ((a : A) (x : Execution Host) → P a x → Q a x)
      → After mode P c
      → After mode Q c
  After-map (returned (a, x) w) k h = record { ends = k a x h.ends }
  After-map (panicked p w) k h = record { ends = h.ends }

  pub After-pure :
      {A : Type 0} {P : A → Execution Host → Type 0} (a : A) (x : Execution Host) (w : World Host)
      → P a x
      → After mode P (returned (a, x) w)
  After-pure a x w h = record { ends = h }

  pub After-deliver :
      {P : Unit {0} → Execution Host → Type 0} (event : Event) (x : Execution Host)
      (c : Call Host (Option Err))
      → ((o : Option (Observer Host)) (d : List Diagnostic) → P tt (heard x o d))
      → Answered mode c
      → After mode P (deliver_call event x c)
  After-deliver event x (returned none w) k h = record { ends = k x.observer x.result.diagnostics }
  After-deliver event x (returned (some err) w) k h = record {
    ends = k none (x.result.diagnostics ++ record { event = event; cause = err } ∷ []);
  }
  After-deliver event x (panicked p w) k h = record { ends = h }
