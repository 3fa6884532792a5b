-- ===== src/Execution/After/Calls.antt =====
-- Postconditions of effects and of the calls of callbacks (`callCondition`, `callAction`).
use rulite.Base.{ℕ, Option, none, some, ◌==◌, Bool-cases, inl, inr, get_elem?, set}
use rulite.Errors.{RuleId, Phase, condition_phase, action_phase, nil_call}
use rulite.World.{
  Eff, Pointer, Condition, Action, Recording, update_at, Call, returned, panicked, Context, World,
}
use rulite.Policy.{propagate_panics}
use rulite.Execution.State.{Execution, Run, ◌>>=◌, lift}
use rulite.Execution.Calls.{recover_call, call_condition, call_action}
use rulite.Execution.After.{After, Answered, After-bind, After-pure}

-- A call that handles its own panics.
module _ {Host A : Type 0} {P : A → Execution Host → Type 0} where
  lifted-After :
      (mode : ℕ) (x : Execution Host) (c : Call Host A)
      → Answered mode c
      → ((a : A) → P a x)
      → After mode P (elim c [ returned a w' ↦ returned (a, x) w' | panicked p w' ↦ panicked p w' ])
  lifted-After mode x (returned a w') h k = After-pure a x w' (k a)
  lifted-After mode x (panicked p w') h k = record { ends = h }

  pub lift-After :
      (mode : ℕ) (m : Eff Host A) (x : Execution Host) (w : World Host)
      → Answered mode (m w)
      → ((a : A) → P a x)
      → After mode P (lift m x w)
  lift-After mode m x w h k = lifted-After mode x (m w) h k

module _ {Host A B : Type 0} {P : B → Execution Host → Type 0} where
  pub After-lift :
      (mode : ℕ) (m : Eff Host A) (x : Execution Host) (w : World Host) (f : A → Run Host B)
      → Answered mode (m w)
      → ((a : A) (w' : World Host) → After mode P (f a x w'))
      → After mode P ((lift m >>= f) x w)
  After-lift mode m x w f h k = After-bind (lift m) f x w (lift-After mode m x w h k)

module _ {Host A : Type 0} where
  pub recover_call-Answered :
      (id : RuleId) (phase : Phase) (mode : ℕ) (c : Call Host A)
      → Answered mode (recover_call id phase mode c)
  recover_call-Answered id phase mode (returned a w) = tt
  recover_call-Answered id phase mode (panicked p w) =
      elim (Bool-cases (mode == propagate_panics)) [ inl e ↦ rw e e | inr e ↦ rw e tt ]

module _ {Host : Type 0} (ctx : Context Host) (input : Pointer) (id : RuleId) (mode : ℕ) where
  pub call_condition-Answered :
      (condition : Option (Condition Host)) (w : World Host)
      → Answered mode (call_condition ctx input condition id mode w)
  unfolding call_condition
  call_condition-Answered none w =
      recover_call-Answered id condition_phase mode (panicked nil_call w)
  call_condition-Answered (some condition) w =
      recover_call-Answered id condition_phase mode (condition ctx input w)

  pub call_action-Answered :
      (action : Option (Action Host)) (w : World Host)
      → Answered mode (call_action ctx input action id mode w)
  unfolding call_action
  call_action-Answered none w = recover_call-Answered id action_phase mode (panicked nil_call w)
  call_action-Answered (some action) w =
      recover_call-Answered id action_phase mode (action ctx input w)

pub update_at-Answered :
    {Host : Type 0} (mode i : ℕ) (f : Recording → Recording) (w : World Host)
    → Answered mode (update_at i f w)
update_at-Answered mode i f w = go (get_elem? w.recordings i)
  where
    go :
        (o : Option Recording)
        → Answered mode (elim o [
          | none ↦ returned tt w
          | some r ↦ returned tt (record w { recordings = set w.recordings i (f r) })
        ])
    go none = tt
    go (some r) = tt
