-- ===== src/Execution/Calls.antt =====
-- Calls of business callbacks with the recovery of panics (`callCondition`, `callAction`), and what
-- tracing adds around them: clock readings, the recorder of a condition, and its frozen tree.
use rulite.Base.{
  ℕ, zero, suc, List, [], ◌∷◌, Bool, true, false, not, ◌&&◌, Option, none, some, if◌then◌else◌,
  length, get_elem?, set, ◌==◌, is_some,
}
use rulite.Errors.{RuleId, Phase, condition_phase, action_phase, nil_call, Err, panic_error}
use rulite.World.{
  Call, returned, panicked, Context, Pointer, Eff, Condition, Action, Recording, NodeView,
  ConditionKind, condition_leaf, outcome_error,
}
use rulite.Ledger.{ConditionTrace, node, ConditionTraces, nil, cons, RuleTiming, TraceData, Result}
use rulite.Policy.{propagate_panics}

-- The named results of `callCondition` and `callAction`: a recovered panic, or what came back.
pub data Caught (A : Type 0) : Type 0 where
  ran : A → Caught A
  recovered : Err → Caught A

module _ {Host : Type 0} where
  -- The deferred function.
  abbrev pub recover_call : {A : Type 0} → RuleId → Phase → ℕ → Call Host A → Call Host (Caught A)
  recover_call id phase mode (returned a w) = returned (ran a) w
  recover_call id phase mode (panicked p w) =
      if mode == propagate_panics
      then panicked p w
      else returned (recovered (panic_error id phase p)) w

  -- A call of a nil function is a panic of the runtime.
  unfoldable pub call_condition :
      Context Host
      → Pointer
      → Option (Condition Host)
      → RuleId
      → ℕ
      → Eff Host (Caught (Bool × Option Err))
  call_condition ctx input none id mode w =
      recover_call id condition_phase mode (panicked nil_call w)
  call_condition ctx input (some condition) id mode w =
      recover_call id condition_phase mode (condition ctx input w)

  unfoldable pub call_action :
      Context Host → Pointer → Option (Action Host) → RuleId → ℕ → Eff Host (Caught (Option Err))
  call_action ctx input none id mode w = recover_call id action_phase mode (panicked nil_call w)
  call_action ctx input (some action) id mode w =
      recover_call id action_phase mode (action ctx input w)

abbrev pub frozen_view : Option Err → Recording → NodeView
frozen_view panic r =
    let view =
      (if r.started && (not r.finished && is_some panic)
        then record r.view { outcome = outcome_error; err = panic }
        else r.view) in
    if r.opaque then record view { kind = condition_leaf } else view

abbrev pub frozen_children : Recording → List ℕ
frozen_children r = if r.opaque then [] else r.children

abbrev pub append_tree : Option ConditionTrace → ConditionTraces → ConditionTraces
append_tree none ts = ts
append_tree (some t) ts = cons t ts

abbrev pub fold_trees : (ℕ → Option ConditionTrace) → List ℕ → ConditionTraces
fold_trees f [] = nil
fold_trees f (i ∷ is) = append_tree (f i) (fold_trees f is)

-- `conditionRecording.freeze`. A recording is allocated before its children, so a chain of children
-- is never longer than the store: the fuel is the number of recordings.
pub freeze : ℕ → List Recording → Option Err → ℕ → Option ConditionTrace
freeze zero recordings panic place = none
freeze (suc fuel) recordings panic place = elim (get_elem? recordings place) [
  | none ↦ none
  | some r ↦
      some
        (node (frozen_view panic r) (fold_trees (freeze fuel recordings panic) (frozen_children r)))
]

abbrev is_leaf_kind : ConditionKind → Bool
is_leaf_kind condition_leaf = true
is_leaf_kind _ = false

-- `tree.kind != ConditionLeaf`
abbrev pub worth_keeping : Option ConditionTrace → Option ConditionTrace
worth_keeping none = none
worth_keeping (some (node view children)) =
    if is_leaf_kind view.kind then none else some (node view children)

unfoldable pub frozen_tree : List Recording → Option Err → ℕ → Option ConditionTrace
unfolding freeze
frozen_tree recordings panic place =
    worth_keeping (freeze (suc (length recordings)) recordings panic place)

abbrev blank_timing : RuleTiming
blank_timing = record { condition = 0; action = 0; tree = none }

abbrev timing_at : List RuleTiming → ℕ → RuleTiming
timing_at timings order = elim (get_elem? timings order) [ none ↦ blank_timing | some t ↦ t ]

-- A write to `x.result.trace.rules[order]`.
abbrev pub timed : ℕ → (RuleTiming → RuleTiming) → Option TraceData → Option TraceData
timed order f none = none
timed order f (some t) = some (record t { rules = set t.rules order (f (timing_at t.rules order)) })

abbrev pub on_timing : ℕ → (RuleTiming → RuleTiming) → Result → Result
on_timing order f r = record r { trace = timed order f r.trace }

abbrev with_duration : ℕ → Option TraceData → Option TraceData
with_duration elapsed none = none
with_duration elapsed (some t) = some (record t { duration = elapsed })

-- `x.result.trace.duration = time.Since(start)`
abbrev pub set_duration : ℕ → Result → Result
set_duration elapsed r = record r { trace = with_duration elapsed r.trace }
