-- ===== src/Condition.antt =====
-- Conditions and their combinators: `All`, `Any` and `Not` (condition.go), and the recordings that
-- they leave when a context carries a recorder (condition_trace_internal.go). A nil child is `none`.
pub mod Laws
use rulite.Base.{
  ℕ, suc, List, [], ◌∷◌, Bool, true, false, not, ◌&&◌, ◌||◌, Option, none, some, if◌then◌else◌,
}
use rulite.Base.Int.{pos, negsuc}
use rulite.Errors.{Err, invalid_condition}
use rulite.World.{
  ConditionKind, condition_leaf, condition_all, condition_any, condition_not, ConditionOutcome,
  not_evaluated, outcome_false, outcome_true, outcome_error, reason_none, short_circuit, Recording,
  Eff, Context, Pointer, Condition, ◌>>=◌, ◌>>◌, pure, allocate, update_at,
}

abbrev pub condition_outcome : Bool → Option Err → ConditionOutcome
condition_outcome matched (some e) = outcome_error
condition_outcome true none = outcome_true
condition_outcome false none = outcome_false

abbrev same_outcome : ConditionOutcome → ConditionOutcome → Bool
same_outcome not_evaluated not_evaluated = true
same_outcome outcome_false outcome_false = true
same_outcome outcome_true outcome_true = true
same_outcome outcome_error outcome_error = true
same_outcome _ _ = false

-- `&conditionRecording{view: ConditionTrace{index: …}}`
abbrev pub fresh_root : Recording
fresh_root = record {
  view = record {
    kind = condition_leaf;
    index = negsuc 0;
    outcome = not_evaluated;
    err = none;
    reason = reason_none;
  };
  started = true;
  finished = false;
  operator = false;
  opaque = false;
  children = [];
}

abbrev fresh_child : ℕ → Recording
fresh_child index = record {
  view = record {
    kind = condition_leaf;
    index = pos index;
    outcome = not_evaluated;
    err = none;
    reason = short_circuit;
  };
  started = false;
  finished = false;
  operator = false;
  opaque = false;
  children = [];
}

-- `conditionRecording.finish`
unfoldable pub finished_recording : Bool → Option Err → Recording → Recording
finished_recording matched err r =
    let outcome = condition_outcome matched err in
    record r {
      finished = true;
      opaque = r.opaque || (r.operator && not (same_outcome r.view.outcome outcome));
      view = record r.view { err = err; outcome = outcome };
    }

-- The node of a child that is about to be called.
unfoldable pub started_recording : Recording → Recording
started_recording r = record r { started = true; view = record r.view { reason = reason_none } }

-- What `traceCombined` notes at its own node before the children, and after them.
unfoldable pub entered_recording : ConditionKind → List ℕ → Recording → Recording
entered_recording kind nodes r = record r {
  opaque = r.opaque || (r.operator || r.finished);
  operator = true;
  view = record r.view { kind = kind };
  children = nodes;
}

unfoldable pub combined_recording : Bool → Option Err → Recording → Recording
combined_recording matched err r =
    if r.finished
    then r
    else record r { view = record r.view { outcome = condition_outcome matched err } }

-- What a loop does with a child's answer: `some` ends it.
abbrev pub decide_child : ConditionKind → Bool × Option Err → Option (Bool × Option Err)
decide_child kind (matched, some e) = some (false, some e)
decide_child condition_all (matched, none) = if matched then none else some (false, none)
decide_child condition_any (matched, none) = if matched then some (true, none) else none
decide_child condition_not (matched, none) = some (not matched, none)
decide_child condition_leaf (matched, none) = none

-- `return kind == ConditionAll, nil`
abbrev pub after_children : ConditionKind → Bool × Option Err
after_children condition_all = (true, none)
after_children _ = (false, none)

module _ {Host : Type 0} where
  -- `context.WithValue(ctx, conditionRecorderKey{}, node)`
  abbrev pub with_recorder : Option ℕ → Context Host → Context Host
  with_recorder node ctx = record ctx { recorder = node }

  -- A call of one child: a nil child is an error.
  unfoldable pub call_child : Option (Condition Host) → Condition Host
  call_child none ctx input = pure (false, some invalid_condition)
  call_child (some condition) ctx input = condition ctx input

  -- The loops of the untraced `All` and `Any`, and the one child of `Not`.
  unfoldable pub check_children :
      ConditionKind
      → List (Option (Condition Host))
      → Context Host
      → Pointer
      → Eff Host (Bool × Option Err)
  unfolding call_child
  check_children kind [] ctx input = pure (after_children kind)
  check_children kind (child ∷ children) ctx input = call_child child ctx input >>= λ answer.
      elim (decide_child kind answer) [
        | some result ↦ pure result
        | none ↦ check_children kind children ctx input
      ]

  -- The nodes of the children, each with its position.
  unfoldable pub allocate_children : ℕ → List (Option (Condition Host)) → Eff Host (List ℕ)
  allocate_children index [] = pure []
  allocate_children index (child ∷ children) = do
    node ← allocate (fresh_child index)
    nodes ← allocate_children (suc index) children
    pure (node ∷ nodes)

  unfoldable pub trace_children :
      ConditionKind
      → List ℕ
      → List (Option (Condition Host))
      → Context Host
      → Pointer
      → Eff Host (Bool × Option Err)
  unfolding call_child finished_recording started_recording
  trace_children kind nodes [] ctx input = pure (after_children kind)
  trace_children kind [] (child ∷ children) ctx input = pure (after_children kind)
  trace_children kind (node ∷ nodes) (child ∷ children) ctx input =
      update_at node started_recording >>= λ _.
      call_child child (with_recorder (some node) ctx) input >>= λ answer.
      update_at node (finished_recording answer.0 answer.1) >>= λ _.
      elim (decide_child kind answer) [
        | some result ↦ pure result
        | none ↦ trace_children kind nodes children ctx input
      ]

  unfoldable pub trace_combined :
      ℕ → ConditionKind → List (Option (Condition Host)) → Condition Host
  unfolding allocate_children trace_children entered_recording combined_recording
  trace_combined recorder kind children ctx input = do
    nodes ← allocate_children 0 children
    update_at recorder (entered_recording kind nodes)
    answer ← trace_children kind nodes children ctx input
    update_at recorder (combined_recording answer.0 answer.1)
    pure answer

  -- With a recorder in the context the combinators trace.
  abbrev pub combine : Option ℕ → ConditionKind → List (Option (Condition Host)) → Condition Host
  combine (some recorder) kind children ctx input = trace_combined recorder kind children ctx input
  combine none kind children ctx input = check_children kind children ctx input

  unfoldable pub all_of : List (Option (Condition Host)) → Condition Host
  unfolding trace_combined check_children
  all_of children ctx input = combine ctx.recorder condition_all children ctx input

  unfoldable pub any_of : List (Option (Condition Host)) → Condition Host
  unfolding trace_combined check_children
  any_of children ctx input = combine ctx.recorder condition_any children ctx input

  unfoldable pub not_of : Option (Condition Host) → Condition Host
  unfolding trace_combined check_children
  not_of condition ctx input = combine ctx.recorder condition_not (condition ∷ []) ctx input
