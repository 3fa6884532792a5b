-- ===== src/Execution/Visits.antt =====
-- The callbacks of a visit with their tracing, and the whole loop body, against the automaton.
use rulite.Base.{ℕ, ◌-◌, ◌≡◌, refl, Bool, true, false, Option, none, some, get_elem?, if◌then◌else◌}
use rulite.Errors.{RuleId, Err, condition_phase}
use rulite.World.{Context, World, allocate, outcome_true}
use rulite.Condition.{fresh_root, finished_recording, with_recorder}
use rulite.Ledger.{
  CompiledEntry, RuleCallbacks, RuleMetadata, TraceData, rule_evaluated, rule_matched, rule_skipped,
}
use rulite.Rule.{first_match}
use rulite.Execution.State.{
  Execution, Run, ◌>>=◌, ◌>>◌, pure, lift, on_result, mark_evaluated, resolve_group, context_done,
  on_counts, count_skipped, add_record,
}
use rulite.Execution.Observe.{observe_rule}
use rulite.Execution.Calls.{Caught, ran, recovered, call_condition, call_action, on_timing}
use rulite.Execution.Outcome.{
  Flow, leave, Job, read_clock, run_action, attempt_action, after_call, condition_matched,
  after_condition, observe_resolved, change,
}
use rulite.Execution.Visit.{
  finish_node, note_tree, close_node, call_traced, visit_rule, evaluate_condition,
}
use rulite.Execution.After.{After, Answered, After-bind, After-map, After-pure, heard}
use rulite.Execution.After.Events.{After-rule_event, After-resolved_event, After-check}
use rulite.Execution.After.Calls.{
  lift-After, After-lift, call_action-Answered, call_condition-Answered, update_at-Answered,
}
use rulite.Execution.Automaton.{Check, Answers, attempt, match_rule, settle, visit}
use rulite.Execution.Refine.{
  Makes, condition_failed-After, condition_missed-After, panic_stop-After, after_call-After,
}

abbrev answers :
    {Host : Type 0}
    → Caught (Bool × Option Err)
    → Check Host × Caught (Option Err) × Check Host
    → Answers Host
answers answer i = record { condition = answer; settled = i.0; action = i.1; finished = i.2 }

-- What tracing may change.
abbrev pub retimed : {Host : Type 0} → Execution Host → Option TraceData → Execution Host
retimed x t = record x { result = record x.result { trace = t } }

module _ {Host : Type 0} (job : Job Host) where
  open job use {ctx, input, snapshot, config}

  -- The calls recover by the mode of the configuration, which the execution has copied.
  module _ (x : Execution Host) (copied : config.panic_mode ≡ x.panic_mode) where
    action_Answered :
        (callbacks : RuleCallbacks Host) (id : RuleId) (w : World Host)
        → Answered x.panic_mode (call_action ctx input callbacks.action id config.panic_mode w)
    action_Answered callbacks id w =
        rw copied (call_action-Answered ctx input id x.panic_mode callbacks.action w)

    condition_Answered :
        (c : Context Host) (callbacks : RuleCallbacks Host) (id : RuleId) (w : World Host)
        → Answered x.panic_mode (call_condition c input callbacks.condition id config.panic_mode w)
    condition_Answered c callbacks id w =
        rw copied (call_condition-Answered c input id x.panic_mode callbacks.condition w)

  finish_node-Answered :
      (mode place : ℕ) (answer : Caught (Bool × Option Err)) (w : World Host)
      → Answered mode (finish_node job place answer w)
  finish_node-Answered mode place (recovered panic) w = tt
  finish_node-Answered mode place (ran (matched, err)) w =
      update_at-Answered mode place (finished_recording matched err) w

  module _ {P : Caught (Option Err) → Execution Host → Type 0} (x : Execution Host)
      (copied : config.panic_mode ≡ x.panic_mode) where
    run_action-After :
        (traced : Bool) (order : ℕ) (id : RuleId) (callbacks : RuleCallbacks Host) (w : World Host)
        → ((a : Caught (Option Err)) (t : Option TraceData) → P a (retimed x t))
        → After x.panic_mode P (run_action job traced order id callbacks x w)
    unfolding run_action
    run_action-After false order id callbacks w k =
        lift-After x.panic_mode (call_action ctx input callbacks.action id config.panic_mode) x w
          (action_Answered x copied callbacks id w) (λ a. k a x.result.trace)
    run_action-After true order id callbacks w k =
        After-lift x.panic_mode (read_clock job) x w
          (λ start.
            lift (call_action ctx input callbacks.action id config.panic_mode) >>= λ outcome.
            lift (read_clock job) >>= λ stop.
            change (on_timing order (λ t. record t { action = stop - start })) >> pure outcome)
          tt
          (λ start w₁.
            After-lift x.panic_mode (call_action ctx input callbacks.action id config.panic_mode) x
              w₁
              (λ outcome. lift (read_clock job) >>= λ stop.
                change (on_timing order (λ t. record t { action = stop - start })) >> pure outcome)
              (action_Answered x copied callbacks id w₁)
              (λ outcome w₂.
                After-lift x.panic_mode (read_clock job) x w₂
                  (λ stop.
                    change (on_timing order (λ t. record t { action = stop - start }))
                    >> pure outcome)
                  tt (λ stop w₃. After-pure outcome _ w₃ (k outcome _))))

  module _ {P : Caught (Bool × Option Err) → Execution Host → Type 0} where
    close_node-After :
        (x : Execution Host) (order place start : ℕ) (answer : Caught (Bool × Option Err))
        (w : World Host)
        → ((t : Option TraceData) → P answer (retimed x t))
        → After x.panic_mode P (close_node job order place start answer x w)
    close_node-After x order place start answer w k =
        After-lift x.panic_mode (read_clock job) x w
          (λ stop.
            lift (finish_node job place answer)
            >> (note_tree job order place (stop - start) answer >> pure answer))
          tt
          (λ stop w₁.
            After-lift x.panic_mode (finish_node job place answer) x w₁
              (λ _. note_tree job order place (stop - start) answer >> pure answer)
              (finish_node-Answered x.panic_mode place answer w₁)
              (λ _ w₂. After-pure answer _ w₂ (k _)))

    evaluate_condition-After :
        (x : Execution Host) (copied : config.panic_mode ≡ x.panic_mode) (traced : Bool)
        (c : Context Host) (order : ℕ) (id : RuleId) (callbacks : RuleCallbacks Host)
        (w : World Host)
        → ((a : Caught (Bool × Option Err)) (t : Option TraceData)
            → P a (retimed (on_result (mark_evaluated order) x) t))
        → After x.panic_mode P (evaluate_condition job traced c order id callbacks x w)
    unfolding evaluate_condition
    evaluate_condition-After x copied false c order id callbacks w k =
        lift-After x.panic_mode (call_condition c input callbacks.condition id config.panic_mode)
          (on_result (mark_evaluated order) x) w (condition_Answered x copied c callbacks id w)
          (λ a. k a x.result.trace)
    evaluate_condition-After x copied true c order id callbacks w k =
        After-lift x.panic_mode (allocate fresh_root) x w
          (λ place. lift (read_clock job) >>= call_traced job place order id callbacks) tt
          (λ place w₁.
            After-lift x.panic_mode (read_clock job) x w₁ (call_traced job place order id callbacks)
              tt
              (λ start w₂.
                After-lift x.panic_mode
                  (call_condition (with_recorder (some place) ctx) input callbacks.condition id
                    config.panic_mode)
                  (on_result (mark_evaluated order) x) w₂ (close_node job order place start)
                  (condition_Answered x copied (with_recorder (some place) ctx) callbacks id w₂)
                  (λ a w₃.
                    close_node-After (on_result (mark_evaluated order) x) order place start a w₃
                      (k a))))

  attempt_action-After :
      (entry : CompiledEntry) (order : ℕ) (id : RuleId) (callbacks : RuleCallbacks Host)
      (x : Execution Host) (w : World Host)
      → config.panic_mode ≡ x.panic_mode
      → After x.panic_mode
          (Makes job
            (λ (i : Caught (Option Err) × Check Host). attempt job entry order id i.0 i.1)
            x)
          (attempt_action job entry order id callbacks x w)
  unfolding attempt_action
  attempt_action-After entry order id callbacks x w copied =
      After-bind (run_action job config.trace order id callbacks) (after_call job entry order id) x
        w
        (run_action-After x copied config.trace order id callbacks w (λ a t w'.
          After-map _ (λ flow z h. ((a, h.0), h.1, h.2))
            (after_call-After job entry order id a (retimed x t) w')))

  -- What `condition_matched` does, at the two checks of the context and the action's answer.
  abbrev after_match :
      CompiledEntry
      → ℕ
      → RuleId
      → Check Host × Caught (Option Err) × Check Host
      → Execution Host
      → Flow × Execution Host
  after_match entry order id (settled, action, finished) y =
      match_rule job entry order id settled action finished
        (on_result (resolve_group first_match entry.group id) y)

  condition_matched-After :
      (entry : CompiledEntry) (order : ℕ) (id : RuleId) (callbacks : RuleCallbacks Host)
      (x : Execution Host) (w : World Host)
      → config.panic_mode ≡ x.panic_mode
      → After x.panic_mode
          (Makes job (after_match entry order id) x)
          (condition_matched job entry order id callbacks x w)
  unfolding condition_matched match_rule
  condition_matched-After entry order id callbacks x w copied =
      let y : Execution Host = on_result (resolve_group first_match entry.group id) x in
      let last : Bool → Run Host Flow = λ done.
        (if done
          then (change (λ r. on_counts count_skipped (add_record order rule_skipped r))
              >> pure (leave true))
          else attempt_action job entry order id callbacks) in
      let resolved : Run Host Flow =
        observe_resolved ctx first_match entry.group >> (context_done ctx >>= last) in
      After-rule_event ctx rule_evaluated order outcome_true y w
        (observe_rule ctx rule_matched order outcome_true >> resolved)
        (λ o₁ d₁ w₁.
          After-rule_event ctx rule_matched order outcome_true (heard y o₁ d₁) w₁ resolved
            (λ o₂ d₂ w₂.
              After-resolved_event ctx first_match entry.group (heard y o₂ d₂) w₂
                (context_done ctx >>= last)
                (λ o₃ d₃ w₃.
                  After-check ctx x.panic_mode (heard y o₃ d₃) w₃ last
                    (λ w₄.
                      After-map _ (λ flow z h. ((none, h.0.0, h.0.1), h.1, h.2))
                        (attempt_action-After entry order id callbacks (heard y o₃ d₃) w₄ copied))
                    (λ e host w₄.
                      After-pure (leave true) _ w₄
                        ((some (e, host), ran none, none), refl, refl)))))

  after_condition-After :
      (entry : CompiledEntry) (order : ℕ) (id : RuleId) (callbacks : RuleCallbacks Host)
      (answer : Caught (Bool × Option Err)) (x : Execution Host) (w : World Host)
      → config.panic_mode ≡ x.panic_mode
      → After x.panic_mode
          (Makes job
            (λ (i : Check Host × Caught (Option Err) × Check Host) y.
              settle job entry order id i.0 i.1 i.2 answer y)
            x)
          (after_condition job entry order id callbacks answer x w)
  unfolding settle
  after_condition-After entry order id callbacks (recovered panic) x w copied =
      After-map _ (λ flow z h. ((h.0, ran none, none), h.1, h.2))
        (panic_stop-After job order condition_phase panic x w)
  after_condition-After entry order id callbacks (ran (matched, some err)) x w copied =
      After-map _ (λ flow z h. ((h.0, ran none, none), h.1, h.2))
        (condition_failed-After job order err x w)
  after_condition-After entry order id callbacks (ran (false, none)) x w copied =
      After-map _ (λ flow z h. ((h.0, ran none, none), h.1, h.2))
        (condition_missed-After job order x w)
  after_condition-After entry order id callbacks (ran (true, none)) x w copied =
      After-map _ (λ flow z h. h) (condition_matched-After entry order id callbacks x w copied)

  -- One visit is one step of the automaton.
  pub visit_rule-After :
      (c : Context Host) (entry : CompiledEntry) (order : ℕ) {callbacks : RuleCallbacks Host}
      {info : RuleMetadata} (x : Execution Host) (w : World Host)
      → config.panic_mode ≡ x.panic_mode
      → get_elem? snapshot.callbacks order ≡ some callbacks
      → get_elem? snapshot.metadata.rules order ≡ some info
      → After x.panic_mode
          (Makes job (visit job entry order info.id) x)
          (visit_rule job c entry order x w)
  unfolding visit_rule visit
  visit_rule-After c entry order {callbacks} {info} x w copied has_callbacks has_info =
      rw (has_callbacks, has_info, visit_rule)
        (After-bind (evaluate_condition job config.trace c order info.id callbacks)
          (after_condition job entry order info.id callbacks) x w
          (evaluate_condition-After x copied config.trace c order info.id callbacks w
            (λ answer t w'.
              After-map _ (λ flow z h. (answers answer h.0, h.1, h.2))
                (after_condition-After entry order info.id callbacks answer
                  (retimed (on_result (mark_evaluated order) x) t) w' copied))))
