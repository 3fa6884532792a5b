-- ===== src/Errors.antt =====
-- The error values of errors.go and execution_errors.go. A Go error is an interface value; here it
-- is a data value with the sentinels as constructors. `user` is an error object of the application,
-- told apart by its identity, and `wrapped` is `fmt.Errorf("%w: …")`. Captured stacks are left out.
use native.Mathlib.Decide.{ℕ_discrete}
use rulite.Base.{ℕ, List, Bool, Bytes}
use mathlib.Core.Bool.{decide}

abbrev pub RuleId : Type 0
RuleId = Bytes

abbrev pub GroupId : Type 0
GroupId = Bytes

pub data Phase : Type 0 where
  condition_phase action_phase : Phase

-- What a panic carries: the application's value, or the runtime's own errors.
pub data Payload : Type 0 where
  user : ℕ → Payload
  nil_call index_out_of_range : Payload

-- The texts that construction errors add behind their sentinel.
pub data Detail : Type 0 where
  malformed_id condition_is_nil action_is_nil : Detail
  first_registered_at : ℕ → Detail

pub data Err : Type 0 where
  invalid_group duplicate_group_id invalid_rule_set invalid_rule duplicate_rule_id : Err
  invalid_condition nil_context nil_input invalid_engine invalid_policy : Err
  invalid_panic_mode invalid_runtime revision_exhausted canceled deadline_exceeded : Err
  user : ℕ → Err
  wrapped : Err → Detail → Err
  panic_error : RuleId → Phase → Payload → Err
  observer_panic_error : Payload → Err

abbrev pub List_ℕ-discrete : Discrete (List ℕ)
List_ℕ-discrete = hlevel ℕ_discrete

pub Err-discrete : Discrete Err
Err-discrete = hlevel (ℕ_discrete, List_ℕ-discrete)

-- `a == b` on error values.
unfoldable pub err_eq : Err → Err → Bool
unfolding Err-discrete ℕ_discrete
err_eq a b = decide (Err-discrete a b)

pub record Failure : Type 0 where
  pub rule_id : RuleId
  pub phase : Phase
  pub cause : Err
  pub continued : Bool

-- What `ExecutionError` joins: rule failures, and the errors of the context.
pub data Cause : Type 0 where
  rule_failure : Failure → Cause
  context_error : Err → Cause

pub record ExecutionError : Type 0 where
  pub causes : List Cause
  pub failures : List Failure
