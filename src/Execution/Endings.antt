-- ===== src/Execution/Endings.antt =====
-- Induction over an execution for properties that tell a stopped ledger from one that goes on.
use rulite.Base.{
  ℕ, zero, suc, List, [], ◌∷◌, subst, Bool, true, false, Option, none, some, Bool-cases, inl, inr,
}
use rulite.Errors.{RuleId, Err}
use rulite.Ledger.{CompiledEntry, GroupMetadata, GroupRecord, stop_completed}
use rulite.Execution.State.{Execution, observe_context_error, group_record, on_result, set_stop}
use rulite.Execution.Outcome.{Flow, next, leave, Job, is_entered}
use rulite.Execution.Automaton.{Answers, visit}
use rulite.Execution.Moves.{At}
use rulite.Execution.Runs.{
  Visits, ends, cut, leaves, goes_on, entered_group, Performs, blocked, performs, closed, Passes,
  passes_all, passes_stop, passes_on, Covers, covers_range, covers_entries, Executes, never_started,
  stops, completes, count_rest,
}
use rulite.Execution.Loop.{whole_range}

abbrev pub OnFlow :
    {Host : Type 0} → (Bool → Execution Host → Type 0) → Flow → Execution Host → Type 0
OnFlow E next = E false
OnFlow E (leave stopped) = E stopped

-- `E true` holds of a ledger that has stopped, and `E false` of one that goes on. Groups are free.
pub record Endings {Host : Type 0} (job : Job Host) (E : Bool → Execution Host → Type 0)
    : Type 0 where
  pub free :
      (stopped : Bool) (x : Execution Host) (groups : List GroupRecord)
      → E stopped x
      → E stopped (on_result (λ r. record r { groups = groups }) x)
  pub observed :
      (e : Err) (host : Host) (x : Execution Host)
      → E false x
      → E true (observe_context_error job.ctx e host x)
  pub visited :
      (entry : CompiledEntry) (order : ℕ) (id : RuleId) (a : Answers Host) (x : Execution Host)
      → E false x
      → At (OnFlow E) (visit job entry order id a x)

module _ {Host : Type 0} (job : Job Host) {E : Bool → Execution Host → Type 0}
    (endings : Endings job E) where
  Visits-Endings :
      (entry : CompiledEntry) (stopped : Bool) {z : Execution Host} (left order : ℕ)
      {x : Execution Host}
      → Visits job entry stopped z left order x
      → E false x
      → E stopped z
  Visits-Endings entry stopped zero order {x} (ends s e) h = rw (s, e) (endings.free false _ _ h)
  Visits-Endings entry stopped (suc left) order {x} (cut err host s e) h =
      rw (s, e) (endings.observed err host x h)
  Visits-Endings entry stopped (suc left) order {x} (leaves info a has e) h =
      subst (At (OnFlow E)) e (endings.visited entry order info.id a x h)
  Visits-Endings entry stopped (suc left) order {x} (goes_on info a y has e more) h =
      Visits-Endings entry stopped left (suc order) more
        (subst (At (OnFlow E)) e (endings.visited entry order info.id a x h))

  entered-Endings :
      (entry : CompiledEntry) (group : Option GroupMetadata) (x : Execution Host)
      → E false x
      → E false (entered_group entry group x)
  entered-Endings entry none x h = h
  entered-Endings entry (some group) x h = endings.free false x _ h

  Performs-Endings :
      (entry : CompiledEntry) (stopped : Bool) {x z : Execution Host}
      → Performs job entry x stopped z
      → E false x
      → E stopped z
  Performs-Endings entry stopped {x} (blocked group e host has s same) h =
      rw (s, same) (endings.observed e host x h)
  Performs-Endings entry stopped {x} (performs v) h =
      Visits-Endings entry stopped _ _ v (entered-Endings entry entry.group x h)

  closed-Endings :
      (group : Option GroupMetadata) (stopped : Bool) (x : Execution Host)
      → E stopped x
      → E stopped (closed job group stopped x)
  closed-Endings none stopped x h = h
  closed-Endings (some group) stopped x h =
      elim (Bool-cases (is_entered (group_record x.result.groups group.index).state)) [
        | inl e ↦ rw e (endings.free stopped x _ h)
        | inr e ↦ rw e h
      ]

  Passes-Endings :
      (entries : List CompiledEntry) (stopped : Bool) {x z : Execution Host}
      → Passes job stopped z entries x
      → E false x
      → E stopped z
  Passes-Endings [] stopped (passes_all s e) h = rw (s, e) h
  Passes-Endings (entry ∷ entries) stopped (passes_stop y p s e) h =
      rw (s, e) (closed-Endings entry.group true y (Performs-Endings entry true p h))
  Passes-Endings (entry ∷ entries) stopped (passes_on y p more) h =
      Passes-Endings entries stopped more
        (closed-Endings entry.group false y (Performs-Endings entry false p h))

  Covers-Endings :
      (stopped : Bool) {x z : Execution Host} → Covers job x stopped z → E false x → E stopped z
  Covers-Endings stopped (covers_range bare p) h = Performs-Endings (whole_range job) stopped p h
  Covers-Endings stopped {x} (covers_entries entry entries e p) h =
      Passes-Endings (entry ∷ entries) stopped p (endings.free false x _ h)

  -- What holds of the last ledger, if it holds of stopped ones and of those that go on to the end.
  pub Executes-Endings :
      (P : Execution Host → Type 0) (x z : Execution Host)
      → Executes job x z
      → ((y : Execution Host) → E true y → P (count_rest job y))
      → ((y : Execution Host)
          → E false y
          → P (count_rest job (on_result (set_stop stop_completed) y)))
      → E false x
      → P z
  Executes-Endings P x z (never_started e host same) at_stop at_end h =
      rw same (at_stop _ (endings.observed e host x h))
  Executes-Endings P x z (stops y p same) at_stop at_end h =
      rw same (at_stop y (Covers-Endings true p h))
  Executes-Endings P x z (completes y p same) at_stop at_end h =
      rw same (at_end y (Covers-Endings false p h))
