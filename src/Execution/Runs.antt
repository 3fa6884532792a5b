-- ===== src/Execution/Runs.antt =====
-- The specification of a whole execution, as relations over the automaton: which ledgers can come
-- out of the loop over an entry's rules, of the loop over the entries, and of `execute`.
use rulite.Base.{
  ℕ, zero, suc, ◌-◌, List, [], ◌∷◌, ◌≡◌, Bool, true, false, Option, none, some, if◌then◌else◌,
  get_elem?,
}
use rulite.Errors.{Err}
use rulite.Ledger.{GroupMetadata, CompiledEntry, RuleMetadata, stop_completed}
use rulite.Execution.State.{Execution, on_result, set_stop, observe_context_error, group_record}
use rulite.Execution.Outcome.{next, leave, Job, is_entered}
use rulite.Execution.Visit.{exhaust}
use rulite.Execution.Loop.{enter_group, end_here, whole_range, groups_ready, count_not_evaluated}
use rulite.Execution.Automaton.{Answers, visit}

abbrev pub entered_group :
    {Host : Type 0} → CompiledEntry → Option GroupMetadata → Execution Host → Execution Host
entered_group entry none x = x
entered_group entry (some group) x = on_result (enter_group entry group) x

module _ {Host : Type 0} (job : Job Host) where
  open job use {ctx, snapshot}

  -- The loop over the rules: how many are left, the next order, and the ledgers around it.
  pub data Visits (entry : CompiledEntry) (stopped : Bool) (z : Execution Host)
      : ℕ → ℕ → Execution Host → Type 0 where
    ends :
        {order : ℕ} {x : Execution Host}
        → stopped ≡ false
        → z ≡ on_result (exhaust entry) x
        → Visits entry stopped z zero order x
    cut :
        {left order : ℕ} {x : Execution Host} (e : Err) (host : Host)
        → stopped ≡ true
        → z ≡ observe_context_error ctx e host x
        → Visits entry stopped z (suc left) order x
    leaves :
        {left order : ℕ} {x : Execution Host} (info : RuleMetadata) (a : Answers Host)
        → get_elem? snapshot.metadata.rules order ≡ some info
        → visit job entry order info.id a x ≡ (leave stopped, z)
        → Visits entry stopped z (suc left) order x
    goes_on :
        {left order : ℕ} {x : Execution Host} (info : RuleMetadata) (a : Answers Host)
        (y : Execution Host)
        → get_elem? snapshot.metadata.rules order ≡ some info
        → visit job entry order info.id a x ≡ (next, y)
        → Visits entry stopped z left (suc order) y
        → Visits entry stopped z (suc left) order x

  abbrev pub entered : CompiledEntry → Execution Host → Execution Host
  entered entry x = entered_group entry entry.group x

  -- `executeRules`: only a group is entered, behind a check of the context.
  pub data Performs (entry : CompiledEntry) (x : Execution Host) (stopped : Bool)
      (z : Execution Host) : Type 0 where
    blocked :
        (group : GroupMetadata) (e : Err) (host : Host)
        → entry.group ≡ some group
        → stopped ≡ true
        → z ≡ observe_context_error ctx e host x
        → Performs entry x stopped z
    performs :
        Visits entry stopped z (entry.stop - entry.start) entry.start (entered entry x)
        → Performs entry x stopped z

  -- `finishGroup`, on the ledger.
  abbrev pub closed_group : GroupMetadata → Bool → Execution Host → Execution Host
  closed_group group stopped x =
      if is_entered (group_record x.result.groups group.index).state
      then end_here group stopped x
      else x

  abbrev pub closed : Option GroupMetadata → Bool → Execution Host → Execution Host
  closed none stopped x = x
  closed (some group) stopped x = closed_group group stopped x

  -- The loop over the entries.
  pub data Passes (stopped : Bool) (z : Execution Host)
      : List CompiledEntry → Execution Host → Type 0 where
    passes_all : {x : Execution Host} → stopped ≡ false → z ≡ x → Passes stopped z [] x
    passes_stop :
        {entry : CompiledEntry} {entries : List CompiledEntry} {x : Execution Host}
        (y : Execution Host)
        → Performs entry x true y
        → stopped ≡ true
        → z ≡ closed entry.group true y
        → Passes stopped z (entry ∷ entries) x
    passes_on :
        {entry : CompiledEntry} {entries : List CompiledEntry} {x : Execution Host}
        (y : Execution Host)
        → Performs entry x false y
        → Passes stopped z entries (closed entry.group false y)
        → Passes stopped z (entry ∷ entries) x

  -- The part of `execute` behind its first check: the whole range at once if no entry is listed.
  pub data Covers (x : Execution Host) (stopped : Bool) (z : Execution Host) : Type 0 where
    covers_range :
        snapshot.metadata.entries ≡ [] → Performs (whole_range job) x stopped z → Covers x stopped z
    covers_entries :
        (entry : CompiledEntry) (entries : List CompiledEntry)
        → snapshot.metadata.entries ≡ entry ∷ entries
        → Passes stopped z (entry ∷ entries) (groups_ready job x)
        → Covers x stopped z

  abbrev pub count_rest : Execution Host → Execution Host
  count_rest x = on_result count_not_evaluated x

  -- `execute` as a whole.
  pub data Executes (x z : Execution Host) : Type 0 where
    never_started :
        (e : Err) (host : Host) → z ≡ count_rest (observe_context_error ctx e host x) → Executes x z
    stops : (y : Execution Host) → Covers x true y → z ≡ count_rest y → Executes x z
    completes :
        (y : Execution Host)
        → Covers x false y
        → z ≡ count_rest (on_result (set_stop stop_completed) y)
        → Executes x z
