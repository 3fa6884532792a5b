-- ===== src/Execution/State.antt =====
-- The `execution` object, and the changes of its ledger that call nothing: `record`, `fail`,
-- `resolveGroup`, and the reads of the context in `contextDone`.
use rulite.Base.{
  ℕ, ◌+◌, List, [], ◌∷◌, ◌++◌, Bool, true, false, Option, none, some, if◌then◌else◌, length,
  get_elem?, set,
}
use rulite.Errors.{
  RuleId, Phase, condition_phase, action_phase, Err, deadline_exceeded, err_eq, Failure, Cause,
  rule_failure, context_error,
}
use rulite.World.{World, Call, returned, panicked, Context, Eff}
use rulite.Rule.{GroupKind, first_match, first_fire}
use rulite.Ledger.{
  GroupMetadata, SnapshotMetadata, Counts, RuleState, rule_failed, StopReason, stop_panic,
  stop_context_canceled, stop_context_deadline_exceeded, resolved, GroupRecord, zero_group_record,
  Result, Observer,
}

pub record Execution (Host : Type 0) : Type 0 where
  pub result : Result
  pub causes : List Cause
  pub observer : Option (Observer Host)
  pub panic_mode : ℕ

-- A method of `*execution`: it may call out, change the object, and leave by a panic.
abbrev pub Run : Type 0 → Type 0 → Type 0
Run Host A = Execution Host → World Host → Call Host (A × Execution Host)

module _ {Host : Type 0} where
  infixl 5 ◌>>=◌ ◌>>◌
  abbrev pub ◌>>=◌ : {A B : Type 0} → Run Host A → (A → Run Host B) → Run Host B
  ◌>>=◌ m f x w = elim (m x w) [ returned (a, x') w' ↦ f a x' w' | panicked p w' ↦ panicked p w' ]

  abbrev pub ◌>>◌ : {B : Type 0} → Run Host (Unit {0}) → Run Host B → Run Host B
  m >> k = m >>= λ _. k

  abbrev pub pure : {A : Type 0} → A → Run Host A
  pure a x w = returned (a, x) w

  abbrev pub modify : (Execution Host → Execution Host) → Run Host (Unit {0})
  modify f x w = returned (tt, f x) w

  abbrev pub lift : {A : Type 0} → Eff Host A → Run Host A
  lift m x w = elim (m w) [ returned a w' ↦ returned (a, x) w' | panicked p w' ↦ panicked p w' ]

  abbrev pub on_result : (Result → Result) → Execution Host → Execution Host
  on_result f x = record x { result = f x.result }

-- `x.result.metadata.rules[order].id`, read only at an order that the loop has already looked up.
abbrev pub id_at : Option SnapshotMetadata → ℕ → RuleId
id_at none order = []
id_at (some m) order = elim (get_elem? m.rules order) [ none ↦ [] | some info ↦ info.id ]

abbrev pub on_counts : (Counts → Counts) → Result → Result
on_counts f r = record r { counts = f r.counts }

abbrev pub set_stop : StopReason → Result → Result
set_stop stop r = record r { stop = stop }

-- `execution.record`
abbrev pub add_record : ℕ → RuleState → Result → Result
add_record order state r = record r {
  records = r.records ++ record { order = order; state = state; failure_index = 0 } ∷ [];
}

abbrev pub count_failure : Phase → Bool → Counts → Counts
count_failure condition_phase recovered c = record c {
  failed = c.failed + 1;
  condition_failed = c.condition_failed + 1;
  panic_recovered = c.panic_recovered + (if recovered then 1 else 0);
}
count_failure action_phase recovered c = record c {
  failed = c.failed + 1;
  action_failed = c.action_failed + 1;
  matched = c.matched + 1;
  panic_recovered = c.panic_recovered + (if recovered then 1 else 0);
}

module _ {Host : Type 0} where
  -- `execution.fail`
  abbrev pub fail : ℕ → Phase → Err → Bool → Bool → Execution Host → Execution Host
  fail order phase cause continued recovered x =
      let r = x.result in
      let failure : Failure = record {
        rule_id = id_at r.metadata order;
        phase = phase;
        cause = cause;
        continued = continued;
      } in
      record x {
        result = record r {
          records =
              r.records
              ++ record { order = order; state = rule_failed; failure_index = length r.failures }
                ∷ [];
          failures = r.failures ++ failure ∷ [];
          counts = count_failure phase recovered r.counts;
        };
        causes = x.causes ++ rule_failure failure ∷ [];
      }

abbrev pub mark_evaluated : ℕ → Result → Result
mark_evaluated order r = record r {
  evaluated_through = order + 1;
  counts = record r.counts { evaluated = r.counts.evaluated + 1 };
}

abbrev pub count_unmatched : Counts → Counts
count_unmatched c = record c { unmatched = c.unmatched + 1 }

abbrev pub count_skipped : Counts → Counts
count_skipped c = record c { matched = c.matched + 1; skipped = c.skipped + 1 }

abbrev pub count_fired : Counts → Counts
count_fired c = record c { matched = c.matched + 1; fired = c.fired + 1 }

-- `x.result.groups[index]`, and a change of it.
abbrev pub group_record : List GroupRecord → ℕ → GroupRecord
group_record groups index = elim (get_elem? groups index) [ none ↦ zero_group_record | some g ↦ g ]

abbrev pub on_group : ℕ → (GroupRecord → GroupRecord) → Result → Result
on_group index f r = record r { groups = set r.groups index (f (group_record r.groups index)) }

-- Whether a group has the given kind.
abbrev pub same_kind : GroupKind → GroupKind → Bool
same_kind first_match first_match = true
same_kind first_fire first_fire = true
same_kind _ _ = false

abbrev pub resolved_groups :
    GroupKind → Option GroupMetadata → RuleId → List GroupRecord → List GroupRecord
resolved_groups kind none id groups = groups
resolved_groups kind (some group) id groups =
    if same_kind group.kind kind
    then set groups group.index
        (record (group_record groups group.index) { state = resolved; selected = id })
    else groups

-- `if entry.group != nil && entry.group.kind == kind { x.resolveGroup(entry.group, id) }`
abbrev pub resolve_group : GroupKind → Option GroupMetadata → RuleId → Result → Result
resolve_group kind group id r = record r { groups = resolved_groups kind group id r.groups }

abbrev pub context_causes : Err → Option Err → List Cause
context_causes err none = context_error err ∷ []
context_causes err (some cause) =
    if err_eq cause err
    then context_error err ∷ []
    else context_error err ∷ context_error cause ∷ []

abbrev pub is_stop_panic : StopReason → Bool
is_stop_panic stop_panic = true
is_stop_panic _ = false

abbrev pub context_stop : Err → StopReason
context_stop deadline_exceeded = stop_context_deadline_exceeded
context_stop _ = stop_context_canceled

module _ {Host : Type 0} where
  abbrev pub observe_context_error : Context Host → Err → Host → Execution Host → Execution Host
  observe_context_error ctx err host x = record x {
    causes = x.causes ++ context_causes err (ctx.cause host);
    result =
        set_stop (if is_stop_panic x.result.stop then x.result.stop else context_stop err) x.result;
  }

  -- `execution.contextDone`
  unfoldable pub context_done : Context Host → Run Host Bool
  context_done ctx x w =
      let (err, host) = ctx.err w.host in
      let w' = record w { host = host } in
      elim err [
        | none ↦ returned (false, x) w'
        | some e ↦ returned (true, observe_context_error ctx e host x) w'
      ]
