-- ===== src/Execution/Loops.antt =====
-- The loops of an execution against their specification: `executeRules`, the entries, `execute`.
use rulite.Base.{
  ℕ, zero, suc, ◌+◌, ◌-◌, ◌≤◌, ◌<◌, List, [], ◌∷◌, ◌≡◌, refl, sym, ◌∙◌, subst, Bool, true, false,
  Option, none, some, get_elem?-some, length, arith, Bool-cases, inl, inr, if◌then◌else◌, All,
}
use rulite.World.{Context, World}
use rulite.Ledger.{CompiledEntry, GroupMetadata, group_finished}
use rulite.Execution.State.{
  Execution, Run, ◌>>=◌, ◌>>◌, pure, on_result, observe_context_error, group_record,
}
use rulite.Execution.Outcome.{Flow, next, leave, Job, change, is_entered}
use rulite.Execution.Visit.{visit_rule, loop_body, visit_rules, exhaust, checks_here}
use rulite.Execution.Loop.{
  execute_rules, enter_then, finish_entry, enter_group, end_here, finish_group, visit_entries,
  condition_context,
}
use rulite.Execution.After.{After, After-bind, After-map, After-pure, heard}
use rulite.Execution.After.Events.{After-check, After-unless, observe_group-After}
use rulite.Execution.Automaton.{ledger}
use rulite.Execution.Visits.{visit_rule-After}
use rulite.Execution.Runs.{
  Visits, ends, cut, leaves, goes_on, entered, Performs, blocked, performs, closed_group, closed,
  Passes, passes_all, passes_stop, passes_on,
}

module _ {Host : Type 0} (job : Job Host) where
  open job use {ctx, snapshot, config}

  -- The rules and the callbacks of the compiled set have the same places.
  abbrev pub IsAligned : Type 0
  IsAligned = length snapshot.metadata.rules ≡ length snapshot.callbacks

  -- An entry whose rules are there.
  abbrev pub IsInRange : CompiledEntry → Type 0
  IsInRange entry = (entry.start ≤ entry.stop) × (entry.stop ≤ length snapshot.callbacks)

  -- The entries follow one another from `lo` to the end of the rules.
  abbrev pub IsChained : ℕ → List CompiledEntry → Type 0
  IsChained lo [] = lo ≤ length snapshot.callbacks
  IsChained lo (entry ∷ entries) =
      (entry.start ≡ lo) × (entry.start ≤ entry.stop) × IsChained entry.stop entries

  pub IsChained-le :
      (lo : ℕ) (entries : List CompiledEntry)
      → IsChained lo entries
      → lo ≤ length snapshot.callbacks
  IsChained-le lo [] h = h
  IsChained-le lo (entry ∷ entries) h = omega (arith, IsChained-le entry.stop entries h.2)

  pub IsChained-IsInRange :
      (lo : ℕ) (entries : List CompiledEntry) → IsChained lo entries → All IsInRange entries
  IsChained-IsInRange lo [] h = tt
  IsChained-IsInRange lo (entry ∷ entries) h =
      ((h.1, IsChained-le entry.stop entries h.2), IsChained-IsInRange entry.stop entries h.2)

  abbrev VisitsTo : CompiledEntry → ℕ → ℕ → Execution Host → Bool → Execution Host → Type 0
  VisitsTo entry left order x stopped z =
      Visits job entry stopped (ledger z) left order (ledger x) × (z.panic_mode ≡ config.panic_mode)

  module _ (aligned : IsAligned) (c : Context Host) (entry : CompiledEntry) where
    -- What the loop body's flow leads to, given the loop from the next order on.
    FlowTo : ℕ → ℕ → Execution Host → Flow → Execution Host → Type 0
    FlowTo left order x (leave stopped) z = VisitsTo entry (suc left) order x stopped z
    FlowTo left order x next z =
        ((stopped : Bool) (u : Execution Host)
          → VisitsTo entry left (suc order) z stopped u
          → VisitsTo entry (suc left) order x stopped u)
        × (z.panic_mode ≡ config.panic_mode)

    visited :
        (left order : ℕ) (x : Execution Host) (w : World Host)
        → x.panic_mode ≡ config.panic_mode
        → order < length snapshot.callbacks
        → After config.panic_mode (FlowTo left order x) (visit_rule job c entry order x w)
    unfolding FlowTo
    visited left order x w mode inside =
        let (callbacks, has_callbacks) = get_elem?-some snapshot.callbacks order inside in
        let (info, has_info) = get_elem?-some snapshot.metadata.rules order (omega arith) in
        subst (λ m. After m (FlowTo left order x) (visit_rule job c entry order x w)) mode
          (After-map (visit_rule job c entry order x w)
            (elim [
              | leave stopped ↦ λ z h. (leaves info h.0 has_info h.1, h.2 ∙ mode)
              | next ↦ λ z h.
                  (λ stopped u g. (goes_on info h.0 (ledger z) has_info h.1 g.0, g.1), h.2 ∙ mode)
            ])
            (visit_rule-After job c entry order x w (sym mode) has_callbacks has_info))

    loop_body-After :
        (left order : ℕ) (x : Execution Host) (w : World Host)
        → x.panic_mode ≡ config.panic_mode
        → order < length snapshot.callbacks
        → After config.panic_mode (FlowTo left order x) (loop_body job c entry order x w)
    unfolding loop_body FlowTo
    loop_body-After left order x w mode inside = elim (Bool-cases (checks_here job entry order)) [
      | inl e ↦ rw e (
          After-unless ctx config.panic_mode x w (visit_rule job c entry order)
            (λ w'. visited left order x w' mode inside)
            (λ err host. (cut err host refl refl, mode)))
      | inr e ↦ rw e (visited left order x w mode inside)
    ]

    visit_rules-After :
        (left order : ℕ) (x : Execution Host) (w : World Host)
        → x.panic_mode ≡ config.panic_mode
        → order + left ≤ length snapshot.callbacks
        → After config.panic_mode
            (VisitsTo entry left order x)
            (visit_rules job c entry left order x w)
    unfolding visit_rules FlowTo
    visit_rules-After zero order x w mode inside =
        After-pure false (on_result (exhaust entry) x) w (ends refl refl, mode)
    visit_rules-After (suc left) order x w mode inside =
        After-bind (loop_body job c entry order)
          (elim [ leave stopped ↦ pure stopped | next ↦ visit_rules job c entry left (suc order) ])
          x w
          (After-map (loop_body job c entry order x w)
            (elim [
              | leave stopped ↦ λ z h w'. After-pure stopped z w' h
              | next ↦ λ z h w'.
                  After-map (visit_rules job c entry left (suc order) z w')
                    (λ stopped u. h.0 stopped u)
                    (visit_rules-After left (suc order) z w' h.1 (omega arith))
            ])
            (loop_body-After left order x w mode (omega arith)))

  module _ (aligned : IsAligned) where
    abbrev pub PerformsTo : CompiledEntry → Execution Host → Bool → Execution Host → Type 0
    PerformsTo entry x stopped z =
        Performs job entry (ledger x) stopped (ledger z) × (z.panic_mode ≡ config.panic_mode)

    -- The loop over one entry that stands at `entry`, with the group already entered.
    rules_of :
        (entry : CompiledEntry) (x y : Execution Host) (w : World Host)
        → IsInRange entry
        → x.panic_mode ≡ config.panic_mode
        → entered job entry (ledger y) ≡ ledger x
        → After config.panic_mode (PerformsTo entry y) (
            visit_rules job
              (condition_context job)
              entry
              (entry.stop - entry.start)
              entry.start
              x
              w)
    rules_of entry x y w inside mode same =
        After-map
          (visit_rules job (condition_context job) entry (entry.stop - entry.start) entry.start x w)
          (λ stopped z h. (performs (rw same h.0), h.1))
          (visit_rules-After aligned (condition_context job) entry (entry.stop - entry.start)
            entry.start x w mode (omega arith))

    pub execute_rules-After :
        (entry : CompiledEntry) (x : Execution Host) (w : World Host)
        → IsInRange entry
        → x.panic_mode ≡ config.panic_mode
        → After config.panic_mode (PerformsTo entry x) (execute_rules job entry x w)
    unfolding execute_rules
    execute_rules-After entry x w inside mode = go entry.group refl
      where
        loop : Run Host Bool
        loop = visit_rules job (condition_context job) entry (entry.stop - entry.start) entry.start

        go :
            (group : Option GroupMetadata)
            → entry.group ≡ group
            → After config.panic_mode (PerformsTo entry x) (enter_then job group entry loop x w)
        go none e = rules_of entry x x w inside mode (rw e)
        go (some g) e =
            After-check ctx config.panic_mode x w
              (λ done. if done then pure true else (change (enter_group entry g) >> loop))
              (λ w'. rules_of entry (on_result (enter_group entry g) x) x w' inside mode (rw e))
              (λ err host w'.
                After-pure true (observe_context_error ctx err host x) w'
                  (blocked g err host e refl refl, mode))

    finish_group-After :
        {P : Unit {0} → Execution Host → Type 0} (group : GroupMetadata) (stopped : Bool)
        (x : Execution Host) (w : World Host)
        → ((z : Execution Host)
            → ledger z ≡ closed_group job group stopped (ledger x)
            → z.panic_mode ≡ x.panic_mode
            → P tt z)
        → After x.panic_mode P (finish_group job group stopped x w)
    unfolding finish_group
    finish_group-After group stopped x w k =
        elim (Bool-cases (is_entered (group_record x.result.groups group.index).state)) [
          | inl e ↦ rw e (
              observe_group-After ctx group_finished group (end_here group stopped x) w
                (λ o d. k (heard (end_here group stopped x) o d) (rw e) refl))
          | inr e ↦ rw e (After-pure tt x w (k x (rw e) refl))
        ]

    abbrev pub PassesTo : List CompiledEntry → Execution Host → Bool → Execution Host → Type 0
    PassesTo entries x stopped z =
        Passes job stopped (ledger z) entries (ledger x) × (z.panic_mode ≡ config.panic_mode)

    finish_entry-After :
        {P : Unit {0} → Execution Host → Type 0} (group : Option GroupMetadata) (stopped : Bool)
        (x : Execution Host) (w : World Host)
        → x.panic_mode ≡ config.panic_mode
        → ((z : Execution Host)
            → ledger z ≡ closed job group stopped (ledger x)
            → z.panic_mode ≡ config.panic_mode
            → P tt z)
        → After config.panic_mode P (finish_entry job group stopped x w)
    finish_entry-After none stopped x w mode k = After-pure tt x w (k x refl mode)
    finish_entry-After {P} (some group) stopped x w mode k =
        subst (λ m. After m P (finish_group job group stopped x w)) mode
          (finish_group-After group stopped x w (λ z e m. k z e (m ∙ mode)))

    pub visit_entries-After :
        (entries : List CompiledEntry) (x : Execution Host) (w : World Host)
        → All IsInRange entries
        → x.panic_mode ≡ config.panic_mode
        → After config.panic_mode (PassesTo entries x) (visit_entries job entries x w)
    unfolding visit_entries
    visit_entries-After [] x w inside mode = After-pure false x w (passes_all refl refl, mode)
    visit_entries-After (entry ∷ entries) x w inside mode =
        After-bind (execute_rules job entry)
          (λ stopped. finish_entry job entry.group stopped >>= λ _. rest stopped) x w
          (After-map (execute_rules job entry x w)
            (λ stopped y h w'.
              After-bind (finish_entry job entry.group stopped) (λ _. rest stopped) y w'
                (finish_entry-After entry.group stopped y w' h.1 (λ z same m w''.
                  go stopped y z h.0 same m w''
                    (λ _. visit_entries-After entries z w'' inside.1 m))))
            (execute_rules-After entry x w inside.0 mode))
      where
        rest : Bool → Run Host Bool
        rest stopped = elim stopped [ true ↦ pure true | false ↦ visit_entries job entries ]

        go :
            (stopped : Bool) (y z : Execution Host)
            → Performs job entry (ledger x) stopped (ledger y)
            → ledger z ≡ closed job entry.group stopped (ledger y)
            → z.panic_mode ≡ config.panic_mode
            → (w' : World Host)
            → (Unit {0}
                → After config.panic_mode (PassesTo entries z) (visit_entries job entries z w'))
            → After config.panic_mode (PassesTo (entry ∷ entries) x) (rest stopped z w')
        go true y z performed same m w' later =
            After-pure true z w' (passes_stop (ledger y) performed refl same, m)
        go false y z performed same m w' later =
            After-map (visit_entries job entries z w')
              (λ stopped u h. (passes_on (ledger y) performed (rw (← same) h.0), h.1)) (later tt)
