-- ===== src/Runtime/Moments.antt =====
-- Interleavings of publishing and firing calls on one runtime (runtime.go): each call is one moment,
-- its locked section or its load, and the moments come in any order.
use rulite.Base.{
  ℕ, ◌+◌, ◌≤◌, ◌<◌, ◌%◌, ◌^◌, List, [], ◌∷◌, ◌≡◌, refl, sym, subst, true, false, Option, none, some,
  is_some, ◌==◌, Bool-cases, inl, inr, arith, ◌⊎◌,
}
use rulite.Errors.{invalid_engine, revision_exhausted}
use rulite.Ledger.{SnapshotInfo, zero_info, CompiledSnapshot}
use rulite.RuleSet.{Attempt, done, refused}
use rulite.Engine.{Engine}
use rulite.Runtime.{
  Publication, Runtime, max_revision, revision_of, replace, publish, captured, new_runtime,
}

pub data Moment (Host : Type 0) : Type 0 where
  publishes : Option (Engine Host) → Moment Host
  loads : Moment Host

-- What the caller of a moment learns.
pub data Seen (Host : Type 0) : Type 0 where
  answered : Attempt SnapshotInfo → Seen Host
  loaded : Option (Engine Host) → SnapshotInfo → Seen Host

module _ {Host : Type 0} where
  abbrev pub moment : Moment Host → Runtime Host → Seen Host × Runtime Host
  moment (publishes next) r = (answered (publish r next).0, (publish r next).1)
  moment loads r = (loaded (captured (some r)).0 (captured (some r)).1, r)

  unfoldable pub run : List (Moment Host) → Runtime Host → List (Seen Host) × Runtime Host
  unfolding publish captured
  run [] r = ([], r)
  run (m ∷ ms) r = ((moment m r).0 ∷ (run ms (moment m r).1).0, (run ms (moment m r).1).1)

  -- The identity is that of the engine, with a revision of its own; the engine can be fired.
  pub record IsGenuine (e : Engine Host) (identity : SnapshotInfo) : Type 0 where
    pub numbered : 1 ≤ identity.revision
    pub version : identity.version ≡ e.identity.version
    pub digest : identity.digest ≡ e.identity.digest
    pub compiled : is_some e.snapshot ≡ true

  abbrev pub IsCurrent : Option (Publication Host) → Type 0
  IsCurrent none = Unit
  IsCurrent (some p) = IsGenuine p.engine p.identity

  pub record IsSound (r : Runtime Host) : Type 0 where
    pub bounded : revision_of r ≤ max_revision
    pub current : IsCurrent r.current

  missing : (s : Option (CompiledSnapshot Host)) → is_some s ≡ false → s ≡ none
  missing none b = refl
  missing (some s) b = cc

  -- One call of `Publish`, from the revision before it to the one after it.
  abbrev pub Publishes :
      ℕ → Option (Engine Host) → Attempt SnapshotInfo → Runtime Host → Runtime Host → Type 0
  Publishes n none answer r r' = (answer ≡ refused invalid_engine) × (r' ≡ r)
  Publishes n (some e) (done identity) r r' =
      (n < max_revision)
      × (identity.revision ≡ n + 1)
      × IsGenuine e identity
      × (r' ≡ record { current = some (record { engine = e; identity = identity }) })
  Publishes n (some e) (refused err) r r' =
      ((err ≡ invalid_engine) × (e.snapshot ≡ none)
        ⊎ (err ≡ revision_exhausted) × (n ≡ max_revision))
      × (r' ≡ r)

  replace-Publishes :
      (e : Engine Host) (r : Runtime Host)
      → IsSound r
      → is_some e.snapshot ≡ true
      → Publishes (revision_of r) (some e) (replace r e).0 r (replace r e).1
  unfolding replace
  replace-Publishes e r sound fireable = elim (Bool-cases (revision_of r == max_revision)) [
    | inl full ↦ rw full (inr (refl, ground arith), refl)
    | inr free ↦
        let below : revision_of r < max_revision = ground (arith, sound.bounded) in
        let same : (revision_of r + 1) % 2 ^ 64 ≡ revision_of r + 1 = omega arith in
        rw free (
          below,
          same,
          record {
            numbered = rw same (omega arith);
            version = refl;
            digest = refl;
            compiled = fireable;
          },
          refl,
        )
  ]

  -- One call of Publish on a sound runtime: a nil or unbuilt engine is refused, and so is any engine at
  -- the last revision, both without a change; otherwise the next revision, without a wrap, is
  -- answered and stored with the identity and the engine given.
  pub publish-Publishes :
      (next : Option (Engine Host)) (r : Runtime Host)
      → IsSound r
      → Publishes (revision_of r) next (publish r next).0 r (publish r next).1
  unfolding publish
  publish-Publishes none r sound = (refl, refl)
  publish-Publishes (some e) r sound = elim (Bool-cases (is_some e.snapshot)) [
    | inl b ↦ rw (b, publish) (replace-Publishes e r sound b)
    | inr b ↦ rw (b, publish) (inl (refl, missing e.snapshot b), refl)
  ]

  Publishes-IsSound :
      (next : Option (Engine Host)) (answer : Attempt SnapshotInfo) (r r' : Runtime Host)
      → IsSound r
      → Publishes (revision_of r) next answer r r'
      → IsSound r'
  Publishes-IsSound none answer r r' sound (e, same) = subst IsSound (sym same) sound
  Publishes-IsSound (some e) (refused err) r r' sound (why, same) = subst IsSound (sym same) sound
  Publishes-IsSound (some e) (done identity) r r' sound (below, next, genuine, same) =
      subst IsSound (sym same) (record { bounded = omega arith; current = genuine })

  -- The publication that stands after a moment, told from what was asked and answered alone.
  abbrev pub standing :
      Option (Publication Host) → Moment Host → Seen Host → Option (Publication Host)
  standing now (publishes (some e)) (answered (done identity)) =
      some (record { engine = e; identity = identity })
  standing now _ _ = now

  abbrev pub number : Option (Publication Host) → ℕ
  number none = 0
  number (some p) = p.identity.revision

  abbrev pub Finds : Option (Publication Host) → Option (Engine Host) → SnapshotInfo → Type 0
  Finds none e identity = (e ≡ none) × (identity ≡ zero_info)
  Finds (some p) e identity = (e ≡ some p.engine) × (identity ≡ p.identity)

  -- What a caller may see while the publication `now` stands: a load exactly that engine with
  -- that identity, a call of `Publish` the next revision or the reason that refuses it.
  abbrev pub Sees : Option (Publication Host) → Moment Host → Seen Host → Type 0
  Sees now loads (loaded e identity) = Finds now e identity
  Sees now (publishes none) (answered answer) = answer ≡ refused invalid_engine
  Sees now (publishes (some e)) (answered (done identity)) =
      (number now < max_revision) × (identity.revision ≡ number now + 1) × IsGenuine e identity
  Sees now (publishes (some e)) (answered (refused err)) =
      (err ≡ invalid_engine) × (e.snapshot ≡ none)
      ⊎ (err ≡ revision_exhausted) × (number now ≡ max_revision)
  Sees now _ _ = ⊥

  -- What the callers of the moments see, one after the other, up to the last publication.
  abbrev pub Counts :
      Option (Publication Host)
      → List (Moment Host)
      → List (Seen Host)
      → Option (Publication Host)
      → Type 0
  Counts now [] [] last = last ≡ now
  Counts now (m ∷ ms) (s ∷ ss) last = Sees now m s × Counts (standing now m s) ms ss last
  Counts now _ _ last = ⊥

  number-revision_of : (r : Runtime Host) → revision_of r ≡ number r.current
  number-revision_of r = go r.current
    where
      go : (c : Option (Publication Host)) → revision_of (record { current = c }) ≡ number c
      go none = refl
      go (some p) = refl

  -- A moment shows what it may, and leaves the publication that stands.
  abbrev Fair : Moment Host → Runtime Host → Seen Host → Runtime Host → Type 0
  Fair m r seen r' = Sees r.current m seen × (r'.current ≡ standing r.current m seen)

  answered-Fair :
      (next : Option (Engine Host)) (answer : Attempt SnapshotInfo) (r r' : Runtime Host)
      → Publishes (number r.current) next answer r r'
      → Fair (publishes next) r (answered answer) r'
  answered-Fair none (done identity) r r' (e, same) = cc
  answered-Fair none (refused err) r r' (e, same) = (e, rw same refl)
  answered-Fair (some e) (refused err) r r' (why, same) = (why, rw same refl)
  answered-Fair (some e) (done identity) r r' (below, next, genuine, same) =
      ((below, next, genuine), rw same refl)

  loaded-Fair :
      (current : Option (Publication Host))
      → Sees current loads (moment loads (record { current = current })).0
  unfolding captured
  loaded-Fair none = (refl, refl)
  loaded-Fair (some p) = (refl, refl)

  moment-Fair :
      (m : Moment Host) (r : Runtime Host)
      → IsSound r
      → Fair m r (moment m r).0 (moment m r).1 × IsSound (moment m r).1
  moment-Fair loads r sound = ((loaded-Fair r.current, refl), sound)
  moment-Fair (publishes next) r sound =
      let h = publish-Publishes next r sound in
      (
        answered-Fair next (publish r next).0 r (publish r next).1 (
            subst (λ n. Publishes n next (publish r next).0 r (publish r next).1)
              (number-revision_of r) h),
        Publishes-IsSound next (publish r next).0 r (publish r next).1 sound h,
      )

  -- Under every interleaving of publishing and firing calls on a sound runtime, a load finds exactly
  -- the engine that was last published with success, with the identity that this call was answered,
  -- or what the runtime held at first; the answered revisions count up by one, refusals change
  -- nothing, and the runtime stays sound.
  pub run-Counts :
      (ms : List (Moment Host)) (r : Runtime Host)
      → IsSound r
      → Counts r.current ms (run ms r).0 (run ms r).1.current × IsSound (run ms r).1
  unfolding run
  run-Counts [] r sound = (refl, sound)
  run-Counts (m ∷ ms) r sound =
      let ((sees, same), sound') = moment-Fair m r sound in
      let (rest, last) = run-Counts ms (moment m r).1 sound' in
      (
        (
          sees,
          subst (λ c. Counts c ms (run ms (moment m r).1).0 (run ms (moment m r).1).1.current) same
              rest,
        ),
        last,
      )

  -- What `NewRuntime` gives for an engine: the sound runtime that holds this engine under its own
  -- identity with revision 1, or a refusal where there is no engine that can be fired.
  abbrev pub Starts : Option (Engine Host) → Attempt (Runtime Host) → Type 0
  Starts none made = made ≡ refused invalid_engine
  Starts (some e) made =
      (e.snapshot ≡ none) × (made ≡ refused invalid_engine)
      ⊎ (is_some e.snapshot ≡ true)
        × (r : Runtime Host) × (made ≡ done r)
        × (r.current ≡ some (record { engine = e; identity = record e.identity { revision = 1 } }))
        × IsSound r

  -- `NewRuntime` refuses a nil or unbuilt engine as invalid; for every other engine it gives the
  -- sound runtime that holds this engine, under the engine's identity with revision 1.
  pub new_runtime-IsSound : (initial : Option (Engine Host)) → Starts initial (new_runtime initial)
  unfolding new_runtime publish replace
  new_runtime-IsSound none = refl
  new_runtime-IsSound (some e) = elim (Bool-cases (is_some e.snapshot)) [
    | inr b ↦ inl (missing e.snapshot b, rw (b, new_runtime) refl)
    | inl b ↦ inr (
      b,
      record { current = _ },
      rw (b, new_runtime) refl,
      refl,
      record {
        bounded = omega arith;
        current = record { numbered = omega arith; version = refl; digest = refl; compiled = b };
      },
    )
  ]
