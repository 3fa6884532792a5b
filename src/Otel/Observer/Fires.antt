-- ===== src/Otel/Observer/Fires.antt =====
-- `Adapter.Fire` beside the executor that it calls (otel/adapter.go).
use rulite.Base.{List, [], ◌∷◌, ◌++◌, ◌≡◌, refl, Bool, true, false, Option, none, some, arith}
use rulite.Errors.{Payload}
use rulite.World.{World, Call, returned, panicked, Eff, ◌>>◌}
use rulite.Policy.{FireOption, option_observer}
use rulite.Otel.Sdk.{Span, Sdk, Observed, modify}
use rulite.Otel.Adapter.{Adapter}
use rulite.Otel.Observer.{
  Executor, Fired, executed, fire, fresh_observer, observe, cleanup, clean_span, recovered,
  end_incomplete, end_recovered, then_cleanup,
}

-- The same value, or the same panic.
abbrev pub SameOutcome : {H R : Type 0} → Call H R → Call H (Fired R) → Type 0
SameOutcome (returned r w) (returned f v) = f ≡ executed r
SameOutcome (panicked p w) (panicked q v) = q ≡ p
SameOutcome _ _ = ⊥

-- A call that returns.
abbrev Ends : {H : Type 0} → Call (Observed H) (Unit {0}) → Type 0
Ends {H} c = (v : World (Observed H)) × (c ≡ returned tt v)

Ends-elim :
    {H : Type 0} (c : Call (Observed H) (Unit {0})) (k : Eff (Observed H) (Unit {0}))
    → Ends c
    → ((v : World (Observed H)) → Ends (k v))
    → Ends (elim c [ returned a v ↦ k v | panicked p v ↦ panicked p v ])
Ends-elim (returned x v) k h next = next v
Ends-elim (panicked p v) k (u, same) next = ground arith

Ends-then :
    {H : Type 0} (m k : Eff (Observed H) (Unit {0})) (w : World (Observed H))
    → Ends (m w)
    → ((v : World (Observed H)) → Ends (k v))
    → Ends ((m >> k) w)
Ends-then m k w h next = Ends-elim (m w) k h next

-- Behind a value, and behind a panic.
SameOutcome-returned :
    {H R : Type 0} (r : R) (w : World (Observed H)) (c : Call (Observed H) (Unit {0}))
    → Ends c
    → SameOutcome
        (returned r w)
        (elim c [ returned _ v ↦ returned (executed r) v | panicked q v ↦ panicked q v ])
SameOutcome-returned r w (returned x v) h = refl
SameOutcome-returned r w (panicked p v) (u, same) = ground arith

SameOutcome-panicked :
    {H : Type 0} (R : Type 0) (p : Payload) (w : World (Observed H))
    (c : Call (Observed H) (Unit {0}))
    → Ends c
    → SameOutcome {R = R}
        (panicked p w)
        (elim c [ returned _ v ↦ panicked p v | panicked q v ↦ panicked q v ])
SameOutcome-panicked R p w (returned x v) h = refl
SameOutcome-panicked R p w (panicked q v) (u, same) = ground arith

module _ {H : Type 0} (sdk : Sdk H) where
  recovered-Ends : (c : Call (Observed H) (Unit {0})) → Ends (recovered sdk c)
  recovered-Ends (returned x v) = (v, refl)
  recovered-Ends (panicked p v) = (v, refl)

  clean_span-Ends :
      (span : Option Span) (closed : Bool) (w : World (Observed H))
      → Ends (clean_span sdk span closed w)
  clean_span-Ends none closed w = (w, refl)
  clean_span-Ends (some span) true w = (w, refl)
  clean_span-Ends (some span) false w =
      Ends-then (modify (λ o. record o { closed = true }) >> end_incomplete sdk span)
        (end_recovered sdk span) w (recovered-Ends _) (λ v. recovered-Ends _)

  -- `cleanup` returns, whatever the SDK does.
  cleanup-Ends : (w : World (Observed H)) → Ends (cleanup sdk w)
  unfolding cleanup
  cleanup-Ends w = clean_span-Ends w.host.observer.span w.host.observer.closed w

  then_cleanup-SameOutcome :
      {R : Type 0} (c : Call (Observed H) R)
      → SameOutcome c (
          then_cleanup sdk
            (elim c [ returned r v ↦ returned (executed r) v | panicked p v ↦ panicked p v ]))
  then_cleanup-SameOutcome (returned r v) =
      SameOutcome-returned r v (cleanup sdk v) (cleanup-Ends v)
  then_cleanup-SameOutcome (panicked p v) =
      SameOutcome-panicked _ p v (cleanup sdk v) (cleanup-Ends v)

  abbrev pub with_observer :
      Adapter → List (FireOption (Observed H)) → List (FireOption (Observed H))
  with_observer a options = options ++ option_observer (some (observe sdk a)) ∷ []

  abbrev pub start_of : World (Observed H) → World (Observed H)
  start_of w = record w { host = record w.host { observer = fresh_observer } }

  -- Fire returns what the executor returns under the caller's options and the observer behind them,
  -- and leaves by its panics: closing the telemetry neither fails nor changes them.
  pub fire-SameOutcome :
      {R : Type 0} (a : Adapter) (executor : Executor H R)
      (options : List (FireOption (Observed H))) (w : World (Observed H))
      → SameOutcome
          (executor (with_observer a options) (start_of w))
          (fire sdk (some a) (some executor) options w)
  unfolding fire
  fire-SameOutcome a executor options w =
      then_cleanup-SameOutcome (executor (with_observer a options) (start_of w))
