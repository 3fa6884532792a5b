-- ===== src/Tests/Calls.antt =====
-- Calls of an engine and a runtime over a concrete set, and their options.
use rulite.Base.{ℕ, List, [], ◌∷◌, refl, none, some, arith}
use rulite.Ledger.{zero_info}
use rulite.Policy.{
  FireOption, option_trace, option_panic, option_policy, zero_config, default_policy, with_stop,
  configure_execution,
}
use rulite.Policy.Configure.{IsValid, IsGood, configure_execution-IsGood}
use rulite.Policy.Options.{Decides, configure_execution-Decides}
use rulite.Engine.{Engine, fire}
use rulite.Engine.Fires.{FiresWell, fire-FiresWell}
use rulite.Runtime.{empty_runtime, publish, new_runtime}
use rulite.Runtime.Moments.{
  Moment, publishes, loads, run, Publishes, IsSound, Counts, Starts, publish-Publishes, run-Counts,
  new_runtime-IsSound,
}
use rulite.Tests.{background, empty_world, definitions, sample, sample-compiled}

abbrev engine : Engine ℕ
engine = record { snapshot = some sample; defaults = zero_config ℕ; identity = zero_info }

fire-FiresWell_example :
    FiresWell
      (λ h. (h, h))
      zero_info
      sample
      (some background)
      (some 0)
      (configure_execution (zero_config ℕ) (option_trace ∷ []))
      empty_world
      (fire (λ h. (h, h)) (some engine) (some background) (some 0) (option_trace ∷ []) empty_world)
fire-FiresWell_example =
    fire-FiresWell (λ h. (h, h)) definitions sample sample-compiled engine (some background)
      (some 0) (option_trace ∷ []) empty_world refl

empty_runtime-IsSound : IsSound {Host = ℕ} empty_runtime
empty_runtime-IsSound = record { bounded = omega arith; current = tt }

publish-Publishes_example :
    Publishes 0
      (some engine)
      (publish empty_runtime (some engine)).0
      empty_runtime
      (publish empty_runtime (some engine)).1
publish-Publishes_example = publish-Publishes (some engine) empty_runtime empty_runtime-IsSound

abbrev moments : List (Moment ℕ)
moments = loads ∷ publishes (some engine) ∷ loads ∷ publishes none ∷ publishes (some engine) ∷ []

run-Counts_example :
    Counts none moments (run moments empty_runtime).0 (run moments empty_runtime).1.current
    × IsSound (run moments empty_runtime).1
run-Counts_example = run-Counts moments empty_runtime empty_runtime-IsSound

new_runtime-IsSound_example : Starts (some engine) (new_runtime (some engine))
new_runtime-IsSound_example = new_runtime-IsSound (some engine)

zero_config-IsValid : IsValid (zero_config ℕ)
zero_config-IsValid = record {
  stop = omega arith;
  condition_errors = omega arith;
  action_errors = omega arith;
  panic_mode = omega arith;
}

abbrev options : List (FireOption ℕ)
options = option_policy (with_stop default_policy 2) ∷ option_panic 7 ∷ []

configure_execution-IsGood_example : IsGood (configure_execution (zero_config ℕ) options)
configure_execution-IsGood_example =
    configure_execution-IsGood (zero_config ℕ) options zero_config-IsValid

configure_execution-Decides_example :
    Decides (zero_config ℕ) options (configure_execution (zero_config ℕ) options)
configure_execution-Decides_example = configure_execution-Decides (zero_config ℕ) options
