-- ===== src/Tests/Otel.antt =====
-- A concrete SDK under the adapter of otel/, and the theorems applied to it.
use rulite.Base.{ℕ, ◌+◌, List, [], ◌∷◌, ◌≡◌, refl, true, none, some, is_some}
use rulite.Base.Int.{pos}
use rulite.Base.Strings.{codes}
use rulite.World.{World, returned, Context}
use rulite.Ledger.{Event, EventKind, execution_started, zero_info}
use rulite.World.{outcome_true}
use rulite.Otel.Config.{
  AdapterOption, default_config, with_event_limit, with_metric_versions, configure,
}
use rulite.Otel.Config.Bounds.{options_ok, Decides, configure-Decides}
use rulite.Otel.Sdk.{Sdk, answers, Observed}
use rulite.Otel.Adapter.{Adapter, build_adapter}
use rulite.Otel.Observer.{fresh_observer, observe, cleanup, Executor, fire}
use rulite.Otel.Observer.Deliveries.{left_by, Delivers, last}
use rulite.Otel.Observer.Whole.{IsCleaned, cleanup-IsCleaned}
use rulite.Otel.Observer.Fires.{SameOutcome, with_observer, start_of, fire-SameOutcome}

abbrev options : List AdapterOption
options = with_event_limit (pos 2) ∷ with_metric_versions (codes "v1" ∷ []) ∷ []

configure-Decides_example : Decides (options_ok options) (configure options)
configure-Decides_example = configure-Decides options

-- The rest of the program counts the calls that the SDK gets; the SDK answers all of them.
abbrev sdk : Sdk ℕ
sdk = record {
  start_span = λ h. answers 7 (h + 1);
  is_recording = λ span h. answers true (h + 1);
  enabled = λ instrument h. answers true (h + 1);
  accept = λ t h. answers tt (h + 1);
  now = λ h. answers h (h + 1);
}

abbrev adapter : Adapter
adapter = build_adapter default_config

abbrev ctx : Context (Observed ℕ)
ctx = record { err = λ h. (none, h); cause = λ h. none; recorder = none }

abbrev event_of : EventKind → Event
event_of kind = record {
  identity = zero_info;
  rule = none;
  order = 0;
  failure = none;
  summary = none;
  group = none;
  kind = kind;
  outcome = outcome_true;
}

abbrev initial : World (Observed ℕ)
initial = record {
  recordings = [];
  host = record { rest = 0; observer = fresh_observer; told = [] };
}

-- An execution that starts and then leaves without its finish.
abbrev started : World (Observed ℕ)
started = left_by (observe sdk adapter ctx (event_of execution_started) initial)

initial-Delivers : Delivers sdk adapter initial started
initial-Delivers = last ctx (event_of execution_started) initial

cleanup-IsCleaned_example :
    (v : World (Observed ℕ)) × (cleanup sdk started ≡ returned tt v)
    × IsCleaned 128 0 0 sdk adapter (is_some started.host.observer.span) v.host.observer v.host.told
unfolding build_adapter
cleanup-IsCleaned_example =
    cleanup-IsCleaned 128 0 0 sdk adapter initial started refl refl refl refl initial-Delivers

abbrev executor : Executor ℕ ℕ
executor opts w = returned 5 w

fire-SameOutcome_example :
    SameOutcome
      (executor (with_observer sdk adapter []) (start_of sdk initial))
      (fire sdk (some adapter) (some executor) [] initial)
fire-SameOutcome_example = fire-SameOutcome sdk adapter executor [] initial
