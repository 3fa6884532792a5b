-- ===== src/Tests.antt =====
-- Concrete rules, sets and runs, and the theorems applied to them.
mod Views
mod Calls
mod Dynamic
mod Otel
use rulite.Base.{
  ◌≤◌, lookup, All, ℕ, zero, suc, not, ◌+◌, List, [], ◌∷◌, ◌++◌, map, ◌≡◌, refl, sym, Bool, true,
  false, none, some, length, get_elem?, arith,
}
use mathlib.Core.List.{Permᴰ}
use rulite.Base.Int.{ℤ, pos}
use rulite.Base.Sorting.{Ordered}
use rulite.Errors.{user, invalid_rule}
use rulite.World.{World, returned, Context, Condition, Action}
use rulite.Rule.{Rule, Group, Entry, rule_entry, group_entry, first_fire, entry_priority}
use rulite.Rule.Ids.{valid_rule_id}
use rulite.Ledger.{
  CompiledSnapshot, zero_info, Result, zero_result, zero_counts, rule_fired, GroupMetadata,
}
use rulite.Policy.{
  FireOption, option_trace, option_panic, option_policy, zero_config, default_policy, with_stop,
  configure_execution,
}
use rulite.Compile.Validate.{ValidationIssue}
use rulite.Compile.Layout.{
  DefinitionList, compile_definitions, compiled, lay_out, validation_of, definitions_of,
  execution_order, indexed, placed_members, member_metadata,
}
use rulite.Compile.Places.{compile_definitions-IsLaidOut}
use rulite.Compile.Indexes.Whole.{compile_definitions-IsIndexed}
use rulite.Ledger.{RuleMetadata}
use rulite.Compile.Order.{execution_order-Ordered, placed_members-Ordered}
use rulite.Compile.Accepts.Whole.{succeeds, well_formed, compile_definitions-well_formed}
use rulite.Compile.Issues.{
  issues_for_rule, new_validation_error, issues_about, issues_for_rule-issues_about,
}
use rulite.Condition.{all_of, any_of, not_of}
use rulite.Condition.Laws.{not_of-all_of}
use rulite.Execution.Outcome.{Job}
use rulite.Execution.Loop.{execute}
use rulite.Execution.Whole.{IsLaidOut, Finishes, EndsWell, execute-EndsWell}
use rulite.Execution.Stops.Whole.{IsReason, execute-IsReason}
use rulite.Execution.Picks.{picked, Picks}
use rulite.Execution.Picks.Whole.{execute-Picks}
use rulite.Execution.Reports.Whole.{Reports, execute-Reports}
use rulite.Result.Once.{fired_in}
use rulite.Result.Once.Sets.{execute-FiresOnce}
use rulite.Rule.{Text, normalize_tags}
use rulite.Rule.Tags.{IsNormal, IsKept, normalize_tags-IsNormal}
use rulite.Execution.Counts.{IsPartition, execute-IsPartition}
use rulite.Execution.Records.{IsRecorded, execute-IsRecorded}
use rulite.Result.{rule_at}
use rulite.Result.Search.{search_record, find_record, search_record-find_record}
use rulite.Result.Tallies.{IsListed, execute-IsListed}
use rulite.Engine.{Engine, fire}

-- The host is a counter; a condition reads it, an action raises it.
abbrev even : ℕ → Bool
even zero = true
even (suc n) = not (even n)

abbrev is_even : Condition ℕ
is_even ctx input w = returned (even w.host, none) w

abbrev always : Condition ℕ
always ctx input w = returned (true, none) w

abbrev raise : Action ℕ
raise ctx input w = returned none (record w { host = w.host + 1 })

abbrev fails : Action ℕ
fails ctx input w = returned (some (user 7)) w

abbrev background : Context ℕ
background = record { err = λ h. (none, h); cause = λ h. none; recorder = none }

abbrev empty_world : World ℕ
empty_world = record { recordings = []; host = 0 }

abbrev rule_named : ℕ → ℤ → Condition ℕ → Action ℕ → Rule ℕ
rule_named letter priority condition action = record {
  id = letter ∷ [];
  priority = priority;
  details = none;
  condition = some condition;
  action = some action;
}

abbrev members : List (Rule ℕ)
members = rule_named b'b' (pos 0) is_even raise ∷ rule_named b'c' (pos 3) always fails ∷ []

abbrev choice : Group ℕ
choice = record { id = b'g' ∷ []; kind = first_fire; priority = pos 5; members = members }

-- A rule, and a group before it by priority.
abbrev entries : List (Entry ℕ)
entries = rule_entry (rule_named b'a' (pos 1) always raise) ∷ group_entry choice ∷ []

abbrev definitions : DefinitionList ℕ
definitions = record { rules = []; entries = entries }

sample : CompiledSnapshot ℕ
unfolding lay_out
sample = lay_out (validation_of entries) entries

sample-compiled : compile_definitions definitions ≡ compiled sample
unfolding compile_definitions sample valid_rule_id
sample-compiled = refl

abbrev job : Job ℕ
job = record {
  now = λ h. (h, h);
  ctx = background;
  input = 0;
  snapshot = sample;
  config = zero_config ℕ;
}

job-IsLaidOut : IsLaidOut job
job-IsLaidOut = compile_definitions-IsLaidOut job definitions sample-compiled

execute-EndsWell_example : EndsWell job zero_info (execute job zero_info empty_world)
execute-EndsWell_example = execute-EndsWell job job-IsLaidOut zero_info empty_world

execute-IsPartition_example :
    Finishes job
      (λ r error. IsPartition (length sample.metadata.rules) r)
      (execute job zero_info empty_world)
execute-IsPartition_example = execute-IsPartition job zero_info empty_world job-IsLaidOut

execute-IsRecorded_example :
    Finishes job
      (λ r error. IsRecorded sample.metadata (length sample.metadata.rules) r)
      (execute job zero_info empty_world)
execute-IsRecorded_example = execute-IsRecorded job zero_info empty_world job-IsLaidOut

execute-IsListed_example : Finishes job (λ r error. IsListed r) (execute job zero_info empty_world)
execute-IsListed_example = execute-IsListed job zero_info empty_world job-IsLaidOut

compile_definitions-well_formed_example :
    succeeds (compile_definitions definitions) ≡ well_formed (definitions_of definitions)
compile_definitions-well_formed_example = compile_definitions-well_formed definitions

execution_order-Ordered_example :
    Ordered (λ p. p.0) (λ p. entry_priority p.1) (execution_order entries)
    × Permᴰ (execution_order entries) (indexed 0 entries)
execution_order-Ordered_example = execution_order-Ordered entries

abbrev choice_metadata : GroupMetadata
choice_metadata = record {
  id = b'g' ∷ [];
  kind = first_fire;
  priority = pos 5;
  registration_index = 1;
  top_level_order = 0;
  index = 0;
  start = 0;
  stop = 2;
}

placed_members-Ordered_example :
    Ordered (λ m. m.member_index) (λ m. m.priority) (placed_members choice_metadata members)
    × Permᴰ
        (placed_members choice_metadata members)
        (map (member_metadata choice_metadata) (indexed 0 members))
placed_members-Ordered_example = placed_members-Ordered choice_metadata members

abbrev issue : ValidationIssue
issue = record {
  index = 3;
  rule_id = b'a' ∷ [];
  cause = invalid_rule;
  group_id = [];
  member_index = 0;
  in_group = false;
  group_issue = false;
}

issues_for_rule-issues_about_example :
    issues_for_rule (some (new_validation_error (issue ∷ []))) (b'a' ∷ [])
    ≡ some (issues_about (b'a' ∷ []) (issue ∷ []))
issues_for_rule-issues_about_example = issues_for_rule-issues_about (issue ∷ []) (b'a' ∷ [])

sample-length : length sample.metadata.rules ≡ 3
unfolding sample
sample-length = refl

not_of-all_of_example :
    not_of (some (all_of (some is_even ∷ none ∷ []))) background 0 empty_world
    ≡ any_of (map (λ c. some (not_of c)) (some is_even ∷ none ∷ [])) background 0 empty_world
not_of-all_of_example = not_of-all_of (some is_even ∷ none ∷ []) background 0 empty_world refl

execute-IsReason_example :
    Finishes job (λ r error. IsReason job r.stop) (execute job zero_info empty_world)
execute-IsReason_example = execute-IsReason job zero_info empty_world job-IsLaidOut

-- A run that stops at the first rule that fires.
abbrev fire_one : Job ℕ
fire_one = record job { config = record job.config { policy = with_stop default_policy 2 } }

execute-Picks_example :
    Finishes fire_one
      (λ r error. Picks r.stop (picked fire_one.config.policy r.counts))
      (execute fire_one zero_info empty_world)
execute-Picks_example =
    execute-Picks fire_one zero_info empty_world
      (compile_definitions-IsLaidOut fire_one definitions sample-compiled)

execute-Reports_example : Finishes job Reports (execute job zero_info empty_world)
execute-Reports_example = execute-Reports job zero_info empty_world job-IsLaidOut

choice_entry :
    get_elem? sample.metadata.entries 0
    ≡ some (record { start = 0; stop = 2; group = some choice_metadata })
unfolding sample
choice_entry = refl

execute-FiresOnce_example :
    Finishes job (λ r error. fired_in 0 2 r.records ≤ 1) (execute job zero_info empty_world)
execute-FiresOnce_example =
    execute-FiresOnce job definitions zero_info empty_world 0
      (record { start = 0; stop = 2; group = some choice_metadata }) choice_metadata sample-compiled
      choice_entry refl

abbrev given_tags : List Text
given_tags = (b' ' ∷ b'x' ∷ []) ∷ (b' ' ∷ []) ∷ (b'x' ∷ b' ' ∷ []) ∷ []

normalize_tags-IsNormal_example :
    IsNormal (normalize_tags given_tags) × All (IsKept (normalize_tags given_tags)) given_tags
normalize_tags-IsNormal_example = normalize_tags-IsNormal given_tags

abbrev first_info : RuleMetadata
first_info = record {
  id = b'c' ∷ [];
  priority = pos 3;
  registration_index = 1;
  top_level_order = 0;
  member_index = 1;
  group = some choice_metadata;
  details = none;
}

sample-first : get_elem? sample.metadata.rules 0 ≡ some first_info
unfolding sample
sample-first = refl

compile_definitions-IsIndexed_example : lookup (b'c' ∷ []) sample.metadata.by_id ≡ some 0
compile_definitions-IsIndexed_example =
    compile_definitions-IsIndexed definitions sample 0 first_info sample-compiled sample-first
