-- ===== src/Tests/Views.antt =====
-- The views of a ledger on a concrete set.
use rulite.Base.{[], ◌∷◌, ◌≡◌, refl, sym, some, length, get_elem?, arith}
use rulite.Ledger.{Result, zero_result, zero_counts, rule_fired}
use rulite.Execution.Records.{IsRecorded}
use rulite.Result.{rule_at}
use rulite.Result.Search.{search_record, find_record, search_record-find_record}
use rulite.Result.Views.{IsTold, rule_at-IsTold}
use rulite.Result.Explain.{explained_rules, AllTell, explained_rules-AllTell}
use rulite.Tests.{sample, sample-length}

-- A ledger whose first rule fired and whose others were not reached.
abbrev reached : Result
reached = record zero_result {
  metadata = some sample.metadata;
  counts = record zero_counts { total = 3 };
  records = record { order = 0; state = rule_fired; failure_index = 0 } ∷ [];
  evaluated_through = 1;
}

reached-IsRecorded : IsRecorded sample.metadata 3 reached
reached-IsRecorded = (refl, omega arith, (omega arith, tt), (omega arith, tt), (tt, tt))

rule_at-IsTold_example :
    (info : _) × (get_elem? sample.metadata.rules 0 ≡ some info)
    × IsTold reached info 0 (rule_at reached sample.metadata 0)
rule_at-IsTold_example =
    rule_at-IsTold sample.metadata 3 reached 0 reached-IsRecorded (omega (arith, sample-length))

explained_rules-AllTell_example :
    (xs : _) × (explained_rules reached ≡ some xs)
    × (length xs ≡ length sample.metadata.rules)
    × AllTell reached sample.metadata 0 xs
explained_rules-AllTell_example =
    explained_rules-AllTell sample.metadata 3 reached reached-IsRecorded (sym sample-length)

search_record-find_record_example : search_record reached.records 0 ≡ find_record reached.records 0
search_record-find_record_example = search_record-find_record reached.records 0 (omega arith, tt)
