-- ===== src/Result/Tallies.antt =====
-- The lists of matched and fired rules against the counts (result.go): `Matched` and `Fired`.
use rulite.Base.{
  ℕ, List, [], ◌∷◌, ◌≡◌, refl, sym, subst, Bool, some, length, get_elem?, get_elem?-snoc, arith,
}
use rulite.Errors.{RuleId, Err, Phase, condition_phase, action_phase}
use rulite.World.{World}
use rulite.Ledger.{Result, RuleMetadata, SnapshotMetadata, SnapshotInfo}
use rulite.Execution.State.{Execution, fail}
use rulite.Execution.Outcome.{Job}
use rulite.Execution.Loop.{begin, execute}
use rulite.Execution.Automaton.{ledger}
use rulite.Execution.Whole.{IsLaidOut, Finishes, execute-Finishes}
use rulite.Execution.Induction.{Executes-Kept}
use rulite.Execution.Steps.{Steps, Steps-Kept}
use rulite.Result.{matched_id, fired_id, matched, fired, metadata_of}
use rulite.Result.Collect.{Tallied, Tallied-snoc, Tallied-mono, matched_id-append, kept_id-there}

module _ (metadata : SnapshotMetadata) where
  -- The ledger's lists have as many identities as its counts say.
  pub record IsTallied (r : Result) : Type 0 where
    pub about : r.metadata ≡ some metadata
    pub matches : Tallied (matched_id metadata r.failures) r.records r.counts.matched
    pub fires : Tallied (fired_id metadata) r.records r.counts.fired

  record IsOpen (order : ℕ) (r : Result) : Type 0 where
    tallied : IsTallied r
    info : RuleMetadata
    there : get_elem? metadata.rules order ≡ some info

  fail-IsTallied :
      {Host : Type 0} (order : ℕ) (phase : Phase) (err : Err) (continued recovered : Bool)
      (x : Execution Host)
      → IsOpen order x.result
      → IsTallied (fail order phase err continued recovered x).result
  fail-IsTallied order condition_phase err continued recovered x h = record {
    about = h.tallied.about;
    matches = subst (Tallied _ _) (omega arith) (
        Tallied-snoc (matched_id metadata _) x.result.records _ []
          (Tallied-mono (matched_id metadata x.result.failures) _
            (matched_id-append metadata x.result.failures _) x.result.records h.tallied.matches)
          (rw (get_elem?-snoc x.result.failures _)));
    fires =
        subst (Tallied _ _) (omega arith)
          (Tallied-snoc (fired_id metadata) x.result.records _ [] h.tallied.fires refl);
  }
  fail-IsTallied order action_phase err continued recovered x h = record {
    about = h.tallied.about;
    matches =
        Tallied-snoc (matched_id metadata _) x.result.records _ (h.info.id ∷ [])
          (Tallied-mono (matched_id metadata x.result.failures) _
            (matched_id-append metadata x.result.failures _) x.result.records h.tallied.matches)
          (rw (get_elem?-snoc x.result.failures _) (kept_id-there metadata order h.info h.there));
    fires =
        subst (Tallied _ _) (omega arith)
          (Tallied-snoc (fired_id metadata) x.result.records _ [] h.tallied.fires refl);
  }

  IsTallied-steps : (Host : Type 0) → Steps Host metadata (λ n. IsTallied) IsOpen
  IsTallied-steps Host = record {
    weaken = λ m n r le h. h;
    free =
        λ n r stop groups same h. record { about = h.about; matches = h.matches; fires = h.fires };
    ready = λ r h. record { about = h.about; matches = h.matches; fires = h.fires };
    free_pending = λ n r stop groups same h. record {
      tallied = record {
        about = h.tallied.about;
        matches = h.tallied.matches;
        fires = h.tallied.fires;
      };
      info = h.info;
      there = h.there;
    };
    marks = λ order info r has h. record {
      tallied = record { about = h.about; matches = h.matches; fires = h.fires };
      info = info;
      there = has;
    };
    fails = λ order phase err continued recovered x h.
        fail-IsTallied order phase err continued recovered x h;
    misses = λ order r h. record {
      about = h.tallied.about;
      matches = h.tallied.matches;
      fires = h.tallied.fires;
    };
    skips = λ order r h. record {
      about = h.tallied.about;
      matches =
          Tallied-snoc (matched_id metadata r.failures) r.records _ (h.info.id ∷ [])
            h.tallied.matches (kept_id-there metadata order h.info h.there);
      fires =
          subst (Tallied _ _) (omega arith)
            (Tallied-snoc (fired_id metadata) r.records _ [] h.tallied.fires refl);
    };
    fires = λ order r h. record {
      about = h.tallied.about;
      matches =
          Tallied-snoc (matched_id metadata r.failures) r.records _ (h.info.id ∷ [])
            h.tallied.matches (kept_id-there metadata order h.info h.there);
      fires =
          Tallied-snoc (fired_id metadata) r.records _ (h.info.id ∷ []) h.tallied.fires
            (kept_id-there metadata order h.info h.there);
    };
  }

IsTallied-ledger :
    {Host : Type 0} (metadata : SnapshotMetadata) (z : Execution Host)
    → IsTallied metadata (ledger z).result
    → IsTallied metadata z.result
IsTallied-ledger metadata z h = record { about = h.about; matches = h.matches; fires = h.fires }

-- `Matched` and `Fired` answer without a fault, with as many identities as the counts say.
pub record IsListed (r : Result) : Type 0 where
  pub matched_ids : List RuleId
  pub matches : matched r ≡ some matched_ids
  pub matched_count : length matched_ids ≡ r.counts.matched
  pub fired_ids : List RuleId
  pub fires : fired r ≡ some fired_ids
  pub fired_count : length fired_ids ≡ r.counts.fired

IsTallied-IsListed : (metadata : SnapshotMetadata) (r : Result) → IsTallied metadata r → IsListed r
unfolding matched fired
IsTallied-IsListed metadata r h = record {
  matched_ids = h.matches.ids;
  matches = rw (h.about, metadata_of) h.matches.collected;
  matched_count = h.matches.counted;
  fired_ids = h.fires.ids;
  fires = rw (h.about, metadata_of) h.fires.collected;
  fired_count = h.fires.counted;
}

module _ {Host : Type 0} (job : Job Host) where
  open job use {snapshot}

  -- In every execution of a set whose places fit together, Matched and Fired answer without an index
  -- out of range, and their lengths are the counts of matched and fired rules. Only PropagatePanics
  -- lets a panic out instead.
  pub execute-IsListed :
      (identity : SnapshotInfo) (w : World Host)
      → IsLaidOut job
      → Finishes job (λ r error. IsListed r) (execute job identity w)
  execute-IsListed identity w laid_out =
      execute-Finishes job (λ r error. IsListed r) laid_out identity w
        (λ z executes.
          let (r, tallied, same) =
            Executes-Kept job (Steps-Kept job (IsTallied-steps snapshot.metadata Host))
              (ledger (begin job identity)) (ledger z) laid_out executes
              (record {
                about = refl;
                matches = record { ids = []; collected = refl; counted = refl };
                fires = record { ids = []; collected = refl; counted = refl };
              }) in
          IsTallied-IsListed snapshot.metadata z.result (
            IsTallied-ledger snapshot.metadata z (
              subst (IsTallied snapshot.metadata) (sym same) (record {
                about = tallied.about;
                matches = tallied.matches;
                fires = tallied.fires;
              }))))
