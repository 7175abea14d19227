-- ===== src/Repricing/Batch.antt =====
-- BatchReconcileUnderwritingPricesJob (app/workflows/batch_reconcile_underwriting_prices_job.py). The job
-- for one zpid, which its constructor takes, is an argument; it may raise, and leaves a state then too.
use adus_be.Prelude.{ℕ, suc, List, [], ◌∷◌, ◌++◌, length, String, Result, ok, err, if◌then◌else◌}
use adus_be.Repricing.{
  Status, updated, skipped_same_price, skipped_no_underwriting, skipped_no_purchase_price,
  skipped_terminal_status, failed, RowResult, RunResult,
}
use adus_be.Repricing.Job.{same_status}

-- the dict of counts, by status
abbrev pub Counts : Type 0
Counts = List (Status × ℕ)

abbrev pub zeros : Counts
zeros =
    (updated, 0)
    ∷ (skipped_same_price, 0)
    ∷ (skipped_no_underwriting, 0)
    ∷ (skipped_no_purchase_price, 0)
    ∷ (skipped_terminal_status, 0)
    ∷ (failed, 0)
    ∷ []

-- `counts[status] = counts.setdefault(status, 0) + 1`
abbrev pub bump : Status → Counts → Counts
bump s [] = (s, 1) ∷ []
bump s ((t, n) ∷ counts) =
    let others = bump s counts in if same_status s t then (t, suc n) ∷ counts else (t, n) ∷ others

-- what is reported for a zpid: a failure of the job, or its result
pub data Report (E : Type 0) : Type 0 where
  listing_failed : String → E → Report E
  reported : RunResult E → Report E

pub record BatchResult (E : Type 0) : Type 0 where
  pub found : ℕ
  pub processed : ℕ
  pub counts : Counts
  pub underwritings : Counts
  pub results : List (Report E)

pub record Tally (E S : Type 0) : Type 0 where
  pub counts : Counts
  pub underwriting_counts : Counts
  pub results : List (Report E)
  pub state : S

module _ {E : Type 0} where
  -- one more for each row's status
  abbrev pub bump_rows : List (RowResult E) → Counts → Counts
  bump_rows [] counts = counts
  bump_rows (row ∷ rows) counts = bump_rows rows (bump row.status counts)

  module _ {S : Type 0} where
    abbrev pub tally_up : String → Result E (RunResult E) × S → Tally E S → Tally E S
    tally_up zpid (err raised, state) t = record {
      counts = bump failed t.counts;
      underwriting_counts = t.underwriting_counts;
      results = t.results ++ listing_failed zpid raised ∷ [];
      state = state;
    }
    tally_up zpid (ok result, state) t = record {
      counts = bump result.status t.counts;
      underwriting_counts = bump_rows result.results t.underwriting_counts;
      results = t.results ++ reported result ∷ [];
      state = state;
    }

    module _ (reconcile_job : String → S → Result E (RunResult E) × S) where
      abbrev pub tally : List String → Tally E S → Tally E S
      tally [] t = t
      tally (zpid ∷ zpids) t = tally zpids (tally_up zpid (reconcile_job zpid t.state) t)

      unfoldable pub run_batch : List String → S → BatchResult E × S
      run_batch zpids state =
          let t =
            tally zpids (record {
              counts = zeros;
              underwriting_counts = zeros;
              results = [];
              state = state;
            }) in
          (
            record {
              found = length zpids;
              processed = length t.results;
              counts = t.counts;
              underwritings = t.underwriting_counts;
              results = t.results;
            },
            t.state,
          )
