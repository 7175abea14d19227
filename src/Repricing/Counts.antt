-- ===== src/Repricing/Counts.antt =====
-- What the counts of a batch say (app/workflows/batch_reconcile_underwriting_prices_job.py).
use adus_be.Prelude.{
  ℕ, ◌+◌, ◌≡◌, refl, sym, ap, ◌∙◌, arith, eq_iff, Bool, List, [], ◌∷◌, ◌++◌, length, append_assoc,
  append_nil, filter, String, Result, ok, err, if◌then◌else◌,
}
use adus_be.Repricing.{Status, updated, failed, RowResult, RunResult}
use adus_be.Repricing.Job.{status_text, same_status, has_status}
use adus_be.Repricing.Batch.{
  Counts, zeros, bump, Report, listing_failed, reported, Tally, bump_rows, tally_up, tally,
  run_batch,
}

-- `counts[status]`
abbrev pub count_at : Status → Counts → ℕ
count_at s [] = 0
count_at s ((t, n) ∷ counts) = if same_status s t then n else count_at s counts

zeros_at : (s : Status) → count_at s zeros ≡ 0
zeros_at updated = refl
zeros_at _ = refl

abbrev pub one_if : Bool → ℕ
one_if b = if b then 1 else 0

count_at-bump :
    (s t : Status) (counts : Counts)
    → count_at s (bump t counts) ≡ count_at s counts + one_if (same_status s t)
count_at-bump s t [] = ground arith
count_at-bump s t ((u, n) ∷ counts) = ground (
  arith,
  eq_iff (status_text s) (status_text t),
  eq_iff (status_text s) (status_text u),
  eq_iff (status_text t) (status_text u),
  count_at-bump s t counts,
)

module _ {E : Type 0} where
  abbrev pub rows_with : Status → List (RowResult E) → ℕ
  rows_with s rows = length (filter (has_status s) rows)

  count_at-bump_rows :
      (s : Status) (rows : List (RowResult E)) (counts : Counts)
      → count_at s (bump_rows rows counts) ≡ count_at s counts + rows_with s rows
  count_at-bump_rows s [] counts = omega arith
  count_at-bump_rows s (row ∷ rows) counts =
      ground (
        arith,
        count_at-bump s row.status counts,
        count_at-bump_rows s rows (bump row.status counts),
      )

  -- a report with the status, and the rows with it that a report lists
  abbrev pub is_report : Status → Report E → Bool
  is_report s (listing_failed zpid raised) = same_status s failed
  is_report s (reported result) = same_status s result.status

  abbrev pub reports_with : Status → List (Report E) → ℕ
  reports_with s reports = length (filter (is_report s) reports)

  abbrev pub rows_of : List (Report E) → List (RowResult E)
  rows_of [] = []
  rows_of (listing_failed zpid raised ∷ reports) = rows_of reports
  rows_of (reported result ∷ reports) = result.results ++ rows_of reports

  rows_with-append :
      (s : Status) (a b : List (RowResult E)) → rows_with s (a ++ b) ≡ rows_with s a + rows_with s b
  rows_with-append s [] b = omega arith
  rows_with-append s (row ∷ a) b = ground (arith, rows_with-append s a b)

  module _ (s : Status) where
    rows_of-cons :
        (r : Report E) (reports : List (Report E))
        → rows_with s (rows_of (r ∷ reports))
          ≡ rows_with s (rows_of (r ∷ [])) + rows_with s (rows_of reports)
    rows_of-cons (listing_failed zpid raised) reports = omega arith
    rows_of-cons (reported result) reports =
        rows_with-append s result.results (rows_of reports)
        ∙ ap (λ n. n + rows_with s (rows_of reports))
            (ap (rows_with s) (sym (append_nil result.results)))

    reports_with-cons :
        (r : Report E) (reports : List (Report E))
        → reports_with s (r ∷ reports) ≡ one_if (is_report s r) + reports_with s reports
    reports_with-cons r reports = ground arith

  module _ {S : Type 0} (s : Status) where
    abbrev report_of : String → Result E (RunResult E) × S → Report E
    report_of zpid (err raised, state) = listing_failed zpid raised
    report_of zpid (ok result, state) = reported result

    tally_up_lem :
        (zpid : String) (r : Result E (RunResult E) × S) (t : Tally E S)
        → ((tally_up zpid r t).results ≡ t.results ++ report_of zpid r ∷ [])
          × (count_at s (tally_up zpid r t).counts
              ≡ count_at s t.counts + one_if (is_report s (report_of zpid r)))
          × (count_at s (tally_up zpid r t).underwriting_counts
              ≡ count_at s t.underwriting_counts + rows_with s (rows_of (report_of zpid r ∷ [])))
    tally_up_lem zpid (err raised, state) t = (refl, count_at-bump s failed t.counts, omega arith)
    tally_up_lem zpid (ok result, state) t = (
      refl,
      count_at-bump s result.status t.counts,
      count_at-bump_rows s result.results t.underwriting_counts
          ∙ ap (λ rows. count_at s t.underwriting_counts + rows_with s rows)
              (sym (append_nil result.results)),
    )

    module _ (job : String → S → Result E (RunResult E) × S) where
      tally_lem :
          (zpids : List String) (t : Tally E S)
          → (done : List (Report E)) × ((tally job zpids t).results ≡ t.results ++ done)
            × (length done ≡ length zpids)
            × (count_at s (tally job zpids t).counts ≡ count_at s t.counts + reports_with s done)
            × (count_at s (tally job zpids t).underwriting_counts
                ≡ count_at s t.underwriting_counts + rows_with s (rows_of done))
      tally_lem [] t = ([], sym (append_nil t.results), refl, omega arith, omega arith)
      tally_lem (zpid ∷ zpids) t =
          let r = job zpid t.state in
          let (shown, counted, rows) = tally_up_lem zpid r t in
          let (done, all_shown, all, all_counted, all_rows) = tally_lem zpids (tally_up zpid r t) in
          (
            report_of zpid r ∷ done,
            all_shown ∙ ap (λ l. l ++ done) shown ∙ append_assoc t.results _ done,
            omega (arith, all),
            omega (arith, counted, all_counted, reports_with-cons s (report_of zpid r) done),
            omega (arith, rows, all_rows, rows_of-cons s (report_of zpid r) done),
          )

      -- Each zpid is reported once, whatever the job does for the others: as many are processed as were found.
      -- The count of a status is the number of reports with it, a failed job counting as failed, and the
      -- underwritings' count the number of rows with it in all the reports.
      pub run_batch_lem :
          (zpids : List String) (state : S)
          → let b = (run_batch job zpids state).0 in
            (b.found ≡ length zpids)
            × (b.processed ≡ b.found)
            × (count_at s b.counts ≡ reports_with s b.results)
            × (count_at s b.underwritings ≡ rows_with s (rows_of b.results))
      unfolding run_batch
      run_batch_lem zpids state =
          let (done, shown, all, counted, rows) =
            tally_lem zpids (record {
              counts = zeros;
              underwriting_counts = zeros;
              results = [];
              state = state;
            }) in
          (
            refl,
            ap length shown ∙ all,
            omega (arith, counted, zeros_at s) ∙ ap (reports_with s) (sym shown),
            omega (arith, rows, zeros_at s) ∙ ap (λ l. rows_with s (rows_of l)) (sym shown),
          )
