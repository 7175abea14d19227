-- ===== src/Repricing/StaysDistinct.antt =====
-- After a run the ids are as distinct as before
-- (app/workflows/reconcile_underwriting_price_job.py).
use adus_be.Prelude.{ℕ, ◌≡◌, refl, ◌∙◌, Option, none, some, List, [], ◌∷◌, String, Result}
use adus_be.Calculator.{Decimals}
use adus_be.Repricing.{Underwriting, Listing, get_by_id, get_all_by_zpid}
use adus_be.Repricing.Prices.{normalize_purchase_price}
use adus_be.Repricing.Job.{
  Decision, settled, to_write, Entry, listed_price, decide, entry, plan, outcome, apply_entry,
  apply, run,
}
use adus_be.Repricing.Found.{
  HasDistinctIds, AreFound, AreFound-change, get_all_by_zpid-AreFound,
  get_all_by_zpid-HasDistinctIds,
}
use adus_be.Repricing.FanOut.{Reconciles, IsPerRow, apply_entry-Applied, run_rows-apply}

module _ {D R P E : Type 0} (num : Decimals D) (build : Underwriting D R → D → Result E P)
    (rewrite : P → Underwriting D R → Option E × Underwriting D R) where
  module _ (reconcile : ℕ → P → List (Underwriting D R) → Option E × List (Underwriting D R))
      (per_row : IsPerRow reconcile rewrite) where
    outcome-HasDistinctIds :
        (e : Entry P E) (table : List (Underwriting D R)) (id : ℕ)
        (row : Option E × Underwriting D R) (done : Option E × List (Underwriting D R))
        → Reconciles id table row done
        → HasDistinctIds table
        → HasDistinctIds (outcome num build reconcile e done).1
    outcome-HasDistinctIds e table id row (none, left) (_, _, kept) distinct = kept distinct
    outcome-HasDistinctIds e table id row (some raised, left) (_, _, kept) distinct = kept distinct

    apply_entry-HasDistinctIds :
        (u : Underwriting D R) (d : Decision P E) (table : List (Underwriting D R))
        → get_by_id u.id table ≡ some u
        → HasDistinctIds table
        → HasDistinctIds
            (apply_entry num build reconcile
              (record { underwriting_id = u.id; version = u.version; decision = d })
              table).1
    unfolding apply_entry
    apply_entry-HasDistinctIds u (settled status error) table found distinct = distinct
    apply_entry-HasDistinctIds u (to_write payload) table found distinct =
        outcome-HasDistinctIds
          (record { underwriting_id = u.id; version = u.version; decision = to_write payload })
          table u.id (rewrite payload u) (reconcile u.id payload table)
          (per_row.reconciles u payload table found) distinct

    apply-HasDistinctIds :
        (price : D) (us table : List (Underwriting D R))
        → HasDistinctIds us
        → AreFound us table
        → HasDistinctIds table
        → HasDistinctIds (apply num build reconcile (plan num build us price) table).1
    unfolding apply plan
    apply-HasDistinctIds price [] table apart found distinct = distinct
    apply-HasDistinctIds price (u ∷ us) table (apart, rest) (here, found) distinct =
        let d = decide num build price u in
        let one = apply_entry num build reconcile (entry num build price u) table in
        let (shown, stands) =
          apply_entry-Applied num build rewrite reconcile per_row u d table here in
        apply-HasDistinctIds price us one.1 rest
          (AreFound-change u.id us table one.1 apart (λ j other. stands j ∙ rw other refl) found)
          (apply_entry-HasDistinctIds u d table here distinct)

    pub run-HasDistinctIds :
        (parse : String → Option D) (get_by_zpid : String → Option Listing) (zpid : String)
        (table : List (Underwriting D R)) (price : D)
        → HasDistinctIds table
        → normalize_purchase_price num parse (listed_price (get_by_zpid zpid)) ≡ some price
        → HasDistinctIds (run num build reconcile parse get_by_zpid zpid table).1
    unfolding run
    run-HasDistinctIds parse get_by_zpid zpid table price distinct priced =
        let us = get_all_by_zpid zpid table in
        rw priced (
          rw
            ((run_rows-apply num build rewrite reconcile per_row parse get_by_zpid zpid us table
              price).1)
            (apply-HasDistinctIds price us table
              (get_all_by_zpid-HasDistinctIds zpid table distinct)
              (get_all_by_zpid-AreFound zpid table distinct) distinct))
