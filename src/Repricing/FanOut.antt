-- ===== src/Repricing/FanOut.antt =====
-- The job for one zpid row by row (app/workflows/reconcile_underwriting_price_job.py): what becomes of
-- each row does not depend on the others.
use adus_be.Prelude.{
  ℕ, ◌≡◌, refl, sym, ap, ◌∙◌, Bool, true, false, Option, none, some, List, [], ◌∷◌, map, String,
  any, Result, Bool-cases, Option-cases, inl, inr, ◌==◌, ==_iff, if◌then◌else◌,
}
use mathlib.Core.Option
use adus_be.Calculator.{Decimals}
use adus_be.Repricing.{
  Underwriting, Listing, has_id, get_by_id, is_of, get_all_by_zpid, updated, failed, RowResult,
  RunResult,
}
use adus_be.Repricing.Prices.{normalize_purchase_price}
use adus_be.Repricing.Job.{
  Decision, settled, to_write, is_terminal, listed_price, decide, entry, plan, outcome, apply_entry,
  apply, run_rows, run,
}
use adus_be.Repricing.Found.{
  HasDistinctIds, AreFound, AreFound-change, get_all_by_zpid-AreFound,
  get_all_by_zpid-HasDistinctIds, any-get_all_by_zpid,
}

module _ {D R E : Type 0} where
  -- an update that raised what it raises for the row, or nothing, and left the row as it leaves it, under
  -- its id, and every other row alone
  abbrev pub Reconciles :
      ℕ
      → List (Underwriting D R)
      → Option E × Underwriting D R
      → Option E × List (Underwriting D R)
      → Type 0
  Reconciles id table row done =
      (done.0 ≡ row.0)
      × ((j : ℕ) → get_by_id j done.1 ≡ (if id == j then some (row.1) else get_by_id j table))
      × (HasDistinctIds table → HasDistinctIds done.1)

  -- What the job needs of the update service: a row is rewritten from the row and the payload alone.
  pub record IsPerRow {P : Type 0}
      (reconcile : ℕ → P → List (Underwriting D R) → Option E × List (Underwriting D R))
      (rewrite : P → Underwriting D R → Option E × Underwriting D R) : Type 0 where
    pub reconciles :
        (u : Underwriting D R) (payload : P) (table : List (Underwriting D R))
        → get_by_id u.id table ≡ some u
        → Reconciles u.id table (rewrite payload u) (reconcile u.id payload table)

module _ {A : Type 0} (f : A → A) where
  settled_none : (b : Bool) → (if b then Option.map f none else none) ≡ none
  settled_none true = refl
  settled_none false = refl

  settled_some :
      (b : Bool) (x : A)
      → (if b then Option.map f (some x) else some x) ≡ some (if b then f x else x)
  settled_some true x = refl
  settled_some false x = refl

module _ {D R P E : Type 0} (num : Decimals D) (build : Underwriting D R → D → Result E P)
    (rewrite : P → Underwriting D R → Option E × Underwriting D R) where
  abbrev pub carried_out : Underwriting D R → Decision P E → Underwriting D R
  carried_out u (settled status error) = u
  carried_out u (to_write payload) = (rewrite payload u).1

  -- the row that is left of a row, and what is reported of it
  abbrev pub after : D → Underwriting D R → Underwriting D R
  after price u = carried_out u (decide num build price u)

  abbrev pub reported_as : Underwriting D R → Option E → RowResult E
  reported_as u none = record {
    underwriting_id = u.id;
    version = u.version;
    status = updated;
    error = none;
  }
  reported_as u (some raised) = record {
    underwriting_id = u.id;
    version = u.version;
    status = failed;
    error = some raised;
  }

  abbrev pub reported_row : Underwriting D R → Decision P E → RowResult E
  reported_row u (settled status error) = record {
    underwriting_id = u.id;
    version = u.version;
    status = status;
    error = error;
  }
  reported_row u (to_write payload) = reported_as u (rewrite payload u).0

  abbrev pub report : D → Underwriting D R → RowResult E
  report price u = reported_row u (decide num build price u)

  abbrev pub after_run : String → D → Underwriting D R → Underwriting D R
  after_run zpid price u = if is_of zpid u then after price u else u

  module _ (reconcile : ℕ → P → List (Underwriting D R) → Option E × List (Underwriting D R))
      (per_row : IsPerRow reconcile rewrite) where
    -- one entry: the row and the report are those of the row alone, and other ids stand for what they did
    abbrev pub Applied :
        Underwriting D R
        → Decision P E
        → List (Underwriting D R)
        → RowResult E × List (Underwriting D R)
        → Type 0
    Applied u d table done =
        (done.0 ≡ reported_row u d)
        × ((j : ℕ)
            → get_by_id j done.1
              ≡ (if u.id == j then some (carried_out u d) else get_by_id j table))

    found_again :
        (u : Underwriting D R) (table : List (Underwriting D R))
        → get_by_id u.id table ≡ some u
        → (j : ℕ) → get_by_id j table ≡ (if u.id == j then some u else get_by_id j table)
    found_again u table found j = elim (Bool-cases (u.id == j)) [
      | inl h ↦ rw h (ap (λ i. get_by_id i table) (sym ((==_iff u.id j).0 h)) ∙ found)
      | inr h ↦ rw h refl
    ]

    outcome-Applied :
        (u : Underwriting D R) (payload : P) (table : List (Underwriting D R))
        (row : Option E × Underwriting D R) (done : Option E × List (Underwriting D R))
        → Reconciles u.id table row done
        → let left =
            outcome num build reconcile
              (record { underwriting_id = u.id; version = u.version; decision = to_write payload })
              done in
          (left.0 ≡ reported_as u row.0)
          × ((j : ℕ) → get_by_id j left.1 ≡ (if u.id == j then some (row.1) else get_by_id j table))
    outcome-Applied u payload table (raised, row) (none, left) (eq, stands, _) =
        (ap (reported_as u) eq, stands)
    outcome-Applied u payload table (raised, row) (some e, left) (eq, stands, _) =
        (ap (reported_as u) eq, stands)

    pub apply_entry-Applied :
        (u : Underwriting D R) (d : Decision P E) (table : List (Underwriting D R))
        → get_by_id u.id table ≡ some u
        → Applied u d table (
            apply_entry num build reconcile
              (record { underwriting_id = u.id; version = u.version; decision = d })
              table)
    unfolding apply_entry
    apply_entry-Applied u (settled status error) table found = (refl, found_again u table found)
    apply_entry-Applied u (to_write payload) table found =
        outcome-Applied u payload table (rewrite payload u) (reconcile u.id payload table)
          (per_row.reconciles u payload table found)

    apply-plan :
        (price : D) (us table : List (Underwriting D R))
        → HasDistinctIds us
        → AreFound us table
        → let done = apply num build reconcile (plan num build us price) table in
          (done.0 ≡ map (report price) us)
          × ((j : ℕ)
              → get_by_id j done.1 ≡ (
                  if any (has_id j) us
                  then Option.map (after price) (get_by_id j table)
                  else get_by_id j table))
    unfolding apply plan
    apply-plan price [] table distinct found = (refl, λ j. refl)
    apply-plan price (u ∷ us) table (apart, distinct) (here, found) =
        let d = decide num build price u in
        let one = apply_entry num build reconcile (entry num build price u) table in
        let (shown, stands) = apply_entry-Applied u d table here in
        let (all_shown, all_stand) =
          apply-plan price us one.1 distinct (
            AreFound-change u.id us table one.1 apart (λ j other. stands j ∙ rw other refl)
              found) in
        (
          ap (λ r. r ∷ (apply num build reconcile (plan num build us price) one.1).0) shown
              ∙ ap (λ rs. report price u ∷ rs) all_shown,
          λ j. all_stand j ∙ elim (Bool-cases (u.id == j)) [
            | inl same ↦
                let here_j : get_by_id j table ≡ some u =
                  ap (λ i. get_by_id i table) (sym ((==_iff u.id j).0 same)) ∙ here in
                let none_left : any (has_id j) us ≡ false =
                  ap (λ i. any (has_id i) us) (sym ((==_iff u.id j).0 same)) ∙ apart in
                rw none_left
                  (rw same (stands j ∙ rw same (ap (Option.map (after price)) (sym here_j))))
            | inr other ↦
                let there : get_by_id j one.1 ≡ get_by_id j table = stands j ∙ rw other refl in
                rw other
                  (ap (λ o. if any (has_id j) us then Option.map (after price) o else o) there)
          ],
        )

    pub run_rows-apply :
        (parse : String → Option D) (get_by_zpid : String → Option Listing) (zpid : String)
        (us table : List (Underwriting D R)) (price : D)
        → let done = run_rows num build reconcile parse get_by_zpid zpid us (some price) table in
          let planned = apply num build reconcile (plan num build us price) table in
          (RunResult.results done.0 ≡ planned.0) × (done.1 ≡ planned.1)
    unfolding apply plan
    run_rows-apply parse get_by_zpid zpid [] table price = (refl, refl)
    run_rows-apply parse get_by_zpid zpid (u ∷ us) table price = (refl, refl)

    -- If the ids of the table are distinct and the listing has a price, the job, with an update service
    -- that rewrites a row from that row and the payload alone, reports each of its underwritings once,
    -- in the order they are read, and leaves each as it would alone: a row that was skipped, or for
    -- which no payload can be built, is what it was, one whose update raised is what that update leaves
    -- of it, and neither keeps the others from being rewritten. No other row changes.
    pub run_lem :
        (parse : String → Option D) (get_by_zpid : String → Option Listing) (zpid : String)
        (table : List (Underwriting D R)) (price : D)
        → HasDistinctIds table
        → normalize_purchase_price num parse (listed_price (get_by_zpid zpid)) ≡ some price
        → let done = run num build reconcile parse get_by_zpid zpid table in
          (RunResult.results done.0 ≡ map (report price) (get_all_by_zpid zpid table))
          × ((id : ℕ)
              → get_by_id id done.1 ≡ Option.map (after_run zpid price) (get_by_id id table))
    unfolding run
    run_lem parse get_by_zpid zpid table price distinct priced =
        let us = get_all_by_zpid zpid table in
        let (shown, left) = run_rows-apply parse get_by_zpid zpid us table price in
        let (all_shown, all_stand) =
          apply-plan price us table (get_all_by_zpid-HasDistinctIds zpid table distinct)
            (get_all_by_zpid-AreFound zpid table distinct) in
        rw priced (
          shown ∙ all_shown,
          λ id. ap (get_by_id id) left ∙ all_stand id ∙ elim (Option-cases (get_by_id id table)) [
            | inl none_here ↦ rw none_here (settled_none (after price) (any (has_id id) us))
            | inr (u, here) ↦
                rw (any-get_all_by_zpid zpid id table distinct u here)
                  (rw here (settled_some (after price) (is_of zpid u) u))
          ],
        )

    -- Under the same conditions a run leaves a row in a terminal status as it was: with distinct ids, a
    -- price, and an update service that rewrites a row from that row and the payload alone.
    pub run-terminal :
        (parse : String → Option D) (get_by_zpid : String → Option Listing) (zpid : String)
        (table : List (Underwriting D R)) (price : D)
        → HasDistinctIds table
        → normalize_purchase_price num parse (listed_price (get_by_zpid zpid)) ≡ some price
        → (id : ℕ) (u : Underwriting D R) → get_by_id id table ≡ some u
        → is_terminal u.deal_status ≡ true
        → get_by_id id (run num build reconcile parse get_by_zpid zpid table).1 ≡ some u
    unfolding decide
    run-terminal parse get_by_zpid zpid table price distinct priced id u here closed =
        (run_lem parse get_by_zpid zpid table price distinct priced).1 id
        ∙ ap (Option.map (after_run zpid price)) here
        ∙ ap (λ v. some v) untouched
      where
        alone : after price u ≡ u
        alone = rw closed refl

        untouched : after_run zpid price u ≡ u
        untouched = elim (Bool-cases (is_of zpid u)) [
          | inl own ↦ rw own alone
          | inr other ↦ rw other refl
        ]
