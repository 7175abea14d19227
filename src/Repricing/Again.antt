-- ===== src/Repricing/Again.antt =====
-- Running the job again while the price of the listing stays as it is
-- (app/workflows/reconcile_underwriting_price_job.py). What the database does may differ in the two runs.
use mathlib.Core.Option
use mathlib.Core.Option.{some-injective}
use adus_be.Prelude.{
  ℕ, ◌≡◌, ◌≢◌, refl, sym, ap, ◌∙◌, true, false, Option, none, some, List, String, lookup, Result,
  ok, err, >>=-eq-ok, Result-cases, Bool-cases, inl, inr, IsStrictOrder,
}
use adus_be.Calculator.{Failure, Decimals, figure, Validation}
use adus_be.Saving.{Payload, Readers}
use adus_be.Repricing.{
  Underwriting, Listing, get_by_id, is_text, is_of, get_all_by_zpid, updated, skipped_same_price,
  skipped_terminal_status, failed, RowResult, RunResult,
}
use adus_be.Repricing.Prices.{normalize_purchase_price}
use adus_be.Repricing.Job.{
  Decision, settled, is_terminal, has_status, listed_price, same_price, decide, payload_or_failed,
  run,
}
use adus_be.Repricing.Payloads.{Draft, Columns, draft, build}
use adus_be.Repricing.Updates.{
  UpdateError, database_error, Encoder, Written, calculated, set_price, write, reconciled,
  reconcile_purchase_price, rewritten, rewrite,
}
use adus_be.Repricing.Found.{HasDistinctIds, get_all_by_zpid-AreFound, any-get_all_by_zpid}
use adus_be.Repricing.FanOut.{carried_out, after, reported_row, after_run, run_lem}
use adus_be.Repricing.PerRow.{IsStorage, FitsColumn, reconcile_purchase_price-IsPerRow}
use adus_be.Repricing.Reported.{reports, none_failed, shown, reported_of, reported_for}
use adus_be.Repricing.StaysDistinct.{run-HasDistinctIds}
use adus_be.Repricing.Decisions.{terminal_row, same_row, built_row}
use adus_be.Repricing.Priced.{KeepsPrice, IsPricedAt, draft-price, reconciled-price}

true≢false : true ≢ false
true≢false h = cc

calculated-eq_ok : {A : Type 0} (r : Result Failure A) (a : A) → calculated r ≡ ok a → r ≡ ok a
calculated-eq_ok (ok b) a h = cc
calculated-eq_ok (err raised) a h = cc

none_raised : (o : Option String) → Option.map (λ e. database_error e) o ≡ none → o ≡ none
none_raised none h = refl
none_raised (some e) h = cc

module _ {D : Type 0} (num : Decimals D) (order : IsStrictOrder num.less) (validate : Validation D)
    (readers : Readers D) (encoder : Encoder D)
    (model_validate : Draft D → Result Failure (Payload D))
    (keeps_price : KeepsPrice model_validate) (price : D) where
  abbrev pub build_payload : Underwriting D (Columns D) → D → Result UpdateError (Payload D)
  build_payload u p = calculated (build model_validate u p)

  build_payload-IsPricedAt :
      (u : Underwriting D (Columns D)) (payload : Payload D)
      → build_payload u price ≡ ok payload
      → IsPricedAt price payload
  unfolding build
  build_payload-IsPricedAt u payload h =
      let built = calculated-eq_ok (build model_validate u price) payload h in
      let (d, drafted, validated) = >>=-eq-ok (draft u price) model_validate built in
      keeps_price d payload price (draft-price u price d drafted) validated

  same_price_self : same_price num build_payload (some price) price ≡ true
  same_price_self = elim (Bool-cases (num.less price price)) [
    | inl h ↦ rw (order.asym price price h) refl
    | inr h ↦ rw h refl
  ]

  decide-at_price :
      (u : Underwriting D (Columns D))
      → is_terminal u.deal_status ≡ false
      → u.purchase_price ≡ some price
      → decide num build_payload price u ≡ settled skipped_same_price none
  decide-at_price u open_deal at_price =
      same_row num build_payload price u open_deal
        (ap (λ o. same_price num build_payload o price) at_price ∙ same_price_self)

  -- at the price, and of the listing and in the status that it was
  IsRepriced : Underwriting D (Columns D) → Underwriting D (Columns D) → Type 0
  IsRepriced u v =
      (v.purchase_price ≡ some price)
      × (v.zpid ≡ u.zpid)
      × (v.deal_status ≡ u.deal_status)
      × (is_terminal u.deal_status ≡ false)

  module _
      (flush : Underwriting D (Columns D)
        → Underwriting D (Columns D)
        → Option String × Underwriting D (Columns D))
      (storage : IsStorage flush) where
    abbrev rewrite_row :
        Payload D → Underwriting D (Columns D) → Option UpdateError × Underwriting D (Columns D)
    rewrite_row = rewrite num validate readers encoder flush

    abbrev pub reconcile_row :
        ℕ
        → Payload D
        → List (Underwriting D (Columns D))
        → Option UpdateError × List (Underwriting D (Columns D))
    reconcile_row = reconcile_purchase_price num validate readers encoder flush

    abbrev shown_as : Underwriting D (Columns D) → RowResult UpdateError
    shown_as = shown num build_payload rewrite_row price

    abbrev left_of : Underwriting D (Columns D) → Underwriting D (Columns D)
    left_of = after num build_payload rewrite_row price

    module _ (fits : FitsColumn flush price) where
      rewritten-price :
          (u : Underwriting D (Columns D)) (w : Result UpdateError (Written D))
          → ((x : Written D) → w ≡ ok x → lookup "purchase_price" x.columns ≡ some (figure price))
          → (rewritten num validate readers encoder flush u w).0 ≡ none
          → let v = (rewritten num validate readers encoder flush u w).1 in
            (v.purchase_price ≡ some price) × (v.zpid ≡ u.zpid) × (v.deal_status ≡ u.deal_status)
      rewritten-price u (err raised) priced h = cc
      rewritten-price u (ok w) priced h =
          let new = write encoder w u in
          let (_, zpid, status) = storage.keeps u new refl refl refl in
          (
            fits u new (none_raised (flush u new).0 h)
                (ap (λ o. set_price o u.purchase_price) (priced w refl)),
            zpid,
            status,
          )

      updated-IsRepriced :
          (u : Underwriting D (Columns D))
          → has_status updated (shown_as u) ≡ true
          → IsRepriced u (left_of u)
      unfolding shown IsRepriced
      updated-IsRepriced u h = elim (Bool-cases (is_terminal u.deal_status)) [
        | inl closed ↦
            refuted (settled skipped_terminal_status none)
              (terminal_row num build_payload price u closed) refl
        | inr open_deal ↦ elim (Bool-cases (same_price num build_payload u.purchase_price price)) [
          | inl same ↦
              refuted (settled skipped_same_price none)
                (same_row num build_payload price u open_deal same) refl
          | inr other ↦ elim (Result-cases (build_payload u price)) [
            | inl (payload, built) ↦
                let decided =
                  built_row num build_payload price u open_deal other
                  ∙ ap (payload_or_failed num build_payload) built in
                let calm = none_failed num build_payload rewrite_row u (rewrite_row payload u).0 (
                  sym (
                    ap (λ d. has_status updated (reported_row num build_payload rewrite_row u d))
                      decided)
                  ∙ h) in
                let (at_price, zpid, status) =
                  rewritten-price u (calculated (reconciled num validate readers encoder payload))
                    (λ w figures.
                      reconciled-price num validate readers encoder payload w price
                        (build_payload-IsPricedAt u payload built)
                        (calculated-eq_ok (reconciled num validate readers encoder payload) w
                          figures))
                    calm in
                let left = ap (carried_out num build_payload rewrite_row u) decided in
                (
                  ap (λ v. Underwriting.purchase_price v) left ∙ at_price,
                  ap (λ v. Underwriting.zpid v) left ∙ zpid,
                  ap (λ v. Underwriting.deal_status v) left ∙ status,
                  open_deal,
                )
            | inr (raised, refused) ↦
                refuted (settled failed (some raised))
                  (built_row num build_payload price u open_deal other
                    ∙ ap (payload_or_failed num build_payload) refused)
                  refl
          ]
        ]
      ]
        where
          refuted :
              (d : Decision (Payload D) UpdateError)
              → decide num build_payload price u ≡ d
              → has_status updated (reported_row num build_payload rewrite_row u d) ≡ false
              → IsRepriced u (left_of u)
          refuted d decided quiet = absurd (
              true≢false (
                sym h
                ∙ ap (λ e. has_status updated (reported_row num build_payload rewrite_row u e))
                    decided
                ∙ quiet))

    skipped-left :
        (v : Underwriting D (Columns D))
        → is_terminal v.deal_status ≡ false
        → v.purchase_price ≡ some price
        → (left_of v ≡ v) × (has_status skipped_same_price (shown_as v) ≡ true)
    unfolding shown
    skipped-left v open_deal at_price =
        let skipped = decide-at_price v open_deal at_price in
        (
          ap (carried_out num build_payload rewrite_row v) skipped,
          ap (λ d. has_status skipped_same_price (reported_row num build_payload rewrite_row v d))
              skipped,
        )

  module _
      (flush₁ flush₂ : Underwriting D (Columns D)
        → Underwriting D (Columns D)
        → Option String × Underwriting D (Columns D))
      (storage₁ : IsStorage flush₁) (storage₂ : IsStorage flush₂) (fits : FitsColumn flush₁ price)
      (parse : String → Option D) (get_by_zpid : String → Option Listing) (zpid : String)
      (priced : normalize_purchase_price num parse (listed_price (get_by_zpid zpid)) ≡ some price)
      (table : List (Underwriting D (Columns D))) (distinct : HasDistinctIds table) where
    abbrev pub first_run : RunResult UpdateError × List (Underwriting D (Columns D))
    first_run = run num build_payload (reconcile_row flush₁ storage₁) parse get_by_zpid zpid table

    abbrev pub second_run : RunResult UpdateError × List (Underwriting D (Columns D))
    second_run =
        run num build_payload (reconcile_row flush₂ storage₂) parse get_by_zpid zpid first_run.1

    -- If the ids are distinct, the amounts are strictly ordered, the validation keeps the price it is
    -- given, the database keeps a row's id, listing and status, and the listing has a price, one that
    -- its column holds as it is where the first run raises nothing: a row that the first run reports as
    -- updated is at the price then, and a second run, whatever the database raises or keeps in it,
    -- reports that row as skipped for its price and leaves it as it is.
    pub run_again :
        (id : ℕ)
        → reports id updated (RunResult.results first_run.0) ≡ true
        → (v : Underwriting D (Columns D)) × (get_by_id id first_run.1 ≡ some v)
          × (v.purchase_price ≡ some price)
          × (get_by_id id second_run.1 ≡ some v)
          × (reports id skipped_same_price (RunResult.results second_run.0) ≡ true)
    unfolding shown IsRepriced
    run_again id h =
        let per_row₁ =
          reconcile_purchase_price-IsPerRow num validate readers encoder flush₁ storage₁ in
        let per_row₂ =
          reconcile_purchase_price-IsPerRow num validate readers encoder flush₂ storage₂ in
        let rewrite₁ = rewrite_row flush₁ storage₁ in
        let rewrite₂ = rewrite_row flush₂ storage₂ in
        let reconcile₁ = reconcile_row flush₁ storage₁ in
        let reconcile₂ = reconcile_row flush₂ storage₂ in
        let (shown₁, left₁) =
          run_lem num build_payload rewrite₁ reconcile₁ per_row₁ parse get_by_zpid zpid table price
            distinct priced in
        let apart =
          run-HasDistinctIds num build_payload rewrite₁ reconcile₁ per_row₁ parse get_by_zpid zpid
            table price distinct priced in
        let (shown₂, left₂) =
          run_lem num build_payload rewrite₂ reconcile₂ per_row₂ parse get_by_zpid zpid first_run.1
            price apart priced in
        let (u, here, among, up) =
          reported_of num build_payload rewrite₁ price id updated (get_all_by_zpid zpid table) table
            (get_all_by_zpid-AreFound zpid table distinct)
            (sym (ap (reports id updated) shown₁) ∙ h) in
        let own : is_of zpid u ≡ true =
          sym (any-get_all_by_zpid zpid id table distinct u here) ∙ among in
        let (at_price, same_zpid, same_status, open_deal) =
          updated-IsRepriced flush₁ storage₁ fits u up in
        let v = left_of flush₁ storage₁ u in
        let there : get_by_id id first_run.1 ≡ some v = left₁ id ∙ rw here (rw own refl) in
        let own_v : is_of zpid v ≡ true = ap (is_text zpid) same_zpid ∙ own in
        let (stays, skipped) =
          skipped-left flush₂ storage₂ v (ap is_terminal same_status ∙ open_deal) at_price in
        (
          v,
          there,
          at_price,
          left₂ id
              ∙ ap (Option.map (after_run num build_payload rewrite₂ zpid price)) there
              ∙ ap (λ w. some w) (rw own_v stays),
          ap (reports id skipped_same_price) shown₂
              ∙ reported_for num build_payload rewrite₂ price id skipped_same_price
                  (get_all_by_zpid zpid first_run.1) first_run.1 v
                  (get_all_by_zpid-AreFound zpid first_run.1 apart)
                  (any-get_all_by_zpid zpid id first_run.1 apart v there ∙ own_v) there skipped,
        )
