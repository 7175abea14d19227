-- ===== src/Examples/Repriced.antt =====
-- A change of price at concrete inputs: two versions of a deal, of which one is under contract.
use adus_be.Prelude.{
  ℕ, ◌*◌, ◌≡◌, refl, ap, true, false, Option, none, some, List, [], ◌∷◌, map, String, lookup,
  contains, insert, merge, place, stable_sort, ◌==◌, if◌then◌else◌, Bool-cases, inl, inr, Result,
  ok, err, ok-injective, sym, ◌∙◌,
}
use mathlib.Core.Path.{subst}
use mathlib.Core.Option
use adus_be.Json.{null}
use adus_be.Calculator.{
  Failure, validation_error, Value, figure, Dict, total, calculate_purchase_details,
  calculate_cash_on_cash, calculate_prr, calculate_budget_to_pp,
}
use adus_be.DealStatus.{value, deal_status_transitions, terminal_deal_statuses}
use adus_be.Calculator.Loans.{
  pmt, ending_balance, calculate_debt_service_annual, calculate_year_one_principal_pay_down,
  project_loan_amount, calculate_total_oop,
}
use adus_be.Calculator.Forecast.{basis, scenario_forecast, calculate_forecasted_revenue}
use adus_be.Saving.{Payload, build_tax_data}
use adus_be.Saving.Details.{build_detail_data, project_loan_for_calculation}
use adus_be.Saving.Fields.{headline, apply_calculated_underwriting_fields}
use adus_be.Repricing.{
  Underwriting, Listing, get_by_id, get_all_by_zpid, updated, skipped_same_price,
  skipped_terminal_status, RowResult, RunResult,
}
use adus_be.Repricing.Prices.{cleaned, normalize_purchase_price}
use adus_be.Repricing.Job.{is_terminal, listed_price, decide, plan, apply_entry, apply, run}
use adus_be.Repricing.Payloads.{Draft, Columns, Detail, Taxes, draft, build}
use adus_be.Repricing.Updates.{
  UpdateError, Encoder, calculated, reconciled, reconcile_purchase_price, rewrite,
}
use adus_be.Repricing.Found.{HasDistinctIds}
use adus_be.Repricing.Batch.{BatchResult, run_batch}
use adus_be.Repricing.Counts.{count_at, reports_with, rows_with, rows_of, run_batch_lem}
use adus_be.Repricing.FanOut.{IsPerRow, report, after_run, run_lem, run-terminal}
use adus_be.Repricing.PerRow.{IsStorage, FitsColumn, reconcile_purchase_price-IsPerRow}
use adus_be.Repricing.Priced.{IsPricedAt, KeepsPrice}
use adus_be.Repricing.Reported.{reports}
use adus_be.Repricing.Again.{run_again}
use adus_be.Examples.Figures.{
  unit, fixed, fixed_order, purchase, forecast_terms, validation, item, expense,
}
use adus_be.Examples.Saved.{no_readers}

abbrev plain_encoder : Encoder ℕ
plain_encoder = record {
  purchase = λ p. terms;
  revenue = λ f. record { fields = rates; scenarios = some scenarios };
  rates = λ y. null;
  plain = λ d. d;
}
  where
    terms : Dict ℕ
    terms =
        ("down_payment_pct", figure 2000)
        ∷ ("interest_rate", figure 0)
        ∷ ("mortgage_years", figure unit)
        ∷ ("closing_costs_pct", figure 300)
        ∷ []

    rates : Dict ℕ
    rates = ("co_hosting_fee_pct", figure 0) ∷ ("annual_re_appreciation_pct", figure 400) ∷ []

    scenarios : List (String × Dict ℕ)
    scenarios = []

abbrev stored_detail : Detail ℕ
stored_detail = record {
  purchase_details = some (
      ("down_payment_pct", figure 2000)
      ∷ ("interest_rate", figure 0)
      ∷ ("mortgage_years", figure unit)
      ∷ ("closing_costs_pct", figure 300)
      ∷ []);
  y1_coc_incl_tax_savings = none;
  forecasted_revenue = some (record {
    fields = ("co_hosting_fee_pct", figure 0) ∷ ("annual_re_appreciation_pct", figure 400) ∷ [];
    scenarios = some (("low", revenue 2000) ∷ ("mid", revenue 3000) ∷ ("high", revenue 4000) ∷ []);
  });
  opex_project_loan = none;
  zillow_property = none;
  others = [];
}
  where
    revenue : ℕ → Dict ℕ
    revenue n = ("forecasted_revenue", figure (n * unit)) ∷ []

abbrev stored_taxes : Taxes ℕ
stored_taxes = record {
  land_assumptions_pct = some 2000;
  sla_multiplier_pct = some 2000;
  bonus_amount_pct = some unit;
  tax_rate_pct = some 3000;
  improvement_basis = none;
  estimated_short_life_assets = none;
  y1_loss_from_depreciation = none;
  tax_savings = none;
}

abbrev deal : ℕ → String → Underwriting ℕ (Columns ℕ)
deal number status = record {
  id = number;
  version = number;
  zpid = some "z1";
  deal_status = some status;
  purchase_price = some (1000 * unit);
  rest = record {
    is_automated = some false;
    bedrooms = some 3;
    bathrooms = none;
    figures = [];
    detail = some stored_detail;
    taxes = some stored_taxes;
    optimization_items = item 20 ∷ [];
    operating_expenses = expense 10 ∷ [];
  };
}

abbrev deals : List (Underwriting ℕ (Columns ℕ))
deals = deal 2 "client_under_contract" ∷ deal 1 "maybe" ∷ []

abbrev parse_price : String → Option ℕ
parse_price text = some (900 * unit)

abbrev listed : String → Option Listing
listed zpid = some (record { price = some "$900"; unformatted_price = none })

cleaned_price : cleaned "USD -1,250.5" ≡ "-1250.5"
unfolding cleaned
cleaned_price = refl

priced : normalize_purchase_price fixed parse_price (listed_price (listed "z1")) ≡ some (900 * unit)
unfolding normalize_purchase_price cleaned
priced = refl

under_contract : is_terminal (some "client_under_contract") ≡ true
unfolding terminal_deal_statuses deal_status_transitions value contains
under_contract = refl

deals-HasDistinctIds : HasDistinctIds deals
deals-HasDistinctIds = (refl, (refl, tt))

-- the payload that is validated keeps the price, and has the terms of the tests
abbrev payload_at : ℕ → Payload ℕ
payload_at price = record {
  market_id = none;
  zpid = none;
  bedrooms = none;
  bathrooms = none;
  purchase_price = none;
  columns = [];
  details = some (record {
    purchase_details = some (record purchase { purchase_price = price });
    y1_coc_incl_tax_savings = none;
    forecasted_revenue = some forecast_terms;
    opex_project_loan = none;
    zillow_property = none;
    others = [];
  });
  taxes = none;
  optimization_list = item 20 ∷ [];
  operating_expenses = expense 10 ∷ [];
}

abbrev accepted_price : Option (Value ℕ) → Result Failure (Payload ℕ)
accepted_price (some (figure price)) = ok (payload_at price)
accepted_price _ = err validation_error

abbrev accepted : Draft ℕ → Result Failure (Payload ℕ)
accepted given = accepted_price (lookup "purchase_price" given.purchase_details)

payload_at-IsPricedAt : (price : ℕ) → IsPricedAt price (payload_at price)
payload_at-IsPricedAt price = (_, _, refl, refl, refl)

accepted-KeepsPrice : KeepsPrice accepted
accepted-KeepsPrice given payload price there h =
    let same = ok-injective (sym (ap accepted_price there) ∙ h) in
    subst (IsPricedAt price) same (payload_at-IsPricedAt price)

-- a database that stores every row, and one that raises for each: before or after its commit
abbrev kept_as_is :
    Underwriting ℕ (Columns ℕ)
    → Underwriting ℕ (Columns ℕ)
    → Option String × Underwriting ℕ (Columns ℕ)
kept_as_is old new = (none, new)

abbrev unsteady :
    Underwriting ℕ (Columns ℕ)
    → Underwriting ℕ (Columns ℕ)
    → Option String × Underwriting ℕ (Columns ℕ)
unsteady old new = (some "connection reset", if old.id == 1 then old else new)

kept_as_is-IsStorage : IsStorage kept_as_is
kept_as_is-IsStorage = record { keeps = λ old new id zpid status. (id, zpid, status) }

unsteady-IsStorage : IsStorage unsteady
unsteady-IsStorage = record {
  keeps = λ old new id zpid status. elim (Bool-cases (old.id == 1)) [
    | inl h ↦ rw h (refl, refl, refl)
    | inr h ↦ rw h (id, zpid, status)
  ];
}

kept_as_is-FitsColumn : FitsColumn kept_as_is (900 * unit)
kept_as_is-FitsColumn old new h at_price = at_price

abbrev own_build : Underwriting ℕ (Columns ℕ) → ℕ → Result UpdateError (Payload ℕ)
own_build u price = calculated (build accepted u price)

abbrev own_rewrite :
    Payload ℕ → Underwriting ℕ (Columns ℕ) → Option UpdateError × Underwriting ℕ (Columns ℕ)
own_rewrite = rewrite fixed validation no_readers plain_encoder kept_as_is

abbrev reconcile_by :
    (Underwriting ℕ (Columns ℕ)
      → Underwriting ℕ (Columns ℕ)
      → Option String × Underwriting ℕ (Columns ℕ))
    → ℕ
    → Payload ℕ
    → List (Underwriting ℕ (Columns ℕ))
    → Option UpdateError × List (Underwriting ℕ (Columns ℕ))
reconcile_by flush = reconcile_purchase_price fixed validation no_readers plain_encoder flush

abbrev own_reconcile :
    ℕ
    → Payload ℕ
    → List (Underwriting ℕ (Columns ℕ))
    → Option UpdateError × List (Underwriting ℕ (Columns ℕ))
own_reconcile = reconcile_by kept_as_is

abbrev own_run :
    String
    → List (Underwriting ℕ (Columns ℕ))
    → RunResult UpdateError × List (Underwriting ℕ (Columns ℕ))
own_run = run fixed own_build own_reconcile parse_price listed

own-IsPerRow : IsPerRow own_reconcile own_rewrite
own-IsPerRow =
    reconcile_purchase_price-IsPerRow fixed validation no_readers plain_encoder kept_as_is
      kept_as_is-IsStorage

run_lem_example :
    (RunResult.results (own_run "z1" deals).0
      ≡ map (report fixed own_build own_rewrite (900 * unit)) (get_all_by_zpid "z1" deals))
    × ((id : ℕ)
        → get_by_id id (own_run "z1" deals).1
          ≡ Option.map
              (after_run fixed own_build own_rewrite "z1" (900 * unit))
              (get_by_id id deals))
run_lem_example =
    run_lem fixed own_build own_rewrite own_reconcile own-IsPerRow parse_price listed "z1" deals
      (900 * unit) deals-HasDistinctIds priced

run-terminal_example : get_by_id 2 (own_run "z1" deals).1 ≡ some (deal 2 "client_under_contract")
run-terminal_example =
    run-terminal fixed own_build own_rewrite own_reconcile own-IsPerRow parse_price listed "z1"
      deals (900 * unit) deals-HasDistinctIds priced 2 (deal 2 "client_under_contract") refl
      under_contract

-- two listings, of which the second has no deal
abbrev own_job :
    String
    → List (Underwriting ℕ (Columns ℕ))
    → Result UpdateError (RunResult UpdateError) × List (Underwriting ℕ (Columns ℕ))
own_job zpid table = let done = own_run zpid table in (ok done.0, done.1)

abbrev own_batch : BatchResult UpdateError
own_batch = (run_batch own_job ("z1" ∷ "z2" ∷ []) deals).0

run_batch_lem_example :
    (own_batch.found ≡ 2)
    × (own_batch.processed ≡ own_batch.found)
    × (count_at updated own_batch.counts ≡ reports_with updated own_batch.results)
    × (count_at updated own_batch.underwritings ≡ rows_with updated (rows_of own_batch.results))
run_batch_lem_example = run_batch_lem updated own_job ("z1" ∷ "z2" ∷ []) deals

-- the open version is rewritten at the new price
rewritten :
    map (λ r. RowResult.status r) (RunResult.results (own_run "z1" deals).0)
    ≡ updated ∷ skipped_terminal_status ∷ []
unfolding run apply apply_entry plan decide get_all_by_zpid stable_sort place
    normalize_purchase_price cleaned build draft lookup reconcile_purchase_price reconciled
    build_tax_data build_detail_data apply_calculated_underwriting_fields headline
    calculate_forecasted_revenue basis scenario_forecast calculate_total_oop project_loan_amount
    total calculate_purchase_details pmt ending_balance calculate_debt_service_annual
    calculate_year_one_principal_pay_down calculate_cash_on_cash calculate_prr
    calculate_budget_to_pp terminal_deal_statuses deal_status_transitions value contains
    project_loan_for_calculation insert merge
rewritten = refl

open_version_updated : reports 1 updated (RunResult.results (own_run "z1" deals).0) ≡ true
unfolding run apply apply_entry plan decide get_all_by_zpid stable_sort place
    normalize_purchase_price cleaned build draft lookup reconcile_purchase_price reconciled
    build_tax_data build_detail_data apply_calculated_underwriting_fields headline
    calculate_forecasted_revenue basis scenario_forecast calculate_total_oop project_loan_amount
    total calculate_purchase_details pmt ending_balance calculate_debt_service_annual
    calculate_year_one_principal_pay_down calculate_cash_on_cash calculate_prr
    calculate_budget_to_pp terminal_deal_statuses deal_status_transitions value contains
    project_loan_for_calculation insert merge
open_version_updated = refl

abbrev second_run : RunResult UpdateError × List (Underwriting ℕ (Columns ℕ))
second_run =
    run fixed own_build (reconcile_by unsteady) parse_price listed "z1" (own_run "z1" deals).1

run_again_example :
    (v : Underwriting ℕ (Columns ℕ)) × (get_by_id 1 (own_run "z1" deals).1 ≡ some v)
    × (v.purchase_price ≡ some (900 * unit))
    × (get_by_id 1 second_run.1 ≡ some v)
    × (reports 1 skipped_same_price (RunResult.results second_run.0) ≡ true)
run_again_example =
    run_again fixed fixed_order validation no_readers plain_encoder accepted accepted-KeepsPrice
      (900 * unit) kept_as_is unsteady kept_as_is-IsStorage unsteady-IsStorage kept_as_is-FitsColumn
      parse_price listed "z1" priced deals deals-HasDistinctIds 1 open_version_updated
