-- ===== src/Repricing/Updates.antt =====
-- `reconcile_purchase_price` (app/iron_bank/services/operations/update_underwriting_service.py) and the
-- `update` that it ends with (app/iron_bank/repositories/underwriting_repository.py). What the
-- database makes of a row that is written is an argument: the exception, if there is one, and the row
-- that is then stored, which is the old one after a rollback, and the new one where the refresh after the
-- commit raised.
use adus_be.Prelude.{
  ℕ, Bool, true, false, ◌&&◌, Option, none, some, is_none, List, [], ◌∷◌, map, filter, String,
  contains, str_eq, not, lookup, merge, Result, ok, err, ◌>>=◌, if◌then◌else◌, ◌==◌,
}
use mathlib.Core.Option
use adus_be.Json.{Json}
use adus_be.Calculator.{
  Failure, Decimals, PurchaseDetails, ForecastedRevenue, TaxData, Value, figure, Dict, Validation,
}
use adus_be.Saving.{
  Payload, DetailData, YearOne, Readers, resolve_bedrooms_for_save, build_tax_data,
}
use adus_be.Saving.Details.{build_detail_data, project_loan_for_calculation}
use adus_be.Saving.Fields.{apply_calculated_underwriting_fields}
use adus_be.Repricing.{Underwriting, get_by_id}
use adus_be.Repricing.Payloads.{StoredForecast, Detail, Taxes, Columns}

-- _PRICE_RECONCILIATION_FIELDS
abbrev pub price_reconciliation_fields : List String
price_reconciliation_fields =
    "purchase_price" ∷ "total_oop" ∷ "prr" ∷ "budget_to_pp" ∷ "l_cash_on_cash" ∷ "m_cash_on_cash"
    ∷ "h_cash_on_cash" ∷ []

pub data UpdateError : Type 0 where
  calculating : Failure → UpdateError
  not_found : ℕ → UpdateError
  database_error : String → UpdateError

-- what is written: the columns, the details and the taxes, and no other child
pub record Written (D : Type 0) : Type 0 where
  pub columns : Dict D
  pub detail : Option (DetailData D)
  pub taxes : Option (TaxData D)

abbrev pub calculated : {A : Type 0} → Result Failure A → Result UpdateError A
calculated (ok a) = ok a
calculated (err raised) = err (calculating raised)

abbrev pub set_or_keep : {A : Type 0} → Option A → Option A → Option A
set_or_keep none old = old
set_or_keep (some new) old = some new

abbrev pub no_others : List (String × Json) → Bool
no_others [] = true
no_others (o ∷ os) = false

-- `jsonable_encoder` of the dicts under the keys of the details
pub record Encoder (D : Type 0) : Type 0 where
  pub purchase : PurchaseDetails D → Dict D
  pub revenue : ForecastedRevenue D → StoredForecast D
  pub rates : YearOne D → Json
  pub plain : Dict D → Dict D

module _ {D : Type 0} where
  abbrev pub is_figure : String × Value D → Bool
  is_figure column = contains column.0 price_reconciliation_fields

  abbrev pub is_price : String × Value D → Bool
  is_price column = str_eq column.0 "purchase_price"

  -- `setattr` of the columns: the price is one of them
  abbrev pub set_price : Option (Value D) → Option D → Option D
  set_price (some (figure price)) old = some price
  set_price _ old = old

  abbrev pub no_detail : Detail D
  no_detail = record {
    purchase_details = none;
    y1_coc_incl_tax_savings = none;
    forecasted_revenue = none;
    opex_project_loan = none;
    zillow_property = none;
    others = [];
  }

  -- `not detail_data`
  abbrev pub is_empty : DetailData D → Bool
  is_empty d =
      is_none d.purchase_details
      && is_none d.y1_coc_incl_tax_savings
      && is_none d.forecasted_revenue
      && is_none d.opex_project_loan
      && is_none d.zillow_property
      && no_others d.others

  module _ (encoder : Encoder D) where
    -- the keys that are there replace the columns
    abbrev pub with_detail : DetailData D → Detail D → Detail D
    with_detail d row = record {
      purchase_details =
          set_or_keep (Option.map encoder.purchase d.purchase_details) row.purchase_details;
      y1_coc_incl_tax_savings =
          set_or_keep (Option.map encoder.rates d.y1_coc_incl_tax_savings)
            row.y1_coc_incl_tax_savings;
      forecasted_revenue =
          set_or_keep (Option.map encoder.revenue d.forecasted_revenue) row.forecasted_revenue;
      opex_project_loan =
          set_or_keep (Option.map encoder.plain d.opex_project_loan) row.opex_project_loan;
      zillow_property =
          set_or_keep (Option.map encoder.plain d.zillow_property) row.zillow_property;
      others = merge row.others d.others;
    }

    abbrev pub upsert_detail : Option (DetailData D) → Option (Detail D) → Option (Detail D)
    upsert_detail none row = row
    upsert_detail (some d) row = if is_empty d then row else some (with_detail d (or_new row))
      where
        or_new : Option (Detail D) → Detail D
        or_new none = no_detail
        or_new (some detail) = detail

    abbrev pub upsert_taxes : Option (TaxData D) → Option (Taxes D) → Option (Taxes D)
    upsert_taxes none row = row
    upsert_taxes (some taxes) row = some (record {
      land_assumptions_pct = some taxes.dumped.land_assumptions_pct;
      sla_multiplier_pct = some taxes.dumped.sla_multiplier_pct;
      bonus_amount_pct = some taxes.dumped.bonus_amount_pct;
      tax_rate_pct = some taxes.dumped.tax_rate_pct;
      improvement_basis = some taxes.improvement_basis;
      estimated_short_life_assets = some taxes.estimated_short_life_assets;
      y1_loss_from_depreciation = some taxes.y1_loss_from_depreciation;
      tax_savings = some taxes.tax_savings;
    })

    abbrev pub write : Written D → Underwriting D (Columns D) → Underwriting D (Columns D)
    write w u = record {
      id = u.id;
      version = u.version;
      zpid = u.zpid;
      deal_status = u.deal_status;
      purchase_price = set_price (lookup "purchase_price" w.columns) u.purchase_price;
      rest = record {
        is_automated = u.rest.is_automated;
        bedrooms = u.rest.bedrooms;
        bathrooms = u.rest.bathrooms;
        figures = merge u.rest.figures (filter (λ c. not (is_price c)) w.columns);
        detail = upsert_detail w.detail u.rest.detail;
        taxes = upsert_taxes w.taxes u.rest.taxes;
        optimization_items = u.rest.optimization_items;
        operating_expenses = u.rest.operating_expenses;
      };
    }

  -- the table with another row under an id
  abbrev pub put :
      ℕ
      → Underwriting D (Columns D)
      → List (Underwriting D (Columns D))
      → List (Underwriting D (Columns D))
  put id row = map λ u. if u.id == id then row else u

module _ {D : Type 0} (num : Decimals D) (validate : Validation D) (readers : Readers D)
    (encoder : Encoder D) where
  -- the figures of the payload, before anything is read or written
  unfoldable pub reconciled : Payload D → Result Failure (Written D)
  reconciled payload = build_tax_data num payload >>= λ tax_data.
      let bedrooms = resolve_bedrooms_for_save readers payload in
      build_detail_data num validate readers payload tax_data payload.market_id bedrooms none
      >>= λ detail_data.
          apply_calculated_underwriting_fields num validate payload.optimization_list
            (project_loan_for_calculation detail_data none) detail_data []
          >>= λ calculated. ok (record {
            columns = filter is_figure calculated;
            detail = detail_data;
            taxes = tax_data;
          })

  -- `flush` is given the row as it is and as it is to be.
  module _
      (flush : Underwriting D (Columns D)
        → Underwriting D (Columns D)
        → Option String × Underwriting D (Columns D)) where
    abbrev pub flushed :
        Underwriting D (Columns D) → Written D → Option UpdateError × Underwriting D (Columns D)
    flushed u w =
        let done = flush u (write encoder w u) in
        (Option.map (λ e. database_error e) done.0, done.1)

    abbrev pub update_found :
        ℕ
        → Written D
        → List (Underwriting D (Columns D))
        → Option (Underwriting D (Columns D))
        → Option UpdateError × List (Underwriting D (Columns D))
    update_found id w table none = (some (not_found id), table)
    update_found id w table (some u) = ((flushed u w).0, put id (flushed u w).1 table)

    abbrev pub update_with :
        ℕ
        → Result UpdateError (Written D)
        → List (Underwriting D (Columns D))
        → Option UpdateError × List (Underwriting D (Columns D))
    update_with id (err raised) table = (some raised, table)
    update_with id (ok w) table = update_found id w table (get_by_id id table)

    unfoldable pub reconcile_purchase_price :
        ℕ
        → Payload D
        → List (Underwriting D (Columns D))
        → Option UpdateError × List (Underwriting D (Columns D))
    reconcile_purchase_price id payload = update_with id (calculated (reconciled payload))

    -- the same, of the one row
    abbrev pub rewritten :
        Underwriting D (Columns D)
        → Result UpdateError (Written D)
        → Option UpdateError × Underwriting D (Columns D)
    rewritten u (err raised) = (some raised, u)
    rewritten u (ok w) = flushed u w

    abbrev pub rewrite :
        Payload D → Underwriting D (Columns D) → Option UpdateError × Underwriting D (Columns D)
    rewrite payload u = rewritten u (calculated (reconciled payload))
