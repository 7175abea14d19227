-- ===== src/Saving/Columns.antt =====
-- Which columns of the row the calculations write, and with what
-- (app/iron_bank/services/operations/save_underwriting_service.py).
use mathlib.Core.Path.{subst}
use adus_be.Prelude.{
  ◌≡◌, refl, sym, ap, ◌∙◌, arith, false, Option, none, some, List, [], ◌∷◌, String, str_eq,
  contains, lookup, lookup-insert, ok, >>=-eq-ok, ok-injective,
}
use adus_be.Calculator.{
  Decimals, Scenarios, PurchaseDetails, ForecastedRevenue, OptimizationItem, Dict, figure,
  Validation, calculate_cash_on_cash, calculate_prr, calculate_budget_to_pp,
}
use adus_be.Calculator.Loans.{calculate_total_oop}
use adus_be.Saving.{DetailData}
use adus_be.Saving.Fields.{
  Headline, assign, headline, with_price, with_revenues, with_headline, with_figures,
  apply_calculated_underwriting_fields,
}

abbrev pub revenue_columns : List String
revenue_columns = "low_gross_revenue" ∷ "mid_gross_revenue" ∷ "high_gross_revenue" ∷ []

abbrev pub headline_columns : List String
headline_columns =
    "total_oop" ∷ "prr" ∷ "budget_to_pp" ∷ "l_cash_on_cash" ∷ "m_cash_on_cash" ∷ "h_cash_on_cash"
    ∷ []

module _ {D : Type 0} where
  lookup-assign :
      (key asked : String) (x : D) (row : Dict D)
      → str_eq key asked ≡ false
      → lookup asked (assign key x row) ≡ lookup asked row
  lookup-assign key asked x row other = lookup-insert key asked (figure x) row ∙ rw other refl

  with_price_keeps :
      (purchase : Option (PurchaseDetails D)) (asked : String) (row : Dict D)
      → str_eq "purchase_price" asked ≡ false
      → lookup asked (with_price purchase row) ≡ lookup asked row
  with_price_keeps none asked row h = refl
  with_price_keeps (some details) asked row h =
      lookup-assign "purchase_price" asked details.dumped.purchase_price row h

  with_revenues_keeps :
      (f : ForecastedRevenue D) (asked : String) (row : Dict D)
      → contains asked revenue_columns ≡ false
      → lookup asked (with_revenues f row) ≡ lookup asked row
  unfolding contains
  with_revenues_keeps f asked row h =
      lookup-assign "high_gross_revenue" asked _ _ (ground (arith, h))
      ∙ lookup-assign "mid_gross_revenue" asked _ _ (ground (arith, h))
      ∙ lookup-assign "low_gross_revenue" asked _ row (ground (arith, h))

  with_headline_keeps :
      (f : Headline D) (asked : String) (row : Dict D)
      → contains asked headline_columns ≡ false
      → lookup asked (with_headline f row) ≡ lookup asked row
  unfolding contains
  with_headline_keeps f asked row h =
      lookup-assign "h_cash_on_cash" asked _ _ (ground (arith, h))
      ∙ lookup-assign "m_cash_on_cash" asked _ _ (ground (arith, h))
      ∙ lookup-assign "l_cash_on_cash" asked _ _ (ground (arith, h))
      ∙ lookup-assign "budget_to_pp" asked _ _ (ground (arith, h))
      ∙ lookup-assign "prr" asked _ _ (ground (arith, h))
      ∙ lookup-assign "total_oop" asked _ row (ground (arith, h))

-- asked of a column that no calculation writes
abbrev pub IsKept : String → Type 0
IsKept asked =
    (str_eq "purchase_price" asked ≡ false)
    × (contains asked revenue_columns ≡ false)
    × (contains asked headline_columns ≡ false)

module _ {D : Type 0} (num : Decimals D) (validate : Validation D)
    (items : List (OptimizationItem D)) (loan : Option (Dict D)) where
  with_price-price :
      (p : PurchaseDetails D) (row : Dict D)
      → lookup "purchase_price" (with_price (some p) row) ≡ some (figure p.dumped.purchase_price)
  with_price-price p row = simp lookup-insert

  -- whatever else is written, the price is that of the purchase
  with_figures-price :
      (p : PurchaseDetails D) (f : Option (ForecastedRevenue D)) (row saved : Dict D)
      → with_figures num validate items loan (some p) f (with_price (some p) row) ≡ ok saved
      → lookup "purchase_price" saved ≡ some (figure p.dumped.purchase_price)
  unfolding contains
  with_figures-price p none row saved h =
      ap (lookup "purchase_price") (sym (ok-injective h)) ∙ with_price-price p row
  with_figures-price p (some f) row saved h =
      let (figures, calculated, h₁) = >>=-eq-ok (headline num validate items loan p f) _ h in
      ap (lookup "purchase_price") (sym (ok-injective h₁))
      ∙ with_headline_keeps figures "purchase_price" (with_revenues f (with_price (some p) row))
          refl
      ∙ with_revenues_keeps f "purchase_price" (with_price (some p) row) refl
      ∙ with_price-price p row

  pub apply_calculated_underwriting_fields-price :
      (details : DetailData D) (p : PurchaseDetails D) (row saved : Dict D)
      → details.purchase_details ≡ some p
      → apply_calculated_underwriting_fields num validate items loan (some details) row ≡ ok saved
      → lookup "purchase_price" saved ≡ some (figure p.dumped.purchase_price)
  unfolding apply_calculated_underwriting_fields
  apply_calculated_underwriting_fields-price details p row saved there h =
      with_figures-price p details.forecasted_revenue row saved (
        subst
          (λ o.
            with_figures num validate items loan o details.forecasted_revenue (with_price o row)
            ≡ ok saved)
          there h)

  -- the columns of the row that the purchase, the forecast and the four figures determine
  pub record AreSaved (p : PurchaseDetails D) (f : ForecastedRevenue D) (total_oop prr budget : D)
      (coc : Scenarios D) (saved : Dict D) : Type 0 where
    pub price : lookup "purchase_price" saved ≡ some (figure p.dumped.purchase_price)
    pub low :
        (lookup "low_gross_revenue" saved ≡ some (figure f.scenarios.low.dumped.forecasted_revenue))
        × (lookup "l_cash_on_cash" saved ≡ some (figure coc.low))
    pub mid :
        (lookup "mid_gross_revenue" saved ≡ some (figure f.scenarios.mid.dumped.forecasted_revenue))
        × (lookup "m_cash_on_cash" saved ≡ some (figure coc.mid))
    pub high :
        (lookup "high_gross_revenue" saved
          ≡ some (figure f.scenarios.high.dumped.forecasted_revenue))
        × (lookup "h_cash_on_cash" saved ≡ some (figure coc.high))
    pub cash : lookup "total_oop" saved ≡ some (figure total_oop)
    pub rent : lookup "prr" saved ≡ some (figure prr)
    pub ratio : lookup "budget_to_pp" saved ≡ some (figure budget)

  all_assigned :
      (p : PurchaseDetails D) (f : ForecastedRevenue D) (h : Headline D) (row : Dict D)
      → AreSaved p f h.total_oop h.prr h.budget_to_pp h.cash_on_cash
          (with_headline h (with_revenues f (with_price (some p) row)))
  all_assigned p f h row = record {
    price = simp lookup-insert;
    low = (simp lookup-insert, simp lookup-insert);
    mid = (simp lookup-insert, simp lookup-insert);
    high = (simp lookup-insert, simp lookup-insert);
    cash = simp lookup-insert;
    rent = simp lookup-insert;
    ratio = simp lookup-insert;
  }

  others_kept :
      (p : PurchaseDetails D) (f : ForecastedRevenue D) (h : Headline D) (row : Dict D)
      (asked : String)
      → IsKept asked
      → lookup asked (with_headline h (with_revenues f (with_price (some p) row)))
        ≡ lookup asked row
  others_kept p f h row asked (price, revenue, figure_column) =
      with_headline_keeps h asked (with_revenues f (with_price (some p) row)) figure_column
      ∙ with_revenues_keeps f asked (with_price (some p) row) revenue
      ∙ with_price_keeps (some p) asked row price

  headline_of :
      (p : PurchaseDetails D) (f : ForecastedRevenue D) (total_oop prr budget : D)
      (coc : Scenarios D)
      → calculate_total_oop num validate p items loan ≡ ok total_oop
      → calculate_cash_on_cash num f total_oop ≡ ok coc
      → calculate_prr num p.dumped.purchase_price f.scenarios.mid.dumped.forecasted_revenue ≡ ok prr
      → calculate_budget_to_pp num total_oop p.dumped.purchase_price ≡ ok budget
      → headline num validate items loan p f
        ≡ ok
            (record { total_oop = total_oop; prr = prr; budget_to_pp = budget; cash_on_cash = coc })
  unfolding headline
  headline_of p f total_oop prr budget coc h₁ h₂ h₃ h₄ = rw (h₁, h₂, h₃, h₄) refl

  -- With a purchase and a forecast from which the calculator gets a cash to close, a cash-on-cash return
  -- per scenario, a rent ratio of the price and the middle revenue, and a budget ratio, the row gets
  -- the price, each scenario's revenue and return and the three other figures in their columns, and no
  -- other column changes.
  pub apply_calculated_underwriting_fields_lem :
      (details : DetailData D) (p : PurchaseDetails D) (f : ForecastedRevenue D)
      (total_oop prr budget : D) (coc : Scenarios D) (row : Dict D)
      → details.purchase_details ≡ some p
      → details.forecasted_revenue ≡ some f
      → calculate_total_oop num validate p items loan ≡ ok total_oop
      → calculate_cash_on_cash num f total_oop ≡ ok coc
      → calculate_prr num p.dumped.purchase_price f.scenarios.mid.dumped.forecasted_revenue ≡ ok prr
      → calculate_budget_to_pp num total_oop p.dumped.purchase_price ≡ ok budget
      → (saved : Dict D) × (apply_calculated_underwriting_fields num validate items loan
            (some details)
            row
          ≡ ok saved)
        × AreSaved p f total_oop prr budget coc saved
        × ((asked : String) → IsKept asked → lookup asked saved ≡ lookup asked row)
  unfolding apply_calculated_underwriting_fields
  apply_calculated_underwriting_fields_lem details p f total_oop prr budget coc row e₁ e₂ h₁ h₂ h₃
        h₄ =
      let h : Headline D = record {
        total_oop = total_oop;
        prr = prr;
        budget_to_pp = budget;
        cash_on_cash = coc;
      } in
      (
        with_headline h (with_revenues f (with_price (some p) row)),
        rw (e₁, e₂, headline_of p f total_oop prr budget coc h₁ h₂ h₃ h₄) refl,
        all_assigned p f h row,
        others_kept p f h row,
      )
