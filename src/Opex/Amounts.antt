-- ===== src/Opex/Amounts.antt =====
-- The amounts of the expense rows, and the rows built from them
-- (app/iron_bank/services/engine/opex_catalog.py).
use adus_be.Prelude.{
  ◌&&◌, Option, none, some, is_none, List, [], ◌∷◌, ◌++◌, String, merge, if◌then◌else◌,
}
use adus_be.Opex.{
  opex_rows, opex_property_tax_pct, zillow_annual_tax, Arithmetic, Columns, PreparedOpex,
  CleaningCost, PropertyTaxes, ExpenseRow, OpexOption, transform_opex_costs, monthly_of, seeded,
  option_rows, unplaced,
}

module _ {D : Type 0} (decimal : Arithmetic D) where
  -- OPEX_ROW_DEFAULTS
  abbrev pub opex_row_defaults : Columns D
  opex_row_defaults = ("misc", some decimal.nought) ∷ []

  abbrev pub product : Option D → Option D → Option D
  product none b = none
  product (some a) none = none
  product (some a) (some b) = some (decimal.times a b)

  unfoldable pub build_cleaning_cost : Option D → Option D → Option (CleaningCost D)
  build_cleaning_cost fee turns =
      if is_none fee && is_none turns
      then none
      else some (record {
        cost_per_clean = fee;
        turns_per_month = turns;
        monthly_cleaning_cost = product fee turns;
      })

  abbrev pub from_zillow : Option D → Option (PropertyTaxes D)
  from_zillow none = none
  from_zillow (some tax) = some (record {
    source = zillow_annual_tax;
    annual_amount = decimal.money tax;
    monthly_amount = decimal.money (decimal.twelfth tax);
    inputs = none;
  })

  unfoldable pub build_opex_property_taxes :
      Option D → Option D → Option D → Option (PropertyTaxes D)
  build_opex_property_taxes (some pct) (some price) zillow = some (record {
    source = opex_property_tax_pct;
    annual_amount = decimal.money (decimal.times pct price);
    monthly_amount = decimal.money (decimal.twelfth (decimal.times pct price));
    inputs = some (pct, price);
  })
  build_opex_property_taxes (some pct) none zillow = from_zillow zillow
  build_opex_property_taxes none price zillow = from_zillow zillow

  abbrev pub derived : PreparedOpex D → Option (PropertyTaxes D) → Columns D
  derived opex property_taxes =
      ("cleaning", product opex.fee opex.num_of_turns)
      ∷ ("pool_hot_tub", opex.low)
      ∷ ("property_taxes", monthly_of property_taxes)
      ∷ []

  -- The defaults below the market's columns, and the derived rows above them.
  unfoldable pub resolve_opex_amounts : PreparedOpex D → Option (PropertyTaxes D) → Columns D
  resolve_opex_amounts opex property_taxes =
      merge (merge opex_row_defaults opex.absolute) (derived opex property_taxes)

  unfoldable pub build_opex_options :
      Option (Columns D) → Option (Columns D) → Option D → List (OpexOption D)
  build_opex_options opex_by_bedrooms opex_by_size purchase_price =
      let opex = transform_opex_costs opex_by_bedrooms opex_by_size in
      let property_taxes = build_opex_property_taxes opex.property_tax_pct purchase_price none in
      option_rows opex (resolve_opex_amounts opex property_taxes) opex_rows

  unfoldable pub build_opex_expense_rows :
      (String → String) → PreparedOpex D → Option (PropertyTaxes D) → List (ExpenseRow D)
  build_opex_expense_rows title opex property_taxes =
      seeded (resolve_opex_amounts opex property_taxes) opex_rows ++ unplaced title opex.absolute
