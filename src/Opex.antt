-- ===== src/Opex.antt =====
-- The operating-expense catalog (app/iron_bank/services/engine/opex_catalog.py). A market's row is a
-- dict from column names to figures. Decimal arithmetic and Python's `str.title` are parameters.
pub mod Amounts
pub mod Columns
pub mod Rows
pub mod Updates
use Prim.Native.Char.{code}
use Prim.Native.String.{◌++◌ as concat}
use adus_be.Prelude.{
  ℕ, Bool, true, false, ◌||◌, ◌&&◌, not, Option, none, some, is_none, is_some, List, [], ◌∷◌, ◌++◌,
  map, String, str_eq, ◌==◌, contains, lookup, insert, merge, filter, if◌then◌else◌,
}

-- METADATA_FIELDS, CLEANING_FIELDS, RANGED_FIELDS, CONFIG_FIELDS, AMENITY_FIELDS and
-- PCT_OF_PURCHASE_FIELDS
abbrev pub excluded_from_absolute : List String
excluded_from_absolute =
    "id" ∷ "market_id" ∷ "market_slug" ∷ "bedrooms" ∷ "sqft" ∷ "cleaning_fee" ∷ "num_of_turns"
    ∷ "pool_hot_tub_low" ∷ "pool_hot_tub_high" ∷ "pool_and_hot_tub" ∷ "furnishings_low"
    ∷ "furnishings_mid" ∷ "furnishings_high" ∷ "land_value" ∷ "appreciation"
    ∷ "consolidated_shipping" ∷ "property_taxes" ∷ []

-- OPEX_ROWS
abbrev pub opex_rows : List (String × String)
opex_rows =
    ("internet", "Internet")
    ∷ ("utilities", "Utilities")
    ∷ ("pest_control", "Pest Control")
    ∷ ("pool_hot_tub", "Pool/Hot Tub Maintenance")
    ∷ ("outdoor_landscaping", "Outdoor/Landscaping")
    ∷ ("software", "Software")
    ∷ ("supplies", "Household Supplies")
    ∷ ("cleaning", "Cleaning")
    ∷ ("property_taxes", "Property Taxes (Monthly)")
    ∷ ("insurance_hoi", "Insurance HOI")
    ∷ ("capex_reserve", "CapEx Reserve")
    ∷ ("misc", "MISC")
    ∷ ("hoa_fees", "HOA Fees")
    ∷ ("project_loan", "Project Loan")
    ∷ []

-- enums.py
pub data OpexKeyedOn : Type 0 where
  bedrooms size unsourced : OpexKeyedOn

unfoldable pub keyed_on : String → OpexKeyedOn
keyed_on key =
    if contains key ("internet" ∷ "pest_control" ∷ "utilities" ∷ [])
    then size
    else if contains key ("misc" ∷ "project_loan" ∷ [])
    then unsourced
    else bedrooms

abbrev pub flatten {ℓ} : {A : Type ℓ} → Option (Option A) → Option A
flatten none = none
flatten (some a) = a

-- `value.replace("_", " ")`
abbrev pub without_underscores : String → String
without_underscores String.[] = String.[]
without_underscores (String.◌∷◌ c s) =
    let rest = without_underscores s in if code c == 95 then concat " " rest else String.◌∷◌ c rest

unfoldable pub humanize_expense_name : (String → String) → String → String
humanize_expense_name title value = title (without_underscores value)

pub data TaxSource : Type 0 where
  opex_property_tax_pct zillow_annual_tax : TaxSource

-- The arithmetic that is used: `Decimal("0")`, a product, rounding to cents, and a division by 12.
pub record Arithmetic (D : Type 0) : Type 0 where
  pub nought : D
  pub times : D → D → D
  pub money : D → D
  pub twelfth : D → D

-- the ledger row that keeps its label: the first
unfoldable pub by_name : String → List (ℕ × Option String) → Option ℕ
by_name label [] = none
by_name label ((i, none) ∷ rest) = by_name label rest
by_name label ((i, some name) ∷ rest) = if str_eq name label then some i else by_name label rest

module _ (D : Type 0) where
  -- `model_dump()` of an opex row; a column that holds no figure is none here
  abbrev pub Columns : Type 0
  Columns = List (String × Option D)

  pub record PreparedOpex : Type 0 where
    pub fee : Option D
    pub num_of_turns : Option D
    pub low : Option D
    pub high : Option D
    pub pool_and_hot_tub : Option D
    pub absolute : Columns
    pub property_tax_pct : Option D

  pub record CleaningCost : Type 0 where
    pub cost_per_clean : Option D
    pub turns_per_month : Option D
    pub monthly_cleaning_cost : Option D

  pub record PropertyTaxes : Type 0 where
    pub source : TaxSource
    pub annual_amount : D
    pub monthly_amount : D
    pub inputs : Option (D × D)

  pub record ExpenseRow : Type 0 where
    pub expense : String
    pub monthly : Option D

  pub record OpexOptionInputs : Type 0 where
    pub cost_per_clean : Option D
    pub turns_per_month : Option D
    pub low : Option D
    pub high : Option D
    pub pool_and_hot_tub : Option D
    pub pct : Option D

  pub record OpexOption : Type 0 where
    pub key : String
    pub expense_name : String
    pub monthly_amount : Option D
    pub keyed_on : OpexKeyedOn
    pub inputs : Option OpexOptionInputs

  -- a row of the underwriting's own ledger; `id` is none for a row to insert
  pub record OperatingExpense : Type 0 where
    pub id : Option ℕ
    pub expense_name : String
    pub monthly_amount : D

module _ {D : Type 0} where
  abbrev pub columns_of : Option (Columns D) → Columns D
  columns_of none = []
  columns_of (some row) = row

  abbrev pub column : String → Columns D → Option D
  column k row = flatten (lookup k row)

  abbrev pub is_absolute : String × Option D → Bool
  is_absolute (k, v) = not (contains k excluded_from_absolute)

  unfoldable pub transform_opex_costs : Option (Columns D) → Option (Columns D) → PreparedOpex D
  transform_opex_costs opex_by_bedrooms opex_by_size =
      let bedrooms_data = columns_of opex_by_bedrooms in
      let size_data = columns_of opex_by_size in
      record {
        fee = column "cleaning_fee" bedrooms_data;
        num_of_turns = column "num_of_turns" bedrooms_data;
        low = column "pool_hot_tub_low" bedrooms_data;
        high = column "pool_hot_tub_high" bedrooms_data;
        pool_and_hot_tub = column "pool_and_hot_tub" bedrooms_data;
        absolute = filter is_absolute (merge bedrooms_data size_data);
        property_tax_pct = column "property_taxes" bedrooms_data;
      }

  unfoldable pub row_inputs : String → PreparedOpex D → Option (OpexOptionInputs D)
  row_inputs key opex =
      if str_eq key "cleaning"
      then some (record {
        cost_per_clean = opex.fee;
        turns_per_month = opex.num_of_turns;
        low = none;
        high = none;
        pool_and_hot_tub = none;
        pct = none;
      })
      else if str_eq key "pool_hot_tub"
      then some (record {
        cost_per_clean = none;
        turns_per_month = none;
        low = opex.low;
        high = opex.high;
        pool_and_hot_tub = opex.pool_and_hot_tub;
        pct = none;
      })
      else if str_eq key "property_taxes"
      then some (record {
        cost_per_clean = none;
        turns_per_month = none;
        low = none;
        high = none;
        pool_and_hot_tub = none;
        pct = opex.property_tax_pct;
      })
      else none

  abbrev pub monthly_of : Option (PropertyTaxes D) → Option D
  monthly_of none = none
  monthly_of (some t) = some t.monthly_amount

  -- an option with no figure is dropped
  abbrev pub with_update :
      OpexOption D
      → List (ℕ × Option String)
      → Option D
      → List (OperatingExpense D)
      → List (OperatingExpense D)
  with_update o existing none rest = rest
  with_update o existing (some amount) rest =
      record {
        id = by_name o.expense_name existing;
        expense_name = o.expense_name;
        monthly_amount = amount;
      }
      ∷ rest

  unfoldable pub resolve_opex_updates :
      List (OpexOption D) → List (ℕ × Option String) → List (OperatingExpense D)
  resolve_opex_updates [] existing = []
  resolve_opex_updates (o ∷ options) existing =
      with_update o existing o.monthly_amount (resolve_opex_updates options existing)

  abbrev pub seeded : Columns D → List (String × String) → List (ExpenseRow D)
  seeded amounts [] = []
  seeded amounts ((key, label) ∷ rows) =
      record { expense = label; monthly = column key amounts } ∷ seeded amounts rows

  abbrev pub option_rows : PreparedOpex D → Columns D → List (String × String) → List (OpexOption D)
  option_rows opex amounts [] = []
  option_rows opex amounts ((key, label) ∷ rows) =
      record {
        key = key;
        expense_name = label;
        monthly_amount = column key amounts;
        keyed_on = keyed_on key;
        inputs = row_inputs key opex;
      }
      ∷ option_rows opex amounts rows

  -- columns that have a figure and no canonical row
  unfoldable pub unplaced : (String → String) → Columns D → List (ExpenseRow D)
  unplaced title [] = []
  unplaced title ((name, none) ∷ rest) = unplaced title rest
  unplaced title ((name, some amount) ∷ rest) =
      let later = unplaced title rest in
      if contains name (map (λ (r : String × String). r.0) opex_rows)
      then later
      else record { expense = humanize_expense_name title name; monthly = some amount } ∷ later
