-- ===== src/Examples/Opex.antt =====
-- The expense catalog and child rows at concrete inputs; the figures are whole cents.
use adus_be.Prelude.{
  ℕ, ◌*◌, ◌/◌, ◌≡◌, refl, none, some, List, [], ◌∷◌, ◌++◌, map, filter, String, contains, lookup,
  stable_sort, place,
}
use adus_be.Opex.{Arithmetic, Columns, PreparedOpex, opex_rows, transform_opex_costs, unplaced}
use adus_be.Opex.{OpexOption, OperatingExpense, bedrooms, by_name, resolve_opex_updates}
use adus_be.Opex.Updates.{IsBacked, resolve_opex_updates-Listed}
use adus_be.Opex.Amounts.{build_opex_property_taxes, build_opex_options, build_opex_expense_rows}
use adus_be.Opex.Rows.{
  here, Listed, here, label_in, label_of, as_row, build_opex_expense_rows-build_opex_options,
  build_opex_expense_rows-Listed,
}
use adus_be.ChildRows.{
  Row, Item, has_id, collection, write_all, upsert_children, touched, inserted, upsert_children_lem,
}

abbrev cents : Arithmetic ℕ
cents = record { nought = 0; times = λ a b. a * b; money = λ a. a; twelfth = λ a. a / 12 }

abbrev same_text : String → String
same_text s = s

abbrev by_bedrooms : Columns ℕ
by_bedrooms =
    ("cleaning_fee", some 100)
    ∷ ("num_of_turns", some 4)
    ∷ ("software", some 30)
    ∷ ("snow_removal", some 20)
    ∷ ("utilities", some 1)
    ∷ []

abbrev by_size : Columns ℕ
by_size = ("internet", some 60) ∷ ("utilities", some 200) ∷ []

abbrev prepared : PreparedOpex ℕ
prepared = record {
  fee = some 100;
  num_of_turns = some 4;
  low = none;
  high = none;
  pool_and_hot_tub = none;
  absolute = ("software", some 30) ∷ ("snow_removal", some 20) ∷ [];
  property_tax_pct = none;
}

build_opex_expense_rows-build_opex_options_example :
    build_opex_expense_rows cents same_text
      (transform_opex_costs (some by_bedrooms) (some by_size))
      (build_opex_property_taxes cents
        (transform_opex_costs (some by_bedrooms) (some by_size)).property_tax_pct
        (some 900)
        none)
    ≡ map as_row (build_opex_options cents (some by_bedrooms) (some by_size) (some 900))
      ++ unplaced same_text (transform_opex_costs (some by_bedrooms) (some by_size)).absolute
build_opex_expense_rows-build_opex_options_example =
    build_opex_expense_rows-build_opex_options cents same_text (some by_bedrooms) (some by_size)
      (some 900)

build_opex_expense_rows-Listed_example :
    Listed
      (record {
        expense = label_of same_text "snow_removal" (label_in "snow_removal" opex_rows);
        monthly = some 20;
      })
      (build_opex_expense_rows cents same_text prepared none)
unfolding lookup contains
build_opex_expense_rows-Listed_example =
    build_opex_expense_rows-Listed cents same_text prepared none "snow_removal" 20
      (refl, (refl, tt)) refl refl

abbrev ledger : List (Row ℕ)
ledger =
    record { id = 4; sort_order = 0; fields = 10 }
    ∷ record { id = 6; sort_order = 1; fields = 20 }
    ∷ []

abbrev payload : List (Item ℕ)
payload =
    record { id = some 6; fields = 25 }
    ∷ record { id = some 99; fields = 5 }
    ∷ record { id = none; fields = 7 }
    ∷ []

-- the item with the id of somebody else's row is inserted
upserted : upsert_children (λ f r. f) (λ f. f) ledger payload 11 ≡ (
  record { id = 6; sort_order = 0; fields = 25 }
      ∷ record { id = 11; sort_order = 1; fields = 5 }
      ∷ record { id = 12; sort_order = 2; fields = 7 }
      ∷ [],
  13,
)
unfolding upsert_children write_all
upserted = refl

abbrev swapped : List (Item ℕ)
swapped = record { id = some 6; fields = 25 } ∷ record { id = some 4; fields = 15 } ∷ []

-- rows that the payload swaps are read in the payload's order
read_swapped :
    collection (upsert_children (λ f r. f) (λ f. f) ledger swapped 11).0
    ≡ record { id = 6; sort_order = 0; fields = 25 }
      ∷ record { id = 4; sort_order = 1; fields = 15 }
      ∷ []
unfolding upsert_children write_all collection stable_sort place
read_swapped = refl

upsert_children_lem_example : upsert_children (λ f r. f) (λ f. f) ledger payload 11 ≡ (
  filter (λ r. has_id (Row.id r) (6 ∷ [])) (map (touched (λ f r. f) (λ f. f) 0 payload) ledger)
      ++ inserted (λ f r. f) (λ f. f) (4 ∷ 6 ∷ []) 0 11 payload,
  13,
)
upsert_children_lem_example = upsert_children_lem (λ f r. f) (λ f. f) ledger payload 11

abbrev software : OpexOption ℕ
software = record {
  key = "software";
  expense_name = "Software";
  monthly_amount = some 30;
  keyed_on = bedrooms;
  inputs = none;
}

abbrev software_row : OperatingExpense ℕ
software_row = record { id = some 6; expense_name = "Software"; monthly_amount = 30 }

resolve_opex_updates-Listed_example :
    IsBacked
      (software ∷ [])
      ((5, none) ∷ (6, some "Software") ∷ (7, some "Software") ∷ [])
      software_row
unfolding resolve_opex_updates by_name
resolve_opex_updates-Listed_example =
    resolve_opex_updates-Listed (software ∷ [])
      ((5, none) ∷ (6, some "Software") ∷ (7, some "Software") ∷ []) software_row here
