-- ===== src/Examples/Updated.antt =====
-- An update at a concrete input: the purchase is sent again, the project loan is not.
use adus_be.Prelude.{
  ℕ, ◌*◌, ◌≡◌, refl, Option, none, some, [], ◌∷◌, str_eq, lookup, if◌then◌else◌, pos, ok,
}
use adus_be.Json.{int, float}
use adus_be.Calculator.{ProjectLoanInput, ProjectLoan, Value, figure, json, Dict, Validation}
use adus_be.Calculator.Loans.{pmt, calculate_project_loan, project_loan_dict, project_loan_amount}
use adus_be.Saving.Updates.{
  Existing, with_details, with_loan, updated_columns, updated_columns-with_loan,
}
use adus_be.Examples.Figures.{unit, fixed, purchase, validation}
use adus_be.Examples.Saved.{no_readers, details_input, payload}

abbrev terms : ProjectLoanInput ℕ
terms = record {
  loan_amount = some (20 * unit);
  interest_rate = some 0;
  terms_years = some (pos 1);
}

loan : (l : ProjectLoan ℕ) × (calculate_project_loan fixed terms ≡ ok l)
unfolding calculate_project_loan pmt
loan = (_, refl)

-- a loan amount that was stored as a number, or one that still is a Decimal
abbrev stored_amount : Option (Value ℕ) → Option ℕ
stored_amount (some (figure x)) = some x
stored_amount (some (json (float text))) = if str_eq text "20.0" then some (20 * unit) else none
stored_amount _ = none

abbrev reading : Validation ℕ
reading = record {
  purchase_details = validation.purchase_details;
  forecasted_revenue = validation.forecasted_revenue;
  project_loan = λ stored. ok (record {
    loan_amount = stored_amount (lookup "loan_amount" stored);
    interest_rate = none;
    terms_years = none;
  });
}

-- the row's loan, as JSON has it
abbrev held : Dict ℕ
held =
    ("loan_amount", json (float "20.0"))
    ∷ ("interest_rate", json (float "0.0"))
    ∷ ("terms_years", json (int 1))
    ∷ ("monthly_amount", json (float "1.67"))
    ∷ []

reads_same :
    project_loan_amount fixed reading (some held)
    ≡ project_loan_amount fixed reading (some (project_loan_dict fixed loan.0))
unfolding project_loan_amount lookup loan
reads_same = refl

abbrev existing : Existing ℕ
existing = record {
  market_id = none;
  zpid = none;
  bedrooms = some 3;
  zillow_bedrooms = none;
  opex_project_loan = some held;
}

updated_columns-with_loan_example :
    updated_columns fixed reading no_readers
      (with_details (with_loan none details_input) payload)
      (some existing)
    ≡ updated_columns fixed reading no_readers
        (with_details (with_loan (some terms) details_input) payload)
        (some existing)
updated_columns-with_loan_example =
    updated_columns-with_loan fixed reading no_readers payload details_input purchase existing held
      terms loan.0 refl loan.1 refl reads_same
