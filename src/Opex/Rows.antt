-- ===== src/Opex/Rows.antt =====
-- The rows an underwriting is seeded with and the rows the read paths serve
-- (app/iron_bank/services/engine/opex_catalog.py).
use mathlib.Core.Path.{subst}
use adus_be.Prelude.{
  ◌≡◌, refl, sym, ap, ◌∙◌, false, Option, none, some, List, [], ◌∷◌, ◌++◌, map, String, str_eq,
  contains, lookup, HasDistinctKeys, if◌then◌else◌, Bool-cases, Option-cases, inl, inr, eq_iff,
  arith,
}
use adus_be.Opex.{
  flatten, opex_rows, Arithmetic, Columns, PreparedOpex, PropertyTaxes, ExpenseRow, OpexOption,
  column, transform_opex_costs, seeded, option_rows, humanize_expense_name, unplaced,
}
use adus_be.Opex.Amounts.{
  build_opex_property_taxes, resolve_opex_amounts, build_opex_options, build_opex_expense_rows,
}
use adus_be.Opex.Columns.{resolve_opex_amounts_lem}

-- an element of a list
pub data Listed {ℓ} {A : Type ℓ} (a : A) : List A → Type ℓ where
  here : {l : List A} → Listed a (a ∷ l)
  there : {b : A} {l : List A} → Listed a l → Listed a (b ∷ l)

Listed-left {ℓ} : {A : Type ℓ} {a : A} {k : List A} (l : List A) → Listed a k → Listed a (k ++ l)
Listed-left l here = here
Listed-left l (there i) = there (Listed-left l i)

Listed-right {ℓ} : {A : Type ℓ} {a : A} (k : List A) {l : List A} → Listed a l → Listed a (k ++ l)
Listed-right [] i = i
Listed-right (b ∷ k) i = there (Listed-right k i)

-- the canonical label of a column, if it has one
pub label_in : String → List (String × String) → Option String
label_in name [] = none
label_in name ((key, label) ∷ rows) = if str_eq key name then some label else label_in name rows

abbrev pub label_of : (String → String) → String → Option String → String
label_of title name none = humanize_expense_name title name
label_of title name (some label) = label

-- a column with no label is not among the canonical keys
label_in-absent :
    (name : String) (rows : List (String × String))
    → label_in name rows ≡ none
    → contains name (map (λ r. r.0) rows) ≡ false
unfolding label_in contains
label_in-absent name [] h = refl
label_in-absent name ((key, label) ∷ rows) h = ground (arith, label_in-absent name rows)

module _ {D : Type 0} where
  abbrev pub as_row : OpexOption D → ExpenseRow D
  as_row o = record { expense = o.expense_name; monthly = o.monthly_amount }

module _ {D : Type 0} (decimal : Arithmetic D) (title : String → String) where
  seeded-option_rows :
      (opex : PreparedOpex D) (amounts : Columns D) (rows : List (String × String))
      → seeded amounts rows ≡ map as_row (option_rows opex amounts rows)
  seeded-option_rows opex amounts [] = refl
  seeded-option_rows opex amounts ((key, label) ∷ rows) =
      ap (λ r. record { expense = label; monthly = column key amounts } ∷ r)
        (seeded-option_rows opex amounts rows)

  -- For one market and one price, a new underwriting is seeded with exactly the rows and amounts
  -- that the read paths serve, in the same order, and after them with the columns that have no
  -- canonical row.
  pub build_opex_expense_rows-build_opex_options :
      (by_bedrooms by_size : Option (Columns D)) (price : Option D)
      → build_opex_expense_rows decimal title (transform_opex_costs by_bedrooms by_size) (
          build_opex_property_taxes decimal
            (transform_opex_costs by_bedrooms by_size).property_tax_pct
            price
            none)
        ≡ map as_row (build_opex_options decimal by_bedrooms by_size price)
          ++ unplaced title (transform_opex_costs by_bedrooms by_size).absolute
  unfolding build_opex_expense_rows build_opex_options
  build_opex_expense_rows-build_opex_options by_bedrooms by_size price =
      ap (λ r. r ++ unplaced title (transform_opex_costs by_bedrooms by_size).absolute)
        (seeded-option_rows (transform_opex_costs by_bedrooms by_size) _ opex_rows)

  Listed-seeded :
      (name label : String) (amounts : Columns D) (rows : List (String × String))
      → label_in name rows ≡ some label
      → Listed (record { expense = label; monthly = column name amounts }) (seeded amounts rows)
  unfolding label_in
  Listed-seeded name label amounts [] h = cc
  Listed-seeded name label amounts ((key, other) ∷ rows) h = elim (Bool-cases (str_eq key name)) [
    | inl e ↦
        let same : label ≡ other = ground arith in
        let row : ◌≡◌ {A = ExpenseRow D} (record { expense = label; monthly = column name amounts })
            (record { expense = other; monthly = column key amounts }) =
          cc ((eq_iff key name).0 e, same) in
        subst (λ r. Listed r (seeded amounts ((key, other) ∷ rows))) (sym row) here
    | inr e ↦ there (Listed-seeded name label amounts rows (ground arith))
  ]

  Listed-unplaced :
      (name : String) (amount : D) (absolute : Columns D)
      → label_in name opex_rows ≡ none
      → lookup name absolute ≡ some (some amount)
      → Listed
          (record { expense = humanize_expense_name title name; monthly = some amount })
          (unplaced title absolute)
  unfolding unplaced lookup
  Listed-unplaced name amount [] n h = cc
  Listed-unplaced name amount ((k, none) ∷ rest) n h =
      Listed-unplaced name amount rest n (ground arith)
  Listed-unplaced name amount ((k, some a) ∷ rest) n h = elim (Bool-cases (str_eq k name)) [
    | inl e ↦
        let same : a ≡ amount = ground arith in
        let out : contains k (map (λ (r : String × String). r.0) opex_rows) ≡ false =
          subst (λ x. contains x (map (λ (r : String × String). r.0) opex_rows) ≡ false)
            (sym ((eq_iff k name).0 e)) (label_in-absent name opex_rows n) in
        let row : ◌≡◌ {A = ExpenseRow D}
            (record { expense = humanize_expense_name title k; monthly = some a })
            (record { expense = humanize_expense_name title name; monthly = some amount }) =
          cc ((eq_iff k name).0 e, same) in
        rw out (
          subst
            (λ r. Listed r (
              record { expense = humanize_expense_name title k; monthly = some a }
              ∷ unplaced title rest))
            row here)
    | inr e ↦
        let later = Listed-unplaced name amount rest n (ground arith) in
        elim (Bool-cases (contains k (map (λ (r : String × String). r.0) opex_rows))) [
          | inl c ↦ rw c later
          | inr c ↦ rw c (there later)
        ]
  ]

  column-resolve_opex_amounts :
      (opex : PreparedOpex D) (taxes : Option (PropertyTaxes D)) (name : String) (amount : D)
      → HasDistinctKeys opex.absolute
      → contains name ("cleaning" ∷ "pool_hot_tub" ∷ "property_taxes" ∷ []) ≡ false
      → lookup name opex.absolute ≡ some (some amount)
      → column name (resolve_opex_amounts decimal opex taxes) ≡ some amount
  unfolding contains
  column-resolve_opex_amounts opex taxes name amount d own h =
      let a : str_eq "cleaning" name ≡ false = ground arith in
      let b : str_eq "pool_hot_tub" name ≡ false = ground arith in
      let c : str_eq "property_taxes" name ≡ false = ground arith in
      ap flatten (resolve_opex_amounts_lem decimal opex taxes name d)
      ∙ rw a (rw b (rw c (rw h refl)))

  -- A column of `opex.absolute` with an amount, other than the three names that are derived, has a row with that amount among the seeded ones, under its canonical label if it has
  -- one and under its own name otherwise.
  pub build_opex_expense_rows-Listed :
      (opex : PreparedOpex D) (taxes : Option (PropertyTaxes D)) (name : String) (amount : D)
      → HasDistinctKeys opex.absolute
      → contains name ("cleaning" ∷ "pool_hot_tub" ∷ "property_taxes" ∷ []) ≡ false
      → lookup name opex.absolute ≡ some (some amount)
      → Listed
          (record {
            expense = label_of title name (label_in name opex_rows);
            monthly = some amount;
          })
          (build_opex_expense_rows decimal title opex taxes)
  unfolding build_opex_expense_rows
  build_opex_expense_rows-Listed opex taxes name amount d own h =
      elim (Option-cases (label_in name opex_rows)) [
        | inl e ↦ rw e (
            Listed-right (seeded (resolve_opex_amounts decimal opex taxes) opex_rows)
              (Listed-unplaced name amount opex.absolute e h))
        | inr (label, e) ↦
            let amounts = resolve_opex_amounts decimal opex taxes in
            let i = Listed-seeded name label amounts opex_rows e in
            let c = column-resolve_opex_amounts opex taxes name amount d own h in
            let row : ◌≡◌ {A = ExpenseRow D}
                (record { expense = label; monthly = column name amounts })
                (record { expense = label; monthly = some amount }) =
              cc c in
            rw e (
              Listed-left (unplaced title opex.absolute)
                (subst (λ r. Listed r (seeded amounts opex_rows)) row i))
      ]
