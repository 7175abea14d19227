-- ===== src/Opex/Updates.antt =====
-- The catalog's figures and the rows of a deal's own ledger (resolve_opex_updates of
-- app/iron_bank/services/engine/opex_catalog.py).
use mathlib.Core.Path.{subst}
use adus_be.Prelude.{
  sym, ℕ, ◌≡◌, refl, Bool, false, Option, none, some, List, [], ◌∷◌, String, str_eq, eq_iff, any,
  Bool-cases, Option-cases, inl, inr, arith,
}
use adus_be.Opex.{OpexOption, OperatingExpense, by_name, with_update, resolve_opex_updates}
use adus_be.Opex.Rows.{Listed, here, there}

abbrev pub is_named : String → ℕ × Option String → Bool
is_named label (i, none) = false
is_named label (i, some name) = str_eq name label

-- the id, or its absence, that a label has in a ledger
abbrev pub IsIdOf : Option ℕ → String → List (ℕ × Option String) → Type 0
IsIdOf none label ledger = any (is_named label) ledger ≡ false
IsIdOf (some i) label ledger = Listed (i, some label) ledger

by_name-absent :
    (label : String) (ledger : List (ℕ × Option String))
    → by_name label ledger ≡ none
    → any (is_named label) ledger ≡ false
unfolding by_name
by_name-absent label [] h = refl
by_name-absent label ((i, none) ∷ ledger) h = by_name-absent label ledger h
by_name-absent label ((i, some name) ∷ ledger) h = ground (arith, by_name-absent label ledger)

by_name-Listed :
    (label : String) (ledger : List (ℕ × Option String)) (i : ℕ)
    → by_name label ledger ≡ some i
    → Listed (i, some label) ledger
unfolding by_name
by_name-Listed label [] i h = cc
by_name-Listed label ((j, none) ∷ ledger) i h = there (by_name-Listed label ledger i h)
by_name-Listed label ((j, some name) ∷ ledger) i h = elim (Bool-cases (str_eq name label)) [
  | inl e ↦
      let same : j ≡ i = ground arith in
      let row : ◌≡◌ {A = ℕ × Option String} (j, some name) (i, some label) =
        cc (same, (eq_iff name label).0 e) in
      subst (λ r. Listed r ((j, some name) ∷ ledger)) row here
  | inr e ↦ there (by_name-Listed label ledger i (ground arith))
]

by_name-IsIdOf :
    (label : String) (ledger : List (ℕ × Option String))
    → IsIdOf (by_name label ledger) label ledger
by_name-IsIdOf label ledger = elim (Option-cases (by_name label ledger)) [
  | inl e ↦ subst (λ o. IsIdOf o label ledger) (sym e) (by_name-absent label ledger e)
  | inr (i, e) ↦ subst (λ o. IsIdOf o label ledger) (sym e) (by_name-Listed label ledger i e)
]

module _ {D : Type 0} where
  -- Where a row to write comes from.
  pub record IsBacked (options : List (OpexOption D)) (ledger : List (ℕ × Option String))
      (row : OperatingExpense D) : Type 0 where
    pub option : OpexOption D
    pub offered : Listed option options
    pub amount : option.monthly_amount ≡ some row.monthly_amount
    pub label : option.expense_name ≡ row.expense_name
    pub id : IsIdOf row.id row.expense_name ledger

  back :
      (o : OpexOption D) (options : List (OpexOption D)) (ledger : List (ℕ × Option String))
      (row : OperatingExpense D)
      → IsBacked options ledger row
      → IsBacked (o ∷ options) ledger row
  back o options ledger row b = record {
    option = b.option;
    offered = there b.offered;
    amount = b.amount;
    label = b.label;
    id = b.id;
  }

  with_update-Listed :
      (o : OpexOption D) (options : List (OpexOption D)) (ledger : List (ℕ × Option String))
      (row : OperatingExpense D) (m : Option D)
      → o.monthly_amount ≡ m
      → (Listed row (resolve_opex_updates options ledger) → IsBacked options ledger row)
      → Listed row (with_update o ledger m (resolve_opex_updates options ledger))
      → IsBacked (o ∷ options) ledger row
  with_update-Listed o options ledger row none e rest i = back o options ledger row (rest i)
  with_update-Listed o options ledger row (some a) e rest here = record {
    option = o;
    offered = here;
    amount = e;
    label = refl;
    id = by_name-IsIdOf o.expense_name ledger;
  }
  with_update-Listed o options ledger row (some a) e rest (there i) =
      back o options ledger row (rest i)

  -- Every row that is to be written comes from an option with that label and that amount; an id that
  -- it carries is that of a ledger row with that label, and it carries none only where no ledger row
  -- has that label.
  pub resolve_opex_updates-Listed :
      (options : List (OpexOption D)) (ledger : List (ℕ × Option String)) (row : OperatingExpense D)
      → Listed row (resolve_opex_updates options ledger)
      → IsBacked options ledger row
  unfolding resolve_opex_updates
  resolve_opex_updates-Listed [] ledger row i = elim i [ ]
  resolve_opex_updates-Listed (o ∷ options) ledger row i =
      with_update-Listed o options ledger row o.monthly_amount refl
        (λ j. resolve_opex_updates-Listed options ledger row j) i
