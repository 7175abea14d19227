-- ===== src/Simulation/Requests.antt =====
-- A whole request for the simulated list
-- (app/iron_bank/services/operations/simulate_underwritings_service.py, `get_all_simulated`).
use mathlib.Core.Path.{ap₂}
use adus_be.Prelude.{
  ℕ, ◌≡◌, refl, ◌∙◌, Bool-cases, ◌⊎◌, inl, inr, Option, none, List, [], ◌∷◌, map, Result, ok, err,
  filter, any, find-any, ==_iff, traverse,
}
use adus_be.Calculator.{Failure, arithmetic_error, Decimals, Validation}
use adus_be.Simulation.{SimulationInput, SimulatedRow, simulate_row}
use adus_be.Simulation.Listing.{
  Bounds, Query, Hydrated, Encoder, has_id, overlay_simulated, overlay_page, page_ids,
}

module _ {D : Type 0} (num : Decimals D) (validate : Validation D) where
  module _ (rate pct : Option D) where
    abbrev simulate_all : List (SimulationInput D) → Result Failure (List (SimulatedRow D))
    simulate_all = traverse λ row. simulate_row num validate row rate pct

-- no bound on any of the five figures
abbrev pub HasNoBounds : {D : Type 0} → Query D → Type 0
HasNoBounds q =
    IsOpen q.total_oop
    × IsOpen q.budget_to_pp
    × IsOpen q.l_cash_on_cash
    × IsOpen q.m_cash_on_cash
    × IsOpen q.h_cash_on_cash
  where
    IsOpen : {D : Type 0} → Bounds D → Type 0
    IsOpen b = (b.minimum ≡ none) × (b.maximum ≡ none)

module _ {D E R X : Type 0} (num : Decimals D) (validate : Validation D)
    (encoder : Encoder D E) where
  -- what makes a request fail: the arithmetic, or the loading of the page that it sorted
  abbrev pub MayRaise :
      List (SimulationInput D)
      → (List ℕ → Result X (List (Hydrated D E R)))
      → Query D
      → Failure ⊎ X
      → Type 0
  MayRaise inputs load q (inl failure) = failure ≡ arithmetic_error
  MayRaise inputs load q (inr raised) =
      (rows : List (SimulatedRow D)) × (simulate_all num validate q.interest_rate q.down_payment_pct
          inputs
        ≡ ok rows)
      × (load (page_ids num q rows) ≡ err raised)

module _ {D E R : Type 0} (encoder : Encoder D E) where
  overlay_simulated-id :
      (item : Hydrated D E R) (row : SimulatedRow D)
      → Hydrated.id (overlay_simulated encoder item row) ≡ item.id
  unfolding overlay_simulated
  overlay_simulated-id item row = elim (Bool-cases row.simulated) [
    | inl h ↦ rw h refl
    | inr h ↦ rw h refl
  ]

  abbrev pub ids_of : List (Hydrated D E R) → List ℕ
  ids_of = map λ item. Hydrated.id item

  -- The page shows the rows that the database still has, in the order of the page.
  pub overlay_page-ids :
      (items : List (Hydrated D E R)) (rows : List (SimulatedRow D))
      → ids_of (overlay_page encoder items rows)
        ≡ filter (λ n. any (has_id n) items) (map (λ row. SimulatedRow.id row) rows)
  unfolding overlay_page
  overlay_page-ids items [] = refl
  overlay_page-ids items (row ∷ rows) = elim (find-any (has_id row.id) items) [
    | inl (missing, absent) ↦ rw (missing, absent) (overlay_page-ids items rows)
    | inr (item, found, present, same) ↦
        rw (found, present)
          (ap₂ (λ n ns. n ∷ ns) (overlay_simulated-id item row ∙ (==_iff item.id row.id).0 same)
            (overlay_page-ids items rows))
  ]
