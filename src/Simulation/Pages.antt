-- ===== src/Simulation/Pages.antt =====
-- The pages of the simulated list
-- (app/iron_bank/services/operations/simulate_underwritings_service.py).
use native.Mathlib.Nat.{div-mul-le_self, lt-div-mul-add, mul-le-mul_right}
use adus_be.Prelude.{
  ℕ, zero, suc, ◌+◌, ◌-◌, ◌*◌, ◌/◌, ◌≤◌, ◌<◌, ◌≡◌, sym, ap, ◌∙◌, arith, List, [], ◌++◌, length,
  take, drop, slice, length-take, length-drop, take-slice, take_all,
}
use adus_be.Simulation.Listing.{page_count, page_rows}

module _ {ℓ} {A : Type ℓ} where
  -- the pages 1 to n, one after the other
  unfoldable pub first_pages : ℕ → ℕ → List A → List A
  first_pages zero page_size rows = []
  first_pages (suc n) page_size rows =
      first_pages n page_size rows ++ page_rows (suc n) page_size rows

  first_pages-take :
      (n page_size : ℕ) (rows : List A) → first_pages n page_size rows ≡ take (n * page_size) rows
  unfolding first_pages take
  first_pages-take zero page_size rows =
      let none_yet : 0 ≡ 0 * page_size = omega arith in ap (λ k. take k rows) none_yet
  first_pages-take (suc n) page_size rows =
      let start : suc n - 1 ≡ n = omega arith in
      ap (λ front. front ++ page_rows (suc n) page_size rows) (first_pages-take n page_size rows)
      ∙ ap (λ k. take (n * page_size) rows ++ slice (k * page_size) (suc n * page_size) rows) start
      ∙ sym (take-slice (n * page_size) (suc n * page_size) rows (omega arith))

page_step : (p s : ℕ) → ((suc p - 1) * s ≡ p * s) × (suc p * s ≡ p * s + s)
page_step p s = (ap (λ k. k * s) (omega arith), omega arith)

quotient_above : (total s : ℕ) → 1 ≤ s → total ≤ (total + (s - 1)) / s * s
quotient_above total s h = omega (arith, lt-div-mul-add {a = total + (s - 1)} {b = s} h)

-- As many pages as it takes.
page_count-mul :
    (total page_size : ℕ) → 1 ≤ page_size → total ≤ page_count total page_size * page_size
unfolding page_count
page_count-mul total page_size h = ground (arith, quotient_above total page_size h)

quotient_below : (total s p : ℕ) → 1 ≤ s → suc p ≤ (total + (s - 1)) / s → p * s < total
quotient_below total s p h below =
    omega (arith, div-mul-le_self (total + (s - 1)) s, mul-le-mul_right s below)

-- And no more.
page_count_least :
    (total page_size p : ℕ)
    → 1 ≤ page_size
    → suc p ≤ page_count total page_size
    → p * page_size < total
unfolding page_count
page_count_least total page_size p h below = ground (arith, quotient_below total page_size p h)

module _ {ℓ} {A : Type ℓ} where
  -- A page of size at least one holds at most that many rows; the pages from the first to the last, one
  -- after the other, are all the rows in their order; and none of these pages is empty.
  pub first_pages-page_count :
      (page_size : ℕ) (rows : List A)
      → 1 ≤ page_size
      → (first_pages (page_count (length rows) page_size) page_size rows ≡ rows)
        × ((page : ℕ) → length (page_rows page page_size rows) ≤ page_size)
        × ((page : ℕ)
            → 1 ≤ page
            → page ≤ page_count (length rows) page_size
            → 1 ≤ length (page_rows page page_size rows))
  first_pages-page_count page_size rows h = (
    first_pages-take (page_count (length rows) page_size) page_size rows
        ∙ take_all (page_count (length rows) page_size * page_size) rows
            (page_count-mul (length rows) page_size h),
    fits,
    filled,
  )
    where
      fits : (page : ℕ) → length (page_rows page page_size rows) ≤ page_size
      fits zero = omega (
        arith,
        length-take (0 * page_size - (0 - 1) * page_size) (drop ((0 - 1) * page_size) rows),
      )
      fits (suc p) = omega (
        arith,
        length-take (suc p * page_size - (suc p - 1) * page_size)
            (drop ((suc p - 1) * page_size) rows),
        page_step p page_size,
      )

      filled :
          (page : ℕ)
          → 1 ≤ page
          → page ≤ page_count (length rows) page_size
          → 1 ≤ length (page_rows page page_size rows)
      filled zero above below = absurd (omega arith)
      filled (suc p) above below = omega (
        arith,
        length-take (suc p * page_size - (suc p - 1) * page_size)
            (drop ((suc p - 1) * page_size) rows),
        length-drop ((suc p - 1) * page_size) rows,
        page_step p page_size,
        page_count_least (length rows) page_size p h below,
      )
