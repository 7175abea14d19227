-- ===== src/Repricing/PerRow.antt =====
-- An update of a purchase price changes one row, and sets its price
-- (app/iron_bank/services/operations/update_underwriting_service.py).
use adus_be.Prelude.{
  ℕ, ◌≡◌, refl, sym, ap, ◌∙◌, false, ◌||◌, Option, none, some, List, [], ◌∷◌, String, any, Result,
  ok, err, Bool-cases, inl, inr, ◌==◌, ==_iff, if◌then◌else◌,
}
use adus_be.Calculator.{Decimals, Validation}
use adus_be.Saving.{Readers}
use adus_be.Repricing.{Underwriting, has_id, get_by_id}
use adus_be.Repricing.Payloads.{Columns}
use adus_be.Repricing.Updates.{
  UpdateError, Encoder, Written, calculated, write, put, reconciled, flushed, update_with,
  rewritten, reconcile_purchase_price, rewrite,
}
use adus_be.Repricing.Found.{HasDistinctIds}
use adus_be.Repricing.FanOut.{Reconciles, IsPerRow}

module _ {D : Type 0} where
  -- What the database does with the columns that identify a row: it keeps them, whether it raises or not.
  pub record IsStorage
      (flush : Underwriting D (Columns D)
        → Underwriting D (Columns D)
        → Option String × Underwriting D (Columns D))
      : Type 0 where
    pub keeps :
        (old new : Underwriting D (Columns D))
        → new.id ≡ old.id
        → new.zpid ≡ old.zpid
        → new.deal_status ≡ old.deal_status
        → ((flush old new).1.id ≡ old.id)
          × ((flush old new).1.zpid ≡ old.zpid)
          × ((flush old new).1.deal_status ≡ old.deal_status)

  -- A price that its column holds as it is: one in whole cents.
  abbrev pub FitsColumn :
      (Underwriting D (Columns D)
        → Underwriting D (Columns D)
        → Option String × Underwriting D (Columns D))
      → D
      → Type 0
  FitsColumn flush price =
      (old new : Underwriting D (Columns D))
      → (flush old new).0 ≡ none
      → new.purchase_price ≡ some price
      → (flush old new).1.purchase_price ≡ some price

  module _ (id : ℕ) (row : Underwriting D (Columns D)) (same : row.id ≡ id) where
    put-other :
        (j : ℕ) (table : List (Underwriting D (Columns D)))
        → (id == j) ≡ false
        → get_by_id j (put id row table) ≡ get_by_id j table
    put-other j [] other = refl
    put-other j (v ∷ table) other = elim (Bool-cases (v.id == id)) [
      | inl h ↦
          let new : (row.id == j) ≡ false = ap (λ i. i == j) same ∙ other in
          let old : (v.id == j) ≡ false = ap (λ i. i == j) ((==_iff v.id id).0 h) ∙ other in
          rw h (rw new (rw old (put-other j table other)))
      | inr h ↦ rw h (ap (λ rest. if v.id == j then some v else rest) (put-other j table other))
    ]

    put-same :
        (table : List (Underwriting D (Columns D))) (u : Underwriting D (Columns D))
        → get_by_id id table ≡ some u
        → get_by_id id (put id row table) ≡ some row
    put-same [] u found = cc
    put-same (v ∷ table) u found = elim (Bool-cases (v.id == id)) [
      | inl h ↦ rw h (rw ((==_iff row.id id).1 same) refl)
      | inr h ↦ rw h (rw h (put-same table u (sym (rw h refl) ∙ found)))
    ]

    get_by_id-put :
        (table : List (Underwriting D (Columns D))) (u : Underwriting D (Columns D))
        → get_by_id id table ≡ some u
        → (j : ℕ)
        → get_by_id j (put id row table) ≡ (if id == j then some row else get_by_id j table)
    get_by_id-put table u found j = elim (Bool-cases (id == j)) [
      | inl h ↦ rw h (
          ap (λ i. get_by_id i (put id row table)) (sym ((==_iff id j).0 h))
          ∙ put-same table u found)
      | inr h ↦ rw h (put-other j table h)
    ]

    any-put :
        (i : ℕ) (table : List (Underwriting D (Columns D)))
        → any (has_id i) (put id row table) ≡ any (has_id i) table
    any-put i [] = refl
    any-put i (v ∷ table) = elim (Bool-cases (v.id == id)) [
      | inl h ↦ rw h (
          ap (λ k. (k == i) || any (has_id i) (put id row table))
            (same ∙ sym ((==_iff v.id id).0 h))
          ∙ ap (λ b. (v.id == i) || b) (any-put i table))
      | inr h ↦ rw h (ap (λ b. (v.id == i) || b) (any-put i table))
    ]

    put-HasDistinctIds :
        (table : List (Underwriting D (Columns D)))
        → HasDistinctIds table
        → HasDistinctIds (put id row table)
    put-HasDistinctIds [] distinct = tt
    put-HasDistinctIds (v ∷ table) (apart, distinct) = elim (Bool-cases (v.id == id)) [
      | inl h ↦ rw h (
        any-put row.id table
            ∙ ap (λ k. any (has_id k) table) (same ∙ sym ((==_iff v.id id).0 h))
            ∙ apart,
        put-HasDistinctIds table distinct,
      )
      | inr h ↦ rw h (any-put v.id table ∙ apart, put-HasDistinctIds table distinct)
    ]

module _ {D : Type 0} (num : Decimals D) (validate : Validation D) (readers : Readers D)
    (encoder : Encoder D)
    (flush : Underwriting D (Columns D)
      → Underwriting D (Columns D)
      → Option String × Underwriting D (Columns D))
    (storage : IsStorage flush) where
  own_row :
      (u : Underwriting D (Columns D)) (table : List (Underwriting D (Columns D)))
      → get_by_id u.id table ≡ some u
      → (j : ℕ) → get_by_id j table ≡ (if u.id == j then some u else get_by_id j table)
  own_row u table found j = elim (Bool-cases (u.id == j)) [
    | inl h ↦ rw h (ap (λ i. get_by_id i table) (sym ((==_iff u.id j).0 h)) ∙ found)
    | inr h ↦ rw h refl
  ]

  update_with-Reconciles :
      (u : Underwriting D (Columns D)) (table : List (Underwriting D (Columns D)))
      (w : Result UpdateError (Written D))
      → get_by_id u.id table ≡ some u
      → Reconciles u.id table
          (rewritten num validate readers encoder flush u w)
          (update_with num validate readers encoder flush u.id w table)
  update_with-Reconciles u table (err raised) found = (refl, own_row u table found, λ d. d)
  update_with-Reconciles u table (ok w) found =
      let kept = (flushed num validate readers encoder flush u w).1 in
      let same = (storage.keeps u (write encoder w u) refl refl refl).0 in
      rw found
        (refl, get_by_id-put u.id kept same table u found, put-HasDistinctIds u.id kept same table)

  -- what the job needs of the update service
  pub reconcile_purchase_price-IsPerRow :
      IsPerRow
        (reconcile_purchase_price num validate readers encoder flush)
        (rewrite num validate readers encoder flush)
  unfolding reconcile_purchase_price
  reconcile_purchase_price-IsPerRow = record {
    reconciles = λ u payload table found.
        update_with-Reconciles u table
          (calculated (reconciled num validate readers encoder payload)) found;
  }
