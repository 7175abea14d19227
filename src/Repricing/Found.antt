-- ===== src/Repricing/Found.antt =====
-- Rows under distinct ids, and the rows that the job reads for a listing
-- (app/iron_bank/repositories/underwriting_repository.py).
use mathlib.Core.Option.{some-injective}
use adus_be.Prelude.{
  ℕ, ◌≡◌, refl, sym, ap, ◌∙◌, arith, Bool, false, ◌&&◌, some, List, [], ◌∷◌, String, any,
  any-filter, filter, Bool-cases, inl, inr, ◌==◌, ==_refl, place, stable_sort, any-place,
  any-stable_sort,
}
use adus_be.Repricing.{Underwriting, has_id, get_by_id, is_of, is_older, get_all_by_zpid}

module _ {D R : Type 0} where
  abbrev pub HasDistinctIds : List (Underwriting D R) → Type 0
  HasDistinctIds [] = Unit
  HasDistinctIds (u ∷ us) = (any (has_id u.id) us ≡ false) × HasDistinctIds us

  -- each of the rows is what the table holds under its id
  abbrev pub AreFound : List (Underwriting D R) → List (Underwriting D R) → Type 0
  AreFound [] table = Unit
  AreFound (u ∷ us) table = (get_by_id u.id table ≡ some u) × AreFound us table

  -- a change under another id
  pub AreFound-change :
      (id : ℕ) (us table changed : List (Underwriting D R))
      → any (has_id id) us ≡ false
      → ((j : ℕ) → (id == j) ≡ false → get_by_id j changed ≡ get_by_id j table)
      → AreFound us table
      → AreFound us changed
  AreFound-change id [] table changed h same found = tt
  AreFound-change id (u ∷ us) table changed h same (here, found) = (
    same u.id (ground (arith, h)) ∙ here,
    AreFound-change id us table changed (ground (arith, h)) same found,
  )

  AreFound-self : (table : List (Underwriting D R)) → HasDistinctIds table → AreFound table table
  AreFound-self [] distinct = tt
  AreFound-self (u ∷ us) (apart, distinct) = (
    rw (==_refl u.id) refl,
    AreFound-change u.id us us (u ∷ us) apart (λ j other. rw other refl)
        (AreFound-self us distinct),
  )

  AreFound-filter :
      (p : Underwriting D R → Bool) (us table : List (Underwriting D R))
      → AreFound us table
      → AreFound (filter p us) table
  AreFound-filter p [] table found = tt
  AreFound-filter p (u ∷ us) table (here, found) = elim (Bool-cases (p u)) [
    | inl h ↦ rw h (here, AreFound-filter p us table found)
    | inr h ↦ rw h (AreFound-filter p us table found)
  ]

  -- among rows none of which passes, none passes two tests
  any_both :
      (p q : Underwriting D R → Bool) (us : List (Underwriting D R))
      → any q us ≡ false
      → any (λ u. p u && q u) us ≡ false
  any_both p q [] h = refl
  any_both p q (u ∷ us) h = ground (arith, any_both p q us, h)

  HasDistinctIds-filter :
      (p : Underwriting D R → Bool) (us : List (Underwriting D R))
      → HasDistinctIds us
      → HasDistinctIds (filter p us)
  HasDistinctIds-filter p [] distinct = tt
  HasDistinctIds-filter p (u ∷ us) (apart, distinct) = elim (Bool-cases (p u)) [
    | inl h ↦ rw h (
      any-filter (has_id u.id) p us ∙ any_both p (has_id u.id) us apart,
      HasDistinctIds-filter p us distinct,
    )
    | inr h ↦ rw h (HasDistinctIds-filter p us distinct)
  ]

  AreFound-place :
      (u : Underwriting D R) (us table : List (Underwriting D R))
      → get_by_id u.id table ≡ some u
      → AreFound us table
      → AreFound (place is_older u us) table
  unfolding place
  AreFound-place u [] table here found = (here, tt)
  AreFound-place u (v ∷ us) table here (next, found) = elim (Bool-cases (is_older v u)) [
    | inl h ↦ rw h (next, AreFound-place u us table here found)
    | inr h ↦ rw h (here, (next, found))
  ]

  HasDistinctIds-place :
      (u : Underwriting D R) (us : List (Underwriting D R))
      → any (has_id u.id) us ≡ false
      → HasDistinctIds us
      → HasDistinctIds (place is_older u us)
  unfolding place
  HasDistinctIds-place u [] apart distinct = (refl, tt)
  HasDistinctIds-place u (v ∷ us) apart (next, distinct) = elim (Bool-cases (is_older v u)) [
    | inl h ↦ rw h (
      any-place is_older (has_id v.id) u us ∙ ground (arith, apart, next),
      HasDistinctIds-place u us (ground (arith, apart)) distinct,
    )
    | inr h ↦ rw h (apart, (next, distinct))
  ]

  stable_sort-AreFound :
      (us table : List (Underwriting D R))
      → AreFound us table
      → AreFound (stable_sort is_older us) table
  unfolding stable_sort
  stable_sort-AreFound [] table found = tt
  stable_sort-AreFound (u ∷ us) table (here, found) =
      AreFound-place u (stable_sort is_older us) table here (stable_sort-AreFound us table found)

  stable_sort-HasDistinctIds :
      (us : List (Underwriting D R)) → HasDistinctIds us → HasDistinctIds (stable_sort is_older us)
  unfolding stable_sort
  stable_sort-HasDistinctIds [] distinct = tt
  stable_sort-HasDistinctIds (u ∷ us) (apart, distinct) =
      HasDistinctIds-place u (stable_sort is_older us)
        (any-stable_sort is_older (has_id u.id) us ∙ apart) (stable_sort-HasDistinctIds us distinct)

  pub get_all_by_zpid-AreFound :
      (zpid : String) (table : List (Underwriting D R))
      → HasDistinctIds table
      → AreFound (get_all_by_zpid zpid table) table
  unfolding get_all_by_zpid
  get_all_by_zpid-AreFound zpid table distinct =
      stable_sort-AreFound (filter (is_of zpid) table) table
        (AreFound-filter (is_of zpid) table table (AreFound-self table distinct))

  pub get_all_by_zpid-HasDistinctIds :
      (zpid : String) (table : List (Underwriting D R))
      → HasDistinctIds table
      → HasDistinctIds (get_all_by_zpid zpid table)
  unfolding get_all_by_zpid
  get_all_by_zpid-HasDistinctIds zpid table distinct =
      stable_sort-HasDistinctIds (filter (is_of zpid) table)
        (HasDistinctIds-filter (is_of zpid) table distinct)

  any-found :
      (p : Underwriting D R → Bool) (id : ℕ) (us : List (Underwriting D R))
      → HasDistinctIds us
      → (u : Underwriting D R) → get_by_id id us ≡ some u
      → any (λ v. p v && has_id id v) us ≡ p u
  any-found p id [] distinct u h = cc
  any-found p id (v ∷ us) (apart, distinct) u h = elim (Bool-cases (v.id == id)) [
    | inl same ↦
        let first : v ≡ u = some-injective _ _ (sym (rw same refl) ∙ h) in
        let alone : any (has_id id) us ≡ false = ground (arith, same, apart) in
        ground (arith, same, any_both p (has_id id) us alone, ap p first)
    | inr other ↦ ground (arith, other, any-found p id us distinct u (sym (rw other refl) ∙ h))
  ]

  -- The row that an id stands for is read with its listing just if it is of that listing.
  pub any-get_all_by_zpid :
      (zpid : String) (id : ℕ) (table : List (Underwriting D R))
      → HasDistinctIds table
      → (u : Underwriting D R) → get_by_id id table ≡ some u
      → any (has_id id) (get_all_by_zpid zpid table) ≡ is_of zpid u
  unfolding get_all_by_zpid
  any-get_all_by_zpid zpid id table distinct u h =
      any-stable_sort is_older (has_id id) (filter (is_of zpid) table)
      ∙ any-filter (has_id id) (is_of zpid) table
      ∙ any-found (is_of zpid) id table distinct u h
