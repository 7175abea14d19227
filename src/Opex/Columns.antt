-- ===== src/Opex/Columns.antt =====
-- Which figure each column ends with (transform_opex_costs and resolve_opex_amounts of
-- app/iron_bank/services/engine/opex_catalog.py).
use mathlib.Core.Path.{subst}
use adus_be.Prelude.{
  ◌≡◌, refl, ap, ◌∙◌, Bool, true, false, not, Option, none, some, List, [], ◌∷◌, map, String,
  str_eq, eq_iff, contains, lookup, insert, merge, lookup-insert, HasDistinctKeys, filter,
  if◌then◌else◌, Bool-cases, inl, inr, arith,
}
use adus_be.Opex.{
  excluded_from_absolute, Arithmetic, Columns, PreparedOpex, PropertyTaxes, columns_of,
  transform_opex_costs, monthly_of,
}
use adus_be.Opex.Amounts.{opex_row_defaults, product, derived, resolve_opex_amounts}

-- `b` where it has a value, `a` otherwise
abbrev pub over {ℓ} : {A : Type ℓ} → Option A → Option A → Option A
over (some b) a = some b
over none a = a

module _ {ℓ} {V : Type ℓ} where
  lookup-absent :
      (k : String) (m : List (String × V))
      → contains k (map (λ e. e.0) m) ≡ false
      → lookup k m ≡ none
  unfolding lookup contains
  lookup-absent k [] h = refl
  lookup-absent k ((j, v) ∷ m) h = ground (arith, lookup-absent k m)

  -- The later dict wins.
  pub lookup-merge :
      (k : String) (a b : List (String × V))
      → HasDistinctKeys b
      → lookup k (merge a b) ≡ over (lookup k b) (lookup k a)
  unfolding merge lookup
  lookup-merge k a [] d = refl
  lookup-merge k a ((j, v) ∷ b) (new, d) =
      lookup-merge k (insert j v a) b d ∙ elim (Bool-cases (str_eq j k)) [
        | inl e ↦
            let gone =
              lookup-absent k b
                (subst (λ x. contains x (map (λ f. f.0) b) ≡ false) ((eq_iff j k).0 e) new) in
            rw e (rw gone (lookup-insert j k v a ∙ rw e refl))
        | inr e ↦ rw e (ap (over (lookup k b)) (lookup-insert j k v a ∙ rw e refl))
      ]

  -- A comprehension with a condition on the key.
  lookup-filter :
      (p : String → Bool) (k : String) (m : List (String × V))
      → lookup k (filter (λ (e : String × V). p e.0) m) ≡ (if p k then lookup k m else none)
  unfolding lookup
  lookup-filter p k [] = ground arith
  lookup-filter p k ((j, v) ∷ m) = elim (Bool-cases (str_eq j k)) [
    | inl e ↦ ground (arith, ap p ((eq_iff j k).0 e), lookup-filter p k m)
    | inr e ↦ ground (arith, lookup-filter p k m)
  ]

over_three {ℓ} :
    {A : Type ℓ} (p q r : Bool) (a b c : A) {x y : Option A}
    → x ≡ y
    → over (if p then some a else if q then some b else if r then some c else none) x
      ≡ (if p then some a else if q then some b else if r then some c else y)
over_three true q r a b c h = refl
over_three false true r a b c h = refl
over_three false false true a b c h = refl
over_three false false false a b c h = h

module _ {D : Type 0} where
  -- The market's absolute columns: none of the columns that are read elsewhere, and of the others the
  -- figure of the row by size where that row has the column, of the row by bedrooms otherwise.
  pub transform_opex_costs-absolute :
      (by_bedrooms by_size : Option (Columns D)) (k : String)
      → HasDistinctKeys (columns_of by_size)
      → lookup k (transform_opex_costs by_bedrooms by_size).absolute ≡ (
          if contains k excluded_from_absolute
          then none
          else over (lookup k (columns_of by_size)) (lookup k (columns_of by_bedrooms)))
  unfolding transform_opex_costs
  transform_opex_costs-absolute by_bedrooms by_size k d =
      let kept =
        lookup-filter (λ j. not (contains j excluded_from_absolute)) k
          (merge (columns_of by_bedrooms) (columns_of by_size)) in
      let merged = lookup-merge k (columns_of by_bedrooms) (columns_of by_size) d in
      elim (Bool-cases (contains k excluded_from_absolute)) [
        | inl e ↦ kept ∙ rw e refl
        | inr e ↦ kept ∙ rw e merged
      ]

  -- The amount of each row: the three derived rows from their own sources, every other row from the
  -- market's column, and "misc" from its default where the market has no such column.
  pub resolve_opex_amounts_lem :
      (decimal : Arithmetic D) (opex : PreparedOpex D) (taxes : Option (PropertyTaxes D))
      (k : String)
      → HasDistinctKeys opex.absolute
      → lookup k (resolve_opex_amounts decimal opex taxes) ≡ (
          if str_eq "cleaning" k
          then some (product decimal opex.fee opex.num_of_turns)
          else if str_eq "pool_hot_tub" k
          then some opex.low
          else if str_eq "property_taxes" k
          then some (monthly_of taxes)
          else over
              (lookup k opex.absolute)
              (if str_eq "misc" k then some (some decimal.nought) else none))
  unfolding resolve_opex_amounts lookup contains
  resolve_opex_amounts_lem decimal opex taxes k d =
      lookup-merge k (merge (opex_row_defaults decimal) opex.absolute) (derived decimal opex taxes)
        (refl, (refl, (refl, tt)))
      ∙ over_three (str_eq "cleaning" k) (str_eq "pool_hot_tub" k) (str_eq "property_taxes" k)
          (product decimal opex.fee opex.num_of_turns) opex.low (monthly_of taxes)
          (lookup-merge k (opex_row_defaults decimal) opex.absolute d)
