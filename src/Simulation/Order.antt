-- ===== src/Simulation/Order.antt =====
-- The order of the simulated list
-- (app/iron_bank/services/operations/simulate_underwritings_service.py, `_sort`).
use mathlib.Core.List.{Perm}
use mathlib.Core.List.Perm
use adus_be.Prelude.{
  ◌≡◌, refl, arith, Bool, true, false, ◌||◌, ◌&&◌, not, Option, none, some, List, leb, IsRanked,
  IsStrictOrder, or_tie, stable_sort, stable_sort-perm, stable_sort-IsRanked, IsRanked-weaker,
  IsRanked-trivial,
}
use adus_be.Calculator.{Decimals}
use adus_be.Simulation.{SimulatedRow}
use adus_be.Simulation.Listing.{
  SortBy, SortOrder, asc, desc, SortKey, amount, count, sort_value, newer, key_less, pair_less,
  precedes, sort,
}

newer-IsStrictOrder : {D : Type 0} → IsStrictOrder (newer {D = D})
newer-IsStrictOrder = record { asym = λ a b h. ground arith; not_trans = λ a b c h k. ground arith }

module _ {D : Type 0} (num : Decimals D) where
  -- what the listing promises of two rows, the first of which stands above the other: a row that
  -- has the column above one that lacks it, then the column, then the greater id
  abbrev pub stands_above_of : SortOrder → Bool → Option (SortKey D) → Option (SortKey D) → Bool
  stands_above_of order tie none none = tie
  stands_above_of order tie none (some y) = false
  stands_above_of order tie (some x) none = true
  stands_above_of asc tie (some x) (some y) = key_less num x y || (not (key_less num y x) && tie)
  stands_above_of desc tie (some x) (some y) = key_less num y x || (not (key_less num x y) && tie)

  abbrev pub stands_above : SortBy → SortOrder → SimulatedRow D → SimulatedRow D → Bool
  stands_above column order a b =
      stands_above_of order (leb b.id a.id) (sort_value column a) (sort_value column b)

  module _ (ordered : IsStrictOrder num.less) where
    key_less-asym : (x y : SortKey D) → key_less num x y ≡ true → key_less num y x ≡ false
    key_less-asym (amount x) (amount y) h = ordered.asym x y h
    key_less-asym (amount x) (count n) h = refl
    key_less-asym (count m) (amount y) h = cc
    key_less-asym (count m) (count n) h = ground arith

    key_less-not_trans :
        (x y z : SortKey D)
        → key_less num x y ≡ false
        → key_less num y z ≡ false
        → key_less num x z ≡ false
    key_less-not_trans (amount x) (amount y) (amount z) h k = ordered.not_trans x y z h k
    key_less-not_trans (count m) (count n) (count o) h k = ground arith
    key_less-not_trans (count m) y (amount z) h k = refl
    key_less-not_trans (count m) (amount y) (count o) h k = cc
    key_less-not_trans (amount x) (count n) z h k = cc
    key_less-not_trans (amount x) (amount y) (count o) h k = cc

    pair_less-asym :
        (down : Bool) (u v : Option (SortKey D))
        → pair_less num down u v ≡ true
        → pair_less num down v u ≡ false
    pair_less-asym true none none h = refl
    pair_less-asym false none none h = refl
    pair_less-asym true none (some y) h = refl
    pair_less-asym false none (some y) h = ground arith
    pair_less-asym true (some x) none h = ground arith
    pair_less-asym false (some x) none h = refl
    pair_less-asym true (some x) (some y) h = ground (arith, key_less-asym x y)
    pair_less-asym false (some x) (some y) h = ground (arith, key_less-asym x y)

    pair_less-not_trans :
        (down : Bool) (u v w : Option (SortKey D))
        → pair_less num down u v ≡ false
        → pair_less num down v w ≡ false
        → pair_less num down u w ≡ false
    pair_less-not_trans true none none w h k = k
    pair_less-not_trans false none none w h k = k
    pair_less-not_trans true none (some y) w h k = ground arith
    pair_less-not_trans false none (some y) none h k = refl
    pair_less-not_trans false none (some y) (some z) h k = refl
    pair_less-not_trans true (some x) none none h k = refl
    pair_less-not_trans true (some x) none (some z) h k = ground arith
    pair_less-not_trans false (some x) none w h k = ground arith
    pair_less-not_trans true (some x) (some y) none h k = refl
    pair_less-not_trans false (some x) (some y) none h k = ground arith
    pair_less-not_trans true (some x) (some y) (some z) h k =
        ground (arith, key_less-not_trans x y z)
    pair_less-not_trans false (some x) (some y) (some z) h k =
        ground (arith, key_less-not_trans x y z)

    precedes-IsStrictOrder :
        (column : SortBy) (order : SortOrder) → IsStrictOrder (precedes num column order)
    precedes-IsStrictOrder column asc = record {
      asym = λ a b. pair_less-asym false (sort_value column a) (sort_value column b);
      not_trans = λ a b c.
          pair_less-not_trans false (sort_value column a) (sort_value column b)
            (sort_value column c);
    }
    precedes-IsStrictOrder column desc = record {
      asym = λ a b. pair_less-asym true (sort_value column b) (sort_value column a);
      not_trans = λ a b c h k.
          pair_less-not_trans true (sort_value column c) (sort_value column b) (sort_value column a)
            k h;
    }

  or_tie-stands_above :
      (column : SortBy) (order : SortOrder) (a b : SimulatedRow D)
      → or_tie (precedes num column order) (or_tie newer (λ c d. true)) a b ≡ true
      → stands_above column order a b ≡ true
  or_tie-stands_above column asc a b h = above (sort_value column a) (sort_value column b) h
    where
      above :
          (u v : Option (SortKey D))
          → (not (pair_less num false v u)
              && (pair_less num false u v || (not (newer b a) && (newer a b || true))))
            ≡ true
          → stands_above_of asc (leb b.id a.id) u v ≡ true
      above none none h = ground arith
      above none (some y) h = ground arith
      above (some x) none h = refl
      above (some x) (some y) h = ground arith
  or_tie-stands_above column desc a b h = above (sort_value column a) (sort_value column b) h
    where
      above :
          (u v : Option (SortKey D))
          → (not (pair_less num true u v)
              && (pair_less num true v u || (not (newer b a) && (newer a b || true))))
            ≡ true
          → stands_above_of desc (leb b.id a.id) u v ≡ true
      above none none h = ground arith
      above none (some y) h = ground arith
      above (some x) none h = refl
      above (some x) (some y) h = ground arith

  pub sort-perm :
      (column : SortBy) (order : SortOrder) (rows : List (SimulatedRow D))
      → Perm (sort num column order rows) rows
  unfolding sort
  sort-perm column order rows =
      Perm.trans (stable_sort-perm (precedes num column order) (stable_sort newer rows))
        (stable_sort-perm newer rows)

  -- `_sort` keeps every row and puts them in the order of the listing, whatever the column and the
  -- direction: rows without the figure last, the others by the figure, equals by descending id.
  pub sort_lem :
      IsStrictOrder num.less
      → (column : SortBy) (order : SortOrder) (rows : List (SimulatedRow D))
      → IsRanked (stands_above column order) (sort num column order rows)
        × Perm (sort num column order rows) rows
  unfolding sort
  sort_lem ordered column order rows = (
    IsRanked-weaker (or_tie-stands_above column order) (sort num column order rows) (
        stable_sort-IsRanked (precedes num column order)
          (precedes-IsStrictOrder ordered column order) (or_tie newer (λ a b. true))
          (stable_sort newer rows)
          (stable_sort-IsRanked newer newer-IsStrictOrder (λ a b. true) rows
            (IsRanked-trivial rows))),
    sort-perm column order rows,
  )
