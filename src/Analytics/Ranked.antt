-- ===== src/Analytics/Ranked.antt =====
-- Open sets and tables per group (app/core/analytics/ordering.py, `order_open` and `order_ranked`).
use mathlib.Core.List.{Perm}
use adus_be.Prelude.{
  ℕ, ◌≡◌, refl, arith, Bool, true, false, ◌||◌, ◌&&◌, not, Option, none, some, List, String, ltb,
  leb, ◌==◌, or_else, IsRanked, IsStrictOrder, or_tie, stable_sort-perm, stable_sort-IsRanked,
  IsRanked-weaker, IsRanked-trivial, text_before, text_before-IsStrictOrder,
}
use adus_be.Analytics.{
  BreakdownItem, lex, unset_last, key_before, open_before, order_open, ranked_before, order_ranked,
}

lex-IsStrictOrder {ℓ} :
    {A : Type ℓ} {f g : A → A → Bool} → IsStrictOrder f → IsStrictOrder g → IsStrictOrder (lex f g)
lex-IsStrictOrder s t = record {
  asym = λ a b h. ground (arith, s.asym a b, t.asym a b);
  not_trans = λ a b c h k.
      ground (arith, s.not_trans a b c, s.not_trans b c a, s.not_trans c a b, t.not_trans a b c);
}

-- an order on what a function gives
on-IsStrictOrder {ℓ κ} :
    {A : Type ℓ} {B : Type κ} {f : B → B → Bool} (g : A → B)
    → IsStrictOrder f
    → IsStrictOrder (λ a b. f (g a) (g b))
on-IsStrictOrder g s = record {
  asym = λ a b. s.asym (g a) (g b);
  not_trans = λ a b c. s.not_trans (g a) (g b) (g c);
}

flip-IsStrictOrder {ℓ} :
    {A : Type ℓ} {f : A → A → Bool} → IsStrictOrder f → IsStrictOrder (λ a b. f b a)
flip-IsStrictOrder s = record {
  asym = λ a b. s.asym b a;
  not_trans = λ a b c h k. s.not_trans c b a k h;
}

unset_last-IsStrictOrder : IsStrictOrder unset_last
unset_last-IsStrictOrder = record { asym = asym; not_trans = not_trans }
  where
    asym : (a b : Option String) → unset_last a b ≡ true → unset_last b a ≡ false
    asym none b h = cc
    asym (some a) none h = refl
    asym (some a) (some b) h = refl

    not_trans :
        (a b c : Option String)
        → unset_last a b ≡ false
        → unset_last b c ≡ false
        → unset_last a c ≡ false
    not_trans none b c h k = refl
    not_trans (some a) none c h k = cc
    not_trans (some a) (some b) c h k = k

ltb-IsStrictOrder : IsStrictOrder ltb
ltb-IsStrictOrder = record { asym = λ a b h. ground arith; not_trans = λ a b c h k. ground arith }

key_before-IsStrictOrder : IsStrictOrder key_before
key_before-IsStrictOrder = on-IsStrictOrder (λ k. or_else k "") text_before-IsStrictOrder

open_before-IsStrictOrder : IsStrictOrder open_before
open_before-IsStrictOrder =
    lex-IsStrictOrder (on-IsStrictOrder (λ i. BreakdownItem.key i) unset_last-IsStrictOrder) (
      lex-IsStrictOrder
        (on-IsStrictOrder (λ i. BreakdownItem.count i) (flip-IsStrictOrder ltb-IsStrictOrder))
        (on-IsStrictOrder (λ i. BreakdownItem.key i) key_before-IsStrictOrder))

-- What the contract says of two items, the first of which is shown above the other: a key above none,
-- then the greater count, then the lesser key.
abbrev pub shown_above_of : ℕ → ℕ → Option String → Option String → Bool
shown_above_of m n (some j) none = true
shown_above_of m n none (some k) = false
shown_above_of m n none none = leb n m
shown_above_of m n (some j) (some k) = ltb n m || ((m == n) && not (text_before k j))

abbrev pub shown_above : BreakdownItem → BreakdownItem → Bool
shown_above a b = shown_above_of a.count b.count a.key b.key

or_tie-shown_above :
    (a b : BreakdownItem) → or_tie open_before (λ c d. true) a b ≡ true → shown_above a b ≡ true
or_tie-shown_above a b h = above a.key b.key a.count b.count h
  where
    before : Option String → Option String → ℕ → ℕ → Bool
    before u v m n =
        unset_last u v || (not (unset_last v u) && (ltb n m || (not (ltb m n) && key_before u v)))

    above :
        (u v : Option String) (m n : ℕ)
        → (not (before v u n m) && (before u v m n || true)) ≡ true
        → shown_above_of m n u v ≡ true
    above (some j) none m n h = refl
    above none (some k) m n h = ground (arith, h)
    above none none m n h = ground (arith, h)
    above (some j) (some k) m n h = ground (arith, h)

-- `order_open` keeps every item and shows them by descending count, of equal counts by ascending key,
-- and items without a key last.
pub order_open_lem :
    (items : List BreakdownItem)
    → IsRanked shown_above (order_open items) × Perm (order_open items) items
unfolding order_open
order_open_lem items = (
  IsRanked-weaker or_tie-shown_above (order_open items) (
      stable_sort-IsRanked open_before open_before-IsStrictOrder (λ a b. true) items
        (IsRanked-trivial items)),
  stable_sort-perm open_before items,
)

module _ {R M : Type 0} (less : M → M → Bool) (ordered : IsStrictOrder less)
    (key : R → Option String) (label : R → String) (metric : R → M) where
  -- In a table per group no row stands below one that the rule puts after it, and rows that the rule does not
  -- tell apart keep the order they came in.
  pub order_ranked_lem :
      (r : R → R → Bool) (rows : List R)
      → IsRanked r rows
      → IsRanked
          (or_tie (ranked_before less key label metric) r)
          (order_ranked less key label metric rows)
        × Perm (order_ranked less key label metric rows) rows
  unfolding order_ranked
  order_ranked_lem r rows s = (
    stable_sort-IsRanked (ranked_before less key label metric)
        (lex-IsStrictOrder (on-IsStrictOrder key unset_last-IsStrictOrder) (
          lex-IsStrictOrder (on-IsStrictOrder metric (flip-IsStrictOrder ordered)) (
            lex-IsStrictOrder (on-IsStrictOrder label text_before-IsStrictOrder)
              (on-IsStrictOrder key key_before-IsStrictOrder))))
        r rows s,
    stable_sort-perm (ranked_before less key label metric) rows,
  )
