-- ===== src/ReferenceData/Filters.antt =====
-- The in-memory filter of the cached table and the repository's query
-- (app/core/reference_data/service.py and app/core/reference_data/repository.py).
use mathlib.Core.Path.{subst}
use adus_be.Prelude.{
  ℕ, ◌≡◌, refl, sym, ap, ◌∙◌, arith, Bool, Bool-cases, inl, inr, Option, none, true, false, ◌||◌,
  ◌&&◌, some, List, [], ◌∷◌, String, str_eq, eq_iff, contains, filter, any, any-filter, ltb,
  IsStrictOrder, ok, err, if◌then◌else◌, stable_sort, filter-stable_sort, any-stable_sort,
}
use adus_be.ReferenceData.{EnumOption, Scope, in_scope, ordered_before, list_options}
use adus_be.ReferenceData.Service.{whole_table, one_set, cached_options, validate_active_option}

-- the database's order of texts is total
pub record IsTextOrder (text_less : String → String → Bool) : Type 0 where
  pub strict : IsStrictOrder text_less
  pub linear : (a b : String) → text_less a b ≡ false → text_less b a ≡ false → str_eq a b ≡ true

-- active, of the set, of the domain where one is given, and with the key
abbrev pub is_offered : Option String → String → String → EnumOption → Bool
is_offered none set_code key o = o.is_active && str_eq o.set_code set_code && str_eq o.key key
is_offered (some domain) set_code key o =
    o.is_active && str_eq o.domain domain && str_eq o.set_code set_code && str_eq o.key key

module _ (text_less : String → String → Bool) where
  module _ (texts : IsTextOrder text_less) where
    less-ne : (s t : String) → text_less s t ≡ true → str_eq t s ≡ false
    less-ne s t h = elim (Bool-cases (str_eq t s)) [
      | inl e ↦ cc (h, (eq_iff t s).0 e, texts.strict.asym s t h)
      | inr e ↦ e
    ]

    -- first by the text, then by the number
    abbrev pair_before : String → String → ℕ → ℕ → Bool
    pair_before s t m n = text_less s t || (str_eq s t && ltb m n)

    pair_before-asym :
        (s t : String) (m n : ℕ) → pair_before s t m n ≡ true → pair_before t s n m ≡ false
    pair_before-asym s t m n h =
        ground (arith, less-ne s t, less-ne t s, texts.strict.asym s t, eq_iff s t, eq_iff t s)

    pair_before_back :
        (s t : String) (m n k : ℕ)
        → pair_before s t m n ≡ false
        → pair_before t s n k ≡ false
        → ltb m k ≡ false
    pair_before_back s t m n k h g = ground (arith, texts.linear s t, eq_iff s t, eq_iff t s)

    pair_before-not_trans :
        (s t u : String) (m n k : ℕ)
        → pair_before s t m n ≡ false
        → pair_before t u n k ≡ false
        → pair_before s u m k ≡ false
    pair_before-not_trans s t u m n k h g = elim (Bool-cases (str_eq s u)) [
      | inl e ↦ ground (
        arith,
        texts.strict.not_trans s t u,
        pair_before_back s t m n k h
            (subst (λ x. pair_before t x n k ≡ false) (sym ((eq_iff s u).0 e)) g),
      )
      | inr e ↦ ground (arith, texts.strict.not_trans s t u, e)
    ]

    ordered_before-IsStrictOrder : IsStrictOrder (ordered_before text_less)
    ordered_before-IsStrictOrder = record {
      asym = λ a b. pair_before-asym a.set_code b.set_code a.sort_order b.sort_order;
      not_trans = λ a b c.
          pair_before-not_trans a.set_code b.set_code c.set_code a.sort_order b.sort_order
            c.sort_order;
    }

  filter-whole_table : (table : List EnumOption) → filter (in_scope whole_table) table ≡ table
  filter-whole_table [] = refl
  filter-whole_table (o ∷ table) = ap (λ rest. o ∷ rest) (filter-whole_table table)

  -- What is filtered out of the whole table in memory is what the repository's query returns.
  pub list_options-filter :
      IsTextOrder text_less
      → (scope : Scope) (table : List EnumOption)
      → filter (in_scope scope) (list_options text_less whole_table table)
        ≡ list_options text_less scope table
  unfolding list_options
  list_options-filter texts scope table =
      ap (λ rows. filter (in_scope scope) (stable_sort (ordered_before text_less) rows))
        (filter-whole_table table)
      ∙ filter-stable_sort (ordered_before text_less) (ordered_before-IsStrictOrder texts)
          (in_scope scope) table

  accepted-is_offered :
      (domain : Option String) (set_code key : String) (o : EnumOption)
      → (in_scope (one_set domain set_code) o && str_eq o.key key)
        ≡ is_offered domain set_code key o
  unfolding contains
  accepted-is_offered none set_code key o =
      ground (arith, eq_iff o.set_code set_code, eq_iff set_code o.set_code)
  accepted-is_offered (some d) set_code key o =
      ground (arith, eq_iff o.set_code set_code, eq_iff set_code o.set_code)

  any-is_offered :
      (domain : Option String) (set_code key : String) (table : List EnumOption)
      → any (λ o. in_scope (one_set domain set_code) o && str_eq o.key key) table
        ≡ any (is_offered domain set_code key) table
  any-is_offered domain set_code key [] = refl
  any-is_offered domain set_code key (o ∷ table) =
      rw (accepted-is_offered domain set_code key o, any-is_offered domain set_code key table) refl

  -- A key is accepted, by an instance that has fetched nothing yet, just where the table holds an
  -- option with that key that is active and of the set, and of the domain where one is given; else the
  -- exception names the set and the key.
  pub validate_active_option_lem :
      (domain : Option String) (set_code key : String) (table : List EnumOption)
      → (validate_active_option text_less domain set_code (some key) [] table).0
        ≡ (if any (is_offered domain set_code key) table then ok tt else err (set_code, key))
  unfolding validate_active_option cached_options list_options
  validate_active_option_lem domain set_code key table =
      ap (λ b. if b then ok tt else err (set_code, key))
        (any-stable_sort (ordered_before text_less) (λ o. str_eq o.key key)
            (filter (in_scope (one_set domain set_code)) table)
          ∙ any-filter (λ o. str_eq o.key key) (in_scope (one_set domain set_code)) table
          ∙ any-is_offered domain set_code key table)
