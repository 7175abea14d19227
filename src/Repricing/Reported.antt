-- ===== src/Repricing/Reported.antt =====
-- What the reports of one run say of a row (app/workflows/reconcile_underwriting_price_job.py).
use mathlib.Core.Option.{some-injective}
use adus_be.Prelude.{
  ℕ, ◌≡◌, refl, sym, ap, ◌∙◌, arith, true, Bool, ◌&&◌, Option, none, some, List, [], ◌∷◌, map, any,
  Result, Bool-cases, inl, inr, ◌==◌, ==_iff,
}
use adus_be.Calculator.{Decimals}
use adus_be.Repricing.{Underwriting, has_id, get_by_id, Status, updated, RowResult}
use adus_be.Repricing.Job.{Decision, settled, to_write, has_status, decide}
use adus_be.Repricing.Found.{AreFound}
use adus_be.Repricing.FanOut.{reported_as, reported_row, report}

-- the row with the id is reported with the status
abbrev pub reports : {E : Type 0} → ℕ → Status → List (RowResult E) → Bool
reports id status = any λ r. (RowResult.underwriting_id r == id) && has_status status r

module _ {D R P E : Type 0} (num : Decimals D) (build_row : Underwriting D R → D → Result E P)
    (rewrite_row : P → Underwriting D R → Option E × Underwriting D R) where
  reported_as-id :
      (u : Underwriting D R) (raised : Option E)
      → RowResult.underwriting_id (reported_as num build_row rewrite_row u raised) ≡ u.id
  reported_as-id u none = refl
  reported_as-id u (some e) = refl

  reported_row-id :
      (u : Underwriting D R) (d : Decision P E)
      → RowResult.underwriting_id (reported_row num build_row rewrite_row u d) ≡ u.id
  reported_row-id u (settled status error) = refl
  reported_row-id u (to_write payload) = reported_as-id u (rewrite_row payload u).0

  pub none_failed :
      (u : Underwriting D R) (raised : Option E)
      → has_status updated (reported_as num build_row rewrite_row u raised) ≡ true
      → raised ≡ none
  none_failed u none h = refl
  none_failed u (some e) h = cc

  module _ (price : D) where
    unfoldable pub shown : Underwriting D R → RowResult E
    shown = report num build_row rewrite_row price

    shown-id : (u : Underwriting D R) → RowResult.underwriting_id (shown u) ≡ u.id
    unfolding shown
    shown-id u = reported_row-id u (decide num build_row price u)

    pub reported_of :
        (id : ℕ) (status : Status) (us table : List (Underwriting D R))
        → AreFound us table
        → reports id status (map shown us) ≡ true
        → (u : Underwriting D R) × (get_by_id id table ≡ some u)
          × (any (has_id id) us ≡ true)
          × (has_status status (shown u) ≡ true)
    reported_of id status [] table found h = cc
    reported_of id status (u ∷ us) table (here, found) h = elim (Bool-cases (u.id == id)) [
      | inl own ↦ elim (Bool-cases (has_status status (shown u))) [
        | inl as_asked ↦ (
          u,
          ap (λ i. get_by_id i table) (sym ((==_iff u.id id).0 own)) ∙ here,
          rw own refl,
          as_asked,
        )
        | inr otherwise ↦
            let (v, there, among, as_asked) =
              reported_of id status us table found (ground (arith, h, otherwise)) in
            (v, there, rw own refl, as_asked)
      ]
      | inr other ↦
          let (v, there, among, as_asked) =
            reported_of id status us table found
              (ground (arith, h, other, ap (λ i. i == id) (shown-id u))) in
          (v, there, rw other among, as_asked)
    ]

    pub reported_for :
        (id : ℕ) (status : Status) (us table : List (Underwriting D R)) (v : Underwriting D R)
        → AreFound us table
        → any (has_id id) us ≡ true
        → get_by_id id table ≡ some v
        → has_status status (shown v) ≡ true
        → reports id status (map shown us) ≡ true
    reported_for id status [] table v found among there as_asked = cc
    reported_for id status (u ∷ us) table v (here, found) among there as_asked =
        elim (Bool-cases (u.id == id)) [
          | inl own ↦
              let same : v ≡ u =
                some-injective _ _
                  (sym there ∙ ap (λ i. get_by_id i table) (sym ((==_iff u.id id).0 own)) ∙ here) in
              let shown_id : (RowResult.underwriting_id (shown u) == id) ≡ true =
                ap (λ i. i == id) (shown-id u) ∙ own in
              let shown_status : has_status status (shown u) ≡ true =
                ap (λ w. has_status status (shown w)) (sym same) ∙ as_asked in
              rw (shown_id, shown_status) refl
          | inr other ↦
              let rest =
                reported_for id status us table v found (ground (arith, among, other)) there
                  as_asked in
              ground (arith, rest)
        ]
