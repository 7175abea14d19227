-- ===== src/Repricing/Decisions.antt =====
-- The three ways in which the plan decides about a row
-- (app/workflows/reconcile_underwriting_price_job.py).
use adus_be.Prelude.{◌≡◌, refl, true, false, none, Result}
use adus_be.Calculator.{Decimals}
use adus_be.Repricing.{Underwriting, skipped_same_price, skipped_terminal_status}
use adus_be.Repricing.Job.{settled, is_terminal, same_price, decide, payload_or_failed}

module _ {D R P E : Type 0} (num : Decimals D) (build : Underwriting D R → D → Result E P)
    (price : D) where
  pub terminal_row :
      (u : Underwriting D R)
      → is_terminal u.deal_status ≡ true
      → decide num build price u ≡ settled skipped_terminal_status none
  unfolding decide
  terminal_row u closed = rw closed refl

  pub same_row :
      (u : Underwriting D R)
      → is_terminal u.deal_status ≡ false
      → same_price num build u.purchase_price price ≡ true
      → decide num build price u ≡ settled skipped_same_price none
  unfolding decide
  same_row u open_deal same = rw open_deal (rw same refl)

  pub built_row :
      (u : Underwriting D R)
      → is_terminal u.deal_status ≡ false
      → same_price num build u.purchase_price price ≡ false
      → decide num build price u ≡ payload_or_failed num build (build u price)
  unfolding decide
  built_row u open_deal other = rw open_deal (rw other refl)
