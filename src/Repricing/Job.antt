-- ===== src/Repricing/Job.antt =====
-- ReconcileUnderwritingPriceJob (app/workflows/reconcile_underwriting_price_job.py). The payload
-- builder and the update service, which its constructor takes, are arguments. An update gives the
-- exception that it raised, if it raised one, beside the table that it left.
use adus_be.Prelude.{
  ℕ, Bool, false, ◌&&◌, not, Option, none, some, List, [], ◌∷◌, map, any, String, str_eq, contains,
  Result, ok, err, if◌then◌else◌,
}
use mathlib.Core.Option
use adus_be.Calculator.{Decimals}
use adus_be.DealStatus.{terminal_deal_statuses}
use adus_be.Repricing.{
  Underwriting, get_all_by_zpid, Listing, Status, updated, skipped_same_price,
  skipped_no_underwriting, skipped_no_purchase_price, skipped_terminal_status, failed, RowResult,
  RunResult,
}
use adus_be.Repricing.Prices.{RawPrice, text, normalize_purchase_price}

-- An entry of the plan: its status is known, or it is None and there is a payload to write.
pub data Decision (P E : Type 0) : Type 0 where
  settled : Status → Option E → Decision P E
  to_write : P → Decision P E

pub record Entry (P E : Type 0) : Type 0 where
  pub underwriting_id : ℕ
  pub version : ℕ
  pub decision : Decision P E

abbrev pub is_terminal : Option String → Bool
is_terminal none = false
is_terminal (some status) = contains status terminal_deal_statuses

abbrev pub status_text : Status → String
status_text updated = "updated"
status_text skipped_same_price = "skipped_same_price"
status_text skipped_no_underwriting = "skipped_no_underwriting"
status_text skipped_no_purchase_price = "skipped_no_purchase_price"
status_text skipped_terminal_status = "skipped_terminal_status"
status_text failed = "failed"

abbrev pub same_status : Status → Status → Bool
same_status s t = str_eq (status_text s) (status_text t)

abbrev pub has_status : {E : Type 0} → Status → RowResult E → Bool
has_status status r = same_status status r.status

-- the worst news first
unfoldable pub aggregate_status : {E : Type 0} → List (RowResult E) → Status
aggregate_status results =
    if any (has_status failed) results
    then failed
    else if any (has_status updated) results
    then updated
    else if any (has_status skipped_same_price) results
    then skipped_same_price
    else if any (has_status skipped_terminal_status) results
    then skipped_terminal_status
    else skipped_same_price

-- `unformatted_price or price`: an empty text is falsy
abbrev pub first_text : Option String → Option String → Option String
first_text none price = price
first_text (some unformatted) price = if str_eq unformatted "" then price else some unformatted

abbrev pub listed_price : {D : Type 0} → Option Listing → Option (RawPrice D)
listed_price none = none
listed_price (some listing) =
    Option.map (λ t. text t) (first_text listing.unformatted_price listing.price)

module _ {D R P E : Type 0} (num : Decimals D) (build : Underwriting D R → D → Result E P) where
  -- `==` of two Decimals; a price that is null equals none
  abbrev pub same_price : Option D → D → Bool
  same_price none price = false
  same_price (some own) price = not (num.less own price) && not (num.less price own)

  abbrev pub payload_or_failed : Result E P → Decision P E
  payload_or_failed (ok payload) = to_write payload
  payload_or_failed (err raised) = settled failed (some raised)

  unfoldable pub decide : D → Underwriting D R → Decision P E
  decide price u =
      if is_terminal u.deal_status
      then settled skipped_terminal_status none
      else if same_price u.purchase_price price
      then settled skipped_same_price none
      else payload_or_failed (build u price)

  abbrev pub entry : D → Underwriting D R → Entry P E
  entry price u = record { underwriting_id = u.id; version = u.version; decision = decide price u }

  unfoldable pub plan : List (Underwriting D R) → D → List (Entry P E)
  plan underwritings price = map (entry price) underwritings

  module _
      (reconcile_purchase_price : ℕ
        → P
        → List (Underwriting D R)
        → Option E × List (Underwriting D R)) where
    abbrev pub shown : Entry P E → Status → Option E → RowResult E
    shown e status error = record {
      underwriting_id = e.underwriting_id;
      version = e.version;
      status = status;
      error = error;
    }

    -- an update that raised, and one that did not, with the table that it left
    abbrev pub outcome :
        Entry P E → Option E × List (Underwriting D R) → RowResult E × List (Underwriting D R)
    outcome e (none, left) = (shown e updated none, left)
    outcome e (some raised, left) = (shown e failed (some raised), left)

    unfoldable pub apply_entry :
        Entry P E → List (Underwriting D R) → RowResult E × List (Underwriting D R)
    apply_entry e table = act e.decision
      where
        act : Decision P E → RowResult E × List (Underwriting D R)
        act (settled status error) = (shown e status error, table)
        act (to_write payload) =
            outcome e (reconcile_purchase_price e.underwriting_id payload table)

    unfoldable pub apply :
        List (Entry P E) → List (Underwriting D R) → List (RowResult E) × List (Underwriting D R)
    apply [] table = ([], table)
    apply (e ∷ planned) table =
        let one = apply_entry e table in let rest = apply planned one.1 in (one.0 ∷ rest.0, rest.1)

    module _ (parse : String → Option D) (get_by_zpid : String → Option Listing) where
      abbrev pub no_price : Underwriting D R → RowResult E
      no_price u = record {
        underwriting_id = u.id;
        version = u.version;
        status = skipped_no_purchase_price;
        error = none;
      }

      abbrev pub run_rows :
          String
          → List (Underwriting D R)
          → Option D
          → List (Underwriting D R)
          → RunResult E × List (Underwriting D R)
      run_rows zpid [] price table =
          (record { zpid = zpid; status = skipped_no_underwriting; results = [] }, table)
      run_rows zpid (u ∷ us) none table = (
        record { zpid = zpid; status = skipped_no_purchase_price; results = map no_price (u ∷ us) },
        table,
      )
      run_rows zpid (u ∷ us) (some price) table =
          let done = apply (plan (u ∷ us) price) table in
          (record { zpid = zpid; status = aggregate_status done.0; results = done.0 }, done.1)

      unfoldable pub run : String → List (Underwriting D R) → RunResult E × List (Underwriting D R)
      run zpid table =
          run_rows zpid (get_all_by_zpid zpid table)
            (normalize_purchase_price num parse (listed_price (get_by_zpid zpid))) table
