-- ===== src/Repricing.antt =====
-- Reconciling the purchase price of underwritings with Zillow: the rows that the job reads
-- (app/iron_bank/repositories/underwriting_repository.py), and what it reports
-- (app/workflows/reconcile_underwriting_price_job.py).
pub mod Prices
pub mod Job
pub mod Batch
pub mod Counts
pub mod Found
pub mod FanOut
pub mod StaysDistinct
pub mod Decisions
pub mod Payloads
pub mod Updates
pub mod PerRow
pub mod Priced
pub mod Reported
pub mod Again
use adus_be.Prelude.{
  ℕ, Bool, false, ◌&&◌, ◌||◌, Option, none, some, List, String, str_eq, filter, find, ltb, ◌==◌,
  stable_sort,
}

-- an underwriting with its versions' shared listing; `rest` is what the job itself does not read
pub record Underwriting (D R : Type 0) : Type 0 where
  pub id : ℕ
  pub version : ℕ
  pub zpid : Option String
  pub deal_status : Option String
  pub purchase_price : Option D
  pub rest : R

-- a null equals no text
abbrev pub is_text : String → Option String → Bool
is_text text none = false
is_text text (some own) = str_eq own text

module _ {D R : Type 0} where
  abbrev pub has_id : ℕ → Underwriting D R → Bool
  has_id id u = u.id == id

  abbrev pub get_by_id : ℕ → List (Underwriting D R) → Option (Underwriting D R)
  get_by_id id table = find (has_id id) table

  -- `Underwriting.zpid == zpid`
  abbrev pub is_of : String → Underwriting D R → Bool
  is_of zpid u = is_text zpid u.zpid

  -- ORDER BY version, id
  abbrev pub is_older : Underwriting D R → Underwriting D R → Bool
  is_older a b = ltb a.version b.version || ((a.version == b.version) && ltb a.id b.id)

  unfoldable pub get_all_by_zpid : String → List (Underwriting D R) → List (Underwriting D R)
  get_all_by_zpid zpid table = stable_sort is_older (filter (is_of zpid) table)

pub record Listing : Type 0 where
  pub price : Option String
  pub unformatted_price : Option String

pub data Status : Type 0 where
  updated skipped_same_price skipped_no_underwriting : Status
  skipped_no_purchase_price skipped_terminal_status failed : Status

pub record RowResult (E : Type 0) : Type 0 where
  pub underwriting_id : ℕ
  pub version : ℕ
  pub status : Status
  pub error : Option E

pub record RunResult (E : Type 0) : Type 0 where
  pub zpid : String
  pub status : Status
  pub results : List (RowResult E)
