-- ===== src/Deals.antt =====
-- The status of a deal (app/iron_bank/services/operations/update_underwriting_service.py): the row,
-- the linked listing, the process log, and what is announced to clients. The document that a snapshot
-- stores is the parameter `build_snapshot`, which may raise: stored JSON can fail its validation.
pub mod Rows
pub mod Chains
pub mod Listings
pub mod StatusUpdates
pub mod InStep
pub mod Creation
use adus_be.Json.{Json}
use adus_be.Prelude.{
  ℕ, Bool, true, false, ◌&&◌, not, Option, none, some, List, [], ◌∷◌, String, str_eq, ◌==◌, map,
  is_none, find, if◌then◌else◌, Result, ok, err, ◌>>=◌,
}
use adus_be.DealStatus.{
  DealStatus, value, same, delete_zillow, present_to_clients, analyst_completed,
}
use adus_be.ProcessLog.{LogError}
use adus_be.ProcessLog.Service.{SnapshotInput, TransitionRequest, opt_eq, record_transition}

-- the columns of `underwritings` that these operations read or write
pub record Underwriting : Type 0 where
  pub id : ℕ
  pub deal_status : Option String
  pub analyst_id : Option ℕ
  pub approver_id : Option ℕ
  pub deal_approved : Option ℕ
  pub zpid : Option String
  pub property_pending : Bool

pub record ScheduledListing : Type 0 where
  pub zpid : String
  pub remove_listing : Option Bool

pub record Db : Type 0 where
  pub underwritings : List Underwriting
  pub listings : List ScheduledListing
  pub log : adus_be.ProcessLog.Db

pub data Webhook : Type 0 where
  present_to_clients_webhook analyst_completed_webhook : Webhook

-- Which of the optional collaborators the service was built with.
pub record Wiring : Type 0 where
  pub listings_service : Bool
  pub process_log : Bool
  pub present_to_clients_webhook_service : Bool
  pub analyst_completed_webhook_service : Bool

pub data DealError : Type 0 where
  lookup_error : ℕ → DealError
  log_error : LogError → DealError
  snapshot_error : String → DealError

pub record UpdateDealStatusResult : Type 0 where
  pub underwriting_id : ℕ
  pub deal_status : Option String

unfoldable pub get_by_id : ℕ → Db → Option Underwriting
get_by_id underwriting_id db = find (λ (u : Underwriting). u.id == underwriting_id) db.underwritings

-- `repository.update` with columns of the row only
unfoldable pub update : ℕ → (Underwriting → Underwriting) → Db → Option Underwriting × Db
unfolding get_by_id
update underwriting_id set db =
    let updated : Db = record db {
      underwritings =
          map (λ (u : Underwriting). if u.id == underwriting_id then set u else u) db.underwritings;
    } in
    (get_by_id underwriting_id updated, updated)

unfoldable pub set_remove_listing : String → Bool → Db → Db
set_remove_listing zpid remove db = record db {
  listings =
      map
        (λ (l : ScheduledListing).
          if str_eq l.zpid zpid then record l { remove_listing = some remove } else l)
        db.listings;
}

-- The text of a status is what the column holds.
abbrev pub is_status : Option String → DealStatus → Bool
is_status s status = opt_eq s (some (value status))

abbrev pub flag : Option String → DealStatus → Option Bool
flag previous deal_status =
    if same deal_status delete_zillow
    then some true
    else if is_status previous delete_zillow
    then some false
    else none

-- Entering delete_zillow flags the listing for removal; leaving it clears the flag.
unfoldable pub sync_listing_removal : Wiring → Underwriting → DealStatus → Db → Db
sync_listing_removal wiring existing deal_status db =
    if not wiring.listings_service then db else elim existing.zpid [
      | none ↦ db
      | some zpid ↦ elim (flag existing.deal_status deal_status) [
        | none ↦ db
        | some remove ↦ set_remove_listing zpid remove db
      ]
    ]

-- `underwriting_data`
abbrev pub status_columns : DealStatus → ℕ → ℕ → Underwriting → Underwriting
status_columns deal_status actor_user_id now u =
    let touched : Underwriting = record u {
      deal_status = some (value deal_status);
      analyst_id = if is_none u.analyst_id then some actor_user_id else u.analyst_id;
    } in
    if same deal_status present_to_clients
    then record touched { approver_id = some actor_user_id; deal_approved = some now }
    else touched

unfoldable pub webhook_for : Wiring → DealStatus → Option Webhook
webhook_for wiring deal_status =
    if same deal_status present_to_clients
    then (if wiring.present_to_clients_webhook_service
        then some present_to_clients_webhook
        else none)
    else if same deal_status analyst_completed
    then (if wiring.analyst_completed_webhook_service then some analyst_completed_webhook else none)
    else none

-- `_trigger_n8n_webhook` never raises; an announcement is an attempt to send.
abbrev pub announce : Bool → Option Webhook → Underwriting → List (Webhook × Underwriting)
announce false w u = []
announce true none u = []
announce true (some w) u = (w, u) ∷ []

abbrev pub logged {ℓ} : {A : Type ℓ} → Result LogError A → Result DealError A
logged (err e) = err (log_error e)
logged (ok a) = ok a

-- `build_underwriting_snapshot` is an argument of the call, so it raises before anything is logged.
abbrev pub snapshotted {ℓ} : {A : Type ℓ} → Result String A → Result DealError A
snapshotted (err e) = err (snapshot_error e)
snapshotted (ok a) = ok a

abbrev pub status_request :
    Option String → DealStatus → ℕ → Underwriting → SnapshotInput → TransitionRequest
status_request previous_status deal_status actor_user_id u snapshot = record {
  subject_type = "underwriting";
  subject_id = u.id;
  flow = "deal_status";
  expected_from_status = previous_status;
  to_status = value deal_status;
  source = "api";
  actor_user_id = some actor_user_id;
  note = none;
  metadata = none;
  snapshot = some snapshot;
  occurred_at = none;
}

module _ (payload_hash : Json → String)
    (build_snapshot : Underwriting → Result String SnapshotInput) where
  -- A repeated request is not a transition.
  unfoldable pub log_change :
      Wiring → Option String → DealStatus → ℕ → Underwriting → Db → Result DealError Db
  log_change wiring previous_status deal_status actor_user_id u db =
      if wiring.process_log && not (is_status previous_status deal_status)
      then (do
        snapshot ← snapshotted (build_snapshot u)
        recorded ← logged (
            record_transition payload_hash
              (status_request previous_status deal_status actor_user_id u snapshot) db.log)
        ok (record db { log = recorded.1 }))
      else ok db

  -- The result, what is announced, and the tables as they are committed.
  unfoldable pub update_deal_status :
      Wiring
      → ℕ
      → DealStatus
      → ℕ
      → ℕ
      → Db
      → Result DealError (UpdateDealStatusResult × List (Webhook × Underwriting) × Db)
  update_deal_status wiring underwriting_id deal_status actor_user_id now db =
      elim (get_by_id underwriting_id db) [
        | none ↦ err (lookup_error underwriting_id)
        | some existing ↦
            let synced = sync_listing_removal wiring existing deal_status db in
            let written =
              update underwriting_id (status_columns deal_status actor_user_id now) synced in
            elim written.0 [
              | none ↦ err (lookup_error underwriting_id)
              | some u ↦ do
                committed ←
                    log_change wiring existing.deal_status deal_status actor_user_id u written.1
                ok (
                  record { underwriting_id = u.id; deal_status = u.deal_status },
                  announce (not (is_status existing.deal_status deal_status))
                      (webhook_for wiring deal_status) u,
                  committed,
                )
            ]
      ]

unfoldable pub update_property_pending : ℕ → Bool → Db → Result DealError (ℕ × Bool × Db)
update_property_pending underwriting_id property_pending db =
    let written =
      update underwriting_id (λ u. record u { property_pending = property_pending }) db in
    elim written.0 [
      | none ↦ err (lookup_error underwriting_id)
      | some u ↦ ok (u.id, u.property_pending, written.1)
    ]
