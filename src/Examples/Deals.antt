-- ===== src/Examples/Deals.antt =====
-- Deal statuses, expense rows and child rows at concrete inputs.
use mathlib.Core.Path.{subst}
use adus_be.Json.{Json, null}
use adus_be.Prelude.{
  ◌≢◌, ℕ, ◌≡◌, refl, true, false, Option, none, some, List, [], ◌∷◌, String, Result, ok, err,
  if◌then◌else◌, head?, Bool-cases, inl, inr, ◌==◌, ==_iff, sym, ap, arith,
}
use adus_be.DealStatus.{value, same, present_to_clients}
use adus_be.ProcessLog.{Key, Transition, key_eq, subject_type_of, flow_of, source_of}
use adus_be.ProcessLog.Repository.{
  chain, upsert_snapshot, find_snapshot, insert_transition, passes_checks, place_is_taken, has_head,
  has_successor, passes_foreign_keys, has_link_target, get_tail,
}
use adus_be.ProcessLog.Service.{
  SnapshotInput, record_transition, settle, write_row, take_snapshot, opt_eq,
}
use adus_be.ProcessLog.Chain.{Grown}
use adus_be.ProcessLog.Record.{history}
use adus_be.Deals.{
  Underwriting, Db, Webhook, Wiring, UpdateDealStatusResult, get_by_id, update, update_deal_status,
  status_columns, sync_listing_removal, log_change, webhook_for, present_to_clients_webhook,
}
use adus_be.Deals.Chains.{deal_key}
use adus_be.Deals.StatusUpdates.{Moved, update_deal_status-Moved}
use adus_be.Deals.Creation.{record_created, record_created_lem}
use adus_be.Deals.InStep.{IsInStep, update_deal_status-IsInStep}

abbrev no_hash : Json → String
no_hash j = "hash"

abbrev document : SnapshotInput
document = record { schema_version = 1; payload = null }

-- the stored JSON of the deal 8 is malformed
abbrev snapshot : Underwriting → Result String SnapshotInput
snapshot u = if u.id == 8 then err "ValidationError" else ok document

abbrev wiring : Wiring
wiring = record {
  listings_service = true;
  process_log = true;
  present_to_clients_webhook_service = true;
  analyst_completed_webhook_service = false;
}

abbrev deal : Underwriting
deal = record {
  id = 7;
  deal_status = some "maybe";
  analyst_id = none;
  approver_id = none;
  deal_approved = none;
  zpid = none;
  property_pending = false;
}

abbrev head : Transition
head = record {
  id = 1;
  row = record {
    key = deal_key 7;
    previous_transition_id = none;
    from_status = none;
    to_status = "maybe";
    source = "api";
    actor_user_id = some 3;
    note = none;
    metadata = none;
    snapshot_id = none;
  };
  occurred_at = 5;
}

abbrev start : Db
start = record {
  underwritings = deal ∷ [];
  listings = [];
  log = record {
    transitions = head ∷ [];
    next_transition_id = 2;
    snapshots = [];
    next_snapshot_id = 1;
    user_ids = 3 ∷ [];
    now = 5;
  };
}

start-Grown : Grown start.log.next_transition_id start.log.transitions
unfolding chain
start-Grown = (omega arith, (refl, refl), tt)

update_deal_status-Moved_example :
    (r : UpdateDealStatusResult) × (sent : List (Webhook × Underwriting)) × (db' : Db)
    × (update_deal_status no_hash snapshot wiring 7 present_to_clients 3 9 start
        ≡ ok (r, sent, db'))
    × Moved wiring 7 present_to_clients 3 9 deal sent start db'
unfolding get_by_id same
update_deal_status-Moved_example =
    update_deal_status-Moved no_hash snapshot wiring 7 present_to_clients 3 9 start deal refl
      start-Grown refl refl (λ new. (document, refl))

abbrev presented : Db
presented = record {
  underwritings =
      record deal {
        deal_status = some "present_to_clients";
        analyst_id = some 3;
        approver_id = some 3;
        deal_approved = some 9;
      }
      ∷ [];
  listings = [];
  log = record start.log {
    transitions =
        record {
          id = 2;
          row = record {
            key = deal_key 7;
            previous_transition_id = some 1;
            from_status = some "maybe";
            to_status = "present_to_clients";
            source = "api";
            actor_user_id = some 3;
            note = none;
            metadata = none;
            snapshot_id = some 1;
          };
          occurred_at = 5;
        }
        ∷ head
        ∷ [];
    next_transition_id = 3;
    snapshots =
        record {
          id = 1;
          subject_type = "underwriting";
          subject_id = 7;
          schema_version = 1;
          payload = null;
          payload_hash = "hash";
        }
        ∷ [];
    next_snapshot_id = 2;
  };
}

abbrev presented_deal : Underwriting
presented_deal = status_columns present_to_clients 3 9 deal

abbrev answer : UpdateDealStatusResult
answer = record { underwriting_id = 7; deal_status = some "present_to_clients" }

presented_run :
    update_deal_status no_hash snapshot wiring 7 present_to_clients 3 9 start
    ≡ ok (answer, (present_to_clients_webhook, presented_deal) ∷ [], presented)
unfolding update_deal_status get_by_id update sync_listing_removal log_change record_transition
    settle write_row take_snapshot upsert_snapshot find_snapshot insert_transition passes_checks
    place_is_taken has_head has_successor passes_foreign_keys has_link_target get_tail
    subject_type_of flow_of source_of opt_eq value same webhook_for key_eq
presented_run = refl

abbrev status_in : Option Underwriting → Option String
status_in none = none
status_in (some u) = u.deal_status

start-IsInStep : IsInStep start
unfolding get_by_id history chain key_eq
start-IsInStep i u h = elim (Bool-cases (7 == i)) [
  | inl e ↦
      let at : 7 ≡ i = (==_iff 7 i).0 e in
      let own : some deal ≡ some u = subst (λ k. get_by_id k start ≡ some u) (sym at) h in
      subst (λ k. head? (history (deal_key k) start.log) ≡ u.deal_status) at (ap status_in own)
  | inr e ↦ ground arith
]

update_deal_status-IsInStep_example :
    IsInStep presented × Grown presented.log.next_transition_id presented.log.transitions
update_deal_status-IsInStep_example =
    update_deal_status-IsInStep no_hash snapshot wiring 7 present_to_clients 3 9 start presented
      answer ((present_to_clients_webhook, presented_deal) ∷ []) refl start-Grown refl
      start-IsInStep presented_run

abbrev no_log : adus_be.ProcessLog.Db
no_log = record start.log { transitions = [] }

record_created_lem_example :
    (log' : adus_be.ProcessLog.Db) × (record_created no_hash snapshot deal "job" none none no_log
      ≡ ok log')
    × (history (deal_key 7) log' ≡ "maybe" ∷ [])
    × ((j : ℕ) → 7 ≢ j → history (deal_key j) log' ≡ history (deal_key j) no_log)
    × Grown log'.next_transition_id log'.transitions
unfolding source_of history chain
record_created_lem_example =
    record_created_lem no_hash snapshot deal "maybe" "job" none none no_log document refl refl tt
      refl refl refl
