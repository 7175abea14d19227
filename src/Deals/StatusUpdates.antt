-- ===== src/Deals/StatusUpdates.antt =====
-- Changes of a deal's status (update_deal_status of
-- app/iron_bank/services/operations/update_underwriting_service.py) and the process log.
use mathlib.Core.Path.{subst}
use adus_be.Json.{Json}
use adus_be.Prelude.{
  ℕ, ◌≡◌, ◌≢◌, refl, sym, ap, ◌∙◌, true, false, not, Option, none, some, List, String, ◌==◌, find,
  Result, ok, err, ◌>>=◌, >>=-eq-ok, ok≢err, Result-cases, Bool-cases, inl, inr, arith,
}
use adus_be.DealStatus.{DealStatus, value, same, same_iff, present_to_clients}
use adus_be.ProcessLog.{
  Key, key_eq, key_eq_iff, Transition, LogError, subject_type_of, flow_of, source_of,
}
use adus_be.ProcessLog.Repository.{known}
use adus_be.ProcessLog.Service.{SnapshotInput}
use adus_be.ProcessLog.Chain.{Grown}
use adus_be.Deals.{
  Underwriting, Db, Webhook, Wiring, snapshot_error, UpdateDealStatusResult, get_by_id, update,
  is_status, sync_listing_removal, status_columns, webhook_for, announce, log_change,
  update_deal_status,
}
use adus_be.Deals.Rows.{
  status_columns-id, sync_listing_removal-rows, update-Updated, update-listings, get_by_id-sync,
  get_by_id-id,
}
use adus_be.Deals.Chains.{Logged, Builds, log_change-Logged, opt_eq-some_iff}
use adus_be.Deals.Listings.{Relisted, sync_listing_removal-Relisted}

-- The columns of the deal's row after a change to `s`.
pub record RowChanged (s : DealStatus) (actor now : ℕ) (old new : Underwriting) : Type 0 where
  pub status : new.deal_status ≡ some (value s)
  pub first_touch : old.analyst_id ≡ none → new.analyst_id ≡ some actor
  pub analyst_stays : (a : ℕ) → old.analyst_id ≡ some a → new.analyst_id ≡ some a
  pub approved :
      s ≡ present_to_clients → (new.approver_id ≡ some actor) × (new.deal_approved ≡ some now)
  pub approver_stays :
      s ≢ present_to_clients
      → (new.approver_id ≡ old.approver_id) × (new.deal_approved ≡ old.deal_approved)
  pub rest_stays : (new.zpid ≡ old.zpid) × (new.property_pending ≡ old.property_pending)

status_columns-RowChanged :
    (s : DealStatus) (actor now : ℕ) (u : Underwriting)
    → RowChanged s actor now u (status_columns s actor now u)
status_columns-RowChanged s actor now u = elim (Bool-cases (same s present_to_clients)) [
  | inl e ↦ record {
    status = ground arith;
    first_touch = λ h. ground arith;
    analyst_stays = λ a h. ground arith;
    approved = λ h. ground arith;
    approver_stays = λ n. absurd (n ((same_iff s present_to_clients).0 e));
    rest_stays = ground arith;
  }
  | inr e ↦ record {
    status = ground arith;
    first_touch = λ h. ground arith;
    analyst_stays = λ a h. ground arith;
    approved = λ h. ground (arith, (same_iff s present_to_clients).1 h);
    approver_stays = λ n. ground arith;
    rest_stays = ground arith;
  }
]

-- What an accepted change of the deal `i` leaves.
pub record Moved (w : Wiring) (i : ℕ) (s : DealStatus) (actor now : ℕ) (existing : Underwriting)
    (sent : List (Webhook × Underwriting)) (db db' : Db) : Type 0 where
  pub row : get_by_id i db' ≡ some (status_columns s actor now existing)
  pub changed : RowChanged s actor now existing (status_columns s actor now existing)
  pub listings : Relisted w existing s db.listings db'.listings
  pub other_rows : (j : ℕ) → i ≢ j → get_by_id j db' ≡ get_by_id j db
  pub log : Logged i existing.deal_status (value s) db.log db'.log
  pub announced :
      sent
      ≡ announce
          (not (is_status existing.deal_status s))
          (webhook_for w s)
          (status_columns s actor now existing)

same_rows :
    (j : ℕ) (db db' : Db) → db'.underwritings ≡ db.underwritings → get_by_id j db' ≡ get_by_id j db
unfolding get_by_id
same_rows j db db' e = ap (find (λ (v : Underwriting). v.id == j)) e

is_status-no :
    (previous : Option String) (s : DealStatus)
    → previous ≢ some (value s)
    → is_status previous s ≡ false
is_status-no previous s n = elim (Bool-cases (is_status previous s)) [
  | inl e ↦ absurd (n ((opt_eq-some_iff previous (value s)).0 e))
  | inr e ↦ e
]

module _ (payload_hash : Json → String)
    (build_snapshot : Underwriting → Result String SnapshotInput) where
  pub steps :
      (w : Wiring) (i : ℕ) (s : DealStatus) (actor now : ℕ) (db : Db) (existing : Underwriting)
      → get_by_id i db ≡ some existing
      → (update i (status_columns s actor now) (sync_listing_removal w existing s db)).0
        ≡ some (status_columns s actor now existing)
      → update_deal_status payload_hash build_snapshot w i s actor now db ≡ (
          log_change payload_hash build_snapshot w existing.deal_status s actor
            (status_columns s actor now existing)
            (update i (status_columns s actor now) (sync_listing_removal w existing s db)).1
          >>= λ committed. ok (
            record {
              underwriting_id = (status_columns s actor now existing).id;
              deal_status = (status_columns s actor now existing).deal_status;
            },
            announce
                (not (is_status existing.deal_status s))
                (webhook_for w s)
                (status_columns s actor now existing),
            committed,
          ))
  unfolding update_deal_status
  steps w i s actor now db existing h found = rw (update_deal_status, h, found) refl

  -- an update that succeeds has built its snapshot
  pub update_deal_status-Builds :
      (w : Wiring) (i : ℕ) (s : DealStatus) (actor now : ℕ) (db : Db) (existing : Underwriting)
      (r : UpdateDealStatusResult × List (Webhook × Underwriting) × Db)
      → w.process_log ≡ true
      → get_by_id i db ≡ some existing
      → update_deal_status payload_hash build_snapshot w i s actor now db ≡ ok r
      → Builds payload_hash build_snapshot existing.deal_status s
          (status_columns s actor now existing)
  unfolding log_change
  update_deal_status-Builds w i s actor now db existing r p h ran new =
      let set = status_columns s actor now in
      let synced = sync_listing_removal w existing s db in
      let (found, u) =
        update-Updated i set synced existing (status_columns-id s actor now)
          (get_by_id-sync i w existing s db ∙ h) in
      let (committed, logged_it, _) =
        >>=-eq-ok
          (log_change payload_hash build_snapshot w existing.deal_status s actor (set existing)
            (update i set synced).1)
          _ (sym (steps w i s actor now db existing h found) ∙ ran) in
      elim (Result-cases (build_snapshot (set existing))) [
        | inl (snapshot, built) ↦ (snapshot, built)
        | inr (e, raised) ↦
            let stopped : log_change payload_hash build_snapshot w existing.deal_status s actor
                  (set existing) (update i set synced).1
                ≡ err (snapshot_error e) =
              rw (p, is_status-no existing.deal_status s new, raised) refl in
            absurd (ok≢err (sym logged_it ∙ stopped))
      ]

  -- With a process log whose chains are lists, a user that exists, a deal that exists and, where its
  -- status is new, a row of which a snapshot can be built, a change of status succeeds. The deal's row has the new status; its analyst is set only where there was
  -- none, and its approver only on presentation to clients; no other row changes. Its
  -- listing, where there are listings, is flagged for removal on entering delete_zillow and not any
  -- more on leaving it, and no listing changes otherwise. A status that is new is recorded in the
  -- deal's chain and in no other, a repeated one leaves the log alone, and only a new one is announced.
  pub update_deal_status-Moved :
      (w : Wiring) (i : ℕ) (s : DealStatus) (actor now : ℕ) (db : Db) (existing : Underwriting)
      → w.process_log ≡ true
      → Grown db.log.next_transition_id db.log.transitions
      → known (some actor) db.log.user_ids ≡ true
      → get_by_id i db ≡ some existing
      → Builds payload_hash build_snapshot existing.deal_status s
          (status_columns s actor now existing)
      → (r : UpdateDealStatusResult) × (sent : List (Webhook × Underwriting)) × (db' : Db)
        × (update_deal_status payload_hash build_snapshot w i s actor now db ≡ ok (r, sent, db'))
        × Moved w i s actor now existing sent db db'
  update_deal_status-Moved w i s actor now db existing p g k h b =
      let synced = sync_listing_removal w existing s db in
      let (rows, log) = sync_listing_removal-rows w existing s db in
      let set = status_columns s actor now in
      let (found, u) =
        update-Updated i set synced existing (status_columns-id s actor now)
          (get_by_id-sync i w existing s db ∙ h) in
      let written = (update i set synced).1 in
      let same : written.log ≡ db.log = u.log ∙ log in
      let own : (set existing).id ≡ i =
        status_columns-id s actor now existing ∙ get_by_id-id i db existing h in
      let (log', ran, l) =
        log_change-Logged payload_hash build_snapshot w existing.deal_status s actor (set existing)
          written p
          (subst (λ (l : adus_be.ProcessLog.Db). Grown l.next_transition_id l.transitions)
            (sym same) g)
          (subst (λ (l : adus_be.ProcessLog.Db). known (some actor) l.user_ids ≡ true) (sym same) k)
          b in
      (
        record { underwriting_id = (set existing).id; deal_status = (set existing).deal_status },
        announce (not (is_status existing.deal_status s)) (webhook_for w s) (set existing),
        record written { log = log' },
        steps w i s actor now db existing h found ∙ rw ran refl,
        record {
          row = same_rows i written (record written { log = log' }) refl ∙ u.row;
          changed = status_columns-RowChanged s actor now existing;
          listings =
              subst (Relisted w existing s db.listings) (sym (update-listings i set synced))
                (sync_listing_removal-Relisted w existing s db);
          other_rows = λ j n.
              same_rows j written (record written { log = log' }) refl
              ∙ u.others j n
              ∙ get_by_id-sync j w existing s db;
          log =
              subst (λ x. Logged i existing.deal_status (value s) x log') same
                (subst (λ x. Logged x existing.deal_status (value s) written.log log') own l);
          announced = refl;
        },
      )
