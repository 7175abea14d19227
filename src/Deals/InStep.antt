-- ===== src/Deals/InStep.antt =====
-- The row of a deal and its chain in the process log (update_deal_status of
-- app/iron_bank/services/operations/update_underwriting_service.py), over several changes.
use mathlib.Core.Path.{subst}
use adus_be.Json.{Json}
use adus_be.Prelude.{
  ℕ, ◌≡◌, ◌≢◌, refl, sym, ap, ◌∙◌, true, not, Option, none, some, List, [], head?, String, ◌==◌,
  ==_iff, Result, ok, err, Bool-cases, Option-cases, inl, inr, arith,
}
use adus_be.DealStatus.{DealStatus, value}
use adus_be.ProcessLog.Repository.{known}
use adus_be.ProcessLog.Service.{SnapshotInput}
use adus_be.ProcessLog.Chain.{Grown}
use adus_be.ProcessLog.Record.{history}
use adus_be.Deals.{
  Underwriting, Db, Webhook, Wiring, DealError, lookup_error, UpdateDealStatusResult, get_by_id,
  is_status, status_columns, announce, webhook_for, update_deal_status,
}
use adus_be.Deals.Chains.{deal_key, recorded-top, opt_eq-some_iff}
use adus_be.Deals.StatusUpdates.{Moved, update_deal_status-Builds, update_deal_status-Moved}

-- The newest status that the log has of a deal is the one in its row.
abbrev pub IsInStep : Db → Type 0
IsInStep db =
    (i : ℕ) (u : Underwriting)
    → get_by_id i db ≡ some u
    → head? (history (deal_key i) db.log) ≡ u.deal_status

status_columns-deal_status :
    (s : DealStatus) (actor now : ℕ) (u : Underwriting)
    → (status_columns s actor now u).deal_status ≡ some (value s)
status_columns-deal_status s actor now u = ground arith

abbrev status_in : Option Underwriting → Option String
status_in none = none
status_in (some u) = u.deal_status

abbrev committed :
    Db → Result DealError (UpdateDealStatusResult × List (Webhook × Underwriting) × Db) → Db
committed db (err e) = db
committed db (ok (r, sent, db')) = db'

module _ (payload_hash : Json → String)
    (build_snapshot : Underwriting → Result String SnapshotInput) where
  not_found :
      (w : Wiring) (i : ℕ) (s : DealStatus) (actor now : ℕ) (db : Db)
      → get_by_id i db ≡ none
      → update_deal_status payload_hash build_snapshot w i s actor now db ≡ err (lookup_error i)
  unfolding update_deal_status
  not_found w i s actor now db missing = rw (update_deal_status, missing) refl

  Moved-top :
      (w : Wiring) (i : ℕ) (s : DealStatus) (actor now : ℕ) (existing : Underwriting)
      (sent : List (Webhook × Underwriting)) (db db' : Db)
      → head? (history (deal_key i) db.log) ≡ existing.deal_status
      → Moved w i s actor now existing sent db db'
      → head? (history (deal_key i) db'.log) ≡ some (value s)
  Moved-top w i s actor now existing sent db db' before m =
      elim (Bool-cases (is_status existing.deal_status s)) [
        | inl e ↦
            let kept = (opt_eq-some_iff existing.deal_status (value s)).0 e in
            ap (λ l. head? (history (deal_key i) l)) (m.log.repeated kept) ∙ before ∙ kept
        | inr e ↦
            let new : existing.deal_status ≢ some (value s) =
              λ h. ground (arith, (opt_eq-some_iff existing.deal_status (value s)).1 h) in
            ap head? (m.log.moved new)
            ∙ recorded-top (history (deal_key i) db.log) existing.deal_status (value s)
      ]

  Moved-IsInStep :
      (w : Wiring) (i : ℕ) (s : DealStatus) (actor now : ℕ) (existing : Underwriting)
      (sent : List (Webhook × Underwriting)) (db db' : Db)
      → get_by_id i db ≡ some existing
      → IsInStep db
      → Moved w i s actor now existing sent db db'
      → IsInStep db'
  Moved-IsInStep w i s actor now existing sent db db' h step m j u e = elim (Bool-cases (i == j)) [
    | inl y ↦
        let at : i ≡ j = (==_iff i j).0 y in
        let own : get_by_id i db' ≡ some u = subst (λ k. get_by_id k db' ≡ some u) (sym at) e in
        let row : some (status_columns s actor now existing) ≡ some u = sym m.row ∙ own in
        let top : head? (history (deal_key j) db'.log) ≡ some (value s) =
          subst (λ k. head? (history (deal_key k) db'.log) ≡ some (value s)) at
            (Moved-top w i s actor now existing sent db db' (step i existing h) m) in
        top ∙ sym (status_columns-deal_status s actor now existing) ∙ ap status_in row
    | inr n ↦
        let apart : i ≢ j = λ x. ground (arith, (==_iff i j).1 x) in
        ap head? (m.log.others j apart) ∙ step j u (sym (m.other_rows j apart) ∙ e)
  ]

  -- Where the log has a process log whose chains are lists, and every deal's newest logged status is
  -- the one in its row, that is so again after any change of status of any deal.
  pub update_deal_status-IsInStep :
      (w : Wiring) (i : ℕ) (s : DealStatus) (actor now : ℕ) (db db' : Db)
      (r : UpdateDealStatusResult) (sent : List (Webhook × Underwriting))
      → w.process_log ≡ true
      → Grown db.log.next_transition_id db.log.transitions
      → known (some actor) db.log.user_ids ≡ true
      → IsInStep db
      → update_deal_status payload_hash build_snapshot w i s actor now db ≡ ok (r, sent, db')
      → IsInStep db' × Grown db'.log.next_transition_id db'.log.transitions
  update_deal_status-IsInStep w i s actor now db db' r sent p g k step h =
      elim (Option-cases (get_by_id i db)) [
        | inl missing ↦ cc (not_found w i s actor now db missing, h)
        | inr (existing, found) ↦
            let (r0, sent0, db0, ran, m) =
              update_deal_status-Moved payload_hash build_snapshot w i s actor now db existing p g k
                found
                (update_deal_status-Builds payload_hash build_snapshot w i s actor now db existing
                  (r, sent, db') p found h) in
            let same : db0 ≡ db' = ap (committed db) (sym ran ∙ h) in
            subst (λ d. IsInStep d × Grown d.log.next_transition_id d.log.transitions) same
              (Moved-IsInStep w i s actor now existing sent0 db db0 found step m, m.log.grown)
      ]

  again :
      (w : Wiring) (i : ℕ) (s : DealStatus) (actor now later : ℕ) (existing : Underwriting)
      (sent : List (Webhook × Underwriting)) (db db' : Db)
      → w.process_log ≡ true
      → known (some actor) db.log.user_ids ≡ true
      → Moved w i s actor now existing sent db db'
      → (r' : UpdateDealStatusResult) × (db'' : Db) × (update_deal_status payload_hash
            build_snapshot w i s actor later db'
          ≡ ok (r', [], db''))
        × (db''.log ≡ db'.log)
  again w i s actor now later existing sent db db' p k m =
      let set = status_columns s actor now existing in
      let status = status_columns-deal_status s actor now existing in
      let known_still = subst (λ l. known (some actor) l ≡ true) (sym m.log.users) k in
      let (r', sent', db'', ran, n) =
        update_deal_status-Moved payload_hash build_snapshot w i s actor later db' set p m.log.grown
          known_still m.row (λ new. absurd (new status)) in
      let silent : sent' ≡ [] =
        n.announced
        ∙ ap (λ b. announce (not b) (webhook_for w s) (status_columns s actor later set))
            ((opt_eq-some_iff set.deal_status (value s)).1 status) in
      (r', db'', ran ∙ ap (λ l. ok (r', l, db'')) silent, n.log.repeated status)

  -- Under the same conditions, asking for the same status again after it was set succeeds, announces
  -- nothing, and leaves the log as it is.
  pub update_deal_status_again :
      (w : Wiring) (i : ℕ) (s : DealStatus) (actor now later : ℕ) (db db' : Db)
      (existing : Underwriting) (r : UpdateDealStatusResult) (sent : List (Webhook × Underwriting))
      → w.process_log ≡ true
      → Grown db.log.next_transition_id db.log.transitions
      → known (some actor) db.log.user_ids ≡ true
      → get_by_id i db ≡ some existing
      → update_deal_status payload_hash build_snapshot w i s actor now db ≡ ok (r, sent, db')
      → (r' : UpdateDealStatusResult) × (db'' : Db) × (update_deal_status payload_hash
            build_snapshot w i s actor later db'
          ≡ ok (r', [], db''))
        × (db''.log ≡ db'.log)
  update_deal_status_again w i s actor now later db db' existing r sent p g k found h =
      let (r0, sent0, db0, ran, m) =
        update_deal_status-Moved payload_hash build_snapshot w i s actor now db existing p g k found
          (update_deal_status-Builds payload_hash build_snapshot w i s actor now db existing
            (r, sent, db') p found h) in
      let same : db0 ≡ db' = ap (committed db) (sym ran ∙ h) in
      subst
        (λ (d : Db).
          (r' : UpdateDealStatusResult) × (db'' : Db) × (update_deal_status payload_hash
              build_snapshot w i s actor later d
            ≡ ok (r', [], db''))
          × (db''.log ≡ d.log))
        same (again w i s actor now later existing sent0 db db0 p k m)
