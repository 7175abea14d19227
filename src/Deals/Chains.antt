-- ===== src/Deals/Chains.antt =====
-- What a change of status leaves in the process log (`log_change`, the call of record_transition in
-- app/iron_bank/services/operations/update_underwriting_service.py).
use adus_be.Json.{Json}
use adus_be.Prelude.{
  ℕ, ◌≡◌, ◌≢◌, ◌↔◌, refl, ap, ◌∙◌, Bool, true, false, ◌&&◌, not, Option, none, some, List, [], ◌∷◌,
  head?, String, eq_iff, if◌then◌else◌, Result, ok, Bool-cases, inl, inr, arith,
}
use adus_be.DealStatus.{DealStatus, value}
use adus_be.ProcessLog.{
  Key, key_eq, key_eq_iff, Transition, LogError, subject_type_of, flow_of, source_of,
}
use adus_be.ProcessLog.Repository.{known}
use adus_be.ProcessLog.Service.{SnapshotInput, opt_eq}
use adus_be.ProcessLog.Chain.{Grown}
use adus_be.ProcessLog.Record.{history, recorded}
use adus_be.ProcessLog.Record.Refinement.{record_transition_refines}
use adus_be.Deals.{Underwriting, Db, Wiring, is_status, status_request, log_change}

abbrev pub deal_key : ℕ → Key
deal_key i = record { subject_type = "underwriting"; subject_id = i; flow = "deal_status" }

pub recorded-top :
    (h : List String) (expected : Option String) (to : String)
    → head? (recorded h expected to) ≡ some to
recorded-top [] none to = refl
recorded-top [] (some e) to = refl
recorded-top (t ∷ h) none to = ground (arith, eq_iff t to)
recorded-top (t ∷ h) (some e) to = ground arith

pub opt_eq-some_iff : (a : Option String) (b : String) → (opt_eq a (some b) ≡ true) ↔ (a ≡ some b)
unfolding opt_eq
opt_eq-some_iff none b = (λ h. cc, λ h. cc)
opt_eq-some_iff (some a) b = (λ h. ap some ((eq_iff a b).0 h), λ h. (eq_iff a b).1 (cc h))

pub deal_key-ne : (i j : ℕ) → i ≢ j → key_eq (deal_key i) (deal_key j) ≡ false
unfolding key_eq
deal_key-ne i j n = ground arith

logs_nothing :
    (on repeated : Bool) {A : Type 0} (r a : A)
    → repeated ≡ true
    → (if on && not repeated then r else a) ≡ a
logs_nothing on repeated r a e = ground arith

logs :
    (on repeated : Bool) {A : Type 0} (r a : A)
    → on ≡ true
    → repeated ≡ false
    → (if on && not repeated then r else a) ≡ r
logs on repeated r a p e = ground arith

-- What the log holds after a change from `previous` to `status` of the deal `i`.
pub record Logged (i : ℕ) (previous : Option String) (status : String)
    (log log' : adus_be.ProcessLog.Db) : Type 0 where
  pub moved :
      previous ≢ some status
      → history (deal_key i) log' ≡ recorded (history (deal_key i) log) previous status
  pub repeated : previous ≡ some status → log' ≡ log
  pub others : (j : ℕ) → i ≢ j → history (deal_key j) log' ≡ history (deal_key j) log
  pub grown : Grown log'.next_transition_id log'.transitions
  pub users : log'.user_ids ≡ log.user_ids

module _ (payload_hash : Json → String)
    (build_snapshot : Underwriting → Result String SnapshotInput) where
  -- a snapshot of the row can be built, where one is
  abbrev pub Builds : Option String → DealStatus → Underwriting → Type 0
  Builds previous s u =
      previous ≢ some (value s) → (snapshot : SnapshotInput) × (build_snapshot u ≡ ok snapshot)

  pub log_change-Logged :
      (w : Wiring) (previous : Option String) (s : DealStatus) (actor : ℕ) (u : Underwriting)
      (db : Db)
      → w.process_log ≡ true
      → Grown db.log.next_transition_id db.log.transitions
      → known (some actor) db.log.user_ids ≡ true
      → Builds previous s u
      → (log' : adus_be.ProcessLog.Db) × (log_change payload_hash build_snapshot w previous s actor
            u db
          ≡ ok (record db { log = log' }))
        × Logged u.id previous (value s) db.log log'
  unfolding log_change subject_type_of flow_of source_of
  log_change-Logged w previous s actor u db p g k b = elim (Bool-cases (is_status previous s)) [
    | inl e ↦ (
      db.log,
      logs_nothing w.process_log (is_status previous s) _ _ e,
      record {
        moved = λ n. absurd (n ((opt_eq-some_iff previous (value s)).0 e));
        repeated = λ _. refl;
        others = λ j n. refl;
        grown = g;
        users = refl;
      },
    )
    | inr e ↦
        let new : previous ≢ some (value s) =
          λ h. ground (arith, (opt_eq-some_iff previous (value s)).1 h) in
        let (snapshot, built) = b new in
        let q = status_request previous s actor u snapshot in
        let (id, log', ran, r) =
          record_transition_refines payload_hash q db.log g
            (record { subject = refl; flow = refl; source = refl; actor = k }) new in
        (
          log',
          logs w.process_log (is_status previous s) _ _ p e ∙ rw (built, ran) refl,
          record {
            moved = λ _. r.own;
            repeated = λ h. absurd (new h);
            others = λ j n. r.others (deal_key j) (deal_key-ne u.id j n);
            grown = r.grown;
            users = r.users;
          },
        )
  ]
