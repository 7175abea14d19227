-- ===== src/Deals/Creation.antt =====
-- The first row of a deal's chain (record_created of
-- app/iron_bank/services/deal_status_history.py).
use adus_be.Json.{Json}
use adus_be.Prelude.{
  ℕ, ◌≡◌, ◌≢◌, refl, ap, ◌∙◌, true, Option, none, some, is_some, [], ◌∷◌, String, Result, ok, ◌>>=◌,
}
use adus_be.ProcessLog.{LogError, subject_type_of, flow_of, source_of, key_eq}
use adus_be.ProcessLog.Repository.{known}
use adus_be.ProcessLog.Service.{SnapshotInput, TransitionRequest, record_transition}
use adus_be.ProcessLog.Chain.{Grown}
use adus_be.ProcessLog.Record.{history, recorded}
use adus_be.ProcessLog.Record.Refinement.{record_transition_refines}
use adus_be.Deals.{Underwriting, DealError, snapshotted, logged}
use adus_be.Deals.Chains.{deal_key, deal_key-ne}

module _ (payload_hash : Json → String)
    (build_snapshot : Underwriting → Result String SnapshotInput) where
  abbrev pub creation_request :
      Underwriting → String → String → Option ℕ → Option Json → SnapshotInput → TransitionRequest
  creation_request u status source actor metadata snapshot = record {
    subject_type = "underwriting";
    subject_id = u.id;
    flow = "deal_status";
    expected_from_status = none;
    to_status = status;
    source = source;
    actor_user_id = actor;
    note = none;
    metadata = metadata;
    snapshot = some snapshot;
    occurred_at = none;
  }

  -- A null status starts no chain.
  abbrev log_created :
      Option String
      → Underwriting
      → String
      → Option ℕ
      → Option Json
      → adus_be.ProcessLog.Db
      → Result DealError adus_be.ProcessLog.Db
  log_created none u source actor metadata log = ok log
  log_created (some status) u source actor metadata log = do
    snapshot ← snapshotted (build_snapshot u)
    recorded ← logged (
        record_transition payload_hash (creation_request u status source actor metadata snapshot)
          log)
    ok recorded.1

  unfoldable pub record_created :
      Underwriting
      → String
      → Option ℕ
      → Option Json
      → adus_be.ProcessLog.Db
      → Result DealError adus_be.ProcessLog.Db
  record_created u = log_created u.deal_status u

  writes :
      (u : Underwriting) (status source : String) (actor : Option ℕ) (metadata : Option Json)
      (log : adus_be.ProcessLog.Db) (id : ℕ) (log' : adus_be.ProcessLog.Db)
      (snapshot : SnapshotInput)
      → u.deal_status ≡ some status
      → build_snapshot u ≡ ok snapshot
      → record_transition payload_hash
          (creation_request u status source actor metadata snapshot)
          log
        ≡ ok (id, log')
      → record_created u source actor metadata log ≡ ok log'
  unfolding record_created
  writes u status source actor metadata log id log' snapshot e built ran =
      ap (λ o. log_created o u source actor metadata log) e ∙ rw (built, ran) refl

  -- With a process log whose chains are lists, a source that exists, a user that exists (or none) and a
  -- row of which a snapshot can be built, a new deal with a status and no chain gets a chain that holds just that status; no other deal's
  -- chain changes, and the chains are lists again.
  pub record_created_lem :
      (u : Underwriting) (status source : String) (actor : Option ℕ) (metadata : Option Json)
      (log : adus_be.ProcessLog.Db) (snapshot : SnapshotInput)
      → build_snapshot u ≡ ok snapshot
      → u.deal_status ≡ some status
      → Grown log.next_transition_id log.transitions
      → is_some (source_of source) ≡ true
      → known actor log.user_ids ≡ true
      → history (deal_key u.id) log ≡ []
      → (log' : adus_be.ProcessLog.Db) × (record_created u source actor metadata log ≡ ok log')
        × (history (deal_key u.id) log' ≡ status ∷ [])
        × ((j : ℕ) → u.id ≢ j → history (deal_key j) log' ≡ history (deal_key j) log)
        × Grown log'.next_transition_id log'.transitions
  unfolding subject_type_of flow_of
  record_created_lem u status source actor metadata log snapshot built e g s k empty =
      let (id, log', ran, r) =
        record_transition_refines payload_hash
          (creation_request u status source actor metadata snapshot) log g
          (record { subject = refl; flow = refl; source = s; actor = k }) (λ h. cc h) in
      (
        log',
        writes u status source actor metadata log id log' snapshot e built ran,
        r.own ∙ ap (λ h. recorded h none status) empty,
        λ j n. r.others (deal_key j) (deal_key-ne u.id j n),
        r.grown,
      )
