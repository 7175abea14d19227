-- ===== src/Examples/Log.antt =====
-- The process log on small tables.
use adus_be.Json.{Json, null}
use adus_be.Prelude.{ℕ, ◌≡◌, refl, none, some, [], ◌∷◌, String, some_ne, ok}
use adus_be.ProcessLog.{Key, TransitionRow, Db, key_eq, subject_type_of, flow_of, source_of}
use adus_be.ProcessLog.Repository.{
  insert_transition, stored, with_row, passes_checks, place_is_taken, passes_foreign_keys, has_head,
  insert_heads,
}
use adus_be.ProcessLog.Service.{
  TransitionRequest, HeadSeed, record_transition, seed_heads, upsert_snapshots, head_rows, head_row,
}
use adus_be.ProcessLog.Chain.{Grown}
use adus_be.ProcessLog.Inserts.{insert_transition-Grown}
use adus_be.ProcessLog.Record.{history, recorded, Recorded}
use adus_be.ProcessLog.Record.Refinement.{key_of, IsAdmissible, record_transition_refines}
use adus_be.ProcessLog.Rerun.{seed_heads_rerun}

abbrev deal : Key
deal = record { subject_type = "underwriting"; subject_id = 7; flow = "deal_status" }

abbrev empty : Db
empty = record {
  transitions = [];
  next_transition_id = 1;
  snapshots = [];
  next_snapshot_id = 1;
  user_ids = 3 ∷ [];
  now = 50;
}

abbrev head : TransitionRow
head = record {
  key = deal;
  previous_transition_id = none;
  from_status = none;
  to_status = "template_generated";
  source = "job";
  actor_user_id = none;
  note = none;
  metadata = none;
  snapshot_id = none;
}

head_inserted :
    insert_transition head none empty ≡ ok (stored head none empty, with_row head none empty)
unfolding insert_transition passes_checks place_is_taken passes_foreign_keys source_of
head_inserted = refl

abbrev one_row : Db
one_row = with_row head none empty

one_row-Grown : Grown one_row.next_transition_id one_row.transitions
one_row-Grown = insert_transition-Grown head none empty tt head_inserted

insert_transition-Grown_example : Grown one_row.next_transition_id one_row.transitions
insert_transition-Grown_example = insert_transition-Grown head none empty tt head_inserted

abbrev request : TransitionRequest
request = record {
  subject_type = "underwriting";
  subject_id = 7;
  flow = "deal_status";
  expected_from_status = some "maybe";
  to_status = "delete_deal";
  source = "api";
  actor_user_id = some 3;
  note = none;
  metadata = none;
  snapshot = some (record { schema_version = 1; payload = null });
  occurred_at = none;
}

abbrev no_hash : Json → String
no_hash j = "hash"

request-IsAdmissible : IsAdmissible request one_row
unfolding subject_type_of flow_of source_of
request-IsAdmissible = record { subject = refl; flow = refl; source = refl; actor = refl }

record_transition_refines_example :
    (id : ℕ) × (db' : Db) × (record_transition no_hash request one_row ≡ ok (id, db'))
    × Recorded
        (key_of request)
        (recorded (history (key_of request) one_row) (some "maybe") "delete_deal")
        id
        one_row
        db'
record_transition_refines_example =
    record_transition_refines no_hash request one_row one_row-Grown request-IsAdmissible
      (some_ne "maybe" "delete_deal" refl)

-- the log missed a change, so a repair row stands below the real one
drift_is_repaired :
    recorded ("template_generated" ∷ []) (some "maybe") "delete_deal"
    ≡ "delete_deal" ∷ "maybe" ∷ "template_generated" ∷ []
drift_is_repaired = refl

abbrev seed : HeadSeed
seed = record {
  subject_type = "underwriting";
  subject_id = 7;
  flow = "deal_status";
  to_status = "maybe";
  source = "backfill";
  actor_user_id = none;
  note = none;
  occurred_at = some 20;
  snapshot = none;
}

abbrev seeded_row : TransitionRow
seeded_row = record head { to_status = "maybe"; source = "backfill" }

abbrev seeded : Db
seeded = record (with_row seeded_row (some 20) empty) { next_transition_id = 3 }

backfilled : seed_heads no_hash (seed ∷ seed ∷ []) empty ≡ ok (1, seeded)
unfolding seed_heads upsert_snapshots head_rows head_row insert_heads passes_checks
    passes_foreign_keys has_head key_eq subject_type_of flow_of source_of
backfilled = refl

seed_heads_rerun_example :
    (db : Db) × (seed_heads no_hash (seed ∷ seed ∷ []) seeded ≡ ok (0, db))
    × (db.transitions ≡ seeded.transitions)
seed_heads_rerun_example = seed_heads_rerun no_hash (seed ∷ seed ∷ []) empty 1 seeded tt backfilled
