-- ===== src/ProcessLog/Service.antt =====
-- app/core/process_log/service.py over the repository. The SHA-256 of the canonical JSON form is the
-- parameter `payload_hash`. Nothing here commits: the tables come back beside the result.
use mathlib.Core.Option
use adus_be.Json.{Json}
use adus_be.Prelude.{
  ℕ, Bool, true, false, Option, none, some, List, [], ◌∷◌, String, str_eq, if◌then◌else◌, Result,
  ok, err, ◌>>=◌,
}
use adus_be.ProcessLog.{
  LogError, value_error, Key, TransitionRow, Transition, Snapshot, Db, subject_type_of, flow_of,
  source_of,
}
use adus_be.ProcessLog.Repository.{
  get_tail, insert_transition, get_chain, insert_heads, upsert_snapshot, find_snapshot,
}

-- schemas.py
pub record SnapshotInput : Type 0 where
  pub schema_version : ℕ
  pub payload : Json

-- the keyword arguments of `record_transition`
pub record TransitionRequest : Type 0 where
  pub subject_type : String
  pub subject_id : ℕ
  pub flow : String
  pub expected_from_status : Option String
  pub to_status : String
  pub source : String
  pub actor_user_id : Option ℕ
  pub note : Option String
  pub metadata : Option Json
  pub snapshot : Option SnapshotInput
  pub occurred_at : Option ℕ

pub record HeadSeed : Type 0 where
  pub subject_type : String
  pub subject_id : ℕ
  pub flow : String
  pub to_status : String
  pub source : String
  pub actor_user_id : Option ℕ
  pub note : Option String
  pub occurred_at : Option ℕ
  pub snapshot : Option SnapshotInput

abbrev pub drift_repair_note : String
drift_repair_note = "drift repair"

-- `Enum(text)`
abbrev pub or_raise {ℓ} : {A : Type ℓ} → Option A → Result LogError A
or_raise none = err value_error
or_raise (some a) = ok a

unfoldable pub opt_eq : Option String → Option String → Bool
opt_eq none none = true
opt_eq none (some b) = false
opt_eq (some a) none = false
opt_eq (some a) (some b) = str_eq a b

abbrev pub status_of : Option Transition → Option String
status_of none = none
status_of (some t) = some t.to_status

abbrev pub id_of : Option Transition → Option ℕ
id_of none = none
id_of (some t) = some t.id

-- The `system` row that bridges a gap between the log and the subject's row.
abbrev pub repair_row : Key → Option Transition → String → TransitionRow
repair_row k tail status = record {
  key = k;
  previous_transition_id = id_of tail;
  from_status = status_of tail;
  to_status = status;
  source = "system";
  actor_user_id = none;
  note = some drift_repair_note;
  metadata = none;
  snapshot_id = none;
}

abbrev pub real_row :
    Key → Option Transition → Option String → String → Option ℕ → TransitionRequest → TransitionRow
real_row k tail from source snapshot_id q = record {
  key = k;
  previous_transition_id = id_of tail;
  from_status = from;
  to_status = q.to_status;
  source = source;
  actor_user_id = q.actor_user_id;
  note = q.note;
  metadata = q.metadata;
  snapshot_id = snapshot_id;
}

module _ (payload_hash : Json → String) where
  -- `_upsert_snapshot`, where a snapshot is given
  unfoldable pub take_snapshot : String → ℕ → Option SnapshotInput → Db → Option ℕ × Db
  take_snapshot subject_type subject_id none db = (none, db)
  take_snapshot subject_type subject_id (some s) db =
      let (i, db') =
        upsert_snapshot subject_type subject_id s.schema_version s.payload (payload_hash s.payload)
          db in
      (some i, db')

  -- the real row, behind a tail whose status is `from`
  unfoldable pub write_row :
      Key → Option Transition → Option String → TransitionRequest → Db → Result LogError (ℕ × Db)
  write_row k tail from q db = do
    let taken = take_snapshot k.subject_type k.subject_id q.snapshot db
    source ← or_raise (source_of q.source)
    made ← insert_transition (real_row k tail from source taken.0 q) q.occurred_at taken.1
    ok (made.0.id, made.1)

  -- If the chain's tail is not at the expected status, the log missed a change.
  unfoldable pub settle :
      Option String → Key → Option Transition → TransitionRequest → Db → Result LogError (ℕ × Db)
  settle expected k tail q db =
      if opt_eq (status_of tail) expected then write_row k tail expected q db else elim expected [
        | none ↦ elim tail [
          | none ↦ write_row k none none q db
          | some t ↦
              if str_eq t.to_status q.to_status
              then ok (t.id, db)
              else write_row k (some t) (some t.to_status) q db
        ]
        | some e ↦ do
          bridge ← insert_transition (repair_row k tail e) none db
          write_row k (some bridge.0) (some e) q bridge.1
      ]

  unfoldable pub record_transition : TransitionRequest → Db → Result LogError (ℕ × Db)
  record_transition q db =
      if opt_eq q.expected_from_status (some q.to_status) then err value_error else do
        subject_type ← or_raise (subject_type_of q.subject_type)
        flow ← or_raise (flow_of q.flow)
        let k : Key = record { subject_type = subject_type; subject_id = q.subject_id; flow = flow }
        settle q.expected_from_status k (get_tail k db) q db

  -- The bulk insert of the seeds' snapshots; an existing row is kept.
  unfoldable pub upsert_snapshots : List HeadSeed → Db → Result LogError Db
  upsert_snapshots [] db = ok db
  upsert_snapshots (seed ∷ seeds) db = elim seed.snapshot [
    | none ↦ upsert_snapshots seeds db
    | some s ↦ do
      subject_type ← or_raise (subject_type_of seed.subject_type)
      upsert_snapshots seeds (take_snapshot subject_type seed.subject_id (some s) db).1
  ]

  abbrev pub snapshot_id_of : HeadSeed → Db → Option ℕ
  snapshot_id_of seed db = elim seed.snapshot [
    | none ↦ none
    | some s ↦
        Option.map (λ (row : Snapshot). row.id)
          (find_snapshot seed.subject_type seed.subject_id (payload_hash s.payload) db)
  ]

  abbrev pub seed_row : Key → String → HeadSeed → Db → TransitionRow
  seed_row k source seed db = record {
    key = k;
    previous_transition_id = none;
    from_status = none;
    to_status = seed.to_status;
    source = source;
    actor_user_id = seed.actor_user_id;
    note = seed.note;
    metadata = none;
    snapshot_id = snapshot_id_of seed db;
  }

  unfoldable pub head_row : HeadSeed → Db → Result LogError (TransitionRow × Option ℕ)
  head_row seed db = do
    subject_type ← or_raise (subject_type_of seed.subject_type)
    flow ← or_raise (flow_of seed.flow)
    source ← or_raise (source_of seed.source)
    let k : Key = record { subject_type = subject_type; subject_id = seed.subject_id; flow = flow }
    ok (seed_row k source seed db, seed.occurred_at)

  unfoldable pub head_rows : List HeadSeed → Db → Result LogError (List (TransitionRow × Option ℕ))
  head_rows [] db = ok []
  head_rows (seed ∷ seeds) db = do ok ((← head_row seed db) ∷ (← head_rows seeds db))

  unfoldable pub seed_heads : List HeadSeed → Db → Result LogError (ℕ × Db)
  seed_heads seeds db = do
    db' ← upsert_snapshots seeds db
    rows ← head_rows seeds db'
    insert_heads rows db'

-- The subject's chain for `flow`, oldest first.
unfoldable pub get_history : String → ℕ → String → Db → Result LogError (List Transition)
get_history subject_type subject_id flow db = do
  s ← or_raise (subject_type_of subject_type)
  f ← or_raise (flow_of flow)
  ok (get_chain (record { subject_type = s; subject_id = subject_id; flow = f }) db)
