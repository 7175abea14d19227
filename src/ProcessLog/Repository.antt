-- ===== src/ProcessLog/Repository.antt =====
-- app/core/process_log/repository.py over the constraints of models.py.
use adus_be.Json.{Json}
use adus_be.Prelude.{
  ℕ, suc, Bool, true, false, ◌&&◌, not, Option, none, some, is_none, is_some, or_else, List, [],
  ◌∷◌, map, String, str_eq, ◌==◌, any, find, filter, if◌then◌else◌, Result, ok, err, ◌>>=◌,
}
use adus_be.ProcessLog.{
  LogError, integrity_error, concurrent_transition, Key, key_eq, TransitionRow, Transition,
  Snapshot, Db, source_of,
}

-- a nullable column that holds this value
abbrev pub refers : Option ℕ → ℕ → Bool
refers none q = false
refers (some p) q = p == q

abbrev pub text_is : Option String → String → Bool
text_is none s = false
text_is (some t) s = str_eq t s

-- `exists().where(successor.previous_transition_id == id)`
unfoldable pub has_successor : List Transition → ℕ → Bool
has_successor rows q = any (λ (s : Transition). refers s.previous_transition_id q) rows

-- The rows of one chain, newest first.
unfoldable pub chain : Key → List Transition → List Transition
chain k = filter (λ (r : Transition). key_eq r.key k)

unfoldable pub get_tail : Key → Db → Option Transition
unfolding has_successor
get_tail k db =
    find (λ (r : Transition). key_eq r.key k && not (has_successor db.transitions r.id))
      db.transitions

-- ck_transitions_head_has_no_from, ck_transitions_changes_status, ck_transitions_source
unfoldable pub passes_checks : TransitionRow → Bool
passes_checks r =
    (if is_none r.previous_transition_id then is_none r.from_status else is_some r.from_status)
    && not (text_is r.from_status r.to_status)
    && is_some (source_of r.source)

-- uq_transitions_head
unfoldable pub has_head : Key → List Transition → Bool
has_head k rows = any (λ (s : Transition). key_eq s.key k && is_none s.previous_transition_id) rows

-- uq_transitions_previous (NULLs are distinct) and uq_transitions_head
unfoldable pub place_is_taken : TransitionRow → List Transition → Bool
unfolding has_head has_successor
place_is_taken r rows = elim r.previous_transition_id [
  | none ↦ has_head r.key rows
  | some p ↦ has_successor rows p
]

-- fk_transitions_previous
unfoldable pub has_link_target : Key → ℕ → String → List Transition → Bool
has_link_target k p f rows =
    any (λ (s : Transition). (s.id == p) && key_eq s.key k && str_eq s.to_status f) rows

abbrev pub known : Option ℕ → List ℕ → Bool
known none ids = true
known (some i) ids = any (λ j. j == i) ids

-- The foreign keys. With a NULL among its columns the composite one is not enforced.
unfoldable pub passes_foreign_keys : TransitionRow → Db → Bool
unfolding has_link_target
passes_foreign_keys r db =
    elim r.previous_transition_id [
      | none ↦ true
      | some p ↦ elim r.from_status [
        | none ↦ true
        | some f ↦ has_link_target r.key p f db.transitions
      ]
    ]
    && known r.actor_user_id db.user_ids
    && known r.snapshot_id (map (λ (s : Snapshot). s.id) db.snapshots)

abbrev pub stored : TransitionRow → Option ℕ → Db → Transition
stored r occurred_at db = record {
  id = db.next_transition_id;
  row = r;
  occurred_at = or_else occurred_at db.now;
}

abbrev pub with_row : TransitionRow → Option ℕ → Db → Db
with_row r occurred_at db = record db {
  transitions = stored r occurred_at db ∷ db.transitions;
  next_transition_id = suc db.next_transition_id;
}

-- The unique constraints that name a race are reported as such, any other violation as it is.
unfoldable pub insert_transition : TransitionRow → Option ℕ → Db → Result LogError (Transition × Db)
insert_transition r occurred_at db =
    if not (passes_checks r)
    then err integrity_error
    else if place_is_taken r db.transitions
    then err concurrent_transition
    else if not (passes_foreign_keys r db)
    then err integrity_error
    else ok (stored r occurred_at db, with_row r occurred_at db)

-- ORDER BY id; the table is kept newest first
abbrev reverse_onto {ℓ} : {A : Type ℓ} → List A → List A → List A
reverse_onto [] acc = acc
reverse_onto (x ∷ xs) acc = reverse_onto xs (x ∷ acc)

unfoldable pub get_chain : Key → Db → List Transition
unfolding chain
get_chain k db = reverse_onto (chain k db.transitions) []

-- ON CONFLICT DO NOTHING on the head index; an identity value is drawn for a skipped row too.
unfoldable pub insert_heads : List (TransitionRow × Option ℕ) → Db → Result LogError (ℕ × Db)
insert_heads [] db = ok (0, db)
insert_heads ((r, occurred_at) ∷ rows) db =
    let skipped =
      insert_heads rows (record db { next_transition_id = suc db.next_transition_id }) in
    let written = (do
      done ← insert_heads rows (with_row r occurred_at db)
      ok (suc done.0, done.1)) in
    if not (passes_checks r)
    then err integrity_error
    else if has_head r.key db.transitions
    then skipped
    else if not (passes_foreign_keys r db)
    then err integrity_error
    else written

-- A snapshot's unique key: subject and hash.
abbrev pub same_snapshot : String → ℕ → String → Snapshot → Bool
same_snapshot subject_type subject_id payload_hash s =
    str_eq s.subject_type subject_type
    && (s.subject_id == subject_id)
    && str_eq s.payload_hash payload_hash

unfoldable pub find_snapshot : String → ℕ → String → Db → Option Snapshot
find_snapshot subject_type subject_id payload_hash db =
    find (same_snapshot subject_type subject_id payload_hash) db.snapshots

-- Id of the subject's snapshot with this hash, inserting it if new.
unfoldable pub upsert_snapshot : String → ℕ → ℕ → Json → String → Db → ℕ × Db
unfolding find_snapshot
upsert_snapshot subject_type subject_id schema_version payload payload_hash db =
    elim (find_snapshot subject_type subject_id payload_hash db) [
      | some s ↦ (s.id, record db { next_snapshot_id = suc db.next_snapshot_id })
      | none ↦ (
        db.next_snapshot_id,
        record db {
          snapshots =
              record {
                id = db.next_snapshot_id;
                subject_type = subject_type;
                subject_id = subject_id;
                schema_version = schema_version;
                payload = payload;
                payload_hash = payload_hash;
              }
              ∷ db.snapshots;
          next_snapshot_id = suc db.next_snapshot_id;
        },
      )
    ]
