-- ===== src/ProcessLog/Snapshots.antt =====
-- Snapshots are kept once for each subject and hash.
use mathlib.Core.Option
use adus_be.Json.{Json}
use adus_be.Prelude.{
  ℕ, ◌≡◌, inl, inr, refl, Bool, true, Option, none, some, List, [], ◌∷◌, map, String, str_eq_refl,
  ◌==◌, find, any, arith, Bool-cases, Option-cases,
}
use adus_be.ProcessLog.{Snapshot, Db}
use adus_be.ProcessLog.Repository.{known, upsert_snapshot, find_snapshot, same_snapshot}
use adus_be.ProcessLog.Service.{SnapshotInput, take_snapshot}

found_is_known :
    (p : Snapshot → Bool) (rows : List Snapshot) (s : Snapshot)
    → find p rows ≡ some s
    → any (λ j. j == s.id) (map (λ (r : Snapshot). r.id) rows) ≡ true
found_is_known p [] s h = cc
found_is_known p (r ∷ rows) s h = elim (Bool-cases (p r)) [
  | inl y ↦ ground arith
  | inr n ↦ ground (arith, found_is_known p rows s (ground arith))
]

-- The result of an upsert, by whether the subject's snapshot was there.
pub upsert_snapshot_lem :
    (s : String) (i v : ℕ) (payload : Json) (hash : String) (db : Db)
    → let (o, db') = upsert_snapshot s i v payload hash db in
      (any (λ j. j == o) (map (λ (r : Snapshot). r.id) db'.snapshots) ≡ true)
      × (Option.map (λ (r : Snapshot). r.id) (find_snapshot s i hash db') ≡ some o)
      × (db'.transitions ≡ db.transitions)
      × (db'.next_transition_id ≡ db.next_transition_id)
      × (db'.user_ids ≡ db.user_ids)
unfolding upsert_snapshot
upsert_snapshot_lem s i v payload hash db = elim (Option-cases (find_snapshot s i hash db)) [
  | inl e ↦ ground (arith, str_eq_refl s, str_eq_refl hash)
  | inr (r, e) ↦ ground (arith, found_is_known (same_snapshot s i hash) db.snapshots r e)
]

-- Once a subject's snapshot has been stored under a hash, storing it again under that hash returns
-- the same id and adds no row.
pub upsert_snapshot_again :
    (s : String) (i v w : ℕ) (payload payload' : Json) (hash : String) (db : Db)
    → let (o, db') = upsert_snapshot s i v payload hash db in
      let (o', db'') = upsert_snapshot s i w payload' hash db' in
      (o' ≡ o) × (db''.snapshots ≡ db'.snapshots)
unfolding upsert_snapshot
upsert_snapshot_again s i v w payload payload' hash db =
    elim (Option-cases (find_snapshot s i hash db)) [
      | inl e ↦ ground (arith, str_eq_refl s, str_eq_refl hash)
      | inr (r, e) ↦ ground arith
    ]

module _ (payload_hash : Json → String) where
  pub take_snapshot_lem :
      (s : String) (i : ℕ) (q : Option SnapshotInput) (db : Db)
      → let (o, db') = take_snapshot payload_hash s i q db in
        (known o (map (λ (r : Snapshot). r.id) db'.snapshots) ≡ true)
        × (db'.transitions ≡ db.transitions)
        × (db'.next_transition_id ≡ db.next_transition_id)
        × (db'.user_ids ≡ db.user_ids)
  unfolding take_snapshot
  take_snapshot_lem s i none db = (refl, refl, refl, refl)
  take_snapshot_lem s i (some q) db =
      let (k, _, t, n, u) =
        upsert_snapshot_lem s i q.schema_version q.payload (payload_hash q.payload) db in
      (k, t, n, u)
