-- ===== src/ProcessLog/Record.antt =====
-- `record_transition` against an abstract log: each chain is its list of statuses, newest first.
pub mod Refinement
use mathlib.Core.Path.{subst}
use adus_be.Json.{Json}
use adus_be.Prelude.{
  ℕ, zero, suc, ◌≡◌, ◌≢◌, ◌⊎◌, inl, inr, refl, sym, ap, ◌∙◌, Bool, true, false, ◌&&◌, ◌||◌, Option,
  none, some, is_none, is_some, List, [], ◌∷◌, map, String, str_eq, str_eq_refl, ◌==◌, filter,
  head?, any, if◌then◌else◌, Result, ok, err, ◌>>=◌, arith, Bool-cases, Option-cases, eq_iff, find,
}
use adus_be.ProcessLog.{
  LogError, value_error, Key, key_eq, key_eq_iff, key_eq_refl, TransitionRow, Transition, Snapshot,
  Db, subject_type_of, flow_of, source_of,
}
use adus_be.ProcessLog.Repository.{
  text_is, known, chain, get_tail, stored, with_row, insert_transition, upsert_snapshot,
  find_snapshot, same_snapshot,
}
use adus_be.ProcessLog.Service.{
  SnapshotInput, TransitionRequest, opt_eq, status_of, id_of, repair_row, real_row, take_snapshot,
  write_row, settle, record_transition, or_raise,
}
use adus_be.ProcessLog.Chain.{Follows, Grown, get_tail-newest}
use adus_be.ProcessLog.Snapshots.{take_snapshot_lem}
use adus_be.ProcessLog.Inserts.{insert_transition_ok}

-- The abstract log: what has been recorded for a chain, newest first.
unfoldable pub history : Key → Db → List String
history k db = map (λ (t : Transition). t.to_status) (chain k db.transitions)

-- What recording `expected → to` does to it. A status that the log missed is put in between; a
-- subject whose status was cleared continues its old chain.
abbrev pub recorded : List String → Option String → String → List String
recorded [] none to = to ∷ []
recorded [] (some e) to = to ∷ e ∷ []
recorded (t ∷ h) none to = if str_eq t to then t ∷ h else to ∷ t ∷ h
recorded (t ∷ h) (some e) to = if str_eq t e then to ∷ t ∷ h else to ∷ e ∷ t ∷ h

-- `db'` is `db` with the row `t` on top.
pub record IsPushed (t : Transition) (db db' : Db) : Type 0 where
  pub rows : db'.transitions ≡ t ∷ db.transitions
  pub next : db'.next_transition_id ≡ suc db.next_transition_id
  pub fresh : t.id ≡ db.next_transition_id
  pub users : db'.user_ids ≡ db.user_ids

pub history-push :
    (t : Transition) (db db' : Db) (k : Key)
    → IsPushed t db db'
    → history k db' ≡ (if key_eq t.key k then t.to_status ∷ history k db else history k db)
unfolding history chain
history-push t db db' k p = rw p.rows (ground arith)

pub Grown-push :
    (t : Transition) (db db' : Db)
    → IsPushed t db db'
    → Follows t.row (head? (chain t.key db.transitions))
    → Grown db.next_transition_id db.transitions
    → Grown db'.next_transition_id db'.transitions
Grown-push t db db' p f g = rw (p.rows, p.next) (omega (arith, p.fresh), f, rw p.fresh g)

pub source_text : (x y : String) → source_of x ≡ some y → y ≡ x
unfolding source_of
source_text x y h = ground arith

pub Follows-tail :
    (k : Key) (tail : Option Transition) (q : TransitionRequest) (src : String) (o : Option ℕ)
    → Follows (real_row k tail (status_of tail) src o q) tail
Follows-tail k none q src o = (refl, refl)
Follows-tail k (some t) q src o = (refl, refl)

pub Follows-bridge :
    (k : Key) (tail : Option Transition) (e : String) → Follows (repair_row k tail e) tail
Follows-bridge k none e = (refl, refl)
Follows-bridge k (some t) e = (refl, refl)

pub changes_status :
    (from : Option String) (to : String) → opt_eq from (some to) ≡ false → text_is from to ≡ false
unfolding opt_eq
changes_status none to h = refl
changes_status (some f) to h = h

module _ (payload_hash : Json → String) where
  -- The real row is written behind the tail that was read.
  pub write_row_lem :
      (k : Key) (tail : Option Transition) (q : TransitionRequest) (db : Db)
      → Grown db.next_transition_id db.transitions
      → head? (chain k db.transitions) ≡ tail
      → opt_eq (status_of tail) (some q.to_status) ≡ false
      → is_some (source_of q.source) ≡ true
      → known q.actor_user_id db.user_ids ≡ true
      → (t : Transition) × (db' : Db) × (write_row payload_hash k tail (status_of tail) q db
          ≡ ok (t.id, db'))
        × (t.key ≡ k)
        × (t.to_status ≡ q.to_status)
        × Follows t.row tail
        × IsPushed t db db'
  unfolding write_row
  write_row_lem k tail q db g e n s a = elim (Option-cases (source_of q.source)) [
    | inl no_source ↦ absurd (ground arith)
    | inr (src, e') ↦
        let taken = take_snapshot payload_hash k.subject_type k.subject_id q.snapshot db in
        let row = real_row k tail (status_of tail) src taken.0 q in
        let db' = taken.1 in
        let (has_id, same_rows, same_next, same_users) =
          take_snapshot_lem payload_hash k.subject_type k.subject_id q.snapshot db in
        let made =
          insert_transition_ok row q.occurred_at db' (rw (same_rows, same_next) g)
            (rw (same_rows, e) (Follows-tail k tail q src taken.0))
            (changes_status (status_of tail) q.to_status n) (rw (source_text q.source src e') s)
            (rw same_users a) has_id in
        (
          stored row q.occurred_at db',
          with_row row q.occurred_at db',
          rw e' (rw made),
          refl,
          refl,
          Follows-tail k tail q src taken.0,
          record {
            rows = ap (λ l. stored row q.occurred_at db' ∷ l) same_rows;
            next = ap suc same_next;
            fresh = same_next;
            users = same_users;
          },
        )
  ]

-- After an operation on the chain `k`: its new history, with `id` on top, and nothing else changed.
pub record Recorded (k : Key) (statuses : List String) (id : ℕ) (db db' : Db) : Type 0 where
  pub own : history k db' ≡ statuses
  pub others : (j : Key) → key_eq k j ≡ false → history j db' ≡ history j db
  pub grown : Grown db'.next_transition_id db'.transitions
  pub on_top : id_of (head? (chain k db'.transitions)) ≡ some id
  pub users : db'.user_ids ≡ db.user_ids

pub Recorded-push :
    (t : Transition) (db db' : Db) (k : Key)
    → IsPushed t db db'
    → t.key ≡ k
    → Follows t.row (head? (chain k db.transitions))
    → Grown db.next_transition_id db.transitions
    → Recorded k (t.to_status ∷ history k db) t.id db db'
Recorded-push t db db' k p e f g =
    let own : key_eq t.key k ≡ true = (key_eq_iff t.key k).1 e in
    record {
      own = history-push t db db' k p ∙ rw own refl;
      others = λ j n. history-push t db db' j p ∙ rw (e, n) refl;
      grown = Grown-push t db db' p (rw e f) g;
      on_top = rw p.rows (unfold chain in rw own refl);
      users = p.users;
    }

pub Recorded-trans :
    {k : Key} {a b : List String} {i j : ℕ} {db db' db'' : Db}
    → Recorded k a i db db'
    → Recorded k b j db' db''
    → Recorded k b j db db''
Recorded-trans r s = record {
  own = s.own;
  others = λ j n. s.others j n ∙ r.others j n;
  grown = s.grown;
  on_top = s.on_top;
  users = s.users ∙ r.users;
}

pub Recorded-stay :
    (k : Key) (db : Db) (t : Transition)
    → Grown db.next_transition_id db.transitions
    → head? (chain k db.transitions) ≡ some t
    → Recorded k (history k db) t.id db db
Recorded-stay k db t g e = record {
  own = refl;
  others = λ j n. refl;
  grown = g;
  on_top = ap id_of e;
  users = refl;
}

pub no_history : (k : Key) (db : Db) → head? (chain k db.transitions) ≡ none → history k db ≡ []
unfolding history
no_history k db h = ground arith

statuses_of_newest :
    (l : List Transition) (t : Transition)
    → head? l ≡ some t
    → (h : List String) × (map (λ (t : Transition). t.to_status) l ≡ t.to_status ∷ h)
statuses_of_newest [] t e = cc
statuses_of_newest (x ∷ l) t e = (map (λ (t : Transition). t.to_status) l, ground arith)

pub newest_history :
    (k : Key) (db : Db) (t : Transition)
    → head? (chain k db.transitions) ≡ some t
    → (h : List String) × (history k db ≡ t.to_status ∷ h)
unfolding history
newest_history k db t e = statuses_of_newest (chain k db.transitions) t e
