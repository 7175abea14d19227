-- ===== src/ProcessLog/Record/Refinement.antt =====
-- `record_transition` of app/core/process_log/service.py does to the tables what `recorded` does to
-- the list of statuses.
use mathlib.Core.Path.{subst}
use adus_be.Json.{Json}
use adus_be.Prelude.{
  ℕ, ◌≡◌, ◌≢◌, inl, inr, refl, ap, true, false, Option, none, some, is_some, List, ◌∷◌, String,
  str_eq, head?, Result, ok, err, ◌>>=◌, arith, Bool-cases, eq_iff,
}
use adus_be.ProcessLog.{
  LogError, value_error, Key, key_eq_refl, Transition, Db, subject_type_of, flow_of, source_of,
}
use adus_be.ProcessLog.Repository.{known, chain, stored, with_row, insert_transition}
use adus_be.ProcessLog.Service.{
  TransitionRequest, opt_eq, status_of, repair_row, write_row, settle, record_transition,
}
use adus_be.ProcessLog.Chain.{Follows, Grown, get_tail-newest}
use adus_be.ProcessLog.Record.{
  history, recorded, Recorded, Recorded-push, Recorded-trans, Recorded-stay, no_history,
  newest_history, write_row_lem, Follows-bridge, changes_status,
}
use adus_be.ProcessLog.Inserts.{insert_transition_ok}

module _ (payload_hash : Json → String) (k : Key) (q : TransitionRequest) where
  -- what the service may assume of a request
  abbrev IsSound : Db → Type 0
  IsSound db = (is_some (source_of q.source) ≡ true) × (known q.actor_user_id db.user_ids ≡ true)

  abbrev Wrote : Db → List String → Result LogError (ℕ × Db) → Type 0
  Wrote db statuses r = (id : ℕ) × (db' : Db) × (r ≡ ok (id, db')) × Recorded k statuses id db db'

  write_row-Wrote :
      (tail : Option Transition) (db : Db)
      → Grown db.next_transition_id db.transitions
      → head? (chain k db.transitions) ≡ tail
      → opt_eq (status_of tail) (some q.to_status) ≡ false
      → IsSound db
      → Wrote db (q.to_status ∷ history k db) (write_row payload_hash k tail (status_of tail) q db)
  write_row-Wrote tail db g e n s =
      let (t, db', made, own, to, f, p) = write_row_lem payload_hash k tail q db g e n s.0 s.1 in
      (
        t.id,
        db',
        made,
        subst (λ x. Recorded k (x ∷ history k db) t.id db db') to
            (Recorded-push t db db' k p own (rw e f) g),
      )

  -- the repair row, where the tail is at another status
  bridge-Wrote :
      (tail : Option Transition) (e : String) (db : Db)
      → Grown db.next_transition_id db.transitions
      → head? (chain k db.transitions) ≡ tail
      → opt_eq (status_of tail) (some e) ≡ false
      → (t : Transition) × (db' : Db) × (insert_transition (repair_row k tail e) none db
          ≡ ok (t, db'))
        × (t.to_status ≡ e)
        × (head? (chain k db'.transitions) ≡ some t)
        × Recorded k (e ∷ history k db) t.id db db'
  unfolding chain source_of
  bridge-Wrote tail e db g h n =
      let row = repair_row k tail e in
      let f : Follows row tail = Follows-bridge k tail e in
      let made =
        insert_transition_ok row none db g (rw h f) (changes_status (status_of tail) e n) refl refl
          refl in
      (
        stored row none db,
        with_row row none db,
        made,
        refl,
        rw (key_eq_refl k) refl,
        Recorded-push (stored row none db) db (with_row row none db) k
            (record { rows = refl; next = refl; fresh = refl; users = refl }) refl (rw h f) g,
      )

  -- with a row for what the log missed in between
  bridged :
      (tail : Option Transition) (e : String) (db : Db)
      → Grown db.next_transition_id db.transitions
      → head? (chain k db.transitions) ≡ tail
      → opt_eq (status_of tail) (some e) ≡ false
      → str_eq e q.to_status ≡ false
      → IsSound db
      → Wrote db (q.to_status ∷ e ∷ history k db) (
          insert_transition (repair_row k tail e) none db >>= λ bridge.
          write_row payload_hash k (some bridge.0) (some e) q bridge.1)
  unfolding opt_eq
  bridged tail e db g h n m s =
      let (t, db', made, to, newest, r) = bridge-Wrote tail e db g h n in
      let (i, db'', wrote, r') =
        write_row-Wrote (some t) db' r.grown newest (rw to m) (s.0, rw r.users s.1) in
      (
        i,
        db'',
        rw made
            (subst (λ x. write_row payload_hash k (some t) (some x) q db' ≡ ok (i, db'')) to wrote),
        Recorded-trans r (subst (λ x. Recorded k (q.to_status ∷ x) i db' db'') r.own r'),
      )

  settle-Wrote :
      (expected : Option String) (tail : Option Transition) (db : Db)
      → Grown db.next_transition_id db.transitions
      → head? (chain k db.transitions) ≡ tail
      → opt_eq expected (some q.to_status) ≡ false
      → IsSound db
      → Wrote db
          (recorded (history k db) expected q.to_status)
          (settle payload_hash expected k tail q db)
  unfolding settle opt_eq
  settle-Wrote none none db g h n s = rw (no_history k db h) (
      subst (λ x. Wrote db (q.to_status ∷ x) (write_row payload_hash k none none q db))
        (no_history k db h) (write_row-Wrote none db g h refl s))
  settle-Wrote (some e) none db g h n s = rw (no_history k db h) (
      subst (λ x. Wrote db (q.to_status ∷ e ∷ x) (settle payload_hash (some e) k none q db))
        (no_history k db h) (bridged none e db g h refl n s))
  settle-Wrote none (some t) db g h n s =
      let (rest, e) = newest_history k db t h in
      elim (Bool-cases (str_eq t.to_status q.to_status)) [
        | inl y ↦
            rw (e, y)
              (t.id, db, refl, subst (λ x. Recorded k x t.id db db) e (Recorded-stay k db t g h))
        | inr d ↦
            rw (e, d)
              (subst
                (λ x.
                  Wrote db (q.to_status ∷ x)
                    (write_row payload_hash k (some t) (some t.to_status) q db))
                e (write_row-Wrote (some t) db g h d s))
      ]
  settle-Wrote (some x) (some t) db g h n s =
      let (rest, e) = newest_history k db t h in
      elim (Bool-cases (str_eq t.to_status x)) [
        | inl y ↦
            let same : t.to_status ≡ x = (eq_iff t.to_status x).0 y in
            let wrote =
              subst
                (λ z.
                  Wrote db (q.to_status ∷ z)
                    (write_row payload_hash k (some t) (some t.to_status) q db))
                e (write_row-Wrote (some t) db g h (rw same n) s) in
            rw (e, y)
              (subst
                (λ z.
                  Wrote db (q.to_status ∷ t.to_status ∷ rest)
                    (write_row payload_hash k (some t) (some z) q db))
                same wrote)
        | inr d ↦ rw e (
            rw d (
              subst
                (λ z. Wrote db (q.to_status ∷ x ∷ z) (
                  insert_transition (repair_row k (some t) x) none db >>= λ bridge.
                  write_row payload_hash k (some bridge.0) (some x) q bridge.1))
                e (bridged (some t) x db g h d n s)))
      ]

abbrev pub key_of : TransitionRequest → Key
key_of q = record { subject_type = q.subject_type; subject_id = q.subject_id; flow = q.flow }

-- A request whose texts name members of their enumerations, by a user that exists (or none).
pub record IsAdmissible (q : TransitionRequest) (db : Db) : Type 0 where
  pub subject : is_some (subject_type_of q.subject_type) ≡ true
  pub flow : is_some (flow_of q.flow) ≡ true
  pub source : is_some (source_of q.source) ≡ true
  pub actor : known q.actor_user_id db.user_ids ≡ true

subject_type_text : (x : String) → is_some (subject_type_of x) ≡ true → subject_type_of x ≡ some x
unfolding subject_type_of
subject_type_text x h = ground arith

flow_text : (x : String) → is_some (flow_of x) ≡ true → flow_of x ≡ some x
unfolding flow_of
flow_text x h = ground arith

opt_eq_self : (a : Option String) (b : String) → a ≡ some b → opt_eq a (some b) ≡ true
unfolding opt_eq
opt_eq_self none b e = cc
opt_eq_self (some a) b e = ground (arith, eq_iff a b)

opt_eq_ne : (a : Option String) (b : String) → a ≢ some b → opt_eq a (some b) ≡ false
unfolding opt_eq
opt_eq_ne none b n = refl
opt_eq_ne (some a) b n = elim (Bool-cases (str_eq a b)) [
  | inl y ↦ absurd (n (ap some ((eq_iff a b).0 y)))
  | inr d ↦ d
]

-- On a table whose chains are lists, an admissible request that changes the status is recorded. The
-- chain's history becomes what `recorded` says, the returned id is that of its newest row, no other
-- chain's history changes, and the chains are lists again.
pub record_transition_refines :
    (payload_hash : Json → String) (q : TransitionRequest) (db : Db)
    → Grown db.next_transition_id db.transitions
    → IsAdmissible q db
    → q.expected_from_status ≢ some q.to_status
    → (id : ℕ) × (db' : Db) × (record_transition payload_hash q db ≡ ok (id, db'))
      × Recorded
          (key_of q)
          (recorded (history (key_of q) db) q.expected_from_status q.to_status)
          id
          db
          db'
unfolding record_transition
record_transition_refines payload_hash q db g a n =
    let k = key_of q in
    let differs = opt_eq_ne q.expected_from_status q.to_status n in
    rw (differs, subject_type_text q.subject_type a.subject, flow_text q.flow a.flow)
      (rw (get_tail-newest k db g) (
        settle-Wrote payload_hash k q q.expected_from_status (head? (chain k db.transitions)) db g
          refl differs (a.source, a.actor)))

-- A request that leaves the status as it was raises `ValueError`, whatever the tables hold.
pub record_transition_no_change :
    (payload_hash : Json → String) (q : TransitionRequest) (db : Db)
    → q.expected_from_status ≡ some q.to_status
    → record_transition payload_hash q db ≡ err value_error
unfolding record_transition
record_transition_no_change payload_hash q db e =
    rw (opt_eq_self q.expected_from_status q.to_status e)
