-- ===== src/ProcessLog/Inserts.antt =====
-- What `insert_transition` accepts, and what an accepted insert leaves behind.
use mathlib.Core.Path.{subst}
use adus_be.Prelude.{
  ℕ, ◌≡◌, inl, inr, refl, sym, ap, ◌∙◌, Bool, true, false, ◌&&◌, Option, none, some, is_none,
  is_some, List, [], ◌∷◌, ◌++◌, map, str_eq_refl, any, head?, ok, err, arith, Bool-cases,
  Option-cases,
}
use adus_be.ProcessLog.{
  concurrent_transition, Key, key_eq, key_eq_iff, TransitionRow, Transition, Snapshot, Db,
  source_of,
}
use adus_be.ProcessLog.Repository.{
  refers, text_is, known, has_successor, chain, has_head, place_is_taken, has_link_target,
  passes_checks, passes_foreign_keys, stored, with_row, insert_transition,
}
use adus_be.ProcessLog.Chain.{
  Follows, Grown, newest_has_no_successor, head_of_chain, target_is_newest,
}

-- A row that the constraints admit follows the newest row of its chain.
Follows-insert :
    (r : TransitionRow) (db : Db)
    → Grown db.next_transition_id db.transitions
    → passes_checks r ≡ true
    → place_is_taken r db.transitions ≡ false
    → passes_foreign_keys r db ≡ true
    → Follows r (head? (chain r.key db.transitions))
unfolding passes_checks place_is_taken passes_foreign_keys
Follows-insert r db g c p f = elim (Option-cases r.previous_transition_id) [
  | inl e ↦
      rw (head_of_chain db.next_transition_id db.transitions r.key g (ground arith))
        (e, ground arith)
  | inr (q, e) ↦ elim (Option-cases r.from_status) [
    | inl e' ↦ absurd (ground arith)
    | inr (s, e') ↦
        let (t, here, i, j) =
          target_is_newest db.next_transition_id db.transitions r.key q s g (ground arith)
            (ground arith) in
        rw here (ground arith, ground arith)
  ]
]

-- What `insert_transition` did, where it returned.
pub insert_transition-eq_ok :
    (r : TransitionRow) (o : Option ℕ) (db : Db) (t : Transition) (db' : Db)
    → insert_transition r o db ≡ ok (t, db')
    → (t ≡ stored r o db)
      × (db' ≡ with_row r o db)
      × (passes_checks r ≡ true)
      × (place_is_taken r db.transitions ≡ false)
      × (passes_foreign_keys r db ≡ true)
unfolding insert_transition
insert_transition-eq_ok r o db t db' h = ground arith

-- Whoever inserts whatever row, an accepted insert leaves every chain one list: the new row follows
-- the newest row of its chain, and has a fresh id.
pub insert_transition-Grown :
    (r : TransitionRow) (o : Option ℕ) (db : Db) {t : Transition} {db' : Db}
    → Grown db.next_transition_id db.transitions
    → insert_transition r o db ≡ ok (t, db')
    → Grown db'.next_transition_id db'.transitions
insert_transition-Grown r o db {t} {db'} g h =
    let (e, e', c, p, f) = insert_transition-eq_ok r o db t db' h in
    rw e' (omega arith, Follows-insert r db g c p f, g)

no_head_of_empty :
    (k : Key) (rows : List Transition) → head? (chain k rows) ≡ none → has_head k rows ≡ false
unfolding chain has_head
no_head_of_empty k [] h = refl
no_head_of_empty k (r ∷ l) h = elim (Bool-cases (key_eq r.key k)) [
  | inl y ↦ absurd (ground arith)
  | inr n ↦ rw n (no_head_of_empty k l (ground arith))
]

newest_is_link_target :
    (k : Key) (rows : List Transition) (t : Transition)
    → head? (chain k rows) ≡ some t
    → has_link_target k t.id t.to_status rows ≡ true
unfolding chain has_link_target
newest_is_link_target k [] t h = cc
newest_is_link_target k (r ∷ l) t h = elim (Bool-cases (key_eq r.key k)) [
  | inl y ↦ ground (arith, str_eq_refl t.to_status)
  | inr n ↦ ground (arith, newest_is_link_target k l t (ground arith))
]

-- A well-formed row that follows the newest row of its chain is accepted.
pub insert_transition_ok :
    (r : TransitionRow) (o : Option ℕ) (db : Db)
    → Grown db.next_transition_id db.transitions
    → Follows r (head? (chain r.key db.transitions))
    → text_is r.from_status r.to_status ≡ false
    → is_some (source_of r.source) ≡ true
    → known r.actor_user_id db.user_ids ≡ true
    → known r.snapshot_id (map (λ (s : Snapshot). s.id) db.snapshots) ≡ true
    → insert_transition r o db ≡ ok (stored r o db, with_row r o db)
unfolding insert_transition passes_checks place_is_taken passes_foreign_keys
insert_transition_ok r o db g f c s a n = elim (Option-cases (head? (chain r.key db.transitions))) [
  | inl e ↦
      let f' = subst (Follows r) e f in ground (arith, no_head_of_empty r.key db.transitions e)
  | inr (t, e) ↦
      let f' = subst (Follows r) e f in
      ground (
        arith,
        newest_has_no_successor db.next_transition_id db.transitions r.key t g e,
        newest_is_link_target r.key db.transitions t e,
      )
]

any-append {ℓ} :
    {A : Type ℓ} (p : A → Bool) (xs ys : List A) → any p ys ≡ true → any p (xs ++ ys) ≡ true
any-append p [] ys h = h
any-append p (x ∷ xs) ys h = ground (arith, any-append p xs ys h)

place_taken_again :
    (r : TransitionRow) (x : Transition) (between rows : List Transition)
    → key_eq x.key r.key ≡ true
    → x.previous_transition_id ≡ r.previous_transition_id
    → place_is_taken r (between ++ x ∷ rows) ≡ true
unfolding place_is_taken
place_taken_again r x between rows k p = elim (Option-cases r.previous_transition_id) [
  | inl e ↦
      rw (e, place_is_taken)
        (unfold has_head in
          any-append (λ (s : Transition). key_eq s.key r.key && is_none s.previous_transition_id)
            between (x ∷ rows) (ground arith))
  | inr (q, e) ↦
      rw (e, place_is_taken)
        (unfold has_successor in
          any-append (λ (s : Transition). refers s.previous_transition_id q) between (x ∷ rows)
            (ground arith))
]

-- Of two inserts that claim the same place, behind one row or at the head of one chain, the later is
-- refused as a concurrent transition, whatever was inserted between them.
pub no_fork :
    (r r' : TransitionRow) (o o' : Option ℕ) (db db' db'' : Db) (t : Transition)
    (between : List Transition)
    → insert_transition r o db ≡ ok (t, db')
    → db''.transitions ≡ between ++ db'.transitions
    → r'.key ≡ r.key
    → r'.previous_transition_id ≡ r.previous_transition_id
    → passes_checks r' ≡ true
    → insert_transition r' o' db'' ≡ err concurrent_transition
unfolding insert_transition
no_fork r r' o o' db db' db'' t between h later same_key same_place c =
    let (e, e', _, _, _) = insert_transition-eq_ok r o db t db' h in
    let rows : db''.transitions ≡ between ++ stored r o db ∷ db.transitions =
      later ∙ ap (λ (d : Db). between ++ d.transitions) e' in
    let taken =
      place_taken_again r' (stored r o db) between db.transitions
        ((key_eq_iff r.key r'.key).1 (sym same_key)) (sym same_place) in
    rw (c, rows, taken)
