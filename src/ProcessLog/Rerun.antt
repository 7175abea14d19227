-- ===== src/ProcessLog/Rerun.antt =====
-- `seed_heads` of app/core/process_log/service.py as a whole: it keeps the chains, and a rerun is a
-- no-op.
use adus_be.Json.{Json}
use adus_be.Prelude.{
  ℕ, suc, ◌+◌, ◌≡◌, refl, sym, ap, ◌∙◌, inl, inr, true, Option, none, some, is_some, List, [], ◌∷◌,
  length, map, String, ok, ◌>>=◌, >>=-eq-ok, arith, Option-cases,
}
use adus_be.ProcessLog.{Key, TransitionRow, Transition, Db, subject_type_of, flow_of, source_of}
use adus_be.ProcessLog.Repository.{chain, passes_checks, insert_heads}
use adus_be.ProcessLog.Service.{
  HeadSeed, take_snapshot, seed_row, upsert_snapshots, head_row, head_rows, seed_heads,
}
use adus_be.ProcessLog.Chain.{Grown}
use adus_be.ProcessLog.Record.{source_text, history}
use adus_be.ProcessLog.Snapshots.{take_snapshot_lem}
use adus_be.ProcessLog.Seeds.{AllHeads, AllSeeded, Seeded, insert_heads-Seeded}

abbrev AllChecked : List (TransitionRow × Option ℕ) → Type 0
AllChecked [] = Unit {0}
AllChecked (x ∷ rows) = (passes_checks x.0 ≡ true) × AllChecked rows

abbrev keys : List (TransitionRow × Option ℕ) → List Key
keys = map (λ (x : TransitionRow × Option ℕ). x.0.key)

insert_heads_again :
    (rows : List (TransitionRow × Option ℕ)) (db : Db)
    → AllChecked rows
    → AllSeeded rows db.transitions
    → (d : Db) × (insert_heads rows db ≡ ok (0, d)) × (d.transitions ≡ db.transitions)
unfolding insert_heads
insert_heads_again [] db c a = (db, refl, refl)
insert_heads_again (x ∷ rows) db c a =
    let (d, e, s) =
      insert_heads_again rows (record db { next_transition_id = suc db.next_transition_id }) c.1
        a.1 in
    (d, rw (c.0, a.0) e, s)

AllSeeded-keys :
    (rows rows' : List (TransitionRow × Option ℕ)) (l : List Transition)
    → keys rows' ≡ keys rows
    → AllSeeded rows l
    → AllSeeded rows' l
AllSeeded-keys [] [] l e a = tt
AllSeeded-keys [] (y ∷ rows') l e a = cc
AllSeeded-keys (x ∷ rows) [] l e a = cc
AllSeeded-keys (x ∷ rows) (y ∷ rows') l e a =
    let same : y.0.key ≡ x.0.key = cc in (rw same a.0, AllSeeded-keys rows rows' l (cc) a.1)

head_passes_checks :
    (r : TransitionRow)
    → r.previous_transition_id ≡ none
    → r.from_status ≡ none
    → is_some (source_of r.source) ≡ true
    → passes_checks r ≡ true
unfolding passes_checks
head_passes_checks r p f s = rw (p, f, s)

source_is_source : (x y : String) → source_of x ≡ some y → is_some (source_of y) ≡ true
source_is_source x y e = rw (source_text x y e, e)

module _ (payload_hash : Json → String) where
  head_row_lem :
      (seed : HeadSeed) (db : Db) (x : TransitionRow × Option ℕ)
      → head_row payload_hash seed db ≡ ok x
      → (x.0.previous_transition_id ≡ none)
        × (x.0.from_status ≡ none)
        × (passes_checks x.0 ≡ true)
        × ((db' : Db)
            → (y : TransitionRow × Option ℕ) × (head_row payload_hash seed db' ≡ ok y)
              × (y.0.key ≡ x.0.key))
  unfolding head_row
  head_row_lem seed db x h = elim (Option-cases (subject_type_of seed.subject_type)) [
    | inl e ↦ absurd (ground arith)
    | inr (s, e) ↦ elim (Option-cases (flow_of seed.flow)) [
      | inl e' ↦ absurd (ground arith)
      | inr (f, e') ↦ elim (Option-cases (source_of seed.source)) [
        | inl e'' ↦ absurd (ground arith)
        | inr (o, e'') ↦
            let k : Key = record { subject_type = s; subject_id = seed.subject_id; flow = f } in
            let own : x.0.key ≡ k = ground arith in
            (
              ground arith,
              ground arith,
              head_passes_checks x.0 (ground arith) (ground arith) (
                  let src : x.0.source ≡ o = ground arith in
                  rw src (source_is_source seed.source o e'')),
              λ db'. (
                (seed_row payload_hash k o seed db', seed.occurred_at),
                rw (e, e', e'') refl,
                sym own,
              ),
            )
      ]
    ]
  ]

  head_rows_lem :
      (seeds : List HeadSeed) (db : Db) (rows : List (TransitionRow × Option ℕ))
      → head_rows payload_hash seeds db ≡ ok rows
      → AllHeads rows
        × AllChecked rows
        × ((db' : Db)
            → (rows' : List (TransitionRow × Option ℕ)) × (head_rows payload_hash seeds db'
                ≡ ok rows')
              × (keys rows' ≡ keys rows))
  unfolding head_rows
  head_rows_lem [] db [] h = (tt, tt, λ db'. ([], refl, refl))
  head_rows_lem [] db (x ∷ rows) h = cc
  head_rows_lem (seed ∷ seeds) db rows h =
      let (x, e, h') =
        >>=-eq-ok (head_row payload_hash seed db)
          (λ x. do ok (x ∷ (← head_rows payload_hash seeds db))) {last = rows} h in
      let (xs, e', h'') =
        >>=-eq-ok (head_rows payload_hash seeds db) (λ xs. ok (x ∷ xs)) {last = rows} h' in
      let (p, f, c, again) = head_row_lem seed db x e in
      let (ps, cs, agains) = head_rows_lem seeds db xs e' in
      let same : rows ≡ x ∷ xs = cc in
      rw same (
        (p, f, ps),
        (c, cs),
        λ db'.
            let (y, m, k) = again db' in
            let (ys, ms, ks) = agains db' in (y ∷ ys, rw m (rw ms refl), cc),
      )

  upsert_snapshots_lem :
      (seeds : List HeadSeed) (db d : Db)
      → upsert_snapshots payload_hash seeds db ≡ ok d
      → (d.transitions ≡ db.transitions)
        × (d.next_transition_id ≡ db.next_transition_id)
        × ((db' : Db) → (d' : Db) × (upsert_snapshots payload_hash seeds db' ≡ ok d'))
  unfolding upsert_snapshots
  upsert_snapshots_lem [] db d h = (ground arith, ground arith, λ db'. (db', refl))
  upsert_snapshots_lem (seed ∷ seeds) db d h = elim (Option-cases seed.snapshot) [
    | inl e ↦
        let (t, n, again) = upsert_snapshots_lem seeds db d (ground arith) in
        (t, n, λ db'. let (d', m) = again db' in (d', rw (e, upsert_snapshots) m))
    | inr (s, e) ↦ elim (Option-cases (subject_type_of seed.subject_type)) [
      | inl e' ↦ absurd (ground arith)
      | inr (x, e') ↦
          let (_, t', n', _) = take_snapshot_lem payload_hash x seed.subject_id (some s) db in
          let (t, n, again) =
            upsert_snapshots_lem seeds (take_snapshot payload_hash x seed.subject_id (some s) db).1
              d (ground arith) in
          (
            t ∙ t',
            n ∙ n',
            λ db'.
                let (d', m) = again (take_snapshot payload_hash x seed.subject_id (some s) db').1 in
                (d', ground (arith, m)),
          )
    ]
  ]

  seed_heads_parts :
      (seeds : List HeadSeed) (db : Db) (n : ℕ) (db' : Db)
      → seed_heads payload_hash seeds db ≡ ok (n, db')
      → (d : Db) × (rows : List (TransitionRow × Option ℕ)) × (upsert_snapshots payload_hash seeds
            db
          ≡ ok d)
        × (head_rows payload_hash seeds d ≡ ok rows)
        × (insert_heads rows d ≡ ok (n, db'))
  unfolding seed_heads
  seed_heads_parts seeds db n db' h =
      let (d, e, h') =
        >>=-eq-ok (upsert_snapshots payload_hash seeds db)
          (λ d. do rows ← head_rows payload_hash seeds d; insert_heads rows d) h in
      let (rows, e', h'') =
        >>=-eq-ok (head_rows payload_hash seeds d) (λ rows. insert_heads rows d) h' in
      (d, rows, e, e', h'')

  -- A backfill that returns `n` has added exactly `n` rows; the chains are lists again, and the
  -- history of every chain that was there before is untouched.
  pub seed_heads-Seeded :
      (seeds : List HeadSeed) (db : Db) (n : ℕ) (db' : Db)
      → Grown db.next_transition_id db.transitions
      → seed_heads payload_hash seeds db ≡ ok (n, db')
      → Seeded n db db'
  unfolding history
  seed_heads-Seeded seeds db n db' g h =
      let (d, rows, e, e', h') = seed_heads_parts seeds db n db' h in
      let (t, i, _) = upsert_snapshots_lem seeds db d e in
      let (heads, _, _) = head_rows_lem seeds d rows e' in
      let (s, _) = insert_heads-Seeded rows d n db' heads (rw (t, i) g) h' in
      record {
        grown = s.grown;
        count = s.count ∙ ap (λ l. n + length l) t;
        heads = λ k a. s.heads k (rw t a);
        kept = λ k a.
            s.kept k (rw t a) ∙ ap (λ l. map (λ (r : Transition). r.to_status) (chain k l)) t;
      }

  -- Running a backfill again after it returned inserts no row: it returns 0 and leaves the
  -- transitions as they are.
  pub seed_heads_rerun :
      (seeds : List HeadSeed) (db : Db) (n : ℕ) (db' : Db)
      → Grown db.next_transition_id db.transitions
      → seed_heads payload_hash seeds db ≡ ok (n, db')
      → (db'' : Db) × (seed_heads payload_hash seeds db' ≡ ok (0, db''))
        × (db''.transitions ≡ db'.transitions)
  unfolding seed_heads
  seed_heads_rerun seeds db n db' g h =
      let (d, rows, e, e', h') = seed_heads_parts seeds db n db' h in
      let (t, i, again) = upsert_snapshots_lem seeds db d e in
      let (heads, checked, agains) = head_rows_lem seeds d rows e' in
      let (_, seeded) = insert_heads-Seeded rows d n db' heads (rw (t, i) g) h' in
      let (d', e₁) = again db' in
      let (t', _, _) = upsert_snapshots_lem seeds db' d' e₁ in
      let (rows', e₂, same) = agains d' in
      let (_, checked', _) = head_rows_lem seeds d' rows' e₂ in
      let (d'', e₃, t'') =
        insert_heads_again rows' d' checked'
          (rw t' (AllSeeded-keys rows rows' db'.transitions same seeded)) in
      (d'', rw e₁ (rw e₂ e₃), t'' ∙ t')
