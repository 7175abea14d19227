-- ===== src/ProcessLog/Seeds.antt =====
-- `seed_heads` of app/core/process_log/service.py: what it writes, and that a rerun writes nothing.
use mathlib.Core.Path.{subst}
use adus_be.Prelude.{
  ℕ, suc, ◌+◌, ◌≡◌, refl, sym, ap, ◌∙◌, inl, inr, true, false, Option, none, List, [], ◌∷◌, length,
  head?, Result, ok, err, ◌>>=◌, arith, Bool-cases,
}
use adus_be.ProcessLog.{
  LogError, Key, key_eq, key_eq_iff, key_eq_refl, TransitionRow, Transition, Db,
}
use adus_be.ProcessLog.Repository.{
  has_head, chain, passes_checks, passes_foreign_keys, with_row, insert_heads,
}
use adus_be.ProcessLog.Chain.{Follows, Grown, head_of_chain}
use adus_be.ProcessLog.Record.{history}

Seed : Type 0
Seed = TransitionRow × Option ℕ

abbrev pub AllHeads : List (TransitionRow × Option ℕ) → Type 0
AllHeads [] = Unit {0}
AllHeads (x ∷ rows) = (x.0.previous_transition_id ≡ none) × (x.0.from_status ≡ none) × AllHeads rows

abbrev pub AllSeeded : List (TransitionRow × Option ℕ) → List Transition → Type 0
AllSeeded [] l = Unit {0}
AllSeeded (x ∷ rows) l = (has_head x.0.key l ≡ true) × AllSeeded rows l

-- What a bulk insert of `n` heads leaves behind.
pub record Seeded (n : ℕ) (db db' : Db) : Type 0 where
  pub grown : Grown db'.next_transition_id db'.transitions
  pub count : length db'.transitions ≡ n + length db.transitions
  pub heads : (k : Key) → has_head k db.transitions ≡ true → has_head k db'.transitions ≡ true
  pub kept : (k : Key) → has_head k db.transitions ≡ true → history k db' ≡ history k db

Grown-suc : (next : ℕ) (l : List Transition) → Grown next l → Grown (suc next) l
Grown-suc next [] g = tt
Grown-suc next (r ∷ l) g = (omega (arith, g.0), g.1, g.2)

Seeded-skip :
    (n : ℕ) (db db' : Db)
    → Seeded n (record db { next_transition_id = suc db.next_transition_id }) db'
    → Seeded n db db'
unfolding history
Seeded-skip n db db' s = record { grown = s.grown; count = s.count; heads = s.heads; kept = s.kept }

Seeded-write :
    (n : ℕ) (r : TransitionRow) (o : Option ℕ) (db db' : Db)
    → has_head r.key db.transitions ≡ false
    → r.previous_transition_id ≡ none
    → Seeded n (with_row r o db) db'
    → Seeded (suc n) db db'
unfolding history chain has_head
Seeded-write n r o db db' fresh p s = record {
  grown = s.grown;
  count = omega (arith, s.count);
  heads = λ k h. s.heads k (ground arith);
  kept = λ k h. elim (Bool-cases (key_eq r.key k)) [
    | inl y ↦ cc (fresh, h, ap (λ j. has_head j db.transitions) ((key_eq_iff r.key k).0 y))
    | inr d ↦ s.kept k (ground arith) ∙ rw d refl
  ];
}

own_head :
    (r : TransitionRow) (o : Option ℕ) (db : Db)
    → r.previous_transition_id ≡ none
    → has_head r.key (with_row r o db).transitions ≡ true
unfolding has_head
own_head r o db p = rw (key_eq_refl r.key, p)

-- the result of a bulk insert that wrote one more row
one_more :
    (m : Result LogError (ℕ × Db)) (n : ℕ) (db' : Db)
    → ◌>>=◌ {B = ℕ × Db} m (λ done. ok (suc done.0, done.1)) ≡ ok (n, db')
    → (p : ℕ) × (m ≡ ok (p, db')) × (n ≡ suc p)
one_more (ok (p, d)) n db' h = (p, ground arith, ground arith)
one_more (err x) n db' h = cc

pub insert_heads-Seeded :
    (rows : List (TransitionRow × Option ℕ)) (db : Db) (n : ℕ) (db' : Db)
    → AllHeads rows
    → Grown db.next_transition_id db.transitions
    → insert_heads rows db ≡ ok (n, db')
    → Seeded n db db' × AllSeeded rows db'.transitions
unfolding insert_heads
insert_heads-Seeded [] db n db' a g h = ground arith
insert_heads-Seeded ((r, o) ∷ rows) db n db' a g h = elim (Bool-cases (passes_checks r)) [
  | inr c ↦ absurd (ground arith)
  | inl c ↦ elim (Bool-cases (has_head r.key db.transitions)) [
    | inl old ↦
        let (s, all) =
          insert_heads-Seeded rows (record db { next_transition_id = suc db.next_transition_id }) n
            db' a.2 (Grown-suc db.next_transition_id db.transitions g) (ground arith) in
        (Seeded-skip n db db' s, (s.heads r.key old, all))
    | inr new ↦ elim (Bool-cases (passes_foreign_keys r db)) [
      | inr f ↦ absurd (ground arith)
      | inl f ↦
          let (p, e, e') = one_more (insert_heads rows (with_row r o db)) n db' (ground arith) in
          let below : head? (chain r.key db.transitions) ≡ none =
            head_of_chain db.next_transition_id db.transitions r.key g new in
          let follows : Follows r (head? (chain r.key db.transitions)) = rw below (a.0, a.1) in
          let (s, all) =
            insert_heads-Seeded rows (with_row r o db) p db' a.2 (omega arith, follows, g) e in
          (
            subst (λ m. Seeded m db db') (sym e') (Seeded-write p r o db db' new a.0 s),
            (s.heads r.key (own_head r o db a.0), all),
          )
    ]
  ]
]
