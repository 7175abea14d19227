-- ===== src/UnderwritingThreads.antt =====
-- The discussion thread of an underwriting
-- (app/iron_bank/services/underwriting_discussion_service.py and
-- app/iron_bank/repositories/underwriting_thread_repository.py). Other transactions may commit between
-- the statements: what they do to the tables is given as functions.
use mathlib.Core.Path.{subst}
use adus_be.Prelude.{
  ℕ, ◌≡◌, refl, ap, ◌∙◌, Bool, true, false, ◌&&◌, not, Option, none, some, List, [], ◌∷◌, String,
  str_eq, str_eq_refl, ◌==◌, ==_refl, any, find, filter, if◌then◌else◌, Result, ok, err, Bool-cases,
  Option-cases, inl, inr, arith,
}
use adus_be.Discussions.{Thread, create_thread}

-- a row of `underwriting_threads`; its primary key is (underwriting_id, kind)
pub record UnderwritingThread : Type 0 where
  pub underwriting_id : ℕ
  pub kind : String
  pub thread_id : ℕ

pub record Db : Type 0 where
  pub links : List UnderwritingThread
  pub discussions : adus_be.Discussions.Db

pub data ThreadError : Type 0 where
  underwriting_not_found : ℕ → ThreadError

abbrev pub is_place : ℕ → String → UnderwritingThread → Bool
is_place u kind l = (l.underwriting_id == u) && str_eq l.kind kind

abbrev pub thread_of : Option UnderwritingThread → Option ℕ
thread_of none = none
thread_of (some l) = some l.thread_id

unfoldable pub get_thread_id : ℕ → String → Db → Option ℕ
get_thread_id u kind db = thread_of (find (is_place u kind) db.links)

-- ON CONFLICT DO NOTHING on the primary key; the thread is a new one, so that it is in no other link
unfoldable pub insert_link : ℕ → String → ℕ → Db → Option ℕ × Db
insert_link u kind thread_id db = if any (is_place u kind) db.links then (none, db) else (
  some thread_id,
  record db {
    links = record { underwriting_id = u; kind = kind; thread_id = thread_id } ∷ db.links;
  },
)

-- `DiscussionRepository.delete_thread`
unfoldable pub discard_thread : ℕ → Db → Db
discard_thread thread_id db = record db {
  discussions = record db.discussions {
    threads = filter (λ (t : Thread). not (t.id == thread_id)) db.discussions.threads;
  };
}

abbrev pub start_thread : ℕ → Db → ℕ × Db
start_thread user_id db =
    let made = create_thread "underwriting" (some user_id) db.discussions in
    (made.0, record db { discussions = made.1 })

-- The thread that a concurrent first comment linked, if the link is still there.
abbrev pub winner : ℕ → Option ℕ → Db → Result ThreadError (ℕ × Db)
winner u none db = err (underwriting_not_found u)
winner u (some thread_id) db = ok (thread_id, db)

returned :
    (a t : ℕ) (d d' : Db)
    → ◌≡◌ {A = Result ThreadError (ℕ × Db)} (ok (a, d)) (ok (t, d'))
    → (a ≡ t) × (d ≡ d')
returned a t d d' h = (cc h, cc h)

winner-eq_ok :
    (u : ℕ) (o : Option ℕ) (db db' : Db) (t : ℕ)
    → winner u o db ≡ ok (t, db')
    → (o ≡ some t) × (db ≡ db')
winner-eq_ok u none db db' t h = cc
winner-eq_ok u (some w) db db' t h = (cc h, cc h)

winner-linked :
    (u : ℕ) (db db' : Db) (t : ℕ)
    → winner u (get_thread_id u "general" db) db ≡ ok (t, db')
    → get_thread_id u "general" db' ≡ some t
winner-linked u db db' t h =
    let (found, same) = winner-eq_ok u (get_thread_id u "general" db) db db' t h in
    subst (λ d. get_thread_id u "general" d ≡ some t) same found

-- the table with the new link
abbrev pub linked : ℕ → String → ℕ → Db → Db
linked u kind thread_id db = record db {
  links = record { underwriting_id = u; kind = kind; thread_id = thread_id } ∷ db.links;
}

pub insert_link-taken :
    (u : ℕ) (kind : String) (t : ℕ) (db : Db)
    → any (is_place u kind) db.links ≡ true
    → insert_link u kind t db ≡ (none, db)
unfolding insert_link
insert_link-taken u kind t db e = rw e refl

pub insert_link-free :
    (u : ℕ) (kind : String) (t : ℕ) (db : Db)
    → any (is_place u kind) db.links ≡ false
    → insert_link u kind t db ≡ (some t, linked u kind t db)
unfolding insert_link
insert_link-free u kind t db e = rw e refl

get_thread_id-linked :
    (u : ℕ) (kind : String) (t : ℕ) (db : Db) → get_thread_id u kind (linked u kind t db) ≡ some t
unfolding get_thread_id
get_thread_id-linked u kind t db = rw (==_refl u) (rw (str_eq_refl kind) refl)

find-any {ℓ} :
    {A : Type ℓ} (p : A → Bool) (l : List A) → any p l ≡ true → (a : A) × (find p l ≡ some a)
find-any p [] h = cc
find-any p (x ∷ l) h = elim (Bool-cases (p x)) [
  | inl e ↦ (x, rw e refl)
  | inr e ↦ let (a, f) = find-any p l (ground arith) in (a, rw e f)
]

-- an underwriting has at most one thread of each kind
abbrev pub IsLinkedOnce : List UnderwritingThread → Type 0
IsLinkedOnce [] = Unit {0}
IsLinkedOnce (l ∷ links) =
    (any (is_place l.underwriting_id l.kind) links ≡ false) × IsLinkedOnce links

-- `meanwhile` is what others commit before the link is inserted, `later` after a conflict.
module _ (meanwhile later : Db → Db) where
  abbrev pub settle_link : ℕ → ℕ → Option ℕ × Db → Result ThreadError (ℕ × Db)
  settle_link u thread_id (some linked, db) = ok (thread_id, db)
  settle_link u thread_id (none, db) =
      let seen = later (discard_thread thread_id db) in
      winner u (get_thread_id u "general" seen) seen

  abbrev pub or_create : ℕ → ℕ → Db → Option ℕ → Result ThreadError (ℕ × Db)
  or_create u user_id db (some existing) = ok (existing, db)
  or_create u user_id db none =
      let made = start_thread user_id db in
      settle_link u made.0 (insert_link u "general" made.0 (meanwhile made.1))

  unfoldable pub get_or_create_thread : ℕ → ℕ → Db → Result ThreadError (ℕ × Db)
  get_or_create_thread u user_id db = or_create u user_id db (get_thread_id u "general" db)

  settle_link-linked :
      (u made : ℕ) (db db' : Db) (t : ℕ)
      → settle_link u made (insert_link u "general" made db) ≡ ok (t, db')
      → get_thread_id u "general" db' ≡ some t
  settle_link-linked u made db db' t h = elim (Bool-cases (any (is_place u "general") db.links)) [
    | inl e ↦ winner-linked u (later (discard_thread made db)) db' t (
        subst (λ r. settle_link u made r ≡ ok (t, db')) (insert_link-taken u "general" made db e) h)
    | inr e ↦
        let same : ok (made, linked u "general" made db) ≡ ok (t, db') =
          subst (λ r. settle_link u made r ≡ ok (t, db')) (insert_link-free u "general" made db e)
            h in
        let (m, d) = returned made t (linked u "general" made db) db' same in
        subst (λ d. get_thread_id u "general" d ≡ some t) d
          (get_thread_id-linked u "general" made db ∙ ap some m)
  ]

  settle_link-IsLinkedOnce :
      (u made : ℕ) (db db' : Db) (t : ℕ)
      → ((d : Db) → IsLinkedOnce d.links → IsLinkedOnce (later d).links)
      → IsLinkedOnce db.links
      → settle_link u made (insert_link u "general" made db) ≡ ok (t, db')
      → IsLinkedOnce db'.links
  unfolding discard_thread
  settle_link-IsLinkedOnce u made db db' t keeps once h =
      elim (Bool-cases (any (is_place u "general") db.links)) [
        | inl e ↦
            let seen = later (discard_thread made db) in
            let (found, same) = winner-eq_ok u (get_thread_id u "general" seen) seen db' t (
              subst (λ r. settle_link u made r ≡ ok (t, db'))
                (insert_link-taken u "general" made db e) h) in
            subst (λ (d : Db). IsLinkedOnce d.links) same (keeps (discard_thread made db) once)
        | inr e ↦
            let same : ok (made, linked u "general" made db) ≡ ok (t, db') =
              subst (λ r. settle_link u made r ≡ ok (t, db'))
                (insert_link-free u "general" made db e) h in
            subst (λ (d : Db). IsLinkedOnce d.links)
              (returned made t (linked u "general" made db) db' same).1 (e, once)
      ]

  -- Whatever others commit in between, the thread that comes back is the one that the underwriting is
  -- linked to; and if they too keep to the primary key, every underwriting still has at most one
  -- thread of each kind.
  pub get_or_create_thread_lem :
      (u user_id : ℕ) (db db' : Db) (t : ℕ)
      → ((d : Db) → IsLinkedOnce d.links → IsLinkedOnce (meanwhile d).links)
      → ((d : Db) → IsLinkedOnce d.links → IsLinkedOnce (later d).links)
      → IsLinkedOnce db.links
      → get_or_create_thread u user_id db ≡ ok (t, db')
      → (get_thread_id u "general" db' ≡ some t) × IsLinkedOnce db'.links
  unfolding get_or_create_thread
  get_or_create_thread_lem u user_id db db' t before after once h =
      elim (Option-cases (get_thread_id u "general" db)) [
        | inl e ↦
            let made = start_thread user_id db in
            let h' : settle_link u made.0 (insert_link u "general" made.0 (meanwhile made.1))
                ≡ ok (t, db') =
              subst (λ o. or_create u user_id db o ≡ ok (t, db')) e h in
            (
              settle_link-linked u made.0 (meanwhile made.1) db' t h',
              settle_link-IsLinkedOnce u made.0 (meanwhile made.1) db' t after (before made.1 once)
                  h',
            )
        | inr (w, e) ↦
            let (same, kept) =
              returned w t db db' (subst (λ o. or_create u user_id db o ≡ ok (t, db')) e h) in
            (
              subst (λ d. get_thread_id u "general" d ≡ some t) kept (e ∙ ap some same),
              subst (λ (d : Db). IsLinkedOnce d.links) kept once,
            )
      ]

  settle_link_total :
      (u made : ℕ) (db : Db)
      → ((d : Db) → (later d).links ≡ d.links)
      → (t : ℕ) × (db' : Db) × (settle_link u made (insert_link u "general" made db) ≡ ok (t, db'))
  unfolding get_thread_id discard_thread
  settle_link_total u made db keeps = elim (Bool-cases (any (is_place u "general") db.links)) [
    | inl e ↦
        let seen = later (discard_thread made db) in
        let (l, found) = find-any (is_place u "general") db.links e in
        let there : get_thread_id u "general" seen ≡ some l.thread_id =
          ap (λ k. thread_of (find (is_place u "general") k)) (keeps (discard_thread made db))
          ∙ ap thread_of found in
        (
          l.thread_id,
          seen,
          ap (settle_link u made) (insert_link-taken u "general" made db e)
              ∙ ap (λ o. winner u o seen) there,
        )
    | inr e ↦ (
      made,
      linked u "general" made db,
      ap (settle_link u made) (insert_link-free u "general" made db e),
    )
  ]

  -- If others leave the links alone after a conflict, a comment gets its thread, also when another
  -- transaction linked one in between.
  pub get_or_create_thread_total :
      (u user_id : ℕ) (db : Db)
      → ((d : Db) → (later d).links ≡ d.links)
      → (t : ℕ) × (db' : Db) × (get_or_create_thread u user_id db ≡ ok (t, db'))
  unfolding get_or_create_thread
  get_or_create_thread_total u user_id db keeps =
      elim (Option-cases (get_thread_id u "general" db)) [
        | inl e ↦
            let made = start_thread user_id db in
            let (t, db', h) = settle_link_total u made.0 (meanwhile made.1) keeps in
            (t, db', ap (or_create u user_id db) e ∙ h)
        | inr (w, e) ↦ (w, db, ap (or_create u user_id db) e)
      ]
