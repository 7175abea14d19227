-- ===== src/Discussions/Counters.antt =====
-- The stored counters of a thread agree with its comments, whatever the operation.
use adus_be.Json.{Json}
use adus_be.Prelude.{
  ℕ, suc, ◌≡◌, refl, sym, ap, ◌∙◌, inl, inr, true, Option, none, some, is_none, List, [], ◌∷◌, ◌==◌,
  ==_iff, length, find, if◌then◌else◌, Result, ok, Result-cases, arith, Bool-cases, Option-cases,
}
use adus_be.Discussions.{
  Thread, Comment, Db, DiscussionError, update_thread, is_newer, count_created, count_deleted, live,
  newest, id_of, created_of, new_comment, update_comment, as_deleted, insert_comment, get_comment,
  record_comment_created, record_comment_deleted, soft_delete_comment, add_mentions,
}
use adus_be.Discussions.Service.{
  ProcessedBody, CommentRead, get_own_live_comment, create_comment, delete_comment,
}
use adus_be.Discussions.Newest.{
  Descending, newest_of_none, newest-filter, other_than, live-delete, live-found, live_elsewhere,
}

-- A thread's counters, read off its live comments.
pub record Counted (comments : List Comment) (t : Thread) : Type 0 where
  pub count : t.comment_count ≡ length (live t.id comments)
  pub last_id : t.last_comment_id ≡ id_of (newest (live t.id comments))
  pub last_at : t.last_comment_at ≡ created_of (newest (live t.id comments))

abbrev pub AllCounted : List Comment → List Thread → Type 0
AllCounted comments [] = Unit {0}
AllCounted comments (t ∷ l) = Counted comments t × AllCounted comments l

-- Every thread is counted, and comment ids fall down the table.
pub record IsConsistent (db : Db) : Type 0 where
  pub counted : AllCounted db.comments db.threads
  pub ids : Descending db.next_comment_id db.comments

Counted-created :
    (c : Comment) (comments : List Comment) (t : Thread)
    → c.deleted_at ≡ none
    → Counted comments t
    → Counted (c ∷ comments) (if t.id == c.thread_id then count_created c.id c.created_at t else t)
unfolding live newest is_newer
Counted-created c comments t d k = elim (Option-cases (newest (live t.id comments))) [
  | inl e ↦ ground (arith, k.count, k.last_id, k.last_at)
  | inr (x, e) ↦ ground (arith, k.count, k.last_id, k.last_at)
]

module _ (next i now : ℕ) (comments : List Comment) (c : Comment) (falls : Descending next comments)
    (found : find (λ (x : Comment). x.id == i) comments ≡ some c)
    (alive : is_none c.deleted_at ≡ true) where
  gone : List Comment
  gone = update_comment i (as_deleted now) comments

  Counted-own :
      (t : Thread)
      → (t.id == c.thread_id) ≡ true
      → Counted comments t
      → Counted gone (count_deleted i (newest (live c.thread_id gone)) t)
  unfolding gone
  Counted-own t own k =
      let same : t.id ≡ c.thread_id = (==_iff t.id c.thread_id).0 own in
      let without = live-delete t.id i now comments in
      let fewer = live-found next i t.id comments c falls found alive in
      elim (Option-cases (newest (live t.id comments))) [
        | inl e ↦
            absurd
              (ground (arith, ap (λ l. length l) (newest_of_none (live t.id comments) e), fewer))
        | inr (m, e) ↦ elim (Bool-cases (m.id == i)) [
          | inl y ↦ rw (← same) (rw without (ground (arith, k.count, k.last_id, k.last_at, fewer)))
          | inr n ↦ rw (← same) (
              rw without (
                ground (
                  arith,
                  k.count,
                  k.last_id,
                  k.last_at,
                  fewer,
                  newest-filter (other_than i) (live t.id comments) m e (ground arith),
                )))
        ]
      ]

  Counted-deleted :
      (t : Thread)
      → Counted comments t
      → Counted gone
          (if t.id == c.thread_id then count_deleted i (newest (live c.thread_id gone)) t else t)
  unfolding gone
  Counted-deleted t k = elim (Bool-cases (t.id == c.thread_id)) [
    | inl own ↦ rw own (Counted-own t own k)
    | inr other ↦
        let same =
          live-delete t.id i now comments
          ∙ live_elsewhere next i t.id comments c falls found (ground arith) in
        rw other (record {
          count = k.count ∙ ap length (sym same);
          last_id = k.last_id ∙ ap (λ l. id_of (newest l)) (sym same);
          last_at = k.last_at ∙ ap (λ l. created_of (newest l)) (sym same);
        })
  ]

-- a property of threads that one update keeps, thread by thread
pub AllCounted-update :
    (a b : List Comment) (i : ℕ) (f : Thread → Thread)
    → ((t : Thread) → Counted a t → Counted b (if t.id == i then f t else t))
    → (l : List Thread) → AllCounted a l
    → AllCounted b (update_thread i f l)
AllCounted-update a b i f keep [] k = tt
AllCounted-update a b i f keep (t ∷ l) k = (keep t k.0, AllCounted-update a b i f keep l k.1)

pub get_own_live_comment-eq_ok :
    (i u : ℕ) (db : Db) (c : Comment)
    → get_own_live_comment i u db ≡ ok c
    → (find (λ (x : Comment). x.id == i) db.comments ≡ some c)
      × (is_none c.deleted_at ≡ true)
      × (c.author_user_id ≡ u)
unfolding get_own_live_comment get_comment
get_own_live_comment-eq_ok i u db c h = ground arith

module _ (process : ℕ → Json → Result DiscussionError ProcessedBody) where
  -- A comment that is created is counted in its thread, and is the last one there where it is the
  -- newest; every thread's counters agree with its comments again.
  pub create_comment-IsConsistent :
      (thread_id author_user_id body_version : ℕ) (body : Json) (parent : Option ℕ) (db : Db)
      {r : CommentRead} {db' : Db}
      → IsConsistent db
      → create_comment process thread_id author_user_id body_version body parent db ≡ ok (r, db')
      → IsConsistent db'
  unfolding create_comment insert_comment record_comment_created add_mentions
  create_comment-IsConsistent tid author v body parent db {r} {db'} k h =
      elim (Result-cases (process v body)) [
        | inr (x, e) ↦ absurd (ground arith)
        | inl (p, e) ↦
            let c = new_comment tid author v p.body p.body_text db in
            let threads : db'.threads
                ≡ update_thread tid (count_created c.id c.created_at) db.threads =
              ground arith in
            let comments : db'.comments ≡ c ∷ db.comments = ground arith in
            let next : db'.next_comment_id ≡ suc db.next_comment_id = ground arith in
            record {
              counted =
                  rw (threads, comments)
                    (AllCounted-update db.comments (c ∷ db.comments) tid
                      (count_created c.id c.created_at)
                      (λ t k. Counted-created c db.comments t refl k) db.threads k.counted);
              ids = rw (comments, next) (omega arith, k.ids);
            }
      ]

Descending-delete :
    (next i now : ℕ) (l : List Comment)
    → Descending next l
    → Descending next (update_comment i (as_deleted now) l)
Descending-delete next i now [] d = tt
Descending-delete next i now (c ∷ l) d = elim (Bool-cases (c.id == i)) [
  | inl y ↦ rw y (d.0, Descending-delete c.id i now l d.1)
  | inr n ↦ rw n (d.0, Descending-delete c.id i now l d.1)
]

-- A comment that is deleted is no longer counted, and where it was the last one the newest that is
-- left takes its place; every thread's counters agree with its comments again.
pub delete_comment-IsConsistent :
    (comment_id user_id : ℕ) (db : Db) {db' : Db}
    → IsConsistent db
    → delete_comment comment_id user_id db ≡ ok db'
    → IsConsistent db'
unfolding delete_comment soft_delete_comment record_comment_deleted
delete_comment-IsConsistent i u db {db'} k h = elim (Result-cases (get_own_live_comment i u db)) [
  | inr (x, e) ↦ absurd (ground arith)
  | inl (c, e) ↦
      let (found, alive, _) = get_own_live_comment-eq_ok i u db c e in
      let comments : db'.comments ≡ update_comment i (as_deleted db.now) db.comments =
        ground arith in
      let threads : db'.threads
          ≡ update_thread c.thread_id
              (count_deleted i
                (newest (live c.thread_id (update_comment i (as_deleted db.now) db.comments))))
              db.threads =
        ground arith in
      let next : db'.next_comment_id ≡ db.next_comment_id = ground arith in
      record {
        counted =
            rw (threads, comments)
              (AllCounted-update db.comments (update_comment i (as_deleted db.now) db.comments)
                c.thread_id
                (count_deleted i
                  (newest (live c.thread_id (update_comment i (as_deleted db.now) db.comments))))
                (unfold gone in
                  Counted-deleted db.next_comment_id i db.now db.comments c k.ids found alive)
                db.threads k.counted);
        ids = rw (comments, next) (Descending-delete db.next_comment_id i db.now db.comments k.ids);
      }
]
