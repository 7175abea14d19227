-- ===== src/Discussions/Outcomes.antt =====
-- Edits keep the counters; deletes by the author always go through; nobody else changes a comment.
use adus_be.Json.{Json}
use adus_be.Prelude.{
  ℕ, suc, ◌≡◌, ◌≢◌, refl, sym, ap, ◌∙◌, inl, inr, true, false, ◌&&◌, Option, none, some, is_none,
  is_some, List, [], ◌∷◌, map, ◌==◌, length, find, any, if◌then◌else◌, Result, ok, err,
  Result-cases, arith, Bool-cases, Option-cases, String,
}
use adus_be.Discussions.{
  Thread, Comment, Db, DiscussionError, comment_not_found, not_comment_author, count_deleted, live,
  newest, id_of, created_of, update_comment, as_deleted, update_thread, with_body, get_comment,
  record_comment_deleted, soft_delete_comment, update_comment_body, add_mentions, replace_mentions,
}
use adus_be.Discussions.Service.{
  ProcessedBody, CommentRead, get_own_live_comment, edit_comment, delete_comment,
}
use adus_be.Discussions.Newest.{Descending, live-found}
use adus_be.Discussions.Counters.{AllCounted, IsConsistent, get_own_live_comment-eq_ok}

abbrev omap : (Comment → Comment) → Option Comment → Option Comment
omap g none = none
omap g (some c) = some (g c)

newest-map :
    (g : Comment → Comment)
    → ((c : Comment) → (g c).id ≡ c.id)
    → ((c : Comment) → (g c).created_at ≡ c.created_at)
    → (l : List Comment) → newest (map g l) ≡ omap g (newest l)
unfolding newest
newest-map g same at [] = refl
newest-map g same at (c ∷ l) = elim (Option-cases (newest l)) [
  | inl e ↦ rw (newest-map g same at l) (rw e refl)
  | inr (d, e) ↦ ground (arith, newest-map g same at l, same c, same d, at c, at d)
]

abbrev edit : ℕ → ℕ → ℕ → Json → String → Comment → Comment
edit i v now body text c = if c.id == i then with_body v body text now c else c

edit_same :
    (i v now : ℕ) (body : Json) (text : String) (c : Comment)
    → ((edit i v now body text c).id ≡ c.id)
      × ((edit i v now body text c).created_at ≡ c.created_at)
      × ((edit i v now body text c).thread_id ≡ c.thread_id)
      × ((edit i v now body text c).deleted_at ≡ c.deleted_at)
edit_same i v now body text c = elim (Bool-cases (c.id == i)) [
  | inl y ↦ rw y (refl, refl, refl, refl)
  | inr n ↦ rw n (refl, refl, refl, refl)
]

live-edit :
    (t i v now : ℕ) (body : Json) (text : String) (l : List Comment)
    → live t (map (edit i v now body text) l) ≡ map (edit i v now body text) (live t l)
unfolding live
live-edit t i v now body text [] = refl
live-edit t i v now body text (c ∷ l) =
    let (_, _, own, gone) = edit_same i v now body text c in
    rw (own, gone, live-edit t i v now body text l)
      (elim (Bool-cases ((c.thread_id == t) && is_none c.deleted_at)) [
        | inl y ↦ rw y refl
        | inr n ↦ rw n refl
      ])

length-map : (g : Comment → Comment) (l : List Comment) → length (map g l) ≡ length l
length-map g [] = refl
length-map g (c ∷ l) = ap suc (length-map g l)

edited_live :
    (t i v now : ℕ) (body : Json) (text : String) (l : List Comment)
    → let l' = live t (update_comment i (with_body v body text now) l) in
      (length l' ≡ length (live t l))
      × (id_of (newest l') ≡ id_of (newest (live t l)))
      × (created_of (newest l') ≡ created_of (newest (live t l)))
edited_live t i v now body text l =
    let g = edit i v now body text in
    let moved =
      newest-map g (λ c. (edit_same i v now body text c).0) (λ c. (edit_same i v now body text c).1)
        (live t l) in
    rw (live-edit t i v now body text l) (
      length-map g (live t l),
      ap id_of moved ∙ of_newest (newest (live t l)),
      ap created_of moved ∙ at_newest (newest (live t l)),
    )
  where
    of_newest : (o : Option Comment) → id_of (omap (edit i v now body text) o) ≡ id_of o
    of_newest none = refl
    of_newest (some c) = ap some (edit_same i v now body text c).0

    at_newest : (o : Option Comment) → created_of (omap (edit i v now body text) o) ≡ created_of o
    at_newest none = refl
    at_newest (some c) = ap some (edit_same i v now body text c).1

AllCounted-edit :
    (i v now : ℕ) (body : Json) (text : String) (l : List Comment) (ts : List Thread)
    → AllCounted l ts
    → AllCounted (update_comment i (with_body v body text now) l) ts
AllCounted-edit i v now body text l [] k = tt
AllCounted-edit i v now body text l (t ∷ ts) k =
    let (n, m, a) = edited_live t.id i v now body text l in
    (
      record {
        count = k.0.count ∙ sym n;
        last_id = k.0.last_id ∙ sym m;
        last_at = k.0.last_at ∙ sym a;
      },
      AllCounted-edit i v now body text l ts k.1,
    )

Descending-edit :
    (next i v now : ℕ) (body : Json) (text : String) (l : List Comment)
    → Descending next l
    → Descending next (update_comment i (with_body v body text now) l)
Descending-edit next i v now body text [] d = tt
Descending-edit next i v now body text (c ∷ l) d = elim (Bool-cases (c.id == i)) [
  | inl y ↦ rw y (d.0, Descending-edit c.id i v now body text l d.1)
  | inr n ↦ rw n (d.0, Descending-edit c.id i v now body text l d.1)
]

module _ (process : ℕ → Json → Result DiscussionError ProcessedBody) where
  -- An edit changes no counter and keeps every thread's counters in agreement with its comments.
  pub edit_comment-IsConsistent :
      (comment_id user_id body_version : ℕ) (body : Json) (db : Db) {r : Option CommentRead}
      {db' : Db}
      → IsConsistent db
      → edit_comment process comment_id user_id body_version body db ≡ ok (r, db')
      → IsConsistent db' × (db'.threads ≡ db.threads)
  unfolding edit_comment update_comment_body replace_mentions add_mentions
  edit_comment-IsConsistent i u v body db {r} {db'} k h =
      elim (Result-cases (get_own_live_comment i u db)) [
        | inr (x, e) ↦ absurd (ground arith)
        | inl (c, e) ↦ elim (Result-cases (process v body)) [
          | inr (x, e') ↦ absurd (ground arith)
          | inl (p, e') ↦
              let comments : db'.comments
                  ≡ update_comment i (with_body v p.body p.body_text db.now) db.comments =
                ground arith in
              let threads : db'.threads ≡ db.threads = ground arith in
              let next : db'.next_comment_id ≡ db.next_comment_id = ground arith in
              (
                record {
                  counted =
                      rw (threads, comments)
                        (AllCounted-edit i v db.now p.body p.body_text db.comments db.threads
                          k.counted);
                  ids =
                      rw (comments, next)
                        (Descending-edit db.next_comment_id i v db.now p.body p.body_text
                          db.comments k.ids);
                },
                threads,
              )
        ]
      ]

no_empty_thread :
    (i : ℕ) (db : Db) (c : Comment) (ts : List Thread)
    → Descending db.next_comment_id db.comments
    → find (λ (x : Comment). x.id == i) db.comments ≡ some c
    → is_none c.deleted_at ≡ true
    → AllCounted db.comments ts
    → any (λ (t : Thread). (t.id == c.thread_id) && (t.comment_count == 0)) ts ≡ false
no_empty_thread i db c [] d f a k = refl
no_empty_thread i db c (t ∷ ts) d f a k = ground (
  arith,
  live-found db.next_comment_id i t.id db.comments c d f a,
  k.0.count,
  no_empty_thread i db c ts d f a k.1,
)

found_deleted :
    (i now : ℕ) (l : List Comment) (c : Comment)
    → find (λ (x : Comment). x.id == i) l ≡ some c
    → find (λ (x : Comment). x.id == i) (update_comment i (as_deleted now) l)
      ≡ some (as_deleted now c)
found_deleted i now [] c f = cc
found_deleted i now (x ∷ l) c f = elim (Bool-cases (x.id == i)) [
  | inl y ↦ ground arith
  | inr n ↦ ground (arith, found_deleted i now l c (ground arith))
]

deleted_not_found :
    (i u : ℕ) (db : Db) (c : Comment)
    → get_comment i db ≡ some c
    → is_some c.deleted_at ≡ true
    → delete_comment i u db ≡ err (comment_not_found i)
unfolding delete_comment get_own_live_comment
deleted_not_found i u db c f a = ground arith

-- On consistent tables a delete succeeds whenever the comment is the user's own and live: the check
-- constraint on the count never refuses it. The comment is deleted then, so that a second delete is
-- answered "not found".
pub delete_comment_total :
    (comment_id user_id : ℕ) (db : Db) (c : Comment)
    → IsConsistent db
    → get_own_live_comment comment_id user_id db ≡ ok c
    → (db' : Db) × (delete_comment comment_id user_id db ≡ ok db')
      × ((u : ℕ) → delete_comment comment_id u db' ≡ err (comment_not_found comment_id))
unfolding delete_comment record_comment_deleted soft_delete_comment get_comment
delete_comment_total i u db c k h =
    let (found, alive, _) = get_own_live_comment-eq_ok i u db c h in
    let none_empty = no_empty_thread i db c db.threads k.ids found alive k.counted in
    let gone = found_deleted i db.now db.comments c found in
    let removed = update_comment i (as_deleted db.now) db.comments in
    (
      record db {
        comments = removed;
        threads =
            update_thread c.thread_id (count_deleted i (newest (live c.thread_id removed)))
              db.threads;
      },
      rw h (rw none_empty refl),
      λ u'. deleted_not_found i u' _ (as_deleted db.now c) gone refl,
    )

-- Only the author of a live comment edits or deletes it: any other user gets the "not the author"
-- error from both, whatever the body.
pub strangers_change_nothing :
    (process : ℕ → Json → Result DiscussionError ProcessedBody)
    (comment_id user_id body_version : ℕ) (body : Json) (db : Db) (c : Comment)
    → get_comment comment_id db ≡ some c
    → c.deleted_at ≡ none
    → c.author_user_id ≢ user_id
    → (edit_comment process comment_id user_id body_version body db
        ≡ err (not_comment_author comment_id))
      × (delete_comment comment_id user_id db ≡ err (not_comment_author comment_id))
unfolding edit_comment delete_comment get_own_live_comment
strangers_change_nothing process i u v body db c f a n = (ground arith, ground arith)
