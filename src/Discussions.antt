-- ===== src/Discussions.antt =====
-- Discussions (app/core/discussions): the tables of models.py and the statements of repository.py.
-- Body holds comment bodies, Service the entry points, the other modules the proofs.
pub mod Body
pub mod Service
pub mod Newest
pub mod Counters
pub mod Outcomes
pub mod Mentions
use adus_be.Json.{Json}
use adus_be.Prelude.{
  ℕ, suc, ◌+◌, ◌-◌, ◌*◌, Bool, true, false, ◌&&◌, ◌||◌, not, Option, none, some, is_none, is_some,
  List, [], ◌∷◌, ◌++◌, map, String, ◌==◌, ltb, any, find, filter, if◌then◌else◌, Result, ok, err,
}

pub record Thread : Type 0 where
  pub id : ℕ
  pub subject_type : String
  pub created_by_user_id : Option ℕ
  pub comment_count : ℕ
  pub last_comment_id : Option ℕ
  pub last_comment_at : Option ℕ

pub record Comment : Type 0 where
  pub id : ℕ
  pub thread_id : ℕ
  pub author_user_id : ℕ
  pub parent_comment_id : Option ℕ
  pub body_version : ℕ
  pub body : Json
  pub body_text : String
  pub created_at : ℕ
  pub edited_at : Option ℕ
  pub deleted_at : Option ℕ

pub record CommentMention : Type 0 where
  pub comment_id : ℕ
  pub user_id : ℕ

-- The three tables, newest row first, their identity columns, and the time at which the
-- transaction began.
pub record Db : Type 0 where
  pub threads : List Thread
  pub comments : List Comment
  pub mentions : List CommentMention
  pub next_thread_id : ℕ
  pub next_comment_id : ℕ
  pub now : ℕ

-- exceptions.py and body/errors.py, a plain ValueError, a violated constraint, and a page below 1
pub data DiscussionError : Type 0 where
  comment_not_found not_comment_author : ℕ → DiscussionError
  replies_not_supported invalid_body value_error type_error integrity_error page_error :
      DiscussionError
  invalid_mention : List ℕ → DiscussionError

-- UPDATE ... WHERE id = ...
abbrev pub update_thread : ℕ → (Thread → Thread) → List Thread → List Thread
update_thread i f = map (λ (t : Thread). if t.id == i then f t else t)

unfoldable pub create_thread : String → Option ℕ → Db → ℕ × Db
create_thread subject_type created_by_user_id db = (
  db.next_thread_id,
  record db {
    threads =
        record {
          id = db.next_thread_id;
          subject_type = subject_type;
          created_by_user_id = created_by_user_id;
          comment_count = 0;
          last_comment_id = none;
          last_comment_at = none;
        }
        ∷ db.threads;
    next_thread_id = suc db.next_thread_id;
  },
)

-- Row values are compared from the left.
abbrev pub is_later : ℕ → ℕ → ℕ → ℕ → Bool
is_later at i at' i' = ltb at' at || ((at' == at) && ltb i' i)

-- `is_newer` of `record_comment_created`
unfoldable pub is_newer : Thread → ℕ → ℕ → Bool
is_newer t comment_id created_at = elim t.last_comment_at [
  | none ↦ true
  | some at ↦ elim t.last_comment_id [ none ↦ true | some i ↦ is_later created_at comment_id at i ]
]

abbrev pub count_created : ℕ → ℕ → Thread → Thread
count_created comment_id created_at t =
    if is_newer t comment_id created_at
    then record t {
      comment_count = t.comment_count + 1;
      last_comment_id = some comment_id;
      last_comment_at = some created_at;
    }
    else record t { comment_count = t.comment_count + 1 }

-- Bump the count and move `last_comment_*` forward, never back.
unfoldable pub record_comment_created : ℕ → ℕ → ℕ → Db → Db
record_comment_created thread_id comment_id created_at db = record db {
  threads = update_thread thread_id (count_created comment_id created_at) db.threads;
}

-- WHERE thread_id = ... AND deleted_at IS NULL
unfoldable pub live : ℕ → List Comment → List Comment
live thread_id = filter (λ (c : Comment). (c.thread_id == thread_id) && is_none c.deleted_at)

-- ORDER BY created_at DESC, id DESC LIMIT 1
unfoldable pub newest : List Comment → Option Comment
newest [] = none
newest (c ∷ l) = elim (newest l) [
  | none ↦ some c
  | some d ↦ if is_later c.created_at c.id d.created_at d.id then some c else some d
]

abbrev pub id_of : Option Comment → Option ℕ
id_of none = none
id_of (some c) = some c.id

abbrev pub created_of : Option Comment → Option ℕ
created_of none = none
created_of (some c) = some c.created_at

abbrev pub opt_is : Option ℕ → ℕ → Bool
opt_is none i = false
opt_is (some j) i = j == i

abbrev pub count_deleted : ℕ → Option Comment → Thread → Thread
count_deleted comment_id next t =
    if opt_is t.last_comment_id comment_id
    then record t {
      comment_count = t.comment_count - 1;
      last_comment_id = id_of next;
      last_comment_at = created_of next;
    }
    else record t { comment_count = t.comment_count - 1 }

-- Decrement the count; if it was the last comment, recompute from the newest one that is left. The
-- check constraint refuses a count below 0.
unfoldable pub record_comment_deleted : ℕ → ℕ → Db → Result DiscussionError Db
unfolding live newest
record_comment_deleted thread_id comment_id db =
    if any (λ (t : Thread). (t.id == thread_id) && (t.comment_count == 0)) db.threads
    then err integrity_error
    else ok (record db {
      threads =
          update_thread thread_id (count_deleted comment_id (newest (live thread_id db.comments)))
            db.threads;
    })

abbrev pub new_comment : ℕ → ℕ → ℕ → Json → String → Db → Comment
new_comment thread_id author_user_id body_version body body_text db = record {
  id = db.next_comment_id;
  thread_id = thread_id;
  author_user_id = author_user_id;
  parent_comment_id = none;
  body_version = body_version;
  body = body;
  body_text = body_text;
  created_at = db.now;
  edited_at = none;
  deleted_at = none;
}

-- The thread must exist; `parent_comment_id` is null at the one call.
unfoldable pub insert_comment :
    ℕ → ℕ → ℕ → Json → String → Db → Result DiscussionError (Comment × Db)
insert_comment thread_id author_user_id body_version body body_text db =
    let c = new_comment thread_id author_user_id body_version body body_text db in
    if any (λ (t : Thread). t.id == thread_id) db.threads
    then ok (c, record db { comments = c ∷ db.comments; next_comment_id = suc db.next_comment_id })
    else err integrity_error

unfoldable pub get_comment : ℕ → Db → Option Comment
get_comment comment_id db = find (λ (c : Comment). c.id == comment_id) db.comments

abbrev pub update_comment : ℕ → (Comment → Comment) → List Comment → List Comment
update_comment i f = map (λ (c : Comment). if c.id == i then f c else c)

abbrev pub with_body : ℕ → Json → String → ℕ → Comment → Comment
with_body body_version body body_text now c = record c {
  body_version = body_version;
  body = body;
  body_text = body_text;
  edited_at = some now;
}

unfoldable pub update_comment_body : ℕ → ℕ → Json → String → Db → Db
update_comment_body comment_id body_version body body_text db = record db {
  comments = update_comment comment_id (with_body body_version body body_text db.now) db.comments;
}

abbrev pub as_deleted : ℕ → Comment → Comment
as_deleted now c = record c { deleted_at = some now }

unfoldable pub soft_delete_comment : ℕ → Db → Db
soft_delete_comment comment_id db = record db {
  comments = update_comment comment_id (as_deleted db.now) db.comments;
}

abbrev pub mention_rows : ℕ → List ℕ → List CommentMention
mention_rows comment_id [] = []
mention_rows comment_id (u ∷ us) =
    record { comment_id = comment_id; user_id = u } ∷ mention_rows comment_id us

unfoldable pub add_mentions : ℕ → List ℕ → Db → Db
add_mentions comment_id user_ids db = record db {
  mentions = mention_rows comment_id user_ids ++ db.mentions;
}

unfoldable pub replace_mentions : ℕ → List ℕ → Db → Db
unfolding add_mentions
replace_mentions comment_id user_ids db = add_mentions comment_id user_ids (record db {
  mentions = filter (λ (m : CommentMention). not (m.comment_id == comment_id)) db.mentions;
})
