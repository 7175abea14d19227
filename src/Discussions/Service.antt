-- ===== src/Discussions/Service.antt =====
-- app/core/discussions/service.py. `process` is the pipeline that checks and normalizes a body; the
-- users that a response also carries are left out. Nothing here commits.
use adus_be.Json.{Json}
use adus_be.Prelude.{
  ℕ, Bool, not, Option, none, some, is_some, List, String, ◌==◌, if◌then◌else◌, Result, ok, err,
  ◌>>=◌,
}
use adus_be.Discussions.{
  Comment, Db, DiscussionError, comment_not_found, not_comment_author, replies_not_supported,
  insert_comment, get_comment, update_comment_body, soft_delete_comment, add_mentions,
  replace_mentions, record_comment_created, record_comment_deleted,
}

pub record ProcessedBody : Type 0 where
  pub body : Json
  pub body_text : String
  pub mention_user_ids : List ℕ

-- schemas.py
pub record CommentRead : Type 0 where
  pub id : ℕ
  pub thread_id : ℕ
  pub author_user_id : ℕ
  pub parent_comment_id : Option ℕ
  pub body_version : ℕ
  pub body : Option Json
  pub created_at : ℕ
  pub edited_at : Option ℕ
  pub is_deleted : Bool

unfoldable pub to_read : Comment → CommentRead
to_read c = record {
  id = c.id;
  thread_id = c.thread_id;
  author_user_id = c.author_user_id;
  parent_comment_id = c.parent_comment_id;
  body_version = c.body_version;
  body = if is_some c.deleted_at then none else some c.body;
  created_at = c.created_at;
  edited_at = c.edited_at;
  is_deleted = is_some c.deleted_at;
}

-- the row that UPDATE ... RETURNING gives back
abbrev pub read_of : Option Comment → Option CommentRead
read_of none = none
read_of (some c) = some (to_read c)

-- 404 if the comment is missing or deleted, 403 if the user is not its author.
unfoldable pub get_own_live_comment : ℕ → ℕ → Db → Result DiscussionError Comment
get_own_live_comment comment_id user_id db = elim (get_comment comment_id db) [
  | none ↦ err (comment_not_found comment_id)
  | some c ↦
      if is_some c.deleted_at
      then err (comment_not_found comment_id)
      else if not (c.author_user_id == user_id)
      then err (not_comment_author comment_id)
      else ok c
]

module _ (process : ℕ → Json → Result DiscussionError ProcessedBody) where
  unfoldable pub create_comment :
      ℕ → ℕ → ℕ → Json → Option ℕ → Db → Result DiscussionError (CommentRead × Db)
  create_comment thread_id author_user_id body_version body parent_comment_id db =
      if is_some parent_comment_id then err replies_not_supported else do
        processed ← process body_version body
        made ←
            insert_comment thread_id author_user_id body_version processed.body processed.body_text
              db
        let mentioned = add_mentions made.0.id processed.mention_user_ids made.1
        ok (to_read made.0, record_comment_created thread_id made.0.id made.0.created_at mentioned)

  unfoldable pub edit_comment :
      ℕ → ℕ → ℕ → Json → Db → Result DiscussionError (Option CommentRead × Db)
  edit_comment comment_id user_id body_version body db = do
    own ← get_own_live_comment comment_id user_id db
    processed ← process body_version body
    let edited = update_comment_body comment_id body_version processed.body processed.body_text db
    let mentioned = replace_mentions comment_id processed.mention_user_ids edited
    ok (read_of (get_comment comment_id mentioned), mentioned)

unfoldable pub delete_comment : ℕ → ℕ → Db → Result DiscussionError Db
delete_comment comment_id user_id db = do
  c ← get_own_live_comment comment_id user_id db
  record_comment_deleted c.thread_id comment_id (soft_delete_comment comment_id db)
