-- ===== src/Discussions/Body/Created.antt =====
-- `DiscussionService.create_comment` (core/discussions/service.py) over the pipeline of
-- core/discussions/body/pipeline.py.
use adus_be.Json.{Json}
use adus_be.Prelude.{ℕ, ◌≡◌, Bool, Option, some, is_some, List, ◌∷◌, ◌++◌, String, Result}
use adus_be.Discussions.{DiscussionError, Comment, Db, mention_rows}
use adus_be.Discussions.Service.{ProcessedBody, CommentRead}
use adus_be.Discussions.Body.Nodes.{DocV1}
use adus_be.Discussions.Body.Pipeline.{UserRef, process_body, IsAccepted}

module _ (is_digits : String → Bool) (to_int : String → Option ℕ) (repr : Json → String)
    (model_validate : Json → Option DocV1) (model_dump : DocV1 → Json)
    (get_users : List ℕ → List UserRef) (derive_body_text : DocV1 → List UserRef → String) where
  unfoldable pub process : ℕ → Json → Result DiscussionError ProcessedBody
  process = process_body is_digits to_int repr model_validate model_dump get_users derive_body_text

  -- What a created comment shows and leaves in the mention index.
  pub record IsDelivered (tid author v : ℕ) (raw : Json) (parent : Option ℕ) (db : Db)
      (r : CommentRead) (db' : Db) : Type 0 where
    pub processed : ProcessedBody
    pub accepted :
        IsAccepted is_digits to_int repr model_validate model_dump get_users derive_body_text v raw
          processed
    pub top_level : is_some parent ≡ Bool.false
    pub comment : Comment
    pub stored : db'.comments ≡ comment ∷ db.comments
    pub placed : (comment.thread_id ≡ tid) × (comment.author_user_id ≡ author)
    pub kept :
        (comment.body_version ≡ v)
        × (comment.body ≡ processed.body)
        × (comment.body_text ≡ processed.body_text)
    pub named : r.id ≡ comment.id
    pub shown : r.body ≡ some processed.body
    pub indexed : db'.mentions ≡ mention_rows r.id processed.mention_user_ids ++ db.mentions
