-- ===== src/Discussions/Body/Pipeline.antt =====
-- app/core/discussions/body/pipeline.py. Pydantic (`model_validate`, `model_dump`), the lookup of
-- users, and the text rendering of body/text.py are parameters.
use adus_be.Json.{Json}
use adus_be.Prelude.{
  ℕ, ◌≡◌, Bool, true, not, Option, none, some, List, [], ◌∷◌, String, ◌==◌, any, all, find, filter,
  Result, ok, err, ◌>>=◌, ◌>>◌,
}
use adus_be.Discussions.{DiscussionError, invalid_body, value_error, type_error, invalid_mention}
use adus_be.Discussions.Service.{ProcessedBody}
use adus_be.Discussions.Body.Limits.{BodyError, enforce_limits}
use adus_be.Discussions.Body.Nodes.{DocV1, parse_body, analyze, reject_empty}
use adus_be.Discussions.Body.Facts.{doc_order, mentions, first_seen, says_something}

-- interfaces.py
pub record UserRef : Type 0 where
  pub id : ℕ
  pub first_name : Option String
  pub last_name : Option String
  pub email : Option String
  pub is_deleted : Bool

-- InvalidBodyError carries a message, which is left out here.
abbrev raised : BodyError → DiscussionError
raised BodyError.value_error = value_error
raised BodyError.type_error = type_error
raised e = invalid_body

-- an exception of the checks, passed on
abbrev pub passing {ℓ} : {A : Type ℓ} → Result BodyError A → Result DiscussionError A
passing (err e) = err (raised e)
passing (ok a) = ok a

-- `user_id not in users or users[user_id].is_deleted`
unfoldable pub is_invalid : List UserRef → ℕ → Bool
is_invalid users user_id = elim (find (λ (u : UserRef). u.id == user_id) users) [
  | none ↦ true
  | some u ↦ u.is_deleted
]

abbrev nobody : List UserRef
nobody = []

module _ (is_digits : String → Bool) (to_int : String → Option ℕ) (repr : Json → String)
    (model_validate : Json → Option DocV1) (model_dump : DocV1 → Json)
    (get_users : List ℕ → List UserRef) (derive_body_text : DocV1 → List UserRef → String) where
  abbrev looked_up : List ℕ → List UserRef
  looked_up [] = nobody
  looked_up (u ∷ us) = get_users (u ∷ us)

  abbrev finish : DocV1 → List ℕ → List UserRef → List ℕ → Result DiscussionError ProcessedBody
  finish doc ids users [] = ok (record {
    body = model_dump doc;
    body_text = derive_body_text doc users;
    mention_user_ids = ids;
  })
  finish doc ids users (u ∷ us) = err (invalid_mention (u ∷ us))

  -- Mentions are never dropped silently.
  abbrev pub resolve : DocV1 → List ℕ → Result DiscussionError ProcessedBody
  resolve doc ids =
      let users = looked_up ids in finish doc ids users (filter (is_invalid users) ids)

  unfoldable pub process_body : ℕ → Json → Result DiscussionError ProcessedBody
  process_body body_version raw = do
    passing (enforce_limits is_digits to_int repr raw)
    doc ← passing (parse_body model_validate body_version raw)
    facts ← passing (analyze doc)
    passing (reject_empty facts)
    resolve doc facts.mention_ids

  -- What a body that is accepted has.
  pub record IsAccepted (body_version : ℕ) (raw : Json) (p : ProcessedBody) : Type 0 where
    pub doc : DocV1
    pub limited : enforce_limits is_digits to_int repr raw ≡ ok tt
    pub version : body_version ≡ 1
    pub parsed : model_validate raw ≡ some doc
    pub normalized : p.body ≡ model_dump doc
    pub addressed : p.mention_user_ids ≡ first_seen (mentions (doc_order doc))
    pub known :
        all (λ u. not (is_invalid (get_users p.mention_user_ids) u)) p.mention_user_ids ≡ true
    pub nonempty : any says_something (doc_order doc) ≡ true
