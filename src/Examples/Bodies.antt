-- ===== src/Examples/Bodies.antt =====
-- Comment bodies at concrete inputs.
use adus_be.Json.{Json, str, arr, obj, nil, cons, Fields, end, field, get}
use adus_be.Prelude.{
  ℕ, ◌≡◌, ◌↔◌, refl, Bool, false, Option, none, some, List, [], ◌∷◌, String, str_eq, contains,
  if◌then◌else◌, ok, err,
}
use adus_be.Discussions.{Comment, Db, Thread, new_comment}
use adus_be.Discussions.Service.{ProcessedBody}
use adus_be.Discussions.Body.Limits.{
  enforce_limits, scan, visit, count_mention, mention_key, add_key, push, hashable_items,
  value_error,
}
use adus_be.Discussions.Body.Fits.{IsWithinLimits}
use adus_be.Discussions.Body.Bounds.{enforce_limits_iff}
use adus_be.Discussions.Body.Nodes.{
  text_node, hard_break, mention_node, paragraph, bullet_list, no_items, item, no_blocks, block,
  DocV1,
}
use adus_be.Discussions.Body.Pipeline.{UserRef}

-- "²" is a digit that `int` refuses.
abbrev digits : String → Bool
digits s = contains s ("7" ∷ "²" ∷ [])

abbrev to_int : String → Option ℕ
to_int s = if str_eq s "7" then some 7 else none

abbrev repr : Json → String
repr j = ""

abbrev mention_of : String → Json
mention_of id =
    obj (field "type" (str "mention") (field "attrs" (obj (field "id" (str id) end)) end))

abbrev raw_with : String → Fields
raw_with id = field "type" (str "doc") (
    field "content"
      (arr (
        cons
          (obj (
            field "type" (str "paragraph")
              (field "content" (arr (cons (mention_of id) (cons (mention_of id) nil))) end)))
          nil))
      end)

accepted_raw : enforce_limits digits to_int repr (obj (raw_with "7")) ≡ ok tt
unfolding enforce_limits scan visit count_mention mention_key add_key push hashable_items get
    contains
accepted_raw = refl

-- An id that `isdigit` accepts and `int` does not ends in the plain ValueError.
superscript_id : enforce_limits digits to_int repr (obj (raw_with "²")) ≡ err value_error
unfolding enforce_limits scan visit count_mention mention_key add_key push hashable_items get
    contains
superscript_id = refl

enforce_limits_iff_example :
    (enforce_limits digits to_int repr (obj (raw_with "7")) ≡ ok tt)
    ↔ IsWithinLimits digits to_int repr (raw_with "7")
enforce_limits_iff_example = enforce_limits_iff digits to_int repr (raw_with "7")

abbrev doc : DocV1
doc = record {
  content = block (paragraph (some (mention_node 7 ∷ text_node "hi" none ∷ hard_break ∷ []))) (
      block
        (bullet_list (
          item (block (paragraph (some (mention_node 9 ∷ mention_node 7 ∷ []))) no_blocks)
            no_items))
        no_blocks);
}

abbrev user : ℕ → UserRef
user i = record { id = i; first_name = none; last_name = none; email = none; is_deleted = false }

abbrev users : List ℕ → List UserRef
users ids = user 7 ∷ user 9 ∷ []

abbrev validate : Json → Option DocV1
validate j = some doc

abbrev dump : DocV1 → Json
dump d = obj (raw_with "7")

abbrev render : DocV1 → List UserRef → String
render d us = "@unknownhi"

abbrev processed : ProcessedBody
processed = record { body = dump doc; body_text = "@unknownhi"; mention_user_ids = 7 ∷ 9 ∷ [] }

abbrev thread : Thread
thread = record {
  id = 1;
  subject_type = "underwriting";
  created_by_user_id = some 3;
  comment_count = 0;
  last_comment_id = none;
  last_comment_at = none;
}

abbrev start : Db
start = record {
  threads = thread ∷ [];
  comments = [];
  mentions = [];
  next_thread_id = 2;
  next_comment_id = 10;
  now = 100;
}

abbrev created : Comment
created = new_comment 1 3 1 (dump doc) "@unknownhi" start

abbrev after : Db
after = record {
  threads =
      record thread { comment_count = 1; last_comment_id = some 10; last_comment_at = some 100 }
      ∷ [];
  comments = created ∷ [];
  mentions = record { comment_id = 10; user_id = 7 } ∷ record { comment_id = 10; user_id = 9 } ∷ [];
  next_thread_id = 2;
  next_comment_id = 11;
  now = 100;
}
