-- ===== src/Examples/Threads.antt =====
-- Discussions on a small thread.
use adus_be.Json.{Json, null}
use adus_be.Prelude.{ℕ, ◌≡◌, refl, none, some, [], ◌∷◌, Result, ok, err}
use adus_be.Discussions.{
  Thread, Comment, Db, DiscussionError, comment_not_found, new_comment, insert_comment, get_comment,
  record_comment_created, record_comment_deleted, add_mentions, replace_mentions,
  soft_delete_comment, is_newer, live, newest, update_comment_body,
}
use adus_be.Discussions.Service.{
  ProcessedBody, to_read, get_own_live_comment, create_comment, edit_comment, delete_comment,
}
use adus_be.Discussions.Counters.{
  IsConsistent, create_comment-IsConsistent, delete_comment-IsConsistent,
}
use adus_be.Discussions.Outcomes.{edit_comment-IsConsistent, delete_comment_total}

abbrev process : ℕ → Json → Result DiscussionError ProcessedBody
process v body = ok (record { body = body; body_text = "hi"; mention_user_ids = 4 ∷ [] })

abbrev thread : Thread
thread = record {
  id = 1;
  subject_type = "underwriting";
  created_by_user_id = some 3;
  comment_count = 0;
  last_comment_id = none;
  last_comment_at = none;
}

abbrev start : Db
start = record {
  threads = thread ∷ [];
  comments = [];
  mentions = [];
  next_thread_id = 2;
  next_comment_id = 10;
  now = 100;
}

start-IsConsistent : IsConsistent start
unfolding live newest
start-IsConsistent = record {
  counted = (record { count = refl; last_id = refl; last_at = refl }, tt);
  ids = tt;
}

abbrev comment : Comment
comment = new_comment 1 3 1 null "hi" start

abbrev commented : Db
commented = record {
  threads =
      record thread { comment_count = 1; last_comment_id = some 10; last_comment_at = some 100 }
      ∷ [];
  comments = comment ∷ [];
  mentions = record { comment_id = 10; user_id = 4 } ∷ [];
  next_thread_id = 2;
  next_comment_id = 11;
  now = 100;
}

created : create_comment process 1 3 1 null none start ≡ ok (to_read comment, commented)
unfolding create_comment insert_comment add_mentions record_comment_created is_newer to_read
created = refl

create_comment-IsConsistent_example : IsConsistent commented
create_comment-IsConsistent_example =
    create_comment-IsConsistent process 1 3 1 null none start start-IsConsistent created

commented-IsConsistent : IsConsistent commented
commented-IsConsistent =
    create_comment-IsConsistent process 1 3 1 null none start start-IsConsistent created

own : get_own_live_comment 10 3 commented ≡ ok comment
unfolding get_own_live_comment get_comment
own = refl

abbrev removed : Db
removed = record commented {
  threads = thread ∷ [];
  comments = record comment { deleted_at = some 100 } ∷ [];
}

deleted : delete_comment 10 3 commented ≡ ok removed
unfolding delete_comment get_own_live_comment get_comment soft_delete_comment record_comment_deleted
    live newest
deleted = refl

delete_comment-IsConsistent_example : IsConsistent removed
delete_comment-IsConsistent_example =
    delete_comment-IsConsistent 10 3 commented commented-IsConsistent deleted

delete_comment_total_example :
    (db' : Db) × (delete_comment 10 3 commented ≡ ok db')
    × ((u : ℕ) → delete_comment 10 u db' ≡ err (comment_not_found 10))
delete_comment_total_example =
    delete_comment_total 10 3 commented comment commented-IsConsistent own

abbrev edited : Db
edited = record commented { comments = record comment { edited_at = some 100 } ∷ [] }

edit_goes_through :
    edit_comment process 10 3 1 null commented
    ≡ ok (some (to_read (record comment { edited_at = some 100 })), edited)
unfolding edit_comment get_own_live_comment get_comment update_comment_body replace_mentions to_read
edit_goes_through = refl

edit_comment-IsConsistent_example : IsConsistent edited × (edited.threads ≡ commented.threads)
edit_comment-IsConsistent_example =
    edit_comment-IsConsistent process 10 3 1 null commented commented-IsConsistent edit_goes_through
