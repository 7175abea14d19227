-- ===== src/Examples/Links.antt =====
-- Two first comments on one underwriting at once.
use mathlib.Core.Path.{subst}
use adus_be.Prelude.{Option, sym, ℕ, ◌≡◌, refl, some, [], ◌∷◌, ok, any, Bool-cases, inl, inr}
use adus_be.Discussions.{create_thread}
use adus_be.UnderwritingThreads.{
  Db, IsLinkedOnce, is_place, get_thread_id, insert_link, insert_link-taken, insert_link-free,
  discard_thread, get_or_create_thread, get_or_create_thread_lem,
}

abbrev start : Db
start = record {
  links = [];
  discussions = record {
    threads = [];
    comments = [];
    mentions = [];
    next_thread_id = 8;
    next_comment_id = 1;
    now = 100;
  };
}

-- the other request links thread 7 first
abbrev other_request : Db → Db
other_request db = (insert_link 5 "general" 7 db).1

abbrev nothing : Db → Db
nothing db = db

other_request-IsLinkedOnce : (d : Db) → IsLinkedOnce d.links → IsLinkedOnce (other_request d).links
other_request-IsLinkedOnce d once = elim (Bool-cases (any (is_place 5 "general") d.links)) [
  | inl e ↦
      subst (λ (r : Option ℕ × Db). IsLinkedOnce r.1.links)
        (sym (insert_link-taken 5 "general" 7 d e)) once
  | inr e ↦
      subst (λ (r : Option ℕ × Db). IsLinkedOnce r.1.links)
        (sym (insert_link-free 5 "general" 7 d e)) (e, once)
]

abbrev lost : Db
lost = record {
  links = record { underwriting_id = 5; kind = "general"; thread_id = 7 } ∷ [];
  discussions = record start.discussions { next_thread_id = 9 };
}

lost_run : get_or_create_thread other_request nothing 5 3 start ≡ ok (7, lost)
unfolding get_or_create_thread get_thread_id insert_link discard_thread create_thread
lost_run = refl

get_or_create_thread_lem_example :
    (get_thread_id 5 "general" lost ≡ some 7) × IsLinkedOnce lost.links
get_or_create_thread_lem_example =
    get_or_create_thread_lem other_request nothing 5 3 start lost 7 other_request-IsLinkedOnce
      (λ d once. once) tt lost_run
