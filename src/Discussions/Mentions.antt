-- ===== src/Discussions/Mentions.antt =====
-- The index of mentions: one comment's rows are replaced, and no other's touched.
use adus_be.Prelude.{ℕ, ◌≡◌, ◌≢◌, refl, ap, ◌∙◌, not, List, [], ◌∷◌, ◌++◌, map, ◌==◌, filter, arith}
use adus_be.Discussions.{CommentMention, Db, mention_rows, add_mentions, replace_mentions}

-- the users that the index holds for a comment
unfoldable pub mentioned_in : ℕ → Db → List ℕ
mentioned_in i db =
    map (λ (m : CommentMention). m.user_id)
      (filter (λ (m : CommentMention). m.comment_id == i) db.mentions)

abbrev users_of : ℕ → List CommentMention → List ℕ
users_of i l =
    map (λ (m : CommentMention). m.user_id) (filter (λ (m : CommentMention). m.comment_id == i) l)

abbrev others : ℕ → List CommentMention → List CommentMention
others i = filter (λ (m : CommentMention). not (m.comment_id == i))

users_of-rows :
    (i : ℕ) (us : List ℕ) (l : List CommentMention)
    → users_of i (mention_rows i us ++ l) ≡ us ++ users_of i l
users_of-rows i [] l = refl
users_of-rows i (u ∷ us) l = ground (arith, users_of-rows i us l)

users_of-rows_ne :
    (i j : ℕ) (us : List ℕ) (l : List CommentMention)
    → i ≢ j
    → users_of j (mention_rows i us ++ l) ≡ users_of j l
users_of-rows_ne i j [] l n = refl
users_of-rows_ne i j (u ∷ us) l n = ground (arith, users_of-rows_ne i j us l n)

users_of-others : (i : ℕ) (l : List CommentMention) → users_of i (others i l) ≡ []
users_of-others i [] = refl
users_of-others i (m ∷ l) = ground (arith, users_of-others i l)

users_of-others_ne :
    (i j : ℕ) (l : List CommentMention) → i ≢ j → users_of j (others i l) ≡ users_of j l
users_of-others_ne i j [] n = refl
users_of-others_ne i j (m ∷ l) n = ground (arith, users_of-others_ne i j l n)

append_nil : (us : List ℕ) → us ++ [] ≡ us
append_nil [] = refl
append_nil (u ∷ us) = ap (λ l. u ∷ l) (append_nil us)

-- After the mentions of a comment are replaced, the index holds exactly the given users for it, in
-- that order, and what it held before for every other comment.
pub replace_mentions_lem :
    (comment_id : ℕ) (user_ids : List ℕ) (db : Db)
    → (mentioned_in comment_id (replace_mentions comment_id user_ids db) ≡ user_ids)
      × ((j : ℕ)
          → comment_id ≢ j
          → mentioned_in j (replace_mentions comment_id user_ids db) ≡ mentioned_in j db)
unfolding mentioned_in replace_mentions add_mentions
replace_mentions_lem i us db = (
  users_of-rows i us (others i db.mentions)
      ∙ ap (λ l. us ++ l) (users_of-others i db.mentions)
      ∙ append_nil us,
  λ j n. users_of-rows_ne i j us (others i db.mentions) n ∙ users_of-others_ne i j db.mentions n,
)
