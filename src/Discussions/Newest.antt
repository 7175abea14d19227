-- ===== src/Discussions/Newest.antt =====
-- The newest comment of a list, and what taking one comment out does to it.
use adus_be.Prelude.{
  ℕ, ◌+◌, ◌≤◌, ◌<◌, ◌≡◌, refl, ap, inl, inr, Bool, true, false, not, ◌&&◌, none, some, is_none,
  List, [], ◌∷◌, ◌==◌, length, filter, find, if◌then◌else◌, arith, Bool-cases, Option-cases,
}
use adus_be.Discussions.{Comment, is_later, newest, live, as_deleted, update_comment}

later : Comment → Comment → Bool
later c d = is_later c.created_at c.id d.created_at d.id

-- Ids fall, from below `next`.
abbrev pub Descending : ℕ → List Comment → Type 0
Descending next [] = Unit {0}
Descending next (c ∷ l) = (c.id < next) × Descending c.id l

pub newest_of_none : (l : List Comment) → newest l ≡ none → l ≡ []
unfolding newest
newest_of_none [] h = refl
newest_of_none (c ∷ l) h = absurd (ground arith)

-- what is left is not later than the newest of all
newest-filter_le :
    (p : Comment → Bool) (l : List Comment) (d e : Comment)
    → newest l ≡ some d
    → newest (filter p l) ≡ some e
    → later e d ≡ false
unfolding newest later
newest-filter_le p [] d e h k = cc
newest-filter_le p (c ∷ l) d e h k = elim (Option-cases (newest l)) [
  | inl n ↦ ground (arith, ap (λ z. newest (filter p z)) (newest_of_none l n))
  | inr (x, n) ↦ elim (Option-cases (newest (filter p l))) [
    | inl m ↦ ground arith
    | inr (f, m) ↦ ground (arith, newest-filter_le p l x f n m)
  ]
]

-- Taking out a comment that is not the newest leaves the newest one.
pub newest-filter :
    (p : Comment → Bool) (l : List Comment) (d : Comment)
    → newest l ≡ some d
    → p d ≡ true
    → newest (filter p l) ≡ some d
unfolding newest later
newest-filter p [] d h k = cc
newest-filter p (c ∷ l) d h k = elim (Option-cases (newest l)) [
  | inl n ↦ ground (arith, ap (λ z. newest (filter p z)) (newest_of_none l n))
  | inr (x, n) ↦ elim (Bool-cases (later c x)) [
    | inl y ↦ elim (Option-cases (newest (filter p l))) [
      | inl m ↦ ground arith
      | inr (f, m) ↦ ground (arith, newest-filter_le p l x f n m)
    ]
    | inr z ↦ ground (arith, newest-filter p l x n (ground arith))
  ]
]

abbrev pub other_than : ℕ → Comment → Bool
other_than i c = not (c.id == i)

-- no comment below has this id
filter_below :
    (next i : ℕ) (l : List Comment) → Descending next l → next ≤ i → filter (other_than i) l ≡ l
filter_below next i [] g h = refl
filter_below next i (c ∷ l) g h = ground (arith, filter_below c.id i l g.1 (omega (arith, g.0)))

Descending-live : (next t : ℕ) (l : List Comment) → Descending next l → Descending next (live t l)
unfolding live
Descending-live next t [] g = tt
Descending-live next t (c ∷ l) g = elim (Bool-cases ((c.thread_id == t) && is_none c.deleted_at)) [
  | inl y ↦ rw y (g.0, Descending-live c.id t l g.1)
  | inr n ↦
      rw n (Descending-le c.id next (live t l) (omega (arith, g.0)) (Descending-live c.id t l g.1))
]
  where
    Descending-le : (a b : ℕ) (l : List Comment) → a ≤ b → Descending a l → Descending b l
    Descending-le a b [] h d = tt
    Descending-le a b (c ∷ l) h d = (omega (arith, d.0), d.1)

-- A soft delete takes the comment out of the live ones of its thread, and of no other.
pub live-delete :
    (t i now : ℕ) (l : List Comment)
    → live t (update_comment i (as_deleted now) l) ≡ filter (other_than i) (live t l)
unfolding live
live-delete t i now [] = refl
live-delete t i now (c ∷ l) = ground (arith, live-delete t i now l)

find_below :
    (next i : ℕ) (l : List Comment) (c : Comment)
    → Descending next l
    → find (λ (x : Comment). x.id == i) l ≡ some c
    → i < next
find_below next i [] c g h = cc
find_below next i (x ∷ l) c g h = elim (Bool-cases (x.id == i)) [
  | inl y ↦ ground (arith, g.0)
  | inr n ↦ omega (arith, find_below x.id i l c g.1 (ground arith), g.0)
]

-- The live comment that a look-up by id finds is counted once, in its own thread alone.
pub live-found :
    (next i t : ℕ) (l : List Comment) (c : Comment)
    → Descending next l
    → find (λ (x : Comment). x.id == i) l ≡ some c
    → is_none c.deleted_at ≡ true
    → length (live t l)
      ≡ (if c.thread_id == t then 1 else 0) + length (filter (other_than i) (live t l))
unfolding live
live-found next i t [] c g h a = cc
live-found next i t (x ∷ l) c g h a = elim (Bool-cases (x.id == i)) [
  | inl y ↦
      let rest : filter (other_than i) (live t l) ≡ live t l =
        filter_below x.id i (live t l) (Descending-live x.id t l g.1) (ground arith) in
      ground (arith, rest)
  | inr n ↦ ground (arith, live-found x.id i t l c g.1 (ground arith) a)
]

pub live_elsewhere :
    (next i t : ℕ) (l : List Comment) (c : Comment)
    → Descending next l
    → find (λ (x : Comment). x.id == i) l ≡ some c
    → (c.thread_id == t) ≡ false
    → filter (other_than i) (live t l) ≡ live t l
unfolding live
live_elsewhere next i t [] c g h a = cc
live_elsewhere next i t (x ∷ l) c g h a = elim (Bool-cases (x.id == i)) [
  | inl y ↦
      let rest : filter (other_than i) (live t l) ≡ live t l =
        filter_below x.id i (live t l) (Descending-live x.id t l g.1) (ground arith) in
      ground (arith, rest)
  | inr n ↦ ground (arith, live_elsewhere x.id i t l c g.1 (ground arith) a)
]
