-- ===== src/ProcessLog/Chain.antt =====
-- What the constraints of the `transitions` table keep: each chain is one list, newest row first,
-- in which every row follows the one below it.
use mathlib.Core.Path.{subst}
use adus_be.Prelude.{
  ℕ, ◌≤◌, ◌<◌, ◌≡◌, inl, inr, refl, sym, ap, ◌∙◌, Bool, true, false, ◌&&◌, not, Option, none, some,
  List, [], ◌∷◌, String, str_eq, ◌==◌, find, filter, head?, arith, Bool-cases, Option-cases, eq_iff,
}
use adus_be.ProcessLog.{Key, key_eq, key_eq_iff, TransitionRow, Transition, Db}
use adus_be.ProcessLog.Repository.{
  refers, has_successor, chain, get_tail, has_head, has_link_target,
}

-- `r` follows the row `below`, or starts a chain where there is none.
abbrev pub Follows : TransitionRow → Option Transition → Type 0
Follows r none = (r.previous_transition_id ≡ none) × (r.from_status ≡ none)
Follows r (some s) = (r.previous_transition_id ≡ some s.id) × (r.from_status ≡ some s.to_status)

-- Rows were appended one by one, with growing ids below `next`, each to the newest of its chain.
abbrev pub Grown : ℕ → List Transition → Type 0
Grown next [] = Unit {0}
Grown next (r ∷ l) = (r.id < next) × Follows r.row (head? (chain r.key l)) × Grown r.id l

newest-id_lt :
    (next : ℕ) (rows : List Transition) (k : Key) (t : Transition)
    → Grown next rows
    → head? (chain k rows) ≡ some t
    → t.id < next
unfolding chain
newest-id_lt next [] k t g e = cc
newest-id_lt next (r ∷ l) k t g e = elim (Bool-cases (key_eq r.key k)) [
  | inl y ↦ ground (arith, g.0)
  | inr n ↦ omega (arith, newest-id_lt r.id l k t g.2 (ground arith), g.0)
]

-- a row of the chain points below itself
Follows-lt :
    (r : Transition) (l : List Transition) (q : ℕ)
    → Follows r.row (head? (chain r.key l))
    → Grown r.id l
    → refers r.previous_transition_id q ≡ true
    → q < r.id
Follows-lt r l q f g h = elim (Option-cases (head? (chain r.key l))) [
  | inl none_below ↦ ground (arith, subst (Follows r.row) none_below f)
  | inr (s, below) ↦
      let points = subst (Follows r.row) below f in
      let lower = newest-id_lt r.id l r.key s g below in ground (arith, points.0)
]

-- nothing follows an id that is not in the table
no_successor_above :
    (next q : ℕ) (rows : List Transition)
    → Grown next rows
    → next ≤ q
    → has_successor rows q ≡ false
unfolding has_successor
no_successor_above next q [] g h = refl
no_successor_above next q (r ∷ l) g h = elim (Bool-cases (refers r.previous_transition_id q)) [
  | inl y ↦ absurd (omega (arith, Follows-lt r l q g.1 g.2 y, g.0))
  | inr n ↦ rw n (no_successor_above r.id q l g.2 (omega (arith, g.0)))
]

-- two newest rows with one id are of one chain
newest_of_one_chain :
    (next : ℕ) (rows : List Transition) (a b : Key) (s t : Transition)
    → Grown next rows
    → head? (chain a rows) ≡ some s
    → head? (chain b rows) ≡ some t
    → s.id ≡ t.id
    → a ≡ b
unfolding chain
newest_of_one_chain next [] a b s t g ea eb e = cc
newest_of_one_chain next (r ∷ l) a b s t g ea eb e = elim (Bool-cases (key_eq r.key a)) [
  | inl ya ↦ elim (Bool-cases (key_eq r.key b)) [
    | inl yb ↦ sym ((key_eq_iff r.key a).0 ya) ∙ (key_eq_iff r.key b).0 yb
    | inr nb ↦ let lower = newest-id_lt r.id l b t g.2 (ground arith) in absurd (ground arith)
  ]
  | inr na ↦ elim (Bool-cases (key_eq r.key b)) [
    | inl yb ↦ let lower = newest-id_lt r.id l a s g.2 (ground arith) in absurd (ground arith)
    | inr nb ↦ newest_of_one_chain r.id l a b s t g.2 (ground arith) (ground arith) e
  ]
]

-- a row below which the newest of another chain stands does not follow that one
Follows-own_chain :
    (r : Transition) (l : List Transition) (k : Key) (t : Transition)
    → Follows r.row (head? (chain r.key l))
    → Grown r.id l
    → head? (chain k l) ≡ some t
    → refers r.previous_transition_id t.id ≡ true
    → r.key ≡ k
Follows-own_chain r l k t f g e h = elim (Option-cases (head? (chain r.key l))) [
  | inl none_below ↦ absurd (ground (arith, subst (Follows r.row) none_below f))
  | inr (s, below) ↦
      let points = subst (Follows r.row) below f in
      newest_of_one_chain r.id l r.key k s t g below e (ground (arith, points.0))
]

-- the newest row of a chain has no successor
pub newest_has_no_successor :
    (next : ℕ) (rows : List Transition) (k : Key) (t : Transition)
    → Grown next rows
    → head? (chain k rows) ≡ some t
    → has_successor rows t.id ≡ false
unfolding has_successor chain
newest_has_no_successor next [] k t g e = refl
newest_has_no_successor next (r ∷ l) k t g e = elim (Bool-cases (key_eq r.key k)) [
  | inl y ↦
      let above = no_successor_above r.id r.id l g.2 (omega arith) in
      elim (Bool-cases (refers r.previous_transition_id r.id)) [
        | inl loop ↦ absurd (omega (arith, Follows-lt r l r.id g.1 g.2 loop))
        | inr straight ↦ ground (arith, above, straight)
      ]
  | inr n ↦
      let e' : head? (chain k l) ≡ some t = ground arith in
      elim (Bool-cases (refers r.previous_transition_id t.id)) [
        | inl h ↦ cc (n, (key_eq_iff r.key k).1 (Follows-own_chain r l k t g.1 g.2 e' h))
        | inr h ↦ rw h (newest_has_no_successor r.id l k t g.2 e')
      ]
]

find-head_filter {ℓ} :
    {A : Type ℓ} (p q : A → Bool) (l : List A)
    → ((t : A) → head? (filter p l) ≡ some t → q t ≡ true)
    → find (λ x. p x && q x) l ≡ head? (filter p l)
find-head_filter p q [] h = refl
find-head_filter p q (x ∷ l) h = elim (Bool-cases (p x)) [
  | inl y ↦ rw y (rw (h x (rw y)))
  | inr n ↦ rw n (find-head_filter p q l (λ t e. h t (rw n e)))
]

-- The statement that looks for the row with no successor returns the newest row of the chain.
pub get_tail-newest :
    (k : Key) (db : Db)
    → Grown db.next_transition_id db.transitions
    → get_tail k db ≡ head? (chain k db.transitions)
unfolding get_tail chain
get_tail-newest k db g =
    find-head_filter (λ (r : Transition). key_eq r.key k)
      (λ (r : Transition). not (has_successor db.transitions r.id)) db.transitions
      (λ t e. rw (newest_has_no_successor db.next_transition_id db.transitions k t g e))

-- a chain that is not empty has a head
pub head_of_chain :
    (next : ℕ) (rows : List Transition) (k : Key)
    → Grown next rows
    → has_head k rows ≡ false
    → head? (chain k rows) ≡ none
unfolding has_head chain
head_of_chain next [] k g h = refl
head_of_chain next (r ∷ l) k g h = elim (Bool-cases (key_eq r.key k)) [
  | inl y ↦
      let own : r.key ≡ k = (key_eq_iff r.key k).0 y in
      let below = head_of_chain r.id l k g.2 (ground arith) in
      let f = subst (Follows r.row) {y = none} (ap (λ j. head? (chain j l)) own ∙ below) g.1 in
      absurd (ground (arith, f.0))
  | inr n ↦ rw n (head_of_chain r.id l k g.2 (ground arith))
]

-- the row that a foreign key finds, and that nothing follows yet, is the newest of its chain
pub target_is_newest :
    (next : ℕ) (rows : List Transition) (k : Key) (p : ℕ) (f : String)
    → Grown next rows
    → has_link_target k p f rows ≡ true
    → has_successor rows p ≡ false
    → (t : Transition) × (head? (chain k rows) ≡ some t) × (t.id ≡ p) × (t.to_status ≡ f)
unfolding has_link_target has_successor chain
target_is_newest next [] k p f g h n = cc
target_is_newest next (r ∷ l) k p f g h n = elim (Bool-cases (key_eq r.key k)) [
  | inl y ↦ elim (Bool-cases ((r.id == p) && str_eq r.to_status f)) [
    | inl here ↦ (r, rw y, ground arith, (eq_iff r.to_status f).0 (ground arith))
    | inr above ↦
        let (t, e, i, s) = target_is_newest r.id l k p f g.2 (ground arith) (ground arith) in
        let own : r.key ≡ k = (key_eq_iff r.key k).0 y in
        let links = subst (Follows r.row) {y = some t} (ap (λ j. head? (chain j l)) own ∙ e) g.1 in
        absurd (ground (arith, links.0))
  ]
  | inr z ↦
      let (t, e, i, s) = target_is_newest r.id l k p f g.2 (ground arith) (ground arith) in
      (t, rw z e, i, s)
]
