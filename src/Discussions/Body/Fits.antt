-- ===== src/Discussions/Body/Fits.antt =====
-- The limits of `enforce_limits` (body/walker.py), stated of all nodes of the body at once, and that
-- the loop keeps them.
use mathlib.Core.Path.{subst}
use adus_be.Json.{Json, obj, Fields, get}
use adus_be.Prelude.{
  ℕ, ◌+◌, ◌≤◌, ◌≡◌, refl, ◌⊎◌, inl, inr, Bool, true, false, Option, List, [], ◌∷◌, String, leb, all,
  length, if◌then◌else◌, Result, ok, ◌>>=◌, >>=-eq-ok, Bool-cases, Result-cases, arith, ◌&&◌,
}
use adus_be.Discussions.Body.Limits.{
  BodyError, max_text_chars, max_nodes, max_distinct_mentions, max_list_depth, max_node_depth,
  MentionKey, add_key, Entry, Counts, no_counts, is_text, text_length, mention_key, count_mention,
  hashable_content, visit,
}
use adus_be.Discussions.Body.Visits.{nodes, run}

abbrev pub total_text : List Entry → ℕ
total_text [] = 0
total_text ((f, d, l) ∷ es) = text_length (get "text" f) + total_text es

abbrev pub is_mention : Fields → Bool
is_mention f = is_text (get "type" f) "mention"

-- the keys without duplicates, behind those that are already there
abbrev pub distinct_from : List MentionKey → List MentionKey → List MentionKey
distinct_from ids [] = ids
distinct_from ids (k ∷ ks) = distinct_from (add_key k ids) ks

abbrev pub is_shallow : Entry → Bool
is_shallow (f, d, l) = leb d max_node_depth && leb l max_list_depth

-- no child that is an object has a list or an object as its type
abbrev pub types_children : Entry → Bool
types_children (f, d, l) = hashable_content (get "content" f)

add_key-length : (k : MentionKey) (ids : List MentionKey) → length ids ≤ length (add_key k ids)
unfolding add_key
add_key-length k ids = ground arith

pub distinct_from-length : (ids ks : List MentionKey) → length ids ≤ length (distinct_from ids ks)
distinct_from-length ids [] = omega arith
distinct_from-length ids (k ∷ ks) =
    omega (arith, add_key-length k ids, distinct_from-length (add_key k ids) ks)

-- the counts so far are within the limits
pub record IsModest (c : Counts) : Type 0 where
  pub few : c.node_count ≤ max_nodes
  pub short : c.text_chars ≤ max_text_chars
  pub addressed : length c.mention_ids ≤ max_distinct_mentions

module _ (is_digits : String → Bool) (to_int : String → Option ℕ) (repr : Json → String) where
  -- the mentions' keys, one for each mention node
  abbrev pub keys : List Entry → Result BodyError (List MentionKey)
  keys [] = ok []
  keys ((f, d, l) ∷ es) =
      let rest = keys es in
      if is_mention f
      then (do k ← mention_key is_digits to_int repr f; ks ← rest; ok (k ∷ ks))
      else rest

  pub record FitsBehind (c : Counts) (es : List Entry) : Type 0 where
    pub few : c.node_count + length es ≤ max_nodes
    pub shallow : all is_shallow es ≡ true
    pub typed : all types_children es ≡ true
    pub short : c.text_chars + total_text es ≤ max_text_chars
    pub ids : List MentionKey
    pub read : keys es ≡ ok ids
    pub addressed : length (distinct_from c.mention_ids ids) ≤ max_distinct_mentions

  -- The body keeps within the limits.
  unfoldable pub IsWithinLimits : Fields → Type 0
  IsWithinLimits raw = FitsBehind no_counts (nodes (obj raw) 0 0)

  -- the mention ids after a node's turn
  Mentioned : Fields → List MentionKey → List MentionKey → Type 0
  Mentioned f ids found =
      ((is_mention f ≡ false) × (found ≡ ids))
      ⊎ ((k : MentionKey) × (is_mention f ≡ true)
          × (mention_key is_digits to_int repr f ≡ ok k)
          × (found ≡ add_key k ids))

  count_mention-Mentioned :
      (f : Fields) (ids found : List MentionKey)
      → length ids ≤ max_distinct_mentions
      → count_mention is_digits to_int repr f ids ≡ ok found
      → Mentioned f ids found × (length found ≤ max_distinct_mentions)
  unfolding count_mention Mentioned
  count_mention-Mentioned f ids found m h = elim (Bool-cases (is_mention f)) [
    | inl e ↦ elim (Result-cases (mention_key is_digits to_int repr f)) [
      | inl (k, g) ↦
          let same : found ≡ add_key k ids = ground arith in (inr (k, e, g, same), ground arith)
      | inr (x, g) ↦ ground arith
    ]
    | inr e ↦ let same : found ≡ ids = ground arith in (inl (e, same), rw same m)
  ]

  -- What a node's turn found.
  record Visited (f : Fields) (d l : ℕ) (c c' : Counts) : Type 0 where
    pub counted : c'.node_count ≡ c.node_count + 1
    pub summed : c'.text_chars ≡ c.text_chars + text_length (get "text" f)
    pub depth : is_shallow (f, d, l) ≡ true
    pub typed : types_children (f, d, l) ≡ true
    pub mentioned : count_mention is_digits to_int repr f c.mention_ids ≡ ok c'.mention_ids
    pub few : c'.node_count ≤ max_nodes
    pub short : c'.text_chars ≤ max_text_chars

  visit-Visited :
      (f : Fields) (d l : ℕ) (c c' : Counts)
      → visit is_digits to_int repr (f, d, l) c ≡ ok c'
      → Visited f d l c c'
  unfolding visit
  visit-Visited f d l c c' h =
      elim (Result-cases (count_mention is_digits to_int repr f c.mention_ids)) [
        | inl (ids, e) ↦ ground arith
        | inr (x, e) ↦ ground arith
      ]

  fits_step :
      (f : Fields) (d l : ℕ) (es : List Entry) (c after : Counts)
      → Visited f d l c after
      → FitsBehind after es
      → (ids : List MentionKey) → keys ((f, d, l) ∷ es) ≡ ok ids
      → length (distinct_from c.mention_ids ids) ≤ max_distinct_mentions
      → FitsBehind c ((f, d, l) ∷ es)
  fits_step f d l es c after v r ids read addressed = record {
    few = omega (arith, v.counted, r.few);
    shallow = ground (arith, v.depth, r.shallow);
    typed = ground (arith, v.typed, r.typed);
    short = omega (arith, v.summed, r.short);
    ids = ids;
    read = read;
    addressed = addressed;
  }

  fits_cons :
      (f : Fields) (d l : ℕ) (es : List Entry) (c after : Counts)
      → Visited f d l c after
      → Mentioned f c.mention_ids after.mention_ids
      → FitsBehind after es
      → FitsBehind c ((f, d, l) ∷ es)
  unfolding Mentioned
  fits_cons f d l es c after v (inl (e, same)) r =
      fits_step f d l es c after v r r.ids (rw e r.read)
        (subst (λ ids. length (distinct_from ids r.ids) ≤ max_distinct_mentions) same r.addressed)
  fits_cons f d l es c after v (inr (k, e, g, same)) r =
      fits_step f d l es c after v r (k ∷ r.ids) (rw e (rw g (rw r.read refl)))
        (subst (λ ids. length (distinct_from ids r.ids) ≤ max_distinct_mentions) same r.addressed)

  pub run-FitsBehind :
      (es : List Entry) (c c' : Counts)
      → IsModest c
      → run is_digits to_int repr es c ≡ ok c'
      → FitsBehind c es
  unfolding run
  run-FitsBehind [] c c' m h = record {
    few = omega (arith, m.few);
    shallow = refl;
    typed = refl;
    short = omega (arith, m.short);
    ids = [];
    read = refl;
    addressed = m.addressed;
  }
  run-FitsBehind ((f, d, l) ∷ es) c c' m h =
      let (after, e, t) =
        >>=-eq-ok (visit is_digits to_int repr (f, d, l) c) (run is_digits to_int repr es) h in
      let v = visit-Visited f d l c after e in
      let (found, few) =
        count_mention-Mentioned f c.mention_ids after.mention_ids m.addressed v.mentioned in
      let rest =
        run-FitsBehind es after c' (record { few = v.few; short = v.short; addressed = few }) t in
      fits_cons f d l es c after v found rest
