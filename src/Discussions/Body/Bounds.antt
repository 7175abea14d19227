-- ===== src/Discussions/Body/Bounds.antt =====
-- `enforce_limits` (body/walker.py) against the limits, stated of all nodes of the body at once.
use mathlib.Core.Path.{subst}
use adus_be.Json.{Json, obj, Fields, get}
use adus_be.Prelude.{
  append_nil, ℕ, suc, ◌+◌, ◌≤◌, ◌<◌, ◌≡◌, refl, sym, ap, ◌∙◌, ◌↔◌, inl, inr, Bool, true, false,
  Option, List, [], ◌∷◌, String, length, ok, ◌>>=◌, >>=-eq-ok, Bool-cases, Result-cases, arith,
}
use adus_be.Discussions.Body.Limits.{
  max_text_chars, max_nodes, max_distinct_mentions, MentionKey, add_key, Entry, Counts, no_counts,
  text_length, mention_key, count_mention, visit, enforce_limits,
}
use adus_be.Discussions.Body.Visits.{nodes, run, scan-run}
use adus_be.Discussions.Body.Fits.{
  is_mention, distinct_from, is_shallow, types_children, distinct_from-length, keys, FitsBehind,
  IsWithinLimits, IsModest, run-FitsBehind,
}

module _ (is_digits : String → Bool) (to_int : String → Option ℕ) (repr : Json → String) where
  abbrev after_node : Fields → Counts → List MentionKey → Counts
  after_node f c found = record {
    node_count = c.node_count + 1;
    text_chars = c.text_chars + text_length (get "text" f);
    mention_ids = found;
  }

  visit-goes_on :
      (f : Fields) (d l : ℕ) (c : Counts) (found : List MentionKey)
      → c.node_count < max_nodes
      → is_shallow (f, d, l) ≡ true
      → types_children (f, d, l) ≡ true
      → c.text_chars + text_length (get "text" f) ≤ max_text_chars
      → count_mention is_digits to_int repr f c.mention_ids ≡ ok found
      → visit is_digits to_int repr (f, d, l) c ≡ ok (after_node f c found)
  unfolding visit
  visit-goes_on f d l c found few shallow typed short e = ground arith

  fits_visit :
      (f : Fields) (d l : ℕ) (es : List Entry) (c : Counts) (found ids : List MentionKey)
      → FitsBehind is_digits to_int repr c ((f, d, l) ∷ es)
      → count_mention is_digits to_int repr f c.mention_ids ≡ ok found
      → keys is_digits to_int repr es ≡ ok ids
      → length (distinct_from found ids) ≤ max_distinct_mentions
      → (visit is_digits to_int repr (f, d, l) c ≡ ok (after_node f c found))
        × FitsBehind is_digits to_int repr (after_node f c found) es
        × IsModest (after_node f c found)
  fits_visit f d l es c found ids b e read addressed = (
    visit-goes_on f d l c found (omega (arith, b.few)) (ground (arith, b.shallow))
        (ground (arith, b.typed)) (omega (arith, b.short)) e,
    record {
      few = omega (arith, b.few);
      shallow = ground (arith, b.shallow);
      typed = ground (arith, b.typed);
      short = omega (arith, b.short);
      ids = ids;
      read = read;
      addressed = addressed;
    },
    record {
      few = omega (arith, b.few);
      short = omega (arith, b.short);
      addressed = omega (arith, addressed, distinct_from-length found ids);
    },
  )

  keys-mention :
      (f : Fields) (d l : ℕ) (es : List Entry) (ids : List MentionKey)
      → is_mention f ≡ true
      → keys is_digits to_int repr ((f, d, l) ∷ es) ≡ ok ids
      → (k : MentionKey) × (ks : List MentionKey) × (mention_key is_digits to_int repr f ≡ ok k)
        × (keys is_digits to_int repr es ≡ ok ks)
        × (ids ≡ k ∷ ks)
  keys-mention f d l es ids m h = elim (Result-cases (mention_key is_digits to_int repr f)) [
    | inl (k, g) ↦ elim (Result-cases (keys is_digits to_int repr es)) [
      | inl (ks, r) ↦ (k, ks, g, r, ground arith)
      | inr (x, r) ↦ ground arith
    ]
    | inr (x, g) ↦ ground arith
  ]

  count_mention-adds :
      (f : Fields) (ids : List MentionKey) (k : MentionKey)
      → is_mention f ≡ true
      → mention_key is_digits to_int repr f ≡ ok k
      → length (add_key k ids) ≤ max_distinct_mentions
      → count_mention is_digits to_int repr f ids ≡ ok (add_key k ids)
  unfolding count_mention
  count_mention-adds f ids k m g le = ground arith

  count_mention-keeps :
      (f : Fields) (ids : List MentionKey)
      → is_mention f ≡ false
      → count_mention is_digits to_int repr f ids ≡ ok ids
  unfolding count_mention
  count_mention-keeps f ids e = rw e refl

  -- the first node of a body that fits
  fits_head :
      (f : Fields) (d l : ℕ) (es : List Entry) (c : Counts)
      → FitsBehind is_digits to_int repr c ((f, d, l) ∷ es)
      → (found : List MentionKey) × (visit is_digits to_int repr (f, d, l) c
          ≡ ok (after_node f c found))
        × FitsBehind is_digits to_int repr (after_node f c found) es
        × IsModest (after_node f c found)
  fits_head f d l es c b = elim (Bool-cases (is_mention f)) [
    | inl e ↦
        let (k, ks, g, read, same) = keys-mention f d l es b.ids e b.read in
        let addressed : length (distinct_from (add_key k c.mention_ids) ks)
            ≤ max_distinct_mentions =
          subst (λ ids. length (distinct_from c.mention_ids ids) ≤ max_distinct_mentions) same
            b.addressed in
        let few = distinct_from-length (add_key k c.mention_ids) ks in
        let counted = count_mention-adds f c.mention_ids k e g (omega arith) in
        let (v, r, m) =
          fits_visit f d l es c (add_key k c.mention_ids) ks b counted read addressed in
        (add_key k c.mention_ids, v, r, m)
    | inr e ↦
        let (v, r, m) =
          fits_visit f d l es c c.mention_ids b.ids b (count_mention-keeps f c.mention_ids e)
            (ground (arith, b.read)) b.addressed in
        (c.mention_ids, v, r, m)
  ]

  fits-run :
      (es : List Entry) (c : Counts)
      → FitsBehind is_digits to_int repr c es
      → (c' : Counts) × (run is_digits to_int repr es c ≡ ok c')
  unfolding run
  fits-run [] c b = (c, refl)
  fits-run ((f, d, l) ∷ es) c b =
      let (found, v, r, m) = fits_head f d l es c b in
      let (c', e) = fits-run es (after_node f c found) r in (c', rw v e)

  nothing_yet : IsModest no_counts
  nothing_yet = record { few = omega arith; short = omega arith; addressed = omega arith }

  scanned :
      (raw : Fields)
      → enforce_limits is_digits to_int repr (obj raw)
        ≡ (run is_digits to_int repr (nodes (obj raw) 0 0) no_counts >>= λ c. ok tt)
  unfolding enforce_limits
  scanned raw =
      let e =
        scan-run is_digits to_int repr (suc max_nodes) ((raw, 0, 0) ∷ []) no_counts (omega arith)
          (omega arith)
        ∙ ap (λ ns. run is_digits to_int repr ns no_counts) (append_nil (nodes (obj raw) 0 0)) in
      rw e refl

  -- A body passes the check exactly when it is within every limit: at most 1,000 nodes, of depth at
  -- most 8, lists nested at most 3 deep, at most 10,000 characters of text, and at most 20 distinct
  -- mentions, all of whose ids can be read; and no node below it has a list or an object as its type.
  pub enforce_limits_iff :
      (raw : Fields)
      → (enforce_limits is_digits to_int repr (obj raw) ≡ ok tt)
        ↔ IsWithinLimits is_digits to_int repr raw
  unfolding IsWithinLimits
  enforce_limits_iff raw = (
    λ h.
        let (c, e, t) =
          >>=-eq-ok (run is_digits to_int repr (nodes (obj raw) 0 0) no_counts) (λ c. ok tt)
            (sym (scanned raw) ∙ h) in
        run-FitsBehind is_digits to_int repr (nodes (obj raw) 0 0) no_counts c nothing_yet e,
    λ b. let (c, e) = fits-run (nodes (obj raw) 0 0) no_counts b in scanned raw ∙ rw e refl,
  )
