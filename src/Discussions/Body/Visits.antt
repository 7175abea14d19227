-- ===== src/Discussions/Body/Visits.antt =====
-- An independent description of what `enforce_limits` (body/walker.py) reads: the nodes of the tree
-- by recursion, and the limits on them.
use adus_be.Json.{
  Json, null, bool, int, negative, float, str, arr, obj, Items, nil, cons, Fields, end, field, get,
}
use adus_be.Prelude.{
  append_assoc, append_nil, ℕ, zero, suc, ◌+◌, ◌≤◌, ◌<◌, ◌≡◌, refl, sym, ap, ◌∙◌, inl, inr, Bool,
  Option, some, List, [], ◌∷◌, ◌++◌, String, str_eq, if◌then◌else◌, Result, ok, ◌>>=◌, Bool-cases,
  Result-cases, arith,
}
use adus_be.Discussions.Body.Limits.{
  BodyError, max_nodes, Entry, Counts, is_list, push, push_content, count_mention, visit, scan,
}

mutual
  -- The node and all below it, in the order in which they are counted: later children first.
  pub nodes : Json → ℕ → ℕ → List Entry
  nodes (obj f) d l = (f, d, l) ∷ content_nodes f d l
  nodes null d l = []
  nodes (bool b) d l = []
  nodes (int n) d l = []
  nodes (negative n) d l = []
  nodes (float s) d l = []
  nodes (str s) d l = []
  nodes (arr items) d l = []

  pub content_nodes : Fields → ℕ → ℕ → List Entry
  content_nodes end d l = []
  content_nodes (field k j f) d l =
      if str_eq k "content" then children j d l else content_nodes f d l

  pub children : Json → ℕ → ℕ → List Entry
  children (arr items) d l = item_nodes items d l
  children null d l = []
  children (bool b) d l = []
  children (int n) d l = []
  children (negative n) d l = []
  children (float s) d l = []
  children (str s) d l = []
  children (obj f) d l = []

  pub item_nodes : Items → ℕ → ℕ → List Entry
  item_nodes nil d l = []
  item_nodes (cons j js) d l = item_nodes js d l ++ nodes j (d + 1) (l + is_list j)

-- what is on the stack, with all below it
abbrev pub stack_nodes : List Entry → List Entry
stack_nodes [] = []
stack_nodes ((f, d, l) ∷ stack) = nodes (obj f) d l ++ stack_nodes stack

stack_nodes-push :
    (js : Items) (d l : ℕ) (stack : List Entry)
    → stack_nodes (push js d l stack) ≡ item_nodes js d l ++ stack_nodes stack
unfolding push item_nodes nodes
stack_nodes-push nil d l stack = refl
stack_nodes-push (cons (obj f) js) d l stack =
    stack_nodes-push js d l ((f, d + 1, l + is_list (obj f)) ∷ stack)
    ∙ sym (
        append_assoc (item_nodes js d l) (nodes (obj f) (d + 1) (l + is_list (obj f)))
          (stack_nodes stack))
stack_nodes-push (cons _ js) d l stack = simp (append_nil, stack_nodes-push js d l stack)

children-push :
    (j : Json) (d l : ℕ) (stack : List Entry)
    → stack_nodes (push_content (some j) d l stack) ≡ children j d l ++ stack_nodes stack
unfolding children
children-push (arr items) d l stack = stack_nodes-push items d l stack
children-push _ d l stack = refl

content_nodes-get :
    (f : Fields) (d l : ℕ) (stack : List Entry)
    → stack_nodes (push_content (get "content" f) d l stack)
      ≡ content_nodes f d l ++ stack_nodes stack
unfolding get content_nodes
content_nodes-get end d l stack = refl
content_nodes-get (field k j f) d l stack = elim (Bool-cases (str_eq k "content")) [
  | inl e ↦ rw e (children-push j d l stack)
  | inr e ↦ rw e (content_nodes-get f d l stack)
]

module _ (is_digits : String → Bool) (to_int : String → Option ℕ) (repr : Json → String) where
  -- The nodes one after the other, without a stack.
  unfoldable pub run : List Entry → Counts → Result BodyError Counts
  run [] c = ok c
  run (e ∷ es) c = visit is_digits to_int repr e c >>= run es

  visit-node_count :
      (e : Entry) (c c' : Counts)
      → visit is_digits to_int repr e c ≡ ok c'
      → (c'.node_count ≡ c.node_count + 1) × (c.node_count < max_nodes)
  unfolding visit
  visit-node_count (node, d, l) c c' h =
      elim (Result-cases (count_mention is_digits to_int repr node c.mention_ids)) [
        | inl (ids, e) ↦ ground arith
        | inr (x, e) ↦ ground arith
      ]

  -- With a turn for each node that is still allowed, and one more, the loop is never cut short.
  pub scan-run :
      (n : ℕ) (stack : List Entry) (c : Counts)
      → c.node_count ≤ max_nodes
      → max_nodes < c.node_count + n
      → scan is_digits to_int repr n stack c ≡ run (stack_nodes stack) c
  unfolding scan run nodes
  scan-run zero stack c le lt = ground arith
  scan-run (suc n) [] c le lt = refl
  scan-run (suc n) ((f, d, l) ∷ stack) c le lt =
      elim (Result-cases (visit is_digits to_int repr (f, d, l) c)) [
        | inl (c', e) ↦
            let (one, room) = visit-node_count (f, d, l) c c' e in
            rw e (
              scan-run n (push_content (get "content" f) d l stack) c' (omega arith) (omega arith)
              ∙ ap (λ ns. run ns c') (content_nodes-get f d l stack))
        | inr (x, e) ↦ rw e refl
      ]
