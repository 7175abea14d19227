-- ===== src/Discussions/Body/Facts.antt =====
-- The traversals of a document (body/walker.py) against recursion on the document.
use mathlib.Core.Path.{subst}
use adus_be.Prelude.{
  append_assoc, append_nil, ℕ, zero, suc, ◌<◌, ◌≡◌, refl, sym, ap, ◌∙◌, inl, inr, Bool, true, false,
  ◌||◌, ◌&&◌, not, none, some, List, [], ◌∷◌, ◌++◌, map, ◌==◌, ==_iff, any, filter, length,
  length-append, ok, Bool-cases, arith,
}
use adus_be.Discussions.Body.Nodes.{
  Inline, text_node, mention_node, Block, paragraph, bullet_list, ordered_list, ListItems, no_items,
  item, Blocks, no_blocks, block, DocV1, Node, doc_node, item_node, block_node, inline_node,
  block_nodes, item_nodes, content_of, block_size, items_size, blocks_size, walk_on, walk, isspace,
  BodyFacts, set_default, look_at, look_at_all, analyze,
}

unfoldable mutual
  -- every node in document order, each before its content
  pub block_order : Block → List Node
  block_order (paragraph none) = block_node (paragraph none) ∷ []
  block_order (paragraph (some inlines)) =
      block_node (paragraph (some inlines)) ∷ map inline_node inlines
  block_order (bullet_list items) = block_node (bullet_list items) ∷ items_order items
  block_order (ordered_list start items) = block_node (ordered_list start items) ∷ items_order items

  pub items_order : ListItems → List Node
  items_order no_items = []
  items_order (item bs rest) = item_node bs ∷ (blocks_order bs ++ items_order rest)

  pub blocks_order : Blocks → List Node
  blocks_order no_blocks = []
  blocks_order (block b bs) = block_order b ++ blocks_order bs

-- a node and all below it
abbrev order : Node → List Node
order (doc_node bs) = doc_node bs ∷ blocks_order bs
order (item_node bs) = item_node bs ∷ blocks_order bs
order (block_node b) = block_order b
order (inline_node i) = inline_node i ∷ []

abbrev all_order : List Node → List Node
all_order [] = []
all_order (n ∷ ns) = order n ++ all_order ns

all_order-blocks :
    (bs : Blocks) (ns : List Node)
    → all_order (block_nodes bs ++ ns) ≡ blocks_order bs ++ all_order ns
unfolding blocks_order
all_order-blocks no_blocks ns = refl
all_order-blocks (block b bs) ns = simp (append_assoc, all_order-blocks bs ns)

all_order-items :
    (items : ListItems) (ns : List Node)
    → all_order (item_nodes items ++ ns) ≡ items_order items ++ all_order ns
unfolding items_order
all_order-items no_items ns = refl
all_order-items (item bs rest) ns = simp (append_assoc, all_order-items rest ns)

all_order-inlines :
    (inlines : List Inline) (ns : List Node)
    → all_order (map inline_node inlines ++ ns) ≡ map inline_node inlines ++ all_order ns
all_order-inlines [] ns = refl
all_order-inlines (i ∷ inlines) ns = ap (λ r. inline_node i ∷ r) (all_order-inlines inlines ns)

-- A node comes before its content, and that before what is below it on the stack.
all_order-content_of :
    (n : Node) (ns : List Node) → all_order (n ∷ ns) ≡ n ∷ all_order (content_of n ++ ns)
unfolding content_of block_order
all_order-content_of (doc_node bs) ns = ap (λ r. doc_node bs ∷ r) (sym (all_order-blocks bs ns))
all_order-content_of (item_node bs) ns = ap (λ r. item_node bs ∷ r) (sym (all_order-blocks bs ns))
all_order-content_of (block_node (paragraph none)) ns = refl
all_order-content_of (block_node (paragraph (some inlines))) ns =
    ap (λ r. block_node (paragraph (some inlines)) ∷ r) (sym (all_order-inlines inlines ns))
all_order-content_of (block_node (bullet_list items)) ns =
    ap (λ r. block_node (bullet_list items) ∷ r) (sym (all_order-items items ns))
all_order-content_of (block_node (ordered_list start items)) ns =
    ap (λ r. block_node (ordered_list start items) ∷ r) (sym (all_order-items items ns))
all_order-content_of (inline_node i) ns = refl

walk_on-order :
    (n : ℕ) (ns : List Node) → length (all_order ns) < n → walk_on n ns ≡ ok (all_order ns)
unfolding walk_on
walk_on-order zero ns lt = ground arith
walk_on-order (suc n) [] lt = refl
walk_on-order (suc n) (m ∷ ns) lt =
    let e = all_order-content_of m ns in
    rw (walk_on-order n (content_of m ++ ns) (omega (arith, ap length e, lt))) (ap ok (sym e))

length-map {ℓ κ} : {A : Type ℓ} {B : Type κ} (f : A → B) (l : List A) → length (map f l) ≡ length l
length-map f [] = refl
length-map f (x ∷ l) = ap suc (length-map f l)

mutual
  unfolding block_order block_size

  block_order-length : (b : Block) → length (block_order b) ≡ block_size b
  block_order-length (paragraph none) = refl
  block_order-length (paragraph (some inlines)) = ap suc (length-map inline_node inlines)
  block_order-length (bullet_list items) = ap suc (items_order-length items)
  block_order-length (ordered_list start items) = ap suc (items_order-length items)

  items_order-length : (items : ListItems) → length (items_order items) ≡ items_size items
  items_order-length no_items = refl
  items_order-length (item bs rest) = omega (
    arith,
    length-append (blocks_order bs) (items_order rest),
    blocks_order-length bs,
    items_order-length rest,
  )

  blocks_order-length : (bs : Blocks) → length (blocks_order bs) ≡ blocks_size bs
  blocks_order-length no_blocks = refl
  blocks_order-length (block b bs) = omega (
    arith,
    length-append (block_order b) (blocks_order bs),
    block_order-length b,
    blocks_order-length bs,
  )

-- the nodes of a document in document order
unfoldable pub doc_order : DocV1 → List Node
doc_order doc = doc_node doc.content ∷ blocks_order doc.content

-- The traversal visits every node of the document once, each before its content, in document order.
pub walk-doc_order : (doc : DocV1) → walk doc ≡ ok (doc_order doc)
unfolding walk doc_order
walk-doc_order doc =
    let e = append_nil (doc_node doc.content ∷ blocks_order doc.content) in
    let l = blocks_order-length doc.content in
    walk_on-order (suc (suc (blocks_size doc.content))) (doc_node doc.content ∷ [])
      (omega (arith, ap length e, l))
    ∙ ap ok e

abbrev pub mentions : List Node → List ℕ
mentions [] = []
mentions (inline_node (mention_node u) ∷ ns) = u ∷ mentions ns
mentions (n ∷ ns) = mentions ns

-- text that is not only white space, or a mention
abbrev pub says_something : Node → Bool
says_something (inline_node (text_node text marks)) = not (isspace text)
says_something (inline_node (mention_node u)) = true
says_something n = false

-- the first occurrence of each
abbrev pub first_seen : List ℕ → List ℕ
first_seen [] = []
first_seen (u ∷ us) = u ∷ filter (λ v. not (v == u)) (first_seen us)

look_at-has_content :
    (n : Node) (facts : BodyFacts)
    → (look_at n facts).has_content ≡ facts.has_content || says_something n
unfolding look_at
look_at-has_content (inline_node (text_node text marks)) facts = refl
look_at-has_content (inline_node (mention_node u)) facts = ground arith
look_at-has_content _ facts = ground arith

look_at_all-has_content :
    (ns : List Node) (facts : BodyFacts)
    → (look_at_all ns facts).has_content ≡ facts.has_content || any says_something ns
unfolding look_at_all look_at
look_at_all-has_content [] facts = ground arith
look_at_all-has_content (n ∷ ns) facts =
    ground (arith, look_at_all-has_content ns (look_at n facts), look_at-has_content n facts)

abbrev set_all : List ℕ → List ℕ → List ℕ
set_all [] ids = ids
set_all (u ∷ us) ids = set_all us (set_default u ids)

look_at_all-mention_ids :
    (ns : List Node) (facts : BodyFacts)
    → (look_at_all ns facts).mention_ids ≡ set_all (mentions ns) facts.mention_ids
unfolding look_at_all look_at
look_at_all-mention_ids [] facts = refl
look_at_all-mention_ids (inline_node (mention_node u) ∷ ns) facts =
    look_at_all-mention_ids ns (look_at (inline_node (mention_node u)) facts)
look_at_all-mention_ids (n ∷ ns) facts = look_at_all-mention_ids ns (look_at n facts)

module _ {ℓ} {A : Type ℓ} where
  filter_twice : (p q : A → Bool) (l : List A) → filter p (filter q l) ≡ filter (λ x. q x && p x) l
  filter_twice p q [] = refl
  filter_twice p q (x ∷ l) = ground (arith, filter_twice p q l)

  filter_ext : (p q : A → Bool) → ((x : A) → p x ≡ q x) → (l : List A) → filter p l ≡ filter q l
  filter_ext p q e [] = refl
  filter_ext p q e (x ∷ l) = ground (arith, filter_ext p q e l, e x)

  any-append : (p : A → Bool) (k l : List A) → any p (k ++ l) ≡ any p k || any p l
  any-append p [] l = refl
  any-append p (x ∷ k) l = ground (arith, any-append p k l)

abbrev is_new : List ℕ → ℕ → Bool
is_new ids v = not (any (λ w. w == v) ids)

known_is_not_new :
    (ids : List ℕ) (u v : ℕ)
    → any (λ w. w == u) ids ≡ true
    → not (v == u) && is_new ids v ≡ is_new ids v
known_is_not_new ids u v h = elim (Bool-cases (v == u)) [
  | inl e ↦
      let old : any (λ w. w == v) ids ≡ true =
        subst (λ x. any (λ w. w == x) ids ≡ true) (sym ((==_iff v u).0 e)) h in
      ground arith
  | inr e ↦ ground arith
]

new_beside : (ids : List ℕ) (u v : ℕ) → not (v == u) && is_new ids v ≡ is_new (ids ++ (u ∷ [])) v
new_beside ids u v = ground (arith, any-append (λ w. w == v) ids (u ∷ []))

set_all-first_seen : (us ids : List ℕ) → set_all us ids ≡ ids ++ filter (is_new ids) (first_seen us)
unfolding set_default
set_all-first_seen [] ids = sym (append_nil ids)
set_all-first_seen (u ∷ us) ids = elim (Bool-cases (any (λ v. v == u) ids)) [
  | inl e ↦
      let same =
        filter_twice (is_new ids) (λ v. not (v == u)) (first_seen us)
        ∙ filter_ext (λ v. not (v == u) && is_new ids v) (is_new ids)
            (λ v. known_is_not_new ids u v e) (first_seen us) in
      rw e (set_all-first_seen us ids ∙ ap (λ l. ids ++ l) (sym same))
  | inr e ↦
      let same =
        filter_twice (is_new ids) (λ v. not (v == u)) (first_seen us)
        ∙ filter_ext (λ v. not (v == u) && is_new ids v) (is_new (ids ++ (u ∷ [])))
            (λ v. new_beside ids u v) (first_seen us) in
      rw e (
        set_all-first_seen us (ids ++ (u ∷ []))
        ∙ append_assoc ids (u ∷ []) (filter (is_new (ids ++ (u ∷ []))) (first_seen us))
        ∙ ap (λ l. ids ++ (u ∷ l)) (sym same))
]

filter-all {ℓ} : {A : Type ℓ} (l : List A) → filter (λ x. true) l ≡ l
filter-all [] = refl
filter-all (x ∷ l) = ap (λ r. x ∷ r) (filter-all l)

-- The facts of a document always come back: the mention ids are those of its mention nodes in
-- document order, each at its first occurrence only, and it has content when some node is a mention
-- or text that is not only white space.
pub analyze_lem :
    (doc : DocV1)
    → analyze doc
      ≡ ok (record {
        mention_ids = first_seen (mentions (doc_order doc));
        has_content = any says_something (doc_order doc);
      })
unfolding analyze
analyze_lem doc =
    let none_yet : BodyFacts = record { mention_ids = []; has_content = false } in
    let ids =
      look_at_all-mention_ids (doc_order doc) none_yet
      ∙ set_all-first_seen (mentions (doc_order doc)) []
      ∙ filter-all (first_seen (mentions (doc_order doc))) in
    let content = look_at_all-has_content (doc_order doc) none_yet in
    rw (walk-doc_order doc) (cc (ids, content))
