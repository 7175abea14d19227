-- ===== src/Discussions/Body/Nodes.antt =====
-- The parsed document of app/core/discussions/body/nodes.py, and the traversals of it in
-- body/walker.py. Pydantic's validation of the raw JSON is a parameter.
use Prim.Native.Char.{code}
use Prim.Native.String.{String}
use adus_be.Json.{Json}
use adus_be.Prelude.{
  ℕ, zero, suc, ◌+◌, Bool, true, false, ◌||◌, ◌&&◌, not, Option, none, some, List, [], ◌∷◌, ◌++◌,
  map, leb, ◌==◌, any, length, if◌then◌else◌, Result, ok, err, ◌>>=◌, ℤ,
}
use adus_be.Discussions.Body.Limits.{
  BodyError, unsupported_version, invalid_document, empty_comment, out_of_fuel,
}

pub data Mark : Type 0 where
  bold_mark italic_mark strike_mark underline_mark code_mark : Mark
  link_mark : String → Mark

pub data Inline : Type 0 where
  text_node : String → Option (List Mark) → Inline
  hard_break : Inline
  mention_node : ℕ → Inline

-- A list item holds its content.
mutual
  pub data Block : Type 0 where
    paragraph : Option (List Inline) → Block
    bullet_list : ListItems → Block
    ordered_list : ℤ → ListItems → Block

  pub data ListItems : Type 0 where
    no_items : ListItems
    item : Blocks → ListItems → ListItems

  pub data Blocks : Type 0 where
    no_blocks : Blocks
    block : Block → Blocks → Blocks

pub record DocV1 : Type 0 where
  pub content : Blocks

-- any model of the tree
pub data Node : Type 0 where
  doc_node item_node : Blocks → Node
  block_node : Block → Node
  inline_node : Inline → Node

abbrev pub block_nodes : Blocks → List Node
block_nodes no_blocks = []
block_nodes (block b bs) = block_node b ∷ block_nodes bs

abbrev pub item_nodes : ListItems → List Node
item_nodes no_items = []
item_nodes (item bs rest) = item_node bs ∷ item_nodes rest

-- `getattr(node, "content", None) or []`
unfoldable pub content_of : Node → List Node
content_of (doc_node bs) = block_nodes bs
content_of (item_node bs) = block_nodes bs
content_of (block_node (paragraph none)) = []
content_of (block_node (paragraph (some inlines))) = map inline_node inlines
content_of (block_node (bullet_list items)) = item_nodes items
content_of (block_node (ordered_list start items)) = item_nodes items
content_of (inline_node i) = []

unfoldable mutual
  -- the number of nodes of a block, of some items, and of some blocks
  pub block_size : Block → ℕ
  block_size (paragraph none) = 1
  block_size (paragraph (some inlines)) = suc (length inlines)
  block_size (bullet_list items) = suc (items_size items)
  block_size (ordered_list start items) = suc (items_size items)

  pub items_size : ListItems → ℕ
  items_size no_items = 0
  items_size (item bs rest) = suc (blocks_size bs + items_size rest)

  pub blocks_size : Blocks → ℕ
  blocks_size no_blocks = 0
  blocks_size (block b bs) = block_size b + blocks_size bs

-- `while stack`, on fuel; the node that is popped last comes first here
unfoldable pub walk_on : ℕ → List Node → Result BodyError (List Node)
walk_on zero stack = err out_of_fuel
walk_on (suc n) [] = ok []
walk_on (suc n) (node ∷ stack) = do rest ← walk_on n (content_of node ++ stack); ok (node ∷ rest)

-- A turn for each node, and one to find the stack empty.
unfoldable pub walk : DocV1 → Result BodyError (List Node)
walk doc = walk_on (suc (suc (blocks_size doc.content))) (doc_node doc.content ∷ [])

-- Python's white space
abbrev pub is_space : ℕ → Bool
is_space c =
    (leb 9 c && leb c 13)
    || (leb 28 c && leb c 32)
    || (c == 133)
    || (c == 160)
    || (c == 5760)
    || (leb 8192 c && leb c 8202)
    || (c == 8232)
    || (c == 8233)
    || (c == 8239)
    || (c == 8287)
    || (c == 12288)

abbrev pub all_space : String → Bool
all_space String.[] = true
all_space (String.◌∷◌ c s) = is_space (code c) && all_space s

-- `text.isspace()`, which is false of the empty text
unfoldable pub isspace : String → Bool
isspace String.[] = false
isspace (String.◌∷◌ c s) = is_space (code c) && all_space s

pub record BodyFacts : Type 0 where
  pub mention_ids : List ℕ
  pub has_content : Bool

-- `mention_ids.setdefault(id)`: a dict keeps the order of insertion
unfoldable pub set_default : ℕ → List ℕ → List ℕ
set_default u ids = if any (λ v. v == u) ids then ids else ids ++ (u ∷ [])

unfoldable pub look_at : Node → BodyFacts → BodyFacts
look_at (inline_node (text_node text marks)) facts = record facts {
  has_content = facts.has_content || not (isspace text);
}
look_at (inline_node (mention_node u)) facts = record {
  mention_ids = set_default u facts.mention_ids;
  has_content = true;
}
look_at node facts = facts

unfoldable pub look_at_all : List Node → BodyFacts → BodyFacts
look_at_all [] facts = facts
look_at_all (node ∷ rest) facts = look_at_all rest (look_at node facts)

unfoldable pub analyze : DocV1 → Result BodyError BodyFacts
analyze doc = do
  visited ← walk doc
  ok (look_at_all visited (record { mention_ids = []; has_content = false }))

unfoldable pub reject_empty : BodyFacts → Result BodyError (Unit {0})
reject_empty facts = if facts.has_content then ok tt else err empty_comment

module _ (model_validate : Json → Option DocV1) where
  -- The one body version is 1.
  unfoldable pub parse_body : ℕ → Json → Result BodyError DocV1
  parse_body body_version raw =
      if body_version == 1
      then elim (model_validate raw) [ none ↦ err invalid_document | some doc ↦ ok doc ]
      else err unsupported_version
