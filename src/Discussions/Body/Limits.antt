-- ===== src/Discussions/Body/Limits.antt =====
-- `enforce_limits` of app/core/discussions/body/walker.py, on the raw JSON of a request. Python's
-- `value.strip().isdigit()`, `int(value)` (`none` where it raises) and `repr(value)` are parameters:
-- they read Unicode's tables.
use Prim.Native.String.{count}
use adus_be.Json.{Json, null, bool, int, negative, str, arr, obj, Items, nil, cons, Fields, get}
use adus_be.Prelude.{
  ℕ, zero, suc, ◌+◌, Bool, true, false, ◌||◌, ◌&&◌, Option, none, some, List, [], ◌∷◌, String,
  str_eq, ltb, ◌==◌, any, length, if◌then◌else◌, Result, ok, err, ◌>>=◌,
}

-- The messages of `InvalidBodyError`, the plain `ValueError` of `int`, the `TypeError` of a `type` that
-- cannot be hashed, and a loop cut short.
pub data BodyError : Type 0 where
  too_many_nodes too_deep lists_too_deep too_much_text too_many_mentions : BodyError
  unsupported_version invalid_document empty_comment value_error type_error out_of_fuel : BodyError

abbrev pub max_text_chars : ℕ
max_text_chars = 10000

abbrev pub max_nodes : ℕ
max_nodes = 1000

abbrev pub max_distinct_mentions : ℕ
max_distinct_mentions = 20

abbrev pub max_list_depth : ℕ
max_list_depth = 3

abbrev pub max_node_depth : ℕ
max_node_depth = 8

-- What stands in the set of mention ids; True and 1 are one element.
pub data MentionKey : Type 0 where
  whole below : ℕ → MentionKey
  text : String → MentionKey
  nothing : MentionKey

abbrev pub same_key : MentionKey → MentionKey → Bool
same_key (whole m) (whole n) = m == n
same_key (below m) (below n) = m == n
same_key (text s) (text t) = str_eq s t
same_key nothing nothing = true
same_key a b = false

-- `mention_ids.add(key)`
unfoldable pub add_key : MentionKey → List MentionKey → List MentionKey
add_key k ids = if any (same_key k) ids then ids else k ∷ ids

-- A node, its depth, and its list depth including itself.
abbrev pub Entry : Type 0
Entry = Fields × ℕ × ℕ

pub record Counts : Type 0 where
  pub node_count : ℕ
  pub text_chars : ℕ
  pub mention_ids : List MentionKey

abbrev pub no_counts : Counts
no_counts = record { node_count = 0; text_chars = 0; mention_ids = [] }

-- `node.get("type") == ...`
abbrev pub is_text : Option Json → String → Bool
is_text (some (str s)) t = str_eq s t
is_text j t = false

abbrev pub text_length : Option Json → ℕ
text_length (some (str s)) = count s
text_length j = 0

-- `attrs.get("id") if isinstance(attrs, dict) else None`
abbrev pub id_in : Option Json → Option Json
id_in (some (obj attrs)) = get "id" attrs
id_in j = none

abbrev number : Option ℕ → Result BodyError MentionKey
number (some n) = ok (whole n)
number none = err value_error

abbrev pub is_list : Json → ℕ
is_list (obj child) =
    if is_text (get "type" child) "bulletList" || is_text (get "type" child) "orderedList"
    then 1
    else 0
is_list j = 0

-- what `child.get("type") in _RAW_LIST_TYPES` can hash
abbrev pub is_hashable : Option Json → Bool
is_hashable (some (arr items)) = false
is_hashable (some (obj fields)) = false
is_hashable j = true

-- The children that are objects have such a type.
unfoldable pub hashable_items : Items → Bool
hashable_items nil = true
hashable_items (cons (obj child) js) = is_hashable (get "type" child) && hashable_items js
hashable_items (cons j js) = hashable_items js

abbrev pub hashable_content : Option Json → Bool
hashable_content (some (arr content)) = hashable_items content
hashable_content j = true

-- The child that is pushed last is popped first.
unfoldable pub push : Items → ℕ → ℕ → List Entry → List Entry
push nil depth list_depth stack = stack
push (cons (obj child) js) depth list_depth stack =
    push js depth list_depth ((child, depth + 1, list_depth + is_list (obj child)) ∷ stack)
push (cons j js) depth list_depth stack = push js depth list_depth stack

abbrev pub push_content : Option Json → ℕ → ℕ → List Entry → List Entry
push_content (some (arr content)) depth list_depth stack = push content depth list_depth stack
push_content j depth list_depth stack = stack

module _ (is_digits : String → Bool) (to_int : String → Option ℕ) (repr : Json → String) where
  abbrev pub key_of : Option Json → Result BodyError MentionKey
  key_of none = ok nothing
  key_of (some null) = ok nothing
  key_of (some (bool b)) = ok (whole (if b then 1 else 0))
  key_of (some (int n)) = ok (whole n)
  key_of (some (negative n)) = ok (below n)
  key_of (some (str s)) = if is_digits s then number (to_int s) else ok (text s)
  key_of (some j) = ok (text (repr j))

  unfoldable pub mention_key : Fields → Result BodyError MentionKey
  mention_key node = key_of (id_in (get "attrs" node))

  unfoldable pub count_mention : Fields → List MentionKey → Result BodyError (List MentionKey)
  count_mention node ids =
      if is_text (get "type" node) "mention"
      then (do
        key ← mention_key node
        let found = add_key key ids
        if ltb max_distinct_mentions (length found) then err too_many_mentions else ok found)
      else ok ids

  -- The body of the loop, less the push of the children: the test of each child's type is here.
  unfoldable pub visit : Entry → Counts → Result BodyError Counts
  visit (node, depth, list_depth) c =
      if ltb max_nodes (c.node_count + 1)
      then err too_many_nodes
      else if ltb max_node_depth depth
      then err too_deep
      else if ltb max_list_depth list_depth
      then err lists_too_deep
      else if ltb max_text_chars (c.text_chars + text_length (get "text" node))
      then err too_much_text
      else (do
        found ← count_mention node c.mention_ids
        let after : Counts = record {
          node_count = c.node_count + 1;
          text_chars = c.text_chars + text_length (get "text" node);
          mention_ids = found;
        }
        if hashable_content (get "content" node) then ok after else err type_error)

  -- `while stack`, on fuel
  unfoldable pub scan : ℕ → List Entry → Counts → Result BodyError Counts
  scan zero stack c = err out_of_fuel
  scan (suc n) [] c = ok c
  scan (suc n) ((node, depth, list_depth) ∷ stack) c = do
    c' ← visit (node, depth, list_depth) c
    scan n (push_content (get "content" node) depth list_depth stack) c'

  -- Every turn counts a node, so max_nodes + 1 turns are enough.
  unfoldable pub enforce_limits : Json → Result BodyError (Unit {0})
  enforce_limits (obj raw) = do counts ← scan (suc max_nodes) ((raw, 0, 0) ∷ []) no_counts; ok tt
  enforce_limits raw = ok tt
