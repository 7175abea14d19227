-- ===== src/ReferenceData/Service.antt =====
-- The service and its two caches (app/core/reference_data/service.py). `now` is `time.monotonic()`, in
-- the unit of the TTL. What other requests and instances do while a statement of the database is
-- awaited is the argument `meanwhile`.
use adus_be.Prelude.{
  ℕ, ◌-◌, Bool, true, false, ◌&&◌, not, Option, none, some, List, [], ◌∷◌, ◌++◌, String, str_eq,
  lookup, insert, ltb, ◌==◌, filter, any, find, if◌then◌else◌, or_else, Result, ok, err,
}
use adus_be.ReferenceData.{
  EnumOption, CreateEnumOptionPayload, UpdateEnumOptionPayload, Scope, in_scope, list_options,
  new_option, with_fields, update_rows,
}

-- the database, the process-level cache with the time it was stamped with, and the clock
pub record World : Type 0 where
  pub table : List EnumOption
  pub shared_cache : Option (ℕ × List EnumOption)
  pub now : ℕ

-- what a service instance has fetched in its request, by scope
abbrev pub Fetched : Type 0
Fetched = List (Scope × List EnumOption)

abbrev pub whole_table : Scope
whole_table = record { domain = none; set_codes = []; include_inactive = true }

abbrev pub same_option_text : Option String → Option String → Bool
same_option_text none none = true
same_option_text (some a) (some b) = str_eq a b
same_option_text _ _ = false

abbrev pub same_texts : List String → List String → Bool
same_texts [] [] = true
same_texts (a ∷ more) (b ∷ others) = str_eq a b && same_texts more others
same_texts _ _ = false

abbrev pub same_flag : Bool → Bool → Bool
same_flag true b = b
same_flag false b = not b

-- `_cache_key` compared
abbrev pub same_scope : Scope → Scope → Bool
same_scope a b =
    same_option_text a.domain b.domain
    && same_texts a.set_codes b.set_codes
    && same_flag a.include_inactive b.include_inactive

abbrev pub is_fresh : ℕ → ℕ → ℕ → Bool
is_fresh ttl now stamp = ltb (now - stamp) ttl

abbrev pub one_set : Option String → String → Scope
one_set domain set_code = record {
  domain = domain;
  set_codes = set_code ∷ [];
  include_inactive = false;
}

module _ (text_less : String → String → Bool) where
  -- `_list_options`: the rows, and the instance's cache after the call
  unfoldable pub cached_options : Scope → Fetched → List EnumOption → List EnumOption × Fetched
  cached_options scope fetched table = hit (find (λ e. same_scope e.0 scope) fetched)
    where
      hit : Option (Scope × List EnumOption) → List EnumOption × Fetched
      hit none = let rows = list_options text_less scope table in (rows, (scope, rows) ∷ fetched)
      hit (some (known, rows)) = (rows, fetched)

  -- what the query of the whole table returns
  abbrev pub query_table : World → List EnumOption
  query_table w = list_options text_less whole_table w.table

  -- the cached rows, while they are fresh
  abbrev pub fresh_rows : ℕ → ℕ → Option (ℕ × List EnumOption) → Option (List EnumOption)
  fresh_rows ttl now none = none
  fresh_rows ttl now (some (stamp, rows)) = if is_fresh ttl now stamp then some rows else none

  abbrev pub store : List EnumOption → World → World
  store rows w = record { table = w.table; shared_cache = some (w.now, rows); now = w.now }

  -- `_shared_table`: after a miss the rows are those of the query, and the stamp is taken once they are
  -- there.
  abbrev pub serve : World → (World → World) → Option (List EnumOption) → List EnumOption × World
  serve w meanwhile (some rows) = (rows, w)
  serve w meanwhile none = (query_table w, store (query_table w) (meanwhile w))

  unfoldable pub shared_table : ℕ → (World → World) → World → List EnumOption × World
  shared_table ttl meanwhile w = serve w meanwhile (fresh_rows ttl w.now w.shared_cache)

  -- `_list_shared_options`
  unfoldable pub list_shared_options :
      ℕ → Scope → Fetched → (World → World) → World → List EnumOption × Fetched × World
  list_shared_options ttl scope fetched meanwhile w =
      let own = cached_options scope fetched w.table in
      let shared = shared_table ttl meanwhile w in
      if ttl == 0
      then (own.0, own.1, meanwhile w)
      else (filter (in_scope scope) shared.0, fetched, shared.1)

  -- The exception carries the set and the key of its message.
  unfoldable pub validate_active_option :
      Option String
      → String
      → Option String
      → Fetched
      → List EnumOption
      → Result (String × String) (Unit {0}) × Fetched
  validate_active_option domain set_code none fetched table = (ok tt, fetched)
  validate_active_option domain set_code (some key) fetched table =
      let (rows, after) = cached_options (one_set domain set_code) fetched table in
      (if any (λ o. str_eq (EnumOption.key o) key) rows then ok tt else err (set_code, key), after)

-- `_clear_caches`; the instance's own cache is emptied too
abbrev pub clear_caches : World → World
clear_caches w = record { table = w.table; shared_cache = none; now = w.now }

abbrev pub committed : List EnumOption → World → World
committed table w = record { table = table; shared_cache = w.shared_cache; now = w.now }

-- The caches are cleared once the repository, which commits, has returned.
unfoldable pub create_option :
    ℕ → CreateEnumOptionPayload → (World → World) → World → EnumOption × Fetched × World
create_option id payload meanwhile w =
    let option = new_option id w.now payload in
    (option, [], clear_caches (meanwhile (committed (w.table ++ option ∷ []) w)))

unfoldable pub update_option :
    ℕ → UpdateEnumOptionPayload → (World → World) → World → Option EnumOption × Fetched × World
update_option id payload meanwhile w = answer (find (λ o. EnumOption.id o == id) w.table)
  where
    answer : Option EnumOption → Option EnumOption × Fetched × World
    answer none = (none, [], clear_caches (meanwhile w))
    answer (some o) = (
      some (with_fields w.now payload o),
      [],
      clear_caches (meanwhile (committed (update_rows w.now id payload w.table) w)),
    )

-- `grouped.setdefault(set_code, []).append(option)`
abbrev pub append_to :
    String → EnumOption → List (String × List EnumOption) → List (String × List EnumOption)
append_to set_code o grouped =
    insert set_code (or_else (lookup set_code grouped) [] ++ o ∷ []) grouped

-- `get_reference_data` on the rows that were read
unfoldable pub group_options :
    List EnumOption → List (String × List EnumOption) → List (String × List EnumOption)
group_options [] grouped = grouped
group_options (o ∷ options) grouped = group_options options (append_to o.set_code o grouped)

-- `get_label_map`, looked up: of two options with one set and key the later one counts
unfoldable pub label_of : String → String → List EnumOption → Option String
label_of set_code key [] = none
label_of set_code key (o ∷ options) = later (label_of set_code key options)
  where
    later : Option String → Option String
    later (some label) = some label
    later none = if str_eq o.set_code set_code && str_eq o.key key then some o.label else none
