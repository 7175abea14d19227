-- ===== src/ReferenceData/Freshness.antt =====
-- How long a cached option can be served (app/core/reference_data/service.py), with reads and writes
-- interleaved at their awaits.
use mathlib.Core.Path.{subst}
use adus_be.Prelude.{
  ℕ, ◌+◌, ◌-◌, ◌≤◌, ◌<◌, ◌≡◌, refl, sym, ap, ◌∙◌, arith, Bool, false, Bool-cases, ◌⊎◌, inl, inr,
  Option, none, some, List, [], ◌∷◌, ◌++◌, String, ◌==◌, filter,
}
use adus_be.ReferenceData.{EnumOption, Scope, in_scope, list_options}
use adus_be.ReferenceData.Service.{
  World, Fetched, whole_table, is_fresh, query_table, fresh_rows, store, serve, shared_table,
  list_shared_options, clear_caches, committed,
}
use adus_be.ReferenceData.Filters.{IsTextOrder, list_options-filter}

-- One application instance: its world, the queries that its shared reads await, each with the time it
-- was run and its rows, and the time of the last commit, by whatever instance, that was not followed by
-- a clearing of the cache while no query was awaited.
pub record Instance : Type 0 where
  pub world : World
  pub awaited : List (ℕ × List EnumOption)
  pub unsettled : Option ℕ

abbrev pub later : ℕ → World → World
later t w = record { table = w.table; shared_cache = w.shared_cache; now = w.now + t }

-- after a clearing: what is awaited can still be stored
abbrev pub still_unsettled : List (ℕ × List EnumOption) → Option ℕ → Option ℕ
still_unsettled [] t = none
still_unsettled (q ∷ qs) t = t

module _ (text_less : String → String → Bool) (ttl latency : ℕ) where
  -- Time passes; a shared read that misses runs its query, and stores the rows within `latency` or fails;
  -- this instance or another commits a table; and this instance clears its caches.
  pub data Step : Instance → Instance → Type 0 where
    tick :
        (i : Instance) (t : ℕ)
        → Step i (record { world = later t i.world; awaited = i.awaited; unsettled = i.unsettled })
    begin :
        (i : Instance)
        → Step i (record {
          world = i.world;
          awaited = (i.world.now, query_table text_less i.world) ∷ i.awaited;
          unsettled = i.unsettled;
        })
    finish :
        (w : World) (before after : List (ℕ × List EnumOption)) (began : ℕ) (rows : List EnumOption)
        (t : Option ℕ)
        → w.now ≤ began + latency
        → Step
            (record { world = w; awaited = before ++ (began, rows) ∷ after; unsettled = t })
            (record { world = store text_less rows w; awaited = before ++ after; unsettled = t })
    fail :
        (w : World) (before after : List (ℕ × List EnumOption)) (q : ℕ × List EnumOption)
        (t : Option ℕ)
        → Step
            (record { world = w; awaited = before ++ q ∷ after; unsettled = t })
            (record { world = w; awaited = before ++ after; unsettled = t })
    commit :
        (i : Instance) (table : List EnumOption)
        → Step i (record {
          world = committed table i.world;
          awaited = i.awaited;
          unsettled = some i.world.now;
        })
    clear :
        (i : Instance)
        → Step i (record {
          world = clear_caches i.world;
          awaited = i.awaited;
          unsettled = still_unsettled i.awaited i.unsettled;
        })

  pub data Steps : Instance → Instance → Type 0 where
    none_yet : (i : Instance) → Steps i i
    then_step : {a b c : Instance} → Steps a b → Step b c → Steps a c

  -- queried no later than now, and either what the table holds or no later than an unsettled commit
  abbrev UpToDate : ℕ → List EnumOption → List EnumOption → Option ℕ → Type 0
  UpToDate began rows table none = rows ≡ list_options text_less whole_table table
  UpToDate began rows table (some t) =
      (rows ≡ list_options text_less whole_table table) ⊎ (began ≤ t)

  abbrev IsSoundAt : World → Option ℕ → ℕ → List EnumOption → Type 0
  IsSoundAt w t began rows = (began ≤ w.now) × UpToDate began rows w.table t

  abbrev CacheIsSound : World → Option ℕ → Option (ℕ × List EnumOption) → Type 0
  CacheIsSound w t none = Unit
  CacheIsSound w t (some (stamp, rows)) =
      (began : ℕ) × (stamp ≤ began + latency) × IsSoundAt w t began rows

  abbrev AreSound : World → Option ℕ → List (ℕ × List EnumOption) → Type 0
  AreSound w t [] = Unit
  AreSound w t ((began, rows) ∷ qs) = IsSoundAt w t began rows × AreSound w t qs

  abbrev IsSound : Instance → Type 0
  IsSound i =
      CacheIsSound i.world i.unsettled i.world.shared_cache × AreSound i.world i.unsettled i.awaited

  -- `latency` and `ttl` have passed since the last unsettled commit, if there is one
  abbrev pub Since : ℕ → Option ℕ → Type 0
  Since now none = Unit
  Since now (some t) = t + latency + ttl ≤ now

  abbrev pub IsSettled : Instance → Type 0
  IsSettled i = Since i.world.now i.unsettled

  UpToDate-now :
      (w : World) (began : ℕ) (t : Option ℕ) → UpToDate began (query_table text_less w) w.table t
  UpToDate-now w began none = refl
  UpToDate-now w began (some t) = inl refl

  module _ (w v : World) (t u : Option ℕ)
      (keeps : (began : ℕ) (rows : List EnumOption)
        → IsSoundAt w t began rows
        → IsSoundAt v u began rows) where
    cache_kept :
        (cache : Option (ℕ × List EnumOption)) → CacheIsSound w t cache → CacheIsSound v u cache
    cache_kept none s = tt
    cache_kept (some (stamp, rows)) (began, past, s) = (began, past, keeps began rows s)

    awaited_kept : (qs : List (ℕ × List EnumOption)) → AreSound w t qs → AreSound v u qs
    awaited_kept [] s = tt
    awaited_kept ((began, rows) ∷ qs) (s, rest) = (keeps began rows s, awaited_kept qs rest)

  found :
      (w : World) (t : Option ℕ) (before after : List (ℕ × List EnumOption))
      (q : ℕ × List EnumOption)
      → AreSound w t (before ++ q ∷ after)
      → IsSoundAt w t q.0 q.1 × AreSound w t (before ++ after)
  found w t [] after (began, rows) (s, rest) = (s, rest)
  found w t ((b, r) ∷ before) after q (s, rest) =
      let (own, others) = found w t before after q rest in (own, (s, others))

  cleared :
      (w : World) (t : Option ℕ) (qs : List (ℕ × List EnumOption))
      → AreSound w t qs
      → AreSound (clear_caches w) (still_unsettled qs t) qs
  cleared w t [] s = tt
  cleared w t (q ∷ qs) s =
      awaited_kept w (clear_caches w) t t (λ began rows sound. sound) (q ∷ qs) s

  Step-IsSound : {i j : Instance} → Step i j → IsSound i → IsSound j
  Step-IsSound (tick i n) (cache, awaited) =
      let w = i.world in
      let keeps : (began : ℕ) (rows : List EnumOption)
          → IsSoundAt w i.unsettled began rows
          → IsSoundAt (later n w) i.unsettled began rows =
        λ began rows (past, s). (omega arith, s) in
      (
        cache_kept w (later n w) i.unsettled i.unsettled keeps w.shared_cache cache,
        awaited_kept w (later n w) i.unsettled i.unsettled keeps i.awaited awaited,
      )
  Step-IsSound (begin i) (cache, awaited) =
      (cache, ((omega arith, UpToDate-now i.world i.world.now i.unsettled), awaited))
  Step-IsSound (finish w before after began rows t late) (cache, awaited) =
      let (own, others) = found w t before after (began, rows) awaited in
      (
        (began, late, own),
        awaited_kept w (store text_less rows w) t t (λ b r s. s) (before ++ after) others,
      )
  Step-IsSound (fail w before after q t) (cache, awaited) =
      (cache, (found w t before after q awaited).1)
  Step-IsSound (commit i table) (cache, awaited) =
      let w = i.world in
      let v = committed table w in
      let keeps : (began : ℕ) (rows : List EnumOption)
          → IsSoundAt w i.unsettled began rows
          → IsSoundAt v (some w.now) began rows =
        λ began rows (past, s). (past, inr past) in
      (
        cache_kept w v i.unsettled (some w.now) keeps w.shared_cache cache,
        awaited_kept w v i.unsettled (some w.now) keeps i.awaited awaited,
      )
  Step-IsSound (clear i) (cache, awaited) = (tt, cleared i.world i.unsettled i.awaited awaited)

  Steps-IsSound : {i j : Instance} → Steps i j → IsSound i → IsSound j
  Steps-IsSound (none_yet i) s = s
  Steps-IsSound (then_step path step) s = Step-IsSound step (Steps-IsSound path s)

  up_to_date :
      (began stamp now : ℕ) (rows table : List EnumOption) (last : Option ℕ)
      → stamp ≤ began + latency
      → UpToDate began rows table last
      → Since now last
      → now - stamp < ttl
      → rows ≡ list_options text_less whole_table table
  up_to_date began stamp now rows table none past s quiet fresh = s
  up_to_date began stamp now rows table (some t) past (inl s) quiet fresh = s
  up_to_date began stamp now rows table (some t) past (inr before) quiet fresh =
      absurd (omega arith)

  serve_lem :
      (w : World) (t : Option ℕ) (meanwhile : World → World) (cache : Option (ℕ × List EnumOption))
      → CacheIsSound w t cache
      → Since w.now t
      → (serve text_less w meanwhile (fresh_rows text_less ttl w.now cache)).0
        ≡ list_options text_less whole_table w.table
  serve_lem w t meanwhile none s quiet = refl
  serve_lem w t meanwhile (some (stamp, rows)) (began, past, (_, s)) quiet =
      elim (Bool-cases (is_fresh ttl w.now stamp)) [
        | inl fresh ↦
            rw fresh
              (up_to_date began stamp w.now rows w.table t past s quiet (ground (arith, fresh)))
        | inr stale ↦ rw stale refl
      ]

  -- However the reads, commits and clearings of this instance and the commits of others interleave
  -- since the cache was empty and nothing was awaited, and while no awaited query is stored later than
  -- `latency` after it was run: a shared read returns what the repository's query returns when it
  -- starts, if every commit was followed by a clearing while no query was awaited, or `latency` and
  -- the TTL have passed since the last one that was not.
  pub list_shared_options_lem :
      IsTextOrder text_less
      → 1 ≤ ttl
      → (start i : Instance) → start.world.shared_cache ≡ none
      → start.awaited ≡ []
      → Steps start i
      → IsSettled i
      → (scope : Scope) (fetched : Fetched) (meanwhile : World → World)
      → (list_shared_options text_less ttl scope fetched meanwhile i.world).0
        ≡ list_options text_less scope i.world.table
  unfolding list_shared_options shared_table
  list_shared_options_lem texts on start i empty idle path quiet scope fetched meanwhile =
      let cached : (ttl == 0) ≡ false = ground arith in
      let sound : IsSound start = (
        subst (CacheIsSound start.world start.unsettled) (sym empty) tt,
        subst (AreSound start.world start.unsettled) (sym idle) tt,
      ) in
      let w = i.world in
      rw cached (
        ap (filter (in_scope scope))
          (serve_lem w i.unsettled meanwhile w.shared_cache (Steps-IsSound path sound).0 quiet)
        ∙ list_options-filter text_less texts scope w.table)
