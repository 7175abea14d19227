-- ===== src/ChildRows.antt =====
-- The child collections of an underwriting (`_upsert_children` of
-- app/iron_bank/repositories/underwriting_repository.py): the diff of the rows by primary key.
use mathlib.Core.Path.{ap₂}
use adus_be.Prelude.{
  ℕ, suc, ◌+◌, ◌≡◌, refl, sym, ap, ◌∙◌, Bool, true, false, ◌||◌, ◌&&◌, ltb, stable_sort, Option,
  none, some, List, [], ◌∷◌, ◌++◌, map, append_assoc, append_nil, ◌==◌, any, filter, if◌then◌else◌,
  Bool-cases, inl, inr, arith,
}

-- A row of the collection; `fields` are the columns of the model.
pub record Row (R : Type 0) : Type 0 where
  pub id : ℕ
  pub sort_order : ℕ
  pub fields : R

-- An incoming item: the id it carries, and its other fields.
pub record Item (F : Type 0) : Type 0 where
  pub id : Option ℕ
  pub fields : F

-- The session in the loop: the existing rows, the rows that were added, the next id that the sequence
-- gives, and `seen_ids`.
pub record Session (R : Type 0) : Type 0 where
  pub rows : List (Row R)
  pub added : List (Row R)
  pub next_id : ℕ
  pub seen_ids : List ℕ

abbrev pub has_id : ℕ → List ℕ → Bool
has_id i ids = any (λ j. j == i) ids

module _ {R : Type 0} where
  abbrev pub ids_of : List (Row R) → List ℕ
  ids_of = map (λ (r : Row R). r.id)

  -- UPDATE of one row
  abbrev pub update_row : ℕ → (Row R → Row R) → List (Row R) → List (Row R)
  update_row i f = map (λ (r : Row R). if r.id == i then f r else r)

  abbrev delete_unseen : List ℕ → List (Row R) → List (Row R)
  delete_unseen seen = filter (λ (r : Row R). has_id r.id seen)

  -- ORDER BY sort_order, id
  abbrev comes_before : Row R → Row R → Bool
  comes_before a b =
      ltb a.sort_order b.sort_order || ((a.sort_order == b.sort_order) && ltb a.id b.id)

  -- the collection as a read of it lists it
  unfoldable pub collection : List (Row R) → List (Row R)
  collection = stable_sort comes_before

module _ {F R : Type 0} (update_fields : F → R → R) (create : F → R) where
  -- `existing_by_id.get(item_id) if item_id is not None else None`
  abbrev pub owns : List (Row R) → Option ℕ → Bool
  owns rows none = false
  owns rows (some i) = has_id i (ids_of rows)

  abbrev changed : ℕ → F → Row R → Row R
  changed index fields r = record r { sort_order = index; fields = update_fields fields r.fields }

  abbrev insert_row : ℕ → F → Session R → Session R
  insert_row index fields s = record s {
    added = s.added ++ (record { id = s.next_id; sort_order = index; fields = create fields } ∷ []);
    next_id = suc s.next_id;
  }

  abbrev write : ℕ → Item F → Session R → Session R
  write index item s = elim item.id [
    | none ↦ insert_row index item.fields s
    | some i ↦
        if has_id i (ids_of s.rows)
        then record s {
          rows = update_row i (changed index item.fields) s.rows;
          seen_ids = i ∷ s.seen_ids;
        }
        else insert_row index item.fields s
  ]

  -- `for index, item in enumerate(incoming)`
  unfoldable pub write_all : ℕ → List (Item F) → Session R → Session R
  write_all index [] s = s
  write_all index (item ∷ items) s = write_all (suc index) items (write index item s)

  -- The rows of the collection that the table then holds, and the next id.
  unfoldable pub upsert_children : List (Row R) → List (Item F) → ℕ → List (Row R) × ℕ
  upsert_children existing incoming next_id =
      let s =
        write_all 0 incoming
          (record { rows = existing; added = []; next_id = next_id; seen_ids = [] }) in
      (delete_unseen s.seen_ids s.rows ++ s.added, s.next_id)

  -- the incoming ids that name a row of the collection
  abbrev pub named : List ℕ → List (Item F) → List ℕ
  named ids [] = []
  named ids (item ∷ items) =
      let rest = named ids items in
      elim item.id [ none ↦ rest | some i ↦ if has_id i ids then i ∷ rest else rest ]

  -- the number of items that name none
  abbrev pub unnamed : List ℕ → List (Item F) → ℕ
  unnamed ids [] = 0
  unnamed ids (item ∷ items) =
      let rest = unnamed ids items in
      elim item.id [ none ↦ suc rest | some i ↦ if has_id i ids then rest else suc rest ]

  ids_of-update_row :
      (i : ℕ) (index : ℕ) (f : F) (rows : List (Row R))
      → ids_of (update_row i (changed index f) rows) ≡ ids_of rows
  ids_of-update_row i index f [] = refl
  ids_of-update_row i index f (r ∷ rows) = ground (arith, ids_of-update_row i index f rows)

  -- What the loop leaves.
  record Written (items : List (Item F)) (s s' : Session R) : Type 0 where
    pub next : s'.next_id ≡ s.next_id + unnamed (ids_of s.rows) items
    pub seen :
        (i : ℕ)
        → has_id i s'.seen_ids ≡ has_id i (named (ids_of s.rows) items) || has_id i s.seen_ids

  -- an item that is inserted
  Written-insert :
      (index : ℕ) (item : Item F) (f : F) (items : List (Item F)) (s s' : Session R)
      → named (ids_of s.rows) (item ∷ items) ≡ named (ids_of s.rows) items
      → unnamed (ids_of s.rows) (item ∷ items) ≡ suc (unnamed (ids_of s.rows) items)
      → Written items (insert_row index f s) s'
      → Written (item ∷ items) s s'
  Written-insert index item f items s s' n u w = record {
    next = omega (arith, w.next, u);
    seen = λ i. rw n (w.seen i);
  }

  -- an item that updates a row
  Written-update :
      (index i : ℕ) (f : F) (items : List (Item F)) (s s' : Session R)
      → has_id i (ids_of s.rows) ≡ true
      → Written items
          (record s { rows = update_row i (changed index f) s.rows; seen_ids = i ∷ s.seen_ids })
          s'
      → Written (record { id = some i; fields = f } ∷ items) s s'
  Written-update index i f items s s' h w =
      let same = ids_of-update_row i index f s.rows in
      record {
        next = rw h (w.next ∙ ap (λ l. s.next_id + unnamed l items) same);
        seen = λ j. rw h (ground (arith, w.seen j, ap (λ l. has_id j (named l items)) same));
      }

  Written-step :
      (index : ℕ) (id : Option ℕ) (f : F) (items : List (Item F)) (s : Session R)
      → ((s' : Session R) → Written items s' (write_all (suc index) items s'))
      → Written
          (record { id = id; fields = f } ∷ items)
          s
          (write_all (suc index) items (write index (record { id = id; fields = f }) s))
  Written-step index none f items s rest =
      Written-insert index (record { id = none; fields = f }) f items s _ refl refl
        (rest (insert_row index f s))
  Written-step index (some i) f items s rest = elim (Bool-cases (has_id i (ids_of s.rows))) [
    | inl h ↦ rw h (Written-update index i f items s _ h (rest _))
    | inr h ↦ rw h (
        Written-insert index (record { id = some i; fields = f }) f items s _ (rw h refl)
          (rw h refl) (rest (insert_row index f s)))
  ]

  write_all-Written :
      (index : ℕ) (items : List (Item F)) (s : Session R)
      → Written items s (write_all index items s)
  unfolding write_all
  write_all-Written index [] s = record { next = omega arith; seen = λ i. refl }
  write_all-Written index (item ∷ items) s =
      Written-step index item.id item.fields items s (λ s'. write_all-Written (suc index) items s')

  -- the item names the row
  abbrev pub names : Item F → Row R → Bool
  names item r = elim item.id [ none ↦ false | some i ↦ r.id == i ]

  -- A row after the items from position `index` on: each that names it sets its fields and its position.
  abbrev pub touched : ℕ → List (Item F) → Row R → Row R
  touched index [] r = r
  touched index (item ∷ items) r = touched (suc index) items (
      if names item r
      then record { id = r.id; sort_order = index; fields = update_fields item.fields r.fields }
      else r)

  -- a new row for each item that names none of `ids`
  abbrev pub inserted : List ℕ → ℕ → ℕ → List (Item F) → List (Row R)
  inserted ids index next [] = []
  inserted ids index next (item ∷ items) =
      let others = inserted ids (suc index) next items in
      let more =
        record { id = next; sort_order = index; fields = create item.fields }
        ∷ inserted ids (suc index) (suc next) items in
      elim item.id [ none ↦ more | some i ↦ if has_id i ids then others else more ]

  map-map :
      (f g : Row R → Row R) (rows : List (Row R)) → map g (map f rows) ≡ map (λ r. g (f r)) rows
  map-map f g [] = refl
  map-map f g (r ∷ rows) = ap (λ l. g (f r) ∷ l) (map-map f g rows)

  -- an item that names none of the rows
  touched-unnamed :
      (index i : ℕ) (f : F) (items : List (Item F)) (rows : List (Row R))
      → has_id i (ids_of rows) ≡ false
      → map (touched index (record { id = some i; fields = f } ∷ items)) rows
        ≡ map (touched (suc index) items) rows
  touched-unnamed index i f items [] h = refl
  touched-unnamed index i f items (r ∷ rows) h =
      let other : (r.id == i) ≡ false = ground (arith, h) in
      rw other (
        ap (λ l. touched (suc index) items r ∷ l)
          (touched-unnamed index i f items rows (ground (arith, h))))

  -- what the loop leaves of the rows, and adds
  record Rewritten (index : ℕ) (items : List (Item F)) (s s' : Session R) : Type 0 where
    pub rows : s'.rows ≡ map (touched index items) s.rows
    pub added : s'.added ≡ s.added ++ inserted (ids_of s.rows) index s.next_id items

  Rewritten-insert :
      (index : ℕ) (f : F) (items : List (Item F)) (s s' : Session R)
      → Rewritten (suc index) items (insert_row index f s) s'
      → (s'.rows ≡ map (touched (suc index) items) s.rows)
        × (s'.added
            ≡ s.added
              ++ (record { id = s.next_id; sort_order = index; fields = create f }
                  ∷ inserted (ids_of s.rows) (suc index) (suc s.next_id) items))
  Rewritten-insert index f items s s' w = (
    w.rows,
    w.added
        ∙ append_assoc s.added
            (record { id = s.next_id; sort_order = index; fields = create f } ∷ [])
            (inserted (ids_of s.rows) (suc index) (suc s.next_id) items),
  )

  Rewritten-step :
      (index : ℕ) (id : Option ℕ) (f : F) (items : List (Item F)) (s : Session R)
      → ((s' : Session R) → Rewritten (suc index) items s' (write_all (suc index) items s'))
      → Rewritten index
          (record { id = id; fields = f } ∷ items)
          s
          (write_all (suc index) items (write index (record { id = id; fields = f }) s))
  Rewritten-step index none f items s rest =
      let (kept, grown) = Rewritten-insert index f items s _ (rest (insert_row index f s)) in
      record { rows = kept; added = grown }
  Rewritten-step index (some i) f items s rest = elim (Bool-cases (has_id i (ids_of s.rows))) [
    | inl h ↦
        let after : Session R = record s {
          rows = update_row i (changed index f) s.rows;
          seen_ids = i ∷ s.seen_ids;
        } in
        let w = rest after in
        rw h (record {
          rows = w.rows ∙ map-map _ (touched (suc index) items) s.rows;
          added = rw h (
              w.added
              ∙ ap (λ ids. s.added ++ inserted ids (suc index) s.next_id items)
                  (ids_of-update_row i index f s.rows));
        })
    | inr h ↦
        let (kept, grown) = Rewritten-insert index f items s _ (rest (insert_row index f s)) in
        rw h (record {
          rows = kept ∙ sym (touched-unnamed index i f items s.rows h);
          added = rw h grown;
        })
  ]

  write_all-Rewritten :
      (index : ℕ) (items : List (Item F)) (s : Session R)
      → Rewritten index items s (write_all index items s)
  unfolding write_all
  write_all-Rewritten index [] s = record {
    rows = sym (map_same s.rows);
    added = sym (append_nil s.added);
  }
    where
      map_same : (rows : List (Row R)) → map (touched index []) rows ≡ rows
      map_same [] = refl
      map_same (r ∷ rows) = ap (λ l. r ∷ l) (map_same rows)
  write_all-Rewritten index (item ∷ items) s =
      Rewritten-step index item.id item.fields items s
        (λ s'. write_all-Rewritten (suc index) items s')

  unseen_gone :
      (seen wanted : List ℕ) (rows : List (Row R))
      → ((i : ℕ) → has_id i seen ≡ has_id i wanted)
      → delete_unseen seen rows ≡ filter (λ r. has_id (Row.id r) wanted) rows
  unseen_gone seen wanted [] e = refl
  unseen_gone seen wanted (r ∷ rows) e =
      rw (e r.id)
        (ap (λ l. if has_id r.id wanted then r ∷ l else l) (unseen_gone seen wanted rows e))

  -- After an update the table holds of the collection the rows that the payload names, each with the fields
  -- and the position of the items that name it, the last one counting; and for every other item, also for
  -- one that carries the id of a row of somebody else, a new row with the next id, the item's fields and
  -- its position. All other rows are gone.
  pub upsert_children_lem :
      (existing : List (Row R)) (incoming : List (Item F)) (next_id : ℕ)
      → upsert_children existing incoming next_id ≡ (
        filter
              (λ r. has_id (Row.id r) (named (ids_of existing) incoming))
              (map (touched 0 incoming) existing)
            ++ inserted (ids_of existing) 0 next_id incoming,
        next_id + unnamed (ids_of existing) incoming,
      )
  unfolding upsert_children
  upsert_children_lem existing incoming next_id =
      let start : Session R = record {
        rows = existing;
        added = [];
        next_id = next_id;
        seen_ids = [];
      } in
      let left = write_all 0 incoming start in
      let w = write_all-Written 0 incoming start in
      let r = write_all-Rewritten 0 incoming start in
      let wanted = named (ids_of existing) incoming in
      let gone = unseen_gone left.seen_ids wanted left.rows (λ i. ground (arith, w.seen i)) in
      ap₂ (λ rows next. (rows, next))
        (ap₂ (λ kept new. kept ++ new) (gone ∙ ap (filter (λ r. has_id (Row.id r) wanted)) r.rows)
          r.added)
        w.next
