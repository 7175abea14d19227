-- ===== src/Deals/Rows.antt =====
-- The rows of deals under the statements of
-- app/iron_bank/services/operations/update_underwriting_service.py.
use mathlib.Core.Option
use adus_be.Prelude.{
  ℕ, ◌≡◌, ◌≢◌, refl, ap, true, false, some, List, [], ◌∷◌, map, ◌==◌, ==_iff, find, if◌then◌else◌,
  Bool-cases, Option-cases, inl, inr, arith,
}
use adus_be.DealStatus.{DealStatus}
use adus_be.Deals.{
  Underwriting, Db, Wiring, get_by_id, update, set_remove_listing, flag, sync_listing_removal,
  status_columns,
}

find_updated :
    (i : ℕ) (set : Underwriting → Underwriting) (l : List Underwriting) (u : Underwriting)
    → ((v : Underwriting) → (set v).id ≡ v.id)
    → find (λ (v : Underwriting). v.id == i) l ≡ some u
    → find
        (λ (v : Underwriting). v.id == i)
        (map (λ (v : Underwriting). if v.id == i then set v else v) l)
      ≡ some (set u)
find_updated i set [] u k h = cc
find_updated i set (v ∷ l) u k h = elim (Bool-cases (v.id == i)) [
  | inl e ↦
      let same : some v ≡ some u = ground arith in
      let t : (set v).id == i ≡ true = ground (arith, k v) in rw e (rw t (ap (Option.map set) same))
  | inr e ↦ rw e (rw e (find_updated i set l u k (ground arith)))
]

find_other :
    (i j : ℕ) (set : Underwriting → Underwriting) (l : List Underwriting)
    → ((v : Underwriting) → (set v).id ≡ v.id)
    → i ≢ j
    → find
        (λ (v : Underwriting). v.id == j)
        (map (λ (v : Underwriting). if v.id == i then set v else v) l)
      ≡ find (λ (v : Underwriting). v.id == j) l
find_other i j set [] k n = refl
find_other i j set (v ∷ l) k n = elim (Bool-cases (v.id == i)) [
  | inl e ↦
      let t : (set v).id == j ≡ false = ground (arith, k v) in
      let t' : v.id == j ≡ false = ground arith in rw e (rw t (rw t' (find_other i j set l k n)))
  | inr e ↦ rw e (ap (λ r. if v.id == j then some v else r) (find_other i j set l k n))
]

pub status_columns-id :
    (s : DealStatus) (actor now : ℕ) (u : Underwriting) → (status_columns s actor now u).id ≡ u.id
status_columns-id s actor now u = ground arith

pub sync_listing_removal-rows :
    (w : Wiring) (u : Underwriting) (s : DealStatus) (db : Db)
    → ((sync_listing_removal w u s db).underwritings ≡ db.underwritings)
      × ((sync_listing_removal w u s db).log ≡ db.log)
unfolding sync_listing_removal set_remove_listing
sync_listing_removal-rows w u s db = elim (Bool-cases w.listings_service) [
  | inl e ↦ elim (Option-cases u.zpid) [
    | inl z ↦ ground arith
    | inr (zpid, z) ↦ elim (Option-cases (flag u.deal_status s)) [
      | inl f ↦ ground arith
      | inr (b, f) ↦ ground arith
    ]
  ]
  | inr e ↦ ground arith
]

-- What `repository.update` leaves.
pub record Updated (i : ℕ) (u : Underwriting) (db db' : Db) : Type 0 where
  pub row : get_by_id i db' ≡ some u
  pub others : (j : ℕ) → i ≢ j → get_by_id j db' ≡ get_by_id j db
  pub log : db'.log ≡ db.log

pub update-Updated :
    (i : ℕ) (set : Underwriting → Underwriting) (db : Db) (u : Underwriting)
    → ((v : Underwriting) → (set v).id ≡ v.id)
    → get_by_id i db ≡ some u
    → ((update i set db).0 ≡ some (set u)) × Updated i (set u) db (update i set db).1
unfolding update get_by_id
update-Updated i set db u k h =
    let found = find_updated i set db.underwritings u k h in
    (
      found,
      record { row = found; others = λ j n. find_other i j set db.underwritings k n; log = refl },
    )

pub update-listings :
    (i : ℕ) (set : Underwriting → Underwriting) (db : Db)
    → (update i set db).1.listings ≡ db.listings
unfolding update
update-listings i set db = refl

pub get_by_id-sync :
    (j : ℕ) (w : Wiring) (u : Underwriting) (s : DealStatus) (db : Db)
    → get_by_id j (sync_listing_removal w u s db) ≡ get_by_id j db
unfolding get_by_id
get_by_id-sync j w u s db =
    ap (find (λ (v : Underwriting). v.id == j)) (sync_listing_removal-rows w u s db).0

find-id :
    (i : ℕ) (l : List Underwriting) (u : Underwriting)
    → find (λ (v : Underwriting). v.id == i) l ≡ some u
    → u.id ≡ i
find-id i [] u h = cc
find-id i (v ∷ l) u h = elim (Bool-cases (v.id == i)) [
  | inl e ↦ let same : some v ≡ some u = ground arith in cc (same, (==_iff v.id i).0 e)
  | inr e ↦ find-id i l u (ground arith)
]

pub get_by_id-id : (i : ℕ) (db : Db) (u : Underwriting) → get_by_id i db ≡ some u → u.id ≡ i
unfolding get_by_id
get_by_id-id i db u h = find-id i db.underwritings u h
