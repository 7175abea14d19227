-- ===== src/Deals/Listings.antt =====
-- The listing of a deal whose status changes (`_sync_listing_removal` of
-- app/iron_bank/services/operations/update_underwriting_service.py).
use adus_be.Prelude.{
  ◌≡◌, ◌≢◌, refl, ◌⊎◌, inl, inr, Bool, true, false, none, some, List, map, String, str_eq,
  if◌then◌else◌, Bool-cases, Option-cases,
}
use adus_be.DealStatus.{DealStatus, value, same, same_iff, delete_zillow}
use adus_be.Deals.{
  Underwriting, ScheduledListing, Db, Wiring, is_status, set_remove_listing, sync_listing_removal,
}
use adus_be.Deals.Chains.{opt_eq-some_iff}

-- the listings with that zpid flagged for removal, or not any more
abbrev pub flagged : String → Bool → List ScheduledListing → List ScheduledListing
flagged zpid remove = map (λ (l : ScheduledListing).
    if str_eq l.zpid zpid then record l { remove_listing = some remove } else l)

abbrev pub IsDeleted : Underwriting → Type 0
IsDeleted u = u.deal_status ≡ some (value delete_zillow)

-- The listings after a change of the deal `u` to `s`.
pub record Relisted (w : Wiring) (u : Underwriting) (s : DealStatus)
    (old new : List ScheduledListing) : Type 0 where
  pub entered :
      (zpid : String)
      → w.listings_service ≡ true
      → u.zpid ≡ some zpid
      → s ≡ delete_zillow
      → new ≡ flagged zpid true old
  pub left :
      (zpid : String)
      → w.listings_service ≡ true
      → u.zpid ≡ some zpid
      → IsDeleted u
      → s ≢ delete_zillow
      → new ≡ flagged zpid false old
  pub elsewhere : s ≢ delete_zillow → u.deal_status ≢ some (value delete_zillow) → new ≡ old
  pub unlinked : (w.listings_service ≡ false) ⊎ (u.zpid ≡ none) → new ≡ old

differs : (s t : DealStatus) → s ≢ t → same s t ≡ false
differs s t n = elim (Bool-cases (same s t)) [ inl e ↦ absurd (n ((same_iff s t).0 e)) | inr e ↦ e ]

not_deleted :
    (u : Underwriting)
    → u.deal_status ≢ some (value delete_zillow)
    → is_status u.deal_status delete_zillow ≡ false
not_deleted u n = elim (Bool-cases (is_status u.deal_status delete_zillow)) [
  | inl e ↦ absurd (n ((opt_eq-some_iff u.deal_status (value delete_zillow)).0 e))
  | inr e ↦ e
]

pub sync_listing_removal-Relisted :
    (w : Wiring) (u : Underwriting) (s : DealStatus) (db : Db)
    → Relisted w u s db.listings (sync_listing_removal w u s db).listings
unfolding sync_listing_removal set_remove_listing
sync_listing_removal-Relisted w u s db = record {
  entered = λ zpid on z e. rw (on, z, (same_iff s delete_zillow).1 e) refl;
  left = λ zpid on z d n.
      rw
        (
          on,
          z,
          differs s delete_zillow n,
          (opt_eq-some_iff u.deal_status (value delete_zillow)).1 d,
        )
        refl;
  elsewhere = λ n d. elim (Bool-cases w.listings_service) [
    | inl on ↦ elim (Option-cases u.zpid) [
      | inl z ↦ rw (on, z) refl
      | inr (zpid, z) ↦ rw (on, z, differs s delete_zillow n, not_deleted u d) refl
    ]
    | inr off ↦ rw off refl
  ];
  unlinked = λ h. elim h [
    | inl off ↦ rw off refl
    | inr z ↦ elim (Bool-cases w.listings_service) [
      | inl on ↦ rw (on, z) refl
      | inr off ↦ rw off refl
    ]
  ];
}
