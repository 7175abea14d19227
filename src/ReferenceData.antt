-- ===== src/ReferenceData.antt =====
-- Reference data (app/core/reference_data/): the table of options and its repository. The order of the
-- database's texts is the parameter `text_less`; of rows that tie, the one stored first comes first.
pub mod Service
pub mod Filters
pub mod Freshness
pub mod Groups
use adus_be.Prelude.{
  ℕ, Bool, true, false, ◌&&◌, ◌||◌, Option, none, some, is_none, List, [], ◌∷◌, ◌++◌, String,
  str_eq, contains, ltb, ◌==◌, filter, find, if◌then◌else◌, or_else, stable_sort,
}
use adus_be.Json.{Json}

-- a row of reference.enum_options, and the session-free copy of one (`_OptionSnapshot`)
pub record EnumOption : Type 0 where
  pub id : ℕ
  pub domain : String
  pub set_code : String
  pub key : String
  pub label : String
  pub sort_order : ℕ
  pub is_active : Bool
  pub is_default : Bool
  pub metadata_json : Option Json
  pub created_at : Option ℕ
  pub updated_at : Option ℕ

pub record CreateEnumOptionPayload : Type 0 where
  pub domain : String
  pub set_code : String
  pub key : String
  pub label : String
  pub sort_order : ℕ
  pub is_active : Bool
  pub is_default : Bool
  pub metadata : Option Json

-- a field that is not sent is none
pub record UpdateEnumOptionPayload : Type 0 where
  pub label : Option String
  pub sort_order : Option ℕ
  pub is_active : Option Bool
  pub is_default : Option Bool
  pub metadata : Option (Option Json)

-- what a read asks for; no set codes are no restriction
pub record Scope : Type 0 where
  pub domain : Option String
  pub set_codes : List String
  pub include_inactive : Bool

abbrev pub in_domain : Option String → EnumOption → Bool
in_domain none o = true
in_domain (some domain) o = str_eq o.domain domain

abbrev pub in_sets : List String → EnumOption → Bool
in_sets [] o = true
in_sets (code ∷ codes) o = contains o.set_code (code ∷ codes)

abbrev pub in_scope : Scope → EnumOption → Bool
in_scope scope o =
    in_domain scope.domain o && in_sets scope.set_codes o && (scope.include_inactive || o.is_active)

module _ (text_less : String → String → Bool) where
  -- ORDER BY set_code, sort_order
  abbrev pub ordered_before : EnumOption → EnumOption → Bool
  ordered_before a b =
      text_less a.set_code b.set_code
      || (str_eq a.set_code b.set_code && ltb a.sort_order b.sort_order)

  unfoldable pub list_options : Scope → List EnumOption → List EnumOption
  list_options scope table = stable_sort ordered_before (filter (in_scope scope) table)

abbrev pub new_option : ℕ → ℕ → CreateEnumOptionPayload → EnumOption
new_option id now payload = record {
  id = id;
  domain = payload.domain;
  set_code = payload.set_code;
  key = payload.key;
  label = payload.label;
  sort_order = payload.sort_order;
  is_active = payload.is_active;
  is_default = payload.is_default;
  metadata_json = payload.metadata;
  created_at = some now;
  updated_at = some now;
}

abbrev pub with_fields : ℕ → UpdateEnumOptionPayload → EnumOption → EnumOption
with_fields now payload o = record {
  id = o.id;
  domain = o.domain;
  set_code = o.set_code;
  key = o.key;
  label = or_else payload.label o.label;
  sort_order = or_else payload.sort_order o.sort_order;
  is_active = or_else payload.is_active o.is_active;
  is_default = or_else payload.is_default o.is_default;
  metadata_json = or_else payload.metadata o.metadata_json;
  created_at = o.created_at;
  updated_at = some now;
}

-- the row with the id, changed in place
unfoldable pub update_rows : ℕ → ℕ → UpdateEnumOptionPayload → List EnumOption → List EnumOption
update_rows now id payload [] = []
update_rows now id payload (o ∷ rest) =
    let others = update_rows now id payload rest in
    if o.id == id then with_fields now payload o ∷ rest else o ∷ others
