-- ===== src/DealStatus.antt =====
-- Deal statuses (app/iron_bank/enums.py, app/iron_bank/schemas/deal_status.py) and the service that
-- says which status may follow which (app/iron_bank/services/deal_status_service.py).
pub mod Policy
pub mod Walks
use adus_be.Prelude.{
  ℕ, ◌≡◌, ◌↔◌, refl, ap, Bool, true, false, ◌&&◌, ◌||◌, Option, none, some, List, [], ◌∷◌, map,
  String, str_eq, contains, filter, any, if◌then◌else◌, Result, ok, err, ◌>>=◌, ◌>>◌, traverse,
  eq_iff, str_eq_refl, arith,
}

pub data DealStatus : Type 0 where
  template_generated analyst_started analyst_completed delete_zillow delete_deal maybe : DealStatus
  re_forecast_revenue awaiting_realtor_details present_to_clients : DealStatus
  client_under_contract training_deal previously_underwritten_no_status : DealStatus

-- The text of a member, which is what rows and payloads hold.
unfoldable pub value : DealStatus → String
value template_generated = "template_generated"
value analyst_started = "analyst_started"
value analyst_completed = "analyst_completed"
value delete_zillow = "delete_zillow"
value delete_deal = "delete_deal"
value maybe = "maybe"
value re_forecast_revenue = "re_forecast_revenue"
value awaiting_realtor_details = "awaiting_realtor_details"
value present_to_clients = "present_to_clients"
value client_under_contract = "client_under_contract"
value training_deal = "training_deal"
value previously_underwritten_no_status = "previously_underwritten_no_status"

-- Two members of a `StrEnum` are compared by their texts.
unfoldable pub same : DealStatus → DealStatus → Bool
unfolding value
same a b = str_eq (value a) (value b)

-- `status in targets`
unfoldable pub member : DealStatus → List DealStatus → Bool
unfolding same
member s targets = any (same s) targets

pub data StatusError : Type 0 where
  unknown_status transition_error : StatusError

pub record DealStatusOption : Type 0 where
  pub key : String
  pub label : String
  pub sort_order : ℕ

pub record DealStatusTransitionsResult : Type 0 where
  pub current_status : String
  pub actor_role : String
  pub allowed_transitions : List DealStatusOption

abbrev pub status_options : List (DealStatus × String × ℕ)
status_options =
    (template_generated, "Template Generated", 1)
    ∷ (analyst_started, "Analyst Started", 2)
    ∷ (analyst_completed, "Analyst Completed", 3)
    ∷ (delete_zillow, "Delete - Zillow", 4)
    ∷ (delete_deal, "Delete - Deal", 5)
    ∷ (maybe, "Maybe", 6)
    ∷ (re_forecast_revenue, "Re-Forecast Revenue", 7)
    ∷ (awaiting_realtor_details, "Awaiting Realtor Details", 8)
    ∷ (present_to_clients, "Present To Clients", 9)
    ∷ (client_under_contract, "Client Under Contract", 10)
    ∷ (training_deal, "Training Deal", 11)
    ∷ (previously_underwritten_no_status, "Previously Underwritten - No Status", 12)
    ∷ []

-- `for status in DealStatus`
abbrev pub all_statuses : List DealStatus
all_statuses =
    template_generated ∷ analyst_started ∷ analyst_completed ∷ delete_zillow ∷ delete_deal ∷ maybe
    ∷ re_forecast_revenue ∷ awaiting_realtor_details ∷ present_to_clients ∷ client_under_contract
    ∷ training_deal ∷ previously_underwritten_no_status ∷ []

-- DEAL_STATUS_TRANSITIONS
unfoldable pub deal_status_transitions : DealStatus → List DealStatus
deal_status_transitions template_generated =
    analyst_started ∷ training_deal ∷ delete_zillow ∷ delete_deal ∷ []
deal_status_transitions analyst_started =
    analyst_completed ∷ maybe ∷ re_forecast_revenue ∷ delete_zillow ∷ delete_deal ∷ []
deal_status_transitions analyst_completed =
    awaiting_realtor_details ∷ present_to_clients ∷ maybe ∷ re_forecast_revenue ∷ delete_deal ∷ []
deal_status_transitions awaiting_realtor_details =
    present_to_clients ∷ re_forecast_revenue ∷ maybe ∷ delete_deal ∷ []
deal_status_transitions present_to_clients =
    client_under_contract ∷ maybe ∷ re_forecast_revenue ∷ delete_deal ∷ []
deal_status_transitions maybe = analyst_started ∷ re_forecast_revenue ∷ delete_deal ∷ []
deal_status_transitions re_forecast_revenue = analyst_started ∷ analyst_completed ∷ delete_deal ∷ []
deal_status_transitions client_under_contract = []
deal_status_transitions training_deal = []
deal_status_transitions delete_zillow = []
deal_status_transitions delete_deal = []
deal_status_transitions previously_underwritten_no_status = []

abbrev has_no_targets : List DealStatus → Bool
has_no_targets [] = true
has_no_targets (s ∷ l) = false

-- TERMINAL_DEAL_STATUSES, a set of texts
unfoldable pub terminal_deal_statuses : List String
unfolding deal_status_transitions value
terminal_deal_statuses =
    map value (filter (λ s. has_no_targets (deal_status_transitions s)) all_statuses)

-- ROLE_ALLOWED_TARGETS.get(actor_role, set())
unfoldable pub role_allowed_targets : String → List DealStatus
role_allowed_targets role =
    if str_eq role "analyst"
    then analyst_started ∷ analyst_completed ∷ maybe ∷ re_forecast_revenue ∷ []
    else if str_eq role "approver"
    then awaiting_realtor_details ∷ present_to_clients ∷ client_under_contract ∷ maybe
      ∷ re_forecast_revenue ∷ []
    else if str_eq role "admin"
    then all_statuses
    else []

to_option_in : DealStatus → List (DealStatus × String × ℕ) → Result StatusError DealStatusOption
to_option_in status [] = err unknown_status
to_option_in status ((candidate, label, sort_order) ∷ rest) =
    if same candidate status
    then ok (record { key = value status; label = label; sort_order = sort_order })
    else to_option_in status rest

unfoldable pub to_option : DealStatus → Result StatusError DealStatusOption
unfolding to_option_in same value
to_option status = to_option_in status status_options

unfoldable pub list_status_options : Result StatusError (List DealStatusOption)
unfolding to_option
list_status_options = traverse (λ o. to_option o.0) status_options

-- `status in allowed`, where `allowed = valid_targets & role_targets`
unfoldable pub is_allowed : DealStatus → String → DealStatus → Bool
is_allowed current_status actor_role status =
    member status (deal_status_transitions current_status)
    && member status (role_allowed_targets actor_role)

unfoldable pub get_allowed_transitions :
    DealStatus → String → Result StatusError DealStatusTransitionsResult
unfolding to_option is_allowed
get_allowed_transitions current_status actor_role = do
  options ←
      traverse (λ o. to_option o.0)
        (filter (λ o. is_allowed current_status actor_role o.0) status_options)
  ok (record {
    current_status = value current_status;
    actor_role = actor_role;
    allowed_transitions = options;
  })

unfoldable pub validate_transition :
    DealStatus → DealStatus → String → Result StatusError (Unit {0})
unfolding get_allowed_transitions contains
validate_transition current_status next_status actor_role = do
  result ← get_allowed_transitions current_status actor_role
  let allowed = map (λ (o : DealStatusOption). o.key) result.allowed_transitions
  if contains (value next_status) allowed then ok tt else err transition_error

-- `DealStatus(text)`, which raises on any other text
unfoldable pub of_value : String → Option DealStatus
of_value text =
    if str_eq text "template_generated"
    then some template_generated
    else if str_eq text "analyst_started"
    then some analyst_started
    else if str_eq text "analyst_completed"
    then some analyst_completed
    else if str_eq text "delete_zillow"
    then some delete_zillow
    else if str_eq text "delete_deal"
    then some delete_deal
    else if str_eq text "maybe"
    then some maybe
    else if str_eq text "re_forecast_revenue"
    then some re_forecast_revenue
    else if str_eq text "awaiting_realtor_details"
    then some awaiting_realtor_details
    else if str_eq text "present_to_clients"
    then some present_to_clients
    else if str_eq text "client_under_contract"
    then some client_under_contract
    else if str_eq text "training_deal"
    then some training_deal
    else if str_eq text "previously_underwritten_no_status"
    then some previously_underwritten_no_status
    else none

pub of_value-value : (s : DealStatus) → of_value (value s) ≡ some s
unfolding of_value value
of_value-value template_generated = refl
of_value-value analyst_started = refl
of_value-value _ = refl

pub value-injective : (a b : DealStatus) → value a ≡ value b → a ≡ b
value-injective a b h = cc (of_value-value a, of_value-value b, ap of_value h)

pub same_iff : (a b : DealStatus) → (same a b ≡ true) ↔ (a ≡ b)
unfolding same
same_iff a b = (λ h. value-injective a b ((eq_iff _ _).0 h), λ e. (eq_iff _ _).1 (ap value e))
