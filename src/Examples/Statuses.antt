-- ===== src/Examples/Statuses.antt =====
-- The deal-status policy on concrete statuses and roles.
use adus_be.Prelude.{◌≡◌, ◌↔◌, refl, true, contains, ok, err}
use adus_be.DealStatus.{
  DealStatus, template_generated, analyst_started, maybe, present_to_clients, client_under_contract,
  value, member, is_allowed, deal_status_transitions, role_allowed_targets, get_allowed_transitions,
  validate_transition, transition_error,
}
use adus_be.DealStatus.{analyst_completed}
use adus_be.DealStatus.Policy.{validate_transition_iff}
use adus_be.DealStatus.Walks.{
  Walk, stay, move, Visits, Anyone, IsAnalyst, contract_needs_presentation,
}

validate_transition_iff_example :
    (validate_transition analyst_started maybe "analyst" ≡ ok tt)
    ↔ (member maybe (deal_status_transitions analyst_started) ≡ true)
      × (member maybe (role_allowed_targets "analyst") ≡ true)
validate_transition_iff_example = validate_transition_iff analyst_started maybe "analyst"

approver_may_not_start :
    validate_transition template_generated analyst_started "approver" ≡ err transition_error
unfolding validate_transition get_allowed_transitions is_allowed member deal_status_transitions
    role_allowed_targets contains value
approver_may_not_start = refl

started : validate_transition template_generated analyst_started "analyst" ≡ ok tt
started = (validate_transition_iff template_generated analyst_started "analyst").1 (listed, granted)
  where
    listed : member analyst_started (deal_status_transitions template_generated) ≡ true
    listed = unfold member deal_status_transitions in refl

    granted : member analyst_started (role_allowed_targets "analyst") ≡ true
    granted = unfold member role_allowed_targets in refl

by_admin :
    (c n : DealStatus)
    → member n (deal_status_transitions c) ≡ true
    → member n (role_allowed_targets "admin") ≡ true
    → validate_transition c n "admin" ≡ ok tt
by_admin c n h k = (validate_transition_iff c n "admin").1 (h, k)

abbrev analyst_walk : Walk IsAnalyst template_generated analyst_started
analyst_walk = move "analyst" stay refl started

contract_walk : Walk Anyone present_to_clients client_under_contract
unfolding member deal_status_transitions role_allowed_targets
contract_walk = move "admin" stay tt (by_admin present_to_clients client_under_contract refl refl)

abbrev presented_walk : Walk Anyone analyst_completed client_under_contract
unfolding member deal_status_transitions role_allowed_targets
presented_walk =
    move "admin" (move "admin" stay tt (by_admin analyst_completed present_to_clients refl refl)) tt
      (by_admin present_to_clients client_under_contract refl refl)

contract_needs_presentation_example : Visits present_to_clients presented_walk
contract_needs_presentation_example = contract_needs_presentation presented_walk refl (λ e. cc)
