-- ===== src/DealStatus/Walks.antt =====
-- Sequences of accepted moves: which statuses a deal can reach, and by whom.
use adus_be.Prelude.{◌≡◌, ◌≢◌, ◌⊎◌, inl, inr, refl, true, false, List, [], ◌∷◌, String, ok}
use adus_be.DealStatus.{
  DealStatus, template_generated, analyst_started, analyst_completed, maybe, re_forecast_revenue,
  present_to_clients, client_under_contract, previously_underwritten_no_status, member,
  deal_status_transitions, role_allowed_targets, validate_transition,
}
use mathlib.Core.Path.{subst}
use adus_be.DealStatus.Policy.{validate_transition_iff}

-- Moves that `validate_transition` accepts, all by roles that `P` admits.
pub data Walk (P : String → Type 0) (s : DealStatus) : DealStatus → Type 0 where
  stay : Walk P s s
  move :
      {t u : DealStatus} (role : String)
      → Walk P s t
      → P role
      → validate_transition t u role ≡ ok tt
      → Walk P s u

abbrev pub Anyone : String → Type 0
Anyone role = Unit {0}

abbrev pub IsAnalyst : String → Type 0
IsAnalyst role = role ≡ "analyst"

-- the statuses at which an analyst's work stands
abbrev pub analyst_area : List DealStatus
analyst_area =
    template_generated ∷ analyst_started ∷ analyst_completed ∷ maybe ∷ re_forecast_revenue ∷ []

analyst_target :
    (u : DealStatus)
    → member u (role_allowed_targets "analyst") ≡ true
    → member u analyst_area ≡ true
unfolding member role_allowed_targets
analyst_target template_generated h = refl
analyst_target analyst_started h = refl
analyst_target _ h = first_of (cc, search (refl))

-- From a deal that stands in the analyst's area, no sequence of moves by an analyst leaves that area:
-- presenting, contracting and deleting a deal need another role.
pub analyst_stays_in_area :
    {s t : DealStatus}
    → Walk IsAnalyst s t
    → member s analyst_area ≡ true
    → member t analyst_area ≡ true
analyst_stays_in_area stay h = h
analyst_stays_in_area (move {t = t} {u = u} role w p v) h = analyst_target u (
    subst (λ r. member u (role_allowed_targets r) ≡ true) p
      ((validate_transition_iff t u role).0 v).1)

into_contract :
    (t : DealStatus)
    → member client_under_contract (deal_status_transitions t) ≡ true
    → t ≡ present_to_clients
unfolding member deal_status_transitions
into_contract present_to_clients h = refl
into_contract template_generated h = cc
into_contract _ h = cc

no_way_back :
    (t : DealStatus)
    → (member template_generated (deal_status_transitions t) ≡ false)
      × (member previously_underwritten_no_status (deal_status_transitions t) ≡ false)
unfolding member deal_status_transitions
no_way_back template_generated = (refl, refl)
no_way_back _ = (refl, refl)

-- the walk, ends included, is at the status `v` at some time
abbrev pub Visits : {P : String → Type 0} {s t : DealStatus} → DealStatus → Walk P s t → Type 0
Visits {s = s} v stay = s ≡ v
Visits v (move {u = u} role w p accepted) = (u ≡ v) ⊎ Visits v w

Visits-end :
    {P : String → Type 0} {s t : DealStatus} (v : DealStatus) (w : Walk P s t) → t ≡ v → Visits v w
Visits-end v stay e = e
Visits-end v (move role w p accepted) e = inl e

-- Whatever moves and roles bring a deal from another status under contract, it was presented to clients
-- on that way.
pub contract_needs_presentation :
    {s t : DealStatus} (w : Walk Anyone s t)
    → t ≡ client_under_contract
    → s ≢ client_under_contract
    → Visits present_to_clients w
contract_needs_presentation stay e n = absurd (n e)
contract_needs_presentation {s} (move {t = t} {u = u} role w p v) e n =
    let q = ((validate_transition_iff t u role).0 v).0 in
    inr (
      Visits-end present_to_clients w
        (into_contract t (subst (λ x. member x (deal_status_transitions t) ≡ true) e q)))

never_return :
    {s t : DealStatus}
    → Walk Anyone s t
    → (t ≡ template_generated) ⊎ (t ≡ previously_underwritten_no_status)
    → s ≡ t
never_return stay e = refl
never_return (move {t = t} {u = u} role w p v) (inl e) = cc (
  (no_way_back t).0,
  subst (λ x. member x (deal_status_transitions t) ≡ true) e
      ((validate_transition_iff t u role).0 v).0,
)
never_return (move {t = t} {u = u} role w p v) (inr e) = cc (
  (no_way_back t).1,
  subst (λ x. member x (deal_status_transitions t) ≡ true) e
      ((validate_transition_iff t u role).0 v).0,
)

-- A deal that moved to another status, by whatever moves and roles, is at neither of the two statuses
-- that only creation or an import gives.
pub entry_statuses_never_return :
    {s t : DealStatus}
    → Walk Anyone s t
    → s ≢ t
    → (t ≢ template_generated) × (t ≢ previously_underwritten_no_status)
entry_statuses_never_return w n = (λ e. n (never_return w (inl e)), λ e. n (never_return w (inr e)))
