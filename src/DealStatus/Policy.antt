-- ===== src/DealStatus/Policy.antt =====
-- What the transition table and the role table of deal_status_service.py allow together.
use adus_be.Prelude.{
  ◌≡◌, ◌≢◌, ◌↔◌, refl, ap, ◌∙◌, Bool, true, false, ◌&&◌, ◌||◌, List, [], ◌∷◌, map, String, ℕ,
  contains, filter, any, any-filter, ok, err, traverse, arith, if◌then◌else◌,
}
use mathlib.Core.Bool.{or-false, and-true, and-false}
use adus_be.DealStatus.{
  DealStatus, DealStatusOption, DealStatusTransitionsResult, template_generated, analyst_started,
  analyst_completed, awaiting_realtor_details, present_to_clients, maybe, re_forecast_revenue,
  value, same, member, to_option, is_allowed, get_allowed_transitions, validate_transition,
  status_options, deal_status_transitions, role_allowed_targets, terminal_deal_statuses,
  transition_error,
}

abbrev Row : Type 0
Row = DealStatus × String × ℕ

to_option_total :
    (s : DealStatus) → (o : DealStatusOption) × (to_option s ≡ ok o) × (o.key ≡ value s)
unfolding to_option
to_option_total template_generated = (_, refl, refl)
to_option_total _ = (_, refl, refl)

traverse_total :
    (l : List Row)
    → (os : List DealStatusOption) × (traverse (λ (o : Row). to_option o.0) l ≡ ok os)
      × (map (λ (o : DealStatusOption). o.key) os ≡ map (λ (o : Row). value o.0) l)
traverse_total [] = ([], refl, refl)
traverse_total (r ∷ l) =
    let (o, e, k) = to_option_total r.0 in
    let (os, es, ks) = traverse_total l in (o ∷ os, rw e (rw es refl), cc)

contains-map-value :
    (s : DealStatus) (l : List Row)
    → contains (value s) (map (λ (o : Row). value o.0) l) ≡ any (λ (o : Row). same o.0 s) l
unfolding contains same
contains-map-value s [] = refl
contains-map-value s (o ∷ l) = ap (λ b. same o.0 s || b) (contains-map-value s l)

-- every status has exactly one row in the table of options
any-status_options :
    (q : DealStatus → Bool) (s : DealStatus)
    → any (λ (o : Row). q o.0 && same o.0 s) status_options ≡ q s
unfolding same
any-status_options q template_generated = simp (and-true, and-false, or-false)
any-status_options q _ = simp (and-true, and-false, or-false)

contains-allowed :
    (c n : DealStatus) (role : String)
    → contains
        (value n)
        (map (λ (o : Row). value o.0) (filter (λ (o : Row). is_allowed c role o.0) status_options))
      ≡ is_allowed c role n
contains-allowed c n role =
    contains-map-value n _
    ∙ any-filter (λ (o : Row). same o.0 n) (λ (o : Row). is_allowed c role o.0) status_options
    ∙ any-status_options (is_allowed c role) n

-- The outcome as one test on the two tables.
pub validate_transition_lem :
    (c n : DealStatus) (role : String)
    → validate_transition c n role ≡ (if is_allowed c role n then ok tt else err transition_error)
unfolding validate_transition
validate_transition_lem c n role =
    let (os, e, k) = traverse_total (filter (λ (o : Row). is_allowed c role o.0) status_options) in
    rw e (rw (ap (contains (value n)) k ∙ contains-allowed c n role))

-- A move is accepted exactly when the table of transitions and the table of roles both list its
-- target.
pub validate_transition_iff :
    (c n : DealStatus) (role : String)
    → (validate_transition c n role ≡ ok tt)
      ↔ (member n (deal_status_transitions c) ≡ true)
        × (member n (role_allowed_targets role) ≡ true)
validate_transition_iff c n role =
    rw (validate_transition_lem c n role) (unfold is_allowed in ground arith)

-- The options offered to a role are the accepted targets: `get_allowed_transitions` succeeds for
-- every status and role, and a status is on its list exactly when `validate_transition` accepts it.
pub get_allowed_transitions_iff :
    (c : DealStatus) (role : String)
    → (r : DealStatusTransitionsResult) × (get_allowed_transitions c role ≡ ok r)
      × ((n : DealStatus)
          → (contains (value n) (map (λ (o : DealStatusOption). o.key) r.allowed_transitions)
              ≡ true)
            ↔ (validate_transition c n role ≡ ok tt))
unfolding get_allowed_transitions
get_allowed_transitions_iff c role =
    let (os, e, k) = traverse_total (filter (λ (o : Row). is_allowed c role o.0) status_options) in
    (
      record { current_status = value c; actor_role = role; allowed_transitions = os },
      rw e,
      λ n.
          rw
            (
              validate_transition_lem c n role,
              ap (contains (value n)) k ∙ contains-allowed c n role,
            )
            (ground arith),
    )

terminal_has_no_target :
    (c n : DealStatus)
    → contains (value c) terminal_deal_statuses ≡ true
    → member n (deal_status_transitions c) ≡ false
unfolding terminal_deal_statuses deal_status_transitions member contains
terminal_has_no_target template_generated n h = cc
terminal_has_no_target analyst_started n h = cc
terminal_has_no_target _ n h = first_of (cc, search (refl))

-- an administrator may make every move of the table
admin_moves :
    (c n : DealStatus)
    → member n (deal_status_transitions c) ≡ true
    → validate_transition c n "admin" ≡ ok tt
admin_moves c n h = (validate_transition_iff c n "admin").1 (h, every_status n)
  where
    every_status : (n : DealStatus) → member n (role_allowed_targets "admin") ≡ true
    every_status template_generated = unfold member role_allowed_targets in refl
    every_status _ = unfold member role_allowed_targets in refl

StaysPut : DealStatus → Type 0
StaysPut c = (n : DealStatus) (role : String) → validate_transition c n role ≢ ok tt

terminal_of_StaysPut :
    (c : DealStatus) → StaysPut c → contains (value c) terminal_deal_statuses ≡ true
unfolding terminal_deal_statuses deal_status_transitions member contains StaysPut
terminal_of_StaysPut template_generated h =
    absurd (h analyst_started "admin" (admin_moves template_generated analyst_started refl))
terminal_of_StaysPut analyst_started h =
    absurd (h maybe "admin" (admin_moves analyst_started maybe refl))
terminal_of_StaysPut analyst_completed h =
    absurd (h maybe "admin" (admin_moves analyst_completed maybe refl))
terminal_of_StaysPut awaiting_realtor_details h =
    absurd (h maybe "admin" (admin_moves awaiting_realtor_details maybe refl))
terminal_of_StaysPut present_to_clients h =
    absurd (h maybe "admin" (admin_moves present_to_clients maybe refl))
terminal_of_StaysPut maybe h =
    absurd (h analyst_started "admin" (admin_moves maybe analyst_started refl))
terminal_of_StaysPut re_forecast_revenue h =
    absurd (h analyst_started "admin" (admin_moves re_forecast_revenue analyst_started refl))
terminal_of_StaysPut _ h = refl

-- The derived set of terminal statuses holds exactly the statuses that no role can leave.
pub terminal_iff :
    (c : DealStatus)
    → (contains (value c) terminal_deal_statuses ≡ true)
      ↔ ((n : DealStatus) (role : String) → validate_transition c n role ≢ ok tt)
unfolding StaysPut
terminal_iff c = (
  λ t n role v. cc (terminal_has_no_target c n t, ((validate_transition_iff c n role).0 v).0),
  terminal_of_StaysPut c,
)
