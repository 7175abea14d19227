-- ===== src/ProcessLog.antt =====
-- The process log (app/core/process_log): the tables of models.py, the enumerations of enums.py, and
-- the errors of exceptions.py. Repository holds the statements, Service the entry points.
pub mod Repository
pub mod Service
pub mod Chain
pub mod Inserts
pub mod Record
pub mod Snapshots
pub mod Seeds
pub mod Rerun
use adus_be.Json.{Json}
use adus_be.Prelude.{
  ℕ, ◌≡◌, ◌↔◌, refl, Bool, true, false, ◌&&◌, Option, none, some, List, String, str_eq, ◌==◌,
  eq_iff, arith, if◌then◌else◌,
}

-- enums.py; the member's text is what is stored
unfoldable pub subject_type_of : String → Option String
subject_type_of text = if str_eq text "underwriting" then some text else none

unfoldable pub flow_of : String → Option String
flow_of text = if str_eq text "deal_status" then some text else none

unfoldable pub source_of : String → Option String
source_of text =
    if str_eq text "api"
    then some text
    else if str_eq text "job"
    then some text
    else if str_eq text "backfill"
    then some text
    else if str_eq text "system"
    then some text
    else none

-- `ValueError` of the service and of the enumerations, `ConcurrentTransitionError`, and any other
-- `IntegrityError` of the database.
pub data LogError : Type 0 where
  value_error concurrent_transition integrity_error : LogError

-- One chain: a subject and one of its status machines.
pub record Key : Type 0 where
  pub subject_type : String
  pub subject_id : ℕ
  pub flow : String

unfoldable pub key_eq : Key → Key → Bool
key_eq a b =
    str_eq a.subject_type b.subject_type && (a.subject_id == b.subject_id) && str_eq a.flow b.flow

pub key_eq_iff : (a b : Key) → (key_eq a b ≡ true) ↔ (a ≡ b)
unfolding key_eq
key_eq_iff a b = ground (arith, eq_iff a.subject_type b.subject_type, eq_iff a.flow b.flow)

pub key_eq_refl : (a : Key) → key_eq a a ≡ true
key_eq_refl a = (key_eq_iff a a).1 refl

-- The columns of `Transition` that a caller gives.
pub record TransitionRow : Type 0 where
  pub key : Key
  pub previous_transition_id : Option ℕ
  pub from_status : Option String
  pub to_status : String
  pub source : String
  pub actor_user_id : Option ℕ
  pub note : Option String
  pub metadata : Option Json
  pub snapshot_id : Option ℕ

pub record Transition : Type 0 where
  pub id : ℕ
  pub row : TransitionRow
  pub open row use *
  pub occurred_at : ℕ

pub record Snapshot : Type 0 where
  pub id : ℕ
  pub subject_type : String
  pub subject_id : ℕ
  pub schema_version : ℕ
  pub payload : Json
  pub payload_hash : String

-- The two tables, newest row first, with the next value of each identity column, the users that
-- `actor_user_id` may name, and the time at which the transaction began.
pub record Db : Type 0 where
  pub transitions : List Transition
  pub next_transition_id : ℕ
  pub snapshots : List Snapshot
  pub next_snapshot_id : ℕ
  pub user_ids : List ℕ
  pub now : ℕ
