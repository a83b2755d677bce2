-- ===== src/Reachability.antt =====
-- helpers.py, the reachability of a connection: the count of consecutive failures that lives on the
-- shared adapter, the repair issue, and the entities that follow the dispatcher signal
-- (`_async_reachability_changed` of conversation.py and ai_task.py). What is logged is not modelled.
pub mod Laws
use llm_middleman.Base.{
  ℕ, ◌+◌, Bool, true, false, not, List, [], ◌∷◌, ltb, leb, ◌==◌, if◌then◌else◌,
}
use llm_middleman.Error.{
  Exc, raised, raised_from, class_of, is_client_connection_error, is_auth_error,
}

-- UNREACHABLE_ISSUE_THRESHOLD of const.py
abbrev pub unreachable_issue_threshold : ℕ
unreachable_issue_threshold = 3

-- `adapter.unreachable_turns`, whether the issue registry holds this connection's issue, the
-- `_attr_available` of its entities, the reauth flows asked for and the signals sent.
pub record Connection : Type 0 where
  pub unreachable_turns : ℕ
  pub issue : Bool
  pub available : Bool
  pub reauths : ℕ
  pub signals : ℕ

-- The error, or an error that it was raised from, is a transport failure.
unfoldable pub is_unreachable : Exc → Bool
is_unreachable (raised c) = is_client_connection_error c
is_unreachable (raised_from c cause) =
    if is_client_connection_error c then true else is_unreachable cause

unfoldable pub async_start_reauth_on_auth_error : Connection → Exc → Connection
async_start_reauth_on_auth_error s err =
    if is_auth_error (class_of err) then record s { reauths = s.reauths + 1 } else s

-- The registry keeps one issue under an id: to create it again, or to delete none, changes nothing.
abbrev pub async_create_unreachable_issue : Connection → Connection
async_create_unreachable_issue s = record s { issue = true }

abbrev pub async_delete_unreachable_issue : Connection → Connection
async_delete_unreachable_issue s = record s { issue = false }

-- `async_dispatcher_send`: every entity of the connection runs `_async_reachability_changed`.
unfoldable pub send_reachability_changed : Connection → Connection
send_reachability_changed s = record s {
  available = s.unreachable_turns == 0;
  signals = s.signals + 1;
}

unfoldable pub async_record_backend_reached : Connection → Connection
unfolding send_reachability_changed
async_record_backend_reached s =
    let was_down = ltb 0 s.unreachable_turns in
    let s' = async_delete_unreachable_issue (record s { unreachable_turns = 0 }) in
    if was_down then send_reachability_changed s' else s'

-- `adapter.unreachable_turns += 1` and what follows it.
unfoldable pub record_unreachable : Connection → Connection
unfolding send_reachability_changed
record_unreachable s =
    let counted = record s { unreachable_turns = s.unreachable_turns + 1 } in
    let told =
      if counted.unreachable_turns == 1 then send_reachability_changed counted else counted in
    if leb unreachable_issue_threshold told.unreachable_turns
    then async_create_unreachable_issue told
    else told

unfoldable pub async_record_backend_failure : Connection → Exc → Connection
unfolding async_start_reauth_on_auth_error async_record_backend_reached record_unreachable
async_record_backend_failure s err =
    let s' = async_start_reauth_on_auth_error s err in
    if not (is_unreachable err) then async_record_backend_reached s' else record_unreachable s'

-- `async_setup_entry` of __init__.py: a fresh adapter and fresh entities, over the same registry.
unfoldable pub reload : Connection → Connection
unfolding async_record_backend_reached
reload s = async_record_backend_reached (record s { unreachable_turns = 0; available = true })

-- A connection that was just added.
abbrev pub new_connection : Connection
new_connection = record {
  unreachable_turns = 0;
  issue = false;
  available = true;
  reauths = 0;
  signals = 0;
}

-- The end of a round-trip, or a reload between two.
pub data Outcome : Type 0 where
  reached : Outcome
  failure : Exc → Outcome
  reloaded : Outcome

unfoldable pub record_outcome : Connection → Outcome → Connection
unfolding async_record_backend_failure async_record_backend_reached reload
record_outcome s reached = async_record_backend_reached s
record_outcome s (failure err) = async_record_backend_failure s err
record_outcome s reloaded = reload s

unfoldable pub record_outcomes : Connection → List Outcome → Connection
record_outcomes s [] = s
record_outcomes s (o ∷ os) = record_outcomes (record_outcome s o) os
