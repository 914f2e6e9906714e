-- ===== src/Access.antt =====
-- Who may reach the agent: checkP2PAccess and checkP2PMessageAccess of bin/atel.mjs. A result keeps
-- its reason; its message, hint and code go with the reason. The log is left out.
pub mod Decisions
pub mod Budget
use atel_sdk.Base.{
  ℕ, ◌-◌, String, Bool, true, false, not, ◌&&◌, Option, none, some, List, [], ◌∷◌, includes, length,
  ltb, leb, ◌==◌, truthy, if◌then◌else◌,
}
use atel_sdk.Friends.{Friend, is_friend}
use atel_sdk.Sessions.{
  TempSession, SessionStore, get_active_temp_session, remove_temp_session,
  increment_temp_session_task_count,
}

pub record RelationshipPolicy : Type 0 where
  pub default_mode : String
  pub open_mode_requires_confirm : Bool

-- A missing list of blocked DIDs is empty.
pub record AccessPolicy : Type 0 where
  pub blocked_dids : List String
  pub relationship_policy : Option RelationshipPolicy

pub data Reason : Type 0 where
  unknown_sender did_blocked friend temp_session_expired temp_session_limit_reached : Reason
  not_friend requires_confirm open_mode : Reason
  -- the session's identifier, and the tasks that remain after this one
  temp_session : String → ℕ → Reason
  message_session : String → Reason

-- The result's `allowed`.
abbrev pub is_allowed : Reason → Bool
is_allowed friend = true
is_allowed open_mode = true
is_allowed (temp_session id remaining) = true
is_allowed (message_session id) = true
is_allowed _ = false

abbrev pub default_relationship_policy : RelationshipPolicy
default_relationship_policy = record {
  default_mode = "friends_only";
  open_mode_requires_confirm = true;
}

abbrev pub policy_or_default : Option RelationshipPolicy → RelationshipPolicy
policy_or_default none = default_relationship_policy
policy_or_default (some p) = p

abbrev pub is_blocked : AccessPolicy → String → Bool
is_blocked policy from = ltb 0 (length policy.blocked_dids) && includes policy.blocked_dids from

-- The clock as the calls of one check read it, in order.
pub record Clock : Type 0 where
  pub cache_read : ℕ
  pub lookup : ℕ
  pub check : ℕ
  pub count : ℕ

-- The two modes for a stranger, and the denial of any other.
unfoldable pub stranger_access : RelationshipPolicy → Reason
stranger_access rel =
    if rel.default_mode == "friends_only"
    then not_friend
    else if rel.default_mode == "open"
    then (if rel.open_mode_requires_confirm then requires_confirm else open_mode)
    else not_friend

-- With the session that was found, if any.
unfoldable pub session_access :
    Clock → RelationshipPolicy → Option TempSession → SessionStore → Reason × SessionStore
session_access clock rel none store = (stranger_access rel, store)
session_access clock rel (some s) store =
    if ltb s.expires_at clock.check
    then (temp_session_expired, (remove_temp_session s.session_id store).1)
    else if leb s.max_tasks s.task_count
    then (temp_session_limit_reached, store)
    else (
      temp_session s.session_id (s.max_tasks - s.task_count - 1),
      increment_temp_session_task_count clock.count s.session_id store,
    )

unfoldable pub check_p2p_access :
    Clock → String → AccessPolicy → List Friend → SessionStore → Reason × SessionStore
check_p2p_access clock from policy friends store =
    let found = get_active_temp_session clock.cache_read clock.lookup from store in
    if is_blocked policy from
    then (did_blocked, store)
    else if is_friend from friends
    then (friend, store)
    else session_access clock (policy_or_default policy.relationship_policy) found.0 found.1

unfoldable pub message_access :
    Clock → RelationshipPolicy → Option TempSession → SessionStore → Reason × SessionStore
message_access clock rel none store =
    if rel.default_mode == "open" then (open_mode, store) else (not_friend, store)
message_access clock rel (some s) store =
    if ltb s.expires_at clock.check
    then (temp_session_expired, (remove_temp_session s.session_id store).1)
    else (message_session s.session_id, store)

unfoldable pub check_p2p_message_access :
    Clock → String → AccessPolicy → List Friend → SessionStore → Reason × SessionStore
check_p2p_message_access clock from policy friends store =
    let found = get_active_temp_session clock.cache_read clock.lookup from store in
    if not (truthy from)
    then (unknown_sender, store)
    else if is_blocked policy from
    then (did_blocked, store)
    else if is_friend from friends
    then (friend, store)
    else message_access clock (policy_or_default policy.relationship_policy) found.0 found.1
