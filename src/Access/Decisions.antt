-- ===== src/Access/Decisions.antt =====
-- Whom checkP2PAccess and checkP2PMessageAccess of bin/atel.mjs let in.
use atel_sdk.Base.{
  ◌≤◌, ◌<◌, String, ◌≡◌, ◌↔◌, ◌⊎◌, inl, inr, refl, Bool, true, false, Option, none, some, List,
  find, arith, truthy, eq_iff, if◌then◌else◌, subst,
}
use atel_sdk.Friends.{Friend, is_friend}
use atel_sdk.Sessions.{TempSession, SessionStore, is_active, get_active_temp_session}
use atel_sdk.Sessions.Cache.{IsCoherent, get_active_temp_session-IsCoherent}
use atel_sdk.Access.{
  AccessPolicy, RelationshipPolicy, Reason, Clock, is_allowed, is_blocked, policy_or_default,
  message_access, check_p2p_message_access,
}

-- A session that still admits a task.
abbrev pub HasTask : Clock → TempSession → Type 0
HasTask clock s = (clock.check ≤ s.expires_at) × (s.task_count < s.max_tasks)

abbrev pub AdmitsTask : Clock → RelationshipPolicy → Option TempSession → Type 0
AdmitsTask clock rel none = (rel.default_mode ≡ "open") × (rel.open_mode_requires_confirm ≡ false)
AdmitsTask clock rel (some s) = HasTask clock s

gate :
    (blocked listed : Bool) (x y z : Reason × SessionStore) {A : Type 0}
    → is_allowed x.0 ≡ false
    → is_allowed y.0 ≡ true
    → (is_allowed z.0 ≡ true) ↔ A
    → (is_allowed (if blocked then x else if listed then y else z).0 ≡ true)
      ↔ ((blocked ≡ false) × ((listed ≡ true) ⊎ A))
gate true listed x y z h k l = (λ m. ground arith, λ m. ground arith)
gate false true x y z h k l = (λ m. (refl, inl refl), λ m. k)
gate false false x y z {A} h k l = (λ m. (refl, inr (l.0 m)), λ (_, m). l.1 (right m))
  where
    right : (false ≡ true) ⊎ A → A
    right (inl e) = ground arith
    right (inr a) = a

abbrev pub AdmitsMessage : Clock → RelationshipPolicy → Option TempSession → Type 0
AdmitsMessage clock rel none = rel.default_mode ≡ "open"
AdmitsMessage clock rel (some s) = clock.check ≤ s.expires_at

message_access-allowed :
    (clock : Clock) (rel : RelationshipPolicy) (found : Option TempSession) (store : SessionStore)
    → (is_allowed (message_access clock rel found store).0 ≡ true) ↔ AdmitsMessage clock rel found
unfolding message_access
message_access-allowed clock rel none store =
    (λ h. ground (arith, eq_iff rel.default_mode "open"), λ mode. rw mode)
message_access-allowed clock rel (some s) store = (λ h. ground arith, λ h. ground arith)

-- A message with a sender is let in exactly when the sender is not blocked and is a friend, or has an
-- active session in the file that has not expired, or has none and the agent is open to strangers.
pub check_p2p_message_access_iff :
    (clock : Clock) (from : String) (policy : AccessPolicy) (friends : List Friend)
    (store : SessionStore)
    → IsCoherent store
    → truthy from ≡ true
    → (is_allowed (check_p2p_message_access clock from policy friends store).0 ≡ true) ↔ (
        (is_blocked policy from ≡ false)
        × ((is_friend from friends ≡ true)
            ⊎ AdmitsMessage clock
                (policy_or_default policy.relationship_policy)
                (find (is_active clock.lookup from) store.file)))
unfolding check_p2p_message_access
check_p2p_message_access_iff clock from policy friends store h named =
    let rel = policy_or_default policy.relationship_policy in
    let (same, _, _) =
      get_active_temp_session-IsCoherent clock.cache_read clock.lookup from store h in
    subst
      (λ found. (is_allowed (check_p2p_message_access clock from policy friends store).0 ≡ true) ↔ (
        (is_blocked policy from ≡ false)
        × ((is_friend from friends ≡ true) ⊎ AdmitsMessage clock rel found)))
      same
      (rw named (
        gate (is_blocked policy from) (is_friend from friends) _ _ _ refl refl (
          message_access-allowed clock rel
            (get_active_temp_session clock.cache_read clock.lookup from store).0 _)))
