-- ===== src/Access/Budget.antt =====
-- Runs of checks of bin/atel.mjs, and the tasks that a peer's sessions admit over one.
use atel_sdk.Base.{ℕ, ◌+◌, ◌≤◌, String, List, [], ◌∷◌, ◌==◌, if◌then◌else◌}
use atel_sdk.Friends.{Friend}
use atel_sdk.Sessions.{SessionStore}
use atel_sdk.Sessions.Cache.{IsCoherent}
use atel_sdk.Sessions.Budget.{tasks_left, IsDistinct}
use atel_sdk.Access.{
  AccessPolicy, Reason, Clock, temp_session, check_p2p_access, check_p2p_message_access,
}

-- One check that the agent makes: of a task or of a message.
pub data Check : Type 0 where
  task message : Clock → String → AccessPolicy → List Friend → Check

abbrev pub result : Check → SessionStore → Reason × SessionStore
result (task clock from policy friends) store = check_p2p_access clock from policy friends store
result (message clock from policy friends) store =
    check_p2p_message_access clock from policy friends store

abbrev pub sender : Check → String
sender (task clock from policy friends) = from
sender (message clock from policy friends) = from

-- 1 for a task let in by a temporary session.
abbrev pub by_session : Reason → ℕ
by_session (temp_session id remaining) = 1
by_session _ = 0

-- How many tasks of a DID are let in by its sessions, in a sequence of checks.
abbrev pub admitted : String → List Check → SessionStore → ℕ
admitted did [] store = 0
admitted did (check ∷ checks) store =
    let rest = admitted did checks (result check store).1 in
    if sender check == did then by_session (result check store).0 + rest else rest

abbrev IsGood : SessionStore → Type 0
IsGood store = IsCoherent store × IsDistinct store.file

-- What one outcome keeps: the store is good, and the DID's tasks pay for what was admitted.
abbrev Pays : String → String → SessionStore → Reason × SessionStore → Type 0
Pays did from store r =
    IsGood r.1
    × ((if from == did then by_session r.0 else 0) + tasks_left did r.1.file
        ≤ tasks_left did store.file)
