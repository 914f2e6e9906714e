-- ===== src/Tests/Peers.antt =====
-- The theorems on friends, sessions and access at two peers.
use atel_sdk.Base.{none, some, List, [], ◌∷◌}
use atel_sdk.Friends.{Friend, FriendOptions, new_friend}
use atel_sdk.Sessions.{TempSession, SessionStore, SessionOptions, new_session}
use atel_sdk.Access.{AccessPolicy, Clock}
use atel_sdk.Access.Budget.{Check, task, message}

abbrev plain : FriendOptions
plain = record { alias = none; added_by = none; notes = none }

abbrev friends : List Friend
friends = new_friend "carol" "2026" plain ∷ []

abbrev options : SessionOptions
options = record { duration_minutes = none; max_tasks = some 2; created_by = none; notes = none }

-- One session of two tasks, freshly cached.
abbrev sessions : List TempSession
sessions = new_session "s1" "bob" 1000 options ∷ []

abbrev store : SessionStore
store = record { file = sessions; cache = some (sessions, 1000) }

abbrev policy : AccessPolicy
policy = record { blocked_dids = []; relationship_policy = none }

abbrev clock : Clock
clock = record { cache_read = 2000; lookup = 2000; check = 2000; count = 2000 }

abbrev checks : List Check
checks =
    task clock "bob" policy friends
    ∷ message clock "bob" policy friends
    ∷ task clock "bob" policy friends
    ∷ task clock "bob" policy friends
    ∷ []
