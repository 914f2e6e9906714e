-- ===== src/Friends.antt =====
-- The friend list of bin/atel.mjs: loadFriends, addFriend, removeFriend, isFriend, and the limit on
-- friend requests. The state is the list in friends.json (a missing or unreadable file is empty); the
-- log, the platform's copy and the notifications are left out.
pub mod Laws
use atel_sdk.Base.{
  ℕ, ◌+◌, String, Bool, true, false, not, ◌&&◌, Option, none, some, List, [], ◌∷◌, ◌++◌, filter,
  some_of, length, ltb, leb, ◌==◌, truthy, if◌then◌else◌,
}

pub record Friend : Type 0 where
  pub did : String
  pub alias : String
  pub status : String
  pub added_at : String
  pub added_by : String
  pub notes : String

-- `text || fallback`, with `none` for undefined
unfoldable pub text_or : Option String → String → String
text_or none fallback = fallback
text_or (some s) fallback = if truthy s then s else fallback

pub record FriendOptions : Type 0 where
  pub alias : Option String
  pub added_by : Option String
  pub notes : Option String

unfoldable pub new_friend : String → String → FriendOptions → Friend
new_friend did now options = record {
  did = did;
  alias = text_or options.alias "";
  status = "accepted";
  added_at = now;
  added_by = text_or options.added_by "manual";
  notes = text_or options.notes "";
}

-- Whether a friend was added, and the list after the call.
unfoldable pub add_friend : String → String → FriendOptions → List Friend → Bool × List Friend
add_friend did now options friends =
    if some_of (λ f. f.did == did) friends
    then (false, friends)
    else (true, friends ++ new_friend did now options ∷ [])

unfoldable pub remove_friend : String → List Friend → Bool × List Friend
remove_friend did friends =
    let kept = filter (λ f. not (f.did == did)) friends in
    if ltb (length kept) (length friends) then (true, kept) else (false, friends)

unfoldable pub is_friend : String → List Friend → Bool
is_friend did friends = some_of (λ f. f.did == did && (f.status == "accepted")) friends

-- A received request, as far as the limit reads it; the time is in milliseconds.
pub record IncomingRequest : Type 0 where
  pub sender : String
  pub received_at : ℕ

-- Received after `now - 3600000`.
unfoldable pub recent_requests : ℕ → String → List IncomingRequest → List IncomingRequest
recent_requests now from requests =
    filter (λ r. r.sender == from && ltb now (r.received_at + 3600000)) requests

-- checkFriendRequestRateLimit: whether the request is allowed. `none` is a file without `incoming`.
unfoldable pub check_friend_request_rate_limit : ℕ → String → Option (List IncomingRequest) → Bool
check_friend_request_rate_limit now from none = true
check_friend_request_rate_limit now from (some incoming) =
    not (leb 10 (length (recent_requests now from incoming)))
