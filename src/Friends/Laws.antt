-- ===== src/Friends/Laws.antt =====
-- What addFriend and removeFriend of bin/atel.mjs do to isFriend.
use atel_sdk.Base.{
  String, ◌≡◌, refl, false, not, ◌&&◌, ◌||◌, List, [], ◌∷◌, filter, some_of, length, ◌==◌, eq_iff,
  arith, some_of-append, length-filter-le, if◌then◌else◌,
}
use atel_sdk.Friends.{Friend, FriendOptions, new_friend, add_friend, remove_friend, is_friend}

-- Adding a DID that is not in the list makes it a friend; adding one that is there, also when its
-- status is another than accepted, changes nothing. No other DID is affected.
pub is_friend-add_friend :
    (did now d : String) (options : FriendOptions) (friends : List Friend)
    → let listed = some_of (λ f. f.did == did) friends in
      let result = add_friend did now options friends in
      (result.0 ≡ not listed)
      × (is_friend d result.1 ≡ (is_friend d friends || (not listed && (did == d))))
unfolding add_friend is_friend new_friend
is_friend-add_friend did now d options friends = ground (
  arith,
  some_of-append (λ f. f.did == d && (f.status == "accepted")) friends
      (new_friend did now options ∷ []),
)

all_kept :
    (did : String) (friends : List Friend)
    → length (filter (λ f. not (f.did == did)) friends) ≡ length friends
    → filter (λ f. not (f.did == did)) friends ≡ friends
all_kept did [] h = refl
all_kept did (f ∷ friends) h =
    ground (arith, all_kept did friends, length-filter-le (λ f. not (f.did == did)) friends)

some_of-filter-other :
    (did d : String) (friends : List Friend)
    → is_friend d (filter (λ f. not (f.did == did)) friends)
      ≡ (if did == d then false else is_friend d friends)
unfolding is_friend
some_of-filter-other did d [] = ground arith
some_of-filter-other did d (f ∷ friends) =
    ground
      (arith, eq_iff did d, eq_iff f.did did, eq_iff f.did d, some_of-filter-other did d friends)

-- After a removal the DID is no friend, whether or not it was one, and the others are as before.
pub is_friend-remove_friend :
    (did d : String) (friends : List Friend)
    → is_friend d (remove_friend did friends).1 ≡ (if did == d then false else is_friend d friends)
unfolding remove_friend
is_friend-remove_friend did d friends = ground (
  arith,
  some_of-filter-other did d friends,
  all_kept did friends,
  length-filter-le (λ f. not (f.did == did)) friends,
)
