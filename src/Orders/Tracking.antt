-- ===== src/Orders/Tracking.antt =====
-- What the tracked orders of bin/atel.mjs remember.
use atel_sdk.Base.{
  ℕ, String, ◌≡◌, refl, ap, ◌∙◌, true, false, not, ◌&&◌, Option, none, some, List, [], ◌∷◌, ◌++◌,
  filter, some_of, truthy, ◌==◌, eq_iff, Bool-cases, inl, inr, arith, if◌then◌else◌,
}
use atel_sdk.Orders.{TrackedOrder, is_order, set_role, track_order, untrack_order}

-- The role under which an order is tracked: that of its first entry.
abbrev pub role_of : String → List TrackedOrder → Option String
role_of wanted [] = none
role_of wanted (o ∷ orders) = if is_order wanted o then some o.role else role_of wanted orders

kept-role :
    (wanted : String) (orders : List TrackedOrder)
    → truthy wanted ≡ true
    → role_of wanted (filter (λ o. truthy o.order_id) orders) ≡ role_of wanted orders
kept-role wanted [] h = refl
kept-role wanted (o ∷ orders) h =
    ground (arith, kept-role wanted orders h, eq_iff o.order_id wanted, h)

set_role-role :
    (now : ℕ) (order_id role wanted : String) (orders : List TrackedOrder)
    → some_of (is_order order_id) orders ≡ true
    → role_of wanted (set_role now order_id role orders)
      ≡ (if order_id == wanted then some role else role_of wanted orders)
unfolding set_role
set_role-role now order_id role wanted [] h = cc
set_role-role now order_id role wanted (o ∷ orders) h = elim (Bool-cases (is_order order_id o)) [
  | inl here ↦ rw here (
      ground
        (arith, here, eq_iff o.order_id order_id, eq_iff o.order_id wanted, eq_iff order_id wanted))
  | inr other ↦ rw other (
      ground (
        arith,
        other,
        set_role-role now order_id role wanted orders (ground (arith, other, h)),
        eq_iff o.order_id order_id,
        eq_iff o.order_id wanted,
        eq_iff order_id wanted,
      ))
]

append-role :
    (wanted : String) (orders : List TrackedOrder) (o : TrackedOrder)
    → some_of (is_order o.order_id) orders ≡ false
    → role_of wanted (orders ++ o ∷ [])
      ≡ (if o.order_id == wanted then some o.role else role_of wanted orders)
append-role wanted [] o h = refl
append-role wanted (x ∷ orders) o h = ground (
  arith,
  append-role wanted orders o,
  h,
  eq_iff x.order_id o.order_id,
  eq_iff x.order_id wanted,
  eq_iff o.order_id wanted,
)

track-role :
    (now : ℕ) (order_id role wanted : String) (orders : List TrackedOrder)
    → truthy order_id ≡ true
    → truthy role ≡ true
    → truthy wanted ≡ true
    → role_of wanted (track_order now order_id role orders)
      ≡ (if order_id == wanted then some role else role_of wanted orders)
unfolding track_order
track-role now order_id role wanted orders named given asked =
    let kept = filter (λ o. truthy o.order_id) orders in
    elim (Bool-cases (some_of (is_order order_id) kept)) [
      | inl known ↦
          rw (named, given, known)
            (set_role-role now order_id role wanted kept known
              ∙ rw (kept-role wanted orders asked) refl)
      | inr new ↦
          rw (named, given, new)
            (append-role wanted kept (record { order_id = order_id; role = role; updated_at = now })
                new
              ∙ rw (kept-role wanted orders asked) refl)
    ]

untrack-role :
    (order_id wanted : String) (orders : List TrackedOrder)
    → role_of wanted (filter (λ o. not (is_order order_id o)) orders)
      ≡ (if order_id == wanted then none else role_of wanted orders)
untrack-role order_id wanted [] = ground arith
untrack-role order_id wanted (o ∷ orders) = ground (
  arith,
  untrack-role order_id wanted orders,
  eq_iff o.order_id order_id,
  eq_iff o.order_id wanted,
  eq_iff order_id wanted,
)

-- The commands that track and untrack orders, at their times.
pub data Use : Type 0 where
  track : ℕ → String → String → Use
  untrack : String → Use

abbrev pub use_all : List Use → List TrackedOrder → List TrackedOrder
use_all [] orders = orders
use_all (track now order_id role ∷ uses) orders =
    use_all uses (track_order now order_id role orders)
use_all (untrack order_id ∷ uses) orders = use_all uses (untrack_order order_id orders)

-- The same on the role of one order alone.
abbrev pub role_after : List Use → String → Option String → Option String
role_after [] wanted role = role
role_after (track now order_id r ∷ uses) wanted role =
    role_after uses wanted (if truthy r && order_id == wanted then some r else role)
role_after (untrack order_id ∷ uses) wanted role =
    role_after uses wanted (if order_id == wanted then none else role)

track_once :
    (now : ℕ) (order_id role wanted : String) (orders : List TrackedOrder)
    → truthy wanted ≡ true
    → role_of wanted (track_order now order_id role orders)
      ≡ (if truthy role && order_id == wanted then some role else role_of wanted orders)
unfolding track_order
track_once now order_id role wanted orders asked = elim (Bool-cases (truthy order_id)) [
  | inr empty ↦ rw empty (ground (arith, empty, asked, eq_iff order_id wanted))
  | inl named ↦ elim (Bool-cases (truthy role)) [
    | inr missing ↦ rw (named, missing) refl
    | inl given ↦ track-role now order_id role wanted orders named given asked ∙ rw given refl
  ]
]

untrack_once :
    (order_id wanted : String) (orders : List TrackedOrder)
    → truthy wanted ≡ true
    → role_of wanted (untrack_order order_id orders)
      ≡ (if order_id == wanted then none else role_of wanted orders)
unfolding untrack_order
untrack_once order_id wanted orders asked = elim (Bool-cases (truthy order_id)) [
  | inr empty ↦ rw empty (ground (arith, empty, asked, eq_iff order_id wanted))
  | inl named ↦ rw named (untrack-role order_id wanted orders)
]

-- After any commands, the role under which an order is tracked is the one of the last command on it: the role
-- that it was tracked under, or none where it was untracked. An empty role tracks nothing, and an order without
-- such a command keeps what it had.
pub use_all_refines :
    (uses : List Use) (wanted : String) (orders : List TrackedOrder)
    → truthy wanted ≡ true
    → role_of wanted (use_all uses orders) ≡ role_after uses wanted (role_of wanted orders)
use_all_refines [] wanted orders asked = refl
use_all_refines (track now order_id role ∷ uses) wanted orders asked =
    use_all_refines uses wanted (track_order now order_id role orders) asked
    ∙ ap (role_after uses wanted) (track_once now order_id role wanted orders asked)
use_all_refines (untrack order_id ∷ uses) wanted orders asked =
    use_all_refines uses wanted (untrack_order order_id orders) asked
    ∙ ap (role_after uses wanted) (untrack_once order_id wanted orders asked)
