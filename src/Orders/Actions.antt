-- ===== src/Orders/Actions.antt =====
-- The actions that bin/notification-action-helpers.mjs runs without an agent, and why it runs none.
use atel_sdk.Base.{
  ℕ, String, ◌≡◌, ◌≢◌, refl, Bool, true, false, not, ◌&&◌, ◌||◌, Option, none, some, List, [], ◌∷◌,
  filter, some_of, eqb, ltb, leb, ◌==◌, Bool-cases, inl, inr, arith, if◌then◌else◌,
}

-- What `Number` makes of an amount: not a number, below 0 by one more than so much, or so much.
pub data Amount : Type 0 where
  nan : Amount
  below : ℕ → Amount
  amount : ℕ → Amount

-- `a <= 0`, `a > 0` and `a > b`; each is false on NaN
abbrev pub not_positive : Amount → Bool
not_positive nan = false
not_positive (below n) = true
not_positive (amount n) = eqb n 0

abbrev pub positive : Amount → Bool
positive (amount n) = ltb 0 n
positive _ = false

abbrev pub more : Amount → Amount → Bool
more (amount a) (amount b) = ltb b a
more (amount a) (below b) = true
more (below a) (below b) = ltb a b
more _ _ = false

-- `a <= b`
abbrev pub not_more : Amount → Amount → Bool
not_more (amount a) (amount b) = leb a b
not_more (below a) (amount b) = true
not_more (below a) (below b) = leb b a
not_more _ _ = false

pub record RecommendedAction : Type 0 where
  pub type : String
  pub action : String
  -- `none` where it is no array
  pub command : Option (List String)

-- What the checks compare of the policy.
pub record ActionPolicy : Type 0 where
  pub task_mode_auto : Bool
  pub auto_accept_platform : Bool
  pub accept_orders : Bool
  pub accept_max_amount : Amount

pub data SkipReason : Type 0 where
  missing_recommended_actions missing_accept_action task_mode_not_auto
        auto_accept_platform_disabled :
      SkipReason
  paid_auto_accept_disabled price_exceeds_accept_max : SkipReason

abbrev pub runs_atel : Option (List String) → Bool
runs_atel (some (c ∷ rest)) = c == "atel"
runs_atel _ = false

abbrev pub is_cli_action : String → RecommendedAction → Bool
is_cli_action name a = a.type == "cli" && (a.action == name && runs_atel a.command)

-- `none` is the empty reason
unfoldable pub explain_direct_execution_skip :
    String → List RecommendedAction → Amount → ActionPolicy → Option SkipReason
explain_direct_execution_skip event [] price policy =
    if not (event == "order_created") then none else some missing_recommended_actions
explain_direct_execution_skip event (a ∷ actions) price policy =
    if not (event == "order_created")
    then none
    else if not (some_of (is_cli_action "accept") (a ∷ actions))
    then some missing_accept_action
    else if not_positive price
    then (if not policy.task_mode_auto
        then some task_mode_not_auto
        else if not policy.auto_accept_platform
        then some auto_accept_platform_disabled
        else none)
    else if not policy.accept_orders
    then some paid_auto_accept_disabled
    else if positive policy.accept_max_amount && more price policy.accept_max_amount
    then some price_exceeds_accept_max
    else none

abbrev pub accepts : Amount → ActionPolicy → Bool
accepts price policy =
    (policy.task_mode_auto && policy.auto_accept_platform && not_positive price)
    || (policy.accept_orders
        && (not_positive policy.accept_max_amount || not_more price policy.accept_max_amount))

unfoldable pub get_direct_executable_actions :
    String → List RecommendedAction → Amount → ActionPolicy → List RecommendedAction
get_direct_executable_actions event actions price policy =
    if event == "order_created"
    then (if accepts price policy then filter (is_cli_action "accept") actions else [])
    else if event == "order_accepted"
    then filter (is_cli_action "approve_plan") actions
    else []

abbrev pub IsNumber : Amount → Type 0
IsNumber a = a ≢ nan

some_of-filter :
    (p : RecommendedAction → Bool) (xs : List RecommendedAction)
    → some_of p xs ≡ true
    → filter p xs ≢ []
some_of-filter p [] h = cc
some_of-filter p (x ∷ xs) h = elim (Bool-cases (p x)) [
  | inl good ↦ rw good (λ e. cc)
  | inr bad ↦ rw bad (some_of-filter p xs (rw bad at h))
]

not_positive-not : (a : Amount) → IsNumber a → positive a ≡ false → not_positive a ≡ true
not_positive-not nan h e = elim (h refl) [ ]
not_positive-not (below n) h e = refl
not_positive-not (amount n) h e = ground arith

not_more-not : (a b : Amount) → IsNumber a → IsNumber b → more a b ≡ false → not_more a b ≡ true
not_more-not nan b h k e = elim (h refl) [ ]
not_more-not (below n) nan h k e = elim (k refl) [ ]
not_more-not (amount n) nan h k e = elim (k refl) [ ]
not_more-not (below n) (amount m) h k e = refl
not_more-not (below n) (below m) h k e = ground arith
not_more-not (amount n) (amount m) h k e = ground arith
not_more-not (amount n) (below m) h k e = cc

no_reason-has_accept :
    (a : RecommendedAction) (actions : List RecommendedAction) (price : Amount)
    (policy : ActionPolicy)
    → explain_direct_execution_skip "order_created" (a ∷ actions) price policy ≡ none
    → some_of (is_cli_action "accept") (a ∷ actions) ≡ true
unfolding explain_direct_execution_skip
no_reason-has_accept a actions price policy e =
    elim (Bool-cases (some_of (is_cli_action "accept") (a ∷ actions))) [
      | inl there ↦ there
      | inr missing ↦ let given = rw missing at e in cc
    ]

no_reason-accepted :
    (a : RecommendedAction) (actions : List RecommendedAction) (price : Amount)
    (policy : ActionPolicy)
    → IsNumber price
    → IsNumber policy.accept_max_amount
    → explain_direct_execution_skip "order_created" (a ∷ actions) price policy ≡ none
    → accepts price policy ≡ true
unfolding explain_direct_execution_skip
no_reason-accepted a actions price policy h k e =
    let there = no_reason-has_accept a actions price policy e in
    let rest = rw there at e in
    elim (Bool-cases (not_positive price)) [
      | inl free ↦ let e = rw free at rest in rw free (ground (arith, e))
      | inr paid ↦ elim (Bool-cases policy.accept_orders) [
        | inr off ↦ let given = rw (paid, off) at rest in cc
        | inl on ↦ elim (Bool-cases (positive policy.accept_max_amount)) [
          | inr no_limit ↦
              let open_price = not_positive-not policy.accept_max_amount k no_limit in
              ground (arith, on, open_price)
          | inl limited ↦ elim (Bool-cases (more price policy.accept_max_amount)) [
            | inl over ↦ let given = simp (paid, on, limited, over) at rest in cc
            | inr fits ↦
                let within = not_more-not price policy.accept_max_amount h k fits in
                ground (arith, on, within)
          ]
        ]
      ]
    ]

-- A new order whose price and maximum are numbers, and for which no reason is given, is accepted by itself: the
-- accepting actions among those recommended run, and there is one.
pub no_reason-accepts :
    (actions : List RecommendedAction) (price : Amount) (policy : ActionPolicy)
    → IsNumber price
    → IsNumber policy.accept_max_amount
    → explain_direct_execution_skip "order_created" actions price policy ≡ none
    → (get_direct_executable_actions "order_created" actions price policy
        ≡ filter (is_cli_action "accept") actions)
      × (filter (is_cli_action "accept") actions ≢ [])
unfolding explain_direct_execution_skip get_direct_executable_actions
no_reason-accepts [] price policy h k e = cc
no_reason-accepts (a ∷ actions) price policy h k e = (
  rw (no_reason-accepted a actions price policy h k e) refl,
  some_of-filter (is_cli_action "accept") (a ∷ actions)
      (no_reason-has_accept a actions price policy e),
)
