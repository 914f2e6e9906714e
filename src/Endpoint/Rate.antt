-- ===== src/Endpoint/Rate.antt =====
-- The rate limiter of src/endpoint/index.ts, over the messages of one window.
use atel_sdk.Base.{
  ℕ, ◌+◌, ◌≤◌, ◌<◌, String, ◌≡◌, refl, sym, ◌∙◌, Bool, true, false, Option, none, some, List, [],
  ◌∷◌, lookup, insert, lookup-insert, lookup-insert_self, All, ltb, leb, ◌==◌, eq_iff, eq_refl,
  arith, ◌⊎◌, if◌then◌else◌, if-elim, Bool-cases, inl, inr,
}
use atel_sdk.Endpoint.{Window, RateLimiter, open_window, check_window, check_rate}

abbrev one_if : Bool → ℕ
one_if true = 1
one_if false = 0

-- How many requests of a key are let through, in a sequence of requests with their times.
abbrev pub let_through : String → List (ℕ × String) → RateLimiter → ℕ
let_through key [] l = 0
let_through key ((now, from) ∷ requests) l =
    let rest = let_through key requests (check_rate now from l).1 in
    if from == key then one_if (check_rate now from l).0 + rest else rest

-- The key has a window with a count, and the limit is as given.
abbrev InWindow : String → ℕ → ℕ → ℕ → RateLimiter → Type 0
InWindow key limit count reset l =
    (lookup key l.windows ≡ some (record { count = count; reset_at = reset }))
    × (l.max_requests ≡ limit)

insert_other :
    (from key : String) (w : Window) (l : RateLimiter)
    → (from == key) ≡ false
    → lookup key (insert from w l.windows) ≡ lookup key l.windows
insert_other from key w l ne = sym (lookup-insert from w l.windows key) ∙ simp ne

window_other :
    (now : ℕ) (from key : String) (limit count reset : ℕ) (l : RateLimiter) (o : Option Window)
    → (from == key) ≡ false
    → InWindow key limit count reset l
    → InWindow key limit count reset (check_window now from l o).1
unfolding check_window open_window
window_other now from key limit count reset l none ne h = (insert_other from key _ l ne ∙ h.0, h.1)
window_other now from key limit count reset l (some w) ne h =
    if-elim (λ (r : Bool × RateLimiter). InWindow key limit count reset r.1) (ltb w.reset_at now)
      (insert_other from key _ l ne ∙ h.0, h.1)
      (if-elim (λ (r : Bool × RateLimiter). InWindow key limit count reset r.1)
        (leb l.max_requests w.count) h (insert_other from key _ l ne ∙ h.0, h.1))

other_key :
    (now : ℕ) (from key : String) (limit count reset : ℕ) (l : RateLimiter)
    → (from == key) ≡ false
    → InWindow key limit count reset l
    → InWindow key limit count reset (check_rate now from l).1
unfolding check_rate
other_key now from key limit count reset l ne h =
    window_other now from key limit count reset l (lookup from l.windows) ne h

-- A request within the window is let through exactly when the count is below the limit.
same_key :
    (now : ℕ) (key : String) (limit count reset : ℕ) (l : RateLimiter)
    → now ≤ reset
    → InWindow key limit count reset l
    → (((check_rate now key l).0 ≡ false) × InWindow key limit count reset (check_rate now key l).1)
      ⊎ (((check_rate now key l).0 ≡ true)
          × (count < limit)
          × InWindow key limit (count + 1) reset (check_rate now key l).1)
unfolding check_rate check_window
same_key now key limit count reset l early h = elim (Bool-cases (leb l.max_requests count)) [
  | inl full ↦ inl (rw (h.0, in_time, full) (refl, h))
  | inr room ↦ inr (
      rw (h.0, in_time, room)
        (refl, ground (arith, room, h.1), (lookup-insert_self key _ l.windows, h.1)))
]
  where
    in_time : ltb reset now ≡ false
    in_time = ground arith

within :
    (key : String) (limit : ℕ) (requests : List (ℕ × String)) (l : RateLimiter) (count reset : ℕ)
    → InWindow key limit count reset l
    → All (λ r. r.0 ≤ reset) requests
    → count ≤ limit
    → let_through key requests l + count ≤ limit
within key limit [] l count reset h early room = omega (arith, room)
within key limit ((now, from) ∷ requests) l count reset h early room =
    elim (Bool-cases (from == key)) [
      | inr other ↦ rw other (
          within key limit requests (check_rate now from l).1 count reset
            (other_key now from key limit count reset l other h) early.1 room)
      | inl same ↦
          rw ((eq_iff from key).0 same, eq_refl key)
            (elim (same_key now key limit count reset l early.0 h) [
              | inl (refused, kept) ↦
                  let rest =
                    within key limit requests (check_rate now key l).1 count reset kept early.1
                      room in
                  rw refused (omega (arith, rest))
              | inr (passed, below, kept) ↦
                  let rest =
                    within key limit requests (check_rate now key l).1 (count + 1) reset kept
                      early.1 (omega (arith, below)) in
                  rw passed (omega (arith, rest))
            ])
    ]

-- Once a key has a window with a count within the limit, the requests of the key that are let through
-- until the window ends are at most as many as the limit leaves, whatever comes from others between.
pub let_through-le-limit :
    (key : String) (requests : List (ℕ × String)) (l : RateLimiter) (count reset : ℕ)
    → lookup key l.windows ≡ some (record { count = count; reset_at = reset })
    → All (λ r. r.0 ≤ reset) requests
    → count ≤ l.max_requests
    → let_through key requests l + count ≤ l.max_requests
let_through-le-limit key requests l count reset known early room =
    within key l.max_requests requests l count reset (known, refl) early room
