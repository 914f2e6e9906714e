-- ===== src/Envelope/Nonces.antt =====
-- How long the nonce tracker of src/envelope/index.ts remembers a nonce.
use atel_sdk.Base.{
  ℕ, ◌+◌, ◌≤◌, String, ◌≡◌, refl, sym, ◌∙◌, true, false, some, lookup, is_some, lookup-insert,
  lookup-filter, eq_iff, eq_refl, arith, Bool-cases, inl, inr,
}
use atel_sdk.Envelope.{NonceTracker, evict, check}

-- A nonce seen at a time is still known at an eviction within the age.
pub lookup-evict :
    (now : ℕ) (nonce : String) (time : ℕ) (t : NonceTracker)
    → lookup nonce t.seen ≡ some time
    → now ≤ time + t.max_age_ms
    → lookup nonce (evict now t).seen ≡ some time
unfolding evict
lookup-evict now nonce time t h k = lookup-filter _ nonce time t.seen h (ground arith)

-- A check within the age keeps it, whichever nonce it is of.
pub lookup-check :
    (now later : ℕ) (other nonce : String) (time : ℕ) (t : NonceTracker)
    → lookup nonce t.seen ≡ some time
    → now ≤ time + t.max_age_ms
    → lookup nonce (check now later other t).1.seen ≡ some time
unfolding check
lookup-check now later other nonce time t h k =
    let kept = lookup-evict now nonce time t h k in
    elim (Bool-cases (is_some (lookup other (evict now t).seen))) [
      | inl seen ↦ rw seen kept
      | inr new ↦ rw new (
          sym (lookup-insert other later (evict now t).seen nonce)
          ∙ ground (arith, eq_iff other nonce, kept, new))
    ]

-- Within the age a check of the nonce itself fails.
pub check_seen :
    (now later : ℕ) (nonce : String) (time : ℕ) (t : NonceTracker)
    → lookup nonce t.seen ≡ some time
    → now ≤ time + t.max_age_ms
    → (check now later nonce t).0 ≡ false
unfolding check
check_seen now later nonce time t h k = rw (lookup-evict now nonce time t h k)

-- A check that succeeds records the nonce.
pub check_new :
    (now later : ℕ) (nonce : String) (t : NonceTracker)
    → (check now later nonce t).0 ≡ true
    → (lookup nonce (check now later nonce t).1.seen ≡ some later)
      × ((check now later nonce t).1.max_age_ms ≡ t.max_age_ms)
unfolding check evict
check_new now later nonce t h = elim (Bool-cases (is_some (lookup nonce (evict now t).seen))) [
  | inl seen ↦ ground arith
  | inr new ↦
      rw new (sym (lookup-insert nonce later (evict now t).seen nonce) ∙ simp (eq_refl nonce), refl)
]

pub check_age :
    (now later : ℕ) (nonce : String) (t : NonceTracker)
    → (check now later nonce t).1.max_age_ms ≡ t.max_age_ms
unfolding check evict
check_age now later nonce t = ground arith
