-- ===== src/Endpoint/Replay.antt =====
-- `verifyIncoming` of src/endpoint/index.ts on a message that it has accepted before.
use atel_sdk.Base.{
  ℕ, ◌+◌, ◌≤◌, String, ◌≡◌, ◌≢◌, sym, ◌∙◌, true, Option, none, some, List, [], ◌∷◌, lookup, All,
  All-weaken, ok, err, Result, arith, false≢true, Bool-cases, Option-cases, inl, inr,
}
use atel_sdk.Identity.{Host, IdentityError}
use atel_sdk.Envelope.{Message, check, check_timestamp, check_header, verify_message}
use atel_sdk.Envelope.Nonces.{lookup-check, check_seen, check_new, check_age}
use atel_sdk.Endpoint.{
  Clock, Guard, accepted, check_rate, with_key, sender_key, verify_incoming, default_options,
}

module _ (host : Host) (time_of : String → Option ℕ) where
  open host use {Bytes}

  -- A message with the clock at its arrival and the key of its sender's session.
  abbrev pub Arrival : Type 0
  Arrival = Clock × Message × Option Bytes

  abbrev pub arrive : List Arrival → Guard → Guard
  arrive [] g = g
  arrive ((clock, m, session) ∷ arrivals) g =
      arrive arrivals (verify_incoming host time_of clock m session g).1

  -- An accepted message was fresh.
  header_fresh :
      (now : ℕ) (m : Message)
      → check_header time_of now m default_options ≡ none
      → (time : ℕ) × (time_of m.timestamp ≡ some time)
        × (now ≤ time + 300000)
        × (time ≤ now + 30000)
  unfolding check_header check_timestamp
  header_fresh now m h = elim (Option-cases (time_of m.timestamp)) [
    | inl unreadable ↦ ground (arith, unreadable, h)
    | inr (time, read) ↦ (time, read, ground (arith, read, h), ground (arith, read, h))
  ]

  accepted_header :
      (clock : Clock) (m : Message) (key : Result IdentityError Bytes)
      → with_key host time_of clock m key ≡ ok accepted
      → check_header time_of clock.fresh m default_options ≡ none
  unfolding verify_message
  accepted_header clock m (err e) h = ground arith
  accepted_header clock m (ok key) h =
      elim (Option-cases (check_header time_of clock.fresh m default_options)) [
        | inl fine ↦ fine
        | inr (fault, found) ↦ ground (arith, found, h)
      ]

  -- Accepting records the nonce.
  accepted_parts :
      (clock : Clock) (m : Message) (session : Option Bytes) (g : Guard)
      → (verify_incoming host time_of clock m session g).0 ≡ ok accepted
      → (with_key host time_of clock m (sender_key host time_of m session) ≡ ok accepted)
        × ((check clock.evict clock.record_at m.nonce g.tracker).0 ≡ true)
        × ((verify_incoming host time_of clock m session g).1.tracker
            ≡ (check clock.evict clock.record_at m.nonce g.tracker).1)
  unfolding verify_incoming
  accepted_parts clock m session g h = ground arith

  abbrev Tracks : String → ℕ → ℕ → Guard → Type 0
  Tracks nonce time age g = (lookup nonce g.tracker.seen ≡ some time) × (g.tracker.max_age_ms ≡ age)

  incoming-Tracks :
      (nonce : String) (time age : ℕ) (clock : Clock) (m : Message) (session : Option Bytes)
      (g : Guard)
      → Tracks nonce time age g
      → clock.evict ≤ time + age
      → Tracks nonce time age (verify_incoming host time_of clock m session g).1
  unfolding verify_incoming
  incoming-Tracks nonce time age clock m session g (known, aged) early =
      let kept =
        lookup-check clock.evict clock.record_at m.nonce nonce time g.tracker known
          (rw aged early) in
      let same = check_age clock.evict clock.record_at m.nonce g.tracker ∙ aged in
      elim (Bool-cases (check_rate clock.rate m.from g.limiter).0) [
        | inl passed ↦ elim (Bool-cases (check clock.evict clock.record_at m.nonce g.tracker).0) [
          | inl new ↦ rw (passed, new) (kept, same)
          | inr seen ↦ rw (passed, seen) (kept, same)
        ]
        | inr limited ↦ rw limited (known, aged)
      ]

  -- A nonce that is known stays known while the evictions fall within the age.
  tracked-Tracks :
      (nonce : String) (time age : ℕ) (arrivals : List Arrival) (g : Guard)
      → Tracks nonce time age g
      → All (λ a. a.0.evict ≤ time + age) arrivals
      → Tracks nonce time age (arrive arrivals g)
  tracked-Tracks nonce time age [] g known early = known
  tracked-Tracks nonce time age ((clock, m, session) ∷ arrivals) g known early =
      tracked-Tracks nonce time age arrivals _
        (incoming-Tracks nonce time age clock m session g known early.0) early.1

  -- A message that was accepted by the endpoint's tracker is not accepted again, whatever arrives in
  -- between, if the clock does not run back before the last eviction and one call takes at most a minute.
  pub verify_incoming_replay :
      (first last : Clock) (m : Message) (session later_session : Option Bytes)
      (between : List Arrival) (g : Guard)
      → g.tracker.max_age_ms ≡ 600000
      → (verify_incoming host time_of first m session g).0 ≡ ok accepted
      → first.fresh ≤ first.record_at + 60000
      → All (λ a. a.0.evict ≤ last.evict) between
      → last.evict ≤ last.fresh
      → (verify_incoming host time_of last m later_session
          (arrive between (verify_incoming host time_of first m session g).1)).0
        ≢ ok accepted
  verify_incoming_replay first last m session later_session between g aged was steady ordered
        forward again =
      let after = verify_incoming host time_of first m session g in
      let (fine, new, tracker) = accepted_parts first m session g was in
      let (known, kept_age) = check_new first.evict first.record_at m.nonce g.tracker new in
      let (time, read, _, not_ahead) =
        header_fresh first.fresh m (accepted_header first m _ fine) in
      let (fine', new', _) = accepted_parts last m later_session (arrive between after.1) again in
      let (time', read', young, _) = header_fresh last.fresh m (accepted_header last m _ fine') in
      let same : time' ≡ time = cc (read, read') in
      let soon : last.evict ≤ first.record_at + 600000 =
        omega (arith, same, forward, young, not_ahead, steady) in
      let (still, still_age) =
        tracked-Tracks m.nonce first.record_at 600000 between after.1
          (rw tracker (known, kept_age ∙ aged))
          (All-weaken (λ a early. omega (arith, early, soon)) between ordered) in
      false≢true (
        sym (
          check_seen last.evict last.record_at m.nonce first.record_at
            (arrive between after.1).tracker still (rw still_age soon))
        ∙ new')
