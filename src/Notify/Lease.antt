-- ===== src/Notify/Lease.antt =====
-- The lease of the inbound leader of bin/atel.mjs.
use atel_sdk.Base.{
  ℕ, ◌+◌, ◌≤◌, ◌<◌, String, ◌≡◌, refl, sym, ◌∙◌, true, false, ◌&&◌, some, List, [], ◌∷◌, All, Map,
  lookup, lookup-insert, lookup-insert_self, truthy, ◌==◌, eq_iff, eq_refl, Bool-cases, false≢true,
  inl, inr, arith, if◌then◌else◌,
}
use atel_sdk.Notify.{
  TelegramLeader, Acquisition, acquire_telegram_inbound_leader, is_held, lease_ms,
}

-- An agent's attempt to lead, on a key at a time.
pub record Attempt : Type 0 where
  pub time : ℕ
  pub did : String
  pub key : String

abbrev pub attempt : Attempt → Map TelegramLeader → Acquisition × Map TelegramLeader
attempt a leaders = acquire_telegram_inbound_leader a.time a.did a.key leaders

-- The agents that acquire the key, in the order of their attempts.
abbrev pub winners : String → List Attempt → Map TelegramLeader → List String
winners key [] leaders = []
winners key (a ∷ attempts) leaders =
    let rest = winners key attempts (attempt a leaders).1 in
    if (attempt a leaders).0.acquired && a.key == key then a.did ∷ rest else rest

-- The agent leads on the key until the time at least.
abbrev pub Leads : String → String → ℕ → Map TelegramLeader → Type 0
Leads did key until leaders =
    (l : TelegramLeader) × (lookup key leaders ≡ some l) × (l.did ≡ did) × (until ≤ l.expires_at)

-- An attempt before the end leaves the leader, and only the leader can acquire.
attempt-Leads :
    (did key : String) (start : ℕ) (a : Attempt) (leaders : Map TelegramLeader)
    → truthy did ≡ true
    → start ≤ a.time
    → a.time < start + lease_ms
    → Leads did key (start + lease_ms) leaders
    → Leads did key (start + lease_ms) (attempt a leaders).1
      × ((attempt a leaders).0.acquired ≡ true → a.key ≡ key → a.did ≡ did)
unfolding acquire_telegram_inbound_leader
attempt-Leads did key start a leaders named since before (l, found, own, until) =
    elim (Bool-cases (a.key == key)) [
      | inl here ↦
          let same = (eq_iff a.key key).0 here in
          elim (Bool-cases (a.did == did)) [
            | inl renews ↦
                let me = (eq_iff a.did did).0 renews in
                let free : is_held a.time a.did (some l) ≡ false =
                  rw (own, me, eq_refl did) (ground arith) in
                rw (same, found, free)
                  (
                    (
                      record { did = a.did; expires_at = a.time + lease_ms; updated_at = a.time },
                      lookup-insert_self key _ leaders,
                      me,
                      omega (arith, since),
                    ),
                    λ won on_key. me,
                  )
            | inr other ↦
                let held : is_held a.time a.did (some l) ≡ true =
                  ground (
                    arith,
                    named,
                    own,
                    other,
                    until,
                    before,
                    eq_iff l.did a.did,
                    eq_iff a.did did,
                  ) in
                rw (same, found, held) ((l, found, own, until), λ won on_key. cc)
          ]
      | inr elsewhere ↦
          let apart : a.key ≡ key → a.did ≡ did =
            λ same. ground (arith, elsewhere, eq_iff a.key key, same) in
          elim (Bool-cases (is_held a.time a.did (lookup a.key leaders))) [
            | inl held ↦ rw held ((l, found, own, until), λ won. apart)
            | inr free ↦ rw free (
              (
                l,
                sym (
                      lookup-insert a.key
                        (record {
                          did = a.did;
                          expires_at = a.time + lease_ms;
                          updated_at = a.time;
                        })
                        leaders key)
                    ∙ rw elsewhere found,
                own,
                until,
              ),
              λ won. apart,
            )
          ]
    ]

-- The times of the attempts lie within the lease that starts then.
abbrev pub IsDuring : ℕ → List Attempt → Type 0
IsDuring start attempts = All (λ a. (start ≤ a.time) × (a.time < start + lease_ms)) attempts

winners_lead :
    (did key : String) (start : ℕ) (attempts : List Attempt) (leaders : Map TelegramLeader)
    → truthy did ≡ true
    → IsDuring start attempts
    → Leads did key (start + lease_ms) leaders
    → All (λ w. w ≡ did) (winners key attempts leaders)
winners_lead did key start [] leaders named during leads = tt
winners_lead did key start (a ∷ attempts) leaders named during leads =
    let (still, own) = attempt-Leads did key start a leaders named during.0.0 during.0.1 leads in
    let rest = winners_lead did key start attempts (attempt a leaders).1 named during.1 still in
    elim (Bool-cases ((attempt a leaders).0.acquired && a.key == key)) [
      | inr lost ↦ rw lost rest
      | inl won ↦
          rw won (own (ground (arith, won)) ((eq_iff a.key key).0 (ground (arith, won))), rest)
    ]

acquired-Leads :
    (now : ℕ) (did key : String) (leaders : Map TelegramLeader)
    → (acquire_telegram_inbound_leader now did key leaders).0.acquired ≡ true
    → Leads did key (now + lease_ms) (acquire_telegram_inbound_leader now did key leaders).1
unfolding acquire_telegram_inbound_leader
acquired-Leads now did key leaders h = elim (Bool-cases (is_held now did (lookup key leaders))) [
  | inl held ↦ elim (false≢true (rw held at h)) [ ]
  | inr free ↦ rw free (
    record { did = did; expires_at = now + lease_ms; updated_at = now },
    lookup-insert_self key _ leaders,
    refl,
    omega arith,
  )
]

-- Once an agent has acquired the lead on a key, no other agent acquires it for 15 seconds, however the agents'
-- attempts on this and other keys interleave in that time; only the agent itself renews its lease.
pub acquire_telegram_inbound_leader-excludes :
    (now : ℕ) (did key : String) (leaders : Map TelegramLeader) (attempts : List Attempt)
    → truthy did ≡ true
    → (acquire_telegram_inbound_leader now did key leaders).0.acquired ≡ true
    → IsDuring now attempts
    → All
        (λ w. w ≡ did)
        (winners key attempts (acquire_telegram_inbound_leader now did key leaders).1)
acquire_telegram_inbound_leader-excludes now did key leaders attempts named acquired during =
    winners_lead did key now attempts (acquire_telegram_inbound_leader now did key leaders).1 named
      during (acquired-Leads now did key leaders acquired)
