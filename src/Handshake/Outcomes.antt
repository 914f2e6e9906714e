-- ===== src/Handshake/Outcomes.antt =====
-- What a call of src/handshake/index.ts that returns has passed, step by step.
use atel_sdk.Base.{
  ℕ, String, ◌≡◌, refl, Bool, true, false, Option, none, some, List, Result, ok, err, insert,
  truthy, arith,
}
use atel_sdk.Identity.{Host, IdentityError}
use atel_sdk.Envelope.{MessageFault}
use atel_sdk.Crypto.{Ciphers}
use atel_sdk.Handshake.{
  Wallets, WalletBundle, HandshakeError, Session, HandshakeManager, Outcome, attempt,
}
use atel_sdk.Handshake.Steps.{
  Draws, or_refused, or_no_pending, or_challenge_failed, open_session, then_with, verified_wallets,
}

pub or_refused-eq-ok :
    (refuse : MessageFault → HandshakeError) (r : Result IdentityError (Option MessageFault))
    (u : Unit {0})
    → or_refused refuse r ≡ ok u
    → r ≡ ok none
or_refused-eq-ok refuse (err e) u h = ground arith
or_refused-eq-ok refuse (ok none) u h = refl
or_refused-eq-ok refuse (ok (some fault)) u h = ground arith

pub or_no_pending-eq-ok :
    (did challenge : String) (o : Option String)
    → or_no_pending did o ≡ ok challenge
    → (o ≡ some challenge) × (truthy challenge ≡ true)
or_no_pending-eq-ok did challenge none h = ground arith
or_no_pending-eq-ok did challenge (some c) h = ground arith

pub or_challenge_failed-eq-ok :
    (r : Result IdentityError Bool) (u : Unit {0}) → or_challenge_failed r ≡ ok u → r ≡ ok true
or_challenge_failed-eq-ok (err e) u h = ground arith
or_challenge_failed-eq-ok (ok true) u h = refl
or_challenge_failed-eq-ok (ok false) u h = ground arith

module _ (host : Host) (ciphers : Ciphers) (time_of : String → Option ℕ) (iso : ℕ → String) where
  open host use {Bytes, base64_encode, base64_decode}

  abbrev pub Manager : Type 0
  Manager = HandshakeManager host ciphers

  pub attempt-eq-ok {ℓ} :
      {A : Type ℓ} {B : Type 0} (g h : Manager) (r : Result HandshakeError A)
      (next : A → Outcome host ciphers B) (b : B)
      → attempt host ciphers g r next ≡ (ok b, h)
      → (a : A) × (r ≡ ok a) × (next a ≡ (ok b, h))
  attempt-eq-ok g h (err e) next b eq = ground arith
  attempt-eq-ok g h (ok a) next b eq = (a, refl, eq)

  pub open_session-eq-ok :
      (draws : Draws ciphers) (did : String) (key : Bytes) (encrypted : Bool)
      (capabilities : Option (List String)) (wallets : Option Wallets)
      (bundle : Option WalletBundle) (g h : Manager) (s : Session host ciphers)
      → open_session host ciphers time_of iso draws did key encrypted capabilities wallets bundle g
        ≡ (ok s, h)
      → (s.remote_did ≡ did)
        × (s.remote_public_key ≡ key)
        × (s.encrypted ≡ encrypted)
        × (h ≡ record g { sessions = insert did s g.sessions })
  unfolding open_session
  open_session-eq-ok draws did key encrypted capabilities wallets bundle g h s eq =
      let (checked, _, done) =
        attempt-eq-ok g h (verified_wallets host ciphers time_of iso wallets bundle key) _ s eq in
      ground (arith, done)

  pub then_with-eq-ok {ℓ} :
      {A : Type ℓ} {B : Type 0} (r : Result HandshakeError A × Manager)
      (next : A → Manager → Outcome host ciphers B) (h : Manager) (b : B)
      → then_with host ciphers time_of iso r next ≡ (ok b, h)
      → (a : A) × (r.0 ≡ ok a) × (next a r.1 ≡ (ok b, h))
  then_with-eq-ok (err e, g) next h b eq = ground arith
  then_with-eq-ok (ok a, g) next h b eq = (a, refl, eq)

  -- A call keeps the sessions and the challenges if what follows it does.
  pub attempt_kept {ℓ} :
      {A : Type ℓ} {B : Type 0} (g : Manager) (r : Result HandshakeError A)
      (next : A → Outcome host ciphers B)
      → ((a : A)
          → ((next a).1.sessions ≡ g.sessions)
            × ((next a).1.pending_challenges ≡ g.pending_challenges))
      → ((attempt host ciphers g r next).1.sessions ≡ g.sessions)
        × ((attempt host ciphers g r next).1.pending_challenges ≡ g.pending_challenges)
  attempt_kept g (err e) next h = (refl, refl)
  attempt_kept g (ok a) next h = h a
