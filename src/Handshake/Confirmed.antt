-- ===== src/Handshake/Confirmed.antt =====
-- How a handshake of src/handshake/index.ts ends for the responder, between two agents that follow it, without wallets.
use atel_sdk.Base.{
  ℕ, String, ◌≡◌, refl, true, Option, none, some, ok, lookup, insert, erase, truthy,
}
use atel_sdk.Handshake.Completion.{session_with, open_session-ok}
use atel_sdk.Json.{str}
use atel_sdk.Identity.{Host, verify}
use atel_sdk.Envelope.{Message, verify_message}
use atel_sdk.Crypto.{Ciphers, has_session}
use atel_sdk.Handshake.{HandshakeConfirmPayload, HandshakeInitPayload, confirm_value}
use atel_sdk.Handshake.Steps.{Draws, fresh_only}
use atel_sdk.Handshake.Replies.{process_confirm, from_init}
use atel_sdk.Handshake.Honest.{Manager}

module _ (host : Host) (ciphers : Ciphers) (time_of : String → Option ℕ) (iso : ℕ → String)
    (time_of-iso : (t : ℕ) → time_of (iso t) ≡ some t) where
  open host use {Bytes, base64_encode, base64_decode, base64_round}

  abbrev Agent : Type 0
  Agent = Manager host ciphers time_of iso time_of-iso

  -- The responder's manager at the end.
  abbrev pub finished : Draws ciphers → String → Bytes → Option HandshakeInitPayload → Agent → Agent
  finished d did key stored g = record g {
    pending_challenges = erase did g.pending_challenges;
    pending_init_payloads = erase did g.pending_init_payloads;
    sessions =
        insert did
          (session_with host ciphers time_of iso time_of-iso d g did key
            (from_init stored (λ p. p.capabilities)) (from_init stored (λ p. p.wallets)))
          g.sessions;
  }

  -- A confirmation with the response to the pending challenge is accepted.
  pub process_confirm-ok :
      (d : Draws ciphers) (m : Message) (p : HandshakeConfirmPayload) (g : Agent) (key : Bytes)
      (did challenge : String) (stored : HandshakeInitPayload)
      → m.from ≡ did
      → m.payload ≡ confirm_value p
      → verify_message host time_of d.now m key fresh_only ≡ ok none
      → lookup did g.pending_challenges ≡ some challenge
      → truthy challenge ≡ true
      → verify host (str challenge) p.challenge_response key ≡ ok true
      → lookup did g.pending_init_payloads ≡ some stored
      → stored.wallet_bundle ≡ none
      → has_session ciphers did g.encryption ≡ true
      → process_confirm host ciphers time_of iso d m p key none none none g ≡ (
        ok (
            session_with host ciphers time_of iso time_of-iso d g did key stored.capabilities
              stored.wallets),
        finished d did key (some stored) g,
      )
  unfolding process_confirm
  process_confirm-ok d m p g key did challenge stored from payload valid pending drawn responds kept
        bare secret =
      let read : verify_message host time_of d.now (record m { payload = confirm_value p }) key
            fresh_only
          ≡ ok none =
        rw (← payload) valid in
      rw
        (
          read,
          from,
          pending,
          drawn,
          responds,
          kept,
          bare,
          secret,
          open_session-ok host ciphers time_of iso time_of-iso d
              (record g {
                pending_challenges = erase did g.pending_challenges;
                pending_init_payloads = erase did g.pending_init_payloads;
              })
              did key stored.capabilities stored.wallets,
        )
        refl
