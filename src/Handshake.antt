-- ===== src/Handshake.antt =====
-- The data of src/handshake/index.ts: payloads, wallet bundles, sessions and the HandshakeManager.
-- Encryption is that of Crypto, over keys of its own.
pub mod Steps
pub mod Replies
pub mod Honest
pub mod Completion
pub mod Confirmed
pub mod Meeting
pub mod Exchange
pub mod Outcomes
pub mod Challenges
pub mod Answers
use atel_sdk.Base.{
  ℕ, String, Bool, true, false, not, ◌||◌, Option, none, some, List, [], ◌∷◌, Result, ok, err, Map,
  truthy, if◌then◌else◌,
}
use atel_sdk.Json.{Value, Items, Fields, str, obj, arr, nil, cons, field, end}
use atel_sdk.Identity.{Host, AgentIdentity, IdentityError, sign, verify}
use atel_sdk.Envelope.{MessageFault}
use atel_sdk.Crypto.{Ciphers, CryptoError, EncryptionKeyPair, EncryptionManager}

pub record Wallets : Type 0 where
  pub base : Option String
  pub bsc : Option String

pub record WalletBundle : Type 0 where
  pub addresses : Wallets
  pub proof : String

-- A field that is undefined is left out of the JSON.
abbrev pub text_field : String → Option String → Fields → Fields
text_field name none rest = rest
text_field name (some s) rest = field name (str s) rest

abbrev pub wallets_value : Wallets → Value
wallets_value w = obj (text_field "base" w.base (text_field "bsc" w.bsc end))

abbrev pub truthy_text : Option String → Option String
truthy_text none = none
truthy_text (some s) = if truthy s then some s else none

-- The addresses that are not empty.
unfoldable pub clean : Wallets → Wallets
clean w = record { base = truthy_text w.base; bsc = truthy_text w.bsc }

abbrev pub wallets_field : Option Wallets → Fields → Fields
wallets_field none rest = rest
wallets_field (some w) rest = field "wallets" (wallets_value w) rest

abbrev pub bundle_field : Option WalletBundle → Fields → Fields
bundle_field none rest = rest
bundle_field (some b) rest =
    field "walletBundle"
      (obj (field "addresses" (wallets_value b.addresses) (field "proof" (str b.proof) end))) rest

abbrev pub text_items : List String → Items
text_items [] = nil
text_items (s ∷ texts) = cons (str s) (text_items texts)

abbrev pub capabilities_field : Option (List String) → Fields → Fields
capabilities_field none rest = rest
capabilities_field (some names) rest = field "capabilities" (arr (text_items names)) rest

pub record HandshakeInitPayload : Type 0 where
  pub did : String
  pub public_key : String
  pub enc_public_key : String
  pub challenge : String
  pub capabilities : Option (List String)
  pub wallets : Option Wallets
  pub wallet_bundle : Option WalletBundle

pub record HandshakeAckPayload : Type 0 where
  pub did : String
  pub public_key : String
  pub enc_public_key : String
  pub challenge : String
  pub challenge_response : String
  pub capabilities : Option (List String)
  pub wallets : Option Wallets
  pub wallet_bundle : Option WalletBundle

pub record HandshakeConfirmPayload : Type 0 where
  pub challenge_response : String

unfoldable pub init_value : HandshakeInitPayload → Value
init_value p = obj (
    field "did" (str p.did) (
      field "publicKey" (str p.public_key) (
        field "encPublicKey" (str p.enc_public_key) (
          field "challenge" (str p.challenge) (
            capabilities_field p.capabilities
              (wallets_field p.wallets (bundle_field p.wallet_bundle end)))))))

unfoldable pub ack_value : HandshakeAckPayload → Value
ack_value p = obj (
    field "did" (str p.did) (
      field "publicKey" (str p.public_key) (
        field "encPublicKey" (str p.enc_public_key) (
          field "challenge" (str p.challenge) (
            field "challengeResponse" (str p.challenge_response) (
              capabilities_field p.capabilities
                (wallets_field p.wallets (bundle_field p.wallet_bundle end))))))))

unfoldable pub confirm_value : HandshakeConfirmPayload → Value
confirm_value p = obj (field "challengeResponse" (str p.challenge_response) end)

-- What the methods throw.
pub data HandshakeError : Type 0 where
  init_refused ack_refused confirm_refused : MessageFault → HandshakeError
  no_pending_handshake : String → HandshakeError
  challenge_failed did_mismatch : HandshakeError
  identity_error : IdentityError → HandshakeError
  crypto_error : CryptoError → HandshakeError

pub data SessionState : Type 0 where
  active expired : SessionState

module _ (host : Host) (ciphers : Ciphers) where
  open host use {Bytes}

  unfoldable pub create_wallet_bundle : Wallets → Bytes → Result IdentityError WalletBundle
  create_wallet_bundle addresses secret_key =
      elim (sign host (wallets_value (clean addresses)) secret_key) [
        | ok proof ↦ ok (record { addresses = clean addresses; proof = proof })
        | err e ↦ err e
      ]

  unfoldable pub verify_wallet_bundle : WalletBundle → Bytes → Result IdentityError Bool
  verify_wallet_bundle bundle public_key =
      if not (truthy bundle.proof)
      then ok false
      else verify host (wallets_value (clean bundle.addresses)) bundle.proof public_key

  pub record Session : Type 0 where
    pub session_id : String
    pub local_did : String
    pub remote_did : String
    pub remote_public_key : Bytes
    pub encrypted : Bool
    pub remote_capabilities : Option (List String)
    pub remote_wallets : Option Wallets
    pub remote_wallets_verified : Bool
    pub created_at : String
    pub expires_at : String
    pub state : SessionState

  pub record HandshakeManager : Type 0 where
    pub identity : AgentIdentity host
    pub session_ttl_sec : ℕ
    pub enable_encryption : Bool
    pub sessions : Map Session
    pub pending_challenges : Map String
    pub pending_enc_keys : Map (EncryptionKeyPair ciphers)
    pub pending_init_payloads : Map HandshakeInitPayload
    pub encryption : EncryptionManager ciphers

  abbrev pub Outcome : Type 0 → Type 0
  Outcome A = Result HandshakeError A × HandshakeManager

  -- What follows a call that may throw and leaves the manager as it is.
  abbrev pub attempt {ℓ} :
      {A : Type ℓ} {B : Type 0}
      → HandshakeManager
      → Result HandshakeError A
      → (A → Outcome B)
      → Outcome B
  attempt g (err e) next = (err e, g)
  attempt g (ok a) next = next a
