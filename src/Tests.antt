-- ===== src/Tests.antt =====
-- A small host that meets the laws, and the data that the runs of the children use. Its bytes are
-- numbers that stand for their own size, its texts of bytes are that many letters, and its hash
-- prepends a letter.
pub mod Values
pub mod Keys
pub mod Trees
pub mod Traces
pub mod Bundles
pub mod Consents
pub mod Peers
pub mod Messages
pub mod Undo
pub mod Limits
pub mod Calls
pub mod Handshakes
pub mod Exchanges
pub mod Scores
pub mod Anchors
pub mod Graphs
pub mod Commands
use text.Mathlib.TextLemmas.{append-eq-nil_iff, cons-ne-nil}
use Prim.Native.Char.{Char}
use atel_sdk.Base.{
  ℕ, zero, suc, ◌<◌, String, ◌≡◌, refl, ap, Bool, true, false, ◌&&◌, Option, none, some, eqb,
  concat, truthy, eq-false_of_ne, ok, arith,
}
use atel_sdk.Identity.{Host, AgentIdentity, create_did}
use atel_sdk.Identity.Split.{HasNoColon}
use atel_sdk.Identity.Rotation.{IsSound}

abbrev pub letters : ℕ → String
letters zero = String.[]
letters (suc n) = String.◌∷◌ "a" (letters n)

abbrev pub letter_count : String → ℕ
letter_count String.[] = 0
letter_count (String.◌∷◌ c s) = suc (letter_count s)

pub letters_round : (n : ℕ) → letter_count (letters n) ≡ n
letters_round zero = refl
letters_round (suc n) = ap suc (letters_round n)

pub letters_plain : (n : ℕ) → HasNoColon (letters n)
letters_plain zero = tt
letters_plain (suc n) = (refl, letters_plain n)

pub truthy_of_ne : (s : String) → (s ≡ "" → ⊥) → truthy s ≡ true
truthy_of_ne s h = simp (eq-false_of_ne s "" h)

pub letters-truthy : (n : ℕ) → 0 < n → truthy (letters n) ≡ true
letters-truthy zero h = ground arith
letters-truthy (suc n) h = truthy_of_ne _ (cons-ne-nil "a" (letters n))

abbrev pub toy_hash : String → String
toy_hash s = concat "h" s

pub hash_truthy : (s : String) → truthy (toy_hash s) ≡ true
hash_truthy s = truthy_of_ne _ (λ e. cons-ne-nil _ _ ((append-eq-nil_iff {p = "h"} {q = s}).0 e).0)

abbrev pub toy : Host
toy = record {
  Bytes = ℕ;
  size = λ n. n;
  sign_detached = λ m sk. 64;
  verify_detached = λ m sig pk. some (eqb sig 64 && eqb pk 32);
  public_of = λ sk. 32;
  base64_encode = letters;
  base64_decode = letter_count;
  sha256 = toy_hash;
  base58_encode = letters;
  base58_decode = λ s. some (letter_count s);
  verify_sign = λ m sk. refl;
  size-public_of = λ sk h. refl;
  base64_round = letters_round;
  base58_round = λ n. ap some (letters_round n);
  base58_alphabet = letters_plain;
  size-sign_detached = λ m sk. refl;
  truthy-base64 = letters-truthy;
  truthy-sha256 = hash_truthy;
}

abbrev pub toy_identity : AgentIdentity toy
toy_identity = record {
  agent_id = "alice";
  public_key = 32;
  secret_key = 64;
  did = concat "did:atel:ed25519:" (letters 32);
}

pub toy_identity-IsSound : IsSound toy toy_identity
unfolding create_did
toy_identity-IsSound = record { paired = refl; named = refl }
