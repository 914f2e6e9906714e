-- ===== src/Identity/Did.antt =====
-- DIDs and their public keys: `createDID` and `parseDID` of src/identity/index.ts.
use Prim.Native.String.append
use atel_sdk.Base.{String, ◌≡◌, [], ◌∷◌, arith, concat, ok}
use atel_sdk.Identity.{Host, did_key_part, create_did, parse_did}
use atel_sdk.Identity.Split.{split, split_whole, split-concat, HasNoColon}

split_did :
    (key : String)
    → HasNoColon key
    → split (concat "did:atel:ed25519:" key) ≡ "did" ∷ "atel" ∷ "ed25519" ∷ key ∷ []
split_did key h =
    rw (split-concat "did:atel:ed25519:" key, split_whole key h)
      (unfold split in rw (append.nil key))

split_legacy :
    (key : String) → HasNoColon key → split (concat "did:atel:" key) ≡ "did" ∷ "atel" ∷ key ∷ []
split_legacy key h =
    rw (split-concat "did:atel:" key, split_whole key h) (unfold split in rw (append.nil key))

module _ (host : Host) where
  open host use {Bytes, size, base58_encode, base58_round, base58_alphabet}

  pub create_did-eq-ok :
      (key : Bytes) (did : String)
      → create_did host key ≡ ok did
      → (size key ≡ 32) × (concat "did:atel:ed25519:" (base58_encode key) ≡ did)
  unfolding create_did
  create_did-eq-ok key did made = ground arith

  parse_did_of_parts :
      (key : Bytes)
      → split (concat "did:atel:ed25519:" (base58_encode key))
        ≡ "did" ∷ "atel" ∷ "ed25519" ∷ base58_encode key ∷ []
      → size key ≡ 32
      → parse_did host (concat "did:atel:ed25519:" (base58_encode key)) ≡ ok key
  unfolding parse_did did_key_part
  parse_did_of_parts key parts h = rw (parts, base58_round, h)

  -- A DID that `createDID` made is read back as the key that it was made from.
  pub parse_did-create_did :
      (key : Bytes) (did : String) → create_did host key ≡ ok did → parse_did host did ≡ ok key
  parse_did-create_did key did made =
      let (long, whole) = create_did-eq-ok key did made in
      rw (← whole)
        (parse_did_of_parts key (split_did (base58_encode key) (base58_alphabet key)) long)

  -- The older form without the key type is read too.
  pub parse_did_legacy :
      (key : Bytes)
      → size key ≡ 32
      → parse_did host (concat "did:atel:" (base58_encode key)) ≡ ok key
  unfolding parse_did did_key_part
  parse_did_legacy key h =
      rw (split_legacy (base58_encode key) (base58_alphabet key), base58_round, h)
