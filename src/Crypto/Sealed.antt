-- ===== src/Crypto/Sealed.antt =====
-- What two agents that exchanged keys by src/crypto/index.ts seal and open.
use atel_sdk.Base.{◌≡◌, refl, ok}
use atel_sdk.Crypto.{Ciphers, derive_shared_key}

module _ (ciphers : Ciphers) where
  open ciphers use {
    Bytes, size, secretbox, base64_encode, utf8_encode, box_public_of, before, kdf, before_agrees,
    size-kdf, open-secretbox, base64_round, utf8_round,
  }

  pub exchanged :
      (own other : Bytes)
      → size own ≡ 32
      → size other ≡ 32
      → (key : Bytes) × (size key ≡ 32)
        × (derive_shared_key ciphers own (box_public_of other) ≡ ok key)
        × (derive_shared_key ciphers other (box_public_of own) ≡ ok key)
  unfolding derive_shared_key
  exchanged own other a b =
      let (raw, first, second) = before_agrees own other a b in
      (kdf raw, size-kdf raw, rw first refl, rw second refl)
