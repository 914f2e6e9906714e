-- ===== src/Anchor/Mock.antt =====
-- MockAnchorProvider of src/anchor/mock.ts.
pub mod Promises
use atel_sdk.Base.{
  ℕ, String, Bool, true, false, Option, none, some, List, [], ◌∷◌, ◌++◌, Result, ok, err, filter,
  find, ◌==◌, concat, if◌then◌else◌,
}
use atel_sdk.Json.{Fields}
use atel_sdk.Anchor.{
  AnchorRecord, AnchorVerification, AnchorProvider, mock_unavailable, not_found, hash_matches,
  hash_mismatch,
}

pub record MockAnchorProvider : Type 0 where
  pub chain : String
  pub records : List AnchorRecord
  pub available : Bool

-- An identifier less its dashes, the time and the block.
pub record MockDraw : Type 0 where
  pub uuid : String
  pub now : ℕ
  pub block : ℕ

abbrev pub or_mock : Option String → String
or_mock none = "mock"
or_mock (some chain) = chain

unfoldable pub new_mock : Option String → MockAnchorProvider
new_mock chain = record { chain = or_mock chain; records = []; available = true }

unfoldable pub set_available : Bool → MockAnchorProvider → MockAnchorProvider
set_available b p = record p { available = b }

abbrev pub mock_record : MockDraw → String → String → Option Fields → AnchorRecord
mock_record d hash chain metadata = record {
  hash = hash;
  tx_hash = concat "0xmock_" d.uuid;
  chain = chain;
  timestamp = d.now;
  block_number = some d.block;
  metadata = metadata;
}

unfoldable pub mock_anchor :
    MockDraw
    → String
    → Option Fields
    → MockAnchorProvider
    → Result String AnchorRecord × MockAnchorProvider
mock_anchor d hash metadata p =
    let r = mock_record d hash p.chain metadata in
    if p.available
    then (ok r, record p { records = p.records ++ r ∷ [] })
    else (err "Mock provider is unavailable", p)

abbrev pub verification_of : String → String → String → Option AnchorRecord → AnchorVerification
verification_of hash tx_hash chain none = record {
  valid = false;
  hash = hash;
  tx_hash = tx_hash;
  chain = chain;
  block_timestamp = none;
  detail = some not_found;
}
verification_of hash tx_hash chain (some r) = record {
  valid = r.hash == hash;
  hash = hash;
  tx_hash = tx_hash;
  chain = chain;
  block_timestamp = some r.timestamp;
  detail = some (if r.hash == hash then hash_matches else hash_mismatch);
}

unfoldable pub mock_verify : String → String → MockAnchorProvider → Result String AnchorVerification
mock_verify hash tx_hash p =
    if p.available
    then ok (verification_of hash tx_hash p.chain (find (λ r. r.tx_hash == tx_hash) p.records))
    else ok (record {
      valid = false;
      hash = hash;
      tx_hash = tx_hash;
      chain = p.chain;
      block_timestamp = none;
      detail = some mock_unavailable;
    })

unfoldable pub mock_lookup : String → MockAnchorProvider → Result String (List AnchorRecord)
mock_lookup hash p = ok (filter (λ r. r.hash == hash) p.records)

unfoldable pub clear : MockAnchorProvider → MockAnchorProvider
clear p = record p { records = [] }

abbrev pub mock : AnchorProvider
mock = record {
  Provider = MockAnchorProvider;
  Draw = MockDraw;
  chain = λ p. p.chain;
  anchor = mock_anchor;
  verify = mock_verify;
  find_records = mock_lookup;
}
