-- ===== src/Anchor/Lookup.antt =====
-- What the lookup and anchorAll of src/anchor/index.ts return.
use atel_sdk.Base.{String, ◌≡◌, true, List, ◌++◌, All, has_key, IsDistinctBy}
use atel_sdk.Anchor.{AnchorRecord}

abbrev pub tx : AnchorRecord → String
tx r = r.tx_hash

-- The result starts with what the providers found and goes on with local records of the hash; each local
-- record of the hash has its transaction in it; and no transaction is added twice.
pub record IsLookup (hash : String) (local found result : List AnchorRecord) : Type 0 where
  pub extra : List AnchorRecord
  pub stands : result ≡ found ++ extra
  pub of_the_hash : All (λ r. r.hash ≡ hash) extra
  pub complete : All (λ r. r.hash ≡ hash → has_key tx r.tx_hash result ≡ true) local
  pub none_twice : IsDistinctBy tx found → IsDistinctBy tx result
