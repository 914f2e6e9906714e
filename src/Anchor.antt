-- ===== src/Anchor.antt =====
-- AnchorManager of src/anchor/index.ts, over the interface AnchorProvider. A provider is an object with a state: a call of `anchor` returns the next one. What a
-- call draws (an identifier, a time, a block) is an argument. A throw carries its text.
pub mod Contract
pub mod Kept
pub mod Verified
pub mod Mock
pub mod Lookup
use atel_sdk.Base.{
  ℕ, String, Bool, true, false, not, ◌&&◌, Option, none, some, List, [], ◌∷◌, ◌++◌, map, Result, ok,
  err, Map, lookup, insert, filter, find, some_of, is_some, ◌==◌, concat, if◌then◌else◌,
}
use atel_sdk.Json.{Fields}

pub record AnchorRecord : Type 0 where
  pub hash : String
  pub tx_hash : String
  pub chain : String
  pub timestamp : ℕ
  pub block_number : Option ℕ
  pub metadata : Option Fields

-- The texts of `detail`.
pub data Detail : Type 0 where
  mock_unavailable not_found hash_matches hash_mismatch : Detail
  provider_detail : String → Detail

pub record AnchorVerification : Type 0 where
  pub valid : Bool
  pub hash : String
  pub tx_hash : String
  pub chain : String
  pub block_timestamp : Option ℕ
  pub detail : Option Detail

pub record AnchorProvider : Type 1 where
  pub Provider : Type 0
  pub Draw : Type 0
  pub chain : Provider → String
  pub anchor : Draw → String → Option Fields → Provider → Result String AnchorRecord × Provider
  pub verify : String → String → Provider → Result String AnchorVerification
  pub find_records : String → Provider → Result String (List AnchorRecord)

pub data AnchorError : Type 0 where
  already_registered : String → AnchorError
  no_provider : String → AnchorError
  provider_error : String → AnchorError
  all_failed : List (String × String) → AnchorError

-- The records of `found`, then those with the hash whose transaction is not there yet.
unfoldable pub add_local : String → List AnchorRecord → List AnchorRecord → List AnchorRecord
add_local hash [] found = found
add_local hash (r ∷ records) found = add_local hash records (
    if r.hash == hash && not (some_of (λ f. f.tx_hash == r.tx_hash) found)
    then found ++ r ∷ []
    else found)

module _ (interface : AnchorProvider) where
  open interface use {Provider, Draw}

  pub record AnchorManager : Type 0 where
    pub providers : Map Provider
    pub records : List AnchorRecord

  abbrev pub no_providers : AnchorManager
  no_providers = record { providers = []; records = [] }

  unfoldable pub register_provider : Provider → AnchorManager → Result AnchorError AnchorManager
  register_provider p g =
      if is_some (lookup (interface.chain p) g.providers)
      then err (already_registered (interface.chain p))
      else ok (record g { providers = insert (interface.chain p) p g.providers })

  -- What an anchored record leaves, under the provider's chain.
  abbrev pub keep_record :
      String
      → AnchorManager
      → Result String AnchorRecord × Provider
      → Result AnchorError AnchorRecord × AnchorManager
  keep_record chain g (ok r, p) =
      (ok r, record { providers = insert chain p g.providers; records = g.records ++ r ∷ [] })
  keep_record chain g (err text, p) =
      (err (provider_error text), record g { providers = insert chain p g.providers })

  abbrev pub anchor_with :
      Draw
      → String
      → String
      → Option Fields
      → Option Provider
      → AnchorManager
      → Result AnchorError AnchorRecord × AnchorManager
  anchor_with d hash chain metadata none g = (err (no_provider chain), g)
  anchor_with d hash chain metadata (some p) g =
      keep_record chain g (interface.anchor d hash metadata p)

  unfoldable pub anchor :
      Draw
      → String
      → String
      → Option Fields
      → AnchorManager
      → Result AnchorError AnchorRecord × AnchorManager
  anchor d hash chain metadata g = anchor_with d hash chain metadata (lookup chain g.providers) g

  -- The variables of anchorAll's loop, with the providers it has called.
  pub record Anchored : Type 0 where
    pub called : Map Provider
    pub results : List AnchorRecord
    pub errors : List (String × String)

  abbrev pub count_result : String → Result String AnchorRecord × Provider → Anchored → Anchored
  count_result chain (ok r, p) rest = record rest {
    called = (chain, p) ∷ rest.called;
    results = r ∷ rest.results;
  }
  count_result chain (err text, p) rest = record rest {
    called = (chain, p) ∷ rest.called;
    errors = (chain, text) ∷ rest.errors;
  }

  -- The loop: each provider draws what `d` has for its chain.
  unfoldable pub anchor_each : (String → Draw) → String → Option Fields → Map Provider → Anchored
  anchor_each d hash metadata [] = record { called = []; results = []; errors = [] }
  anchor_each d hash metadata ((chain, p) ∷ providers) =
      count_result chain (interface.anchor (d chain) hash metadata p)
        (anchor_each d hash metadata providers)

  abbrev pub all_or_error :
      List AnchorRecord → List (String × String) → Result AnchorError (List AnchorRecord)
  all_or_error [] (e ∷ errors) = err (all_failed (e ∷ errors))
  all_or_error results errors = ok results

  unfoldable pub anchor_all :
      (String → Draw)
      → String
      → Option Fields
      → AnchorManager
      → Result AnchorError (List AnchorRecord) × AnchorManager
  anchor_all d hash metadata g =
      let done = anchor_each d hash metadata g.providers in
      (
        all_or_error done.results done.errors,
        record { providers = done.called; records = g.records ++ done.results },
      )

  abbrev pub verify_with :
      String → String → String → Option Provider → Result AnchorError AnchorVerification
  verify_with hash tx_hash chain none = err (no_provider chain)
  verify_with hash tx_hash chain (some p) = elim (interface.verify hash tx_hash p) [
    | ok v ↦ ok v
    | err text ↦ err (provider_error text)
  ]

  unfoldable pub verify :
      String → String → String → AnchorManager → Result AnchorError AnchorVerification
  verify hash tx_hash chain g = verify_with hash tx_hash chain (lookup chain g.providers)

  abbrev pub or_skip : Result String (List AnchorRecord) → List AnchorRecord
  or_skip (ok records) = records
  or_skip (err text) = []

  -- What the providers find; one that throws is skipped.
  unfoldable pub found_by : String → Map Provider → List AnchorRecord
  found_by hash [] = []
  found_by hash ((chain, p) ∷ providers) =
      or_skip (interface.find_records hash p) ++ found_by hash providers

  unfoldable pub look_up : String → AnchorManager → List AnchorRecord
  look_up hash g = add_local hash g.records (found_by hash g.providers)

  -- importRecords, once the text is parsed
  unfoldable pub import_records : List AnchorRecord → AnchorManager → AnchorManager
  import_records parsed g = record g { records = g.records ++ parsed }
