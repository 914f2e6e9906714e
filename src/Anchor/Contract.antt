-- ===== src/Anchor/Contract.antt =====
-- What the manager of src/anchor/index.ts asks of its providers, and the calls that change it.
use atel_sdk.Base.{String, ◌≡◌, true, Option, some, List, [], ◌∷◌, Result, ok, err, lookup}
use atel_sdk.Json.{Fields}
use atel_sdk.Anchor.{
  AnchorRecord, AnchorVerification, AnchorProvider, AnchorManager, register_provider, anchor,
  anchor_all, import_records,
}

-- What a provider promises: a call keeps its chain and records the hash under it; with a fresh draw the
-- record is valid afterwards, and what was valid stays so.
pub record Laws (interface : AnchorProvider) : Type 1 where
  pub Fresh : interface.Draw → interface.Provider → Type 0
  pub chain_kept :
      (d : interface.Draw) (hash : String) (metadata : Option Fields) (p : interface.Provider)
      → interface.chain (interface.anchor d hash metadata p).1 ≡ interface.chain p
  pub recorded :
      (d : interface.Draw) (hash : String) (metadata : Option Fields) (p q : interface.Provider)
      (r : AnchorRecord)
      → interface.anchor d hash metadata p ≡ (ok r, q)
      → (r.hash ≡ hash) × (r.chain ≡ interface.chain p)
  pub fresh_valid :
      (d : interface.Draw) (hash : String) (metadata : Option Fields) (p q : interface.Provider)
      (r : AnchorRecord)
      → Fresh d p
      → interface.anchor d hash metadata p ≡ (ok r, q)
      → (v : AnchorVerification) × (interface.verify hash r.tx_hash q ≡ ok v) × (v.valid ≡ true)
  pub stays_valid :
      (d : interface.Draw) (hash : String) (metadata : Option Fields) (p : interface.Provider)
      (old tx : String) (v : AnchorVerification)
      → interface.verify old tx p ≡ ok v
      → v.valid ≡ true
      → (w : AnchorVerification) × (interface.verify old tx (interface.anchor d hash metadata p).1
          ≡ ok w)
        × (w.valid ≡ true)

-- Each provider stands under its own chain.
abbrev pub IsKeyed : (interface : AnchorProvider) → AnchorManager interface → Type 0
IsKeyed interface g =
    (k : String) (p : interface.Provider) → lookup k g.providers ≡ some p → interface.chain p ≡ k

-- Calls of the manager that change it.
pub data Call (interface : AnchorProvider) : Type 0 where
  register : interface.Provider → Call interface
  anchor_one : interface.Draw → String → String → Option Fields → Call interface
  anchor_everywhere : (String → interface.Draw) → String → Option Fields → Call interface
  import : List AnchorRecord → Call interface

abbrev pub manager_or {ℓ κ} : {E : Type κ} {A : Type ℓ} → A → Result E A → A
manager_or old (ok new) = new
manager_or old (err e) = old

abbrev pub call :
    (interface : AnchorProvider)
    → Call interface
    → AnchorManager interface
    → AnchorManager interface
call interface (register p) g = manager_or g (register_provider interface p g)
call interface (anchor_one d hash chain metadata) g = (anchor interface d hash chain metadata g).1
call interface (anchor_everywhere d hash metadata) g = (anchor_all interface d hash metadata g).1
call interface (import parsed) g = import_records interface parsed g

abbrev pub call_all :
    (interface : AnchorProvider)
    → List (Call interface)
    → AnchorManager interface
    → AnchorManager interface
call_all interface [] g = g
call_all interface (c ∷ calls) g = call_all interface calls (call interface c g)
