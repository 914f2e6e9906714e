-- ===== src/Anchor/Verified.antt =====
-- Verifying what the manager of src/anchor/index.ts has anchored.
use atel_sdk.Base.{
  String, ◌≡◌, refl, ap, ◌∙◌, true, Option, none, some, List, [], ◌∷◌, ◌++◌, Result, ok, err,
  lookup, lookup-insert_self,
}
use atel_sdk.Json.{Fields}
use atel_sdk.Anchor.{
  AnchorRecord, AnchorVerification, AnchorProvider, AnchorManager, anchor, anchor_with, keep_record,
  verify, verify_with,
}
use atel_sdk.Anchor.Contract.{Laws, IsKeyed, Call, call_all}
use atel_sdk.Anchor.Kept.{Has, call_all-Has}

-- The manager's verification of the hash in the transaction succeeds.
abbrev pub IsVerified :
    (interface : AnchorProvider) → String → String → String → AnchorManager interface → Type 0
IsVerified interface hash tx chain g =
    (v : AnchorVerification) × (verify interface hash tx chain g ≡ ok v) × (v.valid ≡ true)

module _ (interface : AnchorProvider) where
  open interface use {Provider, Draw}

  -- The provider itself finds the hash in the transaction.
  abbrev pub Finds : String → String → Provider → Type 0
  Finds hash tx p =
      (v : AnchorVerification) × (interface.verify hash tx p ≡ ok v) × (v.valid ≡ true)

  Has-IsVerified :
      (hash tx chain : String) (g : AnchorManager interface)
      → Has interface (Finds hash tx) chain g
      → IsVerified interface hash tx chain g
  unfolding verify
  Has-IsVerified hash tx chain g (p, found, (v, checked, valid)) =
      (v, rw found (rw (verify_with, checked) refl), valid)

  -- A successful anchor came from the chain's provider, which the manager has with its new state.
  pub record CameFrom (d : Draw) (hash chain : String) (metadata : Option Fields)
      (g g2 : AnchorManager interface) (r : AnchorRecord) : Type 0 where
    pub old : Provider
    pub new : Provider
    pub was_there : lookup chain g.providers ≡ some old
    pub anchored : interface.anchor d hash metadata old ≡ (ok r, new)
    pub is_there : lookup chain g2.providers ≡ some new
    pub kept : g2.records ≡ g.records ++ r ∷ []

  from_call :
      (d : Draw) (hash chain : String) (metadata : Option Fields) (g g2 : AnchorManager interface)
      (r : AnchorRecord) (p : Provider) (c : Result String AnchorRecord × Provider)
      → lookup chain g.providers ≡ some p
      → interface.anchor d hash metadata p ≡ c
      → keep_record interface chain g c ≡ (ok r, g2)
      → CameFrom d hash chain metadata g g2 r
  from_call d hash chain metadata g g2 r p (err text, q) there e h = cc
  from_call d hash chain metadata g g2 r p (ok s, q) there e h =
      let same : s ≡ r = cc in
      let next = ap (λ x. x.1) h in
      record {
        old = p;
        new = q;
        was_there = there;
        anchored = rw same at e;
        is_there = rw (← next) (lookup-insert_self chain q g.providers);
        kept = rw (← next, same) refl;
      }

  from_provider :
      (d : Draw) (hash chain : String) (metadata : Option Fields) (g g2 : AnchorManager interface)
      (r : AnchorRecord) (o : Option Provider)
      → lookup chain g.providers ≡ o
      → anchor_with interface d hash chain metadata o g ≡ (ok r, g2)
      → CameFrom d hash chain metadata g g2 r
  from_provider d hash chain metadata g g2 r none there h = cc
  from_provider d hash chain metadata g g2 r (some p) there h =
      from_call d hash chain metadata g g2 r p (interface.anchor d hash metadata p) there refl h

  pub anchor-CameFrom :
      (d : Draw) (hash chain : String) (metadata : Option Fields) (g g2 : AnchorManager interface)
      (r : AnchorRecord)
      → anchor interface d hash chain metadata g ≡ (ok r, g2)
      → CameFrom d hash chain metadata g g2 r
  unfolding anchor
  anchor-CameFrom d hash chain metadata g g2 r h =
      from_provider d hash chain metadata g g2 r (lookup chain g.providers) refl h

  -- With providers that keep their promises, each under its chain, a record that the manager has anchored
  -- carries the hash and the chain that were asked for and is kept; and as its draw was fresh for the chain's provider,
  -- verifying it on its chain succeeds, after any further registrations, anchors and imports.
  pub verify-anchor :
      (laws : Laws interface) (d : Draw) (hash chain : String) (metadata : Option Fields)
      (g g2 : AnchorManager interface) (r : AnchorRecord) (later : List (Call interface))
      → IsKeyed interface g
      → ((p : Provider) → lookup chain g.providers ≡ some p → laws.Fresh d p)
      → anchor interface d hash chain metadata g ≡ (ok r, g2)
      → (r.hash ≡ hash)
        × (r.chain ≡ chain)
        × (g2.records ≡ g.records ++ r ∷ [])
        × IsVerified interface r.hash r.tx_hash r.chain (call_all interface later g2)
  verify-anchor laws d hash chain metadata g g2 r later keyed fresh h =
      let from = anchor-CameFrom d hash chain metadata g g2 r h in
      let (same_hash, own_chain) =
        laws.recorded d hash metadata from.old from.new r from.anchored in
      let same_chain = own_chain ∙ keyed chain from.old from.was_there in
      let valid =
        laws.fresh_valid d hash metadata from.old from.new r (fresh from.old from.was_there)
          from.anchored in
      let still =
        call_all-Has interface (Finds hash r.tx_hash) chain later g2
          (λ e other text p (v, checked, good).
            laws.stays_valid e other text p hash r.tx_hash v checked good)
          (from.new, from.is_there, valid) in
      (
        same_hash,
        same_chain,
        from.kept,
        rw (same_hash, same_chain)
            (Has-IsVerified hash r.tx_hash chain (call_all interface later g2) still),
      )
