-- ===== src/Anchor/Mock/Promises.antt =====
-- The mock provider of src/anchor/mock.ts, against the promises of a provider.
use atel_sdk.Base.{
  String, ◌≡◌, refl, sym, ap, ◌∙◌, subst, Bool, true, false, Option, some, List, [], ◌∷◌, ◌++◌,
  Result, ok, err, find, some_of, ◌==◌, concat, Bool-cases, Option-cases, inl, inr, eq_iff, eq_refl,
  arith, if◌then◌else◌,
}
use atel_sdk.Json.{Fields}
use atel_sdk.Anchor.{AnchorRecord, AnchorVerification}
use atel_sdk.Anchor.Contract.{Laws}
use atel_sdk.Anchor.Mock.{
  MockAnchorProvider, MockDraw, mock, mock_anchor, mock_verify, mock_record, verification_of,
}

abbrev by_tx : String → AnchorRecord → Bool
by_tx tx r = r.tx_hash == tx

-- The identifier is new to the provider.
abbrev pub IsFresh : MockDraw → MockAnchorProvider → Type 0
IsFresh d p = some_of (by_tx (concat "0xmock_" d.uuid)) p.records ≡ false

find-append_fresh :
    (tx : String) (records : List AnchorRecord) (r : AnchorRecord)
    → some_of (by_tx tx) records ≡ false
    → r.tx_hash ≡ tx
    → find (by_tx tx) (records ++ r ∷ []) ≡ some r
find-append_fresh tx [] r new own = rw (own, eq_refl tx) refl
find-append_fresh tx (s ∷ records) r new own = elim (Bool-cases (s.tx_hash == tx)) [
  | inl here ↦ ground (arith, here, new)
  | inr other ↦ rw other (find-append_fresh tx records r (rw other at new) own)
]

find-append :
    (tx : String) (records more : List AnchorRecord) (r : AnchorRecord)
    → find (by_tx tx) records ≡ some r
    → find (by_tx tx) (records ++ more) ≡ some r
find-append tx [] more r h = cc
find-append tx (s ∷ records) more r h = elim (Bool-cases (s.tx_hash == tx)) [
  | inl here ↦ rw here (rw here at h)
  | inr other ↦ rw other (find-append tx records more r (rw other at h))
]

abbrev pub Finds : String → String → MockAnchorProvider → Type 0
Finds hash tx p = (v : AnchorVerification) × (mock_verify hash tx p ≡ ok v) × (v.valid ≡ true)

mock_anchor-open :
    (d : MockDraw) (hash : String) (metadata : Option Fields) (p : MockAnchorProvider)
    → p.available ≡ true
    → mock_anchor d hash metadata p ≡ (
      ok (mock_record d hash p.chain metadata),
      record p { records = p.records ++ mock_record d hash p.chain metadata ∷ [] },
    )
unfolding mock_anchor
mock_anchor-open d hash metadata p e =
    let r = mock_record d hash p.chain metadata in
    let open_case : Result String AnchorRecord × MockAnchorProvider =
      (ok r, record p { records = p.records ++ r ∷ [] }) in
    ap (λ b. if b then open_case else (err "Mock provider is unavailable", p)) e

mock_anchor-closed :
    (d : MockDraw) (hash : String) (metadata : Option Fields) (p : MockAnchorProvider)
    → p.available ≡ false
    → mock_anchor d hash metadata p ≡ (err "Mock provider is unavailable", p)
unfolding mock_anchor
mock_anchor-closed d hash metadata p e =
    let r = mock_record d hash p.chain metadata in
    let open_case : Result String AnchorRecord × MockAnchorProvider =
      (ok r, record p { records = p.records ++ r ∷ [] }) in
    ap (λ b. if b then open_case else (err "Mock provider is unavailable", p)) e

recorded-Finds :
    (hash tx : String) (p : MockAnchorProvider) (r : AnchorRecord)
    → p.available ≡ true
    → find (by_tx tx) p.records ≡ some r
    → r.hash ≡ hash
    → Finds hash tx p
unfolding mock_verify
recorded-Finds hash tx p r open_now found same = (
  verification_of hash tx p.chain (some r),
  simp (open_now, found) refl,
  (eq_iff r.hash hash).1 same,
)

-- What a valid verification shows.
Finds-record :
    (hash tx : String) (p : MockAnchorProvider)
    → Finds hash tx p
    → (p.available ≡ true)
      × ((r : AnchorRecord) × (find (by_tx tx) p.records ≡ some r) × (r.hash ≡ hash))
unfolding mock_verify
Finds-record hash tx p (v, checked, valid) = elim (Bool-cases p.available) [
  | inr closed ↦ let bad = simp closed at checked in cc
  | inl open_now ↦ elim (Option-cases (find (by_tx tx) p.records)) [
    | inl nothing ↦ let bad = simp (open_now, nothing) at checked in cc
    | inr (r, found) ↦
        let good = simp (open_now, found) at checked in
        (open_now, (r, found, (eq_iff r.hash hash).0 (cc)))
  ]
]

pub anchor-recorded :
    (d : MockDraw) (hash : String) (metadata : Option Fields) (p q : MockAnchorProvider)
    (r : AnchorRecord)
    → mock_anchor d hash metadata p ≡ (ok r, q)
    → (p.available ≡ true)
      × (r ≡ mock_record d hash p.chain metadata)
      × (q ≡ record p { records = p.records ++ r ∷ [] })
anchor-recorded d hash metadata p q r h = elim (Bool-cases p.available) [
  | inl open_now ↦
      let both = sym h ∙ mock_anchor-open d hash metadata p open_now in
      let same : r ≡ mock_record d hash p.chain metadata = cc in
      (
        open_now,
        same,
        ap (λ x. x.1) both ∙ ap (λ x. record p { records = p.records ++ x ∷ [] }) (sym same),
      )
  | inr closed ↦ let both = sym h ∙ mock_anchor-closed d hash metadata p closed in cc
]

pub kept_chain :
    (d : MockDraw) (hash : String) (metadata : Option Fields) (p : MockAnchorProvider)
    → (mock_anchor d hash metadata p).1.chain ≡ p.chain
kept_chain d hash metadata p = elim (Bool-cases p.available) [
  | inl open_now ↦ ap (λ x. x.1.chain) (mock_anchor-open d hash metadata p open_now)
  | inr closed ↦ ap (λ x. x.1.chain) (mock_anchor-closed d hash metadata p closed)
]

pub fresh-Finds :
    (d : MockDraw) (hash : String) (metadata : Option Fields) (p q : MockAnchorProvider)
    (r : AnchorRecord)
    → IsFresh d p
    → mock_anchor d hash metadata p ≡ (ok r, q)
    → Finds hash r.tx_hash q
fresh-Finds d hash metadata p q r new h =
    let (open_now, made, next) = anchor-recorded d hash metadata p q r h in
    let own = ap (λ x. x.tx_hash) made in
    rw next (
      recorded-Finds hash r.tx_hash (record p { records = p.records ++ r ∷ [] }) r open_now
        (find-append_fresh r.tx_hash p.records r (rw own new) refl) (ap (λ x. x.hash) made))

pub stays_found :
    (d : MockDraw) (hash : String) (metadata : Option Fields) (p : MockAnchorProvider)
    (old tx : String)
    → Finds old tx p
    → Finds old tx (mock_anchor d hash metadata p).1
stays_found d hash metadata p old tx h =
    let (open_now, (r, found, same)) = Finds-record old tx p h in
    let made = mock_record d hash p.chain metadata in
    subst (λ x. Finds old tx x.1) (sym (mock_anchor-open d hash metadata p open_now))
      (recorded-Finds old tx (record p { records = p.records ++ made ∷ [] }) r open_now
        (find-append tx p.records (made ∷ []) r found) same)

unfoldable pub mock_laws : Laws mock
mock_laws = record {
  Fresh = IsFresh;
  chain_kept = kept_chain;
  recorded = λ d hash metadata p q r h.
      let (open_now, made, next) = anchor-recorded d hash metadata p q r h in
      (ap (λ x. x.hash) made, ap (λ x. x.chain) made);
  fresh_valid = fresh-Finds;
  stays_valid = λ d hash metadata p old tx v checked valid.
      stays_found d hash metadata p old tx (v, checked, valid);
}
