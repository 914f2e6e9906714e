-- ===== src/Anchor/Kept.antt =====
-- What the manager of src/anchor/index.ts keeps of its providers.
use mathlib.Core.Option
use atel_sdk.Base.{
  String, ◌≡◌, refl, sym, ap, ◌∙◌, Option, none, some, List, [], ◌∷◌, Result, ok, err, Map, lookup,
  insert, lookup-insert, lookup-insert_self, Bool-cases, Option-cases, inl, inr, eq_iff, ◌==◌,
  if◌then◌else◌,
}
use atel_sdk.Json.{Fields}
use atel_sdk.Anchor.{
  AnchorRecord, AnchorProvider, AnchorManager, Anchored, register_provider, anchor, anchor_with,
  keep_record, count_result, anchor_each, anchor_all, import_records,
}
use atel_sdk.Anchor.Contract.{
  Laws, IsKeyed, Call, register, anchor_one, anchor_everywhere, import, call, call_all,
}

module _ (interface : AnchorProvider) where
  open interface use {Provider, Draw}

  -- The provider after a call.
  abbrev pub after : Draw → String → Option Fields → Provider → Provider
  after d hash metadata p = (interface.anchor d hash metadata p).1

  count_result-called :
      (j k : String) (r : Result String AnchorRecord × Provider) (rest : Anchored interface)
      → lookup k (count_result interface j r rest).called
        ≡ (if j == k then some r.1 else lookup k rest.called)
  unfolding lookup
  count_result-called j k (ok r, q) rest = refl
  count_result-called j k (err text, q) rest = refl

  -- The loop over the providers calls each of them.
  anchor_each-called :
      (d : String → Draw) (hash : String) (metadata : Option Fields) (m : Map Provider) (k : String)
      → lookup k (anchor_each interface d hash metadata m).called
        ≡ Option.map (λ p. after (d k) hash metadata p) (lookup k m)
  unfolding lookup anchor_each
  anchor_each-called d hash metadata [] k = refl
  anchor_each-called d hash metadata ((j, p) ∷ m) k =
      count_result-called j k (interface.anchor (d j) hash metadata p)
        (anchor_each interface d hash metadata m)
      ∙ elim (Bool-cases (j == k)) [
        | inl here ↦ rw (here, (eq_iff j k).0 here) refl
        | inr other ↦ rw other (anchor_each-called d hash metadata m k)
      ]

  -- What a single anchor leaves of the providers.
  anchor-providers :
      (d : Draw) (hash chain : String) (metadata : Option Fields) (g : AnchorManager interface)
      → (anchor interface d hash chain metadata g).1.providers ≡ elim (lookup chain g.providers) [
        | none ↦ g.providers
        | some p ↦ insert chain (after d hash metadata p) g.providers
      ]
  unfolding anchor
  anchor-providers d hash chain metadata g = with_provider (lookup chain g.providers)
    where
      kept :
          (r : Result String AnchorRecord × Provider)
          → (keep_record interface chain g r).1.providers ≡ insert chain r.1 g.providers
      kept (ok r, p) = refl
      kept (err text, p) = refl

      with_provider :
          (o : Option Provider)
          → (anchor_with interface d hash chain metadata o g).1.providers ≡ elim o [
            | none ↦ g.providers
            | some p ↦ insert chain (after d hash metadata p) g.providers
          ]
      with_provider none = refl
      with_provider (some p) = kept (interface.anchor d hash metadata p)

  -- The manager has a provider for the chain, with the property.
  abbrev pub Has : (Provider → Type 0) → String → AnchorManager interface → Type 0
  Has P k g = (p : Provider) × (lookup k g.providers ≡ some p) × P p

  anchor-Has :
      (P : Provider → Type 0) (k : String) (g : AnchorManager interface) (d : Draw)
      (hash chain : String) (metadata : Option Fields)
      → ((p : Provider) → P p → P (after d hash metadata p))
      → Has P k g
      → Has P k (anchor interface d hash chain metadata g).1
  anchor-Has P k g d hash chain metadata keeps (p, found, h) = elim (Bool-cases (chain == k)) [
    | inl here ↦
        let same = (eq_iff chain k).0 here in
        (
          after d hash metadata p,
          rw (anchor-providers d hash chain metadata g, same, found, same)
              (lookup-insert_self k (after d hash metadata p) g.providers),
          keeps p h,
        )
    | inr other ↦ (
      p,
      rw (anchor-providers d hash chain metadata g)
          (elim (Option-cases (lookup chain g.providers)) [
            | inl missing ↦ rw missing found
            | inr (q, there) ↦
                rw there (
                  sym (lookup-insert chain (after d hash metadata q) g.providers k)
                  ∙ rw other found)
          ]),
      h,
    )
  ]

  call-Has :
      (P : Provider → Type 0) (k : String) (c : Call interface) (g : AnchorManager interface)
      → ((d : Draw) (hash : String) (metadata : Option Fields) (p : Provider)
          → P p
          → P (after d hash metadata p))
      → Has P k g
      → Has P k (call interface c g)
  unfolding register_provider anchor_all import_records
  call-Has P k (register q) g keeps (p, found, h) =
      elim (Option-cases (lookup (interface.chain q) g.providers)) [
        | inr (old, there) ↦ rw there (p, found, h)
        | inl free ↦ rw free (
          p,
          sym (lookup-insert (interface.chain q) q g.providers k)
              ∙ elim (Bool-cases (interface.chain q == k)) [
                | inl here ↦ cc (free, found, (eq_iff (interface.chain q) k).0 here)
                | inr other ↦ rw other found
              ],
          h,
        )
      ]
  call-Has P k (anchor_one d hash chain metadata) g keeps h =
      anchor-Has P k g d hash chain metadata (keeps d hash metadata) h
  call-Has P k (anchor_everywhere d hash metadata) g keeps (p, found, h) = (
    after (d k) hash metadata p,
    anchor_each-called d hash metadata g.providers k ∙ rw found refl,
    keeps (d k) hash metadata p h,
  )
  call-Has P k (import parsed) g keeps h = h

  insert-IsKeyed :
      (j : String) (q : Provider) (m : Map Provider)
      → interface.chain q ≡ j
      → ((k : String) (p : Provider) → lookup k m ≡ some p → interface.chain p ≡ k)
      → (k : String) (p : Provider) → lookup k (insert j q m) ≡ some p
      → interface.chain p ≡ k
  insert-IsKeyed j q m own keyed k p found = elim (Bool-cases (j == k)) [
    | inl here ↦
        let same =
          Option.some-injective q p (rw here at (lookup-insert {V = Provider} j q m k ∙ found)) in
        ap interface.chain (sym same) ∙ own ∙ (eq_iff j k).0 here
    | inr other ↦ keyed k p (rw other at (lookup-insert {V = Provider} j q m k ∙ found))
  ]

  call-IsKeyed :
      Laws interface
      → (c : Call interface) (g : AnchorManager interface) → IsKeyed interface g
      → IsKeyed interface (call interface c g)
  unfolding register_provider anchor_all import_records
  call-IsKeyed laws (register q) g keyed =
      elim (Option-cases (lookup (interface.chain q) g.providers)) [
        | inr (old, there) ↦ rw there keyed
        | inl free ↦ rw free (insert-IsKeyed (interface.chain q) q g.providers refl keyed)
      ]
  call-IsKeyed laws (anchor_one d hash chain metadata) g keyed =
      rw (anchor-providers d hash chain metadata g)
        (elim (Option-cases (lookup chain g.providers)) [
          | inl missing ↦ rw missing keyed
          | inr (p, there) ↦ rw there (
              insert-IsKeyed chain (after d hash metadata p) g.providers
                (laws.chain_kept d hash metadata p ∙ keyed chain p there) keyed)
        ])
  call-IsKeyed laws (anchor_everywhere d hash metadata) g keyed = λ k p found.
      let (q, there, called) =
        (Option.map-eq-some_iff (λ q. after (d k) hash metadata q) (lookup k g.providers)).0
          (sym (anchor_each-called d hash metadata g.providers k) ∙ found) in
      ap interface.chain (sym called) ∙ laws.chain_kept (d k) hash metadata q ∙ keyed k q there
  call-IsKeyed laws (import parsed) g keyed = keyed

  pub call_all-Has :
      (P : Provider → Type 0) (k : String) (calls : List (Call interface))
      (g : AnchorManager interface)
      → ((d : Draw) (hash : String) (metadata : Option Fields) (p : Provider)
          → P p
          → P (after d hash metadata p))
      → Has P k g
      → Has P k (call_all interface calls g)
  call_all-Has P k [] g keeps h = h
  call_all-Has P k (c ∷ calls) g keeps h =
      call_all-Has P k calls (call interface c g) keeps (call-Has P k c g keeps h)

  pub call_all-IsKeyed :
      Laws interface
      → (calls : List (Call interface)) (g : AnchorManager interface) → IsKeyed interface g
      → IsKeyed interface (call_all interface calls g)
  call_all-IsKeyed laws [] g keyed = keyed
  call_all-IsKeyed laws (c ∷ calls) g keyed =
      call_all-IsKeyed laws calls (call interface c g) (call-IsKeyed laws c g keyed)
