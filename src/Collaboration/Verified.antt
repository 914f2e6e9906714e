-- ===== src/Collaboration/Verified.antt =====
-- What becomes of the events that CollaborationAnchor of src/collaboration/index.ts anchors.
use mathlib.Core.List.{append-nil, append_assoc}
use atel_sdk.Base.{
  String, ◌≡◌, refl, sym, ap, subst, ◌∙◌, All, All-weaken, some_of-append, ◌==◌, eq_refl, arith,
  Bool, true, Option, some, List, [], ◌∷◌, ◌++◌, map, Result, ok, err, filter, filter-append,
  includes, lookup,
}
use atel_sdk.Anchor.{AnchorRecord, AnchorError, Detail, AnchorProvider, AnchorManager, anchor}
use atel_sdk.Anchor.Contract.{Laws, IsKeyed, Call, anchor_one, call_all}
use atel_sdk.Anchor.Verified.{IsVerified, verify-anchor}
use atel_sdk.Collaboration.{
  Event, handshake, task_delegation, execution_proof, trust_score, dispute_evidence, key_rotation,
  CollaborationAnchorType, CollaborationAnchor, CollaborationAnchorRecord, or_default, record_of,
  keep_event, anchor_event, get_records_by_type, get_records_by_participant, verify_anchor, checked,
  same_type,
}

module _ (interface : AnchorProvider) where
  open interface use {Provider, Draw}

  -- Later events, each with its draw and its chain.
  abbrev pub Submission : Type 0
  Submission = Draw × Event × Option String

  abbrev pub anchor_events :
      List Submission → CollaborationAnchor interface → CollaborationAnchor interface
  anchor_events [] c = c
  anchor_events ((d, e, chain) ∷ more) c = anchor_events more (anchor_event interface d e chain c).1

  -- The calls of the manager that events make.
  abbrev calls_of : String → List Submission → List (Call interface)
  calls_of default subs =
      map
        (λ (s : Submission).
          anchor_one s.0 s.1.hash (or_default interface s.2 default) (some s.1.metadata))
        subs

  keep_event-manager :
      (e : Event) (c : CollaborationAnchor interface)
      (r : Result AnchorError AnchorRecord × AnchorManager interface)
      → ((keep_event interface e c r).1.anchor_manager ≡ r.1)
        × ((keep_event interface e c r).1.default_chain ≡ c.default_chain)
  keep_event-manager e c (ok a, g) = (refl, refl)
  keep_event-manager e c (err x, g) = (refl, refl)

  anchor_events-manager :
      (subs : List Submission) (c : CollaborationAnchor interface)
      → (anchor_events subs c).anchor_manager
        ≡ call_all interface (calls_of c.default_chain subs) c.anchor_manager
  unfolding anchor_event
  anchor_events-manager [] c = refl
  anchor_events-manager ((d, e, chain) ∷ subs) c =
      let (manager, default) = keep_event-manager e c (
        anchor interface d e.hash (or_default interface chain c.default_chain) (some e.metadata)
          c.anchor_manager) in
      anchor_events-manager subs (anchor_event interface d e chain c).1 ∙ rw (manager, default) refl

  -- The list goes on from the other.
  abbrev pub Extends : List CollaborationAnchorRecord → List CollaborationAnchorRecord → Type 0
  Extends old new = (more : List CollaborationAnchorRecord) × (new ≡ old ++ more)

  keep_event-Extends :
      (e : Event) (c : CollaborationAnchor interface)
      (r : Result AnchorError AnchorRecord × AnchorManager interface)
      → Extends c.records (keep_event interface e c r).1.records
  keep_event-Extends e c (ok a, g) = (record_of interface e a ∷ [], refl)
  keep_event-Extends e c (err x, g) = ([], sym (append-nil c.records))

  anchor_events-Extends :
      (subs : List Submission) (c : CollaborationAnchor interface)
      → Extends c.records (anchor_events subs c).records
  unfolding anchor_event
  anchor_events-Extends [] c = ([], sym (append-nil c.records))
  anchor_events-Extends ((d, e, chain) ∷ subs) c =
      let (one, first) = keep_event-Extends e c (
        anchor interface d e.hash (or_default interface chain c.default_chain) (some e.metadata)
          c.anchor_manager) in
      let (more, rest) = anchor_events-Extends subs (anchor_event interface d e chain c).1 in
      (one ++ more, rest ∙ ap (λ l. l ++ more) first ∙ append_assoc c.records one more)

  -- A successful event: what its manager did, and the record it keeps.
  keep_event-ok :
      (e : Event) (c c2 : CollaborationAnchor interface) (r : CollaborationAnchorRecord)
      (call : Result AnchorError AnchorRecord × AnchorManager interface)
      → keep_event interface e c call ≡ (ok r, c2)
      → (a : AnchorRecord) × (call ≡ (ok a, c2.anchor_manager))
        × (r ≡ record_of interface e a)
        × (c2.records ≡ c.records ++ r ∷ [])
  keep_event-ok e c c2 r (err x, g) h = cc
  keep_event-ok e c c2 r (ok a, g) h =
      let same : r ≡ record_of interface e a = cc in
      let next = ap (λ x. x.1) h in
      (
        a,
        ap (λ x. (ok a, x.anchor_manager)) next,
        same,
        ap (λ x. x.records) (sym next) ∙ ap (λ x. c.records ++ x ∷ []) (sym same),
      )

  -- The record is among those that a query gives.
  abbrev pub Among : CollaborationAnchorRecord → List CollaborationAnchorRecord → Type 0
  Among r records =
      (before : List CollaborationAnchorRecord) × (after : List CollaborationAnchorRecord)
      × (records ≡ before ++ r ∷ after)

  filter-Among :
      (p : CollaborationAnchorRecord → Bool) (r : CollaborationAnchorRecord)
      (before after records : List CollaborationAnchorRecord)
      → p r ≡ true
      → records ≡ before ++ r ∷ after
      → Among r (filter p records)
  filter-Among p r before after records h stands = (
    filter p before,
    filter p after,
    ap (filter p) stands
        ∙ filter-append p before (r ∷ after)
        ∙ ap (λ l. filter p before ++ l) (rw h refl),
  )

  same_type_self : (t : CollaborationAnchorType) → same_type t t ≡ true
  same_type_self handshake = refl
  same_type_self task_delegation = refl
  same_type_self execution_proof = refl
  same_type_self trust_score = refl
  same_type_self dispute_evidence = refl
  same_type_self key_rotation = refl

  includes-each :
      (before after : List String) → All (λ x. includes (before ++ after) x ≡ true) after
  includes-each before [] = tt
  includes-each before (x ∷ after) = (
    some_of-append (λ y. y == x) before (x ∷ after) ∙ rw (eq_refl x) (ground arith),
    subst (λ l. All (λ y. includes l y ≡ true) after) (append_assoc before (x ∷ []) after)
        (includes-each (before ++ x ∷ []) after),
  )

  -- The record is verified, and the queries for its type and for each of its participants give it.
  pub record IsOnRecord (r : CollaborationAnchorRecord) (c : CollaborationAnchor interface)
      : Type 0 where
    pub detail : Option Detail
    pub verified : verify_anchor interface r c ≡ checked true detail
    pub by_type : Among r (get_records_by_type interface r.type c)
    pub by_participant :
        All (λ did. Among r (get_records_by_participant interface did c)) r.participants

  on_record :
      (r : CollaborationAnchorRecord) (c : CollaborationAnchor interface)
      (before after : List CollaborationAnchorRecord)
      → c.records ≡ before ++ r ∷ after
      → IsVerified interface r.hash r.anchor.tx_hash r.anchor.chain c.anchor_manager
      → IsOnRecord r c
  unfolding get_records_by_type get_records_by_participant verify_anchor
  on_record r c before after stands (v, valid_answer, valid) = record {
    detail = v.detail;
    verified = rw (valid_answer, valid) refl;
    by_type =
        filter-Among (λ x. same_type x.type r.type) r before after c.records (same_type_self r.type)
          stands;
    by_participant =
        All-weaken
          (λ did inside.
            filter-Among (λ x. includes x.participants did) r before after c.records inside stands)
          r.participants (includes-each [] r.participants);
  }

  -- With providers that keep their promises, each under its chain: the record of an event that was anchored
  -- with a fresh draw is verified on the chain that it names, and the queries by its type and by each of its
  -- participants give it, after any later events.
  pub anchor_event-IsOnRecord :
      (laws : Laws interface) (d : Draw) (e : Event) (chain : Option String)
      (c c2 : CollaborationAnchor interface) (r : CollaborationAnchorRecord)
      (later : List Submission)
      → IsKeyed interface c.anchor_manager
      → ((p : Provider)
          → lookup (or_default interface chain c.default_chain) c.anchor_manager.providers ≡ some p
          → laws.Fresh d p)
      → anchor_event interface d e chain c ≡ (ok r, c2)
      → IsOnRecord r (anchor_events later c2)
  unfolding anchor_event
  anchor_event-IsOnRecord laws d e chain c c2 r later keyed fresh h =
      let (a, called, made, kept) =
        keep_event-ok e c c2 r
          (anchor interface d e.hash (or_default interface chain c.default_chain) (some e.metadata)
            c.anchor_manager)
          h in
      let (same_hash, same_chain, stored, verified) =
        verify-anchor interface laws d e.hash (or_default interface chain c.default_chain)
          (some e.metadata) c.anchor_manager c2.anchor_manager a (calls_of c2.default_chain later)
          keyed fresh called in
      let (more, extends) = anchor_events-Extends later c2 in
      on_record r (anchor_events later c2) c.records more
        (extends ∙ ap (λ l. l ++ more) kept ∙ append_assoc c.records (r ∷ []) more)
        (rw (made, anchor_events-manager later c2, ← same_hash) verified)
