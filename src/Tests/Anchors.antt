-- ===== src/Tests/Anchors.antt =====
-- The theorems on anchors and collaboration at the mock provider.
use mathlib.Core.Option
use atel_sdk.Base.{
  sym, ◌∙◌, Bool-cases, inl, inr, eq_iff, ◌==◌, some_of, String, ◌≡◌, refl, true, none, some, List,
  [], ◌∷◌, ◌++◌, ok, ap, lookup, insert,
}
use atel_sdk.Json.{end}
use atel_sdk.Anchor.{AnchorRecord, AnchorManager, anchor}
use atel_sdk.Anchor.Mock.{MockDraw, MockAnchorProvider, mock, mock_anchor, mock_record}
use atel_sdk.Anchor.Mock.Promises.{IsFresh, mock_laws}
use atel_sdk.Anchor.Contract.{IsKeyed, Call, anchor_one, call_all}
use atel_sdk.Anchor.Verified.{IsVerified, verify-anchor}
use atel_sdk.Collaboration.{Event, CollaborationAnchor, trust_score, record_of, anchor_event}
use atel_sdk.Collaboration.Verified.{IsOnRecord, anchor_events, anchor_event-IsOnRecord}

abbrev empty_mock : MockAnchorProvider
empty_mock = record { chain = "mock"; records = []; available = true }

abbrev manager : AnchorManager mock
manager = record { providers = ("mock", empty_mock) ∷ []; records = [] }

abbrev draw : String → MockDraw
draw uuid = record { uuid = uuid; now = 5; block = 9 }

abbrev anchored : AnchorRecord
anchored = mock_record (draw "1") "hash" "mock" none

abbrev after_anchor : AnchorManager mock
after_anchor = record {
  providers = ("mock", record empty_mock { records = anchored ∷ [] }) ∷ [];
  records = anchored ∷ [];
}

anchors : anchor mock (draw "1") "hash" "mock" none manager ≡ (ok anchored, after_anchor)
unfolding anchor mock_anchor lookup insert
anchors = refl

manager-IsKeyed : IsKeyed mock manager
unfolding lookup
manager-IsKeyed k p h = elim (Bool-cases ("mock" == k)) [
  | inl here ↦
      let same : empty_mock ≡ p = Option.some-injective empty_mock p (rw here at h) in
      ap (λ (x : MockAnchorProvider). x.chain) (sym same) ∙ (eq_iff "mock" k).0 here
  | inr other ↦ let nothing = rw other at h in cc
]

manager-IsFresh :
    (p : MockAnchorProvider) → lookup "mock" manager.providers ≡ some p → IsFresh (draw "1") p
unfolding lookup
manager-IsFresh p h =
    let same : empty_mock ≡ p = Option.some-injective empty_mock p h in
    ap (λ (x : MockAnchorProvider). some_of (λ r. r.tx_hash == "0xmock_1") x.records) (sym same)

abbrev later : List (Call mock)
later = anchor_one (draw "2") "other" "mock" none ∷ []

verify-anchor_example :
    (anchored.hash ≡ "hash")
    × (anchored.chain ≡ "mock")
    × (after_anchor.records ≡ manager.records ++ anchored ∷ [])
    × IsVerified mock anchored.hash anchored.tx_hash anchored.chain
        (call_all mock later after_anchor)
unfolding mock_laws
verify-anchor_example =
    verify-anchor mock mock_laws (draw "1") "hash" "mock" none manager after_anchor anchored later
      manager-IsKeyed manager-IsFresh anchors

abbrev event : Event
event = record {
  type = trust_score;
  hash = "hash";
  metadata = end;
  participants = "alice" ∷ [];
  description = "Trust score 5";
  timestamp = "t";
}

abbrev collaboration : CollaborationAnchor mock
collaboration = record { anchor_manager = manager; default_chain = "mock"; records = [] }

abbrev noted : AnchorRecord
noted = mock_record (draw "1") "hash" "mock" (some end)

abbrev after_event : CollaborationAnchor mock
after_event = record {
  anchor_manager = record {
    providers = ("mock", record empty_mock { records = noted ∷ [] }) ∷ [];
    records = noted ∷ [];
  };
  default_chain = "mock";
  records = record_of mock event noted ∷ [];
}

event_anchored :
    anchor_event mock (draw "1") event none collaboration
    ≡ (ok (record_of mock event noted), after_event)
unfolding anchor_event anchor mock_anchor lookup insert
event_anchored = refl

anchor_event-IsOnRecord_example :
    IsOnRecord mock
      (record_of mock event noted)
      (anchor_events mock ((draw "2", event, none) ∷ []) after_event)
unfolding mock_laws
anchor_event-IsOnRecord_example =
    anchor_event-IsOnRecord mock mock_laws (draw "1") event none collaboration after_event
      (record_of mock event noted) ((draw "2", event, none) ∷ []) manager-IsKeyed manager-IsFresh
      event_anchored
