-- ===== src/Trace/Appends.antt =====
-- What `append` of src/trace/index.ts puts into a trace, and the checkpoints that it brings.
use atel_sdk.Base.{
  String, ◌≡◌, ◌⊎◌, inl, inr, refl, sym, ◌∙◌, List, [], ◌∷◌, ok, err, ◌&&◌, Bool, true, false,
  arith, leb, ◌+◌, not, none, is_ok, ◌++◌,
}
use atel_sdk.Json.{Value}
use atel_sdk.Identity.{Host}
use atel_sdk.Trace.{
  TraceEventType, TraceEvent, Trace, Outcome, make_event, push_event, checkpoint, append,
  is_checkpoint, after_checkpoint, last_hash, last_from, genesis_prev, checkpoint_event,
}

last_from-append :
    (prev : String) (es : List TraceEvent) (e : TraceEvent) → last_from prev (es ++ e ∷ []) ≡ e.hash
last_from-append prev [] e = refl
last_from-append prev (x ∷ es) e = last_from-append x.hash es e

module _ (host : Host) where
  -- Whether an append brings a checkpoint with it.
  abbrev pub due : TraceEventType → Trace host → Bool
  due type t = not (is_checkpoint type) && leb t.checkpoint_interval (t.since_checkpoint + 1)

  after_checkpoint-eq-ok :
      (event e : TraceEvent) (r : Outcome host TraceEvent) (u : Trace host)
      → after_checkpoint host event r ≡ (ok e, u)
      → (e ≡ event) × (c : TraceEvent) × (r ≡ (ok c, u))
  after_checkpoint-eq-ok event e (ok c, t) u h = ((ground arith), c, ground arith)
  after_checkpoint-eq-ok event e (err x, t) u h = ground arith

  append-branches :
      (ts later : String) (type : TraceEventType) (payload : Value) (t : Trace host)
      → let event = make_event host t ts type payload none in
        let pushed = push_event host t event (t.since_checkpoint + 1) in
        (is_ok (append host ts later type payload t).0 ≡ false)
        ⊎ ((due type t ≡ true)
            × (append host ts later type payload t
                ≡ after_checkpoint host event (checkpoint host later pushed)))
        ⊎ ((due type t ≡ false) × (append host ts later type payload t ≡ (ok event, pushed)))
  unfolding append push_event
  append-branches ts later type payload t = ground arith

  append-eq-ok :
      (ts later : String) (type : TraceEventType) (payload : Value) (t u : Trace host)
      (e : TraceEvent)
      → append host ts later type payload t ≡ (ok e, u)
      → (e ≡ make_event host t ts type payload none)
        × (((due type t ≡ false) × (u ≡ push_event host t e (t.since_checkpoint + 1)))
            ⊎ ((due type t ≡ true)
                × (c : TraceEvent) × (checkpoint host later
                      (push_event host t e (t.since_checkpoint + 1))
                    ≡ (ok c, u))))
  append-eq-ok ts later type payload t u e h = elim (append-branches ts later type payload t) [
    | inl threw ↦ ground arith
    | inr (inl (full, made)) ↦
        let (same, c, r) = after_checkpoint-eq-ok _ e _ u (sym made ∙ h) in
        (same, inr (full, c, rw same r))
    | inr (inr (room, made)) ↦ ground arith
  ]

  checkpoint-ok :
      (ts : String) (t u : Trace host) (c : TraceEvent)
      → checkpoint host ts t ≡ (ok c, u)
      → (c.type ≡ checkpoint_event)
        × (c.prev ≡ last_hash t.events)
        × (u.events ≡ t.events ++ c ∷ [])
        × (u.since_checkpoint ≡ 0)
  unfolding checkpoint push_event make_event
  checkpoint-ok ts t u c h = ground arith

  -- A successful append adds the event that it returns, numbered and chained to the events before it.
  -- When the events since the last checkpoint reach the interval, and the event is no checkpoint
  -- itself, a checkpoint chained to it follows and the count starts again; otherwise nothing else is
  -- added and the count grows by one.
  pub append-ok :
      (ts later : String) (type : TraceEventType) (payload : Value) (t u : Trace host)
      (e : TraceEvent)
      → append host ts later type payload t ≡ (ok e, u)
      → (e ≡ make_event host t ts type payload none)
        × (((due type t ≡ false)
              × (u.events ≡ t.events ++ e ∷ [])
              × (u.since_checkpoint ≡ t.since_checkpoint + 1))
            ⊎ ((due type t ≡ true)
                × (c : TraceEvent) × (c.type ≡ checkpoint_event)
                × (c.prev ≡ e.hash)
                × (u.events ≡ (t.events ++ e ∷ []) ++ c ∷ [])
                × (u.since_checkpoint ≡ 0)))
  unfolding push_event
  append-ok ts later type payload t u e h =
      let (same, outcome) = append-eq-ok ts later type payload t u e h in
      (
        same,
        elim outcome [
          | inl (room, pushed) ↦ inl (room, rw pushed, rw pushed)
          | inr (full, c, made) ↦
              let (kind, link, added, since) = checkpoint-ok later _ u c made in
              inr (full, c, kind, link ∙ last_from-append genesis_prev t.events e, added, since)
        ],
      )
