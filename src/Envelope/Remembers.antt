-- ===== src/Envelope/Remembers.antt =====
-- The nonce tracker of src/envelope/index.ts against a tracker that forgets nothing.
use atel_sdk.Base.{
  ℕ, ◌+◌, ◌≤◌, String, ◌≡◌, refl, sym, ap, ◌∙◌, Bool, true, false, not, Option, none, some, List,
  [], ◌∷◌, Map, lookup, insert, filter, is_some, lookup-insert, lookup-insert_self, All, All-weaken,
  ltb, leb, eq_iff, ◌==◌, arith, if◌then◌else◌, Bool-cases, Option-cases, inl, inr,
}
use atel_sdk.Envelope.{NonceTracker, new_nonce_tracker, evict, check}
use atel_sdk.Envelope.Nonces.{lookup-evict, check_age}

-- A nonce is known while its last recorded time is within the age. Nothing is ever dropped.
abbrev pub is_known : ℕ → ℕ → Option ℕ → Bool
is_known age now none = false
is_known age now (some time) = leb now (time + age)

abbrev pub remember : ℕ → ℕ → ℕ → String → Map ℕ → Bool × Map ℕ
remember age now later nonce seen =
    if is_known age now (lookup nonce seen) then (false, seen) else (true, insert nonce later seen)

-- One check: the time that the eviction reads, the time that is recorded, and the nonce.
abbrev pub NonceCheck : Type 0
NonceCheck = ℕ × ℕ × String

abbrev pub answers : List NonceCheck → NonceTracker → List Bool
answers [] t = []
answers ((now, later, nonce) ∷ checks) t =
    let r = check now later nonce t in r.0 ∷ answers checks r.1

abbrev pub remembered : ℕ → List NonceCheck → Map ℕ → List Bool
remembered age [] seen = []
remembered age ((now, later, nonce) ∷ checks) seen =
    let r = remember age now later nonce seen in r.0 ∷ remembered age checks r.1

-- The evictions read times in order, from a first one on.
abbrev pub InOrder : ℕ → List NonceCheck → Type 0
InOrder start [] = Unit
InOrder start ((now, later, nonce) ∷ checks) = (start ≤ now) × InOrder now checks

-- The tracker after an eviction holds what is remembered, less what has aged.
pub record Holds (now : ℕ) (t : NonceTracker) (seen : Map ℕ) : Type 0 where
  pub true_entries : All (λ (e : String × ℕ). lookup e.0 seen ≡ some e.1) t.seen
  pub young_kept :
      (nonce : String) (time : ℕ)
      → lookup nonce seen ≡ some time
      → now ≤ time + t.max_age_ms
      → lookup nonce t.seen ≡ some time

All-filter {ℓ κ} :
    {A : Type ℓ} (P : A → Type κ) (p : A → Bool) (xs : List A)
    → All P xs
    → All (λ x. P x × (p x ≡ true)) (filter p xs)
All-filter P p [] h = tt
All-filter P p (x ∷ xs) h = elim (Bool-cases (p x)) [
  | inl kept ↦ rw kept ((h.0, kept), All-filter P p xs h.1)
  | inr dropped ↦ rw dropped (All-filter P p xs h.1)
]

-- What holds of all entries holds of the one that is found.
All-lookup {ℓ} :
    (P : String × ℕ → Type ℓ) (k : String) (v : ℕ) (m : Map ℕ)
    → All P m
    → lookup k m ≡ some v
    → P (k, v)
unfolding lookup
All-lookup P k v [] h e = ground arith
All-lookup P k v ((j, w) ∷ m) h e = elim (Bool-cases (j == k)) [
  | inl here ↦ let same : w ≡ v = ground (arith, here, e) in rw (← same, ← (eq_iff j k).0 here) h.0
  | inr other ↦ All-lookup P k v m h.1 (rw other at e)
]

-- A new entry comes in without touching the others.
All-insert {ℓ} :
    (P : String × ℕ → Type ℓ) (k : String) (v : ℕ) (m : Map ℕ)
    → P (k, v)
    → lookup k m ≡ none
    → All (λ e. (e.0 == k) ≡ false → P e) m
    → All P (insert k v m)
unfolding insert lookup
All-insert P k v [] h e rest = (h, tt)
All-insert P k v ((j, w) ∷ m) h e rest = elim (Bool-cases (j == k)) [
  | inl here ↦ ground (arith, here, e)
  | inr other ↦ rw other (rest.0 other, All-insert P k v m h (rw other at e) rest.1)
]

lookup_other :
    (k j : String) (v : ℕ) (m : Map ℕ) → (j == k) ≡ false → lookup j m ≡ lookup j (insert k v m)
lookup_other k j v m other = ground (arith, lookup-insert k v m j, eq_iff j k, eq_iff k j, other)

module _ (start now later : ℕ) (nonce : String) (t : NonceTracker) (seen : Map ℕ)
    (ordered : start ≤ now) (h : Holds start t seen) where
  kept_entries :
      All
        (λ e. (lookup e.0 seen ≡ some e.1) × (not (ltb (e.1 + t.max_age_ms) now) ≡ true))
        (evict now t).seen
  unfolding evict
  kept_entries = All-filter _ _ t.seen h.true_entries

  young :
      (k : String) (time : ℕ)
      → lookup k seen ≡ some time
      → now ≤ time + t.max_age_ms
      → lookup k (evict now t).seen ≡ some time
  young k time known early =
      lookup-evict now k time t (h.young_kept k time known (omega (arith, ordered, early))) early

  evict-Holds : Holds now (evict now t) seen
  unfolding evict
  evict-Holds = record {
    true_entries = All-weaken (λ e p. p.0) (evict now t).seen kept_entries;
    young_kept = young;
  }

  -- The eviction is not seen in the answer.
  evict-is_known :
      is_some (lookup nonce (evict now t).seen) ≡ is_known t.max_age_ms now (lookup nonce seen)
  evict-is_known = elim (Option-cases (lookup nonce (evict now t).seen)) [
    | inr (v, e) ↦
        let (known, fresh) = All-lookup _ nonce v (evict now t).seen kept_entries e in
        rw (e, known) (ground (arith, fresh))
    | inl e ↦ elim (Option-cases (lookup nonce seen)) [
      | inl unknown ↦ rw (e, unknown) refl
      | inr (time, known) ↦ elim (Bool-cases (leb now (time + t.max_age_ms))) [
        | inl early ↦ ground (arith, young nonce time known (ground (arith, early)), e)
        | inr late ↦ rw (e, known, late) refl
      ]
    ]
  ]

  -- A new nonce is recorded on both sides.
  record-Holds :
      lookup nonce (evict now t).seen ≡ none
      → Holds now
          (record (evict now t) { seen = insert nonce later (evict now t).seen })
          (insert nonce later seen)
  unfolding evict
  record-Holds new = record {
    true_entries =
        All-insert _ nonce later (evict now t).seen (lookup-insert_self nonce later seen) new (
          All-weaken (λ e p other. sym (lookup_other nonce e.0 later seen other) ∙ p.0)
            (evict now t).seen kept_entries);
    young_kept = λ k time known early. recorded k time known early;
  }
    where
      recorded :
          (k : String) (time : ℕ)
          → lookup k (insert nonce later seen) ≡ some time
          → now ≤ time + (evict now t).max_age_ms
          → lookup k (insert nonce later (evict now t).seen) ≡ some time
      recorded k time known early =
          let found : (if nonce == k then some later else lookup k seen) ≡ some time =
            lookup-insert nonce later seen k ∙ known in
          sym (lookup-insert nonce later (evict now t).seen k) ∙ elim (Bool-cases (nonce == k)) [
            | inl same ↦ rw same (rw same at found)
            | inr other ↦ rw other (young k time (rw other at found) early)
          ]

  -- A check and its reference answer alike and stay in step.
  check-remember :
      let r = check now later nonce t in
      let s = remember t.max_age_ms now later nonce seen in (r.0 ≡ s.0) × Holds now r.1 s.1
  unfolding check
  check-remember = elim (Option-cases (lookup nonce (evict now t).seen)) [
    | inl new ↦
        let unknown : is_known t.max_age_ms now (lookup nonce seen) ≡ false =
          sym evict-is_known ∙ ap is_some new in
        rw (new, unknown) (refl, record-Holds new)
    | inr (v, old) ↦
        let known : is_known t.max_age_ms now (lookup nonce seen) ≡ true =
          sym evict-is_known ∙ ap is_some old in
        rw (old, known) (refl, evict-Holds)
  ]

start-Holds : (age : Option ℕ) → Holds 0 (new_nonce_tracker age) []
unfolding new_nonce_tracker lookup
start-Holds none = record { true_entries = tt; young_kept = λ nonce time known early. known }
start-Holds (some age) = record { true_entries = tt; young_kept = λ nonce time known early. known }

answers_step :
    (checks : List NonceCheck) (start : ℕ) (t : NonceTracker) (seen : Map ℕ)
    → Holds start t seen
    → InOrder start checks
    → answers checks t ≡ remembered t.max_age_ms checks seen
answers_step [] start t seen h ordered = refl
answers_step ((now, later, nonce) ∷ checks) start t seen h (first, rest) =
    let (same, kept) = check-remember start now later nonce t seen first h in
    let aged = check_age now later nonce t in
    let more = answers_step checks now _ _ kept rest in rw (same, more, aged) refl

-- From its start on, with evictions that read times in order, the tracker answers every sequence of
-- checks like one that forgets nothing and calls a nonce known while its last recorded time is within the age.
pub check_refines :
    (age : Option ℕ) (checks : List NonceCheck)
    → InOrder 0 checks
    → answers checks (new_nonce_tracker age)
      ≡ remembered (new_nonce_tracker age).max_age_ms checks []
check_refines age checks ordered =
    answers_step checks 0 (new_nonce_tracker age) [] (start-Holds age) ordered
