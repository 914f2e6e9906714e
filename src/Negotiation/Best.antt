-- ===== src/Negotiation/Best.antt =====
-- Which result negotiateBest of src/negotiation/index.ts returns.
use atel_sdk.Base.{
  ℕ, ◌≡◌, refl, sym, ap, subst, ◌∙◌, true, false, Option, none, some, List, [], ◌∷◌, ◌++◌, All,
  All-weaken, All-append, Bool-cases, inl, inr, filter, arith, if◌then◌else◌, false≢true,
}
use atel_sdk.Negotiation.{NegotiationResult}
use atel_sdk.Negotiation.Client.{
  cost_or_infinity, not_dearer, insert_by_cost, sort_by_cost, first_of, pick_best,
}

abbrev pub cost : NegotiationResult → Option ℕ
cost r = cost_or_infinity r.agreed_terms

-- The result is among those given and succeeded; each success before it costs more, none after it less.
pub record IsBest (results : List NegotiationResult) (r : NegotiationResult) : Type 0 where
  pub before : List NegotiationResult
  pub after : List NegotiationResult
  pub stands : results ≡ before ++ r ∷ after
  pub succeeded : r.success ≡ true
  pub dearer_before : All (λ s. s.success ≡ true → not_dearer (cost s) (cost r) ≡ false) before
  pub not_dearer_after : All (λ s. s.success ≡ true → not_dearer (cost r) (cost s) ≡ true) after

-- Without a result, every negotiation failed.
abbrev pub Chosen : List NegotiationResult → Option NegotiationResult → Type 0
Chosen results none = All (λ r. r.success ≡ false) results
Chosen results (some r) = IsBest results r

-- The cheaper one, the first where they cost the same.
abbrev cheaper : NegotiationResult → Option NegotiationResult → NegotiationResult
cheaper r none = r
cheaper r (some s) = if not_dearer (cost r) (cost s) then r else s

first-insert :
    (r : NegotiationResult) (l : List NegotiationResult)
    → first_of (insert_by_cost r l) ≡ some (cheaper r (first_of l))
unfolding insert_by_cost
first-insert r [] = refl
first-insert r (s ∷ rest) = elim (Bool-cases (not_dearer (cost r) (cost s))) [
  | inl e ↦ rw e refl
  | inr e ↦ rw e refl
]

not_dearer_trans :
    (a b c : Option ℕ) → not_dearer a b ≡ true → not_dearer b c ≡ true → not_dearer a c ≡ true
not_dearer_trans a b none h k = refl
not_dearer_trans none none (some c) h k = cc
not_dearer_trans none (some b) (some c) h k = cc
not_dearer_trans (some a) none (some c) h k = cc
not_dearer_trans (some a) (some b) (some c) h k = ground arith

not_dearer-total : (a b : Option ℕ) → not_dearer a b ≡ false → not_dearer b a ≡ true
not_dearer-total a none h = cc
not_dearer-total none (some b) h = refl
not_dearer-total (some a) (some b) h = ground arith

not_dearer_self : (a : Option ℕ) → not_dearer a a ≡ true
not_dearer_self none = refl
not_dearer_self (some a) = ground arith

-- A failed result changes nothing.
failed_before :
    (r : NegotiationResult) (results : List NegotiationResult) (o : Option NegotiationResult)
    → r.success ≡ false
    → Chosen results o
    → Chosen (r ∷ results) o
failed_before r results none e h = (e, h)
failed_before r results (some s) e h = record {
  before = r ∷ h.before;
  after = h.after;
  stands = ap (λ l. r ∷ l) h.stands;
  succeeded = h.succeeded;
  dearer_before = (λ good. elim (false≢true (sym e ∙ good)) [ ], h.dearer_before);
  not_dearer_after = h.not_dearer_after;
}

-- Everything that succeeded costs at least the chosen result.
none_cheaper :
    (results : List NegotiationResult) (r : NegotiationResult)
    → IsBest results r
    → All (λ s. s.success ≡ true → not_dearer (cost r) (cost s) ≡ true) results
none_cheaper results r h = rw h.stands (
    All-append _ h.before (r ∷ h.after)
      (All-weaken (λ s k good. not_dearer-total (cost s) (cost r) (k good)) h.before
        h.dearer_before)
      (λ good. not_dearer_self (cost r), h.not_dearer_after))

success_before :
    (r : NegotiationResult) (results : List NegotiationResult) (o : Option NegotiationResult)
    → r.success ≡ true
    → Chosen results o
    → Chosen (r ∷ results) (some (cheaper r o))
success_before r results none e h = record {
  before = [];
  after = results;
  stands = refl;
  succeeded = e;
  dearer_before = tt;
  not_dearer_after = All-weaken (λ s bad good. elim (false≢true (sym bad ∙ good)) [ ]) results h;
}
success_before r results (some s) e h = elim (Bool-cases (not_dearer (cost r) (cost s))) [
  | inl cheap ↦ rw cheap (record {
    before = [];
    after = results;
    stands = refl;
    succeeded = e;
    dearer_before = tt;
    not_dearer_after =
        All-weaken (λ x k good. not_dearer_trans (cost r) (cost s) (cost x) cheap (k good)) results
          (none_cheaper results s h);
  })
  | inr dear ↦ rw dear (record {
    before = r ∷ h.before;
    after = h.after;
    stands = ap (λ l. r ∷ l) h.stands;
    succeeded = h.succeeded;
    dearer_before = (λ good. dear, h.dearer_before);
    not_dearer_after = h.not_dearer_after;
  })
]

pick-success :
    (r : NegotiationResult) (results : List NegotiationResult)
    → r.success ≡ true
    → pick_best (r ∷ results) ≡ some (cheaper r (pick_best results))
unfolding pick_best sort_by_cost
pick-success r results good =
    let rest = filter (λ x. x.success) results in
    ap (λ b. first_of (sort_by_cost (if b then r ∷ rest else rest))) good
    ∙ first-insert r (sort_by_cost rest)

pick-failed :
    (r : NegotiationResult) (results : List NegotiationResult)
    → r.success ≡ false
    → pick_best (r ∷ results) ≡ pick_best results
unfolding pick_best
pick-failed r results bad =
    let rest = filter (λ x. x.success) results in
    ap (λ b. first_of (sort_by_cost (if b then r ∷ rest else rest))) bad

-- The best result is the first of the cheapest among those that succeeded: every success before it costs
-- more, and none after it costs less, where a missing cost is above every cost. There is none just where
-- every negotiation failed.
pub pick_best-Chosen : (results : List NegotiationResult) → Chosen results (pick_best results)
unfolding pick_best sort_by_cost
pick_best-Chosen [] = tt
pick_best-Chosen (r ∷ results) = elim (Bool-cases r.success) [
  | inl good ↦
      subst (Chosen (r ∷ results)) (sym (pick-success r results good))
        (success_before r results (pick_best results) good (pick_best-Chosen results))
  | inr bad ↦
      subst (Chosen (r ∷ results)) (sym (pick-failed r results bad))
        (failed_before r results (pick_best results) bad (pick_best-Chosen results))
]
