-- ===== src/Policy/Scopes.antt =====
-- `scopeMatches` of src/policy/index.ts.
use text.Mathlib.TextEquality.{starts_with_iff}
use text.Mathlib.TextLemmas.{append_assoc}
use atel_sdk.Base.{
  String, ◌≡◌, ◌⊎◌, ◌↔◌, ◌∙◌, sym, ap, subst, inl, inr, true, ◌||◌, concat, ◌==◌, starts_with,
  eq_iff, arith, Bool-cases,
}
use atel_sdk.Policy.{scope_matches}

-- A granted scope covers itself and what extends it after a colon.
abbrev pub Covers : String → String → Type 0
Covers granted requested =
    (granted ≡ requested) ⊎ ((rest : String) × (concat granted (concat ":" rest) ≡ requested))

-- Matching holds of the granted scope itself and of what extends it after a colon, and of nothing
-- else: "tool:http" does not cover "tool:https".
pub scope_matches_iff :
    (granted requested : String)
    → (scope_matches granted requested ≡ true) ↔ Covers granted requested
unfolding scope_matches
scope_matches_iff granted requested = (forward, backward)
  where
    forward :
        (granted == requested || starts_with requested (concat granted ":")) ≡ true
        → Covers granted requested
    forward h = elim (Bool-cases (granted == requested)) [
      | inl same ↦ inl ((eq_iff granted requested).0 same)
      | inr other ↦
          let (rest, e) = (starts_with_iff requested (concat granted ":")).0 (ground arith) in
          inr (rest, sym (append_assoc granted ":" rest) ∙ e)
    ]

    backward :
        Covers granted requested
        → (granted == requested || starts_with requested (concat granted ":")) ≡ true
    backward (inl same) = ground (arith, (eq_iff granted requested).1 same)
    backward (inr (rest, e)) = ground (
      arith,
      (starts_with_iff requested (concat granted ":")).1 (rest, append_assoc granted ":" rest ∙ e),
    )

-- A scope that covers one that covers a third covers the third.
pub scope_matches_trans :
    (a b c : String)
    → scope_matches a b ≡ true
    → scope_matches b c ≡ true
    → scope_matches a c ≡ true
scope_matches_trans a b c h k =
    (scope_matches_iff a c).1 (compose ((scope_matches_iff a b).0 h) ((scope_matches_iff b c).0 k))
  where
    compose : Covers a b → Covers b c → Covers a c
    compose (inl e) k = subst (λ x. Covers x c) (sym e) k
    compose (inr (r, e)) (inl f) = inr (r, e ∙ f)
    compose (inr (r, e)) (inr (s, f)) =
        inr (concat r (concat ":" s), regroup ∙ ap (λ x. concat x (concat ":" s)) e ∙ f)
      where
        regroup :
            concat a (concat ":" (concat r (concat ":" s)))
            ≡ concat (concat a (concat ":" r)) (concat ":" s)
        regroup =
            rw (append_assoc a (concat ":" r) (concat ":" s), append_assoc ":" r (concat ":" s))
