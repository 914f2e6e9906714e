-- ===== src/Base/Maps.antt =====
-- JavaScript's `Map` with string keys, as the list of its entries in insertion order.
use Prim.Native.String.{String}
use mathlib.Core.Path.{◌≡◌, refl, sym, ap, ◌∙◌}
use mathlib.Core.Bool.{Bool, true, false}
use mathlib.Core.List.{List, [], ◌∷◌}
use mathlib.Core.Logic.{inl, inr}
use mathlib.Core.Option.{Option, none, some}
use native.Mathlib.Omega.{arith}
use text.Mathlib.Text.{◌==◌}
use text.Mathlib.TextEquality.{eq_iff}
use text.Mathlib.TextPositions.{eq_refl}
use atel_sdk.Base.Lists.{filter, All}
use atel_sdk.Base.Tests.{Bool-cases, if-elim, if◌then◌else◌}

abbrev pub Map {ℓ} : Type ℓ → Type ℓ
Map V = List (String × V)

module _ {ℓ} {V : Type ℓ} where
  -- map.get(k)
  unfoldable pub lookup : String → Map V → Option V
  lookup k [] = none
  lookup k ((j, v) ∷ m) = if j == k then some v else lookup k m

  -- map.set(k, v): an old key keeps its place
  unfoldable pub insert : String → V → Map V → Map V
  insert k v [] = (k, v) ∷ []
  insert k v ((j, w) ∷ m) = if j == k then (k, v) ∷ m else (j, w) ∷ insert k v m

  -- map.delete(k)
  unfoldable pub erase : String → Map V → Map V
  erase k [] = []
  erase k ((j, v) ∷ m) = let rest = erase k m in if j == k then rest else (j, v) ∷ rest

  -- map.has(k)
  abbrev pub is_some : Option V → Bool
  is_some none = false
  is_some (some v) = true

  pub lookup-insert :
      (key : String) (value : V) (m : Map V) (wanted : String)
      → (if key == wanted then some value else lookup wanted m) ≡ lookup wanted (insert key value m)
  unfolding insert lookup
  lookup-insert key value [] wanted = refl
  lookup-insert key value ((own, old) ∷ m) wanted =
      let rest = lookup-insert key value m wanted in
      ground (arith, rest, eq_iff own key, eq_iff own wanted, eq_iff key wanted)

  pub lookup-erase :
      (key : String) (m : Map V) (wanted : String)
      → (if key == wanted then none else lookup wanted m) ≡ lookup wanted (erase key m)
  unfolding erase lookup
  lookup-erase key [] wanted = ground arith
  lookup-erase key ((own, old) ∷ m) wanted =
      let rest = lookup-erase key m wanted in
      ground (arith, rest, eq_iff own key, eq_iff own wanted, eq_iff key wanted)

  pub lookup-insert_self :
      (key : String) (value : V) (m : Map V) → lookup key (insert key value m) ≡ some value
  lookup-insert_self key value m = sym (lookup-insert key value m key) ∙ simp (eq_refl key)

  pub lookup-erase_self : (key : String) (m : Map V) → lookup key (erase key m) ≡ none
  lookup-erase_self key m = sym (lookup-erase key m key) ∙ simp (eq_refl key)

  -- An entry that passes the test is still found after a filter.
  pub lookup-filter :
      (p : String × V → Bool) (wanted : String) (value : V) (m : Map V)
      → lookup wanted m ≡ some value
      → p (wanted, value) ≡ true
      → lookup wanted (filter p m) ≡ some value
  unfolding lookup
  lookup-filter p wanted value [] h k = h
  lookup-filter p wanted value ((own, old) ∷ m) h k = elim (Bool-cases (own == wanted)) [
    | inl here ↦
        let same : old ≡ value = ground (arith, h, here) in
        let key : own ≡ wanted = (eq_iff own wanted).0 here in
        let kept : p (own, old) ≡ true = cc (k, same, key) in rw (kept, here) (ap some same)
    | inr other ↦
        let rest = lookup-filter p wanted value m (ground (arith, h, other)) k in
        let own_kept : lookup wanted ((own, old) ∷ filter p m) ≡ some value = rw other rest in
        if-elim (λ l. lookup wanted l ≡ some value) (p (own, old)) own_kept rest
  ]

-- What holds of every entry holds after a new one is set, and of what is looked up.
pub All-insert {ℓ κ} :
    {V : Type ℓ} (P : String × V → Type κ) (k : String) (v : V) (m : Map V)
    → P (k, v)
    → All P m
    → All P (insert k v m)
unfolding insert
All-insert P k v [] h rest = (h, tt)
All-insert P k v ((j, w) ∷ m) h rest =
    if-elim (All P) (j == k) (h, rest.1) (rest.0, All-insert P k v m h rest.1)

pub All-lookup {ℓ κ} :
    {V : Type ℓ} (P : V → Type κ) (k : String) (v : V) (m : Map V)
    → All (λ e. P e.1) m
    → lookup k m ≡ some v
    → P v
unfolding lookup
All-lookup P k v [] h e = ground arith
All-lookup P k v ((j, w) ∷ m) h e = elim (Bool-cases (j == k)) [
  | inl here ↦ let same : w ≡ v = ground (arith, here, e) in rw (← same) h.0
  | inr other ↦ All-lookup P k v m h.1 (rw other at e)
]
