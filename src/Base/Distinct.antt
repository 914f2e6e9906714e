-- ===== src/Base/Distinct.antt =====
-- Lists in which no two elements have the same key.
use Prim.Native.String.{String}
use mathlib.Core.Path.{◌≡◌, refl, ◌∙◌}
use mathlib.Core.Bool.{Bool, false}
use mathlib.Core.List.{List, [], ◌∷◌, ◌++◌}
use native.Mathlib.Omega.{arith}
use text.Mathlib.Text.{◌==◌}
use text.Mathlib.TextEquality.{eq_iff}
use atel_sdk.Base.Lists.{some_of, some_of-append}

eq_comm : (a b : String) → (a == b) ≡ (b == a)
eq_comm a b = ground (arith, eq_iff a b, eq_iff b a)

module _ {ℓ} {A : Type ℓ} where
  abbrev pub has_key : (A → String) → String → List A → Bool
  has_key key k xs = some_of (λ x. key x == k) xs

  abbrev pub IsDistinctBy : (A → String) → List A → Type 0
  IsDistinctBy key [] = Unit
  IsDistinctBy key (x ∷ xs) = (has_key key (key x) xs ≡ false) × IsDistinctBy key xs

  pub append-IsDistinctBy :
      (key : A → String) (xs : List A) (x : A)
      → IsDistinctBy key xs
      → has_key key (key x) xs ≡ false
      → IsDistinctBy key (xs ++ x ∷ [])
  append-IsDistinctBy key [] x h new = (refl, tt)
  append-IsDistinctBy key (y ∷ ys) x h new = (
    some_of-append (λ z. key z == key y) ys (x ∷ [])
        ∙ ground (arith, h, new, eq_comm (key x) (key y)),
    append-IsDistinctBy key ys x h.1 (ground (arith, new)),
  )
