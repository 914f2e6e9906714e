-- ===== src/Identity/Split.antt =====
-- `text.split(':')`.
use Prim.Native.Char.{Char, code}
use Prim.Native.String.append
use atel_sdk.Base.{
  String, ◌≡◌, refl, false, List, [], ◌∷◌, concat, eqb, if◌then◌else◌, Bool-cases, inl, inr,
}

-- Puts a character in front of the first part.
abbrev pub push_front : Char → List String → List String
push_front c [] = String.◌∷◌ c String.[] ∷ []
push_front c (part ∷ parts) = String.◌∷◌ c part ∷ parts

unfoldable pub split : String → List String
split String.[] = "" ∷ []
split (String.◌∷◌ c s) =
    let rest = split s in if eqb (code c) b':' then "" ∷ rest else push_front c rest

abbrev pub HasNoColon : String → Type 0
HasNoColon String.[] = Unit
HasNoColon (String.◌∷◌ c s) = (eqb (code c) b':' ≡ false) × HasNoColon s

-- A text with no colon is one part.
pub split_whole : (s : String) → HasNoColon s → split s ≡ s ∷ []
unfolding split
split_whole String.[] h = refl
split_whole (String.◌∷◌ c s) h = rw (h.0, split_whole s h.1)

-- The last part of the first list runs on into the first part of the second.
abbrev glue : List String → List String → List String
glue [] ys = ys
glue (x ∷ []) [] = x ∷ []
glue (x ∷ []) (y ∷ ys) = concat x y ∷ ys
glue (x ∷ z ∷ xs) ys = x ∷ glue (z ∷ xs) ys

split_cons : (s : String) → (x : String) × (xs : List String) × (split s ≡ x ∷ xs)
unfolding split
split_cons String.[] = ("", [], refl)
split_cons (String.◌∷◌ c s) = elim (Bool-cases (eqb (code c) b':')) [
  | inl colon ↦ ("", split s, rw colon)
  | inr other ↦ let (x, xs, e) = split_cons s in (String.◌∷◌ c x, xs, rw (other, e))
]

glue-push_front :
    (c : Char) (x : String) (xs : List String) (y : String) (ys : List String)
    → push_front c (glue (x ∷ xs) (y ∷ ys)) ≡ glue (push_front c (x ∷ xs)) (y ∷ ys)
glue-push_front c x [] y ys = rw (append.cons c x y)
glue-push_front c x (z ∷ xs) y ys = refl

-- The parts of a concatenation.
pub split-concat : (p s : String) → split (concat p s) ≡ glue (split p) (split s)
unfolding split
split-concat String.[] s = let (x, xs, e) = split_cons s in rw (append.nil s, e, append.nil x)
split-concat (String.◌∷◌ c p) s =
    let (x, xs, e) = split_cons p in
    let (y, ys, k) = split_cons s in
    elim (Bool-cases (eqb (code c) b':')) [
      | inl colon ↦ rw (append.cons c p s, colon, split-concat p s, e)
      | inr other ↦
          rw (append.cons c p s, other, split-concat p s, e, k) (glue-push_front c x xs y ys)
    ]
