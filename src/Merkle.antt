-- ===== src/Merkle.antt =====
-- MerkleTree of src/proof/index.ts. The hash function is a parameter.
pub mod Layers
pub mod Proofs
pub mod Binding
use atel_sdk.Base.{
  ℕ, zero, suc, ◌+◌, ◌-◌, ◌/◌, ◌%◌, String, ◌≡◌, Bool, true, false, List, [], ◌∷◌, Result, ok, err,
  concat, eqb, ltb, ◌==◌, length, if◌then◌else◌, throw_if, ◌>>=◌, ◌>>◌, not,
}

pub data Position : Type 0 where
  left right : Position

pub record MerkleProofStep : Type 0 where
  pub hash : String
  pub position : Position

pub data MerkleError : Type 0 where
  no_leaves : MerkleError
  out_of_bounds : ℕ → MerkleError

-- `layer[i]`, which the code reads in bounds only
abbrev pub at : List String → ℕ → String
at [] i = ""
at (x ∷ xs) zero = x
at (x ∷ xs) (suc i) = at xs i

module _ (sha256 : String → String) where
  -- One turn of the constructor's inner loop: an odd last hash is paired with itself.
  unfoldable pub next_layer : List String → List String
  next_layer [] = []
  next_layer (x ∷ []) = sha256 (concat x x) ∷ []
  next_layer (x ∷ y ∷ rest) = sha256 (concat x y) ∷ next_layer rest

  -- The constructor's outer loop: the layers above `current`.
  unfoldable pub upper_layers : ℕ → List String → List (List String)
  upper_layers zero current = []
  upper_layers (suc fuel) current =
      let above = next_layer current ∷ upper_layers fuel (next_layer current) in
      if ltb 1 (length current) then above else []

  -- The layers from the leaves to the root. As many rounds as there are leaves are enough.
  unfoldable pub make_tree : List String → Result MerkleError (List (List String))
  make_tree leaves = do
    throw_if (eqb (length leaves) 0) no_leaves
    ok (leaves ∷ upper_layers (length leaves) leaves)

  unfoldable pub step_text : String → MerkleProofStep → String
  step_text current step = elim step.position [
    | left ↦ sha256 (concat step.hash current)
    | right ↦ sha256 (concat current step.hash)
  ]

  unfoldable pub climb : String → List MerkleProofStep → String
  climb current [] = current
  climb current (step ∷ proof) = climb (step_text current step) proof

  -- MerkleTree.verify
  unfoldable pub verify : String → List MerkleProofStep → String → Bool
  verify leaf proof root = climb leaf proof == root

abbrev pub top_layer : List String → List (List String) → List String
top_layer layer [] = layer
top_layer layer (above ∷ layers) = top_layer above layers

unfoldable pub get_root : List (List String) → String
get_root [] = ""
get_root (layer ∷ layers) = at (top_layer layer layers) 0

unfoldable pub proof_step : ℕ → List String → MerkleProofStep
proof_step idx layer =
    let is_right = eqb (idx % 2) 1 in
    let sibling = if is_right then idx - 1 else idx + 1 in
    if ltb sibling (length layer)
    then record { hash = at layer sibling; position = if is_right then left else right }
    else record { hash = at layer idx; position = right }

-- The loop of getProof, over every layer but the last.
unfoldable pub proof_steps : ℕ → List String → List (List String) → List MerkleProofStep
proof_steps idx layer [] = []
proof_steps idx layer (above ∷ layers) = proof_step idx layer ∷ proof_steps (idx / 2) above layers

unfoldable pub get_proof : List (List String) → ℕ → Result MerkleError (List MerkleProofStep)
get_proof [] index = err (out_of_bounds index)
get_proof (leaves ∷ layers) index = do
  throw_if (not (ltb index (length leaves))) (out_of_bounds index)
  ok (proof_steps index leaves layers)
