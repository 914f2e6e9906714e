-- ===== src/Trace/Root.antt =====
-- simpleMerkleRoot of src/trace/index.ts, and the root of the tree of src/proof/index.ts.
use atel_sdk.Base.{
  ℕ, zero, suc, String, ◌≡◌, refl, List, [], ◌∷◌, ok, concat, ltb, length, arith, if◌then◌else◌,
}
use atel_sdk.Merkle.{at, next_layer, upper_layers, make_tree, top_layer, get_root}

module _ (sha256 : String → String) where
  unfoldable pub pair_up : List String → List String
  pair_up [] = []
  pair_up (x ∷ []) = sha256 (concat x x) ∷ []
  pair_up (x ∷ y ∷ rest) = sha256 (concat x y) ∷ pair_up rest

  -- The loop, which ends with `layer[0]`. As many rounds as there are hashes are enough.
  unfoldable pub reduce_layers : ℕ → List String → String
  reduce_layers zero layer = at layer 0
  reduce_layers (suc fuel) layer =
      let rest = reduce_layers fuel (pair_up layer) in
      if ltb 1 (length layer) then rest else at layer 0

  unfoldable pub simple_merkle_root : List String → String
  simple_merkle_root [] = sha256 "empty"
  simple_merkle_root (x ∷ []) = x
  simple_merkle_root (x ∷ y ∷ rest) = reduce_layers (length (x ∷ y ∷ rest)) (x ∷ y ∷ rest)

  pair_up-eq-next_layer : (xs : List String) → pair_up xs ≡ next_layer sha256 xs
  unfolding pair_up next_layer
  pair_up-eq-next_layer [] = refl
  pair_up-eq-next_layer (x ∷ []) = refl
  pair_up-eq-next_layer (x ∷ y ∷ rest) = cc (pair_up-eq-next_layer rest)

  reduce_layers-eq-top_layer :
      (fuel : ℕ) (xs : List String)
      → reduce_layers fuel xs ≡ at (top_layer xs (upper_layers sha256 fuel xs)) 0
  unfolding reduce_layers upper_layers
  reduce_layers-eq-top_layer zero xs = refl
  reduce_layers-eq-top_layer (suc fuel) xs =
      rw (pair_up-eq-next_layer xs)
        (ground (arith, reduce_layers-eq-top_layer fuel (next_layer sha256 xs)))

  top_of_one : (x : String) → at (top_layer (x ∷ []) (upper_layers sha256 1 (x ∷ []))) 0 ≡ x
  unfolding upper_layers
  top_of_one x = refl

  -- The Merkle root that a checkpoint records is the root that a proof bundle would compute from the
  -- same hashes.
  pub simple_merkle_root-eq-get_root :
      (leaves : List String) (tree : List (List String))
      → make_tree sha256 leaves ≡ ok tree
      → simple_merkle_root leaves ≡ get_root tree
  unfolding simple_merkle_root make_tree get_root
  simple_merkle_root-eq-get_root [] tree h = cc
  simple_merkle_root-eq-get_root (x ∷ []) tree h = ground (arith, top_of_one x)
  simple_merkle_root-eq-get_root (x ∷ y ∷ rest) tree h =
      ground (arith, reduce_layers-eq-top_layer (length (x ∷ y ∷ rest)) (x ∷ y ∷ rest))
