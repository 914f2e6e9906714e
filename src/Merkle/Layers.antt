-- ===== src/Merkle/Layers.antt =====
-- The layers of a Merkle tree of src/proof/index.ts.
use atel_sdk.Base.{
  ℕ, zero, suc, ◌+◌, ◌-◌, ◌/◌, ◌%◌, ◌≤◌, ◌<◌, String, ◌≡◌, refl, List, [], ◌∷◌, length, arith,
}
use atel_sdk.Merkle.{at, next_layer, upper_layers, top_layer, step_text, proof_step}

-- Two positions further on in a list with two more hashes, the step is the same.
proof_step_skip :
    (idx : ℕ) (x y : String) (rest : List String)
    → proof_step (suc (suc idx)) (x ∷ y ∷ rest) ≡ proof_step idx rest
unfolding proof_step
proof_step_skip zero x y rest = ground arith
proof_step_skip (suc k) x y rest =
    let parity : suc (suc (suc k)) % 2 ≡ suc k % 2 = omega arith in
    let before : suc (suc (suc k)) - 1 ≡ suc (suc k) = omega arith in
    let before' : suc k - 1 ≡ k = omega arith in
    let after : suc (suc (suc k)) + 1 ≡ suc (suc (suc (suc k))) = omega arith in
    let after' : suc k + 1 ≡ suc (suc k) = omega arith in
    rw (parity, before, before', after, after') (ground arith)

module _ (sha256 : String → String) where
  -- A layer has half as many hashes as the one below, rounded up.
  pub length-next_layer : (xs : List String) → length (next_layer sha256 xs) ≡ (length xs + 1) / 2
  unfolding next_layer
  length-next_layer [] = omega arith
  length-next_layer (x ∷ []) = omega arith
  length-next_layer (x ∷ y ∷ rest) = omega (arith, length-next_layer rest)

  -- With as many rounds as leaves the last layer is the root alone.
  pub length-top_layer :
      (fuel : ℕ) (xs : List String)
      → 0 < length xs
      → length xs ≤ fuel
      → length (top_layer xs (upper_layers sha256 fuel xs)) ≡ 1
  unfolding upper_layers
  length-top_layer zero xs h k = absurd (omega arith)
  length-top_layer (suc fuel) xs h k =
      ground (arith, length-next_layer xs, length-top_layer fuel (next_layer sha256 xs))

  -- The proof step of a position leads from its hash to the hash above it.
  pub step_text-proof_step :
      (idx : ℕ) (xs : List String)
      → idx < length xs
      → step_text sha256 (at xs idx) (proof_step idx xs) ≡ at (next_layer sha256 xs) (idx / 2)
  unfolding step_text proof_step next_layer
  step_text-proof_step idx [] h = absurd (omega arith)
  step_text-proof_step zero (x ∷ []) h = refl
  step_text-proof_step (suc idx) (x ∷ []) h = absurd (omega arith)
  step_text-proof_step zero (x ∷ y ∷ rest) h = ground arith
  step_text-proof_step (suc zero) (x ∷ y ∷ rest) h = ground arith
  step_text-proof_step (suc (suc idx)) (x ∷ y ∷ rest) h =
      let half : suc (suc idx) / 2 ≡ suc (idx / 2) = omega arith in
      rw (proof_step_skip idx x y rest, half) (step_text-proof_step idx rest (omega arith))
