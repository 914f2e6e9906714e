-- ===== src/Merkle/Proofs.antt =====
-- The Merkle proofs that getProof of src/proof/index.ts makes, and the root that they lead to.
use atel_sdk.Base.{
  ℕ, zero, suc, ◌/◌, ◌<◌, ◌≤◌, String, ◌≡◌, ap, ◌∙◌, true, List, ◌∷◌, length, ok, arith, ltb,
  eq_refl, Bool-cases, inl, inr,
}
use atel_sdk.Merkle.{
  MerkleProofStep, at, next_layer, upper_layers, make_tree, top_layer, get_root, proof_steps,
  get_proof, climb, verify,
}
use atel_sdk.Merkle.Layers.{length-next_layer, step_text-proof_step}

module _ (sha256 : String → String) where
  climb-proof_steps :
      (fuel idx : ℕ) (xs : List String)
      → idx < length xs
      → length xs ≤ fuel
      → climb sha256 (at xs idx) (proof_steps idx xs (upper_layers sha256 fuel xs))
        ≡ at (top_layer xs (upper_layers sha256 fuel xs)) 0
  unfolding climb proof_steps upper_layers
  climb-proof_steps zero idx xs h k = absurd (omega arith)
  climb-proof_steps (suc fuel) idx xs h k = elim (Bool-cases (ltb 1 (length xs))) [
    | inl more ↦ rw more (
        ap
          (λ c. climb sha256 c (
            proof_steps (idx / 2) (next_layer sha256 xs)
              (upper_layers sha256 fuel (next_layer sha256 xs))))
          (step_text-proof_step sha256 idx xs h)
        ∙ climb-proof_steps fuel (idx / 2) (next_layer sha256 xs)
            (ground (arith, length-next_layer sha256 xs))
            (ground (arith, length-next_layer sha256 xs)))
    | inr single ↦ let first : idx ≡ 0 = ground arith in rw (single, first)
  ]

  -- A tree over any leaves can be built, it gives a proof for every index in bounds, and the proof
  -- takes the leaf at that index to the root.
  pub verify-get_proof :
      (leaves : List String) (index : ℕ)
      → index < length leaves
      → (tree : List (List String)) × (proof : List MerkleProofStep) × (make_tree sha256 leaves
          ≡ ok tree)
        × (get_proof tree index ≡ ok proof)
        × (verify sha256 (at leaves index) proof (get_root tree) ≡ true)
  unfolding make_tree get_proof verify get_root
  verify-get_proof leaves index h =
      let above = upper_layers sha256 (length leaves) leaves in
      (
        leaves ∷ above,
        proof_steps index leaves above,
        ground arith,
        ground arith,
        rw (climb-proof_steps (length leaves) index leaves h (omega arith)) (eq_refl _),
      )

  -- The same of a tree and a proof at hand.
  pub verify_of_get_proof :
      (leaves : List String) (index : ℕ) (tree : List (List String)) (proof : List MerkleProofStep)
      → index < length leaves
      → make_tree sha256 leaves ≡ ok tree
      → get_proof tree index ≡ ok proof
      → verify sha256 (at leaves index) proof (get_root tree) ≡ true
  verify_of_get_proof leaves index tree proof h made given =
      let (tree', proof', made', given', accepted) = verify-get_proof leaves index h in
      let same_tree : tree' ≡ tree = cc (made, made') in
      let same_proof : proof' ≡ proof = cc (same_tree, given, given') in
      rw (← same_tree, ← same_proof) accepted
