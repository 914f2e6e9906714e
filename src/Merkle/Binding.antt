-- ===== src/Merkle/Binding.antt =====
-- Merkle proofs of src/proof/index.ts over a hash without collisions.
