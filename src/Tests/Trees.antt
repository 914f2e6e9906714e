-- ===== src/Tests/Trees.antt =====
-- The theorems on Merkle trees at three leaves.
use atel_sdk.Base.{String, ◌≡◌, true, List, [], ◌∷◌, ok, arith}
use atel_sdk.Merkle.{MerkleProofStep, left, right, at, make_tree, get_root, get_proof, verify}
use atel_sdk.Merkle.Proofs.{verify-get_proof}
use atel_sdk.Tests.{toy_hash}

abbrev leaves : List String
leaves = "a" ∷ "b" ∷ "c" ∷ []

abbrev tree : List (List String)
tree = leaves ∷ ("hab" ∷ "hcc" ∷ []) ∷ ("hhabhcc" ∷ []) ∷ []

abbrev path : List MerkleProofStep
path = record { hash = "c"; position = right } ∷ record { hash = "hab"; position = left } ∷ []

verify-get_proof_example :
    (t : List (List String)) × (proof : List MerkleProofStep) × (make_tree toy_hash leaves ≡ ok t)
    × (get_proof t 2 ≡ ok proof)
    × (verify toy_hash (at leaves 2) proof (get_root t) ≡ true)
verify-get_proof_example = verify-get_proof toy_hash leaves 2 (omega arith)
