-- ===== src/Platform/Laws.antt =====
-- What the code relies on in o1js, as named hypotheses: Poseidon does not collide, and a Merkle-map
-- witness opens the map that its root commits to.
use mina_guard.Base.{String, ◌≡◌, ◌≢◌, true, List, ◌==◌, if◌then◌else◌}
use mina_guard.Platform.{Field, PublicKey, Signature, MerkleMapWitness, Platform}

-- `map.set(key, value)` on the view of a map as a function; an absent key reads as 0.
abbrev pub update : (Field → Field) → Field → Field → Field → Field
update f k v j = if k == j then v else f j

-- Collision resistance of Poseidon: different inputs have different hashes, also under
-- different prefixes, and no input hashes to 0.
pub record HashLaws (o : Platform) : Type 0 where
  pub same_prefix :
      (p q : String) (xs ys : List Field)
      → o.hash_with_prefix p xs ≡ o.hash_with_prefix q ys
      → p ≡ q
  pub same_fields :
      (p q : String) (xs ys : List Field)
      → o.hash_with_prefix p xs ≡ o.hash_with_prefix q ys
      → xs ≡ ys
  pub nonzero : (p : String) (xs : List Field) → o.hash_with_prefix p xs ≢ 0

-- `IsRoot r f`: the root `r` commits to the map with the values `f`. A witness that opens `r` at a
-- key proves the key's value, and computes the root of the map with another value at that key.
pub record MerkleLaws (o : Platform) : Type 1 where
  pub IsRoot : Field → (Field → Field) → Type 0
  pub empty : IsRoot o.empty_map_root (λ _. 0)
  pub opens :
      (w : MerkleMapWitness) (k v r : Field) (f : Field → Field)
      → IsRoot r f
      → (o.compute_root_and_key w v).0 ≡ r
      → (o.compute_root_and_key w v).1 ≡ k
      → f k ≡ v
  pub writes :
      (w : MerkleMapWitness) (k v v' r : Field) (f : Field → Field)
      → IsRoot r f
      → (o.compute_root_and_key w v).0 ≡ r
      → (o.compute_root_and_key w v).1 ≡ k
      → IsRoot (o.compute_root_and_key w v').0 (update f k v')

-- A signature verifies only for a key that is a curve point.
pub record SignerLaws (o : Platform) : Type 0 where
  pub signer_point :
      (sig : Signature) (k : PublicKey) (message : List Field)
      → o.verify sig k message ≡ true
      → o.is_point k ≡ true
