-- ===== src/Hashes.antt =====
-- contracts/src/hash-domains.ts and contracts/src/proposal-signing.ts: the tagged hashes.
use mina_guard.Base.{[], ◌∷◌, bit}
use mina_guard.Platform.{Field, PublicKey, Platform, key_fields}

-- The `action` argument; the type rules out the values that the source throws on.
pub data SigningAction : Type 0 where
  propose_action approve_action : SigningAction

module _ ⦃o : Platform⦄ where
  unfoldable pub owner_chain_link : Field → PublicKey → Field
  owner_chain_link previous owner =
      o.hash_with_prefix "owner-link" (previous ∷ owner.x ∷ bit owner.is_odd ∷ [])

  unfoldable pub vote_nullifier_key : Field → PublicKey → Field
  vote_nullifier_key proposal_hash owner =
      o.hash_with_prefix "vote-nullifier" (proposal_hash ∷ key_fields owner)

  unfoldable pub child_config_hash : Field → Field → Field → Field
  child_config_hash owners_commitment threshold num_owners =
      o.hash_with_prefix "child-config" (owners_commitment ∷ threshold ∷ num_owners ∷ [])

  unfoldable pub proposal_signing_message : Field → SigningAction → Field
  proposal_signing_message proposal_hash propose_action =
      o.hash_with_prefix "mina-guard-propose" (proposal_hash ∷ [])
  proposal_signing_message proposal_hash approve_action =
      o.hash_with_prefix "mina-guard-approve" (proposal_hash ∷ [])
