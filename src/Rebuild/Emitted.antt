-- ===== src/Rebuild/Emitted.antt =====
-- The events of `class MinaGuard` as the indexer serves them (`toSerializableObject` and
-- `serializeValue` of backend/src/mina-client.ts), and what rebuildStores reads in them.
use mina_guard.Base.{ℕ, String, ◌≡◌, ◌<◌, true, Option, some, List, [], ◌∷◌}
use mina_guard.Platform.{Field, PublicKey, Platform}
use mina_guard.Platform.Maps.{Numerals}
use mina_guard.Storage.{Encoding}
use mina_guard.Guard.{Event}
use mina_guard.Rebuild.{JsonValue, text_value, IndexedEvent, TextReader, text_length}

-- The base58 text of a curve point is longer than ten characters, and decodes to it.
pub record ReaderLaws (o : Platform) (e : Encoding) (r : TextReader) : Type 0 where
  pub decodes : (k : PublicKey) → o.is_point k ≡ true → r.from_base58 (e.to_base58 k) ≡ some k
  pub long : (k : PublicKey) → 10 < text_length (e.to_base58 k)

abbrev pub event_name : Event → String
event_name (Event.deployed _) = "deployed"
event_name (Event.setup _) = "setup"
event_name (Event.setup_owner _) = "setupOwner"
event_name (Event.proposal _) = "proposal"
event_name (Event.receiver _) = "receiver"
event_name (Event.approval _) = "approval"
event_name (Event.execution _) = "execution"
event_name (Event.owner_change _) = "ownerChange"
event_name (Event.threshold_change _) = "thresholdChange"
event_name (Event.delegate_set _) = "delegate"
event_name (Event.create_child _) = "createChild"
event_name (Event.reclaim_child _) = "reclaimChild"
event_name (Event.enable_child_multi_sig _) = "enableChildMultiSig"
event_name (Event.create_child_config _) = "createChildConfig"
event_name (Event.create_child_owner _) = "createChildOwner"

module _ ⦃n : Numerals⦄ ⦃c : Encoding⦄ where
  -- A field element or a `UInt64` is served as its decimal text, a key as its base58 text.
  abbrev of_field : String → Field → String × JsonValue
  of_field name f = (name, text_value (n.field_text f))

  abbrev of_key : String → PublicKey → String × JsonValue
  of_key name k = (name, text_value (c.to_base58 k))

  unfoldable pub event_payload : Event → List (String × JsonValue)
  event_payload (Event.deployed k) = of_key "guardAddress" k ∷ []
  event_payload (Event.setup x) =
      of_field "ownersCommitment" x.owners_commitment
      ∷ of_field "threshold" x.threshold
      ∷ of_field "numOwners" x.num_owners
      ∷ of_key "parent" x.parent
      ∷ []
  event_payload (Event.setup_owner x) = of_key "owner" x.owner ∷ of_field "index" x.index ∷ []
  event_payload (Event.proposal x) =
      of_field "proposalHash" x.proposal_hash
      ∷ of_key "proposer" x.proposer
      ∷ of_field "tokenId" x.token_id
      ∷ of_field "txType" x.tx_type
      ∷ of_field "data" x.payload
      ∷ of_field "memoHash" x.memo_hash
      ∷ of_field "nonce" x.nonce
      ∷ of_field "configNonce" x.config_nonce
      ∷ of_field "expirySlot" x.expiry_slot
      ∷ of_key "guardAddress" x.guard_address
      ∷ of_field "destination" x.destination
      ∷ of_key "childAccount" x.child_account
      ∷ []
  event_payload (Event.receiver x) =
      of_field "proposalHash" x.proposal_hash
      ∷ of_key "receiver" x.receiver
      ∷ of_field "amount" x.amount
      ∷ []
  event_payload (Event.approval x) =
      of_field "proposalHash" x.proposal_hash
      ∷ of_key "approver" x.approver
      ∷ of_field "approvalCount" x.approval_count
      ∷ of_field "approvalRoot" x.approval_root
      ∷ of_field "voteNullifierRoot" x.vote_nullifier_root
      ∷ []
  event_payload (Event.execution x) =
      of_field "proposalHash" x.proposal_hash
      ∷ of_field "txType" x.tx_type
      ∷ of_field "root" x.root
      ∷ []
  event_payload (Event.owner_change x) =
      of_field "proposalHash" x.proposal_hash
      ∷ of_key "owner" x.owner
      ∷ of_field "added" x.added
      ∷ of_field "newNumOwners" x.new_num_owners
      ∷ of_field "newOwnersCommitment" x.new_owners_commitment
      ∷ of_field "configNonce" x.config_nonce
      ∷ []
  event_payload (Event.threshold_change x) =
      of_field "proposalHash" x.proposal_hash
      ∷ of_field "oldThreshold" x.old_threshold
      ∷ of_field "newThreshold" x.new_threshold
      ∷ of_field "configNonce" x.config_nonce
      ∷ []
  event_payload (Event.delegate_set x) =
      of_field "proposalHash" x.proposal_hash ∷ of_key "delegate" x.delegate ∷ []
  event_payload (Event.create_child x) =
      of_field "proposalHash" x.proposal_hash ∷ of_key "parentAddress" x.parent_address ∷ []
  event_payload (Event.reclaim_child x) =
      of_field "proposalHash" x.proposal_hash
      ∷ of_key "parentAddress" x.parent_address
      ∷ of_field "amount" x.amount
      ∷ []
  event_payload (Event.enable_child_multi_sig x) =
      of_field "proposalHash" x.proposal_hash
      ∷ of_key "parentAddress" x.parent_address
      ∷ of_field "enabled" x.enabled
      ∷ of_field "configNonce" x.config_nonce
      ∷ []
  event_payload (Event.create_child_config x) =
      of_field "proposalHash" x.proposal_hash
      ∷ of_key "childAccount" x.child_account
      ∷ of_field "ownersCommitment" x.owners_commitment
      ∷ of_field "threshold" x.threshold
      ∷ of_field "numOwners" x.num_owners
      ∷ []
  event_payload (Event.create_child_owner x) =
      of_field "proposalHash" x.proposal_hash
      ∷ of_key "owner" x.owner
      ∷ of_field "index" x.index
      ∷ []

  -- An event as it is served, with the height of its block.
  unfoldable pub index_event : Option ℕ → Event → IndexedEvent
  index_event height ev = record {
    event_type = event_name ev;
    payload = event_payload ev;
    block_height = height;
  }

  -- The events as served, each with the height of its block.
  abbrev pub serve : List (Option ℕ × Event) → List IndexedEvent
  serve [] = []
  serve (x ∷ xs) = index_event x.0 x.1 ∷ serve xs
