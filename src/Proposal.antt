-- ===== src/Proposal.antt =====
-- `Receiver` and `TransactionProposal` of contracts/src/MinaGuard.ts. The `receivers` array has
-- `MAX_RECEIVERS` slots; where that matters it is a hypothesis, `IsWellFormed`.
pub mod Binding
use mina_guard.Base.{ℕ, ◌≡◌, Bool, true, List, [], ◌∷◌, ◌++◌, length, all, drop, bit}
use mina_guard.Platform.{Field, UInt64, PublicKey, Platform, empty_key, is_empty, key_fields}
use mina_guard.Constants.{max_receivers, network_domain}

pub record Receiver : Type 0 where
  pub address : PublicKey
  pub amount : UInt64

-- `Receiver.empty()`
abbrev pub empty_receiver : Receiver
empty_receiver = record { address = empty_key; amount = 0 }

pub record TransactionProposal : Type 0 where
  pub receivers : List Receiver
  pub token_id : Field
  pub tx_type : Field
  pub payload : Field
  pub memo_hash : Field
  pub nonce : Field
  pub config_nonce : Field
  pub expiry_slot : Field
  pub guard_address : PublicKey
  pub destination : Field
  pub child_account : PublicKey

pub record IsWellFormed (p : TransactionProposal) : Type 0 where
  pub slots : length p.receivers ≡ max_receivers

-- `Receiver.toFields` of every slot.
unfoldable pub receiver_fields : List Receiver → List Field
receiver_fields [] = []
receiver_fields (r ∷ rs) = r.address.x ∷ bit r.address.is_odd ∷ r.amount ∷ receiver_fields rs

module _ ⦃o : Platform⦄ where
  -- The fields after those of the receivers.
  unfoldable pub scalar_fields : TransactionProposal → List Field
  scalar_fields p =
      p.token_id
      ∷ p.tx_type
      ∷ p.payload
      ∷ p.memo_hash
      ∷ p.nonce
      ∷ p.config_nonce
      ∷ p.expiry_slot
      ∷ p.guard_address.x
      ∷ bit p.guard_address.is_odd
      ∷ p.destination
      ∷ p.child_account.x
      ∷ bit p.child_account.is_odd
      ∷ network_domain
      ∷ []

  -- `proposal.hash()`
  unfoldable pub proposal_hash : TransactionProposal → Field
  unfolding scalar_fields
  proposal_hash p =
      o.hash_with_prefix "mina-guard-proposal" (receiver_fields p.receivers ++ scalar_fields p)

  -- True iff the slots after the first are empty.
  unfoldable pub at_most_one_receiver : TransactionProposal → Bool
  at_most_one_receiver p = all (λ r. is_empty r.address) (drop 1 p.receivers)
