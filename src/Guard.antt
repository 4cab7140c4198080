-- ===== src/Guard.antt =====
-- The on-chain state of `class MinaGuard` (contracts/src/MinaGuard.ts), the events it emits, and what
-- a method call does to the account. The methods stand in the modules below this one.
pub mod Checks
pub mod Setup
pub mod Propose
pub mod Approve
pub mod Execute
pub mod Child
pub mod Vote
pub mod Run
use mina_guard.Base.{ℕ, Option, List}
use mina_guard.Platform.{Field, UInt64, PublicKey}
use mina_guard.Permissions.{Permissions}

-- The `@state` fields.
pub record Guard : Type 0 where
  pub owners_commitment : Field
  pub threshold : Field
  pub num_owners : Field
  pub nonce : Field
  pub vote_nullifier_root : Field
  pub approval_root : Field
  pub config_nonce : Field
  pub parent : PublicKey
  pub parent_nonce : Field
  pub child_execution_root : Field
  pub child_multi_sig_enabled : Field
  pub reserved_config_hash : Field

-- What a method reads besides its arguments and the state of its own account: `this.address`, the
-- slot and the balance at inclusion, and the guards at other addresses (`getAndRequireEquals` on
-- `new MinaGuard(address)`; `none` where there is no account).
pub record Env : Type 0 where
  pub address : PublicKey
  pub slot : ℕ
  pub balance : UInt64
  pub ledger : PublicKey → Option Guard

pub record SetupEvent : Type 0 where
  pub owners_commitment : Field
  pub threshold : Field
  pub num_owners : Field
  pub parent : PublicKey

pub record SetupOwnerEvent : Type 0 where
  pub owner : PublicKey
  pub index : Field

pub record ProposalEvent : Type 0 where
  pub proposal_hash : Field
  pub proposer : PublicKey
  pub token_id : Field
  pub tx_type : Field
  pub payload : Field
  pub memo_hash : Field
  pub nonce : Field
  pub config_nonce : Field
  pub expiry_slot : Field
  pub guard_address : PublicKey
  pub destination : Field
  pub child_account : PublicKey

pub record ReceiverEvent : Type 0 where
  pub proposal_hash : Field
  pub receiver : PublicKey
  pub amount : UInt64

pub record ApprovalEvent : Type 0 where
  pub proposal_hash : Field
  pub approver : PublicKey
  pub approval_count : Field
  pub approval_root : Field
  pub vote_nullifier_root : Field

pub record ExecutionEvent : Type 0 where
  pub proposal_hash : Field
  pub tx_type : Field
  pub root : Field

pub record OwnerChangeEvent : Type 0 where
  pub proposal_hash : Field
  pub owner : PublicKey
  pub added : Field
  pub new_num_owners : Field
  pub new_owners_commitment : Field
  pub config_nonce : Field

pub record ThresholdChangeEvent : Type 0 where
  pub proposal_hash : Field
  pub old_threshold : Field
  pub new_threshold : Field
  pub config_nonce : Field

pub record DelegateEvent : Type 0 where
  pub proposal_hash : Field
  pub delegate : PublicKey

pub record CreateChildEvent : Type 0 where
  pub proposal_hash : Field
  pub parent_address : PublicKey

pub record ReclaimChildEvent : Type 0 where
  pub proposal_hash : Field
  pub parent_address : PublicKey
  pub amount : UInt64

pub record EnableChildMultiSigEvent : Type 0 where
  pub proposal_hash : Field
  pub parent_address : PublicKey
  pub enabled : Field
  pub config_nonce : Field

pub record CreateChildConfigEvent : Type 0 where
  pub proposal_hash : Field
  pub child_account : PublicKey
  pub owners_commitment : Field
  pub threshold : Field
  pub num_owners : Field

pub record CreateChildOwnerEvent : Type 0 where
  pub proposal_hash : Field
  pub owner : PublicKey
  pub index : Field

-- The `events` of the class; `deployed` carries the guard's address.
pub data Event : Type 0 where
  deployed : PublicKey → Event
  setup : SetupEvent → Event
  setup_owner : SetupOwnerEvent → Event
  proposal : ProposalEvent → Event
  receiver : ReceiverEvent → Event
  approval : ApprovalEvent → Event
  execution : ExecutionEvent → Event
  owner_change : OwnerChangeEvent → Event
  threshold_change : ThresholdChangeEvent → Event
  delegate_set : DelegateEvent → Event
  create_child : CreateChildEvent → Event
  reclaim_child : ReclaimChildEvent → Event
  enable_child_multi_sig : EnableChildMultiSigEvent → Event
  create_child_config : CreateChildConfigEvent → Event
  create_child_owner : CreateChildOwnerEvent → Event

-- `this.send({ to, amount })`
pub record Payment : Type 0 where
  pub to : PublicKey
  pub amount : UInt64

-- What a call that succeeds does: the new state, and in order the events and the payments; the
-- delegate and the permission vector where it sets them. A call that throws does nothing.
pub record Outcome : Type 0 where
  pub state : Guard
  pub events : List Event
  pub payments : List Payment
  pub delegate : Option PublicKey
  pub permissions : Option Permissions
