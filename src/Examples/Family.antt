-- ===== src/Examples/Family.antt =====
-- A parent guard that has approved one proposal, and a child that carries such proposals out; and a
-- guard that executes an allocation and an owner change.
use mina_guard.Base.{true, some, List, [], ◌∷◌, replicate}
use mina_guard.Platform.{Field, PublicKey, PublicKeyOption, MerkleMapWitness, empty_key}
use mina_guard.Constants.{
  create_child_type, reclaim_child_type, destroy_child_type, enable_child_multi_sig_type,
  allocate_child_type, add_owner_type, local, remote,
}
use mina_guard.Hashes.{child_config_hash}
use mina_guard.Owners.{compute_owner_chain, compute_setup_owners_chain}
use mina_guard.Proposal.{TransactionProposal, empty_receiver, proposal_hash}
use mina_guard.Guard.{Guard, Env}
use mina_guard.Guard.Run.{
  Call, reserve_call, setup_child_call, reclaim_call, destroy_call, enable_call, allocate_call,
  owner_change_call, blank, call,
}
use mina_guard.Examples.Ideal.{ideal, ideal_path}
use mina_guard.Examples.Session.{key, alice, bob, guard_key, slots, path, outcome, state1}

abbrev pub child_key : PublicKey
child_key = key 11

abbrev pub carol : PublicKey
carol = key 13

abbrev pub pair_of_owners : List PublicKey
pair_of_owners = alice ∷ bob ∷ replicate 18 empty_key

abbrev pub remote_proposal : Field → Field → Field → TransactionProposal
remote_proposal t nonce payload = record {
  receivers = replicate 9 empty_receiver;
  token_id = 1;
  tx_type = t;
  payload = payload;
  memo_hash = 0;
  nonce = nonce;
  config_nonce = 0;
  expiry_slot = 0;
  guard_address = guard_key;
  destination = remote;
  child_account = child_key;
}

abbrev pub create : TransactionProposal
create =
    remote_proposal create_child_type 0
      (child_config_hash (compute_setup_owners_chain pair_of_owners 2) 2 2)

abbrev pub reclaim : TransactionProposal
reclaim = remote_proposal reclaim_child_type 1 50

abbrev pub destroy : TransactionProposal
destroy = remote_proposal destroy_child_type 1 0

abbrev pub disable : TransactionProposal
disable = remote_proposal enable_child_multi_sig_type 1 0

-- A guard with threshold 1 whose approval map has the count 2 at the hash of `p`, and nothing else.
abbrev pub approving : TransactionProposal → Guard
approving p = record blank {
  owners_commitment = 1;
  threshold = 1;
  num_owners = 1;
  approval_root = (ideal_path (proposal_hash p ∷ []) 2).0;
}

abbrev pub approval : TransactionProposal → List Field
approval p = proposal_hash p ∷ 2 ∷ []

-- At the child, with `approving p` as its parent.
abbrev pub child_env : TransactionProposal → Env
child_env p = record {
  address = child_key;
  slot = 10;
  balance = 1000;
  ledger = λ a. some (approving p);
}

abbrev pub reserve_args : Call
reserve_args = reserve_call guard_key (proposal_hash create) 2 2 pair_of_owners

unfoldable pub reserved : Guard
reserved = (outcome (call (child_env create) blank reserve_args)).state

abbrev pub setup_child_args : Call
setup_child_args =
    setup_child_call 2 2 pair_of_owners create (path (proposal_hash create) (approval create)) 2

unfoldable pub child : Guard
child = (outcome (call (child_env create) reserved setup_child_args)).state

abbrev pub parent_path : TransactionProposal → MerkleMapWitness
parent_path p = path (proposal_hash p) (approval p)

abbrev pub child_path : TransactionProposal → MerkleMapWitness
child_path p = path (proposal_hash p) []

abbrev pub reclaim_args : Call
reclaim_args = reclaim_call reclaim (parent_path reclaim) 2 (child_path reclaim) 50

abbrev pub destroy_args : Call
destroy_args = destroy_call destroy (parent_path destroy) 2 (child_path destroy) 700

abbrev pub disable_args : Call
disable_args = enable_call disable (parent_path disable) 2 (child_path disable) 0

abbrev pub allocation : TransactionProposal
allocation = record (remote_proposal allocate_child_type 1 0) {
  receivers = record { address = child_key; amount = 100 } ∷ replicate 8 empty_receiver;
  destination = local;
  child_account = empty_key;
}

-- At the guard, with a child of it at every address.
abbrev pub with_children : Env
with_children = record {
  address = guard_key;
  slot = 10;
  balance = 1000;
  ledger = λ a. some (record blank { owners_commitment = 1; parent = guard_key });
}

abbrev pub allocate_args : Call
allocate_args = allocate_call allocation (parent_path allocation) 2

abbrev pub addition : TransactionProposal
addition =
    record (remote_proposal add_owner_type 1 (compute_owner_chain (alice ∷ bob ∷ carol ∷ []))) {
      receivers = record { address = carol; amount = 0 } ∷ replicate 8 empty_receiver;
      destination = local;
      child_account = empty_key;
    }

abbrev pub after_bob : PublicKeyOption
after_bob = record { is_some = true; value = bob }

-- The session's guard, with the approvals that the addition needs.
unfoldable pub approving_addition : Guard
approving_addition = record state1 {
  approval_root = (ideal_path (proposal_hash addition ∷ []) 3).0;
}

abbrev pub addition_path : MerkleMapWitness
addition_path = path (proposal_hash addition) (proposal_hash addition ∷ 3 ∷ [])

abbrev pub addition_args : Call
addition_args = owner_change_call addition addition_path 3 (slots (alice ∷ bob ∷ [])) after_bob
