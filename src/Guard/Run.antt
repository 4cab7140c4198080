-- ===== src/Guard/Run.antt =====
-- Histories of one guard: any sequence of calls of its methods, each with arguments of the caller's
-- choice and whatever other guards hold at the time. A call that throws leaves no trace.
pub mod Governance
pub mod OwnerList
pub mod Ballots
pub mod Writes
pub mod Tally
pub mod Books
pub mod Quorum
pub mod Replay
use mina_guard.Base.{ℕ, suc, ◌≡◌, length, List, [], ◌∷◌, Result, ok}
use mina_guard.Platform.{
  Field, UInt64, PublicKey, PublicKeyOption, Signature, MerkleMapWitness, Platform, empty_key,
}
use mina_guard.Constants.{max_owners}
use mina_guard.Owners.{OwnerWitness}
use mina_guard.Proposal.{TransactionProposal, IsWellFormed, proposal_hash}
use mina_guard.Guard.{Guard, Env, Outcome}
use mina_guard.Guard.Setup.{SetupOwnersInput, setup, reserve_for_parent, execute_setup_child}
use mina_guard.Guard.Propose.{propose}
use mina_guard.Guard.Approve.{approve_proposal}
use mina_guard.Guard.Execute.{
  execute_transfer, execute_allocate_to_children, execute_owner_change, execute_threshold_change,
  execute_delegate,
}
use mina_guard.Guard.Child.{
  execute_reclaim_to_parent, execute_destroy, execute_enable_child_multi_sig,
}

-- The methods of the class with their arguments, in the order of the source.
pub data Call : Type 0 where
  setup_call : Field → Field → SetupOwnersInput → Call
  reserve_call : PublicKey → Field → Field → Field → SetupOwnersInput → Call
  setup_child_call :
      Field → Field → SetupOwnersInput → TransactionProposal → MerkleMapWitness → Field → Call
  propose_call :
      TransactionProposal
      → OwnerWitness
      → PublicKey
      → Signature
      → MerkleMapWitness
      → MerkleMapWitness
      → Call
  approve_call :
      TransactionProposal
      → Signature
      → PublicKey
      → OwnerWitness
      → MerkleMapWitness
      → Field
      → MerkleMapWitness
      → Call
  transfer_call allocate_call delegate_call : TransactionProposal → MerkleMapWitness → Field → Call
  owner_change_call :
      TransactionProposal → MerkleMapWitness → Field → OwnerWitness → PublicKeyOption → Call
  threshold_change_call : TransactionProposal → MerkleMapWitness → Field → Field → Call
  reclaim_call destroy_call enable_call :
      TransactionProposal → MerkleMapWitness → Field → MerkleMapWitness → Field → Call

-- The fixed array sizes of the circuit's types: `MAX_OWNERS` owner slots, `MAX_RECEIVERS` receivers.
abbrev pub IsTyped : Call → Type 0
IsTyped (setup_call t n owners) = length owners ≡ max_owners
IsTyped (reserve_call a h t n owners) = length owners ≡ max_owners
IsTyped (setup_child_call t n owners p w c) = (length owners ≡ max_owners) × IsWellFormed p
IsTyped (propose_call p ow v sig vw aw) = (length ow ≡ max_owners) × IsWellFormed p
IsTyped (approve_call p sig v ow aw c vw) = (length ow ≡ max_owners) × IsWellFormed p
IsTyped (transfer_call p w c) = IsWellFormed p
IsTyped (allocate_call p w c) = IsWellFormed p
IsTyped (delegate_call p w c) = IsWellFormed p
IsTyped (owner_change_call p w c ow after) = (length ow ≡ max_owners) × IsWellFormed p
IsTyped (threshold_change_call p w c t) = IsWellFormed p
IsTyped (reclaim_call p w c cw a) = IsWellFormed p
IsTyped (destroy_call p w c cw b) = IsWellFormed p
IsTyped (enable_call p w c cw b) = IsWellFormed p

-- One vote: the proposal voted for and its hash, the voter, and the owner set and governance epoch at the time.
pub record Ballot : Type 0 where
  pub hash : Field
  pub proposal : TransactionProposal
  pub voter : PublicKey
  pub commitment : Field
  pub config_nonce : Field

-- The state of a fresh account.
abbrev pub blank : Guard
blank = record {
  owners_commitment = 0;
  threshold = 0;
  num_owners = 0;
  nonce = 0;
  vote_nullifier_root = 0;
  approval_root = 0;
  config_nonce = 0;
  parent = empty_key;
  parent_nonce = 0;
  child_execution_root = 0;
  child_multi_sig_enabled = 0;
  reserved_config_hash = 0;
}

module _ ⦃o : Platform⦄ where
  unfoldable pub call : Env → Guard → Call → Result Outcome
  call env s (setup_call t n owners) = setup s t n owners
  call env s (reserve_call a h t n owners) = reserve_for_parent env s a h t n owners
  call env s (setup_child_call t n owners p w c) = execute_setup_child env s t n owners p w c
  call env s (propose_call p ow v sig vw aw) = propose env s p ow v sig vw aw
  call env s (approve_call p sig v ow aw c vw) = approve_proposal env s p sig v ow aw c vw
  call env s (transfer_call p w c) = execute_transfer env s p w c
  call env s (allocate_call p w c) = execute_allocate_to_children env s p w c
  call env s (owner_change_call p w c ow after) = execute_owner_change env s p w c ow after
  call env s (threshold_change_call p w c t) = execute_threshold_change env s p w c t
  call env s (delegate_call p w c) = execute_delegate env s p w c
  call env s (reclaim_call p w c cw a) = execute_reclaim_to_parent env s p w c cw a
  call env s (destroy_call p w c cw b) = execute_destroy env s p w c cw b
  call env s (enable_call p w c cw b) = execute_enable_child_multi_sig env s p w c cw b

  -- The ballots after a call that succeeded.
  unfoldable pub cast : Guard → Call → List Ballot → List Ballot
  cast s (propose_call p ow v sig vw aw) bs =
      record {
        hash = proposal_hash p;
        proposal = p;
        voter = v;
        commitment = s.owners_commitment;
        config_nonce = s.config_nonce;
      }
      ∷ bs
  cast s (approve_call p sig v ow aw c vw) bs =
      record {
        hash = proposal_hash p;
        proposal = p;
        voter = v;
        commitment = s.owners_commitment;
        config_nonce = s.config_nonce;
      }
      ∷ bs
  cast s _ bs = bs

  -- `Run n s bs`: after `n` calls that succeeded on a fresh account the state is `s`, and `bs` are
  -- the votes cast, latest first.
  pub data Run : ℕ → Guard → List Ballot → Type 0 where
    start : Run 0 blank []
    next :
        {n : ℕ} {s : Guard} {bs : List Ballot}
        → Run n s bs
        → (env : Env) (c : Call) {out : Outcome} → IsTyped c
        → call env s c ≡ ok out
        → Run (suc n) out.state (cast s c bs)
