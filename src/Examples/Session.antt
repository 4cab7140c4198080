-- ===== src/Examples/Session.antt =====
-- One session of a guard with two owners and threshold 2: set up, a transfer proposed by one owner,
-- approved by the other, and executed.
use mina_guard.Base.{
  ◌≡◌, refl, Bool, true, false, none, some, List, [], ◌∷◌, ◌++◌, replicate, map, Result, ok, err,
}
use mina_guard.Platform.{Field, PublicKey, Signature, MerkleMapWitness, empty_key}
use mina_guard.Constants.{transfer_type, local}
use mina_guard.Hashes.{
  SigningAction, propose_action, approve_action, vote_nullifier_key, proposal_signing_message,
}
use mina_guard.Owners.{OwnerWitness}
use mina_guard.Proposal.{TransactionProposal, empty_receiver, proposal_hash}
use mina_guard.Guard.{Guard, Env, Outcome}
use mina_guard.Guard.Run.{Call, setup_call, propose_call, approve_call, transfer_call, blank, call}
use mina_guard.Examples.Ideal.{ideal}

abbrev pub key : Field → PublicKey
key n = record { x = n; is_odd = false }

abbrev pub alice : PublicKey
alice = key 5

abbrev pub bob : PublicKey
bob = key 7

abbrev pub guard_key : PublicKey
guard_key = key 3

abbrev pub here : PublicKey → Guard → Env
here address s = record { address = address; slot = 10; balance = 1000; ledger = λ a. some s }

abbrev pub slots : List PublicKey → OwnerWitness
slots owners =
    map (λ k. record { is_some = true; value = k }) owners
    ++ replicate 18 (record { is_some = false; value = empty_key })

abbrev pub transfer : TransactionProposal
transfer = record {
  receivers = record { address = key 9; amount = 100 } ∷ replicate 8 empty_receiver;
  token_id = 1;
  tx_type = transfer_type;
  payload = 0;
  memo_hash = 0;
  nonce = 1;
  config_nonce = 0;
  expiry_slot = 0;
  guard_address = guard_key;
  destination = local;
  child_account = empty_key;
}

abbrev pub sign : PublicKey → TransactionProposal → SigningAction → Signature
sign k p a = record { r = k.x; s = proposal_signing_message (proposal_hash p) a }

-- The witness of `k` in the map with the given writes, latest first.
abbrev pub path : Field → List Field → MerkleMapWitness
path k writes = record { is_lefts = []; siblings = k ∷ writes }

no_outcome : Outcome
no_outcome = record {
  state = blank;
  events = [];
  payments = [];
  delegate = none;
  permissions = none;
}

unfoldable pub outcome : Result Outcome → Outcome
unfolding no_outcome
outcome (ok out) = out
outcome (err e) = no_outcome

unfoldable pub succeeds : Result Outcome → Bool
succeeds (ok out) = true
succeeds (err e) = false

pub succeeds_lem : (r : Result Outcome) → succeeds r ≡ true → r ≡ ok (outcome r)
unfolding succeeds outcome
succeeds_lem (ok out) h = refl
succeeds_lem (err e) h = cc

abbrev pub setup_args : Call
setup_args = setup_call 2 2 (alice ∷ bob ∷ replicate 18 empty_key)

abbrev pub transfer_hash : Field
transfer_hash = proposal_hash transfer

abbrev pub alice_vote : Field
alice_vote = vote_nullifier_key transfer_hash alice

abbrev pub bob_vote : Field
bob_vote = vote_nullifier_key transfer_hash bob

-- The approval map after the proposal and after the approval.
abbrev pub proposed : List Field
proposed = transfer_hash ∷ 2 ∷ []

abbrev pub approved : List Field
approved = transfer_hash ∷ 3 ∷ proposed

abbrev pub propose_args : Call
propose_args =
    propose_call transfer (slots (alice ∷ bob ∷ [])) alice (sign alice transfer propose_action)
      (path alice_vote []) (path transfer_hash [])

abbrev pub approve_args : Call
approve_args =
    approve_call transfer (sign bob transfer approve_action) bob (slots (alice ∷ bob ∷ []))
      (path transfer_hash proposed) 2 (path bob_vote (alice_vote ∷ 1 ∷ []))

abbrev pub transfer_args : Call
transfer_args = transfer_call transfer (path transfer_hash approved) 3

abbrev pub at : Guard → Call → Result Outcome
at s c = call (here guard_key s) s c

unfoldable pub state1 : Guard
state1 = (outcome (at blank setup_args)).state

unfoldable pub state2 : Guard
state2 = (outcome (at state1 propose_args)).state

unfoldable pub state3 : Guard
state3 = (outcome (at state2 approve_args)).state
