-- ===== src/Guard/Setup.antt =====
-- `deploy`, `setup`, `reserveForParent` and `executeSetupChild` of `class MinaGuard`.
pub mod Config
use mina_guard.Base.{
  ℕ, suc, Bool, Option, none, some, List, [], ◌∷◌, ◌++◌, Result, ok, require, forbid, or_throw,
  ◌>>=◌, ◌>>◌, not, ltb, ◌==◌, if◌then◌else◌,
}
use mina_guard.Platform.{Field, PublicKey, MerkleMapWitness, Platform, empty_key, key_eq, is_empty}
use mina_guard.Constants.{create_child_type, remote}
use mina_guard.Hashes.{child_config_hash}
use mina_guard.Owners.{assert_coherent_setup_owners, compute_setup_owners_chain}
use mina_guard.Permissions.{guard_permissions, guard_deploy_permissions}
use mina_guard.Proposal.{TransactionProposal}
use mina_guard.Guard.{Guard, Env, Event, Outcome}
use mina_guard.Guard.Checks.{assert_valid_initial_governance, assert_parent_approval_state}

-- The fixed array `SetupOwnersInput.owners`, with `MAX_OWNERS` slots.
abbrev pub SetupOwnersInput : Type 0
SetupOwnersInput = List PublicKey

abbrev slot_owner : Field → ℕ → PublicKey → PublicKey
slot_owner num_owners i owner = if ltb i num_owners then owner else empty_key

unfoldable pub setup_owner_events : Field → ℕ → SetupOwnersInput → List Event
setup_owner_events num_owners i [] = []
setup_owner_events num_owners i (owner ∷ owners) =
    Event.setup_owner (record { owner = slot_owner num_owners i owner; index = i })
    ∷ setup_owner_events num_owners (suc i) owners

unfoldable pub create_child_owner_events : Field → Field → ℕ → SetupOwnersInput → List Event
create_child_owner_events hash num_owners i [] = []
create_child_owner_events hash num_owners i (owner ∷ owners) =
    Event.create_child_owner
      (record { proposal_hash = hash; owner = slot_owner num_owners i owner; index = i })
    ∷ create_child_owner_events hash num_owners (suc i) owners

-- What `super.deploy()` does to the account is o1js's: the state is what it leaves.
unfoldable pub deploy : Env → Guard → Outcome
deploy env s = record {
  state = s;
  events = Event.deployed env.address ∷ [];
  payments = [];
  delegate = none;
  permissions = some guard_deploy_permissions;
}

module _ ⦃o : Platform⦄ where
  unfoldable pub initialize_state :
      Guard
      → Field
      → Field
      → PublicKey
      → Field
      → Field
      → SetupOwnersInput
      → Result (Guard × List Event)
  initialize_state s threshold num_owners parent nonce parent_nonce owners = do
    require (s.owners_commitment == 0) "ownersCommitment precondition unsatisfied"
    assert_valid_initial_governance threshold num_owners
    assert_coherent_setup_owners owners num_owners
    let commitment = compute_setup_owners_chain owners num_owners
    ok (
      record s {
        owners_commitment = commitment;
        threshold = threshold;
        num_owners = num_owners;
        nonce = nonce;
        approval_root = o.empty_map_root;
        vote_nullifier_root = o.empty_map_root;
        parent = parent;
        parent_nonce = parent_nonce;
        child_execution_root = o.empty_map_root;
        child_multi_sig_enabled = 1;
      },
      Event.setup (record {
        owners_commitment = commitment;
        threshold = threshold;
        num_owners = num_owners;
        parent = parent;
      })
          ∷ setup_owner_events num_owners 0 owners,
    )

  unfoldable pub setup : Guard → Field → Field → SetupOwnersInput → Result Outcome
  setup s threshold num_owners owners = do
    require (is_empty s.parent) "parent precondition unsatisfied"
    (state, events) ← initialize_state s threshold num_owners empty_key 0 0 owners
    ok (record {
      state = state;
      events = events;
      payments = [];
      delegate = none;
      permissions = some guard_permissions;
    })

  unfoldable pub reserve_for_parent :
      Env → Guard → PublicKey → Field → Field → Field → SetupOwnersInput → Result Outcome
  reserve_for_parent env s parent_address hash threshold num_owners owners = do
    require (s.owners_commitment == 0) "ownersCommitment precondition unsatisfied"
    require (is_empty s.parent) "parent precondition unsatisfied"
    forbid (is_empty parent_address) "Parent address must not be empty"
    require (o.is_point parent_address) "toGroup: not a curve point"
    forbid (key_eq parent_address env.address) "Parent must not be this account"
    parent ← or_throw (env.ledger parent_address) "Could not fetch the account"
    forbid (parent.owners_commitment == 0) "Parent must be initialized"
    require (is_empty parent.parent) "Parent must be a root guard"
    assert_valid_initial_governance threshold num_owners
    assert_coherent_setup_owners owners num_owners
    let commitment = compute_setup_owners_chain owners num_owners
    ok (record {
      state = record s {
        parent = parent_address;
        reserved_config_hash = child_config_hash commitment threshold num_owners;
      };
      events =
          Event.create_child_config (record {
            proposal_hash = hash;
            child_account = env.address;
            owners_commitment = commitment;
            threshold = threshold;
            num_owners = num_owners;
          })
          ∷ create_child_owner_events hash num_owners 0 owners;
      payments = [];
      delegate = none;
      permissions = some guard_permissions;
    })

  unfoldable pub execute_setup_child :
      Env
      → Guard
      → Field
      → Field
      → SetupOwnersInput
      → TransactionProposal
      → MerkleMapWitness
      → Field
      → Result Outcome
  execute_setup_child env s threshold num_owners owners p w count =
      let parent_address = p.guard_address in
      do
        forbid (is_empty parent_address) "Parent address required"
        require (key_eq s.parent parent_address) "assertEquals: parent"
        require (p.tx_type == create_child_type) "Not a create child tx"
        require (p.destination == remote) "Not a remote execution proposal"
        require (key_eq p.child_account env.address) "Proposal not for this child"
        require (p.nonce == 0) "Create child proposal nonce must be 0"
        assert_coherent_setup_owners owners num_owners
        let commitment = compute_setup_owners_chain owners num_owners
        let config_hash = child_config_hash commitment threshold num_owners
        require (p.payload == config_hash) "Child config mismatch"
        require (s.reserved_config_hash == config_hash)
            "Executed config must match reserved child config"
        hash ← assert_parent_approval_state env p parent_address w count
        (state, events) ← initialize_state s threshold num_owners parent_address 0 0 owners
        ok (record {
          state = record state { reserved_config_hash = 0 };
          events =
              events
              ++ Event.execution
                  (record { proposal_hash = hash; tx_type = p.tx_type; root = o.empty_map_root })
                ∷ Event.create_child
                    (record { proposal_hash = hash; parent_address = parent_address })
                ∷ [];
          payments = [];
          delegate = none;
          permissions = none;
        })
