-- ===== src/Guard/Setup/Config.antt =====
-- `setup`, `reserveForParent` and `executeSetupChild`: theorems on the configuration that is
-- installed.
use mina_guard.Base.{◌≢◌, sym, ◌∙◌, ap, some, take, ◌≡◌, List, ok, Result-cases, inl, inr, arith}
use mina_guard.Platform.{Field, PublicKey, MerkleMapWitness, Platform, empty_key}
use mina_guard.Platform.Laws.{HashLaws}
use mina_guard.Hashes.{child_config_hash}
use mina_guard.Owners.{compute_owner_chain, compute_setup_owners_chain}
use mina_guard.Owners.Chain.{compute_owner_chain-injective}
use mina_guard.Owners.Setup.{compute_setup_owners_chain_lem}
use mina_guard.Guard.Checks.{assert_parent_approval_state}
use mina_guard.Guard.Checks.Facts.{Approves, assert_parent_approval_state-ok}
use mina_guard.Proposal.{TransactionProposal}
use mina_guard.Guard.{Guard, Env, Event, Outcome}
use mina_guard.Guard.Setup.{
  SetupOwnersInput, initialize_state, setup, reserve_for_parent, execute_setup_child,
}

module _ ⦃o : Platform⦄ where
  pub setup-initializes :
      (s : Guard) (t n : Field) (owners : SetupOwnersInput) {out : Outcome}
      → setup s t n owners ≡ ok out
      → (r : Guard × List Event) × (initialize_state s t n empty_key 0 0 owners ≡ ok r)
        × (out.state ≡ r.0)
  unfolding setup
  setup-initializes s t n owners {out} e =
      elim (Result-cases (initialize_state s t n empty_key 0 0 owners)) [
        | inl (message, failed) ↦ ground arith
        | inr (r, done) ↦ (r, done, ground arith)
      ]

  pub execute_setup_child-initializes :
      (env : Env) (s : Guard) (t n : Field) (owners : SetupOwnersInput) (p : TransactionProposal)
      (w : MerkleMapWitness) (count : Field) {out : Outcome}
      → execute_setup_child env s t n owners p w count ≡ ok out
      → (r : Guard × List Event) × (initialize_state s t n p.guard_address 0 0 owners ≡ ok r)
        × (out.state ≡ record r.0 { reserved_config_hash = 0 })
  unfolding execute_setup_child
  execute_setup_child-initializes env s t n owners p w count {out} e =
      elim (Result-cases (initialize_state s t n p.guard_address 0 0 owners)) [
        | inl (message, failed) ↦ ground arith
        | inr (r, done) ↦ (r, done, ground arith)
      ]

  child_config_hash-injective :
      (h : HashLaws o) (c d t t' n n' : Field)
      → child_config_hash c t n ≡ child_config_hash d t' n'
      → (c ≡ d) × (t ≡ t') × (n ≡ n')
  unfolding child_config_hash
  child_config_hash-injective h c d t t' n n' e = ground (arith, h.same_fields _ _ _ _ e)

  reserved_hash :
      (env : Env) (s : Guard) (a : PublicKey) (hash t n : Field) (owners : SetupOwnersInput)
      {out : Outcome}
      → reserve_for_parent env s a hash t n owners ≡ ok out
      → (out.state.reserved_config_hash
          ≡ child_config_hash (compute_setup_owners_chain owners n) t n)
        × (out.state.parent ≡ a)
  unfolding reserve_for_parent
  reserved_hash env s a hash t n owners {out} e = (ground arith, ground arith)

  executed_hash :
      (env : Env) (s : Guard) (t n : Field) (owners : SetupOwnersInput) (p : TransactionProposal)
      (w : MerkleMapWitness) (count : Field) {out : Outcome}
      → execute_setup_child env s t n owners p w count ≡ ok out
      → (s.reserved_config_hash ≡ child_config_hash (compute_setup_owners_chain owners n) t n)
        × (p.payload ≡ child_config_hash (compute_setup_owners_chain owners n) t n)
        × (s.parent ≡ p.guard_address)
  unfolding execute_setup_child
  executed_hash env s t n owners p w count {out} e = (ground arith, ground arith, ground arith)

  -- Where hashes do not collide: if a child is reserved with a configuration and then set up, the
  -- setup has the same active owners in the same order, the same threshold and the same number of
  -- owners, and the proposal that it executes is one of the parent that reserved it.
  pub execute_setup_child-reserved :
      (h : HashLaws o) (env env' : Env) (s : Guard) (a : PublicKey) (hash t n : Field)
      (owners : SetupOwnersInput) {reserved : Outcome}
      → reserve_for_parent env s a hash t n owners ≡ ok reserved
      → (t' n' : Field) (owners' : SetupOwnersInput) (p : TransactionProposal)
        (w : MerkleMapWitness) (count : Field) {out : Outcome}
      → execute_setup_child env' reserved.state t' n' owners' p w count ≡ ok out
      → (t ≡ t') × (n ≡ n') × (take n owners ≡ take n' owners') × (p.guard_address ≡ a)
  execute_setup_child-reserved h env env' s a hash t n owners {reserved} r t' n' owners' p w count
        e =
      let (kept, parent) = reserved_hash env s a hash t n owners r in
      let (checked, approved, same_parent) =
        executed_hash env' reserved.state t' n' owners' p w count e in
      let (chains, thresholds, numbers) =
        child_config_hash-injective h (compute_setup_owners_chain owners n)
          (compute_setup_owners_chain owners' n') t t' n n' (sym kept ∙ checked) in
      (
        thresholds,
        numbers,
        compute_owner_chain-injective h (take n owners) (take n' owners') (
            sym (compute_setup_owners_chain_lem owners n)
            ∙ chains
            ∙ compute_setup_owners_chain_lem owners' n'),
        sym same_parent ∙ parent,
      )

  approval_of :
      (env : Env) (s : Guard) (t n : Field) (owners : SetupOwnersInput) (p : TransactionProposal)
      (w : MerkleMapWitness) (count : Field) {out : Outcome}
      → execute_setup_child env s t n owners p w count ≡ ok out
      → (p.child_account ≡ env.address)
        × (hash : Field) × (assert_parent_approval_state env p p.guard_address w count ≡ ok hash)
  unfolding execute_setup_child
  approval_of env s t n owners p w count {out} e =
      elim (Result-cases (assert_parent_approval_state env p p.guard_address w count)) [
        | inl (message, failed) ↦ ground arith
        | inr (hash, done) ↦ (ground arith, hash, done)
      ]

  -- A child is set up only on a proposal for this child whose data is the hash of exactly this
  -- configuration, and which the guard at the reserved parent address, initialised, has approved
  -- to its threshold.
  pub execute_setup_child-approved :
      (env : Env) (s : Guard) (t n : Field) (owners : SetupOwnersInput) (p : TransactionProposal)
      (w : MerkleMapWitness) (count : Field) {out : Outcome}
      → execute_setup_child env s t n owners p w count ≡ ok out
      → (parent : Guard) × (env.ledger s.parent ≡ some parent)
        × (parent.owners_commitment ≢ 0)
        × Approves parent s.parent p w count
        × (p.child_account ≡ env.address)
        × (p.payload ≡ child_config_hash (compute_owner_chain (take n owners)) t n)
  execute_setup_child-approved env s t n owners p w count {out} e =
      let (checked, approved, same_parent) = executed_hash env s t n owners p w count e in
      let (child, hash, verified) = approval_of env s t n owners p w count e in
      let (parent, found, ready, approves, hashed) =
        assert_parent_approval_state-ok env p p.guard_address w count {h = hash} verified in
      rw same_parent (
        parent,
        found,
        ready,
        approves,
        child,
        approved ∙ ap (λ c. child_config_hash c t n) (compute_setup_owners_chain_lem owners n),
      )
