-- ===== src/Rebuild/Notable.antt =====
-- The events of `class MinaGuard` that contracts/src/event-rebuild.ts reads, for each method.
use mina_guard.Base.{
  ℕ, suc, ◌≡◌, ◌⊎◌, Bool, true, false, List, [], ◌∷◌, ◌++◌, filter, ok, Bool-cases, inl, inr, refl,
  arith,
}
use mina_guard.Platform.{
  Field, PublicKey, PublicKeyOption, Signature, MerkleMapWitness, Platform, fadd,
}
use mina_guard.Constants.{
  transfer_type, add_owner_type, remove_owner_type, change_threshold_type, set_delegate_type,
  allocate_child_type, create_child_type, reclaim_child_type, destroy_child_type,
  enable_child_multi_sig_type,
}
use mina_guard.Owners.{OwnerWitness}
use mina_guard.Proposal.{TransactionProposal, Receiver, proposal_hash}
use mina_guard.Guard.{Guard, Env, Event, Outcome}
use mina_guard.Guard.Checks.{
  emit_receivers_event, mark_executed, verify_parent_approval, assert_parent_approval_state,
}
use mina_guard.Guard.Setup.{
  SetupOwnersInput, setup_owner_events, create_child_owner_events, initialize_state, setup,
  reserve_for_parent, execute_setup_child,
}
use mina_guard.Guard.Propose.{propose}
use mina_guard.Guard.Approve.{approve_proposal}
use mina_guard.Guard.Execute.{
  execution_event, execute_transfer, execute_allocate_to_children, execute_owner_change,
  execute_threshold_change, execute_delegate,
}
use mina_guard.Guard.Child.{
  execute_reclaim_to_parent, execute_destroy, execute_enable_child_multi_sig,
}

-- The events that the rebuild of the maps reads.
abbrev pub is_notable : Event → Bool
is_notable (Event.proposal _) = true
is_notable (Event.approval _) = true
is_notable (Event.execution _) = true
is_notable _ = false

abbrev pub notable : List Event → List Event
notable evs = filter is_notable evs

notable-append : (xs ys : List Event) → notable (xs ++ ys) ≡ notable xs ++ notable ys
notable-append [] ys = refl
notable-append (x ∷ xs) ys = elim (Bool-cases (is_notable x)) [
  | inl kept ↦ rw (filter, kept, notable-append xs ys) refl
  | inr dropped ↦ rw (filter, dropped, notable-append xs ys) refl
]

notable-emit_receivers_event :
    (hash : Field) (rs : List Receiver) → notable (emit_receivers_event hash rs) ≡ []
unfolding emit_receivers_event
notable-emit_receivers_event hash [] = refl
notable-emit_receivers_event hash (r ∷ rs) = notable-emit_receivers_event hash rs

notable-setup_owner_events :
    (m : Field) (i : ℕ) (owners : SetupOwnersInput) → notable (setup_owner_events m i owners) ≡ []
unfolding setup_owner_events
notable-setup_owner_events m i [] = refl
notable-setup_owner_events m i (k ∷ ks) = notable-setup_owner_events m (suc i) ks

notable-create_child_owner_events :
    (hash m : Field) (i : ℕ) (owners : SetupOwnersInput)
    → notable (create_child_owner_events hash m i owners) ≡ []
unfolding create_child_owner_events
notable-create_child_owner_events hash m i [] = refl
notable-create_child_owner_events hash m i (k ∷ ks) =
    notable-create_child_owner_events hash m (suc i) ks

module _ ⦃o : Platform⦄ (env : Env) (s : Guard) where
  module _ (p : TransactionProposal) (w : MerkleMapWitness) (n : Field) where
    -- One execution event and nothing else of note.
    abbrev pub Runs : Outcome → Type 0
    Runs out = notable out.events ≡ (execution_event (proposal_hash p) p (mark_executed w) ∷ [])

    pub execute_transfer-events :
        {out : Outcome}
        → execute_transfer env s p w n ≡ ok out
        → (p.tx_type ≡ transfer_type) × Runs out
    unfolding execute_transfer
    execute_transfer-events {out} e = ground arith

    pub execute_allocate_to_children-events :
        {out : Outcome}
        → execute_allocate_to_children env s p w n ≡ ok out
        → (p.tx_type ≡ allocate_child_type) × Runs out
    unfolding execute_allocate_to_children
    execute_allocate_to_children-events {out} e = ground arith

    pub execute_owner_change-events :
        (ow : OwnerWitness) (after : PublicKeyOption) {out : Outcome}
        → execute_owner_change env s p w n ow after ≡ ok out
        → ((p.tx_type ≡ add_owner_type) ⊎ (p.tx_type ≡ remove_owner_type)) × Runs out
    unfolding execute_owner_change
    execute_owner_change-events ow after {out} e = ground arith

    pub execute_threshold_change-events :
        (t : Field) {out : Outcome}
        → execute_threshold_change env s p w n t ≡ ok out
        → (p.tx_type ≡ change_threshold_type) × Runs out
    unfolding execute_threshold_change
    execute_threshold_change-events t {out} e = ground arith

    pub execute_delegate-events :
        {out : Outcome}
        → execute_delegate env s p w n ≡ ok out
        → (p.tx_type ≡ set_delegate_type) × Runs out
    unfolding execute_delegate
    execute_delegate-events {out} e = ground arith

    pub execute_reclaim_to_parent-events :
        (cw : MerkleMapWitness) (amount : Field) {out : Outcome}
        → execute_reclaim_to_parent env s p w n cw amount ≡ ok out
        → (p.tx_type ≡ reclaim_child_type)
          × (notable out.events ≡ (execution_event (proposal_hash p) p (mark_executed cw) ∷ []))
    unfolding execute_reclaim_to_parent verify_parent_approval assert_parent_approval_state
    execute_reclaim_to_parent-events cw amount {out} e = ground arith

    pub execute_destroy-events :
        (cw : MerkleMapWitness) (balance : Field) {out : Outcome}
        → execute_destroy env s p w n cw balance ≡ ok out
        → (p.tx_type ≡ destroy_child_type)
          × (notable out.events ≡ (execution_event (proposal_hash p) p (mark_executed cw) ∷ []))
    unfolding execute_destroy verify_parent_approval assert_parent_approval_state
    execute_destroy-events cw balance {out} e = ground arith

    pub execute_enable_child_multi_sig-events :
        (cw : MerkleMapWitness) (enabled : Field) {out : Outcome}
        → execute_enable_child_multi_sig env s p w n cw enabled ≡ ok out
        → (p.tx_type ≡ enable_child_multi_sig_type)
          × (notable out.events ≡ (execution_event (proposal_hash p) p (mark_executed cw) ∷ []))
    unfolding execute_enable_child_multi_sig verify_parent_approval assert_parent_approval_state
    execute_enable_child_multi_sig-events cw enabled {out} e = ground arith

    pub execute_setup_child-events :
        (t m : Field) (owners : SetupOwnersInput) {out : Outcome}
        → execute_setup_child env s t m owners p w n ≡ ok out
        → (p.tx_type ≡ create_child_type)
          × (notable out.events ≡ (execution_event (proposal_hash p) p o.empty_map_root ∷ []))
    unfolding execute_setup_child assert_parent_approval_state initialize_state
    execute_setup_child-events t m owners {out} e = ground (
      arith,
      notable-append (setup_owner_events m 0 owners) (
          execution_event (proposal_hash p) p o.empty_map_root
          ∷ Event.create_child
              (record { proposal_hash = proposal_hash p; parent_address = p.guard_address })
          ∷ []),
      notable-setup_owner_events m 0 owners,
    )

  pub setup-events :
      (t m : Field) (owners : SetupOwnersInput) {out : Outcome}
      → setup s t m owners ≡ ok out
      → notable out.events ≡ []
  unfolding setup initialize_state
  setup-events t m owners {out} e = ground (arith, notable-setup_owner_events m 0 owners)

  pub reserve_for_parent-events :
      (k : PublicKey) (hash t m : Field) (owners : SetupOwnersInput) {out : Outcome}
      → reserve_for_parent env s k hash t m owners ≡ ok out
      → notable out.events ≡ []
  unfolding reserve_for_parent
  reserve_for_parent-events k hash t m owners {out} e =
      ground (arith, notable-create_child_owner_events hash m 0 owners)

  module _ (p : TransactionProposal) (ow : OwnerWitness) (voter : PublicKey) (sig : Signature)
      (vw aw : MerkleMapWitness) where
    abbrev pub approval_of : Field → Event
    approval_of count = Event.approval (record {
      proposal_hash = proposal_hash p;
      approver = voter;
      approval_count = count;
      approval_root = (o.compute_root_and_key aw count).0;
      vote_nullifier_root = (o.compute_root_and_key vw 1).0;
    })

    abbrev pub proposal_of : Event
    proposal_of = Event.proposal (record {
      proposal_hash = proposal_hash p;
      proposer = voter;
      token_id = p.token_id;
      tx_type = p.tx_type;
      payload = p.payload;
      memo_hash = p.memo_hash;
      nonce = p.nonce;
      config_nonce = p.config_nonce;
      expiry_slot = p.expiry_slot;
      guard_address = p.guard_address;
      destination = p.destination;
      child_account = p.child_account;
    })

    pub propose-events :
        {out : Outcome}
        → propose env s p ow voter sig vw aw ≡ ok out
        → notable out.events ≡ (proposal_of ∷ approval_of (fadd 1 1) ∷ [])
    unfolding propose
    propose-events {out} e = ground (
      arith,
      notable-append (emit_receivers_event (proposal_hash p) p.receivers)
          (approval_of (fadd 1 1) ∷ []),
      notable-emit_receivers_event (proposal_hash p) p.receivers,
    )

    pub approve_proposal-events :
        (count : Field) {out : Outcome}
        → approve_proposal env s p sig voter ow aw count vw ≡ ok out
        → notable out.events ≡ (approval_of (fadd count 1) ∷ [])
    unfolding approve_proposal
    approve_proposal-events count {out} e = ground arith
