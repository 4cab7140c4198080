-- ===== src/Guard/Propose/Passes.antt =====
-- The rules of `propose` on the content of a proposal: its assertions as one predicate.
use mina_guard.Base.{
  ◌≤◌, ◌<◌, ◌≡◌, ◌≢◌, ◌⊎◌, ◌↔◌, inl, inr, refl, true, false, List, [], ◌∷◌, All, ok, arith,
}
use mina_guard.Platform.{Field, Platform, is_empty}
use mina_guard.Constants.{
  native_token_id, add_owner_type, remove_owner_type, change_threshold_type,
  enable_child_multi_sig_type, local, remote,
}
use mina_guard.Owners.{assert_on_curve_if}
use mina_guard.Proposal.{Receiver, TransactionProposal, at_most_one_receiver}
use mina_guard.Guard.{Guard}
use mina_guard.Guard.Propose.{
  slot0_empty, is_local_type, is_remote_type, is_known_type, is_transfer_like, allows_data,
  assert_zero_amounts, assert_receiver_slots, assert_proposal_rules,
}

module _ ⦃o : Platform⦄ where
  -- An empty slot grants nothing; a filled one names a curve point.
  unfoldable pub IsChecked : Receiver → Type 0
  IsChecked r =
      ((is_empty r.address ≡ true) × (r.amount ≡ 0))
      ⊎ ((is_empty r.address ≡ false) × (o.is_point r.address ≡ true))

  -- What the assertions ask, in their order.
  pub record Passes (s : Guard) (p : TransactionProposal) : Type 0 where
    pub placed :
        ((is_local_type p.tx_type ≡ true) × (p.destination ≡ local))
        ⊎ ((is_remote_type p.tx_type ≡ true) × (p.destination ≡ remote))
    pub target :
        ((p.tx_type ≢ add_owner_type) × (p.tx_type ≢ remove_owner_type)) ⊎ (slot0_empty p ≡ false)
    pub no_target :
        ((p.tx_type ≢ change_threshold_type) × (is_remote_type p.tx_type ≡ false))
        ⊎ (slot0_empty p ≡ true)
    pub sends :
        (is_transfer_like p.tx_type ≡ true)
        ⊎ ((at_most_one_receiver p ≡ true) × All (λ r. r.amount ≡ 0) p.receivers)
    pub payload : (allows_data p.tx_type ≡ true) ⊎ (p.payload ≡ 0)
    pub added : (p.tx_type ≢ add_owner_type) ⊎ (p.payload ≢ 0)
    pub threshold :
        (p.tx_type ≢ change_threshold_type) ⊎ ((0 < p.payload) × (p.payload ≤ s.num_owners))
    pub enabled : (p.tx_type ≢ enable_child_multi_sig_type) ⊎ ((p.payload ≡ 0) ⊎ (p.payload ≡ 1))
    pub native : p.token_id ≡ native_token_id
    pub slots : All IsChecked p.receivers

  assert_zero_amounts-transfer : (rs : List Receiver) → assert_zero_amounts true rs ≡ ok tt
  unfolding assert_zero_amounts
  assert_zero_amounts-transfer [] = refl
  assert_zero_amounts-transfer (r ∷ rs) = ground (arith, assert_zero_amounts-transfer rs)

  assert_zero_amounts_iff :
      (rs : List Receiver) → (assert_zero_amounts false rs ≡ ok tt) ↔ All (λ r. r.amount ≡ 0) rs
  unfolding assert_zero_amounts
  assert_zero_amounts_iff [] = ((λ _. tt), (λ _. refl))
  assert_zero_amounts_iff (r ∷ rs) =
      let rest = assert_zero_amounts_iff rs in
      ((λ e. ground (arith, rest.0)), (λ h. ground (arith, rest.1 h.1)))

  assert_receiver_slots_iff :
      (rs : List Receiver) → (assert_receiver_slots rs ≡ ok tt) ↔ All IsChecked rs
  unfolding assert_receiver_slots assert_on_curve_if IsChecked
  assert_receiver_slots_iff [] = ((λ _. tt), (λ _. refl))
  assert_receiver_slots_iff (r ∷ rs) =
      let rest = assert_receiver_slots_iff rs in
      ((λ e. ground (arith, rest.0)), (λ h. ground (arith, o.generator_point, rest.1 h.1)))

  known_type :
      (t : Field) → is_known_type t ≡ false → (is_local_type t ≡ false) × (is_remote_type t ≡ false)
  unfolding is_known_type is_local_type is_remote_type
  known_type t e = (ground arith, ground arith)

  pub assert_proposal_rules-Passes :
      (s : Guard) (p : TransactionProposal) → (assert_proposal_rules s p ≡ ok tt) ↔ Passes s p
  unfolding assert_proposal_rules
  assert_proposal_rules-Passes s p = (lawful, accepted)
    where
      lawful : assert_proposal_rules s p ≡ ok tt → Passes s p
      lawful e = record {
        placed = ground arith;
        target = ground arith;
        no_target = ground arith;
        sends = ground (arith, (assert_zero_amounts_iff p.receivers).0);
        payload = ground arith;
        added = ground arith;
        threshold = ground arith;
        enabled = ground arith;
        native = ground arith;
        slots = (assert_receiver_slots_iff p.receivers).0 (ground arith);
      }

      accepted : Passes s p → assert_proposal_rules s p ≡ ok tt
      accepted h =
          let slots_pass = (assert_receiver_slots_iff p.receivers).1 h.slots in
          let known = known_type p.tx_type in
          elim h.sends [
            | inl transfer ↦
                let amounts_pass = assert_zero_amounts-transfer p.receivers in
                ground (
                  arith, h.placed, h.target, h.no_target, h.payload, h.added, h.threshold,
                  h.enabled, h.native,
                )
            | inr (single, zeros) ↦
                let amounts_pass = (assert_zero_amounts_iff p.receivers).1 zeros in
                let amounts_transfer = assert_zero_amounts-transfer p.receivers in
                ground (
                  arith, h.placed, h.target, h.no_target, h.payload, h.added, h.threshold,
                  h.enabled, h.native,
                )
          ]
