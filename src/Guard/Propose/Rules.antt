-- ===== src/Guard/Propose/Rules.antt =====
-- The rules of `propose` on the content of a proposal, against the rule of each type.
use mina_guard.Base.{
  ◌≡◌, ◌↔◌, inl, inr, true, false, List, [], ◌∷◌, All, drop, ok, arith, any, mem_of_any, ◌==◌,
  ==_iff,
}
use mina_guard.Platform.{Field, PublicKey, Signature, MerkleMapWitness, Platform}
use mina_guard.Owners.{OwnerWitness}
use mina_guard.Proposal.{Receiver, TransactionProposal, at_most_one_receiver}
use mina_guard.Guard.{Guard, Env, Outcome}
use mina_guard.Guard.Propose.{
  slot0_empty, is_local_type, is_remote_type, is_transfer_like, allows_data, assert_proposal_rules,
  propose,
}
use mina_guard.Guard.Propose.Passes.{Passes, IsChecked, assert_proposal_rules-Passes}
use mina_guard.Guard.Propose.Lawful.{
  TxKind, transfer, add_owner, remove_owner, change_threshold, set_delegate, create_child,
  allocate_child, reclaim_child, destroy_child, enable_child_multi_sig, number, IsNamed, IsVacant,
  Suits, IsSlot, IsLawful, is_empty_iff, filled_iff, slot0_empty-false, slots_empty_iff,
  at_most_one_receiver_iff,
}

-- The kind with a number of the list.
kind_among :
    (t : Field) (ks : List TxKind)
    → any (λ k. t == number k) ks ≡ true
    → (k : TxKind) × (t ≡ number k)
kind_among t ks h =
    let (k, i, same) = mem_of_any (λ k. t == number k) ks h in (k, (==_iff t (number k)).0 same)

local_kind : (t : Field) → is_local_type t ≡ true → (k : TxKind) × (t ≡ number k)
unfolding is_local_type
local_kind t h =
    kind_among t
      (transfer ∷ change_threshold ∷ add_owner ∷ remove_owner ∷ set_delegate ∷ allocate_child ∷ [])
      (ground arith)

remote_kind : (t : Field) → is_remote_type t ≡ true → (k : TxKind) × (t ≡ number k)
unfolding is_remote_type
remote_kind t h =
    kind_among t (create_child ∷ reclaim_child ∷ destroy_child ∷ enable_child_multi_sig ∷ [])
      (ground arith)

module _ ⦃o : Platform⦄ (s : Guard) (p : TransactionProposal) where
  slots_iff : (rs : List Receiver) → All IsChecked rs ↔ All IsSlot rs
  unfolding IsChecked IsSlot
  slots_iff [] = ((λ h. tt), (λ h. tt))
  slots_iff (r ∷ rs) =
      let rest = slots_iff rs in
      let empty = is_empty_iff r.address in
      let filled = filled_iff r.address in
      (
        (λ h. (
          elim h.0 [ inl (e, a) ↦ inl (empty.0 e, a) | inr (f, q) ↦ inr (filled.0 f, q) ],
          rest.0 h.1,
        )),
        (λ h. (
          elim h.0 [ inl (e, a) ↦ inl (empty.1 e, a) | inr (f, q) ↦ inr (filled.1 f, q) ],
          rest.1 h.1,
        )),
      )

  -- The code's tests on the receivers, by the predicates of `Suits`.
  abbrev Tests : Type 0
  Tests =
      ((slot0_empty p ≡ false) ↔ IsNamed p.receivers)
      × ((at_most_one_receiver p ≡ true) ↔ IsVacant (drop 1 p.receivers))
      × (((slot0_empty p ≡ true) × (at_most_one_receiver p ≡ true)) ↔ IsVacant p.receivers)

  tests : Tests
  tests = (slot0_empty-false p, at_most_one_receiver_iff p, slots_empty_iff p)

  rule_given : (k : TxKind) → p.tx_type ≡ number k → Passes s p → Suits k s p
  unfolding is_local_type is_remote_type is_transfer_like allows_data
  rule_given transfer e h = ground (arith, tests)
  rule_given add_owner e h = ground (arith, tests)
  rule_given remove_owner e h = ground (arith, tests)
  rule_given change_threshold e h = ground (arith, tests)
  rule_given set_delegate e h = ground (arith, tests)
  rule_given create_child e h = ground (arith, tests)
  rule_given allocate_child e h = ground (arith, tests)
  rule_given reclaim_child e h = ground (arith, tests)
  rule_given destroy_child e h = ground (arith, tests)
  rule_given enable_child_multi_sig e h = ground (arith, tests)

  accepted_given :
      (k : TxKind)
      → p.tx_type ≡ number k
      → Suits k s p
      → p.token_id ≡ 1
      → All IsChecked p.receivers
      → Passes s p
  unfolding is_local_type is_remote_type is_transfer_like allows_data
  accepted_given transfer e h native slots = ground (arith, tests)
  accepted_given add_owner e h native slots = ground (arith, tests)
  accepted_given remove_owner e h native slots = ground (arith, tests)
  accepted_given change_threshold e h native slots = ground (arith, tests)
  accepted_given set_delegate e h native slots = ground (arith, tests)
  accepted_given create_child e h native slots = ground (arith, tests)
  accepted_given allocate_child e h native slots = ground (arith, tests)
  accepted_given reclaim_child e h native slots = ground (arith, tests)
  accepted_given destroy_child e h native slots = ground (arith, tests)
  accepted_given enable_child_multi_sig e h native slots = ground (arith, tests)

  placed_kind : Passes s p → (k : TxKind) × (p.tx_type ≡ number k)
  placed_kind h = elim h.placed [
    | inl (is_local, d) ↦ local_kind p.tx_type is_local
    | inr (is_remote, d) ↦ remote_kind p.tx_type is_remote
  ]

  assert_proposal_rules-same : Passes s p ↔ IsLawful s p
  assert_proposal_rules-same = (
    (λ h.
        let (k, numbered) = placed_kind h in
        record {
          kind = k;
          numbered = numbered;
          suits = rule_given k numbered h;
          native = h.native;
          slots = (slots_iff p.receivers).0 h.slots;
        }),
    (λ l. accepted_given l.kind l.numbered l.suits l.native ((slots_iff p.receivers).1 l.slots)),
  )

  pub assert_proposal_rules_iff : (assert_proposal_rules s p ≡ ok tt) ↔ IsLawful s p
  assert_proposal_rules_iff =
      let checks = assert_proposal_rules-Passes s p in
      (
        (λ e. assert_proposal_rules-same.0 (checks.0 e)),
        (λ l. checks.1 (assert_proposal_rules-same.1 l)),
      )

  -- Every proposal that `propose` accepts is lawful.
  pub propose-IsLawful :
      (env : Env) (ow : OwnerWitness) (v : PublicKey) (sig : Signature) (vw aw : MerkleMapWitness)
      {out : Outcome}
      → propose env s p ow v sig vw aw ≡ ok out
      → IsLawful s p
  unfolding propose
  propose-IsLawful env ow v sig vw aw {out} e = assert_proposal_rules_iff.0 (ground arith)
