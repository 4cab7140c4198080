-- ===== src/Proposal/Binding.antt =====
-- `TransactionProposal.hash`: theorems on what the hash binds.
use mina_guard.Base.{◌≡◌, ◌≢◌, refl, List, [], ◌∷◌, ◌++◌, length, bit-injective, arith}
use mina_guard.Platform.{Field, Platform, NetworkDomainName}
use mina_guard.Platform.Laws.{HashLaws}
use mina_guard.Constants.{network_domain, network_domain_ids}
use mina_guard.Proposal.{
  Receiver, TransactionProposal, IsWellFormed, receiver_fields, scalar_fields, proposal_hash,
}

-- Two flattened receiver arrays of one length, each with the scalars behind it.
receiver_fields-injective :
    (xs ys : List Receiver) (us vs : List Field)
    → length xs ≡ length ys
    → receiver_fields xs ++ us ≡ receiver_fields ys ++ vs
    → (xs ≡ ys) × (us ≡ vs)
unfolding receiver_fields
receiver_fields-injective [] [] us vs h e = (refl, e)
receiver_fields-injective [] (y ∷ ys) us vs h e = absurd (omega arith)
receiver_fields-injective (x ∷ xs) [] us vs h e = absurd (omega arith)
receiver_fields-injective (x ∷ xs) (y ∷ ys) us vs h e =
    ground (
      arith,
      bit-injective x.address.is_odd y.address.is_odd,
      receiver_fields-injective xs ys us vs,
    )

module _ ⦃o : Platform⦄ where
  scalar_fields-injective :
      (p q : TransactionProposal)
      → p.receivers ≡ q.receivers
      → scalar_fields p ≡ scalar_fields q
      → p ≡ q
  unfolding scalar_fields
  scalar_fields-injective p q r e = ground (
    arith,
    bit-injective p.guard_address.is_odd q.guard_address.is_odd,
    bit-injective p.child_account.is_odd q.child_account.is_odd,
  )

  -- Where hashes do not collide: two proposals with `MAX_RECEIVERS` receiver slots and the same
  -- hash are the same in every field.
  pub proposal_hash-injective :
      (h : HashLaws o) (p q : TransactionProposal)
      → IsWellFormed p
      → IsWellFormed q
      → proposal_hash p ≡ proposal_hash q
      → p ≡ q
  unfolding proposal_hash
  proposal_hash-injective h p q wp wq e =
      let (receivers, scalars) =
        receiver_fields-injective p.receivers q.receivers (scalar_fields p) (scalar_fields q)
          (ground (arith, wp.slots, wq.slots)) (h.same_fields _ _ _ _ e) in
      scalar_fields-injective p q receivers scalars

-- Where hashes do not collide: builds for two networks with different domain ids never give one
-- hash to two proposals with `MAX_RECEIVERS` slots.
pub proposal_hash-network :
    (o : Platform) (h : HashLaws o) (n m : NetworkDomainName) (p q : TransactionProposal)
    → IsWellFormed p
    → IsWellFormed q
    → network_domain_ids n ≢ network_domain_ids m
    → proposal_hash ⦃o = record o { network_domain_name = n }⦄ p
      ≢ proposal_hash ⦃o = record o { network_domain_name = m }⦄ q
unfolding proposal_hash scalar_fields network_domain
proposal_hash-network o h n m p q wp wq differ e =
    let (receivers, scalars) =
      receiver_fields-injective p.receivers q.receivers
        (scalar_fields ⦃o = record o { network_domain_name = n }⦄ p)
        (scalar_fields ⦃o = record o { network_domain_name = m }⦄ q)
        (ground (arith, wp.slots, wq.slots)) (h.same_fields _ _ _ _ e) in
    differ (cc scalars)
