-- ===== src/Guard/Execute/Payments.antt =====
-- `executeTransfer` and `executeAllocateToChildren`: theorems on the payments.
use mina_guard.Base.{
  ◌+◌, ◌≡◌, ◌≢◌, refl, true, false, List, [], ◌∷◌, All, some, ok, if◌then◌else◌, Option-cases,
  Result-cases, inl, inr, arith, Bool-cases,
}
use mina_guard.Platform.{
  Field, UInt64, PublicKey, MerkleMapWitness, Platform, key_eq, is_empty, key_eq→eq,
}
use mina_guard.Proposal.{Receiver, TransactionProposal}
use mina_guard.Guard.{Guard, Env, Payment, Outcome}
use mina_guard.Guard.Checks.{execute_transfers, effective_amount}
use mina_guard.Guard.Execute.{execute_transfer, allocate_payments, execute_allocate_to_children}

-- The sum of the payments to an account.
abbrev pub paid_to : PublicKey → List Payment → UInt64
paid_to k [] = 0
paid_to k (pay ∷ pays) = (if key_eq k pay.to then pay.amount else 0) + paid_to k pays

-- The sum of the amounts that the proposal's receivers grant an account.
abbrev pub granted_to : PublicKey → List Receiver → UInt64
granted_to k [] = 0
granted_to k (r ∷ rs) = (if key_eq k r.address then r.amount else 0) + granted_to k rs

empty-granted :
    (env : Env) (k : PublicKey) (r : Receiver)
    → is_empty k ≡ false
    → (if key_eq k (if is_empty r.address then env.address else r.address)
        then effective_amount r
        else 0)
      ≡ (if key_eq k r.address then r.amount else 0)
empty-granted env k r e = ground (arith, key_eq→eq k r.address)

execute_transfers-paid :
    (env : Env) (k : PublicKey) (rs : List Receiver)
    → is_empty k ≡ false
    → paid_to k (execute_transfers env rs) ≡ granted_to k rs
unfolding execute_transfers
execute_transfers-paid env k [] e = refl
execute_transfers-paid env k (r ∷ rs) e =
    omega (arith, empty-granted env k r e, execute_transfers-paid env k rs e)

module _ ⦃o : Platform⦄ where
  -- A transfer that succeeds pays every account, other than the empty key, exactly the sum of the
  -- amounts that the proposal's receivers grant it.
  pub execute_transfer-paid :
      (env : Env) (s : Guard) (p : TransactionProposal) (w : MerkleMapWitness) (n : Field)
      {out : Outcome}
      → execute_transfer env s p w n ≡ ok out
      → (k : PublicKey) → is_empty k ≡ false
      → paid_to k out.payments ≡ granted_to k p.receivers
  unfolding execute_transfer
  execute_transfer-paid env s p w n {out} e k h =
      ground (arith, execute_transfers-paid env k p.receivers h)

  -- The slot is empty, or the receiver is an initialised guard whose parent is this guard.
  pub data IsChildSlot (env : Env) (r : Receiver) : Type 0 where
    unused : is_empty r.address ≡ true → IsChildSlot env r
    bound :
        (child : Guard)
        → env.ledger r.address ≡ some child
        → child.owners_commitment ≢ 0
        → child.parent ≡ env.address
        → IsChildSlot env r

  allocate_payments-ok :
      (env : Env) (rs : List Receiver) {pays : List Payment}
      → allocate_payments env rs ≡ ok pays
      → (pays ≡ execute_transfers env rs) × All (IsChildSlot env) rs
  unfolding allocate_payments execute_transfers
  allocate_payments-ok env [] {pays} e = (ground arith, tt)
  allocate_payments-ok env (r ∷ rs) {pays} e = elim (Result-cases (allocate_payments env rs)) [
    | inl (message, failed) ↦ ground arith
    | inr (rest, done) ↦
        let (same, children) = allocate_payments-ok env rs done in
        elim (Option-cases (env.ledger (if is_empty r.address then env.address else r.address))) [
          | inl missing ↦ ground arith
          | inr (child, found) ↦ (
            ground arith,
            (
              elim (Bool-cases (is_empty r.address)) [
                | inl none_there ↦ unused none_there
                | inr full ↦ bound child (ground arith) (ground arith) (ground arith)
              ],
              children,
            ),
          )
        ]
  ]

  -- An allocation that succeeds pays every account, other than the empty key, exactly the sum of
  -- the amounts that the proposal's receivers grant it, and every receiver is empty or an
  -- initialised guard whose parent is this guard.
  pub execute_allocate_to_children-paid :
      (env : Env) (s : Guard) (p : TransactionProposal) (w : MerkleMapWitness) (n : Field)
      {out : Outcome}
      → execute_allocate_to_children env s p w n ≡ ok out
      → (k : PublicKey) → is_empty k ≡ false
      → (paid_to k out.payments ≡ granted_to k p.receivers) × All (IsChildSlot env) p.receivers
  unfolding execute_allocate_to_children
  execute_allocate_to_children-paid env s p w n {out} e k h =
      elim (Result-cases (allocate_payments env p.receivers)) [
        | inl (message, failed) ↦ ground arith
        | inr (pays, done) ↦
            let (same, children) = allocate_payments-ok env p.receivers done in
            (ground (arith, execute_transfers-paid env k p.receivers h), children)
      ]
