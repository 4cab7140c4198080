-- ===== src/Guard/Run/Ballots.antt =====
-- Histories of `class MinaGuard`: the votes, the owner sets they were cast under, and the epochs.
use mina_guard.Base.{
  ℕ, suc, ◌+◌, ◌^◌, ◌≤◌, ◌<◌, ◌≡◌, Bool-cases, ◌==◌, ◌≢◌, ◌⊎◌, inl, inr, refl, ap, ◌∙◌, true, List,
  [], ◌∷◌, All, length, ok, arith,
}
use mina_guard.Platform.{Signature, Platform, fadd, fadd_lem}
use mina_guard.Platform.Laws.{HashLaws}
use mina_guard.Hashes.{SigningAction, propose_action, approve_action, proposal_signing_message}
use mina_guard.Owners.{OwnerWitness, assert_owner_membership}
use mina_guard.Proposal.{IsWellFormed, proposal_hash}
use mina_guard.Guard.{Guard, Env, Outcome}
use mina_guard.Guard.Checks.{get_initialized_owners_commitment, bump_config_nonce}
use mina_guard.Guard.Setup.{initialize_state, setup, reserve_for_parent, execute_setup_child}
use mina_guard.Guard.Execute.{
  execute_transfer, execute_allocate_to_children, execute_owner_change, execute_threshold_change,
  execute_delegate,
}
use mina_guard.Guard.Execute.OwnerChange.{execute_owner_change-nonzero}
use mina_guard.Guard.Child.{
  execute_reclaim_to_parent, execute_destroy, execute_enable_child_multi_sig,
}
use mina_guard.Guard.Vote.{propose-ok, approve_proposal-ok}
use mina_guard.Guard.Run.{
  Call, IsTyped, setup_call, propose_call, approve_call, owner_change_call, enable_call, Ballot,
  Run, start, next, call, cast,
}

module _ ⦃o : Platform⦄ where
  -- The voter was an owner when the vote was cast, and signed the hash of the proposal for the
  -- action; the proposal names the epoch.
  pub record IsCast (b : Ballot) : Type 0 where
    pub shape : IsWellFormed b.proposal
    pub hashed : b.hash ≡ proposal_hash b.proposal
    pub epoch : b.proposal.config_nonce ≡ b.config_nonce
    pub slots : OwnerWitness
    pub member : assert_owner_membership b.commitment b.voter slots ≡ ok tt
    pub signature : Signature
    pub action : SigningAction
    pub signed : o.verify signature b.voter (proposal_signing_message b.hash action ∷ []) ≡ true

  -- A ballot of the current epoch was cast under the current owner set.
  pub record IsOfEpoch (s : Guard) (b : Ballot) : Type 0 where
    pub past : b.config_nonce ≤ s.config_nonce
    pub current : b.config_nonce ≡ s.config_nonce → b.commitment ≡ s.owners_commitment

  -- How a call moves the epoch: it stays, and the owner set with it, or it goes up by one.
  Moves : Guard → Guard → Type 0
  Moves s t =
      ((t.config_nonce ≡ s.config_nonce) × (t.owners_commitment ≡ s.owners_commitment))
      ⊎ (t.config_nonce ≡ fadd s.config_nonce 1)

  call-Moves :
      (env : Env) (s : Guard) (c : Call) {out : Outcome}
      → s.config_nonce < o.order
      → s.owners_commitment ≢ 0
      → call env s c ≡ ok out
      → Moves s out.state
  unfolding Moves call setup reserve_for_parent execute_setup_child initialize_state
      execute_transfer execute_allocate_to_children execute_owner_change execute_threshold_change
      execute_delegate execute_reclaim_to_parent execute_destroy execute_enable_child_multi_sig
      get_initialized_owners_commitment bump_config_nonce
  call-Moves env s (propose_call p ow v sig vw aw) {out} small i e =
      ground (arith, (propose-ok env s p ow v sig vw aw e).written)
  call-Moves env s (approve_call p sig v ow aw n vw) {out} small i e =
      ground (arith, (approve_proposal-ok env s p ow v sig vw aw n e).0.written)
  call-Moves env s (enable_call p w c cw b) {out} small i e =
      ground (arith, fadd_lem s.config_nonce 0)
  call-Moves env s (setup_call t n owners) {out} small i e = ground arith
  call-Moves env s _ {out} small i e = ground arith

  -- On a guard that is not initialised only the initialising methods succeed.
  call-fresh :
      (env : Env) (s : Guard) (c : Call) {out : Outcome}
      → s.owners_commitment ≡ 0
      → call env s c ≡ ok out
      → (out.state.config_nonce ≡ s.config_nonce) × (cast s c [] ≡ [])
  unfolding cast call setup reserve_for_parent execute_setup_child initialize_state execute_transfer
      execute_allocate_to_children execute_owner_change execute_threshold_change execute_delegate
      execute_reclaim_to_parent execute_destroy execute_enable_child_multi_sig
      get_initialized_owners_commitment
  call-fresh env s (propose_call p ow v sig vw aw) {out} z e =
      absurd ((propose-ok env s p ow v sig vw aw e).initialized z)
  call-fresh env s (approve_call p sig v ow aw n vw) {out} z e =
      absurd ((approve_proposal-ok env s p ow v sig vw aw n e).0.initialized z)
  call-fresh env s _ {out} z e = ground arith

  -- An initialised guard stays initialised.
  pub call-initialized :
      (h : HashLaws o) (env : Env) (s : Guard) (c : Call) {out : Outcome}
      → IsTyped c
      → s.owners_commitment ≢ 0
      → call env s c ≡ ok out
      → out.state.owners_commitment ≢ 0
  unfolding call setup reserve_for_parent execute_setup_child initialize_state execute_transfer
      execute_allocate_to_children execute_threshold_change execute_delegate
      execute_reclaim_to_parent execute_destroy execute_enable_child_multi_sig
      get_initialized_owners_commitment
  call-initialized h env s (propose_call p ow v sig vw aw) {out} typed i e =
      ground (arith, (propose-ok env s p ow v sig vw aw e).written)
  call-initialized h env s (approve_call p sig v ow aw n vw) {out} typed i e =
      ground (arith, (approve_proposal-ok env s p ow v sig vw aw n e).0.written)
  call-initialized h env s (owner_change_call p w c ow after) {out} typed i e =
      execute_owner_change-nonzero env s p w c ow after h typed.0 e
  call-initialized h env s _ {out} typed i e = ground arith

  -- What holds of the ballots throughout a history of `n` calls.
  pub record Chronicle (n : ℕ) (s : Guard) (bs : List Ballot) : Type 0 where
    pub fresh : s.owners_commitment ≡ 0 → bs ≡ []
    pub epochs_bound : s.config_nonce ≤ n
    pub votes_bound : length bs ≤ n
    pub epochs : All (IsOfEpoch s) bs
    pub casts : All IsCast bs

  epochs-Moves :
      (s t : Guard) (bs : List Ballot)
      → s.config_nonce + 1 < o.order
      → Moves s t
      → All (IsOfEpoch s) bs
      → All (IsOfEpoch t) bs
  unfolding Moves
  epochs-Moves s t [] small m h = tt
  epochs-Moves s t (b ∷ bs) small m h = (
    ground (arith, fadd_lem s.config_nonce 1, h.0.past, h.0.current),
    epochs-Moves s t bs small m h.1,
  )

  Moves-bound :
      (s t : Guard) → Moves s t → s.config_nonce + 1 < o.order → t.config_nonce ≤ s.config_nonce + 1
  unfolding Moves
  Moves-bound s t m small = ground (arith, fadd_lem s.config_nonce 1)

  call-IsCast :
      (env : Env) (s : Guard) (c : Call) (bs : List Ballot) {out : Outcome}
      → IsTyped c
      → call env s c ≡ ok out
      → All (IsOfEpoch s) bs
      → All IsCast bs
      → All (IsOfEpoch s) (cast s c bs)
        × All IsCast (cast s c bs)
        × (length (cast s c bs) ≤ suc (length bs))
  unfolding cast call
  call-IsCast env s (propose_call p ow v sig vw aw) bs {out} typed e he hc =
      let vote = propose-ok env s p ow v sig vw aw e in
      (
        (record { past = omega arith; current = λ _. refl }, he),
        (
          record {
            shape = typed.1;
            hashed = refl;
            epoch = vote.config;
            slots = ow;
            member = vote.member;
            signature = sig;
            action = propose_action;
            signed = vote.signed;
          },
          hc,
        ),
        omega arith,
      )
  call-IsCast env s (approve_call p sig v ow aw n vw) bs {out} typed e he hc =
      let vote = (approve_proposal-ok env s p ow v sig vw aw n e).0 in
      (
        (record { past = omega arith; current = λ _. refl }, he),
        (
          record {
            shape = typed.1;
            hashed = refl;
            epoch = vote.config;
            slots = ow;
            member = vote.member;
            signature = sig;
            action = approve_action;
            signed = vote.signed;
          },
          hc,
        ),
        omega arith,
      )
  call-IsCast env s (setup_call t n owners) bs {out} typed e he hc = (he, hc, omega arith)
  call-IsCast env s _ bs {out} typed e he hc = (he, hc, omega arith)

  -- Throughout a history: each ballot was cast by an owner of its time who signed it, and the
  -- ballots of the current epoch were cast under the current owner set.
  pub Run-Chronicle :
      (h : HashLaws o) {n : ℕ} {s : Guard} {bs : List Ballot}
      → n + 2 ≤ 2 ^ 64
      → Run n s bs
      → Chronicle n s bs
  Run-Chronicle h small start = record {
    fresh = λ _. refl;
    epochs_bound = omega arith;
    votes_bound = omega arith;
    epochs = tt;
    casts = tt;
  }
  Run-Chronicle h small (next {n = n} {s = s} {bs = bs} r env c {out = out} typed e) =
      let big = o.order_large in
      let before = Run-Chronicle h (omega arith) r in
      let (epochs, casts, one_more) = call-IsCast env s c bs typed e before.epochs before.casts in
      elim (Bool-cases (s.owners_commitment == 0)) [
        | inl unused ↦
            let still = call-fresh env s c (ground arith) e in
            let no_votes = ap (cast s c) (before.fresh (ground arith)) ∙ still.1 in
            rw no_votes (record {
              fresh = λ _. refl;
              epochs_bound = omega (arith, still.0, before.epochs_bound);
              votes_bound = omega arith;
              epochs = tt;
              casts = tt;
            })
        | inr used ↦
            let moves = call-Moves env s c (omega (arith, before.epochs_bound)) (ground arith) e in
            record {
              fresh = λ z. absurd (call-initialized h env s c typed (ground arith) e z);
              epochs_bound = omega (arith, Moves-bound s out.state moves, before.epochs_bound);
              votes_bound = omega (arith, before.votes_bound);
              epochs =
                  epochs-Moves s out.state (cast s c bs) (omega (arith, before.epochs_bound)) moves
                    epochs;
              casts = casts;
            }
      ]
