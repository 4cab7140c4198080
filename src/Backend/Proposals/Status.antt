-- ===== src/Backend/Proposals/Status.antt =====
-- backend/src/proposal-record.ts against contracts/src/MinaGuard.ts: the served status of a proposal
-- that the guard executes.
use mina_guard.Base.{
  ℕ, ◌^◌, ◌≤◌, ◌<◌, ◌≡◌, refl, List, subst, sym, ap, ◌∙◌, ◌+◌, ◌⊎◌, inl, inr, Bool-cases, false,
  Option, none, some, [], ltb, leb, ok, arith,
}
use mina_guard.Platform.{Platform, fadd_lem}
use mina_guard.Platform.Maps.{Numerals}
use mina_guard.Memo.{Texts}
use mina_guard.Proposal.{TransactionProposal}
use mina_guard.Guard.{Guard, Env, Outcome}
use mina_guard.Guard.Run.{Call, call}
use mina_guard.Guard.Run.Quorum.{LocalCall, local_call, local_call-LocalExecution}
use mina_guard.Guard.Execute.Expiry.{IsInTime, local_call-IsInTime}
use mathlib.Core.Option.{some-injective}
use mina_guard.Guard.Child.Remote.{RemoteCall, remote_call, remote_call-Executed}
use mina_guard.Backend.{Numbers, NumberLaws}
use mina_guard.Backend.Proposals.{
  ContractState, ProposalRow, SerializedProposalRecord, ExecutionRow, pending_status,
  first_execution, is_some, counter, nonce_authority, finite_number, is_text, both_known, is_past,
  derive_invalid_reason, derive_status, serialize_proposal_record,
}

-- A counter is unknown, or at most `n`.
abbrev pub AtMost : ℕ → Option ℕ → Type 0
AtMost n none = Unit {0}
AtMost n (some a) = a ≤ n

-- A counter is unknown, or less than `n`.
abbrev pub Below : ℕ → Option ℕ → Type 0
Below n none = Unit {0}
Below n (some a) = a < n

-- The row holds the decimal numerals of the proposal's numbers.
pub record Describes (t : Numerals) (row : ProposalRow) (p : TransactionProposal) : Type 0 where
  pub nonce : row.nonce ≡ some (t.field_text p.nonce)
  pub config_nonce : row.config_nonce ≡ some (t.field_text p.config_nonce)
  pub expiry_slot : row.expiry_slot ≡ some (t.field_text p.expiry_slot)

module _ ⦃n : Numbers⦄ where
  not_under :
      (a : ℕ) (read known : Option ℕ)
      → read ≡ some a
      → AtMost a known
      → both_known ltb read known ≡ false
  not_under a read none e h = rw e refl
  not_under a read (some b) e h = rw e (ground arith)

  not_up_to :
      (a : ℕ) (read known : Option ℕ)
      → read ≡ some a
      → Below a known
      → both_known leb read known ≡ false
  not_up_to a read none e h = rw e refl
  not_up_to a read (some b) e h = rw e (ground arith)

  not_stale :
      (row : ProposalRow) (parent child : Option ContractState) (nonce config : ℕ)
      → finite_number row.nonce ≡ some nonce
      → finite_number row.config_nonce ≡ some config
      → AtMost config (counter (λ s. s.config_nonce) parent)
      → Below nonce (nonce_authority row parent child)
      → derive_invalid_reason row parent child ≡ none
  unfolding derive_invalid_reason
  not_stale row parent child nonce config h k least before =
      rw (not_under config _ _ k least) (elim (Bool-cases (is_text "5" row.tx_type)) [
        | inl structural ↦ rw structural refl
        | inr sequential ↦ rw sequential (rw (not_up_to nonce _ _ h before) refl)
      ])

  not_past :
      (expiry latest : ℕ) → (expiry ≡ 0) ⊎ (latest ≤ expiry) → is_past (some expiry) latest ≡ false
  not_past expiry latest h = ground arith

  module _ {t : Numerals} (laws : NumberLaws t n) where
    -- The served status of a proposal that has no execution, whose numbers a double holds, that is
    -- in time, and whose nonces are past the known counters.
    pub derive_status-pending :
        (row : ProposalRow) (p : TransactionProposal) (parent child : Option ContractState)
        (latest : ℕ)
        → Describes t row p
        → p.nonce ≤ 2 ^ 53
        → p.config_nonce ≤ 2 ^ 53
        → p.expiry_slot ≤ 2 ^ 53
        → (p.expiry_slot ≡ 0) ⊎ (latest ≤ p.expiry_slot)
        → AtMost p.config_nonce (counter (λ s. s.config_nonce) parent)
        → Below p.nonce (nonce_authority row parent child)
        → derive_status row false latest (derive_invalid_reason row parent child) ≡ pending_status
    unfolding derive_status
    derive_status-pending row p parent child latest d a b c time least before =
        let reason =
          not_stale row parent child p.nonce p.config_nonce (rw d.nonce (laws.exact p.nonce a))
            (rw d.config_nonce (laws.exact p.config_nonce b)) least before in
        rw reason (
          rw d.expiry_slot
            (rw (laws.exact p.expiry_slot c) (rw (not_past p.expiry_slot latest time) refl)))

AtMost-Below : (a b : ℕ) (known : Option ℕ) → AtMost a known → b ≡ a + 1 → Below b known
AtMost-Below a b none h e = tt
AtMost-Below a b (some c) h e = omega arith

sooner :
    (latest slot expiry : ℕ)
    → latest ≤ slot
    → (expiry ≡ 0) ⊎ (slot ≤ expiry)
    → (expiry ≡ 0) ⊎ (latest ≤ expiry)
sooner latest slot expiry lag (inl never) = inl never
sooner latest slot expiry lag (inr time) = inr (omega arith)

-- What the indexer has seen of the guard: each counter is unknown or was at most as large.
pub record IsSeen (s : Guard) (parent : Option ContractState) : Type 0 where
  pub nonce : AtMost s.nonce (counter (λ c. c.nonce) parent)
  pub config_nonce : AtMost s.config_nonce (counter (λ c. c.config_nonce) parent)

module _ ⦃o : Platform⦄ ⦃n : Numbers⦄ ⦃texts : Texts⦄ ⦃t : Numerals⦄ (laws : NumberLaws t n) where
  served :
      (row : ProposalRow) (latest : ℕ) (parent child : Option ContractState)
      {r : SerializedProposalRecord}
      → serialize_proposal_record row latest parent child ≡ ok r
      → r.status
        ≡ derive_status row
            (is_some (first_execution row.executions))
            latest
            (derive_invalid_reason row parent child)
  unfolding serialize_proposal_record
  served row latest parent child {r} e = ground arith

  -- The same for a row without executions that is served in time, at a slot up to that of `env`.
  served-pending :
      (env : Env) (row : ProposalRow) (p : TransactionProposal)
      (parent child : Option ContractState) (latest : ℕ)
      → Describes t row p
      → row.executions ≡ []
      → p.nonce ≤ 2 ^ 53
      → p.config_nonce ≤ 2 ^ 53
      → IsInTime env p
      → latest ≤ env.slot
      → AtMost p.config_nonce (counter (λ c. c.config_nonce) parent)
      → Below p.nonce (nonce_authority row parent child)
      → {r : SerializedProposalRecord} → serialize_proposal_record row latest parent child ≡ ok r
      → r.status ≡ pending_status
  served-pending env row p parent child latest d fresh a b time lag least before {r} e =
      served row latest parent child e
      ∙ ap
          (λ (es : List ExecutionRow).
            derive_status row (is_some (first_execution es)) latest
              (derive_invalid_reason row parent child))
          fresh
      ∙ derive_status-pending laws row p parent child latest d a b (ground arith)
          (sooner latest env.slot _ lag time.1) least before

  -- Where `Number` reads numerals up to 2 ^ 53 exactly and the guard's two nonces are below that:
  -- a LOCAL proposal that a call of the guard executes has the status `pending` in every record
  -- that is served of a row that describes it and has no execution, at a slot not after the
  -- call's and with counters of the guard that are unknown or not above its own. So a LOCAL
  -- proposal that is served as expired or invalidated from such data cannot be executed.
  pub local_call-pending :
      (env : Env) (s : Guard) (c : Call) (l : LocalCall) {out : Outcome}
      → local_call c ≡ some l
      → call env s c ≡ ok out
      → s.nonce < 2 ^ 53
      → s.config_nonce < 2 ^ 53
      → (row : ProposalRow) (parent child : Option ContractState) (latest : ℕ)
      → Describes t row l.proposal
      → row.destination ≡ some "local"
      → row.executions ≡ []
      → IsSeen s parent
      → latest ≤ env.slot
      → {r : SerializedProposalRecord} → serialize_proposal_record row latest parent child ≡ ok r
      → r.status ≡ pending_status
  local_call-pending env s c l {out} k e small small_config row parent child latest d dest fresh
        seen lag {r} e_row =
      let run = local_call-LocalExecution env s c l k e in
      let big = o.order_large in
      let next : l.proposal.nonce ≡ s.nonce + 1 = run.nonce ∙ fadd_lem s.nonce 1 (omega arith) in
      let same : l.proposal.config_nonce ≡ s.config_nonce = run.approves.config in
      let own : nonce_authority row parent child ≡ counter (λ x. x.nonce) parent = rw dest refl in
      served-pending env row l.proposal parent child latest d fresh (omega arith) (omega arith)
        (local_call-IsInTime env s c l k e) lag
        (subst (λ (x : ℕ). AtMost x (counter (λ y. y.config_nonce) parent)) (sym same)
          seen.config_nonce)
        (subst (λ (x : Option ℕ). Below l.proposal.nonce x) (sym own)
          (AtMost-Below s.nonce _ _ seen.nonce next))
        e_row

  -- Where `Number` reads numerals up to 2 ^ 53 exactly and the child's parent nonce and the
  -- parent's config nonce are below that: a REMOTE proposal that a call of the child executes has
  -- the status `pending` in every record that is served of a row that describes it and has no
  -- execution, at a slot not after the call's, with a config nonce of the parent and a parent
  -- nonce of the child that are unknown or not above their own.
  pub remote_call-pending :
      (env : Env) (s parent_guard : Guard) (c : Call) (l : RemoteCall) {out : Outcome}
      → remote_call c ≡ some l
      → call env s c ≡ ok out
      → env.ledger s.parent ≡ some parent_guard
      → s.parent_nonce < 2 ^ 53
      → parent_guard.config_nonce < 2 ^ 53
      → (row : ProposalRow) (parent child : Option ContractState) (latest : ℕ)
      → Describes t row l.proposal
      → row.destination ≡ some "remote"
      → row.executions ≡ []
      → AtMost parent_guard.config_nonce (counter (λ x. x.config_nonce) parent)
      → AtMost s.parent_nonce (counter (λ x. x.parent_nonce) child)
      → latest ≤ env.slot
      → {r : SerializedProposalRecord} → serialize_proposal_record row latest parent child ≡ ok r
      → r.status ≡ pending_status
  remote_call-pending env s parent_guard c l {out} k e found small small_config row parent child
        latest d dest fresh seen seen_child lag {r} e_row =
      let (time, run) = remote_call-Executed env s c l k e in
      let big = o.order_large in
      let next : l.proposal.nonce ≡ s.parent_nonce + 1 =
        run.nonce ∙ fadd_lem s.parent_nonce 1 (omega arith) in
      let same_guard : run.parent ≡ parent_guard =
        some-injective run.parent parent_guard (sym run.found ∙ found) in
      let same : l.proposal.config_nonce ≡ parent_guard.config_nonce =
        run.approves.config ∙ ap (λ (g : Guard). g.config_nonce) same_guard in
      let own : nonce_authority row parent child ≡ counter (λ x. x.parent_nonce) child =
        rw dest refl in
      served-pending env row l.proposal parent child latest d fresh (omega arith) (omega arith) time
        lag (subst (λ (x : ℕ). AtMost x (counter (λ y. y.config_nonce) parent)) (sym same) seen)
        (subst (λ (x : Option ℕ). Below l.proposal.nonce x) (sym own)
          (AtMost-Below s.parent_nonce _ _ seen_child next))
        e_row
