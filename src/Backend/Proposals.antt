-- ===== src/Backend/Proposals.antt =====
-- backend/src/proposal-record.ts: the status of a proposal, derived at read time from its row and
-- from the counters of the contract that the indexer saw last, and the record that the API serves.
pub mod Status
use text.Mathlib.Text.{◌==◌ as str_eq}
use mina_guard.Base.{
  ℕ, ◌+◌, String, Bool, true, false, not, Option, none, some, List, [], ◌∷◌, length, Result, ok,
  or_throw, ◌>>=◌, ◌&&◌, ltb, leb, if◌then◌else◌,
}
use mina_guard.Platform.{Platform}
use mina_guard.Platform.Maps.{Numerals}
use mathlib.Core.Option
use mina_guard.Memo.{Texts, memo_to_field}
use mina_guard.Backend.{Numbers}

pub data InvalidReason : Type 0 where
  config_nonce_stale proposal_nonce_stale : InvalidReason

-- The counters of a contract, from its latest configuration row.
pub record ContractState : Type 0 where
  pub nonce : Option ℕ
  pub parent_nonce : Option ℕ
  pub config_nonce : Option ℕ

-- The texts that `deriveStatus` returns.
pub data ProposalStatus : Type 0 where
  executed_status expired_status invalidated_status pending_status : ProposalStatus

pub record ReceiverRow : Type 0 where
  pub idx : ℕ
  pub address : String
  pub amount : String

pub record ExecutionRow : Type 0 where
  pub block_height : ℕ
  pub tx_hash : Option String

-- A row of `Proposal` with its receivers, its executions and the count of its approvals. A date is
-- its time value.
pub record ProposalRow : Type 0 where
  pub proposal_hash : String
  pub proposer : Option String
  pub to_address : Option String
  pub token_id : Option String
  pub tx_type : Option String
  pub data_text : Option String
  pub nonce : Option String
  pub config_nonce : Option String
  pub expiry_slot : Option String
  pub guard_address : Option String
  pub memo : Option String
  pub memo_hash : Option String
  pub execution_memo_hash : Option String
  pub destination : Option String
  pub child_account : Option String
  pub last_approve_tx_hash : Option String
  pub last_approve_error : Option String
  pub last_execute_tx_hash : Option String
  pub last_execute_error : Option String
  pub created_at_block : ℕ
  pub created_at : ℕ
  pub updated_at : ℕ
  pub receivers : List ReceiverRow
  pub executions : List ExecutionRow
  pub approvals : ℕ

-- `a === b` for a text that may be null.
abbrev pub is_text : String → Option String → Bool
is_text text none = false
is_text text (some given) = str_eq given text

-- A property of a contract's counters, which may be unknown.
abbrev pub counter : (ContractState → Option ℕ) → Option ContractState → Option ℕ
counter read none = none
counter read (some state) = read state

-- The nonce that the proposal's own nonce is compared with: for a REMOTE proposal the child's.
abbrev pub nonce_authority : ProposalRow → Option ContractState → Option ContractState → Option ℕ
nonce_authority row parent child =
    if is_text "remote" row.destination
    then counter (λ s. s.parent_nonce) child
    else counter (λ s. s.nonce) parent

module _ ⦃n : Numbers⦄ where
  -- The number of a text, null where the text is null or its number is not finite.
  abbrev pub finite_number : Option String → Option ℕ
  finite_number none = none
  finite_number (some text) = n.number_of text

  -- Whether both are known and the first passes the test against the second.
  abbrev pub both_known : (ℕ → ℕ → Bool) → Option ℕ → Option ℕ → Bool
  both_known test (some a) (some b) = test a b
  both_known test _ _ = false

  unfoldable pub derive_invalid_reason :
      ProposalRow → Option ContractState → Option ContractState → Option InvalidReason
  derive_invalid_reason row parent child =
      let config = counter (λ s. s.config_nonce) parent in
      let authority = nonce_authority row parent child in
      if both_known ltb (finite_number row.config_nonce) config
      then some config_nonce_stale
      else if is_text "5" row.tx_type
      then none
      else if both_known leb (finite_number row.nonce) authority
      then some proposal_nonce_stale
      else none

  -- `latestSlot > expiry` for a proposal that expires.
  abbrev pub is_past : Option ℕ → ℕ → Bool
  is_past none latest_slot = false
  is_past (some expiry) latest_slot = ltb 0 expiry && ltb expiry latest_slot

  abbrev pub expiry_text : ProposalRow → String
  expiry_text row = elim row.expiry_slot [ none ↦ "0" | some text ↦ text ]

  unfoldable pub derive_status : ProposalRow → Bool → ℕ → Option InvalidReason → ProposalStatus
  derive_status row executed latest_slot invalid =
      if executed
      then executed_status
      else if is_past (n.number_of (expiry_text row)) latest_slot
      then expired_status
      else elim invalid [ none ↦ pending_status | some _ ↦ invalidated_status ]

  -- `BigInt` of each amount, added to the sum so far.
  unfoldable pub add_amounts : ℕ → List ReceiverRow → Result ℕ
  add_amounts sum [] = ok sum
  add_amounts sum (r ∷ rs) = do
    amount ← or_throw (n.big_int r.amount) "SyntaxError: Cannot convert the amount to a BigInt"
    add_amounts (sum + amount) rs

  unfoldable pub total_amount : List ReceiverRow → Result (Option String)
  total_amount [] = ok none
  total_amount (r ∷ rs) = do sum ← add_amounts 0 (r ∷ rs); ok (some (n.big_text sum))

-- The stable sort by `idx`.
unfoldable pub insert_receiver : ReceiverRow → List ReceiverRow → List ReceiverRow
insert_receiver r [] = r ∷ []
insert_receiver r (q ∷ qs) =
    let rest = insert_receiver r qs in if leb r.idx q.idx then r ∷ q ∷ qs else q ∷ rest

unfoldable pub sort_receivers : List ReceiverRow → List ReceiverRow
sort_receivers [] = []
sort_receivers (r ∷ rs) = insert_receiver r (sort_receivers rs)

-- `executions[0] ?? null`
abbrev pub first_execution : List ExecutionRow → Option ExecutionRow
first_execution [] = none
first_execution (e ∷ es) = some e

abbrev pub is_some : {A : Type 0} → Option A → Bool
is_some none = false
is_some (some a) = true

module _ ⦃o : Platform⦄ ⦃t : Texts⦄ ⦃f : Numerals⦄ where
  unfoldable pub compute_proposal_memo_match : Option String → Option String → Option Bool
  compute_proposal_memo_match (some memo) (some memo_hash) =
      some (str_eq (f.field_text (memo_to_field memo)) memo_hash)
  compute_proposal_memo_match _ _ = none

unfoldable pub compute_memo_execution_match : Option String → Option String → Option Bool
compute_memo_execution_match (some memo_hash) (some executed) = some (str_eq memo_hash executed)
compute_memo_execution_match _ _ = none

-- `row` stands for the fields that are copied from the row, which are all but `execution_memo_hash`.
pub record SerializedProposalRecord : Type 0 where
  pub row : ProposalRow
  pub proposal_memo_match : Option Bool
  pub memo_execution_match : Option Bool
  pub status : ProposalStatus
  pub invalid_reason : Option InvalidReason
  pub child_target_indexed : Option Bool
  pub executed_at_block : Option ℕ
  pub execution_tx_hash : Option String
  pub receivers : List ReceiverRow
  pub recipient_count : ℕ
  pub total_amount : Option String

module _ ⦃o : Platform⦄ ⦃t : Texts⦄ ⦃f : Numerals⦄ ⦃n : Numbers⦄ where
  unfoldable pub serialize_proposal_record :
      ProposalRow
      → ℕ
      → Option ContractState
      → Option ContractState
      → Result SerializedProposalRecord
  serialize_proposal_record row latest_slot parent child =
      let receivers = sort_receivers row.receivers in
      let execution = first_execution row.executions in
      let invalid = derive_invalid_reason row parent child in
      let targets_child =
        is_text "remote" row.destination
        && not (is_text "5" row.tx_type)
        && is_some row.child_account in
      do
        total ← total_amount receivers
        ok (record {
          row = row;
          proposal_memo_match = compute_proposal_memo_match row.memo row.memo_hash;
          memo_execution_match = compute_memo_execution_match row.memo_hash row.execution_memo_hash;
          status = derive_status row (is_some execution) latest_slot invalid;
          invalid_reason = invalid;
          child_target_indexed = if targets_child then some (is_some child) else none;
          executed_at_block = Option.map (λ (e : ExecutionRow). e.block_height) execution;
          execution_tx_hash = elim execution [ none ↦ none | some e ↦ e.tx_hash ];
          receivers = receivers;
          recipient_count = length receivers;
          total_amount = total;
        })
