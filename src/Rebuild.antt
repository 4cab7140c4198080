-- ===== src/Rebuild.antt =====
-- contracts/src/event-rebuild.ts: the events as the indexer serves them, the reading of their
-- payloads, and what one event does to the approval and nullifier maps.
pub mod Owners
pub mod Stores
pub mod Levels
pub mod Highest
pub mod Order
pub mod Unordered
pub mod Emitted
pub mod Reading
pub mod Effects
pub mod Notable
pub mod Calls
pub mod Mirrors
pub mod Grows
pub mod History
pub mod Incremental
pub mod Verify
use text.Mathlib.Text.{◌==◌ as str_eq}
use mina_guard.Base.{
  ℕ, zero, suc, String, ◌≡◌, ◌<◌, Bool, true, false, not, Option, none, some, List, [], ◌∷◌, any,
  ◌&&◌, ◌||◌, leb, ltb, Result, ok, or_throw, ◌>>=◌, if◌then◌else◌,
}
use mina_guard.Platform.{Field, PublicKey, Platform, fadd}
use mina_guard.Platform.Maps.{MerkleMaps, Numerals}
use mina_guard.Constants.{
  proposed_marker, executed_marker, create_child_type, reclaim_child_type, destroy_child_type,
  enable_child_multi_sig_type,
}
use mina_guard.Storage.{Encoding}
use mina_guard.Storage.Maps.{ApprovalStore, VoteNullifierStore, get_count, set_count, nullify}

-- A value of a payload. A number or a bigint stands for its `toString()`.
pub data JsonValue : Type 0 where
  text_value number_value : String → JsonValue
  truth_value : Bool → JsonValue
  other_value : JsonValue

-- `payload` is the list of the object's properties; for null it is empty. `block_height` is `none`
-- where it is not a number.
pub record IndexedEvent : Type 0 where
  pub event_type : String
  pub payload : List (String × JsonValue)
  pub block_height : Option ℕ

-- Reading of texts that is outside this source: `PublicKey.fromBase58`, `none` where it throws, and
-- `Number(text)` of a decimal numeral.
pub record TextReader : Type 0 where
  pub from_base58 : String → Option PublicKey
  pub number_of : String → ℕ

abbrev pub text_length : String → ℕ
text_length String.[] = 0
text_length (String.◌∷◌ c s) = suc (text_length s)

-- `payload?.[key]`
abbrev pub property : List (String × JsonValue) → String → Option JsonValue
property [] key = none
property ((name, value) ∷ rest) key =
    let later = property rest key in if str_eq name key then some value else later

abbrev pub value_text : JsonValue → Option String
value_text (text_value text) = if ltb 0 (text_length text) then some text else none
value_text (number_value text) = some text
value_text (truth_value b) = none
value_text other_value = none

unfoldable pub field : List (String × JsonValue) → String → Option String
field payload key = elim (property payload key) [ none ↦ none | some value ↦ value_text value ]

unfoldable pub public_key : ⦃r : TextReader⦄ → List (String × JsonValue) → String → Option PublicKey
unfolding field
public_key ⦃r⦄ payload key = elim (field payload key) [
  | none ↦ none
  | some text ↦ if leb (text_length text) 10 then none else r.from_base58 text
]

abbrev pub has_type : String → IndexedEvent → Bool
has_type name e = str_eq e.event_type name

unfoldable pub is_execution : IndexedEvent → Bool
is_execution e = has_type "execution" e || has_type "executionBatch" e

module _ ⦃n : Numerals⦄ where
  abbrev pub remote_execution_types : List String
  remote_execution_types =
      n.field_text create_child_type
      ∷ n.field_text reclaim_child_type
      ∷ n.field_text destroy_child_type
      ∷ n.field_text enable_child_multi_sig_type
      ∷ []

  abbrev pub child_execution_marking_types : List String
  child_execution_marking_types =
      n.field_text reclaim_child_type
      ∷ n.field_text destroy_child_type
      ∷ n.field_text enable_child_multi_sig_type
      ∷ []

  -- `types.has(field(e.payload, 'txType') ?? '')`
  abbrev pub has_tx_type : List String → IndexedEvent → Bool
  has_tx_type types e =
      let tx_type : String = elim (field e.payload "txType") [ none ↦ "" | some text ↦ text ] in
      any (λ t. str_eq t tx_type) types

  abbrev pub is_local_execution : IndexedEvent → Bool
  is_local_execution e = is_execution e && not (has_tx_type remote_execution_types e)

  -- `Field(text)`
  abbrev pub read_field : String → Result Field
  read_field text = or_throw (n.field_of text) "Field: not a numeral"

  -- The count that a `proposal` or `approval` event stands for.
  unfoldable pub vote_count : ⦃o : Platform⦄ → IndexedEvent → Result Field
  vote_count e =
      if has_type "proposal" e
      then ok (fadd proposed_marker 1)
      else read_field (elim (field e.payload "approvalCount") [ none ↦ "0" | some text ↦ text ])

module _ {Map : Type 0} ⦃m : MerkleMaps Map⦄ where
  unfoldable pub raise_to : ApprovalStore Map → Field → Field → ApprovalStore Map
  raise_to store hash value =
      if ltb (get_count store hash) value then set_count store hash value else store

  module _ ⦃o : Platform⦄ ⦃n : Numerals⦄ ⦃r : TextReader⦄ where
    unfoldable pub nullify_voter :
        IndexedEvent → Field → VoteNullifierStore Map → VoteNullifierStore Map
    nullify_voter e hash nullifiers =
        let name = if has_type "proposal" e then "proposer" else "approver" in
        elim (public_key e.payload name) [
          | none ↦ nullifiers
          | some voter ↦ nullify nullifiers hash voter
        ]

    -- What an event does once its hash is read.
    unfoldable pub apply_for :
        IndexedEvent
        → Field
        → ApprovalStore Map
        → VoteNullifierStore Map
        → Result (ApprovalStore Map × VoteNullifierStore Map)
    apply_for e hash approvals nullifiers =
        if has_type "proposal" e || has_type "approval" e
        then (do
          count ← vote_count e
          ok (raise_to approvals hash count, nullify_voter e hash nullifiers))
        else if is_local_execution e
        then ok (raise_to approvals hash executed_marker, nullifiers)
        else ok (approvals, nullifiers)

    unfoldable pub apply_map_event :
        IndexedEvent
        → ApprovalStore Map
        → VoteNullifierStore Map
        → Result (ApprovalStore Map × VoteNullifierStore Map)
    apply_map_event e approvals nullifiers = elim (field e.payload "proposalHash") [
      | none ↦ ok (approvals, nullifiers)
      | some text ↦ do hash ← read_field text; apply_for e hash approvals nullifiers
    ]

    -- `for (const e of events) applyMapEvent(e, approvals, nullifiers)`
    unfoldable pub apply_map_events :
        List IndexedEvent
        → ApprovalStore Map
        → VoteNullifierStore Map
        → Result (ApprovalStore Map × VoteNullifierStore Map)
    apply_map_events [] approvals nullifiers = ok (approvals, nullifiers)
    apply_map_events (e ∷ events) approvals nullifiers = do
      (a, v) ← apply_map_event e approvals nullifiers
      apply_map_events events a v
