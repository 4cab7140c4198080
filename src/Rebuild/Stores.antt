-- ===== src/Rebuild/Stores.antt =====
-- contracts/src/event-rebuild.ts: the maps rebuilt block by block, with the first block whose emitted
-- roots disagree, the map of a child's executions, and the comparison with the chain. A `Set` or a
-- `Map` is the list of its entries.
use text.Mathlib.Text.{◌==◌ as str_eq}
use mina_guard.Base.{
  ℕ, String, Bool, true, false, not, Option, none, some, List, [], ◌∷◌, any, filter, ◌&&◌, ◌==◌,
  ltb, Result, ok, ◌>>=◌, if◌then◌else◌,
}
use mina_guard.Platform.{PublicKey, Platform}
use mina_guard.Platform.Maps.{MerkleMaps, Numerals}
use mina_guard.Constants.{executed_marker}
use mina_guard.Storage.{Encoding}
use mina_guard.Storage.Maps.{
  ApprovalStore, VoteNullifierStore, new_approval_store, new_nullifier_store,
}
use mina_guard.Rebuild.{
  IndexedEvent, TextReader, field, has_type, is_execution, is_local_execution, has_tx_type,
  child_execution_marking_types, read_field, apply_map_events,
}
use mina_guard.Rebuild.Owners.{rebuild_owners}

pub record FirstDivergentBlock : Type 0 where
  pub approval : Option ℕ
  pub nullifier : Option ℕ

pub record RebuiltStores (Map : Type 0) : Type 0 where
  pub owners : List PublicKey
  pub approval_store : ApprovalStore Map
  pub nullifier_store : VoteNullifierStore Map
  pub first_divergent_block : FirstDivergentBlock

-- `typeof e.blockHeight !== 'number'`
abbrev pub is_unplaced : IndexedEvent → Bool
is_unplaced e = elim e.block_height [ none ↦ true | some h ↦ false ]

abbrev pub is_in_block : ℕ → IndexedEvent → Bool
is_in_block height e = elim e.block_height [ none ↦ false | some h ↦ height == h ]

-- A height is kept once, in ascending order.
abbrev pub insert_height : ℕ → List ℕ → List ℕ
insert_height h [] = h ∷ []
insert_height h (x ∷ xs) =
    let rest = insert_height h xs in
    if ltb h x then h ∷ x ∷ xs else if h == x then x ∷ xs else x ∷ rest

-- `[...blocks.keys()].sort((a, b) => a - b)`
abbrev pub block_heights : List IndexedEvent → List ℕ
block_heights [] = []
block_heights (e ∷ events) = elim e.block_height [
  | none ↦ block_heights events
  | some h ↦ insert_height h (block_heights events)
]

abbrev with_text : Option String → List String → List String
with_text none texts = texts
with_text (some text) texts = text ∷ texts

module _ ⦃n : Numerals⦄ where
  -- The roots emitted in one block, of the approval map and of the nullifier map.
  unfoldable pub emitted_roots : List IndexedEvent → List String × List String
  emitted_roots [] = ([], [])
  emitted_roots (e ∷ block) =
      let (approval, nullifier) = emitted_roots block in
      if has_type "approval" e
      then (
        with_text (field e.payload "approvalRoot") approval,
        with_text (field e.payload "voteNullifierRoot") nullifier,
      )
      else if is_local_execution e
      then (with_text (field e.payload "root") approval, nullifier)
      else (approval, nullifier)

  -- The first block keeps the blame: `known` is the height found so far.
  abbrev pub first_divergence : Option ℕ → ℕ → List String → String → Option ℕ
  first_divergence (some h) height roots root = some h
  first_divergence none height roots root =
      if any (λ t. true) roots && not (any (λ t. str_eq t root) roots) then some height else none

module _ {Map : Type 0} ⦃m : MerkleMaps Map⦄ ⦃n : Numerals⦄ where
  -- The comparison of a block's emitted roots with the rebuilt ones.
  unfoldable pub note_divergence :
      ℕ
      → List IndexedEvent
      → ApprovalStore Map
      → VoteNullifierStore Map
      → FirstDivergentBlock
      → FirstDivergentBlock
  note_divergence height block approvals nullifiers known =
      let (approval, nullifier) = emitted_roots block in
      record {
        approval =
            first_divergence known.approval height approval
              (n.field_text (m.get_root approvals.map));
        nullifier =
            first_divergence known.nullifier height nullifier
              (n.field_text (m.get_root nullifiers.map));
      }

  module _ ⦃o : Platform⦄ ⦃e : Encoding⦄ ⦃r : TextReader⦄ where
    -- The loop over the blocks.
    unfoldable pub replay_blocks :
        Bool → List IndexedEvent → List ℕ → RebuiltStores Map → Result (RebuiltStores Map)
    replay_blocks checkpoints_usable events [] stores = ok stores
    replay_blocks checkpoints_usable events (height ∷ heights) stores =
        let block = filter (is_in_block height) events in
        do
          (a, v) ← apply_map_events block stores.approval_store stores.nullifier_store
          replay_blocks checkpoints_usable events heights (record {
            owners = stores.owners;
            approval_store = a;
            nullifier_store = v;
            first_divergent_block =
                if checkpoints_usable
                then note_divergence height block a v stores.first_divergent_block
                else stores.first_divergent_block;
          })

    unfoldable pub initial_stores : Option (RebuiltStores Map) → RebuiltStores Map
    initial_stores none = record {
      owners = [];
      approval_store = new_approval_store;
      nullifier_store = new_nullifier_store;
      first_divergent_block = record { approval = none; nullifier = none };
    }
    initial_stores (some stores) = record stores {
      first_divergent_block = record { approval = none; nullifier = none };
    }

    unfoldable pub rebuild_stores :
        List IndexedEvent → Option (RebuiltStores Map) → Result (RebuiltStores Map)
    rebuild_stores events initial =
        let start = initial_stores initial in
        let owners =
          rebuild_owners events (elim initial [ none ↦ none | some stores ↦ some stores.owners ]) in
        let unplaced = filter is_unplaced events in
        let checkpoints_usable = not (any is_unplaced events) in
        do
          (a, v) ← apply_map_events unplaced start.approval_store start.nullifier_store
          replay_blocks checkpoints_usable events (block_heights events)
              (record start { owners = owners; approval_store = a; nullifier_store = v })

  -- `rebuildChildExecutionMap`, from the map so far.
  unfoldable pub child_executions_from : ⦃o : Platform⦄ → List IndexedEvent → Map → Result Map
  child_executions_from [] map = ok map
  child_executions_from (e ∷ events) map =
      elim (if is_execution e then field e.payload "proposalHash" else none) [
        | none ↦ child_executions_from events map
        | some text ↦
            if has_tx_type child_execution_marking_types e
            then (do
              hash ← read_field text
              child_executions_from events (m.set map hash executed_marker))
            else child_executions_from events map
      ]

  unfoldable pub rebuild_child_execution_map : ⦃o : Platform⦄ → List IndexedEvent → Result Map
  rebuild_child_execution_map events = child_executions_from events m.fresh
