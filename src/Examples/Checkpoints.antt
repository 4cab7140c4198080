-- ===== src/Examples/Checkpoints.antt =====
-- The theorems on checkpoints and loads at concrete inputs.
use mina_guard.Base.{
  subst, sym, ◌≤◌, ◌≡◌, ◌↔◌, Bool, true, none, some, List, [], ◌∷◌, length, All, ok, err, refl,
  arith,
}
use mina_guard.Platform.{Field, fadd, fsub}
use mina_guard.Constants.{max_owners, executed_marker}
use mina_guard.Storage.{get_commitment}
use mina_guard.Storage.Maps.{get_count, set_count, nullify}
use mina_guard.Rebuild.{
  IndexedEvent, text_value, field, public_key, is_execution, vote_count, raise_to, nullify_voter,
  apply_for, apply_map_event, apply_map_events,
}
use mina_guard.Rebuild.Owners.{setup_owners, nonce_of, owner_changes, apply_changes, rebuild_owners}
use mina_guard.Rebuild.Stores.{
  RebuiltStores, emitted_roots, note_divergence, replay_blocks, initial_stores, rebuild_stores,
}
use mina_guard.Rebuild.Unordered.{SameMaps}
use mina_guard.Rebuild.Verify.{
  ChainState, MatchesChain, assert_stores_match_chain, assert_stores_match_chain_iff,
}
use mina_guard.Checkpoint.{StoreScope, block, checkpoint_stores, restore_store_checkpoint}
use mina_guard.Checkpoint.RoundTrip.{IsStorable, restore_store_checkpoint-checkpoint_stores}
use mina_guard.Checkpoint.Cache.{CheckpointSource, load}
use mina_guard.Checkpoint.Loads.{Proven, load-Proven, load-le, load-recovers}
use mina_guard.Checkpoint.Storable.{rebuild_stores-IsStorable}
use mina_guard.Examples.Ideal.{ideal}
use mina_guard.Examples.Session.{alice}
use mina_guard.Examples.Store.{tally, strokes}
use mina_guard.Examples.Readers.{
  value_maps, value_maps-MapLaws, stroke_numerals, stroke_numerals-NumeralLaws,
  stroke_numerals-decimal, tally_reader, tally_reader-ReaderLaws, key_at,
}
use mina_guard.Examples.Rebuilding.{in_order, stores_of, is_ok_lem, is_ok}

abbrev setup_event : IndexedEvent
setup_event = record {
  event_type = "setupOwner";
  payload = ("owner", text_value "111111111111111111111") ∷ ("index", text_value "") ∷ [];
  block_height = some 2;
}

abbrev history : List IndexedEvent
history = setup_event ∷ in_order

abbrev stored : RebuiltStores (Field → Field)
stored = stores_of (rebuild_stores history none)

history_rebuilds : is_ok (rebuild_stores history none) ≡ true
unfolding rebuild_stores initial_stores replay_blocks note_divergence emitted_roots apply_map_events
    apply_map_event apply_for nullify_voter raise_to vote_count field public_key is_execution
    stroke_numerals value_maps tally_reader ideal get_count set_count nullify strokes fadd fsub
    executed_marker
history_rebuilds = refl

owners_stored : stored.owners ≡ (alice ∷ [])
unfolding rebuild_stores initial_stores replay_blocks note_divergence emitted_roots apply_map_events
    apply_map_event apply_for nullify_voter raise_to vote_count field public_key is_execution
    stroke_numerals value_maps tally_reader ideal get_count set_count nullify strokes fadd fsub
    executed_marker rebuild_owners setup_owners nonce_of owner_changes apply_changes key_at
    mina_guard.Storage.add_sorted
owners_stored = refl

alice_point : All (λ k. ideal.is_point k ≡ true) (alice ∷ [])
unfolding ideal
alice_point = (refl, tt)

stored_points : All (λ k. ideal.is_point k ≡ true) stored.owners
stored_points = subst (λ ks. All (λ k. ideal.is_point k ≡ true) ks) (sym owners_stored) alice_point

stored_few : length stored.owners ≤ max_owners
stored_few = rw owners_stored (omega arith)

rebuild_stores-IsStorable_example : IsStorable value_maps ideal stored
rebuild_stores-IsStorable_example =
    rebuild_stores-IsStorable value_maps-MapLaws history stored
      (is_ok_lem (rebuild_stores history none) history_rebuilds) stored_points stored_few

stored-IsStorable : IsStorable value_maps ideal stored
stored-IsStorable =
    rebuild_stores-IsStorable value_maps-MapLaws history stored
      (is_ok_lem (rebuild_stores history none) history_rebuilds) stored_points stored_few

abbrev vault : StoreScope
vault = record { network = "testnet"; address = "vault" }

restore_store_checkpoint-checkpoint_stores_example :
    (restored : RebuiltStores (Field → Field)) × (restore_store_checkpoint
        (checkpoint_stores stored vault (block 4))
        vault
      ≡ ok restored)
    × (restored.owners ≡ stored.owners)
    × SameMaps restored stored
restore_store_checkpoint-checkpoint_stores_example =
    restore_store_checkpoint-checkpoint_stores value_maps-MapLaws stroke_numerals-NumeralLaws
      tally_reader-ReaderLaws stroke_numerals-decimal stored vault (block 4) refl stored-IsStorable

abbrev chain_state : ChainState
chain_state = record {
  owners_commitment = some (stroke_numerals.field_text (get_commitment stored.owners));
  approval_root = some (stroke_numerals.field_text (value_maps.get_root stored.approval_store.map));
  vote_nullifier_root =
      some (stroke_numerals.field_text (value_maps.get_root stored.nullifier_store.map));
}

assert_stores_match_chain_iff_example :
    (assert_stores_match_chain stored chain_state ≡ ok tt) ↔ MatchesChain stored chain_state
assert_stores_match_chain_iff_example = assert_stores_match_chain_iff stored chain_state

-- A vault whose incremental reads fail.
abbrev source : CheckpointSource
source = record {
  key = "vault";
  scope = vault;
  read = err "quota";
  events = λ from. elim from [ none ↦ ok history | some b ↦ err "truncated" ];
  chain = λ again. ok chain_state;
}

chain_state-Proven : Proven stored chain_state
chain_state-Proven = record { owners = refl; approvals = refl; votes = refl }

load-recovers_example : (loaded : RebuiltStores (Field → Field)) × ((load source []).0 ≡ ok loaded)
load-recovers_example =
    load-recovers source [] history stored chain_state refl
      (is_ok_lem (rebuild_stores history none) history_rebuilds) refl chain_state-Proven

abbrev recovered : (loaded : RebuiltStores (Field → Field)) × ((load source []).0 ≡ ok loaded)
recovered =
    load-recovers source [] history stored chain_state refl
      (is_ok_lem (rebuild_stores history none) history_rebuilds) refl chain_state-Proven

load-Proven_example :
    (again : Bool) × (chain : ChainState) × (source.chain again ≡ ok chain)
    × Proven recovered.0 chain
load-Proven_example =
    load-Proven source [] (load source []).1 recovered.0 (λ i. (recovered.1 i, (load source []).1))

load-le_example : length (load {Map = Field → Field} source []).1 ≤ 4
load-le_example = load-le {Map = Field → Field} source [] (omega arith)
