-- ===== src/Checkpoint/RoundTrip.antt =====
-- contracts/src/store-checkpoint.ts: `restoreStoreCheckpoint` after `checkpointStores`.
use text.Mathlib.TextEquality.{eq_iff}
use mina_guard.Base.{
  ◌≡◌, ◌≤◌, true, false, none, List, [], ◌∷◌, length, length-map, map, All, ltb, ok, refl, sym, ap,
  arith,
}
use mina_guard.Platform.{Field, PublicKey, Platform}
use mina_guard.Platform.Maps.{MerkleMaps, MapLaws, Numerals, NumeralLaws}
use mina_guard.Constants.{max_owners}
use mina_guard.Storage.{Encoding}
use mina_guard.Storage.Maps.{has_key, is_numeral, get_count}
use mina_guard.Storage.Maps.Counts.{Tracked, Covered}
use mina_guard.Storage.Maps.RoundTrip.{
  Unique, deserialize_approvals-serialize_approvals, deserialize_nullifiers-serialize_nullifiers,
}
use mina_guard.Rebuild.{TextReader}
use mina_guard.Rebuild.Stores.{RebuiltStores}
use mina_guard.Rebuild.Unordered.{SameMaps}
use mina_guard.Rebuild.Emitted.{ReaderLaws}
use mina_guard.Rebuild.Verify.{assert_stores_match_chain, assert_stores_match_chain_iff}
use mina_guard.Checkpoint.{
  BlockNumber, StoreScope, is_valid_block, is_compatible, require_roots, decode_owners,
  checkpoint_stores, restore_store_checkpoint,
}

decode_owners-map :
    (o : Platform) (e : Encoding) (r : TextReader) (reader : ReaderLaws o e r)
    (owners : List PublicKey)
    → All (λ k. o.is_point k ≡ true) owners
    → decode_owners ⦃r = r⦄ (map e.to_base58 owners) ≡ ok owners
unfolding decode_owners
decode_owners-map o e r reader [] points = refl
decode_owners-map o e r reader (k ∷ owners) points =
    rw (decode_owners, reader.decodes k points.0, decode_owners-map o e r reader owners points.1)
      refl

-- What a checkpoint can carry: owners that decode, at most `MAX_OWNERS`; counts and marks on tracked
-- keys only, each key once.
pub record IsStorable {Map : Type 0} (m : MerkleMaps Map) (o : Platform)
    (stores : RebuiltStores Map) : Type 0 where
  pub points : All (λ k. o.is_point k ≡ true) stores.owners
  pub few : length stores.owners ≤ max_owners
  pub covered : Covered ⦃m = m⦄ stores.approval_store
  pub unique : Unique stores.nullifier_store.keys
  pub tracked : Tracked ⦃m = m⦄ stores.nullifier_store
  pub marked_only :
      (k : Field)
      → has_key k stores.nullifier_store.keys ≡ false
      → m.get stores.nullifier_store.map k ≡ 0

module _ {Map : Type 0} ⦃m : MerkleMaps Map⦄ ⦃n : Numerals⦄ ⦃o : Platform⦄ ⦃e : Encoding⦄
    ⦃r : TextReader⦄ where
  compatible :
      (stores : RebuiltStores Map) (scope : StoreScope) (through : BlockNumber)
      → is_valid_block through ≡ true
      → is_compatible (checkpoint_stores stores scope through) scope ≡ true
  unfolding checkpoint_stores
  compatible stores scope through valid =
      rw
        (
          is_compatible,
          (eq_iff scope.network scope.network).1 refl,
          (eq_iff scope.address scope.address).1 refl,
          valid,
        )
        refl

  -- Where texts of numbers are decimal and read back, curve points decode, a map holds what was
  -- set and its root depends on its values: the checkpoint of storable stores, up to a valid block,
  -- restores in its own scope, to the same owners and to maps with the same values and roots.
  pub restore_store_checkpoint-checkpoint_stores :
      MapLaws m
      → NumeralLaws n
      → ReaderLaws o e r
      → ((f : Field) → is_numeral (n.field_text f) ≡ true)
      → (stores : RebuiltStores Map) (scope : StoreScope) (through : BlockNumber)
      → is_valid_block through ≡ true
      → IsStorable m o stores
      → (restored : RebuiltStores Map) × (restore_store_checkpoint
            (checkpoint_stores stores scope through)
            scope
          ≡ ok restored)
        × (restored.owners ≡ stores.owners)
        × SameMaps restored stores
  unfolding restore_store_checkpoint checkpoint_stores require_roots get_count
  restore_store_checkpoint-checkpoint_stores laws numerals reader decimal stores scope through valid
        storable =
      let (approvals, approvals_read, counts) =
        deserialize_approvals-serialize_approvals laws numerals stores.approval_store
          storable.covered in
      let (votes, votes_read, marks) =
        deserialize_nullifiers-serialize_nullifiers laws numerals decimal stores.nullifier_store
          storable.unique storable.tracked storable.marked_only in
      let restored : RebuiltStores Map = record {
        owners = stores.owners;
        approval_store = approvals;
        nullifier_store = votes;
        first_divergent_block = record { approval = none; nullifier = none };
      } in
      let approval_root = laws.same_root approvals.map stores.approval_store.map counts in
      let vote_root = laws.same_root votes.map stores.nullifier_store.map marks in
      let few : (ltb max_owners (length (map e.to_base58 stores.owners)) ≡ false) =
        let size = length-map stores.owners e.to_base58 in ground (arith, storable.few) in
      let matching : (assert_stores_match_chain restored
            (checkpoint_stores stores scope through).roots
          ≡ ok tt) =
        (assert_stores_match_chain_iff restored (checkpoint_stores stores scope through).roots).1
          (refl, ap n.field_text (sym approval_root), ap n.field_text (sym vote_root)) in
      (
        restored,
        rw
            (
              restore_store_checkpoint,
              compatible stores scope through valid,
              few,
              decode_owners-map o e r reader stores.owners storable.points,
              approvals_read,
              votes_read,
              matching,
            )
            refl,
        refl,
        (counts, marks, approval_root, vote_root),
      )
