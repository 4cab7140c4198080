-- ===== src/Checkpoint/Storable.antt =====
-- contracts/src/event-rebuild.ts: what holds of the keys that rebuilt stores track, for the checkpoints
-- of contracts/src/store-checkpoint.ts.
use mina_guard.Base.{
  ◌≡◌, ◌≤◌, true, false, Option, none, some, List, [], ◌∷◌, length, All, ok, Result-cases,
  Option-cases, Bool-cases, inl, inr, ◌∙◌, sym, ap, ltb, err≢ok, ok-injective, subst, arith,
}
use mina_guard.Platform.{Field, PublicKey, Platform}
use mina_guard.Platform.Maps.{MerkleMaps, MapLaws, Numerals}
use mina_guard.Constants.{max_owners}
use mina_guard.Hashes.{vote_nullifier_key}
use mina_guard.Storage.{Encoding}
use mina_guard.Storage.Maps.{
  ApprovalStore, VoteNullifierStore, has_key, new_nullifier_store, new_approval_store, nullify,
  get_count,
}
use mina_guard.Storage.Maps.Counts.{
  Tracked, Covered, has_key-append, new_nullifier_store-Tracked, new_approval_store-Covered,
  set_count-Covered, nullify-Tracked,
}
use mina_guard.Storage.Maps.RoundTrip.{Unique, Unique-append}
use mina_guard.Rebuild.{IndexedEvent, TextReader, raise_to, apply_map_events}
use mina_guard.Rebuild.Levels.{Effect, effect, raise_by, mark_by}
use mina_guard.Rebuild.Highest.{
  apply_map_events-cons, apply_map_events-failed, apply_map_events-nil,
}
use mina_guard.Rebuild.Stores.{RebuiltStores, initial_stores, rebuild_stores}
use mina_guard.Rebuild.Order.{replay_order}
use mina_guard.Rebuild.Unordered.{rebuild_stores-maps, maps_of}
use mina_guard.Checkpoint.RoundTrip.{IsStorable}

module _ {Map : Type 0} ⦃m : MerkleMaps Map⦄ where
  -- The tracked keys of both stores.
  pub record Sound (a : ApprovalStore Map) (v : VoteNullifierStore Map) : Type 0 where
    pub covered : Covered a
    pub unique : Unique v.keys
    pub tracked : Tracked v
    pub marked_only : (k : Field) → has_key k v.keys ≡ false → m.get v.map k ≡ 0

module _ {Map : Type 0} ⦃m : MerkleMaps Map⦄ ⦃o : Platform⦄ (laws : MapLaws m) where
  nullify-Unique :
      (v : VoteNullifierStore Map) (hash : Field) (k : PublicKey)
      → Unique v.keys
      → Unique (nullify v hash k).keys
  unfolding nullify
  nullify-Unique v hash k unique = elim (Bool-cases (has_key (vote_nullifier_key hash k) v.keys)) [
    | inl there ↦ rw (nullify, there) unique
    | inr absent ↦
        rw (nullify, absent) (Unique-append v.keys (vote_nullifier_key hash k) absent unique)
  ]

  nullify-marked_only :
      (v : VoteNullifierStore Map) (hash : Field) (voter : PublicKey)
      → ((k : Field) → has_key k v.keys ≡ false → m.get v.map k ≡ 0)
      → (k : Field) → has_key k (nullify v hash voter).keys ≡ false
      → m.get (nullify v hash voter).map k ≡ 0
  unfolding nullify
  nullify-marked_only v hash voter before k absent =
      let key = vote_nullifier_key hash voter in
      ground (arith, before k, has_key-append k key v.keys, laws.get-set v.map key 1 k)

module _ {Map : Type 0} ⦃m : MerkleMaps Map⦄ ⦃o : Platform⦄ ⦃n : Numerals⦄ ⦃r : TextReader⦄
    (laws : MapLaws m) where
  raise_by-Covered :
      (write : Option (Field × Field)) (a : ApprovalStore Map)
      → Covered a
      → Covered (raise_by write a)
  unfolding raise_to
  raise_by-Covered none a covered = covered
  raise_by-Covered (some (hash, value)) a covered =
      elim (Bool-cases (ltb (get_count a hash) value)) [
        | inl more ↦ rw (raise_to, more) (set_count-Covered laws a hash value covered)
        | inr kept ↦ rw (raise_to, kept) covered
      ]

  effect-Sound :
      (f : Effect) (a : ApprovalStore Map) (v : VoteNullifierStore Map)
      → Sound a v
      → Sound (raise_by f.raises a) (mark_by f.marks v)
  effect-Sound f a v sound = elim (Option-cases f.marks) [
    | inl nothing ↦ rw nothing (record {
      covered = raise_by-Covered f.raises a sound.covered;
      unique = sound.unique;
      tracked = sound.tracked;
      marked_only = sound.marked_only;
    })
    | inr ((hash, voter), marks) ↦ rw marks (record {
      covered = raise_by-Covered f.raises a sound.covered;
      unique = nullify-Unique laws v hash voter sound.unique;
      tracked = nullify-Tracked laws v hash voter sound.tracked;
      marked_only = nullify-marked_only laws v hash voter sound.marked_only;
    })
  ]

  apply_map_events-Sound :
      (events : List IndexedEvent) (a a' : ApprovalStore Map) (v v' : VoteNullifierStore Map)
      → Sound a v
      → apply_map_events events a v ≡ ok (a', v')
      → Sound a' v'
  apply_map_events-Sound [] a a' v v' sound h =
      subst (λ (p : ApprovalStore Map × VoteNullifierStore Map). Sound p.0 p.1)
        (ok-injective (sym (apply_map_events-nil laws a v) ∙ h)) sound
  apply_map_events-Sound (e ∷ events) a a' v v' sound h = elim (Result-cases (effect e)) [
    | inl (message, failed) ↦
        absurd (err≢ok (sym (apply_map_events-failed laws e events a v message failed) ∙ h))
    | inr (f, read) ↦
        apply_map_events-Sound events (raise_by f.raises a) a' (mark_by f.marks v) v'
          (effect-Sound f a v sound) (sym (apply_map_events-cons laws e events a v f read) ∙ h)
  ]

  -- Where a map holds what was set: stores rebuilt from events can go into a checkpoint, if their
  -- owners are curve points and at most `MAX_OWNERS`. Counts and marks stand on tracked keys only,
  -- and no nullifier is tracked twice.
  pub rebuild_stores-IsStorable :
      ⦃e : Encoding⦄ (events : List IndexedEvent) (stores : RebuiltStores Map)
      → rebuild_stores events none ≡ ok stores
      → All (λ k. o.is_point k ≡ true) stores.owners
      → length stores.owners ≤ max_owners
      → IsStorable m o stores
  unfolding initial_stores
  rebuild_stores-IsStorable events stores h points few =
      let empty : Sound new_approval_store new_nullifier_store = record {
        covered = new_approval_store-Covered m laws;
        unique = tt;
        tracked = new_nullifier_store-Tracked Map m;
        marked_only = λ k absent. laws.get-fresh k;
      } in
      let sound =
        apply_map_events-Sound (replay_order events) new_approval_store stores.approval_store
          new_nullifier_store stores.nullifier_store empty
          (sym (rebuild_stores-maps events none) ∙ ap maps_of h) in
      record {
        points = points;
        few = few;
        covered = sound.covered;
        unique = sound.unique;
        tracked = sound.tracked;
        marked_only = sound.marked_only;
      }
