-- ===== src/Rebuild/Unordered.antt =====
-- contracts/src/event-rebuild.ts, `rebuildStores`: events that come in another order or twice.
use mina_guard.Base.{
  ℕ, ◌≡◌, Bool, false, Option, List, [], ◌∷◌, ◌++◌, SameMembers, any-SameMembers, any, filter,
  Result, ok, err, ◌>>=◌, if◌then◌else◌, refl, ◌∙◌, sym, ap, err≢ok, then_ext, then_assoc,
}
use mina_guard.Platform.{Field, Platform}
use mina_guard.Platform.Maps.{MerkleMaps, MapLaws, Numerals}
use mina_guard.Storage.{Encoding}
use mina_guard.Storage.Maps.{ApprovalStore, VoteNullifierStore, get_count}
use mina_guard.Storage.Maps.Counts.{Tracked}
use mina_guard.Rebuild.{IndexedEvent, TextReader, apply_map_event, apply_map_events}
use mina_guard.Rebuild.Stores.{
  RebuiltStores, is_unplaced, is_in_block, block_heights, replay_blocks, initial_stores,
  rebuild_stores,
}
use mina_guard.Rebuild.Levels.{larger}
use mina_guard.Rebuild.Highest.{
  is_unreadable, event_marks, highest-SameMembers, Rebuilt, apply_map_events-Rebuilt,
  apply_map_events-total,
}
use mina_guard.Rebuild.Order.{blocks_of, replay_order, replay_order-SameMembers}

replayed_alike :
    (events others : List IndexedEvent)
    → SameMembers events others
    → SameMembers (replay_order events) (replay_order others)
replayed_alike events others same e = (
  (λ i.
      (replay_order-SameMembers others e).0 ((same e).0 ((replay_order-SameMembers events e).1 i))),
  (λ i.
      (replay_order-SameMembers events e).0 ((same e).1 ((replay_order-SameMembers others e).1 i))),
)

module _ {Map : Type 0} ⦃m : MerkleMaps Map⦄ ⦃o : Platform⦄ ⦃n : Numerals⦄ ⦃e : Encoding⦄
    ⦃r : TextReader⦄ where
  abbrev pub maps_of :
      Result (RebuiltStores Map) → Result (ApprovalStore Map × VoteNullifierStore Map)
  maps_of rebuilt = rebuilt >>= λ s. ok (s.approval_store, s.nullifier_store)

  apply_map_events-append :
      (xs ys : List IndexedEvent) (a : ApprovalStore Map) (v : VoteNullifierStore Map)
      → apply_map_events (xs ++ ys) a v
        ≡ (apply_map_events xs a v >>= λ p. apply_map_events ys p.0 p.1)
  unfolding apply_map_events
  apply_map_events-append [] ys a v = refl
  apply_map_events-append (x ∷ xs) ys a v =
      then_ext (apply_map_event x a v) (λ p. apply_map_events-append xs ys p.0 p.1)
      ∙ sym (then_assoc (apply_map_event x a v) _ _)

  -- The bookkeeping of divergent blocks does not touch the maps.
  replay_blocks-maps :
      (usable : Bool) (events : List IndexedEvent) (heights : List ℕ) (s : RebuiltStores Map)
      → maps_of (replay_blocks usable events heights s)
        ≡ apply_map_events (blocks_of events heights) s.approval_store s.nullifier_store
  unfolding replay_blocks apply_map_events
  replay_blocks-maps usable events [] s = refl
  replay_blocks-maps usable events (h ∷ hs) s =
      let block = filter (is_in_block h) events in
      then_assoc (apply_map_events block s.approval_store s.nullifier_store) _ _
      ∙ then_ext (apply_map_events block s.approval_store s.nullifier_store)
          (λ p. replay_blocks-maps usable events hs _)
      ∙ sym (apply_map_events-append block (blocks_of events hs) s.approval_store s.nullifier_store)

  pub rebuild_stores-maps :
      (events : List IndexedEvent) (initial : Option (RebuiltStores Map))
      → maps_of (rebuild_stores events initial)
        ≡ apply_map_events
            (replay_order events)
            (initial_stores initial).approval_store
            (initial_stores initial).nullifier_store
  unfolding rebuild_stores
  rebuild_stores-maps events initial =
      let start = initial_stores initial in
      let unplaced = filter is_unplaced events in
      then_assoc (apply_map_events unplaced start.approval_store start.nullifier_store) _ _
      ∙ then_ext (apply_map_events unplaced start.approval_store start.nullifier_store)
          (λ p. replay_blocks-maps _ events (block_heights events) _)
      ∙ sym (
          apply_map_events-append unplaced (blocks_of events (block_heights events))
            start.approval_store start.nullifier_store)

  maps_of-ok :
      (rebuilt : Result (RebuiltStores Map)) (a : ApprovalStore Map) (v : VoteNullifierStore Map)
      → maps_of rebuilt ≡ ok (a, v)
      → (s : RebuiltStores Map) × (rebuilt ≡ ok s)
  maps_of-ok (err message) a v h = absurd (err≢ok h)
  maps_of-ok (ok s) a v h = (s, refl)

  -- What a rebuild gives, in terms of its events as a set.
  pub rebuild_stores-Rebuilt :
      MapLaws m
      → (events : List IndexedEvent) (initial : Option (RebuiltStores Map))
        (stores : RebuiltStores Map)
      → Tracked (initial_stores initial).nullifier_store
      → rebuild_stores events initial ≡ ok stores
      → Rebuilt
          (replay_order events)
          (initial_stores initial).approval_store
          stores.approval_store
          (initial_stores initial).nullifier_store
          stores.nullifier_store
  rebuild_stores-Rebuilt laws events initial stores tracked h =
      apply_map_events-Rebuilt laws (replay_order events) _ stores.approval_store _
        stores.nullifier_store tracked (sym (rebuild_stores-maps events initial) ∙ ap maps_of h)

  pub rebuild_stores-total :
      MapLaws m
      → (events : List IndexedEvent) (initial : Option (RebuiltStores Map))
      → any is_unreadable (replay_order events) ≡ false
      → (stores : RebuiltStores Map) × (rebuild_stores events initial ≡ ok stores)
  rebuild_stores-total laws events initial readable =
      let (a, v, done) =
        apply_map_events-total laws (replay_order events) (initial_stores initial).approval_store
          (initial_stores initial).nullifier_store readable in
      maps_of-ok (rebuild_stores events initial) a v (rebuild_stores-maps events initial ∙ done)

  -- The values and the roots of both maps agree.
  abbrev pub SameMaps : RebuiltStores Map → RebuiltStores Map → Type 0
  SameMaps s t =
      ((k : Field) → get_count s.approval_store k ≡ get_count t.approval_store k)
      × ((k : Field) → m.get s.nullifier_store.map k ≡ m.get t.nullifier_store.map k)
      × (m.get_root s.approval_store.map ≡ m.get_root t.approval_store.map)
      × (m.get_root s.nullifier_store.map ≡ m.get_root t.nullifier_store.map)

  -- Where a map holds what was set and its root depends on its values: if a list of events is
  -- rebuilt, from stores whose tracked nullifiers are marked, then every list with the same
  -- events, in whatever order and however often, is rebuilt as well, to maps with the same values
  -- and the same roots.
  pub rebuild_stores-SameMembers :
      MapLaws m
      → (events others : List IndexedEvent) (initial : Option (RebuiltStores Map))
        (stores : RebuiltStores Map)
      → Tracked (initial_stores initial).nullifier_store
      → SameMembers events others
      → rebuild_stores events initial ≡ ok stores
      → (again : RebuiltStores Map) × (rebuild_stores others initial ≡ ok again)
        × SameMaps stores again
  unfolding get_count
  rebuild_stores-SameMembers laws events others initial stores tracked same h =
      let before = rebuild_stores-Rebuilt laws events initial stores tracked h in
      let alike = replayed_alike events others same in
      let readable =
        sym (any-SameMembers is_unreadable (replay_order events) (replay_order others) alike)
        ∙ before.readable in
      let (again, found) = rebuild_stores-total laws others initial readable in
      let after = rebuild_stores-Rebuilt laws others initial again tracked found in
      let counts : ((k : Field)
          → get_count stores.approval_store k ≡ get_count again.approval_store k) =
        λ k.
          before.counts k
          ∙ ap (larger (get_count (initial_stores initial).approval_store k))
              (highest-SameMembers (replay_order events) (replay_order others) k alike)
          ∙ sym (after.counts k) in
      let votes : ((k : Field)
          → m.get stores.nullifier_store.map k ≡ m.get again.nullifier_store.map k) =
        λ k.
          before.votes k
          ∙ ap (λ b. if b then 1 else m.get (initial_stores initial).nullifier_store.map k)
              (any-SameMembers (event_marks k) (replay_order events) (replay_order others) alike)
          ∙ sym (after.votes k) in
      (
        again,
        found,
        (
          counts,
          votes,
          laws.same_root stores.approval_store.map again.approval_store.map counts,
          laws.same_root stores.nullifier_store.map again.nullifier_store.map votes,
        ),
      )
