-- ===== src/Rebuild/Incremental.antt =====
-- contracts/src/event-rebuild.ts, `rebuildStores` with initial stores: a later range of events on top
-- of rebuilt stores.
use mina_guard.Base.{
  ℕ, ◌≡◌, Bool, none, some, List, [], ◌∷◌, ◌++◌, In, SameMembers, any, any-SameMembers, In-append,
  In-append_left, In-append_right, ◌||◌, ok, if◌then◌else◌, refl, ◌∙◌, sym, ap, inl, inr, arith,
}
use mina_guard.Platform.{Field, Platform}
use mina_guard.Platform.Maps.{MerkleMaps, MapLaws, Numerals}
use mina_guard.Storage.{Encoding}
use mina_guard.Storage.Maps.{get_count}
use mina_guard.Storage.Maps.Counts.{new_nullifier_store-Tracked}
use mina_guard.Rebuild.{IndexedEvent, TextReader}
use mina_guard.Rebuild.Levels.{larger}
use mina_guard.Rebuild.Stores.{RebuiltStores, initial_stores, rebuild_stores}
use mina_guard.Rebuild.Highest.{
  is_unreadable, event_marks, highest, highest-append, highest-SameMembers,
}
use mina_guard.Rebuild.Order.{replay_order, replay_order-SameMembers}
use mina_guard.Rebuild.Unordered.{SameMaps, rebuild_stores-Rebuilt, rebuild_stores-total}

any-append :
    (p : IndexedEvent → Bool) (xs ys : List IndexedEvent)
    → any p (xs ++ ys) ≡ (any p xs || any p ys)
any-append p [] ys = refl
any-append p (x ∷ xs) ys = ground (arith, any-append p xs ys)

replay_order-append :
    (xs ys : List IndexedEvent)
    → SameMembers (replay_order (xs ++ ys)) (replay_order xs ++ replay_order ys)
replay_order-append xs ys e = (apart, joined)
  where
    apart : In e (replay_order (xs ++ ys)) → In e (replay_order xs ++ replay_order ys)
    apart i = elim (In-append e xs ys ((replay_order-SameMembers (xs ++ ys) e).1 i)) [
      | inl left ↦
          In-append_left e (replay_order xs) (replay_order ys)
            ((replay_order-SameMembers xs e).0 left)
      | inr right ↦
          In-append_right e (replay_order xs) (replay_order ys)
            ((replay_order-SameMembers ys e).0 right)
    ]

    joined : In e (replay_order xs ++ replay_order ys) → In e (replay_order (xs ++ ys))
    joined i =
        (replay_order-SameMembers (xs ++ ys) e).0
          (elim (In-append e (replay_order xs) (replay_order ys) i) [
            | inl left ↦ In-append_left e xs ys ((replay_order-SameMembers xs e).1 left)
            | inr right ↦ In-append_right e xs ys ((replay_order-SameMembers ys e).1 right)
          ])

larger_assoc : (a b c : ℕ) → larger (larger a b) c ≡ larger a (larger b c)
larger_assoc a b c = ground arith

marked_again :
    (p q : Bool) (x : ℕ) → (if q then 1 else if p then 1 else x) ≡ (if p || q then 1 else x)
marked_again p q x = ground arith

module _ {Map : Type 0} ⦃m : MerkleMaps Map⦄ ⦃o : Platform⦄ ⦃n : Numerals⦄ ⦃e : Encoding⦄
    ⦃r : TextReader⦄ where
  -- Where a map holds what was set and its root depends on its values: events that are applied on
  -- top of stores rebuilt from others give maps with the same values and roots as a rebuild from
  -- all of them at once, which does not fail either.
  pub rebuild_stores-append :
      MapLaws m
      → (earlier later : List IndexedEvent) (known stores : RebuiltStores Map)
      → rebuild_stores earlier none ≡ ok known
      → rebuild_stores later (some known) ≡ ok stores
      → (whole : RebuiltStores Map) × (rebuild_stores (earlier ++ later) none ≡ ok whole)
        × SameMaps stores whole
  unfolding get_count initial_stores
  rebuild_stores-append laws earlier later known stores first second =
      let tracked = new_nullifier_store-Tracked Map m in
      let a = rebuild_stores-Rebuilt laws earlier none known tracked first in
      let b = rebuild_stores-Rebuilt laws later (some known) stores a.tracked second in
      let order = replay_order-append earlier later in
      let readable =
        any-SameMembers is_unreadable (replay_order (earlier ++ later))
          (replay_order earlier ++ replay_order later) order
        ∙ any-append is_unreadable (replay_order earlier) (replay_order later)
        ∙ ap (λ x. x || any is_unreadable (replay_order later)) a.readable
        ∙ b.readable in
      let (whole, found) = rebuild_stores-total laws (earlier ++ later) none readable in
      let c = rebuild_stores-Rebuilt laws (earlier ++ later) none whole tracked found in
      let counts : ((k : Field)
          → get_count stores.approval_store k ≡ get_count whole.approval_store k) =
        λ k.
          b.counts k
          ∙ ap (λ x. larger x (highest (replay_order later) k)) (a.counts k)
          ∙ larger_assoc (m.get m.fresh k) (highest (replay_order earlier) k)
              (highest (replay_order later) k)
          ∙ ap (larger (m.get m.fresh k)) (
              sym (
                highest-SameMembers (replay_order (earlier ++ later))
                  (replay_order earlier ++ replay_order later) k order
                ∙ highest-append (replay_order earlier) (replay_order later) k))
          ∙ sym (c.counts k) in
      let votes : ((k : Field)
          → m.get stores.nullifier_store.map k ≡ m.get whole.nullifier_store.map k) =
        λ k.
          b.votes k
          ∙ ap (λ x. if any (event_marks k) (replay_order later) then 1 else x) (a.votes k)
          ∙ marked_again (any (event_marks k) (replay_order earlier))
              (any (event_marks k) (replay_order later)) (m.get m.fresh k)
          ∙ ap (λ x. if x then 1 else m.get m.fresh k)
              (sym (
                any-SameMembers (event_marks k) (replay_order (earlier ++ later))
                  (replay_order earlier ++ replay_order later) order
                ∙ any-append (event_marks k) (replay_order earlier) (replay_order later)))
          ∙ sym (c.votes k) in
      (
        whole,
        found,
        (
          counts,
          votes,
          laws.same_root stores.approval_store.map whole.approval_store.map counts,
          laws.same_root stores.nullifier_store.map whole.nullifier_store.map votes,
        ),
      )
