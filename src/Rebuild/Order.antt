-- ===== src/Rebuild/Order.antt =====
-- contracts/src/event-rebuild.ts, `rebuildStores`: the order in which the events are applied, and the
-- maps that result.
use mina_guard.Base.{
  ℕ, ◌≡◌, some, List, [], ◌∷◌, ◌++◌, In, SameMembers, In-append_left, In-append_right, In-append,
  In-filter, mem_of_filter, filter, ◌==◌, ltb, Bool-cases, Option-cases, inl, inr, refl, ◌∙◌, sym,
  ap, ==-refl, ==_iff,
}
use mina_guard.Rebuild.{IndexedEvent}
use mina_guard.Rebuild.Stores.{is_unplaced, is_in_block, insert_height, block_heights}

abbrev pub blocks_of : List IndexedEvent → List ℕ → List IndexedEvent
blocks_of events [] = []
blocks_of events (h ∷ heights) = filter (is_in_block h) events ++ blocks_of events heights

-- The events in the order in which they are applied.
abbrev pub replay_order : List IndexedEvent → List IndexedEvent
replay_order events = filter is_unplaced events ++ blocks_of events (block_heights events)

In-insert_height : (h : ℕ) (heights : List ℕ) → In h (insert_height h heights)
In-insert_height h [] = inl refl
In-insert_height h (x ∷ xs) = elim (Bool-cases (ltb h x)) [
  | inl before ↦ rw (insert_height, before) (inl refl)
  | inr after ↦ elim (Bool-cases (h == x)) [
    | inl same ↦ rw (insert_height, after, same) (inl ((==_iff h x).0 same))
    | inr other ↦ rw (insert_height, after, other) (inr (In-insert_height h xs))
  ]
]

In-insert_height_kept : (h k : ℕ) (heights : List ℕ) → In k heights → In k (insert_height h heights)
In-insert_height_kept h k [] i = elim i [ ]
In-insert_height_kept h k (x ∷ xs) i = elim (Bool-cases (ltb h x)) [
  | inl before ↦ rw (insert_height, before) (inr i)
  | inr after ↦ elim (Bool-cases (h == x)) [
    | inl same ↦ rw (insert_height, after, same) i
    | inr other ↦
        rw (insert_height, after, other)
          (elim i [ inl here ↦ inl here | inr later ↦ inr (In-insert_height_kept h k xs later) ])
  ]
]

In-block_heights :
    (e : IndexedEvent) (h : ℕ) (events : List IndexedEvent)
    → In e events
    → e.block_height ≡ some h
    → In h (block_heights events)
In-block_heights e h [] i placed = elim i [ ]
In-block_heights e h (x ∷ xs) (inl same) placed =
    rw (block_heights, ap (λ y. y.block_height) (sym same) ∙ placed)
      (In-insert_height h (block_heights xs))
In-block_heights e h (x ∷ xs) (inr i) placed = elim (Option-cases x.block_height) [
  | inl unplaced ↦ rw (block_heights, unplaced) (In-block_heights e h xs i placed)
  | inr (k, there) ↦
      rw (block_heights, there)
        (In-insert_height_kept k h (block_heights xs) (In-block_heights e h xs i placed))
]

In-blocks_of :
    (e : IndexedEvent) (h : ℕ) (events : List IndexedEvent) (heights : List ℕ)
    → In e events
    → e.block_height ≡ some h
    → In h heights
    → In e (blocks_of events heights)
In-blocks_of e h events [] i placed there = elim there [ ]
In-blocks_of e h events (k ∷ ks) i placed (inl here) =
    In-append_left e _ (blocks_of events ks)
      (In-filter (is_in_block k) e events i (rw (placed, here) (==-refl k)))
In-blocks_of e h events (k ∷ ks) i placed (inr later) =
    In-append_right e (filter (is_in_block k) events) _ (In-blocks_of e h events ks i placed later)

mem_of_blocks_of :
    (e : IndexedEvent) (events : List IndexedEvent) (heights : List ℕ)
    → In e (blocks_of events heights)
    → In e events
mem_of_blocks_of e events [] i = elim i [ ]
mem_of_blocks_of e events (h ∷ hs) i =
    elim (In-append e (filter (is_in_block h) events) (blocks_of events hs) i) [
      | inl here ↦ mem_of_filter (is_in_block h) e events here
      | inr later ↦ mem_of_blocks_of e events hs later
    ]

-- No event is lost or made up.
pub replay_order-SameMembers :
    (events : List IndexedEvent) → SameMembers events (replay_order events)
replay_order-SameMembers events e = (kept, known)
  where
    kept : In e events → In e (replay_order events)
    kept i = elim (Option-cases e.block_height) [
      | inl unplaced ↦
          In-append_left e (filter is_unplaced events) _
            (In-filter is_unplaced e events i (rw unplaced refl))
      | inr (h, placed) ↦ In-append_right e (filter is_unplaced events) _ (
          In-blocks_of e h events (block_heights events) i placed
            (In-block_heights e h events i placed))
    ]

    known : In e (replay_order events) → In e events
    known i = elim (In-append e (filter is_unplaced events) _ i) [
      | inl unplaced ↦ mem_of_filter is_unplaced e events unplaced
      | inr placed ↦ mem_of_blocks_of e events (block_heights events) placed
    ]
