-- ===== src/Examples/Rebuilding.antt =====
-- The theorems on the rebuilt stores at concrete inputs.
use mina_guard.Base.{
  ℕ, ◌≡◌, ap, refl, Bool, true, false, Option, none, some, List, [], ◌∷◌, ◌++◌, map, In,
  SameMembers, In-append_left, In-append, Result, ok, err, inl, inr, false≢true, arith,
}
use mina_guard.Platform.{Field, fadd, fsub}
use mina_guard.Constants.{executed_marker}
use mina_guard.Storage.Maps.{get_count, set_count, nullify}
use mina_guard.Storage.Maps.Counts.{new_nullifier_store-Tracked}
use mina_guard.Guard.{Event}
use mina_guard.Rebuild.{
  IndexedEvent, text_value, field, public_key, is_execution, vote_count, raise_to, nullify_voter,
  apply_for, apply_map_event, apply_map_events,
}
use mina_guard.Rebuild.Stores.{
  RebuiltStores, emitted_roots, note_divergence, replay_blocks, initial_stores, rebuild_stores,
}
use mina_guard.Rebuild.Unordered.{SameMaps, rebuild_stores-SameMembers}
use mina_guard.Rebuild.Incremental.{rebuild_stores-append}
use mina_guard.Rebuild.Mirrors.{emitted}
use mina_guard.Rebuild.Emitted.{serve}
use mina_guard.Rebuild.History.{rebuild_stores-Run}
use mina_guard.Examples.Ideal.{ideal, ideal-HashLaws, ideal-MerkleLaws, ideal-SignerLaws}
use mina_guard.Examples.Session.{state3}
use mina_guard.Examples.Store.{tally, strokes}
use mina_guard.Examples.Readers.{
  value_maps, value_maps-MapLaws, stroke_numerals, stroke_numerals-NumeralLaws, tally_reader,
  tally_reader-ReaderLaws,
}
use mina_guard.Examples.Witnesses.{run3, initialized3}

-- Every event with the height of one block.
abbrev at_seven : List Event → List (Option ℕ × Event)
at_seven [] = []
at_seven (ev ∷ evs) = (some 7, ev) ∷ at_seven evs

at_seven_lem : (evs : List Event) → map (λ x. x.1) (at_seven evs) ≡ evs
at_seven_lem [] = refl
at_seven_lem (ev ∷ evs) = ap (λ xs. ev ∷ xs) (at_seven_lem evs)

-- The history's events, delivered twice.
abbrev delivered : List IndexedEvent
delivered = serve (at_seven (emitted run3)) ++ serve (at_seven (emitted run3))

twice-SameMembers : (xs : List IndexedEvent) → SameMembers (xs ++ xs) xs
twice-SameMembers xs e = (
  (λ i. elim (In-append e xs xs i) [ inl left ↦ left | inr right ↦ right ]),
  In-append_left e xs xs,
)

rebuild_stores-Run_example :
    (stores : RebuiltStores (Field → Field)) × (rebuild_stores delivered none ≡ ok stores)
    × (f : Field → Field) × ideal-MerkleLaws.IsRoot state3.approval_root f
    × ((j : Field) → get_count stores.approval_store j ≡ f j)
    × (g : Field → Field) × ideal-MerkleLaws.IsRoot state3.vote_nullifier_root g
    × ((j : Field) → value_maps.get stores.nullifier_store.map j ≡ g j)
rebuild_stores-Run_example =
    rebuild_stores-Run stroke_numerals-NumeralLaws tally_reader-ReaderLaws value_maps-MapLaws
      ideal-HashLaws ideal-MerkleLaws ideal-SignerLaws (omega arith) run3 initialized3
      (at_seven (emitted run3)) delivered (at_seven_lem (emitted run3))
      (twice-SameMembers (serve (at_seven (emitted run3))))

-- The first approval of a hash, and its execution.
abbrev pub first_approval : IndexedEvent
first_approval = record {
  event_type = "approval";
  payload = ("proposalHash", text_value "11111") ∷ ("approvalCount", text_value "111") ∷ [];
  block_height = some 3;
}

abbrev pub later_execution : IndexedEvent
later_execution = record {
  event_type = "execution";
  payload = ("proposalHash", text_value "11111") ∷ ("txType", text_value "1") ∷ [];
  block_height = some 4;
}

abbrev pub in_order : List IndexedEvent
in_order = first_approval ∷ later_execution ∷ []

abbrev pub out_of_order : List IndexedEvent
out_of_order = later_execution ∷ first_approval ∷ later_execution ∷ []

orders : SameMembers in_order out_of_order
orders e = (there, back)
  where
    there : In e in_order → In e out_of_order
    there (inl a) = inr (inl a)
    there (inr (inl b)) = inl b
    there (inr (inr none_left)) = elim none_left [ ]

    back : In e out_of_order → In e in_order
    back (inl b) = inr (inl b)
    back (inr (inl a)) = inl a
    back (inr (inr (inl b))) = inr (inl b)
    back (inr (inr (inr none_left))) = elim none_left [ ]

abbrev pub stores_of : Result (RebuiltStores (Field → Field)) → RebuiltStores (Field → Field)
stores_of (err _) = initial_stores none
stores_of (ok stores) = stores

abbrev pub is_ok : Result (RebuiltStores (Field → Field)) → Bool
is_ok (err _) = false
is_ok (ok stores) = true

pub is_ok_lem : (r : Result (RebuiltStores (Field → Field))) → is_ok r ≡ true → r ≡ ok (stores_of r)
is_ok_lem (err _) h = absurd (false≢true h)
is_ok_lem (ok stores) h = refl

pub rebuilds : is_ok (rebuild_stores in_order none) ≡ true
unfolding rebuild_stores initial_stores replay_blocks note_divergence emitted_roots apply_map_events
    apply_map_event apply_for nullify_voter raise_to vote_count field public_key is_execution
    stroke_numerals value_maps tally_reader ideal get_count set_count nullify strokes fadd fsub
    executed_marker
rebuilds = refl

rebuild_stores-SameMembers_example :
    (again : RebuiltStores (Field → Field)) × (rebuild_stores out_of_order none ≡ ok again)
    × SameMaps (stores_of (rebuild_stores in_order none)) again
unfolding initial_stores
rebuild_stores-SameMembers_example =
    rebuild_stores-SameMembers value_maps-MapLaws in_order out_of_order none
      (stores_of (rebuild_stores in_order none)) (new_nullifier_store-Tracked _ value_maps) orders
      (is_ok_lem (rebuild_stores in_order none) rebuilds)

first_rebuilds : is_ok (rebuild_stores (first_approval ∷ []) none) ≡ true
unfolding rebuild_stores initial_stores replay_blocks note_divergence emitted_roots apply_map_events
    apply_map_event apply_for nullify_voter raise_to vote_count field public_key is_execution
    stroke_numerals value_maps tally_reader ideal get_count set_count nullify strokes fadd fsub
    executed_marker
first_rebuilds = refl

abbrev after_first : RebuiltStores (Field → Field)
after_first = stores_of (rebuild_stores (first_approval ∷ []) none)

rest_rebuilds : is_ok (rebuild_stores (later_execution ∷ []) (some after_first)) ≡ true
unfolding rebuild_stores initial_stores replay_blocks note_divergence emitted_roots apply_map_events
    apply_map_event apply_for nullify_voter raise_to vote_count field public_key is_execution
    stroke_numerals value_maps tally_reader ideal get_count set_count nullify strokes fadd fsub
    executed_marker
rest_rebuilds = refl

rebuild_stores-append_example :
    (whole : RebuiltStores (Field → Field)) × (rebuild_stores in_order none ≡ ok whole)
    × SameMaps (stores_of (rebuild_stores (later_execution ∷ []) (some after_first))) whole
rebuild_stores-append_example =
    rebuild_stores-append value_maps-MapLaws (first_approval ∷ []) (later_execution ∷ [])
      after_first (stores_of (rebuild_stores (later_execution ∷ []) (some after_first)))
      (is_ok_lem (rebuild_stores (first_approval ∷ []) none) first_rebuilds)
      (is_ok_lem (rebuild_stores (later_execution ∷ []) (some after_first)) rest_rebuilds)
