-- ===== src/Storage/Maps/RoundTrip.antt =====
-- `class ApprovalStore` and `class VoteNullifierStore`: serialization and back.
use text.Mathlib.TextEquality.{eq_iff}
use mina_guard.Base.{
  ◌≡◌, Bool, true, false, List, [], ◌∷◌, ◌++◌, map, any, ◌==◌, ==_iff, ==-refl, false≢true, ◌||◌,
  ok, Bool-cases, inl, inr, refl, ◌∙◌, sym, ap, if◌then◌else◌, arith,
}
use mina_guard.Platform.{Field}
use mina_guard.Platform.Maps.{MerkleMaps, MapLaws, Numerals, NumeralLaws}
use mina_guard.Storage.Maps.{
  ApprovalStore, VoteNullifierStore, has_key, is_numeral, new_nullifier_store, nullifier_key_of,
  nullifiers_from, serialize_map, deserialize_from, serialize_approvals, deserialize_approvals,
  serialize_nullifiers, deserialize_nullifiers,
}
use mina_guard.Storage.Maps.Counts.{Tracked, Covered, has_key-append}

-- No key is tracked twice.
abbrev pub Unique : List Field → Type 0
Unique [] = Unit
Unique (k ∷ keys) = (has_key k keys ≡ false) × Unique keys

pub Unique-append :
    (keys : List Field) (key : Field)
    → has_key key keys ≡ false
    → Unique keys
    → Unique (keys ++ key ∷ [])
Unique-append [] key absent unique = (refl, tt)
Unique-append (k ∷ keys) key absent unique =
    let other : ((key == k) ≡ false) = ground arith in
    (has_key-append k key keys ∙ ground arith, Unique-append keys key (ground arith) unique.1)

has_key_eq : (j k : Field) (keys : List Field) → (k == j) ≡ true → has_key j keys ≡ has_key k keys
has_key_eq j k keys same = ap (λ x. has_key x keys) (sym ((==_iff k j).0 same))

has_key-cons : (j k : Field) (keys : List Field) → (k == j) ≡ true → has_key j (k ∷ keys) ≡ true
has_key-cons j k keys same = rw (any, same) refl

has_key-later :
    (j k : Field) (keys : List Field) → has_key j keys ≡ true → has_key j (k ∷ keys) ≡ true
has_key-later j k keys found = ground arith

module _ {Map : Type 0} ⦃m : MerkleMaps Map⦄ ⦃n : Numerals⦄ (laws : MapLaws m)
    (numerals : NumeralLaws n) where
  written_value :
      (map start : Map) (k j : Field) (later : Bool)
      → (if later then m.get map j else m.get (m.set start k (m.get map k)) j)
        ≡ (if (k == j) || later then m.get map j else m.get start j)
  written_value map start k j later =
      let put = laws.get-set start k (m.get map k) j in
      elim (Bool-cases (k == j)) [
        | inl same ↦ let here = ap (m.get map) ((==_iff k j).0 same) in ground arith
        | inr other ↦ ground arith
      ]

  deserialize-serialize :
      (map : Map) (keys : List Field) (start : Map) (known : List Field)
      → (store : ApprovalStore Map) × (deserialize_from (serialize_map map keys) start known
          ≡ ok store)
        × ((j : Field)
            → m.get store.map j ≡ (if has_key j keys then m.get map j else m.get start j))
  unfolding serialize_map deserialize_from
  deserialize-serialize map [] start known = (record { map = start; keys = known }, refl, λ j. refl)
  deserialize-serialize map (k ∷ keys) start known = elim (Bool-cases (has_key k keys)) [
    | inl again ↦
        let (store, done, values) = deserialize-serialize map keys start known in
        (
          store,
          rw (serialize_map, again) done,
          (λ j. values j ∙ ground (arith, has_key_eq j k keys)),
        )
    | inr once ↦
        let (store, done, values) =
          deserialize-serialize map keys (m.set start k (m.get map k)) (known ++ k ∷ []) in
        (
          store,
          rw
              (
                serialize_map,
                once,
                deserialize_from,
                numerals.reads_back k,
                numerals.reads_back (m.get map k),
              )
              done,
          (λ j. values j ∙ written_value map start k j (has_key j keys)),
        )
  ]

  -- A store of counts reads back with the same counts.
  pub deserialize_approvals-serialize_approvals :
      (store : ApprovalStore Map)
      → Covered store
      → (again : ApprovalStore Map) × (deserialize_approvals (serialize_approvals store) ≡ ok again)
        × ((j : Field) → m.get again.map j ≡ m.get store.map j)
  unfolding deserialize_approvals serialize_approvals
  deserialize_approvals-serialize_approvals store covered =
      let (again, done, values) = deserialize-serialize store.map store.keys m.fresh [] in
      (again, done, (λ j. values j ∙ ground (arith, covered j, laws.get-fresh j)))

  module _ (decimal : (f : Field) → is_numeral (n.field_text f) ≡ true) where
    nullifier_key_of-field_text : (k : Field) → nullifier_key_of (n.field_text k) ≡ ok k
    unfolding nullifier_key_of
    nullifier_key_of-field_text k =
        rw
          (
            nullifier_key_of,
            decimal k,
            numerals.reads_back k,
            (eq_iff (n.field_text k) (n.field_text k)).1 refl,
          )
          refl

    marked_value :
        (start : Map) (k j : Field) (later : Bool)
        → (if later then 1 else m.get (m.set start k 1) j)
          ≡ (if (k == j) || later then 1 else m.get start j)
    marked_value start k j later = ground (arith, laws.get-set start k 1 j)

    -- Keys that are not tracked yet, each once, are all marked.
    nullifiers_from-map :
        (keys : List Field) (start : VoteNullifierStore Map)
        → Unique keys
        → ((j : Field) → has_key j keys ≡ true → has_key j start.keys ≡ false)
        → (store : VoteNullifierStore Map) × (nullifiers_from (map (λ k. n.field_text k) keys) start
            ≡ ok store)
          × ((j : Field) → m.get store.map j ≡ (if has_key j keys then 1 else m.get start.map j))
    unfolding nullifiers_from
    nullifiers_from-map [] start unique apart = (start, refl, λ j. refl)
    nullifiers_from-map (k ∷ keys) start unique apart =
        let next : VoteNullifierStore Map = record {
          map = m.set start.map k 1;
          keys = start.keys ++ k ∷ [];
        } in
        let untracked : (has_key k start.keys ≡ false) =
          apart k (has_key-cons k k keys (==-refl k)) in
        let still_apart : ((j : Field)
            → has_key j keys ≡ true
            → has_key j (start.keys ++ k ∷ []) ≡ false) =
          λ j found. has_key-append j k start.keys ∙ elim (Bool-cases (k == j)) [
            | inl same ↦ absurd (false≢true (sym unique.0 ∙ sym (has_key_eq j k keys same) ∙ found))
            | inr other ↦ let before = apart j (has_key-later j k keys found) in ground arith
          ] in
        let (store, done, values) = nullifiers_from-map keys next unique.1 still_apart in
        (
          store,
          rw (nullifiers_from, nullifier_key_of-field_text k, untracked) done,
          (λ j. values j ∙ marked_value start.map k j (has_key j keys)),
        )

    -- A store of nullifiers reads back with the same marks.
    pub deserialize_nullifiers-serialize_nullifiers :
        (store : VoteNullifierStore Map)
        → Unique store.keys
        → Tracked store
        → ((k : Field) → has_key k store.keys ≡ false → m.get store.map k ≡ 0)
        → (again : VoteNullifierStore Map) × (deserialize_nullifiers (serialize_nullifiers store)
            ≡ ok again)
          × ((j : Field) → m.get again.map j ≡ m.get store.map j)
    unfolding deserialize_nullifiers serialize_nullifiers
    deserialize_nullifiers-serialize_nullifiers store unique tracked covered =
        let (again, done, values) =
          nullifiers_from-map store.keys new_nullifier_store unique (λ j found. refl) in
        (again, done, (λ j. values j ∙ ground (arith, tracked j, covered j, laws.get-fresh j)))
