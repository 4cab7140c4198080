-- ===== src/Rebuild/Owners.antt =====
-- contracts/src/event-rebuild.ts: the owner list rebuilt from the setup slots and the owner changes. A
-- `Map` is the list of its entries in the order of insertion.
use Prim.Native.String.{◌++◌ as joined}
use text.Mathlib.Text.{◌==◌ as str_eq}
use mina_guard.Base.{
  ℕ, String, Bool, false, not, Option, none, some, List, [], ◌∷◌, ◌++◌, map, any, ◌&&◌, ◌||◌, ◌==◌,
  leb, if◌then◌else◌,
}
use mina_guard.Platform.{PublicKey, Platform}
use mina_guard.Platform.Maps.{Numerals}
use mina_guard.Storage.{Encoding, add_sorted, remove, insert_position_for, inserted_at}
use mina_guard.Rebuild.{
  truth_value, IndexedEvent, TextReader, field, property, public_key, has_type,
}

-- `xs.sort((a, b) => key(a) - key(b))`, which is stable.
abbrev pub insert_by {ℓ} : {A : Type ℓ} → (A → ℕ) → A → List A → List A
insert_by key a [] = a ∷ []
insert_by key a (x ∷ xs) =
    let rest = insert_by key a xs in if leb (key a) (key x) then a ∷ x ∷ xs else x ∷ rest

abbrev pub sort_by {ℓ} : {A : Type ℓ} → (A → ℕ) → List A → List A
sort_by key [] = []
sort_by key (x ∷ xs) = insert_by key x (sort_by key xs)

-- The slots and the owners without an index that the setup events leave.
abbrev Slots : Type 0
Slots = List (ℕ × PublicKey) × List PublicKey

-- `text ?? ''`, which is how `join` writes null.
abbrev pub or_empty : Option String → String
or_empty none = ""
or_empty (some text) = text

module _ ⦃r : TextReader⦄ where
  abbrev pub add_slot : IndexedEvent → PublicKey → Slots → Slots
  add_slot e owner (slots, unindexed) = elim (field e.payload "index") [
    | none ↦ (slots, unindexed ++ owner ∷ [])
    | some text ↦
        let index = r.number_of text in
        if any (λ s. s.0 == index) slots
        then (slots, unindexed)
        else (slots ++ (index, owner) ∷ [], unindexed)
  ]

  abbrev pub collect_slots : List IndexedEvent → Slots → Slots
  collect_slots [] found = found
  collect_slots (e ∷ events) found = collect_slots events (
      if has_type "setupOwner" e
      then elim (public_key e.payload "owner") [
        | none ↦ found
        | some owner ↦ add_slot e owner found
      ]
      else found)

  abbrev pub add_all_sorted : ⦃e : Encoding⦄ → List PublicKey → List PublicKey → List PublicKey
  add_all_sorted [] owners = owners
  add_all_sorted (k ∷ ks) owners = add_all_sorted ks (add_sorted k owners)

  -- The owner list of the setup.
  unfoldable pub setup_owners : ⦃e : Encoding⦄ → List IndexedEvent → List PublicKey
  setup_owners events =
      let (slots, unindexed) = collect_slots events ([], []) in
      elim slots [
        | [] ↦ add_all_sorted unindexed []
        | s ∷ rest ↦ map (λ x. x.1) (sort_by (λ x. x.0) (s ∷ rest))
      ]

  -- `Number(field(e.payload, 'configNonce'))`, which is 0 for null. The number of a numeral is
  -- finite, so the source's other case does not occur.
  unfoldable pub nonce_of : IndexedEvent → ℕ
  nonce_of e = elim (field e.payload "configNonce") [ none ↦ 0 | some text ↦ r.number_of text ]

unfoldable pub change_key : IndexedEvent → String
change_key e = joined (or_empty (field e.payload "configNonce")) (
    joined "|" (
      joined (or_empty (field e.payload "owner"))
        (joined "|" (or_empty (field e.payload "added")))))

abbrev pub is_owner_change : IndexedEvent → Bool
is_owner_change e = has_type "ownerChange" e || has_type "ownerChangeBatch" e

-- The first event of every key, `seen` being the keys so far.
unfoldable pub owner_changes : List IndexedEvent → List String → List IndexedEvent
owner_changes [] seen = []
owner_changes (e ∷ events) seen =
    let key = change_key e in
    let is_new = is_owner_change e && not (any (λ k. str_eq k key) seen) in
    let rest = owner_changes events (if is_new then key ∷ seen else seen) in
    if is_new then e ∷ rest else rest

unfoldable pub is_addition : IndexedEvent → Bool
is_addition e =
    elim (field e.payload "added") [ none ↦ false | some text ↦ str_eq text "1" ]
    || elim (property e.payload "added") [ some (truth_value b) ↦ b | _ ↦ false ]

module _ ⦃o : Platform⦄ ⦃n : Numerals⦄ ⦃e : Encoding⦄ ⦃r : TextReader⦄ where
  -- `insertPositionFor` on a text: what is not the text of a field element is no commitment.
  abbrev pub position_for : PublicKey → String → List PublicKey → Option ℕ
  position_for owner text owners = elim (n.field_of text) [
    | none ↦ none
    | some target ↦
        if str_eq (n.field_text target) text then insert_position_for owner target owners else none
  ]

  unfoldable pub add_owner : IndexedEvent → PublicKey → List PublicKey → List PublicKey
  add_owner event owner owners =
      let position : Option ℕ = elim (field event.payload "newOwnersCommitment") [
        | none ↦ none
        | some text ↦ position_for owner text owners
      ] in
      elim position [ none ↦ add_sorted owner owners | some i ↦ inserted_at i owner owners ]

  unfoldable pub apply_change : IndexedEvent → List PublicKey → List PublicKey
  apply_change event owners = elim (public_key event.payload "owner") [
    | none ↦ owners
    | some owner ↦ if is_addition event then add_owner event owner owners else remove owner owners
  ]

  unfoldable pub apply_changes : List IndexedEvent → List PublicKey → List PublicKey
  apply_changes [] owners = owners
  apply_changes (event ∷ events) owners = apply_changes events (apply_change event owners)

  unfoldable pub rebuild_owners : List IndexedEvent → Option (List PublicKey) → List PublicKey
  rebuild_owners events initial =
      apply_changes (sort_by nonce_of (owner_changes events []))
        (elim initial [ none ↦ setup_owners events | some owners ↦ owners ])
