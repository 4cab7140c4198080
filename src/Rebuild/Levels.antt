-- ===== src/Rebuild/Levels.antt =====
-- contracts/src/event-rebuild.ts: what one event does to the values of the maps, apart from what they
-- hold already.
use mina_guard.Base.{
  ℕ, ◌≡◌, Bool, false, Option, none, some, ◌||◌, ◌==◌, ltb, Result, ok, ◌>>=◌, if◌then◌else◌,
  Bool-cases, Option-cases, Result-cases, inl, inr, refl, arith,
}
use mina_guard.Platform.{Field, PublicKey, Platform}
use mina_guard.Platform.Maps.{MerkleMaps, MapLaws, Numerals}
use mina_guard.Constants.{executed_marker}
use mina_guard.Hashes.{vote_nullifier_key}
use mina_guard.Storage.Maps.{ApprovalStore, VoteNullifierStore, get_count, nullify}
use mina_guard.Storage.Maps.Counts.{Tracked, get_count-set_count, get-nullify, nullify-Tracked}
use mina_guard.Rebuild.{
  IndexedEvent, TextReader, field, public_key, has_type, is_local_execution, read_field, vote_count,
  raise_to, nullify_voter, apply_for, apply_map_event,
}

-- An entry to raise, and an entry to mark.
pub record Effect : Type 0 where
  pub raises : Option (Field × Field)
  pub marks : Option (Field × PublicKey)

abbrev pub larger : ℕ → ℕ → ℕ
larger a b = if ltb a b then b else a

-- What an effect raises the count of `k` to at least.
abbrev pub level : Effect → Field → ℕ
level f k = elim f.raises [ none ↦ 0 | some (hash, value) ↦ if hash == k then value else 0 ]

abbrev pub marks_key : ⦃o : Platform⦄ → Effect → Field → Bool
marks_key f k = elim f.marks [
  | none ↦ false
  | some (hash, voter) ↦ vote_nullifier_key hash voter == k
]

module _ ⦃o : Platform⦄ ⦃n : Numerals⦄ ⦃r : TextReader⦄ where
  abbrev pub voter_of : IndexedEvent → Option PublicKey
  voter_of e = public_key e.payload (if has_type "proposal" e then "proposer" else "approver")

  abbrev pub mark_of : Field → Option PublicKey → Option (Field × PublicKey)
  mark_of hash none = none
  mark_of hash (some voter) = some (hash, voter)

  abbrev pub effect_for : IndexedEvent → Field → Result Effect
  effect_for e hash =
      if has_type "proposal" e || has_type "approval" e
      then (do
        count ← vote_count e
        ok (record { raises = some (hash, count); marks = mark_of hash (voter_of e) }))
      else if is_local_execution e
      then ok (record { raises = some (hash, executed_marker); marks = none })
      else ok (record { raises = none; marks = none })

  unfoldable pub effect : IndexedEvent → Result Effect
  effect e = elim (field e.payload "proposalHash") [
    | none ↦ ok (record { raises = none; marks = none })
    | some text ↦ do hash ← read_field text; effect_for e hash
  ]

  module _ {Map : Type 0} ⦃m : MerkleMaps Map⦄ where
    abbrev pub raise_by : Option (Field × Field) → ApprovalStore Map → ApprovalStore Map
    raise_by none a = a
    raise_by (some (hash, value)) a = raise_to a hash value

    abbrev pub mark_by :
        Option (Field × PublicKey) → VoteNullifierStore Map → VoteNullifierStore Map
    mark_by none v = v
    mark_by (some (hash, voter)) v = nullify v hash voter

    nullify_voter-mark_by :
        (e : IndexedEvent) (hash : Field) (v : VoteNullifierStore Map)
        → nullify_voter e hash v ≡ mark_by (mark_of hash (voter_of e)) v
    unfolding nullify_voter
    nullify_voter-mark_by e hash v = elim (Option-cases (voter_of e)) [
      | inl nobody ↦ rw (nullify_voter, nobody) refl
      | inr (voter, found) ↦ rw (nullify_voter, found) refl
    ]

    apply_for-effect_for :
        (e : IndexedEvent) (hash : Field) (a : ApprovalStore Map) (v : VoteNullifierStore Map)
        → apply_for e hash a v
          ≡ (effect_for e hash >>= λ f. ok (raise_by f.raises a, mark_by f.marks v))
    unfolding apply_for
    apply_for-effect_for e hash a v =
        elim (Bool-cases (has_type "proposal" e || has_type "approval" e)) [
          | inl vote ↦ elim (Result-cases (vote_count e)) [
            | inl (message, failed) ↦ rw (vote, failed) refl
            | inr (count, read) ↦ rw (vote, read, nullify_voter-mark_by e hash v) refl
          ]
          | inr other ↦ elim (Bool-cases (is_local_execution e)) [
            | inl run ↦ rw (other, run) refl
            | inr rest ↦ rw (other, rest) refl
          ]
        ]

    -- The code reads an event without a look at the maps, and then changes at most an entry of each.
    pub apply_map_event-effect :
        (e : IndexedEvent) (a : ApprovalStore Map) (v : VoteNullifierStore Map)
        → apply_map_event e a v ≡ (effect e >>= λ f. ok (raise_by f.raises a, mark_by f.marks v))
    unfolding apply_map_event effect
    apply_map_event-effect e a v = elim (Option-cases (field e.payload "proposalHash")) [
      | inl absent ↦ rw (apply_map_event, effect, absent) refl
      | inr (text, found) ↦ elim (Result-cases (read_field text)) [
        | inl (message, failed) ↦ rw (apply_map_event, effect, found, failed) refl
        | inr (hash, read) ↦
            rw (apply_map_event, effect, found, read) (apply_for-effect_for e hash a v)
      ]
    ]

    module _ (laws : MapLaws m) where
      pub get_count-raise_by :
          (f : Effect) (a : ApprovalStore Map) (k : Field)
          → get_count (raise_by f.raises a) k ≡ larger (get_count a k) (level f k)
      unfolding raise_to
      get_count-raise_by f a k = elim (Option-cases f.raises) [
        | inl nothing ↦ ground arith
        | inr ((hash, value), raises) ↦ ground (arith, get_count-set_count laws a hash value k)
      ]

      pub get-mark_by :
          (f : Effect) (v : VoteNullifierStore Map) (k : Field)
          → Tracked v
          → m.get (mark_by f.marks v).map k ≡ (if marks_key f k then 1 else m.get v.map k)
      get-mark_by f v k tracked = elim (Option-cases f.marks) [
        | inl nothing ↦ ground arith
        | inr ((hash, voter), marks) ↦ ground (arith, get-nullify laws v hash voter k tracked)
      ]

      pub mark_by-Tracked :
          (f : Effect) (v : VoteNullifierStore Map) → Tracked v → Tracked (mark_by f.marks v)
      mark_by-Tracked f v tracked = elim (Option-cases f.marks) [
        | inl nothing ↦ rw nothing tracked
        | inr ((hash, voter), marks) ↦ rw marks (nullify-Tracked laws v hash voter tracked)
      ]
