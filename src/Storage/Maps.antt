-- ===== src/Storage/Maps.antt =====
-- The two stores behind the Merkle roots, contracts/src/storage.ts: `class ApprovalStore`,
-- `class VoteNullifierStore` and their serialization. A tracked key stands for its decimal text; the
-- `entries` object of the JSON form is the list of its properties.
pub mod Counts
pub mod RoundTrip
use text.Mathlib.Text.{◌==◌ as str_eq}
use Prim.Native.Char.{Char, code}
use mina_guard.Base.{
  String, ◌≡◌, Bool, true, false, not, List, [], ◌∷◌, ◌++◌, map, any, ◌==◌, leb, ◌&&◌, ◌||◌, Result,
  ok, require, forbid, or_throw, ◌>>=◌, ◌>>◌, if◌then◌else◌,
}
use mina_guard.Platform.{Field, PublicKey, Platform}
use mina_guard.Platform.Maps.{MerkleMaps, Numerals}
use mina_guard.Constants.{executed_marker}
use mina_guard.Hashes.{vote_nullifier_key}

pub record ApprovalStore (Map : Type 0) : Type 0 where
  pub map : Map
  pub keys : List Field

pub record VoteNullifierStore (Map : Type 0) : Type 0 where
  pub map : Map
  pub keys : List Field

-- Whether a key is tracked.
abbrev pub has_key : Field → List Field → Bool
has_key key keys = any (λ k. k == key) keys

-- `/^(0|[1-9][0-9]*)$/`
abbrev pub is_digit : Char → Bool
is_digit c = leb 48 (code c) && leb (code c) 57

abbrev pub all_digits : String → Bool
all_digits String.[] = true
all_digits (String.◌∷◌ c s) = is_digit c && all_digits s

unfoldable pub is_numeral : String → Bool
is_numeral String.[] = false
is_numeral (String.◌∷◌ c s) =
    str_eq (String.◌∷◌ c s) "0" || (leb 49 (code c) && leb (code c) 57 && all_digits s)

module _ ⦃n : Numerals⦄ where
  -- The check and the conversion of one key. `Field(key)` is not reached for a text that is no
  -- numeral, and a numeral does not make it throw.
  unfoldable pub nullifier_key_of : String → Result Field
  nullifier_key_of text = do
    require (is_numeral text) "Invalid nullifier key"
    key ← or_throw (n.field_of text) "Invalid nullifier key"
    require (str_eq (n.field_text key) text) "Invalid nullifier key"
    ok key

module _ {Map : Type 0} ⦃m : MerkleMaps Map⦄ where
  abbrev pub new_approval_store : ApprovalStore Map
  new_approval_store = record { map = m.fresh; keys = [] }

  abbrev pub new_nullifier_store : VoteNullifierStore Map
  new_nullifier_store = record { map = m.fresh; keys = [] }

  unfoldable pub get_count : ApprovalStore Map → Field → Field
  get_count store hash = m.get store.map hash

  unfoldable pub set_count : ApprovalStore Map → Field → Field → ApprovalStore Map
  set_count store hash count = record {
    map = m.set store.map hash count;
    keys = if has_key hash store.keys then store.keys else store.keys ++ hash ∷ [];
  }

  unfoldable pub is_executed : ⦃o : Platform⦄ → ApprovalStore Map → Field → Bool
  is_executed store hash = m.get store.map hash == executed_marker

  module _ ⦃o : Platform⦄ where
    unfoldable pub is_nullified : VoteNullifierStore Map → Field → PublicKey → Bool
    is_nullified store hash approver = m.get store.map (vote_nullifier_key hash approver) == 1

    unfoldable pub nullify : VoteNullifierStore Map → Field → PublicKey → VoteNullifierStore Map
    nullify store hash approver =
        let key = vote_nullifier_key hash approver in
        if has_key key store.keys
        then store
        else record { map = m.set store.map key 1; keys = store.keys ++ key ∷ [] }

  module _ ⦃n : Numerals⦄ where
    -- `serializeMerkleMap`: a key that comes twice has one property.
    unfoldable pub serialize_map : Map → List Field → List (String × String)
    serialize_map map [] = []
    serialize_map map (k ∷ keys) =
        let rest = serialize_map map keys in
        if has_key k keys then rest else (n.field_text k, n.field_text (m.get map k)) ∷ rest

    -- The loop of `deserializeMerkleMap`, on the map and the keys so far.
    unfoldable pub deserialize_from :
        List (String × String) → Map → List Field → Result (ApprovalStore Map)
    deserialize_from [] map keys = ok (record { map = map; keys = keys })
    deserialize_from ((key_text, value_text) ∷ entries) map keys = do
      key ← or_throw (n.field_of key_text) "Field: invalid text"
      value ← or_throw (n.field_of value_text) "Field: invalid text"
      deserialize_from entries (m.set map key value) (keys ++ key ∷ [])

    unfoldable pub serialize_approvals : ApprovalStore Map → List (String × String)
    serialize_approvals store = serialize_map store.map store.keys

    unfoldable pub deserialize_approvals : List (String × String) → Result (ApprovalStore Map)
    deserialize_approvals entries = deserialize_from entries m.fresh []

    unfoldable pub serialize_nullifiers : VoteNullifierStore Map → List String
    serialize_nullifiers store = map (λ k. n.field_text k) store.keys

    -- The loop of `VoteNullifierStore.deserialize`.
    unfoldable pub nullifiers_from :
        List String → VoteNullifierStore Map → Result (VoteNullifierStore Map)
    nullifiers_from [] store = ok store
    nullifiers_from (text ∷ texts) store = do
      key ← nullifier_key_of text
      forbid (has_key key store.keys) "Duplicate nullifier key"
      nullifiers_from texts (record { map = m.set store.map key 1; keys = store.keys ++ key ∷ [] })

    unfoldable pub deserialize_nullifiers : List String → Result (VoteNullifierStore Map)
    deserialize_nullifiers texts = nullifiers_from texts new_nullifier_store
