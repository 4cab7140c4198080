-- ===== src/Checkpoint.antt =====
-- contracts/src/store-checkpoint.ts and the versions of contracts/src/offline-format.ts: the stores as a
-- public checkpoint, and back.
pub mod RoundTrip
pub mod Cache
pub mod Loads
pub mod Storable
use text.Mathlib.Text.{◌==◌ as str_eq}
use mina_guard.Base.{
  ℕ, String, ◌≡◌, ◌^◌, Bool, true, false, not, Option, none, some, List, [], ◌∷◌, length, map, ltb,
  ◌==◌, ◌&&◌, ◌||◌, Result, ok, err, require, forbid, or_throw, ◌>>=◌, ◌>>◌, if◌then◌else◌,
}
use mina_guard.Platform.{Field, PublicKey, Platform}
use mina_guard.Platform.Maps.{MerkleMaps, Numerals}
use mina_guard.Constants.{max_owners}
use mina_guard.Storage.{Encoding, get_commitment}
use mina_guard.Storage.Maps.{
  serialize_approvals, deserialize_approvals, serialize_nullifiers, deserialize_nullifiers,
}
use mina_guard.Rebuild.{IndexedEvent, TextReader}
use mina_guard.Rebuild.Stores.{RebuiltStores}
use mina_guard.Rebuild.Verify.{ChainState, assert_stores_match_chain}

abbrev pub offline_request_version : ℕ
offline_request_version = 3

abbrev pub store_checkpoint_version : ℕ
store_checkpoint_version = 1

-- `Number.MAX_SAFE_INTEGER + 1`
abbrev pub safe_bound : ℕ
safe_bound = 2 ^ 53

-- A property that should be a JSON text: no text at all, a text that `JSON.parse` or the reading of
-- its properties throws on, or the text of `content`.
pub data Stored (Content : Type 0) : Type 0 where
  not_text malformed : Stored Content
  json : Content → Stored Content

-- `throughBlock`: null, a natural number, or another value.
pub data BlockNumber : Type 0 where
  null_block other_value : BlockNumber
  block : ℕ → BlockNumber

-- `owners` and `nullifiers` hold no array where they are `json none`.
pub record StoreCheckpoint : Type 0 where
  pub version : ℕ
  pub network : String
  pub address : String
  pub through_block : BlockNumber
  pub owners : Stored (Option (List String))
  pub approvals : Stored (List (String × String))
  pub nullifiers : Stored (Option (List String))
  pub roots : ChainState

pub record StoreScope : Type 0 where
  pub network : String
  pub address : String

abbrev pub is_text : {Content : Type 0} → Stored Content → Bool
is_text not_text = false
is_text malformed = true
is_text (json content) = true

abbrev pub parse : {Content : Type 0} → Stored Content → Result Content
parse not_text = err "SyntaxError"
parse malformed = err "SyntaxError"
parse (json content) = ok content

abbrev pub is_given : Option String → Bool
is_given none = false
is_given (some text) = true

-- `throughBlock === null`, or a safe integer that is not negative
abbrev pub is_valid_block : BlockNumber → Bool
is_valid_block null_block = true
is_valid_block other_value = false
is_valid_block (block n) = ltb n safe_bound

unfoldable pub require_roots : ChainState → Result (Unit {0})
require_roots chain =
    require
      (is_given chain.owners_commitment
        && (is_given chain.approval_root && is_given chain.vote_nullifier_root))
      "A complete account state is required to verify a store checkpoint"

-- The keys of `OwnerStore.deserialize`; one that does not decode throws.
unfoldable pub decode_owners : ⦃r : TextReader⦄ → List String → Result (List PublicKey)
decode_owners [] = ok []
decode_owners ⦃r⦄ (text ∷ texts) = do
  owner ← or_throw (r.from_base58 text) "fromBase58: invalid key"
  owners ← decode_owners texts
  ok (owner ∷ owners)

abbrev pub is_compatible : StoreCheckpoint → StoreScope → Bool
is_compatible checkpoint scope =
    checkpoint.version == store_checkpoint_version
    && (str_eq checkpoint.network scope.network
        && (str_eq checkpoint.address scope.address
            && (is_valid_block checkpoint.through_block
                && (is_text checkpoint.owners
                    && (is_text checkpoint.approvals && is_text checkpoint.nullifiers)))))

module _ {Map : Type 0} ⦃m : MerkleMaps Map⦄ ⦃n : Numerals⦄ ⦃o : Platform⦄ where
  unfoldable pub checkpoint_stores :
      ⦃e : Encoding⦄ → RebuiltStores Map → StoreScope → BlockNumber → StoreCheckpoint
  checkpoint_stores ⦃e⦄ stores scope through_block = record {
    version = store_checkpoint_version;
    network = scope.network;
    address = scope.address;
    through_block = through_block;
    owners = json (some (map e.to_base58 stores.owners));
    approvals = json (serialize_approvals stores.approval_store);
    nullifiers = json (some (serialize_nullifiers stores.nullifier_store));
    roots = record {
      owners_commitment = some (n.field_text (get_commitment stores.owners));
      approval_root = some (n.field_text (m.get_root stores.approval_store.map));
      vote_nullifier_root = some (n.field_text (m.get_root stores.nullifier_store.map));
    };
  }

  unfoldable pub restore_store_checkpoint :
      ⦃r : TextReader⦄ → StoreCheckpoint → StoreScope → Result (RebuiltStores Map)
  restore_store_checkpoint checkpoint scope = do
    require (is_compatible checkpoint scope) "Invalid or incompatible store checkpoint"
    owners ← parse checkpoint.owners
    owner_texts ← or_throw owners "Invalid checkpoint owners"
    forbid (ltb max_owners (length owner_texts)) "Invalid checkpoint owners"
    require_roots checkpoint.roots
    keys ← decode_owners owner_texts
    entries ← parse checkpoint.approvals
    approvals ← deserialize_approvals entries
    nullifier_keys ← parse checkpoint.nullifiers
    nullifier_texts ← or_throw nullifier_keys "Invalid nullifier checkpoint"
    nullifiers ← deserialize_nullifiers nullifier_texts
    let stores : RebuiltStores Map = record {
      owners = keys;
      approval_store = approvals;
      nullifier_store = nullifiers;
      first_divergent_block = record { approval = none; nullifier = none };
    }
    assert_stores_match_chain stores checkpoint.roots
    ok stores

  -- The parts of a request that `storesFromOfflineRequest` reads. A value of `events` that is no
  -- array is `none`.
  unfoldable pub stores_from_offline_request :
      ⦃r : TextReader⦄
      → ℕ
      → StoreScope
      → Option (List IndexedEvent)
      → Option StoreCheckpoint
      → ChainState
      → Result (RebuiltStores Map)
  stores_from_offline_request version scope events store_checkpoint chain = do
    require (version == offline_request_version) "Unsupported request version"
    require_roots chain
    checkpoint ←
        or_throw store_checkpoint
          "An offline request requires a complete store checkpoint and empty events"
    require (elim events [ some [] ↦ true | _ ↦ false ])
        "An offline request requires a complete store checkpoint and empty events"
    stores ← restore_store_checkpoint checkpoint scope
    assert_stores_match_chain stores chain
    ok stores
