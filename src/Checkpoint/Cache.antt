-- ===== src/Checkpoint/Cache.antt =====
-- contracts/src/store-checkpoint.ts, `class IncrementalStoreCache`: `load`, with the cache as an argument
-- and a result. The promises that `get` queues are not modelled: one load runs at a time. Stores are
-- values here, so `cloneStores` copies nothing, and a checkpoint that is written cannot fail the load.
use text.Mathlib.Text.{◌==◌ as str_eq}
use mina_guard.Base.{
  ℕ, suc, String, Bool, true, false, not, Option, none, some, List, [], ◌∷◌, ◌++◌, length, any,
  filter, ltb, ◌||◌, Result, ok, err, forbid, ◌>>=◌, ◌>>◌, if◌then◌else◌,
}
use mina_guard.Platform.{Platform}
use mina_guard.Platform.Maps.{MerkleMaps, Numerals}
use mina_guard.Storage.{Encoding}
use mina_guard.Rebuild.{IndexedEvent, TextReader}
use mina_guard.Rebuild.Levels.{larger}
use mina_guard.Rebuild.Stores.{RebuiltStores, rebuild_stores}
use mina_guard.Rebuild.Verify.{ChainState, assert_stores_match_chain}
use mina_guard.Checkpoint.{
  BlockNumber, null_block, other_value, block, StoreCheckpoint, StoreScope, safe_bound,
  require_roots, restore_store_checkpoint,
}

pub record CachedStores (Map : Type 0) : Type 0 where
  pub stores : RebuiltStores Map
  pub through_block : Option ℕ

-- What the caller supplies: a read that throws is an error. `chain` may answer each of the two
-- attempts of a load in its own way.
pub record CheckpointSource : Type 0 where
  pub key : String
  pub scope : StoreScope
  pub read : Result (Option StoreCheckpoint)
  pub events : Option ℕ → Result (List IndexedEvent)
  pub chain : Bool → Result ChainState

-- The entries in the order of insertion.
abbrev pub StoreCache : Type 0 → Type 0
StoreCache Map = List (String × CachedStores Map)

module _ {Map : Type 0} where
  abbrev pub cached_at : String → StoreCache Map → Option (CachedStores Map)
  cached_at key [] = none
  cached_at key ((k, c) ∷ cache) =
      let later = cached_at key cache in if str_eq k key then some c else later

  abbrev pub without_key : String → StoreCache Map → StoreCache Map
  without_key key cache = filter (λ entry. not (str_eq entry.0 key)) cache

  -- `while (this.cache.size > 4) this.cache.delete(this.cache.keys().next().value!)`
  abbrev pub evict : StoreCache Map → StoreCache Map
  evict [] = []
  evict (entry ∷ cache) =
      let rest = evict cache in if ltb 4 (length (entry ∷ cache)) then rest else entry ∷ cache

  unfoldable pub keep : String → CachedStores Map → StoreCache Map → StoreCache Map
  keep key c cache = evict (without_key key cache ++ (key, c) ∷ [])

abbrev pub as_block : BlockNumber → Option ℕ
as_block null_block = none
as_block other_value = none
as_block (block n) = some n

abbrev pub is_safe_height : Option ℕ → Bool
is_safe_height none = false
is_safe_height (some h) = ltb h safe_bound

-- `!Number.isSafeInteger(e.blockHeight) || e.blockHeight < from`
abbrev pub is_outside : ℕ → IndexedEvent → Bool
is_outside from e =
    not (is_safe_height e.block_height) || elim e.block_height [ none ↦ true | some h ↦ ltb h from ]

abbrev pub or_zero : Option ℕ → ℕ
or_zero none = 0
or_zero (some h) = h

-- The last block of the events, from what is known.
unfoldable pub last_block : Option ℕ → List IndexedEvent → Option ℕ
last_block known [] = known
last_block known (e ∷ events) =
    let rest = last_block (some (larger (or_zero known) (or_zero e.block_height))) events in
    if is_safe_height e.block_height then rest else none

module _ {Map : Type 0} ⦃m : MerkleMaps Map⦄ ⦃n : Numerals⦄ ⦃o : Platform⦄ where
  -- The comparison with the chain, on which every result depends.
  unfoldable pub verified :
      Result ChainState → RebuiltStores Map → Option ℕ → Result (CachedStores Map)
  verified chain_state stores through_block = do
    chain ← chain_state
    require_roots chain
    assert_stores_match_chain stores chain
    ok (record { stores = stores; through_block = through_block })

module _ {Map : Type 0} ⦃m : MerkleMaps Map⦄ ⦃n : Numerals⦄ ⦃o : Platform⦄ ⦃e : Encoding⦄
    ⦃r : TextReader⦄ where
  -- The cached stores, or else the ones of the persisted checkpoint where it can be restored.
  unfoldable pub find_cached : CheckpointSource → StoreCache Map → Option (CachedStores Map)
  find_cached source cache =
      let persisted : Option (CachedStores Map) = elim source.read [
        | err _ ↦ none
        | ok none ↦ none
        | ok (some checkpoint) ↦ elim (restore_store_checkpoint checkpoint source.scope) [
          | err _ ↦ none
          | ok stores ↦
              some (record { stores = stores; through_block = as_block checkpoint.through_block })
        ]
      ] in
      elim (cached_at source.key cache) [ none ↦ persisted | some c ↦ some c ]

  -- One pass of the loop: from genesis, or on from the block after `through`.
  unfoldable pub attempt :
      CheckpointSource → Option (RebuiltStores Map × ℕ) → Result (CachedStores Map)
  attempt source none = do
    events ← source.events none
    stores ← rebuild_stores events none
    verified (source.chain false) stores (last_block none events)
  attempt source (some (known, through)) = do
    events ← source.events (some (suc through))
    forbid (any (is_outside (suc through)) events)
        "Event source returned an invalid incremental range"
    stores ← rebuild_stores events (some known)
    verified (source.chain true) stores (last_block (some through) events)

  unfoldable pub load_from_genesis :
      CheckpointSource → StoreCache Map → Result (RebuiltStores Map) × StoreCache Map
  load_from_genesis source cache = elim (attempt source none) [
    | err message ↦ (err message, without_key source.key cache)
    | ok c ↦ (ok c.stores, keep source.key c cache)
  ]

  -- Where an incremental load can start.
  abbrev pub incremental_start : Option (CachedStores Map) → Option (RebuiltStores Map × ℕ)
  incremental_start none = none
  incremental_start (some c) = elim c.through_block [
    | none ↦ none
    | some through ↦ some (c.stores, through)
  ]

  -- An attempt with the cache that fails is followed by one from genesis.
  unfoldable pub load :
      CheckpointSource → StoreCache Map → Result (RebuiltStores Map) × StoreCache Map
  load source cache = elim (incremental_start (find_cached source cache)) [
    | none ↦ load_from_genesis source cache
    | some start ↦ elim (attempt source (some start)) [
      | err _ ↦ load_from_genesis source (without_key source.key cache)
      | ok c ↦ (ok c.stores, keep source.key c cache)
    ]
  ]
