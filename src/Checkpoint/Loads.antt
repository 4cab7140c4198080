-- ===== src/Checkpoint/Loads.antt =====
-- contracts/src/store-checkpoint.ts, `IncrementalStoreCache.load`: theorems on what it returns and keeps.
use mina_guard.Base.{
  ℕ, suc, String, ◌≡◌, ◌≤◌, Bool, true, false, Option, none, some, List, [], ◌∷◌, ◌++◌, length, any,
  Result, ok, err, Result-cases, Option-cases, ◌⊎◌, inl, inr, refl, ◌∙◌, sym, ap, ok-injective,
  err≢ok, false≢true, then-ok, subst, forbid, arith,
}
use mina_guard.Platform.{Field, Platform}
use mina_guard.Platform.Maps.{MerkleMaps, Numerals}
use mina_guard.Storage.{Encoding, get_commitment}
use mina_guard.Rebuild.{IndexedEvent, TextReader}
use mina_guard.Rebuild.Stores.{RebuiltStores, rebuild_stores}
use mina_guard.Rebuild.Verify.{
  ChainState, Agrees, MatchesChain, assert_stores_match_chain, assert_stores_match_chain_iff,
}
use mina_guard.Checkpoint.{require_roots, is_given}
use mina_guard.Checkpoint.Cache.{
  CachedStores, CheckpointSource, StoreCache, without_key, evict, keep, last_block, is_outside,
  verified, find_cached, attempt, load_from_genesis, incremental_start, load,
}

evict-le : {Map : Type 0} (cache : StoreCache Map) → length (evict cache) ≤ 4
evict-le [] = omega arith
evict-le (entry ∷ cache) = let rest = evict-le cache in ground arith

length-without_key :
    {Map : Type 0} (key : String) (cache : StoreCache Map)
    → length (without_key key cache) ≤ length cache
length-without_key key [] = omega arith
length-without_key key (entry ∷ cache) = let rest = length-without_key key cache in ground arith

keep-le :
    {Map : Type 0} (key : String) (c : CachedStores Map) (cache : StoreCache Map)
    → length (keep key c cache) ≤ 4
unfolding keep
keep-le key c cache = evict-le (without_key key cache ++ (key, c) ∷ [])

module _ {Map : Type 0} ⦃m : MerkleMaps Map⦄ ⦃n : Numerals⦄ where
  -- All three values are given, and they are the stores' own.
  pub record Proven ⦃o : Platform⦄ (stores : RebuiltStores Map) (chain : ChainState) : Type 0 where
    pub owners : chain.owners_commitment ≡ some (n.field_text (get_commitment stores.owners))
    pub approvals : chain.approval_root ≡ some (n.field_text (m.get_root stores.approval_store.map))
    pub votes :
        chain.vote_nullifier_root ≡ some (n.field_text (m.get_root stores.nullifier_store.map))

given-Agrees :
    ⦃n : Numerals⦄ (given : Option String) (value : Field)
    → is_given given ≡ true
    → Agrees given value
    → given ≡ some (n.field_text value)
given-Agrees none value there agrees = absurd (false≢true there)
given-Agrees (some text) value there agrees = ap some agrees

require_roots-ok :
    (chain : ChainState)
    → require_roots chain ≡ ok tt
    → (is_given chain.owners_commitment ≡ true)
      × (is_given chain.approval_root ≡ true)
      × (is_given chain.vote_nullifier_root ≡ true)
unfolding require_roots
require_roots-ok chain h = ground arith

module _ {Map : Type 0} ⦃m : MerkleMaps Map⦄ ⦃n : Numerals⦄ ⦃o : Platform⦄ where
  checked-Proven :
      (stores : RebuiltStores Map) (chain : ChainState)
      → require_roots chain ≡ ok tt
      → assert_stores_match_chain stores chain ≡ ok tt
      → Proven stores chain
  checked-Proven stores chain given checked =
      let (a, b, c) = require_roots-ok chain given in
      let (x, y, z) = (assert_stores_match_chain_iff stores chain).0 checked in
      record {
        owners = given-Agrees chain.owners_commitment _ a x;
        approvals = given-Agrees chain.approval_root _ b y;
        votes = given-Agrees chain.vote_nullifier_root _ c z;
      }

  verified-Proven :
      (chain_state : Result ChainState) (stores : RebuiltStores Map) (through : Option ℕ)
      (c : CachedStores Map)
      → verified chain_state stores through ≡ ok c
      → (chain : ChainState) × (chain_state ≡ ok chain) × Proven c.stores chain
  unfolding verified
  verified-Proven chain_state stores through c h =
      let (chain, read, h1) = then-ok chain_state _ c h in
      let (_, given, h2) = then-ok (require_roots chain) _ c h1 in
      let (_, checked, h3) = then-ok (assert_stores_match_chain stores chain) _ c h2 in
      (
        chain,
        read,
        subst (λ (x : CachedStores Map). Proven x.stores chain) (ok-injective h3)
            (checked-Proven stores chain given checked),
      )

  Proven-MatchesChain :
      (stores : RebuiltStores Map) (chain : ChainState)
      → Proven stores chain
      → MatchesChain stores chain
  Proven-MatchesChain stores chain matching =
      (rw (matching.owners) refl, rw (matching.approvals) refl, rw (matching.votes) refl)

  Proven-require_roots :
      (stores : RebuiltStores Map) (chain : ChainState)
      → Proven stores chain
      → require_roots chain ≡ ok tt
  unfolding require_roots
  Proven-require_roots stores chain matching =
      rw (require_roots, matching.owners, matching.approvals, matching.votes) refl

  module _ ⦃e : Encoding⦄ ⦃r : TextReader⦄ where
    -- An attempt that succeeds has read the chain, and its stores match.
    attempt-Proven :
        (source : CheckpointSource) (start : Option (RebuiltStores Map × ℕ)) (c : CachedStores Map)
        → attempt source start ≡ ok c
        → (again : Bool) × (chain : ChainState) × (source.chain again ≡ ok chain)
          × Proven c.stores chain
    unfolding attempt
    attempt-Proven source none c h =
        let (events, fetched, h1) = then-ok (source.events none) _ c h in
        let (stores, rebuilt, h2) = then-ok (rebuild_stores events none) _ c h1 in
        let (chain, read, matching) =
          verified-Proven (source.chain false) stores (last_block none events) c h2 in
        (false, chain, read, matching)
    attempt-Proven source (some (known, through)) c h =
        let (events, fetched, h1) = then-ok (source.events (some (suc through))) _ c h in
        let (_, inside, h2) =
          then-ok
            (forbid (any (is_outside (suc through)) events)
              "Event source returned an invalid incremental range")
            _ c h1 in
        let (stores, rebuilt, h3) = then-ok (rebuild_stores events (some known)) _ c h2 in
        let (chain, read, matching) =
          verified-Proven (source.chain true) stores (last_block (some through) events) c h3 in
        (true, chain, read, matching)

    genesis-cases :
        (source : CheckpointSource) (cache : StoreCache Map)
        → ((message : String) × (attempt {Map = Map} source none ≡ err message)
            × (load_from_genesis source cache ≡ (err message, without_key source.key cache)))
          ⊎ ((c : CachedStores Map) × (attempt source none ≡ ok c)
              × (load_from_genesis source cache ≡ (ok c.stores, keep source.key c cache)))
    unfolding load_from_genesis
    genesis-cases source cache = elim (Result-cases (attempt {Map = Map} source none)) [
      | inl (message, failed) ↦ inl (message, failed, rw (load_from_genesis, failed) refl)
      | inr (c, done) ↦ inr (c, done, rw (load_from_genesis, done) refl)
    ]

    -- How a load ends: with an attempt that succeeded, or with the error of the one from genesis.
    load-cases :
        (source : CheckpointSource) (cache : StoreCache Map)
        → ((message : String) × (rest : StoreCache Map) × (attempt {Map = Map} source none
              ≡ err message)
            × (load source cache ≡ (err message, without_key source.key rest))
            × (length rest ≤ length cache))
          ⊎ ((start : Option (RebuiltStores Map × ℕ)) × (c : CachedStores Map) × (rest : StoreCache
                Map)
              × (attempt source start ≡ ok c)
              × (load source cache ≡ (ok c.stores, keep source.key c rest)))
    unfolding load
    load-cases source cache = elim (Option-cases (incremental_start (find_cached source cache))) [
      | inl nothing ↦ elim (genesis-cases source cache) [
        | inl (message, failed, ends) ↦
            inl (message, cache, failed, rw (load, nothing) ends, omega arith)
        | inr (c, done, ends) ↦ inr (none, c, cache, done, rw (load, nothing) ends)
      ]
      | inr (start, found) ↦ elim (Result-cases (attempt source (some start))) [
        | inr (c, done) ↦ inr (some start, c, cache, done, rw (load, found, done) refl)
        | inl (_, failed) ↦
            let rest = without_key source.key cache in
            elim (genesis-cases source rest) [
              | inl (message, failed_again, ends) ↦ inl (
                message,
                rest,
                failed_again,
                rw (load, found, failed) ends,
                length-without_key source.key cache,
              )
              | inr (c, done, ends) ↦ inr (none, c, rest, done, rw (load, found, failed) ends)
            ]
      ]
    ]

    -- Whatever the cache and the persisted checkpoint hold: stores that a load returns have the
    -- owner commitment and the two roots that the source has reported of the chain, and the
    -- report was complete.
    pub load-Proven :
        (source : CheckpointSource) (cache rest : StoreCache Map) (stores : RebuiltStores Map)
        → load source cache ≡ (ok stores, rest)
        → (again : Bool) × (chain : ChainState) × (source.chain again ≡ ok chain)
          × Proven stores chain
    load-Proven source cache rest stores h = elim (load-cases source cache) [
      | inl (message, _, _, ends, _) ↦ absurd (err≢ok (ap (λ p. p.0) (sym ends ∙ h)))
      | inr (start, c, _, done, ends) ↦
          subst
            (λ s.
              (again : Bool) × (chain : ChainState) × (source.chain again ≡ ok chain)
              × Proven s chain)
            (ok-injective (ap (λ p. p.0) (sym ends ∙ h))) (attempt-Proven source start c done)
    ]

    -- A load leaves at most four entries in a cache of at most four.
    pub load-le :
        (source : CheckpointSource) (cache : StoreCache Map)
        → length cache ≤ 4
        → length (load source cache).1 ≤ 4
    load-le source cache small = elim (load-cases source cache) [
      | inl (message, rest, _, ends, fewer) ↦
          let kept = length-without_key source.key rest in rw ends (omega arith)
      | inr (start, c, rest, done, ends) ↦ rw ends (keep-le source.key c rest)
    ]

    genesis-ok :
        (source : CheckpointSource) (events : List IndexedEvent) (stores : RebuiltStores Map)
        (chain : ChainState)
        → source.events none ≡ ok events
        → rebuild_stores events none ≡ ok stores
        → source.chain false ≡ ok chain
        → Proven stores chain
        → attempt source none
          ≡ ok (record { stores = stores; through_block = last_block none events })
    unfolding attempt verified
    genesis-ok source events stores chain fetched rebuilt read matching =
        rw
          (
            attempt,
            fetched,
            rebuilt,
            verified,
            read,
            Proven-require_roots stores chain matching,
            (assert_stores_match_chain_iff stores chain).1
                (Proven-MatchesChain stores chain matching),
          )
          refl

    -- Where the events from genesis rebuild to stores that match the chain as reported, a load
    -- succeeds, whatever the cache, the persisted checkpoint and the incremental events are.
    pub load-recovers :
        (source : CheckpointSource) (cache : StoreCache Map) (events : List IndexedEvent)
        (stores : RebuiltStores Map) (chain : ChainState)
        → source.events none ≡ ok events
        → rebuild_stores events none ≡ ok stores
        → source.chain false ≡ ok chain
        → Proven stores chain
        → (loaded : RebuiltStores Map) × ((load source cache).0 ≡ ok loaded)
    load-recovers source cache events stores chain fetched rebuilt read matching =
        let c : CachedStores Map = record {
          stores = stores;
          through_block = last_block none events;
        } in
        let done = genesis-ok source events stores chain fetched rebuilt read matching in
        elim (load-cases source cache) [
          | inl (message, _, failed, _, _) ↦ absurd (err≢ok (sym failed ∙ done))
          | inr (start, found, rest, _, ends) ↦ (found.stores, ap (λ p. p.0) ends)
        ]
