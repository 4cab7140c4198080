-- ===== src/Storage/Maps/Counts.antt =====
-- `class ApprovalStore` and `class VoteNullifierStore`: their operations on the values of the maps.
use mina_guard.Base.{
  ◌≡◌, false≢true, true, false, List, [], ◌∷◌, ◌++◌, ◌==◌, ◌||◌, if◌then◌else◌, arith,
}
use mina_guard.Platform.{Field, PublicKey, Platform}
use mina_guard.Platform.Maps.{MerkleMaps, MapLaws}
use mina_guard.Hashes.{vote_nullifier_key}
use mina_guard.Storage.Maps.{
  ApprovalStore, VoteNullifierStore, has_key, new_nullifier_store, new_approval_store, get_count,
  set_count, nullify,
}

pub has_key-append :
    (k key : Field) (keys : List Field)
    → has_key k (keys ++ key ∷ []) ≡ (has_key k keys || (key == k))
has_key-append k key [] = ground arith
has_key-append k key (x ∷ keys) = ground (arith, has_key-append k key keys)

module _ {Map : Type 0} ⦃m : MerkleMaps Map⦄ where
  -- Every tracked key is marked.
  abbrev pub Tracked : VoteNullifierStore Map → Type 0
  Tracked store = (k : Field) → has_key k store.keys ≡ true → m.get store.map k ≡ 1

  -- Every key with a count is tracked.
  abbrev pub Covered : ApprovalStore Map → Type 0
  Covered store = (k : Field) → has_key k store.keys ≡ false → m.get store.map k ≡ 0

  module _ (laws : MapLaws m) where
    pub get_count-set_count :
        (store : ApprovalStore Map) (h c k : Field)
        → get_count (set_count store h c) k ≡ (if h == k then c else get_count store k)
    unfolding get_count set_count
    get_count-set_count store h c k = laws.get-set store.map h c k

    pub set_count-Covered :
        (store : ApprovalStore Map) (h c : Field) → Covered store → Covered (set_count store h c)
    unfolding set_count
    set_count-Covered store h c before k absent =
        ground (arith, has_key-append k h store.keys, laws.get-set store.map h c k, before k)

    module _ ⦃o : Platform⦄ where
      pub get-nullify :
          (store : VoteNullifierStore Map) (h : Field) (a : PublicKey) (k : Field)
          → Tracked store
          → m.get (nullify store h a).map k
            ≡ (if vote_nullifier_key h a == k then 1 else m.get store.map k)
      unfolding nullify
      get-nullify store h a k before =
          ground (arith, before k, laws.get-set store.map (vote_nullifier_key h a) 1 k)

      pub nullify-Tracked :
          (store : VoteNullifierStore Map) (h : Field) (a : PublicKey)
          → Tracked store
          → Tracked (nullify store h a)
      unfolding nullify
      nullify-Tracked store h a before k tracked =
          let key = vote_nullifier_key h a in
          ground (arith, before k, has_key-append k key store.keys, laws.get-set store.map key 1 k)

pub new_nullifier_store-Tracked :
    (Map : Type 0) (m : MerkleMaps Map) → Tracked ⦃m = m⦄ (new_nullifier_store ⦃m = m⦄)
new_nullifier_store-Tracked Map m k h = absurd (false≢true h)

pub new_approval_store-Covered :
    {Map : Type 0} (m : MerkleMaps Map) → MapLaws m → Covered ⦃m = m⦄ (new_approval_store ⦃m = m⦄)
new_approval_store-Covered m laws k h = laws.get-fresh k
