-- ===== src/Platform.antt =====
-- What the contract takes from outside its own source: the o1js library and the build's network.
-- Fields are canonical representatives, natural numbers; a `PublicKey`, a `Signature`, an
-- `Option(PublicKey)` and a Merkle-map witness are the structs that o1js documents. Poseidon, the
-- curve test behind `toGroup`, signature verification and the Merkle path computation are
-- parameters.
pub mod Laws
pub mod Maps
use native.Mathlib.Nat.{add-mod_right, mod-eq_of_lt}
use mina_guard.Base.{
  ℕ, String, ◌+◌, ◌-◌, ◌%◌, ◌^◌, ◌≤◌, ◌<◌, ◌≡◌, ap, ◌∙◌, Bool, true, false, List, [], ◌∷◌, ◌&&◌,
  ◌==◌, same_bool, bit, arith,
}

abbrev pub Field : Type 0
Field = ℕ

-- A `UInt64` stands for its value; so does a `UInt32`.
abbrev pub UInt64 : Type 0
UInt64 = ℕ

pub record PublicKey : Type 0 where
  pub x : Field
  pub is_odd : Bool

-- `PublicKey.empty()`
abbrev pub empty_key : PublicKey
empty_key = record { x = 0; is_odd = false }

-- `a.equals(b)`
abbrev pub key_eq : PublicKey → PublicKey → Bool
key_eq a b = a.x == b.x && same_bool a.is_odd b.is_odd

-- `pk.equals(PublicKey.empty())`
abbrev pub is_empty : PublicKey → Bool
is_empty pk = key_eq pk empty_key

-- `pk.toFields()`
abbrev pub key_fields : PublicKey → List Field
key_fields pk = pk.x ∷ bit pk.is_odd ∷ []

pub record PublicKeyOption : Type 0 where
  pub is_some : Bool
  pub value : PublicKey

pub record Signature : Type 0 where
  pub r : Field
  pub s : Field

pub record MerkleMapWitness : Type 0 where
  pub is_lefts : List Bool
  pub siblings : List Field

pub data NetworkDomainName : Type 0 where
  mainnet testnet devnet : NetworkDomainName

pub record Platform : Type 0 where
  -- The prime order of the field. It is larger than every `UInt64`.
  pub order : ℕ
  pub order_large : 2 ^ 64 < order
  -- `Poseidon.hashWithPrefix(prefix, fields)`
  pub hash_with_prefix : String → List Field → Field
  -- `new MerkleMap().getRoot()`
  pub empty_map_root : Field
  -- `witness.computeRootAndKey(value)`
  pub compute_root_and_key : MerkleMapWitness → Field → Field × Field
  -- Whether `pk.toGroup()` succeeds: the key is a curve point.
  pub is_point : PublicKey → Bool
  -- `PublicKey.fromGroup(Group.generator)`
  pub generator_key : PublicKey
  pub generator_point : is_point generator_key ≡ true
  -- `signature.verify(signer, message)`
  pub verify : Signature → PublicKey → List Field → Bool
  -- The network that the build is for.
  pub network_domain_name : NetworkDomainName

module _ ⦃o : Platform⦄ where
  -- `a.add(b)` and `a.sub(b)`
  unfoldable pub fadd : Field → Field → Field
  fadd a b = (a + b) % o.order

  unfoldable pub fsub : Field → Field → Field
  fsub a b = (a + o.order - b) % o.order

  -- Addition that does not wrap.
  pub fadd_lem : (a b : Field) → a + b < o.order → fadd a b ≡ a + b
  unfolding fadd
  fadd_lem a b h = grind arith

  -- Subtraction that does not wrap.
  pub fsub_lem : (a b : Field) → b ≤ a → a < o.order → fsub a b ≡ a - b
  unfolding fsub
  fsub_lem a b h k =
      ap (λ (n : ℕ). n % o.order) regroup
      ∙ add-mod_right (a - b) o.order
      ∙ mod-eq_of_lt (omega arith)
    where
      regroup : a + o.order - b ≡ (a - b) + o.order
      regroup = omega arith

  pub fsub-zero_one : fsub 0 1 ≡ o.order - 1
  unfolding fsub
  fsub-zero_one =
      let big = o.order_large in grind (arith, mod-eq_of_lt {n = o.order - 1} {m = o.order})

  pub fadd-lt : (a b : Field) → fadd a b < o.order
  unfolding fadd
  fadd-lt a b = let big = o.order_large in grind arith

pub key_eq→eq : (a b : PublicKey) → key_eq a b ≡ true → a ≡ b
key_eq→eq a b h = ground arith

pub key_eq_refl : (a : PublicKey) → key_eq a a ≡ true
key_eq_refl a = ground arith
