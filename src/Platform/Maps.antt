-- ===== src/Platform/Maps.antt =====
-- The in-memory `MerkleMap` and the decimal texts of field elements, which the off-chain stores take
-- from o1js.
use mina_guard.Base.{String, ◌≡◌, ◌≢◌, Option, some, ◌==◌, if◌then◌else◌}
use mina_guard.Platform.{Field}

-- `MerkleMap`, whose values are maps of the type `Map`.
pub record MerkleMaps (Map : Type 0) : Type 0 where
  -- `new MerkleMap()`
  pub fresh : Map
  pub get : Map → Field → Field
  pub set : Map → Field → Field → Map
  pub get_root : Map → Field

-- A map holds what was set last, 0 where nothing was, and its root depends on its values only.
pub record MapLaws {Map : Type 0} (m : MerkleMaps Map) : Type 0 where
  pub get-fresh : (k : Field) → m.get m.fresh k ≡ 0
  pub get-set :
      (map : Map) (k v j : Field) → m.get (m.set map k v) j ≡ (if k == j then v else m.get map j)
  pub same_root : (a b : Map) → ((k : Field) → m.get a k ≡ m.get b k) → m.get_root a ≡ m.get_root b

-- `f.toString()`, and `Field(text)`, which is `none` where it throws.
pub record Numerals : Type 0 where
  pub field_text : Field → String
  pub field_of : String → Option Field

-- The text of a field element is not empty, and reads back as that element.
pub record NumeralLaws (n : Numerals) : Type 0 where
  pub reads_back : (f : Field) → n.field_of (n.field_text f) ≡ some f
  pub text_filled : (f : Field) → n.field_text f ≢ ""
