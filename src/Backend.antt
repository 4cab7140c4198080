-- ===== src/Backend.antt =====
-- The pure parts of the backend (backend/src).
pub mod Proposals
pub mod Submissions
use mina_guard.Base.{ℕ, String, ◌≡◌, ◌≤◌, ◌^◌, Option, some}
use mina_guard.Platform.{Field}
use mina_guard.Platform.Maps.{Numerals}

-- `Number(text)`, `none` where it is not finite, and `BigInt(text)`, `none` where it throws, of the
-- decimal numerals that the database holds; and `n.toString()`.
pub record Numbers : Type 0 where
  pub number_of : String → Option ℕ
  pub big_int : String → Option ℕ
  pub big_text : ℕ → String

-- A double holds the integers up to 2 ^ 53, so `Number` reads the text of a field element of that
-- size exactly.
pub record NumberLaws (t : Numerals) (n : Numbers) : Type 0 where
  pub exact : (f : Field) → f ≤ 2 ^ 53 → n.number_of (t.field_text f) ≡ some f
