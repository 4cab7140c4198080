-- ===== src/Examples/Store.antt =====
-- The theorems on the owner store at concrete inputs, with an exact text for every key.
use mina_guard.Base.{
  ◌<◌, In, inl, inr, false, ℕ, zero, suc, ◌+◌, ◌≡◌, ◌↔◌, ◌∙◌, sym, ap, refl, true, some, [], ◌∷◌,
  String, bit, ok, arith,
}
use mina_guard.Platform.{Field, PublicKey, PublicKeyOption}
use mina_guard.Owners.{compute_owner_chain, assert_owner_membership}
use mina_guard.Storage.{
  commitment_with_sorted_add, Encoding, is_owner, get_commitment, get_witness, insert_after,
  inserted_at, insert_position_for,
}
use mina_guard.Storage.Owners.{is_owner-assert_owner_membership}
use mina_guard.Storage.Order.{Less, Ascending}
use mina_guard.Storage.Positions.{insert_position_for-add_sorted}
use mina_guard.Rebuild.{text_length}
use mina_guard.Examples.Ideal.{ideal, ideal-HashLaws}
use mina_guard.Examples.Session.{alice, bob}
use mina_guard.Examples.Family.{carol}

unfoldable pub strokes : ℕ → String
strokes zero = ""
strokes (suc n) = String.◌∷◌ "1" (strokes n)

pub text_length-strokes : (n : ℕ) → text_length (strokes n) ≡ n
unfolding strokes
text_length-strokes zero = refl
text_length-strokes (suc n) = ap suc (text_length-strokes n)

-- A number of its own for every key, and no small one.
unfoldable pub numbered : PublicKey → ℕ
numbered k = k.x + k.x + bit k.is_odd + 11

numbered-injective : (a b : PublicKey) → numbered a ≡ numbered b → a ≡ b
unfolding numbered
numbered-injective a b h = ground arith

unfoldable pub tally_text : PublicKey → String
unfolding strokes numbered
tally_text k = strokes (numbered k)

pub tally_text-injective : (a b : PublicKey) → tally_text a ≡ tally_text b → a ≡ b
unfolding tally_text
tally_text-injective a b h =
    numbered-injective a b
      (sym (text_length-strokes (numbered a)) ∙ ap text_length h ∙ text_length-strokes (numbered b))

instance unfoldable pub tally : Encoding
unfolding tally_text
tally = record { to_base58 = tally_text; injective = tally_text-injective }

is_owner-assert_owner_membership_example : (is_owner bob (alice ∷ bob ∷ []) ≡ true) ↔ (
    assert_owner_membership (get_commitment (alice ∷ bob ∷ [])) bob (get_witness (alice ∷ bob ∷ []))
    ≡ ok tt)
is_owner-assert_owner_membership_example =
    is_owner-assert_owner_membership bob (alice ∷ bob ∷ []) (omega arith)

added : insert_after carol (some bob) (alice ∷ bob ∷ []) ≡ ok (alice ∷ bob ∷ carol ∷ [])
unfolding insert_after tally tally_text strokes numbered
added = refl

-- Carol comes last, but the chain may have her in front.
abbrev in_front : PublicKeyOption
in_front = record { is_some = false; value = alice }

strokes-Less : (a b : ℕ) → a < b → Less (strokes a) (strokes b)
unfolding strokes
strokes-Less a zero h = absurd (omega arith)
strokes-Less zero (suc b) h = tt
strokes-Less (suc a) (suc b) h = inr (refl, strokes-Less a b (omega arith))

ascending : Ascending (alice ∷ bob ∷ [])
unfolding tally tally_text strokes numbered
ascending = ((strokes-Less 21 25 (omega arith), tt), (tt, tt))

x_of : PublicKey → Field
x_of k = k.x

new_key : ¬ In carol (alice ∷ bob ∷ [])
unfolding x_of
new_key (inl same) = omega (arith, ap x_of same)
new_key (inr (inl same)) = omega (arith, ap x_of same)
new_key (inr (inr i)) = elim i [ ]

insert_position_for-add_sorted_example :
    ((i : ℕ) × (insert_position_for carol
          (commitment_with_sorted_add carol (alice ∷ bob ∷ []))
          (alice ∷ bob ∷ [])
        ≡ some i)
      × Ascending (inserted_at i carol (alice ∷ bob ∷ [])))
    × ((j : ℕ) × (insert_position_for carol
            (compute_owner_chain (carol ∷ alice ∷ bob ∷ []))
            (alice ∷ bob ∷ [])
          ≡ some j)
        × (inserted_at j carol (alice ∷ bob ∷ []) ≡ (carol ∷ alice ∷ bob ∷ [])))
insert_position_for-add_sorted_example =
    insert_position_for-add_sorted ideal-HashLaws carol in_front (alice ∷ bob ∷ [])
      (((λ e. omega arith), tt), (tt, tt)) refl new_key ascending
