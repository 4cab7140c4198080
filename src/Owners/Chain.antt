-- ===== src/Owners/Chain.antt =====
-- `computeOwnerChain`: theorems on the commitment.
use mathlib.Core.List.{reverse, reverse-reverse, reverse-append}
use mina_guard.Base.{◌≡◌, ◌≢◌, refl, sym, ap, ◌∙◌, List, [], ◌∷◌, ◌++◌, bit-injective, arith}
use mina_guard.Platform.{Field, PublicKey, Platform}
use mina_guard.Platform.Laws.{HashLaws}
use mina_guard.Constants.{initial_owner_chain}
use mina_guard.Hashes.{owner_chain_link}
use mina_guard.Owners.{owner_chain_from, compute_owner_chain}

module _ ⦃o : Platform⦄ where
  -- The chain of a list whose last owner stands first.
  pub reversed_chain : List PublicKey → Field
  reversed_chain [] = initial_owner_chain
  reversed_chain (pk ∷ owners) = owner_chain_link (reversed_chain owners) pk

  owner_chain_from-append :
      (c : Field) (xs ys : List PublicKey)
      → owner_chain_from c (xs ++ ys) ≡ owner_chain_from (owner_chain_from c xs) ys
  unfolding owner_chain_from
  owner_chain_from-append c [] ys = refl
  owner_chain_from-append c (x ∷ xs) ys = owner_chain_from-append (owner_chain_link c x) xs ys

  pub compute_owner_chain-reverse :
      (xs : List PublicKey) → compute_owner_chain (reverse xs) ≡ reversed_chain xs
  unfolding compute_owner_chain reversed_chain
  compute_owner_chain-reverse [] = refl
  compute_owner_chain-reverse (x ∷ xs) = rw (reverse-append (x ∷ []) xs) (
      owner_chain_from-append initial_owner_chain (reverse xs) (x ∷ [])
      ∙ ap (λ c. owner_chain_link c x) (compute_owner_chain-reverse xs))

  reversed_chain-reverse :
      (xs : List PublicKey) → reversed_chain (reverse xs) ≡ compute_owner_chain xs
  reversed_chain-reverse xs =
      sym (compute_owner_chain-reverse (reverse xs)) ∙ ap compute_owner_chain (reverse-reverse xs)

module _ ⦃o : Platform⦄ (h : HashLaws o) where
  pub owner_chain_link-injective :
      (c d : Field) (a b : PublicKey)
      → owner_chain_link c a ≡ owner_chain_link d b
      → (c ≡ d) × (a ≡ b)
  unfolding owner_chain_link
  owner_chain_link-injective c d a b e =
      ground (arith, h.same_fields _ _ _ _ e, bit-injective a.is_odd b.is_odd)

  owner_chain_link-ne-initial :
      (c : Field) (a : PublicKey) → owner_chain_link c a ≢ initial_owner_chain
  unfolding owner_chain_link initial_owner_chain
  owner_chain_link-ne-initial c a e = cc (h.same_fields _ _ _ _ e)

  reversed_chain-injective :
      (xs ys : List PublicKey) → reversed_chain xs ≡ reversed_chain ys → xs ≡ ys
  unfolding reversed_chain
  reversed_chain-injective [] [] e = refl
  reversed_chain-injective [] (y ∷ ys) e = absurd (owner_chain_link-ne-initial _ y (sym e))
  reversed_chain-injective (x ∷ xs) [] e = absurd (owner_chain_link-ne-initial _ x e)
  reversed_chain-injective (x ∷ xs) (y ∷ ys) e =
      let (tails, heads) = owner_chain_link-injective _ _ x y e in
      cc (reversed_chain-injective xs ys tails)

  -- Where hashes do not collide: two owner lists with the same commitment are the same list, in
  -- the same order.
  pub compute_owner_chain-injective :
      (xs ys : List PublicKey) → compute_owner_chain xs ≡ compute_owner_chain ys → xs ≡ ys
  compute_owner_chain-injective xs ys e =
      sym (reverse-reverse xs)
      ∙ ap reverse (reversed_chain-injective (reverse xs) (reverse ys) reversed_equal)
      ∙ reverse-reverse ys
    where
      reversed_equal : reversed_chain (reverse xs) ≡ reversed_chain (reverse ys)
      reversed_equal = reversed_chain-reverse xs ∙ e ∙ sym (reversed_chain-reverse ys)

  reversed_chain-nonzero : (xs : List PublicKey) → reversed_chain xs ≢ 0
  unfolding reversed_chain initial_owner_chain owner_chain_link
  reversed_chain-nonzero [] = h.nonzero _ _
  reversed_chain-nonzero (x ∷ xs) = h.nonzero _ _

  -- No owner list has the commitment 0, which stands for an uninitialised guard.
  pub compute_owner_chain-nonzero : (xs : List PublicKey) → compute_owner_chain xs ≢ 0
  compute_owner_chain-nonzero xs e =
      reversed_chain-nonzero (reverse xs) (reversed_chain-reverse xs ∙ e)
