-- ===== src/Rebuild/Verify.antt =====
-- contracts/src/event-rebuild.ts: the comparison of rebuilt stores with the chain. A value given as a
-- `Field` stands for its text. A message is cut before the label and the divergent block.
use text.Mathlib.Text.{◌==◌ as str_eq}
use text.Mathlib.TextEquality.{eq_iff}
use mina_guard.Base.{
  String, ◌≡◌, ◌↔◌, Bool, true, Option, none, some, Result, ok, require, ◌>>◌, refl, arith,
}
use mina_guard.Platform.{Field, Platform}
use mina_guard.Platform.Maps.{MerkleMaps, Numerals}
use mina_guard.Storage.{get_commitment}
use mina_guard.Rebuild.Stores.{RebuiltStores}

pub record ChainState : Type 0 where
  pub owners_commitment : Option String
  pub approval_root : Option String
  pub vote_nullifier_root : Option String

module _ ⦃n : Numerals⦄ where
  -- `given == null || sameValue(given, value)`
  abbrev pub same_if_given : Option String → Field → Bool
  same_if_given none value = true
  same_if_given (some text) value = str_eq text (n.field_text value)

  -- A value that is given is the text of `value`.
  abbrev pub Agrees : Option String → Field → Type 0
  Agrees none value = Unit
  Agrees (some text) value = text ≡ n.field_text value

  same_if_given_iff :
      (given : Option String) (value : Field)
      → (same_if_given given value ≡ true) ↔ Agrees given value
  same_if_given_iff none value = ((λ _. tt), (λ _. refl))
  same_if_given_iff (some text) value = eq_iff text (n.field_text value)

module _ {Map : Type 0} ⦃m : MerkleMaps Map⦄ ⦃n : Numerals⦄ ⦃o : Platform⦄ where
  unfoldable pub assert_stores_match_chain : RebuiltStores Map → ChainState → Result (Unit {0})
  assert_stores_match_chain stores chain = do
    require (same_if_given chain.owners_commitment (get_commitment stores.owners))
        "Rebuilt owner list does not match"
    require (same_if_given chain.approval_root (m.get_root stores.approval_store.map))
        "Rebuilt approval map does not match"
    require (same_if_given chain.vote_nullifier_root (m.get_root stores.nullifier_store.map))
        "Rebuilt vote nullifier map does not match"

  -- `assertChildExecutionMapMatchesChain`
  unfoldable pub assert_child_execution_map_matches_chain : Map → Option String → Result (Unit {0})
  assert_child_execution_map_matches_chain map chain_root =
      require (same_if_given chain_root (m.get_root map))
        "Rebuilt child execution map does not match"

  -- The commitment of the owners and the roots of both maps are the ones given.
  abbrev pub MatchesChain : RebuiltStores Map → ChainState → Type 0
  MatchesChain stores chain =
      Agrees chain.owners_commitment (get_commitment stores.owners)
      × Agrees chain.approval_root (m.get_root stores.approval_store.map)
      × Agrees chain.vote_nullifier_root (m.get_root stores.nullifier_store.map)

  -- The comparison passes exactly for the stores that match each value that is given.
  pub assert_stores_match_chain_iff :
      (stores : RebuiltStores Map) (chain : ChainState)
      → (assert_stores_match_chain stores chain ≡ ok tt) ↔ MatchesChain stores chain
  unfolding assert_stores_match_chain
  assert_stores_match_chain_iff stores chain =
      let owners = same_if_given_iff chain.owners_commitment (get_commitment stores.owners) in
      let approvals =
        same_if_given_iff chain.approval_root (m.get_root stores.approval_store.map) in
      let votes =
        same_if_given_iff chain.vote_nullifier_root (m.get_root stores.nullifier_store.map) in
      let checks : ((assert_stores_match_chain stores chain ≡ ok tt)
          → (same_if_given chain.owners_commitment (get_commitment stores.owners) ≡ true)
            × (same_if_given chain.approval_root (m.get_root stores.approval_store.map) ≡ true)
            × (same_if_given chain.vote_nullifier_root (m.get_root stores.nullifier_store.map)
                ≡ true)) =
        λ h. ground arith in
      (
        (λ h. let (a, b, c) = checks h in (owners.0 a, approvals.0 b, votes.0 c)),
        (λ matching. rw (owners.1 matching.0, approvals.1 matching.1, votes.1 matching.2) refl),
      )
