-- ===== src/Owners/Setup.antt =====
-- `computeSetupOwnersChain` and `assertCoherentSetupOwners`: theorems on the owner array.
use mina_guard.Base.{
  ℕ, suc, ◌-◌, ◌≡◌, ◌≢◌, ◌↔◌, refl, ap, subst, ◌∙◌, true, false, List, [], ◌∷◌, take, drop,
  take-nil, drop-nil, All, ok, ltb, Bool-cases, inl, inr, arith,
}
use mina_guard.Platform.{Field, PublicKey, Platform, is_empty}
use mina_guard.Constants.{initial_owner_chain}
use mina_guard.Hashes.{owner_chain_link}
use mina_guard.Owners.{
  owner_chain_from, compute_owner_chain, setup_chain_from, compute_setup_owners_chain,
  assert_on_curve_if, check_later, check_slots, assert_coherent_setup_owners,
}

-- No later key has the x-coordinate of an earlier one.
abbrev pub XDistinct : List PublicKey → Type 0
XDistinct [] = Unit
XDistinct (pk ∷ owners) = All (λ other. pk.x ≢ other.x) owners × XDistinct owners

slot_open : (n i : ℕ) → ltb i n ≡ true → n - i ≡ suc (n - suc i)
slot_open n i e = ground arith

slot_padding : (n i : ℕ) → ltb i n ≡ false → (n - i ≡ 0) × (n - suc i ≡ 0)
slot_padding n i e = (ground arith, ground arith)

module _ ⦃o : Platform⦄ where
  setup_chain_from_lem :
      (n : ℕ) (c : Field) (i : ℕ) (xs : List PublicKey)
      → setup_chain_from n c i xs ≡ owner_chain_from c (take (n - i) xs)
  unfolding setup_chain_from owner_chain_from
  setup_chain_from_lem n c i [] = rw (take-nil (n - i))
  setup_chain_from_lem n c i (x ∷ xs) = elim (Bool-cases (ltb i n)) [
    | inl active ↦
        rw (active, slot_open n i active) (setup_chain_from_lem n (owner_chain_link c x) (suc i) xs)
    | inr padding ↦
        rw (padding, (slot_padding n i padding).0)
          (rw ((slot_padding n i padding).1) at (setup_chain_from_lem n c (suc i) xs))
  ]

  -- The setup commitment of an owner array is the owner chain of its first `numOwners` keys.
  pub compute_setup_owners_chain_lem :
      (owners : List PublicKey) (n : ℕ)
      → compute_setup_owners_chain owners n ≡ compute_owner_chain (take n owners)
  unfolding compute_setup_owners_chain compute_owner_chain
  compute_setup_owners_chain_lem owners n =
      setup_chain_from_lem n initial_owner_chain 0 owners
      ∙ ap (λ (k : ℕ). owner_chain_from initial_owner_chain (take k owners)) (omega arith)

  pub record IsSignable (pk : PublicKey) : Type 0 where
    pub nonempty : is_empty pk ≡ false
    pub on_curve : o.is_point pk ≡ true

  -- What the setup circuit means to check.
  pub record IsCoherent (n : ℕ) (owners : List PublicKey) : Type 0 where
    pub signable : All IsSignable (take n owners)
    pub distinct : XDistinct (take n owners)
    pub padding : All (λ pk. is_empty pk ≡ true) (drop n owners)

  check_later-inactive :
      (n : ℕ) (pk : PublicKey) (j : ℕ) (xs : List PublicKey) → check_later n pk false j xs ≡ ok tt
  unfolding check_later
  check_later-inactive n pk j [] = refl
  check_later-inactive n pk j (x ∷ xs) = ground (arith, check_later-inactive n pk (suc j) xs)

  -- Behind the active slots every slot is inactive.
  check_later-padding :
      (n : ℕ) (pk : PublicKey) (j : ℕ) (xs : List PublicKey)
      → ltb j n ≡ false
      → check_later n pk true j xs ≡ ok tt
  unfolding check_later
  check_later-padding n pk j [] e = refl
  check_later-padding n pk j (x ∷ xs) e = ground (arith, check_later-padding n pk (suc j) xs)

  check_later-active :
      (n : ℕ) (pk : PublicKey) (j : ℕ) (xs : List PublicKey)
      → (check_later n pk true j xs ≡ ok tt) ↔ All (λ other. pk.x ≢ other.x) (take (n - j) xs)
  unfolding check_later
  check_later-active n pk j [] = rw (take-nil (n - j)) ((λ _. tt), (λ _. refl))
  check_later-active n pk j (x ∷ xs) = elim (Bool-cases (ltb j n)) [
    | inl active ↦
        let rest = check_later-active n pk (suc j) xs in
        rw (slot_open n j active) ((λ e. ground (arith, rest.0)), (λ h. ground (arith, rest.1 h.1)))
    | inr padding ↦
        rw ((slot_padding n j padding).0)
          ((λ _. tt), (λ _. ground (arith, check_later-padding n pk (suc j) xs)))
  ]

  abbrev CoherentFrom : ℕ → List PublicKey → Type 0
  CoherentFrom k owners =
      All IsSignable (take k owners)
      × XDistinct (take k owners)
      × All (λ pk. is_empty pk ≡ true) (drop k owners)

  check_slots_iff :
      (n i : ℕ) (xs : List PublicKey) → (check_slots n i xs ≡ ok tt) ↔ CoherentFrom (n - i) xs
  unfolding check_slots assert_on_curve_if
  check_slots_iff n i [] =
      rw (take-nil (n - i), drop-nil (n - i)) ((λ _. (tt, tt, tt)), (λ _. refl))
  check_slots_iff n i (x ∷ xs) = elim (Bool-cases (ltb i n)) [
    | inl active ↦
        let rest = check_slots_iff n (suc i) xs in
        let later = check_later-active n x (suc i) xs in
        rw (slot_open n i active) (
          rw active (
            (λ e. ground (arith, later.0, rest.0)),
            (λ h. ground (arith, later.1 h.1.0, rest.1 (h.0.1, h.1.1, h.2))),
          ))
    | inr padding ↦
        let rest = rw ((slot_padding n i padding).1) at (check_slots_iff n (suc i) xs) in
        rw ((slot_padding n i padding).0, padding, check_later-inactive)
          (
            (λ e. ground (arith, rest.0)),
            (λ h. ground (arith, o.generator_point, rest.1 (tt, tt, h.2.1))),
          )
  ]

  -- Setup accepts an owner array exactly when its first `numOwners` slots hold keys that can
  -- sign, no two with the same x-coordinate, and every other slot is empty.
  pub assert_coherent_setup_owners_iff :
      (owners : List PublicKey) (n : ℕ)
      → (assert_coherent_setup_owners owners n ≡ ok tt) ↔ IsCoherent n owners
  unfolding assert_coherent_setup_owners
  assert_coherent_setup_owners_iff owners n =
      let all_slots : (check_slots n 0 owners ≡ ok tt) ↔ CoherentFrom n owners =
        subst (λ (k : ℕ). (check_slots n 0 owners ≡ ok tt) ↔ CoherentFrom k owners) (omega arith)
          (check_slots_iff n 0 owners) in
      (
        (λ e. let c = all_slots.0 e in record { signable = c.0; distinct = c.1; padding = c.2 }),
        (λ c. all_slots.1 (c.signable, c.distinct, c.padding)),
      )
