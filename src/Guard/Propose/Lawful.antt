-- ===== src/Guard/Propose/Lawful.antt =====
-- The proposals that `propose` is meant to accept, by the type of the proposal, and the tests on the
-- receivers in the same words.
use mina_guard.Base.{
  ◌≤◌, ◌<◌, ◌≡◌, ◌≢◌, ◌⊎◌, ◌↔◌, inl, inr, refl, true, false, List, [], ◌∷◌, All, all, drop, get_or,
  ap, sym, ◌∙◌, Bool-cases, &&-true, false≢true,
}
use mina_guard.Platform.{Field, PublicKey, Platform, empty_key, is_empty, key_eq→eq, key_eq_refl}
use mina_guard.Proposal.{Receiver, TransactionProposal, empty_receiver, at_most_one_receiver}
use mina_guard.Guard.{Guard}
use mina_guard.Guard.Propose.{slot0_empty}

pub data TxKind : Type 0 where
  transfer add_owner remove_owner change_threshold set_delegate : TxKind
  create_child allocate_child reclaim_child destroy_child enable_child_multi_sig : TxKind

-- The number of a type in a proposal.
abbrev pub number : TxKind → Field
number transfer = 0
number add_owner = 1
number remove_owner = 2
number change_threshold = 3
number set_delegate = 4
number create_child = 5
number allocate_child = 6
number reclaim_child = 7
number destroy_child = 8
number enable_child_multi_sig = 9

-- The first slot names a key.
abbrev pub IsNamed : List Receiver → Type 0
IsNamed [] = ⊥
IsNamed (r ∷ rs) = r.address ≢ empty_key

-- No slot names a key.
abbrev pub IsVacant : List Receiver → Type 0
IsVacant rs = All (λ r. r.address ≡ empty_key) rs

-- No slot but the first names a key, and no slot has an amount.
abbrev pub IsSingle : List Receiver → Type 0
IsSingle rs = IsVacant (drop 1 rs) × All (λ r. r.amount ≡ 0) rs

-- No slot names a key or has an amount.
abbrev pub IsBlank : List Receiver → Type 0
IsBlank rs = IsVacant rs × All (λ r. r.amount ≡ 0) rs

-- What a proposal of each type has: its destination (0 is LOCAL, 1 is REMOTE), its receivers and its
-- `data`.
abbrev pub Suits : TxKind → Guard → TransactionProposal → Type 0
Suits transfer s p = (p.destination ≡ 0) × (p.payload ≡ 0)
Suits add_owner s p =
    (p.destination ≡ 0) × IsNamed p.receivers × IsSingle p.receivers × (p.payload ≢ 0)
Suits remove_owner s p =
    (p.destination ≡ 0) × IsNamed p.receivers × IsSingle p.receivers × (p.payload ≡ 0)
Suits change_threshold s p =
    (p.destination ≡ 0) × IsBlank p.receivers × (0 < p.payload) × (p.payload ≤ s.num_owners)
Suits set_delegate s p = (p.destination ≡ 0) × IsSingle p.receivers × (p.payload ≡ 0)
Suits create_child s p = (p.destination ≡ 1) × IsBlank p.receivers
Suits allocate_child s p = (p.destination ≡ 0) × (p.payload ≡ 0)
Suits reclaim_child s p = (p.destination ≡ 1) × IsBlank p.receivers
Suits destroy_child s p = (p.destination ≡ 1) × IsBlank p.receivers × (p.payload ≡ 0)
Suits enable_child_multi_sig s p =
    (p.destination ≡ 1) × IsBlank p.receivers × ((p.payload ≡ 0) ⊎ (p.payload ≡ 1))

module _ ⦃o : Platform⦄ where
  -- An empty slot grants nothing; a filled one names a curve point.
  unfoldable pub IsSlot : Receiver → Type 0
  IsSlot r =
      ((r.address ≡ empty_key) × (r.amount ≡ 0))
      ⊎ ((r.address ≢ empty_key) × (o.is_point r.address ≡ true))

  -- The proposal is of one of the ten types and suits it, its token is the native one, and its
  -- slots are well formed.
  pub record IsLawful (s : Guard) (p : TransactionProposal) : Type 0 where
    pub kind : TxKind
    pub numbered : p.tx_type ≡ number kind
    pub suits : Suits kind s p
    pub native : p.token_id ≡ 1
    pub slots : All IsSlot p.receivers

pub is_empty_iff : (k : PublicKey) → (is_empty k ≡ true) ↔ (k ≡ empty_key)
is_empty_iff k = ((λ h. key_eq→eq k empty_key h), (λ h. ap is_empty h ∙ key_eq_refl empty_key))

pub filled_iff : (k : PublicKey) → (is_empty k ≡ false) ↔ (k ≢ empty_key)
filled_iff k = (
  (λ h same. false≢true (sym h ∙ (is_empty_iff k).1 same)),
  (λ other. elim (Bool-cases (is_empty k)) [
    | inl empty ↦ absurd (other ((is_empty_iff k).0 empty))
    | inr filled ↦ filled
  ]),
)

no_keys_iff : (rs : List Receiver) → (all (λ r. is_empty r.address) rs ≡ true) ↔ IsVacant rs
no_keys_iff [] = ((λ h. tt), (λ h. refl))
no_keys_iff (r ∷ rs) =
    let rest = no_keys_iff rs in
    let first = is_empty_iff r.address in
    (
      (λ h.
          let parts = &&-true _ (all (λ q. is_empty q.address) rs) h in
          (first.0 parts.0, rest.0 parts.1)),
      (λ h. rw (first.1 h.0, rest.1 h.1) refl),
    )

-- The code's tests on the slots of a proposal.
pub slot0_empty-false : (p : TransactionProposal) → (slot0_empty p ≡ false) ↔ IsNamed p.receivers
slot0_empty-false p = go p.receivers
  where
    go : (rs : List Receiver) → (is_empty (get_or rs 0 empty_receiver).address ≡ false) ↔ IsNamed rs
    go [] = ((λ h. absurd (false≢true (sym h))), (λ h. absurd h))
    go (r ∷ rs) = filled_iff r.address

pub slots_empty_iff :
    ⦃o : Platform⦄ (p : TransactionProposal)
    → ((slot0_empty p ≡ true) × (at_most_one_receiver p ≡ true)) ↔ IsVacant p.receivers
unfolding at_most_one_receiver
slots_empty_iff p = go p.receivers
  where
    go :
        (rs : List Receiver)
        → ((is_empty (get_or rs 0 empty_receiver).address ≡ true)
            × (all (λ r. is_empty r.address) (drop 1 rs) ≡ true))
          ↔ IsVacant rs
    go [] = ((λ h. tt), (λ h. (refl, refl)))
    go (r ∷ rs) = (
      (λ h. ((is_empty_iff r.address).0 h.0, (no_keys_iff rs).0 h.1)),
      (λ h. ((is_empty_iff r.address).1 h.0, (no_keys_iff rs).1 h.1)),
    )

pub at_most_one_receiver_iff :
    ⦃o : Platform⦄ (p : TransactionProposal)
    → (at_most_one_receiver p ≡ true) ↔ IsVacant (drop 1 p.receivers)
unfolding at_most_one_receiver
at_most_one_receiver_iff p = no_keys_iff (drop 1 p.receivers)
