-- ===== src/Storage/Order.antt =====
-- The order of `addSorted` of `class OwnerStore`: the lexicographic order of the base58 texts.
use Prim.Native.String.compare
use Prim.Native.String.{compare, then as joined}
use Prim.Native.Nat.{Ordering, compare as compare_ℕ}
use Prim.Native.Char.{Char, code}
use text.Mathlib.TextEquality.{Char-path}
use mina_guard.Base.{
  ◌<◌, ◌≡◌, ◌≢◌, ◌⊎◌, ◌↔◌, String, true, false, List, [], ◌∷◌, All, In, Bool-cases, Option-cases,
  refl, sym, ltb, ◌==◌, ==_iff, ◌||◌, ◌&&◌, false≢true, if◌then◌else◌, ap, ◌∙◌, subst, inl, inr,
  arith,
}
use mina_guard.Platform.{PublicKey}
use mina_guard.Storage.{Encoding, text_lt, comes_after, find_index, add_sorted}

-- The first character that differs decides; a proper prefix is less.
abbrev pub Less : String → String → Type 0
Less s String.[] = ⊥
Less String.[] (String.◌∷◌ d t) = Unit {0}
Less (String.◌∷◌ c s) (String.◌∷◌ d t) = (code c < code d) ⊎ ((c ≡ d) × Less s t)

then_less :
    (first later : Ordering)
    → elim (joined first later) [ Ordering.lt ↦ true | _ ↦ false ] ≡ (
        elim first [ Ordering.lt ↦ true | _ ↦ false ]
        || elim first [ Ordering.eq ↦ true | _ ↦ false ]
          && elim later [ Ordering.lt ↦ true | _ ↦ false ])
then_less Ordering.lt later = refl
then_less Ordering.eq later = refl
then_less Ordering.gt later = refl

text_lt-cons :
    (c d : Char) (s t : String)
    → text_lt (String.◌∷◌ c s) (String.◌∷◌ d t)
      ≡ (ltb (code c) (code d) || code c == code d && text_lt s t)
text_lt-cons c d s t =
    ap (λ o. elim o [ Ordering.lt ↦ true | _ ↦ false ]) (compare.cons-cons c d s t)
    ∙ then_less (compare_ℕ (code c) (code d)) (compare s t)

text_lt_iff : (s t : String) → (text_lt s t ≡ true) ↔ Less s t
text_lt_iff String.[] String.[] = ((λ h. cc), (λ h. absurd h))
text_lt_iff (String.◌∷◌ c s) String.[] = (
  (λ h. absurd (
      false≢true
        (sym (ap (λ o. elim o [ Ordering.lt ↦ true | _ ↦ false ]) (compare.cons-nil c s)) ∙ h))),
  (λ h. absurd h),
)
text_lt_iff String.[] (String.◌∷◌ d t) =
    ((λ h. tt), (λ h. ap (λ o. elim o [ Ordering.lt ↦ true | _ ↦ false ]) (compare.nil-cons d t)))
text_lt_iff (String.◌∷◌ c s) (String.◌∷◌ d t) =
    let rest = text_lt_iff s t in
    rw (text_lt-cons c d s t) (
      (λ h. ground (arith, rest.0, Char-path c d)),
      (λ h. elim h [
        | inl less ↦ ground arith
        | inr (same, later) ↦
            let codes : code c ≡ code d = ap code same in let hit = rest.1 later in ground arith
      ]),
    )

ordered_trans : (r s t : String) → Less r s → Less s t → Less r t
ordered_trans r s String.[] h k = absurd k
ordered_trans r String.[] (String.◌∷◌ e t) h k = absurd h
ordered_trans String.[] (String.◌∷◌ d s) (String.◌∷◌ e t) h k = tt
ordered_trans (String.◌∷◌ c r) (String.◌∷◌ d s) (String.◌∷◌ e t) (inl h) (inl k) = inl (omega arith)
ordered_trans (String.◌∷◌ c r) (String.◌∷◌ d s) (String.◌∷◌ e t) (inl h) (inr k) =
    inl (subst (λ x. code c < code x) k.0 h)
ordered_trans (String.◌∷◌ c r) (String.◌∷◌ d s) (String.◌∷◌ e t) (inr h) (inl k) =
    inl (subst (λ x. code x < code e) (sym h.0) k)
ordered_trans (String.◌∷◌ c r) (String.◌∷◌ d s) (String.◌∷◌ e t) (inr h) (inr k) =
    inr (h.0 ∙ k.0, ordered_trans r s t h.1 k.1)

ordered_total : (s t : String) → Less s t ⊎ (s ≡ t) ⊎ Less t s
ordered_total String.[] String.[] = inr (inl refl)
ordered_total (String.◌∷◌ c s) String.[] = inr (inr tt)
ordered_total String.[] (String.◌∷◌ d t) = inl tt
ordered_total (String.◌∷◌ c s) (String.◌∷◌ d t) = elim (Bool-cases (code c == code d)) [
  | inl same ↦
      let equal = Char-path c d ((==_iff (code c) (code d)).0 same) in
      elim (ordered_total s t) [
        | inl less ↦ inl (inr (equal, less))
        | inr (inl rest) ↦ inr (inl (λ i. String.◌∷◌ (equal i) (rest i)))
        | inr (inr more) ↦ inr (inr (inr (sym equal, more)))
      ]
  | inr other ↦ elim (Bool-cases (ltb (code c) (code d))) [
    | inl less ↦ inl (inl (ground arith))
    | inr more ↦ inr (inr (inl (ground arith)))
  ]
]

module _ ⦃e : Encoding⦄ where
  abbrev pub Before : PublicKey → PublicKey → Type 0
  Before a b = Less (e.to_base58 a) (e.to_base58 b)

  -- Every key is before all later ones.
  abbrev pub Ascending : List PublicKey → Type 0
  Ascending [] = Unit
  Ascending (x ∷ xs) = All (Before x) xs × Ascending xs

  All-Before_after :
      (a b : PublicKey) (xs : List PublicKey) → Before a b → All (Before b) xs → All (Before a) xs
  All-Before_after a b [] h k = tt
  All-Before_after a b (x ∷ xs) h k =
      (ordered_trans _ _ (e.to_base58 x) h k.0, All-Before_after a b xs h k.1)

  before : (owner x : PublicKey) → comes_after owner x ≡ false → owner ≢ x → Before x owner
  before owner x miss other = elim (ordered_total (e.to_base58 owner) (e.to_base58 x)) [
    | inl less ↦ absurd (false≢true (sym miss ∙ (text_lt_iff _ _).1 less))
    | inr (inl same) ↦ absurd (other (e.injective owner x same))
    | inr (inr more) ↦ more
  ]

  add_sorted-cons :
      (owner x : PublicKey) (xs : List PublicKey)
      → add_sorted owner (x ∷ xs)
        ≡ (if comes_after owner x then owner ∷ x ∷ xs else x ∷ add_sorted owner xs)
  unfolding add_sorted
  add_sorted-cons owner x xs = elim (Bool-cases (comes_after owner x)) [
    | inl here ↦ rw (add_sorted, here) refl
    | inr later ↦ elim (Option-cases (find_index (comes_after owner) xs)) [
      | inl nowhere ↦ rw (add_sorted, later, nowhere) refl
      | inr (i, found) ↦ rw (add_sorted, later, found) refl
    ]
  ]

  add_sorted-All :
      (x owner : PublicKey) (xs : List PublicKey)
      → All (Before x) xs
      → Before x owner
      → All (Before x) (add_sorted owner xs)
  unfolding add_sorted
  add_sorted-All x owner [] h k = (k, tt)
  add_sorted-All x owner (y ∷ ys) h k = elim (Bool-cases (comes_after owner y)) [
    | inl here ↦ rw (add_sorted-cons owner y ys, here) (k, h)
    | inr later ↦ rw (add_sorted-cons owner y ys, later) (h.0, add_sorted-All x owner ys h.1 k)
  ]

  pub add_sorted-Ascending :
      (owner : PublicKey) (owners : List PublicKey)
      → ¬ In owner owners
      → Ascending owners
      → Ascending (add_sorted owner owners)
  unfolding add_sorted
  add_sorted-Ascending owner [] new up = (tt, tt)
  add_sorted-Ascending owner (x ∷ xs) new up = elim (Bool-cases (comes_after owner x)) [
    | inl here ↦
        let less = (text_lt_iff (e.to_base58 owner) (e.to_base58 x)).0 here in
        rw (add_sorted-cons owner x xs, here) ((less, All-Before_after owner x xs less up.0), up)
    | inr later ↦
        rw (add_sorted-cons owner x xs, later)
          (
            add_sorted-All x owner xs up.0 (before owner x later (λ same. new (inl same))),
            add_sorted-Ascending owner xs (λ i. new (inr i)) up.1,
          )
  ]
