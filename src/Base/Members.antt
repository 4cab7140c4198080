-- ===== src/Base/Members.antt =====
-- Membership in lists: appended, filtered and mapped lists.
use mathlib.Core.Path.{◌≡◌, subst, ◌∙◌, sym, ap, refl}
use mathlib.Core.Logic.{◌↔◌, ◌⊎◌, inl, inr}
use mathlib.Core.Bool.{Bool, true, false, false≢true}
use mathlib.Core.List.{List, [], ◌∷◌, ◌++◌}
use mina_guard.Base.Lists.{In, any, all, filter}
use mina_guard.Base.Tests.{if◌then◌else◌, Bool-cases, &&-true}

module _ {A : Type 0} where
  -- The same entries, in any order and any number of times.
  abbrev pub SameMembers : List A → List A → Type 0
  SameMembers xs ys = (a : A) → In a xs ↔ In a ys

  pub In-append_left : (a : A) (xs ys : List A) → In a xs → In a (xs ++ ys)
  In-append_left a [] ys i = elim i [ ]
  In-append_left a (x ∷ xs) ys (inl same) = inl same
  In-append_left a (x ∷ xs) ys (inr i) = inr (In-append_left a xs ys i)

  pub In-append_right : (a : A) (xs ys : List A) → In a ys → In a (xs ++ ys)
  In-append_right a [] ys i = i
  In-append_right a (x ∷ xs) ys i = inr (In-append_right a xs ys i)

  pub In-append : (a : A) (xs ys : List A) → In a (xs ++ ys) → In a xs ⊎ In a ys
  In-append a [] ys i = inr i
  In-append a (x ∷ xs) ys (inl same) = inl (inl same)
  In-append a (x ∷ xs) ys (inr i) = elim (In-append a xs ys i) [
    | inl left ↦ inl (inr left)
    | inr right ↦ inr right
  ]

  pub In-filter : (p : A → Bool) (a : A) (xs : List A) → In a xs → p a ≡ true → In a (filter p xs)
  In-filter p a [] i h = elim i [ ]
  In-filter p a (x ∷ xs) (inl same) h = rw (ap p (sym same) ∙ h) (inl same)
  In-filter p a (x ∷ xs) (inr i) h = elim (Bool-cases (p x)) [
    | inl kept ↦ rw kept (inr (In-filter p a xs i h))
    | inr dropped ↦ rw dropped (In-filter p a xs i h)
  ]

  mem_of_kept : (b : Bool) (a x : A) (xs : List A) → In a (if b then x ∷ xs else xs) → In a (x ∷ xs)
  mem_of_kept true a x xs i = i
  mem_of_kept false a x xs i = inr i

  pub mem_of_filter : (p : A → Bool) (a : A) (xs : List A) → In a (filter p xs) → In a xs
  mem_of_filter p a [] i = i
  mem_of_filter p a (x ∷ xs) i = elim (mem_of_kept (p x) a x (filter p xs) i) [
    | inl same ↦ inl same
    | inr later ↦ inr (mem_of_filter p a xs later)
  ]

  pub filter-passes : (p : A → Bool) (a : A) (xs : List A) → In a (filter p xs) → p a ≡ true
  filter-passes p a [] i = elim i [ ]
  filter-passes p a (x ∷ xs) i = elim (Bool-cases (p x)) [
    | inl kept ↦ elim (subst (λ b. In a (if b then x ∷ filter p xs else filter p xs)) kept i) [
      | inl same ↦ ap p same ∙ kept
      | inr later ↦ filter-passes p a xs later
    ]
    | inr dropped ↦
        filter-passes p a xs
          (subst (λ b. In a (if b then x ∷ filter p xs else filter p xs)) dropped i)
  ]

  pub all-In : (p : A → Bool) (a : A) (xs : List A) → all p xs ≡ true → In a xs → p a ≡ true
  all-In p a [] h i = elim i [ ]
  all-In p a (x ∷ xs) h (inl same) = ap p same ∙ (&&-true (p x) (all p xs) h).0
  all-In p a (x ∷ xs) h (inr i) = all-In p a xs (&&-true (p x) (all p xs) h).1 i

  pub any-In : (p : A → Bool) (a : A) (xs : List A) → In a xs → p a ≡ true → any p xs ≡ true
  any-In p a [] i h = elim i [ ]
  any-In p a (x ∷ xs) (inl same) h = rw (ap p (sym same) ∙ h) refl
  any-In p a (x ∷ xs) (inr i) h = elim (Bool-cases (p x)) [
    | inl hit ↦ rw hit refl
    | inr miss ↦ rw miss (any-In p a xs i h)
  ]

  pub mem_of_any : (p : A → Bool) (xs : List A) → any p xs ≡ true → (a : A) × In a xs × (p a ≡ true)
  mem_of_any p [] h = absurd (false≢true h)
  mem_of_any p (x ∷ xs) h = elim (Bool-cases (p x)) [
    | inl hit ↦ (x, inl refl, hit)
    | inr miss ↦ let (a, i, found) = mem_of_any p xs (sym (rw miss refl) ∙ h) in (a, inr i, found)
  ]

  -- Two lists with the same members: a test that one of them passes somewhere, the other does.
  pub any-SameMembers : (p : A → Bool) (xs ys : List A) → SameMembers xs ys → any p xs ≡ any p ys
  any-SameMembers p xs ys same = elim (Bool-cases (any p xs)) [
    | inl hit ↦
        let (a, i, found) = mem_of_any p xs hit in hit ∙ sym (any-In p a ys ((same a).0 i) found)
    | inr miss ↦ elim (Bool-cases (any p ys)) [
      | inl hit ↦
          let (a, i, found) = mem_of_any p ys hit in any-In p a xs ((same a).1 i) found ∙ sym hit
      | inr still ↦ miss ∙ sym still
    ]
  ]
