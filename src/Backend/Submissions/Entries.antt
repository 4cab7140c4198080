-- ===== src/Backend/Submissions/Entries.antt =====
-- The map of the running checks of backend/src/submission-check.ts: lookups and deletions by key.
use text.Mathlib.Text.{◌==◌ as str_eq}
use text.Mathlib.TextEquality.{eq_iff}
use mina_guard.Base.{
  ℕ, ◌+◌, ◌≡◌, String, true, not, none, some, List, [], ◌∷◌, In, Distinct, map, length, ◌==◌, bit,
  inl, inr, Bool-cases, sym, ap, if◌then◌else◌, subst, refl, arith,
}
use mina_guard.Backend.Submissions.{Report, running_get, running_delete}

abbrev pub Entries : Type 0
Entries = List (String × Report)

-- How many of the checks are of the proposal `id`.
abbrev pub count_of : ℕ → Entries → ℕ
count_of id [] = 0
count_of id (e ∷ es) = count_of id es + bit (e.1.proposal_id == id)

abbrev pub keys : Entries → List String
keys es = map (λ (e : String × Report). e.0) es

pub unlisted : (key : String) (es : Entries) → running_get es key ≡ none → ¬ In key (keys es)
unlisted key [] h i = elim i [ ]
unlisted key ((k, r) ∷ es) h (inl same) =
    let found : running_get ((k, r) ∷ es) key ≡ some r = rw ((eq_iff k key).1 (sym same)) refl in cc
unlisted key ((k, r) ∷ es) h (inr i) = elim (Bool-cases (str_eq k key)) [
  | inl mine ↦ let found : running_get ((k, r) ∷ es) key ≡ some r = rw mine refl in cc
  | inr other ↦
      unlisted key es (subst (λ b. (if b then some r else running_get es key) ≡ none) other h) i
]

pub listed :
    (key : String) (es : Entries) (r : Report) → running_get es key ≡ some r → In key (keys es)
listed key [] r h = cc
listed key ((k, q) ∷ es) r h = elim (Bool-cases (str_eq k key)) [
  | inl mine ↦ inl (sym ((eq_iff k key).0 mine))
  | inr other ↦
      inr
        (listed key es r (subst (λ b. (if b then some q else running_get es key) ≡ some r) other h))
]

pub delete_absent : (key : String) (es : Entries) → ¬ In key (keys es) → running_delete es key ≡ es
delete_absent key [] h = refl
delete_absent key ((k, r) ∷ es) h = elim (Bool-cases (str_eq k key)) [
  | inl same ↦ absurd (h (inl (sym ((eq_iff k key).0 same))))
  | inr other ↦
      rw other (ap (λ (xs : Entries). (k, r) ∷ xs) (delete_absent key es (λ i. h (inr i))))
]

mem_of_keys : (key : String) (r : Report) (es : Entries) → In (key, r) es → In key (keys es)
mem_of_keys key r [] i = elim i [ ]
mem_of_keys key r (e ∷ es) (inl same) = inl (ap (λ (x : String × Report). x.0) same)
mem_of_keys key r (e ∷ es) (inr i) = inr (mem_of_keys key r es i)

-- Deleting a key of the map takes one check away, that of its report.
pub delete_present :
    (key : String) (r : Report) (es : Entries)
    → Distinct (keys es)
    → In (key, r) es
    → (length es ≡ length (running_delete es key) + 1)
      × ((id : ℕ)
          → count_of id es ≡ count_of id (running_delete es key) + bit (r.proposal_id == id))
delete_present key r [] d i = elim i [ ]
delete_present key r ((k, q) ∷ es) d (inl same) =
    let mine : str_eq k key ≡ true =
      (eq_iff k key).1 (sym (ap (λ (x : String × Report). x.0) same)) in
    let absent : ¬ In key (keys es) =
      subst (λ x. ¬ In x (keys es)) (sym (ap (λ (x : String × Report). x.0) same)) d.0 in
    let report : r ≡ q = ap (λ (x : String × Report). x.1) same in
    rw mine (rw (delete_absent key es absent) (omega arith, λ id. rw report refl))
delete_present key r ((k, q) ∷ es) d (inr i) = elim (Bool-cases (str_eq k key)) [
  | inl mine ↦
      absurd
        (d.0 (subst (λ x. In x (keys es)) (sym ((eq_iff k key).0 mine)) (mem_of_keys key r es i)))
  | inr other ↦
      let (shorter, fewer) = delete_present key r es d.1 i in
      rw other (omega (arith, shorter), λ id. omega (arith, fewer id))
]

mem_of_deleted :
    (x key : String) (es : Entries) → In x (keys (running_delete es key)) → In x (keys es)
mem_of_deleted x key [] i = i
mem_of_deleted x key ((k, r) ∷ es) i = elim (Bool-cases (str_eq k key)) [
  | inl mine ↦ inr (
      mem_of_deleted x key es (
        subst
          (λ b.
            In x (keys (if not b then (k, r) ∷ running_delete es key else running_delete es key)))
          mine i))
  | inr other ↦
      elim (subst
        (λ b. In x (keys (if not b then (k, r) ∷ running_delete es key else running_delete es key)))
        other i) [ inl same ↦ inl same | inr later ↦ inr (mem_of_deleted x key es later) ]
]

pub delete-Distinct :
    (key : String) (es : Entries) → Distinct (keys es) → Distinct (keys (running_delete es key))
delete-Distinct key [] d = tt
delete-Distinct key ((k, r) ∷ es) d = elim (Bool-cases (str_eq k key)) [
  | inl mine ↦ rw mine (delete-Distinct key es d.1)
  | inr other ↦ rw other ((λ i. d.0 (mem_of_deleted k key es i)), delete-Distinct key es d.1)
]
