-- ===== src/Examples/Ideal.antt =====
-- A concrete platform that meets the hypotheses on hashes and Merkle maps: hashes number their
-- inputs one to one, and the root of a map numbers the list of its writes.
use Prim.Native.Char.{code}
use text.Mathlib.TextEquality.{Char-path}
use mina_guard.Base.{
  ℕ, ◌<◌, ◌^◌, suc, String, ◌≡◌, refl, sym, ◌∙◌, ap, true, false, List, [], ◌∷◌, get_or, not, ◌&&◌,
  &&-true, ◌==◌, if◌then◌else◌, Bool-cases, ==_iff, inl, inr, arith,
}
use mina_guard.Platform.{Field, Platform, testnet}
use mina_guard.Platform.Laws.{HashLaws, MerkleLaws, SignerLaws, update}
use mina_guard.Examples.Pairing.{pair, pair-injective, pair-nonzero, encode, encode-injective}

unfoldable pub codes : String → List ℕ
codes String.[] = []
codes (String.◌∷◌ c s) = code c ∷ codes s

codes-injective : (s t : String) → codes s ≡ codes t → s ≡ t
unfolding codes
codes-injective String.[] String.[] h = refl
codes-injective String.[] (String.◌∷◌ d t) h = cc
codes-injective (String.◌∷◌ c s) String.[] h = cc
codes-injective (String.◌∷◌ c s) (String.◌∷◌ d t) h = λ i.
    String.◌∷◌ (Char-path c d (ap (λ (xs : List ℕ). get_or xs 0 0) h) i)
      (codes-injective s t (ap tail h) i)
  where
    tail : List ℕ → List ℕ
    tail [] = []
    tail (x ∷ xs) = xs

unfoldable pub ideal_hash : String → List Field → Field
unfolding codes
ideal_hash prefix fields = pair (encode (codes prefix)) (encode fields)

-- The value of a key in a list of writes, latest first.
unfoldable pub find : List Field → Field → Field
find [] j = 0
find (k ∷ []) j = 0
find (k ∷ v ∷ rest) j = if k == j then v else find rest j

-- The witness of key `k` in the map with the writes `rest` has the siblings `k ∷ rest`.
unfoldable pub ideal_path : List Field → Field → Field × Field
unfolding find
ideal_path [] v = (0, 0)
ideal_path (k ∷ rest) v =
    (if find rest k == v then suc (encode rest) else suc (encode (k ∷ v ∷ rest)), k)

pub order_is_large :
    2 ^ 64 < 28948022309329048855892746252171976963363056481941560715954676764349967630337
order_is_large = omega arith

instance unfoldable pub ideal : Platform
unfolding ideal_hash ideal_path
ideal = record {
  order = 28948022309329048855892746252171976963363056481941560715954676764349967630337;
  order_large = order_is_large;
  hash_with_prefix = ideal_hash;
  empty_map_root = 1;
  compute_root_and_key = λ w v. ideal_path w.siblings v;
  is_point = λ pk. not (pk.x == 0);
  generator_key = record { x = 1; is_odd = false };
  generator_point = refl;
  verify = λ sig pk message. not (pk.x == 0) && (sig.r == pk.x && sig.s == get_or message 0 0);
  network_domain_name = testnet;
}

pub ideal-HashLaws : HashLaws ideal
unfolding ideal ideal_hash
ideal-HashLaws = record {
  same_prefix = λ p q xs ys h. codes-injective p q (
      encode-injective (codes p) (codes q)
        (pair-injective (encode (codes p)) (encode xs) (encode (codes q)) (encode ys) h).0);
  same_fields = λ p q xs ys h.
      encode-injective xs ys
        (pair-injective (encode (codes p)) (encode xs) (encode (codes q)) (encode ys) h).1;
  nonzero = λ p xs h. pair-nonzero (encode (codes p)) (encode xs) h;
}

-- The root commits to what the writes say.
abbrev IsRootOf : Field → (Field → Field) → Type 0
IsRootOf r f =
    (writes : List Field) × (r ≡ suc (encode writes)) × ((j : Field) → f j ≡ find writes j)

suc-encode-injective : (xs ys : List Field) → suc (encode xs) ≡ suc (encode ys) → xs ≡ ys
suc-encode-injective xs ys h = encode-injective xs ys (omega arith)

-- The writes behind the root that a witness computes.
computed_writes : Field → List Field → Field → List Field
unfolding find
computed_writes k rest v = if find rest k == v then rest else k ∷ v ∷ rest

computed_root :
    (k : Field) (rest : List Field) (v : Field)
    → (ideal_path (k ∷ rest) v).0 ≡ suc (encode (computed_writes k rest v))
unfolding ideal_path computed_writes
computed_root k rest v = elim (Bool-cases (find rest k == v)) [
  | inl same ↦ ground arith
  | inr other ↦ ground arith
]

computed_values :
    (k : Field) (rest : List Field) (v j : Field)
    → find (computed_writes k rest v) j ≡ (if k == j then v else find rest j)
unfolding computed_writes find
computed_values k rest v j = elim (Bool-cases (find rest k == v)) [
  | inl same ↦ elim (Bool-cases (k == j)) [
    | inl hit ↦ ground (arith, ap (find rest) ((==_iff k j).0 hit))
    | inr miss ↦ ground arith
  ]
  | inr other ↦ ground arith
]

path_opens :
    (siblings : List Field) (k v r : Field) (f : Field → Field)
    → IsRootOf r f
    → (ideal_path siblings v).0 ≡ r
    → (ideal_path siblings v).1 ≡ k
    → f k ≡ v
unfolding ideal_path
path_opens [] k v r f (writes, root, values) h hk = absurd (omega arith)
path_opens (k' ∷ rest) k v r f (writes, root, values) h hk =
    values k
    ∙ ap (λ (ws : List Field). find ws k) (sym same)
    ∙ computed_values k' rest v k
    ∙ rw ((==_iff k' k).1 hk)
  where
    same : computed_writes k' rest v ≡ writes
    same =
        suc-encode-injective (computed_writes k' rest v) writes
          (sym (computed_root k' rest v) ∙ h ∙ root)

path_writes :
    (siblings : List Field) (k v v' r : Field) (f : Field → Field)
    → IsRootOf r f
    → (ideal_path siblings v).0 ≡ r
    → (ideal_path siblings v).1 ≡ k
    → IsRootOf (ideal_path siblings v').0 (update f k v')
unfolding ideal_path
path_writes [] k v v' r f (writes, root, values) h hk = absurd (omega arith)
path_writes (k' ∷ rest) k v v' r f (writes, root, values) h hk =
    (computed_writes k' rest v', computed_root k' rest v', updated)
  where
    same : computed_writes k' rest v ≡ writes
    same =
        suc-encode-injective (computed_writes k' rest v) writes
          (sym (computed_root k' rest v) ∙ h ∙ root)

    elsewhere : (j : Field) → (k == j) ≡ false → f j ≡ find rest j
    elsewhere j miss =
        values j
        ∙ ap (λ (ws : List Field). find ws j) (sym same)
        ∙ computed_values k' rest v j
        ∙ rw (ap (λ (i : Field). i == j) hk ∙ miss)

    moved : (j : Field) → (k == j) ≡ true → update f k v' j ≡ v'
    moved j hit = rw hit

    kept : (j : Field) → (k == j) ≡ false → update f k v' j ≡ f j
    kept j miss = rw miss

    updated : (j : Field) → update f k v' j ≡ find (computed_writes k' rest v') j
    updated j = elim (Bool-cases (k == j)) [
      | inl hit ↦
          moved j hit
          ∙ sym (computed_values k' rest v' j ∙ rw (ap (λ (i : Field). i == j) hk ∙ hit))
      | inr miss ↦
          kept j miss
          ∙ elsewhere j miss
          ∙ sym (computed_values k' rest v' j ∙ rw (ap (λ (i : Field). i == j) hk ∙ miss))
    ]

pub ideal-MerkleLaws : MerkleLaws ideal
unfolding ideal find encode
ideal-MerkleLaws = record {
  IsRoot = IsRootOf;
  empty = ([], refl, λ j. refl);
  opens = λ w k v r f. path_opens w.siblings k v r f;
  writes = λ w k v v' r f. path_writes w.siblings k v v' r f;
}

pub ideal-SignerLaws : SignerLaws ideal
unfolding ideal
ideal-SignerLaws = record {
  signer_point = λ sig k message signed. (&&-true (not (k.x == 0)) _ signed).0;
}
