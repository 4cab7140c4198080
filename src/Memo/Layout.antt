-- ===== src/Memo/Layout.antt =====
-- `decodeTxMemo` of contracts/src/memo.ts: theorems on the layout of the bytes.
use mina_guard.Base.{
  ℕ, zero, suc, String, ◌-◌, ◌≤◌, ◌≡◌, ◌∙◌, sym, ap, refl, false, not, List, [], ◌∷◌, ◌++◌, length,
  take, drop, replicate, any, ok, ◌==◌, length-append, length-replicate, take-append-drop,
  length-take, arith,
}
use mina_guard.Memo.{Texts, check_bytes, decode_raw}

-- The bytes before the checksum: version, tag, length, and the content padded to 32 bytes.
abbrev pub memo_data : List ℕ → List ℕ
memo_data content = 20 ∷ 1 ∷ length content ∷ (content ++ replicate (32 - length content) 0)

check_bytes-ok : (xs ys : List ℕ) → length ys ≤ length xs → check_bytes xs ys ≡ ok tt → xs ≡ ys
unfolding check_bytes
check_bytes-ok [] [] h e = refl
check_bytes-ok [] (y ∷ ys) h e = absurd (omega arith)
check_bytes-ok (x ∷ xs) [] h e = cc
check_bytes-ok (x ∷ xs) (y ∷ ys) h e = ground (arith, check_bytes-ok xs ys)

check_bytes_refl : (xs : List ℕ) → check_bytes xs xs ≡ ok tt
unfolding check_bytes
check_bytes_refl [] = refl
check_bytes_refl (x ∷ xs) = ground (arith, check_bytes_refl xs)

zeros-replicate :
    (xs : List ℕ) → any (λ byte. not (byte == 0)) xs ≡ false → xs ≡ replicate (length xs) 0
zeros-replicate [] h = refl
zeros-replicate (x ∷ xs) h = ground (arith, zeros-replicate xs)

replicate-zeros : (n : ℕ) → any (λ byte. not (byte == 0)) (replicate n 0) ≡ false
replicate-zeros zero = refl
replicate-zeros (suc n) = replicate-zeros n

take-append : (xs ys : List ℕ) → take (length xs) (xs ++ ys) ≡ xs
take-append [] ys = refl
take-append (x ∷ xs) ys = ap (λ zs. x ∷ zs) (take-append xs ys)

drop-append : (xs ys : List ℕ) → drop (length xs) (xs ++ ys) ≡ ys
drop-append [] ys = refl
drop-append (x ∷ xs) ys = drop-append xs ys

length-drop : (n : ℕ) (xs : List ℕ) → length (drop n xs) ≡ length xs - n
length-drop zero xs = omega arith
length-drop (suc n) [] = omega arith
length-drop (suc n) (x ∷ xs) = omega (arith, length-drop n xs)

length-take_le : (n : ℕ) (xs : List ℕ) → length (take n xs) ≤ n
length-take_le zero xs = omega arith
length-take_le (suc n) [] = omega arith
length-take_le (suc n) (x ∷ xs) = omega (arith, length-take_le n xs)

module _ ⦃t : Texts⦄ where
  pub record IsMemo (raw : List ℕ) (text : String) : Type 0 where
    pub content : List ℕ
    pub short : length content ≤ 32
    pub layout : raw ≡ memo_data content ++ take 4 (t.sha256 (t.sha256 (memo_data content)))
    pub decoded : text ≡ t.decode content

  -- Bytes that `decodeTxMemo` accepts are version, tag, length, at most 32 bytes of content,
  -- zeros up to 32 bytes and the checksum of all this, and the result is the decoded content.
  pub decode_raw-IsMemo :
      (raw : List ℕ) (text : String) → decode_raw raw ≡ ok text → IsMemo raw text
  unfolding decode_raw
  decode_raw-IsMemo [] text e = ground arith
  decode_raw-IsMemo (a ∷ []) text e = ground arith
  decode_raw-IsMemo (a ∷ b ∷ []) text e = ground arith
  decode_raw-IsMemo (version ∷ tag ∷ n ∷ rest) text e =
      let long : length rest ≡ 36 = ground arith in
      let is_version : version ≡ 20 = ground arith in
      let is_tag : tag ≡ 1 = ground arith in
      let small : n ≤ 32 = ground arith in
      let body = take 32 rest in
      let body_length = length-take 32 rest (omega arith) in
      let checksum =
        check_bytes-ok (drop 32 rest) (take 4 (t.sha256 (t.sha256 (version ∷ tag ∷ n ∷ body))))
          (omega (
            arith,
            length-drop 32 rest,
            length-take_le 4 (t.sha256 (t.sha256 (version ∷ tag ∷ n ∷ body))),
          ))
          (ground arith) in
      let zeros = zeros-replicate (drop n body) (ground arith) in
      let count = length-take n body (omega arith) in
      let padding : drop n body ≡ replicate (32 - length (take n body)) 0 =
        zeros ∙ ap (λ (k : ℕ). replicate k 0) (omega (arith, length-drop n body)) in
      let whole : version ∷ tag ∷ n ∷ body ≡ memo_data (take n body) =
        cc (is_version, is_tag, count, sym (take-append-drop n body), padding) in
      record {
        content = take n body;
        short = omega arith;
        layout =
            ap (λ (zs : List ℕ). version ∷ tag ∷ n ∷ zs)
              (sym (take-append-drop 32 rest) ∙ ap (λ (zs : List ℕ). body ++ zs) checksum)
            ∙ ap (λ (zs : List ℕ). zs ++ take 4 (t.sha256 (t.sha256 zs))) whole;
        decoded = ground arith;
      }

  -- Where SHA-256 gives 32 bytes: every content of at most 32 bytes, laid out with its length,
  -- padding and checksum, decodes to the text of the content.
  pub decode_raw_lem :
      (content : List ℕ)
      → length content ≤ 32
      → ((bytes : List ℕ) → length (t.sha256 bytes) ≡ 32)
      → decode_raw (memo_data content ++ take 4 (t.sha256 (t.sha256 (memo_data content))))
        ≡ ok (t.decode content)
  unfolding decode_raw
  decode_raw_lem content short digest =
      let body = content ++ replicate (32 - length content) 0 in
      let hash = take 4 (t.sha256 (t.sha256 (memo_data content))) in
      let body_length : length body ≡ 32 = omega (
        arith,
        length-append content (replicate (32 - length content) 0),
        length-replicate {A = ℕ} (32 - length content) 0,
      ) in
      let hash_length : length hash ≡ 4 =
        length-take 4 (t.sha256 (t.sha256 (memo_data content)))
          (omega (arith, digest (t.sha256 (memo_data content)))) in
      let front : take 32 (body ++ hash) ≡ body =
        ap (λ (k : ℕ). take k (body ++ hash)) (sym body_length) ∙ take-append body hash in
      let back : drop 32 (body ++ hash) ≡ hash =
        ap (λ (k : ℕ). drop k (body ++ hash)) (sym body_length) ∙ drop-append body hash in
      let all_bytes = length-append body hash in
      let zeros = replicate-zeros (32 - length content) in
      let text = take-append content (replicate (32 - length content) 0) in
      let rest = drop-append content (replicate (32 - length content) 0) in
      rw (front, back) (ground (arith, check_bytes_refl hash))
