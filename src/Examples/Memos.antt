-- ===== src/Examples/Memos.antt =====
-- The theorems on memos at concrete inputs, with stand-ins for the encoder and the digest.
use mina_guard.Base.{
  ℕ, ◌≡◌, refl, String, List, [], ◌∷◌, ◌++◌, length, take, replicate, length-replicate, ok, ◌>>=◌,
  arith,
}
use mina_guard.Memo.{Texts, base58_decode, decode_raw, check_bytes}
use mina_guard.Memo.Numerals.{number58, leading_ones, base256, base58_decode-number58}
use mina_guard.Memo.Layout.{memo_data, IsMemo, decode_raw-IsMemo, decode_raw_lem}
use mina_guard.Examples.Ideal.{codes}

abbrev digest : List ℕ → List ℕ
digest bytes = replicate 32 (length bytes)

digest-length : (bytes : List ℕ) → length (digest bytes) ≡ 32
digest-length bytes = length-replicate 32 (length bytes)

text_of : List ℕ → String
text_of [] = ""
text_of (byte ∷ bytes) = String.◌∷◌ "x" (text_of bytes)

instance unfoldable pub plain : Texts
unfolding text_of codes
plain = record { encode = codes; decode = text_of; sha256 = digest }

abbrev hi : List ℕ
hi = 104 ∷ 105 ∷ []

abbrev raw_memo : List ℕ
raw_memo = memo_data hi ++ take 4 (digest (digest (memo_data hi)))

decoded : decode_raw raw_memo ≡ ok "xx"
unfolding decode_raw check_bytes plain text_of
decoded = refl

decode_raw-IsMemo_example : IsMemo raw_memo "xx"
decode_raw-IsMemo_example = decode_raw-IsMemo raw_memo "xx" decoded

decode_raw_lem_example : decode_raw raw_memo ≡ ok (text_of hi)
unfolding plain
decode_raw_lem_example = decode_raw_lem hi (omega arith) digest-length

base58_decode-number58_example :
    base58_decode "11z2"
    ≡ (number58 0 "11z2" >>= λ (n : ℕ). ok (replicate (leading_ones "11z2") 0 ++ base256 n))
base58_decode-number58_example = base58_decode-number58 "11z2"
