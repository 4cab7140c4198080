-- ===== src/Memo.antt =====
-- contracts/src/memo.ts: the hash of a memo, and the text of a transaction's memo field. Texts are
-- strings, bytes are numbers; `TextEncoder`, `TextDecoder` and SHA-256 are parameters. The messages
-- of errors leave out the values that the source interpolates. The bit operations on the carry,
-- which stays below 2 ^ 14, are the remainder and the quotient by 256.
pub mod Numerals
pub mod Layout
use Prim.Native.Char.{Char, code}
use mina_guard.Base.{
  ℕ, zero, suc, String, ◌+◌, ◌*◌, ◌/◌, ◌%◌, Bool, true, false, not, Option, none, some, List, [],
  ◌∷◌, ◌++◌, length, get_or, take, drop, any, Result, ok, err, require, forbid, or_throw, ◌>>=◌,
  ◌>>◌, ◌==◌, leb, if◌then◌else◌,
}
use mathlib.Core.List.{reverse}
use mina_guard.Platform.{Field, Platform}

pub record Texts : Type 0 where
  -- `new TextEncoder().encode(text)`
  pub encode : String → List ℕ
  -- `new TextDecoder().decode(bytes)`
  pub decode : List ℕ → String
  pub sha256 : List ℕ → List ℕ

-- `text.indexOf(char)`; `none` for -1.
unfoldable pub index_of : Char → String → Option ℕ
index_of c String.[] = none
index_of c (String.◌∷◌ d s) =
    let later = index_of c s in
    if code c == code d then some 0 else elim later [ none ↦ none | some i ↦ some (suc i) ]

abbrev pub base58_alphabet : String
base58_alphabet = "123456789ABCDEFGHJKLMNPQRSTUVWXYZabcdefghijkmnopqrstuvwxyz"

-- `while (carry > 0)`, on fuel; the carry itself is enough.
unfoldable pub carry_bytes : ℕ → ℕ → List ℕ
carry_bytes zero carry = []
carry_bytes (suc fuel) carry = elim (carry == 0) [
  | true ↦ []
  | false ↦ carry % 256 ∷ carry_bytes fuel (carry / 256)
]

-- The loop over `bytes`, least significant byte first, and the carry's bytes behind it.
unfoldable pub add_digit : ℕ → List ℕ → List ℕ
unfolding carry_bytes
add_digit carry [] = carry_bytes carry carry
add_digit carry (byte ∷ bytes) =
    (carry + byte * 58) % 256 ∷ add_digit ((carry + byte * 58) / 256) bytes

unfoldable pub digits_loop : List ℕ → String → Result (List ℕ)
digits_loop bytes String.[] = ok bytes
digits_loop bytes (String.◌∷◌ c s) = do
  idx ← or_throw (index_of c base58_alphabet) "Invalid base58 character"
  digits_loop (add_digit idx bytes) s

-- A zero byte for each leading `1`.
unfoldable pub leading_zeros : String → List ℕ
leading_zeros String.[] = []
leading_zeros (String.◌∷◌ c s) = elim (code c == 49) [ true ↦ 0 ∷ leading_zeros s | false ↦ [] ]

unfoldable pub base58_decode : String → Result (List ℕ)
base58_decode input = do
  bytes ← digits_loop (0 ∷ []) input
  ok (reverse (bytes ++ leading_zeros input))

-- The comparison with the expected checksum, byte by byte; a missing byte differs.
unfoldable pub check_bytes : List ℕ → List ℕ → Result (Unit {0})
check_bytes [] expected = ok tt
check_bytes (x ∷ xs) [] = err "decodeTxMemo: invalid checksum"
check_bytes (x ∷ xs) (y ∷ ys) = do
  require (x == y) "decodeTxMemo: invalid checksum"
  check_bytes xs ys

module _ ⦃t : Texts⦄ where
  unfoldable pub memo_to_field : ⦃o : Platform⦄ → String → Field
  memo_to_field ⦃o⦄ memo =
      let bytes = t.encode memo in o.hash_with_prefix "mina-guard-memo" (length bytes ∷ bytes)

  -- `decodeTxMemo` behind the base58 step.
  unfoldable pub decode_raw : List ℕ → Result String
  decode_raw raw = do
    require (length raw == 39) "decodeTxMemo: expected 39 bytes"
    require (get_or raw 0 0 == 20) "decodeTxMemo: invalid memo version"
    let checked = take 35 raw
    check_bytes (drop 35 raw) (take 4 (t.sha256 (t.sha256 checked)))
    let payload = drop 1 checked
    require (get_or payload 0 0 == 1) "decodeTxMemo: invalid memo tag"
    let content_length = get_or payload 1 0
    require (leb content_length 32) "decodeTxMemo: invalid content length"
    forbid (any (λ byte. not (byte == 0)) (drop (2 + content_length) payload))
        "decodeTxMemo: nonzero bytes after declared content length"
    ok (t.decode (take content_length (drop 2 payload)))

  unfoldable pub decode_tx_memo : String → Result String
  decode_tx_memo base58_memo = do raw ← base58_decode base58_memo; decode_raw raw
