-- ===== src/Examples/Readers.antt =====
-- Concrete Merkle maps, decimal texts and a key reader that meet the hypotheses on them.
use mina_guard.Base.{
  true, ℕ, zero, suc, ◌+◌, ◌-◌, ◌/◌, ◌%◌, ◌≡◌, Option, none, some, ◌==◌, bit, refl, ap, sym, ◌∙◌,
  arith,
}
use mina_guard.Platform.{Field, PublicKey}
use mina_guard.Platform.Laws.{update}
use mina_guard.Platform.Maps.{MerkleMaps, MapLaws, Numerals, NumeralLaws}
use mina_guard.Storage.Maps.{is_numeral, all_digits}
use mina_guard.Rebuild.{TextReader, text_length}
use mina_guard.Rebuild.Emitted.{ReaderLaws}
use mina_guard.Examples.Ideal.{ideal}
use mina_guard.Examples.Store.{strokes, text_length-strokes, numbered, tally, tally_text}

-- A map is its values; the root mixes two of them.
instance unfoldable pub value_maps : MerkleMaps (Field → Field)
value_maps = record {
  fresh = λ _. 0;
  get = λ f k. f k;
  set = λ f k v. update f k v;
  get_root = λ f. f 1 + f 1 + f 2;
}

pub value_maps-MapLaws : MapLaws value_maps
unfolding value_maps
value_maps-MapLaws = record {
  get-fresh = λ k. refl;
  get-set = λ f k v j. refl;
  same_root = λ f g same. rw (same 1, same 2) refl;
}

abbrev field_counted : ℕ → Option Field
field_counted zero = none
field_counted (suc f) = some f

-- A number is one stroke more than its value.
instance unfoldable pub stroke_numerals : Numerals
stroke_numerals = record {
  field_text = λ f. strokes (suc f);
  field_of = λ t. field_counted (text_length t);
}

pub stroke_numerals-NumeralLaws : NumeralLaws stroke_numerals
unfolding stroke_numerals
stroke_numerals-NumeralLaws = record {
  reads_back = λ f. ap field_counted (text_length-strokes (suc f));
  text_filled = λ f h. absurd (omega (arith, sym (text_length-strokes (suc f)) ∙ ap text_length h));
}

-- The key with a number.
unfoldable pub key_at : ℕ → PublicKey
key_at n = record { x = (n - 11) / 2; is_odd = (n - 11) % 2 == 1 }

key_at-numbered : (k : PublicKey) → key_at (numbered k) ≡ k
unfolding key_at numbered
key_at-numbered k = λ i. record { x = same_x i; is_odd = same_bit i }
  where
    same_x : (k.x + k.x + bit k.is_odd + 11 - 11) / 2 ≡ k.x
    same_x = ground arith

    same_bit : ((k.x + k.x + bit k.is_odd + 11 - 11) % 2 == 1) ≡ k.is_odd
    same_bit = ground arith

instance unfoldable pub tally_reader : TextReader
tally_reader = record { from_base58 = λ t. some (key_at (text_length t)); number_of = text_length }

pub tally_reader-ReaderLaws : ReaderLaws ideal tally tally_reader
unfolding tally_reader tally tally_text numbered
tally_reader-ReaderLaws = record {
  decodes = λ k point. ap some (ap key_at (text_length-strokes (numbered k)) ∙ key_at-numbered k);
  long = λ k. rw (text_length-strokes (numbered k)) (omega arith);
}

all_digits-strokes : (k : ℕ) → all_digits (strokes k) ≡ true
unfolding strokes
all_digits-strokes zero = refl
all_digits-strokes (suc k) = all_digits-strokes k

pub stroke_numerals-decimal : (f : Field) → is_numeral (stroke_numerals.field_text f) ≡ true
unfolding stroke_numerals is_numeral strokes
stroke_numerals-decimal f = ground (arith, all_digits-strokes f)
