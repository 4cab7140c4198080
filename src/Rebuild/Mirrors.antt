-- ===== src/Rebuild/Mirrors.antt =====
-- The events of a history of the guard, as contracts/src/event-rebuild.ts reads them, against the maps
-- behind the two roots.
use mina_guard.Base.{
  ℕ, ◌≤◌, ◌≡◌, Bool, Option, none, some, List, [], ◌∷◌, ◌++◌, All, ◌||◌, ◌==◌, if◌then◌else◌,
  Bool-cases, inl, inr, refl, ◌∙◌, sym, ap, ==_iff, arith,
}
use mina_guard.Platform.{Field, PublicKey, Platform}
use mina_guard.Guard.{Guard, Event}
use mina_guard.Guard.Run.{Call, Ballot, Run, start, next}
use mina_guard.Guard.Run.Writes.{call_write, call_vote, after_write, after_vote}
use mina_guard.Rebuild.Levels.{larger, level, marks_key}
use mina_guard.Rebuild.Effects.{event_effect, IsReadable}
use mina_guard.Rebuild.Calls.{events_level, events_mark, call_effect, Tells}

All-append : (P : Event → Type 0) (xs ys : List Event) → All P xs → All P ys → All P (xs ++ ys)
All-append P [] ys a b = b
All-append P (x ∷ xs) ys a b = (a.0, All-append P xs ys a.1 b)

larger_assoc : (a b c : ℕ) → larger (larger a b) c ≡ larger a (larger b c)
larger_assoc a b c = ground arith

or_assoc : (a b c : Bool) → ((a || b) || c) ≡ (a || (b || c))
or_assoc a b c = ground arith

module _ ⦃o : Platform⦄ where
  -- Every event that the calls of a history emit, in order.
  abbrev pub emitted : {n : ℕ} {s : Guard} {bs : List Ballot} → Run n s bs → List Event
  emitted start = []
  emitted (next r env c {out = out} typed e) = emitted r ++ out.events

  events_level-append :
      (xs ys : List Event) (k : Field)
      → events_level (xs ++ ys) k ≡ larger (events_level xs k) (events_level ys k)
  events_level-append [] ys k = ground arith
  events_level-append (x ∷ xs) ys k =
      ap (larger (level (event_effect x) k)) (events_level-append xs ys k)
      ∙ sym (larger_assoc (level (event_effect x) k) (events_level xs k) (events_level ys k))

  events_mark-append :
      (k : Field) (xs ys : List Event)
      → events_mark k (xs ++ ys) ≡ (events_mark k xs || events_mark k ys)
  events_mark-append k [] ys = refl
  events_mark-append k (x ∷ xs) ys =
      ap (λ b. marks_key (event_effect x) k || b) (events_mark-append k xs ys)
      ∙ sym (or_assoc (marks_key (event_effect x) k) (events_mark k xs) (events_mark k ys))

  -- The events give every value of both maps.
  pub record Mirrors (evs : List Event) (f g : Field → Field) : Type 0 where
    pub readable : All IsReadable evs
    pub levels : (k : Field) → events_level evs k ≡ f k
    pub votes : (k : Field) → g k ≡ (if events_mark k evs then 1 else 0)

  written_level :
      (write : Option (Field × Field)) (f : Field → Field) (k : Field)
      → ((hash value : Field) → write ≡ some (hash, value) → f hash ≤ value)
      → larger (f k) (level (record { raises = write; marks = none }) k) ≡ after_write write f k
  written_level none f k grows = ground arith
  written_level (some (hash, value)) f k grows = elim (Bool-cases (hash == k)) [
    | inl here ↦
        let up : (f k ≤ value) = rw (← (==_iff hash k).0 here) (grows hash value refl) in
        ground arith
    | inr there ↦ ground arith
  ]

  voted_mark :
      (vote : Option (Field × PublicKey)) (g : Field → Field) (k : Field) (b : Bool)
      → g k ≡ (if b then 1 else 0)
      → after_vote vote g k
        ≡ (if b || marks_key (record { raises = none; marks = vote }) k then 1 else 0)
  voted_mark none g k b before = ground arith
  voted_mark (some (hash, voter)) g k b before = ground arith

  pub Mirrors-append :
      (evs more : List Event) (f g : Field → Field) (c : Call)
      → Mirrors evs f g
      → Tells more (call_effect c)
      → ((hash value : Field) → call_write c ≡ some (hash, value) → f hash ≤ value)
      → Mirrors (evs ++ more) (after_write (call_write c) f) (after_vote (call_vote c) g)
  Mirrors-append evs more f g c before told grows = record {
    readable = All-append IsReadable evs more before.readable told.readable;
    levels = λ k.
        events_level-append evs more k
        ∙ ap (λ a. larger a (events_level more k)) (before.levels k)
        ∙ ap (larger (f k)) (told.levels k)
        ∙ written_level (call_write c) f k grows;
    votes = λ k.
        voted_mark (call_vote c) g k (events_mark k evs) (before.votes k)
        ∙ ap (λ b. if b then 1 else 0)
            (ap (λ b. events_mark k evs || b) (sym (told.marks k))
              ∙ sym (events_mark-append k evs more));
  }
