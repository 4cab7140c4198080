-- ===== src/Rebuild/History.antt =====
-- contracts/src/event-rebuild.ts, `rebuildStores`, on the events of a history of the guard.
use mina_guard.Base.{
  ℕ, ◌+◌, ◌^◌, ◌≤◌, ◌≡◌, ◌≢◌, false, Option, none, List, [], ◌∷◌, ◌++◌, map, any, All, length,
  SameMembers, any-SameMembers, ◌||◌, ◌==◌, if◌then◌else◌, Bool-cases, ok, inl, inr, refl, ◌∙◌, sym,
  ap, subst, arith,
}
use mina_guard.Platform.{Field, PublicKey, Platform}
use mina_guard.Platform.Laws.{HashLaws, MerkleLaws, SignerLaws}
use mina_guard.Platform.Maps.{MerkleMaps, MapLaws, Numerals, NumeralLaws}
use mina_guard.Storage.{Encoding}
use mina_guard.Storage.Maps.{get_count}
use mina_guard.Storage.Maps.Counts.{new_nullifier_store-Tracked}
use mina_guard.Guard.{Guard, Env, Event, Outcome}
use mina_guard.Guard.Run.{Call, Ballot, Run, start, next, call}
use mina_guard.Guard.Run.Ballots.{Run-Chronicle, call-initialized}
use mina_guard.Guard.Run.Writes.{after_write, after_vote}
use mina_guard.Guard.Run.Tally.{Ledgered, call-Ledgered}
use mina_guard.Guard.Run.Books.{initialised-Ledgered}
use mina_guard.Rebuild.{IndexedEvent, TextReader}
use mina_guard.Rebuild.Levels.{larger, level, marks_key}
use mina_guard.Rebuild.Highest.{
  highest, highest-SameMembers, event_level-ok, event_marks, event_marks-ok, is_unreadable,
  is_unreadable-ok,
}
use mina_guard.Rebuild.Stores.{RebuiltStores, initial_stores, rebuild_stores}
use mina_guard.Rebuild.Order.{replay_order, replay_order-SameMembers}
use mina_guard.Rebuild.Unordered.{rebuild_stores-Rebuilt, rebuild_stores-total}
use mina_guard.Rebuild.Emitted.{ReaderLaws, serve}
use mina_guard.Rebuild.Effects.{event_effect, IsReadable, effect-index_event}
use mina_guard.Rebuild.Calls.{events_level, events_mark, call-Tells}
use mina_guard.Rebuild.Mirrors.{emitted, Mirrors, Mirrors-append}
use mina_guard.Rebuild.Grows.{call-grows, unused_writes}

larger_zero : (a : ℕ) → larger 0 a ≡ a
larger_zero a = ground arith

module _ ⦃o : Platform⦄ where
  abbrev nothing : Field → Field
  nothing _ = 0

  unused_step :
      (v : SignerLaws o) (env : Env) (s : Guard) (c : Call) (evs : List Event) {out : Outcome}
      → s.owners_commitment ≡ 0
      → call env s c ≡ ok out
      → Mirrors evs nothing nothing
      → Mirrors (evs ++ out.events) nothing nothing
  unused_step v env s c evs {out} z e before =
      let (no_write, no_vote) = unused_writes env s c z e in
      subst
        (λ (p : Option (Field × Field) × Option (Field × PublicKey)).
          Mirrors (evs ++ out.events) (after_write p.0 nothing) (after_vote p.1 nothing))
        (λ i. (no_write i, no_vote i))
        (Mirrors-append evs out.events nothing nothing c before (call-Tells v env s c e)
          (λ hash value _. omega arith))

  -- The events of a guard that is not initialised say nothing.
  unused-Mirrors :
      (h : HashLaws o) (v : SignerLaws o) {n : ℕ} {s : Guard} {bs : List Ballot} (r : Run n s bs)
      → s.owners_commitment ≡ 0
      → Mirrors (emitted r) nothing nothing
  unused-Mirrors h v start z = record { readable = tt; levels = λ k. refl; votes = λ k. refl }
  unused-Mirrors h v (next {s = s} r env c {out = out} typed e) z =
      elim (Bool-cases (s.owners_commitment == 0)) [
        | inl unused ↦
            let none_yet : (s.owners_commitment ≡ 0) = ground arith in
            unused_step v env s c (emitted r) none_yet e (unused-Mirrors h v r none_yet)
        | inr used ↦ absurd (call-initialized h env s c typed (ground arith) e z)
      ]

  -- The maps behind both roots, and the events that give their values.
  pub Run-Mirrors :
      (h : HashLaws o) (m : MerkleLaws o) (v : SignerLaws o) {n : ℕ} {s : Guard} {bs : List Ballot}
      → n + 2 ≤ 2 ^ 64
      → (r : Run n s bs) → s.owners_commitment ≢ 0
      → (f : Field → Field) × (g : Field → Field) × Ledgered m s bs f g × Mirrors (emitted r) f g
  Run-Mirrors h m v small start i = absurd (i refl)
  Run-Mirrors h m v small (next {n = n} {s = s} {bs = bs} r env c {out = out} typed e) i =
      let before = Run-Chronicle h (omega arith) r in
      elim (Bool-cases (s.owners_commitment == 0)) [
        | inl unused ↦
            let none_yet : (s.owners_commitment ≡ 0) = ground arith in
            (
              nothing,
              nothing,
              initialised-Ledgered h m (omega arith) r env c none_yet e i,
              unused_step v env s c (emitted r) none_yet e (unused-Mirrors h v r none_yet),
            )
        | inr used ↦
            let (f, g, books, mirrors) = Run-Mirrors h m v (omega arith) r (ground arith) in
            let few : (length bs + 2 ≤ 2 ^ 64) = omega (arith, before.votes_bound) in
            (
              _,
              _,
              call-Ledgered m env s c bs f g few (ground arith) e books,
              Mirrors-append (emitted r) out.events f g c mirrors (call-Tells v env s c e)
                  (call-grows m env s c bs f g few e books),
            )
      ]

module _ ⦃o : Platform⦄ ⦃n : Numerals⦄ ⦃c : Encoding⦄ ⦃r : TextReader⦄ (laws : NumeralLaws n)
    (reader : ReaderLaws o c r) where
  serve-readable :
      (xs : List (Option ℕ × Event))
      → All IsReadable (map (λ x. x.1) xs)
      → any is_unreadable (serve xs) ≡ false
  serve-readable [] h = refl
  serve-readable (x ∷ xs) h =
      ap (λ b. b || any is_unreadable (serve xs))
        (is_unreadable-ok _ _ (effect-index_event laws reader x.0 x.1 h.0))
      ∙ serve-readable xs h.1

  serve-level :
      (xs : List (Option ℕ × Event)) (k : Field)
      → All IsReadable (map (λ x. x.1) xs)
      → highest (serve xs) k ≡ events_level (map (λ x. x.1) xs) k
  serve-level [] k h = refl
  serve-level (x ∷ xs) k h =
      ap (λ a. larger a (highest (serve xs) k))
        (event_level-ok _ _ k (effect-index_event laws reader x.0 x.1 h.0))
      ∙ ap (larger (level (event_effect x.1) k)) (serve-level xs k h.1)

  serve-mark :
      (xs : List (Option ℕ × Event)) (k : Field)
      → All IsReadable (map (λ x. x.1) xs)
      → any (event_marks k) (serve xs) ≡ events_mark k (map (λ x. x.1) xs)
  serve-mark [] k h = refl
  serve-mark (x ∷ xs) k h =
      ap (λ b. b || any (event_marks k) (serve xs))
        (event_marks-ok _ _ k (effect-index_event laws reader x.0 x.1 h.0))
      ∙ ap (λ b. marks_key (event_effect x.1) k || b) (serve-mark xs k h.1)

  module _ {Map : Type 0} ⦃maps : MerkleMaps Map⦄ (map_laws : MapLaws maps) where
    -- From empty stores, the events tell every value.
    rebuilt_values :
        (served : List (Option ℕ × Event)) (events : List IndexedEvent) (evs : List Event)
        (f g : Field → Field)
        → map (λ x. x.1) served ≡ evs
        → Mirrors evs f g
        → SameMembers events (serve served)
        → (stores : RebuiltStores Map) × (rebuild_stores events none ≡ ok stores)
          × ((k : Field) → get_count stores.approval_store k ≡ f k)
          × ((k : Field) → maps.get stores.nullifier_store.map k ≡ g k)
    unfolding get_count initial_stores
    rebuilt_values served events evs f g same mirrors alike =
        let readable = subst (λ xs. All IsReadable xs) (sym same) mirrors.readable in
        let order : SameMembers (replay_order events) (serve served) = λ e. (
          (λ i. (alike e).0 ((replay_order-SameMembers events e).1 i)),
          (λ i. (replay_order-SameMembers events e).0 ((alike e).1 i)),
        ) in
        let (stores, found) = rebuild_stores-total map_laws events none (
          any-SameMembers is_unreadable (replay_order events) (serve served) order
          ∙ serve-readable served readable) in
        let rebuilt =
          rebuild_stores-Rebuilt map_laws events none stores (new_nullifier_store-Tracked Map maps)
            found in
        (
          stores,
          found,
          (λ k.
              rebuilt.counts k
              ∙ ap (λ a. larger a (highest (replay_order events) k)) (map_laws.get-fresh k)
              ∙ larger_zero (highest (replay_order events) k)
              ∙ highest-SameMembers (replay_order events) (serve served) k order
              ∙ serve-level served k readable
              ∙ ap (λ xs. events_level xs k) same
              ∙ mirrors.levels k),
          (λ k.
              rebuilt.votes k
              ∙ ap (λ a. if any (event_marks k) (replay_order events) then 1 else a)
                  (map_laws.get-fresh k)
              ∙ ap (λ b. if b then 1 else 0)
                  (any-SameMembers (event_marks k) (replay_order events) (serve served) order
                    ∙ serve-mark served k readable
                    ∙ ap (events_mark k) same)
              ∙ sym (mirrors.votes k)),
        )

    -- Where hashes do not collide, Merkle-map witnesses open their maps, signers
    -- are curve points, and served texts read back: after any history of at most 2 ^ 64 - 2 calls
    -- of an initialised guard, take the events that its calls emitted as the indexer serves them,
    -- each with or without a block height, in any order and any number of times. They rebuild
    -- without an error, and the two roots on chain commit to maps that have at every key the
    -- values of the rebuilt approval store and of the rebuilt nullifier store.
    pub rebuild_stores-Run :
        (h : HashLaws o) (m : MerkleLaws o) (v : SignerLaws o) {k : ℕ} {s : Guard}
        {bs : List Ballot}
        → k + 2 ≤ 2 ^ 64
        → (run : Run k s bs) → s.owners_commitment ≢ 0
        → (served : List (Option ℕ × Event)) (events : List IndexedEvent)
        → map (λ x. x.1) served ≡ emitted run
        → SameMembers events (serve served)
        → (stores : RebuiltStores Map) × (rebuild_stores events none ≡ ok stores)
          × (f : Field → Field) × m.IsRoot s.approval_root f
          × ((j : Field) → get_count stores.approval_store j ≡ f j)
          × (g : Field → Field) × m.IsRoot s.vote_nullifier_root g
          × ((j : Field) → maps.get stores.nullifier_store.map j ≡ g j)
    rebuild_stores-Run h m v small run i served events all_served alike =
        let (f, g, books, mirrors) = Run-Mirrors h m v small run i in
        let (stores, found, counts, votes) =
          rebuilt_values served events (emitted run) f g all_served mirrors alike in
        (stores, found, f, books.approval_root, counts, g, books.vote_root, votes)
