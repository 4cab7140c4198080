-- ===== src/Rebuild/Highest.antt =====
-- contracts/src/event-rebuild.ts, `for (const e of events) applyMapEvent(e, …)`: the values of the maps
-- after the loop.
use mina_guard.Base.{
  ℕ, String, ◌≡◌, ◌≤◌, subst, ok-injective, err≢ok, false≢true, Bool, true, false, List, [], ◌∷◌,
  ◌++◌, In, SameMembers, any, ◌||◌, ok, err, if◌then◌else◌, Result-cases, inl, inr, refl, ◌∙◌, sym,
  ap, arith,
}
use mina_guard.Platform.{Field, Platform}
use mina_guard.Platform.Maps.{MerkleMaps, MapLaws, Numerals}
use mina_guard.Storage.Maps.{ApprovalStore, VoteNullifierStore, get_count}
use mina_guard.Storage.Maps.Counts.{Tracked}
use mina_guard.Rebuild.{IndexedEvent, TextReader, apply_map_event, apply_map_events}
use mina_guard.Rebuild.Levels.{
  Effect, larger, effect, level, marks_key, raise_by, mark_by, apply_map_event-effect,
  get_count-raise_by, get-mark_by, mark_by-Tracked,
}

larger_assoc : (a b c : ℕ) → larger (larger a b) c ≡ larger a (larger b c)
larger_assoc a b c = ground arith

chosen_twice :
    (p q : Bool) (x : ℕ) → (if q then 1 else if p then 1 else x) ≡ (if p || q then 1 else x)
chosen_twice p q x = ground arith

module _ ⦃o : Platform⦄ ⦃n : Numerals⦄ ⦃r : TextReader⦄ where
  abbrev pub event_level : IndexedEvent → Field → ℕ
  event_level e k = elim (effect e) [ err _ ↦ 0 | ok f ↦ level f k ]

  abbrev pub event_marks : Field → IndexedEvent → Bool
  event_marks k e = elim (effect e) [ err _ ↦ false | ok f ↦ marks_key f k ]

  abbrev pub is_unreadable : IndexedEvent → Bool
  is_unreadable e = elim (effect e) [ err _ ↦ true | ok f ↦ false ]

  pub is_unreadable-ok : (e : IndexedEvent) (f : Effect) → effect e ≡ ok f → is_unreadable e ≡ false
  is_unreadable-ok e f read = rw (is_unreadable, read) refl

  pub event_level-ok :
      (e : IndexedEvent) (f : Effect) (k : Field) → effect e ≡ ok f → event_level e k ≡ level f k
  event_level-ok e f k read = rw (event_level, read) refl

  pub event_marks-ok :
      (e : IndexedEvent) (f : Effect) (k : Field)
      → effect e ≡ ok f
      → event_marks k e ≡ marks_key f k
  event_marks-ok e f k read = rw (event_marks, read) refl

  -- The largest value that the events raise a count to.
  abbrev pub highest : List IndexedEvent → Field → ℕ
  highest [] k = 0
  highest (e ∷ events) k = larger (event_level e k) (highest events k)

  pub highest-append :
      (xs ys : List IndexedEvent) (k : Field)
      → highest (xs ++ ys) k ≡ larger (highest xs k) (highest ys k)
  highest-append [] ys k = ground arith
  highest-append (x ∷ xs) ys k = ground (arith, highest-append xs ys k)

  le-highest :
      (e : IndexedEvent) (xs : List IndexedEvent) (k : Field)
      → In e xs
      → event_level e k ≤ highest xs k
  le-highest e [] k i = elim i [ ]
  le-highest e (x ∷ xs) k (inl same) = let level_eq = ap (λ y. event_level y k) same in ground arith
  le-highest e (x ∷ xs) k (inr i) = let later = le-highest e xs k i in ground arith

  highest-le :
      (xs : List IndexedEvent) (k : Field) (bound : ℕ)
      → ((e : IndexedEvent) → In e xs → event_level e k ≤ bound)
      → highest xs k ≤ bound
  highest-le [] k bound below = omega arith
  highest-le (x ∷ xs) k bound below =
      let here = below x (inl refl) in
      let later = highest-le xs k bound (λ e i. below e (inr i)) in ground arith

  pub highest-SameMembers :
      (xs ys : List IndexedEvent) (k : Field) → SameMembers xs ys → highest xs k ≡ highest ys k
  highest-SameMembers xs ys k same =
      let up = highest-le xs k (highest ys k) (λ e i. le-highest e ys k ((same e).0 i)) in
      let down = highest-le ys k (highest xs k) (λ e i. le-highest e xs k ((same e).1 i)) in
      omega arith

  module _ {Map : Type 0} ⦃m : MerkleMaps Map⦄ where
    apply_map_event-ok :
        (e : IndexedEvent) (a : ApprovalStore Map) (v : VoteNullifierStore Map) (f : Effect)
        → effect e ≡ ok f
        → apply_map_event e a v ≡ ok (raise_by f.raises a, mark_by f.marks v)
    apply_map_event-ok e a v f read = rw (apply_map_event-effect e a v, read) refl

    -- What the loop does to both maps: it throws on an event that cannot be read, and nothing else.
    pub record Rebuilt (events : List IndexedEvent) (a a' : ApprovalStore Map)
        (v v' : VoteNullifierStore Map) : Type 0 where
      pub readable : any is_unreadable events ≡ false
      pub counts : (k : Field) → get_count a' k ≡ larger (get_count a k) (highest events k)
      pub tracked : Tracked v'
      pub votes :
          (k : Field) → m.get v'.map k ≡ (if any (event_marks k) events then 1 else m.get v.map k)

    module _ (laws : MapLaws m) where
      pub apply_map_events-cons :
          (e : IndexedEvent) (events : List IndexedEvent) (a : ApprovalStore Map)
          (v : VoteNullifierStore Map) (f : Effect)
          → effect e ≡ ok f
          → apply_map_events (e ∷ events) a v
            ≡ apply_map_events events (raise_by f.raises a) (mark_by f.marks v)
      unfolding apply_map_events
      apply_map_events-cons e events a v f read = rw (apply_map_event-ok e a v f read) refl

      pub apply_map_events-failed :
          (e : IndexedEvent) (events : List IndexedEvent) (a : ApprovalStore Map)
          (v : VoteNullifierStore Map) (message : String)
          → effect e ≡ err message
          → apply_map_events (e ∷ events) a v ≡ err message
      unfolding apply_map_events
      apply_map_events-failed e events a v message failed =
          rw (apply_map_event-effect e a v, failed) refl

      nothing-Rebuilt :
          (a : ApprovalStore Map) (v : VoteNullifierStore Map) → Tracked v → Rebuilt [] a a v v
      nothing-Rebuilt a v tracked = record {
        readable = refl;
        counts = λ k. ground arith;
        tracked = tracked;
        votes = λ k. refl;
      }

      pub apply_map_events-nil :
          (a : ApprovalStore Map) (v : VoteNullifierStore Map) → apply_map_events [] a v ≡ ok (a, v)
      unfolding apply_map_events
      apply_map_events-nil a v = refl

      pub apply_map_events-Rebuilt :
          (events : List IndexedEvent) (a a' : ApprovalStore Map) (v v' : VoteNullifierStore Map)
          → Tracked v
          → apply_map_events events a v ≡ ok (a', v')
          → Rebuilt events a a' v v'
      apply_map_events-Rebuilt [] a a' v v' tracked h =
          subst (λ (p : ApprovalStore Map × VoteNullifierStore Map). Rebuilt [] a p.0 v p.1)
            (ok-injective (sym (apply_map_events-nil a v) ∙ h)) (nothing-Rebuilt a v tracked)
      apply_map_events-Rebuilt (e ∷ events) a a' v v' tracked h = elim (Result-cases (effect e)) [
        | inl (message, failed) ↦
            absurd (err≢ok (sym (apply_map_events-failed e events a v message failed) ∙ h))
        | inr (f, read) ↦
            let raised = raise_by f.raises a in
            let marked = mark_by f.marks v in
            let rest =
              apply_map_events-Rebuilt events raised a' marked v' (mark_by-Tracked laws f v tracked)
                (sym (apply_map_events-cons e events a v f read) ∙ h) in
            record {
              readable =
                  ap (λ b. b || any is_unreadable events) (is_unreadable-ok e f read)
                  ∙ rest.readable;
              counts = λ k.
                  rest.counts k
                  ∙ rw (get_count-raise_by laws f a k, event_level-ok e f k read)
                      (larger_assoc (get_count a k) (level f k) (highest events k));
              tracked = rest.tracked;
              votes = λ k.
                  rest.votes k
                  ∙ rw (get-mark_by laws f v k tracked, event_marks-ok e f k read)
                      (chosen_twice (marks_key f k) (any (event_marks k) events) (m.get v.map k));
            }
      ]

      pub apply_map_events-total :
          (events : List IndexedEvent) (a : ApprovalStore Map) (v : VoteNullifierStore Map)
          → any is_unreadable events ≡ false
          → (a' : ApprovalStore Map) × (v' : VoteNullifierStore Map) × (apply_map_events events a v
              ≡ ok (a', v'))
      apply_map_events-total [] a v h = (a, v, apply_map_events-nil a v)
      apply_map_events-total (e ∷ events) a v h = elim (Result-cases (effect e)) [
        | inl (message, failed) ↦ absurd (false≢true (sym h ∙ rw (is_unreadable, failed) refl))
        | inr (f, read) ↦
            let (a', v', done) =
              apply_map_events-total events (raise_by f.raises a) (mark_by f.marks v)
                (rw (← h, is_unreadable, read) refl) in
            (a', v', apply_map_events-cons e events a v f read ∙ done)
      ]
