-- ===== src/Rebuild/Reading.antt =====
-- contracts/src/event-rebuild.ts: what rebuildStores reads in the events that the guard emits.
use text.Mathlib.Text.{◌==◌ as str_eq}
use text.Mathlib.TextEquality.{eq_iff}
use mina_guard.Base.{
  ℕ, String, ◌≡◌, ◌≢◌, ◌<◌, Bool, true, false, Option, none, some, List, ◌||◌, ok, refl, ◌∙◌, sym,
  ap, ==_iff, ◌==◌, false≢true, leb, Bool-cases, inl, inr, arith,
}
use mina_guard.Platform.{Field, PublicKey, Platform, fadd}
use mina_guard.Platform.Maps.{Numerals, NumeralLaws}
use mina_guard.Constants.{
  proposed_marker, create_child_type, reclaim_child_type, destroy_child_type,
  enable_child_multi_sig_type,
}
use mina_guard.Storage.{Encoding}
use mina_guard.Guard.{Event, ProposalEvent, ApprovalEvent}
use mina_guard.Rebuild.{
  JsonValue, text_value, IndexedEvent, TextReader, text_length, value_text, field, public_key,
  has_type, is_execution, is_local_execution, vote_count, read_field,
}
use mina_guard.Rebuild.Levels.{Effect, effect, effect_for, voter_of}
use mina_guard.Rebuild.Emitted.{ReaderLaws, event_payload, index_event}

value_text_filled : (t : String) → t ≢ "" → value_text (text_value t) ≡ some t
value_text_filled String.[] h = absurd (h refl)
value_text_filled (String.◌∷◌ c s) h = ground arith

long_filled : (t : String) → 10 < text_length t → t ≢ ""
long_filled t long h = absurd (omega (arith, ap text_length h))

abbrev pub silent : Effect
silent = record { raises = none; marks = none }

some-injective : {a b : Field} → some a ≡ some b → a ≡ b
some-injective {a = a} h = ap (λ x. elim x [ none ↦ a | some y ↦ y ]) h

-- The types of the executions that write a child's execution root.
abbrev pub is_remote_type : Field → Bool
is_remote_type t =
    create_child_type == t
    || (reclaim_child_type == t || (destroy_child_type == t || enable_child_multi_sig_type == t))

module _ ⦃o : Platform⦄ ⦃n : Numerals⦄ ⦃c : Encoding⦄ ⦃r : TextReader⦄ (laws : NumeralLaws n)
    (reader : ReaderLaws o c r) where
  pub field_filled : (f : Field) → value_text (text_value (n.field_text f)) ≡ some (n.field_text f)
  field_filled f = value_text_filled (n.field_text f) (laws.text_filled f)

  read_back : (f : Field) → read_field (n.field_text f) ≡ ok f
  read_back f = rw (laws.reads_back f) refl

  -- A key that decodes is read back from any property that holds its text.
  key_back :
      (payload : List (String × JsonValue)) (name : String) (k : PublicKey)
      → field payload name ≡ value_text (text_value (c.to_base58 k))
      → o.is_point k ≡ true
      → public_key payload name ≡ some k
  unfolding public_key
  key_back payload name k held point =
      let long : ((leb (text_length (c.to_base58 k)) 10) ≡ false) = ground (arith, reader.long k) in
      rw
        (
          public_key,
          held,
          value_text_filled (c.to_base58 k) (long_filled (c.to_base58 k) (reader.long k)),
          long,
        )
        (reader.decodes k point)

  -- The hash of an event is read from its first property.
  pub effect_at :
      (e : IndexedEvent) (hash : Field)
      → field e.payload "proposalHash" ≡ value_text (text_value (n.field_text hash))
      → effect e ≡ effect_for e hash
  unfolding effect vote_count is_execution
  effect_at e hash held = rw (effect, held, field_filled hash, read_back hash) refl

  vote_effect :
      (e : IndexedEvent) (hash count : Field) (voter : PublicKey)
      → field e.payload "proposalHash" ≡ value_text (text_value (n.field_text hash))
      → (has_type "proposal" e || has_type "approval" e) ≡ true
      → vote_count e ≡ ok count
      → voter_of e ≡ some voter
      → effect e ≡ ok (record { raises = some (hash, count); marks = some (hash, voter) })
  vote_effect e hash count voter held vote counted voted =
      effect_at e hash held ∙ rw (effect_for, vote, counted, voted) refl

  count_back :
      (e : IndexedEvent) (count : Field)
      → has_type "proposal" e ≡ false
      → field e.payload "approvalCount" ≡ value_text (text_value (n.field_text count))
      → vote_count e ≡ ok count
  unfolding vote_count
  count_back e count approval held =
      rw (vote_count, approval, held, field_filled count) (read_back count)

  pub approval_effect :
      (h : Option ℕ) (a : ApprovalEvent)
      → o.is_point a.approver ≡ true
      → effect (index_event h (Event.approval a))
        ≡ ok (record {
          raises = some (a.proposal_hash, a.approval_count);
          marks = some (a.proposal_hash, a.approver);
        })
  unfolding index_event event_payload field
  approval_effect h a point =
      vote_effect (index_event h (Event.approval a)) a.proposal_hash a.approval_count a.approver
        refl refl (count_back (index_event h (Event.approval a)) a.approval_count refl refl)
        (key_back (event_payload (Event.approval a)) "approver" a.approver refl point)

  pub proposal_effect :
      (h : Option ℕ) (p : ProposalEvent)
      → o.is_point p.proposer ≡ true
      → effect (index_event h (Event.proposal p))
        ≡ ok (record {
          raises = some (p.proposal_hash, fadd proposed_marker 1);
          marks = some (p.proposal_hash, p.proposer);
        })
  unfolding index_event event_payload field vote_count
  proposal_effect h p point =
      vote_effect (index_event h (Event.proposal p)) p.proposal_hash (fadd proposed_marker 1)
        p.proposer refl refl refl
        (key_back (event_payload (Event.proposal p)) "proposer" p.proposer refl point)

  -- An event that is no vote and no LOCAL execution changes nothing.
  pub other_effect :
      (e : IndexedEvent) (hash : Field)
      → field e.payload "proposalHash" ≡ value_text (text_value (n.field_text hash))
      → (has_type "proposal" e || has_type "approval" e) ≡ false
      → is_local_execution e ≡ false
      → effect e ≡ ok silent
  other_effect e hash held vote run = effect_at e hash held ∙ rw (effect_for, vote, run) refl

  pub no_hash_effect :
      (e : IndexedEvent) → field e.payload "proposalHash" ≡ none → effect e ≡ ok silent
  unfolding effect vote_count is_execution
  no_hash_effect e held = rw (effect, held) refl

  pub text_eq : (a b : Field) → str_eq (n.field_text a) (n.field_text b) ≡ (a == b)
  text_eq a b = elim (Bool-cases (a == b)) [
    | inl same ↦ (eq_iff _ _).1 (ap n.field_text ((==_iff a b).0 same)) ∙ sym same
    | inr other ↦ elim (Bool-cases (str_eq (n.field_text a) (n.field_text b))) [
      | inl equal ↦
          let texts = (eq_iff (n.field_text a) (n.field_text b)).0 equal in
          let numbers =
            some-injective (sym (laws.reads_back a) ∙ ap n.field_of texts ∙ laws.reads_back b) in
          absurd (false≢true (sym other ∙ (==_iff a b).1 numbers))
      | inr differ ↦ differ ∙ sym other
    ]
  ]
