-- ===== src/Rebuild/Effects.antt =====
-- contracts/src/event-rebuild.ts: what each event of the guard does to the rebuilt maps.
use mina_guard.Base.{
  ℕ, ◌≡◌, true, false, Option, none, some, ◌||◌, ok, if◌then◌else◌, refl, ◌∙◌, Bool-cases, inl, inr,
  arith,
}
use mina_guard.Platform.{Field, Platform, fadd}
use mina_guard.Platform.Maps.{Numerals, NumeralLaws}
use mina_guard.Constants.{
  proposed_marker, executed_marker, create_child_type, reclaim_child_type, destroy_child_type,
  enable_child_multi_sig_type,
}
use mina_guard.Storage.{Encoding}
use mina_guard.Guard.{Event}
use mina_guard.Rebuild.{
  text_value, IndexedEvent, TextReader, value_text, field, has_type, is_execution,
  is_local_execution, remote_execution_types, has_tx_type,
}
use mina_guard.Rebuild.Levels.{Effect, effect, effect_for}
use mina_guard.Rebuild.Emitted.{ReaderLaws, event_payload, index_event}
use mina_guard.Rebuild.Reading.{
  is_remote_type, silent, approval_effect, proposal_effect, other_effect, no_hash_effect, text_eq,
  effect_at, field_filled,
}

module _ ⦃o : Platform⦄ where
  -- What an event of the guard stands for.
  abbrev pub event_effect : Event → Effect
  event_effect (Event.proposal p) = record {
    raises = some (p.proposal_hash, fadd proposed_marker 1);
    marks = some (p.proposal_hash, p.proposer);
  }
  event_effect (Event.approval a) = record {
    raises = some (a.proposal_hash, a.approval_count);
    marks = some (a.proposal_hash, a.approver);
  }
  event_effect (Event.execution x) =
      if is_remote_type x.tx_type
      then silent
      else record { raises = some (x.proposal_hash, executed_marker); marks = none }
  event_effect _ = silent

  -- A voter is a curve point.
  abbrev pub IsReadable : Event → Type 0
  IsReadable (Event.proposal p) = o.is_point p.proposer ≡ true
  IsReadable (Event.approval a) = o.is_point a.approver ≡ true
  IsReadable _ = Unit

module _ ⦃o : Platform⦄ ⦃n : Numerals⦄ ⦃c : Encoding⦄ ⦃r : TextReader⦄ (laws : NumeralLaws n)
    (reader : ReaderLaws o c r) where
  remote_types_back :
      (e : IndexedEvent) (t : Field)
      → field e.payload "txType" ≡ value_text (text_value (n.field_text t))
      → has_tx_type remote_execution_types e ≡ is_remote_type t
  remote_types_back e t held =
      rw
        (
          has_tx_type,
          held,
          field_filled laws reader t,
          text_eq laws reader create_child_type t,
          text_eq laws reader reclaim_child_type t,
          text_eq laws reader destroy_child_type t,
          text_eq laws reader enable_child_multi_sig_type t,
        )
        (ground arith)

  execution_at :
      (e : IndexedEvent) (hash t : Field)
      → field e.payload "proposalHash" ≡ value_text (text_value (n.field_text hash))
      → field e.payload "txType" ≡ value_text (text_value (n.field_text t))
      → (has_type "proposal" e || has_type "approval" e) ≡ false
      → is_execution e ≡ true
      → effect e
        ≡ ok (
            if is_remote_type t
            then silent
            else record { raises = some (hash, executed_marker); marks = none })
  execution_at e hash t held held_type vote run = elim (Bool-cases (is_remote_type t)) [
    | inl remote ↦ rw remote (
        other_effect laws reader e hash held vote
          (rw (is_local_execution, run, remote_types_back e t held_type, remote) refl))
    | inr local ↦
        let is_local : (is_local_execution e ≡ true) =
          rw (is_local_execution, run, remote_types_back e t held_type, local) refl in
        effect_at laws reader e hash held ∙ rw (local, effect_for, vote, is_local) refl
  ]

  pub effect-index_event :
      (h : Option ℕ) (ev : Event) → IsReadable ev → effect (index_event h ev) ≡ ok (event_effect ev)
  unfolding index_event event_payload field is_execution
  effect-index_event h (Event.proposal p) point = proposal_effect laws reader h p point
  effect-index_event h (Event.approval a) point = approval_effect laws reader h a point
  effect-index_event h (Event.execution x) _ =
      execution_at _ x.proposal_hash x.tx_type refl refl refl refl
  effect-index_event h (Event.deployed k) _ = no_hash_effect laws reader _ refl
  effect-index_event h (Event.setup x) _ = no_hash_effect laws reader _ refl
  effect-index_event h (Event.setup_owner x) _ = no_hash_effect laws reader _ refl
  effect-index_event h (Event.receiver x) _ =
      other_effect laws reader _ x.proposal_hash refl refl refl
  effect-index_event h (Event.owner_change x) _ =
      other_effect laws reader _ x.proposal_hash refl refl refl
  effect-index_event h (Event.threshold_change x) _ =
      other_effect laws reader _ x.proposal_hash refl refl refl
  effect-index_event h (Event.delegate_set x) _ =
      other_effect laws reader _ x.proposal_hash refl refl refl
  effect-index_event h (Event.create_child x) _ =
      other_effect laws reader _ x.proposal_hash refl refl refl
  effect-index_event h (Event.reclaim_child x) _ =
      other_effect laws reader _ x.proposal_hash refl refl refl
  effect-index_event h (Event.enable_child_multi_sig x) _ =
      other_effect laws reader _ x.proposal_hash refl refl refl
  effect-index_event h (Event.create_child_config x) _ =
      other_effect laws reader _ x.proposal_hash refl refl refl
  effect-index_event h (Event.create_child_owner x) _ =
      other_effect laws reader _ x.proposal_hash refl refl refl
