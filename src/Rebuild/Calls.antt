-- ===== src/Rebuild/Calls.antt =====
-- The events of one call of the guard, as contracts/src/event-rebuild.ts reads them, against the
-- entries that the call writes.
use mina_guard.Base.{
  ℕ, false≢true, filter, ◌≡◌, Bool, true, false, none, some, List, [], ◌∷◌, any, All, ◌||◌,
  if◌then◌else◌, Bool-cases, ok, inl, inr, refl, ◌∙◌, sym, ap, arith,
}
use mina_guard.Platform.{Field, Platform}
use mina_guard.Platform.Laws.{SignerLaws}
use mina_guard.Constants.{executed_marker}
use mina_guard.Proposal.{TransactionProposal, proposal_hash}
use mina_guard.Guard.{Guard, Env, Event, Outcome}
use mina_guard.Guard.Run.{
  Call, setup_call, reserve_call, setup_child_call, propose_call, approve_call, transfer_call,
  allocate_call, delegate_call, owner_change_call, threshold_change_call, reclaim_call,
  destroy_call, enable_call, call,
}
use mina_guard.Guard.Run.Writes.{call_write, call_vote}
use mina_guard.Guard.Execute.{execution_event}
use mina_guard.Guard.Vote.{propose-ok, approve_proposal-ok}
use mina_guard.Rebuild.Levels.{Effect, larger, level, marks_key}
use mina_guard.Rebuild.Reading.{is_remote_type, silent}
use mina_guard.Rebuild.Effects.{event_effect, IsReadable}
use mina_guard.Rebuild.Notable.{
  is_notable, notable, execute_transfer-events, execute_allocate_to_children-events,
  execute_owner_change-events, execute_threshold_change-events, execute_delegate-events,
  execute_reclaim_to_parent-events, execute_destroy-events, execute_enable_child_multi_sig-events,
  execute_setup_child-events, setup-events, reserve_for_parent-events, propose-events,
  approve_proposal-events,
}

zero_below : (a : ℕ) → larger 0 a ≡ a
zero_below a = ground arith

above_zero : (a : ℕ) → larger a 0 ≡ a
above_zero a = ground arith

larger_twice : (a : ℕ) → larger a (larger a 0) ≡ a
larger_twice a = ground arith

either_twice : (a : Bool) → (a || (a || false)) ≡ a
either_twice a = ground arith

either_none : (a : Bool) → (a || false) ≡ a
either_none a = ground arith

module _ ⦃o : Platform⦄ where
  -- The value that the events raise the count of `k` to.
  abbrev pub events_level : List Event → Field → ℕ
  events_level [] k = 0
  events_level (ev ∷ evs) k = larger (level (event_effect ev) k) (events_level evs k)

  abbrev pub events_mark : Field → List Event → Bool
  events_mark k evs = any (λ ev. marks_key (event_effect ev) k) evs

  abbrev pub call_effect : Call → Effect
  call_effect c = record { raises = call_write c; marks = call_vote c }

  -- The events tell what was written.
  pub record Tells (evs : List Event) (f : Effect) : Type 0 where
    pub readable : All IsReadable evs
    pub levels : (k : Field) → events_level evs k ≡ level f k
    pub marks : (k : Field) → events_mark k evs ≡ marks_key f k

  quiet_event : (ev : Event) → is_notable ev ≡ false → (event_effect ev ≡ silent) × IsReadable ev
  quiet_event (Event.proposal x) h = absurd (false≢true (sym h))
  quiet_event (Event.approval x) h = absurd (false≢true (sym h))
  quiet_event (Event.execution x) h = absurd (false≢true (sym h))
  quiet_event (Event.deployed x) h = (refl, tt)
  quiet_event (Event.setup x) h = (refl, tt)
  quiet_event (Event.setup_owner x) h = (refl, tt)
  quiet_event (Event.receiver x) h = (refl, tt)
  quiet_event (Event.owner_change x) h = (refl, tt)
  quiet_event (Event.threshold_change x) h = (refl, tt)
  quiet_event (Event.delegate_set x) h = (refl, tt)
  quiet_event (Event.create_child x) h = (refl, tt)
  quiet_event (Event.reclaim_child x) h = (refl, tt)
  quiet_event (Event.enable_child_multi_sig x) h = (refl, tt)
  quiet_event (Event.create_child_config x) h = (refl, tt)
  quiet_event (Event.create_child_owner x) h = (refl, tt)

  events_level-notable :
      (evs : List Event) (k : Field) → events_level evs k ≡ events_level (notable evs) k
  events_level-notable [] k = refl
  events_level-notable (ev ∷ evs) k = elim (Bool-cases (is_notable ev)) [
    | inl kept ↦
        rw (filter, kept) (ap (larger (level (event_effect ev) k)) (events_level-notable evs k))
    | inr dropped ↦
        rw (filter, dropped)
          (ap (λ f. larger (level f k) (events_level evs k)) (quiet_event ev dropped).0
            ∙ zero_below (events_level evs k)
            ∙ events_level-notable evs k)
  ]

  events_mark-notable :
      (evs : List Event) (k : Field) → events_mark k evs ≡ events_mark k (notable evs)
  events_mark-notable [] k = refl
  events_mark-notable (ev ∷ evs) k = elim (Bool-cases (is_notable ev)) [
    | inl kept ↦
        rw (filter, kept) (ap (λ b. marks_key (event_effect ev) k || b) (events_mark-notable evs k))
    | inr dropped ↦
        rw (filter, dropped)
          (ap (λ f. marks_key f k || events_mark k evs) (quiet_event ev dropped).0
            ∙ events_mark-notable evs k)
  ]

  step-IsReadable :
      (b : Bool) (ev : Event) (evs : List Event)
      → is_notable ev ≡ b
      → (All IsReadable (notable evs) → All IsReadable evs)
      → All IsReadable (if b then ev ∷ notable evs else notable evs)
      → All IsReadable (ev ∷ evs)
  step-IsReadable true ev evs kept later h = (h.0, later h.1)
  step-IsReadable false ev evs dropped later h = ((quiet_event ev dropped).1, later h)

  notable-IsReadable : (evs : List Event) → All IsReadable (notable evs) → All IsReadable evs
  notable-IsReadable [] h = h
  notable-IsReadable (ev ∷ evs) h =
      step-IsReadable (is_notable ev) ev evs refl (notable-IsReadable evs) h

  Tells-notable :
      (evs shown : List Event) (f : Effect) → notable evs ≡ shown → Tells shown f → Tells evs f
  Tells-notable evs shown f shape told = record {
    readable = notable-IsReadable evs (rw shape told.readable);
    levels = λ k. events_level-notable evs k ∙ ap (λ xs. events_level xs k) shape ∙ told.levels k;
    marks = λ k. events_mark-notable evs k ∙ ap (events_mark k) shape ∙ told.marks k;
  }

  module _ (v : SignerLaws o) where
    local_run :
        (p : TransactionProposal) (evs : List Event) (root : Field)
        → is_remote_type p.tx_type ≡ false
        → notable evs ≡ (execution_event (proposal_hash p) p root ∷ [])
        → Tells evs (record { raises = some (proposal_hash p, executed_marker); marks = none })
    local_run p evs root local shape = Tells-notable evs _ _ shape (record {
      readable = (tt, tt);
      levels = λ k. rw (events_level, event_effect, local) (above_zero _);
      marks = λ k. rw (any, event_effect, local) refl;
    })

    remote_run :
        (p : TransactionProposal) (evs : List Event) (root : Field)
        → is_remote_type p.tx_type ≡ true
        → notable evs ≡ (execution_event (proposal_hash p) p root ∷ [])
        → Tells evs silent
    remote_run p evs root remote shape = Tells-notable evs _ _ shape (record {
      readable = (tt, tt);
      levels = λ k. rw (events_level, event_effect, remote) refl;
      marks = λ k. rw (any, event_effect, remote) refl;
    })

    nothing_told : (evs : List Event) → notable evs ≡ [] → Tells evs silent
    nothing_told evs shape =
        Tells-notable evs [] silent shape
          (record { readable = tt; levels = λ k. refl; marks = λ k. refl })

    -- What a call emits tells what it writes and whose vote it marks.
    pub call-Tells :
        (env : Env) (s : Guard) (c : Call) {out : Outcome}
        → call env s c ≡ ok out
        → Tells out.events (call_effect c)
    unfolding call
    call-Tells env s (setup_call t m owners) {out} e =
        nothing_told out.events (setup-events env s t m owners e)
    call-Tells env s (reserve_call k hash t m owners) {out} e =
        nothing_told out.events (reserve_for_parent-events env s k hash t m owners e)
    call-Tells env s (setup_child_call t m owners p w n) {out} e =
        let (kind, shape) = execute_setup_child-events env s p w n t m owners e in
        remote_run p out.events _ (rw kind refl) shape
    call-Tells env s (propose_call p ow k sig vw aw) {out} e =
        let vote = propose-ok env s p ow k sig vw aw e in
        let point = v.signer_point sig k _ vote.signed in
        Tells-notable out.events _ _ (propose-events env s p ow k sig vw aw e) (record {
          readable = (point, (point, tt));
          levels = λ j. larger_twice (level (call_effect (propose_call p ow k sig vw aw)) j);
          marks = λ j. either_twice (marks_key (call_effect (propose_call p ow k sig vw aw)) j);
        })
    call-Tells env s (approve_call p sig k ow aw n vw) {out} e =
        let (vote, _, _) = approve_proposal-ok env s p ow k sig vw aw n e in
        let point = v.signer_point sig k _ vote.signed in
        Tells-notable out.events _ _ (approve_proposal-events env s p ow k sig vw aw n e) (record {
          readable = (point, tt);
          levels = λ j. above_zero (level (call_effect (approve_call p sig k ow aw n vw)) j);
          marks = λ j. either_none (marks_key (call_effect (approve_call p sig k ow aw n vw)) j);
        })
    call-Tells env s (transfer_call p w n) {out} e =
        let (kind, shape) = execute_transfer-events env s p w n e in
        local_run p out.events _ (rw kind refl) shape
    call-Tells env s (allocate_call p w n) {out} e =
        let (kind, shape) = execute_allocate_to_children-events env s p w n e in
        local_run p out.events _ (rw kind refl) shape
    call-Tells env s (delegate_call p w n) {out} e =
        let (kind, shape) = execute_delegate-events env s p w n e in
        local_run p out.events _ (rw kind refl) shape
    call-Tells env s (owner_change_call p w n ow after) {out} e =
        let (kinds, shape) = execute_owner_change-events env s p w n ow after e in
        elim kinds [
          | inl kind ↦ local_run p out.events _ (rw kind refl) shape
          | inr kind ↦ local_run p out.events _ (rw kind refl) shape
        ]
    call-Tells env s (threshold_change_call p w n t) {out} e =
        let (kind, shape) = execute_threshold_change-events env s p w n t e in
        local_run p out.events _ (rw kind refl) shape
    call-Tells env s (reclaim_call p w n cw a) {out} e =
        let (kind, shape) = execute_reclaim_to_parent-events env s p w n cw a e in
        remote_run p out.events _ (rw kind refl) shape
    call-Tells env s (destroy_call p w n cw b) {out} e =
        let (kind, shape) = execute_destroy-events env s p w n cw b e in
        remote_run p out.events _ (rw kind refl) shape
    call-Tells env s (enable_call p w n cw b) {out} e =
        let (kind, shape) = execute_enable_child_multi_sig-events env s p w n cw b e in
        remote_run p out.events _ (rw kind refl) shape
