-- ===== src/Backend/Submissions/Lookup/Stale.antt =====
-- `matchesCurrentState` of backend/src/submission-check.ts against contracts/src/MinaGuard.ts: a
-- transaction whose execution is already in a block.
use mina_guard.Base.{
  ◌≡◌, ◌≢◌, String, true, false, Option, none, some, List, [], ◌∷◌, ok, ◌==◌, ◌&&◌, bit, ==_iff,
  &&-true, Bool-cases, inl, inr, refl, sym, ◌∙◌, ◌<◌, arith,
}
use mina_guard.Platform.{Field, Platform, fadd}
use mina_guard.Platform.Maps.{Numerals}
use mina_guard.Guard.{Guard, Env, Outcome}
use mina_guard.Guard.Run.{Call, call}
use mina_guard.Guard.Run.Quorum.{LocalCall, local_call, local_call-LocalExecution}
use mina_guard.Backend.{Numbers}
use mina_guard.Backend.Submissions.Lookup.{
  ZkappCommandUpdate, same_field, same_number, is_decimal, conditions_met, matches_current_state,
}

-- `BigInt` reads the text of a field element as that element.
pub record BigLaws (t : Numerals) (n : Numbers) : Type 0 where
  pub big : (f : Field) → n.big_int (t.field_text f) ≡ some f

-- The app state as the node reports it, in the order of the `@state` fields.
abbrev pub zkapp_state : ⦃t : Numerals⦄ → Guard → List String
zkapp_state ⦃t⦄ s =
    t.field_text s.owners_commitment
    ∷ t.field_text s.threshold
    ∷ t.field_text s.num_owners
    ∷ t.field_text s.nonce
    ∷ t.field_text s.vote_nullifier_root
    ∷ t.field_text s.approval_root
    ∷ t.field_text s.config_nonce
    ∷ t.field_text s.parent.x
    ∷ t.field_text (bit s.parent.is_odd)
    ∷ t.field_text s.parent_nonce
    ∷ t.field_text s.child_execution_root
    ∷ t.field_text s.child_multi_sig_enabled
    ∷ t.field_text s.reserved_config_hash
    ∷ []

fadd-one_moves : ⦃o : Platform⦄ (a : Field) → a < o.order → fadd a 1 ≢ a
unfolding fadd
fadd-one_moves ⦃o⦄ a small same = let big = o.order_large in grind arith

module _ ⦃n : Numbers⦄ ⦃t : Numerals⦄ (laws : BigLaws t n) where
  same_field-eq : (a b : Field) → same_field (t.field_text a) (t.field_text b) ≡ true → a ≡ b
  unfolding same_field
  same_field-eq a b h =
      let decimal = is_decimal (t.field_text a) && is_decimal (t.field_text b) in
      let read : same_number (n.big_int (t.field_text a)) (n.big_int (t.field_text b)) ≡ (a == b) =
        rw (laws.big a, laws.big b) refl in
      (==_iff a b).0 (sym read ∙ (&&-true _ _ h).1)

  later_met :
      (c : Option String) (cs : List (Option String)) (value : String) (values : List String)
      → conditions_met (c ∷ cs) (value ∷ values) ≡ true
      → conditions_met cs values ≡ true
  unfolding conditions_met
  later_met none cs value values h = h
  later_met (some text) cs value values h = (&&-true _ _ h).1

  first_met :
      (text : String) (cs : List (Option String)) (value : String) (values : List String)
      → conditions_met (some text ∷ cs) (value ∷ values) ≡ true
      → same_field text value ≡ true
  unfolding conditions_met
  first_met text cs value values h = (&&-true _ _ h).0

  -- Where `BigInt` reads the text of a field element as that element: an account update that
  -- requires the guard's nonce of before a call that executes a LOCAL proposal does not match the
  -- guard's state after that call, whatever else it requires.
  pub local_call-stale :
      ⦃o : Platform⦄ (env : Env) (s : Guard) (c : Call) (l : LocalCall) {out : Outcome}
      → local_call c ≡ some l
      → call env s c ≡ ok out
      → s.nonce < o.order
      → (u : ZkappCommandUpdate) (x y z : Option String) (rest : List (Option String))
      → u.state_conditions ≡ some (x ∷ y ∷ z ∷ some (t.field_text s.nonce) ∷ rest)
      → matches_current_state u (some (zkapp_state out.state)) ≡ false
  unfolding matches_current_state
  local_call-stale ⦃o⦄ env s c l {out} k e small u x y z rest required =
      let run = local_call-LocalExecution env s c l k e in
      elim (Bool-cases (matches_current_state u (some (zkapp_state out.state)))) [
        | inr stale ↦ stale
        | inl matched ↦
            let met : conditions_met (x ∷ y ∷ z ∷ some (t.field_text s.nonce) ∷ rest)
                  (zkapp_state out.state)
                ≡ true =
              sym (rw (matches_current_state, required) refl) ∙ matched in
            let same = same_field-eq s.nonce out.state.nonce (
              first_met _ rest _ _
                (later_met z _ _ _ (later_met y _ _ _ (later_met x _ _ _ met)))) in
            absurd (fadd-one_moves s.nonce small (sym run.nonce ∙ sym run.next_nonce ∙ sym same))
      ]
