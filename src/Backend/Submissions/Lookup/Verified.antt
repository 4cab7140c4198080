-- ===== src/Backend/Submissions/Lookup/Verified.antt =====
-- `verifySubmittedTransaction` of backend/src/submission-check.ts: what a verified report shows of the
-- transaction.
use text.Mathlib.Text.{◌==◌ as str_eq}
use text.Mathlib.TextEquality.{eq_iff}
use mina_guard.Storage.Maps.{all_digits}
use mina_guard.Base.{
  ℕ, zero, suc, ◌≢◌, not, get_elem?, ==_iff, any-In, subst, &&-true, ◌≡◌, String, Bool, true, false,
  Option, none, some, List, [], ◌∷◌, any, all, filter, In, In-filter, filter-passes, all-In,
  mem_of_any, mem_of_filter, Bool-cases, Option-cases, false≢true, inl, inr, refl, sym, ap, ◌∙◌,
}
use mathlib.Core.Option.{some-injective, none-ne-some}
use mina_guard.Backend.{Numbers}
use mina_guard.Backend.Submissions.Lookup.{
  ZkappCommandUpdate, SubmittedAction, approve, execute, event_names, is_decimal, same_number,
  conditions_met, Tokens, Answers, Submission, is_event, emits_proposal_event,
  matches_current_state, is_ours, has_token, same_field, event_index, verdict,
  verify_submitted_transaction,
}

-- The place of the action's event among the sorted names.
abbrev pub event_position : SubmittedAction → ℕ
event_position approve = 0
event_position execute = 7

event_index_lem :
    ⦃n : Numbers⦄ (a : SubmittedAction) → event_index a ≡ n.big_text (event_position a)
unfolding event_index event_names
event_index_lem approve = refl
event_index_lem execute = refl

module _ ⦃n : Numbers⦄ ⦃k : Tokens⦄ where
  -- The update is of one of the given accounts, under the native token.
  pub record IsOurs (params : Submission) (u : ZkappCommandUpdate) : Type 0 where
    pub account : In u.public_key params.accounts
    pub token : u.token_id ≡ some k.native_token

  -- Both texts are decimal numerals of one number.
  pub record SameNumber (a b : String) : Type 0 where
    pub filled : (a ≢ "") × (b ≢ "")
    pub digits : (all_digits a ≡ true) × (all_digits b ≡ true)
    pub number : ℕ
    pub reads : (n.big_int a ≡ some number) × (n.big_int b ≡ some number)

  -- The update carries a proof and emits an event that starts with the index of the action's event
  -- and the hash of the proposal.
  pub record Emits (params : Submission) (u : ZkappCommandUpdate) : Type 0 where
    pub proved : u.is_proved ≡ true
    pub index : String
    pub first : String
    pub rest : List String
    pub emitted : In (index ∷ first ∷ rest) u.events
    pub indexed : SameNumber index (n.big_text (event_position params.action))
    pub hashed : SameNumber first params.proposal_hash

  -- The update reports conditions, and at each position where it requires a value, the account has
  -- a state with that number there.
  pub record Meets (u : ZkappCommandUpdate) (state : Option (List String)) : Type 0 where
    pub required : List (Option String)
    pub given : u.state_conditions ≡ some required
    pub each :
        (i : ℕ) (text : String)
        → get_elem? required i ≡ some (some text)
        → (values : List String) × (value : String) × (state ≡ some values)
          × (get_elem? values i ≡ some value)
          × SameNumber text value

  -- The answers show a pending transaction: an update of the accounts emits the event, and every
  -- update of the accounts requires their current state.
  pub record IsPending (params : Submission) (answers : Answers) : Type 0 where
    pub updates : List ZkappCommandUpdate
    pub pooled : answers.pooled ≡ some updates
    pub states : String → Option (List String)
    pub current : answers.states ≡ some states
    pub reported : ZkappCommandUpdate
    pub held : In reported updates
    pub ours : IsOurs params reported
    pub emits : Emits params reported
    pub meets :
        (u : ZkappCommandUpdate) → In u updates → IsOurs params u → Meets u (states u.public_key)

  is_decimal-filled : (a : String) → is_decimal a ≡ true → a ≢ ""
  is_decimal-filled a h empty =
      let hit = (eq_iff a "").1 empty in
      absurd (false≢true (sym (ap not hit) ∙ (&&-true (not (str_eq a "")) (all_digits a) h).0))

  same_number-reads :
      (a b : Option ℕ)
      → same_number a b ≡ true
      → (number : ℕ) × (a ≡ some number) × (b ≡ some number)
  same_number-reads none b h = absurd (false≢true h)
  same_number-reads (some a) none h = absurd (false≢true h)
  same_number-reads (some a) (some b) h = (a, refl, ap some (sym ((==_iff a b).0 h)))

  same_field-SameNumber : (a b : String) → same_field a b ≡ true → SameNumber a b
  unfolding same_field
  same_field-SameNumber a b h =
      let parts = &&-true _ (same_number (n.big_int a) (n.big_int b)) h in
      let decimal = &&-true (is_decimal a) (is_decimal b) parts.0 in
      let (number, read_a, read_b) = same_number-reads (n.big_int a) (n.big_int b) parts.1 in
      record {
        filled = (is_decimal-filled a decimal.0, is_decimal-filled b decimal.1);
        digits = ((&&-true _ (all_digits a) decimal.0).1, (&&-true _ (all_digits b) decimal.1).1);
        number = number;
        reads = (read_a, read_b);
      }

  each_met :
      (required : List (Option String)) (state : List String)
      → conditions_met required state ≡ true
      → (i : ℕ) (text : String) → get_elem? required i ≡ some (some text)
      → (value : String) × (get_elem? state i ≡ some value) × SameNumber text value
  unfolding conditions_met
  each_met [] state h i text at = cc
  each_met (none ∷ required) [] h zero text at = cc
  each_met (none ∷ required) [] h (suc i) text at = each_met required [] h i text at
  each_met (none ∷ required) (v ∷ state) h zero text at = cc
  each_met (none ∷ required) (v ∷ state) h (suc i) text at = each_met required state h i text at
  each_met (some t ∷ required) [] h i text at = absurd (false≢true h)
  each_met (some t ∷ required) (v ∷ state) h zero text at =
      let same : t ≡ text = some-injective t text (some-injective (some t) (some text) at) in
      (
        v,
        refl,
        subst (λ (x : String). SameNumber x v) same (same_field-SameNumber t v (&&-true _ _ h).0),
      )
  each_met (some t ∷ required) (v ∷ state) h (suc i) text at =
      each_met required state (&&-true _ _ h).1 i text at

  state_met :
      (required : List (Option String)) (state : Option (List String))
      → conditions_met required (elim state [ none ↦ [] | some values ↦ values ]) ≡ true
      → (i : ℕ) (text : String) → get_elem? required i ≡ some (some text)
      → (values : List String) × (value : String) × (state ≡ some values)
        × (get_elem? values i ≡ some value)
        × SameNumber text value
  state_met required none h i text at =
      let (value, found, same) = each_met required [] h i text at in absurd (none-ne-some _ found)
  state_met required (some values) h i text at =
      let (value, found, same) = each_met required values h i text at in
      (values, value, refl, found, same)

  matches_current_state-Meets :
      (u : ZkappCommandUpdate) (state : Option (List String))
      → matches_current_state u state ≡ true
      → Meets u state
  unfolding matches_current_state
  matches_current_state-Meets u state h = elim (Option-cases u.state_conditions) [
    | inl missing ↦
        let no : matches_current_state u state ≡ false = rw (matches_current_state, missing) refl in
        absurd (false≢true (sym no ∙ h))
    | inr (required, given) ↦
        let met : conditions_met required (elim state [ none ↦ [] | some values ↦ values ]) ≡ true =
          sym (rw (matches_current_state, given) refl) ∙ h in
        record {
          required = required;
          given = given;
          each = λ i text at. state_met required state met i text at;
        }
  ]

  native :
      (given : Option String) → has_token k.native_token given ≡ true → given ≡ some k.native_token
  native none h = absurd (false≢true h)
  native (some token) h = ap some ((eq_iff token k.native_token).0 h)

  is_ours-IsOurs :
      (params : Submission) (u : ZkappCommandUpdate) → is_ours params u ≡ true → IsOurs params u
  is_ours-IsOurs params u h =
      let parts = &&-true _ (has_token k.native_token u.token_id) h in
      let (account, i, same) =
        mem_of_any (λ account. str_eq account u.public_key) params.accounts parts.0 in
      record {
        account = subst (λ a. In a params.accounts) ((eq_iff account u.public_key).0 same) i;
        token = native u.token_id parts.1;
      }

  IsOurs-is_ours :
      (params : Submission) (u : ZkappCommandUpdate) → IsOurs params u → is_ours params u ≡ true
  IsOurs-is_ours params u ours =
      let held =
        any-In (λ account. str_eq account u.public_key) u.public_key params.accounts ours.account
          ((eq_iff u.public_key u.public_key).1 refl) in
      rw held
        (ap (has_token k.native_token) ours.token ∙ (eq_iff k.native_token k.native_token).1 refl)

  event-Emits :
      (params : Submission) (u : ZkappCommandUpdate) (fields : List String)
      → u.is_proved ≡ true
      → In fields u.events
      → is_event params.action params.proposal_hash fields ≡ true
      → Emits params u
  event-Emits params u [] proved i h = absurd (false≢true h)
  event-Emits params u (index ∷ []) proved i h = absurd (false≢true h)
  event-Emits params u (index ∷ first ∷ rest) proved i h = record {
    proved = proved;
    index = index;
    first = first;
    rest = rest;
    emitted = i;
    indexed =
        subst (SameNumber index) (event_index_lem params.action)
          (same_field-SameNumber _ _ (&&-true _ (same_field first params.proposal_hash) h).0);
    hashed = same_field-SameNumber _ _ (&&-true _ (same_field first params.proposal_hash) h).1;
  }

  emits_proposal_event-Emits :
      (params : Submission) (u : ZkappCommandUpdate)
      → emits_proposal_event u params.action params.proposal_hash ≡ true
      → Emits params u
  unfolding emits_proposal_event
  emits_proposal_event-Emits params u h = elim (Bool-cases u.is_proved) [
    | inl proved ↦
        let (fields, i, found) =
          mem_of_any (is_event params.action params.proposal_hash) u.events
            (sym (rw proved refl) ∙ h) in
        event-Emits params u fields proved i found
    | inr unproved ↦ absurd (false≢true (sym (rw unproved refl) ∙ h))
  ]

  module _ (params : Submission) (answers : Answers) (updates : List ZkappCommandUpdate) where
    abbrev ours : List ZkappCommandUpdate
    ours = filter (is_ours params) updates

    abbrev emits : ZkappCommandUpdate → Bool
    emits u = emits_proposal_event u params.action params.proposal_hash

    abbrev met : (String → Option (List String)) → ZkappCommandUpdate → Bool
    met states u = matches_current_state u (states u.public_key)

    pending :
        (states : String → Option (List String))
        → answers.pooled ≡ some updates
        → answers.states ≡ some states
        → any emits ours ≡ true
        → all (met states) ours ≡ true
        → IsPending params answers
    pending states pooled current emitted all_met =
        let (u, i, event) = mem_of_any emits ours emitted in
        record {
          updates = updates;
          pooled = pooled;
          states = states;
          current = current;
          reported = u;
          held = mem_of_filter (is_ours params) u updates i;
          ours = is_ours-IsOurs params u (filter-passes (is_ours params) u updates i);
          emits = emits_proposal_event-Emits params u event;
          meets = λ v j mine. matches_current_state-Meets v (states v.public_key) (
              all-In (met states) v ours all_met
                (In-filter (is_ours params) v updates j (IsOurs-is_ours params v mine)));
        }

  verdict-IsPending :
      (params : Submission) (answers : Answers)
      → verdict params answers ≡ some true
      → IsPending params answers
  unfolding verdict
  verdict-IsPending params answers h = elim (Option-cases answers.pooled) [
    | inl missing ↦
        let no : verdict params answers ≡ none = rw (verdict, missing) refl in
        absurd (none-ne-some true (sym no ∙ h))
    | inr (updates, pooled) ↦
        elim (Bool-cases (any (emits params answers updates) (ours params answers updates))) [
          | inl emitted ↦ elim (Option-cases answers.states) [
            | inl missing ↦
                let no : verdict params answers ≡ none =
                  rw (verdict, pooled, emitted, missing) refl in
                absurd (none-ne-some true (sym no ∙ h))
            | inr (states, current) ↦
                let same : verdict params answers
                    ≡ some (all (met params answers updates states) (ours params answers updates)) =
                  rw (verdict, pooled, emitted, current) refl in
                pending params answers updates states pooled current emitted
                  (some-injective _ _ (sym same ∙ h))
          ]
          | inr silent ↦
              let no : verdict params answers ≡ some false = rw (verdict, pooled, silent) refl in
              absurd (false≢true (some-injective false true (sym no ∙ h)))
        ]
  ]

  -- A report is verified only by the answers of one of the lookups, in which the pool holds the
  -- transaction; some update of the given accounts under the native token carries a proof and
  -- emits an event that starts with the number of the action's event and with the proposal's
  -- hash; and every update of those accounts under that token reports its conditions, and at each
  -- position where it requires a value the node reports a state of its account that has the same
  -- number there. Numbers are the same where both texts are decimal numerals that `BigInt` reads
  -- as one number.
  pub verify_submitted_transaction-IsPending :
      (params : Submission) (lookups : List Answers)
      → verify_submitted_transaction params lookups ≡ true
      → (answers : Answers) × In answers lookups × IsPending params answers
  unfolding verify_submitted_transaction
  verify_submitted_transaction-IsPending params [] h = absurd (false≢true h)
  verify_submitted_transaction-IsPending params (answers ∷ later) h =
      elim (Option-cases (verdict params answers)) [
        | inl undecided ↦
            let (found, i, pending) =
              verify_submitted_transaction-IsPending params later
                (sym (rw (verify_submitted_transaction, undecided) refl) ∙ h) in
            (found, inr i, pending)
        | inr (decided, closed) ↦ (
          answers,
          inl refl,
          verdict-IsPending params answers
              (closed ∙ ap some (sym (rw (verify_submitted_transaction, closed) refl) ∙ h)),
        )
      ]
