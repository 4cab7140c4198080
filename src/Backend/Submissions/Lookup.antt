-- ===== src/Backend/Submissions/Lookup.antt =====
-- backend/src/submission-check.ts: the check of a reported transaction against the account updates in
-- the node's pool and the current state of the accounts.
pub mod Verified
pub mod Stale
use Prim.Native.String.{compare}
use text.Mathlib.Text.{◌==◌ as str_eq, is_lt}
use mina_guard.Base.{
  ℕ, ◌+◌, String, Bool, true, false, not, Option, none, some, List, [], ◌∷◌, any, all, filter, ◌&&◌,
  ◌==◌, if◌then◌else◌,
}
use mathlib.Core.Option
use mina_guard.Storage.Maps.{all_digits}
use mina_guard.Backend.{Numbers}

-- `ZkappCommandUpdate` of backend/src/mina-client.ts.
pub record ZkappCommandUpdate : Type 0 where
  pub public_key : String
  pub token_id : Option String
  pub is_proved : Bool
  pub events : List (List String)
  pub state_conditions : Option (List (Option String))

pub data SubmittedAction : Type 0 where
  approve execute : SubmittedAction

-- The keys of `new MinaGuard(...).events`, sorted.
abbrev pub guard_events : List String
guard_events =
    "deployed" ∷ "setup" ∷ "setupOwner" ∷ "proposal" ∷ "receiver" ∷ "approval" ∷ "execution"
    ∷ "ownerChange" ∷ "thresholdChange" ∷ "delegate" ∷ "createChild" ∷ "reclaimChild"
    ∷ "enableChildMultiSig" ∷ "createChildConfig" ∷ "createChildOwner" ∷ []

abbrev pub insert_name : String → List String → List String
insert_name name [] = name ∷ []
insert_name name (other ∷ names) =
    let rest = insert_name name names in
    if is_lt (compare name other) then name ∷ other ∷ names else other ∷ rest

abbrev pub sort_names : List String → List String
sort_names [] = []
sort_names (name ∷ names) = insert_name name (sort_names names)

unfoldable pub event_names : List String
event_names = sort_names guard_events

-- `indexOf` of a name that is in the list.
abbrev pub name_index : List String → String → ℕ
name_index [] name = 0
name_index (other ∷ names) name =
    let later = name_index names name in if str_eq other name then 0 else later + 1

abbrev pub is_decimal : String → Bool
is_decimal text = not (str_eq text "") && all_digits text

-- The native token, as `TokenId.toBase58(TokenId.default)`.
pub record Tokens : Type 0 where
  pub native_token : String

abbrev pub has_token : String → Option String → Bool
has_token token none = false
has_token token (some given) = str_eq given token

-- One iteration's answers of the node, `none` where the lookup failed or the pool lacks the
-- transaction. The states are those of the given accounts, null for an account without one.
pub record Answers : Type 0 where
  pub pooled : Option (List ZkappCommandUpdate)
  pub states : Option (String → Option (List String))

pub record Submission : Type 0 where
  pub action : SubmittedAction
  pub proposal_hash : String
  pub accounts : List String

module _ ⦃n : Numbers⦄ where
  unfoldable pub event_index : SubmittedAction → String
  unfolding event_names
  event_index approve = n.big_text (name_index event_names "approval")
  event_index execute = n.big_text (name_index event_names "execution")

  abbrev pub same_number : Option ℕ → Option ℕ → Bool
  same_number (some a) (some b) = a == b
  same_number _ _ = false

  -- `BigInt` does not throw on a decimal text.
  unfoldable pub same_field : String → String → Bool
  same_field a b = is_decimal a && is_decimal b && same_number (n.big_int a) (n.big_int b)

  abbrev pub is_event : SubmittedAction → String → List String → Bool
  is_event action hash (index ∷ first ∷ _) =
      same_field index (event_index action) && same_field first hash
  is_event action hash _ = false

  unfoldable pub emits_proposal_event : ZkappCommandUpdate → SubmittedAction → String → Bool
  emits_proposal_event update action hash =
      if not update.is_proved then false else any (is_event action hash) update.events

  unfoldable pub conditions_met : List (Option String) → List String → Bool
  conditions_met [] state = true
  conditions_met (none ∷ required) [] = conditions_met required []
  conditions_met (none ∷ required) (value ∷ state) = conditions_met required state
  conditions_met (some text ∷ required) [] = false
  conditions_met (some text ∷ required) (value ∷ state) =
      same_field text value && conditions_met required state

  -- A null state meets what an empty one meets.
  unfoldable pub matches_current_state : ZkappCommandUpdate → Option (List String) → Bool
  matches_current_state update state = elim update.state_conditions [
    | none ↦ false
    | some required ↦ conditions_met required (elim state [ none ↦ [] | some values ↦ values ])
  ]

  abbrev pub is_ours : ⦃k : Tokens⦄ → Submission → ZkappCommandUpdate → Bool
  is_ours ⦃k⦄ params update =
      any (λ account. str_eq account update.public_key) params.accounts
      && has_token k.native_token update.token_id

  -- One iteration: what it returns, `none` where it goes on.
  unfoldable pub verdict : ⦃k : Tokens⦄ → Submission → Answers → Option Bool
  verdict params answers = elim answers.pooled [
    | none ↦ none
    | some updates ↦
        let ours = filter (is_ours params) updates in
        if not (any (λ u. emits_proposal_event u params.action params.proposal_hash) ours)
        then some false
        else Option.map
            (λ states.
              all (λ (u : ZkappCommandUpdate). matches_current_state u (states u.public_key)) ours)
            answers.states
  ]

  -- The loop over the delays, by the answers that each iteration gets.
  unfoldable pub verify_submitted_transaction : ⦃k : Tokens⦄ → Submission → List Answers → Bool
  verify_submitted_transaction params [] = false
  verify_submitted_transaction params (answers ∷ later) =
      let rest = verify_submitted_transaction params later in
      elim (verdict params answers) [ none ↦ rest | some decided ↦ decided ]
