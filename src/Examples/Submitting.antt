-- ===== src/Examples/Submitting.antt =====
-- Reported transactions: the limits on their checks, a transaction in the pool, and one that a block
-- has applied.
use mina_guard.Base.{
  ◌↔◌, ◌⊎◌, ◌≤◌, length, ◌≡◌, refl, String, true, false, none, some, List, [], ◌∷◌, In, inl, inr,
  arith,
}
use mina_guard.Backend.Submissions.Entries.{keys, count_of}
use mina_guard.Backend.Submissions.{
  refused, Report, Limiter, default_limits, idle, report_key, start, run, settle,
}
use mina_guard.Backend.Submissions.Concurrency.{
  Reachable, unused, reported, settled, IsBounded, Reachable-IsBounded, run_refused_iff,
}
use mina_guard.Backend.Submissions.Lookup.{
  ZkappCommandUpdate, approve, Tokens, Answers, Submission, event_index, event_names, same_field,
  emits_proposal_event, conditions_met, matches_current_state, verdict,
  verify_submitted_transaction,
}
use mina_guard.Backend.Submissions.Lookup.Verified.{
  IsPending, verify_submitted_transaction-IsPending,
}
use mina_guard.Backend.Submissions.Lookup.Stale.{BigLaws, zkapp_state, local_call-stale}
use mina_guard.Examples.Ideal.{ideal}
use mina_guard.Examples.Store.{strokes}
use mina_guard.Examples.Readers.{stroke_numerals, stroke_numerals-NumeralLaws}
use mina_guard.Examples.Session.{here, guard_key, state3, transfer_args, at, outcome}
use mina_guard.Examples.Backends.{stroke_numbers, the_transfer, transferred, counters3}

abbrev approval_report : Report
approval_report = record { proposal_id = 4; action = "approve"; tx_hash = "a" }

abbrev execution_report : Report
execution_report = record { proposal_id = 4; action = "execute"; tx_hash = "b" }

-- After two reports, the first of them sent twice.
abbrev two_running : Limiter
two_running =
    let once = (run default_limits approval_report idle).1 in
    (run default_limits approval_report (run default_limits execution_report once).1).1

two_running-Reachable : Reachable default_limits two_running
two_running-Reachable =
    reported approval_report (reported execution_report (reported approval_report unused))

still_running : In (report_key approval_report, approval_report) two_running.running
unfolding run start report_key stroke_numbers stroke_numerals strokes
still_running = inr (inl refl)

Reachable-IsBounded_example : IsBounded default_limits (settle approval_report two_running)
Reachable-IsBounded_example =
    Reachable-IsBounded default_limits (settled approval_report two_running-Reachable still_running)

instance the_tokens : Tokens
the_tokens = record { native_token = "native" }

abbrev hash_text : String
hash_text = strokes 6

abbrev approving_update : ZkappCommandUpdate
approving_update = record {
  public_key = "vault";
  token_id = some "native";
  is_proved = true;
  events = (strokes 1 ∷ hash_text ∷ []) ∷ [];
  state_conditions = some (none ∷ some (strokes 3) ∷ []);
}

abbrev the_submission : Submission
the_submission = record { action = approve; proposal_hash = hash_text; accounts = "vault" ∷ [] }

-- The pool lacks the transaction at first.
abbrev lookups : List Answers
lookups =
    record { pooled = none; states = none }
    ∷ record {
      pooled = some (approving_update ∷ []);
      states = some (λ _. some (strokes 1 ∷ strokes 3 ∷ []));
    }
    ∷ []

verified : verify_submitted_transaction the_submission lookups ≡ true
unfolding verify_submitted_transaction verdict emits_proposal_event matches_current_state
    conditions_met same_field event_index event_names stroke_numbers stroke_numerals strokes
    the_tokens
verified = refl

verify_submitted_transaction-IsPending_example :
    (answers : Answers) × In answers lookups × IsPending the_submission answers
verify_submitted_transaction-IsPending_example =
    verify_submitted_transaction-IsPending the_submission lookups verified

stroke_numbers-BigLaws : BigLaws stroke_numerals stroke_numbers
unfolding stroke_numbers
stroke_numbers-BigLaws = record { big = stroke_numerals-NumeralLaws.reads_back }

-- The update that executed the transfer.
abbrev applied_update : ZkappCommandUpdate
applied_update = record approving_update {
  state_conditions =
      some (none ∷ none ∷ none ∷ some (stroke_numerals.field_text state3.nonce) ∷ []);
}

local_call-stale_example :
    matches_current_state applied_update
      (some (zkapp_state (outcome (at state3 transfer_args)).state))
    ≡ false
local_call-stale_example =
    local_call-stale stroke_numbers-BigLaws (here guard_key state3) state3 transfer_args
      the_transfer refl transferred (rw (counters3.0) (let big = ideal.order_large in omega arith))
      applied_update none none none [] refl

run_refused_iff_example :
    ((run default_limits (record approval_report { tx_hash = "c" }) two_running).0 ≡ refused) ↔ (
      (¬ In (report_key (record approval_report { tx_hash = "c" })) (keys two_running.running))
      × ((16 ≤ length two_running.running) ⊎ (2 ≤ count_of 4 two_running.running)))
run_refused_iff_example =
    run_refused_iff default_limits two_running-Reachable (record approval_report { tx_hash = "c" })
