-- ===== src/Backend/Submissions.antt =====
-- backend/src/submission-check.ts: the limits on concurrent checks, and the check of a reported
-- transaction against what the node answers.
pub mod Entries
pub mod Concurrency
pub mod Lookup
use Prim.Native.String.{◌++◌ as str_append}
use text.Mathlib.Text.{◌==◌ as str_eq}
use mina_guard.Base.{
  ℕ, zero, ◌+◌, ◌-◌, String, Bool, true, false, not, Option, none, some, List, [], ◌∷◌, any, filter,
  ◌&&◌, ◌||◌, ltb, leb, ◌==◌, if◌then◌else◌,
}
use mina_guard.Backend.{Numbers}

-- A report that a transaction approves or executes a proposal.
pub record Report : Type 0 where
  pub proposal_id : ℕ
  pub action : String
  pub tx_hash : String

pub record Limits : Type 0 where
  pub total : ℕ
  pub per_proposal : ℕ

-- `MAX_CONCURRENT_SUBMISSION_CHECKS` and `MAX_SUBMISSION_CHECKS_PER_PROPOSAL`
abbrev pub default_limits : Limits
default_limits = record { total = 16; per_proposal = 2 }

-- The variables of `createSubmissionCheckLimiter`. The promise of a running check stands for the
-- report that it checks.
pub record Limiter : Type 0 where
  pub running : List (String × Report)
  pub per_proposal : ℕ → Option ℕ
  pub total : ℕ

abbrev pub idle : Limiter
idle = record { running = []; per_proposal = λ _. none; total = 0 }

-- What `run` returns: the promise of the check of a report, or null.
pub data Answer : Type 0 where
  promise : Report → Answer
  refused : Answer

-- `Map` by its keys: `get`, `set` and `delete`.
abbrev pub running_get : List (String × Report) → String → Option Report
running_get [] key = none
running_get ((k, r) ∷ rest) key =
    let later = running_get rest key in if str_eq k key then some r else later

abbrev pub running_delete : List (String × Report) → String → List (String × Report)
running_delete entries key = filter (λ (e : String × Report). not (str_eq e.0 key)) entries

abbrev pub running_set : List (String × Report) → String → Report → List (String × Report)
running_set entries key r = (key, r) ∷ running_delete entries key

abbrev pub count_set : (ℕ → Option ℕ) → ℕ → Option ℕ → ℕ → Option ℕ
count_set counts id value other = if id == other then value else counts other

abbrev pub or_else : Option ℕ → ℕ → ℕ
or_else none fallback = fallback
or_else (some value) fallback = value

module _ ⦃n : Numbers⦄ where
  unfoldable pub report_key : Report → String
  report_key r =
      str_append (n.big_text r.proposal_id)
        (str_append ":" (str_append r.action (str_append ":" r.tx_hash)))

  -- The statements that start the check.
  unfoldable pub start : Report → ℕ → Limiter → Limiter
  start report for_proposal l = record {
    running = running_set l.running (report_key report) report;
    per_proposal = count_set l.per_proposal report.proposal_id (some (for_proposal + 1));
    total = l.total + 1;
  }

  -- `run`, up to its return.
  unfoldable pub run : Limits → Report → Limiter → Answer × Limiter
  run limits report l =
      let for_proposal = or_else (l.per_proposal report.proposal_id) 0 in
      elim (running_get l.running (report_key report)) [
        | some same ↦ (promise same, l)
        | none ↦
            if leb limits.total l.total || leb limits.per_proposal for_proposal
            then (refused, l)
            else (promise report, start report for_proposal l)
      ]

  -- The `finally` callback of the check of a report.
  unfoldable pub settle : Report → Limiter → Limiter
  settle report l =
      let left = or_else (l.per_proposal report.proposal_id) 1 - 1 in
      record {
        running = running_delete l.running (report_key report);
        per_proposal =
            count_set l.per_proposal report.proposal_id (if ltb 0 left then some left else none);
        total = l.total - 1;
      }
