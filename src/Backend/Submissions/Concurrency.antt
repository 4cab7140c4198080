-- ===== src/Backend/Submissions/Concurrency.antt =====
-- `createSubmissionCheckLimiter` of backend/src/submission-check.ts: the checks that run at once after
-- any sequence of reports and settled checks.
use mina_guard.Base.{
  ℕ, ◌+◌, ◌-◌, ◌≤◌, ◌≡◌, ◌⊎◌, ◌↔◌, false, Option, none, some, In, Distinct, length, ◌==◌, leb, ltb,
  inl, inr, Bool-cases, ==_iff, ==-refl, Option-cases, ap, ◌∙◌, if◌then◌else◌, refl, arith,
}
use mina_guard.Backend.{Numbers}
use mina_guard.Backend.Submissions.{
  Report, Limits, Limiter, promise, refused, idle, running_get, running_delete, or_else, report_key,
  start, run, settle,
}
use mina_guard.Backend.Submissions.Entries.{
  count_of, keys, unlisted, listed, delete_absent, delete_present, delete-Distinct,
}

-- `finally` leaves one check less, whether it keeps the entry or deletes it.
held_less :
    (known : Option ℕ) (count : ℕ)
    → or_else known 0 ≡ count + 1
    → or_else (if ltb 0 (or_else known 1 - 1) then some (or_else known 1 - 1) else none) 0 ≡ count
held_less none count h = omega (arith, h)
held_less (some held) count h = ground arith

module _ ⦃n : Numbers⦄ (limits : Limits) where
  -- The states after a sequence of reports and of checks that settle.
  pub data Reachable : Limiter → Type 0 where
    unused : Reachable idle
    reported : {l : Limiter} (r : Report) → Reachable l → Reachable (run limits r l).1
    settled :
        {l : Limiter} (r : Report)
        → Reachable l
        → In (report_key r, r) l.running
        → Reachable (settle r l)

  -- What the counters count, and the limits on it.
  pub record IsBounded (l : Limiter) : Type 0 where
    pub total : l.total ≡ length l.running
    pub capped : l.total ≤ limits.total
    pub held : (id : ℕ) → or_else (l.per_proposal id) 0 ≡ count_of id l.running
    pub shared : (id : ℕ) → count_of id l.running ≤ limits.per_proposal
    pub distinct : Distinct (keys l.running)

  start-IsBounded :
      (r : Report) (l : Limiter)
      → running_get l.running (report_key r) ≡ none
      → leb limits.total l.total ≡ false
      → leb limits.per_proposal (or_else (l.per_proposal r.proposal_id) 0) ≡ false
      → IsBounded l
      → IsBounded (start r (or_else (l.per_proposal r.proposal_id) 0) l)
  unfolding start
  start-IsBounded r l new free free_here b =
      let absent = unlisted (report_key r) l.running new in
      rw (delete_absent (report_key r) l.running absent) (record {
        total = omega (arith, b.total);
        capped = ground arith;
        held = λ id. elim (Bool-cases (r.proposal_id == id)) [
          | inl mine ↦
              let same = ap (λ (x : ℕ). count_of x l.running) ((==_iff r.proposal_id id).0 mine) in
              rw mine (omega (arith, b.held r.proposal_id, same))
          | inr other ↦ rw other (omega (arith, b.held id))
        ];
        shared = λ id. elim (Bool-cases (r.proposal_id == id)) [
          | inl mine ↦
              let same = ap (λ (x : ℕ). count_of x l.running) ((==_iff r.proposal_id id).0 mine) in
              let held = b.held r.proposal_id in rw mine (ground arith)
          | inr other ↦ rw other (omega (arith, b.shared id))
        ];
        distinct = (absent, b.distinct);
      })

  run-IsBounded : (r : Report) (l : Limiter) → IsBounded l → IsBounded (run limits r l).1
  unfolding run
  run-IsBounded r l b = elim (Option-cases (running_get l.running (report_key r))) [
    | inr (same, found) ↦ rw (run, found) b
    | inl new ↦ elim (Bool-cases (leb limits.total l.total)) [
      | inl full ↦ rw (run, new, full) b
      | inr free ↦
          elim (Bool-cases (leb limits.per_proposal (or_else (l.per_proposal r.proposal_id) 0))) [
            | inl full_here ↦ rw (run, new, free, full_here) b
            | inr free_here ↦
                rw (run, new, free, free_here) (start-IsBounded r l new free free_here b)
          ]
    ]
  ]

  settle-IsBounded :
      (r : Report) (l : Limiter)
      → In (report_key r, r) l.running
      → IsBounded l
      → IsBounded (settle r l)
  unfolding settle
  settle-IsBounded r l i b =
      let (shorter, fewer) = delete_present (report_key r) r l.running b.distinct i in
      record {
        total = omega (arith, shorter, b.total);
        capped = omega (arith, b.capped);
        held = λ id. elim (Bool-cases (r.proposal_id == id)) [
          | inl mine ↦
              let same =
                ap (λ (x : ℕ). count_of x (running_delete l.running (report_key r)))
                  ((==_iff r.proposal_id id).0 mine) in
              let last = b.held r.proposal_id in
              let one_less = fewer r.proposal_id in
              rw mine (
                held_less (l.per_proposal r.proposal_id) _
                  (last ∙ one_less ∙ rw (==-refl r.proposal_id) refl)
                ∙ same)
          | inr other ↦ rw other (b.held id ∙ fewer id ∙ rw other (omega arith))
        ];
        shared = λ id. omega (arith, fewer id, b.shared id);
        distinct = delete-Distinct (report_key r) l.running b.distinct;
      }

  -- After any sequence of reports and of checks that settle, the counters count the running
  -- checks, in total and per proposal, both are within the limits, and no two running checks have
  -- the same key.
  pub Reachable-IsBounded : {l : Limiter} → Reachable l → IsBounded l
  Reachable-IsBounded unused = record {
    total = refl;
    capped = omega arith;
    held = λ id. refl;
    shared = λ id. omega arith;
    distinct = tt;
  }
  Reachable-IsBounded (reported {l} r before) = run-IsBounded r l (Reachable-IsBounded before)
  Reachable-IsBounded (settled {l} r before i) = settle-IsBounded r l i (Reachable-IsBounded before)

  -- After any sequence of reports and of checks that settle, a report is refused exactly when no
  -- check runs under its key and either as many checks run as the limits allow in total, or as
  -- many as they allow for its proposal.
  pub run_refused_iff :
      {l : Limiter}
      → Reachable l
      → (r : Report)
      → ((run limits r l).0 ≡ refused) ↔ (
          (¬ In (report_key r) (keys l.running))
          × ((limits.total ≤ length l.running)
              ⊎ (limits.per_proposal ≤ count_of r.proposal_id l.running)))
  unfolding run
  run_refused_iff {l} before r =
      let b = Reachable-IsBounded before in
      let held = b.held r.proposal_id in
      elim (Option-cases (running_get l.running (report_key r))) [
        | inr (same, found) ↦
            let shared : (run limits r l).0 ≡ promise same = rw (run, found) refl in
            (λ h. cc, λ x. absurd (x.0 (listed (report_key r) l.running same found)))
        | inl new ↦
            let absent = unlisted (report_key r) l.running new in
            elim (Bool-cases (leb limits.total l.total)) [
              | inl full ↦
                  (λ h. (absent, inl (ground (arith, b.total))), λ x. rw (run, new, full) refl)
              | inr free ↦
                  elim (Bool-cases
                    (leb limits.per_proposal (or_else (l.per_proposal r.proposal_id) 0))) [
                      | inl full_here ↦ (
                        λ h. (absent, inr (ground arith)),
                        λ x. rw (run, new, free, full_here) refl,
                      )
                      | inr free_here ↦
                          let started : (run limits r l).0 ≡ promise r =
                            rw (run, new, free, free_here) refl in
                          (
                            λ h. cc,
                            λ x. absurd (elim x.1 [
                              | inl full ↦ ground (arith, b.total)
                              | inr full_here ↦ ground arith
                            ]),
                          )
                    ]
            ]
      ]
