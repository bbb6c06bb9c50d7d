-- ===== src/Journey/Status/Cases.antt =====
-- When `survey_status` writes: a callback that is not refused reaches the block under the lock, and
-- nothing else changes the state.
use quant_tool.Base.{
  ℕ, ◌≡◌, refl, Bool, true, false, not, ◌&&◌, ◌||◌, Option, some, arith, ◌⊎◌, inl, inr, sym, subst,
  Option-cases, Bool-cases,
}
use quant_tool.Vendors.Models.{AttemptStatus}
use quant_tool.Journey.{Attempt, State, is_pending, has_status_page}
use quant_tool.Journey.Status.{
  Provider, Settings, Request, Verified, is_toluna, is_biobrain, canonical_query, verification,
  record_status, status_of_attempt, survey_status,
}

module _ (provider : Provider) (settings : Settings) (notified : Bool)
    (has_url : AttemptStatus → Bool) (q : Request) (now k : ℕ) (s : State) where
  -- The result `after` of a callback that reached the block.
  pub record Recording (after : State) : Type 0 where
    pub seen : Attempt
    pub status : AttemptStatus
    pub v : Verified
    pub is_result : is_pending status ≡ false
    pub is_new : canonical_query provider notified q status seen ≡ false
    pub passed : verification provider settings false q ≡ some v
    pub same : after ≡ (record_status provider has_url v status now k q.ip s).1

  status_of_attempt_cases :
      (seen : Attempt) (status : AttemptStatus)
      → is_pending status ≡ false
      → let after =
          (status_of_attempt provider settings notified has_url seen q status now k s).1 in
        (after ≡ s) ⊎ Recording after
  unfolding status_of_attempt
  status_of_attempt_cases seen status final =
      elim (Bool-cases (is_biobrain provider && q.is_pid_query)) [
        | inl by_pid ↦ inl (rw (by_pid, status_of_attempt) refl)
        | inr by_rid ↦
            elim (Bool-cases (not (has_status_page status) && not (is_toluna provider))) [
              | inl extended ↦ inl (rw (by_rid, extended, status_of_attempt) refl)
              | inr supported ↦
                  elim (Bool-cases (canonical_query provider notified q status seen)) [
                    | inl canonical ↦ elim (Option-cases (verification provider settings true q)) [
                      | inl refused ↦
                          inl (rw (by_rid, supported, canonical, refused, status_of_attempt) refl)
                      | inr (v, passed) ↦ inl (
                          rw (by_rid, supported, canonical, passed, canonical, status_of_attempt)
                            refl)
                    ]
                    | inr is_new ↦ elim (Option-cases (verification provider settings false q)) [
                      | inl refused ↦
                          inl (rw (by_rid, supported, is_new, refused, status_of_attempt) refl)
                      | inr (v, passed) ↦ inr (record {
                        seen = seen;
                        status = status;
                        v = v;
                        is_result = final;
                        is_new = is_new;
                        passed = passed;
                        same =
                            rw (by_rid, supported, is_new, passed, is_new, status_of_attempt) refl;
                      })
                    ]
                  ]
            ]
      ]

  pub survey_status_cases :
      (found : Option Attempt)
      → let after = (survey_status provider settings notified has_url found q now k s).1 in
        (after ≡ s) ⊎ Recording after
  unfolding survey_status
  survey_status_cases found = elim (Bool-cases q.has_duplicates) [
    | inl twice ↦ inl (rw (twice, survey_status) refl)
    | inr once ↦ elim (Option-cases q.status) [
      | inl absent ↦ inl (rw (once, absent, survey_status) refl)
      | inr (status, given) ↦ elim (Bool-cases (is_pending status || not q.has_identifier)) [
        | inl unsupported ↦ inl (rw (once, given, unsupported, survey_status) refl)
        | inr supported ↦ elim (Option-cases found) [
          | inl unknown ↦ inl (rw (once, given, supported, unknown, survey_status) refl)
          | inr (seen, known) ↦
              subst (λ after. (after ≡ s) ⊎ Recording after)
                (sym (simp (once, given, supported, known, survey_status)))
                (status_of_attempt_cases seen status (ground arith))
        ]
      ]
    ]
  ]
