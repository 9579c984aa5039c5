-- ===== src/Eligibility/Executable.antt =====
-- src/eligibility.ts: what `commonFailure` lets through.
use herdr_harness_lite.Base.{
  String, ℕ, ◌≡◌, refl, true, none, List, [], ◌∷◌, arith, In, All, filter, is_empty, nat_eq,
  string_eq,
}
use herdr_harness_lite.Base.Membership.{includes→In, In→includes}
use herdr_harness_lite.Model.Issue.{opened, closed, issue_state_eq, IssueReference, IssueSnapshot}
use herdr_harness_lite.Eligibility.{common_failure, is_open}

-- An issue that may be claimed: OPEN, with the label, of nobody, with no OPEN blocker, and not yet
-- in the ledger.
pub record IsExecutable (issue : IssueSnapshot) (label : String) (claimed : List ℕ) : Type 0 where
  pub is_opened : issue.state ≡ opened
  pub is_ready : In label issue.labels
  pub is_free : issue.assignees ≡ []
  pub is_unblocked : All (λ b. b.state ≡ closed) issue.blocked_by
  pub is_new : In issue.number claimed → ⊥

no_open→All :
    (rs : List IssueReference)
    → is_empty (filter is_open rs) ≡ true
    → All (λ b. b.state ≡ closed) rs
unfolding filter
no_open→All [] h = tt
no_open→All (r ∷ rs) h = ground (arith, no_open→All rs)

All→no_open :
    (rs : List IssueReference)
    → All (λ b. b.state ≡ closed) rs
    → is_empty (filter is_open rs) ≡ true
unfolding filter
All→no_open [] h = refl
All→no_open (r ∷ rs) h = ground (arith, All→no_open rs)

pub common_failure→IsExecutable :
    (issue : IssueSnapshot) (label : String) (claimed : List ℕ)
    → common_failure issue label claimed ≡ none
    → IsExecutable issue label claimed
unfolding common_failure
common_failure→IsExecutable issue label claimed h = record {
  is_opened = ground arith;
  is_ready = ground (arith, includes→In issue.labels label);
  is_free = ground arith;
  is_unblocked = no_open→All issue.blocked_by (ground arith);
  is_new = λ m. ground (arith, In→includes claimed issue.number m);
}

pub IsExecutable→common_failure :
    (issue : IssueSnapshot) (label : String) (claimed : List ℕ)
    → IsExecutable issue label claimed
    → common_failure issue label claimed ≡ none
unfolding common_failure
IsExecutable→common_failure issue label claimed h = ground (
  arith,
  In→includes issue.labels label h.is_ready,
  All→no_open issue.blocked_by h.is_unblocked,
  includes→In claimed issue.number,
  h.is_new,
)
