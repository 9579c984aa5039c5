-- ===== src/Examples/Selection.antt =====
-- Tests of the selection of the next task: two executable issues, the greater one listed first.
use herdr_harness_lite.Examples.Data.{ready_issue}
use herdr_harness_lite.Eligibility.{
  select_next_task, child_owners, common_failure, task_order, rounds_found, map_round,
  standalone_round,
}
use herdr_harness_lite.Base.{
  List, ℕ, ◌∷◌, In, ◌≡◌, true, [], none, All, inl, filter, refl, includes, sort_by, insert_by,
  arith,
}
use herdr_harness_lite.Model.Issue.{IssueSnapshot, SelectedTask}
use herdr_harness_lite.Eligibility.Selection.{IsEligible, standalone_eligible, selected_lem}
use herdr_harness_lite.Eligibility.Executable.{IsExecutable, common_failure→IsExecutable}

abbrev queue : List IssueSnapshot
queue = ready_issue 9 ∷ ready_issue 7 ∷ []

abbrev task_of : IssueSnapshot → SelectedTask
task_of i = record { issue = i; map_number = none; selection_key = i.number }

ready_issue-IsExecutable : (n : ℕ) → IsExecutable (ready_issue n) "ready" []
unfolding common_failure filter includes
ready_issue-IsExecutable n = common_failure→IsExecutable (ready_issue n) "ready" [] (ground arith)

selected_example :
    IsEligible queue "ready" [] (task_of (ready_issue 7))
    × All
        (λ u. task_order (task_of (ready_issue 7)) u ≡ true)
        (select_next_task queue "ready" []).eligible
unfolding select_next_task sort_by insert_by map_round standalone_round rounds_found common_failure
    child_owners filter includes
selected_example = selected_lem queue "ready" [] (task_of (ready_issue 7)) (ground arith)

standalone_example : In (task_of (ready_issue 9)) (select_next_task queue "ready" []).eligible
unfolding child_owners
standalone_example =
    standalone_eligible queue "ready" [] (ready_issue 9) (inl refl) refl refl (ground arith)
      (ready_issue-IsExecutable 9)
