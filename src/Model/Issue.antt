-- ===== src/Model/Issue.antt =====
-- src/model.ts: issues as GitHub lists them, the task that is selected, and its snapshot.
use herdr_harness_lite.Base.{ℕ, String, Option, List, Eq}

pub data IssueState : Type 0 where
  opened closed : IssueState

unfoldable pub IssueState-discrete : Discrete IssueState
IssueState-discrete = hlevel

instance abbrev pub issue_state_eq : Eq IssueState
issue_state_eq = record { dec = IssueState-discrete }

pub record IssueReference : Type 0 where
  pub number : ℕ
  pub state : IssueState

pub record IssueSnapshot : Type 0 where
  pub number : ℕ
  pub title : String
  pub body : String
  pub state : IssueState
  pub labels : List String
  pub assignees : List String
  pub blocked_by : List IssueReference
  pub parent_number : Option ℕ
  pub sub_issues : List IssueReference
  pub updated_at : String

pub record SelectedTask : Type 0 where
  pub issue : IssueSnapshot
  pub map_number : Option ℕ
  pub selection_key : ℕ
