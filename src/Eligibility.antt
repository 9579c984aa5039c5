-- ===== src/Eligibility.antt =====
-- src/eligibility.ts: the pure selection of the next task from the GitHub issue graph.
-- A `ReadonlySet<number>` is a list with `includes`; the `Map` from numbers to snapshots, in which
-- a later snapshot with the same number replaces an earlier one, is a search from the end.
pub mod Executable
pub mod Frontier
pub mod Selection
use mathlib.Core.List.{reverse}
use herdr_harness_lite.Base.{
  ℕ, String, ◌≡◌, Bool, true, false, not, ◌&&◌, ◌||◌, Option, none, some, List, [], ◌∷◌, ◌++◌, map,
  if◌then◌else◌, ltb, leb, ◌==◌, ◌/=◌, nat_eq, string_eq, option_eq, is_empty, is_none, first,
  length, some_of, filter, find, includes, sort_by,
}
use herdr_harness_lite.Base.Text.{◌<>◌, show_number, join}
use herdr_harness_lite.Model.Issue.{
  IssueState, opened, issue_state_eq, IssueReference, IssueSnapshot, SelectedTask,
}

pub data SkipReason : Type 0 where
  not_open missing_ready_label assigned blocked already_claimed map_container map_waiting :
      SkipReason
  nested_map ambiguous_parent missing_child_snapshot : SkipReason

pub record SelectionDiagnostic : Type 0 where
  pub issue_number : ℕ
  pub reason : SkipReason
  pub detail : String

pub record SelectionResult : Type 0 where
  pub selected : Option SelectedTask
  pub eligible : List SelectedTask
  pub diagnostics : List SelectionDiagnostic

pub record Failure : Type 0 where
  pub reason : SkipReason
  pub detail : String

unfoldable pub show_state : IssueState → String
show_state IssueState.opened = "OPEN"
show_state IssueState.closed = "CLOSED"

abbrev is_open : IssueReference → Bool
is_open r = r.state == opened

unfoldable pub common_failure : IssueSnapshot → String → List ℕ → Option Failure
unfolding show_state
common_failure issue ready_label claimed =
    let open_blockers = filter is_open issue.blocked_by in
    if issue.state /= opened
    then some (record { reason = not_open; detail = "state=" <> show_state issue.state })
    else if not (includes issue.labels ready_label)
    then some (record { reason = missing_ready_label; detail = "missing label " <> ready_label })
    else if not (is_empty issue.assignees)
    then some (record { reason = assigned; detail = "assigned to " <> join ", " issue.assignees })
    else if not (is_empty open_blockers)
    then some (record {
      reason = blocked;
      detail = "blocked by " <> join ", " (map (λ r. "#" <> show_number r.number) open_blockers);
    })
    else if includes claimed issue.number
    then some (record { reason = already_claimed; detail = "issue exists in the durable ledger" })
    else none

unfoldable pub is_still_claimable : IssueSnapshot → String → Bool
is_still_claimable issue ready_label = elim (common_failure issue ready_label []) [
  | none ↦ true
  | some _ ↦ false
]

-- `byNumber.get(n)`
unfoldable pub by_number : List IssueSnapshot → ℕ → Option IssueSnapshot
by_number snapshots n = find (λ i. i.number == n) (reverse snapshots)

-- `childOwners.get(n) ?? []`: the loop pushes the owner once for each reference to the child.
owners_in : ℕ → List IssueReference → ℕ → List ℕ
owners_in owner [] n = []
owners_in owner (c ∷ cs) n =
    let rest = owners_in owner cs n in if c.number == n then owner ∷ rest else rest

unfoldable pub child_owners : List IssueSnapshot → ℕ → List ℕ
unfolding owners_in
child_owners [] n = []
child_owners (i ∷ is) n = owners_in i.number i.sub_issues n ++ child_owners is n

-- One round of a loop: the diagnostics that it pushes and the task that it finds, if any.
pub record Round : Type 0 where
  pub notes : List SelectionDiagnostic
  pub found : Option SelectedTask

abbrev note : ℕ → SkipReason → String → SelectionDiagnostic
note n reason detail = record { issue_number = n; reason = reason; detail = detail }

-- `continue` after a diagnostic
abbrev skip : List SelectionDiagnostic → ℕ → SkipReason → String → Round
skip notes n reason detail = record { notes = notes ++ note n reason detail ∷ []; found = none }

module _ (snapshots : List IssueSnapshot) (ready_label : String) (claimed : List ℕ) where
  -- The part of the first loop after the frontier's snapshot is found.
  unfoldable pub judge_frontier : List SelectionDiagnostic → IssueSnapshot → IssueSnapshot → Round
  judge_frontier notes map_issue frontier =
      let owners = child_owners snapshots frontier.number in
      if length owners /= 1
        || first owners /= some map_issue.number
        || frontier.parent_number /= some map_issue.number
      then skip notes frontier.number ambiguous_parent (
          "frontier parent is inconsistent; owners="
          <> (if is_empty owners then "none" else join "," (map show_number owners)))
      else if not (is_empty frontier.sub_issues)
      then skip notes frontier.number nested_map "a Map child cannot itself be a Map in V1"
      else elim (common_failure frontier ready_label claimed) [
        | some failure ↦ skip notes frontier.number map_waiting (
            "strict frontier #"
            <> show_number frontier.number
            <> " is not executable: "
            <> failure.detail)
        | none ↦ record {
          notes = notes;
          found = some (record {
            issue = frontier;
            map_number = some map_issue.number;
            selection_key = map_issue.number;
          });
        }
      ]

  -- The part of the first loop after the Map itself is found to be active and not nested.
  unfoldable pub find_frontier : List SelectionDiagnostic → IssueSnapshot → Round
  find_frontier notes map_issue = elim (find is_open map_issue.sub_issues) [
    | none ↦ skip notes map_issue.number map_waiting "Map has no OPEN child"
    | some ref ↦ elim (by_number snapshots ref.number) [
      | none ↦ skip notes map_issue.number missing_child_snapshot (
          "first OPEN child #"
          <> show_number ref.number
          <> " was not returned by the GitHub adapter")
      | some frontier ↦ judge_frontier notes map_issue frontier
    ]
  ]

  -- One round of the first loop, over the Maps.
  unfoldable pub map_round : IssueSnapshot → Round
  map_round map_issue =
      let start =
        note map_issue.number map_container "Map is a sequencing container and is never claimed"
        ∷ [] in
      if is_empty map_issue.sub_issues
      then record { notes = []; found = none }
      else elim (common_failure map_issue ready_label claimed) [
        | some failure ↦
            skip start map_issue.number failure.reason ("Map is not active: " <> failure.detail)
        | none ↦ elim map_issue.parent_number [
          | some parent ↦
              skip start map_issue.number nested_map
                ("nested Map under #" <> show_number parent <> " is unsupported in V1")
          | none ↦ find_frontier start map_issue
        ]
      ]

  -- One round of the second loop, over the issues outside every Map.
  unfoldable pub standalone_round : IssueSnapshot → Round
  standalone_round issue =
      if not (is_empty issue.sub_issues)
        || not (is_none issue.parent_number)
        || not (is_empty (child_owners snapshots issue.number))
      then record { notes = []; found = none }
      else elim (common_failure issue ready_label claimed) [
        | some failure ↦ record {
          notes = note issue.number failure.reason failure.detail ∷ [];
          found = none;
        }
        | none ↦ record {
          notes = [];
          found = some (record { issue = issue; map_number = none; selection_key = issue.number });
        }
      ]

-- What a loop has pushed when it ends.
unfoldable pub rounds_found : (IssueSnapshot → Round) → List IssueSnapshot → List SelectedTask
rounds_found round [] = []
rounds_found round (i ∷ is) =
    let rest = rounds_found round is in elim ((round i).found) [ none ↦ rest | some t ↦ t ∷ rest ]

unfoldable pub rounds_notes :
    (IssueSnapshot → Round) → List IssueSnapshot → List SelectionDiagnostic
rounds_notes round [] = []
rounds_notes round (i ∷ is) = (round i).notes ++ rounds_notes round is

-- `a.number - b.number`, for a stable sort: whether `a` may stand before `b`.
abbrev pub number_order : IssueSnapshot → IssueSnapshot → Bool
number_order a b = leb a.number b.number

-- `a.selectionKey - b.selectionKey || a.issue.number - b.issue.number`
abbrev pub task_order : SelectedTask → SelectedTask → Bool
task_order a b =
    ltb a.selection_key b.selection_key
    || a.selection_key == b.selection_key && leb a.issue.number b.issue.number

unfoldable pub select_next_task : List IssueSnapshot → String → List ℕ → SelectionResult
select_next_task snapshots ready_label claimed =
    let sorted = sort_by number_order snapshots in
    let maps = map_round snapshots ready_label claimed in
    let alone = standalone_round snapshots ready_label claimed in
    let eligible = sort_by task_order (rounds_found maps sorted ++ rounds_found alone sorted) in
    record {
      selected = first eligible;
      eligible = eligible;
      diagnostics = rounds_notes maps sorted ++ rounds_notes alone sorted;
    }
