-- ===== src/Eligibility/Selection.antt =====
-- src/eligibility.ts: `selectNextTask` as a whole.
use herdr_harness_lite.Eligibility.{
  rounds_found, Round, task_order, select_next_task, number_order, map_round, standalone_round,
  child_owners,
}
use herdr_harness_lite.Model.Issue.{SelectedTask, IssueSnapshot}
use herdr_harness_lite.Base.{
  List, String, In, ℕ, sort_by, inl, inr, ◌≡◌, some, true, false, ◌∷◌, arith, ◌⊎◌, Option-cases,
  none, ◌++◌, first, [], refl, All,
}
use herdr_harness_lite.Eligibility.Frontier.{
  IsFrontierOf, IsStandalone, map_round-IsFrontierOf, standalone_round-IsStandalone,
  standalone_round_complete,
}
use herdr_harness_lite.Base.Membership.{In-append, All-In, In-append_right, In-All}
use herdr_harness_lite.Base.Sorting.{In-sort_by, IsSorted, sort_by-IsSorted, sort_by-In}
use herdr_harness_lite.Eligibility.Executable.{IsExecutable}

rounds_found-In :
    (round : IssueSnapshot → Round) (is : List IssueSnapshot) (t : SelectedTask)
    → In t (rounds_found round is)
    → (i : IssueSnapshot) × In i is × ((round i).found ≡ some t)
unfolding rounds_found
rounds_found-In round [] t m = absurd m
rounds_found-In round (i ∷ is) t m = elim (Option-cases ((round i).found)) [
  | inl nothing ↦
      let (j, listed, found) = rounds_found-In round is t (rw (nothing, rounds_found) at m) in
      (j, inr listed, found)
  | inr (s, e) ↦ elim (split s e) [
    | inl same ↦ (i, inl refl, ground arith)
    | inr later ↦
        let (j, listed, found) = rounds_found-In round is t later in (j, inr listed, found)
  ]
]
  where
    split : (s : SelectedTask) → (round i).found ≡ some s → (t ≡ s) ⊎ In t (rounds_found round is)
    split s e = ground arith

In-rounds_found :
    (round : IssueSnapshot → Round) (is : List IssueSnapshot) (i : IssueSnapshot) (t : SelectedTask)
    → In i is
    → (round i).found ≡ some t
    → In t (rounds_found round is)
unfolding rounds_found
In-rounds_found round [] i t m e = absurd m
In-rounds_found round (j ∷ is) i t m e = ground (arith, In-rounds_found round is i t)

task_order_total : (a b : SelectedTask) → task_order a b ≡ false → task_order b a ≡ true
task_order_total a b h = ground arith

task_order_trans :
    (a b c : SelectedTask) → task_order a b ≡ true → task_order b c ≡ true → task_order a c ≡ true
task_order_trans a b c h k = ground arith

-- A task that may be executed: the frontier of a listed Map, or a listed issue outside every Map.
pub data IsEligible (snapshots : List IssueSnapshot) (label : String) (claimed : List ℕ)
    (t : SelectedTask) : Type 0 where
  from_map :
      (m : IssueSnapshot)
      → In m snapshots
      → IsFrontierOf snapshots label claimed m t
      → IsEligible snapshots label claimed t
  alone :
      In t.issue snapshots
      → IsStandalone snapshots label claimed t
      → IsEligible snapshots label claimed t

module _ (snapshots : List IssueSnapshot) (label : String) (claimed : List ℕ) where
  -- Every task that is listed as eligible is eligible.
  pub eligible-IsEligible :
      (t : SelectedTask)
      → In t (select_next_task snapshots label claimed).eligible
      → IsEligible snapshots label claimed t
  unfolding select_next_task
  eligible-IsEligible t m =
      let sorted = sort_by number_order snapshots in
      let maps = map_round snapshots label claimed in
      let singles = standalone_round snapshots label claimed in
      elim (In-append t (rounds_found maps sorted) (rounds_found singles sorted)
        (In-sort_by task_order t _ m)) [
          | inl left ↦
              let (i, listed, found) = rounds_found-In maps sorted t left in
              from_map i (In-sort_by number_order i snapshots listed)
                (map_round-IsFrontierOf snapshots label claimed i t found)
          | inr right ↦
              let (i, listed, found) = rounds_found-In singles sorted t right in
              let (same, ok) = standalone_round-IsStandalone snapshots label claimed i t found in
              alone (rw same (In-sort_by number_order i snapshots listed)) ok
        ]

  first-In : (ts : List SelectedTask) (t : SelectedTask) → first ts ≡ some t → In t ts
  first-In [] t h = cc
  first-In (x ∷ ts) t h = ground arith

  first-least :
      (ts : List SelectedTask) (t u : SelectedTask)
      → IsSorted task_order ts
      → first ts ≡ some t
      → In u ts
      → task_order t u ≡ true
  first-least [] t u s h m = cc
  first-least (x ∷ ts) t u s h m = ground (arith, All-In (λ y. task_order x y ≡ true) ts u s.0)

  -- If `select_next_task` selects a task, then the task is the frontier of a listed Map or an executable
  -- standalone issue, and no task of `eligible` stands before it in the order of key and issue number.
  pub selected_lem :
      (t : SelectedTask)
      → (select_next_task snapshots label claimed).selected ≡ some t
      → IsEligible snapshots label claimed t
        × All (λ u. task_order t u ≡ true) (select_next_task snapshots label claimed).eligible
  unfolding select_next_task
  selected_lem t h =
      let found =
        rounds_found (map_round snapshots label claimed) (sort_by number_order snapshots)
        ++ rounds_found (standalone_round snapshots label claimed)
            (sort_by number_order snapshots) in
      let sorted = sort_by-IsSorted task_order task_order_total task_order_trans found in
      (
        eligible-IsEligible t (first-In (sort_by task_order found) t h),
        In-All (λ u. task_order t u ≡ true) (sort_by task_order found)
            (λ u m. first-least (sort_by task_order found) t u sorted h m),
      )

  -- A listed executable issue that is no Map, has no parent and is not listed as a child of any
  -- snapshot is among the eligible tasks, whatever else is in the queue.
  pub standalone_eligible :
      (i : IssueSnapshot)
      → In i snapshots
      → i.sub_issues ≡ []
      → i.parent_number ≡ none
      → child_owners snapshots i.number ≡ []
      → IsExecutable i label claimed
      → In
          (record { issue = i; map_number = none; selection_key = i.number })
          (select_next_task snapshots label claimed).eligible
  unfolding select_next_task
  standalone_eligible i m leaf top free x =
      let sorted = sort_by number_order snapshots in
      let maps = map_round snapshots label claimed in
      let singles = standalone_round snapshots label claimed in
      let task : SelectedTask = record { issue = i; map_number = none; selection_key = i.number } in
      sort_by-In task_order task (rounds_found maps sorted ++ rounds_found singles sorted) (
        In-append_right task (rounds_found maps sorted) (rounds_found singles sorted) (
          In-rounds_found singles sorted i task (sort_by-In number_order i snapshots m)
            (standalone_round_complete snapshots label claimed i leaf top free x)))

  -- If no task is selected then none is eligible.
  pub selected-eq-none :
      (select_next_task snapshots label claimed).selected ≡ none
      → (select_next_task snapshots label claimed).eligible ≡ []
  unfolding select_next_task
  selected-eq-none h = go _ h
    where
      go : (ts : List SelectedTask) → first ts ≡ none → ts ≡ []
      go [] h = refl
      go (t ∷ ts) h = cc
