-- ===== src/Eligibility/Frontier.antt =====
-- src/eligibility.ts: what a round of either loop finds.
use herdr_harness_lite.Base.{
  ℕ, String, ◌≡◌, ◌⊎◌, true, none, some, List, [], ◌∷◌, arith, ◌==◌, nat_eq, string_eq, option_eq,
  length, first, find, In, Option-cases, inl, inr,
}
use herdr_harness_lite.Base.Membership.{find-In, In-reverse}
use herdr_harness_lite.Model.Issue.{
  opened, closed, issue_state_eq, IssueReference, IssueSnapshot, SelectedTask,
}
use herdr_harness_lite.Eligibility.{
  map_container, is_open, by_number, child_owners, judge_frontier, SelectionDiagnostic,
  find_frontier, map_round, standalone_round,
}
use herdr_harness_lite.Eligibility.Executable.{
  IsExecutable, common_failure→IsExecutable, IsExecutable→common_failure,
}

-- `n` is the number of the first OPEN reference: those that stand before it are CLOSED.
abbrev pub IsFirstOpen : ℕ → List IssueReference → Type 0
IsFirstOpen n [] = ⊥
IsFirstOpen n (r ∷ rs) =
    ((r.state ≡ opened) × (r.number ≡ n)) ⊎ ((r.state ≡ closed) × IsFirstOpen n rs)

find-IsFirstOpen :
    (rs : List IssueReference) (r : IssueReference)
    → find is_open rs ≡ some r
    → IsFirstOpen r.number rs
unfolding find
find-IsFirstOpen [] r h = cc
find-IsFirstOpen (x ∷ rs) r h = ground (arith, find-IsFirstOpen rs r)

module _ (snapshots : List IssueSnapshot) (label : String) (claimed : List ℕ) where
  -- A task from a Map: the Map is listed, active and nobody's child, and the task is its first OPEN
  -- child, which is its own parent's only, no Map itself, and executable.
  pub record IsFrontierOf (m : IssueSnapshot) (t : SelectedTask) : Type 0 where
    pub active : IsExecutable m label claimed
    pub top_level : m.parent_number ≡ none
    pub from_map : t.map_number ≡ some m.number
    pub keyed : t.selection_key ≡ m.number
    pub listed : In t.issue snapshots
    pub first_open : IsFirstOpen t.issue.number m.sub_issues
    pub sole_owner : child_owners snapshots t.issue.number ≡ m.number ∷ []
    pub child_of : t.issue.parent_number ≡ some m.number
    pub leaf : t.issue.sub_issues ≡ []
    pub executable : IsExecutable t.issue label claimed

  -- A task outside every Map.
  pub record IsStandalone (t : SelectedTask) : Type 0 where
    pub no_map : t.map_number ≡ none
    pub keyed : t.selection_key ≡ t.issue.number
    pub no_parent : t.issue.parent_number ≡ none
    pub no_owner : child_owners snapshots t.issue.number ≡ []
    pub leaf : t.issue.sub_issues ≡ []
    pub executable : IsExecutable t.issue label claimed

  by_number_lem :
      (n : ℕ) (i : IssueSnapshot) → by_number snapshots n ≡ some i → In i snapshots × (i.number ≡ n)
  unfolding by_number
  by_number_lem n i h =
      let (listed, same) = find-In (λ j. j.number == n) _ i h in
      (In-reverse i snapshots listed, ground arith)

  sole_owner_lem :
      (xs : List ℕ) (n : ℕ) → (length xs == 1) ≡ true → (first xs == some n) ≡ true → xs ≡ n ∷ []
  sole_owner_lem [] n h k = ground arith
  sole_owner_lem (x ∷ []) n h k = ground arith
  sole_owner_lem (x ∷ y ∷ xs) n h k = ground arith

  -- What the rest of a round needs to know of the Map.
  record IsActiveMap (m : IssueSnapshot) : Type 0 where
    active : IsExecutable m label claimed
    top_level : m.parent_number ≡ none

  judge_frontier-IsFrontierOf :
      (notes : List SelectionDiagnostic) (m frontier : IssueSnapshot) (t : SelectedTask)
      → IsActiveMap m
      → In frontier snapshots
      → IsFirstOpen frontier.number m.sub_issues
      → (judge_frontier snapshots label claimed notes m frontier).found ≡ some t
      → IsFrontierOf m t
  unfolding judge_frontier
  judge_frontier-IsFrontierOf notes m frontier t am listed firstly h = ground (
    arith,
    sole_owner_lem (child_owners snapshots frontier.number) m.number,
    common_failure→IsExecutable frontier label claimed,
  )

  find_frontier-IsFrontierOf :
      (notes : List SelectionDiagnostic) (m : IssueSnapshot) (t : SelectedTask)
      → IsActiveMap m
      → (find_frontier snapshots label claimed notes m).found ≡ some t
      → IsFrontierOf m t
  unfolding find_frontier
  find_frontier-IsFrontierOf notes m t am h = elim (Option-cases (find is_open m.sub_issues)) [
    | inl missing ↦ ground arith
    | inr (ref, firstly) ↦ elim (Option-cases (by_number snapshots ref.number)) [
      | inl missing ↦ ground arith
      | inr (frontier, got) ↦
          let (listed, same) = by_number_lem ref.number frontier got in
          let firstly' = find-IsFirstOpen m.sub_issues ref firstly in
          ground
            (arith, judge_frontier-IsFrontierOf notes m frontier t am listed (rw same firstly'))
    ]
  ]

  -- What a round over the Maps finds is the frontier of its Map.
  pub map_round-IsFrontierOf :
      (m : IssueSnapshot) (t : SelectedTask)
      → (map_round snapshots label claimed m).found ≡ some t
      → IsFrontierOf m t
  unfolding map_round
  map_round-IsFrontierOf m t h = ground (
    arith,
    common_failure→IsExecutable m label claimed,
    find_frontier-IsFrontierOf
        (record {
          issue_number = m.number;
          reason = map_container;
          detail = "Map is a sequencing container and is never claimed";
        }
          ∷ [])
        m t,
  )

  -- What a round over the other issues finds is that issue, outside every Map.
  pub standalone_round-IsStandalone :
      (i : IssueSnapshot) (t : SelectedTask)
      → (standalone_round snapshots label claimed i).found ≡ some t
      → (t.issue ≡ i) × IsStandalone t
  unfolding standalone_round
  standalone_round-IsStandalone i t h = ground (arith, common_failure→IsExecutable i label claimed)

  -- Every executable issue that is no Map, has no parent and is nobody's child is found.
  pub standalone_round_complete :
      (i : IssueSnapshot)
      → i.sub_issues ≡ []
      → i.parent_number ≡ none
      → child_owners snapshots i.number ≡ []
      → IsExecutable i label claimed
      → (standalone_round snapshots label claimed i).found
        ≡ some (record { issue = i; map_number = none; selection_key = i.number })
  unfolding standalone_round
  standalone_round_complete i leaf top free x =
      ground (arith, IsExecutable→common_failure i label claimed x)
