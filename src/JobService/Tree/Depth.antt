-- ===== src/JobService/Tree/Depth.antt =====
-- The recursion ends, and a tree fetched with a depth limit is no deeper.
use spark_workflow_main.Common.{
  ℕ, zero, suc, ◌+◌, ◌-◌, ◌≤◌, ◌<◌, ◌≡◌, subst, Option, some, List, [], ◌∷◌, All, leb, leb-false,
  Bool-cases, Option-cases, inl, inr, arith,
}
use Prim.Native.Nat.{max}
use spark_workflow_main.Common.Text.{Text}
use spark_workflow_main.JobService.{Event, HistoryNode, HistoryNodes, node, nil, cons}
use spark_workflow_main.JobService.Tree.{
  Client, Outcome, done, raised, out_of_fuel, ◌>>=◌, started_child, build_children, build_node,
  build_history_tree,
}

abbrev mutual
  pub height : HistoryNode → ℕ
  height (node _ _ _ children) = heights children

  pub heights : HistoryNodes → ℕ
  heights nil = 0
  heights (cons n rest) = max (suc (height n)) (heights rest)

-- The call did not run out of fuel, and a tree that it returns is at most `d` deep.
abbrev pub IsTree : ℕ → Outcome HistoryNode → Type 0
IsTree d (done n) = height n ≤ d
IsTree d raised = Unit
IsTree d out_of_fuel = ⊥

abbrev IsBelow : ℕ → Outcome HistoryNode → Type 0
IsBelow d (done n) = height n < d
IsBelow d raised = Unit
IsBelow d out_of_fuel = ⊥

abbrev AreTrees : ℕ → Outcome HistoryNodes → Type 0
AreTrees d (done ns) = heights ns ≤ d
AreTrees d raised = Unit
AreTrees d out_of_fuel = ⊥

IsTree-IsBelow : (d e : ℕ) (o : Outcome HistoryNode) → d < e → IsTree d o → IsBelow e o
IsTree-IsBelow d e (done n) lt h = omega arith
IsTree-IsBelow d e raised lt h = tt
IsTree-IsBelow d e out_of_fuel lt h = h

cons-AreTrees :
    (d : ℕ) (n : Outcome HistoryNode) (ns : Outcome HistoryNodes)
    → IsBelow d n
    → AreTrees d ns
    → AreTrees d (n >>= λ child. ns >>= λ rest. done (cons child rest))
cons-AreTrees d (done n) (done ns) h k = omega arith
cons-AreTrees d (done n) raised h k = tt
cons-AreTrees d (done n) out_of_fuel h k = k
cons-AreTrees d raised ns h k = tt
cons-AreTrees d out_of_fuel ns h k = h

-- What holds of every child that the events start.
abbrev pub AllStarted : (Text → Text → Type 0) → List Event → Type 0
AllStarted P events =
    All (λ e. (child : Text × Text) → started_child e.kind ≡ some child → P child.0 child.1) events

AllStarted-map :
    (P Q : Text → Text → Type 0) (events : List Event)
    → ((id run : Text) → P id run → Q id run)
    → AllStarted P events
    → AllStarted Q events
AllStarted-map P Q [] f h = tt
AllStarted-map P Q (e ∷ es) f (first, rest) =
    (λ child started. f child.0 child.1 (first child started), AllStarted-map P Q es f rest)

AllStarted-all : (events : List Event) → AllStarted (λ _ _. Unit {0}) events
AllStarted-all [] = tt
AllStarted-all (e ∷ es) = (λ child started. tt, AllStarted-all es)

build_children-AreTrees :
    (d : ℕ) (build : Text → Text → Outcome HistoryNode) (events : List Event)
    → AllStarted (λ id run. IsBelow d (build id run)) events
    → AreTrees d (build_children build events)
unfolding build_children
build_children-AreTrees d build [] h = omega arith
build_children-AreTrees d build (e ∷ es) (first, rest) =
    elim (Option-cases (started_child e.kind)) [
      | inl other ↦ rw (other, build_children) (build_children-AreTrees d build es rest)
      | inr (child, started) ↦
          rw (started, build_children)
            (cons-AreTrees d (build child.0 child.1) (build_children build es) (first child started)
              (build_children-AreTrees d build es rest))
    ]

node-IsTree :
    (d : ℕ) (w r : Text) (events : List Event) (o : Outcome HistoryNodes)
    → AreTrees d o
    → IsTree d (o >>= λ children. done (node w r events children))
node-IsTree d w r events (done ns) h = h
node-IsTree d w r events raised h = tt
node-IsTree d w r events out_of_fuel h = h

module _ (c : Client) where
  build_history_tree-IsTree :
      (max_depth fuel current_depth : ℕ) (id : Text) (run : Option Text)
      → max_depth - current_depth < fuel
      → IsTree
          (max_depth - current_depth)
          (build_history_tree c (some max_depth) fuel current_depth id run)
  unfolding build_history_tree build_node
  build_history_tree-IsTree m zero k id run h = absurd (omega arith)
  build_history_tree-IsTree m (suc fuel) k id run h = elim (Option-cases (c.fetch_history id run)) [
    | inl fails ↦ rw (fails, build_history_tree) tt
    | inr (events, fetched) ↦ elim (Bool-cases (leb m k)) [
      | inl deep ↦ rw (fetched, deep, build_history_tree) (omega arith)
      | inr more ↦
          let below : k < m = leb-false m k more in
          rw (fetched, more, build_history_tree)
            (node-IsTree (m - k) id _ events _ (
              build_children-AreTrees (m - k) _ events (
                AllStarted-map (λ _ _. Unit {0}) _ events
                  (λ child child_run _.
                    IsTree-IsBelow (m - (k + 1)) (m - k) _ (omega arith) (
                      build_history_tree-IsTree m fuel (k + 1) child (some child_run)
                        (omega arith)))
                  (AllStarted-all events))))
    ]
  ]

  -- With a depth limit the recursion ends by itself, whatever the client returns: fuel above the
  -- limit is not used up, and a tree that is returned is no deeper than the limit.
  pub build_history_tree_bounded :
      (max_depth : ℕ) (id : Text) (run : Option Text)
      → IsTree max_depth (build_history_tree c (some max_depth) (suc max_depth) 0 id run)
  build_history_tree_bounded m id run =
      subst (λ d. IsTree d (build_history_tree c (some m) (suc m) 0 id run))
        (let e : m - 0 ≡ m = omega arith in e)
        (build_history_tree-IsTree m (suc m) 0 id run (omega arith))
