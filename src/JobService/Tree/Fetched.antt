-- ===== src/JobService/Tree/Fetched.antt =====
-- What the tree of histories holds: the history of each execution that was fetched, and below it
-- those of the children that the history starts.
use spark_workflow_main.Common.{
  ℕ, zero, suc, ◌+◌, ◌-◌, ◌<◌, ◌≡◌, refl, subst, Option, none, some, List, [], ◌∷◌, ◌++◌, leb,
  Bool-cases, Option-cases, inl, inr, true, false, if◌then◌else◌, arith,
}
use spark_workflow_main.Common.Text.{Text, is_empty}
use spark_workflow_main.JobService.{EventKind, Event, HistoryNode, HistoryNodes, node, nil, cons}
use spark_workflow_main.JobService.Tree.{
  Client, Outcome, done, raised, out_of_fuel, ◌>>=◌, run_id_of, started_child, build_children,
  build_node, build_history_tree,
}

-- The workflow id and the run id of the child that an event starts, if the id is not empty.
abbrev pub child_named : EventKind → List (Text × Text)
child_named (EventKind.child_started _ workflow_id run_id) =
    if is_empty workflow_id then [] else (workflow_id, run_id) ∷ []
child_named _ = []

abbrev pub children_named : List Event → List (Text × Text)
children_named [] = []
children_named (e ∷ es) = child_named e.kind ++ children_named es

-- The children to fetch with `d` levels left.
abbrev pub awaited : ℕ → List Event → List (Text × Text)
awaited zero events = []
awaited (suc d) events = children_named events

abbrev mutual
  -- The node holds what the client returns for the execution, and with `d` levels left below it a
  -- node for each child that the events start, in their order.
  pub IsFetched : Client → ℕ → Text → Option Text → HistoryNode → Type 0
  IsFetched c d id run (node w r events children) =
      (c.fetch_history id run ≡ some events)
      × (w ≡ id)
      × (r ≡ run_id_of c id run)
      × AreFetched c (d - 1) (awaited d events) children

  pub AreFetched : Client → ℕ → List (Text × Text) → HistoryNodes → Type 0
  AreFetched c d [] nil = Unit
  AreFetched c d [] (cons _ _) = ⊥
  AreFetched c d (_ ∷ _) nil = ⊥
  AreFetched c d (p ∷ ps) (cons n ns) = IsFetched c d p.0 (some p.1) n × AreFetched c d ps ns

abbrev pub HasFailure : Client → Type 0
HasFailure c = (id : Text) × (run : Option Text) × (c.fetch_history id run ≡ none)

-- The call returns such a node, or raises where the client raises for some execution.
abbrev pub Fetches : Client → ℕ → Text → Option Text → Outcome HistoryNode → Type 0
Fetches c d id run (done n) = IsFetched c d id run n
Fetches c d id run raised = HasFailure c
Fetches c d id run out_of_fuel = ⊥

abbrev FetchesAll : Client → ℕ → List (Text × Text) → Outcome HistoryNodes → Type 0
FetchesAll c d ps (done ns) = AreFetched c d ps ns
FetchesAll c d ps raised = HasFailure c
FetchesAll c d ps out_of_fuel = ⊥

cons-FetchesAll :
    (c : Client) (d : ℕ) (id run : Text) (ps : List (Text × Text)) (n : Outcome HistoryNode)
    (ns : Outcome HistoryNodes)
    → Fetches c d id (some run) n
    → FetchesAll c d ps ns
    → FetchesAll c d ((id, run) ∷ ps) (n >>= λ child. ns >>= λ rest. done (cons child rest))
cons-FetchesAll c d id run ps (done n) (done ns) h k = (h, k)
cons-FetchesAll c d id run ps (done n) raised h k = k
cons-FetchesAll c d id run ps (done n) out_of_fuel h k = k
cons-FetchesAll c d id run ps raised ns h k = h
cons-FetchesAll c d id run ps out_of_fuel ns h k = absurd h

child_named-started :
    (k : EventKind) → child_named k ≡ elim (started_child k) [ none ↦ [] | some child ↦ child ∷ [] ]
child_named-started (EventKind.child_started i w r) = elim (Bool-cases (is_empty w)) [
  | inl e ↦ rw e refl
  | inr e ↦ rw e refl
]
child_named-started _ = refl

build_children-FetchesAll :
    (c : Client) (d : ℕ) (build : Text → Text → Outcome HistoryNode)
    → ((id run : Text) → Fetches c d id (some run) (build id run))
    → (events : List Event) → FetchesAll c d (children_named events) (build_children build events)
unfolding build_children
build_children-FetchesAll c d build h [] = tt
build_children-FetchesAll c d build h (e ∷ es) = elim (Option-cases (started_child e.kind)) [
  | inl other ↦
      rw (child_named-started e.kind, other, build_children)
        (build_children-FetchesAll c d build h es)
  | inr (child, started) ↦
      rw (child_named-started e.kind, started, build_children)
        (cons-FetchesAll c d child.0 child.1 (children_named es) (build child.0 child.1)
          (build_children build es) (h child.0 child.1) (build_children-FetchesAll c d build h es))
]

node-Fetches :
    (c : Client) (d : ℕ) (id : Text) (run : Option Text) (events : List Event)
    (o : Outcome HistoryNodes)
    → c.fetch_history id run ≡ some events
    → FetchesAll c d (children_named events) o
    → Fetches c
        (suc d)
        id
        run
        (o >>= λ children. done (node id (run_id_of c id run) events children))
node-Fetches c d id run events (done ns) e h = (
  e,
  refl,
  refl,
  subst (λ left. AreFetched c left (children_named events) ns)
      (let same : d ≡ suc d - 1 = omega arith in same) h,
)
node-Fetches c d id run events raised e h = h
node-Fetches c d id run events out_of_fuel e h = h

build_history_tree-Fetches :
    (c : Client) (d max_depth fuel current_depth : ℕ) (id : Text) (run : Option Text)
    → max_depth - current_depth ≡ d
    → d < fuel
    → Fetches c d id run (build_history_tree c (some max_depth) fuel current_depth id run)
unfolding build_history_tree build_node
build_history_tree-Fetches c d m zero k id run e h = absurd (omega arith)
build_history_tree-Fetches c zero m (suc fuel) k id run e h =
    elim (Option-cases (c.fetch_history id run)) [
      | inl fails ↦ rw (fails, build_history_tree) (id, run, fails)
      | inr (events, fetched) ↦
          let deep : leb m k ≡ true = ground (arith, e) in
          rw (fetched, deep, build_history_tree) (fetched, refl, refl, tt)
    ]
build_history_tree-Fetches c (suc d) m (suc fuel) k id run e h =
    elim (Option-cases (c.fetch_history id run)) [
      | inl fails ↦ rw (fails, build_history_tree) (id, run, fails)
      | inr (events, fetched) ↦
          let more : leb m k ≡ false = ground (arith, e) in
          rw (fetched, more, build_history_tree)
            (node-Fetches c d id run events _ fetched (
              build_children-FetchesAll c d _
                (λ child child_run.
                  build_history_tree-Fetches c d m fuel (k + 1) child (some child_run) (omega arith)
                    (omega arith))
                events))
    ]

-- With a depth limit, build_history_tree raises only where the client raises for some execution,
-- and a tree that it returns is exact: its nodes hold the ids and the history of their execution,
-- and above the limit a node has one child for each child workflow with an id that its history
-- starts, in the order of the events; at the limit it has none.
pub build_history_tree-IsFetched :
    (c : Client) (max_depth : ℕ) (id : Text) (run : Option Text)
    → Fetches c max_depth id run (build_history_tree c (some max_depth) (suc max_depth) 0 id run)
build_history_tree-IsFetched c m id run =
    build_history_tree-Fetches c m m (suc m) 0 id run (omega arith) (omega arith)
