-- ===== src/PageIndex/Thinning/Reference.antt =====
-- The thinning without indices and marks: a recursion over the list, with the list behind a node
-- thinned first.
use spark_workflow_main.Common.{
  ℕ, ◌≤◌, ◌<◌, ◌≡◌, refl, sym, subst, ap, Bool, true, false, not, ◌||◌, List, [], ◌∷◌, ◌++◌, leb,
  leb-false, ltb, take_while, drop_while, Bool-cases, inl, inr, if◌then◌else◌, arith,
}
use spark_workflow_main.Common.Text.{Text, newline, strip, is_empty, ends_with_newline}
use spark_workflow_main.PageIndex.{HeaderNode}
use spark_workflow_main.PageIndex.Tokens.{count_tokens}

-- A node that may be marked for removal.
abbrev pub Masked : Type 0
Masked = Bool × HeaderNode

abbrev pub is_deeper : ℕ → HeaderNode → Bool
is_deeper level node = not (leb node.level level)

-- The texts of nodes that are not blank.
abbrev pub texts_of : List HeaderNode → List Text
texts_of [] = []
texts_of (node ∷ nodes) =
    if is_empty (strip node.text) then texts_of nodes else node.text ∷ texts_of nodes

-- What stands between a text and the one that is joined to it: a blank line, unless the first is
-- empty or ends its line.
abbrev pub gap : Text → Text
gap text = if is_empty text || ends_with_newline text then [] else newline ∷ newline ∷ []

unfoldable pub joined_texts : Text → List Text → Text
joined_texts text [] = text
joined_texts text (next ∷ texts) = joined_texts (text ++ gap text ++ next) texts

abbrev pub drop_marked : List Masked → List HeaderNode
drop_marked [] = []
drop_marked ((marked, node) ∷ ms) = if marked then drop_marked ms else node ∷ drop_marked ms

-- The run of nodes deeper than a level marked, and what of it was not marked before.
abbrev pub mark_run : ℕ → List Masked → List Masked
mark_run level [] = []
mark_run level ((marked, node) ∷ ms) =
    if leb node.level level then (marked, node) ∷ ms else (true, node) ∷ mark_run level ms

abbrev pub run_kept : ℕ → List Masked → List HeaderNode
run_kept level [] = []
run_kept level ((marked, node) ∷ ms) =
    if leb node.level level
    then []
    else (if marked then run_kept level ms else node ∷ run_kept level ms)

-- Each marked node is deeper than the last one before it that is not marked, or than the level.
abbrev IsGuarded : ℕ → List Masked → Type 0
IsGuarded level [] = Unit
IsGuarded level ((true, node) ∷ ms) = (level < node.level) × IsGuarded level ms
IsGuarded level ((false, node) ∷ ms) = IsGuarded node.level ms

mark_run-IsGuarded :
    (level above : ℕ) (ms : List Masked)
    → level ≤ above
    → IsGuarded above ms
    → IsGuarded level (mark_run level ms)
mark_run-IsGuarded level above [] le h = tt
mark_run-IsGuarded level above ((true, node) ∷ ms) le (deep, rest) =
    let go : leb node.level level ≡ false = ground (arith, le, deep) in
    rw go (omega (arith, le, deep), mark_run-IsGuarded level above ms le rest)
mark_run-IsGuarded level above ((false, node) ∷ ms) le h =
    elim (Bool-cases (leb node.level level)) [
      | inl stop ↦ rw stop h
      | inr go ↦
          let deep : level < node.level = leb-false node.level level go in
          rw go (deep, mark_run-IsGuarded level node.level ms (omega (arith, deep)) h)
    ]

run_kept-take_while :
    (level above : ℕ) (ms : List Masked)
    → level ≤ above
    → IsGuarded above ms
    → run_kept level ms ≡ take_while (is_deeper level) (drop_marked ms)
run_kept-take_while level above [] le h = refl
run_kept-take_while level above ((true, node) ∷ ms) le (deep, rest) =
    let go : leb node.level level ≡ false = ground (arith, le, deep) in
    rw go (run_kept-take_while level above ms le rest)
run_kept-take_while level above ((false, node) ∷ ms) le h =
    elim (Bool-cases (leb node.level level)) [
      | inl stop ↦ rw stop refl
      | inr go ↦
          let deep : level < node.level = leb-false node.level level go in
          rw go
            (ap (λ l. node ∷ l) (run_kept-take_while level node.level ms (omega (arith, deep)) h))
    ]

mark_run-drop_while :
    (level above : ℕ) (ms : List Masked)
    → level ≤ above
    → IsGuarded above ms
    → drop_marked (mark_run level ms) ≡ drop_while (is_deeper level) (drop_marked ms)
mark_run-drop_while level above [] le h = refl
mark_run-drop_while level above ((true, node) ∷ ms) le (deep, rest) =
    let go : leb node.level level ≡ false = ground (arith, le, deep) in
    rw go (mark_run-drop_while level above ms le rest)
mark_run-drop_while level above ((false, node) ∷ ms) le h =
    elim (Bool-cases (leb node.level level)) [
      | inl stop ↦ rw stop refl
      | inr go ↦
          let deep : level < node.level = leb-false node.level level go in
          rw go (mark_run-drop_while level node.level ms (omega (arith, deep)) h)
    ]

module _ (encoded_length : Text → ℕ) where
  -- A node with the texts of others joined to its own, and counted anew, if there are any.
  abbrev pub joining : HeaderNode → List Text → HeaderNode
  joining node [] = node
  joining node (t ∷ ts) = record node {
    text = joined_texts node.text (t ∷ ts);
    text_token_count = count_tokens encoded_length (joined_texts node.text (t ∷ ts));
  }

  joining-level : (node : HeaderNode) (ts : List Text) → (joining node ts).level ≡ node.level
  joining-level node [] = refl
  joining-level node (t ∷ ts) = refl

module _ (encoded_length : Text → ℕ) (min_node_token : ℕ) where
  -- The reference. A node that is too short takes in the run of deeper nodes that stands behind it
  -- in the thinned list.
  unfoldable pub thinned : List HeaderNode → List HeaderNode
  thinned [] = []
  thinned (node ∷ nodes) =
      let rest = thinned nodes in
      if ltb node.text_token_count min_node_token
      then joining encoded_length node (texts_of (take_while (is_deeper node.level) rest))
        ∷ drop_while (is_deeper node.level) rest
      else node ∷ rest

  -- The same with the removed nodes marked.
  unfoldable pub masked : List HeaderNode → List Masked
  masked [] = []
  masked (node ∷ nodes) =
      let rest = masked nodes in
      if ltb node.text_token_count min_node_token
      then (false, joining encoded_length node (texts_of (run_kept node.level rest)))
        ∷ mark_run node.level rest
      else (false, node) ∷ rest

  masked-IsGuarded : (l : List HeaderNode) (level : ℕ) → IsGuarded level (masked l)
  unfolding masked
  masked-IsGuarded [] level = tt
  masked-IsGuarded (node ∷ nodes) level =
      elim (Bool-cases (ltb node.text_token_count min_node_token)) [
        | inl short ↦
            rw (short, masked)
              (subst (λ lv. IsGuarded lv (mark_run node.level (masked nodes)))
                (sym (
                  joining-level encoded_length node
                    (texts_of (run_kept node.level (masked nodes)))))
                (mark_run-IsGuarded node.level node.level (masked nodes) (omega arith)
                  (masked-IsGuarded nodes node.level)))
        | inr long ↦ rw (long, masked) (masked-IsGuarded nodes node.level)
      ]

  pub drop_marked-masked : (l : List HeaderNode) → drop_marked (masked l) ≡ thinned l
  unfolding masked thinned
  drop_marked-masked [] = refl
  drop_marked-masked (node ∷ nodes) =
      let guarded : IsGuarded node.level (masked nodes) = masked-IsGuarded nodes node.level in
      let below : node.level ≤ node.level = omega arith in
      elim (Bool-cases (ltb node.text_token_count min_node_token)) [
        | inl short ↦
            rw
              (
                short,
                masked,
                run_kept-take_while node.level node.level (masked nodes) below guarded,
                mark_run-drop_while node.level node.level (masked nodes) below guarded,
                drop_marked-masked nodes,
              )
              refl
        | inr long ↦ rw (long, masked, drop_marked-masked nodes) refl
      ]
