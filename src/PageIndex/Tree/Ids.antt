-- ===== src/PageIndex/Tree/Ids.antt =====
-- The identifiers that `write_node_id` gives out.
use spark_workflow_main.Common.{ℕ, ◌+◌, ◌≡◌, refl, subst, arith}
use spark_workflow_main.Common.Text.{str, zfill}
use spark_workflow_main.PageIndex.{NodeInfo, TreeNode, Forest, inner, leaf, nil, cons}
use spark_workflow_main.PageIndex.Tree.{write_node_id, write_node_ids}

-- How many nodes a tree has.
abbrev mutual
  pub node_count : TreeNode → ℕ
  node_count (inner _ _ f) = node_counts f + 1
  node_count (leaf _ _) = 1

  pub node_counts : Forest → ℕ
  node_counts nil = 0
  node_counts (cons t f) = node_count t + node_counts f

-- The second dict is the first with the padded number for its identifier.
abbrev pub IsRelabelled : ℕ → NodeInfo → NodeInfo → Type 0
IsRelabelled n old new =
    (new.node_id ≡ zfill 4 (str n))
    × ((new.title ≡ old.title) × ((new.text ≡ old.text) × (new.line_num ≡ old.line_num)))

-- The second tree is the first, node by node and with the same nesting, numbered depth first from
-- `n` on.
abbrev mutual
  pub IsNumbered : ℕ → TreeNode → TreeNode → Type 0
  IsNumbered n (inner r old f) (inner q new g) =
      (r ≡ q) × (IsRelabelled n old new × AreNumbered (n + 1) f g)
  IsNumbered n (leaf r old) (leaf q new) = (r ≡ q) × IsRelabelled n old new
  IsNumbered n _ _ = ⊥

  pub AreNumbered : ℕ → Forest → Forest → Type 0
  AreNumbered n nil nil = Unit
  AreNumbered n (cons t f) (cons u g) = IsNumbered n t u × AreNumbered (n + node_count t) f g
  AreNumbered n _ _ = ⊥

mutual
  unfolding write_node_id

  write_node_id-count : (t : TreeNode) (n : ℕ) → (write_node_id t n).1 ≡ n + node_count t
  write_node_id-count (inner r info f) n = omega (arith, write_node_ids-count f (n + 1))
  write_node_id-count (leaf r info) n = refl

  write_node_ids-count : (f : Forest) (n : ℕ) → (write_node_ids f n).1 ≡ n + node_counts f
  write_node_ids-count nil n = omega arith
  write_node_ids-count (cons t f) n =
      omega (arith, write_node_id-count t n, write_node_ids-count f (write_node_id t n).1)

mutual
  unfolding write_node_id

  write_node_id-IsNumbered : (t : TreeNode) (n : ℕ) → IsNumbered n t (write_node_id t n).0
  write_node_id-IsNumbered (inner r info f) n =
      (refl, ((refl, (refl, (refl, refl))), write_node_ids-AreNumbered f (n + 1)))
  write_node_id-IsNumbered (leaf r info) n = (refl, (refl, (refl, (refl, refl))))

  write_node_ids-AreNumbered : (f : Forest) (n : ℕ) → AreNumbered n f (write_node_ids f n).0
  write_node_ids-AreNumbered nil n = tt
  write_node_ids-AreNumbered (cons t f) n = (
    write_node_id-IsNumbered t n,
    subst (λ m. AreNumbered m f (write_node_ids f (write_node_id t n).1).0)
        (write_node_id-count t n) (write_node_ids-AreNumbered f (write_node_id t n).1),
  )

-- `write_node_id` leaves a structure as it is, the nesting, the keys, and the title, text and line
-- of each node, but for the identifiers: these are the numbers from the given one on, in
-- depth-first order and without a gap, padded to four digits. It returns the number behind them.
pub write_node_ids-IsNumbered :
    (f : Forest) (n : ℕ)
    → AreNumbered n f (write_node_ids f n).0 × ((write_node_ids f n).1 ≡ n + node_counts f)
write_node_ids-IsNumbered f n = (write_node_ids-AreNumbered f n, write_node_ids-count f n)
