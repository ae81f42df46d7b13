-- ===== src/PageIndex/Build/Paths.antt =====
-- A path of open nodes: each is the last child of the one below it on the stack, so that an append
-- by reference lands at the end of the forest.
use spark_workflow_main.Common.{
  ℕ, ◌≤◌, ◌<◌, ◌≡◌, refl, sym, ap, ◌∙◌, ◌⊎◌, List, [], ◌∷◌, true, false, ◌==◌, inl, inr, arith,
}
use spark_workflow_main.PageIndex.{NodeInfo, TreeNode, Forest, inner, leaf, nil, cons, ◌++ᶠ◌}
use spark_workflow_main.PageIndex.Build.{Stack, append_child, append_children}

pub record Frame : Type 0 where
  pub ref : ℕ
  pub info : NodeInfo
  pub level : ℕ
  pub kids : Forest

abbrev pub node_of : Frame → TreeNode
node_of f = inner f.ref f.info f.kids

abbrev pub with_kids : Frame → Forest → Frame
with_kids f kids = record { ref = f.ref; info = f.info; level = f.level; kids = kids }

-- The whole forest, with `sub` at the end of the innermost open node.
abbrev pub fill : List Frame → Forest → Forest → Forest
fill [] roots sub = roots ++ᶠ sub
fill (f ∷ fs) roots sub = fill fs roots (cons (inner f.ref f.info (f.kids ++ᶠ sub)) nil)

abbrev pub stack_of : List Frame → Stack
stack_of [] = []
stack_of (f ∷ fs) = (f.ref, f.level) ∷ stack_of fs

pub append-nilᶠ : (f : Forest) → f ++ᶠ nil ≡ f
append-nilᶠ nil = refl
append-nilᶠ (cons t f) = ap (cons t) (append-nilᶠ f)

pub append_assocᶠ : (f g h : Forest) → (f ++ᶠ g) ++ᶠ h ≡ f ++ᶠ (g ++ᶠ h)
append_assocᶠ nil g h = refl
append_assocᶠ (cons t f) g h = ap (cons t) (append_assocᶠ f g h)

-- All identities in a forest lie strictly between two bounds.
abbrev mutual
  pub Inside : ℕ → ℕ → TreeNode → Type 0
  Inside lo hi (inner q _ f) = (lo < q) × (q < hi) × Within lo hi f
  Inside lo hi (leaf q _) = (lo < q) × (q < hi)

  pub Within : ℕ → ℕ → Forest → Type 0
  Within lo hi nil = Unit
  Within lo hi (cons t f) = Inside lo hi t × Within lo hi f

mutual
  Inside-mono :
      (lo hi lo' hi' : ℕ) (t : TreeNode) → lo' ≤ lo → hi ≤ hi' → Inside lo hi t → Inside lo' hi' t
  Inside-mono lo hi lo' hi' (inner q _ f) a b h =
      (omega arith, omega arith, Within-mono lo hi lo' hi' f a b h.2)
  Inside-mono lo hi lo' hi' (leaf q _) a b h = (omega arith, omega arith)

  pub Within-mono :
      (lo hi lo' hi' : ℕ) (f : Forest) → lo' ≤ lo → hi ≤ hi' → Within lo hi f → Within lo' hi' f
  Within-mono lo hi lo' hi' nil a b h = tt
  Within-mono lo hi lo' hi' (cons t f) a b h =
      (Inside-mono lo hi lo' hi' t a b h.0, Within-mono lo hi lo' hi' f a b h.1)

pub Within-append :
    (lo hi : ℕ) (f g : Forest) → Within lo hi f → Within lo hi g → Within lo hi (f ++ᶠ g)
Within-append lo hi nil g h k = k
Within-append lo hi (cons t f) g h k = (h.0, Within-append lo hi f g h.1 k)

-- An append to an object that is not in a forest leaves it alone.
mutual
  append_child_miss :
      (r lo hi : ℕ) (new t : TreeNode)
      → Inside lo hi t
      → (r ≤ lo) ⊎ (hi ≤ r)
      → append_child r new t ≡ t
  append_child_miss r lo hi new (inner q info f) h m =
      let ne : (q == r) ≡ false = ground arith in
      rw (ne, append_children_miss r lo hi new f h.2 m) (ap (inner q info) (append-nilᶠ f))
  append_child_miss r lo hi new (leaf q info) h m = refl

  append_children_miss :
      (r lo hi : ℕ) (new : TreeNode) (f : Forest)
      → Within lo hi f
      → (r ≤ lo) ⊎ (hi ≤ r)
      → append_children r new f ≡ f
  append_children_miss r lo hi new nil h m = refl
  append_children_miss r lo hi new (cons t f) h m = λ i.
      cons (append_child_miss r lo hi new t h.0 m i) (append_children_miss r lo hi new f h.1 m i)

pub append_children-append :
    (r : ℕ) (new : TreeNode) (f g : Forest)
    → append_children r new (f ++ᶠ g) ≡ append_children r new f ++ᶠ append_children r new g
append_children-append r new nil g = refl
append_children-append r new (cons t f) g =
    ap (cons (append_child r new t)) (append_children-append r new f g)

-- Identities grow from the root to the top of the stack, and later nodes have larger ones.
abbrev pub IsOpen : ℕ → List Frame → Forest → Type 0
IsOpen c [] roots = (0 < c) × Within 0 c roots
IsOpen c (f ∷ fs) roots = (f.ref < c) × Within f.ref c f.kids × IsOpen f.ref fs roots

pub IsOpen-pos : (c : ℕ) (fs : List Frame) (roots : Forest) → IsOpen c fs roots → 0 < c
IsOpen-pos c [] roots h = h.0
IsOpen-pos c (f ∷ fs) roots h = omega arith

-- An append to an object at or above `c` passes through the open path.
pub append-fill_miss :
    (r c : ℕ) (new : TreeNode) (fs : List Frame) (roots sub : Forest)
    → IsOpen c fs roots
    → c ≤ r
    → append_children r new (fill fs roots sub) ≡ fill fs roots (append_children r new sub)
append-fill_miss r c new [] roots sub h m =
    append_children-append r new roots sub
    ∙ ap (λ x. x ++ᶠ append_children r new sub) (append_children_miss r 0 c new roots h.1 (inr m))
append-fill_miss r c new (f ∷ fs) roots sub h m =
    append-fill_miss r f.ref new fs roots (cons (inner f.ref f.info (f.kids ++ᶠ sub)) nil) h.2
      (omega arith)
    ∙ ap (λ x. fill fs roots (cons x nil)) here
  where
    ne : (f.ref == r) ≡ false
    ne = ground arith

    here :
        append_child r new (inner f.ref f.info (f.kids ++ᶠ sub))
        ≡ inner f.ref f.info (f.kids ++ᶠ append_children r new sub)
    here =
        rw
          (
            ne,
            append_children-append r new f.kids sub,
            append_children_miss r f.ref c new f.kids h.1 (inr m),
          )
          (ap (inner f.ref f.info) (append-nilᶠ _))

-- The append to the top of the stack puts the new node behind the last of the path.
pub append-fill_top :
    (c : ℕ) (new : TreeNode) (f : Frame) (fs : List Frame) (roots : Forest)
    → IsOpen c (f ∷ fs) roots
    → append_children f.ref new (fill (f ∷ fs) roots nil) ≡ fill (f ∷ fs) roots (cons new nil)
append-fill_top c new f fs roots h =
    append-fill_miss f.ref f.ref new fs roots (cons (inner f.ref f.info (f.kids ++ᶠ nil)) nil) h.2
      (omega arith)
    ∙ ap (λ x. fill fs roots (cons x nil)) here
  where
    same : (f.ref == f.ref) ≡ true
    same = ground arith

    here :
        append_child f.ref new (inner f.ref f.info (f.kids ++ᶠ nil))
        ≡ inner f.ref f.info (f.kids ++ᶠ cons new nil)
    here = rw (
      same,
      append-nilᶠ f.kids,
      append_children_miss f.ref f.ref c new f.kids h.1 (inl (omega arith)),
    )

-- Popping closes the top node: it joins the finished children of the next one, or the roots.
abbrev pub shut_frames : Frame → List Frame → List Frame
shut_frames f [] = []
shut_frames f (g ∷ fs) = with_kids g (g.kids ++ᶠ cons (node_of f) nil) ∷ fs

abbrev pub shut_roots : Frame → List Frame → Forest → Forest
shut_roots f [] roots = roots ++ᶠ cons (node_of f) nil
shut_roots f (g ∷ fs) roots = roots

pub fill-shut :
    (f : Frame) (fs : List Frame) (roots : Forest)
    → fill (f ∷ fs) roots nil ≡ fill (shut_frames f fs) (shut_roots f fs roots) nil
fill-shut f [] roots =
    ap (λ x. roots ++ᶠ cons (inner f.ref f.info x) nil) (append-nilᶠ f.kids) ∙ sym (append-nilᶠ _)
fill-shut f (g ∷ fs) roots =
    ap
      (λ x.
        fill fs roots (cons (inner g.ref g.info (g.kids ++ᶠ cons (inner f.ref f.info x) nil)) nil))
      (append-nilᶠ f.kids)
    ∙ ap (λ x. fill fs roots (cons (inner g.ref g.info x) nil)) (sym (append-nilᶠ _))

pub shut-IsOpen :
    (c : ℕ) (f : Frame) (fs : List Frame) (roots : Forest)
    → IsOpen c (f ∷ fs) roots
    → IsOpen c (shut_frames f fs) (shut_roots f fs roots)
shut-IsOpen c f [] roots h = (
  omega arith,
  Within-append 0 c roots _ (Within-mono 0 f.ref 0 c roots (omega arith) (omega arith) h.2.1) (
    (omega arith, omega arith, Within-mono f.ref c 0 c f.kids (omega arith) (omega arith) h.1),
    tt,
  ),
)
shut-IsOpen c f (g ∷ fs) roots h = (
  omega arith,
  Within-append g.ref c g.kids _
      (Within-mono g.ref f.ref g.ref c g.kids (omega arith) (omega arith) h.2.1)
      (
        (
          omega arith,
          omega arith,
          Within-mono f.ref c g.ref c f.kids (omega arith) (omega arith) h.1,
        ),
        tt,
      ),
  h.2.2,
)
