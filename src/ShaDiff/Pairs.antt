-- ===== src/ShaDiff/Pairs.antt =====
-- Which pairs of names are taken for a rename.
use spark_workflow_main.Common.{
  ℕ, ◌≡◌, sym, subst, ◌∙◌, inl, inr, Bool, true, false, ◌&&◌, ◌||◌, List, [], ◌∷◌, ◌++◌, All,
  All-append, Bool-cases, arith,
}
use spark_workflow_main.Common.Eq.{text_is, Eq, list_eq, nat_eq, elem, beq_refl, ◌==◌ as ◌=?◌}
use spark_workflow_main.Common.Dict.{Dict}
use spark_workflow_main.Common.Text.{Text}
use spark_workflow_main.ShaDiff.{RenameChange}
use spark_workflow_main.ShaDiff.Renames.{
  append_name, group_onto, names_of, pair_of, is_seen, Renaming, is_rename, consider, each_target,
  each_source, each_sha,
}

-- Whether a name stands in a map with a hash.
abbrev pub is_item : Text → Text → Dict Text Text → Bool
is_item name sha [] = false
is_item name sha ((n, h) ∷ d) = ((name =? n) && (sha =? h)) || is_item name sha d

-- Whether an unordered pair is that of one of the renames.
abbrev pub is_paired : Text × Text → List RenameChange → Bool
is_paired p [] = false
is_paired p (r ∷ renamed) =
    let q = pair_of r.new_name r.old_name in ((p.0 =? q.0) && (p.1 =? q.1)) || is_paired p renamed

elem-append : (x y : Text) (l : List Text) → elem x (l ++ y ∷ []) ≡ (elem x l || (x =? y))
elem-append x y [] = ground arith
elem-append x y (z ∷ l) = ground (arith, elem-append x y l)

names_of-append_name :
    (x k sha name : Text) (d : Dict Text (List Text))
    → elem x (names_of (append_name sha name d) k)
      ≡ (elem x (names_of d k) || ((k =? sha) && (x =? name)))
names_of-append_name x k sha name [] = ground arith
names_of-append_name x k sha name ((h, names) ∷ d) = ground (
  arith,
  names_of-append_name x k sha name d,
  elem-append x name names,
  Eq.same_iff (list_eq {A = ℕ}) k sha,
  Eq.same_iff (list_eq {A = ℕ}) k h,
  Eq.same_iff (list_eq {A = ℕ}) sha h,
)

pub names_of-group_onto :
    (x k : Text) (items : Dict Text Text) (d : Dict Text (List Text))
    → elem x (names_of (group_onto d items) k) ≡ (elem x (names_of d k) || is_item x k items)
unfolding group_onto
names_of-group_onto x k [] d = ground arith
names_of-group_onto x k ((name, sha) ∷ items) d =
    names_of-group_onto x k items (append_name sha name d)
    ∙ rw (names_of-append_name x k sha name d) (ground arith)

pub names_of_first :
    (sha k : Text) (names : List Text) (d : Dict Text (List Text))
    → (sha =? k) ≡ true
    → names_of ((k, names) ∷ d) sha ≡ names
names_of_first sha k names d h = ground (arith, h)

pub names_of_later :
    (sha k : Text) (names : List Text) (d : Dict Text (List Text))
    → (sha =? k) ≡ false
    → names_of ((k, names) ∷ d) sha ≡ names_of d sha
names_of_later sha k names d h = ground (arith, h)

-- Every name of a group has the group's hash in the map.
abbrev pub IsGroup : Dict Text Text → Text × List Text → Type 0
IsGroup map item = All (λ name. is_item name item.0 map ≡ true) item.1

append_name-IsGroup :
    (map : Dict Text Text) (sha name : Text) (d : Dict Text (List Text))
    → is_item name sha map ≡ true
    → All (IsGroup map) d
    → All (IsGroup map) (append_name sha name d)
append_name-IsGroup map sha name [] there h = ((there, tt), tt)
append_name-IsGroup map sha name ((k, names) ∷ d) there h = elim (Bool-cases (sha =? k)) [
  | inr other ↦ rw other (h.0, append_name-IsGroup map sha name d there h.1)
  | inl same ↦ rw same (
    All-append _ names (name ∷ []) h.0
        (subst (λ k. is_item name k map ≡ true) (text_is sha k same) there, tt),
    h.1,
  )
]

pub group_onto-IsGroup :
    (map items : Dict Text Text) (d : Dict Text (List Text))
    → ((name sha : Text) → is_item name sha items ≡ true → is_item name sha map ≡ true)
    → All (IsGroup map) d
    → All (IsGroup map) (group_onto d items)
unfolding group_onto
group_onto-IsGroup map [] d inside h = h
group_onto-IsGroup map ((name, sha) ∷ items) d inside h =
    group_onto-IsGroup map items (append_name sha name d)
      (λ n k there. inside n k (ground (arith, there)))
      (append_name-IsGroup map sha name d
        (inside name sha (ground (arith, beq_refl name, beq_refl sha))) h)

module _ (is_similar : Text → Text → Bool) (same_dir_only : Bool) where
  abbrev pub IsSound : Dict Text Text → Dict Text Text → RenameChange → Type 0
  IsSound sources targets r =
      (is_item r.new_name r.sha sources ≡ true)
      × ((is_item r.old_name r.sha targets ≡ true)
          × (is_rename is_similar same_dir_only r.new_name r.old_name ≡ true))

  module _ (sources targets : Dict Text Text) where
    -- What the loops keep: the renames are sound, and `seen` holds their pairs.
    unfoldable pub IsKept : Renaming → Type 0
    IsKept x =
        All (IsSound sources targets) x.renamed
        × ((p : Text × Text) → is_seen p x.seen ≡ is_paired p x.renamed)

    is_paired-append :
        (p : Text × Text) (renamed : List RenameChange) (r : RenameChange)
        → is_paired p (renamed ++ r ∷ []) ≡ (is_paired p (r ∷ []) || is_paired p renamed)
    is_paired-append p [] r = ground arith
    is_paired-append p (q ∷ renamed) r = ground (arith, is_paired-append p renamed r)

    consider-IsKept :
        (sha s t : Text) (x : Renaming)
        → is_item s sha sources ≡ true
        → is_item t sha targets ≡ true
        → IsKept x
        → IsKept (consider is_similar same_dir_only sha s t x)
    unfolding consider IsKept
    consider-IsKept sha s t x source target h =
        elim (Bool-cases (is_rename is_similar same_dir_only s t)) [
          | inr other ↦ rw other h
          | inl similar ↦ elim (Bool-cases (is_seen (pair_of s t) x.seen)) [
            | inl seen ↦ rw (similar, seen) h
            | inr unseen ↦
                rw (similar, unseen)
                  (
                    All-append _ x.renamed _ h.0 ((source, (target, similar)), tt),
                    λ p.
                        rw
                          (
                            is_paired-append p x.renamed
                                (record { file_id = []; old_name = t; new_name = s; sha = sha }),
                            h.1 p,
                          )
                          (ground arith),
                  )
          ]
        ]

    each_target-IsKept :
        (sha s : Text) (names : List Text) (x : Renaming)
        → is_item s sha sources ≡ true
        → All (λ t. is_item t sha targets ≡ true) names
        → IsKept x
        → IsKept (each_target is_similar same_dir_only sha s names x)
    unfolding each_target
    each_target-IsKept sha s [] x source target h = h
    each_target-IsKept sha s (t ∷ names) x source target h =
        each_target-IsKept sha s names (consider is_similar same_dir_only sha s t x) source target.1
          (consider-IsKept sha s t x source target.0 h)

    each_source-IsKept :
        (sha : Text) (others names : List Text) (x : Renaming)
        → All (λ s. is_item s sha sources ≡ true) names
        → All (λ t. is_item t sha targets ≡ true) others
        → IsKept x
        → IsKept (each_source is_similar same_dir_only sha others names x)
    unfolding each_source
    each_source-IsKept sha others [] x source target h = h
    each_source-IsKept sha others (s ∷ names) x source target h =
        each_source-IsKept sha others names (each_target is_similar same_dir_only sha s others x)
          source.1 target (each_target-IsKept sha s others x source.0 target h)

    group_names :
        (sha : Text) (d : Dict Text (List Text))
        → All (IsGroup targets) d
        → All (λ t. is_item t sha targets ≡ true) (names_of d sha)
    group_names sha [] h = tt
    group_names sha ((k, names) ∷ d) h = elim (Bool-cases (sha =? k)) [
      | inr other ↦
          subst (λ l. All (λ t. is_item t sha targets ≡ true) l)
            (sym (names_of_later sha k names d other)) (group_names sha d h.1)
      | inl same ↦
          subst (λ l. All (λ t. is_item t sha targets ≡ true) l)
            (sym (names_of_first sha k names d same))
            (subst (λ k. All (λ t. is_item t k targets ≡ true) names) (sym (text_is sha k same))
              h.0)
    ]

    pub each_sha-IsKept :
        (sha_to_target d : Dict Text (List Text)) (x : Renaming)
        → All (IsGroup targets) sha_to_target
        → All (IsGroup sources) d
        → IsKept x
        → IsKept (each_sha is_similar same_dir_only sha_to_target d x)
    unfolding each_sha
    each_sha-IsKept sha_to_target [] x target source h = h
    each_sha-IsKept sha_to_target ((sha, names) ∷ d) x target source h =
        each_sha-IsKept sha_to_target d _ target source.1 (
          each_source-IsKept sha (names_of sha_to_target sha) names x source.0
            (group_names sha sha_to_target target) h)
