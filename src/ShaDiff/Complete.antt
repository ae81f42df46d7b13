-- ===== src/ShaDiff/Complete.antt =====
-- No pair that passes the tests is missed.
use spark_workflow_main.Common.{
  ◌≡◌, refl, sym, subst, ◌∙◌, inl, inr, Bool, true, false, not, ◌&&◌, List, [], ◌∷◌, All,
  Bool-cases, arith,
}
use spark_workflow_main.Common.Eq.{text_is, list_eq, nat_eq, elem, beq_refl, ◌==◌ as ◌=?◌}
use spark_workflow_main.Common.Dict.{Dict}
use spark_workflow_main.Common.Text.{Text}
use spark_workflow_main.ShaDiff.Renames.{
  group_onto, names_of, pair_of, is_seen, Renaming, is_rename, consider, each_target, each_source,
  each_sha, get_renamed,
}
use spark_workflow_main.ShaDiff.Pairs.{
  is_item, is_paired, names_of_first, names_of_later, names_of-group_onto, IsSound, IsKept,
  each_sha-IsKept, group_onto-IsGroup,
}

module _ (is_similar : Text → Text → Bool) (same_dir_only : Bool) where
  consider_keeps :
      (p : Text × Text) (sha s t : Text) (x : Renaming)
      → is_seen p x.seen ≡ true
      → is_seen p (consider is_similar same_dir_only sha s t x).seen ≡ true
  unfolding consider
  consider_keeps p sha s t x h =
      elim (Bool-cases
        (is_rename is_similar same_dir_only s t && not (is_seen (pair_of s t) x.seen))) [
          | inl new ↦ rw new (ground (arith, h))
          | inr old ↦ rw old h
        ]

  consider_sees :
      (sha s t : Text) (x : Renaming)
      → is_rename is_similar same_dir_only s t ≡ true
      → is_seen (pair_of s t) (consider is_similar same_dir_only sha s t x).seen ≡ true
  unfolding consider
  consider_sees sha s t x h = elim (Bool-cases (is_seen (pair_of s t) x.seen)) [
    | inl seen ↦ rw (h, seen) seen
    | inr unseen ↦ rw (h, unseen) (rw (beq_refl (pair_of s t).0, beq_refl (pair_of s t).1) refl)
  ]

  each_target_keeps :
      (p : Text × Text) (sha s : Text) (names : List Text) (x : Renaming)
      → is_seen p x.seen ≡ true
      → is_seen p (each_target is_similar same_dir_only sha s names x).seen ≡ true
  unfolding each_target
  each_target_keeps p sha s [] x h = h
  each_target_keeps p sha s (t ∷ names) x h =
      each_target_keeps p sha s names (consider is_similar same_dir_only sha s t x)
        (consider_keeps p sha s t x h)

  each_target_sees :
      (sha s t : Text) (names : List Text) (x : Renaming)
      → is_rename is_similar same_dir_only s t ≡ true
      → elem t names ≡ true
      → is_seen (pair_of s t) (each_target is_similar same_dir_only sha s names x).seen ≡ true
  unfolding each_target
  each_target_sees sha s t [] x h there = absurd (ground (arith, there))
  each_target_sees sha s t (u ∷ names) x h there =
      let next = consider is_similar same_dir_only sha s u x in
      elim (Bool-cases (t =? u)) [
        | inl same ↦ each_target_keeps (pair_of s t) sha s names next (
            subst
              (λ v. is_seen (pair_of s t) (consider is_similar same_dir_only sha s v x).seen ≡ true)
              (text_is t u same) (consider_sees sha s t x h))
        | inr other ↦ each_target_sees sha s t names next h (ground (arith, there, other))
      ]

  each_source_keeps :
      (p : Text × Text) (sha : Text) (others names : List Text) (x : Renaming)
      → is_seen p x.seen ≡ true
      → is_seen p (each_source is_similar same_dir_only sha others names x).seen ≡ true
  unfolding each_source
  each_source_keeps p sha others [] x h = h
  each_source_keeps p sha others (s ∷ names) x h =
      each_source_keeps p sha others names (each_target is_similar same_dir_only sha s others x)
        (each_target_keeps p sha s others x h)

  each_source_sees :
      (sha s t : Text) (others names : List Text) (x : Renaming)
      → is_rename is_similar same_dir_only s t ≡ true
      → elem t others ≡ true
      → elem s names ≡ true
      → is_seen (pair_of s t) (each_source is_similar same_dir_only sha others names x).seen ≡ true
  unfolding each_source
  each_source_sees sha s t others [] x h target there = absurd (ground (arith, there))
  each_source_sees sha s t others (u ∷ names) x h target there =
      let next = each_target is_similar same_dir_only sha u others x in
      elim (Bool-cases (s =? u)) [
        | inl same ↦ each_source_keeps (pair_of s t) sha others names next (
            subst
              (λ v.
                is_seen (pair_of s t) (each_target is_similar same_dir_only sha v others x).seen
                ≡ true)
              (text_is s u same) (each_target_sees sha s t others x h target))
        | inr other ↦
            each_source_sees sha s t others names next h target (ground (arith, there, other))
      ]

  each_sha_keeps :
      (p : Text × Text) (sha_to_target d : Dict Text (List Text)) (x : Renaming)
      → is_seen p x.seen ≡ true
      → is_seen p (each_sha is_similar same_dir_only sha_to_target d x).seen ≡ true
  unfolding each_sha
  each_sha_keeps p sha_to_target [] x h = h
  each_sha_keeps p sha_to_target ((sha, names) ∷ d) x h =
      each_sha_keeps p sha_to_target d _
        (each_source_keeps p sha (names_of sha_to_target sha) names x h)

  each_sha_sees :
      (sha s t : Text) (sha_to_target d : Dict Text (List Text)) (x : Renaming)
      → is_rename is_similar same_dir_only s t ≡ true
      → elem t (names_of sha_to_target sha) ≡ true
      → elem s (names_of d sha) ≡ true
      → is_seen (pair_of s t) (each_sha is_similar same_dir_only sha_to_target d x).seen ≡ true
  unfolding each_sha
  each_sha_sees sha s t sha_to_target [] x h target there = absurd (ground (arith, there))
  each_sha_sees sha s t sha_to_target ((k, names) ∷ d) x h target there =
      let next = each_source is_similar same_dir_only k (names_of sha_to_target k) names x in
      elim (Bool-cases (sha =? k)) [
        | inr other ↦
            each_sha_sees sha s t sha_to_target d next h target
              (subst (λ l. elem s l ≡ true) (names_of_later sha k names d other) there)
        | inl same ↦
            let listed = subst (λ l. elem s l ≡ true) (names_of_first sha k names d same) there in
            each_sha_keeps (pair_of s t) sha_to_target d next (
              each_source_sees k s t (names_of sha_to_target k) names x h
                (subst (λ k. elem t (names_of sha_to_target k) ≡ true) (text_is sha k same) target)
                listed)
      ]

  in_group :
      (x k : Text) (items : Dict Text Text)
      → is_item x k items ≡ true
      → elem x (names_of (group_onto [] items) k) ≡ true
  in_group x k items h = names_of-group_onto x k items [] ∙ ground (arith, h)

  unmissed :
      (item_s item_t similar listed : Bool)
      → (item_s ≡ true → item_t ≡ true → similar ≡ true → listed ≡ true)
      → (item_s && (item_t && (similar && not listed))) ≡ false
  unmissed false item_t similar listed h = refl
  unmissed true false similar listed h = refl
  unmissed true true false listed h = refl
  unmissed true true true listed h = rw (h refl refl refl) refl

  -- Every rename that get_renamed gives leads from a name of the target to a name of the source
  -- with its hash, and passes the tests of the names; and every two such names with one hash that
  -- pass the tests are renamed into each other, the one way or the other.
  pub get_renamed-IsSound :
      (sources targets : Dict Text Text) (sha s t : Text)
      → let renamed = get_renamed is_similar same_dir_only sources targets in
        All (IsSound is_similar same_dir_only sources targets) renamed
        × ((is_item s sha sources
              && (is_item t sha targets
                  && (is_rename is_similar same_dir_only s t
                      && not (is_paired (pair_of s t) renamed))))
            ≡ false)
  unfolding get_renamed IsKept
  get_renamed-IsSound sources targets sha s t =
      let sha_to_source = group_onto [] sources in
      let sha_to_target = group_onto [] targets in
      let kept =
        each_sha-IsKept is_similar same_dir_only sources targets sha_to_target sha_to_source
          (record { seen = []; renamed = [] })
          (group_onto-IsGroup targets targets [] (λ n k there. there) tt)
          (group_onto-IsGroup sources sources [] (λ n k there. there) tt) (tt, λ p. refl) in
      (
        kept.0,
        unmissed _ _ _ _ (λ source target similar.
            sym (kept.1 (pair_of s t))
            ∙ each_sha_sees sha s t sha_to_target sha_to_source _ similar
                (in_group t sha targets target) (in_group s sha sources source)),
      )
