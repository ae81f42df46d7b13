-- ===== src/Window/Strict.antt =====
-- The two copies of the executor: with and without a list of failures.
use spark_workflow_main.Common.{
  ℕ, ◌≤◌, ◌<◌, ◌≡◌, refl, ap, ◌∙◌, subst, Option, none, some, List, [], ◌∷◌, length, length-append,
  arith,
}
use spark_workflow_main.Common.Eq.{nat_eq}
use spark_workflow_main.Common.Dict.{lookup}
use spark_workflow_main.Window.{
  Window, start_item, start_next, pop, settle, finish, complete, round, finish_strict, result_of,
  complete_strict, round_strict,
}

module _ {T R : Type 0} where
  start_item-failed : (l : List T) (w : Window T R) → (start_item l w).failed ≡ w.failed
  start_item-failed [] w = refl
  start_item-failed (x ∷ l) w = refl

  settle-failed :
      (item : T) (r : Option R) (w : Window T R) → length w.failed ≤ length (settle item r w).failed
  settle-failed item none w = omega (arith, length-append w.failed (item ∷ []))
  settle-failed item (some r) w = omega arith

module _ {T R : Type 0} (result : ℕ → T → Option R) where
  finish-failed :
      (id : ℕ) (found : Option T) (w : Window T R)
      → length w.failed ≤ length (finish result id found w).failed
  unfolding start_next
  finish-failed id none w = omega arith
  finish-failed id (some item) w =
      let popped : Window T R = record w { in_flight = pop id w.in_flight } in
      let settled = settle item (result id item) popped in
      let same = ap length (start_item-failed settled.waiting settled) in
      omega (arith, settle-failed item (result id item) popped)

  round-failed :
      (done : List ℕ) (w : Window T R) → length w.failed ≤ length (round result done w).failed
  unfolding round complete
  round-failed [] w = omega arith
  round-failed (id ∷ done) w = omega (
    arith,
    finish-failed id (lookup id w.in_flight) w,
    round-failed done (finish result id (lookup id w.in_flight) w),
  )

  -- What a step or a round without the try block gives, against the one with it.
  abbrev pub Agrees : Window T R → Window T R → Option (Window T R) → Type 0
  Agrees w lenient (some next) = (next ≡ lenient) × (next.failed ≡ w.failed)
  Agrees w lenient none = length w.failed < length lenient.failed

  finish-Agrees :
      (id : ℕ) (found : Option T) (r : Option R) (w : Window T R)
      → r ≡ result_of result id found
      → Agrees w (finish result id found w) (finish_strict result id found r w)
  unfolding start_next
  finish-Agrees id none r w e = (refl, refl)
  finish-Agrees id (some item) none w e =
      let popped : Window T R = record w { in_flight = pop id w.in_flight } in
      subst (λ o. length w.failed < length (start_next (settle item o popped)).failed) e
        (let settled = settle item none popped in
          let same = ap length (start_item-failed settled.waiting settled) in
          omega (arith, length-append w.failed (item ∷ [])))
  finish-Agrees id (some item) (some r) w e =
      let popped : Window T R = record w { in_flight = pop id w.in_flight } in
      let settled = settle item (some r) popped in
      (ap (λ o. start_next (settle item o popped)) e, start_item-failed settled.waiting settled)

  complete-Agrees :
      (id : ℕ) (w : Window T R) → Agrees w (complete result id w) (complete_strict result id w)
  unfolding complete complete_strict
  complete-Agrees id w =
      finish-Agrees id (lookup id w.in_flight) (result_of result id (lookup id w.in_flight)) w refl

  Agrees-from :
      (w next lenient : Window T R) (r : Option (Window T R))
      → next.failed ≡ w.failed
      → Agrees next lenient r
      → Agrees w lenient r
  Agrees-from w next lenient none same h = let lengths = ap length same in omega arith
  Agrees-from w next lenient (some last) same h = (h.0, h.1 ∙ same)

  Agrees-then :
      (done : List ℕ) (w lenient : Window T R) (r : Option (Window T R))
      → Agrees w lenient r
      → ((next : Window T R) → Agrees next (round result done next) (round_strict result done next))
      → Agrees w (round result done lenient) (elim r as (λ _. Option (Window T R)) [
        | none ↦ none
        | some next ↦ round_strict result done next
      ])
  Agrees-then done w lenient none h rest = omega (arith, round-failed done lenient)
  Agrees-then done w lenient (some next) h rest =
      Agrees-from w next (round result done lenient) (round_strict result done next) h.1 (
        subst (λ x. Agrees next (round result done x) (round_strict result done next)) h.0
          (rest next))

  -- A round of the executor without the try block raises exactly where the round of the one with
  -- it lists a further failure, and otherwise both give the same state.
  pub round_strict-Agrees :
      (done : List ℕ) (w : Window T R) → Agrees w (round result done w) (round_strict result done w)
  unfolding round round_strict
  round_strict-Agrees [] w = (refl, refl)
  round_strict-Agrees (id ∷ done) w =
      Agrees-then done w (complete result id w) (complete_strict result id w) (complete-Agrees id w)
        (round_strict-Agrees done)
