-- ===== src/Window/Rounds.antt =====
-- How many tasks are in flight, and that the rounds end.
use spark_workflow_main.Common.{
  ℕ, zero, suc, ◌+◌, ◌-◌, ◌≤◌, ◌≡◌, refl, sym, ap, subst, true, false, Option, none, some, List, [],
  ◌∷◌, ◌++◌, ◌==◌, min, length, length-append, arith, Option-cases, inl, inr,
}
use spark_workflow_main.Common.Eq.{nat_eq, elem}
use spark_workflow_main.Common.Dict.{Dict, lookup, contains}
use spark_workflow_main.Window.{
  Window, start_item, start_next, seed, opening, pop, settle, complete, round, AreDone, Reach,
  start, wait,
}

module _ {T : Type 0} where
  pub length-pop :
      (id : ℕ) (d : Dict ℕ T) → contains id d ≡ true → suc (length (pop id d)) ≡ length d
  length-pop id [] h = cc
  length-pop id ((j, item) ∷ d) h = ground (arith, length-pop id d)

  contains-pop :
      (j id : ℕ) (d : Dict ℕ T)
      → (j == id) ≡ false
      → contains j d ≡ true
      → contains j (pop id d) ≡ true
  contains-pop j id [] ne h = h
  contains-pop j id ((k, item) ∷ d) ne h = ground (arith, contains-pop j id d)

  contains-append : (j : ℕ) (d e : Dict ℕ T) → contains j d ≡ true → contains j (d ++ e) ≡ true
  contains-append j [] e h = cc
  contains-append j ((k, item) ∷ d) e h = ground (arith, contains-append j d e)

module _ {T R : Type 0} where
  -- The counts of a state: completed tasks, those in flight and the items that wait.
  pub record IsOn (c size n : ℕ) (w : Window T R) : Type 0 where
    pub total : n + length w.in_flight + length w.waiting ≡ size
    pub full : length w.in_flight ≡ min c (size - n)

  start_item-in_flight :
      (l : List T) (w : Window T R)
      → length (start_item l w).in_flight ≡ length w.in_flight + min 1 (length l)
  start_item-in_flight [] w = omega arith
  start_item-in_flight (x ∷ l) w = omega (arith, length-append w.in_flight ((w.next_i, x) ∷ []))

  start_item-waiting :
      (l : List T) (w : Window T R) → w.waiting ≡ l → length (start_item l w).waiting ≡ length l - 1
  start_item-waiting [] w h = ap length h
  start_item-waiting (x ∷ l) w h = omega arith

  start_next-in_flight :
      (w : Window T R)
      → length (start_next w).in_flight ≡ length w.in_flight + min 1 (length w.waiting)
  unfolding start_next
  start_next-in_flight w = start_item-in_flight w.waiting w

  start_next-waiting : (w : Window T R) → length (start_next w).waiting ≡ length w.waiting - 1
  unfolding start_next
  start_next-waiting w = start_item-waiting w.waiting w refl

  seed_counts :
      (n : ℕ) (w : Window T R)
      → n ≤ length w.waiting
      → (length (seed n w).in_flight ≡ length w.in_flight + n)
        × (length (seed n w).waiting ≡ length w.waiting - n)
  unfolding seed
  seed_counts zero w h = (omega arith, omega arith)
  seed_counts (suc n) w h =
      let fl = start_next-in_flight w in
      let left = start_next-waiting w in
      let (a, b) = seed_counts n (start_next w) (omega arith) in (omega arith, omega arith)

  opening-IsOn :
      (c : ℕ) (items : List T) → IsOn c (length items) 0 (opening {T = T} {R = R} c items)
  unfolding opening
  opening-IsOn c items =
      let (a, b) =
        seed_counts (min c (length items))
          (record { waiting = items; next_i = 0; in_flight = []; ok = []; failed = [] })
          (omega arith) in
      record { total = omega arith; full = omega arith }

  settle-counts :
      (item : T) (r : Option R) (w : Window T R)
      → (length (settle item r w).in_flight ≡ length w.in_flight)
        × (length (settle item r w).waiting ≡ length w.waiting)
  settle-counts item none w = (refl, refl)
  settle-counts item (some r) w = (refl, refl)

  settle-in_flight :
      (item : T) (r : Option R) (w : Window T R) → (settle item r w).in_flight ≡ w.in_flight
  settle-in_flight item none w = refl
  settle-in_flight item (some r) w = refl

  contains-start_item :
      (j : ℕ) (l : List T) (w : Window T R)
      → contains j w.in_flight ≡ true
      → contains j (start_item l w).in_flight ≡ true
  contains-start_item j [] w h = h
  contains-start_item j (x ∷ l) w h = contains-append j w.in_flight ((w.next_i, x) ∷ []) h

module _ {T R : Type 0} (result : ℕ → T → Option R) where
  complete-counts :
      (id : ℕ) (w : Window T R)
      → contains id w.in_flight ≡ true
      → (length (complete result id w).in_flight + 1
          ≡ length w.in_flight + min 1 (length w.waiting))
        × (length (complete result id w).waiting ≡ length w.waiting - 1)
  unfolding complete
  complete-counts id w h = elim (Option-cases (lookup id w.in_flight)) [
    | inl missing ↦ ground arith
    | inr (item, found) ↦
        let popped : Window T R = record w { in_flight = pop id w.in_flight } in
        let shorter = length-pop id w.in_flight h in
        let settled = settle item (result id item) popped in
        let (a, b) = settle-counts item (result id item) popped in
        let fl = start_next-in_flight settled in
        let left = start_next-waiting settled in rw found (omega arith, omega arith)
  ]

  complete-contains :
      (j id : ℕ) (w : Window T R)
      → (j == id) ≡ false
      → contains j w.in_flight ≡ true
      → contains j (complete result id w).in_flight ≡ true
  unfolding complete start_next
  complete-contains j id w ne h = elim (Option-cases (lookup id w.in_flight)) [
    | inl missing ↦ rw missing h
    | inr (item, found) ↦
        let popped : Window T R = record w { in_flight = pop id w.in_flight } in
        let settled = settle item (result id item) popped in
        rw found (
          contains-start_item j settled.waiting settled (
            subst (λ d. contains j d ≡ true) (sym (settle-in_flight item (result id item) popped))
              (contains-pop j id w.in_flight ne h)))
  ]

  complete-IsOn :
      (c size n id : ℕ) (w : Window T R)
      → contains id w.in_flight ≡ true
      → IsOn c size n w
      → IsOn c size (suc n) (complete result id w)
  complete-IsOn c size n id w h on =
      let (fl, left) = complete-counts id w h in
      let one = length-pop id w.in_flight h in
      let total = on.total in
      let full = on.full in record { total = omega arith; full = omega arith }

  pub AreDone-complete :
      (id : ℕ) (done : List ℕ) (w : Window T R)
      → elem id done ≡ false
      → AreDone done w
      → AreDone done (complete result id w)
  AreDone-complete id [] w new h = tt
  AreDone-complete id (j ∷ done) w new h =
      let apart : (j == id) ≡ false = ground arith in
      let rest : elem id done ≡ false = ground arith in
      (complete-contains j id w apart h.0, (h.1.0, AreDone-complete id done w rest h.1.1))

  round-IsOn :
      (c size n : ℕ) (done : List ℕ) (w : Window T R)
      → AreDone done w
      → IsOn c size n w
      → IsOn c size (n + length done) (round result done w)
  unfolding round
  round-IsOn c size n [] w h on = subst (λ k. IsOn c size k w) (omega arith) on
  round-IsOn c size n (id ∷ done) w h on =
      subst (λ k. IsOn c size k (round result done (complete result id w))) (omega arith)
        (round-IsOn c size (suc n) done (complete result id w)
          (AreDone-complete id done w h.1.0 h.1.1) (complete-IsOn c size n id w h.0 on))

  pub Reach-IsOn :
      {c : ℕ} {items : List T} {n : ℕ} {w : Window T R}
      → Reach result c items n w
      → IsOn c (length items) n w
  Reach-IsOn {c} {items} start = opening-IsOn c items
  Reach-IsOn {c} {items} (wait {n} {w} id done r h) =
      round-IsOn c (length items) n (id ∷ done) w h (Reach-IsOn r)

  -- However the tasks finish, in every state that the loop meets after n of them the number in
  -- flight is the limit or all that have not finished, whichever is less, so never above the limit
  -- and none only when all have finished (where the limit is not 0); and n stays within the number
  -- of items, so that the loop, which finishes a task in each round, ends.
  pub sliding_window_full :
      (c : ℕ) (items : List T) (n : ℕ) (w : Window T R)
      → Reach result c items n w
      → (n ≤ length items) × (length w.in_flight ≡ min c (length items - n))
  sliding_window_full c items n w r =
      let on = Reach-IsOn r in let total = on.total in (omega arith, on.full)
