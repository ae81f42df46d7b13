-- ===== src/Window/Account.antt =====
-- What becomes of every item: nothing is lost, run twice or put in the wrong list.
use spark_workflow_main.Common.{
  ℕ, zero, suc, ◌<◌, ◌≡◌, refl, sym, ap, ap₂, ◌∙◌, subst, true, Option, none, some, List, [], ◌∷◌,
  ◌++◌, ◌==◌, ==_iff, min, length, append-nil, append_assoc, arith, Bool-cases, Option-cases, inl,
  inr, some_inj,
}
use mathlib.Core.List.{Perm, perm_append_singleton}
use mathlib.Core.List.Perm
use spark_workflow_main.Common.Eq.{nat_eq}
use spark_workflow_main.Common.Dict.{Dict, lookup, contains}
use spark_workflow_main.Window.{
  Window, start_item, start_next, seed, opening, pop, settle, finish, complete, round, AreDone,
  Reach, start, wait,
}
use spark_workflow_main.Window.Rounds.{Reach-IsOn, AreDone-complete}

-- The tasks of a list of items, from a number on.
abbrev pub numbered : {T : Type 0} → ℕ → List T → Dict ℕ T
numbered n [] = []
numbered n (x ∷ xs) = (n, x) ∷ numbered (suc n) xs

abbrev pub with_result : {R : Type 0} → Option R → List R → List R
with_result none rs = rs
with_result (some r) rs = r ∷ rs

abbrev pub with_item : {T R : Type 0} → Option R → T → List T → List T
with_item none item l = item ∷ l
with_item (some r) item l = l

module _ {T : Type 0} where
  pop-perm :
      (id : ℕ) (item : T) (d : Dict ℕ T) → lookup id d ≡ some item → Perm d ((id, item) ∷ pop id d)
  pop-perm id item [] h = cc
  pop-perm id item ((j, x) ∷ d) h = elim (Bool-cases (id == j)) [
    | inl here ↦
        let same : id ≡ j = (==_iff id j).0 here in
        let item_same : x ≡ item = some_inj (rw here at h) in
        rw here (
          subst (λ e. Perm ((j, x) ∷ d) (e ∷ d)) (ap₂ (λ a b. (a, b)) (sym same) item_same)
            (Perm.refl ((j, x) ∷ d)))
    | inr other ↦
        let rest = pop-perm id item d (rw other at h) in
        rw other (Perm.trans (Perm.cons (j, x) rest) (Perm.swap (id, item) (j, x) (pop id d)))
  ]

module _ {T R : Type 0} (result : ℕ → T → Option R) where
  -- The results of tasks that do not raise, and the items of those that do, in order.
  abbrev pub successes : Dict ℕ T → List R
  successes [] = []
  successes ((id, item) ∷ d) = with_result (result id item) (successes d)

  abbrev pub failures : Dict ℕ T → List T
  failures [] = []
  failures ((id, item) ∷ d) = with_item (result id item) item (failures d)

  -- The tasks that have finished, in that order, account for the state.
  pub record IsAccount (items : List T) (finished : Dict ℕ T) (w : Window T R) : Type 0 where
    pub tasks : Perm (w.in_flight ++ (numbered w.next_i w.waiting ++ finished)) (numbered 0 items)
    pub successful : w.ok ≡ successes finished
    pub raised : w.failed ≡ failures finished

  successes-append :
      (d : Dict ℕ T) (id : ℕ) (item : T)
      → successes (d ++ (id, item) ∷ []) ≡ successes d ++ with_result (result id item) []
  successes-append [] id item = refl
  successes-append ((j, x) ∷ d) id item = ground (arith, successes-append d id item)

  failures-append :
      (d : Dict ℕ T) (id : ℕ) (item : T)
      → failures (d ++ (id, item) ∷ []) ≡ failures d ++ with_item (result id item) item []
  failures-append [] id item = refl
  failures-append ((j, x) ∷ d) id item = ground (arith, failures-append d id item)

  started_tasks :
      (l : List T) (w : Window T R) (finished : Dict ℕ T)
      → w.waiting ≡ l
      → (start_item l w).in_flight
          ++ (numbered (start_item l w).next_i (start_item l w).waiting ++ finished)
        ≡ w.in_flight ++ (numbered w.next_i l ++ finished)
  started_tasks [] w finished h = ap (λ x. w.in_flight ++ (numbered w.next_i x ++ finished)) h
  started_tasks (x ∷ l) w finished h =
      append_assoc w.in_flight ((w.next_i, x) ∷ []) (numbered (suc w.next_i) l ++ finished)

  settled_same :
      (item : T) (r : Option R) (w : Window T R)
      → ((settle item r w).in_flight ≡ w.in_flight)
        × (((settle item r w).waiting ≡ w.waiting) × ((settle item r w).next_i ≡ w.next_i))
  settled_same item none w = (refl, (refl, refl))
  settled_same item (some r) w = (refl, (refl, refl))

  settled_lists :
      (item : T) (r : Option R) (w : Window T R)
      → ((settle item r w).ok ≡ w.ok ++ with_result r [])
        × ((settle item r w).failed ≡ w.failed ++ with_item r item [])
  settled_lists item none w = (sym (append-nil w.ok), refl)
  settled_lists item (some r) w = (refl, sym (append-nil w.failed))

  started_lists :
      (l : List T) (w : Window T R)
      → ((start_item l w).ok ≡ w.ok) × ((start_item l w).failed ≡ w.failed)
  started_lists [] w = (refl, refl)
  started_lists (x ∷ l) w = (refl, refl)

  -- A task moves from those in flight to those that have finished.
  moved_tasks :
      (items : List T) (finished rest : Dict ℕ T) (id : ℕ) (item : T) (d : Dict ℕ T)
      → lookup id d ≡ some item
      → Perm (d ++ (rest ++ finished)) (numbered 0 items)
      → Perm (pop id d ++ (rest ++ (finished ++ (id, item) ∷ []))) (numbered 0 items)
  moved_tasks items finished rest id item d found h =
      let last : pop id d ++ (rest ++ (finished ++ (id, item) ∷ []))
          ≡ (pop id d ++ (rest ++ finished)) ++ (id, item) ∷ [] =
        ap (λ l. pop id d ++ l) (sym (append_assoc rest finished ((id, item) ∷ [])))
        ∙ sym (append_assoc (pop id d) (rest ++ finished) ((id, item) ∷ [])) in
      subst (λ l. Perm l (numbered 0 items)) (sym last)
        (Perm.trans (perm_append_singleton (id, item) (pop id d ++ (rest ++ finished))) (
          Perm.trans (Perm.symm (Perm.append_right (rest ++ finished) (pop-perm id item d found)))
            h))

  settled-IsAccount :
      (items : List T) (finished : Dict ℕ T) (id : ℕ) (item : T) (w : Window T R)
      → lookup id w.in_flight ≡ some item
      → IsAccount items finished w
      → IsAccount items (finished ++ (id, item) ∷ []) (finish result id (some item) w)
  unfolding start_next
  settled-IsAccount items finished id item w found acc =
      let popped : Window T R = record w { in_flight = pop id w.in_flight } in
      let r = result id item in
      let settled = settle item r popped in
      let more = finished ++ (id, item) ∷ [] in
      let same = settled_same item r popped in
      let lists = settled_lists item r popped in
      let kept = started_lists settled.waiting settled in
      let moved : Perm (pop id w.in_flight ++ (numbered w.next_i w.waiting ++ more))
          (numbered 0 items) =
        moved_tasks items finished (numbered w.next_i w.waiting) id item w.in_flight found
          acc.tasks in
      let counted : settled.in_flight ++ (numbered settled.next_i settled.waiting ++ more)
          ≡ pop id w.in_flight ++ (numbered w.next_i w.waiting ++ more) =
        ap₂ (λ d l. d ++ l) same.0 (ap₂ (λ k l. numbered k l ++ more) same.1.1 same.1.0) in
      record {
        tasks =
            subst (λ l. Perm l (numbered 0 items))
              (sym (started_tasks settled.waiting settled more refl ∙ counted)) moved;
        successful =
            kept.0
            ∙ lists.0
            ∙ ap (λ l. l ++ with_result r []) acc.successful
            ∙ sym (successes-append finished id item);
        raised =
            kept.1
            ∙ lists.1
            ∙ ap (λ l. l ++ with_item r item []) acc.raised
            ∙ sym (failures-append finished id item);
      }

  complete-IsAccount :
      (items : List T) (finished : Dict ℕ T) (id : ℕ) (w : Window T R)
      → contains id w.in_flight ≡ true
      → IsAccount items finished w
      → (more : Dict ℕ T) × IsAccount items more (complete result id w)
  unfolding complete start_next
  complete-IsAccount items finished id w h acc = elim (Option-cases (lookup id w.in_flight)) [
    | inl missing ↦ ground arith
    | inr (item, found) ↦ (
      finished ++ (id, item) ∷ [],
      rw found (settled-IsAccount items finished id item w found acc),
    )
  ]

  -- From the start to a state of the loop.
  start_next-IsAccount :
      (items : List T) (finished : Dict ℕ T) (w : Window T R)
      → IsAccount items finished w
      → IsAccount items finished (start_next w)
  unfolding start_next
  start_next-IsAccount items finished w acc =
      let kept = started_lists w.waiting w in
      record {
        tasks =
            subst (λ l. Perm l (numbered 0 items)) (sym (started_tasks w.waiting w finished refl))
              acc.tasks;
        successful = kept.0 ∙ acc.successful;
        raised = kept.1 ∙ acc.raised;
      }

  seed-IsAccount :
      (items : List T) (n : ℕ) (w : Window T R)
      → IsAccount items [] w
      → IsAccount items [] (seed n w)
  unfolding seed
  seed-IsAccount items zero w acc = acc
  seed-IsAccount items (suc n) w acc =
      seed-IsAccount items n (start_next w) (start_next-IsAccount items [] w acc)

  opening-IsAccount :
      (c : ℕ) (items : List T) → IsAccount items [] (opening {T = T} {R = R} c items)
  unfolding opening
  opening-IsAccount c items =
      let w : Window T R = record {
        waiting = items;
        next_i = 0;
        in_flight = [];
        ok = [];
        failed = [];
      } in
      seed-IsAccount items (min c (length items)) w (record {
        tasks =
            subst (λ l. Perm l (numbered 0 items)) (sym (append-nil (numbered 0 items)))
              (Perm.refl (numbered 0 items));
        successful = refl;
        raised = refl;
      })

  round-IsAccount :
      (items : List T) (finished : Dict ℕ T) (done : List ℕ) (w : Window T R)
      → AreDone done w
      → IsAccount items finished w
      → (more : Dict ℕ T) × IsAccount items more (round result done w)
  unfolding round
  round-IsAccount items finished [] w h acc = (finished, acc)
  round-IsAccount items finished (id ∷ done) w h acc =
      let (more, next) = complete-IsAccount items finished id w h.0 acc in
      round-IsAccount items more done (complete result id w)
        (AreDone-complete result id done w h.1.0 h.1.1) next

  Reach-IsAccount :
      {c : ℕ} {items : List T} {n : ℕ} {w : Window T R}
      → Reach result c items n w
      → (finished : Dict ℕ T) × IsAccount items finished w
  Reach-IsAccount {c} {items} start = ([], opening-IsAccount c items)
  Reach-IsAccount {c} {items} (wait {n} {w} id done r h) =
      let (finished, acc) = Reach-IsAccount r in round-IsAccount items finished (id ∷ done) w h acc

  no_length : {A : Type 0} (l : List A) → length l ≡ 0 → l ≡ []
  no_length [] h = refl
  no_length (x ∷ l) h = absurd (omega arith)

  -- Where the limit is not 0 and nothing is in flight any more, which is when the loop ends,
  -- every item has been run as exactly one task: with the tasks in the order in which they
  -- finished, `ok` holds the results of those that did not raise and `failed` the items of those
  -- that did.
  pub sliding_window_accounts :
      (c : ℕ) (items : List T) (n : ℕ) (w : Window T R)
      → 0 < c
      → Reach result c items n w
      → w.in_flight ≡ []
      → (finished : Dict ℕ T) × (Perm finished (numbered 0 items)
          × ((w.ok ≡ successes finished) × (w.failed ≡ failures finished)))
  sliding_window_accounts c items n w positive r idle =
      let (finished, acc) = Reach-IsAccount r in
      let on = Reach-IsOn result r in
      let total = on.total in
      let full = on.full in
      let none_there : length w.in_flight ≡ 0 = ap length idle in
      let nothing_left : w.waiting ≡ [] = no_length w.waiting (omega arith) in
      (
        finished,
        (
          subst (λ l. Perm l (numbered 0 items))
              (ap₂ (λ d l. d ++ (numbered w.next_i l ++ finished)) idle nothing_left) acc.tasks,
          (acc.successful, acc.raised),
        ),
      )
