-- ===== src/Window.antt =====
-- The executor of concurrent tasks, `sliding_window`, of
-- 05-modulcluster/modul-inhaltsextraktion/src/utils/sliding_window.py and of
-- 05-modulcluster/modul-formale-pruefung/src/utils/sliding_window.py. What the task with a number
-- gives for its item is a parameter, `none` where it raises an Exception; a cancellation, which is
-- none, is left aside. Which tasks `workflow.wait` finds done, and in which order the set is walked,
-- is a choice of the environment.
pub mod Rounds
pub mod Account
pub mod Strict
mod Tests
use spark_workflow_main.Common.{
  ℕ, zero, suc, ◌+◌, ◌≡◌, ◌≢◌, Bool, true, false, Option, none, some, List, [], ◌∷◌, ◌++◌, ◌==◌,
  min, length, if◌then◌else◌,
}
use spark_workflow_main.Common.Eq.{nat_eq, elem}
use spark_workflow_main.Common.Dict.{Dict, lookup, contains}

-- The variables of the function; `waiting` is `items[next_i:]`, and a task is named by the index
-- of its item.
pub record Window (T R : Type 0) : Type 0 where
  pub waiting : List T
  pub next_i : ℕ
  pub in_flight : Dict ℕ T
  pub ok : List R
  pub failed : List T

module _ {T R : Type 0} where
  -- `in_flight[asyncio.ensure_future(fn(items[next_i]))] = items[next_i]; next_i += 1`, where an
  -- item is left
  abbrev pub start_item : List T → Window T R → Window T R
  start_item [] w = w
  start_item (item ∷ rest) w = record w {
    waiting = rest;
    next_i = suc w.next_i;
    in_flight = w.in_flight ++ (w.next_i, item) ∷ [];
  }

  unfoldable pub start_next : Window T R → Window T R
  start_next w = start_item w.waiting w

  -- The first loop: `for _ in range(n)`
  unfoldable pub seed : ℕ → Window T R → Window T R
  seed zero w = w
  seed (suc n) w = seed n (start_next w)

  -- What the function starts from, its first loop done. No items give the same as no rounds.
  unfoldable pub opening : ℕ → List T → Window T R
  unfolding seed
  opening concurrency items =
      seed (min concurrency (length items))
        (record { waiting = items; next_i = 0; in_flight = []; ok = []; failed = [] })

  -- The try block on the task's result.
  abbrev pub settle : T → Option R → Window T R → Window T R
  settle item (some r) w = record w { ok = w.ok ++ r ∷ [] }
  settle item none w = record w { failed = w.failed ++ item ∷ [] }

  -- What `wait` returns: some of the tasks that it is given, each once, and at least one.
  abbrev pub AreDone : List ℕ → Window T R → Type 0
  AreDone [] w = Unit
  AreDone (id ∷ done) w =
      (contains id w.in_flight ≡ true) × ((elem id done ≡ false) × AreDone done w)

-- `in_flight.pop(task)`, on the dict that is left
abbrev pub pop : {T : Type 0} → ℕ → Dict ℕ T → Dict ℕ T
pop id [] = []
pop id ((j, item) ∷ d) = if id == j then d else (j, item) ∷ pop id d

module _ {T R : Type 0} (result : ℕ → T → Option R) where
  -- One task of `done`, which are keys of `in_flight`; the next item takes its place.
  abbrev pub finish : ℕ → Option T → Window T R → Window T R
  finish id none w = w
  finish id (some item) w =
      start_next (settle item (result id item) (record w { in_flight = pop id w.in_flight }))

  unfoldable pub complete : ℕ → Window T R → Window T R
  complete id w = finish id (lookup id w.in_flight) w

  -- A round of the second loop: `for completed in done`
  unfoldable pub round : List ℕ → Window T R → Window T R
  round [] w = w
  round (id ∷ done) w = round done (complete id w)

  -- The same loop in the formal check's module, where `task.result()` stands in no try block:
  -- `none` where it raises out of the function.
  abbrev pub finish_strict : ℕ → Option T → Option R → Window T R → Option (Window T R)
  finish_strict id (some item) (some r) w =
      some (start_next (record w { in_flight = pop id w.in_flight; ok = w.ok ++ r ∷ [] }))
  finish_strict id (some item) none w = none
  finish_strict id none r w = some w

  abbrev pub result_of : ℕ → Option T → Option R
  result_of id none = none
  result_of id (some item) = result id item

  unfoldable pub complete_strict : ℕ → Window T R → Option (Window T R)
  complete_strict id w =
      let item = lookup id w.in_flight in finish_strict id item (result_of id item) w

  unfoldable pub round_strict : List ℕ → Window T R → Option (Window T R)
  round_strict [] w = some w
  round_strict (id ∷ done) w = elim (complete_strict id w) [
    | none ↦ none
    | some next ↦ round_strict done next
  ]

  -- The states that the second loop meets after a number of completed tasks.
  pub data Reach (concurrency : ℕ) (items : List T) : ℕ → Window T R → Type 0 where
    start : Reach concurrency items 0 (opening concurrency items)
    wait :
        {n : ℕ} {w : Window T R} (id : ℕ) (done : List ℕ)
        → Reach concurrency items n w
        → AreDone (id ∷ done) w
        → Reach concurrency items (n + length (id ∷ done)) (round (id ∷ done) w)
