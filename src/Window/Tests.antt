-- ===== src/Window/Tests.antt =====
-- Runs of the executor, and its theorems at such inputs.
use spark_workflow_main.Common.{
  ℕ, ◌+◌, ◌-◌, ◌≤◌, ◌≡◌, refl, Option, none, some, List, [], ◌∷◌, ◌==◌, min, length, if◌then◌else◌,
  arith,
}
use mathlib.Core.List.{Perm}
use spark_workflow_main.Common.Dict.{Dict}
use spark_workflow_main.Common.Eq.{nat_eq}
use spark_workflow_main.Window.{
  Window, start_next, seed, opening, complete, round, round_strict, Reach, start, wait,
}
use spark_workflow_main.Window.Rounds.{sliding_window_full}
use spark_workflow_main.Window.Account.{numbered, successes, failures, sliding_window_accounts}
use spark_workflow_main.Window.Strict.{Agrees, round_strict-Agrees}

-- The task for item 7 raises.
abbrev doubled : ℕ → ℕ → Option ℕ
doubled id item = if item == 7 then none else some (item + item)

abbrev items : List ℕ
items = 5 ∷ 7 ∷ 9 ∷ []

abbrev first : Window ℕ ℕ
first = round doubled (1 ∷ []) (opening 2 items)

abbrev last : Window ℕ ℕ
last = round doubled (2 ∷ 0 ∷ []) first

reached_first : Reach doubled 2 items 1 first
unfolding round opening seed start_next
reached_first = wait 1 [] start (refl, (refl, tt))

reached_last : Reach doubled 2 items 3 last
unfolding round opening seed start_next complete
reached_last = wait 2 (0 ∷ []) reached_first (refl, (refl, (refl, (refl, tt))))

last_ok : last.ok ≡ 18 ∷ 10 ∷ []
unfolding round opening seed start_next complete
last_ok = refl

sliding_window_full_example :
    (1 ≤ length items) × (length first.in_flight ≡ min 2 (length items - 1))
sliding_window_full_example = sliding_window_full doubled 2 items 1 first reached_first

sliding_window_accounts_example :
    (finished : Dict ℕ ℕ) × (Perm finished (numbered 0 items)
      × ((last.ok ≡ successes doubled finished) × (last.failed ≡ failures doubled finished)))
unfolding round opening seed start_next complete
sliding_window_accounts_example =
    sliding_window_accounts doubled 2 items 3 last (omega arith) reached_last refl

round_strict-Agrees_example :
    Agrees doubled
      (opening 2 items)
      (round doubled (1 ∷ []) (opening 2 items))
      (round_strict doubled (1 ∷ []) (opening 2 items))
round_strict-Agrees_example = round_strict-Agrees doubled (1 ∷ []) (opening 2 items)
