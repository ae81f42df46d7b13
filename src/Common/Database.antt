-- ===== src/Common/Database.antt =====
-- Tables as lists of rows in the order of insertion, and what the services ask SQLAlchemy for.
use spark_workflow_main.Common.Lists.{filter}
use spark_workflow_main.Common.Tests.{if◌then◌else◌, Bool-cases}
use mathlib.Core.Bool.{Bool, true, false, ◌||◌}
use mathlib.Core.Option.{Option, none, some}
use mathlib.Core.List.{List, [], ◌∷◌}
use mathlib.Core.Path.{◌≡◌, refl, subst}
use mathlib.Core.Logic.{◌⊎◌, inl, inr}

-- The exceptions that end a request: the services' own, and those of SQLAlchemy and httpx.
pub data Error : Type 0 where
  not_found forbidden integrity_error multiple_results_found fetch_failed validation_error : Error

pub data Result {ℓ} (A : Type ℓ) : Type ℓ where
  ok : A → Result A
  raised : Error → Result A

infixl 5 ◌>>=◌
abbrev pub ◌>>=◌ {ℓ κ} : {A : Type ℓ} {B : Type κ} → Result A → (A → Result B) → Result B
ok a >>= f = f a
raised e >>= f = raised e

-- `result.scalar_one_or_none()`
abbrev pub one_or_none {ℓ} : {A : Type ℓ} → List A → Result (Option A)
one_or_none [] = ok none
one_or_none (row ∷ []) = ok (some row)
one_or_none (row ∷ other ∷ rows) = raised multiple_results_found

-- A row that must be there: `if row is None: raise error`.
abbrev pub required {ℓ} : {A : Type ℓ} → Error → Option A → Result A
required e none = raised e
required e (some row) = ok row

module _ {ℓ} {A : Type ℓ} where
  abbrev pub any : (A → Bool) → List A → Bool
  any p [] = false
  any p (row ∷ rows) = p row || any p rows

  -- The rows that a test selects, changed.
  abbrev pub update_where : (A → Bool) → (A → A) → List A → List A
  update_where p f [] = []
  update_where p f (row ∷ rows) = (if p row then f row else row) ∷ update_where p f rows

abbrev pub is_none {ℓ} : {A : Type ℓ} → Option A → Bool
is_none none = true
is_none (some a) = false

pub Result-cases {ℓ} :
    {A : Type ℓ} (r : Result A) → ((e : Error) × (r ≡ raised e)) ⊎ ((a : A) × (r ≡ ok a))
Result-cases (ok a) = inr (a, refl)
Result-cases (raised e) = inl (e, refl)

pub ok_inj {ℓ} : {A : Type ℓ} {a b : A} → ok a ≡ ok b → a ≡ b
ok_inj h = cc

pub raised_absurd {ℓ κ} : {A : Type ℓ} {B : Type κ} {e : Error} {a : A} → raised e ≡ ok a → B
raised_absurd h = cc

-- Whatever a computation gives has a property.
abbrev pub AllOk {ℓ κ} : {A : Type ℓ} → (A → Type κ) → Result A → Type κ
AllOk P (ok a) = P a
AllOk P (raised e) = Unit

pub AllOk-bind {ℓ κ λ₁ λ₂} :
    {A : Type ℓ} {B : Type κ} (P : A → Type λ₁) (Q : B → Type λ₂) (r : Result A) (f : A → Result B)
    → AllOk P r
    → ((a : A) → P a → AllOk Q (f a))
    → AllOk Q (r >>= f)
AllOk-bind P Q (ok a) f h k = k a h
AllOk-bind P Q (raised e) f h k = tt

pub AllOk-if {ℓ κ} :
    {A : Type ℓ} (P : A → Type κ) (b : Bool) (e : Error) (r : Result A)
    → AllOk P r
    → AllOk P (if b then raised e else r)
AllOk-if P true e r h = tt
AllOk-if P false e r h = h

pub AllOk-map {ℓ κ λ₁} :
    {A : Type ℓ} (P : A → Type κ) (Q : A → Type λ₁) (r : Result A)
    → ((a : A) → P a → Q a)
    → AllOk P r
    → AllOk Q r
AllOk-map P Q (ok a) k h = k a h
AllOk-map P Q (raised e) k h = tt

pub first_found :
    {A : Type 0} (x row : A) (rows : List A) → one_or_none (x ∷ rows) ≡ ok (some row) → x ≡ row
first_found x row [] h = cc
first_found x row (y ∷ rows) h = raised_absurd h

-- A row that a query has found passes its test.
pub one_passes :
    {A : Type 0} (q : A → Bool) (rows : List A) (row : A)
    → one_or_none (filter q rows) ≡ ok (some row)
    → q row ≡ true
one_passes q [] row h = cc
one_passes q (x ∷ rows) row h = elim (Bool-cases (q x)) [
  | inr other ↦ one_passes q rows row (rw other at h)
  | inl holds ↦ subst (λ r. q r ≡ true) (first_found x row (filter q rows) (rw holds at h)) holds
]
