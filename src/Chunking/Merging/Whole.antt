-- ===== src/Chunking/Merging/Whole.antt =====
-- Texts in a row, a blank line between any two.
use spark_workflow_main.Common.{◌≡◌, refl, sym, ap, List, [], ◌∷◌, ◌++◌, append_assoc}
use spark_workflow_main.Common.Text.{Text, newline, join}
use spark_workflow_main.Chunking.Merging.{paragraphs}

abbrev pub blank_line : Text
blank_line = newline ∷ newline ∷ []

-- The texts in a row, a blank line between any two
unfoldable pub whole : List Text → Text
unfolding join
whole texts = join blank_line texts

pub whole_two :
    (p q : Text) (rest : List Text) → whole (p ∷ q ∷ rest) ≡ whole (paragraphs p q ∷ rest)
unfolding whole join
whole_two p q [] = refl
whole_two p q (r ∷ rest) = sym (append_assoc p (newline ∷ newline ∷ q) _)

abbrev pub HasSome {ℓ} : {A : Type ℓ} → List A → Type 0
HasSome [] = ⊥
HasSome (x ∷ l) = Unit

pub whole_next :
    (p : Text) (l m : List Text)
    → whole l ≡ whole m
    → HasSome l
    → HasSome m
    → whole (p ∷ l) ≡ whole (p ∷ m)
unfolding whole join
whole_next p [] m h some_l some_m = elim some_l [ ]
whole_next p (x ∷ l) [] h some_l some_m = elim some_m [ ]
whole_next p (x ∷ l) (y ∷ m) h some_l some_m = ap (λ t. p ++ (newline ∷ newline ∷ t)) h

pub append-HasSome : (l : List Text) (x : Text) (m : List Text) → HasSome (l ++ x ∷ m)
append-HasSome [] x m = tt
append-HasSome (y ∷ l) x m = tt

pub whole_within :
    (l : List Text) (p q : Text) (rest : List Text)
    → whole (l ++ p ∷ q ∷ rest) ≡ whole (l ++ paragraphs p q ∷ rest)
whole_within [] p q rest = whole_two p q rest
whole_within (x ∷ l) p q rest =
    whole_next x (l ++ p ∷ q ∷ rest) (l ++ paragraphs p q ∷ rest) (whole_within l p q rest)
      (append-HasSome l p (q ∷ rest)) (append-HasSome l (paragraphs p q) rest)
