-- ===== src/Chunking/Splitter/Lengths.antt =====
-- How long the chunks of the splitter are, measured in characters.
use spark_workflow_main.Common.{
  ◌||◌, ℕ, ◌+◌, ◌-◌, ◌≤◌, ◌<◌, ◌≡◌, refl, Bool, true, false, Option, none, some, List, [], ◌∷◌,
  ◌++◌, ltb, ltb→lt, ltb-false, length, length-append, All, All-append, arith, Bool-cases, inl, inr,
}
use spark_workflow_main.Common.Text.{Text, is_empty, join}
use spark_workflow_main.Chunking.Splitter.{
  trim, separator_length, overflows, merge_from, merge_splits, split_further, gather, characters,
  split_by_separator, split_text, occurs_in,
}
use spark_workflow_main.Chunking.Splitter.Steps.{
  trim_keep, trim_drop, trim_one, merge_add, merge_flush,
}

length-join :
    (sep piece : Text) (pieces : List Text)
    → length (join sep (pieces ++ piece ∷ []))
      ≡ length (join sep pieces) + (length piece + separator_length length sep pieces)
unfolding join
length-join sep piece [] = omega arith
length-join sep piece (p ∷ []) =
    omega (arith, length-append p (sep ++ piece), length-append sep piece)
length-join sep piece (p ∷ q ∷ pieces) =
    let rest = length-join sep piece (q ∷ pieces) in
    omega (
      arith,
      length-append p (sep ++ join sep (q ∷ (pieces ++ piece ∷ []))),
      length-append sep (join sep (q ∷ (pieces ++ piece ∷ []))),
      length-append p (sep ++ join sep (q ∷ pieces)),
      length-append sep (join sep (q ∷ pieces)),
    )

abbrev pub IsShort : ℕ → Text → Type 0
IsShort n s = length s < n

abbrev IsTrimmed : ℕ → Text → List Text → Type 0
IsTrimmed size sep pieces = All (IsShort size) pieces × (length (join sep pieces) < size)

module _ (size overlap : ℕ) where
  trim-IsTrimmed :
      (sep : Text) (current_len : ℕ) (p : Text) (pieces : List Text)
      → overlap < size
      → current_len ≡ length (join sep (p ∷ pieces))
      → All (IsShort size) (p ∷ pieces)
      → IsTrimmed size sep (trim length size overlap sep current_len (p ∷ pieces))
  unfolding join
  trim-IsTrimmed sep current_len p [] small e h =
      rw (trim_one length size overlap sep current_len p) (h, h.0)
  trim-IsTrimmed sep current_len p (q ∷ pieces) small e h =
      let whole = length-append p (sep ++ join sep (q ∷ pieces)) in
      let rest = length-append sep (join sep (q ∷ pieces)) in
      elim (Bool-cases (ltb overlap current_len)) [
        | inl over ↦ rw (trim_drop length size overlap sep current_len p q pieces over) (
            trim-IsTrimmed sep (current_len - (length p + length sep)) q pieces small (omega arith)
              h.1)
        | inr within ↦
            let few = ltb-false overlap current_len within in
            rw (trim_keep length size overlap sep current_len p q pieces within) (h, omega arith)
      ]

  -- A chunk holds at most two pieces beyond the limit, with a separator between them.
  abbrev pub IsBounded : ℕ → Text → Type 0
  IsBounded k s = length s ≤ (size - 1) + k + (size - 1)

  trim_any :
      (sep : Text) (current_len : ℕ) (pieces : List Text)
      → overlap < size
      → current_len ≡ length (join sep pieces)
      → All (IsShort size) pieces
      → IsTrimmed size sep (trim length size overlap sep current_len pieces)
  unfolding trim join
  trim_any sep current_len [] small e h = (tt, omega arith)
  trim_any sep current_len (p ∷ pieces) small e h =
      trim-IsTrimmed sep current_len p pieces small e h

  separator-le : (sep : Text) (pieces : List Text) → separator_length length sep pieces ≤ length sep
  separator-le sep [] = omega arith
  separator-le sep (p ∷ pieces) = omega arith

  fits :
      (sep : Text) (pieces : List Text) (piece : Text)
      → overflows length size overlap sep (length (join sep pieces)) pieces piece ≡ false
      → length piece < size
      → length (join sep (pieces ++ piece ∷ [])) ≤ size
  unfolding join
  fits sep [] piece h short = omega arith
  fits sep (p ∷ pieces) piece h short =
      let sum = length-join sep piece (p ∷ pieces) in
      let few : length (join sep (p ∷ pieces)) + length piece + length sep ≤ size =
        ltb-false size (length (join sep (p ∷ pieces)) + length piece + length sep)
          (ground arith) in
      omega arith

  merge_from-IsBounded :
      (sep : Text) (k : ℕ) (pieces : List Text) (splits : List Text)
      → 1 < size
      → overlap < size
      → length sep ≤ k
      → IsBounded k (join sep pieces)
      → All (IsShort size) pieces
      → All (IsShort size) splits
      → All
          (IsBounded k)
          (merge_from length size overlap sep pieces (length (join sep pieces)) splits)
  unfolding merge_from
  merge_from-IsBounded sep k [] [] one small le bound hp hs = tt
  merge_from-IsBounded sep k (p ∷ pieces) [] one small le bound hp hs = (bound, tt)
  merge_from-IsBounded sep k pieces (piece ∷ splits) one small le bound hp hs =
      elim (Bool-cases
        (overflows length size overlap sep (length (join sep pieces)) pieces piece)) [
          | inr fit ↦
              let more = fits sep pieces piece fit hs.0 in
              rw
                (merge_add length size overlap sep pieces (length (join sep pieces)) piece splits
                  fit)
                (merge_from-IsBounded sep k (pieces ++ piece ∷ []) splits one small le (omega arith)
                  (All-append (IsShort size) pieces (piece ∷ []) hp (hs.0, tt)) hs.1)
          | inl over ↦
              let kept = trim length size overlap sep (length (join sep pieces)) pieces in
              let (short, less) = trim_any sep (length (join sep pieces)) pieces small refl hp in
              let sum = length-join sep piece kept in
              let sep_le = separator-le sep kept in
              let piece_short = hs.0 in
              rw
                (merge_flush length size overlap sep pieces (length (join sep pieces)) piece splits
                  over)
                (
                  bound,
                  merge_from-IsBounded sep k (kept ++ piece ∷ []) splits one small le (omega arith)
                      (All-append (IsShort size) kept (piece ∷ []) short (hs.0, tt)) hs.1,
                )
        ]

  merge_splits-IsBounded :
      (sep : Text) (k : ℕ) (splits : List Text)
      → 1 < size
      → overlap < size
      → length sep ≤ k
      → All (IsShort size) splits
      → All (IsBounded k) (merge_splits length size overlap splits sep)
  unfolding merge_splits join
  merge_splits-IsBounded sep k splits one small le hs =
      merge_from-IsBounded sep k [] splits one small le (omega arith) tt hs

  -- A piece that is not short is split further into bounded chunks.
  abbrev IsSplit : ℕ → Option (Text → List Text) → Text → Type 0
  IsSplit k again piece =
      ltb (length piece) size ≡ false
      → All (IsBounded k) (split_further length size overlap again piece)

  gather-IsBounded :
      (sep : Text) (k : ℕ) (again : Option (Text → List Text)) (good splits : List Text)
      → 1 < size
      → overlap < size
      → length sep ≤ k
      → All (IsShort size) good
      → All (IsSplit k again) splits
      → All (IsBounded k) (gather length size overlap sep again good splits)
  unfolding gather
  gather-IsBounded sep k again good [] one small le hg hs =
      merge_splits-IsBounded sep k good one small le hg
  gather-IsBounded sep k again good (piece ∷ splits) one small le hg hs =
      elim (Bool-cases (ltb (length piece) size)) [
        | inl short ↦
            let piece_short = ltb→lt (length piece) size short in
            rw (short, gather)
              (gather-IsBounded sep k again (good ++ piece ∷ []) splits one small le
                (All-append (IsShort size) good (piece ∷ []) hg (piece_short, tt)) hs.1)
        | inr long ↦
            rw (long, gather)
              (All-append (IsBounded k) (merge_splits length size overlap good sep)
                (split_further length size overlap again piece
                  ++ gather length size overlap sep again [] splits)
                (merge_splits-IsBounded sep k good one small le hg)
                (All-append (IsBounded k) (split_further length size overlap again piece)
                  (gather length size overlap sep again [] splits) (hs.0 long)
                  (gather-IsBounded sep k again [] splits one small le tt hs.1)))
      ]

  characters-IsSplit :
      (k : ℕ) (again : Option (Text → List Text)) (text : Text)
      → 1 < size
      → All (IsSplit k again) (characters text)
  characters-IsSplit k again [] one = tt
  characters-IsSplit k again (c ∷ text) one =
      (λ long. absurd (omega (arith, ltb-false 1 size long)), characters-IsSplit k again text one)

  All-each : {A : Type 0} (P : A → Type 0) (l : List A) → ((a : A) → P a) → All P l
  All-each P [] h = tt
  All-each P (x ∷ l) h = (h x, All-each P l h)

  -- The empty separator is among those of a list.
  abbrev pub ends_empty : List Text → Text → Bool
  ends_empty [] sep = is_empty sep
  ends_empty (next ∷ others) sep = is_empty sep || ends_empty others next

  abbrev pub IsWithin : ℕ → Text → Type 0
  IsWithin k sep = length sep ≤ k

  -- Where the empty separator is among the separators, as it is by default, the limit is at least
  -- 2 and the overlap below it, every chunk is shorter than two limits and the longest separator
  -- together: two pieces that are each below the limit, and a separator.
  pub split_text-IsBounded :
      (keep : Bool) (k : ℕ) (others : List Text) (sep text : Text)
      → 1 < size
      → overlap < size
      → All (IsWithin k) (sep ∷ others)
      → ends_empty others sep ≡ true
      → All (IsBounded k) (split_text length size overlap keep others sep text)
  unfolding split_text split_by_separator
  split_text-IsBounded keep k [] [] text one small within total =
      gather-IsBounded [] k none [] (characters text) one small within.0 tt
        (characters-IsSplit k none text one)
  split_text-IsBounded keep k [] (c ∷ sep) text one small within total = cc
  split_text-IsBounded keep k (next ∷ others) [] text one small within total =
      gather-IsBounded [] k none [] (characters text) one small within.0 tt
        (characters-IsSplit k none text one)
  split_text-IsBounded keep k (next ∷ others) (c ∷ sep) text one small within total =
      elim (Bool-cases (occurs_in (c ∷ sep) text)) [
        | inr absent ↦
            rw (absent, split_text)
              (split_text-IsBounded keep k others next text one small within.1 total)
        | inl there ↦
            let again = split_text length size overlap keep others next in
            let parts = split_by_separator keep text (c ∷ sep) in
            rw (there, split_text)
              (gather-IsBounded (c ∷ sep) k (some again) [] parts one small within.0 tt (
                All-each (IsSplit k (some again)) parts (λ piece long.
                  split_text-IsBounded keep k others next piece one small within.1 total)))
      ]
