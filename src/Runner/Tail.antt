-- ===== src/Runner/Tail.antt =====
-- The tail buffer (internal/app/runner.go) against the last lines of all that was added.
use personal_yt_downloader.Common.{
  ℕ, zero, suc, ◌-◌, ◌≤◌, ◌<◌, ◌≡◌, refl, String, some, List, [], ◌∷◌, ◌++◌, leb, length,
  length-append, arith, Bool-cases, inl, inr, drop, last_of, length-drop, drop-append,
}
use personal_yt_downloader.Runner.{shift_in, kept_lines, add, tail_limit}

-- One more dropped shifts the list by one.
shift_in-drop :
    (n : ℕ) (xs : List String) (line : String)
    → n < length xs
    → shift_in (drop n xs) line ≡ some (drop (suc n) xs ++ line ∷ [])
unfolding shift_in
shift_in-drop n [] line h = absurd (omega arith)
shift_in-drop zero (x ∷ xs) line h = refl
shift_in-drop (suc n) (x ∷ xs) line h = shift_in-drop n xs line (omega arith)

length-snoc : (xs : List String) (line : String) → length (xs ++ line ∷ []) ≡ suc (length xs)
length-snoc xs line = ground (arith, length-append xs (line ∷ []))

kept_lines-last_of :
    (max : ℕ) (xs : List String) (line : String)
    → 1 ≤ max
    → kept_lines (record { lines = last_of max xs; max = max }) line
      ≡ some (last_of max (xs ++ line ∷ []))
unfolding kept_lines
kept_lines-last_of max xs line h = elim (Bool-cases (leb max (length xs))) [
  | inl full ↦
      let n = length xs - max in
      let next : length (xs ++ line ∷ []) - max ≡ suc n =
        ground (arith, length-snoc xs line, full) in
      let long : max ≤ length xs = ground (arith, full) in
      rw
        (
          length-drop n xs,
          next,
          drop-append (suc n) xs (line ∷ []) (omega (arith, long, h)),
          shift_in-drop n xs line (omega (arith, long, h)),
        )
        (ground (arith, long))
  | inr room ↦
      let short : length xs - max ≡ 0 = ground (arith, room) in
      let next : length (xs ++ line ∷ []) - max ≡ 0 = ground (arith, length-snoc xs line, room) in
      rw (short, next, room) refl
]

-- With room for a line at least, one more line added to the last lines is the last lines of all.
pub add-last_of :
    (max : ℕ) (xs : List String) (line : String)
    → 1 ≤ max
    → add (record { lines = last_of max xs; max = max }) line
      ≡ some (record { lines = last_of max (xs ++ line ∷ []); max = max })
unfolding add
add-last_of max xs line h = rw (add, kept_lines-last_of max xs line h) refl

pub tail_limit_positive : (tail_lines : ℕ) → 1 ≤ tail_limit tail_lines
unfolding tail_limit
tail_limit_positive tail_lines = ground arith
