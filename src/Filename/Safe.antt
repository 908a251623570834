-- ===== src/Filename/Safe.antt =====
-- What SafeFilename (internal/app/model.go) makes of a title.
use personal_yt_downloader.Common.{
  ℕ, zero, suc, ◌+◌, ◌≤◌, ◌≡◌, refl, ◌≢◌, ◌⊎◌, inl, inr, Bool, false, [], ◌∷◌, ◌++◌, ltb, length,
  All, Bool-cases, arith,
}
use personal_yt_downloader.Common.Text.{Text, codes, trim, trim_left, trim_right, keep_unless_empty}
use personal_yt_downloader.Filename.{
  rune_size, size, max_size, is_blank_or_dot, is_blank_dot_or_break, drop_last, shorten, is_unsafe,
  replace_unsafe, stem, safe_filename, unless_empty,
}

-- The first, and the last, rune passes the test.
abbrev pub starts_in : (ℕ → Bool) → Text → Bool
starts_in p [] = false
starts_in p (r ∷ s) = p r

abbrev pub ends_in : (ℕ → Bool) → Text → Bool
ends_in p [] = false
ends_in p (r ∷ []) = p r
ends_in p (r ∷ q ∷ s) = ends_in p (q ∷ s)

length-drop_last : (r : ℕ) (s : Text) → length (drop_last (r ∷ s)) ≡ length s
length-drop_last r [] = refl
length-drop_last r (q ∷ s) = ground (arith, length-drop_last q s)

-- With a round for each rune the loop ends by its test.
pub size-shorten-le : (fuel : ℕ) (s : Text) → length s ≤ fuel → size (shorten fuel s) ≤ max_size
unfolding shorten
size-shorten-le zero [] h = omega arith
size-shorten-le zero (r ∷ s) h = absurd (omega arith)
size-shorten-le (suc fuel) [] h = ground arith
size-shorten-le (suc fuel) (r ∷ s) h =
    ground (arith, size-shorten-le fuel (drop_last (r ∷ s)), length-drop_last r s)

size-trim_left-le : (p : ℕ → Bool) (s : Text) → size (trim_left p s) ≤ size s
size-trim_left-le p [] = omega arith
size-trim_left-le p (r ∷ s) =
    let h = size-trim_left-le p s in
    elim (Bool-cases (p r)) [
      | inl hit ↦ rw hit (omega (arith, h))
      | inr miss ↦ rw miss (omega arith)
    ]

size-keep-le :
    (p : ℕ → Bool) (r : ℕ) (s : Text) → size (keep_unless_empty p r s) ≤ rune_size r + size s
size-keep-le p r [] = elim (Bool-cases (p r)) [
  | inl hit ↦ rw hit (omega arith)
  | inr miss ↦ rw miss (omega arith)
]
size-keep-le p r (q ∷ s) = omega arith

size-trim_right-le : (p : ℕ → Bool) (s : Text) → size (trim_right p s) ≤ size s
size-trim_right-le p [] = omega arith
size-trim_right-le p (r ∷ s) =
    omega (arith, size-keep-le p r (trim_right p s), size-trim_right-le p s)

starts-keep :
    (p : ℕ → Bool) (r : ℕ) (s : Text) → p r ≡ false → starts_in p (keep_unless_empty p r s) ≡ false
starts-keep p r [] h = rw h h
starts-keep p r (q ∷ s) h = h

starts-trim_right :
    (p : ℕ → Bool) (s : Text) → starts_in p s ≡ false → starts_in p (trim_right p s) ≡ false
starts-trim_right p [] h = refl
starts-trim_right p (r ∷ s) h = starts-keep p r (trim_right p s) h

starts-trim_left : (p : ℕ → Bool) (s : Text) → starts_in p (trim_left p s) ≡ false
starts-trim_left p [] = refl
starts-trim_left p (r ∷ s) = elim (Bool-cases (p r)) [
  | inl hit ↦ rw hit (starts-trim_left p s)
  | inr miss ↦ rw miss miss
]

ends-keep :
    (p : ℕ → Bool) (r : ℕ) (s : Text)
    → ends_in p s ≡ false
    → ends_in p (keep_unless_empty p r s) ≡ false
ends-keep p r [] h = elim (Bool-cases (p r)) [ inl hit ↦ rw hit refl | inr miss ↦ rw miss miss ]
ends-keep p r (q ∷ s) h = h

ends-trim_right : (p : ℕ → Bool) (s : Text) → ends_in p (trim_right p s) ≡ false
ends-trim_right p [] = refl
ends-trim_right p (r ∷ s) = ends-keep p r (trim_right p s) (ends-trim_right p s)

-- What trimming and shortening leave still consists of runes with the property.
module _ (P : ℕ → Type 0) where
  trim_left-All : (p : ℕ → Bool) (s : Text) → All P s → All P (trim_left p s)
  trim_left-All p [] h = tt
  trim_left-All p (r ∷ s) h = elim (Bool-cases (p r)) [
    | inl hit ↦ rw hit (trim_left-All p s h.1)
    | inr miss ↦ rw miss h
  ]

  keep-All : (p : ℕ → Bool) (r : ℕ) (s : Text) → P r → All P s → All P (keep_unless_empty p r s)
  keep-All p r [] x h = elim (Bool-cases (p r)) [ inl hit ↦ rw hit tt | inr miss ↦ rw miss (x, tt) ]
  keep-All p r (q ∷ s) x h = (x, h)

  trim_right-All : (p : ℕ → Bool) (s : Text) → All P s → All P (trim_right p s)
  trim_right-All p [] h = tt
  trim_right-All p (r ∷ s) h = keep-All p r (trim_right p s) h.0 (trim_right-All p s h.1)

  trim-All : (p : ℕ → Bool) (s : Text) → All P s → All P (trim p s)
  trim-All p s h = trim_right-All p (trim_left p s) (trim_left-All p s h)

  drop_last-All : (s : Text) → All P s → All P (drop_last s)
  drop_last-All [] h = tt
  drop_last-All (r ∷ []) h = tt
  drop_last-All (r ∷ q ∷ s) h = (h.0, drop_last-All (q ∷ s) h.1)

  shorten-All : (fuel : ℕ) (s : Text) → All P s → All P (shorten fuel s)
  unfolding shorten
  shorten-All zero s h = h
  shorten-All (suc fuel) s h = elim (Bool-cases (ltb max_size (size s))) [
    | inl long ↦ rw long (shorten-All fuel (drop_last s) (drop_last-All s h))
    | inr short ↦ rw short h
  ]

module _ (is_control : ℕ → Bool) (underscore : is_control b'_' ≡ false) where
  replace_unsafe-All :
      (s : Text) → All (λ r. is_unsafe is_control r ≡ false) (replace_unsafe is_control s)
  unfolding replace_unsafe is_unsafe
  replace_unsafe-All [] = tt
  replace_unsafe-All (r ∷ s) = elim (Bool-cases (is_unsafe is_control r)) [
    | inl hit ↦ rw hit (ground (arith, underscore), replace_unsafe-All s)
    | inr miss ↦ rw miss (miss, replace_unsafe-All s)
  ]

chosen :
    (P : ℕ → Type 0) (short id : Text)
    → All P id
    → id ≢ []
    → All P short
    → size short ≤ max_size
    → starts_in is_blank_or_dot short ≡ false
    → ends_in is_blank_or_dot short ≡ false
    → (s : Text) × (unless_empty short id ++ codes ".mp4" ≡ s ++ codes ".mp4")
      × (s ≢ [])
      × All P s
      × ((s ≡ id)
          ⊎ ((size s ≤ max_size)
              × (starts_in is_blank_or_dot s ≡ false)
              × (ends_in is_blank_or_dot s ≡ false)))
chosen P [] id safe nonempty all small starts ends = (id, refl, nonempty, safe, inl refl)
chosen P (r ∷ s) id safe nonempty all small starts ends =
    (r ∷ s, refl, λ e. cc, all, inr (small, starts, ends))

-- If the underscore is no control character, and the ID is not empty and has no unsafe character,
-- the file name is a text, not empty and without unsafe characters, before .mp4, which is the ID or
-- has at most 180 bytes and neither starts nor ends with a space or a dot.
pub safe_filename_safe :
    (is_control : ℕ → Bool) (title id : Text)
    → is_control b'_' ≡ false
    → All (λ r. is_unsafe is_control r ≡ false) id
    → id ≢ []
    → (s : Text) × (safe_filename is_control title id ≡ s ++ codes ".mp4")
      × (s ≢ [])
      × All (λ r. is_unsafe is_control r ≡ false) s
      × ((s ≡ id)
          ⊎ ((size s ≤ max_size)
              × (starts_in is_blank_or_dot s ≡ false)
              × (ends_in is_blank_or_dot s ≡ false)))
unfolding safe_filename stem
safe_filename_safe is_control title id underscore safe nonempty =
    let first = trim is_blank_dot_or_break (replace_unsafe is_control title) in
    let cut = shorten (length first) first in
    let left = trim_left is_blank_or_dot cut in
    let P : ℕ → Type 0 = λ r. is_unsafe is_control r ≡ false in
    chosen P (trim_right is_blank_or_dot left) id safe nonempty
      (trim-All P is_blank_or_dot cut (
        shorten-All P (length first) first (
          trim-All P is_blank_dot_or_break (replace_unsafe is_control title)
            (replace_unsafe-All is_control underscore title))))
      (omega (
        arith,
        size-shorten-le (length first) first,
        size-trim_left-le is_blank_or_dot cut,
        size-trim_right-le is_blank_or_dot left,
      ))
      (starts-trim_right is_blank_or_dot left (starts-trim_left is_blank_or_dot cut))
      (ends-trim_right is_blank_or_dot left)
