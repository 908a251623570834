-- ===== src/Common/Text.antt =====
-- Text as the list of its bytes, or of its runes, with the functions of the Go package `strings` that
-- the code uses.
use Prim.Native.Nat.{ℕ}
use Prim.Native.Char.{code}
use Prim.Native.String.{String}
use mathlib.Core.Path.{◌≡◌, refl}
use mathlib.Core.Logic.{◌↔◌}
use mathlib.Core.Bool.{Bool, true, false, ◌&&◌, ◌||◌}
use mathlib.Core.Option.{Option, none, some}
use mathlib.Core.List.{List, [], ◌∷◌, ◌++◌}
use native.Mathlib.Omega.{arith}
use personal_yt_downloader.Common.Tests.{◌==◌, leb, if◌then◌else◌}

abbrev pub Text : Type 0
Text = List ℕ

-- The code points of a text.
abbrev pub codes : String → Text
codes String.[] = []
codes (String.◌∷◌ c s) = code c ∷ codes s

unfoldable pub text_eq : Text → Text → Bool
text_eq [] [] = true
text_eq [] (d ∷ t) = false
text_eq (c ∷ s) [] = false
text_eq (c ∷ s) (d ∷ t) = (c == d) && text_eq s t

pub text_eq_iff : (s t : Text) → (text_eq s t ≡ true) ↔ (s ≡ t)
unfolding text_eq
text_eq_iff [] [] = ground arith
text_eq_iff [] (d ∷ t) = ground arith
text_eq_iff (c ∷ s) [] = ground arith
text_eq_iff (c ∷ s) (d ∷ t) = ground (arith, text_eq_iff s t)

pub text_eq_refl : (s : Text) → text_eq s s ≡ true
text_eq_refl s = (text_eq_iff s s).1 refl

-- `strings.HasPrefix(s, p)`
abbrev pub has_prefix : Text → Text → Bool
has_prefix s [] = true
has_prefix [] (d ∷ p) = false
has_prefix (c ∷ s) (d ∷ p) = (c == d) && has_prefix s p

-- `strings.TrimPrefix(s, string(c))`
abbrev pub trim_prefix : ℕ → Text → Text
trim_prefix c [] = []
trim_prefix c (d ∷ s) = if c == d then s else d ∷ s

-- `strings.TrimSuffix(s, string(c))`
abbrev pub trim_suffix : ℕ → Text → Text
trim_suffix c [] = []
trim_suffix c (d ∷ []) = if c == d then [] else d ∷ []
trim_suffix c (d ∷ e ∷ s) = d ∷ trim_suffix c (e ∷ s)

-- The first piece and the others, on one separator.
abbrev pub prepend : ℕ → List Text → List Text
prepend c [] = (c ∷ []) ∷ []
prepend c (piece ∷ pieces) = (c ∷ piece) ∷ pieces

-- `strings.Split(s, string(sep))`
abbrev pub split : ℕ → Text → List Text
split sep [] = [] ∷ []
split sep (c ∷ s) = let rest = split sep s in if c == sep then [] ∷ rest else prepend c rest

-- `strings.IndexByte(s, sep)`: what stands before the first separator, and behind it.
abbrev pub cut : ℕ → Text → Option (Text × Text)
cut sep [] = none
cut sep (c ∷ s) =
    let rest = cut sep s in
    if c == sep then some ([], s) else elim rest [ none ↦ none | some (a, b) ↦ some (c ∷ a, b) ]

abbrev pub contains_byte : ℕ → Text → Bool
contains_byte b [] = false
contains_byte b (c ∷ s) = (c == b) || contains_byte b s

-- `strings.TrimLeft` and `strings.TrimRight`, by a test on the runes of the cutset.
abbrev pub trim_left : (ℕ → Bool) → Text → Text
trim_left p [] = []
trim_left p (c ∷ s) = let rest = trim_left p s in if p c then rest else c ∷ s

abbrev pub keep_unless_empty : (ℕ → Bool) → ℕ → Text → Text
keep_unless_empty p c [] = if p c then [] else c ∷ []
keep_unless_empty p c (d ∷ s) = c ∷ d ∷ s

abbrev pub trim_right : (ℕ → Bool) → Text → Text
trim_right p [] = []
trim_right p (c ∷ s) = keep_unless_empty p c (trim_right p s)

-- `strings.Trim`
abbrev pub trim : (ℕ → Bool) → Text → Text
trim p s = trim_right p (trim_left p s)

-- The runes that `unicode.IsSpace` accepts.
unfoldable pub is_space : ℕ → Bool
is_space r =
    (leb 9 r && leb r 13)
    || r == 0x20
    || r == 0x85
    || r == 0xA0
    || r == 0x1680
    || (leb 0x2000 r && leb r 0x200A)
    || r == 0x2028
    || r == 0x2029
    || r == 0x202F
    || r == 0x205F
    || r == 0x3000

-- `strings.TrimSpace`
abbrev pub trim_space : Text → Text
trim_space s = trim is_space s

pub has_prefix-append : (p s : Text) → has_prefix (p ++ s) p ≡ true
has_prefix-append [] s = refl
has_prefix-append (c ∷ p) s = ground (arith, has_prefix-append p s)

-- A text without the separator is its own only piece, and is cut off whole in front of one.
pub split-piece : (sep : ℕ) (s : Text) → contains_byte sep s ≡ false → split sep s ≡ s ∷ []
split-piece sep [] h = refl
split-piece sep (c ∷ s) h = ground (arith, split-piece sep s)

pub split-append :
    (sep : ℕ) (s t : Text)
    → contains_byte sep s ≡ false
    → split sep (s ++ sep ∷ t) ≡ s ∷ split sep t
split-append sep [] t h = ground arith
split-append sep (c ∷ s) t h = ground (arith, split-append sep s t)

pub cut-append :
    (sep : ℕ) (s t : Text) → contains_byte sep s ≡ false → cut sep (s ++ sep ∷ t) ≡ some (s, t)
cut-append sep [] t h = ground arith
cut-append sep (c ∷ s) t h = ground (arith, cut-append sep s t)

-- One separator at the end is trimmed, and none behind a piece without it.
pub trim_suffix-append : (sep : ℕ) (s : Text) → trim_suffix sep (s ++ sep ∷ []) ≡ s
trim_suffix-append sep [] = ground arith
trim_suffix-append sep (c ∷ []) = ground arith
trim_suffix-append sep (c ∷ d ∷ s) = ground (arith, trim_suffix-append sep (d ∷ s))

pub trim_suffix-piece : (sep : ℕ) (s : Text) → contains_byte sep s ≡ false → trim_suffix sep s ≡ s
trim_suffix-piece sep [] h = refl
trim_suffix-piece sep (c ∷ []) h = ground arith
trim_suffix-piece sep (c ∷ d ∷ s) h = ground (arith, trim_suffix-piece sep (d ∷ s))

pub trim_suffix-tail :
    (sep c : ℕ) (s t : Text)
    → contains_byte sep (c ∷ t) ≡ false
    → trim_suffix sep (s ++ c ∷ t) ≡ s ++ c ∷ t
trim_suffix-tail sep c [] t h = trim_suffix-piece sep (c ∷ t) h
trim_suffix-tail sep c (d ∷ []) t h = ground (arith, trim_suffix-piece sep (c ∷ t))
trim_suffix-tail sep c (d ∷ e ∷ s) t h = ground (arith, trim_suffix-tail sep c (e ∷ s) t)
