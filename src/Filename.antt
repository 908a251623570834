-- ===== src/Filename.antt =====
-- SafeFilename of internal/app/model.go. A title is a list of runes; `is_control` is the test of the
-- package `unicode` for control characters and format modifiers.
pub mod Safe
use personal_yt_downloader.Common.{
  ℕ, zero, suc, ◌+◌, Bool, true, false, ◌||◌, List, [], ◌∷◌, ◌++◌, map, ltb, ◌==◌, if◌then◌else◌,
  length,
}
use personal_yt_downloader.Common.Text.{Text, codes, contains_byte, trim}

-- The bytes of a rune in UTF-8.
abbrev pub rune_size : ℕ → ℕ
rune_size r = if ltb r 0x80 then 1 else if ltb r 0x800 then 2 else if ltb r 0x10000 then 3 else 4

-- `len(title)`
abbrev pub size : Text → ℕ
size [] = 0
size (r ∷ s) = rune_size r + size s

abbrev pub max_size : ℕ
max_size = 180

abbrev pub separators : Text
separators = codes "\\/:*?\"<>|"

abbrev pub is_blank_or_dot : ℕ → Bool
is_blank_or_dot r = r == b' ' || r == b'.'

-- The runes of the first cutset.
abbrev pub is_blank_dot_or_break : ℕ → Bool
is_blank_dot_or_break r = is_blank_or_dot r || r == b'\t' || r == b'\n' || r == b'\r'

-- Without its last rune.
abbrev pub drop_last : Text → Text
drop_last [] = []
drop_last (r ∷ []) = []
drop_last (r ∷ q ∷ s) = r ∷ drop_last (q ∷ s)

-- The loop, on fuel.
unfoldable pub shorten : ℕ → Text → Text
shorten zero s = s
shorten (suc fuel) s =
    let rest = shorten fuel (drop_last s) in if ltb max_size (size s) then rest else s

-- The text, or the id in the place of an empty one.
abbrev pub unless_empty : Text → Text → Text
unless_empty [] id = id
unless_empty (r ∷ s) id = r ∷ s

module _ (is_control : ℕ → Bool) where
  unfoldable pub is_unsafe : ℕ → Bool
  is_unsafe r = is_control r || contains_byte r separators

  unfoldable pub replace_unsafe : Text → Text
  unfolding is_unsafe
  replace_unsafe [] = []
  replace_unsafe (r ∷ s) = (if is_unsafe r then b'_' else r) ∷ replace_unsafe s

  -- What stands before the extension; the fuel is the number of runes.
  unfoldable pub stem : Text → Text → Text
  unfolding replace_unsafe shorten
  stem title id =
      let first = trim is_blank_dot_or_break (replace_unsafe title) in
      let short = trim is_blank_or_dot (shorten (length first) first) in unless_empty short id

  unfoldable pub safe_filename : Text → Text → Text
  unfolding stem
  safe_filename title id = stem title id ++ codes ".mp4"
