-- ===== src/Password/Phc.antt =====
-- splitPHC (internal/app/auth.go) against the pieces between the dollars.
use personal_yt_downloader.Common.{
  ℕ, zero, suc, ◌≡◌, refl, none, some, List, [], ◌∷◌, ◌++◌, ◌==◌, Bool-cases, arith, inl, inr,
}
use personal_yt_downloader.Common.Text.{Text, split, prepend, cut}
use personal_yt_downloader.Password.{salt_and_hash, split_from, split_phc}

-- The pieces, put together again with dollars.
abbrev pub join : List Text → Text
join [] = []
join (a ∷ []) = a
join (a ∷ b ∷ pieces) = a ++ b'$' ∷ join (b ∷ pieces)

-- The first of the pieces, and the rest put together.
abbrev pub head_and_rest : List Text → List Text
head_and_rest [] = []
head_and_rest (salt ∷ []) = salt ∷ []
head_and_rest (salt ∷ p ∷ pieces) = salt ∷ join (p ∷ pieces) ∷ []

abbrev pub behind : ℕ → List Text → List Text
behind n [] = []
behind zero (p ∷ pieces) = head_and_rest pieces
behind (suc n) (p ∷ pieces) = behind n pieces

prepend_cons :
    (c : ℕ) (pieces : List Text) → (p : Text) × (rest : List Text) × (prepend c pieces ≡ p ∷ rest)
prepend_cons c [] = (c ∷ [], [], refl)
prepend_cons c (p ∷ pieces) = (c ∷ p, pieces, refl)

split_cons : (sep : ℕ) (s : Text) → (p : Text) × (rest : List Text) × (split sep s ≡ p ∷ rest)
split_cons sep [] = ([], [], refl)
split_cons sep (c ∷ s) = elim (Bool-cases (c == sep)) [
  | inl hit ↦ ([], split sep s, rw hit refl)
  | inr miss ↦ rw miss (prepend_cons c (split sep s))
]

join-prepend :
    (c : ℕ) (p : Text) (pieces : List Text) → join (prepend c (p ∷ pieces)) ≡ c ∷ join (p ∷ pieces)
join-prepend c p [] = refl
join-prepend c p (q ∷ pieces) = refl

-- A separator in front is an empty first piece.
join-split : (s : Text) → join (split b'$' s) ≡ s
join-split [] = refl
join-split (c ∷ s) =
    let (p, rest, e) = split_cons b'$' s in
    let again = join-split s in ground (arith, e, again, join-prepend c p rest)

cut-split :
    (s : Text)
    → (elim (cut b'$' s) [ none ↦ s ∷ [] | some (salt, hash) ↦ salt ∷ hash ∷ [] ])
      ≡ head_and_rest (split b'$' s)
cut-split [] = refl
cut-split (c ∷ s) =
    let (p, rest, e) = split_cons b'$' s in
    let again = cut-split s in ground (arith, e, again, join-split s)

salt_and_hash_lem : (s : Text) → salt_and_hash s ≡ head_and_rest (split b'$' s)
unfolding salt_and_hash
salt_and_hash_lem s = cut-split s

behind-prepend :
    (n c : ℕ) (p : Text) (pieces : List Text)
    → behind n (prepend c (p ∷ pieces)) ≡ behind n (p ∷ pieces)
behind-prepend zero c p pieces = refl
behind-prepend (suc n) c p pieces = refl

split_from_lem : (n : ℕ) (s : Text) → split_from n s ≡ behind n (split b'$' s)
unfolding split_from
split_from_lem zero [] = refl
split_from_lem (suc n) [] = refl
split_from_lem zero (c ∷ s) =
    let (p, rest, e) = split_cons b'$' s in
    ground (arith, e, split_from_lem zero s, salt_and_hash_lem s, behind-prepend zero c p rest)
split_from_lem (suc n) (c ∷ s) =
    let (p, rest, e) = split_cons b'$' s in
    ground (arith, e, split_from_lem n s, split_from_lem (suc n) s, behind-prepend (suc n) c p rest)

-- SplitPHC yields nothing for a text with less than four dollars, and otherwise the piece behind
-- the fourth dollar and, if there is a fifth, all that stands behind it: what strings.Split and
-- strings.Join would make of the pieces.
pub split_phc_lem : (encoded : Text) → split_phc encoded ≡ behind 3 (split b'$' encoded)
unfolding split_phc
split_phc_lem encoded = split_from_lem 3 encoded
