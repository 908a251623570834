-- ===== src/Common/Maps.antt =====
-- A Go `map[string]V` as the list of its entries, in the order in which a `range` loop visits them.
use Prim.Native.Nat.{◌+◌, ◌≤◌, ◌<◌}
use Prim.Native.String.{String}
use mathlib.Core.Path.{◌≡◌, refl, subst₂}
use mathlib.Core.Logic.{◌≢◌, inl, inr}
use mathlib.Core.Bool.{Bool, true}
use mathlib.Core.Option.{Option, none, some}
use mathlib.Core.List.{List, [], ◌∷◌}
use native.Mathlib.Omega.{arith}
use text.Mathlib.Text.{◌==◌ as str_eq}
use text.Mathlib.TextEquality.{eq_iff}
use personal_yt_downloader.Common.Tests.{if◌then◌else◌, Bool-cases}
use personal_yt_downloader.Common.Lists.{length, All}

abbrev pub Map {ℓ} : Type ℓ → Type ℓ
Map V = List (String × V)

module _ {ℓ} {V : Type ℓ} where
  -- `m[k]`, with the presence flag as `none` or `some`.
  unfoldable pub lookup : String → Map V → Option V
  lookup k [] = none
  lookup k ((j, v) ∷ m) = if str_eq j k then some v else lookup k m

  -- `m[k] = v`
  unfoldable pub put : String → V → Map V → Map V
  put k v [] = (k, v) ∷ []
  put k v ((j, w) ∷ m) = if str_eq j k then (k, v) ∷ m else (j, w) ∷ put k v m

  -- `delete(m, k)`
  unfoldable pub delete : String → Map V → Map V
  delete k [] = []
  delete k ((j, w) ∷ m) = if str_eq j k then delete k m else (j, w) ∷ delete k m

  -- A loop over the map that deletes the entries failing the test.
  unfoldable pub retain : (V → Bool) → Map V → Map V
  retain p [] = []
  retain p ((j, w) ∷ m) = if p w then (j, w) ∷ retain p m else retain p m

  abbrev pub values : Map V → List V
  values [] = []
  values ((j, w) ∷ m) = w ∷ values m

  -- No key twice, as in any Go map.
  abbrev pub Distinct : Map V → Type ℓ
  Distinct [] = Unit
  Distinct ((j, w) ∷ m) = (lookup j m ≡ none) × Distinct m

module _ {ℓ} {V : Type ℓ} where
  pub lookup-put :
      (k j : String) (v : V) (m : Map V)
      → lookup j (put k v m) ≡ (if str_eq k j then some v else lookup j m)
  unfolding lookup put
  lookup-put k j v [] = refl
  lookup-put k j v ((i, w) ∷ m) =
      ground (arith, eq_iff k j, eq_iff i k, eq_iff i j, lookup-put k j v m)

  pub lookup-delete :
      (k j : String) (m : Map V) → lookup j (delete k m) ≡ (if str_eq k j then none else lookup j m)
  unfolding lookup delete
  lookup-delete k j [] = ground arith
  lookup-delete k j ((i, w) ∷ m) =
      ground (arith, eq_iff k j, eq_iff i k, eq_iff i j, lookup-delete k j m)

  pub lookup-retain-none :
      (p : V → Bool) (k : String) (m : Map V) → lookup k m ≡ none → lookup k (retain p m) ≡ none
  unfolding lookup retain
  lookup-retain-none p k [] h = refl
  lookup-retain-none p k ((i, w) ∷ m) h = ground (arith, lookup-retain-none p k m)

  pub lookup-retain :
      (p : V → Bool) (k : String) (m : Map V)
      → Distinct m
      → lookup k (retain p m)
        ≡ (elim (lookup k m) [ none ↦ none | some v ↦ if p v then some v else none ])
  unfolding lookup retain
  lookup-retain p k [] d = refl
  lookup-retain p k ((i, w) ∷ m) d =
      ground (arith, eq_iff i k, lookup-retain p k m d.1, lookup-retain-none p k m)

  pub put-Distinct : (k : String) (v : V) (m : Map V) → Distinct m → Distinct (put k v m)
  unfolding lookup put
  put-Distinct k v [] d = (refl, tt)
  put-Distinct k v ((i, w) ∷ m) d =
      ground (arith, eq_iff i k, eq_iff k i, put-Distinct k v m d.1, lookup-put k i v m)

  pub delete-Distinct : (k : String) (m : Map V) → Distinct m → Distinct (delete k m)
  unfolding lookup delete
  delete-Distinct k [] d = tt
  delete-Distinct k ((i, w) ∷ m) d = ground (arith, delete-Distinct k m d.1, lookup-delete k i m)

  pub retain-Distinct : (p : V → Bool) (m : Map V) → Distinct m → Distinct (retain p m)
  unfolding lookup retain
  retain-Distinct p [] d = tt
  retain-Distinct p ((i, w) ∷ m) d =
      ground (arith, retain-Distinct p m d.1, lookup-retain-none p i m)

  pub length-put-le : (k : String) (v : V) (m : Map V) → length (put k v m) ≤ length m + 1
  unfolding put
  length-put-le k v [] = omega arith
  length-put-le k v ((i, w) ∷ m) = ground (arith, length-put-le k v m)

  pub length-delete-le : (k : String) (m : Map V) → length (delete k m) ≤ length m
  unfolding delete
  length-delete-le k [] = omega arith
  length-delete-le k ((i, w) ∷ m) = ground (arith, length-delete-le k m)

  pub length-delete-lt :
      (k : String) (m : Map V) → lookup k m ≢ none → length (delete k m) < length m
  unfolding lookup delete
  length-delete-lt k [] h = absurd (h refl)
  length-delete-lt k ((i, w) ∷ m) h = ground (arith, length-delete-lt k m, length-delete-le k m)

  pub length-retain-le : (p : V → Bool) (m : Map V) → length (retain p m) ≤ length m
  unfolding retain
  length-retain-le p [] = omega arith
  length-retain-le p ((i, w) ∷ m) = ground (arith, length-retain-le p m)

module _ {ℓ κ} {V : Type ℓ} (P : String × V → Type κ) where
  pub put-All : (k : String) (v : V) (m : Map V) → P (k, v) → All P m → All P (put k v m)
  unfolding put
  put-All k v [] p h = (p, tt)
  put-All k v ((i, w) ∷ m) p h = ground (arith, put-All k v m p h.1)

  pub delete-All : (k : String) (m : Map V) → All P m → All P (delete k m)
  unfolding delete
  delete-All k [] h = tt
  delete-All k ((i, w) ∷ m) h = ground (arith, delete-All k m h.1)

  pub retain-All : (p : V → Bool) (m : Map V) → All P m → All P (retain p m)
  unfolding retain
  retain-All p [] h = tt
  retain-All p ((i, w) ∷ m) h = ground (arith, retain-All p m h.1)

module _ {ℓ κ} {V : Type ℓ} (P : String × V → Type κ) where
  -- What holds of every entry holds of the one that is found.
  pub All-lookup : (k : String) (v : V) (m : Map V) → All P m → lookup k m ≡ some v → P (k, v)
  unfolding lookup
  All-lookup k v [] h e = cc
  All-lookup k v ((i, w) ∷ m) h e = elim (Bool-cases (str_eq i k)) [
    | inl hit ↦ subst₂ (λ j x. P (j, x)) ((eq_iff i k).0 hit) (ground arith) h.0
    | inr miss ↦ All-lookup k v m h.1 (ground arith)
  ]

module _ {ℓ} {V : Type ℓ} where
  pub lookup-retain-some :
      (p : V → Bool) (k : String) (v : V) (m : Map V)
      → Distinct m
      → lookup k m ≡ some v
      → p v ≡ true
      → lookup k (retain p m) ≡ some v
  lookup-retain-some p k v m d e h = ground (arith, lookup-retain p k m d)
