-- ===== src/Password.antt =====
-- The password and the API token of internal/app/auth.go: hashPassword, verifyPassword, splitPHC,
-- fingerprintPassword and Auth. Text is a list of bytes.
-- What `crypto`, `encoding/base64` and `fmt` do is an argument, with its documented behaviour as a
-- hypothesis where a theorem relies on it.
pub mod Phc
pub mod Credentials
use personal_yt_downloader.Common.{
  ℕ, zero, suc, ◌*◌, ◌≡◌, Bool, true, false, ◌&&◌, ◌||◌, not, Option, none, some, List, [], ◌∷◌,
  ◌++◌, ◌==◌, if◌then◌else◌, length,
}
use personal_yt_downloader.Common.Text.{Text, codes, text_eq, cut, contains_byte}

-- What the code uses of other packages.
pub record Crypto : Type 0 where
  -- `argon2.IDKey(password, salt, time, memory, threads, keyLen)`
  pub id_key : Text → Text → ℕ → ℕ → ℕ → ℕ → Text
  -- `base64.RawStdEncoding`
  pub encode : Text → Text
  pub decode : Text → Option Text
  -- The hex digits of a SHA-256 digest: `hashToken`.
  pub hash_token : Text → Text
  -- `%d`
  pub print : ℕ → Text
  -- `fmt.Sscanf` of the four numbers of the header: version, memory, time, threads.
  pub scan_header : Text → Option (ℕ × ℕ × ℕ × ℕ)

abbrev pub argon_time : ℕ
argon_time = 2

abbrev pub argon_memory : ℕ
argon_memory = 64 * 1024

abbrev pub argon_threads : ℕ
argon_threads = 4

abbrev pub argon_key_len : ℕ
argon_key_len = 32

-- `argon2.Version`
abbrev pub argon_version : ℕ
argon_version = 0x13

-- From the fourth dollar on: the salt and what follows the next dollar, or the salt alone.
unfoldable pub salt_and_hash : Text → List Text
salt_and_hash rest = elim (cut b'$' rest) [
  | none ↦ rest ∷ []
  | some (salt, hash) ↦ salt ∷ hash ∷ []
]

-- The loop, with the number of dollars to skip before the fourth.
unfoldable pub split_from : ℕ → Text → List Text
unfolding salt_and_hash
split_from fields [] = []
split_from zero (c ∷ s) =
    let again = split_from zero s in if c == b'$' then salt_and_hash s else again
split_from (suc fields) (c ∷ s) = elim (c == b'$') [
  | true ↦ split_from fields s
  | false ↦ split_from (suc fields) s
]

unfoldable pub split_phc : Text → List Text
unfolding split_from
split_phc encoded = split_from 3 encoded

module _ (c : Crypto) where
  abbrev pub header : ℕ → ℕ → ℕ → ℕ → Text
  header version memory time threads =
      codes "$argon2id$v="
      ++ c.print version
      ++ codes "$m="
      ++ c.print memory
      ++ codes ",t="
      ++ c.print time
      ++ codes ",p="
      ++ c.print threads
      ++ codes "$"

  -- `salt` is what `rand.Read` fills, or none if it fails.
  unfoldable pub hash_password : Option Text → Text → Option Text
  hash_password none password = none
  hash_password (some salt) password =
      let key = c.id_key password salt argon_time argon_memory argon_threads argon_key_len in
      some (
        header argon_version argon_memory argon_time argon_threads
        ++ c.encode salt
        ++ codes "$"
        ++ c.encode key)

  -- The key derived with the parameters of the header is compared with the stored one.
  unfoldable pub compare_key : Text → ℕ → ℕ → ℕ → Option Text → Option Text → Bool
  compare_key password memory time threads (some salt) (some want) =
      text_eq (c.id_key password salt time memory threads (length want)) want
  compare_key password memory time threads _ _ = false

  unfoldable pub check_segments : Text → ℕ → ℕ → ℕ → List Text → Bool
  unfolding compare_key
  check_segments password memory time threads (salt ∷ hash ∷ []) =
      compare_key password memory time threads (c.decode salt) (c.decode hash)
  check_segments password memory time threads _ = false

  unfoldable pub verify_with : Text → Text → Option (ℕ × ℕ × ℕ × ℕ) → Bool
  unfolding check_segments split_phc
  verify_with encoded password none = false
  verify_with encoded password (some (version, memory, time, threads)) =
      if not (version == argon_version) || memory == 0 || time == 0 || threads == 0
      then false
      else check_segments password memory time threads (split_phc encoded)

  unfoldable pub verify_password : Text → Text → Bool
  unfolding verify_with
  verify_password encoded password = verify_with encoded password (c.scan_header encoded)

  abbrev pub fingerprint_salt : Text
  fingerprint_salt = codes "personal-yt-downloader/fp/v1"

  unfoldable pub fingerprint_password : Text → Text
  fingerprint_password password =
      c.hash_token
        (c.id_key password fingerprint_salt argon_time argon_memory argon_threads argon_key_len)

pub record Auth : Type 0 where
  pub hash : Text
  pub fp : Text
  pub api_token_hash : Text

unfoldable pub is_empty : Text → Bool
is_empty [] = true
is_empty (c ∷ s) = false

module _ (c : Crypto) where
  -- None if the code panics because there is no randomness.
  unfoldable pub new_auth : Option Text → Text → Text → Option Auth
  unfolding is_empty hash_password fingerprint_password
  new_auth salt password api_token = elim (hash_password c salt password) [
    | none ↦ none
    | some encoded ↦ some record {
      hash = encoded;
      fp = fingerprint_password c password;
      api_token_hash = if is_empty api_token then [] else c.hash_token api_token;
    }
  ]

  unfoldable pub verify : Auth → Text → Bool
  unfolding is_empty verify_password
  verify a password = not (is_empty a.hash) && verify_password c a.hash password

  unfoldable pub verify_api_token : Auth → Text → Bool
  unfolding is_empty
  verify_api_token a token =
      not (is_empty a.api_token_hash) && text_eq (c.hash_token token) a.api_token_hash

abbrev pub fingerprint : Auth → Text
fingerprint a = a.fp
