-- ===== src/Password/Credentials.antt =====
-- Which passwords and tokens Auth (internal/app/auth.go) accepts.
use personal_yt_downloader.Common.{
  ℕ, zero, suc, ◌≡◌, refl, sym, ◌≢◌, ◌↔◌, true, false, ◌||◌, some, [], ◌∷◌, ◌++◌, if◌then◌else◌,
  length, inl, inr, arith, ◌≤◌, ◌<◌, ◌^◌, ap, ◌∙◌, subst, ◌⊎◌,
}
use personal_yt_downloader.Common.Text.{
  Text, codes, text_eq, text_eq_iff, contains_byte, cut-append,
}
use mathlib.Core.List.{append_assoc}
use personal_yt_downloader.Password.{
  Crypto, argon_time, argon_memory, argon_threads, argon_key_len, argon_version, salt_and_hash,
  split_from, split_phc, header, hash_password, compare_key, check_segments, verify_with,
  verify_password, fingerprint_password, Auth, is_empty, new_auth, verify, verify_api_token,
  fingerprint,
}

-- What the packages document: base64 has no dollar and is decoded to what was encoded, a key has the
-- length that was asked for, a printed number has no dollar, a header that was printed from
-- numbers of the scanned widths is scanned to them, and the hex digits of a digest are not empty.
pub record IsCrypto (c : Crypto) : Type 0 where
  pub encode-piece : (s : Text) → contains_byte b'$' (c.encode s) ≡ false
  pub decode-encode : (s : Text) → c.decode (c.encode s) ≡ some s
  pub length-id_key :
      (password salt : Text) (time memory threads n : ℕ)
      → 1 ≤ time
      → 1 ≤ threads
      → length (c.id_key password salt time memory threads n) ≡ n
  pub print-piece : (n : ℕ) → contains_byte b'$' (c.print n) ≡ false
  pub scan_header-header :
      (version memory time threads : ℕ) (s : Text)
      → version < 2 ^ 63
      → memory < 2 ^ 32
      → time < 2 ^ 32
      → threads < 2 ^ 8
      → c.scan_header (header c version memory time threads ++ s)
        ≡ some (version, memory, time, threads)
  pub digest_nonempty : (s : Text) → c.hash_token s ≢ []

List-cases : (s : Text) → (s ≡ []) ⊎ ((c : ℕ) × (rest : Text) × (s ≡ c ∷ rest))
List-cases [] = inl refl
List-cases (c ∷ rest) = inr (c, rest, refl)

-- A piece without a dollar is skipped, and a dollar counts.
skip_piece :
    (n : ℕ) (p s : Text)
    → contains_byte b'$' p ≡ false
    → split_from n (p ++ b'$' ∷ s) ≡ split_from n (b'$' ∷ s)
unfolding split_from
skip_piece n [] s h = refl
skip_piece zero (c ∷ p) s h = ground (arith, skip_piece zero p s)
skip_piece (suc n) (c ∷ p) s h = ground (arith, skip_piece (suc n) p s)

contains-append :
    (b : ℕ) (s t : Text) → contains_byte b (s ++ t) ≡ (contains_byte b s || contains_byte b t)
contains-append b [] t = refl
contains-append b (d ∷ s) t = ground (arith, contains-append b s t)

abbrev version_piece : Crypto → ℕ → Text
version_piece c version = codes "v=" ++ c.print version

abbrev cost_piece : Crypto → ℕ → ℕ → ℕ → Text
cost_piece c memory time threads =
    codes "m=" ++ c.print memory ++ codes ",t=" ++ c.print time ++ codes ",p=" ++ c.print threads

module _ (c : Crypto) (laws : IsCrypto c) where
  header_lem :
      (version memory time threads : ℕ) (s : Text)
      → header c version memory time threads ++ s
        ≡ b'$'
          ∷ (codes "argon2id"
              ++ b'$'
                ∷ (version_piece c version
                    ++ b'$' ∷ (cost_piece c memory time threads ++ b'$' ∷ s)))
  header_lem version memory time threads s = simp append_assoc

  pieces_clean :
      (version memory time threads : ℕ)
      → (contains_byte b'$' (version_piece c version) ≡ false)
        × (contains_byte b'$' (cost_piece c memory time threads) ≡ false)
  pieces_clean version memory time threads = simp (contains-append, laws.print-piece) (refl, refl)

  split_phc-header :
      (version memory time threads : ℕ) (s : Text)
      → split_phc (header c version memory time threads ++ s) ≡ salt_and_hash s
  unfolding split_phc split_from
  split_phc-header version memory time threads s =
      let (clean_version, clean_cost) = pieces_clean version memory time threads in
      let cost = cost_piece c memory time threads in
      ap (split_from 3) (header_lem version memory time threads s)
      ∙ skip_piece 1 (version_piece c version) (cost ++ b'$' ∷ s) clean_version
      ∙ skip_piece 0 cost s clean_cost

  salt_and_hash-append :
      (salt key : Text)
      → salt_and_hash (c.encode salt ++ codes "$" ++ c.encode key)
        ≡ c.encode salt ∷ c.encode key ∷ []
  unfolding salt_and_hash
  salt_and_hash-append salt key =
      let e = append_assoc (c.encode salt) (codes "$") (c.encode key) in
      let found = cut-append b'$' (c.encode salt) (c.encode key) (laws.encode-piece salt) in
      subst (λ x. salt_and_hash x ≡ c.encode salt ∷ c.encode key ∷ []) (sym e)
        (rw (salt_and_hash, found) refl)

  -- The key of the configured parameters.
  abbrev pub derived : Text → Text → Text
  derived password salt = c.id_key password salt argon_time argon_memory argon_threads argon_key_len

  compare_lem :
      (salt key presented : Text)
      → check_segments c presented argon_memory argon_time argon_threads
          (c.encode salt ∷ c.encode key ∷ [])
        ≡ text_eq (c.id_key presented salt argon_time argon_memory argon_threads (length key)) key
  unfolding check_segments compare_key
  compare_lem salt key presented = rw (laws.decode-encode salt, laws.decode-encode key) refl

  verify_password_lem :
      (salt key presented tail : Text)
      → tail ≡ c.encode salt ++ codes "$" ++ c.encode key
      → verify_password c
          (header c argon_version argon_memory argon_time argon_threads ++ tail)
          presented
        ≡ text_eq (c.id_key presented salt argon_time argon_memory argon_threads (length key)) key
  unfolding verify_password verify_with
  verify_password_lem salt key presented tail e =
      let encoded = header c argon_version argon_memory argon_time argon_threads ++ tail in
      let scanned =
        laws.scan_header-header argon_version argon_memory argon_time argon_threads tail
          (omega arith) (omega arith) (omega arith) (omega arith) in
      let parts : split_phc encoded ≡ c.encode salt ∷ c.encode key ∷ [] =
        split_phc-header argon_version argon_memory argon_time argon_threads tail
        ∙ ap salt_and_hash e
        ∙ salt_and_hash-append salt key in
      ap (verify_with c encoded presented) scanned
      ∙ ap (check_segments c presented argon_memory argon_time argon_threads) parts
      ∙ compare_lem salt key presented

  -- The string that is kept for the password.
  abbrev kept : Text → Text → Text
  kept salt password =
      header c argon_version argon_memory argon_time argon_threads
      ++ c.encode salt
      ++ codes "$"
      ++ c.encode (derived password salt)

  verify-kept :
      (salt password presented : Text)
      → verify_password c (kept salt password) presented
        ≡ text_eq (derived presented salt) (derived password salt)
  verify-kept salt password presented =
      let key = derived password salt in
      let tail = c.encode salt ++ codes "$" ++ c.encode key in
      let whole = header c argon_version argon_memory argon_time argon_threads in
      let assoc : kept salt password ≡ whole ++ tail = simp append_assoc in
      let size =
        laws.length-id_key password salt argon_time argon_memory argon_threads argon_key_len
          (omega arith) (omega arith) in
      ap (λ encoded. verify_password c encoded presented) assoc
      ∙ verify_password_lem salt key presented tail refl
      ∙ ap (λ n. text_eq (c.id_key presented salt argon_time argon_memory argon_threads n) key) size

  abbrev configured : Text → Text → Text → Auth
  configured salt password api_token = record {
    hash = kept salt password;
    fp = fingerprint_password c password;
    api_token_hash = if is_empty api_token then [] else c.hash_token api_token;
  }

  new_auth_lem :
      (salt password api_token : Text)
      → new_auth c (some salt) password api_token ≡ some (configured salt password api_token)
  unfolding new_auth hash_password
  new_auth_lem salt password api_token = refl

  token-configured :
      (salt password api_token token : Text)
      → (verify_api_token c (configured salt password api_token) token ≡ true)
        ↔ ((api_token ≢ []) × (c.hash_token token ≡ c.hash_token api_token))
  unfolding verify_api_token is_empty
  token-configured salt password [] token = ground arith
  token-configured salt password (d ∷ rest) token = elim (List-cases (c.hash_token (d ∷ rest))) [
    | inl none_left ↦ absurd (laws.digest_nonempty (d ∷ rest) none_left)
    | inr (b, bytes, e) ↦
        ground (arith, e, text_eq_iff (c.hash_token token) (c.hash_token (d ∷ rest)))
  ]

  -- Given that base64, argon2id, the printed numbers and Sscanf behave as documented, an Auth made
  -- with a salt accepts a password exactly if argon2id derives the same key from it as from the
  -- configured one, accepts a token exactly if there is a configured one and the digests agree, and
  -- has the fingerprint of the configured password.
  pub new_auth_accepts :
      (salt password api_token presented token : Text) (a : Auth)
      → new_auth c (some salt) password api_token ≡ some a
      → ((verify c a presented ≡ true) ↔ (derived presented salt ≡ derived password salt))
        × ((verify_api_token c a token ≡ true)
            ↔ ((api_token ≢ []) × (c.hash_token token ≡ c.hash_token api_token)))
        × (fingerprint a ≡ fingerprint_password c password)
  unfolding verify is_empty
  new_auth_accepts salt password api_token presented token a h =
      let e : configured salt password api_token ≡ a =
        ground (arith, h, new_auth_lem salt password api_token) in
      subst
        (λ a.
          ((verify c a presented ≡ true) ↔ (derived presented salt ≡ derived password salt))
          × ((verify_api_token c a token ≡ true)
              ↔ ((api_token ≢ []) × (c.hash_token token ≡ c.hash_token api_token)))
          × (fingerprint a ≡ fingerprint_password c password))
        e
        (
          ground (
            arith,
            verify-kept salt password presented,
            text_eq_iff (derived presented salt) (derived password salt),
          ),
          token-configured salt password api_token token,
          refl,
        )
