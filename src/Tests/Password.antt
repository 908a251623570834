-- ===== src/Tests/Password.antt =====
-- Credentials at concrete inputs, with stand-ins for the cryptographic packages.
use personal_yt_downloader.Common.{
  ℕ, zero, suc, ◌+◌, ◌-◌, ◌≡◌, refl, ◌≢◌, ◌↔◌, true, false, Option, none, some, [], ◌∷◌, ◌++◌,
  length, ap, arith,
}
use personal_yt_downloader.Common.Text.{Text, codes, split, contains_byte}
use personal_yt_downloader.Password.{
  Crypto, header, hash_password, split_phc, fingerprint_password, Auth, is_empty, new_auth, verify,
  verify_api_token, fingerprint,
}
use personal_yt_downloader.Password.Phc.{behind, split_phc_lem}
use personal_yt_downloader.Password.Credentials.{IsCrypto, derived, new_auth_accepts}

-- The first n of the text, filled up with zeros.
abbrev padded : ℕ → Text → Text
padded zero s = []
padded (suc n) [] = 0 ∷ padded n []
padded (suc n) (c ∷ s) = c ∷ padded n s

length-padded : (n : ℕ) (s : Text) → length (padded n s) ≡ n
length-padded zero s = refl
length-padded (suc n) [] = ap suc (length-padded n [])
length-padded (suc n) (c ∷ s) = ap suc (length-padded n s)

abbrev raised : Text → Text
raised [] = []
raised (c ∷ s) = (100 + c) ∷ raised s

abbrev lowered : Text → Text
lowered [] = []
lowered (c ∷ s) = (c - 100) ∷ lowered s

-- The four numbers stand at fixed places, since each is printed as one character.
abbrev scan : Text → Option (ℕ × ℕ × ℕ × ℕ)
scan
      (_ ∷ _ ∷ _ ∷ _ ∷ _ ∷ _ ∷ _ ∷ _ ∷ _ ∷ _ ∷ _ ∷ _ ∷ v ∷ _ ∷ _ ∷ _ ∷ m ∷ _ ∷ _ ∷ _ ∷ t ∷ _ ∷ _ ∷ _
        ∷ p ∷ s) =
    some (v - 100, m - 100, t - 100, p - 100)
scan _ = none

abbrev crypto : Crypto
crypto = record {
  id_key = λ password salt time memory threads n. padded n (password ++ salt);
  encode = raised;
  decode = λ s. some (lowered s);
  hash_token = λ s. 7 ∷ s;
  print = λ n. (100 + n) ∷ [];
  scan_header = scan;
}

raised-piece : (s : Text) → contains_byte b'$' (raised s) ≡ false
raised-piece [] = refl
raised-piece (c ∷ s) = ground (arith, raised-piece s)

lowered-raised : (s : Text) → lowered (raised s) ≡ s
lowered-raised [] = refl
lowered-raised (c ∷ s) = ground (arith, lowered-raised s)

crypto-IsCrypto : IsCrypto crypto
crypto-IsCrypto = record {
  encode-piece = raised-piece;
  decode-encode = λ s. ap some (lowered-raised s);
  length-id_key = λ password salt time memory threads n h k. length-padded n (password ++ salt);
  print-piece = λ n. ground arith;
  scan_header-header = λ version memory time threads s h k l m. ground arith;
  digest_nonempty = λ s e. cc;
}

program : Unit {0}
unfolding hash_password fingerprint_password is_empty new_auth
program = tt

-- The credentials that the stand-ins make.
abbrev auth : Auth
auth = record {
  hash =
      header crypto 19 65536 2 4
      ++ raised (codes "salt")
      ++ codes "$"
      ++ raised (padded 32 (codes "secretsalt"));
  fp = 7 ∷ padded 32 (codes "secretpersonal-yt-downloader/fp/v1");
  api_token_hash = 7 ∷ codes "token";
}

made : new_auth crypto (some (codes "salt")) (codes "secret") (codes "token") ≡ some auth
unfolding program
made = refl

new_auth_accepts_example :
    ((verify crypto auth (codes "secret") ≡ true) ↔ (
      derived crypto crypto-IsCrypto (codes "secret") (codes "salt")
      ≡ derived crypto crypto-IsCrypto (codes "secret") (codes "salt")))
    × ((verify_api_token crypto auth (codes "token") ≡ true) ↔ (
        (codes "token" ≢ [])
        × (crypto.hash_token (codes "token") ≡ crypto.hash_token (codes "token"))))
    × (fingerprint auth ≡ fingerprint_password crypto (codes "secret"))
new_auth_accepts_example =
    new_auth_accepts crypto crypto-IsCrypto (codes "salt") (codes "secret") (codes "token")
      (codes "secret") (codes "token") auth made

abbrev phc : Text
phc = codes "$argon2id$v=19$m=65536,t=2,p=4$c2FsdA$aGFzaA"

split_phc_lem_example : split_phc phc ≡ behind 3 (split b'$' phc)
split_phc_lem_example = split_phc_lem phc
