-- ===== src/Startup/Checks.antt =====
-- When serve (cmd/server/main.go) comes to listen, and with which settings.
use personal_yt_downloader.Common.{
  ◌≤◌, ◌≡◌, refl, ◌≢◌, ◌↔◌, true, false, none, some, List, [], ◌∷◌, length, Option-cases, inl, inr,
  arith, ap, ◌∙◌, sym,
}
use personal_yt_downloader.Common.Text.{Text, trim_space}
use personal_yt_downloader.Password.{is_empty}
use personal_yt_downloader.Startup.{Environment, Settings, listening, start_with, serve}

is_empty-nonempty : (s : Text) → is_empty s ≡ false → s ≢ []
unfolding is_empty
is_empty-nonempty [] h e = ground (arith, h)
is_empty-nonempty (c ∷ s) h e = cc

abbrev settings_of : {Prefix : Type 0} → Environment Prefix → List Prefix → Settings Prefix
settings_of e proxies = record {
  password = e.password;
  api_token = trim_space e.api_token;
  insecure = e.insecure;
  proxies = proxies;
}

-- What the checks leave.
abbrev pub IsUsable : {Prefix : Type 0} → Environment Prefix → Type 0
IsUsable e =
    (e.makes_root ≡ true)
    × (e.password ≢ [])
    × (length e.password ≤ 1024)
    × (length (trim_space e.api_token) ≤ 1024)
    × (e.recover_err ≡ false)

nonempty-is_empty : (s : Text) → s ≢ [] → is_empty s ≡ false
unfolding is_empty
nonempty-is_empty [] h = absurd (h refl)
nonempty-is_empty (c ∷ s) h = refl

module _ {Prefix : Type 0} where
  start_with_lem :
      (e : Environment Prefix) (proxies : List Prefix) (s : Settings Prefix)
      → start_with e proxies ≡ listening s
      → IsUsable e × (s ≡ settings_of e proxies)
  unfolding start_with
  start_with_lem e proxies s h = ground (arith, h, is_empty-nonempty e.password)

  start_with_usable :
      (e : Environment Prefix) (proxies : List Prefix)
      → IsUsable e
      → start_with e proxies ≡ listening (settings_of e proxies)
  unfolding start_with
  start_with_usable e proxies h = ground (arith, h, nonempty-is_empty e.password)

  serve_cases :
      (e : Environment Prefix) (s : Settings Prefix)
      → serve e ≡ listening s
      → (e.flags_err ≡ none)
        × ((proxies : List Prefix) × (e.proxies ≡ some proxies)
            × (start_with e proxies ≡ listening s))
  unfolding serve
  serve_cases e s h = elim (Option-cases e.flags_err) [
    | inr (text, k) ↦ absurd (ground (arith, h, k))
    | inl fine ↦ elim (Option-cases e.proxies) [
      | inl k ↦ absurd (ground (arith, h, fine, k))
      | inr (proxies, k) ↦ (fine, (proxies, k, ground (arith, h, fine, k)))
    ]
  ]

  serve_starts :
      (e : Environment Prefix) (proxies : List Prefix)
      → e.flags_err ≡ none
      → e.proxies ≡ some proxies
      → serve e ≡ start_with e proxies
  unfolding serve
  serve_starts e proxies h k = ground (arith, h, k)

  -- Serve comes to listen with some settings exactly if the flags and the list of proxies parse,
  -- the data directory is there, the password has 1 to 1024 characters, the trimmed API token at
  -- most 1024, and Recover succeeds, and the settings are those values, the token trimmed.
  pub serve_iff :
      (e : Environment Prefix) (s : Settings Prefix)
      → (serve e ≡ listening s) ↔ (
          (e.flags_err ≡ none)
          × IsUsable e
          × (e.proxies ≡ some s.proxies)
          × (s.password ≡ e.password)
          × (s.api_token ≡ trim_space e.api_token)
          × (s.insecure ≡ e.insecure))
  serve_iff e s = (
    λ h.
        let (fine, (proxies, parsed, started)) = serve_cases e s h in
        let (usable, same) = start_with_lem e proxies s started in
        (
          fine,
          usable,
          parsed ∙ ap (λ t. some t.proxies) (sym same),
          ap (λ t. t.password) same,
          ap (λ t. t.api_token) same,
          ap (λ t. t.insecure) same,
        ),
    λ (fine, usable, parsed, p, t, i).
        serve_starts e s.proxies fine parsed
        ∙ start_with_usable e s.proxies usable
        ∙ ground (arith, p, t, i),
  )
