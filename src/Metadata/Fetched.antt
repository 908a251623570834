-- ===== src/Metadata/Fetched.antt =====
-- When Fetch (internal/app/metadata.go) answers with metadata, and with which.
use personal_yt_downloader.Common.{
  ◌≡◌, refl, sym, ◌≢◌, ◌↔◌, ◌⊎◌, inl, inr, String, Option, none, some, List, [], ◌∷◌, eq_iff,
  keep_if, Bool-cases, ap, ◌∙◌, subst, arith,
}
use personal_yt_downloader.Common.Text.{Text}
use personal_yt_downloader.Downloader.{ok, Metadata}
use personal_yt_downloader.Manager.Workers.{PipelineError}
use personal_yt_downloader.Metadata.{
  Info, is_payload, payload_from, is_finished, accept_info, read_payload, fetch,
}

-- The last of the texts, or the one given.
abbrev pub last_or : Text → List Text → Text
last_or t [] = t
last_or t (line ∷ lines) = last_or line lines

payload_from_lem :
    (payload : Text) (lines : List Text)
    → payload_from payload lines ≡ last_or payload (keep_if is_payload lines)
unfolding payload_from
payload_from_lem payload [] = refl
payload_from_lem payload (line ∷ lines) = elim (Bool-cases (is_payload line)) [
  | inl hit ↦ rw hit (payload_from_lem line lines)
  | inr miss ↦ rw miss (payload_from_lem payload lines)
]

abbrev pub IsAccepted : String → Info → Type 0
IsAccepted id info =
    (info.id ≡ id)
    × (info.extractor ≡ "Youtube")
    × ((info.live_status ≡ "not_live") ⊎ (info.live_status ≡ "was_live"))

abbrev as_metadata : Info → Metadata
as_metadata info = record { title = info.title; duration_sec = info.duration }

module _ (id : String) where
  accept_info_ok :
      (info : Info) (meta : Metadata)
      → accept_info id (some info) ≡ ok meta
      → IsAccepted id info × (meta ≡ as_metadata info)
  unfolding accept_info is_finished
  accept_info_ok info meta h = ground (
    arith,
    h,
    eq_iff info.id id,
    eq_iff info.extractor "Youtube",
    eq_iff info.live_status "not_live",
    eq_iff info.live_status "was_live",
  )

  accept_info-IsAccepted :
      (info : Info) → IsAccepted id info → accept_info id (some info) ≡ ok (as_metadata info)
  unfolding accept_info is_finished
  accept_info-IsAccepted info h = ground (
    arith,
    h,
    eq_iff info.id id,
    eq_iff info.extractor "Youtube",
    eq_iff info.live_status "not_live",
    eq_iff info.live_status "was_live",
  )

-- The payload decodes to an accepted object, whose title and duration are those of the metadata.
abbrev pub IsDecoded : (Text → Option Info) → String → Text → Metadata → Type 0
IsDecoded unmarshal id payload meta =
    (info : Info) × (unmarshal payload ≡ some info)
    × IsAccepted id info
    × (meta ≡ record { title = info.title; duration_sec = info.duration })

module _ (unmarshal : Text → Option Info) (id : String) where
  accept_decoded :
      (o : Option Info) (meta : Metadata)
      → accept_info id o ≡ ok meta
      → (info : Info) × (o ≡ some info) × IsAccepted id info × (meta ≡ as_metadata info)
  unfolding accept_info
  accept_decoded none meta h = absurd (ground (arith, h))
  accept_decoded (some info) meta h =
      let (accepted, e) = accept_info_ok id info meta h in (info, refl, accepted, e)

  read_payload_iff :
      (payload : Text) (meta : Metadata)
      → (read_payload unmarshal id payload ≡ ok meta)
        ↔ ((payload ≢ []) × IsDecoded unmarshal id payload meta)
  unfolding read_payload
  read_payload_iff [] meta = (λ h. absurd (ground (arith, h)), λ k. absurd (k.0 refl))
  read_payload_iff (c ∷ payload) meta = (
    λ h. (λ e. cc, accept_decoded (unmarshal (c ∷ payload)) meta h),
    λ (nonempty, (info, e, accepted, same)).
        ap (accept_info id) e ∙ accept_info-IsAccepted id info accepted ∙ ap ok (sym same),
  )

  -- Fetch answers with metadata exactly if the command reports no error, some line starts with a
  -- brace, and the last such line decodes to the requested ID, the extractor Youtube and a live
  -- status of not_live or was_live, whose title and duration are then those of the metadata.
  pub fetch_ok_iff :
      (lines : List Text) (run_err ctx_err : Option PipelineError) (meta : Metadata)
      → (fetch unmarshal id lines run_err ctx_err ≡ ok meta) ↔ (
          (run_err ≡ none)
          × (last_or [] (keep_if is_payload lines) ≢ [])
          × IsDecoded unmarshal id (last_or [] (keep_if is_payload lines)) meta)
  unfolding fetch
  fetch_ok_iff lines (some e) (some stopped) meta =
      (λ h. absurd (ground (arith, h)), λ k. absurd (ground (arith, k.0)))
  fetch_ok_iff lines (some e) none meta =
      (λ h. absurd (ground (arith, h)), λ k. absurd (ground (arith, k.0)))
  fetch_ok_iff lines none ctx_err meta =
      let (to, from) = read_payload_iff (payload_from [] lines) meta in
      let e = payload_from_lem [] lines in
      (
        λ h.
            let k = subst (λ p. (p ≢ []) × IsDecoded unmarshal id p meta) e (to h) in
            (refl, k.0, k.1),
        λ k. from (subst (λ p. (p ≢ []) × IsDecoded unmarshal id p meta) (sym e) (k.1, k.2)),
      )
