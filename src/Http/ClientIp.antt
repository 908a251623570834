-- ===== src/Http/ClientIp.antt =====
-- clientIP of internal/app/http.go: the key under which credential attempts are counted. Texts are
-- lists of runes.
use personal_yt_downloader.Common.{
  ℕ, ◌==◌, ◌≡◌, refl, Bool, true, false, ◌||◌, not, Option, none, some, List, [], ◌∷◌, ◌++◌,
  if◌then◌else◌, arith, Bool-cases, inl, inr,
}
use personal_yt_downloader.Common.Text.{Text, split, prepend, trim_space}

-- What the code uses of `net/netip`, and the host that `net.SplitHostPort` finds.
pub record Netip : Type 1 where
  pub Addr : Type 0
  pub Prefix : Type 0
  pub parse_addr : Text → Option Addr
  pub unmap : Addr → Addr
  pub contains : Prefix → Addr → Bool
  pub show_addr : Addr → Text
  pub split_host_port : Text → Option Text

-- What one entry of X-Forwarded-For does to the loop: go on to the left, leave the loop, or return.
pub data Hop : Type 0 where
  go_on : Hop
  leave : Hop
  found : Text → Hop

-- `strings.Join(values, ",")`
unfoldable pub join_values : List Text → Text
join_values [] = []
join_values (a ∷ []) = a
join_values (a ∷ b ∷ values) = a ++ b',' ∷ join_values (b ∷ values)

-- The entries of all header lines in their order.
abbrev pub chain : List Text → List Text
chain [] = []
chain (value ∷ values) = split b',' value ++ chain values

prepend-append :
    (c : ℕ) (p : Text) (ps qs : List Text) → prepend c ((p ∷ ps) ++ qs) ≡ prepend c (p ∷ ps) ++ qs
prepend-append c p ps qs = refl

split_shape : (sep : ℕ) (s : Text) → (p : Text) × (ps : List Text) × (split sep s ≡ p ∷ ps)
split_shape sep [] = ([], [], refl)
split_shape sep (c ∷ s) =
    let (p, ps, e) = split_shape sep s in
    elim (Bool-cases (c == sep)) [
      | inl here ↦ ([], split sep s, ground (arith, here))
      | inr other ↦ (c ∷ p, ps, ground (arith, other, e))
    ]

split-append_all : (sep : ℕ) (s t : Text) → split sep (s ++ sep ∷ t) ≡ split sep s ++ split sep t
split-append_all sep [] t = ground arith
split-append_all sep (c ∷ s) t =
    let (p, ps, e) = split_shape sep s in
    ground (arith, split-append_all sep s t, e, prepend-append c p ps (split sep t))

append_nil : (ps : List Text) → ps ++ [] ≡ ps
append_nil [] = refl
append_nil (p ∷ ps) = ground (arith, append_nil ps)

split-join_values :
    (v : Text) (values : List Text) → split b',' (join_values (v ∷ values)) ≡ chain (v ∷ values)
unfolding join_values
split-join_values v [] = ground (arith, append_nil (split b',' v))
split-join_values v (w ∷ values) =
    ground (arith, split-append_all b',' v (join_values (w ∷ values)), split-join_values w values)

module _ (n : Netip) where
  unfoldable pub trusted_proxy : List n.Prefix → n.Addr → Bool
  trusted_proxy [] ip = false
  trusted_proxy (p ∷ prefixes) ip = n.contains p ip || trusted_proxy prefixes ip

  unfoldable pub judge : List n.Prefix → Option n.Addr → Hop
  judge trusted none = leave
  judge trusted (some entry) =
      if trusted_proxy trusted (n.unmap entry) then go_on else found (n.show_addr (n.unmap entry))

  -- The loop, which runs from the last entry to the first.
  unfoldable pub walk : List n.Prefix → List Text → Hop
  unfolding judge
  walk trusted [] = go_on
  walk trusted (entry ∷ entries) = elim (walk trusted entries) [
    | go_on ↦ judge trusted (n.parse_addr (trim_space entry))
    | leave ↦ leave
    | found ip ↦ found ip
  ]

  unfoldable pub remote_addr_host : Text → Text
  remote_addr_host remote_addr = elim (n.split_host_port remote_addr) [
    | none ↦ remote_addr
    | some host ↦ host
  ]

  -- The loop over the pieces of the joined lines, if there is a line.
  unfoldable pub forwarded : List n.Prefix → List Text → Hop
  unfolding walk join_values
  forwarded trusted [] = go_on
  forwarded trusted (v ∷ values) = walk trusted (split b',' (join_values (v ∷ values)))

  -- `values` are the values of the header lines X-Forwarded-For.
  unfoldable pub client_ip : List n.Prefix → Text → List Text → Text
  unfolding remote_addr_host forwarded
  client_ip trusted remote_addr values =
      let peer = remote_addr_host remote_addr in
      elim (n.parse_addr peer) [
        | none ↦ peer
        | some ip ↦
            if not (trusted_proxy trusted (n.unmap ip))
            then peer
            else elim (forwarded trusted values) [ found key ↦ key | _ ↦ peer ]
      ]

  -- The entry is the address of a trusted proxy.
  abbrev pub IsProxy : List n.Prefix → Text → Type 0
  IsProxy trusted entry =
      (a : n.Addr) × (n.parse_addr (trim_space entry) ≡ some a)
      × (trusted_proxy trusted (n.unmap a) ≡ true)

  abbrev pub AllProxies : List n.Prefix → List Text → Type 0
  AllProxies trusted [] = Unit
  AllProxies trusted (e ∷ entries) = IsProxy trusted e × AllProxies trusted entries

  abbrev pub is_trusted_peer : List n.Prefix → Text → Bool
  is_trusted_peer trusted peer = elim (n.parse_addr peer) [
    | none ↦ false
    | some ip ↦ trusted_proxy trusted (n.unmap ip)
  ]

  -- The entries read from the first to the last, with the key so far: a proxy keeps it, any other
  -- address replaces it, and what is no address puts the peer back.
  abbrev pub rekeyed : List n.Prefix → Text → Text → Option n.Addr → Text
  rekeyed trusted peer key none = peer
  rekeyed trusted peer key (some a) =
      if trusted_proxy trusted (n.unmap a) then key else n.show_addr (n.unmap a)

  abbrev pub last_outside : List n.Prefix → Text → Text → List Text → Text
  last_outside trusted peer key [] = key
  last_outside trusted peer key (entry ∷ entries) =
      last_outside trusted peer (rekeyed trusted peer key (n.parse_addr (trim_space entry))) entries

  abbrev pub key_of : Text → Text → Hop → Text
  key_of peer key go_on = key
  key_of peer key leave = peer
  key_of peer key (found ip) = ip

  judge_lem :
      (trusted : List n.Prefix) (peer key : Text) (o : Option n.Addr)
      → key_of peer key (judge trusted o) ≡ rekeyed trusted peer key o
  unfolding judge
  judge_lem trusted peer key none = refl
  judge_lem trusted peer key (some a) = ground arith

  walk_lem :
      (trusted : List n.Prefix) (peer key : Text) (entries : List Text)
      → key_of peer key (walk trusted entries) ≡ last_outside trusted peer key entries
  unfolding walk
  walk_lem trusted peer key [] = refl
  walk_lem trusted peer key (entry ∷ entries) =
      let rest =
        walk_lem trusted peer (rekeyed trusted peer key (n.parse_addr (trim_space entry)))
          entries in
      ground (arith, rest, judge_lem trusted peer key (n.parse_addr (trim_space entry)))

  last_outside_proxies :
      (trusted : List n.Prefix) (peer key : Text) (entries : List Text)
      → AllProxies trusted entries
      → last_outside trusted peer key entries ≡ key
  last_outside_proxies trusted peer key [] h = refl
  last_outside_proxies trusted peer key (e ∷ entries) h =
      ground (arith, h.0, last_outside_proxies trusted peer key entries h.1)

  last_outside-append :
      (trusted : List n.Prefix) (peer key entry : Text) (forged proxies : List Text)
      → AllProxies trusted proxies
      → last_outside trusted peer key (forged ++ entry ∷ proxies)
        ≡ rekeyed trusted peer
            (last_outside trusted peer key forged)
            (n.parse_addr (trim_space entry))
  last_outside-append trusted peer key entry [] proxies all =
      last_outside_proxies trusted peer (rekeyed trusted peer key (n.parse_addr (trim_space entry)))
        proxies all
  last_outside-append trusted peer key entry (x ∷ forged) proxies all =
      last_outside-append trusted peer (rekeyed trusted peer key (n.parse_addr (trim_space x)))
        entry forged proxies all

  forwarded_lem :
      (trusted : List n.Prefix) (peer : Text) (values : List Text)
      → key_of peer peer (forwarded trusted values) ≡ last_outside trusted peer peer (chain values)
  unfolding forwarded
  forwarded_lem trusted peer [] = refl
  forwarded_lem trusted peer (v ∷ values) =
      rw (split-join_values v values) (walk_lem trusted peer peer (chain (v ∷ values)))

  -- The key of a client whose peer, the host of RemoteAddr, is no address or no trusted proxy is
  -- the peer, whatever it forwards; behind a trusted proxy it is what reading the entries of all
  -- X-Forwarded-For lines from the first to the last leaves, where a trusted proxy keeps the key,
  -- another address replaces it and what is no address puts the peer back, so that an entry that
  -- only trusted proxies follow alone decides the key, whatever stands before it, unless it is a
  -- trusted proxy itself.
  pub client_ip_unforgeable :
      (trusted : List n.Prefix) (remote_addr entry : Text) (values forged proxies : List Text)
      → AllProxies trusted proxies
      → let peer = remote_addr_host remote_addr in
        (client_ip trusted remote_addr values ≡ (
          if is_trusted_peer trusted peer
          then last_outside trusted peer peer (chain values)
          else peer))
        × (last_outside trusted peer peer (forged ++ entry ∷ proxies)
            ≡ rekeyed trusted peer
                (last_outside trusted peer peer forged)
                (n.parse_addr (trim_space entry)))
  unfolding client_ip
  client_ip_unforgeable trusted remote_addr entry values forged proxies all =
      let peer = remote_addr_host remote_addr in
      (
        ground (arith, forwarded_lem trusted peer values),
        last_outside-append trusted peer peer entry forged proxies all,
      )
