-- ===== src/Http/Proxies.antt =====
-- ParseTrustedProxies of internal/app/http.go, and what an address needs to be trusted. The flag is a
-- list of runes.
use personal_yt_downloader.Common.{
  ℕ, ◌-◌, ◌≤◌, ◌≡◌, refl, sym, inl, inr, Bool, true, false, ◌&&◌, ◌||◌, not, Option, none, some,
  List, [], ◌∷◌, ltb, if◌then◌else◌, Bool-cases, Option-cases, ap, ◌∙◌, arith, zero, suc, ◌+◌, ◌==◌,
  length, ◌++◌,
}
use personal_yt_downloader.Common.Text.{Text, split, contains_byte, trim_space}
use personal_yt_downloader.Http.ClientIp.{Netip, trusted_proxy}

-- What else the code uses of `net/netip`.
pub record Cidr (n : Netip) : Type 0 where
  pub parse_prefix : Text → Option n.Prefix
  pub prefix_from : n.Addr → ℕ → n.Prefix
  pub bit_len : n.Addr → ℕ
  pub addr : n.Prefix → n.Addr
  pub bits : n.Prefix → ℕ
  pub is_4in6 : n.Addr → Bool
  pub masked : n.Prefix → n.Prefix

module _ (n : Netip) (c : Cidr n) where
  -- A mapped range that has an IPv4 form is taken in that form.
  unfoldable pub translated : n.Prefix → Option n.Prefix
  translated p =
      if not (c.is_4in6 (c.addr p))
      then some p
      else if ltb (c.bits p) 96
      then none
      else some (c.prefix_from (n.unmap (c.addr p)) (c.bits p - 96))

  unfoldable pub as_range : Option n.Prefix → Option n.Prefix
  unfolding translated
  as_range none = none
  as_range (some p) = elim (translated p) [ none ↦ none | some q ↦ some (c.masked q) ]

  unfoldable pub as_host : Option n.Addr → Option n.Prefix
  as_host none = none
  as_host (some a) = some (c.prefix_from (n.unmap a) (c.bit_len (n.unmap a)))

  unfoldable pub parse_entry : Text → Option n.Prefix
  unfolding as_range as_host
  parse_entry field =
      if not (contains_byte b'/' field)
      then as_host (n.parse_addr field)
      else as_range (c.parse_prefix field)

  abbrev pub add_prefix : Option n.Prefix → Option (List n.Prefix) → Option (List n.Prefix)
  add_prefix none rest = none
  add_prefix (some p) none = none
  add_prefix (some p) (some ps) = some (p ∷ ps)

  abbrev pub is_blank : Text → Bool
  is_blank [] = true
  is_blank (r ∷ s) = false

  -- The loop over the pieces between the commas; none for an error.
  unfoldable pub parse_fields : List Text → Option (List n.Prefix)
  unfolding parse_entry
  parse_fields [] = some []
  parse_fields (piece ∷ pieces) =
      let rest = parse_fields pieces in
      if is_blank (trim_space piece) then rest else add_prefix (parse_entry (trim_space piece)) rest

  unfoldable pub parse_trusted_proxies : Text → Option (List n.Prefix)
  unfolding parse_fields
  parse_trusted_proxies spec = parse_fields (split b',' spec)

-- The first `k` bits of both agree.
abbrev pub agree : ℕ → List Bool → List Bool → Bool
agree zero xs ys = true
agree (suc k) [] ys = false
agree (suc k) (x ∷ xs) [] = false
agree (suc k) (x ∷ xs) (y ∷ ys) = (if x then y else not y) && agree k xs ys

abbrev pub same_bits : List Bool → List Bool → Bool
same_bits [] [] = true
same_bits [] (y ∷ ys) = false
same_bits (x ∷ xs) [] = false
same_bits (x ∷ xs) (y ∷ ys) = (if x then y else not y) && same_bits xs ys

-- The range of the first `k` bits of `xs`, in the family of that width.
abbrev pub in_range : List Bool → ℕ → List Bool → Bool
in_range xs k ys = length xs == length ys && agree k xs ys

abbrev pub repeated : ℕ → Bool → List Bool
repeated zero b = []
repeated (suc n) b = b ∷ repeated n b

-- What an IPv4-mapped IPv6 address begins with, ::ffff.
unfoldable pub marker : List Bool
marker = repeated 80 false ++ repeated 16 true

-- What `net/netip` documents, with the bits of an address, the highest first, and whether it has a
-- zone: a parsed prefix is no longer than its address; `PrefixFrom` keeps the bits; a prefix contains
-- the addresses without a zone, of its family, whose first bits are its own; masking does not change
-- that; and `Unmap` takes the marker off a mapped address.
pub record IsCidr (n : Netip) (c : Cidr n) (bits_of : n.Addr → List Bool) (zoned : n.Addr → Bool)
    : Type 0 where
  pub bit_len-bits : (a : n.Addr) → c.bit_len a ≡ length (bits_of a)
  pub parsed_prefix :
      (s : Text) (p : n.Prefix) → c.parse_prefix s ≡ some p → c.bits p ≤ length (bits_of (c.addr p))
  pub prefix_from-bits :
      (a : n.Addr) (b : ℕ)
      → b ≤ length (bits_of a)
      → (bits_of (c.addr (c.prefix_from a b)) ≡ bits_of a) × (c.bits (c.prefix_from a b) ≡ b)
  pub contains-masked : (p : n.Prefix) (ip : n.Addr) → n.contains (c.masked p) ip ≡ n.contains p ip
  pub contains-bits :
      (p : n.Prefix) (ip : n.Addr)
      → c.bits p ≤ length (bits_of (c.addr p))
      → 1 ≤ length (bits_of ip)
      → n.contains p ip ≡ (not (zoned ip) && in_range (bits_of (c.addr p)) (c.bits p) (bits_of ip))
  pub unmap-mapped :
      (a : n.Addr)
      → c.is_4in6 a ≡ true
      → (bits_of a ≡ marker ++ bits_of (n.unmap a)) × (length (bits_of (n.unmap a)) ≡ 32)

agree-append :
    (m : List Bool) (j k : ℕ) (xs ys : List Bool)
    → j ≡ length m + k
    → agree j (m ++ xs) (m ++ ys) ≡ agree k xs ys
agree-append [] j k xs ys h = ground (arith, h)
agree-append (b ∷ m) zero k xs ys h = absurd (omega (arith, h))
agree-append (true ∷ m) (suc j) k xs ys h = agree-append m j k xs ys (omega (arith, h))
agree-append (false ∷ m) (suc j) k xs ys h = agree-append m j k xs ys (omega (arith, h))

-- The number of bits that `m` and `xs` have together.
length-append : (m xs : List Bool) → length (m ++ xs) ≡ length m + length xs
length-append [] xs = omega arith
length-append (b ∷ m) xs = omega (arith, length-append m xs)

length-marker : length marker ≡ 96
unfolding marker
length-marker = refl

agree_same :
    (xs ys : List Bool) → (length xs == length ys && agree (length xs) xs ys) ≡ same_bits xs ys
agree_same [] [] = ground arith
agree_same [] (y ∷ ys) = ground arith
agree_same (x ∷ xs) [] = ground arith
agree_same (x ∷ xs) (y ∷ ys) = ground (arith, agree_same xs ys)

mapped_range :
    (k : ℕ) (xs ys : List Bool)
    → 96 ≤ k
    → in_range (marker ++ xs) k (marker ++ ys) ≡ in_range xs (k - 96) ys
mapped_range k xs ys h =
    let width = length-marker in
    let same = agree-append marker k (k - 96) xs ys (omega (arith, h, width)) in
    ground (arith, same, width, length-append marker xs, length-append marker ys)

module _ (n : Netip) (c : Cidr n) (bits_of : n.Addr → List Bool) (zoned : n.Addr → Bool) where
  -- The entry is a range that contains the address, a mapped range its mapped form; or it names the
  -- address.
  abbrev pub covers_range : Option n.Prefix → n.Addr → Bool
  covers_range none ip = false
  covers_range (some p) ip =
      not (zoned ip)
      && in_range (bits_of (c.addr p)) (c.bits p)
          (if c.is_4in6 (c.addr p) then marker ++ bits_of ip else bits_of ip)

  abbrev pub covers_host : Option n.Addr → n.Addr → Bool
  covers_host none ip = false
  covers_host (some a) ip = not (zoned ip) && same_bits (bits_of (n.unmap a)) (bits_of ip)

  abbrev pub covers : Text → n.Addr → Bool
  covers field ip =
      if not (contains_byte b'/' field)
      then covers_host (n.parse_addr field) ip
      else covers_range (c.parse_prefix field) ip

  -- Some piece that is not blank covers the address.
  abbrev pub any_covers : List Text → n.Addr → Bool
  any_covers [] ip = false
  any_covers (piece ∷ pieces) ip =
      (not (is_blank n c (trim_space piece)) && covers (trim_space piece) ip)
      || any_covers pieces ip

  module _ (laws : IsCidr n c bits_of zoned) where
    contains-prefix_from :
        (a ip : n.Addr) (b : ℕ)
        → b ≤ length (bits_of a)
        → 1 ≤ length (bits_of ip)
        → n.contains (c.prefix_from a b) ip
          ≡ (not (zoned ip) && in_range (bits_of a) b (bits_of ip))
    contains-prefix_from a ip b h valid =
        let (same, width) = laws.prefix_from-bits a b h in
        ground (arith, same, width, laws.contains-bits (c.prefix_from a b) ip)

    mapped_form :
        (p q : n.Prefix)
        → c.is_4in6 (c.addr p) ≡ true
        → translated n c p ≡ some q
        → (96 ≤ c.bits p) × (c.prefix_from (n.unmap (c.addr p)) (c.bits p - 96) ≡ q)
    unfolding translated
    mapped_form p q mapped h = ground (arith, mapped, h)

    bits_bound :
        (p : n.Prefix)
        → c.is_4in6 (c.addr p) ≡ true
        → c.bits p ≤ length (bits_of (c.addr p))
        → 96 ≤ c.bits p
        → c.bits p - 96 ≤ length (bits_of (n.unmap (c.addr p)))
    bits_bound p mapped proper long =
        let (marked, width) = laws.unmap-mapped (c.addr p) mapped in
        let whole = length-append marker (bits_of (n.unmap (c.addr p))) in
        ground (arith, marked, whole, length-marker)

    translated_lem :
        (p q : n.Prefix) (ip : n.Addr)
        → c.bits p ≤ length (bits_of (c.addr p))
        → 1 ≤ length (bits_of ip)
        → translated n c p ≡ some q
        → n.contains (c.masked q) ip ≡ covers_range (some p) ip
    unfolding translated
    translated_lem p q ip proper valid h = elim (Bool-cases (c.is_4in6 (c.addr p))) [
      | inl mapped ↦
          let (marked, width) = laws.unmap-mapped (c.addr p) mapped in
          let (long, made) = mapped_form p q mapped h in
          let short = bits_bound p mapped proper long in
          let whole = contains-prefix_from (n.unmap (c.addr p)) ip (c.bits p - 96) short valid in
          let cut = mapped_range (c.bits p) (bits_of (n.unmap (c.addr p))) (bits_of ip) long in
          ground (arith, mapped, made, marked, laws.contains-masked q ip, whole, cut)
      | inr other ↦
          ground (arith, h, other, laws.contains-masked q ip, laws.contains-bits p ip proper valid)
    ]

    range_lem :
        (field : Text) (p : n.Prefix) (ip : n.Addr)
        → 1 ≤ length (bits_of ip)
        → as_range n c (c.parse_prefix field) ≡ some p
        → n.contains p ip ≡ covers_range (c.parse_prefix field) ip
    unfolding as_range
    range_lem field p ip valid h = elim (Option-cases (c.parse_prefix field)) [
      | inl e ↦ absurd (ground (arith, h, e))
      | inr (q, e) ↦ elim (Option-cases (translated n c q)) [
        | inl e' ↦ absurd (ground (arith, h, e, e'))
        | inr (r, e') ↦
            let whole = translated_lem q r ip (laws.parsed_prefix field q e) valid e' in
            ground (arith, h, e, e', whole)
      ]
    ]

    host_lem :
        (o : Option n.Addr) (p : n.Prefix) (ip : n.Addr)
        → 1 ≤ length (bits_of ip)
        → as_host n c o ≡ some p
        → n.contains p ip ≡ covers_host o ip
    unfolding as_host
    host_lem none p ip valid h = absurd (ground (arith, h))
    host_lem (some a) p ip valid h =
        let width = laws.bit_len-bits (n.unmap a) in
        let whole = contains-prefix_from (n.unmap a) ip (c.bit_len (n.unmap a)) in
        ground (arith, h, width, whole, agree_same (bits_of (n.unmap a)) (bits_of ip))

    entry_lem :
        (field : Text) (p : n.Prefix) (ip : n.Addr)
        → 1 ≤ length (bits_of ip)
        → parse_entry n c field ≡ some p
        → n.contains p ip ≡ covers field ip
    unfolding parse_entry
    entry_lem field p ip valid h = elim (Bool-cases (contains_byte b'/' field)) [
      | inl slash ↦ ground (arith, h, slash, range_lem field p ip valid)
      | inr bare ↦ ground (arith, h, bare, host_lem (n.parse_addr field) p ip valid)
    ]

    add_prefix_lem :
        (o : Option n.Prefix) (rest : Option (List n.Prefix)) (ps : List n.Prefix)
        → add_prefix n c o rest ≡ some ps
        → (p : n.Prefix) × (qs : List n.Prefix) × (o ≡ some p) × (rest ≡ some qs) × (p ∷ qs ≡ ps)
    add_prefix_lem none rest ps h = absurd (ground (arith, h))
    add_prefix_lem (some p) none ps h = absurd (ground (arith, h))
    add_prefix_lem (some p) (some qs) ps h = (p, qs, refl, refl, ground (arith, h))

    fields_lem :
        (pieces : List Text) (ps : List n.Prefix) (ip : n.Addr)
        → 1 ≤ length (bits_of ip)
        → parse_fields n c pieces ≡ some ps
        → trusted_proxy n ps ip ≡ any_covers pieces ip
    unfolding parse_fields trusted_proxy
    fields_lem [] ps ip valid h = ground (arith, h)
    fields_lem (piece ∷ pieces) ps ip valid h =
        let field = trim_space piece in
        elim (Bool-cases (is_blank n c field)) [
          | inl blank ↦ rw blank (fields_lem pieces ps ip valid (skipped blank))
          | inr filled ↦
              let (p, qs, entry, rest, whole) =
                add_prefix_lem (parse_entry n c field) (parse_fields n c pieces) ps (kept filled) in
              rw filled (
                ap (λ l. trusted_proxy n l ip) (sym whole)
                ∙ ap (λ b. b || trusted_proxy n qs ip) (entry_lem field p ip valid entry)
                ∙ ap (λ b. covers field ip || b) (fields_lem pieces qs ip valid rest))
        ]
      where
        skipped : is_blank n c (trim_space piece) ≡ true → parse_fields n c pieces ≡ some ps
        skipped blank = ground (arith, h, blank)

        kept :
            is_blank n c (trim_space piece) ≡ false
            → add_prefix n c (parse_entry n c (trim_space piece)) (parse_fields n c pieces)
              ≡ some ps
        kept filled = ground (arith, h, filled)

    -- Given that addresses and ranges behave as net/netip documents, an address is trusted under a
    -- list that ParseTrustedProxies accepts exactly if it has no zone and some piece of the list
    -- that is not blank names it up to the zone or is a range that contains it, an IPv4-mapped
    -- range by the IPv4-mapped form of the address.
    pub parse_trusted_proxies_lem :
        (spec : Text) (ps : List n.Prefix) (ip : n.Addr)
        → 1 ≤ length (bits_of ip)
        → parse_trusted_proxies n c spec ≡ some ps
        → trusted_proxy n ps ip ≡ any_covers (split b',' spec) ip
    unfolding parse_trusted_proxies
    parse_trusted_proxies_lem spec ps ip valid h = fields_lem (split b',' spec) ps ip valid h
