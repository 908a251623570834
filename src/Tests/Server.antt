-- ===== src/Tests/Server.antt =====
-- Logging, the list of trusted proxies and the start of the server at concrete inputs.
use personal_yt_downloader.Common.{
  ℕ, ◌≡◌, refl, Bool, true, false, none, some, List, [], ◌∷◌, ◌++◌, All, ◌%◌, ◌^◌, length, arith,
  Option, if◌then◌else◌, ◌==◌,
}
use personal_yt_downloader.Common.Text.{Text, codes, is_space, split}
use personal_yt_downloader.Logging.{
  fresh, Call, sets_header, writes, calls, request_logging, call, write_header, write,
}
use personal_yt_downloader.Logging.Routes.{IsCleanLine, request_logging_clean}
use personal_yt_downloader.Logging.Responses.{
  first_status, status_or_zero, written, any_failed, calls_lem,
}
use personal_yt_downloader.Http.ClientIp.{Netip, trusted_proxy}
use personal_yt_downloader.Http.Proxies.{
  Cidr, translated, as_range, as_host, parse_entry, parse_fields, parse_trusted_proxies, IsCidr,
  any_covers, parse_trusted_proxies_lem, marker, repeated, in_range,
}
use personal_yt_downloader.Password.{is_empty}
use personal_yt_downloader.Startup.{Environment, Settings, listening, start_with, serve}

program : Unit {0}
unfolding marker translated as_range as_host parse_entry parse_fields parse_trusted_proxies
    trusted_proxy is_empty start_with serve is_space calls call write_header write
program = tt

-- A page that is not found, written in two pieces.
abbrev not_found : List Call
not_found = sets_header 404 ∷ writes 5 false ∷ sets_header 200 ∷ writes 7 true ∷ []

calls_lem_example :
    ((calls fresh not_found).status ≡ status_or_zero (first_status not_found))
    × ((calls fresh not_found).forwarded ≡ first_status not_found)
    × ((calls fresh not_found).bytes ≡ written not_found % 2 ^ 64)
    × ((calls fresh not_found).write_failed ≡ any_failed not_found)
calls_lem_example = calls_lem not_found (omega arith, (omega arith, tt))

request_logging_clean_example :
    All IsCleanLine (request_logging (codes "GET") (codes "/m/secret") not_found)
request_logging_clean_example = request_logging_clean (codes "GET") (codes "/m/secret") not_found

-- Stand-ins: an address is the list of its bits and has no zone, a range an address with its number
-- of bits, and the parsers answer 0.0.0.0 and ::ffff:255.255.255.255/120 to every text.
abbrev after : List Bool → List Bool → Option (List Bool)
after [] xs = some xs
after (m ∷ ms) [] = none
after (true ∷ ms) (x ∷ xs) = if x then after ms xs else none
after (false ∷ ms) (x ∷ xs) = if x then none else after ms xs

after_lem : (ms xs ys : List Bool) → after ms xs ≡ some ys → xs ≡ ms ++ ys
after_lem [] xs ys h = ground (arith, h)
after_lem (m ∷ ms) [] ys h = absurd (ground (arith, h))
after_lem (true ∷ ms) (true ∷ xs) ys h = ground (arith, after_lem ms xs ys h)
after_lem (true ∷ ms) (false ∷ xs) ys h = absurd (ground (arith, h))
after_lem (false ∷ ms) (true ∷ xs) ys h = absurd (ground (arith, h))
after_lem (false ∷ ms) (false ∷ xs) ys h = ground (arith, after_lem ms xs ys h)

abbrev is_mapped_rest : Option (List Bool) → Bool
is_mapped_rest none = false
is_mapped_rest (some ys) = length ys == 32

abbrev unmapped : List Bool → Option (List Bool) → List Bool
unmapped xs none = xs
unmapped xs (some ys) = if length ys == 32 then ys else xs

abbrev netip : Netip
netip = record {
  Addr = List Bool;
  Prefix = List Bool × ℕ;
  parse_addr = λ s. some (repeated 32 false);
  unmap = λ a. unmapped a (after marker a);
  contains = λ p ip. in_range p.0 p.1 ip;
  show_addr = λ a. [];
  split_host_port = λ s. none;
}

abbrev cidr : Cidr netip
cidr = record {
  parse_prefix = λ s. some (marker ++ repeated 32 true, 120);
  prefix_from = λ a bits. (a, bits);
  bit_len = length;
  addr = λ p. p.0;
  bits = λ p. p.1;
  is_4in6 = λ a. is_mapped_rest (after marker a);
  masked = λ p. p;
}

abbrev itself : List Bool → List Bool
itself a = a

abbrev has_no_zone : List Bool → Bool
has_no_zone a = false

unmapped_lem :
    (xs : List Bool) (o : Option (List Bool))
    → after marker xs ≡ o
    → is_mapped_rest o ≡ true
    → (xs ≡ marker ++ unmapped xs o) × (length (unmapped xs o) ≡ 32)
unmapped_lem xs none e h = absurd (ground (arith, h))
unmapped_lem xs (some ys) e h = ground (arith, h, after_lem marker xs ys e)

width : length (marker ++ repeated 32 true) ≡ 128
unfolding program
width = refl

cidr-IsCidr : IsCidr netip cidr itself has_no_zone
cidr-IsCidr = record {
  bit_len-bits = λ a. refl;
  parsed_prefix = λ s p h. ground (arith, h, width);
  prefix_from-bits = λ a b h. (refl, refl);
  contains-masked = λ p ip. refl;
  contains-bits = λ p ip h k. refl;
  unmap-mapped = λ a h. unmapped_lem a (after marker a) refl h;
}

abbrev spec : Text
spec = codes " 0.0.0.0 , ,::ffff:255.255.255.255/120"

abbrev trusted : List (List Bool × ℕ)
trusted = (repeated 32 false, 32) ∷ (repeated 32 true, 24) ∷ []

-- 255.255.255.0
abbrev neighbour : List Bool
neighbour = repeated 24 true ++ repeated 8 false

parsed : parse_trusted_proxies netip cidr spec ≡ some trusted
unfolding program
parsed = refl

parse_trusted_proxies_lem_example :
    trusted_proxy netip trusted neighbour
    ≡ any_covers netip cidr itself has_no_zone (split b',' spec) neighbour
parse_trusted_proxies_lem_example =
    parse_trusted_proxies_lem netip cidr itself has_no_zone cidr-IsCidr spec trusted neighbour
      (omega arith) parsed

is_neighbour : trusted_proxy netip trusted neighbour ≡ true
unfolding program
is_neighbour = refl

abbrev environment : Environment ℕ
environment = record {
  flags_err = none;
  proxies = some (1 ∷ []);
  makes_root = true;
  password = codes "secret";
  api_token = codes " token ";
  recover_err = false;
  insecure = false;
}

abbrev settings : Settings ℕ
settings = record {
  password = codes "secret";
  api_token = codes "token";
  insecure = false;
  proxies = 1 ∷ [];
}

started : serve environment ≡ listening settings
unfolding program
started = refl
