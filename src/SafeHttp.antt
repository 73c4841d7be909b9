-- ===== src/SafeHttp.antt =====
-- src/utils/safe-http.ts: which addresses a request may go to. How Node reads a URL and an address,
-- and what the name service answers, stand in `Platform`. Texts of numbers are read as decimals.
pub mod Ranges
mod Tests
use Prim.Native.Char.{Char, code}
use Prim.Native.String.{String, [], ◌∷◌}
use text.Mathlib.Text.{◌==◌ as str_eq, starts_with}
use webhook_backend.Prelude.{
  ℕ, zero, suc, ◌+◌, ◌-◌, ◌*◌, ◌/◌, ◌%◌, ◌^◌, Bool, true, false, not, ◌&&◌, ◌||◌, Option, some,
  none, List, [], ◌∷◌, foldl, length, any, all, leb, ◌==◌, if◌then◌else◌,
}

-- `net.isIP`
pub data Family : Type 0 where
  no_address four six : Family

pub record Url : Type 0 where
  pub protocol : String
  pub hostname : String

-- `new URL`, `net.isIP`, `toLowerCase` and `dns.lookup`, and whether `NODE_ENV` is `production`.
pub record Platform : Type 0 where
  pub parse_url : String → Option Url
  pub is_ip : String → Family
  pub to_lower_case : String → String
  pub lookup : String → Option (String × Family)
  pub production : Bool

abbrev pub is_digit : Char → Bool
is_digit c = leb b'0' (code c) && leb (code c) b'9'

abbrev pub is_hex : Char → Bool
is_hex c = is_digit c || leb b'a' (code c) && leb (code c) b'f'

abbrev pub all_digits : String → Bool
all_digits [] = true
all_digits (c ∷ s) = is_digit c && all_digits s

abbrev pub push_char : Char → List String → List String
push_char c [] = (c ∷ []) ∷ []
push_char c (p ∷ ps) = (c ∷ p) ∷ ps

-- `split('.')`
abbrev pub split_dots : String → List String
split_dots [] = "" ∷ []
split_dots (c ∷ s) =
    let rest = split_dots s in if code c == b'.' then "" ∷ rest else push_char c rest

-- `parseInt(oct, 10)`, of digits
abbrev pub parse_digits : ℕ → String → ℕ
parse_digits n [] = n
parse_digits n (c ∷ s) = parse_digits (n * 10 + (code c - b'0')) s

-- `(acc << 8) + oct`, in thirty-two bits
abbrev pub shift_in : ℕ → String → ℕ
shift_in acc octet = (acc * 256 + parse_digits 0 octet) % 2 ^ 32

-- `ipToInt`
abbrev pub ip_to_int : String → ℕ
ip_to_int ip = foldl shift_in 0 (split_dots ip)

abbrev pub private_v4_cidrs : List (ℕ × ℕ)
private_v4_cidrs =
    (ip_to_int "10.0.0.0", 8)
    ∷ (ip_to_int "127.0.0.0", 8)
    ∷ (ip_to_int "169.254.0.0", 16)
    ∷ (ip_to_int "172.16.0.0", 12)
    ∷ (ip_to_int "192.168.0.0", 16)
    ∷ (ip_to_int "100.64.0.0", 10)
    ∷ (ip_to_int "0.0.0.0", 8)
    ∷ (ip_to_int "192.0.0.0", 24)
    ∷ (ip_to_int "192.0.2.0", 24)
    ∷ (ip_to_int "198.18.0.0", 15)
    ∷ (ip_to_int "198.51.100.0", 24)
    ∷ (ip_to_int "203.0.113.0", 24)
    ∷ (ip_to_int "224.0.0.0", 4)
    ∷ (ip_to_int "240.0.0.0", 4)
    ∷ (ip_to_int "255.255.255.255", 32)
    ∷ []

-- `int & mask`, where the mask has `bits` ones at the top
abbrev pub masked : (bits int : ℕ) → ℕ
masked bits int = if bits == 0 then 0 else int / 2 ^ (32 - bits) * 2 ^ (32 - bits)

abbrev pub is_private_v4 : ℕ → Bool
is_private_v4 int = any (λ (c : ℕ × ℕ). masked c.1 int == masked c.1 c.0) private_v4_cidrs

abbrev pub drop_chars : ℕ → String → String
drop_chars zero s = s
drop_chars (suc n) [] = ""
drop_chars (suc n) (c ∷ s) = drop_chars n s

abbrev pub is_dotted : List String → Bool
is_dotted parts = length parts == 4 && all (λ p. not (str_eq p "") && all_digits p) parts

-- `/^::ffff:(\d+\.\d+\.\d+\.\d+)$/`
abbrev pub v4_mapped : String → Option String
v4_mapped lower =
    let rest = drop_chars 7 lower in
    if starts_with lower "::ffff:" && is_dotted (split_dots rest) then some rest else none

-- `/^f[cd][0-9a-f]{2}:/`
abbrev pub is_unique_local : String → Bool
is_unique_local (a ∷ b ∷ c ∷ d ∷ e ∷ s) =
    code a == b'f' && (code b == b'c' || code b == b'd') && is_hex c && is_hex d && code e == b':'
is_unique_local s = false

-- `/^fe[89ab][0-9a-f]:/`
abbrev pub is_link_local : String → Bool
is_link_local (a ∷ b ∷ c ∷ d ∷ e ∷ s) =
    code a == b'f'
    && code b == b'e'
    && (code c == b'8' || code c == b'9' || code c == b'a' || code c == b'b')
    && is_hex d
    && code e == b':'
is_link_local s = false

abbrev pub is_internal_v6 : String → Bool
is_internal_v6 lower =
    str_eq lower "::1"
    || str_eq lower "::"
    || is_unique_local lower
    || is_link_local lower
    || starts_with lower "ff"

-- What `assertSafeUrl` returns, or why it throws.
pub data Check : Type 0 where
  safe : Url → (ip : String) → Family → Check
  invalid_url blocked_protocol missing_host private_host : Check
  blocked_hostname lookup_failed private_answer : Check

-- `replace(':', '')`: the first one goes.
abbrev pub remove_colon : String → String
remove_colon [] = ""
remove_colon (c ∷ s) = if code c == b':' then s else c ∷ remove_colon s

-- `s.endsWith(suffix)`
abbrev pub ends_with : (suffix s : String) → Bool
ends_with suffix [] = str_eq suffix ""
ends_with suffix (c ∷ s) = str_eq (c ∷ s) suffix || ends_with suffix s

abbrev pub is_blocked_name : String → Bool
is_blocked_name lower =
    str_eq lower "localhost"
    || ends_with ".localhost" lower
    || ends_with ".internal" lower
    || ends_with ".local" lower

module _ (p : Platform) where
  -- Where the text is not a mapped address.
  abbrev pub is_private_as : Family → String → Bool
  is_private_as no_address ip = true
  is_private_as four ip = is_private_v4 (ip_to_int ip)
  is_private_as six ip = is_internal_v6 (p.to_lower_case ip)

  -- The call for the mapped address; that one begins with a digit and is not mapped itself.
  abbrev pub is_private_mapped : Option String → String → Bool
  is_private_mapped none ip = is_internal_v6 (p.to_lower_case ip)
  is_private_mapped (some v4) ip = is_private_as (p.is_ip v4) v4

  abbrev pub is_private_of : Family → String → Bool
  is_private_of no_address ip = true
  is_private_of four ip = is_private_v4 (ip_to_int ip)
  is_private_of six ip = is_private_mapped (v4_mapped (p.to_lower_case ip)) ip

  -- `isPrivateIp`
  abbrev pub is_private_ip : String → Bool
  is_private_ip ip = str_eq ip "" || is_private_of (p.is_ip ip) ip

  -- `opts.allowHttp ?? process.env.NODE_ENV !== 'production'`
  abbrev pub allows_http : Option Bool → Bool
  allows_http none = not p.production
  allows_http (some b) = b

  abbrev pub is_allowed_protocol : Option Bool → String → Bool
  is_allowed_protocol allow protocol =
      str_eq protocol "https" || str_eq protocol "http" && allows_http allow

  -- `url.protocol.replace(':', '').toLowerCase()`
  abbrev pub protocol_of : Url → String
  protocol_of url = p.to_lower_case (remove_colon url.protocol)

  -- The end: an answer of the name service.
  abbrev pub check_answer : Url → Option (String × Family) → Check
  check_answer url none = lookup_failed
  check_answer url (some (address, family)) =
      if is_private_ip address then private_answer else safe url address family

  abbrev pub check_name : Url → Check
  check_name url =
      if is_blocked_name (p.to_lower_case url.hostname)
      then blocked_hostname
      else check_answer url (p.lookup url.hostname)

  abbrev pub check_host : Url → Family → Check
  check_host url no_address = check_name url
  check_host url family =
      if is_private_ip url.hostname then private_host else safe url url.hostname family

  abbrev pub check_url : Option Bool → Option Url → Check
  check_url allow none = invalid_url
  check_url allow (some url) =
      if not (is_allowed_protocol allow (protocol_of url))
      then blocked_protocol
      else if str_eq url.hostname ""
      then missing_host
      else check_host url (p.is_ip url.hostname)

  -- `assertSafeUrl`
  pub assert_safe_url : (raw_url : String) → (allow_http : Option Bool) → Check
  assert_safe_url raw allow = check_url allow (p.parse_url raw)
