-- ===== src/SafeHttp/Tests.antt =====
-- A platform on which one name resolves, and addresses are told by their first character.
use Prim.Native.String.{String}
use text.Mathlib.Text.{◌==◌ as str_eq}
use webhook_backend.Prelude.{◌≡◌, refl, true, false, Bool, some, none, if◌then◌else◌, [], ◌∷◌, any}
use webhook_backend.SafeHttp.{
  no_address, four, six, Url, Platform, private_answer, private_host, blocked_hostname,
  is_allowed_protocol, protocol_of, is_private_ip, ip_to_int, assert_safe_url,
}
use webhook_backend.SafeHttp.Ranges.{IsFrom, is_internal, assert_safe_url-external}

abbrev is_four : String → Bool
is_four s = any (str_eq s) ("93.184.215.14" ∷ "10.1.2.3" ∷ "127.0.0.1" ∷ [])

abbrev is_six : String → Bool
is_six s = any (str_eq s) ("::ffff:127.0.0.1" ∷ "::ffff:7f00:1" ∷ "fe80:" ∷ "2606:2800::1" ∷ [])

abbrev platform : Platform
platform = record {
  parse_url = λ raw. some (record { protocol = "https:"; hostname = raw });
  is_ip = λ s. if is_four s then four else (if is_six s then six else no_address);
  to_lower_case = λ s. s;
  lookup = λ host.
      if str_eq host "example.com"
      then some ("93.184.215.14", four)
      else (if str_eq host "inner.com" then some ("10.1.2.3", four) else none);
  production = true;
}

abbrev url : Url
url = record { protocol = "https:"; hostname = "example.com" }

assert_safe_url-external_example :
    (platform.parse_url "example.com" ≡ some url)
    × (is_allowed_protocol platform none (protocol_of platform url) ≡ true)
    × IsFrom platform url "93.184.215.14" four
    × (is_private_ip platform "93.184.215.14" ≡ false)
    × (platform.is_ip "93.184.215.14" ≡ four → is_internal (ip_to_int "93.184.215.14") ≡ false)
unfolding assert_safe_url
assert_safe_url-external_example =
    assert_safe_url-external platform "example.com" none url "93.184.215.14" four refl

inner : assert_safe_url platform "inner.com" none ≡ private_answer
unfolding assert_safe_url
inner = refl

literal : assert_safe_url platform "127.0.0.1" none ≡ private_host
unfolding assert_safe_url
literal = refl

local : assert_safe_url platform "printer.local" none ≡ blocked_hostname
unfolding assert_safe_url
local = refl

-- The dotted form of a mapped address is read, the hexadecimal one is not.
mapped : is_private_ip platform "::ffff:127.0.0.1" ≡ true
mapped = refl

mapped_hex : is_private_ip platform "::ffff:7f00:1" ≡ false
mapped_hex = refl
