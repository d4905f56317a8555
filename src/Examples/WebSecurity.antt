-- ===== src/Examples/WebSecurity.antt =====
-- Addresses of the web.
use termlm.Base.{true, false, [], ◌∷◌, none, some, ◌≡◌, refl, if◌then◌else◌}
use termlm.Base.Text.{codes, ends_with, eq_text, to_ascii_lowercase, trim_end_matches, decimal}
use termlm.Index.Bytes.{ok}
use termlm.WebSecurity.{
  v4, v6, Url, Resolver, is_blocked_ip, is_local_hostname, refused_scheme, resolves_blocked,
  refused_host, check_url, validate_web_url, Public, validate_web_url-Public,
}

-- One name, which a resolver knows.
abbrev page : Url
page = record { scheme = codes "https"; host = some (codes "example.com"); port = some 443 }

abbrev resolver : Resolver
resolver = record {
  parse_url = λ text. if eq_text text (codes "https://example.com") then some page else none;
  parse_ip = λ host. none;
  resolve = λ address.
      if eq_text address (codes "example.com:443") then some (v4 93 184 216 34 ∷ []) else none;
}

page-allowed : validate_web_url resolver (codes "https://example.com") false false ≡ ok page
unfolding validate_web_url check_url refused_scheme refused_host resolves_blocked is_local_hostname
    is_blocked_ip ends_with eq_text to_ascii_lowercase trim_end_matches decimal
page-allowed = refl

validate_web_url-Public_example : Public resolver (codes "https://example.com") false page
validate_web_url-Public_example =
    validate_web_url-Public resolver (codes "https://example.com") false page-allowed

-- the address of the metadata service, and a private one
blocked_addresses :
    (is_blocked_ip (v4 169 254 169 254) ≡ true) × (is_blocked_ip (v4 172 31 0 1) ≡ true)
unfolding is_blocked_ip
blocked_addresses = (refl, refl)

-- Not blocked: 0.0.0.0, which connects to the own host, and ::ffff:127.0.0.1, the loopback address in the form of IPv6.
passed_addresses :
    (is_blocked_ip (v4 0 0 0 0) ≡ false) × (is_blocked_ip (v6 0 0 0 0 0 0xffff 0x7f00 1) ≡ false)
unfolding is_blocked_ip
passed_addresses = (refl, refl)
