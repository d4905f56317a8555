-- ===== src/WebSecurity.antt =====
-- Which addresses the web tools may read: crates/termlm-web/src/security.rs. The parser of URLs (the
-- `url` crate), the parser of addresses and the resolver of names are parameters, `Resolver`.
use termlm.Base.{
  ℕ, ◌/◌, Bool, true, false, ◌&&◌, ◌||◌, List, ◌++◌, Option, none, some, String, leb, ◌==◌, ◌≡◌,
  ◌∙◌, refl, sym, ap, arith, if◌then◌else◌, any,
}
use mathlib.Core.Path.{subst}
use termlm.Base.Text.{
  Text, codes, ends_with, eq_text, to_ascii_lowercase, trim_end_matches, show_u64,
}
use termlm.Index.Bytes.{Result, ok, err}

-- the four bytes, and the eight groups of 16 bits
pub data IpAddr : Type 0 where
  v4 : ℕ → ℕ → ℕ → ℕ → IpAddr
  v6 : ℕ → ℕ → ℕ → ℕ → ℕ → ℕ → ℕ → ℕ → IpAddr

pub record Url : Type 0 where
  pub scheme : Text
  pub host : Option Text
  pub port : Option ℕ  -- the given one, or that of the scheme

-- `to_socket_addrs` gives nothing where the name cannot be resolved
pub record Resolver : Type 0 where
  pub parse_url : Text → Option Url
  pub parse_ip : Text → Option IpAddr
  pub resolve : Text → Option (List IpAddr)

-- `is_private`, `is_link_local`, `is_unique_local` and so on of the standard library
unfoldable pub is_blocked_ip : IpAddr → Bool
is_blocked_ip (v4 a b c d) =
    a == 127
    || (a == 10 || (a == 172 && leb 16 b && leb b 31) || (a == 192 && b == 168))
    || (a == 169 && b == 254)
    || (leb 224 a && leb a 239)
    || (a == 169 && b == 254 && c == 169 && d == 254)
is_blocked_ip (v6 a b c d e f g h) =
    (a == 0 && b == 0 && c == 0 && d == 0 && e == 0 && f == 0 && g == 0 && h == 1)
    || a / 512 == 126
    || a / 64 == 1018
    || a / 256 == 255

unfoldable pub is_local_hostname : Text → Bool
is_local_hostname host =
    let lower = to_ascii_lowercase (trim_end_matches (λ c. c == b'.') host) in
    eq_text lower (codes "localhost")
    || ends_with lower (codes ".localhost")
    || ends_with lower (codes ".local")
    || ends_with lower (codes ".internal")

-- `some` message where the scheme is refused
unfoldable pub refused_scheme : Text → Bool → Option String
refused_scheme scheme allow_plain_http =
    if eq_text scheme (codes "https")
    then none
    else if eq_text scheme (codes "http")
    then (if allow_plain_http then none else some "plain HTTP is disabled")
    else some "unsupported scheme"

abbrev is_blocked : Option IpAddr → Bool
is_blocked none = false
is_blocked (some ip) = is_blocked_ip ip

abbrev any_blocked : Option (List IpAddr) → Bool
any_blocked none = false
any_blocked (some ips) = any is_blocked_ip ips

-- the three tests of a host, in their order
abbrev host_refusal : Bool → Bool → Bool → Option String
host_refusal named address resolved =
    if named
    then some "loopback address is blocked"
    else if address
    then some "private/local/metadata addresses are blocked"
    else if resolved
    then some "resolved host points to private/local/metadata addresses"
    else none

module _ (resolver : Resolver) where
  open resolver use {parse_url, parse_ip, resolve}

  -- whether the name resolves to a blocked address
  unfoldable pub resolves_blocked : Text → Option ℕ → Bool
  resolves_blocked host none = false
  resolves_blocked host (some port) = any_blocked (resolve (host ++ codes ":" ++ show_u64 port))

  unfoldable pub refused_host : Url → Option String
  refused_host url = elim url.host [
    | none ↦ some "missing host"
    | some host ↦
        host_refusal
          (eq_text (to_ascii_lowercase host) (codes "localhost") || is_local_hostname host)
          (is_blocked (parse_ip host)) (resolves_blocked host url.port)
  ]

  abbrev or_url : Url → Option String → Result Url
  or_url url none = ok url
  or_url url (some message) = err message

  unfoldable pub check_url : Url → Bool → Bool → Result Url
  check_url url allow_plain_http allow_local_addresses =
      elim (refused_scheme url.scheme allow_plain_http) [
        | some message ↦ err message
        | none ↦ if allow_local_addresses then ok url else or_url url (refused_host url)
      ]

  unfoldable pub validate_web_url : Text → Bool → Bool → Result Url
  validate_web_url url allow_plain_http allow_local_addresses = elim (parse_url url) [
    | none ↦ err "invalid URL"
    | some parsed ↦ check_url parsed allow_plain_http allow_local_addresses
  ]

  -- What holds of a URL that may be read.
  pub record Public (text : Text) (allow_plain_http : Bool) (url : Url) : Type 0 where
    pub host : Text
    pub parsed : parse_url text ≡ some url
    pub secure :
        (eq_text url.scheme (codes "https")
          || (allow_plain_http && eq_text url.scheme (codes "http")))
        ≡ true
    pub has_host : url.host ≡ some host
    pub named : is_local_hostname host ≡ false
    pub address : (ip : IpAddr) → parse_ip host ≡ some ip → is_blocked_ip ip ≡ false
    pub resolved :
        (port : ℕ) (ips : List IpAddr)
        → url.port ≡ some port
        → resolve (host ++ codes ":" ++ show_u64 port) ≡ some ips
        → any is_blocked_ip ips ≡ false

  scheme-secure :
      (scheme : Text) (plain : Bool)
      → refused_scheme scheme plain ≡ none
      → (eq_text scheme (codes "https") || (plain && eq_text scheme (codes "http"))) ≡ true
  unfolding refused_scheme
  scheme-secure scheme plain h = ground (arith, h)

  -- the tests of a host, where none refuses it
  host-tests :
      (named address blocked : Bool)
      → host_refusal named address blocked ≡ none
      → (named ≡ false) × (address ≡ false) × (blocked ≡ false)
  host-tests true address blocked h = cc
  host-tests false true blocked h = cc
  host-tests false false true h = cc
  host-tests false false false h = (refl, refl, refl)

  refused_host-none :
      (text : Text) (plain : Bool) (url : Url)
      → parse_url text ≡ some url
      → (eq_text url.scheme (codes "https") || (plain && eq_text url.scheme (codes "http"))) ≡ true
      → refused_host url ≡ none
      → Public text plain url
  unfolding refused_host resolves_blocked
  refused_host-none text plain url parsed secure h = by_host url.host refl h
    where
      by_host :
          (o : Option Text)
          → url.host ≡ o
          → (elim o as (λ _. Option String) [
            | none ↦ some "missing host"
            | some host ↦
                host_refusal
                  (eq_text (to_ascii_lowercase host) (codes "localhost") || is_local_hostname host)
                  (is_blocked (parse_ip host))
                  (resolves_blocked host url.port)
          ])
            ≡ none
          → Public text plain url
      by_host none e k = cc
      by_host (some host) e k =
          let (named, address, blocked) = host-tests _ _ _ k in
          record {
            host = host;
            parsed = parsed;
            secure = secure;
            has_host = e;
            named = ground (arith, named);
            address = λ ip found. ap is_blocked (sym found) ∙ address;
            resolved = λ port ips given found.
                (ap any_blocked (sym found) ∙ ap (resolves_blocked host) (sym given)) ∙ blocked;
          }

  -- A URL that is let through, where local addresses are not allowed, parses, has the scheme
  -- `https`, or `http` where that is allowed, and a host; the host is no local name, it is no
  -- blocked address, and none of the addresses that it resolves to with the port is blocked.
  pub validate_web_url-Public :
      (text : Text) (allow_plain_http : Bool) {url : Url}
      → validate_web_url text allow_plain_http false ≡ ok url
      → Public text allow_plain_http url
  unfolding validate_web_url check_url
  validate_web_url-Public text plain {url} h = by_parse (parse_url text) refl h
    where
      err-ok : {message : String} → ◌≡◌ {A = Result Url} (err message) (ok url) → ⊥
      err-ok e = cc

      ok-injective : {a : Url} → Result.ok a ≡ ok url → a ≡ url
      ok-injective e = cc

      by_refusal :
          (parsed : Url) (o : Option String)
          → parse_url text ≡ some parsed
          → (eq_text parsed.scheme (codes "https")
              || (plain && eq_text parsed.scheme (codes "http")))
            ≡ true
          → refused_host parsed ≡ o
          → or_url parsed o ≡ ok url
          → Public text plain url
      by_refusal parsed (some message) e secure refused k = absurd (err-ok k)
      by_refusal parsed none e secure refused k =
          subst (λ u. Public text plain u) (ok-injective k)
            (refused_host-none text plain parsed e secure refused)

      by_scheme :
          (parsed : Url) (o : Option String)
          → parse_url text ≡ some parsed
          → refused_scheme parsed.scheme plain ≡ o
          → (elim o as (λ _. Result Url) [
            | some message ↦ err message
            | none ↦ or_url parsed (refused_host parsed)
          ])
            ≡ ok url
          → Public text plain url
      by_scheme parsed (some message) e refused k = absurd (err-ok k)
      by_scheme parsed none e refused k =
          by_refusal parsed (refused_host parsed) e (scheme-secure parsed.scheme plain refused) refl
            k

      by_parse :
          (o : Option Url)
          → parse_url text ≡ o
          → (elim o as (λ _. Result Url) [
            | none ↦ err "invalid URL"
            | some parsed ↦ check_url parsed plain false
          ])
            ≡ ok url
          → Public text plain url
      by_parse none e k = absurd (err-ok k)
      by_parse (some parsed) e k = by_scheme parsed (refused_scheme parsed.scheme plain) e refl k
