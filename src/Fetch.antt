-- ===== src/Fetch.antt =====
-- internal/fetch/http.go: the guard against private networks, and `Get`. The URL parser, the
-- resolver, the dialer and the HTTP client are the operations of `Net`; a connection is a number.
-- An IPv6 address has a zone, which may be empty.
pub mod Guard
pub mod Dials
use Prim.Native.String.{String, ◌++◌}
use reading_lite_next.Prelude.{
  ℕ, zero, suc, ◌+◌, ◌-◌, ◌*◌, ◌/◌, ◌%◌, ◌^◌, Bool, true, false, not, ◌&&◌, ◌||◌, Option, none,
  some, List, [], ◌∷◌, any, map, length, ltb, leb, ◌==◌, str_eq, if◌then◌else◌,
}
use reading_lite_next.Prelude.Text.{decimal}
use reading_lite_next.Errors.{
  Context, Sentinel, Error, plain, wrapped, sentinel, permanent, rate_limited_by, Result, ok, err,
}
use reading_lite_next.Reading.{Duration}
use reading_lite_next.Httpx.{rate_limit_delay}

-- `netip.Addr`: 32 bits, or 128 bits with a zone
pub data Addr : Type 0 where
  v4 : ℕ → Addr
  v6 : ℕ → String → Addr

-- `netip.Prefix`: its address and its bits
pub data Prefix : Type 0 where
  p4 : ℕ → ℕ → Prefix
  p6 : ℕ → ℕ → Prefix

abbrev pub octets : ℕ → ℕ → ℕ → ℕ → ℕ
octets a b c d = a * 2 ^ 24 + b * 2 ^ 16 + c * 2 ^ 8 + d

-- the address whose first four groups are given, and all others are zero
abbrev pub groups : ℕ → ℕ → ℕ → ℕ → ℕ
groups a b c d = a * 2 ^ 112 + b * 2 ^ 96 + c * 2 ^ 80 + d * 2 ^ 64

-- `Contains`: an address of the same family, without a zone, with the same leading bits
unfoldable pub contains_addr : Addr → Prefix → Bool
contains_addr (v4 n) (p4 base bits) = n / 2 ^ (32 - bits) == base / 2 ^ (32 - bits)
contains_addr (v6 n zone) (p6 base bits) =
    str_eq zone "" && (n / 2 ^ (128 - bits) == base / 2 ^ (128 - bits))
contains_addr _ _ = false

abbrev pub blocked_special_prefixes : List Prefix
blocked_special_prefixes =
    p4 (octets 100 64 0 0) 10
    ∷ p4 (octets 0 0 0 0) 8
    ∷ p4 (octets 192 0 0 0) 24
    ∷ p4 (octets 192 31 196 0) 24
    ∷ p4 (octets 192 52 193 0) 24
    ∷ p4 (octets 192 88 99 0) 24
    ∷ p4 (octets 192 175 48 0) 24
    ∷ p4 (octets 192 0 2 0) 24
    ∷ p4 (octets 198 18 0 0) 15
    ∷ p4 (octets 198 51 100 0) 24
    ∷ p4 (octets 203 0 113 0) 24
    ∷ p4 (octets 240 0 0 0) 4
    ∷ p6 (groups 256 0 0 0) 64
    ∷ p6 (groups 8193 1 0 0 + 1) 128
    ∷ p6 (groups 8193 1 0 0 + 2) 128
    ∷ p6 (groups 8193 3 0 0) 32
    ∷ p6 (groups 8193 4 274 0) 48
    ∷ p6 (groups 8193 3512 0 0) 32
    ∷ p6 (groups 8193 2 0 0) 48
    ∷ p6 (groups 8193 16 0 0) 28
    ∷ p6 (groups 8194 0 0 0) 16
    ∷ p6 (groups 16383 0 0 0) 20
    ∷ p6 (groups 100 65435 1 0) 48
    ∷ p6 (groups 100 65435 0 0) 96
    ∷ p6 (groups 8193 0 0 0) 32
    ∷ p6 (groups 8193 32 0 0) 28
    ∷ p6 (groups 8193 48 0 0) 28
    ∷ p6 (groups 8193 3512 0 0) 32
    ∷ p6 (groups 64512 0 0 0) 7
    ∷ p6 (groups 65152 0 0 0) 10
    ∷ []

-- `Is4In6` and `Unmap`, which drops the zone
unfoldable pub unmapped : Addr → Addr
unmapped (v4 n) = v4 n
unmapped (v6 n zone) = if n / 2 ^ 32 == 65535 then v4 (n % 2 ^ 32) else v6 n zone

unfoldable pub is_loopback : Addr → Bool
is_loopback (v4 n) = n / 2 ^ 24 == 127
is_loopback (v6 n zone) = n == 1

unfoldable pub is_private : Addr → Bool
is_private (v4 n) = n / 2 ^ 24 == 10 || (n / 2 ^ 20 == 2753 || n / 2 ^ 16 == 49320)
is_private (v6 n zone) = n / 2 ^ 121 == 126

unfoldable pub is_link_local_unicast : Addr → Bool
is_link_local_unicast (v4 n) = n / 2 ^ 16 == 43518
is_link_local_unicast (v6 n zone) = n / 2 ^ 118 == 1018

unfoldable pub is_unspecified : Addr → Bool
is_unspecified (v4 n) = n == 0
is_unspecified (v6 n zone) = n == 0 && str_eq zone ""

unfoldable pub is_multicast : Addr → Bool
is_multicast (v4 n) = n / 2 ^ 28 == 14
is_multicast (v6 n zone) = n / 2 ^ 120 == 255

unfoldable pub is_broadcast : Addr → Bool
is_broadcast (v4 n) = n == octets 255 255 255 255
is_broadcast (v6 n zone) = false

unfoldable pub is_private_unmapped : Addr → Bool
unfolding contains_addr is_loopback is_private is_link_local_unicast is_unspecified is_multicast
    is_broadcast
is_private_unmapped addr =
    any (contains_addr addr) blocked_special_prefixes
    || (is_loopback addr
        || (is_private addr
            || (is_link_local_unicast addr
                || (is_unspecified addr || (is_multicast addr || is_broadcast addr)))))

unfoldable pub is_private_address : Addr → Bool
unfolding is_private_unmapped unmapped
is_private_address addr = is_private_unmapped (unmapped addr)

-- What the outside does: an answer of the client has its `Retry-After`, and the URL after redirects.
pub record Answer (D : Type 0) : Type 0 where
  pub status : ℕ
  pub retry_after : String
  pub content_type : String
  pub body : Result D
  pub final_url : String

-- `Resource`, with the type of its body
pub record Fetched (D : Type 0) : Type 0 where
  pub body : D
  pub content_type : String
  pub final_url : String
  pub status : ℕ

-- `read` takes at most that many bytes of a body, in order.
pub record Net (D : Type 0) : Type 0 where
  pub parse_addr : String → Option Addr  -- `netip.ParseAddr`
  pub trim_brackets : String → String
  pub addr_text : Addr → String
  pub split_host_port : String → Result (String × String)
  pub join_host_port : String → String → String
  pub lookup : Context → String → Result (List Addr)
  pub parse_url : String → Result (String × String)  -- scheme and host name of a request
  pub client : String → Result (Answer D)
  pub until : String → Option Duration
  pub size : D → ℕ
  pub read : ℕ → D → D

abbrev pub blocked_address_error : Error
blocked_address_error = wrapped "" (sentinel permanent) ": fetch: blocked private address"

abbrev pub unsupported_scheme : String → Error
unsupported_scheme quoted = plain ("fetch: unsupported URL scheme: " ++ quoted)

-- The addresses that are dialed, all at once, or the error before any is.
pub data Dialing : Type 0 where
  refused : Error → Dialing
  dials : List Addr → List String → Dialing

-- What the dials report, in order; `aborted` is the end of the caller's context.
pub data DialEvent : Type 0 where
  connected : ℕ → DialEvent
  failed : Error → DialEvent
  aborted : Sentinel → DialEvent

-- How the loop over the results ends, with the number of results that are left to drain.
pub data Dialed : Type 0 where
  returned : ℕ → ℕ → Dialed
  gave_up : Sentinel → ℕ → Dialed
  all_failed : Error → Dialed
  waiting : Dialed

unfoldable pub await_dials : ℕ → ℕ → Error → List DialEvent → Dialed
await_dials total zero last events = all_failed last
await_dials total (suc left) last [] = waiting
await_dials total (suc left) last (connected conn ∷ events) = returned conn (total - 1)
await_dials total (suc left) last (failed e ∷ events) = await_dials total left e events
await_dials total (suc left) last (aborted s ∷ events) = gave_up s total

module _ {D : Type 0} (net : Net D) (bypass : Bool) where
  unfoldable pub parse_host_addr : String → Option Addr
  parse_host_addr host = net.parse_addr (net.trim_brackets host)

  abbrev private_host : Option Addr → Bool
  private_host none = false
  private_host (some addr) = is_private_address addr

  unfoldable pub validate_url : String → String → Option Error
  unfolding parse_host_addr
  validate_url scheme host =
      if not (str_eq scheme "") && (not (str_eq scheme "http") && not (str_eq scheme "https"))
      then some (unsupported_scheme scheme)
      else if bypass
      then none
      else if private_host (parse_host_addr host)
      then some blocked_address_error
      else none

  unfoldable pub dialing : String → List Addr → String → Dialing
  dialing host [] port = refused (plain ("fetch: resolve " ++ (host ++ ": no addresses")))
  dialing host (addr ∷ addrs) port =
      dials (addr ∷ addrs) (map (λ a. net.join_host_port (net.addr_text a) port) (addr ∷ addrs))

  unfoldable pub resolved : String → Result (List Addr) → String → Dialing
  unfolding dialing
  resolved host (err e) port = refused (wrapped ("fetch: resolve " ++ (host ++ ": ")) e "")
  resolved host (ok addrs) port =
      if any is_private_address addrs
      then refused blocked_address_error
      else dialing host addrs port

  unfoldable pub split : Context → Result (String × String) → Dialing
  unfolding resolved validate_url
  split ctx (err e) = refused (wrapped "fetch: split dial address: " e "")
  split ctx (ok (host, port)) = elim (validate_url "" host) [
    | some e ↦ refused e
    | none ↦ resolved host (net.lookup ctx host) port
  ]

  -- `guardedDialContext`, up to the dials
  unfoldable pub guarded_dial : Context → String → Dialing
  unfolding split
  guarded_dial ctx address = split ctx (net.split_host_port address)

  -- `CheckRedirect`, of a client without its own: `via` is the number of requests so far
  unfoldable pub check_redirect : String → String → ℕ → Option Error
  unfolding validate_url
  check_redirect scheme host via = elim (if bypass then none else validate_url scheme host) [
    | some e ↦ some e
    | none ↦ if leb 10 via then some (plain "stopped after 10 redirects") else none
  ]

  -- the body, and whether it went on
  unfoldable pub read_capped : D → ℕ → D × Bool
  read_capped body limit =
      let taken = net.read (limit + 1) body in
      if ltb limit (net.size taken) then (net.read limit taken, true) else (taken, false)

  unfoldable pub is_success : ℕ → Bool
  is_success status = leb 200 status && ltb status 300

  capped : ℕ → Answer D → D × Bool → Result (Fetched D)
  unfolding is_success
  capped limit answer (body, oversize) =
      if oversize && is_success answer.status
      then err (
          wrapped "" (sentinel permanent)
            (": fetch: response body exceeds limit: > " ++ (decimal limit ++ " bytes")))
      else ok (record {
        body = body;
        content_type = answer.content_type;
        final_url = answer.final_url;
        status = answer.status;
      })

  read_body : ℕ → Answer D → Result D → Result (Fetched D)
  unfolding capped read_capped
  read_body limit answer (err e) = err (wrapped "fetch: read body: " e "")
  read_body limit answer (ok body) = capped limit answer (read_capped body limit)

  answered : ℕ → String → Result (Answer D) → Result (Fetched D)
  unfolding read_body
  answered limit url (err e) = err (wrapped ("fetch: get " ++ (url ++ ": ")) e "")
  answered limit url (ok answer) =
      if answer.status == 429
      then err (
          rate_limited_by (rate_limit_delay net.until answer.retry_after)
            (plain ("fetch: rate limited by " ++ url)))
      else read_body limit answer answer.body

  requested : ℕ → String → Result (String × String) → Result (Fetched D)
  unfolding answered validate_url
  requested limit url (err e) = err (wrapped "fetch: build request: " e "")
  requested limit url (ok (scheme, host)) =
      if not (str_eq scheme "http") && not (str_eq scheme "https")
      then err (unsupported_scheme scheme)
      else elim (validate_url scheme host) [
        | some e ↦ err e
        | none ↦ answered limit url (net.client url)
      ]

  -- `Get`, with the size limit of the fetcher
  unfoldable pub get : ℕ → String → Result (Fetched D)
  unfolding requested
  get limit url = requested limit url (net.parse_url url)
