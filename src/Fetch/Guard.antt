-- ===== src/Fetch/Guard.antt =====
-- internal/fetch/http.go: which addresses the guarded dialer dials.
use reading_lite_next.Prelude.{
  map, ℕ, String, ◌+◌, ◌-◌, ◌/◌, ◌%◌, ◌^◌, ◌≤◌, ◌<◌, ◌≡◌, ◌≢◌, Bool, ◌⊎◌, All,
}
use reading_lite_next.Errors.{Context, ok}
use reading_lite_next.Fetch.{Addr, v4, v6, Net, Dialing, refused, dials, groups}

-- The number is not in the range from `first` to `last`.
abbrev pub Outside : ℕ → ℕ → ℕ → Type 0
Outside n first last = (n < first) ⊎ (last < n)

-- Not in 0/8, 10/8, 100.64/10, 127/8, 169.254/16, 172.16/12, 192.0.0/24, 192.0.2/24, 192.31.196/24,
-- 192.52.193/24, 192.88.99/24, 192.168/16, 192.175.48/24, 198.18/15, 198.51.100/24, 203.0.113/24,
-- 224/4 and 240/4.
pub record IsGlobal4 (n : ℕ) : Type 0 where
  this_network : 16777216 ≤ n
  ten : Outside n 167772160 184549375
  carrier : Outside n 1681915904 1686110207
  loopback : Outside n 2130706432 2147483647
  link_local : Outside n 2851995648 2852061183
  private_12 : Outside n 2886729728 2887778303
  protocol : Outside n 3221225472 3221225727
  documentation : Outside n 3221225984 3221226239
  private_16 : Outside n 3232235520 3232301055
  benchmark : Outside n 3323068416 3323199487
  as112 : Outside n 3223307264 3223307519
  amt : Outside n 3224682752 3224683007
  relay : Outside n 3227017984 3227018239
  as112_direct : Outside n 3232706560 3232706815
  documentation_2 : Outside n 3325256704 3325256959
  documentation_3 : Outside n 3405803776 3405804031
  multicast : n < 3758096384

-- Not unspecified, and in none of 64:ff9b::/96, 64:ff9b:1::/48, 100::/64, 2001::/32, 2001:1::1,
-- 2001:1::2, 2001:2::/48, 2001:3::/32, 2001:4:112::/48, 2001:10::/28, 2001:20::/28, 2001:30::/28,
-- 2001:db8::/32, 2002::/16 and 3fff::/20.
pub record IsUnembedded (n : ℕ) : Type 0 where
  unspecified : n ≢ 0
  nat64 : Outside n (groups 100 65435 0 0) (groups 100 65435 0 0 + (2 ^ 32 - 1))
  discard : Outside n (groups 256 0 0 0) (groups 256 0 0 1 - 1)
  teredo : Outside n (groups 8193 0 0 0) (groups 8193 1 0 0 - 1)
  documentation : Outside n (groups 8193 3512 0 0) (groups 8193 3513 0 0 - 1)
  six_to_four : Outside n (groups 8194 0 0 0) (groups 8195 0 0 0 - 1)
  documentation_20 : Outside n (groups 16383 0 0 0) (groups 16383 4096 0 0 - 1)
  anycast_1 : n ≢ groups 8193 1 0 0 + 1
  anycast_2 : n ≢ groups 8193 1 0 0 + 2
  amt : Outside n (groups 8193 3 0 0) (groups 8193 4 0 0 - 1)
  as112 : Outside n (groups 8193 4 274 0) (groups 8193 4 275 0 - 1)
  benchmark : Outside n (groups 8193 2 0 0) (groups 8193 2 1 0 - 1)
  orchid : Outside n (groups 8193 16 0 0) (groups 8193 32 0 0 - 1)
  orchid_v2 : Outside n (groups 8193 32 0 0) (groups 8193 48 0 0 - 1)
  drone_id : Outside n (groups 8193 48 0 0) (groups 8193 64 0 0 - 1)
  local_nat64 : Outside n (groups 100 65435 1 0) (groups 100 65435 2 0 - 1)

-- Not ::1, and in none of fc00::/7, fe80::/10 and ff00::/8. The prefixes of the transition mechanisms
-- match no address with a zone.
pub record IsGlobal6 (n : ℕ) (zone : String) : Type 0 where
  loopback : n ≢ 1
  unique_local : Outside n (groups 64512 0 0 0) (groups 65024 0 0 0 - 1)
  link_local : Outside n (groups 65152 0 0 0) (groups 65216 0 0 0 - 1)
  multicast : n < groups 65280 0 0 0
  unembedded : (zone ≢ "") ⊎ IsUnembedded n

-- An address that no special-purpose range has; one that embeds an IPv4 address is judged by it.
abbrev pub IsGlobal : Addr → Type 0
IsGlobal (v4 n) = IsGlobal4 n
IsGlobal (v6 n zone) = ((n / 2 ^ 32 ≡ 65535) × IsGlobal4 (n % 2 ^ 32)) ⊎ IsGlobal6 n zone

-- the bits of an address
abbrev pub IsAddr : Addr → Type 0
IsAddr (v4 n) = n < 2 ^ 32
IsAddr (v6 n zone) = n < 2 ^ 128

module _ {D : Type 0} (net : Net D) (bypass : Bool) where
  -- What is dialed is every answer of the resolver for the host of the address, and nothing else, each
  -- as the text of the address itself with the port; and all of them are global.
  abbrev pub IsVetted : Context → String → Dialing → Type 0
  IsVetted ctx address (refused e) = Unit
  IsVetted ctx address (dials addrs texts) =
      (target : String × String) × (net.split_host_port address ≡ ok target)
      × (net.lookup ctx target.0 ≡ ok addrs)
      × (texts ≡ map (λ a. net.join_host_port (net.addr_text a) target.1) addrs)
      × All IsGlobal addrs
