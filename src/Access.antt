-- ===== src/Access.antt =====
-- The lists of addresses and networks of src/access.c, which say whom a rule or an administrator's
-- port admits. The build has IPv6 and `inet_pton`, which is a parameter, as is the resolver.
pub mod Parse
pub mod Netmask
pub mod Match
pub mod Added
pub mod Refused
use spdy_test.Prelude.{
  ℕ, zero, suc, ◌+◌, ◌-◌, ◌*◌, ◌/◌, ◌%◌, ◌^◌, List, [], ◌∷◌, ◌++◌, Option, none, some, Bool, true,
  false, not, ◌&&◌, ◌||◌, ltb, leb, ◌==◌, if◌then◌else◌, length, take, drop, replicate,
}
use Prim.Native.Nat.{bit_and, bit_or}
use spdy_test.Ret.{Ret}
use spdy_test.CString.{find, has, same, strtol, Long}
use spdy_test.Util.Atoi.{atoi}

-- `ip_type_t`
pub data Family : Type 0 where
  ipv4 ipv6 : Family

abbrev pub family_eq : Family → Family → Bool
family_eq ipv4 ipv4 = true
family_eq ipv4 ipv6 = false
family_eq ipv6 ipv4 = false
family_eq ipv6 ipv6 = true

-- `ip_t` is its 16 bytes, of which an IPv4 address takes the first four.
pub record IpItem : Type 0 where
  pub family : Family
  pub ip : List ℕ

pub record SubnetItem : Type 0 where
  pub base : IpItem
  pub mask : List ℕ

pub record Access : Type 0 where
  pub list_ips : List IpItem
  pub list_subnets : List SubnetItem

abbrev pub no_ip : List ℕ
no_ip = replicate 16 0

abbrev pub access_init : Access
access_init = record { list_ips = []; list_subnets = [] }

-- `IN6_IS_ADDR_V4MAPPED`
unfoldable pub is_v4_mapped : List ℕ → Bool
unfolding same
is_v4_mapped address = same (take 12 address) (replicate 10 0 ++ 255 ∷ 255 ∷ [])

-- Writes the bytes of an address over the front of an `ip_t`.
abbrev pub write_ip : List ℕ → List ℕ → List ℕ
write_ip address ip = address ++ drop (length address) ip

-- The peer's address, by its family.
pub data Remote : Type 0 where
  inet : List ℕ → Remote
  inet6 : List ℕ → Remote
  other : Remote

-- Where every byte of `mask` is applied to both.
unfoldable pub same_masked : List ℕ → List ℕ → List ℕ → Bool
same_masked [] ys mask = true
same_masked (x ∷ xs) [] mask = true
same_masked (x ∷ xs) (y ∷ ys) [] = true
same_masked (x ∷ xs) (y ∷ ys) (m ∷ mask) = bit_and x m == bit_and y m && same_masked xs ys mask

-- The body of the loop over `list_ips`: `true` is the "return ret_ok".
unfoldable pub ip_item_match : IpItem → Remote → Bool
unfolding is_v4_mapped same
ip_item_match i (inet address) = family_eq i.family ipv4 && same address (take 4 i.ip)
ip_item_match i (inet6 address) =
    if family_eq i.family ipv4
    then is_v4_mapped address && same (drop 12 address) (take 4 i.ip)
    else same address i.ip
ip_item_match i other = false

-- The body of the loop over `list_subnets`. An `s_addr` is its four bytes.
unfoldable pub subnet_item_match : SubnetItem → Remote → Bool
unfolding is_v4_mapped same_masked
subnet_item_match i (inet address) =
    family_eq i.base.family ipv4 && same_masked (take 4 i.base.ip) address (take 4 i.mask)
subnet_item_match i (inet6 address) =
    if family_eq i.base.family ipv4
    then is_v4_mapped address && same_masked (take 4 i.base.ip) (drop 12 address) (take 4 i.mask)
    else same_masked i.base.ip address i.mask
subnet_item_match i other = false

unfoldable pub ips_match : List IpItem → Remote → Bool
ips_match [] sock = false
ips_match (i ∷ items) sock = ip_item_match i sock || ips_match items sock

unfoldable pub subnets_match : List SubnetItem → Remote → Bool
subnets_match [] sock = false
subnets_match (i ∷ items) sock = subnet_item_match i sock || subnets_match items sock

unfoldable pub ip_match : Access → Remote → Ret
ip_match entry sock =
    if ips_match entry.list_ips sock
    then Ret.ok
    else if subnets_match entry.list_subnets sock
    then Ret.ok
    else Ret.not_found
