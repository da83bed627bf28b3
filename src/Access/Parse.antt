-- ===== src/Access/Parse.antt =====
-- How src/access.c reads addresses, masks and networks, and adds them to a list.
use spdy_test.Prelude.{
  ℕ, zero, suc, ◌-◌, ◌/◌, ◌%◌, ◌^◌, List, [], ◌∷◌, ◌++◌, Option, none, some, Bool, false, not, ◌&&◌,
  ◌||◌, ltb, leb, ◌==◌, if◌then◌else◌, ◌>>=◌, length, replicate,
}
use Prim.Native.Nat.{bit_or}
use spdy_test.Ret.{Ret}
use spdy_test.CString.{find, has, strtol}
use spdy_test.Util.Atoi.{atoi}
use spdy_test.Access.{
  Family, family_eq, IpItem, SubnetItem, Access, no_ip, is_v4_mapped, write_ip, ipv4, ipv6,
}

abbrev pub is_slash : ℕ → Bool
is_slash c = c == b'/' || c == 92

-- A new item: its type is not set before it is parsed.
abbrev pub new_ip : Family → IpItem
new_ip garbage = record { family = garbage; ip = no_ip }

abbrev pub new_subnet : Family → SubnetItem
new_subnet garbage = record { base = new_ip garbage; mask = no_ip }

-- The loop `while (jj--)`, with `mask` and `maskbit`.
unfoldable pub mask_bits : ℕ → ℕ → ℕ → ℕ
mask_bits zero mask maskbit = mask
mask_bits (suc jj) mask maskbit = mask_bits jj (bit_or mask maskbit) (maskbit / 2)

-- The IPv6 mask of a length below 128: the bytes behind `j` are left as they are.
unfoldable pub mask6 : ℕ → List ℕ → List ℕ
unfolding mask_bits
mask6 num mask = write_ip (replicate (num / 8) 255 ++ mask_bits (num % 8) 0 128 ∷ []) mask

-- htonl: the bytes of a 32-bit word, the highest first.
unfoldable pub word_bytes : ℕ → List ℕ
word_bytes w = w / 2 ^ 24 % 256 ∷ w / 2 ^ 16 % 256 ∷ w / 2 ^ 8 % 256 ∷ w % 256 ∷ []

unfoldable pub mask4 : ℕ → List ℕ
unfolding word_bytes
mask4 num = if num == 0 then word_bytes 0 else word_bytes (2 ^ 32 - 2 ^ (32 - num))

-- `num` is the size of the number that `strtol` read.
unfoldable pub length_mask : Family → ℕ → List ℕ → Ret × List ℕ
unfolding mask4 mask6
length_mask ipv4 num mask =
    if ltb 32 num then (Ret.error, mask) else (Ret.ok, write_ip (mask4 num) mask)
length_mask ipv6 num mask =
    if ltb 128 num
    then (Ret.error, mask)
    else if num == 128
    then (Ret.ok, no_ip)
    else (Ret.ok, mask6 num mask)

-- "Test if it is a IPv4 or IPv6 connection."
unfoldable pub family_of : List ℕ → Family
unfolding has
family_of text = if has text b':' || ltb 15 (length text) then ipv6 else ipv4

module _
    -- The bytes of the address that a text stands for, if it is one of that family.
    (inet_pton : Family → List ℕ → Option (List ℕ)) where
  -- What `inet_pton` leaves of the old bytes where it fails: all of them.
  unfoldable pub pton : Family → List ℕ → List ℕ → Ret × List ℕ
  pton family text ip = elim (inet_pton family text) [
    | none ↦ (Ret.error, ip)
    | some address ↦ (Ret.ok, write_ip address ip)
  ]

  unfoldable pub parse_ip : List ℕ → IpItem → Ret × IpItem
  unfolding family_of is_v4_mapped pton
  parse_ip text n =
      let family = family_of text in
      let (parsed, ip) = pton family text n.ip in
      let item : IpItem = record { family = family; ip = ip } in
      if family_eq family ipv6 && is_v4_mapped ip then (Ret.error, item) else (parsed, item)

  unfoldable pub parse_netmask : List ℕ → SubnetItem → Ret × SubnetItem
  unfolding length_mask
  parse_netmask text n =
      if has text b':' || has text b'.'
      then (let (parsed, mask) = pton n.base.family text n.mask in
          (parsed, record n { mask = mask }))
      else if ltb 3 (length text)
      then (Ret.error, n)
      else let num = strtol text in
        if num.negative && ltb 0 num.size
        then (Ret.error, n)
        else let (ret, mask) = length_mask n.base.family num.size n.mask in
          (ret, record n { mask = mask })

  -- `garbage` is what the allocator leaves in the type of the new item.
  unfoldable pub access_add_ip : Family → Access → List ℕ → Ret × Access
  access_add_ip garbage entry text =
      let (ret, n) = parse_ip text (new_ip garbage) in
      elim ret [
        | Ret.ok ↦ (Ret.ok, record entry { list_ips = n ∷ entry.list_ips })
        | failed ↦ (failed, entry)
      ]

  -- parse_ip of `ip.buf`, to which the text in front of the slash was added: where that is empty, the
  -- buffer has no block, and `none` is strchr reading through NULL.
  unfoldable pub parse_ip_buf : List ℕ → IpItem → Option (Ret × IpItem)
  unfolding parse_ip
  parse_ip_buf [] n = none
  parse_ip_buf (c ∷ text) n = some (parse_ip (c ∷ text) n)

  -- The subnet is linked before it is parsed, and stays so when that fails.
  unfoldable pub access_add_subnet : Family → Access → List ℕ → Option (Ret × Access)
  unfolding find parse_ip_buf
  access_add_subnet garbage entry subnet = elim (find is_slash subnet) [
    | none ↦ some (Ret.error, entry)
    | some (ip, slash, mask) ↦ do
      let link = λ (n : SubnetItem). record entry { list_subnets = n ∷ entry.list_subnets }
      (ret, item) ← parse_ip_buf ip (new_ip garbage)
      let n : SubnetItem = record { base = item; mask = no_ip }
      let masked = parse_netmask mask n
      let parsed = elim masked.0 as (λ x. Ret × Access) [
        | Ret.ok ↦ (Ret.ok, link masked.1)
        | failed ↦ (Ret.error, link masked.1)
      ]
      some (elim ret [ Ret.ok ↦ parsed | failed ↦ (Ret.error, link n) ])
  ]

  module _ {Addr : Type 0}
      -- The cache of resolved names: whether there is one, what it finds, and the text of an address.
      (resolver : Ret) (get_addrinfo : List ℕ → Ret × List Addr) (ntop : Addr → Ret × List ℕ)
      (garbage : Family) where
    unfoldable pub add_addresses : Access → List Addr → Ret × Access
    add_addresses entry [] = (Ret.ok, entry)
    add_addresses entry (addr ∷ addresses) =
        let (ret, ip) = ntop addr in
        let (ret', entry') = access_add_ip garbage entry ip in
        let rest = add_addresses entry' addresses in
        let added = elim ret' as (λ x. Ret × Access) [
          | Ret.ok ↦ rest
          | failed ↦ (failed, entry')
        ] in
        elim ret [ Ret.ok ↦ added | failed ↦ (failed, entry) ]

    unfoldable pub access_add_domain : Access → List ℕ → Ret × Access
    unfolding add_addresses
    access_add_domain entry domain =
        let (ret, addresses) = get_addrinfo domain in
        let found = elim ret as (λ x. Ret × Access) [
          | Ret.ok ↦ add_addresses entry addresses
          | failed ↦ (failed, entry)
        ] in
        elim resolver [ Ret.ok ↦ found | failed ↦ (failed, entry) ]

    unfoldable pub has_letter : List ℕ → Bool
    has_letter [] = false
    has_letter (c ∷ text) = leb b'a' c && leb c b'z' || leb b'A' c && leb c b'Z' || has_letter text

    unfoldable pub access_add : Access → List ℕ → Option (Ret × Access)
    unfolding find has has_letter
    access_add entry text =
        let colon = has text b':' in
        elim (find is_slash text) [
          | none ↦ some (
              if not colon && has_letter text
              then access_add_domain entry text
              else access_add_ip garbage entry text)
          | some (ip, slash, rest) ↦
              let (ret, mask) = atoi rest 0 in
              let subnet =
                if colon && (mask == 128)
                then some (access_add_ip garbage entry ip)
                else if has text b'.' && (mask == 32)
                then some (access_add_ip garbage entry ip)
                else access_add_subnet garbage entry text in
              elim ret [ Ret.ok ↦ subnet | failed ↦ some (Ret.error, entry) ]
        ]
