-- ===== src/Access/Added.antt =====
-- http2d_access_add and http2d_access_ip_match of src/access.c together.
use spdy_test.Prelude.{
  ℕ, ◌*◌, ◌%◌, ◌^◌, ◌≤◌, ◌≡◌, ◌≢◌, refl, sym, ap, ◌∙◌, ◌↔◌, ◌⊎◌, inl, inr, List, [], ◌∷◌, ◌++◌,
  Option, some, Bool, true, false, ◌&&◌, ◌||◌, ◌==◌, length, take, arith, subst,
}
use spdy_test.Ret.{Ret}
use spdy_test.CString.{has, same}
use spdy_test.Util.Atoi.{atoi}
use spdy_test.Codec.{AreBytes}
use spdy_test.Access.{
  Family, ipv4, ipv6, IpItem, SubnetItem, Access, no_ip, write_ip, ip_item_match, subnet_item_match,
  ip_match, family_eq,
}
use spdy_test.Access.Parse.{
  new_ip, length_mask, parse_ip, parse_ip_buf, access_add_ip, access_add_subnet, access_add,
}
use spdy_test.Access.Netmask.{bits, same_masked_lem, bits_inj}
use spdy_test.CString.Same.{same_iff}
use spdy_test.Access.Match.{
  size_of, remote_of, LooksLike, IsNetwork, find-slash, has-append, parse_ip_lem, parse_netmask_lem,
  subnet_item_lem, ip_item_lem, ip_match-new_ip, ip_match-new_subnet, length_mask4, length_mask6,
  mask_of,
}
use native.Mathlib.Decide.{ℕ_discrete}

mask_lem :
    (f : Family) (num : ℕ)
    → num ≤ 8 * size_of f
    → num ≢ 128
    → length_mask f num no_ip ≡ (Ret.ok, mask_of f num)
mask_lem ipv4 num bound special = length_mask4 num bound
mask_lem ipv6 num bound special = length_mask6 num (omega arith)

admit : {P Q Old New : Type 0} → P ↔ Q → New ↔ (P ⊎ Old) → New ↔ (Q ⊎ Old)
admit same new = (
  λ h. elim (new.0 h) [ inl found ↦ inl (same.0 found) | inr old ↦ inr old ],
  λ h. new.1 (elim h [ inl agrees ↦ inl (same.1 agrees) | inr old ↦ inr old ]),
)

-- The test of http2d_access_add for a mask that leaves a single address.
abbrev is_whole : Family → ℕ → Bool
is_whole f num = family_eq f ipv6 && (num == 128) || family_eq f ipv4 && (num == 32)

whole_true : (f : Family) (num : ℕ) → num ≡ 8 * size_of f → is_whole f num ≡ true
whole_true ipv4 num h = ground arith
whole_true ipv6 num h = ground arith

whole_false : (f : Family) (num : ℕ) → num ≢ 8 * size_of f → is_whole f num ≡ false
whole_false ipv4 num h = ground arith
whole_false ipv6 num h = ground arith

signs :
    (f : Family) (text : List ℕ)
    → LooksLike f text
    → (has text b':' ≡ family_eq f ipv6) × (has text b'.' ≡ family_eq f ipv4)
signs ipv4 text (colon, dot, short) = (colon, dot)
signs ipv6 text (colon, dot) = (colon, dot)

not_special : (f : Family) (num : ℕ) → num ≤ 8 * size_of f → num ≢ 8 * size_of f → num ≢ 128
not_special ipv4 num h k e = absurd (omega arith)
not_special ipv6 num h k e = k e

small_mask : (f : Family) (num : ℕ) → num ≤ 8 * size_of f → num % 2 ^ 32 ≡ num
small_mask ipv4 num h = omega arith
small_mask ipv6 num h = omega arith

module _ (inet_pton : Family → List ℕ → Option (List ℕ)) (garbage : Family) (f : Family)
    (ip mask address : List ℕ) (num : ℕ) (network : IsNetwork f ip mask address num)
    (parsed : inet_pton f ip ≡ some address) where
  abbrev item : IpItem
  item = record { family = f; ip = write_ip address no_ip }

  abbrev subnet : SubnetItem
  subnet = record { base = item; mask = mask_of f num }

  parsed_item : parse_ip inet_pton ip (new_ip garbage) ≡ (Ret.ok, item)
  parsed_item =
      parse_ip_lem inet_pton garbage f ip address network.looks network.size network.not_mapped
        parsed

  not_null :
      (text : List ℕ) (c : ℕ) (n : IpItem)
      → has text c ≡ true
      → parse_ip_buf inet_pton text n ≡ some (parse_ip inet_pton text n)
  unfolding has parse_ip_buf
  not_null [] c n h = cc
  not_null (x ∷ text) c n h = refl

  a_sign : (g : Family) (text : List ℕ) → LooksLike g text → (c : ℕ) × (has text c ≡ true)
  a_sign ipv4 text (colon, dot, short) = (b'.', dot)
  a_sign ipv6 text (colon, dot) = (b':', colon)

  parsed_buf : parse_ip_buf inet_pton ip (new_ip garbage) ≡ some (Ret.ok, item)
  parsed_buf =
      let (c, sign) = a_sign f ip network.looks in
      not_null ip c (new_ip garbage) sign ∙ ap some parsed_item

  add_ip_lem :
      (entry : Access)
      → access_add_ip inet_pton garbage entry ip
        ≡ (Ret.ok, record entry { list_ips = item ∷ entry.list_ips })
  unfolding access_add_ip
  add_ip_lem entry = ground (arith, parsed_item)

  add_subnet_lem :
      (entry : Access)
      → num ≢ 8 * size_of f
      → num ≢ 128
      → access_add_subnet inet_pton garbage entry (ip ++ b'/' ∷ mask)
        ≡ some (Ret.ok, record entry { list_subnets = subnet ∷ entry.list_subnets })
  unfolding access_add_subnet
  add_subnet_lem entry part special =
      let masked =
        parse_netmask_lem inet_pton garbage f mask num item refl network.plain.0 network.plain.1
          network.plain.2 network.number (ap (λ r. r.0) (mask_lem f num network.bound special)) in
      let slash = find-slash ip mask network.no_slash.0 network.no_slash.1 in
      ground (arith, slash, parsed_buf, masked, mask_lem f num network.bound special)

  has_mask :
      (c : ℕ) → has mask c ≡ false → (b'/' == c) ≡ false → has (ip ++ b'/' ∷ mask) c ≡ has ip c
  unfolding has
  has_mask c absent other = ground (arith, has-append c ip (b'/' ∷ mask))

  mask_value : atoi mask 0 ≡ (Ret.ok, num)
  unfolding atoi
  mask_value = ground (arith, network.number, small_mask f num network.bound)

  module _ {Addr : Type 0} (resolver : Ret) (get_addrinfo : List ℕ → Ret × List Addr)
      (ntop : Addr → Ret × List ℕ) (entry : Access) where
    abbrev added : Option (Ret × Access)
    added = access_add inet_pton resolver get_addrinfo ntop garbage entry (ip ++ b'/' ∷ mask)

    colon : has (ip ++ b'/' ∷ mask) b':' ≡ family_eq f ipv6
    colon = has_mask b':' network.plain.0 refl ∙ (signs f ip network.looks).0

    dot : has (ip ++ b'/' ∷ mask) b'.' ≡ family_eq f ipv4
    dot = has_mask b'.' network.plain.1 refl ∙ (signs f ip network.looks).1

    full :
        num ≡ 8 * size_of f
        → added ≡ some (Ret.ok, record entry { list_ips = item ∷ entry.list_ips })
    unfolding access_add
    full whole =
        let slash = find-slash ip mask network.no_slash.0 network.no_slash.1 in
        ground (arith, slash, colon, dot, mask_value, whole_true f num whole, add_ip_lem entry)

    part :
        num ≢ 8 * size_of f
        → num ≢ 128
        → added ≡ some (Ret.ok, record entry { list_subnets = subnet ∷ entry.list_subnets })
    unfolding access_add
    part whole special =
        let slash = find-slash ip mask network.no_slash.0 network.no_slash.1 in
        ground (
          arith,
          slash,
          colon,
          dot,
          mask_value,
          whole_false f num whole,
          add_subnet_lem entry whole special,
        )

    abbrev Agrees : List ℕ → Type 0
    Agrees peer = take num (bits peer) ≡ take num (bits address)

    module _ (peer : List ℕ) (size : length peer ≡ size_of f) (are_bytes : AreBytes peer) where
      item_admits :
          num ≡ 8 * size_of f → (ip_item_match item (remote_of f peer) ≡ true) ↔ Agrees peer
      item_admits whole =
          let equal = same_iff peer address in
          let all : num ≡ 8 * length peer = omega arith in
          (
            λ h.
                ap (λ a. take num (bits a))
                  (equal.0 (sym (ip_item_lem f address peer network.size) ∙ h)),
            λ h.
                ip_item_lem f address peer network.size
                ∙ equal.1 (
                    bits_inj peer address (size ∙ sym network.size) are_bytes network.are_bytes
                      (subst (λ n. take n (bits peer) ≡ take n (bits address)) all h)),
          )

      subnet_admits :
          num ≢ 8 * size_of f → (subnet_item_match subnet (remote_of f peer) ≡ true) ↔ Agrees peer
      subnet_admits whole =
          let special = not_special f num network.bound whole in
          let masked = subnet_item_lem f address peer num network.size network.bound special in
          let agree =
            same_masked_lem num address peer (network.size ∙ sym size) network.are_bytes
              are_bytes in
          (λ h. sym (agree.0 (sym masked ∙ h)), λ h. masked ∙ agree.1 (sym h))

      -- The entry "ip/mask" of an access list, where `ip` has no slash and inet_pton reads it as an
      -- address of its family, which is IPv4 for a text with a dot, no colon and at most 15 bytes, and
      -- IPv6 for a text with a colon and no dot whose address does not stand for an IPv4 one; and where
      -- `mask`, at most three bytes without a colon or a dot, reads as a number of bits from 0 to all
      -- that an address of the family has: http2d_access_add accepts it, and a peer of that family then
      -- matches exactly if the first `num` bits of its address are those of `ip`, or if it matched
      -- before.
      pub access_add_lem :
          (entry' : Access) × (added ≡ some (Ret.ok, entry'))
          × ((ip_match entry' (remote_of f peer) ≡ Ret.ok)
              ↔ (Agrees peer ⊎ (ip_match entry (remote_of f peer) ≡ Ret.ok)))
      access_add_lem = elim (ℕ_discrete num (8 * size_of f)) [
        | yes whole ↦ (
          record entry { list_ips = item ∷ entry.list_ips },
          full whole,
          admit (item_admits whole) (ip_match-new_ip entry item (remote_of f peer)),
        )
        | no partial ↦ (
          record entry { list_subnets = subnet ∷ entry.list_subnets },
          part partial (not_special f num network.bound partial),
          admit (subnet_admits partial) (ip_match-new_subnet entry subnet (remote_of f peer)),
        )
      ]
