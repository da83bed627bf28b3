-- ===== src/Access/Refused.antt =====
-- What a network that http2d_access_add_subnet of src/access.c refuses leaves in the list.
use Prim.Native.Nat.{bit_and, bit_and-bitwise, digits, min}
use spdy_test.Prelude.{
  ℕ, zero, suc, ◌/◌, ◌≡◌, ◌≢◌, refl, ◌∙◌, List, [], ◌∷◌, Option, some, true, take, replicate, arith,
  inl,
}
use spdy_test.Ret.{Ret}
use spdy_test.CString.{find, strtol}
use spdy_test.Access.{
  Family, ipv4, ipv6, IpItem, SubnetItem, Access, no_ip, same_masked, subnet_item_match, ip_match,
}
use spdy_test.Access.Parse.{
  new_ip, is_slash, pton, length_mask, parse_ip, parse_ip_buf, parse_netmask, access_add_subnet,
  family_of,
}
use spdy_test.Access.Match.{remote_of, ip_match-new_subnet}

and_zero_fuel : (n a : ℕ) → digits (λ b. zero) min n a 0 ≡ 0
and_zero_fuel zero a = refl
and_zero_fuel (suc n) zero = refl
and_zero_fuel (suc n) (suc a) = omega (arith, and_zero_fuel n (suc a / 2))

bit_and-zero : (a : ℕ) → bit_and a 0 ≡ 0
bit_and-zero a = bit_and-bitwise a 0 ∙ and_zero_fuel a a

-- An empty mask compares nothing.
same_masked-zero : (n : ℕ) (xs ys : List ℕ) → same_masked xs ys (replicate n 0) ≡ true
unfolding same_masked
same_masked-zero n [] ys = refl
same_masked-zero n (x ∷ xs) [] = refl
same_masked-zero zero (x ∷ xs) (y ∷ ys) = refl
same_masked-zero (suc n) (x ∷ xs) (y ∷ ys) =
    ground (arith, bit_and-zero x, bit_and-zero y, same_masked-zero n xs ys)

zero_mask_lem :
    (f : Family) (item : IpItem) (peer : List ℕ)
    → item.family ≡ f
    → subnet_item_match (record { base = item; mask = no_ip }) (remote_of f peer) ≡ true
unfolding subnet_item_match
zero_mask_lem ipv4 item peer e = ground (arith, same_masked-zero 4 (take 4 item.ip) peer)
zero_mask_lem ipv6 item peer e = ground (arith, same_masked-zero 16 item.ip peer)

module _ (inet_pton : Family → List ℕ → Option (List ℕ)) (garbage : Family) where
  parse_ip-family :
      (text : List ℕ) → (parse_ip inet_pton text (new_ip garbage)).1.family ≡ family_of text
  unfolding parse_ip
  parse_ip-family text = ground arith

  length_mask_refused :
      (f : Family) (num : ℕ) (mask : List ℕ)
      → (length_mask f num mask).0 ≢ Ret.ok
      → (length_mask f num mask).1 ≡ mask
  unfolding length_mask
  length_mask_refused ipv4 num mask h = ground arith
  length_mask_refused ipv6 num mask h = ground arith

  pton_refused :
      (f : Family) (text old : List ℕ)
      → (pton inet_pton f text old).0 ≢ Ret.ok
      → (pton inet_pton f text old).1 ≡ old
  unfolding pton
  pton_refused f text old h = ground arith

  parse_netmask_refused :
      (text : List ℕ) (n : SubnetItem)
      → (parse_netmask inet_pton text n).0 ≢ Ret.ok
      → (parse_netmask inet_pton text n).1 ≡ n
  unfolding parse_netmask
  parse_netmask_refused text n h = ground (
    arith,
    pton_refused n.base.family text n.mask,
    length_mask_refused n.base.family (strtol text).size n.mask,
  )

  -- What is linked for a network that is refused: an item of its family, with an empty mask.
  refused_item :
      (entry : Access) (subnet ip mask : List ℕ) (c : ℕ) (r : Ret) (entry' : Access)
      → find is_slash subnet ≡ some (ip, c, mask)
      → access_add_subnet inet_pton garbage entry subnet ≡ some (r, entry')
      → r ≢ Ret.ok
      → (item : IpItem) × (item.family ≡ family_of ip)
        × (entry' ≡ record entry {
          list_subnets = record { base = item; mask = no_ip } ∷ entry.list_subnets;
        })
  unfolding access_add_subnet parse_ip_buf
  refused_item entry subnet [] mask c r entry' found runs refused = absurd (ground (arith, found))
  refused_item entry subnet (x ∷ text) mask c r entry' found runs refused =
      let ip = x ∷ text in
      let item = (parse_ip inet_pton ip (new_ip garbage)).1 in
      (
        item,
        parse_ip-family ip,
        ground
            (arith, found, runs, parse_netmask_refused mask (record { base = item; mask = no_ip })),
      )

  -- Where http2d_access_add_subnet returns, which takes a text that is not empty in front of the slash,
  -- and its answer is not ret_ok, for the address or for the mask, the network stays in the list
  -- nevertheless, and the list then admits every peer of the address's family.
  pub access_add_subnet_refused :
      (entry : Access) (subnet ip mask : List ℕ) (c : ℕ) (r : Ret) (entry' : Access)
      → find is_slash subnet ≡ some (ip, c, mask)
      → access_add_subnet inet_pton garbage entry subnet ≡ some (r, entry')
      → r ≢ Ret.ok
      → (peer : List ℕ) → ip_match entry' (remote_of (family_of ip) peer) ≡ Ret.ok
  access_add_subnet_refused entry subnet ip mask c r entry' found runs refused peer =
      let (item, family, linked) =
        refused_item entry subnet ip mask c r entry' found runs refused in
      let new : SubnetItem = record { base = item; mask = no_ip } in
      rw linked (
        (ip_match-new_subnet entry new (remote_of (family_of ip) peer)).1
          (inl (zero_mask_lem (family_of ip) item peer family)))
