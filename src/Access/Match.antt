-- ===== src/Access/Match.antt =====
-- Whom a network that was added to the lists of src/access.c admits.
use spdy_test.Prelude.{
  ℕ, zero, suc, ◌-◌, ◌*◌, ◌≤◌, ◌<◌, ◌≡◌, ◌≢◌, refl, ap, ◌∙◌, ◌↔◌, ◌⊎◌, inl, inr, List, [], ◌∷◌,
  ◌++◌, Option, some, true, false, ◌&&◌, ◌||◌, length, take, drop, arith, Bool-cases, subst,
  append-nil, take_length-append, drop_of_length-le,
}
use spdy_test.Ret.{Ret}
use spdy_test.CString.{find, has, same, strtol}
use spdy_test.Codec.{AreBytes}
use spdy_test.Access.{
  Family, ipv4, ipv6, family_eq, IpItem, SubnetItem, Access, no_ip, is_v4_mapped, write_ip, Remote,
  inet, inet6, same_masked, ip_item_match, subnet_item_match, ips_match, subnets_match, ip_match,
}
use spdy_test.Access.Parse.{
  new_ip, is_slash, mask4, mask6, length_mask, pton, parse_ip, parse_netmask, family_of,
}
use spdy_test.Access.Netmask.{prefix_mask, mask4_lem, mask6_lem}

-- The bytes of an address, and the lengths that a mask can have.
abbrev pub size_of : Family → ℕ
size_of ipv4 = 4
size_of ipv6 = 16

abbrev pub remote_of : Family → List ℕ → Remote
remote_of ipv4 address = inet address
remote_of ipv6 address = inet6 address

-- How the text of an address of each family looks.
abbrev pub LooksLike : Family → List ℕ → Type 0
LooksLike ipv4 text = (has text b':' ≡ false) × (has text b'.' ≡ true) × (length text ≤ 15)
LooksLike ipv6 text = (has text b':' ≡ true) × (has text b'.' ≡ false)

-- The text `ip`, a slash and the decimal text `mask`, which stands for a number of bits.
pub record IsNetwork (f : Family) (ip mask : List ℕ) (address : List ℕ) (num : ℕ) : Type 0 where
  pub looks : LooksLike f ip
  pub no_slash : (has ip b'/' ≡ false) × (has ip 92 ≡ false)
  pub size : length address ≡ size_of f
  pub are_bytes : AreBytes address
  pub not_mapped : (family_eq f ipv6 && is_v4_mapped address) ≡ false
  pub plain : (has mask b':' ≡ false) × (has mask b'.' ≡ false) × (length mask ≤ 3)
  pub number : strtol mask ≡ record { negative = false; size = num; out_of_range = false }
  pub bound : num ≤ 8 * size_of f

pub find-slash :
    (ip mask : List ℕ)
    → has ip b'/' ≡ false
    → has ip 92 ≡ false
    → find is_slash (ip ++ b'/' ∷ mask) ≡ some (ip, b'/', mask)
unfolding find has
find-slash [] mask h k = refl
find-slash (c ∷ ip) mask h k = let rest = find-slash ip mask in ground (arith, rest)

pub has-append : (c : ℕ) (xs ys : List ℕ) → has (xs ++ ys) c ≡ (has xs c || has ys c)
unfolding has
has-append c [] ys = refl
has-append c (x ∷ xs) ys = ground (arith, has-append c xs ys)

pub family_lem : (f : Family) (ip : List ℕ) → LooksLike f ip → family_of ip ≡ f
unfolding family_of
family_lem ipv4 ip (colon, dot, short) = ground arith
family_lem ipv6 ip (colon, dot) = ground arith

-- The new `ip_t` and mask, and what the loops read of them.
read_ip :
    (f : Family) (address : List ℕ)
    → length address ≡ size_of f
    → take (size_of f) (write_ip address no_ip) ≡ address
read_ip f address size =
    subst (λ n. take n (write_ip address no_ip) ≡ address) size
      (take_length-append address (drop (length address) no_ip))

write_ip_all : (address : List ℕ) → length address ≡ 16 → write_ip address no_ip ≡ address
write_ip_all address size =
    ap (λ rest. address ++ rest) (drop_of_length-le (length address) no_ip (omega arith))
    ∙ append-nil address

length_prefix_mask : (num size : ℕ) → length (prefix_mask num size) ≡ size
unfolding prefix_mask
length_prefix_mask num zero = refl
length_prefix_mask num (suc size) = ap suc (length_prefix_mask (num - 8) size)

-- What the loops read of a network's mask.
read_mask4 : (num : ℕ) → num ≤ 32 → take 4 (write_ip (mask4 num) no_ip) ≡ prefix_mask num 4
read_mask4 num bound =
    let size = ap length (mask4_lem num bound) ∙ length_prefix_mask num 4 in
    read_ip ipv4 (mask4 num) size ∙ mask4_lem num bound

pub length_mask4 :
    (num : ℕ) → num ≤ 32 → length_mask ipv4 num no_ip ≡ (Ret.ok, write_ip (mask4 num) no_ip)
unfolding length_mask
length_mask4 num bound = ground arith

pub length_mask6 : (num : ℕ) → num < 128 → length_mask ipv6 num no_ip ≡ (Ret.ok, mask6 num no_ip)
unfolding length_mask
length_mask6 num bound = ground arith

abbrev pub mask_of : Family → ℕ → List ℕ
mask_of ipv4 num = write_ip (mask4 num) no_ip
mask_of ipv6 num = mask6 num no_ip

module _ (inet_pton : Family → List ℕ → Option (List ℕ)) (garbage : Family) where
  pub parse_ip_lem :
      (f : Family) (ip address : List ℕ)
      → LooksLike f ip
      → length address ≡ size_of f
      → (family_eq f ipv6 && is_v4_mapped address) ≡ false
      → inet_pton f ip ≡ some address
      → parse_ip inet_pton ip (new_ip garbage)
        ≡ (Ret.ok, record { family = f; ip = write_ip address no_ip })
  unfolding parse_ip pton is_v4_mapped
  parse_ip_lem ipv4 ip address (colon, dot, short) size not_mapped parsed = ground arith
  parse_ip_lem ipv6 ip address (colon, dot) size not_mapped parsed =
      ground (arith, write_ip_all address size)

  pub parse_netmask_lem :
      (f : Family) (mask : List ℕ) (num : ℕ) (item : IpItem)
      → item.family ≡ f
      → has mask b':' ≡ false
      → has mask b'.' ≡ false
      → length mask ≤ 3
      → strtol mask ≡ record { negative = false; size = num; out_of_range = false }
      → (length_mask f num no_ip).0 ≡ Ret.ok
      → parse_netmask inet_pton mask (record { base = item; mask = no_ip })
        ≡ (Ret.ok, record { base = item; mask = (length_mask f num no_ip).1 })
  unfolding parse_netmask
  parse_netmask_lem f mask num item same_family colon dot short number fits = ground (arith)

-- The body of each loop at a new item.
pub subnet_item_lem :
    (f : Family) (address peer : List ℕ) (num : ℕ)
    → length address ≡ size_of f
    → num ≤ 8 * size_of f
    → num ≢ 128
    → subnet_item_match
        (record { base = record { family = f; ip = write_ip address no_ip }; mask = mask_of f num })
        (remote_of f peer)
      ≡ same_masked address peer (prefix_mask num (length address))
unfolding subnet_item_match
subnet_item_lem ipv4 address peer num size bound special =
    rw (read_ip ipv4 address size, read_mask4 num bound, size) refl
subnet_item_lem ipv6 address peer num size bound special =
    rw (write_ip_all address size, mask6_lem num (omega arith), size) refl

pub ip_item_lem :
    (f : Family) (address peer : List ℕ)
    → length address ≡ size_of f
    → ip_item_match (record { family = f; ip = write_ip address no_ip }) (remote_of f peer)
      ≡ same peer address
unfolding ip_item_match
ip_item_lem ipv4 address peer size = rw (read_ip ipv4 address size) refl
ip_item_lem ipv6 address peer size = rw (write_ip_all address size) refl

match_iff :
    (entry : Access) (sock : Remote)
    → (ip_match entry sock ≡ Ret.ok)
      ↔ ((ips_match entry.list_ips sock || subnets_match entry.list_subnets sock) ≡ true)
unfolding ip_match
match_iff entry sock = (λ h. ground arith, λ h. ground arith)

-- An item at the front of a list is one more way to match.
pub ip_match-new_ip :
    (entry : Access) (i : IpItem) (sock : Remote)
    → (ip_match (record entry { list_ips = i ∷ entry.list_ips }) sock ≡ Ret.ok)
      ↔ ((ip_item_match i sock ≡ true) ⊎ (ip_match entry sock ≡ Ret.ok))
unfolding ips_match
ip_match-new_ip entry i sock =
    let new = match_iff (record entry { list_ips = i ∷ entry.list_ips }) sock in
    let old = match_iff entry sock in
    (
      λ h. elim (Bool-cases (ip_item_match i sock)) [
        | inl found ↦ inl found
        | inr not_found ↦ inr (old.1 (ground (arith, new.0 h)))
      ],
      λ h. new.1 (elim h [ inl found ↦ ground arith | inr found ↦ ground (arith, old.0 found) ]),
    )

pub ip_match-new_subnet :
    (entry : Access) (i : SubnetItem) (sock : Remote)
    → (ip_match (record entry { list_subnets = i ∷ entry.list_subnets }) sock ≡ Ret.ok)
      ↔ ((subnet_item_match i sock ≡ true) ⊎ (ip_match entry sock ≡ Ret.ok))
unfolding subnets_match
ip_match-new_subnet entry i sock =
    let new = match_iff (record entry { list_subnets = i ∷ entry.list_subnets }) sock in
    let old = match_iff entry sock in
    (
      λ h. elim (Bool-cases (subnet_item_match i sock)) [
        | inl found ↦ inl found
        | inr not_found ↦ inr (old.1 (ground (arith, new.0 h)))
      ],
      λ h. new.1 (elim h [ inl found ↦ ground arith | inr found ↦ ground (arith, old.0 found) ]),
    )
