-- ===== src/Header/Fields.antt =====
-- What http2d_header_add_header of src/header.c stores.
use spdy_test.Prelude.{
  ℕ, List, [], ◌∷◌, ◌≡◌, ◌≢◌, refl, arith, true, leb, ◌&&◌, ◌+◌, if◌then◌else◌, ◌↔◌,
}
use spdy_test.Header.{
  Header, codes, eq_nocase, add_header, add_special, path_name, method_name, scheme_name,
  version_name, host_name,
}

special_last :
    (hdr : Header) (name v w : List ℕ)
    → add_special (add_special hdr name v) name w ≡ add_special hdr name w
unfolding add_special
special_last hdr name v w = ground arith

-- A header that is added twice keeps the last value: the first one leaves no trace.
pub add_header-add_header :
    (hdr : Header) (key v w : List ℕ)
    → add_header (add_header hdr key v) key w ≡ add_header hdr key w
unfolding add_header
add_header-add_header hdr [] v w = refl
add_header-add_header hdr (c ∷ name) v w = ground (arith, special_last hdr name v w)

-- Names that differ in case only are the same to every comparison.
eq_nocase_congr : (xs ys zs : List ℕ) → eq_nocase xs ys ≡ true → eq_nocase xs zs ≡ eq_nocase ys zs
unfolding eq_nocase
eq_nocase_congr [] [] zs h = refl
eq_nocase_congr [] (y ∷ ys) zs h = cc
eq_nocase_congr (x ∷ xs) [] zs h = cc
eq_nocase_congr (x ∷ xs) (y ∷ ys) [] h = refl
eq_nocase_congr (x ∷ xs) (y ∷ ys) (z ∷ zs) h = ground (arith, eq_nocase_congr xs ys zs)

special_congr :
    (hdr : Header) (n m v : List ℕ)
    → eq_nocase n m ≡ true
    → add_special hdr n v ≡ add_special hdr m v
unfolding add_special
special_congr hdr n m v h = simp (eq_nocase_congr n m _ h)

-- http2d_header_add_header makes no difference between two keys that compare equal without regard
-- to case.
add_header_nocase :
    (hdr : Header) (j k v : List ℕ) → eq_nocase j k ≡ true → add_header hdr j v ≡ add_header hdr k v
unfolding add_header eq_nocase
add_header_nocase hdr [] [] v h = refl
add_header_nocase hdr [] (d ∷ k) v h = cc
add_header_nocase hdr (c ∷ j) [] v h = cc
add_header_nocase hdr (c ∷ j) (d ∷ k) v h = ground (arith, special_congr hdr j k v)

-- The fields of a header, each with the key of a header block that is stored in it.
pub data Field : Type 0 where
  path method scheme version host : Field

abbrev pub key_of : Field → List ℕ
key_of path = codes ":path"
key_of method = codes ":method"
key_of scheme = codes ":scheme"
key_of version = codes ":version"
key_of host = codes ":host"

abbrev pub value_of : Field → Header → List ℕ
value_of path hdr = hdr.path
value_of method hdr = hdr.method
value_of scheme hdr = hdr.scheme
value_of version hdr = hdr.version
value_of host hdr = hdr.host

-- A key with its letters made small.
pub lowered : List ℕ → List ℕ
lowered [] = []
lowered (c ∷ key) = (if leb 65 c && leb c 90 then c + 32 else c) ∷ lowered key

-- How a header comes out of another one when a pair is stored: the field that the key names,
-- without regard to case, has the value, and every other field has what it had.
abbrev pub Stores : List ℕ → List ℕ → Header → Header → Type 0
Stores key val old new =
    (f : Field)
    → (lowered key ≡ key_of f → value_of f new ≡ val)
      × (lowered key ≢ key_of f → value_of f new ≡ value_of f old)

lowered_lem : (xs ys : List ℕ) → (eq_nocase xs ys ≡ true) ↔ (lowered xs ≡ lowered ys)
unfolding eq_nocase lowered
lowered_lem [] [] = (λ h. refl, λ h. refl)
lowered_lem [] (y ∷ ys) = (λ h. cc, λ h. cc)
lowered_lem (x ∷ xs) [] = (λ h. cc, λ h. cc)
lowered_lem (x ∷ xs) (y ∷ ys) =
    let rest = lowered_lem xs ys in (λ h. ground (arith, rest.0), λ h. ground (arith, rest.1))

abbrev name_of : Field → List ℕ
name_of path = path_name
name_of method = method_name
name_of scheme = scheme_name
name_of version = version_name
name_of host = host_name

named :
    (f : Field) (name : List ℕ) → (eq_nocase name (name_of f) ≡ true) ↔ (lowered name ≡ name_of f)
unfolding lowered
named path name = lowered_lem name path_name
named method name = lowered_lem name method_name
named scheme name = lowered_lem name scheme_name
named version name = lowered_lem name version_name
named host name = lowered_lem name host_name

-- The ladder of comparisons by the field whose name it finds.
special_found :
    (hdr : Header) (name val : List ℕ) (f : Field)
    → lowered name ≡ name_of f
    → value_of f (add_special hdr name val) ≡ val
unfolding add_special eq_nocase
special_found hdr name val path h = ground (arith, named path name)
special_found hdr name val method h = ground (arith, named path name, named method name)
special_found hdr name val scheme h =
    ground (arith, named path name, named method name, named scheme name)
special_found hdr name val version h =
    ground (arith, named path name, named method name, named scheme name, named version name)
special_found hdr name val host h = ground (
  arith,
  named path name,
  named method name,
  named scheme name,
  named version name,
  named host name,
)

special_other :
    (hdr : Header) (name val : List ℕ) (f : Field)
    → lowered name ≢ name_of f
    → value_of f (add_special hdr name val) ≡ value_of f hdr
unfolding add_special
special_other hdr name val path h = ground (arith, named path name)
special_other hdr name val method h = ground (arith, named method name)
special_other hdr name val scheme h = ground (arith, named scheme name)
special_other hdr name val version h = ground (arith, named version name)
special_other hdr name val host h = ground (arith, named host name)

key_of_name : (f : Field) → key_of f ≡ b':' ∷ name_of f
key_of_name path = refl
key_of_name method = refl
key_of_name scheme = refl
key_of_name version = refl
key_of_name host = refl

-- http2d_header_add_header stores a pair where its key says.
pub add_header-Stores :
    (hdr : Header) (key val : List ℕ) → Stores key val hdr (add_header hdr key val)
unfolding add_header lowered
add_header-Stores hdr [] val f = (λ e. cc (key_of_name f), λ n. refl)
add_header-Stores hdr (c ∷ name) val f = (
  λ e. ground (arith, key_of_name f, special_found hdr name val f),
  λ n. ground (arith, key_of_name f, special_other hdr name val f),
)
