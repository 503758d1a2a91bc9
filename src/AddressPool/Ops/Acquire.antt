-- ===== src/AddressPool/Ops/Acquire.antt =====
-- gst_rtsp_address_pool_acquire_address of gst/rtsp-server/rtsp-address-pool.c.
use gst_rtsp_server_wfd.Prelude.{
  ℕ, ◌+◌, ◌%◌, ◌≤◌, ◌<◌, ◌≡◌, refl, ◌∙◌, List, [], ◌∷◌, true, false, Option, none, some, arith, All,
  ◌==◌, Bool-cases, inl, inr,
}
use gst_rtsp_server_wfd.Bytes.Value.{value}
use gst_rtsp_server_wfd.AddressPool.{
  Inet, AddrRange, AddressPool, Address, AddressFlags, size, is_even_port,
}
use gst_rtsp_server_wfd.AddressPool.Cover.{Point, pool_count, IsPool}
use gst_rtsp_server_wfd.AddressPool.Ops.{is_suitable, skip_for, make_address, acquire_address}
use gst_rtsp_server_wfd.AddressPool.Ops.Conserve.{
  Acquires, refused, taken, IsEmptyHanded, acquire_address-Acquires,
}

-- The range is of the kind that the flags ask for.
pub record Meets (flags : AddressFlags) (r : AddrRange) : Type 0 where
  pub is_ipv4 : flags.ipv4 ≡ true → size r.min ≡ 4
  pub is_ipv6 : flags.ipv6 ≡ true → size r.min ≡ 16
  pub is_multicast : flags.multicast ≡ true → 0 < r.ttl
  pub is_unicast : flags.unicast ≡ true → r.ttl ≡ 0

-- `first` is the lowest port of the range that the flags allow.
pub record IsFirst (flags : AddressFlags) (r : AddrRange) (first : ℕ) : Type 0 where
  pub in_range : r.min.port ≤ first
  pub even : flags.even_port ≡ true → first % 2 ≡ 0
  pub lowest : (q : ℕ) → r.min.port ≤ q → (flags.even_port ≡ true → q % 2 ≡ 0) → first ≤ q

skip_for-IsFirst :
    (flags : AddressFlags) (r : AddrRange) → IsFirst flags r (r.min.port + skip_for flags r)
unfolding is_even_port
skip_for-IsFirst flags r = record {
  in_range = omega arith;
  even = λ h. ground arith;
  lowest = λ q le ok. ground arith;
}

is_suitable-Meets :
    (flags : AddressFlags) (n : ℕ) (r : AddrRange) → is_suitable flags n r ≡ true → Meets flags r
unfolding is_suitable
is_suitable-Meets flags n r h = record {
  is_ipv4 = λ k. ground arith;
  is_ipv6 = λ k. ground arith;
  is_multicast = λ k. ground arith;
  is_unicast = λ k. ground arith;
}

-- What a caller that asks for `n` ports holds: a range `r` of one address.
pub record Holding (inet : Inet) (flags : AddressFlags) (n : ℕ) (addr : Address) (r : AddrRange)
    : Type 0 where
  pub written : addr.address ≡ inet.to_string r.min.bytes
  pub same_port : addr.port ≡ r.min.port
  pub same_ttl : addr.ttl ≡ r.ttl
  pub owned : addr.owned ≡ true
  pub one_address : value r.max.bytes ≡ value r.min.bytes
  pub all_ports : r.max.port + 1 ≡ addr.port + n
  pub even : flags.even_port ≡ true → addr.port % 2 ≡ 0
  pub meets : Meets flags r

Acquires-conserves :
    {inet : Inet} {pool : AddressPool} {flags : AddressFlags} {n : ℕ}
    {out : AddressPool × Option Address}
    → IsPool pool
    → Acquires inet pool flags n out
    → IsPool out.0 × ((p : Point) → pool_count p out.0 ≡ pool_count p pool)
Acquires-conserves v (refused h) = (v, λ p. refl)
Acquires-conserves v (taken range after r s a) = (a.is_pool, a.conserves)

-- acquire_address keeps a well-formed pool well-formed, and keeps how often each address and port
-- is in the pool, free or allocated, on every branch.
pub acquire_address-conserves :
    (inet : Inet) (pool : AddressPool) (flags : AddressFlags) (n : ℕ)
    → IsPool pool
    → let after = (acquire_address inet pool flags n).0 in
      IsPool after × ((p : Point) → pool_count p after ≡ pool_count p pool)
unfolding acquire_address
acquire_address-conserves inet pool flags n v = elim (Bool-cases (n == 0)) [
  | inl e ↦ rw e (v, λ p. refl)
  | inr e ↦ Acquires-conserves v (acquire_address-Acquires inet pool flags n v (ground arith))
]

abbrev pub Serves : Inet → AddressPool → AddressFlags → ℕ → AddressPool → Option Address → Type 0
Serves inet pool flags n after none =
    (after ≡ pool)
    × All (λ r. Meets flags r → (first : ℕ) → IsFirst flags r first → r.max.port + 1 < first + n)
        pool.addresses
Serves inet pool flags n after (some addr) =
    (r : AddrRange) × (after.allocated ≡ r ∷ pool.allocated)
    × (addr.priv ≡ some r.ptr)
    × Holding inet flags n addr r

-- A range that is passed over lacks the ports, from any first one that the flags allow.
passed_over :
    (flags : AddressFlags) (n : ℕ) (r : AddrRange)
    → is_suitable flags n r ≡ false
    → Meets flags r
    → (first : ℕ) → IsFirst flags r first
    → r.max.port + 1 < first + n
unfolding is_suitable
passed_over flags n r h m first f =
    let least = (skip_for-IsFirst flags r).lowest first f.in_range f.even in
    ground (arith, least, m)

every_passed_over :
    (flags : AddressFlags) (n : ℕ) (rs : List AddrRange)
    → IsEmptyHanded (is_suitable flags n) rs
    → All (λ r. Meets flags r → (first : ℕ) → IsFirst flags r first → r.max.port + 1 < first + n) rs
every_passed_over flags n [] h = tt
every_passed_over flags n (r ∷ rs) h = (passed_over flags n r h.0, every_passed_over flags n rs h.1)

Acquires-Serves :
    {inet : Inet} {pool : AddressPool} {flags : AddressFlags} {n : ℕ}
    {out : AddressPool × Option Address}
    → Acquires inet pool flags n out
    → Serves inet pool flags n out.0 out.1
unfolding make_address
Acquires-Serves {pool = pool} {flags} {n} (refused h) =
    (refl, every_passed_over flags n pool.addresses h)
Acquires-Serves {flags = flags} {n} (taken range after r s a) = (
  r,
  a.noted,
  refl,
  record {
    written = refl;
    same_port = refl;
    same_ttl = refl;
    owned = refl;
    one_address = a.granted.one_address;
    all_ports = a.granted.all_ports;
    even = λ k. omega (arith, a.granted.first_port, (skip_for-IsFirst flags range).even k);
    meets = moved (is_suitable-Meets flags n range s);
  },
)
  where
    moved : Meets flags range → Meets flags r
    moved m = record {
      is_ipv4 = λ k. a.same_size ∙ m.is_ipv4 k;
      is_ipv6 = λ k. a.same_size ∙ m.is_ipv6 k;
      is_multicast = λ k. omega (arith, a.same_ttl, m.is_multicast k);
      is_unicast = λ k. a.same_ttl ∙ m.is_unicast k;
    }

-- acquire_address, asked for at least one port of a well-formed pool: an address that it returns
-- stands for a newly allocated range of exactly that one address and of exactly the requested
-- number of consecutive ports, which has the size and the kind of TTL that the flags ask for, and
-- an even first port if they ask for one. Where it returns none the pool is unchanged, and no free
-- range of the right kind has that many ports behind its first allowed one.
pub acquire_address-Serves :
    (inet : Inet) (pool : AddressPool) (flags : AddressFlags) (n : ℕ)
    → IsPool pool
    → 0 < n
    → Serves inet pool flags n
        (acquire_address inet pool flags n).0
        (acquire_address inet pool flags n).1
acquire_address-Serves inet pool flags n v pos =
    Acquires-Serves (acquire_address-Acquires inet pool flags n v pos)
