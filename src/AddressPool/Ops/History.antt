-- ===== src/AddressPool/Ops/History.antt =====
-- The pool of gst/rtsp-server/rtsp-address-pool.c over any sequence of calls.
use gst_rtsp_server_wfd.Prelude.{
  ℕ, ◌+◌, ◌≤◌, ◌<◌, ◌≡◌, refl, ap, ◌∙◌, List, [], ◌∷◌, Bool, not, Option, none, some, arith, All,
  ◌==◌, ==_self, Bool-cases, Option-cases, inl, inr, u16,
}
use gst_rtsp_server_wfd.Bytes.Value.{AreBytes}
use gst_rtsp_server_wfd.AddressPool.{
  Inet, Addr, AddrRange, AddressPool, Address, AddressFlags, PoolResult, fill_address,
}
use gst_rtsp_server_wfd.AddressPool.Cover.{
  Point, holds, pool_count, count_holding, IsPool, IsDisjoint,
}
use gst_rtsp_server_wfd.AddressPool.Ops.{
  find_link, acquire_address, reserve_address, address_free, release_range, make_address,
}
use gst_rtsp_server_wfd.AddressPool.Ops.Conserve.{
  find_link-Found, Acquires, refused, taken, acquire_address-Acquires,
}
use gst_rtsp_server_wfd.AddressPool.Ops.Acquire.{acquire_address-conserves}
use gst_rtsp_server_wfd.AddressPool.Ops.Reserve.{
  Reserves, reserved, in_use, out_of_range, reserve_address-Reserves,
}

abbrev Kept : AddressPool → AddressPool → Type 0
Kept pool after = IsPool after × ((p : Point) → pool_count p after ≡ pool_count p pool)

release_range-Kept :
    (pool : AddressPool) (ptr : ℕ) → IsPool pool → Kept pool (release_range pool ptr)
unfolding release_range
release_range-Kept pool ptr v =
    elim (Option-cases (find_link (λ range. range.ptr == ptr) pool.allocated)) [
      | inl e ↦ rw (e, release_range) (v, λ p. refl)
      | inr (found, e) ↦
          let f = find_link-Found _ pool.allocated found.0 found.1 e in
          let (now, rest) = f.kept v.out in
          rw (e, release_range)
            (record { free = (now, v.free); out = rest }, λ p. omega (arith, f.taken p))
    ]

-- address_free keeps a well-formed pool well-formed and how often each address and port is in it,
-- whatever address it is given: one of the pool, one already freed, a copy, or a stranger.
pub address_free-conserves :
    (pool : AddressPool) (addr : Address)
    → IsPool pool
    → IsPool (address_free pool addr)
      × ((p : Point) → pool_count p (address_free pool addr) ≡ pool_count p pool)
unfolding address_free
address_free-conserves pool addr v = elim (Option-cases addr.priv) [
  | inl e ↦ rw (e, address_free) (v, λ p. refl)
  | inr (ptr, e) ↦ elim (Bool-cases addr.owned) [
    | inl o ↦ rw (e, address_free, o) (release_range-Kept pool ptr v)
    | inr o ↦ rw (e, address_free, o) (v, λ p. refl)
  ]
]

pub data Request : Type 0 where
  acquires : AddressFlags → ℕ → Request
  reserves : List ℕ → ℕ → ℕ → ℕ → Request
  frees : Address → Request

pub step : Inet → AddressPool → Request → AddressPool
step inet pool (acquires flags n) = (acquire_address inet pool flags n).0
step inet pool (reserves ip port n ttl) = (reserve_address inet pool ip port n ttl).0
step inet pool (frees addr) = address_free pool addr

pub run : Inet → AddressPool → List Request → AddressPool
run inet pool [] = pool
run inet pool (q ∷ qs) = run inet (step inet pool q) qs

-- A GInetAddress is made of bytes.
abbrev pub GivesBytes : Inet → Type 0
GivesBytes inet = (text bytes : List ℕ) → inet.from_string text ≡ some bytes → AreBytes bytes

-- No port of a reservation wraps around.
abbrev pub IsSane : Request → Type 0
IsSane (acquires flags n) = Unit {0}
IsSane (reserves ip port n ttl) = port + n ≤ 4294967296
IsSane (frees addr) = Unit {0}

fill_address-AreBytes :
    (inet : Inet) (text : List ℕ) (port : ℕ) (is_multicast : Bool) (input : Addr)
    → GivesBytes inet
    → fill_address inet text port is_multicast ≡ some input
    → AreBytes input.bytes
unfolding fill_address
fill_address-AreBytes inet text port is_multicast input g e = read (inet.from_string text) refl e
  where
    read :
        (o : Option (List ℕ))
        → inet.from_string text ≡ o
        → fill_address inet text port is_multicast ≡ some input
        → AreBytes input.bytes
    read none k e = absurd (ground arith)
    read (some bytes) k e =
        let same : bytes ≡ input.bytes = ground arith in rw same at (g text bytes k)

Reserves-Kept :
    {inet : Inet} {pool : AddressPool} {input : Addr} {port n ttl : ℕ}
    {out : AddressPool × PoolResult × Option Address}
    → IsPool pool
    → Reserves inet pool input port n ttl out
    → Kept pool out.0
Reserves-Kept v (reserved range after r m c a1 a2 a3 a4 a5 a6 p k) = (p, k)
Reserves-Kept v (in_use r a m c) = (v, λ p. refl)
Reserves-Kept v (out_of_range a b) = (v, λ p. refl)

reserve_address-Kept :
    (inet : Inet) (pool : AddressPool) (ip : List ℕ) (port n ttl : ℕ)
    → GivesBytes inet
    → port + n ≤ 4294967296
    → IsPool pool
    → Kept pool (reserve_address inet pool ip port n ttl).0
unfolding reserve_address
reserve_address-Kept inet pool ip port n ttl g sane v = elim (Bool-cases (port == 0)) [
  | inl z ↦ rw (z, reserve_address) (v, λ p. refl)
  | inr pos ↦ elim (Bool-cases (n == 0)) [
    | inl z ↦ rw (pos, z, reserve_address) (v, λ p. refl)
    | inr some_ports ↦ elim (Option-cases (fill_address inet ip (u16 port) (not (ttl == 0)))) [
      | inl e ↦ rw (pos, some_ports, e, reserve_address) (v, λ p. refl)
      | inr (input, e) ↦ Reserves-Kept v (
          reserve_address-Reserves inet pool ip port n ttl input e v (ground arith) (record {
            bytes = fill_address-AreBytes inet ip (u16 port) _ input g e;
            some_ports = ground arith;
            no_wrap = sane;
          }))
    ]
  ]
]

step-Kept :
    (inet : Inet) (pool : AddressPool) (q : Request)
    → GivesBytes inet
    → IsSane q
    → IsPool pool
    → Kept pool (step inet pool q)
unfolding step
step-Kept inet pool (acquires flags n) g sane v = acquire_address-conserves inet pool flags n v
step-Kept inet pool (reserves ip port n ttl) g sane v =
    reserve_address-Kept inet pool ip port n ttl g sane v
step-Kept inet pool (frees addr) g sane v = address_free-conserves pool addr v

-- Over any sequence of acquire_address, reserve_address (with ports that do not wrap around) and
-- address_free calls, the pool stays well-formed and has every address and port exactly as often
-- as at the start.
pub run-conserves :
    (inet : Inet) (pool : AddressPool) (qs : List Request)
    → GivesBytes inet
    → All IsSane qs
    → IsPool pool
    → IsPool (run inet pool qs)
      × ((p : Point) → pool_count p (run inet pool qs) ≡ pool_count p pool)
unfolding run
run-conserves inet pool [] g sane v = (v, λ p. refl)
run-conserves inet pool (q ∷ qs) g sane v =
    let (v', k) = step-Kept inet pool q g sane.0 v in
    let (v'', k') = run-conserves inet (step inet pool q) qs g sane.1 v' in (v'', λ p. k' p ∙ k p)

-- From a well-formed pool whose ranges do not overlap, with the same TTL or with different ones, over any such
-- sequence: no address and port is in two allocated ranges, nor in an allocated and a free one,
-- whatever the TTLs of the ranges.
pub run_exclusive :
    (inet : Inet) (pool : AddressPool) (qs : List Request) (p : Point) (ttl : ℕ)
    → GivesBytes inet
    → All IsSane qs
    → IsPool pool
    → IsDisjoint pool
    → let after = run inet pool qs in
      (count_holding p after.allocated ≤ 1)
      × (0 < count_holding p after.allocated
          → (count_holding p after.addresses ≡ 0)
            × (¬ (ttl ≡ p.ttl) → pool_count (record p { ttl = ttl }) after ≡ 0))
run_exclusive inet pool qs p ttl g sane v d =
    let (v', k) = run-conserves inet pool qs g sane v in
    let once = d.once p in
    (
      omega (arith, k p, once),
      λ h. (
        omega (arith, k p, once, h),
        λ apart. omega (arith, k p, k (record p { ttl = ttl }), d.one_ttl p ttl apart, h),
      ),
    )

release_newest :
    (pool : AddressPool) (r : AddrRange) (rest : List AddrRange)
    → pool.allocated ≡ r ∷ rest
    → ((release_range pool r.ptr).allocated ≡ rest)
      × ((release_range pool r.ptr).addresses ≡ r ∷ pool.addresses)
unfolding release_range find_link
release_newest pool r rest e = rw (e, release_range, ==_self r.ptr) (refl, refl)

freed_at_once :
    {inet : Inet} {pool : AddressPool} {flags : AddressFlags} {n : ℕ}
    {out : AddressPool × Option Address} (addr : Address)
    → Acquires inet pool flags n out
    → out.1 ≡ some addr
    → let after = address_free out.0 addr in
      (after.allocated ≡ pool.allocated)
      × ((p : Point) → count_holding p after.addresses ≡ count_holding p pool.addresses)
unfolding address_free make_address
freed_at_once addr (refused h) e = absurd (ground arith)
freed_at_once {inet} {pool} {n = n} addr (taken range after r s a) e =
    let (rest, freed) = release_newest after r pool.allocated a.noted in
    rw (← made) (rest, λ p. ap (count_holding p) freed ∙ omega (arith, a.conserves p, noted p))
  where
    made : make_address inet r n ≡ addr
    made = cc e

    noted :
        (p : Point) → count_holding p after.allocated ≡ holds p r + count_holding p pool.allocated
    noted p = ap (count_holding p) a.noted

-- An address that acquire_address took from a well-formed pool, for at least one port, and that is
-- freed at once, leaves the allocated ranges as they were, and every address and port free as often
-- as before.
pub acquire_address-address_free :
    (inet : Inet) (pool : AddressPool) (flags : AddressFlags) (n : ℕ) (addr : Address)
    → IsPool pool
    → 0 < n
    → (acquire_address inet pool flags n).1 ≡ some addr
    → let after = address_free (acquire_address inet pool flags n).0 addr in
      (after.allocated ≡ pool.allocated)
      × ((p : Point) → count_holding p after.addresses ≡ count_holding p pool.addresses)
acquire_address-address_free inet pool flags n addr v pos e =
    freed_at_once addr (acquire_address-Acquires inet pool flags n v pos) e
