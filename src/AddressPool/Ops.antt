-- ===== src/AddressPool/Ops.antt =====
-- gst/rtsp-server/rtsp-address-pool.c: taking an address from the pool and giving it back.
pub mod Conserve
pub mod Acquire
pub mod Reserve
pub mod History
mod Tests
use Prim.Native.Nat.{Ordering}
use gst_rtsp_server_wfd.Prelude.{
  ℕ, ◌+◌, ◌-◌, List, [], ◌∷◌, Bool, true, false, not, ◌&&◌, ◌||◌, Option, none, some, ltb, ◌==◌,
  if◌then◌else◌, u16, u32,
}
use gst_rtsp_server_wfd.Bytes.{memcmp}
use gst_rtsp_server_wfd.AddressPool.{
  Inet, Addr, AddrRange, AddressPool, Address, AddressFlags, PoolResult, ok, einval, ereserved,
  erange, size, is_even_port, is_gt, fill_address, diff_address, split_range,
}

-- The walk over a GList to the first link whose data passes, and the list without that link.
pub find_link : (AddrRange → Bool) → List AddrRange → Option (AddrRange × List AddrRange)
find_link test [] = none
find_link test (range ∷ ranges) =
    let rest = find_link test ranges in
    if test range
    then some (range, ranges)
    else elim rest [ none ↦ none | some (found, others) ↦ some (found, range ∷ others) ]

abbrev pub skip_for : AddressFlags → AddrRange → ℕ
unfolding is_even_port
skip_for flags range = if flags.even_port && not (is_even_port range.min) then 1 else 0

-- The tests of acquire_address that do not `continue`. The last one reads
-- `ports - skip < n_ports` over signed numbers.
pub is_suitable : AddressFlags → ℕ → AddrRange → Bool
is_suitable flags n_ports range =
    not (flags.ipv4 && not (size range.min == 4))
    && (not (flags.ipv6 && not (size range.min == 16))
        && (not (flags.multicast && range.ttl == 0)
            && (not (flags.unicast && not (range.ttl == 0))
                && not
                    (ltb (range.max.port + 1) (n_ports + range.min.port + skip_for flags range)))))

-- The GstRTSPAddress that is made for an allocated range.
pub make_address : Inet → AddrRange → ℕ → Address
make_address inet range n_ports = record {
  owned = true;
  address = inet.to_string range.min.bytes;
  n_ports = n_ports;
  port = range.min.port;
  ttl = range.ttl;
  priv = some range.ptr;
}

-- The range is off the list of free ranges: split it, and note it as allocated.
pub allocate : AddressPool → AddrRange → ℕ → ℕ → ℕ → AddressPool × AddrRange
allocate pool range skip_addr skip_port n_ports =
    let (pool', range') = split_range pool range skip_addr skip_port n_ports in
    (record pool' { allocated = range' ∷ pool'.allocated }, range')

pub acquire_address : Inet → AddressPool → AddressFlags → ℕ → AddressPool × Option Address
unfolding make_address allocate
acquire_address inet pool flags n_ports =
    if n_ports == 0
    then (pool, none)
    else elim (find_link (is_suitable flags n_ports) pool.addresses) [
      | none ↦ (pool, none)
      | some (range, others) ↦
          let (pool', range') =
            allocate (record pool { addresses = others }) range 0 (skip_for flags range) n_ports in
          (pool', some (make_address inet range' n_ports))
    ]

-- gst_rtsp_address_pool_release_address, on the pointer in `priv`.
pub release_range : AddressPool → ℕ → AddressPool
release_range pool ptr = elim (find_link (λ range. range.ptr == ptr) pool.allocated) [
  | none ↦ pool
  | some (range, others) ↦ record pool { addresses = range ∷ pool.addresses; allocated = others }
]

-- gst_rtsp_address_free gives the pool back what the address holds, if it came from the pool.
pub address_free : AddressPool → Address → AddressPool
unfolding release_range
address_free pool addr = elim addr.priv [
  | none ↦ pool
  | some ptr ↦ if addr.owned then release_range pool ptr else pool
]

-- A copy does not hold the pool.
pub address_copy : Address → Address
address_copy addr = record addr { owned = false }

pub is_lt : Ordering → Bool
is_lt Ordering.lt = true
is_lt _ = false

-- The tests of find_address_in_ranges; the sum of the ports is a guint.
pub holds_ports : Addr → ℕ → ℕ → ℕ → AddrRange → Bool
unfolding is_lt
holds_ports addr port n_ports ttl range =
    size range.min == size addr
    && (not (is_gt (memcmp range.min.bytes addr.bytes) || is_lt (memcmp range.max.bytes addr.bytes))
        && (not (ltb port range.min.port || ltb range.max.port (u32 (port + n_ports - 1)))
            && ttl == range.ttl))

-- The part of gst_rtsp_address_pool_reserve_address behind fill_address. `n_ports` reaches
-- split_range as a gint: it is taken to be below 2 ^ 31.
pub reserve_filled :
    Inet → AddressPool → Addr → ℕ → ℕ → ℕ → AddressPool × PoolResult × Option Address
unfolding make_address allocate
reserve_filled inet pool input port n_ports ttl =
    elim (find_link (holds_ports input port n_ports ttl) pool.addresses) [
      | none ↦ elim (find_link (holds_ports input port n_ports ttl) pool.allocated) [
        | none ↦ (pool, erange, none)
        | some (range, others) ↦ (pool, ereserved, none)
      ]
      | some (range, others) ↦
          let (pool', range') =
            allocate (record pool { addresses = others }) range (diff_address input range.min)
              (port - range.min.port) n_ports in
          (pool', ok, some (make_address inet range' n_ports))
    ]

pub reserve_address :
    Inet → AddressPool → List ℕ → ℕ → ℕ → ℕ → AddressPool × PoolResult × Option Address
unfolding reserve_filled
reserve_address inet pool ip_address port n_ports ttl =
    if port == 0
    then (pool, einval, none)
    else if n_ports == 0
    then (pool, einval, none)
    else elim (fill_address inet ip_address (u16 port) (not (ttl == 0))) [
      | none ↦ (pool, einval, none)
      | some input ↦ reserve_filled inet pool input port n_ports ttl
    ]
