-- ===== src/AddressPool.antt =====
-- gst/rtsp-server/rtsp-address-pool.c: ranges of addresses and ports, of which callers take and
-- give back single addresses with a run of ports.
--
-- `Addr` holds the significant bytes only, so its size is their number. An `AddrRange *` is a
-- range with the pointer as the field `ptr`; `next_ptr` is what the slice allocator returns next.
-- The mutex makes every operation atomic, so an operation is a function of the pool. What GIO does
-- to the text of an address is the parameter `Inet`.
pub mod Ops
pub mod Cover
pub mod Shape
pub mod Cut
pub mod Split
use gst_rtsp_server_wfd.Prelude.{
  ℕ, ◌+◌, ◌-◌, ◌*◌, ◌%◌, List, [], ◌∷◌, Bool, true, false, not, ◌&&◌, Option, none, some, length,
  ltb, leb, ◌==◌, if◌then◌else◌, u8, u16, u32,
}
use Prim.Native.Nat.{Ordering}
use gst_rtsp_server_wfd.Bytes.{memcmp, inc_bytes, diff_from}

-- g_inet_address_new_from_string with g_inet_address_to_bytes, g_inet_address_get_is_multicast,
-- and g_inet_address_new_from_bytes with g_inet_address_to_string.
pub record Inet : Type 0 where
  pub from_string : List ℕ → Option (List ℕ)
  pub get_is_multicast : List ℕ → Bool
  pub to_string : List ℕ → List ℕ

pub record Addr : Type 0 where
  pub bytes : List ℕ
  pub port : ℕ

pub record AddrRange : Type 0 where
  pub ptr : ℕ
  pub min : Addr
  pub max : Addr
  pub ttl : ℕ

pub record AddressPool : Type 0 where
  pub addresses : List AddrRange
  pub allocated : List AddrRange
  pub has_unicast_addresses : Bool
  pub next_ptr : ℕ

-- GstRTSPAddress; `owned` is whether its field `pool` is set.
pub record Address : Type 0 where
  pub owned : Bool
  pub address : List ℕ
  pub n_ports : ℕ
  pub port : ℕ
  pub ttl : ℕ
  pub priv : Option ℕ

pub record AddressFlags : Type 0 where
  pub ipv4 : Bool
  pub ipv6 : Bool
  pub even_port : Bool
  pub multicast : Bool
  pub unicast : Bool

pub data PoolResult : Type 0 where
  ok einval ereserved erange : PoolResult

abbrev pub size : Addr → ℕ
size a = length a.bytes

-- ADDR_IS_EVEN_PORT
pub is_even_port : Addr → Bool
is_even_port a = a.port % 2 == 0

abbrev is_eq : Ordering → Bool
is_eq Ordering.eq = true
is_eq _ = false

abbrev is_gt : Ordering → Bool
is_gt Ordering.gt = true
is_gt _ = false

-- RANGE_IS_SINGLE
pub is_single : AddrRange → Bool
is_single r = is_eq (memcmp r.min.bytes r.max.bytes)

pub new : AddressPool
new = record { addresses = []; allocated = []; has_unicast_addresses = false; next_ptr = 0 }

-- Refused while an address is out.
pub clear : AddressPool → AddressPool
clear pool = elim pool.allocated [ [] ↦ record pool { addresses = [] } | r ∷ rs ↦ pool ]

bool_eq : Bool → Bool → Bool
bool_eq true b = b
bool_eq false b = not b

pub fill_address : Inet → List ℕ → ℕ → Bool → Option Addr
unfolding bool_eq
fill_address inet address port is_multicast = elim (inet.from_string address) [
  | none ↦ none
  | some bytes ↦
      if bool_eq is_multicast (inet.get_is_multicast bytes)
      then some (record { bytes = bytes; port = port })
      else none
]

-- The checks and the writes of gst_rtsp_address_pool_add_range once both ends are read.
pub add_filled : AddressPool → Addr → Addr → ℕ → AddressPool × Bool
add_filled pool lo hi ttl =
    if not (size lo == size hi)
    then (pool, false)
    else if is_gt (memcmp lo.bytes hi.bytes)
    then (pool, false)
    else (
      record pool {
        addresses = record { ptr = pool.next_ptr; min = lo; max = hi; ttl = ttl } ∷ pool.addresses;
        has_unicast_addresses = if ttl == 0 then true else pool.has_unicast_addresses;
        next_ptr = pool.next_ptr + 1;
      },
      true,
    )

pub add_range : Inet → AddressPool → List ℕ → List ℕ → ℕ → ℕ → ℕ → AddressPool × Bool
unfolding fill_address add_filled
add_range inet pool min_address max_address min_port max_port ttl =
    if not (leb min_port max_port)
    then (pool, false)
    else elim (fill_address inet min_address min_port (not (ttl == 0))) [
      | none ↦ (pool, false)
      | some lo ↦ elim (fill_address inet max_address max_port (not (ttl == 0))) [
        | none ↦ (pool, false)
        | some hi ↦ add_filled pool lo hi ttl
      ]
    ]

pub inc_address : Addr → ℕ → Addr
inc_address a count = record a { bytes = (inc_bytes a.bytes count).0 }

pub diff_address : Addr → Addr → ℕ
diff_address max_addr min_addr =
    if size min_addr == size max_addr then diff_from 0 max_addr.bytes min_addr.bytes else 0

-- g_slice_dup, and g_list_prepend to the free ranges.
pub give_back : AddressPool → AddrRange → AddressPool
give_back pool temp = record pool {
  addresses = record temp { ptr = pool.next_ptr } ∷ pool.addresses;
  next_ptr = pool.next_ptr + 1;
}

-- The four parts of split_range, each over the pool and the range that is being cut.
pub skip_addresses : ℕ → AddressPool × AddrRange → AddressPool × AddrRange
unfolding give_back inc_address
skip_addresses skip_addr (pool, range) = if skip_addr == 0 then (pool, range) else (
  give_back pool (record range {
    max = inc_address (record { bytes = range.min.bytes; port = range.max.port }) (skip_addr - 1);
  }),
  record range { min = inc_address range.min skip_addr },
)

pub cut_address : AddressPool × AddrRange → AddressPool × AddrRange
unfolding give_back inc_address is_single
cut_address (pool, range) = if is_single range then (pool, range) else (
  give_back pool (record range { min = inc_address range.min 1 }),
  record range { max = record { bytes = range.min.bytes; port = range.max.port } },
)

pub skip_ports : ℕ → AddressPool × AddrRange → AddressPool × AddrRange
unfolding give_back
skip_ports skip_port (pool, range) =
    if ltb 0 skip_port
    then (
      give_back pool (record range {
        max = record { bytes = range.max.bytes; port = u16 (range.min.port + skip_port - 1) };
      }),
      record range {
        min = record { bytes = range.min.bytes; port = u16 (range.min.port + skip_port) };
      },
    )
    else (pool, range)

pub cut_ports : ℕ → AddressPool × AddrRange → AddressPool × AddrRange
unfolding give_back
cut_ports n_ports (pool, range) =
    if ltb (n_ports + range.min.port) (range.max.port + 1)
    then (
      give_back pool (record range {
        min = record { bytes = range.min.bytes; port = u16 (range.min.port + n_ports) };
      }),
      record range {
        max = record { bytes = range.max.bytes; port = u16 (range.min.port + n_ports - 1) };
      },
    )
    else (pool, range)

pub split_range : AddressPool → AddrRange → ℕ → ℕ → ℕ → AddressPool × AddrRange
split_range pool range skip_addr skip_port n_ports =
    cut_ports n_ports (skip_ports skip_port (cut_address (skip_addresses skip_addr (pool, range))))
