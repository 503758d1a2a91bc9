-- ===== src/AddressPool/Shape.antt =====
-- The shape of the range that each part of split_range in gst/rtsp-server/rtsp-address-pool.c
-- leaves in hand.
use gst_rtsp_server_wfd.Prelude.{ℕ, ◌+◌, ◌≤◌, ◌<◌, ◌≡◌, true, false, arith, ◌==◌, List}
use gst_rtsp_server_wfd.Bytes.{inc_bytes}
use gst_rtsp_server_wfd.Bytes.Value.{value, memcmp-compare}
use gst_rtsp_server_wfd.AddressPool.{
  AddrRange, AddressPool, is_single, skip_addresses, cut_address, skip_ports, cut_ports,
}
use gst_rtsp_server_wfd.AddressPool.Cover.{IsRange}

pub record SamePorts (r r' : AddrRange) : Type 0 where
  pub same_first : r'.min.port ≡ r.min.port
  pub same_last : r'.max.port ≡ r.max.port

pub record SameBytes (r r' : AddrRange) : Type 0 where
  pub same_min : r'.min.bytes ≡ r.min.bytes
  pub same_max : r'.max.bytes ≡ r.max.bytes

pub skip_addresses-SamePorts :
    (n : ℕ) (pool : AddressPool) (r : AddrRange) → SamePorts r (skip_addresses n (pool, r)).1
unfolding skip_addresses
skip_addresses-SamePorts n pool r = ground arith

-- What inc_address makes of the first address.
abbrev pub skipped : ℕ → AddrRange → List ℕ
skipped n r = elim (n == 0) [ true ↦ r.min.bytes | false ↦ (inc_bytes r.min.bytes n).0 ]

pub skip_addresses_min :
    (n : ℕ) (pool : AddressPool) (r : AddrRange)
    → (skip_addresses n (pool, r)).1.min.bytes ≡ skipped n r
unfolding skip_addresses
skip_addresses_min n pool r = ground arith

pub cut_address-SamePorts :
    (pool : AddressPool) (r : AddrRange) → SamePorts r (cut_address (pool, r)).1
unfolding cut_address
cut_address-SamePorts pool r = ground arith

pub cut_address_min :
    (pool : AddressPool) (r : AddrRange) → (cut_address (pool, r)).1.min.bytes ≡ r.min.bytes
unfolding cut_address
cut_address_min pool r = ground arith

-- One address is left.
pub cut_address_max :
    (pool : AddressPool) (r : AddrRange)
    → IsRange r
    → value (cut_address (pool, r)).1.max.bytes ≡ value r.min.bytes
unfolding cut_address is_single
cut_address_max pool r h =
    ground (arith, memcmp-compare r.min.bytes r.max.bytes h.same_size h.min_bytes h.max_bytes)

pub skip_ports-SameBytes :
    (n : ℕ) (pool : AddressPool) (r : AddrRange) → SameBytes r (skip_ports n (pool, r)).1
unfolding skip_ports
skip_ports-SameBytes n pool r = ground arith

pub skip_ports_first :
    (n : ℕ) (pool : AddressPool) (r : AddrRange)
    → r.min.port + n < 65536
    → (skip_ports n (pool, r)).1.min.port ≡ r.min.port + n
unfolding skip_ports
skip_ports_first n pool r h = ground arith

pub skip_ports_last :
    (n : ℕ) (pool : AddressPool) (r : AddrRange) → (skip_ports n (pool, r)).1.max.port ≡ r.max.port
unfolding skip_ports
skip_ports_last n pool r = ground arith

pub cut_ports-SameBytes :
    (n : ℕ) (pool : AddressPool) (r : AddrRange) → SameBytes r (cut_ports n (pool, r)).1
unfolding cut_ports
cut_ports-SameBytes n pool r = ground arith

pub cut_ports_first :
    (n : ℕ) (pool : AddressPool) (r : AddrRange) → (cut_ports n (pool, r)).1.min.port ≡ r.min.port
unfolding cut_ports
cut_ports_first n pool r = ground arith

pub cut_ports_last :
    (n : ℕ) (pool : AddressPool) (r : AddrRange)
    → 0 < n
    → r.max.port < 65536
    → r.min.port + n ≤ r.max.port + 1
    → (cut_ports n (pool, r)).1.max.port + 1 ≡ r.min.port + n
unfolding cut_ports
cut_ports_last n pool r h k l = ground arith
