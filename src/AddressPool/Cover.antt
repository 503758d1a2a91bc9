-- ===== src/AddressPool/Cover.antt =====
-- What the ranges of gst/rtsp-server/rtsp-address-pool.c stand for: sets of points, each a size of
-- address, an address, a port and a TTL. A list of ranges holds each point some number of times.
use gst_rtsp_server_wfd.Prelude.{
  ℕ, suc, ◌+◌, ◌≤◌, ◌<◌, ◌≡◌, List, [], ◌∷◌, Bool, ◌&&◌, arith, All, leb, ◌==◌, if◌then◌else◌,
}
use gst_rtsp_server_wfd.Bytes.Value.{value, AreBytes}
use gst_rtsp_server_wfd.AddressPool.{AddrRange, AddressPool, size}

pub record Point : Type 0 where
  pub size : ℕ
  pub address : ℕ
  pub port : ℕ
  pub ttl : ℕ

abbrev between : ℕ → ℕ → ℕ → Bool
between lo hi x = leb lo x && leb x hi

-- 1 where the point lies in the box, else 0.
unfoldable pub box : Point → ℕ → ℕ → ℕ → ℕ → ℕ → ℕ → ℕ
box p s ttl lo hi first last =
    if s == p.size && ttl == p.ttl
    then if between lo hi p.address && between first last p.port then 1 else 0
    else 0

abbrev pub holds : Point → AddrRange → ℕ
holds p r = box p (size r.min) r.ttl (value r.min.bytes) (value r.max.bytes) r.min.port r.max.port

-- How many of the ranges hold the point.
abbrev pub count_holding : Point → List AddrRange → ℕ
count_holding p [] = 0
count_holding p (r ∷ rs) = holds p r + count_holding p rs

-- How often the pool has the point, free or allocated.
abbrev pub pool_count : Point → AddressPool → ℕ
pool_count p pool = count_holding p pool.addresses + count_holding p pool.allocated

pub record IsRange (r : AddrRange) : Type 0 where
  pub same_size : size r.min ≡ size r.max
  pub min_bytes : AreBytes r.min.bytes
  pub max_bytes : AreBytes r.max.bytes
  pub ordered : value r.min.bytes ≤ value r.max.bytes
  -- Fewer addresses than diff_address counts with no wrap-around.
  pub narrow : value r.max.bytes + 255 < 4294967296 + value r.min.bytes
  pub ports_ordered : r.min.port ≤ r.max.port
  pub port_width : r.max.port < 65536

pub record IsPool (pool : AddressPool) : Type 0 where
  pub free : All IsRange pool.addresses
  pub out : All IsRange pool.allocated

-- No address and port is held twice, neither with one TTL nor with two.
pub record IsDisjoint (pool : AddressPool) : Type 0 where
  pub once : (p : Point) → pool_count p pool ≤ 1
  pub one_ttl :
      (p : Point) (ttl : ℕ)
      → ¬ (ttl ≡ p.ttl)
      → pool_count p pool + pool_count (record p { ttl = ttl }) pool ≤ 1

-- Two boxes side by side make up one.
pub box-split_address :
    (p : Point) (s ttl lo kept hi first last : ℕ)
    → lo ≤ kept
    → kept < hi
    → box p s ttl lo kept first last + box p s ttl (suc kept) hi first last
      ≡ box p s ttl lo hi first last
unfolding box
box-split_address p s ttl lo kept hi first last h k = ground arith

pub box-split_port :
    (p : Point) (s ttl lo hi first kept last : ℕ)
    → first ≤ kept
    → kept < last
    → box p s ttl lo hi first kept + box p s ttl lo hi (suc kept) last
      ≡ box p s ttl lo hi first last
unfolding box
box-split_port p s ttl lo hi first kept last h k = ground arith
