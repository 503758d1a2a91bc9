-- ===== src/AddressPool/Cut.antt =====
-- A step of split_range in gst/rtsp-server/rtsp-address-pool.c: what it must keep, and the sums that
-- show it.
use gst_rtsp_server_wfd.Prelude.{ℕ, suc, ◌+◌, ◌≤◌, ◌<◌, ◌≡◌, ◌∙◌, List, arith, All, length}
use gst_rtsp_server_wfd.Bytes.{inc_bytes}
use gst_rtsp_server_wfd.Bytes.Value.{
  value, AreBytes, inc_bytes-Adds, inc_bytes-value, value-lt-weight, weight_of_length,
}
use gst_rtsp_server_wfd.AddressPool.{AddrRange, AddressPool, size}
use gst_rtsp_server_wfd.AddressPool.Cover.{
  Point, box, holds, count_holding, IsRange, box-split_address, box-split_port,
}

-- From a pool and a range in hand to another such state, with every point held as often as before.
pub record Cut (s s' : AddressPool × AddrRange) : Type 0 where
  pub keeps :
      (p : Point)
      → count_holding p s'.0.addresses + holds p s'.1 ≡ count_holding p s.0.addresses + holds p s.1
  pub is_range : IsRange s'.1
  pub all_ranges : All IsRange s'.0.addresses
  pub same_allocated : s'.0.allocated ≡ s.0.allocated
  pub same_ptr : s'.1.ptr ≡ s.1.ptr
  pub same_ttl : s'.1.ttl ≡ s.1.ttl
  pub same_size : size s'.1.min ≡ size s.1.min

pub Cut-trans : {s t u : AddressPool × AddrRange} → Cut s t → Cut t u → Cut s u
Cut-trans a b = record {
  keeps = λ p. b.keeps p ∙ a.keeps p;
  is_range = b.is_range;
  all_ranges = b.all_ranges;
  same_allocated = b.same_allocated ∙ a.same_allocated;
  same_ptr = b.same_ptr ∙ a.same_ptr;
  same_ttl = b.same_ttl ∙ a.same_ttl;
  same_size = b.same_size ∙ a.same_size;
}

-- The first address of a range moved up by a count that stays within the range.
pub record Moved (r : AddrRange) (count : ℕ) (bytes : List ℕ) : Type 0 where
  pub same_length : length bytes ≡ size r.min
  pub are_bytes : AreBytes bytes
  pub moved_value : value bytes ≡ value r.min.bytes + count

pub move :
    (r : AddrRange) (count : ℕ)
    → IsRange r
    → count + 255 < 4294967296
    → value r.min.bytes + count ≤ value r.max.bytes
    → Moved r count (inc_bytes r.min.bytes count).0
move r count h k fits =
    let a = inc_bytes-Adds r.min.bytes count h.min_bytes k in
    record {
      same_length = a.same_length;
      are_bytes = a.are_bytes;
      moved_value = inc_bytes-value r.min.bytes count h.min_bytes k (
          omega (
            arith,
            value-lt-weight r.max.bytes h.max_bytes,
            weight_of_length r.min.bytes r.max.bytes h.same_size,
          ));
    }

-- The counts on both sides of a cut, where the pieces are known by their values only.
pub join_address :
    (p : Point) (c s s' ttl lo kept next hi first last : ℕ)
    → s' ≡ s
    → next ≡ suc kept
    → lo ≤ kept
    → kept < hi
    → box p s ttl lo kept first last + c + box p s' ttl next hi first last
      ≡ c + box p s ttl lo hi first last
join_address p c s s' ttl lo kept next hi first last e k lt le =
    rw (e, k) (omega (arith, box-split_address p s ttl lo kept hi first last lt le))

pub join_port :
    (p : Point) (c s ttl lo hi first kept next last : ℕ)
    → next ≡ suc kept
    → first ≤ kept
    → kept < last
    → box p s ttl lo hi first kept + c + box p s ttl lo hi next last
      ≡ c + box p s ttl lo hi first last
join_port p c s ttl lo hi first kept next last k lt le =
    rw k (omega (arith, box-split_port p s ttl lo hi first kept last lt le))

pub outer_swap : (a b c : ℕ) → a + b + c ≡ c + b + a
outer_swap a b c = omega arith
