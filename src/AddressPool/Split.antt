-- ===== src/AddressPool/Split.antt =====
-- split_range of gst/rtsp-server/rtsp-address-pool.c, part by part: what is cut off goes back to the
-- free ranges, and nothing is lost or held twice.
use gst_rtsp_server_wfd.Prelude.{
  ℕ, ◌+◌, ◌-◌, ◌≤◌, ◌<◌, ◌≡◌, refl, sym, ap, ◌∙◌, false, inl, inr, arith, All, ltb, ◌==◌,
  Bool-cases,
}
use gst_rtsp_server_wfd.Bytes.Value.{value, memcmp-compare}
use gst_rtsp_server_wfd.AddressPool.{
  AddrRange, AddressPool, size, is_single, skip_addresses, cut_address, skip_ports, cut_ports,
  split_range,
}
use gst_rtsp_server_wfd.AddressPool.Shape.{
  skipped, skip_addresses-SamePorts, skip_addresses_min, cut_address-SamePorts, cut_address_min,
  cut_address_max, skip_ports-SameBytes, skip_ports_first, skip_ports_last, cut_ports-SameBytes,
  cut_ports_first, cut_ports_last,
}
use gst_rtsp_server_wfd.AddressPool.Cover.{count_holding, IsRange}
use gst_rtsp_server_wfd.AddressPool.Cut.{Cut, Cut-trans, move, join_address, join_port, outer_swap}

module _ (pool : AddressPool) (range : AddrRange) (h : IsRange range)
    (free : All IsRange pool.addresses) where
  unchanged : Cut (pool, range) (pool, range)
  unchanged = record {
    keeps = λ p. refl;
    is_range = h;
    all_ranges = free;
    same_allocated = refl;
    same_ptr = refl;
    same_ttl = refl;
    same_size = refl;
  }

  skip_addresses-Cut :
      (n : ℕ)
      → n + 255 < 4294967296
      → value range.min.bytes + n ≤ value range.max.bytes
      → Cut (pool, range) (skip_addresses n (pool, range))
  unfolding skip_addresses
  skip_addresses-Cut n small fits = elim (Bool-cases (n == 0)) [
    | inl e ↦ rw e unchanged
    | inr e ↦
        let pos : 0 < n = ground arith in
        let lo = move range (n - 1) h (omega arith) (omega arith) in
        let hi = move range n h small fits in
        rw e (record {
          keeps = λ p.
              join_address p (count_holding p pool.addresses) (size range.min) _ range.ttl
                (value range.min.bytes) _ _ (value range.max.bytes) range.min.port range.max.port
                hi.same_length (omega (arith, pos, lo.moved_value, hi.moved_value))
                (omega (arith, lo.moved_value)) (omega (arith, pos, lo.moved_value));
          is_range = ground (arith, pos, lo, hi, h);
          all_ranges = ground (arith, pos, lo, hi, h, free);
          same_allocated = refl;
          same_ptr = refl;
          same_ttl = refl;
          same_size = hi.same_length;
        })
  ]

  -- The end addresses of a range that is not single differ.
  several_addresses : is_single range ≡ false → value range.min.bytes < value range.max.bytes
  unfolding is_single
  several_addresses e =
      ground (
        arith,
        memcmp-compare range.min.bytes range.max.bytes h.same_size h.min_bytes h.max_bytes,
        h,
      )

  cut_address-Cut : Cut (pool, range) (cut_address (pool, range))
  unfolding cut_address
  cut_address-Cut = elim (Bool-cases (is_single range)) [
    | inl e ↦ rw e unchanged
    | inr e ↦
        let several = several_addresses e in
        let next = move range 1 h (omega arith) (omega (arith, several)) in
        rw e (record {
          keeps = λ p.
              outer_swap _ _ _
              ∙ join_address p (count_holding p pool.addresses) (size range.min) _ range.ttl
                  (value range.min.bytes) (value range.min.bytes) _ (value range.max.bytes)
                  range.min.port range.max.port next.same_length (omega (arith, next.moved_value))
                  (omega arith) several;
          is_range = ground (arith, h);
          all_ranges = ground (arith, next, several, h, free);
          same_allocated = refl;
          same_ptr = refl;
          same_ttl = refl;
          same_size = refl;
        })
  ]

  skip_ports-Cut :
      (n : ℕ) → range.min.port + n ≤ range.max.port → Cut (pool, range) (skip_ports n (pool, range))
  unfolding skip_ports
  skip_ports-Cut n fits = elim (Bool-cases (ltb 0 n)) [
    | inl e ↦
        let pos : 0 < n = ground arith in
        rw e (record {
          keeps = λ p.
              join_port p (count_holding p pool.addresses) (size range.min) range.ttl
                (value range.min.bytes) (value range.max.bytes) range.min.port _ _ range.max.port
                (omega (arith, pos, h)) (omega (arith, pos, h)) (omega (arith, pos, h));
          is_range = ground (arith, h);
          all_ranges = ground (arith, h, free);
          same_allocated = refl;
          same_ptr = refl;
          same_ttl = refl;
          same_size = refl;
        })
    | inr e ↦ rw e unchanged
  ]

  cut_ports-Cut :
      (n : ℕ)
      → 0 < n
      → range.min.port + n ≤ range.max.port + 1
      → Cut (pool, range) (cut_ports n (pool, range))
  unfolding cut_ports
  cut_ports-Cut n pos fits = elim (Bool-cases (ltb (n + range.min.port) (range.max.port + 1))) [
    | inl e ↦
        let more : n + range.min.port < range.max.port + 1 = ground arith in
        rw e (record {
          keeps = λ p.
              outer_swap _ _ _
              ∙ join_port p (count_holding p pool.addresses) (size range.min) range.ttl
                  (value range.min.bytes) (value range.max.bytes) range.min.port _ _ range.max.port
                  (omega (arith, pos, more, h)) (omega (arith, pos, more, h))
                  (omega (arith, pos, more, h));
          is_range = ground (arith, h);
          all_ranges = ground (arith, h, free);
          same_allocated = refl;
          same_ptr = refl;
          same_ttl = refl;
          same_size = refl;
        })
    | inr e ↦ rw e unchanged
  ]

-- What split_range hands out of a range.
pub record Granted (range : AddrRange) (skip_addr skip_port n_ports : ℕ) (r : AddrRange)
    : Type 0 where
  pub first_address : r.min.bytes ≡ skipped skip_addr range
  pub one_address : value r.max.bytes ≡ value r.min.bytes
  pub first_port : r.min.port ≡ range.min.port + skip_port
  pub all_ports : r.max.port + 1 ≡ r.min.port + n_ports

-- A cut that stays within the range.
pub record Fits (pool : AddressPool) (range : AddrRange) (skip_addr skip_port n_ports : ℕ)
    : Type 0 where
  pub ranged : IsRange range
  pub free_ranged : All IsRange pool.addresses
  pub skip_small : skip_addr + 255 < 4294967296
  pub address_inside : value range.min.bytes + skip_addr ≤ value range.max.bytes
  pub some_ports : 0 < n_ports
  pub ports_inside : range.min.port + skip_port + n_ports ≤ range.max.port + 1

pub split_range-Cut :
    (pool : AddressPool) (range : AddrRange) (skip_addr skip_port n_ports : ℕ)
    → Fits pool range skip_addr skip_port n_ports
    → Cut (pool, range) (split_range pool range skip_addr skip_port n_ports)
      × Granted range skip_addr skip_port n_ports
          (split_range pool range skip_addr skip_port n_ports).1
unfolding split_range
split_range-Cut pool range skip_addr skip_port n_ports f =
    let (p1, r1) = skip_addresses skip_addr (pool, range) in
    let c1 =
      skip_addresses-Cut pool range f.ranged f.free_ranged skip_addr f.skip_small
        f.address_inside in
    let a1 = skip_addresses-SamePorts skip_addr pool range in
    let (p2, r2) = cut_address (p1, r1) in
    let c2 = cut_address-Cut p1 r1 c1.is_range c1.all_ranges in
    let a2 = cut_address-SamePorts p1 r1 in
    let (p3, r3) = skip_ports skip_port (p2, r2) in
    let c3 = skip_ports-Cut p2 r2 c2.is_range c2.all_ranges skip_port (omega (arith, f, a1, a2)) in
    let a3 = skip_ports-SameBytes skip_port p2 r2 in
    let b3 = skip_ports_first skip_port p2 r2 (omega (arith, f, a1, a2)) in
    let d3 = skip_ports_last skip_port p2 r2 in
    let c4 =
      cut_ports-Cut p3 r3 c3.is_range c3.all_ranges n_ports f.some_ports
        (omega (arith, f, a1, a2, b3, d3)) in
    let a4 = cut_ports-SameBytes n_ports p3 r3 in
    let b4 = cut_ports_first n_ports p3 r3 in
    let d4 =
      cut_ports_last n_ports p3 r3 f.some_ports c3.is_range.port_width
        (omega (arith, f, a1, a2, b3, d3)) in
    (
      Cut-trans c1 (Cut-trans c2 (Cut-trans c3 c4)),
      record {
        first_address =
            a4.same_min
            ∙ a3.same_min
            ∙ cut_address_min p1 r1
            ∙ skip_addresses_min skip_addr pool range;
        one_address =
            ap value (a4.same_max ∙ a3.same_max)
            ∙ cut_address_max p1 r1 c1.is_range
            ∙ ap value (sym (a4.same_min ∙ a3.same_min ∙ cut_address_min p1 r1));
        first_port = b4 ∙ b3 ∙ omega (arith, a1, a2);
        all_ports = d4 ∙ omega (arith, b4);
      },
    )
