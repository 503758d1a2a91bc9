-- ===== src/AddressPool/Ops/Reserve.antt =====
-- gst_rtsp_address_pool_reserve_address of gst/rtsp-server/rtsp-address-pool.c.
use mathlib.Core.List.{Memᴰ}
use gst_rtsp_server_wfd.Prelude.{
  ℕ, ◌+◌, ◌-◌, ◌≤◌, ◌<◌, ◌≡◌, refl, sym, ap, ◌∙◌, List, [], ◌∷◌, Bool, true, false, not, Option,
  none, some, arith, All, ◌==◌, not_zero, Bool-cases, Option-cases, inl, inr, u16,
}
use gst_rtsp_server_wfd.Bytes.{diff_from}
use gst_rtsp_server_wfd.Bytes.Value.{
  value, AreBytes, memcmp-compare, diff_from-value, inc_bytes-diff_from, value-injective,
}
use gst_rtsp_server_wfd.AddressPool.{
  Inet, Addr, AddrRange, AddressPool, Address, PoolResult, ok, ereserved, erange, size,
  fill_address, diff_address,
}
use gst_rtsp_server_wfd.AddressPool.Cover.{Point, pool_count, IsRange, IsPool}
use gst_rtsp_server_wfd.AddressPool.Shape.{skipped}
use gst_rtsp_server_wfd.AddressPool.Ops.{
  find_link, holds_ports, make_address, allocate, reserve_filled, reserve_address,
}
use gst_rtsp_server_wfd.AddressPool.Ops.Conserve.{
  Found, find_link-Found, IsEmptyHanded, allocate-Allocates, find_link-none,
}

-- The range has the address and all the ports.
pub record Contains (input : Addr) (port n_ports ttl : ℕ) (r : AddrRange) : Type 0 where
  pub same_size : size input ≡ size r.min
  pub above : value r.min.bytes ≤ value input.bytes
  pub below : value input.bytes ≤ value r.max.bytes
  pub first_in : r.min.port ≤ port
  pub last_in : port + n_ports ≤ r.max.port + 1
  pub same_ttl : ttl ≡ r.ttl

-- A request whose ports are positive numbers with no wrap-around.
pub record IsRequest (input : Addr) (port n_ports : ℕ) : Type 0 where
  pub bytes : AreBytes input.bytes
  pub some_ports : 0 < n_ports
  pub no_wrap : port + n_ports ≤ 4294967296

holds_ports-Contains :
    (input : Addr) (port n ttl : ℕ) (r : AddrRange)
    → IsRequest input port n
    → IsRange r
    → holds_ports input port n ttl r ≡ true
    → Contains input port n ttl r
unfolding holds_ports
holds_ports-Contains input port n ttl r q h e =
    let s : size input ≡ size r.min = ground arith in
    let lo = memcmp-compare r.min.bytes input.bytes (sym s) h.min_bytes q.bytes in
    let hi = memcmp-compare r.max.bytes input.bytes (sym h.same_size ∙ sym s) h.max_bytes q.bytes in
    record {
      same_size = s;
      above = ground (arith, lo);
      below = ground (arith, hi);
      first_in = ground arith;
      last_in = ground (arith, q);
      same_ttl = ground arith;
    }

Contains-holds_ports :
    (input : Addr) (port n ttl : ℕ) (r : AddrRange)
    → IsRequest input port n
    → IsRange r
    → Contains input port n ttl r
    → holds_ports input port n ttl r ≡ true
unfolding holds_ports
Contains-holds_ports input port n ttl r q h c =
    let lo = memcmp-compare r.min.bytes input.bytes (sym c.same_size) h.min_bytes q.bytes in
    let hi =
      memcmp-compare r.max.bytes input.bytes (sym h.same_size ∙ sym c.same_size) h.max_bytes
        q.bytes in
    ground (arith, lo, hi, c, h, q)

not-Contains :
    (input : Addr) (port n ttl : ℕ) (rs : List AddrRange)
    → IsRequest input port n
    → All IsRange rs
    → IsEmptyHanded (holds_ports input port n ttl) rs
    → All (λ r. ¬ Contains input port n ttl r) rs
not-Contains input port n ttl [] q h e = tt
not-Contains input port n ttl (r ∷ rs) q h e = (
  λ c. absurd_bool (Contains-holds_ports input port n ttl r q h.0 c) e.0,
  not-Contains input port n ttl rs q h.1 e.1,
)
  where
    absurd_bool : {b : Bool} → b ≡ true → b ≡ false → ⊥
    absurd_bool t f = cc

-- The address that split_range cuts out is the one that was asked for.
skipped_input :
    (input : Addr) (port n ttl : ℕ) (r : AddrRange)
    → IsRequest input port n
    → IsRange r
    → Contains input port n ttl r
    → let d = diff_address input r.min in
      (value r.min.bytes + d ≡ value input.bytes) × (skipped d r ≡ input.bytes)
unfolding diff_address
skipped_input input port n ttl r q h c =
    let same : (size r.min == size input) ≡ true = ground (arith, c.same_size) in
    let d =
      diff_from-value 0 input.bytes r.min.bytes c.same_size q.bytes h.min_bytes
        (omega (arith, c.above)) (omega (arith, c.below, h.narrow)) in
    rw same (
      omega (arith, d),
      elim (Bool-cases (diff_from 0 input.bytes r.min.bytes == 0)) [
        | inl e ↦
            rw (e, skipped)
              (value-injective r.min.bytes input.bytes (sym c.same_size) h.min_bytes q.bytes
                (ground (arith, d)))
        | inr e ↦
            rw (e, skipped)
              (inc_bytes-diff_from input.bytes r.min.bytes c.same_size q.bytes h.min_bytes c.above
                (omega (arith, c.below, h.narrow)))
      ],
    )

-- The outcomes of reserve_address behind its checks of the arguments.
pub data Reserves (inet : Inet) (pool : AddressPool) (input : Addr) (port n_ports ttl : ℕ)
    : AddressPool × PoolResult × Option Address → Type 0 where
  reserved :
      (range : AddrRange) (after : AddressPool) (r : AddrRange)
      → Memᴰ range pool.addresses
      → Contains input port n_ports ttl range
      → (after.allocated ≡ r ∷ pool.allocated)
      → (r.min.bytes ≡ input.bytes)
      → (value r.max.bytes ≡ value input.bytes)
      → (r.min.port ≡ port)
      → (r.max.port + 1 ≡ port + n_ports)
      → (r.ttl ≡ ttl)
      → IsPool after
      → ((p : Point) → pool_count p after ≡ pool_count p pool)
      → Reserves inet pool input port n_ports ttl (after, ok, some (make_address inet r n_ports))
  in_use :
      (r : AddrRange)
      → All (λ f. ¬ Contains input port n_ports ttl f) pool.addresses
      → Memᴰ r pool.allocated
      → Contains input port n_ports ttl r
      → Reserves inet pool input port n_ports ttl (pool, ereserved, none)
  out_of_range :
      All (λ f. ¬ Contains input port n_ports ttl f) pool.addresses
      → All (λ f. ¬ Contains input port n_ports ttl f) pool.allocated
      → Reserves inet pool input port n_ports ttl (pool, erange, none)

module _ (inet : Inet) (pool : AddressPool) (input : Addr) (port n ttl : ℕ) (v : IsPool pool)
    (q : IsRequest input port n) where
  reserve_hit :
      (range : AddrRange) (others : List AddrRange)
      → Found (holds_ports input port n ttl) pool.addresses range others
      → let (after, r) =
          allocate
            (record pool { addresses = others })
            range
            (diff_address input range.min)
            (port - range.min.port)
            n in
        Reserves inet pool input port n ttl (after, ok, some (make_address inet r n))
  reserve_hit range others f =
      let (ranged, rest) = f.kept v.free in
      let c = holds_ports-Contains input port n ttl range q ranged f.passes in
      let (sum, exact) = skipped_input input port n ttl range q ranged c in
      let a =
        allocate-Allocates pool range others (diff_address input range.min) (port - range.min.port)
          n v f.taken
          (record {
            ranged = ranged;
            free_ranged = rest;
            skip_small = omega (arith, sum, c.below, ranged.narrow);
            address_inside = omega (arith, sum, c.below);
            some_ports = q.some_ports;
            ports_inside = omega (arith, c.first_in, c.last_in);
          }) in
      reserved range _ _ f.is_member c a.noted (a.granted.first_address ∙ exact)
        (a.granted.one_address ∙ ap value (a.granted.first_address ∙ exact))
        (omega (arith, a.granted.first_port, c.first_in))
        (omega (arith, a.granted.first_port, a.granted.all_ports, c.first_in))
        (a.same_ttl ∙ sym c.same_ttl) a.is_pool a.conserves

  reserve_miss :
      IsEmptyHanded (holds_ports input port n ttl) pool.addresses
      → (o : Option (AddrRange × List AddrRange))
      → find_link (holds_ports input port n ttl) pool.allocated ≡ o
      → Reserves inet pool input port n ttl
          (elim o [ none ↦ (pool, erange, none) | some (range, others) ↦ (pool, ereserved, none) ])
  reserve_miss h none e =
      out_of_range (not-Contains input port n ttl pool.addresses q v.free h)
        (not-Contains input port n ttl pool.allocated q v.out (find_link-none _ pool.allocated e))
  reserve_miss h (some (r, others)) e =
      let f = find_link-Found _ pool.allocated r others e in
      in_use r (not-Contains input port n ttl pool.addresses q v.free h) f.is_member
        (holds_ports-Contains input port n ttl r q (f.kept v.out).0 f.passes)

  reserve_filled-Reserves :
      Reserves inet pool input port n ttl (reserve_filled inet pool input port n ttl)
  unfolding reserve_filled
  reserve_filled-Reserves =
      elim (Option-cases (find_link (holds_ports input port n ttl) pool.addresses)) [
        | inl missing ↦
            rw (missing, reserve_filled)
              (reserve_miss (find_link-none _ pool.addresses missing) _ refl)
        | inr (found, e) ↦
            rw (e, reserve_filled)
              (reserve_hit found.0 found.1 (find_link-Found _ pool.addresses found.0 found.1 e))
      ]

-- reserve_address on a well-formed pool, for an address text that fill_address accepts and for a
-- positive port and number of ports whose sum is at most 2 ^ 32. It answers OK exactly with a
-- newly allocated range of the requested address, ports and TTL, taken from a range of the free list that
-- contained them, and keeps the pool well-formed and how often it has each address and port; it
-- answers ERESERVED, with the pool unchanged, if no free range contains the request and an
-- allocated one does; and ERANGE, with the pool unchanged, if no range contains it.
pub reserve_address-Reserves :
    (inet : Inet) (pool : AddressPool) (ip_address : List ℕ) (port n_ports ttl : ℕ) (input : Addr)
    → fill_address inet ip_address (u16 port) (not (ttl == 0)) ≡ some input
    → IsPool pool
    → 0 < port
    → IsRequest input port n_ports
    → Reserves inet pool input port n_ports ttl
        (reserve_address inet pool ip_address port n_ports ttl)
unfolding reserve_address
reserve_address-Reserves inet pool ip_address port n_ports ttl input e v pos q =
    rw (not_zero port pos, not_zero n_ports q.some_ports, e, reserve_address)
      (reserve_filled-Reserves inet pool input port n_ports ttl v q)
