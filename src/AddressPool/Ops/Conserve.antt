-- ===== src/AddressPool/Ops/Conserve.antt =====
-- Taking addresses out of the pool of gst/rtsp-server/rtsp-address-pool.c and giving them back.
use mathlib.Core.List.{Memᴰ}
use gst_rtsp_server_wfd.Prelude.{
  ℕ, not_zero, ◌+◌, ◌≤◌, ◌<◌, ◌≡◌, refl, ap, List, [], ◌∷◌, Bool, true, false, Option, none, some,
  inl, inr, arith, All, Bool-cases, Option-cases,
}
use gst_rtsp_server_wfd.AddressPool.{
  Inet, AddrRange, AddressPool, Address, AddressFlags, size, split_range,
}
use gst_rtsp_server_wfd.AddressPool.Ops.{
  find_link, make_address, allocate, skip_for, is_suitable, acquire_address,
}
use gst_rtsp_server_wfd.AddressPool.Cover.{Point, holds, count_holding, pool_count, IsRange, IsPool}
use gst_rtsp_server_wfd.AddressPool.Split.{Granted, Fits, split_range-Cut}

-- What find_link finds passes the test, and is taken off the list.
pub record Found (test : AddrRange → Bool) (rs : List AddrRange) (r : AddrRange)
    (others : List AddrRange) : Type 0 where
  pub passes : test r ≡ true
  pub taken : (p : Point) → count_holding p rs ≡ holds p r + count_holding p others
  pub is_member : Memᴰ r rs
  pub kept : All IsRange rs → IsRange r × All IsRange others

pub find_link-Found :
    (test : AddrRange → Bool) (rs : List AddrRange) (r : AddrRange) (others : List AddrRange)
    → find_link test rs ≡ some (r, others)
    → Found test rs r others
unfolding find_link
find_link-Found test [] r others e = cc
find_link-Found test (x ∷ rs) r others e = elim (Bool-cases (test x)) [
  | inl t ↦ hit (ground arith) (ground arith) t
  | inr f ↦ elim (Option-cases (find_link test rs)) [
    | inl missing ↦ absurd (ground arith)
    | inr (q, found) ↦
        let rest = find_link-Found test rs q.0 q.1 found in
        passed rest (ground arith) (ground arith)
  ]
]
  where
    hit : x ≡ r → rs ≡ others → test x ≡ true → Found test (x ∷ rs) r others
    hit e k t =
        rw (← e, ← k)
          (record { passes = t; taken = λ p. refl; is_member = Memᴰ.head refl; kept = λ h. h })

    passed :
        {q : AddrRange × List AddrRange}
        → Found test rs q.0 q.1
        → q.0 ≡ r
        → x ∷ q.1 ≡ others
        → Found test (x ∷ rs) r others
    passed rest e k =
        rw (← e, ← k)
          (record {
            passes = rest.passes;
            taken = λ p. omega (arith, rest.taken p);
            is_member = Memᴰ.tail rest.is_member;
            kept = λ h. let (now, later) = rest.kept h.1 in (now, (h.0, later));
          })

abbrev pub IsEmptyHanded : (AddrRange → Bool) → List AddrRange → Type 0
IsEmptyHanded test = All (λ r. test r ≡ false)

pub find_link-none :
    (test : AddrRange → Bool) (rs : List AddrRange)
    → find_link test rs ≡ none
    → IsEmptyHanded test rs
unfolding find_link
find_link-none test [] e = tt
find_link-none test (x ∷ rs) e = elim (Bool-cases (test x)) [
  | inl t ↦ absurd (ground arith)
  | inr f ↦ (f, find_link-none test rs (rest (find_link test rs) refl f))
]
  where
    rest :
        (o : Option (AddrRange × List AddrRange))
        → find_link test rs ≡ o
        → test x ≡ false
        → find_link test rs ≡ none
    rest none k f = k
    rest (some q) k f = absurd (ground arith)

-- Allocating a range that was taken off the free ones.
pub record Allocates (before : AddressPool) (range : AddrRange) (a s n : ℕ) (after : AddressPool)
    (r : AddrRange) : Type 0 where
  pub is_pool : IsPool after
  pub conserves : (p : Point) → pool_count p after ≡ pool_count p before
  pub granted : Granted range a s n r
  pub same_ptr : r.ptr ≡ range.ptr
  pub same_ttl : r.ttl ≡ range.ttl
  pub same_size : size r.min ≡ size range.min
  pub noted : after.allocated ≡ r ∷ before.allocated

pub allocate-Allocates :
    (pool : AddressPool) (range : AddrRange) (others : List AddrRange) (a s n : ℕ)
    → IsPool pool
    → ((p : Point) → count_holding p pool.addresses ≡ holds p range + count_holding p others)
    → Fits (record pool { addresses = others }) range a s n
    → let (after, r) = allocate (record pool { addresses = others }) range a s n in
      Allocates pool range a s n after r
unfolding allocate
allocate-Allocates pool range others a s n v taken f =
    let (cut, granted) = split_range-Cut (record pool { addresses = others }) range a s n f in
    record {
      is_pool = record { free = cut.all_ranges; out = rw cut.same_allocated (cut.is_range, v.out) };
      conserves = λ p. rw cut.same_allocated (omega (arith, taken p, cut.keeps p));
      granted = granted;
      same_ptr = cut.same_ptr;
      same_ttl = cut.same_ttl;
      same_size = cut.same_size;
      noted =
          ap (◌∷◌ (split_range (record pool { addresses = others }) range a s n).1)
            cut.same_allocated;
    }

is_suitable_ports :
    (flags : AddressFlags) (n : ℕ) (r : AddrRange)
    → is_suitable flags n r ≡ true
    → r.min.port + skip_for flags r + n ≤ r.max.port + 1
unfolding is_suitable
is_suitable_ports flags n r h = ground arith

is_suitable-Fits :
    (pool : AddressPool) (flags : AddressFlags) (n : ℕ) (r : AddrRange) (others : List AddrRange)
    → IsPool pool
    → 0 < n
    → Found (is_suitable flags n) pool.addresses r others
    → Fits (record pool { addresses = others }) r 0 (skip_for flags r) n
is_suitable-Fits pool flags n r others v pos f =
    let (ranged, rest) = f.kept v.free in
    record {
      ranged = ranged;
      free_ranged = rest;
      skip_small = omega arith;
      address_inside = omega (arith, ranged.ordered);
      some_ports = pos;
      ports_inside = is_suitable_ports flags n r f.passes;
    }

-- The two outcomes of acquire_address.
pub data Acquires (inet : Inet) (pool : AddressPool) (flags : AddressFlags) (n : ℕ)
    : AddressPool × Option Address → Type 0 where
  refused :
      IsEmptyHanded (is_suitable flags n) pool.addresses → Acquires inet pool flags n (pool, none)
  taken :
      (range : AddrRange) (after : AddressPool) (r : AddrRange)
      → is_suitable flags n range ≡ true
      → Allocates pool range 0 (skip_for flags range) n after r
      → Acquires inet pool flags n (after, some (make_address inet r n))

pub acquire_address-Acquires :
    (inet : Inet) (pool : AddressPool) (flags : AddressFlags) (n : ℕ)
    → IsPool pool
    → 0 < n
    → Acquires inet pool flags n (acquire_address inet pool flags n)
unfolding acquire_address
acquire_address-Acquires inet pool flags n v pos =
    elim (Option-cases (find_link (is_suitable flags n) pool.addresses)) [
      | inl missing ↦
          rw (not_zero n pos, missing, acquire_address)
            (refused (find_link-none _ pool.addresses missing))
      | inr (q, found) ↦
          let f = find_link-Found (is_suitable flags n) pool.addresses q.0 q.1 found in
          rw (not_zero n pos, found, acquire_address)
            (taken q.0 _ _ f.passes (
              allocate-Allocates pool q.0 q.1 0 (skip_for flags q.0) n v f.taken
                (is_suitable-Fits pool flags n q.0 q.1 v pos f)))
    ]
