-- ===== src/AddressPool/Ops/Tests.antt =====
-- The theorems on the address pool of gst/rtsp-server/rtsp-address-pool.c at concrete inputs, and
-- runs of the pool.
use Prim.Native.Nat.{compare, Ordering}
use gst_rtsp_server_wfd.Prelude.{
  ℕ, ◌%◌, ◌≤◌, ◌<◌, ◌≡◌, refl, List, [], ◌∷◌, true, false, not, some, arith, All, map, u16, ◌==◌,
}
use gst_rtsp_server_wfd.Bytes.{memcmp, inc_bytes}
use gst_rtsp_server_wfd.Bytes.Value.{AreBytes}
use gst_rtsp_server_wfd.AddressPool.{
  Inet, AddrRange, AddressPool, AddressFlags, Address, add_range, new, fill_address, split_range,
  skip_addresses, cut_address, skip_ports, cut_ports,
}
use gst_rtsp_server_wfd.AddressPool.Cover.{
  Point, box, count_holding, pool_count, IsPool, IsDisjoint,
}
use gst_rtsp_server_wfd.AddressPool.Ops.{
  find_link, skip_for, acquire_address, reserve_address, address_free, is_suitable,
}
use gst_rtsp_server_wfd.AddressPool.Ops.Acquire.{Serves, acquire_address-Serves}
use gst_rtsp_server_wfd.AddressPool.Ops.Reserve.{Reserves, reserve_address-Reserves}
use gst_rtsp_server_wfd.AddressPool.Ops.History.{
  acquires, reserves, frees, run, Request, GivesBytes, IsSane, run-conserves, run_exclusive,
  acquire_address-address_free,
}

abbrev low_byte : ℕ → ℕ
low_byte b = b % 256

-- Texts whose codes are taken as bytes; multicast addresses begin with 224.
abbrev plain : Inet
plain = record {
  from_string = λ text. some (map low_byte text);
  get_is_multicast = λ bytes. elim bytes [
    | [] ↦ false
    | b ∷ bs ↦ elim (compare b 224) [ Ordering.eq ↦ true | _ ↦ false ]
  ];
  to_string = λ bytes. bytes;
}

abbrev low : List ℕ
low = 224 ∷ 3 ∷ 0 ∷ 0 ∷ []

abbrev high : List ℕ
high = 224 ∷ 3 ∷ 0 ∷ 9 ∷ []

abbrev wanted : List ℕ
wanted = 224 ∷ 3 ∷ 0 ∷ 4 ∷ []

abbrev ten_ports : AddrRange
ten_ports = record {
  ptr = 0;
  min = record { bytes = low; port = 5001 };
  max = record { bytes = high; port = 5010 };
  ttl = 1;
}

abbrev pool : AddressPool
pool = record {
  addresses = ten_ports ∷ [];
  allocated = [];
  has_unicast_addresses = false;
  next_ptr = 1;
}

abbrev even_multicast : AddressFlags
even_multicast = record {
  ipv4 = true;
  ipv6 = false;
  even_port = true;
  multicast = true;
  unicast = false;
}

add_range_test : (add_range plain new low high 5001 5010 1).0 ≡ pool
unfolding add_range new memcmp
add_range_test = refl

pool-IsPool : IsPool pool
pool-IsPool = omega arith

pool-IsDisjoint : IsDisjoint pool
unfolding box
pool-IsDisjoint = record {
  once = λ p. ground arith;
  one_ttl = λ p ttl apart. ground (arith, apart);
}

map-AreBytes : (text : List ℕ) → AreBytes (map low_byte text)
map-AreBytes [] = tt
map-AreBytes (b ∷ bs) = (omega arith, map-AreBytes bs)

plain-GivesBytes : GivesBytes plain
plain-GivesBytes text bytes e = rw (← same) (map-AreBytes text)
  where
    same : map low_byte text ≡ bytes
    same = cc e

abbrev taken_port : Address
taken_port = record {
  owned = true;
  address = low;
  n_ports = 2;
  port = 5002;
  ttl = 1;
  priv = some 0;
}

acquire_address_test : (acquire_address plain pool even_multicast 2).1 ≡ some taken_port
unfolding acquire_address is_suitable split_range memcmp inc_bytes find_link skip_for cut_ports
    skip_ports cut_address skip_addresses
acquire_address_test = refl

abbrev calls : List Request
calls = acquires even_multicast 2 ∷ reserves wanted 5004 2 1 ∷ frees taken_port ∷ []

calls-IsSane : All IsSane calls
calls-IsSane = omega arith

reserve_input :
    fill_address plain wanted (u16 5004) (not (1 == 0))
    ≡ some (record { bytes = wanted; port = 5004 })
unfolding fill_address
reserve_input = refl

acquire_address-Serves_example :
    Serves plain pool even_multicast 2
      (acquire_address plain pool even_multicast 2).0
      (acquire_address plain pool even_multicast 2).1
acquire_address-Serves_example =
    acquire_address-Serves plain pool even_multicast 2 pool-IsPool (omega arith)

reserve_address-Reserves_example :
    Reserves plain pool
      (record { bytes = wanted; port = 5004 })
      5004
      2
      1
      (reserve_address plain pool wanted 5004 2 1)
reserve_address-Reserves_example =
    reserve_address-Reserves plain pool wanted 5004 2 1 (record { bytes = wanted; port = 5004 })
      reserve_input pool-IsPool (omega arith) (omega arith)

run-conserves_example :
    IsPool (run plain pool calls)
    × ((p : Point) → pool_count p (run plain pool calls) ≡ pool_count p pool)
run-conserves_example = run-conserves plain pool calls plain-GivesBytes calls-IsSane pool-IsPool

abbrev some_point : Point
some_point = record { size = 4; address = 3758292996; port = 5004; ttl = 1 }

run_exclusive_example :
    let after = run plain pool calls in
    (count_holding some_point after.allocated ≤ 1)
    × (0 < count_holding some_point after.allocated
        → (count_holding some_point after.addresses ≡ 0)
          × (¬ (◌≡◌ {A = ℕ} 16 1) → pool_count (record some_point { ttl = 16 }) after ≡ 0))
run_exclusive_example =
    run_exclusive plain pool calls some_point 16 plain-GivesBytes calls-IsSane pool-IsPool
      pool-IsDisjoint

acquire_address-address_free_example :
    let after = address_free (acquire_address plain pool even_multicast 2).0 taken_port in
    (after.allocated ≡ pool.allocated)
    × ((p : Point) → count_holding p after.addresses ≡ count_holding p pool.addresses)
acquire_address-address_free_example =
    acquire_address-address_free plain pool even_multicast 2 taken_port pool-IsPool (omega arith)
      acquire_address_test
