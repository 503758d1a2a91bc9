-- ===== src/Bytes.antt =====
-- The byte arithmetic of gst/rtsp-server/rtsp-address-pool.c: memcmp on the bytes of an address,
-- inc_address and diff_address. The first `size` bytes of `Addr.bytes` are a list, the most
-- significant byte first; the bytes behind them are never read.
pub mod Value
use gst_rtsp_server_wfd.Prelude.{
  ℕ, ◌+◌, ◌-◌, ◌*◌, ◌/◌, List, [], ◌∷◌, u8, u32, ltb, ◌==◌, if◌then◌else◌,
}
use Prim.Native.Nat.{Ordering, compare}

-- memcmp over two runs of one length: the first pair of bytes that differ decides.
unfoldable pub memcmp : List ℕ → List ℕ → Ordering
memcmp [] bs = Ordering.eq
memcmp (a ∷ as') [] = Ordering.eq
memcmp (a ∷ as') (b ∷ bs) = let rest = memcmp as' bs in if a == b then rest else compare a b

-- The loop of inc_address runs from the last byte to the first and stops when no carry is left;
-- the result is the bytes and the carry behind the first of them.
unfoldable pub inc_bytes : List ℕ → ℕ → List ℕ × ℕ
inc_bytes [] count = ([], count)
inc_bytes (b ∷ bs) count =
    let (bs', carry) = inc_bytes bs count in
    let sum = u32 (carry + b) in if ltb 0 carry then (u8 sum ∷ bs', sum / 256) else (b ∷ bs', 0)

-- The loop of diff_address; its assertion returns the partial result.
unfoldable pub diff_from : ℕ → List ℕ → List ℕ → ℕ
diff_from result [] bs = result
diff_from result (a ∷ as') [] = result
diff_from result (a ∷ as') (b ∷ bs) =
    let rest = diff_from (u32 (result * 256 + 4294967296 + a - b)) as' bs in
    if ltb result 16777216 then rest else result
