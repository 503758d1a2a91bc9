-- ===== src/Bytes/Value.antt =====
-- The bytes of an address as one number: what memcmp, inc_address and diff_address of
-- gst/rtsp-server/rtsp-address-pool.c do to it.
use Prim.Native.Nat.{compare}
use native.Mathlib.Decide.{dec_le}
use gst_rtsp_server_wfd.Prelude.{
  ℕ, ◌+◌, ◌-◌, ◌*◌, ◌≤◌, ◌<◌, ◌≡◌, refl, List, [], ◌∷◌, arith, All, length, ltb, u32, zero, suc, ap,
  sym, ◌∙◌, lt→ltb, Bool-cases, inl, inr, ◌/◌, ◌%◌,
}
use gst_rtsp_server_wfd.Bytes.{memcmp, inc_bytes, diff_from}

abbrev pub weight : List ℕ → ℕ
weight [] = 1
weight (b ∷ bs) = 256 * weight bs

-- Most significant byte first.
abbrev pub value : List ℕ → ℕ
value [] = 0
value (b ∷ bs) = b * weight bs + value bs

abbrev pub AreBytes : List ℕ → Type 0
AreBytes = All (λ b. b < 256)

pub weight-pos : (bs : List ℕ) → 0 < weight bs
weight-pos [] = omega arith
weight-pos (b ∷ bs) = omega (arith, weight-pos bs)

mul_mono : (a c w : ℕ) → a ≤ c → a * w ≤ c * w
mul_mono a c w k = grind arith

pub value-lt-weight : (bs : List ℕ) → AreBytes bs → value bs < weight bs
value-lt-weight [] h = omega arith
value-lt-weight (b ∷ bs) h =
    omega (arith, value-lt-weight bs h.1, mul_mono b 255 (weight bs) (omega arith))

pub weight_of_length : (as' bs : List ℕ) → length as' ≡ length bs → weight as' ≡ weight bs
weight_of_length [] [] h = refl
weight_of_length [] (b ∷ bs) h = absurd (omega arith)
weight_of_length (a ∷ as') [] h = absurd (omega arith)
weight_of_length (a ∷ as') (b ∷ bs) h = omega (arith, weight_of_length as' bs (omega arith))

-- memcmp orders addresses of one size as the numbers that they stand for.
pub memcmp-compare :
    (as' bs : List ℕ)
    → length as' ≡ length bs
    → AreBytes as'
    → AreBytes bs
    → memcmp as' bs ≡ compare (value as') (value bs)
unfolding memcmp
memcmp-compare [] [] h ha hb = refl
memcmp-compare [] (b ∷ bs) h ha hb = absurd (omega arith)
memcmp-compare (a ∷ as') [] h ha hb = absurd (omega arith)
memcmp-compare (a ∷ as') (b ∷ bs) h ha hb = ground (
  arith,
  memcmp-compare as' bs (omega arith) ha.1 hb.1,
  weight_of_length as' bs (omega arith),
  value-lt-weight as' ha.1,
  value-lt-weight bs hb.1,
  mul_mono (a + 1) b (weight bs),
  mul_mono (b + 1) a (weight bs),
)

-- The bytes and the carry out make up the sum.
pub record Adds (bs : List ℕ) (count : ℕ) (bs' : List ℕ) (carry : ℕ) : Type 0 where
  pub sum : value bs' + carry * weight bs ≡ value bs + count
  pub small : carry ≤ count
  pub are_bytes : AreBytes bs'
  pub same_length : length bs' ≡ length bs

carried_digit :
    (b c w v v' count : ℕ)
    → v' + c * w ≡ v + count
    → (c + b) % 256 * w + v' + (c + b) / 256 * (256 * w) ≡ b * w + v + count
carried_digit b c w v v' count h = omega (arith, digits_times (c + b) w)
  where
    digits_times : (n w : ℕ) → n % 256 * w + n / 256 * (256 * w) ≡ n * w
    digits_times n w =
        let e : n % 256 + n / 256 * 256 ≡ n = omega arith in omega (arith, ap (λ (t : ℕ). t * w) e)

-- With no wrap-around of the carry.
pub inc_bytes-Adds :
    (bs : List ℕ) (count : ℕ)
    → AreBytes bs
    → count + 255 < 4294967296
    → Adds bs count (inc_bytes bs count).0 (inc_bytes bs count).1
unfolding inc_bytes
inc_bytes-Adds [] count h k = record {
  sum = omega arith;
  small = omega arith;
  are_bytes = tt;
  same_length = refl;
}
inc_bytes-Adds (b ∷ bs) count h k =
    let rest = inc_bytes-Adds bs count h.1 k in
    let c = (inc_bytes bs count).1 in
    elim (Bool-cases (ltb 0 c)) [
      | inl some_left ↦ rw some_left (record {
        sum =
            rw
              (
                no_wrap c (omega (arith, rest.small)),
                weight_of_length (inc_bytes bs count).0 bs rest.same_length,
              )
              (carried_digit b c (weight bs) (value bs) (value (inc_bytes bs count).0) count
                rest.sum);
        small = omega (arith, rest.small);
        are_bytes = (omega arith, rest.are_bytes);
        same_length = ap suc rest.same_length;
      })
      | inr none_left ↦ rw none_left (record {
        sum =
            rw (weight_of_length (inc_bytes bs count).0 bs rest.same_length)
              (omega (arith, rest.sum, zero_times c (ground arith)));
        small = omega arith;
        are_bytes = (h.0, rest.are_bytes);
        same_length = ap suc rest.same_length;
      })
    ]
  where
    no_wrap : (c : ℕ) → c ≤ count → u32 (c + b) ≡ c + b
    no_wrap c le = omega arith

    zero_times : (c : ℕ) → c ≡ 0 → c * weight bs ≡ 0
    zero_times c e = rw e (omega arith)

no_carry : (v c w n : ℕ) → v + c * w ≡ n → n < w → v ≡ n
no_carry v zero w n e h = omega arith
no_carry v (suc c) w n e h = absurd (omega arith)

-- A sum that fits the bytes leaves no carry.
pub inc_bytes-value :
    (bs : List ℕ) (count : ℕ)
    → AreBytes bs
    → count + 255 < 4294967296
    → value bs + count < weight bs
    → value (inc_bytes bs count).0 ≡ value bs + count
inc_bytes-value bs count h k fits = no_carry _ _ _ _ (inc_bytes-Adds bs count h k).sum fits

pub value-injective :
    (as' bs : List ℕ)
    → length as' ≡ length bs
    → AreBytes as'
    → AreBytes bs
    → value as' ≡ value bs
    → as' ≡ bs
value-injective [] [] h ha hb e = refl
value-injective [] (b ∷ bs) h ha hb e = absurd (omega arith)
value-injective (a ∷ as') [] h ha hb e = absurd (omega arith)
value-injective (a ∷ as') (b ∷ bs) h ha hb e = ground (
  arith,
  weight_of_length as' bs (omega arith),
  value-lt-weight as' ha.1,
  value-lt-weight bs hb.1,
  mul_mono (a + 1) b (weight bs),
  mul_mono (b + 1) a (weight bs),
  value-injective as' bs (omega arith) ha.1 hb.1,
)

-- The next partial result of diff_address, when the whole difference is known to be small.
next_result :
    (r a b w va vb : ℕ)
    → va < w
    → vb < w
    → b < 256
    → b * w + vb ≤ r * (256 * w) + a * w + va
    → r * (256 * w) + a * w + va + 255 < 4294967296 + b * w + vb
    → (r < 16777216) × (u32 (r * 256 + 4294967296 + a - b) + b ≡ r * 256 + a)
next_result r a b w va vb ha hb h le small =
    let x = r * 256 + a in
    let above : b ≤ x =
      absurd_or b x (λ under. omega (arith, mul_mono (x + 1) b w (omega arith))) in
    let below : x < b + 4294967041 = absurd_or (suc x) (b + 4294967041) (λ over. omega (
      arith,
      mul_mono (4294967040 + b + 1) x w (omega arith),
      mul_mono 1 w 4294967040 (omega arith),
    )) in
    (omega arith, omega arith)
  where
    absurd_or : (m n : ℕ) → (n < m → ⊥) → m ≤ n
    absurd_or m n f = elim (dec_le m n) [ yes h ↦ h | no h ↦ absurd (f (omega arith)) ]

pub diff_from-value :
    (r : ℕ) (as' bs : List ℕ)
    → length as' ≡ length bs
    → AreBytes as'
    → AreBytes bs
    → value bs ≤ r * weight bs + value as'
    → r * weight bs + value as' + 255 < 4294967296 + value bs
    → diff_from r as' bs + value bs ≡ r * weight bs + value as'
unfolding diff_from
diff_from-value r [] [] h ha hb le small = omega arith
diff_from-value r [] (b ∷ bs) h ha hb le small = absurd (omega arith)
diff_from-value r (a ∷ as') [] h ha hb le small = absurd (omega arith)
diff_from-value r (a ∷ as') (b ∷ bs) h ha hb le small =
    let v = weight_of_length as' bs (omega arith) in
    let same = ap (λ (t : ℕ). a * t) v in
    let step =
      next_result r a b (weight bs) (value as') (value bs)
        (omega (arith, v, value-lt-weight as' ha.1)) (value-lt-weight bs hb.1) hb.0
        (omega (arith, same)) (omega (arith, same)) in
    let times = ap (λ (t : ℕ). t * weight bs) step.1 in
    let r' = u32 (r * 256 + 4294967296 + a - b) in
    let rest =
      diff_from-value r' as' bs (omega arith) ha.1 hb.1 (omega (arith, same, times))
        (omega (arith, same, times)) in
    rw (lt→ltb _ _ step.0) (omega (arith, rest, same, times))

-- The difference of two addresses is the count that takes the lower to the upper.
pub inc_bytes-diff_from :
    (as' bs : List ℕ)
    → length as' ≡ length bs
    → AreBytes as'
    → AreBytes bs
    → value bs ≤ value as'
    → value as' + 255 < 4294967296 + value bs
    → (inc_bytes bs (diff_from 0 as' bs)).0 ≡ as'
inc_bytes-diff_from as' bs h ha hb le small =
    let d = diff_from-value 0 as' bs h ha hb (omega arith) (omega arith) in
    let a = inc_bytes-Adds bs (diff_from 0 as' bs) hb (omega (arith, d)) in
    value-injective _ as' (a.same_length ∙ sym h) a.are_bytes ha (
      inc_bytes-value bs (diff_from 0 as' bs) hb (omega (arith, d))
        (omega (arith, d, value-lt-weight as' ha, weight_of_length as' bs h))
      ∙ omega (arith, d))
