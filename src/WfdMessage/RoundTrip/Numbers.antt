-- ===== src/WfdMessage/RoundTrip/Numbers.antt =====
-- gst/rtsp-server/gstwfdmessage.c: the numbers that gst_wfd_message_as_text prints, read by strtoul.
use gst_rtsp_server_wfd.Prelude.{
  ℕ, zero, suc, ◌+◌, ◌-◌, ◌*◌, ◌/◌, ◌%◌, ◌^◌, ◌≤◌, ◌<◌, ◌≡◌, refl, ◌∙◌, ap, [], ◌∷◌, true, false,
  length, arith, All, ltb, ◌==◌, lt→ltb, Bool-cases, inl, inr, All-append,
}
use gst_rtsp_server_wfd.Text.{Text}
use gst_rtsp_server_wfd.WfdMessage.Read.{
  ◌<>◌, is_space, is_c_space, digit_value, digits, skip_spaces, skip_0x, signed, strtoul, ulong_max,
}
use gst_rtsp_server_wfd.WfdMessage.Write.{digit_of, show, pad_with, hex, decimal}

-- A byte that strtoul does not treat specially, and that does not end a word.
abbrev pub IsPlain : ℕ → Type 0
IsPlain c =
    (is_space c ≡ false)
    × ((c == 0) ≡ false)
    × ((c == b'-') ≡ false)
    × ((c == b'+') ≡ false)
    × ((c == b'x') ≡ false)
    × ((c == b'X') ≡ false)
    × (is_c_space c ≡ false)

pub digit_of-IsPlain : (d : ℕ) → d < 16 → IsPlain (digit_of d)
digit_of-IsPlain d h = (
  ground arith,
  ground arith,
  ground arith,
  ground arith,
  ground arith,
  ground arith,
  ground arith,
)

digit_value-digit_of : (d : ℕ) → d < 16 → digit_value (digit_of d) ≡ d
digit_value-digit_of d h = ground arith

-- What is needed of a base.
pub record IsBase (base : ℕ) : Type 0 where
  pub small : base ≤ 16
  pub halves : (n : ℕ) → n / base ≤ n / 2
  pub digit : (n : ℕ) → n % base < base
  pub whole : (n : ℕ) → n / base * base + n % base ≡ n

pub sixteen : IsBase 16
sixteen = record {
  small = omega arith;
  halves = λ n. omega arith;
  digit = λ n. omega arith;
  whole = λ n. omega arith;
}

pub ten : IsBase 10
ten = record {
  small = omega arith;
  halves = λ n. omega arith;
  digit = λ n. omega arith;
  whole = λ n. omega arith;
}

digits_step :
    (base d n : ℕ) (s : Text)
    → base ≤ 16
    → d < base
    → digits base n (digit_of d ∷ s) ≡ digits base (n * base + d) s
unfolding digits
digits_step base d n s le h =
    let v = digit_value-digit_of d (omega (arith, le, h)) in rw (digits, v, lt→ltb d base h, v) refl

pub digits-show :
    (fuel base n : ℕ) (tail : Text)
    → IsBase base
    → n < 2 ^ fuel
    → digits base 0 (show fuel base n tail) ≡ digits base n tail
unfolding show
digits-show zero base n tail b h = ap (λ k. digits base k tail) (omega (arith, h))
digits-show (suc fuel) base n tail b h = elim (Bool-cases (ltb n base)) [
  | inl e ↦
      rw (show, e)
        (digits_step base n 0 tail b.small (ground (arith, e))
          ∙ ap (λ k. digits base k tail) (omega arith))
  | inr e ↦
      rw (show, e)
        (digits-show fuel base (n / base) _ b (omega (arith, h, b.halves n))
          ∙ digits_step base (n % base) (n / base) tail b.small (b.digit n)
          ∙ ap (λ k. digits base k tail) (b.whole n))
]

pub show-All {ℓ} :
    (P : ℕ → Type ℓ) (fuel base n : ℕ) (tail : Text)
    → IsBase base
    → ((d : ℕ) → d < base → P (digit_of d))
    → All P tail
    → All P (show fuel base n tail)
unfolding show
show-All P zero base n tail b p h = h
show-All P (suc fuel) base n tail b p h = elim (Bool-cases (ltb n base)) [
  | inl e ↦ rw (show, e) (p n (ground (arith, e)), h)
  | inr e ↦
      rw (show, e)
        (show-All P fuel base (n / base) (digit_of (n % base) ∷ tail) b p
          (p (n % base) (b.digit n), h))
]

show-IsPlain :
    (fuel base n : ℕ) (tail : Text)
    → IsBase base
    → All IsPlain tail
    → All IsPlain (show fuel base n tail)
show-IsPlain fuel base n tail b h =
    show-All IsPlain fuel base n tail b
      (λ d small. digit_of-IsPlain d (omega (arith, small, b.small))) h

-- A number below 10 ^ k has k digits at most.
length-show-digits :
    (fuel k n : ℕ) (tail : Text)
    → n < 10 ^ k
    → 0 < k
    → length (show fuel 10 n tail) ≤ k + length tail
unfolding show
length-show-digits zero k n tail h some_digit = omega arith
length-show-digits (suc fuel) zero n tail h some_digit = absurd (omega arith)
length-show-digits (suc fuel) (suc zero) n tail h some_digit =
    let e : ltb n 10 ≡ true = ground (arith, h) in rw (show, e) (omega arith)
length-show-digits (suc fuel) (suc (suc k)) n tail h some_digit = elim (Bool-cases (ltb n 10)) [
  | inl e ↦ rw (show, e) (omega arith)
  | inr e ↦
      let rest = length-show-digits fuel (suc k) (n / 10) (digit_of (n % 10) ∷ tail) in
      rw (show, e) (omega (arith, rest (omega (arith, h)) (omega arith)))
]

pub length-show :
    (fuel base n : ℕ) (tail : Text) → length (show fuel base n tail) ≤ fuel + length tail
unfolding show
length-show zero base n tail = omega arith
length-show (suc fuel) base n tail = elim (Bool-cases (ltb n base)) [
  | inl e ↦ rw (show, e) (omega arith)
  | inr e ↦
      rw (show, e) (omega (arith, length-show fuel base (n / base) (digit_of (n % base) ∷ tail)))
]

skip_spaces_plain : (s : Text) → All IsPlain s → skip_spaces s ≡ s
skip_spaces_plain [] h = refl
skip_spaces_plain (c ∷ s) h = rw h.0.6 refl

skip_0x_plain : (base : ℕ) (s : Text) → All IsPlain s → skip_0x base s ≡ s
skip_0x_plain base [] h = refl
skip_0x_plain base (c ∷ []) h = refl
skip_0x_plain base (c ∷ d ∷ s) h = rw (h.1.0.4, h.1.0.5) (ground arith)

-- On plain bytes strtoul is the value of the digits, if it fits.
pub strtoul_plain :
    (s : Text) (base : ℕ)
    → All IsPlain s
    → digits base 0 s ≤ ulong_max
    → strtoul s base ≡ digits base 0 s
unfolding strtoul digits
strtoul_plain s base h small = rw (skip_spaces_plain s h) (go s h small)
  where
    go : (s : Text) → All IsPlain s → digits base 0 s ≤ ulong_max → signed base s ≡ digits base 0 s
    go [] h small = refl
    go (c ∷ s) h small = rw (h.0.2, h.0.3, skip_0x_plain base (c ∷ s) h) (ground (arith, small))

pub All-pad_with {ℓ} :
    (P : ℕ → Type ℓ) (c : ℕ) → P c → (k : ℕ) (s : Text) → All P s → All P (pad_with c k s)
All-pad_with P c p zero s h = h
All-pad_with P c p (suc k) s h = (p, All-pad_with P c p k s h)

digits-zeros : (k : ℕ) (s : Text) → digits 16 0 (pad_with b'0' k s) ≡ digits 16 0 s
unfolding digits
digits-zeros zero s = refl
digits-zeros (suc k) s = digits-zeros k s

append_pad : (c k : ℕ) (s t : Text) → pad_with c k s <> t ≡ pad_with c k (s <> t)
append_pad c zero s t = refl
append_pad c (suc k) s t = ap (λ u. c ∷ u) (append_pad c k s t)

append-show :
    (fuel base n : ℕ) (tail t : Text) → show fuel base n tail <> t ≡ show fuel base n (tail <> t)
unfolding show
append-show zero base n tail t = refl
append-show (suc fuel) base n tail t = elim (Bool-cases (ltb n base)) [
  | inl e ↦ rw (show, e) refl
  | inr e ↦ rw (show, e) (append-show fuel base (n / base) (digit_of (n % base) ∷ tail) t)
]

pub hex-IsPlain : (width n : ℕ) → All IsPlain (hex width n)
unfolding hex
hex-IsPlain width n =
    All-pad_with IsPlain b'0' (digit_of-IsPlain 0 (omega arith)) _ _
      (show-IsPlain 64 16 n [] sixteen tt)

pub decimal-IsPlain : (n : ℕ) → All IsPlain (decimal n)
unfolding decimal
decimal-IsPlain n = show-IsPlain 64 10 n [] ten tt

length-pad_with : (c k : ℕ) (s : Text) → length (pad_with c k s) ≡ k + length s
length-pad_with c zero s = omega arith
length-pad_with c (suc k) s = omega (arith, length-pad_with c k s)

pub length-hex : (width n : ℕ) → length (hex width n) ≤ width + 64
unfolding hex
length-hex width n =
    rw (length-pad_with b'0' (width - length (show 64 16 n [])) (show 64 16 n []))
      (omega (arith, length-show 64 16 n []))

pub length-decimal : (n : ℕ) → length (decimal n) ≤ 64
unfolding decimal
length-decimal n = omega (arith, length-show 64 10 n [])

-- A hexadecimal number of 64 bits is read back, also if plain bytes that are no digits follow.
pub strtoul-hex :
    (width n : ℕ) (extra : Text)
    → n < 18446744073709551616
    → All IsPlain extra
    → digits 16 n extra ≡ n
    → strtoul (hex width n <> extra) 16 ≡ n
unfolding hex
strtoul-hex width n extra h plain stop =
    let k = width - length (show 64 16 n []) in
    let value : digits 16 0 (hex width n <> extra) ≡ n =
      ap (λ s. digits 16 0 s) (append_pad b'0' k (show 64 16 n []) extra)
      ∙ digits-zeros k (show 64 16 n [] <> extra)
      ∙ ap (λ s. digits 16 0 s) (append-show 64 16 n [] extra)
      ∙ digits-show 64 16 n extra sixteen h
      ∙ stop in
    strtoul_plain (hex width n <> extra) 16 (All-append IsPlain _ _ (hex-IsPlain width n) plain)
      (omega (arith, value, h))
    ∙ value

-- A decimal number of 64 bits is read back.
pub strtoul-decimal : (n : ℕ) → n < 18446744073709551616 → strtoul (decimal n) 10 ≡ n
unfolding decimal digits
strtoul-decimal n h =
    let value : digits 10 0 (decimal n) ≡ n = digits-show 64 10 n [] ten h in
    strtoul_plain (decimal n) 10 (decimal-IsPlain n) (omega (arith, value, h)) ∙ value

pub length-decimal-digits : (k n : ℕ) → n < 10 ^ k → 0 < k → length (decimal n) ≤ k
unfolding decimal
length-decimal-digits k n h some_digit = omega (arith, length-show-digits 64 k n [] h some_digit)

pub decimal-All {ℓ} :
    (P : ℕ → Type ℓ) (n : ℕ) → ((d : ℕ) → d < 10 → P (digit_of d)) → All P (decimal n)
unfolding decimal
decimal-All P n p = show-All P 64 10 n [] ten p tt

length-show-pos : (fuel base n : ℕ) (tail : Text) → length tail ≤ length (show fuel base n tail)
unfolding show
length-show-pos zero base n tail = omega arith
length-show-pos (suc fuel) base n tail = elim (Bool-cases (ltb n base)) [
  | inl e ↦ rw (show, e) (omega arith)
  | inr e ↦
      rw (show, e)
        (omega (arith, length-show-pos fuel base (n / base) (digit_of (n % base) ∷ tail)))
]

pub decimal_pos : (n : ℕ) → 0 < length (decimal n)
unfolding decimal show
decimal_pos n = elim (Bool-cases (ltb n 10)) [
  | inl e ↦ rw (decimal, show, e) (omega arith)
  | inr e ↦
      rw (decimal, show, e) (omega (arith, length-show-pos 63 10 (n / 10) (digit_of (n % 10) ∷ [])))
]
