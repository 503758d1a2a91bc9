-- ===== src/WfdMessage/RoundTrip/Words.antt =====
-- gst/rtsp-server/gstwfdmessage.c: the readers of gst_wfd_parse_attribute on words and numbers with a
-- space in front of each.
use gst_rtsp_server_wfd.Prelude.{
  ℕ, ◌+◌, ◌≤◌, ◌<◌, ◌≡◌, refl, sym, ◌∙◌, ap, [], ◌∷◌, Bool, true, false, not, ◌&&◌, some, length,
  arith, All, All-append, ◌==◌, lt→ltb, length-append, u32,
}
use gst_rtsp_server_wfd.Text.{Text}
use gst_rtsp_server_wfd.WfdMessage.Read.{
  ◌<>◌, codes, is_space, drop, digits, strtoul, read_until, read_string_space_ended, read_string,
  read_uint64, read_uint32, read_digit, buffer_size,
}
use gst_rtsp_server_wfd.WfdMessage.Write.{hex, decimal, decimal_int}
use gst_rtsp_server_wfd.WfdMessage.RoundTrip.Numbers.{
  IsPlain, hex-IsPlain, decimal-IsPlain, length-hex, length-decimal, strtoul-hex, strtoul-decimal,
}

-- A byte of a word: neither white space nor zero.
abbrev pub IsWordByte : ℕ → Type 0
IsWordByte c = (is_space c ≡ false) × ((c == 0) ≡ false)

-- A word that fits a line.
abbrev pub IsWord : Text → Type 0
IsWord w = All IsWordByte w × (length w ≤ 254)

-- The end of a word: the end of the text or a space.
abbrev pub IsBehindWord : Text → Type 0
IsBehindWord [] = Unit
IsBehindWord (c ∷ s) = is_space c ≡ true

pub IsPlain-IsWordByte : (s : Text) → All IsPlain s → All IsWordByte s
IsPlain-IsWordByte [] h = tt
IsPlain-IsWordByte (c ∷ s) h = ((h.0.0, h.0.1), IsPlain-IsWordByte s h.1)

read_until-append :
    (w tail : Text) (idx : ℕ)
    → All IsWordByte w
    → IsBehindWord tail
    → idx + length w ≤ 8191
    → read_until is_space buffer_size idx (w <> tail) ≡ w
unfolding read_until
read_until-append [] [] idx h b small = refl
read_until-append [] (c ∷ tail) idx h b small = rw (read_until, b) refl
read_until-append (c ∷ w) tail idx h b small =
    rw (read_until, h.0.0, lt→ltb idx 8191 (omega (arith, small)))
      (ap (λ s. c ∷ s) (read_until-append w tail (idx + 1) h.1 b (omega (arith, small))))

drop-append : (w tail : Text) → drop (length w) (w <> tail) ≡ tail
drop-append [] tail = refl
drop-append (c ∷ w) tail = drop-append w tail

pub read_string-append :
    (w tail : Text)
    → All IsWordByte w
    → length w ≤ 8191
    → IsBehindWord tail
    → read_string (b' ' ∷ w <> tail) ≡ (some w, tail)
unfolding read_string read_string_space_ended
read_string-append w tail h small b =
    rw
      (
        read_string,
        read_string_space_ended,
        read_until-append w tail 0 h b (omega (arith, small)),
        drop-append w tail,
      )
      refl

read_uint64-append :
    (w tail : Text)
    → All IsWordByte w
    → length w ≤ 8191
    → IsBehindWord tail
    → read_uint64 (b' ' ∷ w <> tail) ≡ (strtoul w 16, tail)
unfolding read_uint64 read_string_space_ended
read_uint64-append w tail h small b =
    rw
      (
        read_uint64,
        read_string_space_ended,
        read_until-append w tail 0 h b (omega (arith, small)),
        drop-append w tail,
      )
      refl

pub append_assoc : (s t u : Text) → (s <> t) <> u ≡ s <> t <> u
append_assoc [] t u = refl
append_assoc (c ∷ s) t u = ap (λ v. c ∷ v) (append_assoc s t u)

-- A hexadecimal number of 32 bits, and the bytes `extra` that the word goes on with.
pub read_uint32-hex-extra :
    (width n : ℕ) (extra tail : Text)
    → n < 4294967296
    → width ≤ 16
    → All IsPlain extra
    → length extra ≤ 1
    → digits 16 n extra ≡ n
    → IsBehindWord tail
    → read_uint32 (b' ' ∷ hex width n <> extra <> tail) ≡ (n, tail)
unfolding read_uint32
read_uint32-hex-extra width n extra tail h small plain one stop b =
    let w = hex width n <> extra in
    let e : read_uint64 (b' ' ∷ hex width n <> extra <> tail) ≡ (strtoul w 16, tail) =
      ap (λ s. read_uint64 (b' ' ∷ s)) (sym (append_assoc (hex width n) extra tail))
      ∙ read_uint64-append w tail
          (IsPlain-IsWordByte w (All-append IsPlain _ _ (hex-IsPlain width n) plain))
          (omega (arith, length-append (hex width n) extra, length-hex width n, one, small)) b in
    ap (λ x. (u32 x.0, x.1)) e
    ∙ ap (λ k. (u32 k, tail)) (strtoul-hex width n extra (omega (arith, h)) plain stop)
    ∙ ap (λ k. (k, tail)) (omega (arith, h))

pub read_uint32-hex :
    (width n : ℕ) (tail : Text)
    → n < 4294967296
    → width ≤ 16
    → IsBehindWord tail
    → read_uint32 (b' ' ∷ hex width n <> tail) ≡ (n, tail)
unfolding digits
read_uint32-hex width n tail h small b =
    read_uint32-hex-extra width n [] tail h small tt (omega arith) refl b

pub read_digit-decimal_int :
    (n : ℕ) (tail : Text)
    → n < 2147483648
    → IsBehindWord tail
    → read_digit (b' ' ∷ decimal_int n <> tail) ≡ (n, tail)
unfolding read_digit read_string_space_ended decimal_int
read_digit-decimal_int n tail h b =
    let e =
      read_until-append (decimal n) tail 0 (IsPlain-IsWordByte _ (decimal-IsPlain n)) b
        (omega (arith, length-decimal n)) in
    rw
      (
        read_digit,
        read_string_space_ended,
        decimal_int,
        lt→ltb n _ h,
        e,
        drop-append (decimal n) tail,
        strtoul-decimal n (omega (arith, h)),
      )
      (ap (λ k. (k, tail)) (omega (arith, h)))

-- "none" is read as 0.
pub read_uint32-none :
    (tail : Text) → IsBehindWord tail → read_uint32 (b' ' ∷ codes "none" <> tail) ≡ (0, tail)
unfolding read_uint32 strtoul digits
read_uint32-none tail b =
    ap (λ x. (u32 x.0, x.1))
      (read_uint64-append (codes "none") tail
        ((refl, refl), ((refl, refl), ((refl, refl), ((refl, refl), tt)))) (omega arith) b)

-- The bytes of a word, as a test.
abbrev pub is_word : Text → Bool
is_word [] = true
is_word (c ∷ w) = not (is_space c) && not (c == 0) && is_word w

word_tests : (a b c : Bool) → (not a && not b && c) ≡ true → (a ≡ false) × (b ≡ false) × (c ≡ true)
word_tests true b c h = absurd (cc h)
word_tests false true c h = absurd (cc h)
word_tests false false c h = (refl, refl, h)

pub is_word-IsWordByte : (w : Text) → is_word w ≡ true → All IsWordByte w
is_word-IsWordByte [] h = tt
is_word-IsWordByte (c ∷ w) h =
    let (space, nul, rest) = word_tests (is_space c) (c == 0) (is_word w) h in
    ((space, nul), is_word-IsWordByte w rest)
