-- ===== src/WfdMessage/Read.antt =====
-- gst/rtsp-server/gstwfdmessage.c: the readers that the parser of a parameter is made of. A cursor
-- `v` is the text from it to the terminator. What the C library's strtoul, strstr and isspace do is
-- written out.
use Prim.Native.Char.{code}
use Prim.Native.String.{String}
use gst_rtsp_server_wfd.Prelude.{
  ℕ, zero, suc, ◌+◌, ◌-◌, ◌*◌, ◌%◌, [], ◌∷◌, ◌++◌, Bool, true, false, not, ◌&&◌, ◌||◌, Option, none,
  some, length, ltb, leb, ◌==◌, if◌then◌else◌, u32,
}
use gst_rtsp_server_wfd.Text.{Text}

-- A string literal, in ASCII.
abbrev pub codes : String → Text
codes String.[] = []
codes (String.◌∷◌ c s) = code c ∷ codes s

infixr 66 ◌<>◌
abbrev pub ◌<>◌ : Text → Text → Text
s <> t = s ++ t

abbrev pub drop : ℕ → Text → Text
drop zero s = s
drop (suc n) [] = []
drop (suc n) (c ∷ s) = drop n s

-- g_ascii_isspace, which leaves out the vertical tab
abbrev pub is_space : ℕ → Bool
is_space c = c == b' ' || (leb 9 c && leb c 13 && not (c == 11))

-- isspace of the C library, for strtoul
abbrev pub is_c_space : ℕ → Bool
is_c_space c = c == b' ' || (leb 9 c && leb c 13)

-- g_ascii_ispunct
abbrev pub is_punct : ℕ → Bool
is_punct c =
    (leb 33 c && leb c 47)
    || (leb 58 c && leb c 64)
    || (leb 91 c && leb c 96)
    || (leb 123 c && leb c 126)

-- strstr
abbrev pub starts_with : Text → Text → Bool
starts_with s [] = true
starts_with [] (d ∷ t) = false
starts_with (c ∷ s) (d ∷ t) = (c == d) && starts_with s t

abbrev pub strstr : Text → Text → Option Text
strstr [] t = if starts_with [] t then some [] else none
strstr (c ∷ s) t = let rest = strstr s t in if starts_with (c ∷ s) t then some (c ∷ s) else rest

abbrev pub contains : Text → Text → Bool
contains s t = elim (strstr s t) [ some u ↦ true | none ↦ false ]

-- What is left after the numbers that fit into an unsigned long are exceeded is ULONG_MAX.
abbrev pub ulong_max : ℕ
ulong_max = 18446744073709551615

-- The value of a digit, 255 for what is none.
abbrev pub digit_value : ℕ → ℕ
digit_value c =
    if leb 48 c && leb c 57
    then c - 48
    else if leb 97 c && leb c 102
    then c - 87
    else if leb 65 c && leb c 70
    then c - 55
    else 255

unfoldable pub digits : ℕ → ℕ → Text → ℕ
digits base n [] = n
digits base n (c ∷ s) = elim (ltb (digit_value c) base) [
  | true ↦ digits base (n * base + digit_value c) s
  | false ↦ n
]

abbrev pub skip_spaces : Text → Text
skip_spaces [] = []
skip_spaces (c ∷ s) = let rest = skip_spaces s in if is_c_space c then rest else c ∷ s

-- The prefix "0x" or "0X" of a number in base 16.
abbrev pub skip_0x : ℕ → Text → Text
skip_0x base (zero' ∷ x ∷ s) =
    if base == 16 && zero' == b'0' && (x == b'x' || x == b'X') then s else zero' ∷ x ∷ s
skip_0x base s = s

abbrev pub magnitude : ℕ → Text → ℕ
magnitude base s =
    let n = digits base 0 (skip_0x base s) in if leb n ulong_max then n else ulong_max

-- A minus sign negates the number, unless it was too large.
abbrev negated : ℕ → Text → ℕ
negated base s =
    let n = digits base 0 (skip_0x base s) in
    if leb n ulong_max then (ulong_max + 1 - n) % (ulong_max + 1) else ulong_max

abbrev pub signed : ℕ → Text → ℕ
signed base [] = 0
signed base (c ∷ s) =
    if c == b'-'
    then negated base s
    else if c == b'+'
    then magnitude base s
    else magnitude base (c ∷ s)

unfoldable pub strtoul : Text → ℕ → ℕ
strtoul s base = signed base (skip_spaces s)

-- The bytes up to the delimiter, of which `size - 1` are stored; `idx` counts them.
unfoldable pub read_until : (ℕ → Bool) → ℕ → ℕ → Text → Text
read_until stop size idx [] = []
read_until stop size idx (c ∷ src) = elim (stop c) [
  | true ↦ []
  | false ↦ elim (ltb idx (u32 (size + 4294967295))) [
    | true ↦ c ∷ read_until stop size (idx + 1) src
    | false ↦ read_until stop size idx src
  ]
]

abbrev pub buffer_size : ℕ
buffer_size = 8192

-- _read_string_space_ended
unfoldable pub read_string_space_ended : ℕ → Text → Text
read_string_space_ended size src = read_until is_space size 0 src

-- _read_string_char_ended
unfoldable pub read_string_char_ended : ℕ → ℕ → Text → Text
read_string_char_ended size del src = read_until (λ c. c == del) size 0 src

abbrev pub skip_space : Text → Text
skip_space [] = []
skip_space (c ∷ v) = if is_space c then v else c ∷ v

abbrev pub skip_equal : Text → Text
skip_equal [] = []
skip_equal (c ∷ v) = if c == b'=' then v else c ∷ v

abbrev pub skip_comma : Text → Text
skip_comma [] = []
skip_comma (c ∷ v) = if is_punct c then v else c ∷ v

-- A piece of the parser reads from the cursor and moves it.
abbrev pub Reader : Type 0 → Type 0
Reader A = Text → A × Text

infixl 20 ◌>>=◌
abbrev pub ◌>>=◌ : {A B : Type 0} → Reader A → (A → Reader B) → Reader B
(m >>= k) v = k (m v).0 (m v).1

abbrev pub finish : {A : Type 0} → A → Reader A
finish a v = (a, v)

-- WFD_SKIP_SPACE and WFD_READ_STRING
unfoldable pub read_string : Reader (Option Text)
read_string v =
    let temp = read_string_space_ended buffer_size (skip_space v) in
    (some temp, drop (length temp) (skip_space v))

-- WFD_SKIP_SPACE and WFD_READ_UINT32, into a field of 64 bits
unfoldable pub read_uint64 : Reader ℕ
read_uint64 v =
    let temp = read_string_space_ended buffer_size (skip_space v) in
    (strtoul temp 16, drop (length temp) (skip_space v))

-- WFD_SKIP_SPACE and WFD_READ_UINT32, into a field of 32 bits
unfoldable pub read_uint32 : Reader ℕ
read_uint32 v = (u32 (read_uint64 v).0, (read_uint64 v).1)

-- WFD_SKIP_SPACE and WFD_READ_UINT32_DIGIT
unfoldable pub read_digit : Reader ℕ
read_digit v =
    let temp = read_string_space_ended buffer_size (skip_space v) in
    (u32 (strtoul temp 10), drop (length temp) (skip_space v))

-- WFD_SKIP_COMMA
abbrev pub pass_comma : Reader Unit
pass_comma v = (tt, skip_comma v)

-- WFD_READ_CHAR_END_STRING
unfoldable pub read_to : ℕ → Reader Text
read_to del v = let temp = read_string_char_ended buffer_size del v in (temp, drop (length temp) v)
