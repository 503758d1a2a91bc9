-- ===== src/WfdMessage/Uibc.antt =====
-- gst/rtsp-server/gstwfdmessage.c, gst_wfd_parse_attribute: wfd_uibc_capability. A result is none
-- where the code follows the null pointer of a strstr that found nothing.
use mathlib.Core.Option.{map}
use gst_rtsp_server_wfd.Prelude.{
  ◌-◌, ℕ, zero, suc, ◌+◌, ◌/◌, ◌%◌, List, [], ◌∷◌, true, false, not, Option, none, some, length,
  ltb, ◌==◌, if◌then◌else◌, u32, ◌≤◌, ◌<◌, ◌≡◌, refl, ap, arith, Bool-cases, ltb→lt, inl, inr,
}
use gst_rtsp_server_wfd.Text.{Text, equal_texts}
use gst_rtsp_server_wfd.WfdMessage.{DetailedCap, UibcCapability}
use gst_rtsp_server_wfd.WfdMessage.Read.{
  read_to, read_string_char_ended, read_until, strtoul, strstr, contains, codes, skip_space,
  skip_equal, drop, buffer_size,
}

-- flags |= bit, for a power of two
abbrev pub set_flag : ℕ → ℕ → ℕ
set_flag bit flags = if flags / bit % 2 == 0 then flags + bit else flags

-- The do loops over "a,b,c": the part up to the next comma, from `read_len` on. They read at least
-- one part, and stop when `read_len` has reached the length of the string.
unfoldable pub parts : ℕ → Text → List Text
parts zero s = []
parts (suc fuel) s =
    let temp = read_string_char_ended buffer_size b',' s in
    elim (ltb (length temp + 1) (length s)) [
      | true ↦ temp ∷ parts fuel (drop (length temp + 1) s)
      | false ↦ temp ∷ []
    ]

-- Every turn takes a byte at least.
unfoldable pub parts_of : Text → List Text
parts_of s = parts (length s + 1) s

unfoldable pub input_cat_of : Text → ℕ → ℕ
input_cat_of temp flags =
    if contains temp (codes "GENERIC")
    then set_flag 1 flags
    else if contains temp (codes "HIDC")
    then set_flag 2 flags
    else flags

-- GST_WFD_UIBC_INPUT_TYPE_*, of which UNKNOWN is 0
unfoldable pub inp_type_of : Text → ℕ
inp_type_of temp =
    if contains temp (codes "Keyboard")
    then 1
    else if contains temp (codes "Mouse")
    then 2
    else if contains temp (codes "SingleTouch")
    then 4
    else if contains temp (codes "MultiTouch")
    then 8
    else if contains temp (codes "Joystick")
    then 16
    else if contains temp (codes "Camera")
    then 32
    else if contains temp (codes "Gesture")
    then 64
    else if contains temp (codes "RemoteControl")
    then 128
    else 0

-- GST_WFD_UIBC_INPUT_PATH_*
unfoldable pub inp_path_of : Text → ℕ
inp_path_of temp =
    if contains temp (codes "Infrared")
    then 1
    else if contains temp (codes "USB")
    then 2
    else if contains temp (codes "BT")
    then 4
    else if contains temp (codes "Zigbee")
    then 8
    else if contains temp (codes "Wi-Fi")
    then 16
    else if contains temp (codes "No-SP")
    then 32
    else 0

unfoldable pub input_cats : ℕ → List Text → ℕ
input_cats flags [] = flags
input_cats flags (t ∷ ts) = input_cats (input_cat_of t flags) ts

abbrev pub add_type : Text → ℕ → ℕ
add_type t flags = if inp_type_of t == 0 then flags else set_flag (inp_type_of t) flags

unfoldable pub inp_types : ℕ → List Text → ℕ
inp_types flags [] = flags
inp_types flags (t ∷ ts) = inp_types (add_type t flags) ts

-- _read_string_attr_and_value with the delimiter '/'; none where there is no '/', and the code reads
-- what stands behind the terminator in an array that it never set.
unfoldable pub detailed_cap_of : Text → Option DetailedCap
detailed_cap_of temp =
    let attr = read_until (λ c. c == b'/') buffer_size 0 temp in
    elim (drop (length attr) temp) [
      | [] ↦ none
      | c ∷ path ↦ some (record { inp_type = inp_type_of attr; inp_path = inp_path_of path })
    ]

abbrev pub join_cap : Option DetailedCap → Option (List DetailedCap) → Option (List DetailedCap)
join_cap none _ = none
join_cap (some d) caps = map (λ ds. d ∷ ds) caps

unfoldable pub detailed_caps : List Text → Option (List DetailedCap)
detailed_caps [] = some []
detailed_caps (t ∷ ts) = join_cap (detailed_cap_of t) (detailed_caps ts)

-- WFD_SKIP_SPACE in each turn of the first loop
abbrev pub skip_each : List Text → Text → Text
skip_each [] v = v
skip_each (t ∷ ts) v = skip_each ts (skip_space v)

unfoldable pub read_input_cats : Text → UibcCapability → UibcCapability × Text
read_input_cats v u =
    let (list, rest) = read_to b';' v in
    let ts = parts_of list in
    (record u { input_cat = input_cats u.input_cat ts }, skip_each ts rest)

unfoldable pub read_generic : Text → UibcCapability → UibcCapability × Text
read_generic v u =
    let (name, rest) = read_to b'=' v in
    let (list, rest') = read_to b';' (skip_space rest) in
    if equal_texts name (codes "generic_cap_list")
    then (record u { generic_inp_type = inp_types u.generic_inp_type (parts_of list) }, rest')
    else (u, rest)

unfoldable pub read_hidc : Text → UibcCapability → Option (UibcCapability × Text)
read_hidc v u =
    let (name, rest) = read_to b'=' (skip_space v) in
    let (list, rest') = read_to b';' rest in
    if equal_texts name (codes "hidc_cap_list")
    then map (λ caps. (record u { cap_count = length caps; hidc_cap_list = caps }, rest'))
        (detailed_caps (parts_of list))
    else some (u, rest)

unfoldable pub read_port : Text → UibcCapability → UibcCapability
read_port v u = elim (strstr v (codes "port")) [
  | none ↦ u
  | some v' ↦
      let (name, rest) = read_to b'=' v' in
      let port = (read_to b';' (skip_equal rest)).0 in
      if not (equal_texts name (codes "port"))
      then u
      else if contains port (codes "none")
      then u
      else record u { tcp_port = u32 (strtoul port 10) }
]

abbrev behind_hidc : Option (UibcCapability × Text) → Option UibcCapability
behind_hidc o = map (λ x. read_port x.1 x.0) o

abbrev behind_generic : UibcCapability × Text → Option UibcCapability
behind_generic (u, v) = elim (strstr v (codes "hidc_cap_list")) [
  | none ↦ none
  | some v' ↦ behind_hidc (read_hidc v' u)
]

-- What follows the first list, up to the port.
abbrev pub behind_cats : UibcCapability × Text → Option UibcCapability
behind_cats (u, v) = elim (strstr v (codes "generic_cap_list")) [
  | none ↦ none
  | some v' ↦ behind_generic (read_generic v' u)
]

abbrev pub no_uibc : UibcCapability
no_uibc = record {
  uibcsupported = false;
  input_cat = 0;
  generic_inp_type = 0;
  cap_count = 0;
  hidc_cap_list = [];
  tcp_port = 0;
}

-- A value with neither "input_category_list" nor "none" leaves the new structure as "none" does.
unfoldable pub parse_uibc_capability : Text → Option UibcCapability
parse_uibc_capability v =
    let (name, rest) = read_to b'=' (skip_space v) in
    let supported = record no_uibc { uibcsupported = true } in
    elim (contains v (codes "input_category_list")) [
      | false ↦ some no_uibc
      | true ↦ elim (equal_texts name (codes "input_category_list")) [
        | false ↦ some supported
        | true ↦ behind_cats (read_input_cats rest supported)
      ]
    ]

length-drop : (n : ℕ) (s : Text) → length (drop n s) ≤ length s - n
length-drop zero s = omega arith
length-drop (suc n) [] = omega arith
length-drop (suc n) (c ∷ s) = omega (arith, length-drop n s)

-- The parts are the same with any fuel above the length of the string, so that of parts_of is enough.
pub parts-enough : (n m : ℕ) (s : Text) → length s < n → length s < m → parts n s ≡ parts m s
unfolding parts
parts-enough zero m s h k = absurd (omega (arith, h))
parts-enough (suc n) zero s h k = absurd (omega (arith, k))
parts-enough (suc n) (suc m) s h k =
    let temp = read_string_char_ended buffer_size b',' s in
    let shorter = length-drop (length temp + 1) s in
    elim (Bool-cases (ltb (length temp + 1) (length s))) [
      | inl e ↦
          let less = ltb→lt _ _ e in
          rw (parts, e)
            (ap (λ ts. temp ∷ ts)
              (parts-enough n m (drop (length temp + 1) s) (omega (arith, shorter, less, h))
                (omega (arith, shorter, less, k))))
      | inr e ↦ rw (parts, e) refl
    ]
