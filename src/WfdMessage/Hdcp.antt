-- ===== src/WfdMessage/Hdcp.antt =====
-- gst/rtsp-server/gstwfdmessage.c: the functions that set and get the content protection. A result is
-- none where the code follows a null pointer.
use gst_rtsp_server_wfd.Prelude.{
  ℕ, zero, suc, ◌+◌, ◌-◌, ◌≤◌, ◌<◌, ◌≡◌, refl, [], ◌∷◌, false, Option, none, some, ◌==◌,
  if◌then◌else◌, u32, length, All, ◌⊎◌, inl, inr, ap, arith, lt→ltb, ◌∙◌,
}
use gst_rtsp_server_wfd.Text.{Text}
use gst_rtsp_server_wfd.WfdMessage.{ContentProtection, Hdcp2Spec, WfdMessage}
use gst_rtsp_server_wfd.WfdMessage.Read.{◌<>◌, codes, drop, strtoul}
use gst_rtsp_server_wfd.WfdMessage.Write.{decimal, decimal_int}
use gst_rtsp_server_wfd.WfdMessage.Audio.{is_text}
use gst_rtsp_server_wfd.WfdMessage.RoundTrip.Numbers.{
  decimal-All, decimal_pos, length-decimal-digits, strtoul-decimal,
}

abbrev pub take : ℕ → Text → Text
take zero s = []
take (suc n) [] = []
take (suc n) (c ∷ s) = c ∷ take n s

-- snprintf (str, 11, "port=%d", TCPPort)
abbrev pub port_string : ℕ → Text
port_string port = take 10 (codes "port=" <> decimal_int port)

-- GST_WFD_HDCP_2_0 and GST_WFD_HDCP_2_1
abbrev pub version_string : ℕ → Option Text
version_string version =
    if version == 1
    then some (codes "HDCP2.0")
    else if version == 2
    then some (codes "HDCP2.1")
    else none

abbrev pub protection_or_new : Option ContentProtection → ContentProtection
protection_or_new none = record { hdcp2_spec = none }
protection_or_new (some c) = c

-- gst_wfd_message_set_contentprotection_type
unfoldable pub set_contentprotection_type : ℕ → ℕ → WfdMessage → WfdMessage
set_contentprotection_type version port msg =
    let spec : Hdcp2Spec = record {
      hdcpversion = version_string version;
      tcp_port = some (port_string port);
    } in
    record msg {
      content_protection = some (
          if version == 0
          then protection_or_new msg.content_protection
          else record { hdcp2_spec = some spec });
    }

-- The bytes up to the next '='.
abbrev pub token : Text → Text
token [] = []
token (c ∷ s) = let rest = token s in if c == b'=' then [] else c ∷ rest

abbrev pub skip_delimiters : Text → Text
skip_delimiters [] = []
skip_delimiters (c ∷ s) = let rest = skip_delimiters s in if c == b'=' then rest else c ∷ s

-- The string after strtok (s, "="), which writes a terminator behind the token.
abbrev pub after_strtok : Text → Text
after_strtok s = let t = skip_delimiters s in take (length s - length t + length (token t)) s

-- The value of the token that strtok (NULL, "=") finds; atoi of a null pointer where there is none.
abbrev pub second_value : Text → Option ℕ
second_value s =
    let t = skip_delimiters s in
    elim (token (skip_delimiters (drop (length (token t)) t))) [
      | [] ↦ none
      | c ∷ u ↦ some (u32 (strtoul (c ∷ u) 10))
    ]

-- hdcpversion and TCPPort, as the getter writes them
pub record Protection : Type 0 where
  pub hdcpversion : ℕ
  pub tcp_port : ℕ

-- Reading the port: nothing is written if the string has no token, and the string is cut.
abbrev pub read_port_string : Text → ℕ → Protection → Option (Protection × Text)
read_port_string s version out = elim (skip_delimiters s) [
  | [] ↦ some (record out { hdcpversion = version }, s)
  | c ∷ t ↦ elim (second_value s) [
    | none ↦ none
    | some n ↦ some (record { hdcpversion = version; tcp_port = n }, after_strtok s)
  ]
]

abbrev pub put_port :
    Hdcp2Spec → WfdMessage → Option (Protection × Text) → Option (Protection × WfdMessage)
put_port spec msg none = none
put_port spec msg (some x) = some (
  x.0,
  record msg {
    content_protection = some (record { hdcp2_spec = some (record spec { tcp_port = some x.1 }) });
  },
)

-- The port of a known version; strtok of a null pointer goes on with the string of an earlier call.
abbrev pub known_version :
    ℕ → Hdcp2Spec → WfdMessage → Protection → Option (Protection × WfdMessage)
known_version version spec msg out = elim spec.tcp_port [
  | none ↦ none
  | some s ↦ put_port spec msg (read_port_string s version out)
]

abbrev pub of_spec : Hdcp2Spec → WfdMessage → Protection → Option (Protection × WfdMessage)
of_spec spec msg out =
    if is_text spec.hdcpversion (codes "HDCP2.0")
    then known_version 1 spec msg out
    else if is_text spec.hdcpversion (codes "HDCP2.1")
    then known_version 2 spec msg out
    else some (record { hdcpversion = 0; tcp_port = 0 }, msg)

abbrev pub spec_of : Option ContentProtection → Option Hdcp2Spec
spec_of none = none
spec_of (some c) = c.hdcp2_spec

-- gst_wfd_message_get_contentprotection_type
unfoldable pub get_contentprotection_type :
    WfdMessage → Protection → Option (Protection × WfdMessage)
get_contentprotection_type msg out = elim (spec_of msg.content_protection) [
  | none ↦ some (record out { hdcpversion = 0 }, msg)
  | some spec ↦ of_spec spec msg out
]

abbrev pub IsInToken : Text → Type 0
IsInToken = All (λ c. (c == b'=') ≡ false)

token_whole : (s : Text) → IsInToken s → token s ≡ s
token_whole [] h = refl
token_whole (c ∷ s) h = rw h.0 (ap (λ t. c ∷ t) (token_whole s h.1))

take_whole : (n : ℕ) (s : Text) → length s ≤ n → take n s ≡ s
take_whole zero [] h = refl
take_whole zero (c ∷ s) h = absurd (omega (arith, h))
take_whole (suc n) [] h = refl
take_whole (suc n) (c ∷ s) h = ap (λ t. c ∷ t) (take_whole n s (omega (arith, h)))

-- The string of a port is read, and cut behind its name.
read_port_string-port :
    (s : Text) (version : ℕ) (out : Protection)
    → IsInToken s
    → 0 < length s
    → read_port_string (codes "port=" <> s) version out
      ≡ some (record { hdcpversion = version; tcp_port = u32 (strtoul s 10) }, codes "port")
read_port_string-port [] version out h some_digit = absurd (omega arith)
read_port_string-port (c ∷ s) version out h some_digit =
    let cut : length (codes "port=" <> c ∷ s) - length (codes "port=" <> c ∷ s) + 4 ≡ 4 =
      omega arith in
    rw (read_port_string, second_value, skip_delimiters, token, h.0, token_whole s h.1, h.0, cut)
      refl

port_string-decimal : (n : ℕ) → n < 100000 → port_string n ≡ codes "port=" <> decimal n
unfolding decimal_int
port_string-decimal n h =
    rw (decimal_int, lt→ltb n 2147483648 (omega (arith, h)))
      (ap (λ s. codes "port=" <> s)
        (take_whole 5 (decimal n) (length-decimal-digits 5 n (omega (arith, h)) (omega arith))))

-- The message with a version and the string of a port.
abbrev with_string : ℕ → Text → WfdMessage → WfdMessage
with_string version s msg = record msg {
  content_protection = some (record {
    hdcp2_spec = some (record { hdcpversion = version_string version; tcp_port = some s });
  });
}

version-cases :
    (version : ℕ) (s : Text) (msg : WfdMessage) (out : Protection)
    → (version ≡ 1) ⊎ (version ≡ 2)
    → of_spec (record { hdcpversion = version_string version; tcp_port = some s }) msg out
      ≡ put_port
          (record { hdcpversion = version_string version; tcp_port = some s })
          msg
          (read_port_string s version out)
version-cases version s msg out (inl e) = rw e refl
version-cases version s msg out (inr e) = rw e refl

-- A version that was set is got once, with its port, if that has five digits at most; the string of
-- the port is cut then, and the next call follows a null pointer.
pub get-set_contentprotection_type :
    (version port : ℕ) (msg : WfdMessage) (out : Protection)
    → (version ≡ 1) ⊎ (version ≡ 2)
    → port < 100000
    → (msg' : WfdMessage) × (get_contentprotection_type
          (set_contentprotection_type version port msg)
          out
        ≡ some (record { hdcpversion = version; tcp_port = port }, msg'))
      × (get_contentprotection_type msg' out ≡ none)
unfolding get_contentprotection_type set_contentprotection_type
get-set_contentprotection_type version port msg out v small =
    let known : (version == 0) ≡ false = ground (arith, v) in
    let digits : IsInToken (decimal port) =
      decimal-All (λ c. (c == b'=') ≡ false) port (λ d small. ground (arith, small)) in
    let value : u32 (strtoul (decimal port) 10) ≡ port =
      ap u32 (strtoul-decimal port (omega (arith, small))) ∙ omega (arith, small) in
    let line = codes "port=" <> decimal port in
    let read = read_port_string-port (decimal port) version out digits (decimal_pos port) in
    (
      with_string version (codes "port") msg,
      rw (known, port_string-decimal port small)
          (version-cases version line (with_string version line msg) out v ∙ rw (read, value) refl),
      version-cases version (codes "port") (with_string version (codes "port") msg) out v,
    )
