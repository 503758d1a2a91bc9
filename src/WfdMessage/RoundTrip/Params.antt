-- ===== src/WfdMessage/RoundTrip/Params.antt =====
-- gst/rtsp-server/gstwfdmessage.c: the parameters of a few words or numbers, printed and parsed.
use gst_rtsp_server_wfd.Prelude.{
  ℕ, ◌+◌, ◌≤◌, ◌<◌, ◌≡◌, refl, sym, ◌∙◌, ap, [], ◌∷◌, Bool, true, false, Option, none, some, length,
  arith, All, not_zero, lt→ltb,
}
use gst_rtsp_server_wfd.Text.{Text}
use gst_rtsp_server_wfd.WfdMessage.Read.{◌<>◌, read_string, read_uint32, read_digit}
use gst_rtsp_server_wfd.WfdMessage.Write.{
  hex, decimal, decimal_int, show, spaced, coupled_sink_value, trigger_method_value,
  presentation_url_value, route_value, i2c_value, uibc_setting_value,
  standby_resume_capability_value, connector_type_value,
}
use gst_rtsp_server_wfd.WfdMessage.Params.{
  parse_coupled_sink, parse_trigger_method, parse_presentation_url, read_ports,
  parse_client_rtp_ports, parse_route, parse_i2c, parse_uibc_setting,
  parse_standby_resume_capability, parse_connector_type,
}
use gst_rtsp_server_wfd.WfdMessage.Lines.{IsLine}
use gst_rtsp_server_wfd.WfdMessage.RoundTrip.Words.{
  IsWordByte, IsWord, read_string-append, read_uint32-hex, read_digit-decimal_int,
}

-- The line of a parameter fits the buffer.
abbrev pub Fits : Text → Text → Type 0
Fits name value = length name + 1 + length value ≤ 254

abbrev pub IsSomeWord : Option Text → Type 0
IsSomeWord none = ⊥
IsSomeWord (some w) = IsWord w

pub word-IsLine : (w : Text) → All IsWordByte w → IsLine w
word-IsLine [] h = tt
word-IsLine (c ∷ w) h = ((ground (arith, h.0.0), h.0.1), word-IsLine w h.1)

pub append_nil : (s : Text) → s <> [] ≡ s
append_nil [] = refl
append_nil (c ∷ s) = ap (λ t. c ∷ t) (append_nil s)

-- The last word of a value.
pub last_word : (w : Text) → IsWord w → read_string (spaced w) ≡ (some w, [])
unfolding read_string
last_word w h =
    ap (λ s. read_string (b' ' ∷ s)) (sym (append_nil w))
    ∙ read_string-append w [] h.0 (omega (arith, h.1)) tt

pub route_lem :
    (o : Option Text)
    → IsSomeWord o
    → parse_route (route_value (record { destination = o })) ≡ record { destination = o }
unfolding parse_route route_value
route_lem none h = absurd h
route_lem (some w) h = ap (λ x. record { destination = x.0 }) (last_word w h)

pub trigger_method_lem :
    (o : Option Text)
    → IsSomeWord o
    → parse_trigger_method (trigger_method_value (record { wfd_trigger_method = o }))
      ≡ record { wfd_trigger_method = o }
unfolding parse_trigger_method trigger_method_value
trigger_method_lem none h = absurd h
trigger_method_lem (some w) h = ap (λ x. record { wfd_trigger_method = x.0 }) (last_word w h)

pub presentation_url_lem :
    (o u : Option Text)
    → IsSomeWord o
    → IsSomeWord u
    → parse_presentation_url (presentation_url_value (record { wfd_url0 = o; wfd_url1 = u }))
      ≡ record { wfd_url0 = o; wfd_url1 = u }
unfolding parse_presentation_url presentation_url_value
presentation_url_lem none u h k = absurd h
presentation_url_lem (some v) none h k = absurd k
presentation_url_lem (some v) (some w) h k =
    let e = read_string-append v (spaced w) h.0 (omega (arith, h.1)) refl in
    ap (λ x. record { wfd_url0 = x.0; wfd_url1 = (read_string x.1).0 }) e
    ∙ ap (λ x. record { wfd_url0 = some v; wfd_url1 = x.0 }) (last_word w k)

pub coupled_sink_lem :
    (status : ℕ) (o : Option Text)
    → status < 4294967296
    → IsSomeWord o
    → parse_coupled_sink (
        coupled_sink_value
          (record { coupled_sink_cap = some (record { status = status; sink_address = o }) }))
      ≡ record { coupled_sink_cap = some (record { status = status; sink_address = o }) }
unfolding parse_coupled_sink coupled_sink_value
coupled_sink_lem status none small h = absurd h
coupled_sink_lem status (some w) small h =
    let e = read_uint32-hex 2 status (spaced w) small (omega arith) refl in
    rw (e, last_word w h) refl

pub uibc_setting_lem :
    (b : Bool)
    → parse_uibc_setting (uibc_setting_value (record { uibc_setting = b }))
      ≡ record { uibc_setting = b }
unfolding parse_uibc_setting uibc_setting_value
uibc_setting_lem true = refl
uibc_setting_lem false = refl

pub standby_resume_capability_lem :
    (b : Bool)
    → parse_standby_resume_capability
        (standby_resume_capability_value (record { standby_resume_cap = b }))
      ≡ record { standby_resume_cap = b }
unfolding parse_standby_resume_capability standby_resume_capability_value
standby_resume_capability_lem true = refl
standby_resume_capability_lem false = refl

-- A connector of the table, other than VGA; 0 prints as "none".
pub connector_type_lem :
    (n : ℕ)
    → 0 < n
    → n < 4294967296
    → parse_connector_type (connector_type_value (record { supported = true; connector_type = n }))
      ≡ record { supported = true; connector_type = n }
unfolding parse_connector_type connector_type_value
connector_type_lem n some_type small = rw (not_zero n some_type) (
    ap (λ x. record { supported = true; connector_type = x.0 })
      (ap (λ s. read_uint32 (b' ' ∷ s)) (sym (append_nil (hex 2 n)))
        ∙ read_uint32-hex 2 n [] small (omega arith) tt))

pub client_rtp_ports_lem :
    (profile mode : Text) (port0 port1 : ℕ)
    → IsWord profile
    → IsWord mode
    → port0 < 2147483648
    → port1 < 2147483648
    → parse_client_rtp_ports
        (spaced profile <> spaced (decimal_int port0) <> spaced (decimal_int port1) <> spaced mode)
      ≡ record { profile = some profile; rtp_port0 = port0; rtp_port1 = port1; mode = some mode }
unfolding parse_client_rtp_ports read_ports
client_rtp_ports_lem profile mode port0 port1 h k small0 small1 =
    rw
      (
        read_string-append profile
            (spaced (decimal_int port0) <> spaced (decimal_int port1) <> spaced mode) h.0
            (omega (arith, h.1)) refl,
        read_digit-decimal_int port0 (spaced (decimal_int port1) <> spaced mode) small0 refl,
        read_digit-decimal_int port1 (spaced mode) small1 refl,
        last_word mode k,
      )
      refl

hex_one_digit : (n : ℕ) → n < 10 → hex 0 n ≡ decimal_int n
unfolding hex decimal_int decimal show
hex_one_digit n h =
    rw
      (
        hex,
        decimal_int,
        decimal,
        show,
        lt→ltb n 16 (omega (arith, h)),
        lt→ltb n 10 h,
        lt→ltb n 2147483648 (omega (arith, h)),
        lt→ltb n 10 h,
      )
      refl

-- A port of one digit is the same in the base in which it is printed and that in which it is read.
pub i2c_lem :
    (n : ℕ)
    → n < 10
    → parse_i2c (i2c_value (record { i2c_present = true; i2c_port = n }))
      ≡ record { i2c_present = true; i2c_port = n }
unfolding parse_i2c i2c_value
i2c_lem n h =
    ap (λ x. record { i2c_present = true; i2c_port = x.0 })
      (ap (λ s. read_digit (b' ' ∷ s)) (hex_one_digit n h ∙ sym (append_nil (decimal_int n)))
        ∙ read_digit-decimal_int n [] (omega (arith, h)) tt)
