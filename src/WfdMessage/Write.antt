-- ===== src/WfdMessage/Write.antt =====
-- gst/rtsp-server/gstwfdmessage.c: gst_wfd_message_as_text and gst_wfd_message_param_names_as_text,
-- the conversions of printf that they use, and the parameters of a few words or numbers.
use gst_rtsp_server_wfd.Prelude.{
  ℕ, zero, suc, ◌+◌, ◌-◌, ◌/◌, ◌%◌, [], ◌∷◌, true, false, Option, none, some, length, ltb, ◌==◌,
  if◌then◌else◌,
}
use gst_rtsp_server_wfd.Text.{Text}
use gst_rtsp_server_wfd.WfdMessage.{
  CoupledSink, TriggerMethod, PresentationUrl, ClientRtpPorts, Route, I2c, AvFormatChangeTiming,
  PreferredDisplayMode, UibcSetting, StandbyResumeCapability, ConnectorType,
}
use gst_rtsp_server_wfd.WfdMessage.Read.{codes, ◌<>◌}

abbrev pub digit_of : ℕ → ℕ
digit_of d = if ltb d 10 then 48 + d else 87 + d

-- The digits of `n` in front of `tail`; 64 of them are enough for 64 bits in any base from 2 on.
unfoldable pub show : ℕ → ℕ → ℕ → Text → Text
show zero base n tail = tail
show (suc fuel) base n tail = elim (ltb n base) [
  | true ↦ digit_of n ∷ tail
  | false ↦ show fuel base (n / base) (digit_of (n % base) ∷ tail)
]

abbrev pub pad_with : ℕ → ℕ → Text → Text
pad_with c zero s = s
pad_with c (suc n) s = c ∷ pad_with c n s

-- "%0<width>x" of an unsigned int
unfoldable pub hex : ℕ → ℕ → Text
hex width n = let s = show 64 16 n [] in pad_with b'0' (width - length s) s

-- "%u" and "%llu"
unfoldable pub decimal : ℕ → Text
decimal n = show 64 10 n []

-- "%d" of the 32 bits `n`
unfoldable pub decimal_int : ℕ → Text
decimal_int n = if ltb n 2147483648 then decimal n else b'-' ∷ decimal (4294967296 - n)

-- "%<width>llu"
unfoldable pub decimal_padded : ℕ → Text
decimal_padded n = pad_with b' ' (10 - length (decimal n)) (decimal n)

-- "%s"; a null pointer prints as the GNU C library does it.
abbrev pub string : Option Text → Text
string none = codes "(null)"
string (some s) = s

abbrev pub spaced : Text → Text
spaced s = b' ' ∷ s

abbrev pub crlf : Text
crlf = b'\r' ∷ b'\n' ∷ []

-- name ":" value "\r\n"
abbrev pub line_of : Text → Text → Text
line_of name value = name <> b':' ∷ value <> crlf

abbrev pub word_or_none : Option Text → Text
word_or_none none = codes "none"
word_or_none (some s) = s

unfoldable pub coupled_sink_value : CoupledSink → Text
coupled_sink_value c = elim c.coupled_sink_cap [
  | none ↦ codes " none"
  | some s ↦ spaced (hex 2 s.status) <> spaced (word_or_none s.sink_address)
]

unfoldable pub trigger_method_value : TriggerMethod → Text
trigger_method_value t = spaced (string t.wfd_trigger_method)

unfoldable pub presentation_url_value : PresentationUrl → Text
presentation_url_value p = spaced (word_or_none p.wfd_url0) <> spaced (word_or_none p.wfd_url1)

-- With the name, which has no colon where there is no profile.
unfoldable pub client_rtp_ports_line : ClientRtpPorts → Text
client_rtp_ports_line c = elim c.profile [
  | none ↦ codes "wfd_client_rtp_ports" <> crlf
  | some profile ↦ line_of (codes "wfd_client_rtp_ports") (
      spaced profile
      <> spaced (decimal_int c.rtp_port0)
      <> spaced (decimal_int c.rtp_port1)
      <> spaced (string c.mode))
]

unfoldable pub route_value : Route → Text
route_value r = spaced (string r.destination)

unfoldable pub i2c_value : I2c → Text
i2c_value i = if i.i2c_present then spaced (hex 0 i.i2c_port) else codes " none"

unfoldable pub av_format_change_timing_value : AvFormatChangeTiming → Text
av_format_change_timing_value a = spaced (decimal_padded a.pts) <> spaced (decimal_padded a.dts)

-- "%06llu"
abbrev pub p_clock_text : ℕ → Text
p_clock_text n = pad_with b'0' (6 - length (decimal n)) (decimal n)

unfoldable pub preferred_display_mode_value : PreferredDisplayMode → Text
preferred_display_mode_value m =
    if m.displaymodesupported
    then spaced (p_clock_text m.p_clock)
      <> spaced (hex 4 m.h)
      <> spaced (hex 4 m.hb)
      <> spaced (hex 4 m.hspol_hsoff)
      <> spaced (hex 4 m.hsw)
      <> spaced (hex 4 m.v)
      <> spaced (hex 4 m.vb)
      <> spaced (hex 4 m.vspol_vsoff)
      <> spaced (hex 4 m.vsw)
      <> spaced (hex 2 m.vbs3d)
      <> spaced (hex 2 m.v2d_s3d_modes)
      <> spaced (hex 2 m.p_depth)
    else codes " none"

unfoldable pub uibc_setting_value : UibcSetting → Text
uibc_setting_value u = if u.uibc_setting then codes " enable" else codes " disable"

unfoldable pub standby_resume_capability_value : StandbyResumeCapability → Text
standby_resume_capability_value s =
    if s.standby_resume_cap then codes " supported" else codes " none"

unfoldable pub connector_type_value : ConnectorType → Text
connector_type_value c =
    if c.connector_type == 0 then codes " none" else spaced (hex 2 c.connector_type)
