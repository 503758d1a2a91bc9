-- ===== src/WfdMessage/RoundTrip/Kept.antt =====
-- gst/rtsp-server/gstwfdmessage.c: the parameters that gst_wfd_message_as_text prints in a form that
-- gst_wfd_message_parse_buffer takes for the same values, and whose lines fit its buffer.
use gst_rtsp_server_wfd.Prelude.{
  ℕ, ◌/◌, ◌≤◌, ◌<◌, ◌≡◌, List, [], ◌∷◌, true, false, Option, none, some, length, All,
}
use gst_rtsp_server_wfd.Text.{Text}
use gst_rtsp_server_wfd.WfdMessage.{
  AudioCodec, VideoCodec, Hdcp2Spec, DisplayEdid, CoupledSinkCap, WfdMessage,
}
use gst_rtsp_server_wfd.WfdMessage.Params.{no_mode}
use gst_rtsp_server_wfd.WfdMessage.Uibc.{no_uibc}
use gst_rtsp_server_wfd.WfdMessage.Read.{◌<>◌, codes, contains}
use gst_rtsp_server_wfd.WfdMessage.Write.{spaced, decimal_int}
use gst_rtsp_server_wfd.WfdMessage.WriteFormats.{codecs_text, video_codec_value}
use gst_rtsp_server_wfd.WfdMessage.RoundTrip.Words.{IsWord}
use gst_rtsp_server_wfd.WfdMessage.RoundTrip.Params.{Fits}
use gst_rtsp_server_wfd.WfdMessage.RoundTrip.Formats.{IsWord32, IsAudioCodec, IsVideoCodec}
use gst_rtsp_server_wfd.WfdMessage.RoundTrip.Steps.{OnSome}

-- The length of the value gives the number of codecs.
abbrev pub KeepsCodecs : ℕ → Option (List AudioCodec) → Type 0
KeepsCodecs count none = ⊥
KeepsCodecs count (some []) = ⊥
KeepsCodecs count (some (c ∷ cs)) =
    (count ≡ length (c ∷ cs))
    × All IsAudioCodec (c ∷ cs)
    × (length (codecs_text (c ∷ cs)) / 16 ≡ length (c ∷ cs))
    × Fits (codes "wfd_audio_codecs") (codecs_text (c ∷ cs))

abbrev pub KeepsVideo : ℕ → Option VideoCodec → Type 0
KeepsVideo count none = ⊥
KeepsVideo count (some c) =
    (count ≡ 1) × IsVideoCodec c × Fits (codes "wfd_video_formats") (video_codec_value c)

abbrev pub KeepsHdcp : Option Text → Option Text → Type 0
KeepsHdcp none port = ⊥
KeepsHdcp (some version) none = ⊥
KeepsHdcp (some version) (some port) =
    IsWord version
    × IsWord port
    × (contains (version <> spaced port) (codes "none") ≡ false)
    × Fits (codes "wfd_content_protection") (spaced version <> spaced port)

abbrev pub KeepsSpec : Option Hdcp2Spec → Type 0
KeepsSpec none = ⊥
KeepsSpec (some s) = KeepsHdcp s.hdcpversion s.tcp_port

-- No EDID; one that is supported is not printed with its payload.
abbrev pub KeepsEdid : DisplayEdid → Type 0
KeepsEdid e = e ≡ record { edid_supported = 0; edid_block_count = 0; edid_payload = none }

abbrev pub KeepsSinkCap : ℕ → Option Text → Type 0
KeepsSinkCap status none = ⊥
KeepsSinkCap status (some w) = IsWord32 status × IsWord w × (length w ≤ 100)

abbrev pub KeepsSink : Option CoupledSinkCap → Type 0
KeepsSink none = ⊥
KeepsSink (some s) = KeepsSinkCap s.status s.sink_address

-- A word for a parameter of one or two words.
abbrev pub IsShort : Option Text → Type 0
IsShort none = ⊥
IsShort (some w) = IsWord w × (length w ≤ 100)

abbrev pub KeepsPorts : Option Text → ℕ → ℕ → Option Text → Type 0
KeepsPorts none port0 port1 mode = ⊥
KeepsPorts (some profile) port0 port1 none = ⊥
KeepsPorts (some profile) port0 port1 (some mode) =
    IsWord profile
    × IsWord mode
    × (port0 < 2147483648)
    × (port1 < 2147483648)
    × Fits (codes "wfd_client_rtp_ports")
        (spaced profile <> spaced (decimal_int port0) <> spaced (decimal_int port1) <> spaced mode)

-- What is kept of each parameter; there is neither a 3D format nor a time of a change of format.
pub record Keeps (m : WfdMessage) : Type 0 where
  pub audio_codecs : OnSome (λ a. KeepsCodecs a.count a.list) m.audio_codecs
  pub video_formats : OnSome (λ v. KeepsVideo v.count v.list) m.video_formats
  pub video_3d_formats : m.video_3d_formats ≡ none
  pub content_protection : OnSome (λ c. KeepsSpec c.hdcp2_spec) m.content_protection
  pub display_edid : OnSome KeepsEdid m.display_edid
  pub coupled_sink : OnSome (λ c. KeepsSink c.coupled_sink_cap) m.coupled_sink
  pub trigger_method : OnSome (λ t. IsShort t.wfd_trigger_method) m.trigger_method
  pub presentation_url : OnSome (λ p. IsShort p.wfd_url0 × IsShort p.wfd_url1) m.presentation_url
  pub client_rtp_ports :
      OnSome (λ c. KeepsPorts c.profile c.rtp_port0 c.rtp_port1 c.mode) m.client_rtp_ports
  pub route : OnSome (λ r. IsShort r.destination) m.route
  pub i2c : OnSome (λ i. (i.i2c_present ≡ true) × (i.i2c_port < 10)) m.i2c
  pub av_format_change_timing : m.av_format_change_timing ≡ none
  pub preferred_display_mode : OnSome (λ p. p ≡ no_mode) m.preferred_display_mode
  pub uibc_capability : OnSome (λ u. u ≡ no_uibc) m.uibc_capability
  pub standby : OnSome (λ s. s.wfd_standby ≡ true) m.standby
  pub connector_type :
      OnSome
        (λ c. (c.supported ≡ true) × (0 < c.connector_type) × IsWord32 c.connector_type)
        m.connector_type
  pub idr_request : OnSome (λ i. i.idr_request ≡ true) m.idr_request
