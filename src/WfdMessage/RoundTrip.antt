-- ===== src/WfdMessage/RoundTrip.antt =====
-- gst/rtsp-server/gstwfdmessage.c: a message that gst_wfd_message_as_text prints and
-- gst_wfd_message_parse_buffer parses.
pub mod Numbers
pub mod Words
pub mod Params
pub mod Formats
pub mod Attribute
pub mod Steps
pub mod Values
pub mod Kept
pub mod Message
pub mod Late
use gst_rtsp_server_wfd.Prelude.{
  ℕ, ◌≤◌, ◌<◌, ◌≡◌, refl, sym, ◌∙◌, ap, subst, List, [], ◌∷◌, Bool, true, false, Option, none, some,
  length, arith, not_zero,
}
use gst_rtsp_server_wfd.Text.{Text}
use gst_rtsp_server_wfd.WfdMessage.{WfdMessage, new, Hdcp2Spec, CoupledSinkCap}
use gst_rtsp_server_wfd.WfdMessage.Read.{◌<>◌, codes}
use gst_rtsp_server_wfd.WfdMessage.Parse.{Mode, top, run, step, parse_buffer, clear_buffer}
use gst_rtsp_server_wfd.WfdMessage.Write.{
  av_format_change_timing_value, client_rtp_ports_line, connector_type_value, coupled_sink_value,
  crlf, i2c_value, preferred_display_mode_value, presentation_url_value, route_value,
  standby_resume_capability_value, trigger_method_value, uibc_setting_value,
}
use gst_rtsp_server_wfd.WfdMessage.WriteFormats.{
  audio_codecs_line, content_protection_value, display_edid_value, video_formats_line,
}
use gst_rtsp_server_wfd.WfdMessage.WriteUibc.{uibc_capability_value}
use gst_rtsp_server_wfd.WfdMessage.Print.{late_text, text_3d, as_text, line_if, named}
use gst_rtsp_server_wfd.WfdMessage.RoundTrip.Words.{append_assoc}
use gst_rtsp_server_wfd.WfdMessage.RoundTrip.Kept.{Keeps, KeepsSpec, KeepsSink}
use gst_rtsp_server_wfd.WfdMessage.RoundTrip.Steps.{
  OnSome, Takes, nothing_taken, then_takes, ◌then◌, optional,
}
use gst_rtsp_server_wfd.WfdMessage.RoundTrip.Message.{
  audio_codecs_takes, video_formats_takes, content_protection_takes, display_edid_takes,
  coupled_sink_takes, trigger_method_takes, presentation_url_takes, client_rtp_ports_takes,
}
use gst_rtsp_server_wfd.WfdMessage.RoundTrip.Late.{
  route_takes, i2c_takes, preferred_display_mode_takes, uibc_capability_takes, uibc_setting_takes,
  standby_resume_capability_takes, standby_takes, connector_type_takes, idr_request_takes,
}

-- Of these parameters any one is kept.
any_one : {A : Type 0} (o : Option A) → OnSome {0} (λ a. Unit) o
any_one none = tt
any_one (some a) = tt

absent :
    {A : Type 0} (text : A → Text) (put : Option A → WfdMessage) (o : Option A)
    → o ≡ none
    → Takes (line_if text o) (put none) (put o)
absent text put o e = rw e (nothing_taken (put none))

content_takes :
    (m : WfdMessage) (o : Option Hdcp2Spec)
    → KeepsSpec o
    → Takes
        (named
          (codes "wfd_content_protection")
          content_protection_value
          (record { hdcp2_spec = o }))
        m
        (record m { content_protection = some (record { hdcp2_spec = o }) })
content_takes m none h = absurd h
content_takes m (some s) h = content_protection_takes m s.hdcpversion s.tcp_port h

sink_takes :
    (m : WfdMessage) (o : Option CoupledSinkCap)
    → KeepsSink o
    → Takes
        (named (codes "wfd_coupled_sink") coupled_sink_value (record { coupled_sink_cap = o }))
        m
        (record m { coupled_sink = some (record { coupled_sink_cap = o }) })
sink_takes m none h = absurd h
sink_takes m (some s) h = coupled_sink_takes m s.status s.sink_address h

formats_take :
    (m : WfdMessage)
    → Keeps m
    → Takes
        (line_if audio_codecs_line m.audio_codecs <> line_if video_formats_line m.video_formats)
        new
        (record new { audio_codecs = m.audio_codecs; video_formats = m.video_formats })
formats_take m h =
    let m1 : WfdMessage = record new { audio_codecs = m.audio_codecs } in
    optional _ audio_codecs_line (λ o. record new { audio_codecs = o }) m.audio_codecs
      h.audio_codecs (λ c k. audio_codecs_takes new c.count c.list k)
    then optional _ video_formats_line (λ o. record m1 { video_formats = o }) m.video_formats
        h.video_formats (λ c k. video_formats_takes m1 c.count c.list k)

late_take :
    (m : WfdMessage)
    → Keeps m
    → Takes
        (late_text m)
        (record new { audio_codecs = m.audio_codecs; video_formats = m.video_formats })
        (record m { video_3d_formats = none })
unfolding late_text
late_take m h =
    let m2 : WfdMessage = record new {
      audio_codecs = m.audio_codecs;
      video_formats = m.video_formats;
    } in
    let m3 : WfdMessage = record m2 { content_protection = m.content_protection } in
    let m4 : WfdMessage = record m3 { display_edid = m.display_edid } in
    let m5 : WfdMessage = record m4 { coupled_sink = m.coupled_sink } in
    let m6 : WfdMessage = record m5 { trigger_method = m.trigger_method } in
    let m7 : WfdMessage = record m6 { presentation_url = m.presentation_url } in
    let m8 : WfdMessage = record m7 { client_rtp_ports = m.client_rtp_ports } in
    let m9 : WfdMessage = record m8 { route = m.route } in
    let m10 : WfdMessage = record m9 { i2c = m.i2c } in
    let m11 : WfdMessage = record m10 { av_format_change_timing = m.av_format_change_timing } in
    let m12 : WfdMessage = record m11 { preferred_display_mode = m.preferred_display_mode } in
    let m13 : WfdMessage = record m12 { uibc_capability = m.uibc_capability } in
    let m14 : WfdMessage = record m13 { uibc_setting = m.uibc_setting } in
    let m15 : WfdMessage = record m14 { standby_resume_capability = m.standby_resume_capability } in
    let m16 : WfdMessage = record m15 { standby = m.standby } in
    let m17 : WfdMessage = record m16 { connector_type = m.connector_type } in
    optional _ (named (codes "wfd_content_protection") content_protection_value)
      (λ o. record m2 { content_protection = o }) m.content_protection h.content_protection
      (λ c k. content_takes m2 c.hdcp2_spec k)
    then optional _ (named (codes "wfd_display_edid") display_edid_value)
        (λ o. record m3 { display_edid = o }) m.display_edid h.display_edid
        (λ c k. display_edid_takes m3 c k)
    then optional _ (named (codes "wfd_coupled_sink") coupled_sink_value)
        (λ o. record m4 { coupled_sink = o }) m.coupled_sink h.coupled_sink
        (λ c k. sink_takes m4 c.coupled_sink_cap k)
    then optional _ (named (codes "wfd_trigger_method") trigger_method_value)
        (λ o. record m5 { trigger_method = o }) m.trigger_method h.trigger_method
        (λ c k. trigger_method_takes m5 c.wfd_trigger_method k)
    then optional _ (named (codes "wfd_presentation_URL") presentation_url_value)
        (λ o. record m6 { presentation_url = o }) m.presentation_url h.presentation_url
        (λ c k. presentation_url_takes m6 c.wfd_url0 c.wfd_url1 k.0 k.1)
    then optional _ client_rtp_ports_line (λ o. record m7 { client_rtp_ports = o })
        m.client_rtp_ports h.client_rtp_ports
        (λ c k. client_rtp_ports_takes m7 c.profile c.rtp_port0 c.rtp_port1 c.mode k)
    then optional _ (named (codes "wfd_route") route_value) (λ o. record m8 { route = o }) m.route
        h.route (λ c k. route_takes m8 c.destination k)
    then optional _ (named (codes "wfd_I2C") i2c_value) (λ o. record m9 { i2c = o }) m.i2c h.i2c
        (λ c k. i2c_takes m9 c.i2c_present c.i2c_port k.0 k.1)
    then absent (named (codes "wfd_av_format_change_timing") av_format_change_timing_value)
        (λ o. record m10 { av_format_change_timing = o }) m.av_format_change_timing
        h.av_format_change_timing
    then optional _ (named (codes "wfd_preferred_display_mode") preferred_display_mode_value)
        (λ o. record m11 { preferred_display_mode = o }) m.preferred_display_mode
        h.preferred_display_mode (λ c k. preferred_display_mode_takes m11 c k)
    then optional _ (named (codes "wfd_uibc_capability") uibc_capability_value)
        (λ o. record m12 { uibc_capability = o }) m.uibc_capability h.uibc_capability
        (λ c k. uibc_capability_takes m12 c k)
    then optional _ (named (codes "wfd_uibc_setting") uibc_setting_value)
        (λ o. record m13 { uibc_setting = o }) m.uibc_setting (any_one m.uibc_setting)
        (λ c k. uibc_setting_takes m13 c.uibc_setting)
    then optional _ (named (codes "wfd_standby_resume_capability") standby_resume_capability_value)
        (λ o. record m14 { standby_resume_capability = o }) m.standby_resume_capability
        (any_one m.standby_resume_capability)
        (λ c k. standby_resume_capability_takes m14 c.standby_resume_cap)
    then optional _ (λ s. codes "wfd_standby" <> crlf) (λ o. record m15 { standby = o }) m.standby
        h.standby (λ c k. standby_takes m15 c.wfd_standby k)
    then optional _ (named (codes "wfd_connector_type") connector_type_value)
        (λ o. record m16 { connector_type = o }) m.connector_type h.connector_type
        (λ c k. connector_type_takes m16 c.supported c.connector_type k.0 k.1 k.2)
    then optional _ (λ i. codes "wfd_idr_request" <> crlf) (λ o. record m17 { idr_request = o })
        m.idr_request h.idr_request (λ c k. idr_request_takes m17 c.idr_request k)

-- A message whose parameters are kept is read back from its text, with a zero byte behind it,
-- into a new message, whatever positive size is given, which the code does not use further. Kept
-- means, of the parameters that it has: no 3D formats and no time of a change of format; audio
-- formats that are counted right, named by words and as many as the length of their value tells;
-- video formats of one codec, with a largest resolution only for a supported display mode; for
-- the content protection two words without the text "none" in them; an EDID, a display mode and a
-- UIBC capability that are the unsupported ones; for the coupled sink, the trigger method, the
-- two presentation URLs and the route words of at most 100 bytes; for the RTP ports two words and
-- ports below 2 ^ 31; an I2C port that is present and has one digit; a connector that is
-- supported and not of type 0; TRUE for the standby and the IDR request. The other numbers have
-- 32 bits, a word has no white space, and the lines of the formats, the content protection and
-- the RTP ports have at most 254 bytes.
pub parse_buffer-as_text :
    (m : WfdMessage) (size : ℕ)
    → Keeps m
    → 0 < size
    → (text : Text) × (as_text m ≡ some text) × (parse_buffer (text <> 0 ∷ []) size new ≡ some m)
unfolding as_text parse_buffer run step late_text
parse_buffer-as_text m size h some_size =
    let early =
      line_if audio_codecs_line m.audio_codecs <> line_if video_formats_line m.video_formats in
    let taken = formats_take m h then late_take m h in
    let (b, i, size', term, e) = taken.on clear_buffer 0 (0 ∷ []) refl refl in
    let same : record m { video_3d_formats = none } ≡ m =
      ap (λ o. record m { video_3d_formats = o }) (sym h.video_3d_formats) in
    (
      early <> late_text m,
      rw h.video_3d_formats (ap some (sym (append_assoc _ _ (late_text m)))),
      rw (not_zero size some_size) (e ∙ ap some same),
    )
