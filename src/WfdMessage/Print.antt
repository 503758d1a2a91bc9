-- ===== src/WfdMessage/Print.antt =====
-- gst/rtsp-server/gstwfdmessage.c: gst_wfd_message_as_text, which puts the parameters that the message
-- has into one text, and gst_wfd_message_param_names_as_text.
use mathlib.Core.Option.{map}
use gst_rtsp_server_wfd.Prelude.{[], Option, none, some}
use gst_rtsp_server_wfd.Text.{Text}
use gst_rtsp_server_wfd.WfdMessage.{WfdMessage}
use gst_rtsp_server_wfd.WfdMessage.Read.{codes, ◌<>◌}
use gst_rtsp_server_wfd.WfdMessage.Write.{
  crlf, line_of, coupled_sink_value, trigger_method_value, presentation_url_value,
  client_rtp_ports_line, route_value, i2c_value, av_format_change_timing_value,
  preferred_display_mode_value, uibc_setting_value, standby_resume_capability_value,
  connector_type_value,
}
use gst_rtsp_server_wfd.WfdMessage.WriteFormats.{
  audio_codecs_line, video_formats_line, video_3d_formats_line, content_protection_value,
  display_edid_value,
}
use gst_rtsp_server_wfd.WfdMessage.WriteUibc.{uibc_capability_value}

-- The line of a parameter, if the message has it.
abbrev pub line_if : {A : Type 0} → (A → Text) → Option A → Text
line_if text none = []
line_if text (some a) = text a

abbrev pub named : {A : Type 0} → Text → (A → Text) → A → Text
named name value a = line_of name (value a)

-- The parameters behind the formats for 3D video.
unfoldable pub late_text : WfdMessage → Text
late_text m =
    line_if (named (codes "wfd_content_protection") content_protection_value) m.content_protection
    <> line_if (named (codes "wfd_display_edid") display_edid_value) m.display_edid
    <> line_if (named (codes "wfd_coupled_sink") coupled_sink_value) m.coupled_sink
    <> line_if (named (codes "wfd_trigger_method") trigger_method_value) m.trigger_method
    <> line_if (named (codes "wfd_presentation_URL") presentation_url_value) m.presentation_url
    <> line_if client_rtp_ports_line m.client_rtp_ports
    <> line_if (named (codes "wfd_route") route_value) m.route
    <> line_if (named (codes "wfd_I2C") i2c_value) m.i2c
    <> line_if (named (codes "wfd_av_format_change_timing") av_format_change_timing_value)
        m.av_format_change_timing
    <> line_if (named (codes "wfd_preferred_display_mode") preferred_display_mode_value)
        m.preferred_display_mode
    <> line_if (named (codes "wfd_uibc_capability") uibc_capability_value) m.uibc_capability
    <> line_if (named (codes "wfd_uibc_setting") uibc_setting_value) m.uibc_setting
    <> line_if (named (codes "wfd_standby_resume_capability") standby_resume_capability_value)
        m.standby_resume_capability
    <> line_if (λ s. codes "wfd_standby" <> crlf) m.standby
    <> line_if (named (codes "wfd_connector_type") connector_type_value) m.connector_type
    <> line_if (λ i. codes "wfd_idr_request" <> crlf) m.idr_request

abbrev pub text_3d : WfdMessage → Option Text
text_3d m = elim m.video_3d_formats [
  | none ↦ some []
  | some l ↦ video_3d_formats_line l m.video_formats
]

-- gst_wfd_message_as_text
unfoldable pub as_text : WfdMessage → Option Text
as_text m =
    map
      (λ t.
        line_if audio_codecs_line m.audio_codecs
        <> line_if video_formats_line m.video_formats
        <> t
        <> late_text m)
      (text_3d m)

abbrev name_if : {A : Type 0} → Text → Option A → Text
name_if name o = line_if (λ a. name <> crlf) o

-- gst_wfd_message_param_names_as_text
unfoldable pub param_names_as_text : WfdMessage → Text
param_names_as_text m =
    name_if (codes "wfd_audio_codecs") m.audio_codecs
    <> name_if (codes "wfd_video_formats") m.video_formats
    <> name_if (codes "wfd_3d_video_formats") m.video_3d_formats
    <> name_if (codes "wfd_content_protection") m.content_protection
    <> name_if (codes "wfd_display_edid") m.display_edid
    <> name_if (codes "wfd_coupled_sink") m.coupled_sink
    <> name_if (codes "wfd_trigger_method") m.trigger_method
    <> name_if (codes "wfd_presentation_URL") m.presentation_url
    <> name_if (codes "wfd_client_rtp_ports") m.client_rtp_ports
    <> name_if (codes "wfd_route") m.route
    <> name_if (codes "wfd_I2C") m.i2c
    <> name_if (codes "wfd_av_format_change_timing") m.av_format_change_timing
    <> name_if (codes "wfd_preferred_display_mode") m.preferred_display_mode
    <> name_if (codes "wfd_uibc_capability") m.uibc_capability
    <> name_if (codes "wfd_uibc_setting") m.uibc_setting
    <> name_if (codes "wfd_standby_resume_capability") m.standby_resume_capability
    <> name_if (codes "wfd_standby") m.standby
    <> name_if (codes "wfd_connector_type") m.connector_type
    <> name_if (codes "wfd_idr_request") m.idr_request
