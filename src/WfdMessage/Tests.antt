-- ===== src/WfdMessage/Tests.antt =====
-- Runs of the parser and the printer of gst/rtsp-server/gstwfdmessage.c.
use gst_rtsp_server_wfd.Prelude.{
  inl, inr, arith, All, All-append, ◌≡◌, refl, [], ◌∷◌, ◌++◌, true, Option, none, some,
}
use gst_rtsp_server_wfd.Text.{Text}
use gst_rtsp_server_wfd.WfdMessage.{WfdMessage, new}
use gst_rtsp_server_wfd.WfdMessage.Read.{
  codes, ◌<>◌, digits, strtoul, read_until, read_string_space_ended, read_string_char_ended,
  read_string, read_uint64, read_uint32, read_digit, read_to,
}
use gst_rtsp_server_wfd.WfdMessage.Formats.{
  read_codec, read_codecs, parse_audio_codecs, read_resolution, read_video_codec,
  parse_video_formats, read_cap_list, update_resolution, update_formats, parse_3d_formats,
  parse_content_protection, edid_bytes, edid_payload_of, parse_display_edid,
}
use gst_rtsp_server_wfd.WfdMessage.Params.{
  parse_coupled_sink, parse_trigger_method, parse_presentation_url, read_ports,
  parse_client_rtp_ports, parse_route, parse_i2c, parse_av_format_change_timing, read_h264_codec,
  read_display_mode, parse_preferred_display_mode, parse_uibc_setting,
  parse_standby_resume_capability, parse_connector_type,
}
use gst_rtsp_server_wfd.WfdMessage.Write.{
  show, hex, decimal, decimal_int, decimal_padded, coupled_sink_value, trigger_method_value,
  presentation_url_value, client_rtp_ports_line, route_value, i2c_value,
  av_format_change_timing_value, preferred_display_mode_value, uibc_setting_value,
  standby_resume_capability_value, connector_type_value,
}
use gst_rtsp_server_wfd.WfdMessage.WriteFormats.{
  codecs_text, audio_codecs_line, video_codec_value, video_formats_line, cap_list_value,
  video_3d_formats_line, content_protection_value, display_edid_value,
}
use gst_rtsp_server_wfd.WfdMessage.Parse.{
  clear_buffer, text_at, split_at, read_string_attr_and_value, parse_late_value, parse_value,
  parse_attribute, end_line, scan_byte, step, run, parse_buffer,
}
use gst_rtsp_server_wfd.WfdMessage.Uibc.{
  parts, parts_of, input_cat_of, inp_type_of, inp_path_of, input_cats, inp_types, detailed_cap_of,
  detailed_caps, read_input_cats, read_generic, read_hidc, read_port, parse_uibc_capability,
}
use gst_rtsp_server_wfd.WfdMessage.WriteUibc.{flags_text, name_of, caps_text, uibc_capability_value}
use gst_rtsp_server_wfd.WfdMessage.Print.{late_text, as_text, param_names_as_text}
use gst_rtsp_server_wfd.WfdMessage.Lines.{
  IsLine, IsLineByte, text_of_lines, parse_lines, parse_buffer-parse_lines,
}
use gst_rtsp_server_wfd.WfdMessage.RoundTrip.{parse_buffer-as_text}
use gst_rtsp_server_wfd.WfdMessage.RoundTrip.Kept.{Keeps}
use gst_rtsp_server_wfd.WfdMessage.RoundTrip.Words.{is_word-IsWordByte}
use gst_rtsp_server_wfd.WfdMessage.RoundTrip.Steps.{is_name-IsLine}
use gst_rtsp_server_wfd.WfdMessage.Audio.{set_supported_audio_format, fill_codecs, count_bits}
use gst_rtsp_server_wfd.WfdMessage.Video.{
  VideoFormat, set_supported_video_format, get_supported_video_format,
  get-set_supported_video_format,
}
use gst_rtsp_server_wfd.WfdMessage.Hdcp.{
  set_contentprotection_type, get_contentprotection_type, get-set_contentprotection_type,
}
use gst_rtsp_server_wfd.WfdMessage.Ports.{
  RtpPorts, set_prefered_rtp_ports, get_prefered_rtp_ports, get-set_prefered_rtp_ports,
}

abbrev m3 : Text
m3 = codes "wfd_video_formats\r\nwfd_route\r\n" ++ 0 ∷ []

run_m3 :
    parse_buffer m3 34 new
    ≡ some (record new {
      video_formats = some (record { count = 0; list = none });
      route = some (record { destination = some (codes "formats") });
    })
unfolding as_text caps_text detailed_cap_of detailed_caps end_line flags_text inp_path_of
    inp_type_of inp_types input_cat_of input_cats late_text name_of param_names_as_text
    parse_attribute parse_buffer parse_late_value parse_uibc_capability parse_value parts parts_of
    read_generic read_hidc read_input_cats read_port read_string_attr_and_value run scan_byte
    split_at step text_at uibc_capability_value audio_codecs_line av_format_change_timing_value
    cap_list_value client_rtp_ports_line codecs_text connector_type_value content_protection_value
    coupled_sink_value decimal decimal_int decimal_padded digits display_edid_value edid_bytes
    edid_payload_of hex i2c_value parse_3d_formats parse_audio_codecs parse_av_format_change_timing
    parse_client_rtp_ports parse_connector_type parse_content_protection parse_coupled_sink
    parse_display_edid parse_i2c parse_preferred_display_mode parse_presentation_url parse_route
    parse_standby_resume_capability parse_trigger_method parse_uibc_setting parse_video_formats
    preferred_display_mode_value presentation_url_value read_cap_list read_codec read_codecs
    read_digit read_display_mode read_h264_codec read_ports read_resolution read_string
    read_string_char_ended read_string_space_ended read_to read_uint32 read_uint64 read_until
    read_video_codec route_value show standby_resume_capability_value strtoul trigger_method_value
    uibc_setting_value update_formats update_resolution video_3d_formats_line video_codec_value
    video_formats_line
run_m3 = refl

abbrev full : Text
full =
    codes
      "wfd_audio_codecs: LPCM 00000003 00, AAC 00000001 00\r\nwfd_video_formats: 40 01 01 08 0001ffff 1fffffff 00000fff 00 0000 0000 11 0500 02d0\r\nwfd_content_protection: HDCP2.1 port=53002\r\nwfd_coupled_sink: 00 none\r\nwfd_client_rtp_ports: RTP/AVP/UDP;unicast 19000 0 mode=play\r\nwfd_uibc_capability: input_category_list=GENERIC, HIDC; generic_cap_list=Keyboard, Mouse; hidc_cap_list=Keyboard/USB, Mouse/BT;port=none\r\nwfd_standby\r\nwfd_connector_type: 05\r\n"
    ++ 0 ∷ []

abbrev text_of : Option WfdMessage → Option Text
text_of none = none
text_of (some m) = as_text m

round_full :
    text_of (parse_buffer full 34 new)
    ≡ some (
        codes
          "wfd_audio_codecs: LPCM 00000003 00, AAC 00000001 00\r\nwfd_video_formats: 40 01 01 08 0001ffff 1fffffff 00000fff 00 0000 0000 11 0500 02d0\r\nwfd_content_protection: HDCP2.1 port=53002\r\nwfd_coupled_sink: 00 none\r\nwfd_client_rtp_ports: RTP/AVP/UDP;unicast 19000 0 mode=play\r\nwfd_uibc_capability: input_category_list=GENERIC, HIDC; generic_cap_list=Keyboard, Mouse; hidc_cap_list=Keyboard/USB, Mouse/BT;port=none\r\nwfd_standby\r\nwfd_connector_type: 05\r\n")
unfolding as_text caps_text detailed_cap_of detailed_caps end_line flags_text inp_path_of
    inp_type_of inp_types input_cat_of input_cats late_text name_of param_names_as_text
    parse_attribute parse_buffer parse_late_value parse_uibc_capability parse_value parts parts_of
    read_generic read_hidc read_input_cats read_port read_string_attr_and_value run scan_byte
    split_at step text_at uibc_capability_value audio_codecs_line av_format_change_timing_value
    cap_list_value client_rtp_ports_line codecs_text connector_type_value content_protection_value
    coupled_sink_value decimal decimal_int decimal_padded digits display_edid_value edid_bytes
    edid_payload_of hex i2c_value parse_3d_formats parse_audio_codecs parse_av_format_change_timing
    parse_client_rtp_ports parse_connector_type parse_content_protection parse_coupled_sink
    parse_display_edid parse_i2c parse_preferred_display_mode parse_presentation_url parse_route
    parse_standby_resume_capability parse_trigger_method parse_uibc_setting parse_video_formats
    preferred_display_mode_value presentation_url_value read_cap_list read_codec read_codecs
    read_digit read_display_mode read_h264_codec read_ports read_resolution read_string
    read_string_char_ended read_string_space_ended read_to read_uint32 read_uint64 read_until
    read_video_codec route_value show standby_resume_capability_value strtoul trigger_method_value
    uibc_setting_value update_formats update_resolution video_3d_formats_line video_codec_value
    video_formats_line
round_full = refl

two_lines-IsLine : All IsLine (codes "wfd_video_formats" ∷ codes "wfd_route: x" ∷ [])
two_lines-IsLine = (
  is_name-IsLine (codes "wfd_video_formats") refl,
  (
    All-append IsLineByte (codes "wfd_route") (codes ": x")
        (is_name-IsLine (codes "wfd_route") refl) ((refl, refl), is_name-IsLine (codes " x") refl),
    tt,
  ),
)

parse_buffer-parse_lines_example :
    parse_buffer (text_of_lines (codes "wfd_video_formats" ∷ codes "wfd_route: x" ∷ [])) 34 new
    ≡ parse_lines clear_buffer new (codes "wfd_video_formats" ∷ codes "wfd_route: x" ∷ [])
parse_buffer-parse_lines_example =
    parse_buffer-parse_lines (codes "wfd_video_formats" ∷ codes "wfd_route: x" ∷ []) 34 new
      two_lines-IsLine (omega arith)

abbrev m4 : WfdMessage
m4 = record new {
  video_formats = some (record {
    count = 1;
    list = some (record {
      native = 64;
      preferred_display_mode_supported = 1;
      h264_codec = record {
        profile = 1;
        level = 8;
        max_hres = 1280;
        max_vres = 0;
        misc_params = record {
          cea_support = 131071;
          vesa_support = 0;
          hh_support = 4095;
          latency = 0;
          min_slice_size = 0;
          slice_enc_params = 0;
          frame_rate_control_support = 17;
        };
      };
    });
  });
  client_rtp_ports = some (record {
    profile = some (codes "RTP/AVP/UDP;unicast");
    rtp_port0 = 19000;
    rtp_port1 = 0;
    mode = some (codes "mode=play");
  });
  standby = some (record { wfd_standby = true });
}

m4-Keeps : Keeps m4
unfolding video_codec_value hex show decimal_int decimal
m4-Keeps = record {
  audio_codecs = tt;
  video_formats = (
    refl,
    (
      omega arith,
      omega arith,
      omega arith,
      omega arith,
      (omega arith, omega arith, omega arith, omega arith, omega arith, omega arith, omega arith),
      omega arith,
      omega arith,
      inl refl,
    ),
    omega arith,
  );
  video_3d_formats = refl;
  content_protection = tt;
  display_edid = tt;
  coupled_sink = tt;
  trigger_method = tt;
  presentation_url = tt;
  client_rtp_ports = (
    (is_word-IsWordByte (codes "RTP/AVP/UDP;unicast") refl, omega arith),
    (is_word-IsWordByte (codes "mode=play") refl, omega arith),
    omega arith,
    omega arith,
    omega arith,
  );
  route = tt;
  i2c = tt;
  av_format_change_timing = refl;
  preferred_display_mode = tt;
  uibc_capability = tt;
  standby = refl;
  connector_type = tt;
  idr_request = tt;
}

parse_buffer-as_text_example :
    (text : Text) × (as_text m4 ≡ some text) × (parse_buffer (text <> 0 ∷ []) 400 new ≡ some m4)
parse_buffer-as_text_example = parse_buffer-as_text m4 400 m4-Keeps (omega arith)

abbrev udp : RtpPorts
udp = record { trans = 1; profile = 2; lowertrans = 2; rtp_port0 = 19000; rtp_port1 = 19001 }

abbrev no_ports : RtpPorts
no_ports = record { trans = 0; profile = 0; lowertrans = 0; rtp_port0 = 0; rtp_port1 = 0 }

get-set_prefered_rtp_ports_example :
    get_prefered_rtp_ports (set_prefered_rtp_ports udp m4) no_ports ≡ (true, udp)
get-set_prefered_rtp_ports_example =
    get-set_prefered_rtp_ports udp no_ports m4 (inl refl, inr refl, inr (inl refl))

abbrev hd : VideoFormat
hd = record {
  v_codec = 1;
  v_native = 1;
  v_native_resolution = 256;
  v_cea_resolution = 131071;
  v_vesa_resolution = 0;
  v_hh_resolution = 0;
  v_profile = 1;
  v_level = 2;
  v_latency = 0;
  v_max_height = 1080;
  v_max_width = 1920;
  min_slice_size = 0;
  slice_enc_params = 0;
  frame_rate_control = 0;
}

get-set_supported_video_format_example :
    get_supported_video_format (set_supported_video_format hd new) ≡ some hd
get-set_supported_video_format_example = get-set_supported_video_format hd 8 new (record {
  v_codec = omega arith;
  v_native = omega arith;
  v_native_resolution = refl;
  below = omega arith;
  v_cea_resolution = omega arith;
  v_vesa_resolution = omega arith;
  v_hh_resolution = omega arith;
})

get-set_contentprotection_type_example :
    (m : WfdMessage) × (get_contentprotection_type
        (set_contentprotection_type 2 53002 new)
        (record { hdcpversion = 0; tcp_port = 0 })
      ≡ some (record { hdcpversion = 2; tcp_port = 53002 }, m))
    × (get_contentprotection_type m (record { hdcpversion = 0; tcp_port = 0 }) ≡ none)
get-set_contentprotection_type_example =
    get-set_contentprotection_type 2 53002 new (record { hdcpversion = 0; tcp_port = 0 }) (inr refl)
      (omega arith)

-- A mask of three bits, with LPCM and AC3 asked for, makes a third entry, without a format.
lpcm_and_ac3 :
    set_supported_audio_format
      (record { a_codec = 5; a_freq = 2; a_channels = 1; a_bitwidth = 16; a_latency = 0 })
      new
    ≡ record new {
      audio_codecs = some (record {
        count = 3;
        list = some (
            record { audio_format = some (codes "LPCM"); modes = 2; latency = 0 }
            ∷ record { audio_format = some (codes "AC3"); modes = 1; latency = 0 }
            ∷ record { audio_format = none; modes = 0; latency = 0 }
            ∷ []);
      });
    }
unfolding set_supported_audio_format fill_codecs count_bits
lpcm_and_ac3 = refl
