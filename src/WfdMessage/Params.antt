-- ===== src/WfdMessage/Params.antt =====
-- gst/rtsp-server/gstwfdmessage.c, gst_wfd_parse_attribute: the parameters of a few words or numbers.
use gst_rtsp_server_wfd.Prelude.{[], ◌∷◌, true, false, not, none, some, if◌then◌else◌}
use gst_rtsp_server_wfd.Text.{Text, equal_texts}
use gst_rtsp_server_wfd.WfdMessage.{
  H264Codec, CoupledSink, TriggerMethod, PresentationUrl, ClientRtpPorts, Route, I2c,
  AvFormatChangeTiming, PreferredDisplayMode, UibcSetting, StandbyResumeCapability, ConnectorType,
}
use gst_rtsp_server_wfd.WfdMessage.Read.{
  Reader, ◌>>=◌, finish, read_string, read_uint32, read_uint64, read_digit, skip_space, contains,
  codes,
}

unfoldable pub parse_coupled_sink : Text → CoupledSink
parse_coupled_sink [] = record { coupled_sink_cap = none }
parse_coupled_sink (c ∷ v) =
    let (status, rest) = read_uint32 (c ∷ v) in
    record {
      coupled_sink_cap = some (record { status = status; sink_address = (read_string rest).0 });
    }

unfoldable pub parse_trigger_method : Text → TriggerMethod
parse_trigger_method [] = record { wfd_trigger_method = none }
parse_trigger_method (c ∷ v) = record { wfd_trigger_method = (read_string (c ∷ v)).0 }

unfoldable pub parse_presentation_url : Text → PresentationUrl
parse_presentation_url [] = record { wfd_url0 = none; wfd_url1 = none }
parse_presentation_url (c ∷ v) =
    let (url, rest) = read_string (c ∷ v) in
    record { wfd_url0 = url; wfd_url1 = (read_string rest).0 }

unfoldable pub read_ports : Reader ClientRtpPorts
read_ports = do
  profile ← read_string
  port0 ← read_digit
  port1 ← read_digit
  mode ← read_string
  finish (record { profile = profile; rtp_port0 = port0; rtp_port1 = port1; mode = mode })

unfoldable pub parse_client_rtp_ports : Text → ClientRtpPorts
parse_client_rtp_ports [] = record { profile = none; rtp_port0 = 0; rtp_port1 = 0; mode = none }
parse_client_rtp_ports (c ∷ v) = (read_ports (c ∷ v)).0

unfoldable pub parse_route : Text → Route
parse_route [] = record { destination = none }
parse_route (c ∷ v) = record { destination = (read_string (c ∷ v)).0 }

unfoldable pub parse_i2c : Text → I2c
parse_i2c [] = record { i2c_present = false; i2c_port = 0 }
parse_i2c (c ∷ v) = record { i2c_present = true; i2c_port = (read_digit (c ∷ v)).0 }

unfoldable pub parse_av_format_change_timing : Text → AvFormatChangeTiming
parse_av_format_change_timing [] = record { pts = 0; dts = 0 }
parse_av_format_change_timing (c ∷ v) =
    let (pts, rest) = read_uint64 (c ∷ v) in record { pts = pts; dts = (read_uint64 rest).0 }

abbrev pub no_codec : H264Codec
no_codec = record {
  profile = 0;
  level = 0;
  max_hres = 0;
  max_vres = 0;
  misc_params = record {
    cea_support = 0;
    vesa_support = 0;
    hh_support = 0;
    latency = 0;
    min_slice_size = 0;
    slice_enc_params = 0;
    frame_rate_control_support = 0;
  };
}

-- g_new0
abbrev pub no_mode : PreferredDisplayMode
no_mode = record {
  displaymodesupported = false;
  p_clock = 0;
  h = 0;
  hb = 0;
  hspol_hsoff = 0;
  hsw = 0;
  v = 0;
  vb = 0;
  vspol_vsoff = 0;
  vsw = 0;
  vbs3d = 0;
  v2d_s3d_modes = 0;
  p_depth = 0;
  h264_codec = no_codec;
}

unfoldable pub read_h264_codec : Reader H264Codec
read_h264_codec = do
  profile ← read_uint32
  level ← read_uint32
  cea ← read_uint32
  vesa ← read_uint32
  hh ← read_uint32
  latency ← read_uint32
  slice ← read_uint32
  enc ← read_uint32
  rate ← read_uint32
  hres ← read_uint32
  vres ← read_uint32
  finish (record {
    profile = profile;
    level = level;
    max_hres = hres;
    max_vres = vres;
    misc_params = record {
      cea_support = cea;
      vesa_support = vesa;
      hh_support = hh;
      latency = latency;
      min_slice_size = slice;
      slice_enc_params = enc;
      frame_rate_control_support = rate;
    };
  })

unfoldable pub read_display_mode : Reader PreferredDisplayMode
read_display_mode = do
  p_clock ← read_uint64
  h ← read_uint32
  hb ← read_uint32
  hspol_hsoff ← read_uint32
  hsw ← read_uint32
  v ← read_uint32
  vb ← read_uint32
  vspol_vsoff ← read_uint32
  vsw ← read_uint32
  vbs3d ← read_uint32
  v2d_s3d_modes ← read_uint32
  p_depth ← read_uint32
  codec ← read_h264_codec
  finish (record {
    displaymodesupported = false;
    p_clock = p_clock;
    h = h;
    hb = hb;
    hspol_hsoff = hspol_hsoff;
    hsw = hsw;
    v = v;
    vb = vb;
    vspol_vsoff = vspol_vsoff;
    vsw = vsw;
    vbs3d = vbs3d;
    v2d_s3d_modes = v2d_s3d_modes;
    p_depth = p_depth;
    h264_codec = codec;
  })

-- The numbers are read from a text that has "none" in it.
unfoldable pub parse_preferred_display_mode : Text → PreferredDisplayMode
parse_preferred_display_mode [] = no_mode
parse_preferred_display_mode (c ∷ text) =
    let mode = (read_display_mode (c ∷ text)).0 in
    if not (contains (skip_space (c ∷ text)) (codes "none")) then no_mode else mode

unfoldable pub parse_uibc_setting : Text → UibcSetting
parse_uibc_setting [] = record { uibc_setting = false }
parse_uibc_setting (c ∷ v) = record {
  uibc_setting = equal_texts (skip_space (c ∷ v)) (codes "enable");
}

unfoldable pub parse_standby_resume_capability : Text → StandbyResumeCapability
parse_standby_resume_capability [] = record { standby_resume_cap = false }
parse_standby_resume_capability (c ∷ v) = record {
  standby_resume_cap = equal_texts (skip_space (c ∷ v)) (codes "supported");
}

unfoldable pub parse_connector_type : Text → ConnectorType
parse_connector_type [] = record { supported = false; connector_type = 0 }
parse_connector_type (c ∷ v) = record { supported = true; connector_type = (read_uint32 (c ∷ v)).0 }
