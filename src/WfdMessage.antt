-- ===== src/WfdMessage.antt =====
-- gst/rtsp-server/gstwfdmessage.h and gstwfdmessage.c: the parameters of a Wi-Fi display message. A
-- pointer is an Option; a `guint` or `guint32` is a number that is taken modulo 2 ^ 32 where it is
-- stored. What g_new0 replaces is not freed in the source; memory that leaks is not modelled.
pub mod Read
pub mod Formats
pub mod Params
pub mod Uibc
pub mod Parse
pub mod Write
pub mod WriteFormats
pub mod WriteUibc
pub mod Print
pub mod Audio
pub mod Video
pub mod Hdcp
pub mod Edid
pub mod Ports
pub mod Lines
pub mod RoundTrip
mod Tests
use gst_rtsp_server_wfd.Prelude.{ℕ, List, Bool, Option, none}
use gst_rtsp_server_wfd.Text.{Text}

pub record AudioCodec : Type 0 where
  pub audio_format : Option Text
  pub modes : ℕ
  pub latency : ℕ

pub record AudioCodeclist : Type 0 where
  pub count : ℕ
  pub list : Option (List AudioCodec)

pub record MiscParams : Type 0 where
  pub cea_support : ℕ
  pub vesa_support : ℕ
  pub hh_support : ℕ
  pub latency : ℕ
  pub min_slice_size : ℕ
  pub slice_enc_params : ℕ
  pub frame_rate_control_support : ℕ

pub record H264Codec : Type 0 where
  pub profile : ℕ
  pub level : ℕ
  pub max_hres : ℕ
  pub max_vres : ℕ
  pub misc_params : MiscParams

pub record VideoCodec : Type 0 where
  pub native : ℕ
  pub preferred_display_mode_supported : ℕ
  pub h264_codec : H264Codec

-- `list` points to one codec.
pub record VideoCodeclist : Type 0 where
  pub count : ℕ
  pub list : Option VideoCodec

pub record MiscParams3d : Type 0 where
  pub video_3d_capability : ℕ
  pub latency : ℕ
  pub min_slice_size : ℕ
  pub slice_enc_params : ℕ
  pub frame_rate_control_support : ℕ

pub record CapList3d : Type 0 where
  pub native : ℕ
  pub preferred_display_mode_supported : ℕ
  pub profile : ℕ
  pub level : ℕ
  pub misc_params : MiscParams3d
  pub max_hres : ℕ
  pub max_vres : ℕ

pub record Formats3d : Type 0 where
  pub count : ℕ
  pub list : Option CapList3d

pub record Hdcp2Spec : Type 0 where
  pub hdcpversion : Option Text
  pub tcp_port : Option Text

pub record ContentProtection : Type 0 where
  pub hdcp2_spec : Option Hdcp2Spec

-- `edid_payload` has the bytes that were written into the allocated block.
pub record DisplayEdid : Type 0 where
  pub edid_supported : ℕ
  pub edid_block_count : ℕ
  pub edid_payload : Option (List ℕ)

pub record CoupledSinkCap : Type 0 where
  pub status : ℕ
  pub sink_address : Option Text

pub record CoupledSink : Type 0 where
  pub coupled_sink_cap : Option CoupledSinkCap

pub record TriggerMethod : Type 0 where
  pub wfd_trigger_method : Option Text

pub record PresentationUrl : Type 0 where
  pub wfd_url0 : Option Text
  pub wfd_url1 : Option Text

pub record ClientRtpPorts : Type 0 where
  pub profile : Option Text
  pub rtp_port0 : ℕ
  pub rtp_port1 : ℕ
  pub mode : Option Text

pub record Route : Type 0 where
  pub destination : Option Text

pub record I2c : Type 0 where
  pub i2c_present : Bool
  pub i2c_port : ℕ

pub record AvFormatChangeTiming : Type 0 where
  pub pts : ℕ
  pub dts : ℕ

-- The field `R` is never set.
pub record PreferredDisplayMode : Type 0 where
  pub displaymodesupported : Bool
  pub p_clock : ℕ
  pub h : ℕ
  pub hb : ℕ
  pub hspol_hsoff : ℕ
  pub hsw : ℕ
  pub v : ℕ
  pub vb : ℕ
  pub vspol_vsoff : ℕ
  pub vsw : ℕ
  pub vbs3d : ℕ
  pub v2d_s3d_modes : ℕ
  pub p_depth : ℕ
  pub h264_codec : H264Codec

-- GstWFDHIDCTypePathPair
pub record DetailedCap : Type 0 where
  pub inp_type : ℕ
  pub inp_path : ℕ

-- The chain of `hidc_cap_list.next` is a list.
pub record UibcCapability : Type 0 where
  pub uibcsupported : Bool
  pub input_cat : ℕ
  pub generic_inp_type : ℕ
  pub cap_count : ℕ
  pub hidc_cap_list : List DetailedCap
  pub tcp_port : ℕ

pub record UibcSetting : Type 0 where
  pub uibc_setting : Bool

pub record StandbyResumeCapability : Type 0 where
  pub standby_resume_cap : Bool

pub record Standby : Type 0 where
  pub wfd_standby : Bool

pub record ConnectorType : Type 0 where
  pub supported : Bool
  pub connector_type : ℕ

pub record IdrRequest : Type 0 where
  pub idr_request : Bool

pub record WfdMessage : Type 0 where
  pub audio_codecs : Option AudioCodeclist
  pub video_formats : Option VideoCodeclist
  pub video_3d_formats : Option Formats3d
  pub content_protection : Option ContentProtection
  pub display_edid : Option DisplayEdid
  pub coupled_sink : Option CoupledSink
  pub trigger_method : Option TriggerMethod
  pub presentation_url : Option PresentationUrl
  pub client_rtp_ports : Option ClientRtpPorts
  pub route : Option Route
  pub i2c : Option I2c
  pub av_format_change_timing : Option AvFormatChangeTiming
  pub preferred_display_mode : Option PreferredDisplayMode
  pub uibc_capability : Option UibcCapability
  pub uibc_setting : Option UibcSetting
  pub standby_resume_capability : Option StandbyResumeCapability
  pub standby : Option Standby
  pub connector_type : Option ConnectorType
  pub idr_request : Option IdrRequest

-- gst_wfd_message_new and gst_wfd_message_init: every pointer is cleared.
abbrev pub new : WfdMessage
new = record {
  audio_codecs = none;
  video_formats = none;
  video_3d_formats = none;
  content_protection = none;
  display_edid = none;
  coupled_sink = none;
  trigger_method = none;
  presentation_url = none;
  client_rtp_ports = none;
  route = none;
  i2c = none;
  av_format_change_timing = none;
  preferred_display_mode = none;
  uibc_capability = none;
  uibc_setting = none;
  standby_resume_capability = none;
  standby = none;
  connector_type = none;
  idr_request = none;
}
