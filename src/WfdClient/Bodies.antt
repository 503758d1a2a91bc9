-- ===== src/WfdClient/Bodies.antt =====
-- gst/rtsp-server/rtsp-client-wfd.c: _set_wfd_message_body, the bodies of M3, M4, M5 and the trigger
-- TEARDOWN, with the functions of gst/rtsp-server/gstwfdmessage.c that make them.
use mathlib.Core.Option.{map}
use gst_rtsp_server_wfd.Prelude.{
  ℕ, ◌≡◌, refl, List, [], Bool, true, false, Option, none, some, ◌==◌, if◌then◌else◌, u32,
}
use gst_rtsp_server_wfd.Text.{Text}
use gst_rtsp_server_wfd.WfdMessage.{VideoCodec, WfdMessage, new}
use gst_rtsp_server_wfd.WfdMessage.Read.{◌<>◌, codes}
use gst_rtsp_server_wfd.WfdMessage.Audio.{
  AudioFormat, has_flag, set_supported_audio_format, set_prefered_audio_format,
}
use gst_rtsp_server_wfd.WfdMessage.Video.{
  VideoFormat, codec_with, set_supported_video_format, set_prefered_video_format,
}
use gst_rtsp_server_wfd.WfdMessage.Hdcp.{set_contentprotection_type}
use gst_rtsp_server_wfd.WfdMessage.Edid.{set_display_edid}
use gst_rtsp_server_wfd.WfdMessage.Ports.{set_prefered_rtp_ports, set_presentation_url}
use gst_rtsp_server_wfd.WfdMessage.WriteFormats.{codec_of}
use gst_rtsp_server_wfd.WfdMessage.Print.{as_text, param_names_as_text}
use gst_rtsp_server_wfd.WfdClient.{get_prefered_resolution}
use gst_rtsp_server_wfd.WfdClient.Displays.{Display, display_for}
use gst_rtsp_server_wfd.WfdClient.Resolution.{IsPrefered, get_prefered_resolution_lem}

-- What the client knows of the sink and of itself; `host` is that of the connection's url.
pub record Capabilities : Type 0 where
  pub ca_codec : ℕ
  pub c_freq : ℕ
  pub c_chanels : ℕ
  pub c_bitwidth : ℕ
  pub ca_latency : ℕ
  pub video_resolution_supported : ℕ
  pub video_native_resolution : ℕ
  pub c_cea_resolution : ℕ
  pub c_vesa_resolution : ℕ
  pub c_hh_resolution : ℕ
  pub cv_codec : ℕ
  pub c_profile : ℕ
  pub c_level : ℕ
  pub cv_latency : ℕ
  pub c_min_slice_size : ℕ
  pub c_slice_enc_params : ℕ
  pub c_frame_rate_control : ℕ
  pub display : Display
  pub protection_enabled : Bool
  pub host : Text

abbrev pub no_audio : AudioFormat
no_audio = record { a_codec = 0; a_freq = 0; a_channels = 0; a_bitwidth = 0; a_latency = 0 }

abbrev pub no_video : VideoFormat
no_video = record {
  v_codec = 0;
  v_native = 0;
  v_native_resolution = 0;
  v_cea_resolution = 0;
  v_vesa_resolution = 0;
  v_hh_resolution = 0;
  v_profile = 0;
  v_level = 0;
  v_latency = 0;
  v_max_height = 0;
  v_max_width = 0;
  min_slice_size = 0;
  slice_enc_params = 0;
  frame_rate_control = 0;
}

-- The parameters that M3 asks for; g_malloc is not called for an EDID that is not supported.
unfoldable pub m3_message : (ℕ → List ℕ) → Bool → WfdMessage
m3_message g_malloc protection =
    let formats = set_supported_video_format no_video (set_supported_audio_format no_audio new) in
    let edid = set_display_edid g_malloc 0 0 [] formats in
    let protected = if protection then set_contentprotection_type 0 0 edid else edid in
    set_prefered_rtp_ports
      (record { trans = 0; profile = 0; lowertrans = 0; rtp_port0 = 0; rtp_port1 = 0 }) protected

-- taudiocodec; none for AC3, which is an error
abbrev pub audio_codec : ℕ → Option ℕ
audio_codec c =
    if has_flag c 4 then none else some (if has_flag c 2 then 2 else if has_flag c 1 then 1 else 0)

abbrev pub audio_freq : ℕ → ℕ
audio_freq f = if has_flag f 2 then 2 else if has_flag f 1 then 1 else 0

-- Two channels, whatever number the sink has.
abbrev pub audio_channels : ℕ → ℕ
audio_channels c =
    if has_flag c 8
    then 1
    else if has_flag c 4
    then 1
    else if has_flag c 2
    then 1
    else if has_flag c 1
    then 1
    else 0

-- The mask of the sink for the kind of resolution that the source has.
abbrev pub sink_mask : Capabilities → ℕ
sink_mask c =
    if c.video_native_resolution == 0
    then c.c_cea_resolution
    else if c.video_native_resolution == 1
    then c.c_vesa_resolution
    else c.c_hh_resolution

abbrev pub chosen_resolution : Capabilities → ℕ
chosen_resolution c = get_prefered_resolution c.video_resolution_supported (sink_mask c)

-- The resolution, if it is of that kind.
abbrev pub of_kind : ℕ → Capabilities → ℕ
of_kind kind c = if c.video_native_resolution == kind then chosen_resolution c else 0

-- What the client keeps of the choice.
abbrev pub negotiated : ℕ → Capabilities → Capabilities
negotiated codec c = record c {
  ca_codec = codec;
  c_freq = audio_freq c.c_freq;
  c_chanels = audio_channels c.c_chanels;
  cv_codec = 1;
  c_profile = 1;
  c_level = 1;
  display = display_for c.video_native_resolution (chosen_resolution c) c.display;
}

abbrev pub prefered_video : Capabilities → Display → VideoFormat
prefered_video c d = record {
  v_codec = 1;
  v_native = c.video_native_resolution;
  v_native_resolution = 0;
  v_cea_resolution = of_kind 0 c;
  v_vesa_resolution = of_kind 1 c;
  v_hh_resolution = of_kind 2 c;
  v_profile = 1;
  v_level = 1;
  v_latency = c.cv_latency;
  v_max_height = d.max_width;
  v_max_width = d.max_height;
  min_slice_size = c.c_min_slice_size;
  slice_enc_params = c.c_slice_enc_params;
  frame_rate_control = c.c_frame_rate_control;
}

-- The message M4 for an audio codec.
unfoldable pub m4_with : Capabilities → ℕ → WfdMessage
m4_with c codec =
    let n = negotiated codec c in
    let url = codes "rtsp://" <> c.host <> codes "/wfd1.0/streamid=0" in
    let audio : AudioFormat = record {
      a_codec = codec;
      a_freq = n.c_freq;
      a_channels = n.c_chanels;
      a_bitwidth = c.c_bitwidth;
      a_latency = c.ca_latency;
    } in
    set_prefered_video_format (prefered_video c n.display)
      (set_prefered_audio_format audio (set_presentation_url (some url) none new))

unfoldable pub m4_message : Capabilities → Option (Capabilities × WfdMessage)
m4_message c = map (λ codec. (negotiated codec c, m4_with c codec)) (audio_codec c.ca_codec)

-- GstWFDMessageType
pub data MessageType : Type 0 where
  m1_req m1_res m2_req m2_res m3_req m3_res m4_req m4_res m5_req teardown_trigger : MessageType

-- _set_wfd_message_body: what is in its data then, none for NULL. It leaves the data as they are for a
-- message that has no body.
unfoldable pub set_wfd_message_body :
    (ℕ → List ℕ) → MessageType → Option Text → Capabilities → Capabilities × Option Text
set_wfd_message_body g_malloc m3_req _ c =
    (c, some (param_names_as_text (m3_message g_malloc c.protection_enabled)))
set_wfd_message_body g_malloc m4_req _ c = elim (m4_message c) [
  | none ↦ (c, none)
  | some x ↦ (x.0, as_text x.1)
]
set_wfd_message_body g_malloc m5_req _ c = (c, some (codes "wfd_trigger_method: SETUP\r\n"))
set_wfd_message_body g_malloc teardown_trigger _ c =
    (c, some (codes "wfd_trigger_method: TEARDOWN\r\n"))
set_wfd_message_body g_malloc m1_req before c = (c, before)
set_wfd_message_body g_malloc m1_res before c = (c, before)
set_wfd_message_body g_malloc m2_req before c = (c, before)
set_wfd_message_body g_malloc m2_res before c = (c, before)
set_wfd_message_body g_malloc m3_res before c = (c, before)
set_wfd_message_body g_malloc m4_res before c = (c, before)

-- One resolution, of the kind of the source and that of the table for it, in the masks of a codec.
pub record IsOffer (c : Capabilities) (codec : VideoCodec) (resolution : ℕ) : Type 0 where
  pub prefered : IsPrefered c.video_resolution_supported (sink_mask c) resolution
  pub cea :
      codec.h264_codec.misc_params.cea_support
      ≡ (if c.video_native_resolution == 0 then u32 resolution else 0)
  pub vesa :
      codec.h264_codec.misc_params.vesa_support
      ≡ (if c.video_native_resolution == 1 then u32 resolution else 0)
  pub hh :
      codec.h264_codec.misc_params.hh_support
      ≡ (if c.video_native_resolution == 2 then u32 resolution else 0)
  pub width :
      codec.h264_codec.max_hres
      ≡ (display_for c.video_native_resolution resolution c.display).max_width
  pub height :
      codec.h264_codec.max_vres
      ≡ (display_for c.video_native_resolution resolution c.display).max_height

u32_if : (b : Bool) → (n : ℕ) → u32 (if b then n else 0) ≡ (if b then u32 n else 0)
u32_if true n = refl
u32_if false n = refl

-- codec_with at the arguments of the preferred video format.
codec_with-IsOffer :
    (c : Capabilities)
    → (codec native supported : ℕ)
    → IsOffer c
        (codec_with native supported (prefered_video c (negotiated codec c).display))
        (chosen_resolution c)
codec_with-IsOffer c _ _ _ = record {
  prefered = get_prefered_resolution_lem c.video_resolution_supported (sink_mask c);
  cea = u32_if (c.video_native_resolution == 0) (chosen_resolution c);
  vesa = u32_if (c.video_native_resolution == 1) (chosen_resolution c);
  hh = u32_if (c.video_native_resolution == 2) (chosen_resolution c);
  width = refl;
  height = refl;
}

-- For a sink without AC3, M4 is made, and it offers the one resolution that the masks of the source
-- and of the sink prefer, in the mask of the source's kind of resolution and in no other, with the
-- width and height that the table has for it.
pub m4_message-IsOffer :
    (c : Capabilities)
    → has_flag c.ca_codec 4 ≡ false
    → (n : Capabilities) × (m : WfdMessage) × (codec : VideoCodec) × (resolution : ℕ) × (m4_message
          c
        ≡ some (n, m))
      × (codec_of m.video_formats ≡ some codec)
      × IsOffer c codec resolution
unfolding m4_message m4_with set_prefered_video_format set_prefered_audio_format
    set_presentation_url
m4_message-IsOffer c no_ac3 =
    let codec = if has_flag c.ca_codec 2 then 2 else if has_flag c.ca_codec 1 then 1 else 0 in
    (
      negotiated codec c,
      m4_with c codec,
      _,
      chosen_resolution c,
      rw no_ac3 refl,
      refl,
      codec_with-IsOffer c codec _ 0,
    )
