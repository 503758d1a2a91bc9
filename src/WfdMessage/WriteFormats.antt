-- ===== src/WfdMessage/WriteFormats.antt =====
-- gst/rtsp-server/gstwfdmessage.c, gst_wfd_message_as_text: audio and video formats, content
-- protection and the EDID.
use mathlib.Core.Option.{map}
use gst_rtsp_server_wfd.Prelude.{
  ℕ, ◌-◌, List, [], ◌∷◌, Option, none, some, ◌==◌, if◌then◌else◌, length,
}
use gst_rtsp_server_wfd.Text.{Text}
use gst_rtsp_server_wfd.WfdMessage.{
  AudioCodec, AudioCodeclist, VideoCodec, VideoCodeclist, CapList3d, Formats3d, ContentProtection,
  DisplayEdid,
}
use gst_rtsp_server_wfd.WfdMessage.Read.{codes, ◌<>◌}
use gst_rtsp_server_wfd.WfdMessage.Write.{hex, decimal_int, string, spaced, crlf, line_of, pad_with}

abbrev pub codec_text : AudioCodec → Text
codec_text c = spaced (string c.audio_format) <> spaced (hex 8 c.modes) <> spaced (hex 2 c.latency)

-- `list` has `count` entries.
unfoldable pub codecs_text : List AudioCodec → Text
codecs_text [] = []
codecs_text (c ∷ []) = codec_text c
codecs_text (c ∷ d ∷ cs) = codec_text c <> b',' ∷ codecs_text (d ∷ cs)

unfoldable pub audio_codecs_line : AudioCodeclist → Text
audio_codecs_line a = elim a.list [
  | none ↦ codes "wfd_audio_codecs" <> crlf
  | some codecs ↦ line_of (codes "wfd_audio_codecs") (codecs_text codecs)
]

-- A resolution of 0 prints as "none".
abbrev pub resolution_text : ℕ → ℕ → Text
resolution_text test n = if test == 0 then codes "none" else hex 4 n

unfoldable pub video_codec_value : VideoCodec → Text
video_codec_value c =
    spaced (hex 2 c.native)
    <> spaced (hex 2 c.preferred_display_mode_supported)
    <> spaced (hex 2 c.h264_codec.profile)
    <> spaced (hex 2 c.h264_codec.level)
    <> spaced (hex 8 c.h264_codec.misc_params.cea_support)
    <> spaced (hex 8 c.h264_codec.misc_params.vesa_support)
    <> spaced (hex 8 c.h264_codec.misc_params.hh_support)
    <> spaced (hex 2 c.h264_codec.misc_params.latency)
    <> spaced (hex 4 c.h264_codec.misc_params.min_slice_size)
    <> spaced (hex 4 c.h264_codec.misc_params.slice_enc_params)
    <> spaced (hex 2 c.h264_codec.misc_params.frame_rate_control_support)
    <> spaced (resolution_text c.h264_codec.max_hres c.h264_codec.max_hres)
    <> spaced (resolution_text c.h264_codec.max_vres c.h264_codec.max_vres)

unfoldable pub video_formats_line : VideoCodeclist → Text
video_formats_line l = elim l.list [
  | none ↦ codes "wfd_video_formats" <> crlf
  | some c ↦ line_of (codes "wfd_video_formats") (video_codec_value c)
]

-- The resolution of the 3D formats is tested, that of the video formats is printed.
abbrev pub resolution_3d_text : ℕ → Option ℕ → Option Text
resolution_3d_text n printed = if n == 0 then some (codes "none") else map (λ k. hex 4 k) printed

abbrev pub codec_of : Option VideoCodeclist → Option VideoCodec
codec_of none = none
codec_of (some l) = l.list

abbrev pub join_text : Option Text → Option Text → Option Text
join_text none _ = none
join_text (some s) t = map (λ u. s <> u) t

-- "%16x"
abbrev pub wide : ℕ → Text
wide n = pad_with b' ' (16 - length (hex 0 n)) (hex 0 n)

unfoldable pub cap_list_value : CapList3d → Option VideoCodeclist → Option Text
cap_list_value c formats =
    let numbers =
      spaced (hex 2 c.native)
      <> spaced (hex 2 c.preferred_display_mode_supported)
      <> spaced (hex 2 c.profile)
      <> spaced (hex 2 c.level)
      <> spaced (wide c.misc_params.video_3d_capability)
      <> spaced (hex 2 c.misc_params.latency)
      <> spaced (hex 4 c.misc_params.min_slice_size)
      <> spaced (hex 4 c.misc_params.slice_enc_params)
      <> spaced (hex 2 c.misc_params.frame_rate_control_support) in
    let hres =
      resolution_3d_text c.max_hres (map (λ k. k.h264_codec.max_hres) (codec_of formats)) in
    let vres =
      resolution_3d_text c.max_vres (map (λ k. k.h264_codec.max_vres) (codec_of formats)) in
    map (λ t. numbers <> t) (join_text (map spaced hres) (map spaced vres))

-- none where the code follows a null pointer to the video formats
unfoldable pub video_3d_formats_line : Formats3d → Option VideoCodeclist → Option Text
video_3d_formats_line l formats = elim l.list [
  | none ↦ some (line_of (codes "wfd_3d_video_formats") (codes " none"))
  | some c ↦ map (λ v. line_of (codes "wfd_3d_video_formats") v) (cap_list_value c formats)
]

unfoldable pub content_protection_value : ContentProtection → Text
content_protection_value c = elim c.hdcp2_spec [
  | none ↦ codes " none"
  | some s ↦ elim s.hdcpversion [
    | none ↦ codes " none"
    | some version ↦ spaced version <> spaced (string s.tcp_port)
  ]
]

unfoldable pub display_edid_value : DisplayEdid → Text
display_edid_value e =
    if e.edid_supported == 0
    then codes " none"
    else spaced (decimal_int e.edid_supported)
      <> (if e.edid_block_count == 0
          then codes " none"
          else spaced (decimal_int e.edid_block_count))
