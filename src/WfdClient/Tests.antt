-- ===== src/WfdClient/Tests.antt =====
-- The theorems on gst/rtsp-server/rtsp-client-wfd.c at concrete messages, and runs of the client.
use gst_rtsp_server_wfd.Prelude.{ℕ, ◌≡◌, refl, List, [], ◌∷◌, true, false, none, some}
use gst_rtsp_server_wfd.WfdClient.{
  m1, m2_response, m3, m4, trigger_setup, new, send, start_wfd, options_request_done,
  get_param_request_done, respond_body, respond_empty, handle_wfd_response,
  handle_wfd_options_request, handle_wfd_set_param_request, find_bit, get_prefered_resolution,
}
use gst_rtsp_server_wfd.WfdClient.Handshake.{
  Event, starts, options_requests, set_param_requests, responses, run, IsOrdered, run-IsOrdered,
}
use gst_rtsp_server_wfd.WfdClient.Resolution.{IsPrefered, get_prefered_resolution_lem}
use gst_rtsp_server_wfd.WfdClient.Bodies.{
  Capabilities, IsOffer, m4_req, m4_message, m4_with, set_wfd_message_body, m4_message-IsOffer,
}
use gst_rtsp_server_wfd.WfdMessage.{VideoCodec, WfdMessage}
use gst_rtsp_server_wfd.WfdMessage.Read.{codes}
use gst_rtsp_server_wfd.WfdMessage.Audio.{set_prefered_audio_format, count_bits}
use gst_rtsp_server_wfd.WfdMessage.Video.{set_prefered_video_format}
use gst_rtsp_server_wfd.WfdMessage.Ports.{set_presentation_url}
use gst_rtsp_server_wfd.WfdMessage.Write.{show, hex, presentation_url_value}
use gst_rtsp_server_wfd.WfdClient.Displays.{entry_for, display_for}
use gst_rtsp_server_wfd.WfdMessage.WriteFormats.{
  codec_of, codecs_text, audio_codecs_line, video_codec_value, video_formats_line,
}
use gst_rtsp_server_wfd.WfdMessage.Print.{late_text, as_text}

abbrev handshake : List Event
handshake =
    starts true
    ∷ responses (some 0) true true
    ∷ options_requests true true true
    ∷ responses (some 200) true true
    ∷ set_param_requests
    ∷ responses (some 0) true true
    ∷ []

all_sent : (run handshake new).sent ≡ trigger_setup ∷ m4 ∷ m3 ∷ m2_response ∷ m1 ∷ []
unfolding new send start_wfd options_request_done get_param_request_done respond_body respond_empty
    handle_wfd_response handle_wfd_options_request handle_wfd_set_param_request
all_sent = refl

-- An answer to M3 without a body is taken for that to M4.
early :
    (run (responses (some 0) true true ∷ responses (some 0) true true ∷ []) new).sent
    ≡ trigger_setup ∷ []
unfolding new send respond_empty handle_wfd_response
early = refl

run-IsOrdered_example : IsOrdered handshake (run handshake new)
run-IsOrdered_example = run-IsOrdered handshake

-- The masks have the bits 0, 2 and 5, and 1, 2 and 4.
highest : get_prefered_resolution 37 22 ≡ 4
unfolding get_prefered_resolution find_bit
highest = refl

get_prefered_resolution_lem_example : IsPrefered 37 22 (get_prefered_resolution 37 22)
get_prefered_resolution_lem_example = get_prefered_resolution_lem 37 22

-- A sink with LPCM and AAC, and the resolutions 720p30 and 640x480 in common with the source.
abbrev sink : Capabilities
sink = record {
  ca_codec = 3;
  c_freq = 3;
  c_chanels = 15;
  c_bitwidth = 0;
  ca_latency = 0;
  video_resolution_supported = 33;
  video_native_resolution = 0;
  c_cea_resolution = 127;
  c_vesa_resolution = 0;
  c_hh_resolution = 0;
  cv_codec = 0;
  c_profile = 0;
  c_level = 0;
  cv_latency = 0;
  c_min_slice_size = 0;
  c_slice_enc_params = 0;
  c_frame_rate_control = 0;
  display = record { max_width = 0; max_height = 0; framerate = 0; interleaved = 0 };
  protection_enabled = false;
  host = codes "h";
}

m4_message-IsOffer_example :
    (n : Capabilities) × (m : WfdMessage) × (codec : VideoCodec) × (resolution : ℕ) × (m4_message
        sink
      ≡ some (n, m))
    × (codec_of m.video_formats ≡ some codec)
    × IsOffer sink codec resolution
m4_message-IsOffer_example = m4_message-IsOffer sink refl

-- The answer to AAC, 48 kHz and two channels, and to 1280x720 with 30 frames a second.
m4_text :
    (set_wfd_message_body (λ _. []) m4_req none sink).1
    ≡ some (
        codes
          "wfd_audio_codecs: AAC 00000001 00\r\nwfd_video_formats: 00 00 01 01 00000020 00000000 00000000 00 0000 0000 00 0500 02d0\r\nwfd_presentation_URL: rtsp://h/wfd1.0/streamid=0 none\r\n")
unfolding set_wfd_message_body m4_message as_text m4_with set_prefered_video_format
    set_prefered_audio_format set_presentation_url late_text codecs_text audio_codecs_line
    video_formats_line video_codec_value show hex presentation_url_value get_prefered_resolution
    find_bit entry_for display_for count_bits
m4_text = refl
