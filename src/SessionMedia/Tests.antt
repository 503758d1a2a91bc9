-- ===== src/SessionMedia/Tests.antt =====
-- The theorems on gst/rtsp-server/rtsp-session-media.c at concrete session media.
use gst_rtsp_server_wfd.Prelude.{◌+◌, ◌<◌, ◌≡◌, ◌≢◌, ◌↔◌, refl, [], ◌∷◌, none, arith}
use gst_rtsp_server_wfd.Media.SetState.{tcp}
use gst_rtsp_server_wfd.SessionMedia.{SessionMedia, init, Transport}
use gst_rtsp_server_wfd.SessionMedia.Channels.{channels, alloc_channels_lem}

abbrev fresh : SessionMedia
fresh = record {
  ptr = 1;
  path = 47 ∷ 97 ∷ [];
  media = 1;
  state = init;
  transports = none ∷ none ∷ [];
  counter = 0;
}

alloc_channels_lem_example :
    ((channels 127 fresh).1 ≡ (channels 127 fresh).0 + 1)
    × ((channels 127 fresh).0 ≢ (channels 128 fresh).0)
    × ((channels 127 fresh).0 ≢ (channels 128 fresh).1)
    × ((channels 127 fresh).1 ≢ (channels 128 fresh).0)
    × ((channels 127 fresh).1 ≢ (channels 128 fresh).1)
    × (((channels 127 fresh).1 < 256) ↔ (127 < 128))
alloc_channels_lem_example = alloc_channels_lem fresh 127 128 refl (omega arith) (omega arith)

abbrev chosen : Transport
chosen = record { lower = tcp; channel_min = 0; channel_max = 1 }
