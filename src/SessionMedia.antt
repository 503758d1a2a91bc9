-- ===== src/SessionMedia.antt =====
-- gst/rtsp-server/rtsp-session-media.c: the media of a session, with a transport per stream.
--
-- A GObject stands for its pointer, `ptr`, and the media for its own, `media`. The path_len is the
-- length of the path. GstRTSPState is GStreamer's; the code of the repository sets INIT, READY and
-- PLAYING.
pub mod Channels
mod Tests
use gst_rtsp_server_wfd.Prelude.{
  ℕ, zero, suc, ◌+◌, List, [], ◌∷◌, Bool, true, false, not, Option, none, some, length, ltb,
  get_elem?, set, u32, if◌then◌else◌,
}
use gst_rtsp_server_wfd.Text.{Text}
use gst_rtsp_server_wfd.Media.{Media, Pipeline, GstState}
use gst_rtsp_server_wfd.Media.SetState.{Lower, StreamTransport, set_state}

pub data RtspState : Type 0 where
  invalid init ready seeking playing recording : RtspState

pub record SessionMedia : Type 0 where
  pub ptr : ℕ
  pub path : Text
  pub media : ℕ
  pub state : RtspState
  pub transports : List (Option StreamTransport)
  pub counter : ℕ

-- A GstRTSPTransport, as far as the code reads it.
pub record Transport : Type 0 where
  pub lower : Lower
  pub channel_min : ℕ
  pub channel_max : ℕ

abbrev no_transports : ℕ → List (Option StreamTransport)
no_transports zero = []
no_transports (suc n) = none ∷ no_transports n

-- gst_rtsp_session_media_new, for a media with n_streams streams; `usable` says that its status is
-- PREPARED or SUSPENDED.
unfoldable pub session_media_new : ℕ → Text → ℕ → ℕ → Bool → Option SessionMedia
session_media_new ptr path media n_streams usable =
    let result : SessionMedia = record {
      ptr = ptr;
      path = path;
      media = media;
      state = init;
      transports = no_transports n_streams;
      counter = 0;
    } in
    if usable then some result else none

pub set_rtsp_state : RtspState → SessionMedia → SessionMedia
set_rtsp_state s m = record m { state = s }

-- gst_rtsp_stream_transport_new and gst_rtsp_stream_transport_set_transport
abbrev with_transport : Transport → Option StreamTransport → StreamTransport
with_transport tr none = record {
  lower_transport = tr.lower;
  active = false;
  channel_min = tr.channel_min;
  channel_max = tr.channel_max;
}
with_transport tr (some t) = record t {
  lower_transport = tr.lower;
  channel_min = tr.channel_min;
  channel_max = tr.channel_max;
}

abbrev joined {ℓ} : {A : Type ℓ} → Option (Option A) → Option A
joined none = none
joined (some o) = o

-- NULL, if the stream's index is out of range.
pub get_transport : ℕ → SessionMedia → Option StreamTransport
get_transport idx m = joined (get_elem? m.transports idx)

pub set_transport : ℕ → Transport → SessionMedia → SessionMedia × Option StreamTransport
unfolding get_transport
set_transport idx tr m =
    let result = with_transport tr (get_transport idx m) in
    if ltb idx (length m.transports)
    then (record m { transports = set m.transports idx (some result) }, some result)
    else (m, none)

-- The counter is a guint; the channels, of type gint, stand for their bits.
pub alloc_channels : SessionMedia → SessionMedia × ℕ × ℕ
alloc_channels m = (record m { counter = u32 (m.counter + 2) }, m.counter, u32 (m.counter + 1))

-- gst_rtsp_session_media_set_state, with the media of the pointer.
pub set_media_state : Pipeline → GstState → SessionMedia → Media → SessionMedia × Media × Bool
set_media_state gst s sm m =
    let (m', transports, ret) = set_state gst s sm.transports m in
    (record sm { transports = transports }, m', ret)
