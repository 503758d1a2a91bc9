-- ===== src/Media/SetState.antt =====
-- gst_rtsp_media_set_state of gst/rtsp-server/rtsp-media.c, with
-- gst_rtsp_stream_transport_set_active of gst/rtsp-server/rtsp-stream-transport.c and the answer of
-- update_transport in gst/rtsp-server/rtsp-stream.c.
pub mod Activity
use gst_rtsp_server_wfd.Prelude.{
  ℕ, List, [], ◌∷◌, Bool, true, false, not, ◌&&◌, ◌||◌, Option, none, some, if◌then◌else◌,
}
use gst_rtsp_server_wfd.Prelude.Int.{ℤ, pos, increment, decrement, is_zero}
use gst_rtsp_server_wfd.Media.{
  Media, Pipeline, Status, prepared, suspended, error, GstState, null, ready, paused, playing,
  new_state_signal, is_status, is_state, emit,
}
use gst_rtsp_server_wfd.Media.Calls.{set_pipeline_state}

pub data Lower : Type 0 where
  udp udp_mcast tcp unknown : Lower

pub record StreamTransport : Type 0 where
  pub lower_transport : Lower
  pub active : Bool
  pub channel_min : ℕ
  pub channel_max : ℕ

abbrev is_known : Lower → Bool
is_known unknown = false
is_known _ = true

abbrev same_bool : Bool → Bool → Bool
same_bool true b = b
same_bool false b = not b

-- gst_rtsp_stream_transport_set_active: TRUE if the transport changed. A stream takes a transport
-- in or out if it is joined and knows the lower transport.
pub set_active : Bool → StreamTransport → Bool → StreamTransport × Bool
set_active joined t active =
    if same_bool t.active active
    then (t, false)
    else if joined && is_known t.lower_transport
    then (record t { active = active }, true)
    else (t, false)

-- The loop of gst_rtsp_media_set_state over the transports, with the counter n_active.
pub activate_all : Bool → ℤ → List (Option StreamTransport) → ℤ × List (Option StreamTransport)
unfolding set_active
activate_all joined n [] = (n, [])
activate_all joined n (none ∷ ts) = let (n', ts') = activate_all joined n ts in (n', none ∷ ts')
activate_all joined n (some t ∷ ts) =
    let (t', changed) = set_active joined t true in
    let (n', ts') = activate_all joined (if changed then increment n else n) ts in
    (n', some t' ∷ ts')

pub deactivate_all : Bool → ℤ → List (Option StreamTransport) → ℤ × List (Option StreamTransport)
unfolding set_active
deactivate_all joined n [] = (n, [])
deactivate_all joined n (none ∷ ts) = let (n', ts') = deactivate_all joined n ts in (n', none ∷ ts')
deactivate_all joined n (some t ∷ ts) =
    let (t', changed) = set_active joined t false in
    let (n', ts') = deactivate_all joined (if changed then decrement n else n) ts in
    (n', some t' ∷ ts')

-- Every transport in the array is deactivated, whatever comes of it, and none counts any more.
abandon_all : Bool → List (Option StreamTransport) → List (Option StreamTransport)
unfolding deactivate_all
abandon_all joined ts = (deactivate_all joined (pos 0) ts).1

abbrev same_as_null : GstState → GstState
same_as_null ready = null
same_as_null s = s

-- The loop, for the state that is asked for.
change_transports :
    GstState → Media → List (Option StreamTransport) → ℤ × List (Option StreamTransport)
unfolding activate_all deactivate_all
change_transports s m ts =
    if is_state s playing
    then activate_all m.joined m.n_active ts
    else if is_state m.target_state playing
    then deactivate_all m.joined m.n_active ts
    else (m.n_active, ts)

-- `do_state`: the first transport became active, or none is.
abbrev does_state : GstState → ℤ → ℤ → Bool
does_state s old_active n_active = is_zero old_active && is_state s playing || is_zero n_active

-- The media is PREPARED or SUSPENDED, and the state is not READY.
set_usable_state :
    Pipeline
    → GstState
    → List (Option StreamTransport)
    → Media
    → Media × List (Option StreamTransport) × Bool
unfolding change_transports emit
set_usable_state gst s ts m =
    let (n, ts') = change_transports s m ts in
    let m1 = record m { n_active = n } in
    if is_state m.target_state s
    then (m1, ts', true)
    else (let m2 = if does_state s m.n_active n then set_pipeline_state gst s m1 else m1 in
        (emit (new_state_signal s) m2, ts', true))

pub set_state :
    Pipeline
    → GstState
    → List (Option StreamTransport)
    → Media
    → Media × List (Option StreamTransport) × Bool
unfolding set_usable_state abandon_all
set_state gst s ts m =
    if is_status m.status error
    then (if is_state s null
        then (record m { n_active = pos 0 }, abandon_all m.joined ts, false)
        else (m, ts, false))
    else if is_status m.status prepared || is_status m.status suspended
    then set_usable_state gst (same_as_null s) ts m
    else (m, ts, false)
