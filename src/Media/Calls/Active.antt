-- ===== src/Media/Calls/Active.antt =====
-- The calls of gst/rtsp-server/rtsp-media.c that leave the count of active transports alone.
use gst_rtsp_server_wfd.Prelude.{◌≡◌, refl, false, arith, if◌then◌else◌}
use gst_rtsp_server_wfd.Prelude.Int.{decrement}
use gst_rtsp_server_wfd.Media.{
  Media, Pipeline, GstState, null, ready, paused, playing, is_state, finish_unprepare,
  set_target_state, set_element_state, set_blocked, SuspendMode, suspend_none, suspend_pause,
  suspend_reset,
}
use gst_rtsp_server_wfd.Media.Calls.{
  unprepare, shut_down, default_unprepare, suspend, suspend_pipeline, set_running_state,
  set_pipeline_state,
}

shut_down_active : (gst : Pipeline) (m : Media) → (shut_down gst m).n_active ≡ m.n_active
unfolding shut_down default_unprepare finish_unprepare
shut_down_active gst m = ground arith

unprepare_active : (gst : Pipeline) (m : Media) → (unprepare gst m).0.n_active ≡ m.n_active
unfolding unprepare
unprepare_active gst m =
    ground (arith, shut_down_active gst (record m { prepare_count = decrement m.prepare_count }))

suspend_pipeline_active :
    (gst : Pipeline) (s : SuspendMode) (m : Media)
    → (suspend_pipeline gst s m).0.n_active ≡ m.n_active
unfolding suspend_pipeline
suspend_pipeline_active gst suspend_none m = refl
suspend_pipeline_active gst suspend_pause m = refl
suspend_pipeline_active gst suspend_reset m = refl

suspend_active : (gst : Pipeline) (m : Media) → (suspend gst m).0.n_active ≡ m.n_active
unfolding suspend
suspend_active gst m = ground (arith, suspend_pipeline_active gst m.suspend_mode m)

set_running_state_active :
    (gst : Pipeline) (s : GstState) (m : Media) → (set_running_state gst s m).n_active ≡ m.n_active
unfolding set_running_state
set_running_state_active gst s m =
    let m1 = (set_target_state gst s false m).0 in
    let m2 = if is_state s playing then set_blocked false m1 else m1 in
    ground (arith, suspend_active gst (set_element_state gst s m2).0)

pub set_pipeline_state_active :
    (gst : Pipeline) (s : GstState) (m : Media) → (set_pipeline_state gst s m).n_active ≡ m.n_active
unfolding set_pipeline_state
set_pipeline_state_active gst null m = unprepare_active gst m
set_pipeline_state_active gst ready m = set_running_state_active gst ready m
set_pipeline_state_active gst paused m = set_running_state_active gst paused m
set_pipeline_state_active gst playing m = set_running_state_active gst playing m
