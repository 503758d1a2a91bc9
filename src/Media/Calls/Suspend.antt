-- ===== src/Media/Calls/Suspend.antt =====
-- suspend and unsuspend of gst/rtsp-server/rtsp-media.c.
use gst_rtsp_server_wfd.Prelude.{
  ◌≡◌, refl, inl, inr, List, Bool, true, false, not, arith, Bool-cases,
}
use gst_rtsp_server_wfd.Prelude.Int.{is_positive}
use gst_rtsp_server_wfd.Media.{
  Media, Pipeline, Event, preparing, prepared, suspended, error, is_status, start_preroll,
  wait_preroll, get_status, set_status, suspend_none, suspend_pause, suspend_reset, SuspendMode,
}
use gst_rtsp_server_wfd.Media.Events.{get_status-IsDone, IsDone}
use gst_rtsp_server_wfd.Media.Calls.{suspend, unsuspend, unsuspend_mode}

start_preroll_status : (gst : Pipeline) (m : Media) → (start_preroll gst m).0.status ≡ m.status
unfolding start_preroll
start_preroll_status gst m = ground arith

-- PREPARED with TRUE, or ERROR with FALSE.
abbrev pub Resumed : Media × Bool → Type 0
Resumed (m, true) = m.status ≡ prepared
Resumed (m, false) = m.status ≡ error

waited-Resumed : (m : Media) → IsDone m.status → Resumed (m, not (is_status m.status error))
waited-Resumed m (inl h) = rw h refl
waited-Resumed m (inr h) = rw h refl

unsuspend_mode-Resumed :
    (gst : Pipeline) (s : SuspendMode) (es : List Event) (m : Media)
    → Resumed (unsuspend_mode gst s es m)
unfolding unsuspend_mode wait_preroll set_status
unsuspend_mode-Resumed gst suspend_none es m = refl
unsuspend_mode-Resumed gst suspend_pause es m = refl
unsuspend_mode-Resumed gst suspend_reset es m =
    let m' = (start_preroll gst (record m { status = preparing })).0 in
    let ended =
      get_status-IsDone gst es m' (start_preroll_status gst (record m { status = preparing })) in
    elim (Bool-cases (start_preroll gst (record m { status = preparing })).1) [
      | inl b ↦ rw (b, unsuspend_mode) (waited-Resumed (get_status gst es m') ended)
      | inr b ↦ rw (b, unsuspend_mode) refl
    ]

suspend_status :
    (gst : Pipeline) (m : Media)
    → m.status ≡ prepared
    → (suspend gst m).1 ≡ true
    → is_positive m.n_active ≡ false
    → (suspend gst m).0.status ≡ suspended
unfolding suspend
suspend_status gst m p t n = ground arith

-- A PREPARED media without active transports that suspend has suspended, with TRUE: unsuspend
-- ends with PREPARED and TRUE or with ERROR and FALSE, in every suspend mode and whatever happens
-- while it waits.
pub suspend-unsuspend :
    (gst gst' : Pipeline) (es : List Event) (m : Media)
    → m.status ≡ prepared
    → is_positive m.n_active ≡ false
    → (suspend gst m).1 ≡ true
    → Resumed (unsuspend gst' es (suspend gst m).0)
unfolding unsuspend
suspend-unsuspend gst gst' es m p n t =
    let m' = (suspend gst m).0 in
    rw (suspend_status gst m p t n) (unsuspend_mode-Resumed gst' m'.suspend_mode es m')
