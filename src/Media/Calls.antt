-- ===== src/Media/Calls.antt =====
-- gst/rtsp-server/rtsp-media.c: prepare, unprepare, suspend, unsuspend and the state of the pipeline.
pub mod Active
pub mod Balance
pub mod Unprepare
pub mod Suspend
use gst_rtsp_server_wfd.Prelude.{
  ℕ, List, [], ◌∷◌, Bool, true, false, not, ◌&&◌, ◌||◌, Option, none, some, if◌then◌else◌,
}
use gst_rtsp_server_wfd.Prelude.Int.{ℤ, pos, increment, decrement, is_positive, is_zero}
use gst_rtsp_server_wfd.Media.{
  Media, Pipeline, Event, Status, unprepared, unpreparing, preparing, prepared, suspended, error,
  GstState, null, ready, paused, playing, SuspendMode, suspend_none, suspend_pause, suspend_reset,
  send_eos, stop_thread, prepared_signal, new_state_signal, is_status, is_state, is_failure, emit,
  set_status, set_element_state, set_target_state, set_blocked, finish_unprepare, start_preroll,
  wait_preroll,
}

-- The class's vmethods create_rtpbin (none, or whether it made one) and setup_rtpbin.
pub record RtpbinMethods : Type 0 where
  pub create_rtpbin : Option Bool
  pub setup_rtpbin : Bool

abbrev rtpbin_made : RtpbinMethods → Bool
rtpbin_made k = elim k.create_rtpbin [ none ↦ false | some made ↦ made && k.setup_rtpbin ]

-- Behind a failure: there is no rtpbin, if the class had a function to make it.
abbrev left_rtpbin : RtpbinMethods → Bool → Bool
left_rtpbin k before = elim k.create_rtpbin [ none ↦ before | some made ↦ false ]

pub default_unprepare : Pipeline → Media → Media
unfolding emit set_element_state
default_unprepare gst m =
    if m.eos_shutdown
    then record ((set_element_state gst playing (emit send_eos m)).0) { status = unpreparing }
    else finish_unprepare gst m

-- The last user is gone.
pub shut_down : Pipeline → Media → Media
unfolding default_unprepare set_target_state
shut_down gst m =
    let m' = (set_target_state gst null false m).0 in
    if is_status m'.status prepared then default_unprepare gst m' else finish_unprepare gst m'

pub unprepare : Pipeline → Media → Media × Bool
unfolding shut_down
unprepare gst m =
    if is_status m.status unprepared
    then (m, true)
    else (let m' = record m { prepare_count = decrement m.prepare_count } in
        if is_positive m'.prepare_count then (m', true) else (shut_down gst m', true))

-- Behind the wait of gst_rtsp_media_prepare: the signal, or the label preroll_failed.
finish_prepare : Pipeline → Media × Bool → Media × Bool
unfolding emit
finish_prepare gst (m, true) = (emit prepared_signal m, true)
finish_prepare gst (m, false) = ((unprepare gst m).0, false)

-- The label wait_status of gst_rtsp_media_prepare.
await_prepared : Pipeline → List Event → Media → Media × Bool
unfolding finish_prepare
await_prepared gst es m = finish_prepare gst (wait_preroll gst es m)

-- What gst_rtsp_media_prepare sets up, with the rtpbin made, before it waits.
begin_prepare : Media → Media
begin_prepare m = record m {
  rtpbin = true;
  is_live = false;
  seekable = false;
  buffering = false;
  thread = true;
  status = preparing;
}

-- The media is UNPREPARED, and `m` has the call counted.
prepare_new : Pipeline → RtpbinMethods → List Event → Media → Media × Bool
unfolding await_prepared begin_prepare
prepare_new gst k es m =
    let refused = record m { prepare_count = decrement m.prepare_count } in
    if not m.reusable && m.reused
    then (refused, false)
    else if rtpbin_made k
    then await_prepared gst es (begin_prepare m)
    else (record refused { rtpbin = left_rtpbin k m.rtpbin }, false)

unfoldable pub prepare : Pipeline → RtpbinMethods → List Event → Media → Media × Bool
unfolding emit prepare_new await_prepared
prepare gst k es m =
    let m' = record m { prepare_count = increment m.prepare_count } in
    if is_status m.status prepared || is_status m.status suspended
    then (emit stop_thread m', true)
    else if is_status m.status preparing
    then await_prepared gst es m'
    else if is_status m.status unprepared
    then prepare_new gst k es m'
    else (record m' { prepare_count = decrement m'.prepare_count }, false)

-- The switch over the suspend mode; false is the jump to state_failed.
suspend_pipeline : Pipeline → SuspendMode → Media → Media × Bool
unfolding set_target_state
suspend_pipeline gst suspend_none m = (m, true)
suspend_pipeline gst suspend_pause m =
    let (m', ret) = set_target_state gst paused true m in (m', not (is_failure ret))
suspend_pipeline gst suspend_reset m =
    let (m', ret) = set_target_state gst null true m in (m', not (is_failure ret))

unfoldable pub suspend : Pipeline → Media → Media × Bool
unfolding suspend_pipeline set_blocked set_status
suspend gst m =
    if not (is_status m.status prepared)
    then (m, false)
    else if is_positive m.n_active
    then (m, true)
    else (let (m', done) = suspend_pipeline gst m.suspend_mode m in
        if done
        then (record (set_blocked false m') { status = suspended }, true)
        else (set_status error m', false))

unsuspend_mode : Pipeline → SuspendMode → List Event → Media → Media × Bool
unfolding set_status
unsuspend_mode gst suspend_none es m = (record m { status = prepared }, true)
unsuspend_mode gst suspend_pause es m = (record m { status = prepared }, true)
unsuspend_mode gst suspend_reset es m =
    let (m', started) = start_preroll gst (record m { status = preparing }) in
    if started then wait_preroll gst es m' else (set_status error m', false)

pub unsuspend : Pipeline → List Event → Media → Media × Bool
unfolding unsuspend_mode
unsuspend gst es m =
    if is_status m.status suspended then unsuspend_mode gst m.suspend_mode es m else (m, true)

-- The state is not NULL.
pub set_running_state : Pipeline → GstState → Media → Media
unfolding set_target_state set_blocked set_element_state
set_running_state gst s m =
    let m1 = (set_target_state gst s false m).0 in
    if m1.buffering
    then m1
    else (let m2 = if is_state s playing then set_blocked false m1 else m1 in
        let m3 = (set_element_state gst s m2).0 in
        if is_state s paused then (suspend gst m3).0 else m3)

pub set_pipeline_state : Pipeline → GstState → Media → Media
set_pipeline_state gst null m = (unprepare gst m).0
set_pipeline_state gst s m = set_running_state gst s m
