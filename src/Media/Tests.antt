-- ===== src/Media/Tests.antt =====
-- The theorems on gst/rtsp-server/rtsp-media.c at concrete inputs, and runs of a media.
use gst_rtsp_server_wfd.Prelude.{
  ◌-◌, ◌≤◌, ◌<◌, ◌≡◌, refl, ◌⊎◌, List, [], ◌∷◌, true, false, some, none, Option,
}
use gst_rtsp_server_wfd.Prelude.Int.{pos, add_ℕ}
use gst_rtsp_server_wfd.Media.{
  Media, Pipeline, Event, idle_start, bus, async_done, buffering_percent, async, unprepared,
  prepared, null, playing, paused, suspend_reset, get_status, preparing, start_prepare,
  start_preroll, wait_preroll, handle_event, handle_message,
}
use gst_rtsp_server_wfd.Media.Events.{IsDone, get_status-IsDone}
use gst_rtsp_server_wfd.Media.Calls.{RtpbinMethods, prepare, unprepare, suspend, unsuspend}
use gst_rtsp_server_wfd.Media.Calls.Balance.{Balanced, prepare-Balanced}
use gst_rtsp_server_wfd.Media.Calls.Unprepare.{
  IsShutDown, unprepare_times, unprepare_times_lem, unprepare-prepare,
}
use gst_rtsp_server_wfd.Media.Calls.Suspend.{Resumed, suspend-unsuspend}
use gst_rtsp_server_wfd.Media.SetState.{StreamTransport, udp, tcp, set_state}
use gst_rtsp_server_wfd.Media.SetState.Activity.{active_count, set_state_count}

abbrev answer_async : Pipeline
answer_async = λ done state. async

abbrev fresh : Media
fresh = record {
  status = unprepared;
  target_state = null;
  suspend_mode = suspend_reset;
  reusable = false;
  reused = false;
  eos_shutdown = false;
  is_live = false;
  seekable = false;
  buffering = false;
  blocked = false;
  adding = false;
  dynamic = false;
  fakesink = false;
  joined = false;
  rtpbin = false;
  thread = false;
  prepare_count = pos 0;
  n_active = pos 0;
  effects = [];
}

abbrev methods : RtpbinMethods
methods = record { create_rtpbin = some true; setup_rtpbin = true }

abbrev prerolls : List Event
prerolls = idle_start ∷ bus (buffering_percent 10) ∷ bus async_done ∷ []

abbrev starting : Media
starting = record fresh { status = preparing; prepare_count = pos 1; rtpbin = true }

-- Two clients share it.
abbrev shared : Media
shared = record fresh {
  status = prepared;
  target_state = paused;
  joined = true;
  rtpbin = true;
  prepare_count = pos 2;
}

abbrev single : Media
single = record shared { prepare_count = pos 1 }

abbrev transports : List (Option StreamTransport)
transports =
    some (record { lower_transport = udp; active = false; channel_min = 0; channel_max = 1 })
    ∷ none
    ∷ some (record { lower_transport = tcp; active = true; channel_min = 2; channel_max = 3 })
    ∷ []

prepared_status : (prepare answer_async methods prerolls fresh).0.status ≡ prepared
unfolding prepare wait_preroll get_status handle_event handle_message start_prepare start_preroll
prepared_status = refl

prepare-Balanced_example : Balanced fresh (prepare answer_async methods prerolls fresh)
prepare-Balanced_example = prepare-Balanced answer_async methods prerolls fresh

get_status-IsDone_example : IsDone (get_status answer_async prerolls starting).status
get_status-IsDone_example = get_status-IsDone answer_async prerolls starting refl

unprepare_times_lem_example :
    (1 ≤ 1
      × (unprepare_times answer_async 1 shared ≡ record shared { prepare_count = pos (2 - 1) }))
    ⊎ (1 < 1 × IsShutDown (unprepare_times answer_async 1 shared))
unprepare_times_lem_example = unprepare_times_lem answer_async 1 1 shared refl refl refl

unprepare-prepare_example :
    prepare answer_async methods prerolls (unprepare answer_async single).0
    ≡ ((unprepare answer_async single).0, false)
unprepare-prepare_example =
    unprepare-prepare answer_async answer_async methods prerolls single refl refl refl refl

suspend-true : (suspend answer_async single).1 ≡ true
unfolding suspend
suspend-true = refl

suspend-unsuspend_example :
    Resumed (unsuspend answer_async prerolls (suspend answer_async single).0)
suspend-unsuspend_example =
    suspend-unsuspend answer_async answer_async prerolls single refl refl suspend-true

set_state_count_example :
    add_ℕ (set_state answer_async playing transports shared).0.n_active (active_count transports)
    ≡ add_ℕ shared.n_active (active_count (set_state answer_async playing transports shared).1)
set_state_count_example = set_state_count answer_async playing transports shared refl
