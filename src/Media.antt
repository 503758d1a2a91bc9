-- ===== src/Media.antt =====
-- gst/rtsp-server/rtsp-media.c: the life of a media, from prepare to unprepare, and the RTSP state
-- changes of its transports.
--
-- A GstRTSPMedia is a record. The state lock makes each function atomic up to the wait in
-- gst_rtsp_media_get_status; what the media's own context does meanwhile is a list of events, and
-- the end of the list is the timeout. gst_element_set_state is a parameter: its answer depends on
-- all that was done before. What the media does to the world is its log of effects, newest first.
-- The streams count as joined or not all at once; streams that come and go with pads, the clock,
-- the time provider and the statistics are left out.
pub mod Calls
pub mod SetState
pub mod Events
mod Tests
use gst_rtsp_server_wfd.Prelude.{
  ℕ, List, [], ◌∷◌, Bool, true, false, not, ◌&&◌, Option, none, some, ◌==◌, if◌then◌else◌,
}
use gst_rtsp_server_wfd.Prelude.Int.{ℤ, pos, increment, decrement, is_positive, is_zero}

pub data Status : Type 0 where
  unprepared unpreparing preparing prepared suspended error : Status

pub data GstState : Type 0 where
  null ready paused playing : GstState

pub data StateChange : Type 0 where
  success async no_preroll failure : StateChange

pub data SuspendMode : Type 0 where
  suspend_none suspend_pause suspend_reset : SuspendMode

pub data Effect : Type 0 where
  element_state : GstState → Effect
  target_signal : GstState → Effect
  new_state_signal : GstState → Effect
  prepared_signal unprepared_signal stop_thread send_eos : Effect

pub record Media : Type 0 where
  pub status : Status
  pub target_state : GstState
  pub suspend_mode : SuspendMode
  pub reusable : Bool
  pub reused : Bool
  pub eos_shutdown : Bool
  pub is_live : Bool
  pub seekable : Bool
  pub buffering : Bool
  pub blocked : Bool
  pub adding : Bool
  pub dynamic : Bool
  pub fakesink : Bool
  pub joined : Bool
  pub rtpbin : Bool
  pub thread : Bool
  pub prepare_count : ℤ
  pub n_active : ℤ
  pub effects : List Effect

-- gst_element_set_state on the pipeline.
abbrev pub Pipeline : Type 0
Pipeline = List Effect → GstState → StateChange

abbrev pub is_status : Status → Status → Bool
is_status unprepared unprepared = true
is_status unpreparing unpreparing = true
is_status preparing preparing = true
is_status prepared prepared = true
is_status suspended suspended = true
is_status error error = true
is_status _ _ = false

abbrev pub is_state : GstState → GstState → Bool
is_state null null = true
is_state ready ready = true
is_state paused paused = true
is_state playing playing = true
is_state _ _ = false

abbrev pub is_failure : StateChange → Bool
is_failure failure = true
is_failure _ = false

emit : Effect → Media → Media
emit e m = record m { effects = e ∷ m.effects }

pub set_status : Status → Media → Media
set_status s m = record m { status = s }

pub set_element_state : Pipeline → GstState → Media → Media × StateChange
unfolding emit
set_element_state gst s m = (emit (element_state s) m, gst m.effects s)

pub set_target_state : Pipeline → GstState → Bool → Media → Media × StateChange
unfolding set_element_state emit
set_target_state gst s do_state m =
    let m' = emit (target_signal s) (record m { target_state = s }) in
    if do_state then set_element_state gst s m' else (m', success)

pub set_blocked : Bool → Media → Media
set_blocked b m = record m { blocked = b }

pub data Message : Type 0 where
  buffering_percent : ℕ → Message
  error_message : Message
  -- GstRTSPStreamBlocking, and whether every stream blocks by now.
  stream_blocking : Bool → Message
  async_done eos other : Message

pub finish_unprepare : Pipeline → Media → Media
unfolding set_element_state emit
finish_unprepare gst m =
    let m1 = (set_element_state gst null m).0 in
    let m2 = emit unprepared_signal (record m1 {
      fakesink = false;
      joined = false;
      rtpbin = false;
      reused = true;
      status = unprepared;
    }) in
    if m2.thread then emit stop_thread m2 else m2

buffering_done : Pipeline → Media → Media
unfolding set_element_state
buffering_done gst m =
    if is_state m.target_state playing then (set_element_state gst playing m).0 else m

buffering_busy : Pipeline → Media → Media
unfolding set_element_state
buffering_busy gst m =
    if not m.buffering && is_state m.target_state playing
    then record ((set_element_state gst paused m).0) { buffering = true }
    else record m { buffering = true }

-- The case for buffering messages; a live pipeline needs no state management.
buffer_message : Pipeline → ℕ → Media → Media
unfolding buffering_done buffering_busy
buffer_message gst percent m =
    if m.is_live
    then m
    else if percent == 100
    then buffering_done gst (record m { buffering = false })
    else buffering_busy gst m

-- Both messages that say that the pipeline is prerolled end in this.
prerolled : Media → Media
unfolding set_status
prerolled m = if is_status m.status preparing then set_status prepared m else m

pub handle_message : Pipeline → Message → Media → Media
unfolding buffer_message set_status prerolled
handle_message gst (buffering_percent n) m = buffer_message gst n m
handle_message gst error_message m = set_status error m
handle_message gst (stream_blocking all) m = if m.blocked && all then prerolled m else m
handle_message gst async_done m = if m.adding then m else prerolled m
handle_message gst eos m = if is_status m.status unpreparing then finish_unprepare gst m else m
handle_message gst other m = m

-- The live case of start_preroll.
preroll_live : Pipeline → Media → Media × Bool
unfolding set_element_state set_blocked
preroll_live gst m =
    let m' = set_blocked true (record m { seekable = false; is_live = true }) in
    let (m'', ret) = set_element_state gst playing m' in (m'', not (is_failure ret))

preroll_answer : Pipeline → Media → StateChange → Media × Bool
unfolding preroll_live
preroll_answer gst m success = (record m { seekable = true }, true)
preroll_answer gst m async = (record m { seekable = true }, true)
preroll_answer gst m no_preroll = preroll_live gst m
preroll_answer gst m failure = (m, false)

pub start_preroll : Pipeline → Media → Media × Bool
unfolding set_target_state preroll_answer
start_preroll gst m =
    let (m', ret) = set_target_state gst paused true m in preroll_answer gst m' ret

-- The idle callback, on the media's own thread.
pub start_prepare : Pipeline → Media → Media
unfolding set_status
start_prepare gst m =
    let (m', done) =
      start_preroll gst
        (record m { joined = true; fakesink = if m.dynamic then true else m.fakesink }) in
    if done then m' else set_status error m'

pub data Event : Type 0 where
  idle_start : Event
  bus : Message → Event

pub handle_event : Pipeline → Event → Media → Media
handle_event gst idle_start m = start_prepare gst m
handle_event gst (bus msg) m = handle_message gst msg m

-- The wait of gst_rtsp_media_get_status: at most until the events run out, which is the timeout.
pub get_status : Pipeline → List Event → Media → Media
unfolding set_status
get_status gst [] m = if is_status m.status preparing then set_status error m else m
get_status gst (e ∷ es) m =
    let rest = get_status gst es (handle_event gst e m) in
    if is_status m.status preparing then rest else m

pub wait_preroll : Pipeline → List Event → Media → Media × Bool
wait_preroll gst es m = let m' = get_status gst es m in (m', not (is_status m'.status error))
