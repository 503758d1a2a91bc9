-- ===== src/Media/Events.antt =====
-- What the media's context does meanwhile: the bus messages, start_prepare and the wait for
-- preroll of gst/rtsp-server/rtsp-media.c.
use gst_rtsp_server_wfd.Prelude.{◌≡◌, refl, ◌⊎◌, inl, inr, List, [], ◌∷◌, false, arith}
use gst_rtsp_server_wfd.Media.{
  Media, Pipeline, Event, idle_start, bus, buffering_percent, error_message, stream_blocking,
  async_done, eos, other, Status, unprepared, unpreparing, preparing, prepared, suspended, error,
  is_status, finish_unprepare, handle_message, handle_event, start_prepare, start_preroll,
  get_status,
}

-- What an event of the media's context leaves alone, whatever the status.
pub record SameUsers (m m' : Media) : Type 0 where
  pub same_count : m'.prepare_count ≡ m.prepare_count
  pub same_active : m'.n_active ≡ m.n_active

finish_unprepare-SameUsers : (gst : Pipeline) (m : Media) → SameUsers m (finish_unprepare gst m)
unfolding finish_unprepare
finish_unprepare-SameUsers gst m = ground arith

pub start_preroll-SameUsers : (gst : Pipeline) (m : Media) → SameUsers m (start_preroll gst m).0
unfolding start_preroll
start_preroll-SameUsers gst m = ground arith

start_prepare-SameUsers : (gst : Pipeline) (m : Media) → SameUsers m (start_prepare gst m)
unfolding start_prepare start_preroll
start_prepare-SameUsers gst m = ground arith

pub handle_event-SameUsers :
    (gst : Pipeline) (e : Event) (m : Media) → SameUsers m (handle_event gst e m)
unfolding handle_event handle_message
handle_event-SameUsers gst idle_start m = start_prepare-SameUsers gst m
handle_event-SameUsers gst (bus (buffering_percent n)) m = ground arith
handle_event-SameUsers gst (bus error_message) m = ground arith
handle_event-SameUsers gst (bus (stream_blocking all)) m = ground arith
handle_event-SameUsers gst (bus async_done) m = ground arith
handle_event-SameUsers gst (bus eos) m = ground (arith, finish_unprepare-SameUsers gst m)
handle_event-SameUsers gst (bus other) m = ground arith

-- PREPARING ends in PREPARED or ERROR only.
abbrev pub IsSettling : Status → Type 0
IsSettling preparing = Unit {0}
IsSettling prepared = Unit {0}
IsSettling error = Unit {0}
IsSettling _ = ⊥

handle_event-IsSettling :
    (gst : Pipeline) (e : Event) (m : Media)
    → m.status ≡ preparing
    → IsSettling (handle_event gst e m).status
unfolding handle_event handle_message start_prepare start_preroll
handle_event-IsSettling gst idle_start m h = ground arith
handle_event-IsSettling gst (bus (buffering_percent n)) m h = ground arith
handle_event-IsSettling gst (bus error_message) m h = tt
handle_event-IsSettling gst (bus (stream_blocking all)) m h = ground arith
handle_event-IsSettling gst (bus async_done) m h = ground arith
handle_event-IsSettling gst (bus eos) m h = ground arith
handle_event-IsSettling gst (bus other) m h = ground arith

is_preparing : (s : Status) → (s ≡ preparing) ⊎ (is_status s preparing ≡ false)
is_preparing preparing = inl refl
is_preparing unprepared = inr refl
is_preparing unpreparing = inr refl
is_preparing prepared = inr refl
is_preparing suspended = inr refl
is_preparing error = inr refl

pub get_status-SameUsers :
    (gst : Pipeline) (es : List Event) (m : Media) → SameUsers m (get_status gst es m)
unfolding get_status
get_status-SameUsers gst [] m = ground arith
get_status-SameUsers gst (e ∷ es) m =
    let now = handle_event-SameUsers gst e m in
    let later = get_status-SameUsers gst es (handle_event gst e m) in ground (arith, now, later)

-- The wait ends by itself where the media is not PREPARING.
pub get_status_settled :
    (gst : Pipeline) (es : List Event) (m : Media)
    → is_status m.status preparing ≡ false
    → get_status gst es m ≡ m
unfolding get_status
get_status_settled gst [] m h = rw h
get_status_settled gst (e ∷ es) m h = rw h

abbrev pub IsDone : Status → Type 0
IsDone s = (s ≡ prepared) ⊎ (s ≡ error)

settled-IsDone : (s : Status) → IsSettling s → is_status s preparing ≡ false → IsDone s
settled-IsDone preparing h k = absurd (cc k)
settled-IsDone prepared h k = inl refl
settled-IsDone error h k = inr refl
settled-IsDone unprepared h k = absurd h
settled-IsDone unpreparing h k = absurd h
settled-IsDone suspended h k = absurd h

-- From PREPARING, the wait ends with PREPARED or ERROR, whatever messages come, and also if none
-- does.
pub get_status-IsDone :
    (gst : Pipeline) (es : List Event) (m : Media)
    → m.status ≡ preparing
    → IsDone (get_status gst es m).status
unfolding get_status
get_status-IsDone gst [] m h = ground arith
get_status-IsDone gst (e ∷ es) m h =
    let m' = handle_event gst e m in
    let next : IsDone (get_status gst es m').status = elim (is_preparing m'.status) [
      | inl k ↦ get_status-IsDone gst es m' k
      | inr k ↦
          rw (get_status_settled gst es m' k)
            (settled-IsDone m'.status (handle_event-IsSettling gst e m h) k)
    ] in
    ground (arith, next)
