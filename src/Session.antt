-- ===== src/Session.antt =====
-- gst/rtsp-server/rtsp-session.c: a session, its media and its time of expiry; and
-- gst_rtsp_session_media_matches of gst/rtsp-server/rtsp-session-media.c.
--
-- g_get_current_time is an argument, `clock`.
pub mod Expiry
pub mod Medias
mod Tests
use gst_rtsp_server_wfd.Prelude.{
  ℕ, ◌+◌, ◌-◌, ◌*◌, ◌/◌, ◌%◌, List, [], ◌∷◌, Bool, true, false, not, ◌&&◌, ◌||◌, Option, none, some,
  length, ltb, ◌==◌, if◌then◌else◌, u32,
}
use gst_rtsp_server_wfd.Prelude.Int.{ℤ, pos, negsuc, increment, decrement, is_zero}
use gst_rtsp_server_wfd.SessionMedia.{SessionMedia, session_media_new}
use gst_rtsp_server_wfd.Text.{Text, has_prefix, char_at, strncmp_equal, slash}

pub record TimeVal : Type 0 where
  pub tv_sec : ℕ
  pub tv_usec : ℕ

pub record Session : Type 0 where
  pub sessionid : Text
  pub timeout : ℕ
  pub last_access : TimeVal
  pub expire_count : ℤ
  pub medias : List SessionMedia

abbrev u64 : ℕ → ℕ
u64 n = n % 18446744073709551616

-- The conversion to a gint of 32 bits.
abbrev pub gint : ℕ → ℤ
gint n = if ltb (u32 n) 2147483648 then pos (u32 n) else negsuc (4294967295 - u32 n)

pub timeval_to_time : TimeVal → ℕ
timeval_to_time t = u64 (t.tv_sec * 1000000000 + t.tv_usec * 1000)

-- gst_rtsp_session_new with the id.
unfoldable pub session_new : TimeVal → Text → Session
session_new clock id = record {
  sessionid = id;
  timeout = 60;
  last_access = clock;
  expire_count = pos 0;
  medias = [];
}

pub touch : TimeVal → Session → Session
touch clock s = record s { last_access = clock }

pub set_timeout : ℕ → Session → Session
set_timeout t s = record s { timeout = t }

unfoldable pub prevent_expire : Session → Session
prevent_expire s = record s { expire_count = increment s.expire_count }

unfoldable pub allow_expire : Session → Session
allow_expire s = record s { expire_count = decrement s.expire_count }

abbrev pub touch_held : TimeVal → Session → Session
touch_held clock s = if is_zero s.expire_count then s else record s { last_access = clock }

-- The time at which the session expires, in nanoseconds.
abbrev pub deadline : Session → ℕ
deadline s = u64 (timeval_to_time s.last_access + u64 (u64 (s.timeout * 1000000000) + 5000000000))

pub next_timeout : TimeVal → Session → TimeVal → Session × ℤ
unfolding timeval_to_time
next_timeout clock s now =
    let s' = touch_held clock s in
    if ltb (timeval_to_time now) (deadline s')
    then (s', gint ((deadline s' - timeval_to_time now) / 1000000))
    else (s', pos 0)

pub is_expired : TimeVal → Session → TimeVal → Session × Bool
unfolding next_timeout
is_expired clock s now = let (s', res) = next_timeout clock s now in (s', is_zero res)

-- The answer of the filter's callback.
pub data FilterResult : Type 0 where
  filter_remove filter_keep filter_ref : FilterResult

-- gst_rtsp_session_manage_media, for a media with n_streams streams, whose status was PREPARED or
-- SUSPENDED, or it is refused.
pub manage_media : ℕ → Text → ℕ → ℕ → Bool → Session → Session × Option SessionMedia
manage_media ptr path media n_streams usable s =
    elim (session_media_new ptr path media n_streams usable) [
      | none ↦ (s, none)
      | some result ↦ (record s { medias = result ∷ s.medias }, some result)
    ]

delete_ptr : ℕ → List SessionMedia → List SessionMedia
delete_ptr ptr [] = []
delete_ptr ptr (m ∷ ms) = let rest = delete_ptr ptr ms in if m.ptr == ptr then ms else m ∷ rest

abbrev has_more : List SessionMedia → Bool
has_more [] = false
has_more (m ∷ ms) = true

pub release_media : SessionMedia → Session → Session × Bool
unfolding delete_ptr
release_media media s =
    let rest = delete_ptr media.ptr s.medias in (record s { medias = rest }, has_more rest)

-- gst_rtsp_session_media_matches: the answer, and what *matched holds afterwards.
pub matches : SessionMedia → Text → ℕ → Bool × ℕ
matches m path matched =
    if ltb (length path) (length m.path)
    then (false, matched)
    else if ltb (length m.path) (length path) && not (char_at path (length m.path) == slash)
    then (false, matched)
    else (strncmp_equal path m.path (length m.path), length m.path)

-- The loop of gst_rtsp_session_get_media, with its variables.
find_media : Text → List SessionMedia → Option SessionMedia → ℕ → ℕ → Option SessionMedia × ℕ
unfolding matches
find_media path [] result best matched = (result, best)
find_media path (m ∷ ms) result best matched =
    let (found, matched') = matches m path matched in
    let better = found && ltb best matched' in
    find_media path ms (if better then some m else result) (if better then matched' else best)
      matched'

-- What gst_rtsp_session_get_media returns, and what it leaves in *matched.
pub get_media : Session → Text → ℕ → Option SessionMedia × ℕ
unfolding find_media
get_media s path matched = find_media path s.medias none 0 matched

abbrev filter_medias :
    (SessionMedia → FilterResult)
    → List SessionMedia
    → List SessionMedia
    → List SessionMedia × List SessionMedia
filter_medias func [] result = ([], result)
filter_medias func (m ∷ ms) result = elim (func m) [
  | filter_remove ↦ filter_medias func ms result
  | filter_keep ↦ (let (kept, refs) = filter_medias func ms result in (m ∷ kept, refs))
  | filter_ref ↦ (let (kept, refs) = filter_medias func ms (m ∷ result) in (m ∷ kept, refs))
]

-- gst_rtsp_session_filter, with a callback.
pub filter : (SessionMedia → FilterResult) → Session → Session × List SessionMedia
filter func s =
    let (kept, refs) = filter_medias func s.medias [] in (record s { medias = kept }, refs)
