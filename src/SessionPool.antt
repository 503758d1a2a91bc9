-- ===== src/SessionPool.antt =====
-- gst/rtsp-server/rtsp-session-pool.c: the sessions of a server by their ids.
--
-- The hash table is a list of sessions, keyed by their own ids, in the order in which foreach goes
-- through it; each function runs under the pool's lock, and the pool does not change between the
-- tries of gst_rtsp_session_pool_create. The random ids are an argument, and so is the clock.
pub mod Create
pub mod Keys
pub mod History
pub mod Cleanup
pub mod Lookup
mod Tests
use gst_rtsp_server_wfd.Prelude.{
  ℕ, zero, suc, ◌+◌, List, [], ◌∷◌, Bool, true, false, not, ◌&&◌, ◌||◌, Option, none, some, length,
  ltb, leb, ◌==◌, if◌then◌else◌,
}
use gst_rtsp_server_wfd.Prelude.Int.{ℤ, pos, negsuc}
use gst_rtsp_server_wfd.Text.{Text, equal_texts}
use gst_rtsp_server_wfd.Session.{
  TimeVal, Session, session_new, touch, next_timeout, is_expired, FilterResult, filter_remove,
  filter_keep, filter_ref,
}

pub record SessionPool : Type 0 where
  pub max_sessions : ℕ
  pub sessions : List Session

pub new : SessionPool
new = record { max_sessions = 0; sessions = [] }

pub set_max_sessions : ℕ → SessionPool → SessionPool
set_max_sessions max p = record p { max_sessions = max }

pub get_n_sessions : SessionPool → ℕ
get_n_sessions p = length p.sessions

-- g_hash_table_lookup
pub lookup : Text → List Session → Option Session
lookup id [] = none
lookup id (s ∷ ss) = let rest = lookup id ss in if equal_texts s.sessionid id then some s else rest

-- The session of an id in the table, changed in place.
pub touch_id : TimeVal → Text → List Session → List Session
touch_id clock id [] = []
touch_id clock id (s ∷ ss) =
    let rest = touch_id clock id ss in
    if equal_texts s.sessionid id then touch clock s ∷ ss else s ∷ rest

pub find : TimeVal → Text → SessionPool → SessionPool × Option Session
unfolding lookup touch_id
find clock id p = elim (lookup id p.sessions) [
  | none ↦ (p, none)
  | some s ↦ (record p { sessions = touch_id clock id p.sessions }, some (touch clock s))
]

-- What gst_rtsp_session_pool_create returns: a session, or NULL at one of its labels.
pub data Created : Type 0 where
  created : Session → Created
  no_function no_session collision too_many_sessions : Created

-- The pool's class: the n-th answer of create_session_id, if there is such a function, and whether
-- there is a create_session. Its own create_session is never called, but the file's.
pub record PoolMethods : Type 0 where
  pub create_session_id : Option (ℕ → Option Text)
  pub create_session : Bool

pub is_full : SessionPool → Bool
is_full p = ltb 0 p.max_sessions && leb p.max_sessions (length p.sessions)

-- The branch for an id that is not in the table.
insert_new : TimeVal → Bool → Text → SessionPool → SessionPool × Created
insert_new clock has_function id p =
    if has_function
    then (let s = session_new clock id in (record p { sessions = s ∷ p.sessions }, created s))
    else (p, too_many_sessions)

-- One turn of the loop, with the answer of create_session_id; `again` is what comes after a
-- collision.
try_id : TimeVal → Bool → SessionPool → SessionPool × Created → Option Text → SessionPool × Created
unfolding is_full insert_new lookup
try_id clock has_function p again none = (p, no_session)
try_id clock has_function p again (some id) =
    if is_full p
    then (p, too_many_sessions)
    else elim (lookup id p.sessions) [ none ↦ insert_new clock has_function id p | some s ↦ again ]

-- The loop, for `left` more tries after this one: `retry` is 100 less that.
create_loop : TimeVal → Bool → (ℕ → Option Text) → ℕ → ℕ → SessionPool → SessionPool × Created
unfolding try_id
create_loop clock has_function ids i zero p = try_id clock has_function p (p, collision) (ids i)
create_loop clock has_function ids i (suc left) p =
    try_id clock has_function p (create_loop clock has_function ids (suc i) left p) (ids i)

pub create : TimeVal → PoolMethods → SessionPool → SessionPool × Created
unfolding create_loop
create clock k p = elim k.create_session_id [
  | none ↦ (p, no_function)
  | some ids ↦ create_loop clock k.create_session ids 0 100 p
]

-- g_hash_table_remove
pub remove_id : Text → List Session → List Session × Bool
remove_id id [] = ([], false)
remove_id id (s ∷ ss) =
    let (rest, found) = remove_id id ss in
    if equal_texts s.sessionid id then (ss, true) else (s ∷ rest, found)

pub remove : Session → SessionPool → SessionPool × Bool
unfolding remove_id
remove s p =
    let (rest, found) = remove_id s.sessionid p.sessions in (record p { sessions = rest }, found)

-- g_hash_table_foreach_remove with cleanup_func; the sessions that stay may have been touched.
pub cleanup_all : TimeVal → TimeVal → List Session → List Session × ℕ
cleanup_all clock now [] = ([], 0)
cleanup_all clock now (s ∷ ss) =
    let (s', expired) = is_expired clock s now in
    let (rest, n) = cleanup_all clock now ss in if expired then (rest, suc n) else (s' ∷ rest, n)

-- Every session's own call of g_get_current_time gives `clock`.
pub cleanup : TimeVal → TimeVal → SessionPool → SessionPool × ℕ
unfolding cleanup_all
cleanup clock now p =
    let (rest, n) = cleanup_all clock now p.sessions in (record p { sessions = rest }, n)

-- filter_func, and g_hash_table_foreach_remove with it.
pub filter_all :
    (Session → FilterResult) → List Session → List Session → List Session × List Session
filter_all func [] list = ([], list)
filter_all func (s ∷ ss) list =
    let removed = filter_all func ss list in
    let referred = filter_all func ss (s ∷ list) in
    elim (func s) [
      | filter_remove ↦ removed
      | filter_keep ↦ (s ∷ removed.0, removed.1)
      | filter_ref ↦ (s ∷ referred.0, referred.1)
    ]

pub filter : (Session → FilterResult) → SessionPool → SessionPool × List Session
unfolding filter_all
filter func p =
    let (kept, list) = filter_all func p.sessions [] in (record p { sessions = kept }, list)

abbrev below : ℤ → ℤ → Bool
below (pos a) (pos b) = ltb a b
below (pos a) (negsuc b) = false
below (negsuc a) (pos b) = true
below (negsuc a) (negsuc b) = ltb b a

abbrev is_minus_one : ℤ → Bool
is_minus_one (negsuc zero) = true
is_minus_one _ = false

-- g_hash_table_foreach with collect_timeout, which reads the clock for each session.
pub collect_timeouts : TimeVal → ℤ → List Session → List Session × ℤ
collect_timeouts clock least [] = ([], least)
collect_timeouts clock least (s ∷ ss) =
    let (s', timeout) = next_timeout clock s clock in
    let least' = if is_minus_one least || below timeout least then timeout else least in
    let (rest, end) = collect_timeouts clock least' ss in (s' ∷ rest, end)

abbrev is_null : ℤ → Bool
is_null (pos zero) = true
is_null _ = false

-- gst_pool_source_prepare: the timeout, and whether the source is ready.
pub prepare : TimeVal → SessionPool → SessionPool × ℤ × Bool
unfolding collect_timeouts
prepare clock p =
    let (rest, timeout) = collect_timeouts clock (negsuc 0) p.sessions in
    (record p { sessions = rest }, timeout, is_null timeout)
