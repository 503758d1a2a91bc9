-- ===== src/SessionPool/History.antt =====
-- Sequences of calls of gst/rtsp-server/rtsp-session-pool.c.
use gst_rtsp_server_wfd.Prelude.{
  ℕ, zero, suc, ◌≤◌, ◌≡◌, ◌⊎◌, inl, inr, List, [], ◌∷◌, Bool, false, Option, none, arith, length,
  Option-cases,
}
use gst_rtsp_server_wfd.Prelude.Int.{negsuc}
use gst_rtsp_server_wfd.Text.{Text}
use gst_rtsp_server_wfd.Session.{TimeVal, Session, FilterResult}
use gst_rtsp_server_wfd.SessionPool.{
  SessionPool, Created, created, no_function, no_session, collision, too_many_sessions, PoolMethods,
  lookup, is_full, create, find, touch_id, remove, remove_id, cleanup, cleanup_all, filter,
  filter_all, prepare, collect_timeouts, set_max_sessions,
}
use gst_rtsp_server_wfd.SessionPool.Keys.{
  keys, IsUnique, Kept, Kept-IsUnique, Kept-length, Kept-all, length-keys, lookup-has_key,
  keys-touch_id, remove_id-Kept, cleanup_all-Kept, filter_all-Kept, keys-collect_timeouts,
}
use gst_rtsp_server_wfd.SessionPool.Create.{create-Tries, Tries, IsFirstFree}

-- The ids are unique, and no more sessions are in the pool than its limit, if it has one.
pub record IsSound (p : SessionPool) : Type 0 where
  pub unique : IsUnique (keys p.sessions)
  pub within : (p.max_sessions ≡ 0) ⊎ (length p.sessions ≤ p.max_sessions)

Kept-length_sessions : (ss ls : List Session) → Kept (keys ss) (keys ls) → length ss ≤ length ls
Kept-length_sessions ss ls k = omega (arith, Kept-length k, length-keys ss, length-keys ls)

pub Kept-IsSound :
    (p : SessionPool) (ss : List Session)
    → Kept (keys ss) (keys p.sessions)
    → IsSound p
    → IsSound (record p { sessions = ss })
Kept-IsSound p ss k h = record {
  unique = Kept-IsUnique k h.unique;
  within = elim h.within [
    | inl z ↦ inl z
    | inr le ↦ inr (omega (arith, le, Kept-length_sessions ss p.sessions k))
  ];
}

pub same_keys-Kept : (ks ls : List Text) → ks ≡ ls → Kept ks ls
same_keys-Kept ks ls e = rw e (Kept-all ls)

pub find-IsSound :
    (clock : TimeVal) (id : Text) (p : SessionPool) → IsSound p → IsSound (find clock id p).0
unfolding find
find-IsSound clock id p h = elim (Option-cases (lookup id p.sessions)) [
  | inl e ↦ rw (find, e) h
  | inr (s, e) ↦
      rw (find, e)
        (Kept-IsSound p (touch_id clock id p.sessions)
          (same_keys-Kept (keys (touch_id clock id p.sessions)) (keys p.sessions)
            (keys-touch_id clock id p.sessions))
          h)
]

first_free_lookup :
    (p : SessionPool) (ids : ℕ → Option Text) (i left : ℕ) (id : Text)
    → IsFirstFree p ids i left id
    → lookup id p.sessions ≡ none
first_free_lookup p ids i zero id h = h.1
first_free_lookup p ids i (suc left) id (inl h) = h.1
first_free_lookup p ids i (suc left) id (inr h) = first_free_lookup p ids (suc i) left id h.1

room_left :
    (p : SessionPool)
    → is_full p ≡ false
    → (p.max_sessions ≡ 0) ⊎ (suc (length p.sessions) ≤ p.max_sessions)
unfolding is_full
room_left p h = ground (arith, h)

same-IsSound : (p p' : SessionPool) → p' ≡ p → IsSound p → IsSound p'
same-IsSound p p' e h = rw e h

Tries-IsSound :
    (clock : TimeVal) (f : Bool) (ids : ℕ → Option Text) (i left : ℕ) (p : SessionPool)
    (answer : SessionPool × Created)
    → Tries clock f ids i left p answer
    → IsSound p
    → IsSound answer.0
Tries-IsSound clock f ids i left p (p', created s) (e, n, r, first) h =
    same-IsSound (record p { sessions = s ∷ p.sessions }) p' e
      (record {
        unique = (
          lookup-has_key s.sessionid p.sessions (first_free_lookup p ids i left s.sessionid first),
          h.unique,
        );
        within = room_left p r;
      })
Tries-IsSound clock f ids i left p (p', no_function) t h = absurd t
Tries-IsSound clock f ids i left p (p', no_session) t h = same-IsSound p p' t.0 h
Tries-IsSound clock f ids i left p (p', collision) t h = same-IsSound p p' t.0 h
Tries-IsSound clock f ids i left p (p', too_many_sessions) t h = same-IsSound p p' t.0 h

pub create-IsSound :
    (clock : TimeVal) (k : PoolMethods) (p : SessionPool) → IsSound p → IsSound (create clock k p).0
unfolding create
create-IsSound clock k p h = elim (Option-cases k.create_session_id) [
  | inl e ↦ rw e h
  | inr (ids, e) ↦
      Tries-IsSound clock k.create_session ids 0 100 p (create clock k p)
        (create-Tries clock k ids p e) h
]

pub remove-IsSound : (s : Session) (p : SessionPool) → IsSound p → IsSound (remove s p).0
unfolding remove
remove-IsSound s p h =
    Kept-IsSound p (remove_id s.sessionid p.sessions).0 (remove_id-Kept s.sessionid p.sessions) h

pub data Call : Type 0 where
  creates : TimeVal → PoolMethods → Call
  finds : TimeVal → Text → Call
  removes : Session → Call
  cleans : TimeVal → TimeVal → Call
  filters : (Session → FilterResult) → Call
  prepares : TimeVal → Call
  limits : ℕ → Call

abbrev pub step : Call → SessionPool → SessionPool
step (creates clock k) p = (create clock k p).0
step (finds clock id) p = (find clock id p).0
step (removes s) p = (remove s p).0
step (cleans clock now) p = (cleanup clock now p).0
step (filters func) p = (filter func p).0
step (prepares clock) p = (prepare clock p).0
step (limits max) p = set_max_sessions max p

abbrev pub run : List Call → SessionPool → SessionPool
run [] p = p
run (c ∷ cs) p = run cs (step c p)

-- gst_rtsp_session_pool_set_max_sessions does not get a limit below the number of sessions.
abbrev pub LeavesRoom : Call → SessionPool → Type 0
LeavesRoom (limits max) p = (max ≡ 0) ⊎ (length p.sessions ≤ max)
LeavesRoom _ p = Unit {0}

-- Each call leaves room, in the pool as it is then.
abbrev pub AllLeaveRoom : List Call → SessionPool → Type 0
AllLeaveRoom [] p = Unit {0}
AllLeaveRoom (c ∷ cs) p = LeavesRoom c p × AllLeaveRoom cs (step c p)

step-IsSound : (c : Call) (p : SessionPool) → LeavesRoom c p → IsSound p → IsSound (step c p)
unfolding cleanup filter prepare set_max_sessions
step-IsSound (limits max) p room h = record { unique = h.unique; within = room }
step-IsSound (creates clock k) p room h = create-IsSound clock k p h
step-IsSound (finds clock id) p room h = find-IsSound clock id p h
step-IsSound (removes s) p room h = remove-IsSound s p h
step-IsSound (cleans clock now) p room h =
    Kept-IsSound p (cleanup_all clock now p.sessions).0 (cleanup_all-Kept clock now p.sessions) h
step-IsSound (filters func) p room h =
    Kept-IsSound p (filter_all func p.sessions []).0 (filter_all-Kept func p.sessions []) h
step-IsSound (prepares clock) p room h =
    let ss = (collect_timeouts clock (negsuc 0) p.sessions).0 in
    Kept-IsSound p ss
      (same_keys-Kept (keys ss) (keys p.sessions)
        (keys-collect_timeouts clock (negsuc 0) p.sessions))
      h

-- Over any sequence of create, with any ids, find, remove, cleanup, filter, set_max_sessions and the
-- preparation of the source that watches the pool, the sessions' ids stay unique, and there are
-- never more sessions than the limit, where the pool has one, provided that set_max_sessions never
-- gets a limit below the number of sessions at the time.
pub run-IsSound :
    (cs : List Call) (p : SessionPool) → AllLeaveRoom cs p → IsSound p → IsSound (run cs p)
run-IsSound [] p room h = h
run-IsSound (c ∷ cs) p room h = run-IsSound cs (step c p) room.1 (step-IsSound c p room.0 h)
