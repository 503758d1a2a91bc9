-- ===== src/SessionPool/Lookup.antt =====
-- gst_rtsp_session_pool_find after gst_rtsp_session_pool_remove and _create, of
-- gst/rtsp-server/rtsp-session-pool.c.
use gst_rtsp_server_wfd.Prelude.{
  ◌≡◌, refl, sym, ◌∙◌, ap, inl, inr, List, [], ◌∷◌, false, Option, none, some, if◌then◌else◌,
  Bool-cases, Option-cases, arith,
}
use gst_rtsp_server_wfd.Text.{Text, equal_texts, equal_texts_eq}
use gst_rtsp_server_wfd.Session.{TimeVal, Session, touch}
use gst_rtsp_server_wfd.SessionPool.{SessionPool, lookup, find, remove, remove_id}
use gst_rtsp_server_wfd.SessionPool.Keys.{keys, has_key, IsUnique}
use gst_rtsp_server_wfd.SessionPool.History.{IsSound}

has_key-lookup :
    (id : Text) (ss : List Session) → has_key id (keys ss) ≡ false → lookup id ss ≡ none
unfolding lookup
has_key-lookup id [] h = refl
has_key-lookup id (s ∷ ss) h = ground (arith, h, has_key-lookup id ss)

remove_id_other :
    (id k : Text) (ss : List Session)
    → equal_texts id k ≡ false
    → lookup k (remove_id id ss).0 ≡ lookup k ss
unfolding remove_id lookup
remove_id_other id k [] h = refl
remove_id_other id k (s ∷ ss) h = elim (Bool-cases (equal_texts s.sessionid id)) [
  | inl e ↦
      let apart : equal_texts s.sessionid k ≡ false =
        ap (λ i. equal_texts i k) (equal_texts_eq s.sessionid id e) ∙ h in
      rw (e, remove_id, apart) refl
  | inr e ↦
      rw (e, remove_id)
        (ap (λ r. if equal_texts s.sessionid k then some s else r) (remove_id_other id k ss h))
]

remove_id_gone :
    (id : Text) (ss : List Session) → IsUnique (keys ss) → lookup id (remove_id id ss).0 ≡ none
unfolding remove_id lookup
remove_id_gone id [] u = refl
remove_id_gone id (s ∷ ss) u = elim (Bool-cases (equal_texts s.sessionid id)) [
  | inl e ↦
      let same = equal_texts_eq s.sessionid id e in
      rw (e, remove_id) (has_key-lookup id ss (ap (λ i. has_key i (keys ss)) (sym same) ∙ u.0))
  | inr e ↦ rw (e, remove_id, e) (remove_id_gone id ss u.1)
]

-- The answer of gst_rtsp_session_pool_find.
abbrev touched : TimeVal → Option Session → Option Session
touched clock none = none
touched clock (some s) = some (touch clock s)

find_lookup :
    (clock : TimeVal) (id : Text) (p : SessionPool)
    → (find clock id p).1 ≡ touched clock (lookup id p.sessions)
unfolding find
find_lookup clock id p = elim (Option-cases (lookup id p.sessions)) [
  | inl e ↦ rw (find, e) refl
  | inr (s, e) ↦ rw (find, e) refl
]

-- In a pool with unique ids, gst_rtsp_session_pool_find after gst_rtsp_session_pool_remove of a
-- session finds none under its id, and under every other id what it would have found before.
pub find-remove :
    (clock : TimeVal) (s : Session) (id : Text) (p : SessionPool)
    → IsSound p
    → (find clock id (remove s p).0).1
      ≡ (if equal_texts s.sessionid id then none else (find clock id p).1)
unfolding remove
find-remove clock s id p h =
    find_lookup clock id (remove s p).0 ∙ elim (Bool-cases (equal_texts s.sessionid id)) [
      | inl e ↦
          let same = equal_texts_eq s.sessionid id e in
          rw e (
            ap (λ i. touched clock (lookup i (remove_id s.sessionid p.sessions).0)) (sym same)
            ∙ ap (touched clock) (remove_id_gone s.sessionid p.sessions h.unique))
      | inr e ↦ rw e (
          ap (touched clock) (remove_id_other s.sessionid id p.sessions e)
          ∙ sym (find_lookup clock id p))
    ]
