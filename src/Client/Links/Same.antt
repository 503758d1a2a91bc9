-- ===== src/Client/Links/Same.antt =====
-- The session in unlink_session_transports of gst/rtsp-server/rtsp-client.c.
use gst_rtsp_server_wfd.Prelude.{
  ℕ, suc, ◌≡◌, refl, ◌∙◌, inl, inr, List, [], ◌∷◌, Option, none, some, Bool-cases,
}
use gst_rtsp_server_wfd.Media.SetState.{StreamTransport}
use gst_rtsp_server_wfd.SessionMedia.{SessionMedia}
use gst_rtsp_server_wfd.Session.{Session, allow_expire}
use gst_rtsp_server_wfd.Client.State.{Link}
use gst_rtsp_server_wfd.Client.Links.{
  Linked, is_tcp, unlink_transport, for_each_tcp, unlink_session_transports,
}

pub record IsSame (s s' : Session) : Type 0 where
  pub id : s'.sessionid ≡ s.sessionid
  pub medias : s'.medias ≡ s.medias

IsSame-trans : {s t u : Session} → IsSame s t → IsSame t u → IsSame s u
IsSame-trans h g = record { id = g.id ∙ h.id; medias = g.medias ∙ h.medias }

one_unlink-IsSame : (l : Link) (state : Linked) → IsSame state.1 (unlink_transport l state).1
unfolding unlink_transport allow_expire
one_unlink-IsSame l (links, s) = record { id = refl; medias = refl }

unlink-IsSame :
    (owner i : ℕ) (ts : List (Option StreamTransport)) (state : Linked)
    → IsSame state.1 (for_each_tcp unlink_transport owner i ts state).1
unfolding for_each_tcp
unlink-IsSame owner i [] state = record { id = refl; medias = refl }
unlink-IsSame owner i (none ∷ ts) state = unlink-IsSame owner (suc i) ts state
unlink-IsSame owner i (some t ∷ ts) (links, s) = elim (Bool-cases (is_tcp t.lower_transport)) [
  | inl e ↦
      let l : Link = record { session = s.sessionid; owner = owner; stream = i } in
      let next = unlink_transport l (links, s) in
      rw (for_each_tcp, e)
        (IsSame-trans (one_unlink-IsSame l (links, s)) (unlink-IsSame owner (suc i) ts next))
  | inr e ↦ rw (for_each_tcp, e) (unlink-IsSame owner (suc i) ts (links, s))
]

pub unlink_session_transports-IsSame :
    (sm : SessionMedia) (state : Linked) → IsSame state.1 (unlink_session_transports sm state).1
unfolding unlink_session_transports
unlink_session_transports-IsSame sm state = unlink-IsSame sm.ptr 0 sm.transports state
