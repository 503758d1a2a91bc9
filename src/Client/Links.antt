-- ===== src/Client/Links.antt =====
-- The links between the TCP transports of a session media and its client, in
-- gst/rtsp-server/rtsp-client.c.
--
-- The streams of the media are those of the array of transports, which is as long.
pub mod Balance
pub mod Same
use gst_rtsp_server_wfd.Prelude.{
  ℕ, suc, List, [], ◌∷◌, Bool, true, false, ◌&&◌, Option, none, some, ◌==◌, if◌then◌else◌,
}
use gst_rtsp_server_wfd.Text.{Text, equal_texts}
use gst_rtsp_server_wfd.Media.SetState.{Lower, udp, udp_mcast, tcp, unknown, StreamTransport}
use gst_rtsp_server_wfd.SessionMedia.{SessionMedia}
use gst_rtsp_server_wfd.Session.{Session, prevent_expire, allow_expire}
use gst_rtsp_server_wfd.Client.State.{Link, World}

abbrev pub is_tcp : Lower → Bool
is_tcp tcp = true
is_tcp _ = false

abbrev pub same_link : Link → Link → Bool
same_link a b = equal_texts a.session b.session && (a.owner == b.owner && a.stream == b.stream)

-- g_list_remove
unfoldable pub remove_link : Link → List Link → List Link
remove_link l [] = []
remove_link l (x ∷ xs) = let rest = remove_link l xs in if same_link x l then xs else x ∷ rest

-- What both change: the client's transports and the session.
abbrev pub Linked : Type 0
Linked = List Link × Session

pub link_transport : Link → Linked → Linked
unfolding prevent_expire
link_transport l (links, s) = (l ∷ links, prevent_expire s)

pub unlink_transport : Link → Linked → Linked
unfolding remove_link allow_expire
unlink_transport l (links, s) = (remove_link l links, allow_expire s)

-- The loop of link_session_transports and of unlink_session_transports, from stream i on.
pub for_each_tcp :
    (Link → Linked → Linked) → ℕ → ℕ → List (Option StreamTransport) → Linked → Linked
for_each_tcp change owner i [] state = state
for_each_tcp change owner i (none ∷ ts) state = for_each_tcp change owner (suc i) ts state
for_each_tcp change owner i (some t ∷ ts) (links, s) =
    let l : Link = record { session = s.sessionid; owner = owner; stream = i } in
    for_each_tcp change owner (suc i) ts
      (if is_tcp t.lower_transport then change l (links, s) else (links, s))

pub link_session_transports : SessionMedia → Linked → Linked
unfolding for_each_tcp link_transport
link_session_transports sm state = for_each_tcp link_transport sm.ptr 0 sm.transports state

pub unlink_session_transports : SessionMedia → Linked → Linked
unfolding for_each_tcp unlink_transport
unlink_session_transports sm state = for_each_tcp unlink_transport sm.ptr 0 sm.transports state
