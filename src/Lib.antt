-- ===== src/Lib.antt =====
-- The RTSP server library of this repository (gst/rtsp-server), its core modelled and proved.
--
-- The program. A server takes connections of clients; a client's requests name a path, for which
-- the mount points give a media factory and the factory a media. A media is a GStreamer pipeline
-- with streams, prepared for its first user and shut down after its last. What a client has set up
-- is a session in the session pool: it manages media under their paths, each with a transport per
-- stream, and it expires if the client is silent for too long. Streams take the addresses and
-- ports of their multicast and server transports from an address pool.
--
-- The parts, by file.
--   Bytes, AddressPool and its children: gst/rtsp-server/rtsp-address-pool.c. inc_address and
--     diff_address on the bytes of an address (Bytes), add_range and split_range (AddressPool),
--     acquire_address, reserve_address and address_free (AddressPool/Ops). A range of the C code
--     that moves between the two lists is an AddrRange with the number `ptr` for its pointer.
--     Cover counts how often the ranges of a list hold an address with a port.
--   Media, Media/Calls, Media/SetState: gst/rtsp-server/rtsp-media.c. Media has the state, the bus
--     messages and the wait for preroll; Media/Calls gst_rtsp_media_prepare, unprepare, suspend and
--     unsuspend; Media/SetState gst_rtsp_media_set_state with the transports of
--     gst/rtsp-server/rtsp-stream-transport.c. gst_element_set_state is the parameter Pipeline.
--   Text: C strings, and the test of a path prefix that two of the parts share.
--   Session: gst/rtsp-server/rtsp-session.c, with gst_rtsp_session_media_matches of
--     gst/rtsp-server/rtsp-session-media.c. Times are pairs of seconds and microseconds, and the
--     clock is an argument of each function that reads it.
--   SessionPool: gst/rtsp-server/rtsp-session-pool.c. The hash table is a list of sessions.
--   MountPoints: gst/rtsp-server/rtsp-mount-points.c. GLib's sort and lookup are the parameter
--     GSequence.
--   SessionMedia: gst/rtsp-server/rtsp-session-media.c, with Media/SetState below it.
--   Permissions: gst/rtsp-server/rtsp-permissions.c and the questions of
--     gst/rtsp-server/rtsp-token.c. Auth: the checks of gst/rtsp-server/rtsp-auth.c; what a check
--     that fails has sent is part of its answer.
--   MediaFactory: the media that gst/rtsp-server/rtsp-media-factory.c makes and shares. The
--     functions of its class are an argument, so the client has its own parameter for what a
--     factory constructs.
--   Client and its children: gst/rtsp-server/rtsp-client.c. State has the client's fields with the
--     pool, the mount points and the media that it reaches (`World`), and what other code answers
--     during a request (`Env`); Links the TCP transports; Handlers TEARDOWN, PAUSE and PLAY;
--     FindMedia find_media, DESCRIBE, OPTIONS and the parameters; Setup SETUP; Dispatch
--     handle_request, handle_response and handle_data; Sessions the sessions that end. Replies
--     is about the responses and Pool about the session pool. A handler is a function from the World
--     to the World with the boolean that the C function returns; `sent` lists the responses.
--   WfdClient: the messages M1 to M5 and the choice of a resolution of
--     gst/rtsp-server/rtsp-client-wfd.c; Displays the width, height and frame rate of a resolution,
--     and Bodies the bodies of _set_wfd_message_body, made with the functions of WfdMessage.
--   WfdMessage: the parameters of gst/rtsp-server/gstwfdmessage.h. Its children are
--     gst/rtsp-server/gstwfdmessage.c: Read the readers and macros, Formats, Params and Uibc the
--     branches of gst_wfd_parse_attribute, Parse gst_wfd_message_parse_buffer, which goes byte by
--     byte and has the buffer of a line with what earlier lines left in it; Write, WriteFormats,
--     WriteUibc and Print gst_wfd_message_as_text; Audio, Video, Hdcp, Edid and Ports the functions
--     that set and get. RoundTrip has what is printed and parsed again, with the conditions in Kept.
--   ThreadPool: the queue of shared threads of gst/rtsp-server/rtsp-thread-pool.c.
--   Prelude: what the modules share.
--
-- Locks. Each function runs under its object's lock, so it is one step; properties over several
-- calls are about lists of calls. The one wait, in gst_rtsp_media_get_status, takes a list of what
-- the media's own thread does meanwhile; where the list ends, the time is over.
--
-- Integers. Fields of 8, 16 and 32 bits wrap around where the code computes with them; times are
-- unsigned 64-bit numbers, and the milliseconds of a timeout are cut to a signed 32-bit number. The
-- counters of users and of active transports are integers that the theorems keep away from their
-- limits, and no wrap-around is modelled for them.
--
-- Classes. A client calls its handlers of OPTIONS, SET_PARAMETER and GET_PARAMETER through its class,
-- the argument ClientClass of Client/Dispatch; base_class is that of GstRTSPClient. The Wi-Fi display
-- client replaces the three, and WfdClient has them; its SET_PARAMETER sends no response.
--
-- Bounds. The search for a session id is the only loop that the code itself bounds, by 101 tries,
-- and so does the model. The digits of a number are printed with fuel for 64 of them, enough for a
-- number of 64 bits, and the parts of a list of the UIBC capability with fuel for one more than its
-- length, which is enough since each turn takes a byte (parts-enough). Every other loop goes once
-- through a list or a string. A read outside of an array, or through a null pointer, ends a
-- function of WfdMessage with none.
--
-- Not modelled: the texts of the RTSP and SDP messages, the Range header with its seek, the
-- connections and their tunnels, the streams' elements and sockets, the main loops, the factories'
-- pipelines, the server's sockets, and the Wi-Fi display messages' dump and release.
mod Prelude
pub mod Bytes
pub mod Text
pub mod AddressPool
pub mod Media
pub mod Session
pub mod SessionPool
pub mod MountPoints
pub mod Client
pub mod ThreadPool
pub mod Permissions
pub mod Auth
pub mod MediaFactory
pub mod SessionMedia
pub mod WfdClient
pub mod WfdMessage
