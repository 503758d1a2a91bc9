-- ===== src/WfdClient.antt =====
-- gst/rtsp-server/rtsp-client-wfd.c: the messages M1 to M5 of a Wi-Fi display source, and the choice
-- of a resolution.
--
-- Here whether a request could be prepared, and whether the formats of the body of M3 were read, are
-- arguments. Displays has the widths, heights and frame rates of the resolutions, and Bodies the
-- bodies of the messages that the client sends.
pub mod Handshake
pub mod Resolution
pub mod Displays
pub mod Bodies
mod Tests
use gst_rtsp_server_wfd.Prelude.{
  ℕ, zero, suc, ◌/◌, ◌%◌, ◌^◌, List, [], ◌∷◌, Bool, true, false, not, ◌&&◌, Option, none, some,
  ◌==◌, if◌then◌else◌,
}

-- What the client sends: the requests M1 (OPTIONS), M3 (GET_PARAMETER), M4 (SET_PARAMETER) and M5
-- with the trigger SETUP, and the responses to M2 and to an empty GET_PARAMETER.
pub data Message : Type 0 where
  m1 m2_response m3 m4 trigger_setup alive_response : Message

-- `sent` has the newest message first.
pub record WfdClient : Type 0 where
  pub m1_done : Bool
  pub m3_done : Bool
  pub m4_done : Bool
  pub sent : List Message

pub new : WfdClient
new = record { m1_done = false; m3_done = false; m4_done = false; sent = [] }

abbrev put : Message → WfdClient → WfdClient
put m c = record c { sent = m ∷ c.sent }

-- handle_M1_message, handle_M3_message, handle_M4_message and gst_rtsp_wfd_client_trigger_request,
-- which send nothing if they cannot prepare the request.
pub send : Message → Bool → WfdClient → WfdClient
send m prepared c = if prepared then put m c else c

pub start_wfd : Bool → WfdClient → WfdClient
unfolding send
start_wfd prepared c = send m1 prepared c

-- wfd_options_request_done
pub options_request_done : Bool → WfdClient → WfdClient
unfolding send
options_request_done prepared c = send m3 prepared c

-- wfd_get_param_request_done
pub get_param_request_done : Bool → WfdClient → WfdClient
unfolding send
get_param_request_done prepared c = send m4 prepared (record c { m3_done = true })

-- A response with a body is that to M3, if there was none yet; the formats in it may not be read.
respond_body : Bool → Bool → WfdClient → WfdClient
unfolding get_param_request_done
respond_body formats prepared c =
    if c.m3_done then c else if formats then get_param_request_done prepared c else c

-- A response without a body.
respond_empty : Bool → WfdClient → WfdClient
unfolding send
respond_empty prepared c =
    if not c.m1_done
    then record c { m1_done = true }
    else if not c.m4_done
    then send trigger_setup prepared (record c { m4_done = true })
    else c

-- handle_wfd_response, for the size of the body, if there is one.
pub handle_wfd_response : Option ℕ → Bool → Bool → WfdClient → WfdClient
unfolding respond_body respond_empty
handle_wfd_response none formats prepared c = c
handle_wfd_response (some size) formats prepared c =
    if size == 0 then respond_empty prepared c else respond_body formats prepared c

-- Whether the request has a User-Agent, and whether the response could be sent.
pub handle_wfd_options_request : Bool → Bool → Bool → WfdClient → WfdClient × Bool
unfolding options_request_done
handle_wfd_options_request user_agent delivered prepared c =
    if not user_agent
    then (c, false)
    else if not delivered
    then (c, false)
    else (options_request_done prepared (put m2_response c), true)

-- For the size of the body, if there is one.
pub handle_wfd_get_param_request : Option ℕ → WfdClient → WfdClient × Bool
handle_wfd_get_param_request none c = (c, false)
handle_wfd_get_param_request (some size) c =
    if size == 0 then (put alive_response c, true) else (c, true)

pub handle_wfd_set_param_request : WfdClient → WfdClient × Bool
handle_wfd_set_param_request c = (c, true)

-- Bit k of a mask.
abbrev pub has_bit : ℕ → ℕ → Bool
has_bit mask k = (mask / 2 ^ k) % 2 == 1

-- 1 << k for an int, as a 64-bit number.
abbrev pub flag : ℕ → ℕ
flag k = if k == 31 then 18446744071562067968 else 2 ^ k

-- The loop of wfd_get_prefered_resolution, for the bits below k.
find_bit : ℕ → ℕ → ℕ → Option ℕ
find_bit zero src sink = none
find_bit (suc k) src sink =
    let rest = find_bit k src sink in if has_bit sink k && has_bit src k then some k else rest

-- The resolution that wfd_get_prefered_resolution returns.
pub get_prefered_resolution : ℕ → ℕ → ℕ
unfolding find_bit
get_prefered_resolution src sink = elim (find_bit 32 src sink) [ none ↦ 0 | some k ↦ flag k ]
