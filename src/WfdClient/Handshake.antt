-- ===== src/WfdClient/Handshake.antt =====
-- The order of the messages of gst/rtsp-server/rtsp-client-wfd.c.
use gst_rtsp_server_wfd.Prelude.{
  ℕ, zero, suc, ◌+◌, ◌≤◌, ◌≡◌, ◌||◌, leb, List, [], ◌∷◌, Bool, true, false, Option, none, some,
  ◌==◌, arith,
}
use gst_rtsp_server_wfd.WfdClient.{
  Message, m4, trigger_setup, WfdClient, new, send, start_wfd, options_request_done,
  get_param_request_done, respond_body, respond_empty, handle_wfd_response,
  handle_wfd_options_request, handle_wfd_get_param_request, handle_wfd_set_param_request,
}

abbrev pub count_m4 : List Message → ℕ
count_m4 [] = 0
count_m4 (m4 ∷ ms) = suc (count_m4 ms)
count_m4 (_ ∷ ms) = count_m4 ms

abbrev pub count_setup : List Message → ℕ
count_setup [] = 0
count_setup (trigger_setup ∷ ms) = suc (count_setup ms)
count_setup (_ ∷ ms) = count_setup ms

abbrev pub once : Bool → ℕ
once true = 1
once false = 0

-- What other code answers is part of each event.
pub data Event : Type 0 where
  starts : Bool → Event
  options_requests : Bool → Bool → Bool → Event
  get_param_requests : Option ℕ → Event
  set_param_requests : Event
  responses : Option ℕ → Bool → Bool → Event

-- The formats of M3 were read: from a response with a body.
abbrev pub reads : Event → Bool
reads (responses (some (suc n)) formats prepared) = formats
reads _ = false

abbrev pub any_reads : List Event → Bool
any_reads [] = false
any_reads (e ∷ es) = reads e || any_reads es

-- 1 for a response without a body.
abbrev pub empty : Event → ℕ
empty (responses (some zero) formats prepared) = 1
empty _ = 0

abbrev pub count_empty : List Event → ℕ
count_empty [] = 0
count_empty (e ∷ es) = empty e + count_empty es

-- After the events, M4 was sent at most once, and only if the formats of M3 were read in one of
-- them; the trigger SETUP at most once, and only if two of them were responses without a body.
pub record IsOrdered (es : List Event) (c : WfdClient) : Type 0 where
  pub m4_once : count_m4 c.sent ≤ once (any_reads es)
  pub setup_once : count_setup c.sent ≤ once (leb 2 (count_empty es))

-- What the flags tell of the messages, and of the events: whether the formats were read, and the
-- number of responses without a body.
record IsTold (formats : Bool) (n_empty : ℕ) (c : WfdClient) : Type 0 where
  m4_once : count_m4 c.sent ≤ once c.m3_done
  m3_read : once c.m3_done ≤ once formats
  setup_once : count_setup c.sent ≤ once c.m4_done
  m1_first : once c.m4_done ≤ once c.m1_done
  both_empty : once c.m1_done + once c.m4_done ≤ n_empty

abbrev pub step : Event → WfdClient → WfdClient
step (starts prepared) c = start_wfd prepared c
step (options_requests user_agent delivered prepared) c =
    (handle_wfd_options_request user_agent delivered prepared c).0
step (get_param_requests size) c = (handle_wfd_get_param_request size c).0
step set_param_requests c = (handle_wfd_set_param_request c).0
step (responses size formats prepared) c = handle_wfd_response size formats prepared c

abbrev pub run : List Event → WfdClient → WfdClient
run [] c = c
run (e ∷ es) c = run es (step e c)

respond_body-IsTold :
    (formats prepared read : Bool) (n : ℕ) (c : WfdClient)
    → IsTold read n c
    → IsTold (formats || read) n (respond_body formats prepared c)
unfolding respond_body get_param_request_done send
respond_body-IsTold formats prepared read n c h = record {
  m4_once = ground (arith, h.m4_once);
  m3_read = ground (arith, h.m3_read);
  setup_once = ground (arith, h.setup_once);
  m1_first = ground (arith, h.m1_first);
  both_empty = ground (arith, h.both_empty);
}

respond_empty-IsTold :
    (prepared read : Bool) (n : ℕ) (c : WfdClient)
    → IsTold read n c
    → IsTold read (suc n) (respond_empty prepared c)
unfolding respond_empty send
respond_empty-IsTold prepared read n c h = record {
  m4_once = ground (arith, h.m4_once);
  m3_read = ground (arith, h.m3_read);
  setup_once = ground (arith, h.setup_once, h.m1_first);
  m1_first = ground (arith, h.m1_first);
  both_empty = ground (arith, h.both_empty, h.m1_first);
}

-- More events tell no less.
more-IsTold :
    {read read' : Bool} {n n' : ℕ} {c : WfdClient}
    → once read ≤ once read'
    → n ≤ n'
    → IsTold read n c
    → IsTold read' n' c
more-IsTold r l h = record {
  m4_once = h.m4_once;
  m3_read = omega (arith, r, h.m3_read);
  setup_once = h.setup_once;
  m1_first = h.m1_first;
  both_empty = omega (arith, l, h.both_empty);
}

step-IsTold :
    (e : Event) (read : Bool) (n : ℕ) (c : WfdClient)
    → IsTold read n c
    → IsTold (reads e || read) (empty e + n) (step e c)
unfolding start_wfd send handle_wfd_response handle_wfd_options_request options_request_done
    handle_wfd_get_param_request handle_wfd_set_param_request
step-IsTold (starts prepared) read n c h = record {
  m4_once = ground (arith, h.m4_once);
  m3_read = ground (arith, h.m3_read);
  setup_once = ground (arith, h.setup_once);
  m1_first = ground (arith, h.m1_first);
  both_empty = ground (arith, h.both_empty);
}
step-IsTold (options_requests user_agent delivered prepared) read n c h = record {
  m4_once = ground (arith, h.m4_once);
  m3_read = ground (arith, h.m3_read);
  setup_once = ground (arith, h.setup_once);
  m1_first = ground (arith, h.m1_first);
  both_empty = ground (arith, h.both_empty);
}
step-IsTold (get_param_requests none) read n c h = more-IsTold (omega arith) (omega arith) h
step-IsTold (get_param_requests (some size)) read n c h = record {
  m4_once = ground (arith, h.m4_once);
  m3_read = ground (arith, h.m3_read);
  setup_once = ground (arith, h.setup_once);
  m1_first = ground (arith, h.m1_first);
  both_empty = ground (arith, h.both_empty);
}
step-IsTold set_param_requests read n c h = more-IsTold (omega arith) (omega arith) h
step-IsTold (responses none formats prepared) read n c h = more-IsTold (omega arith) (omega arith) h
step-IsTold (responses (some zero) formats prepared) read n c h =
    more-IsTold (omega arith) (omega arith) (respond_empty-IsTold prepared read n c h)
step-IsTold (responses (some (suc k)) formats prepared) read n c h =
    let body : (suc k == 0) ≡ false = ground arith in
    rw body
      (more-IsTold (omega arith) (omega arith) (respond_body-IsTold formats prepared read n c h))

run_from :
    (es : List Event) (read : Bool) (n : ℕ) (c : WfdClient)
    → IsTold read n c
    → IsTold (any_reads es || read) (count_empty es + n) (run es c)
run_from [] read n c h = more-IsTold (omega arith) (omega arith) h
run_from (e ∷ es) read n c h =
    more-IsTold (ground arith) (omega arith)
      (run_from es (reads e || read) (empty e + n) (step e c) (step-IsTold e read n c h))

-- Whatever the sink sends, a new client sends M4 at most once, and only after the formats of M3 were
-- read from a response with a body, and the trigger SETUP at most once, and only after two responses
-- without a body.
pub run-IsOrdered : (es : List Event) → IsOrdered es (run es new)
unfolding new
run-IsOrdered es =
    let h = run_from es false 0 new (record {
      m4_once = omega arith;
      m3_read = omega arith;
      setup_once = omega arith;
      m1_first = omega arith;
      both_empty = omega arith;
    }) in
    record {
      m4_once = ground (arith, h.m4_once, h.m3_read);
      setup_once = ground (arith, h.setup_once, h.m1_first, h.both_empty);
    }
