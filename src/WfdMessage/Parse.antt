-- ===== src/WfdMessage/Parse.antt =====
-- gst/rtsp-server/gstwfdmessage.c: gst_wfd_parse_attribute and gst_wfd_message_parse_buffer. A result
-- is none where the code reads outside of the buffer of a line or behind the data, or follows a null
-- pointer.
use mathlib.Core.Option.{map}
use gst_rtsp_server_wfd.Prelude.{
  ℕ, ◌+◌, List, [], ◌∷◌, Bool, true, false, ◌||◌, Option, none, some, ltb, ◌==◌, if◌then◌else◌, set,
}
use gst_rtsp_server_wfd.Text.{Text, equal_texts}
use gst_rtsp_server_wfd.WfdMessage.{WfdMessage}
use gst_rtsp_server_wfd.WfdMessage.Read.{codes, buffer_size, read_until}
use gst_rtsp_server_wfd.WfdMessage.Formats.{
  parse_audio_codecs, parse_video_formats, parse_3d_formats, parse_content_protection,
  parse_display_edid, zeros,
}
use gst_rtsp_server_wfd.WfdMessage.Params.{
  parse_coupled_sink, parse_trigger_method, parse_presentation_url, parse_client_rtp_ports,
  parse_route, parse_i2c, parse_av_format_change_timing, parse_preferred_display_mode,
  parse_uibc_setting, parse_standby_resume_capability, parse_connector_type,
}
use gst_rtsp_server_wfd.WfdMessage.Uibc.{parse_uibc_capability}

-- The memory up to the first zero byte, if there is one.
unfoldable pub text_at : List ℕ → Option Text
text_at [] = none
text_at (c ∷ mem) = if c == 0 then some [] else map (λ s. c ∷ s) (text_at mem)

-- The first loop of _read_string_attr_and_value: what is in front of the delimiter or the terminator,
-- and the memory behind that byte.
unfoldable pub split_at : ℕ → List ℕ → Option (Text × List ℕ)
split_at del [] = none
split_at del (c ∷ mem) = elim ((c == del) || (c == 0)) [
  | true ↦ some ([], mem)
  | false ↦ map (λ x. (c ∷ x.0, x.1)) (split_at del mem)
]

abbrev pub and_then : {A B : Type 0} → Option A → (A → Option B) → Option B
and_then none f = none
and_then (some a) f = f a

abbrev pub stored : ℕ → Text → Text
stored size s = read_until (λ c. false) size 0 s

-- _read_string_attr_and_value steps over the delimiter, and over the terminator where there is no
-- delimiter.
unfoldable pub read_string_attr_and_value : ℕ → ℕ → ℕ → List ℕ → Option (Text × Text)
read_string_attr_and_value tsize vsize del src =
    and_then (split_at del src) (λ x. map (λ v. (stored tsize x.0, stored vsize v)) (text_at x.1))

abbrev pub put_3d : Text → WfdMessage → Option WfdMessage
put_3d v msg =
    map (λ x. record msg { video_3d_formats = some x.0; video_formats = x.1 })
      (parse_3d_formats v msg.video_formats)

abbrev pub put_edid : Text → WfdMessage → Option WfdMessage
put_edid v msg = map (λ e. record msg { display_edid = some e }) (parse_display_edid v)

abbrev pub put_uibc : Text → WfdMessage → Option WfdMessage
put_uibc v msg = map (λ u. record msg { uibc_capability = some u }) (parse_uibc_capability v)

-- The second half of the chain of names.
unfoldable pub parse_late_value : Text → Text → WfdMessage → Option WfdMessage
parse_late_value attr v msg =
    if equal_texts attr (codes "wfd_route")
    then some (record msg { route = some (parse_route v) })
    else if equal_texts attr (codes "wfd_I2C")
    then some (record msg { i2c = some (parse_i2c v) })
    else if equal_texts attr (codes "wfd_av_format_change_timing")
    then some (record msg { av_format_change_timing = some (parse_av_format_change_timing v) })
    else if equal_texts attr (codes "wfd_preferred_display_mode")
    then some (record msg { preferred_display_mode = some (parse_preferred_display_mode v) })
    else if equal_texts attr (codes "wfd_uibc_capability")
    then put_uibc v msg
    else if equal_texts attr (codes "wfd_uibc_setting")
    then some (record msg { uibc_setting = some (parse_uibc_setting v) })
    else if equal_texts attr (codes "wfd_standby_resume_capability")
    then some (record msg { standby_resume_capability = some (parse_standby_resume_capability v) })
    else if equal_texts attr (codes "wfd_standby")
    then some (record msg { standby = some (record { wfd_standby = true }) })
    else if equal_texts attr (codes "wfd_connector_type")
    then some (record msg { connector_type = some (parse_connector_type v) })
    else if equal_texts attr (codes "wfd_idr_request")
    then some (record msg { idr_request = some (record { idr_request = true }) })
    else some msg

unfoldable pub parse_value : Text → Text → WfdMessage → Option WfdMessage
parse_value attr v msg =
    if equal_texts attr (codes "wfd_audio_codecs")
    then some (record msg { audio_codecs = some (parse_audio_codecs v) })
    else if equal_texts attr (codes "wfd_video_formats")
    then some (record msg { video_formats = some (parse_video_formats v) })
    else if equal_texts attr (codes "wfd_3d_formats")
    then put_3d v msg
    else if equal_texts attr (codes "wfd_content_protection")
    then some (record msg { content_protection = some (parse_content_protection v) })
    else if equal_texts attr (codes "wfd_display_edid")
    then put_edid v msg
    else if equal_texts attr (codes "wfd_coupled_sink")
    then some (record msg { coupled_sink = some (parse_coupled_sink v) })
    else if equal_texts attr (codes "wfd_trigger_method")
    then some (record msg { trigger_method = some (parse_trigger_method v) })
    else if equal_texts attr (codes "wfd_presentation_URL")
    then some (record msg { presentation_url = some (parse_presentation_url v) })
    else if equal_texts attr (codes "wfd_client_rtp_ports")
    then some (record msg { client_rtp_ports = some (parse_client_rtp_ports v) })
    else parse_late_value attr v msg

-- gst_wfd_parse_attribute
unfoldable pub parse_attribute : List ℕ → WfdMessage → Option WfdMessage
parse_attribute buffer msg =
    and_then (read_string_attr_and_value buffer_size buffer_size b':' buffer)
      (λ x. parse_value x.0 x.1 msg)

-- The variables of gst_wfd_message_parse_buffer; `buffer` has 255 bytes, and is not cleared between
-- two lines.
pub record Parser : Type 0 where
  pub buffer : List ℕ
  pub idx : ℕ
  pub msg : WfdMessage

-- Where `p` stands: at the top of the outer loop, in the inner loop, or on the second byte of `p += 2`.
pub data Mode : Type 0 where
  top scanning second : Mode

pub data Next : Type 0 where
  done : WfdMessage → Next
  more : Mode → Parser → Next

abbrev pub is_line_end : ℕ → Bool
is_line_end c = (c == b'\n') || (c == b'\r')

abbrev pub store : ℕ → Parser → Parser
store c s = if ltb s.idx 254 then record s { buffer = set s.buffer s.idx c; idx = s.idx + 1 } else s

-- buffer[idx] = '\0' and the parameter of the line
unfoldable pub end_line : Parser → Option Parser
end_line s =
    let buffer = set s.buffer s.idx 0 in
    map (λ m. record s { buffer = buffer; msg = m }) (parse_attribute buffer s.msg)

unfoldable pub scan_byte : ℕ → Parser → Option Next
scan_byte c s = elim (c == 0) [
  | true ↦ map (λ s'. done s'.msg) (end_line s)
  | false ↦ elim (is_line_end c) [
    | true ↦ map (λ s'. more second s') (end_line s)
    | false ↦ some (more scanning (store c s))
  ]
]

unfoldable pub step : Mode → ℕ → Parser → Option Next
step second c s = some (more top s)
step scanning c s = scan_byte c s
step top c s = elim (c == 0) [
  | true ↦ some (done s.msg)
  | false ↦ scan_byte c (record s { idx = 0 })
]

unfoldable pub run : Mode → Parser → List ℕ → Option WfdMessage
run mode s [] = none
run mode s (c ∷ p) = elim (step mode c s) [
  | none ↦ none
  | some (done msg) ↦ some msg
  | some (more mode' s') ↦ run mode' s' p
]

abbrev pub clear_buffer : List ℕ
clear_buffer = zeros 255

-- gst_wfd_message_parse_buffer; `size` is only compared with 0, which is GST_WFD_EINVAL and leaves
-- the message as it is.
unfoldable pub parse_buffer : List ℕ → ℕ → WfdMessage → Option WfdMessage
parse_buffer data' size msg =
    if size == 0
    then some msg
    else run top (record { buffer = clear_buffer; idx = 0; msg = msg }) data'
