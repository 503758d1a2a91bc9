-- ===== src/WfdMessage/RoundTrip/Message.antt =====
-- gst/rtsp-server/gstwfdmessage.c: the line of each parameter that is kept takes the parser to the
-- message with that parameter.
use gst_rtsp_server_wfd.Prelude.{
  ℕ, refl, sym, ◌∙◌, ap, List, [], ◌∷◌, Option, none, some, arith, length-append,
}
use gst_rtsp_server_wfd.Text.{Text}
use gst_rtsp_server_wfd.WfdMessage.{AudioCodec, VideoCodec, DisplayEdid, WfdMessage}
use gst_rtsp_server_wfd.WfdMessage.Read.{
  ◌<>◌, codes, read_uint32, read_uint64, read_string_space_ended, read_until, strtoul, digits,
}
use gst_rtsp_server_wfd.WfdMessage.Formats.{parse_display_edid, edid_payload_of, edid_bytes}
use gst_rtsp_server_wfd.WfdMessage.Lines.{IsLine}
use gst_rtsp_server_wfd.WfdMessage.Parse.{parse_value}
use gst_rtsp_server_wfd.WfdMessage.Write.{
  hex, spaced, coupled_sink_value, trigger_method_value, presentation_url_value,
  client_rtp_ports_line, decimal_int,
}
use gst_rtsp_server_wfd.WfdMessage.WriteFormats.{
  codecs_text, audio_codecs_line, video_codec_value, video_formats_line, content_protection_value,
  display_edid_value,
}
use gst_rtsp_server_wfd.WfdMessage.Print.{named}
use gst_rtsp_server_wfd.WfdMessage.RoundTrip.Numbers.{length-hex}
use gst_rtsp_server_wfd.WfdMessage.RoundTrip.Params.{
  trigger_method_lem, presentation_url_lem, coupled_sink_lem, client_rtp_ports_lem,
}
use gst_rtsp_server_wfd.WfdMessage.RoundTrip.Formats.{
  video_formats_lem, audio_codecs_lem, content_protection_lem,
}
use gst_rtsp_server_wfd.WfdMessage.RoundTrip.Steps.{Takes, valued, is_name-IsLine}
use gst_rtsp_server_wfd.WfdMessage.RoundTrip.Values.{
  ◌next◌, word-IsValue, hex-IsValue, decimal_int-IsValue, video_codec-IsValue, codecs_text-IsValue,
}
use gst_rtsp_server_wfd.WfdMessage.RoundTrip.Kept.{
  KeepsCodecs, KeepsVideo, KeepsHdcp, KeepsEdid, KeepsSinkCap, IsShort, KeepsPorts,
}

pub none_bytes : IsLine (codes " none")
none_bytes = is_name-IsLine (codes " none") refl

module _ (m : WfdMessage) where
  pub audio_codecs_takes :
      (count : ℕ) (o : Option (List AudioCodec))
      → KeepsCodecs count o
      → Takes
          (audio_codecs_line (record { count = count; list = o }))
          m
          (record m { audio_codecs = some (record { count = count; list = o }) })
  unfolding audio_codecs_line parse_value
  audio_codecs_takes count none h = absurd h
  audio_codecs_takes count (some []) h = absurd h
  audio_codecs_takes count (some (c ∷ cs)) (e, codecs, counted, fits) =
      valued (codes "wfd_audio_codecs") (codecs_text (c ∷ cs)) refl
        (codecs_text-IsValue (c ∷ cs) codecs).bytes fits
        (ap (λ a. some (record m { audio_codecs = some a }))
          (audio_codecs_lem c cs codecs counted
            ∙ ap (λ k. record { count = k; list = some (c ∷ cs) }) (sym e)))

  pub video_formats_takes :
      (count : ℕ) (o : Option VideoCodec)
      → KeepsVideo count o
      → Takes
          (video_formats_line (record { count = count; list = o }))
          m
          (record m { video_formats = some (record { count = count; list = o }) })
  unfolding video_formats_line parse_value
  video_formats_takes count none h = absurd h
  video_formats_takes count (some c) (e, codec, fits) =
      valued (codes "wfd_video_formats") (video_codec_value c) refl (video_codec-IsValue c).bytes
        fits
        (ap (λ v. some (record m { video_formats = some v }))
          (video_formats_lem c codec ∙ ap (λ k. record { count = k; list = some c }) (sym e)))

  pub content_protection_takes :
      (version port : Option Text)
      → KeepsHdcp version port
      → Takes
          (named
            (codes "wfd_content_protection")
            content_protection_value
            (record { hdcp2_spec = some (record { hdcpversion = version; tcp_port = port }) }))
          m
          (record m {
            content_protection =
                some (record {
                  hdcp2_spec = some (record { hdcpversion = version; tcp_port = port });
                });
          })
  unfolding content_protection_value parse_value
  content_protection_takes none port h = absurd h
  content_protection_takes (some version) none h = absurd h
  content_protection_takes (some version) (some port) (v, p, known, fits) =
      valued (codes "wfd_content_protection") (spaced version <> spaced port) refl
        (word-IsValue version v.0 next word-IsValue port p.0).bytes fits
        (ap (λ c. some (record m { content_protection = some c }))
          (content_protection_lem version port v p known))

  pub display_edid_takes :
      (e : DisplayEdid)
      → KeepsEdid e
      → Takes
          (named (codes "wfd_display_edid") display_edid_value e)
          m
          (record m { display_edid = some e })
  unfolding display_edid_value parse_value parse_display_edid read_uint32 read_uint64
      read_string_space_ended read_until strtoul digits edid_payload_of edid_bytes
  display_edid_takes e h =
      rw h (valued (codes "wfd_display_edid") (codes " none") refl none_bytes (omega arith) refl)

  pub coupled_sink_takes :
      (status : ℕ) (o : Option Text)
      → KeepsSinkCap status o
      → Takes
          (named
            (codes "wfd_coupled_sink")
            coupled_sink_value
            (record { coupled_sink_cap = some (record { status = status; sink_address = o }) }))
          m
          (record m {
            coupled_sink =
                some (record {
                  coupled_sink_cap = some (record { status = status; sink_address = o });
                });
          })
  unfolding coupled_sink_value parse_value
  coupled_sink_takes status none h = absurd h
  coupled_sink_takes status (some w) (small, word, short) =
      valued (codes "wfd_coupled_sink") (spaced (hex 2 status) <> spaced w) refl
        (hex-IsValue 2 status next word-IsValue w word.0).bytes
        (omega (arith, length-append (hex 2 status) (spaced w), length-hex 2 status, short))
        (ap (λ c. some (record m { coupled_sink = some c }))
          (coupled_sink_lem status (some w) small word))

  pub trigger_method_takes :
      (o : Option Text)
      → IsShort o
      → Takes
          (named
            (codes "wfd_trigger_method")
            trigger_method_value
            (record { wfd_trigger_method = o }))
          m
          (record m { trigger_method = some (record { wfd_trigger_method = o }) })
  unfolding trigger_method_value parse_value
  trigger_method_takes none h = absurd h
  trigger_method_takes (some w) (word, short) =
      valued (codes "wfd_trigger_method") (spaced w) refl (word-IsValue w word.0).bytes
        (omega (arith, short))
        (ap (λ t. some (record m { trigger_method = some t })) (trigger_method_lem (some w) word))

  pub presentation_url_takes :
      (o u : Option Text)
      → IsShort o
      → IsShort u
      → Takes
          (named
            (codes "wfd_presentation_URL")
            presentation_url_value
            (record { wfd_url0 = o; wfd_url1 = u }))
          m
          (record m { presentation_url = some (record { wfd_url0 = o; wfd_url1 = u }) })
  unfolding presentation_url_value parse_value
  presentation_url_takes none u h k = absurd h
  presentation_url_takes (some v) none h k = absurd k
  presentation_url_takes (some v) (some w) (h, short) (k, short') =
      valued (codes "wfd_presentation_URL") (spaced v <> spaced w) refl
        (word-IsValue v h.0 next word-IsValue w k.0).bytes
        (omega (arith, length-append v (spaced w), short, short'))
        (ap (λ p. some (record m { presentation_url = some p }))
          (presentation_url_lem (some v) (some w) h k))

  pub client_rtp_ports_takes :
      (profile : Option Text) (port0 port1 : ℕ) (mode : Option Text)
      → KeepsPorts profile port0 port1 mode
      → Takes
          (client_rtp_ports_line
            (record { profile = profile; rtp_port0 = port0; rtp_port1 = port1; mode = mode }))
          m
          (record m {
            client_rtp_ports =
                some
                  (record { profile = profile; rtp_port0 = port0; rtp_port1 = port1; mode = mode });
          })
  unfolding client_rtp_ports_line parse_value
  client_rtp_ports_takes none port0 port1 mode h = absurd h
  client_rtp_ports_takes (some profile) port0 port1 none h = absurd h
  client_rtp_ports_takes (some profile) port0 port1 (some mode) (p, q, small0, small1, fits) =
      valued (codes "wfd_client_rtp_ports")
        (spaced profile <> spaced (decimal_int port0) <> spaced (decimal_int port1) <> spaced mode)
        refl
        (word-IsValue profile p.0
          next decimal_int-IsValue port0 small0
          next decimal_int-IsValue port1 small1
          next word-IsValue mode q.0).bytes
        fits
        (ap (λ c. some (record m { client_rtp_ports = some c }))
          (client_rtp_ports_lem profile mode port0 port1 p q small0 small1))
