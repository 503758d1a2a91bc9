-- ===== src/WfdMessage/RoundTrip/Late.antt =====
-- gst/rtsp-server/gstwfdmessage.c: the lines of the parameters from wfd_route on.
use gst_rtsp_server_wfd.Prelude.{
  ℕ, ◌<◌, ◌≡◌, refl, sym, ap, subst, Bool, true, false, Option, none, some, length, arith, not_zero,
}
use gst_rtsp_server_wfd.Text.{Text}
use gst_rtsp_server_wfd.WfdMessage.{PreferredDisplayMode, UibcCapability, ConnectorType, WfdMessage}
use gst_rtsp_server_wfd.WfdMessage.Params.{
  no_mode, parse_preferred_display_mode, read_display_mode, read_h264_codec, parse_uibc_setting,
  parse_standby_resume_capability,
}
use gst_rtsp_server_wfd.WfdMessage.Uibc.{no_uibc, parse_uibc_capability}
use gst_rtsp_server_wfd.WfdMessage.Read.{
  ◌<>◌, codes, read_uint32, read_uint64, read_string_space_ended, read_until, strtoul, digits,
}
use gst_rtsp_server_wfd.WfdMessage.Parse.{parse_value, parse_late_value}
use gst_rtsp_server_wfd.WfdMessage.Write.{
  crlf, hex, spaced, route_value, i2c_value, preferred_display_mode_value, uibc_setting_value,
  standby_resume_capability_value, connector_type_value,
}
use gst_rtsp_server_wfd.WfdMessage.WriteUibc.{uibc_capability_value}
use gst_rtsp_server_wfd.WfdMessage.Print.{named}
use gst_rtsp_server_wfd.WfdMessage.RoundTrip.Numbers.{length-hex}
use gst_rtsp_server_wfd.WfdMessage.RoundTrip.Params.{route_lem, connector_type_lem, i2c_lem}
use gst_rtsp_server_wfd.WfdMessage.RoundTrip.Steps.{Takes, valued, nameless, is_name-IsLine}
use gst_rtsp_server_wfd.WfdMessage.Lines.{IsLine}
use gst_rtsp_server_wfd.WfdMessage.RoundTrip.Values.{word-IsValue, hex-IsValue}
use gst_rtsp_server_wfd.WfdMessage.RoundTrip.Message.{none_bytes}
use gst_rtsp_server_wfd.WfdMessage.RoundTrip.Kept.{IsShort}

module _ (m : WfdMessage) where
  pub route_takes :
      (o : Option Text)
      → IsShort o
      → Takes
          (named (codes "wfd_route") route_value (record { destination = o }))
          m
          (record m { route = some (record { destination = o }) })
  unfolding route_value parse_value parse_late_value
  route_takes none h = absurd h
  route_takes (some w) (word, short) =
      valued (codes "wfd_route") (spaced w) refl (word-IsValue w word.0).bytes
        (omega (arith, short))
        (ap (λ r. some (record m { route = some r })) (route_lem (some w) word))

  pub i2c_takes :
      (present : Bool) (port : ℕ)
      → present ≡ true
      → port < 10
      → Takes
          (named (codes "wfd_I2C") i2c_value (record { i2c_present = present; i2c_port = port }))
          m
          (record m { i2c = some (record { i2c_present = present; i2c_port = port }) })
  unfolding i2c_value parse_value parse_late_value
  i2c_takes present port e small = rw e (
      valued (codes "wfd_I2C") (spaced (hex 0 port)) refl (hex-IsValue 0 port).bytes
        (omega (arith, length-hex 0 port))
        (ap (λ i. some (record m { i2c = some i })) (i2c_lem port small)))

  pub preferred_display_mode_takes :
      (p : PreferredDisplayMode)
      → p ≡ no_mode
      → Takes
          (named (codes "wfd_preferred_display_mode") preferred_display_mode_value p)
          m
          (record m { preferred_display_mode = some p })
  unfolding preferred_display_mode_value parse_value parse_late_value parse_preferred_display_mode
      read_display_mode read_h264_codec read_uint32 read_uint64 read_string_space_ended read_until
      strtoul digits
  preferred_display_mode_takes p h = rw h (
      valued (codes "wfd_preferred_display_mode") (codes " none") refl none_bytes (omega arith)
        refl)

  pub uibc_capability_takes :
      (u : UibcCapability)
      → u ≡ no_uibc
      → Takes
          (named (codes "wfd_uibc_capability") uibc_capability_value u)
          m
          (record m { uibc_capability = some u })
  unfolding uibc_capability_value parse_value parse_late_value parse_uibc_capability
  uibc_capability_takes u h =
      rw h (valued (codes "wfd_uibc_capability") (codes " none") refl none_bytes (omega arith) refl)

  pub uibc_setting_takes :
      (b : Bool)
      → Takes
          (named (codes "wfd_uibc_setting") uibc_setting_value (record { uibc_setting = b }))
          m
          (record m { uibc_setting = some (record { uibc_setting = b }) })
  unfolding uibc_setting_value parse_value parse_late_value parse_uibc_setting
  uibc_setting_takes true =
      valued (codes "wfd_uibc_setting") (codes " enable") refl
        (is_name-IsLine (codes " enable") refl) (omega arith) refl
  uibc_setting_takes false =
      valued (codes "wfd_uibc_setting") (codes " disable") refl
        (is_name-IsLine (codes " disable") refl) (omega arith) refl

  pub standby_resume_capability_takes :
      (b : Bool)
      → Takes
          (named
            (codes "wfd_standby_resume_capability")
            standby_resume_capability_value
            (record { standby_resume_cap = b }))
          m
          (record m { standby_resume_capability = some (record { standby_resume_cap = b }) })
  unfolding standby_resume_capability_value parse_value parse_late_value
      parse_standby_resume_capability
  standby_resume_capability_takes true =
      valued (codes "wfd_standby_resume_capability") (codes " supported") refl
        (is_name-IsLine (codes " supported") refl) (omega arith) refl
  standby_resume_capability_takes false =
      valued (codes "wfd_standby_resume_capability") (codes " none") refl none_bytes (omega arith)
        refl

  pub standby_takes :
      (b : Bool)
      → b ≡ true
      → Takes
          (codes "wfd_standby" <> crlf)
          m
          (record m { standby = some (record { wfd_standby = b }) })
  unfolding parse_value parse_late_value
  standby_takes b e = rw e (nameless (codes "wfd_standby") refl (omega arith) (λ value. refl))

  pub connector_type_takes :
      (b : Bool) (n : ℕ)
      → b ≡ true
      → 0 < n
      → n < 4294967296
      → Takes
          (named
            (codes "wfd_connector_type")
            connector_type_value
            (record { supported = b; connector_type = n }))
          m
          (record m { connector_type = some (record { supported = b; connector_type = n }) })
  unfolding connector_type_value parse_value parse_late_value
  connector_type_takes b n e some_type small =
      let c : ConnectorType = record { supported = true; connector_type = n } in
      let v : connector_type_value c ≡ spaced (hex 2 n) = rw (not_zero n some_type) refl in
      rw e (
        valued (codes "wfd_connector_type") (connector_type_value c) refl
          (subst IsLine (sym v) (hex-IsValue 2 n).bytes)
          (omega (arith, ap length v, length-hex 2 n))
          (ap (λ k. some (record m { connector_type = some k }))
            (connector_type_lem n some_type small)))

  pub idr_request_takes :
      (b : Bool)
      → b ≡ true
      → Takes
          (codes "wfd_idr_request" <> crlf)
          m
          (record m { idr_request = some (record { idr_request = b }) })
  unfolding parse_value parse_late_value
  idr_request_takes b e =
      rw e (nameless (codes "wfd_idr_request") refl (omega arith) (λ value. refl))
