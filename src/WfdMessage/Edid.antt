-- ===== src/WfdMessage/Edid.antt =====
-- gst/rtsp-server/gstwfdmessage.c: the functions that set and get the EDID. A result is none where the
-- code follows a null pointer.
use gst_rtsp_server_wfd.Prelude.{
  ℕ, ◌*◌, List, Bool, true, false, Option, none, some, ◌==◌, if◌then◌else◌, u32,
}
use gst_rtsp_server_wfd.Text.{Text}
use gst_rtsp_server_wfd.WfdMessage.{DisplayEdid, WfdMessage}
use gst_rtsp_server_wfd.WfdMessage.Read.{codes}
use gst_rtsp_server_wfd.WfdMessage.Hdcp.{take}

-- What g_malloc returns is an argument, for a block of the size that it is asked for.
module _ (g_malloc : ℕ → List ℕ) where
  abbrev pub edid_or_new : Option DisplayEdid → DisplayEdid
  edid_or_new none = record { edid_supported = 0; edid_block_count = 0; edid_payload = none }
  edid_or_new (some e) = e

  -- gst_wfd_message_set_display_edid, which copies the payload only if there is no block for it.
  unfoldable pub set_display_edid : ℕ → ℕ → List ℕ → WfdMessage → WfdMessage
  set_display_edid supported count payload msg =
      let e = edid_or_new msg.display_edid in
      let block = if count == 0 then codes "none" else g_malloc (u32 (128 * count)) in
      record msg {
        display_edid = some (
            if supported == 0 then record e { edid_supported = 0 } else record {
              edid_supported = supported;
              edid_block_count = count;
              edid_payload = some block;
            });
      }

-- edid_supported, edid_blockcount and edid_playload, as the getter writes them
pub record EdidOut : Type 0 where
  pub edid_supported : Bool
  pub edid_blockcount : ℕ
  pub edid_playload : Option Text

-- The copy of the payload.
abbrev pub copy_payload : DisplayEdid → EdidOut → Option EdidOut
copy_payload e out = elim e.edid_payload [
  | none ↦ none
  | some p ↦ some (record {
    edid_supported = true;
    edid_blockcount = e.edid_block_count;
    edid_playload = some (take (u32 (128 * e.edid_block_count)) p);
  })
]

abbrev pub edid_of : DisplayEdid → EdidOut → Option EdidOut
edid_of e out =
    if e.edid_supported == 0
    then some out
    else if e.edid_block_count == 0
    then some (record out { edid_blockcount = 0; edid_playload = some (codes "none") })
    else copy_payload e out

-- gst_wfd_message_get_display_edid; an EDID that is not supported leaves all results as they are.
unfoldable pub get_display_edid : WfdMessage → EdidOut → Option EdidOut
get_display_edid msg out = elim msg.display_edid [
  | none ↦ some (record out { edid_supported = false })
  | some e ↦ edid_of e out
]
