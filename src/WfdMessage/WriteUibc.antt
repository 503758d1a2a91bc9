-- ===== src/WfdMessage/WriteUibc.antt =====
-- gst/rtsp-server/gstwfdmessage.c, gst_wfd_message_as_text: wfd_uibc_capability.
use gst_rtsp_server_wfd.Prelude.{ℕ, ◌+◌, ◌/◌, ◌%◌, List, [], ◌∷◌, true, false, ◌==◌, if◌then◌else◌}
use gst_rtsp_server_wfd.Text.{Text}
use gst_rtsp_server_wfd.WfdMessage.{DetailedCap, UibcCapability}
use gst_rtsp_server_wfd.WfdMessage.Read.{codes, ◌<>◌}
use gst_rtsp_server_wfd.WfdMessage.Write.{decimal}

-- The names of the flags that are set, each once; `tempcap` has the flags that are printed so far.
unfoldable pub flags_text : ℕ → ℕ → List (ℕ × Text) → Text
flags_text flags tempcap [] = []
flags_text flags tempcap (f ∷ fs) = elim (flags / f.0 % 2 == 0) [
  | true ↦ flags_text flags tempcap fs
  | false ↦
      f.1
      <> (if flags == tempcap + f.0 then [] else codes ", ")
      <> flags_text flags (tempcap + f.0) fs
]

abbrev pub cat_names : List (ℕ × Text)
cat_names = (1, codes "GENERIC") ∷ (2, codes "HIDC") ∷ []

-- GST_WFD_UIBC_INPUT_TYPE_*
abbrev pub type_names : List (ℕ × Text)
type_names =
    (1, codes "Keyboard")
    ∷ (2, codes "Mouse")
    ∷ (4, codes "SingleTouch")
    ∷ (8, codes "MultiTouch")
    ∷ (16, codes "Joystick")
    ∷ (32, codes "Camera")
    ∷ (64, codes "Gesture")
    ∷ (128, codes "RemoteControl")
    ∷ []

-- GST_WFD_UIBC_INPUT_PATH_*
abbrev pub path_names : List (ℕ × Text)
path_names =
    (1, codes "Infrared")
    ∷ (2, codes "USB")
    ∷ (4, codes "BT")
    ∷ (8, codes "Zigbee")
    ∷ (16, codes "Wi-Fi")
    ∷ (32, codes "No-SP")
    ∷ []

abbrev pub list_text : ℕ → List (ℕ × Text) → Text
list_text flags names = if flags == 0 then codes "none" else flags_text flags 0 names

-- The name of a value that is one flag; nothing for another value.
unfoldable pub name_of : ℕ → List (ℕ × Text) → Text
name_of n [] = []
name_of n (f ∷ fs) = let rest = name_of n fs in if n == f.0 then f.1 else rest

unfoldable pub caps_text : List DetailedCap → Text
caps_text [] = []
caps_text (d ∷ ds) =
    name_of d.inp_type type_names
    <> b'/' ∷ name_of d.inp_path path_names
    <> elim ds [ [] ↦ [] | e ∷ es ↦ codes ", " <> caps_text ds ]

abbrev pub hidc_text : UibcCapability → Text
hidc_text u = if u.cap_count == 0 then codes "none" else caps_text u.hidc_cap_list

abbrev pub port_text : ℕ → Text
port_text port = if port == 0 then codes "none" else decimal port

unfoldable pub uibc_capability_value : UibcCapability → Text
uibc_capability_value u =
    if u.uibcsupported
    then codes " input_category_list="
      <> list_text u.input_cat cat_names
      <> codes "; generic_cap_list="
      <> list_text u.generic_inp_type type_names
      <> codes "; hidc_cap_list="
      <> hidc_text u
      <> codes ";port="
      <> port_text u.tcp_port
    else codes " none"
