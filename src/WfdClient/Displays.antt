-- ===== src/WfdClient/Displays.antt =====
-- The switch over the resolutions of wfd_get_prefered_resolution, gst/rtsp-server/rtsp-client-wfd.c,
-- with the flags of gst/rtsp-server/gstwfdmessage.h.
use gst_rtsp_server_wfd.Prelude.{ℕ, List, [], ◌∷◌, ◌==◌, if◌then◌else◌}

-- What is written to cMaxWidth, cMaxHeight, cFramerate and interleaved.
pub record Display : Type 0 where
  pub max_width : ℕ
  pub max_height : ℕ
  pub framerate : ℕ
  pub interleaved : ℕ

abbrev progressive : ℕ → ℕ → ℕ → Display
progressive w h r = record { max_width = w; max_height = h; framerate = r; interleaved = 0 }

abbrev interlaced : ℕ → ℕ → ℕ → Display
interlaced w h r = record { max_width = w; max_height = h; framerate = r; interleaved = 1 }

-- GST_WFD_CEA_*
abbrev pub cea_table : List (ℕ × Display)
cea_table =
    (1, progressive 640 480 60)
    ∷ (2, progressive 720 480 60)
    ∷ (4, interlaced 720 480 60)
    ∷ (8, progressive 720 576 50)
    ∷ (16, interlaced 720 576 50)
    ∷ (32, progressive 1280 720 30)
    ∷ (64, progressive 1280 720 60)
    ∷ (128, progressive 1920 1080 30)
    ∷ (256, progressive 1920 1080 60)
    ∷ (512, interlaced 1920 1080 60)
    ∷ (1024, progressive 1280 720 25)
    ∷ (2048, progressive 1280 720 50)
    ∷ (4096, progressive 1920 1080 25)
    ∷ (8192, progressive 1920 1080 50)
    ∷ (16384, interlaced 1920 1080 50)
    ∷ (32768, progressive 1280 720 24)
    ∷ (65536, progressive 1920 1080 24)
    ∷ []

-- GST_WFD_VESA_*
abbrev pub vesa_table : List (ℕ × Display)
vesa_table =
    (1, progressive 800 600 30)
    ∷ (2, progressive 800 600 60)
    ∷ (4, progressive 1024 768 30)
    ∷ (8, progressive 1024 768 60)
    ∷ (16, progressive 1152 864 30)
    ∷ (32, progressive 1152 864 60)
    ∷ (64, progressive 1280 768 30)
    ∷ (128, progressive 1280 768 60)
    ∷ (256, progressive 1280 800 30)
    ∷ (512, progressive 1280 800 60)
    ∷ (1024, progressive 1360 768 30)
    ∷ (2048, progressive 1360 768 60)
    ∷ (4096, progressive 1366 768 30)
    ∷ (8192, progressive 1366 768 60)
    ∷ (16384, progressive 1280 1024 30)
    ∷ (32768, progressive 1280 1024 60)
    ∷ (65536, progressive 1400 1050 30)
    ∷ (131072, progressive 1400 1050 60)
    ∷ (262144, progressive 1440 900 30)
    ∷ (524288, progressive 1440 900 60)
    ∷ (1048576, progressive 1600 900 30)
    ∷ (2097152, progressive 1600 900 60)
    ∷ (4194304, progressive 1600 1200 30)
    ∷ (8388608, progressive 1600 1200 60)
    ∷ (16777216, progressive 1680 1024 30)
    ∷ (33554432, progressive 1680 1024 60)
    ∷ (67108864, progressive 1680 1050 30)
    ∷ (134217728, progressive 1680 1050 60)
    ∷ (268435456, progressive 1920 1200 30)
    ∷ (536870912, progressive 1920 1200 60)
    ∷ []

-- GST_WFD_HH_*
abbrev pub hh_table : List (ℕ × Display)
hh_table =
    (1, progressive 800 480 30)
    ∷ (2, progressive 800 480 60)
    ∷ (4, progressive 854 480 30)
    ∷ (8, progressive 854 480 60)
    ∷ (16, progressive 864 480 30)
    ∷ (32, progressive 864 480 60)
    ∷ (64, progressive 640 360 30)
    ∷ (128, progressive 640 360 60)
    ∷ (256, progressive 960 540 30)
    ∷ (512, progressive 960 540 60)
    ∷ (1024, progressive 848 480 30)
    ∷ (2048, progressive 848 480 60)
    ∷ []

abbrev pub unknown : Display
unknown = progressive 0 0 0

unfoldable pub entry_for : ℕ → List (ℕ × Display) → Display
entry_for resolution [] = unknown
entry_for resolution (e ∷ es) =
    let rest = entry_for resolution es in if resolution == e.0 then e.1 else rest

-- The outer switch; another kind of resolution, which has no label, leaves the results as they are.
unfoldable pub display_for : ℕ → ℕ → Display → Display
display_for native resolution out =
    if native == 0
    then entry_for resolution cea_table
    else if native == 1
    then entry_for resolution vesa_table
    else if native == 2
    then entry_for resolution hh_table
    else out
