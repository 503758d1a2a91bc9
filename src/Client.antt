-- ===== src/Client.antt =====
-- sanitize_uri of gst/rtsp-server/rtsp-client.c: the path of a request without double slashes and
-- without a slash at its end.
pub mod Sanitize
pub mod State
pub mod Links
pub mod Handlers
pub mod FindMedia
pub mod Setup
pub mod Dispatch
pub mod Sessions
pub mod Replies
pub mod Pool
mod Tests
use gst_rtsp_server_wfd.Prelude.{
  ℕ, zero, suc, ◌<◌, ◌≡◌, refl, sym, ◌∙◌, ap, inl, inr, List, [], ◌∷◌, Bool, true, false, not, ◌&&◌,
  ◌||◌, length, ltb, ◌==◌, if◌then◌else◌, arith, Bool-cases,
}
use gst_rtsp_server_wfd.Text.{Text, slash}

-- The loop. The write never overtakes the read, so what is read is the old text, and the answer is
-- what is written.
pub copy_path : Bool → Text → Text
copy_path prev_slash [] = []
copy_path prev_slash (c ∷ s) =
    let have_slash = c == slash in
    let rest = copy_path have_slash s in if not have_slash || not prev_slash then c ∷ rest else rest

abbrev pub ends_in_slash : Text → Bool
ends_in_slash [] = false
ends_in_slash (c ∷ []) = c == slash
ends_in_slash (c ∷ d ∷ s) = ends_in_slash (d ∷ s)

-- d--
abbrev pub drop_last : Text → Text
drop_last [] = []
drop_last (c ∷ []) = []
drop_last (c ∷ d ∷ s) = c ∷ drop_last (d ∷ s)

pub sanitize_uri : Text → Text
unfolding copy_path
sanitize_uri abspath =
    let s = copy_path false abspath in
    if ltb 1 (length s) && ends_in_slash s then drop_last s else s
