-- ===== src/Permissions.antt =====
-- gst/rtsp-server/rtsp-permissions.c: what each role may do; and the two questions that
-- gst/rtsp-server/rtsp-token.c answers about a token.
--
-- A GstStructure is its name and, as a function, what gst_structure_get_boolean finds in it.
pub mod Swap
pub mod Roles
mod Tests
use gst_rtsp_server_wfd.Prelude.{
  ℕ, zero, suc, List, [], ◌∷◌, ◌++◌, Bool, true, false, Option, none, some, if◌then◌else◌,
}
use gst_rtsp_server_wfd.Text.{Text, equal_texts}

pub record Role : Type 0 where
  pub name : Text
  pub get_boolean : Text → Option Bool

abbrev pub Permissions : Type 0
Permissions = List Role

-- The element at the end, and the others.
abbrev pub last_of : Role → Permissions → Role
last_of r [] = r
last_of r (s ∷ rs) = last_of s rs

abbrev pub all_but_last : Role → Permissions → Permissions
all_but_last r [] = []
all_but_last r (s ∷ rs) = r ∷ all_but_last s rs

-- g_ptr_array_remove_index_fast at the head: the last element takes the place.
pub remove_head_fast : Permissions → Permissions
remove_head_fast [] = []
remove_head_fast (r ∷ []) = []
remove_head_fast (r ∷ s ∷ rs) = last_of s rs ∷ all_but_last s rs

-- The loop of gst_rtsp_permissions_remove_role, and of add_role_valist.
pub remove_role : Permissions → Text → Permissions
unfolding remove_head_fast
remove_role [] role = []
remove_role (r ∷ rs) role =
    let rest = remove_role rs role in
    if equal_texts r.name role then remove_head_fast (r ∷ rs) else r ∷ rest

pub add_role : Permissions → Role → Permissions
unfolding remove_role
add_role permissions r = remove_role permissions r.name ++ r ∷ []

pub get_role : Permissions → Text → Option Role
get_role [] role = none
get_role (r ∷ rs) role =
    let rest = get_role rs role in if equal_texts r.name role then some r else rest

abbrev or_false : Option Bool → Bool
or_false none = false
or_false (some b) = b

pub is_allowed : Permissions → Text → Text → Bool
unfolding get_role
is_allowed permissions role permission = elim (get_role permissions role) [
  | none ↦ false
  | some r ↦ or_false (r.get_boolean permission)
]

pub record Token : Type 0 where
  pub get_string : Text → Option Text
  pub get_boolean : Text → Option Bool

-- gst_rtsp_token_is_allowed
pub token_is_allowed : Token → Text → Bool
token_is_allowed token field = or_false (token.get_boolean field)
