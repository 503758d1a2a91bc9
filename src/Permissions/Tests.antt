-- ===== src/Permissions/Tests.antt =====
-- The theorems on gst/rtsp-server/rtsp-permissions.c at concrete roles.
use gst_rtsp_server_wfd.Prelude.{◌≡◌, refl, [], ◌∷◌, some, if◌then◌else◌}
use gst_rtsp_server_wfd.Text.{Text, equal_texts}
use gst_rtsp_server_wfd.Permissions.{Role, Permissions, remove_role, add_role, get_role}
use gst_rtsp_server_wfd.Permissions.Swap.{has_role, IsUnique}
use gst_rtsp_server_wfd.Permissions.Roles.{add_role_lem}

abbrev role : Text → Role
role name = record { name = name; get_boolean = λ field. some (equal_texts field (97 ∷ [])) }

abbrev roles : Permissions
roles = role (49 ∷ []) ∷ role (50 ∷ []) ∷ role (51 ∷ []) ∷ []

-- The last role takes the place of the first.
moved : remove_role roles (49 ∷ []) ≡ role (51 ∷ []) ∷ role (50 ∷ []) ∷ []
unfolding remove_role
moved = refl

abbrev removed : Permissions
removed = remove_role roles (49 ∷ [])

abbrev added : Permissions
added = add_role roles (role (50 ∷ []))

add_role_lem_example :
    IsUnique added
    × ((n : Text)
        → get_role added n
          ≡ (if equal_texts (50 ∷ []) n then some (role (50 ∷ [])) else get_role roles n))
unfolding has_role
add_role_lem_example = add_role_lem (role (50 ∷ [])) roles (refl, (refl, (refl, tt)))
