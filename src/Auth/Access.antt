-- ===== src/Auth/Access.antt =====
-- Who may see and construct the media of a factory, in gst/rtsp-server/rtsp-auth.c.
use gst_rtsp_server_wfd.Prelude.{◌≡◌, refl, ◌↔◌, inl, inr, true, Option, none, some, Bool-cases}
use gst_rtsp_server_wfd.Text.{Text}
use gst_rtsp_server_wfd.Permissions.{Permissions, Token, is_allowed}
use gst_rtsp_server_wfd.Auth.{
  Auth, Names, Method, factory_access, factory_construct, Verdict, is_allowed_verdict, auth_check,
  default_check, check_factory, check_role, default_authenticate,
}

-- The role is one that the permissions allow the field.
abbrev pub IsPermitted : Text → Permissions → Option Text → Type 0
IsPermitted field perms none = ⊥
IsPermitted field perms (some role) = is_allowed perms role field ≡ true

-- There are permissions and a token, and the token's role is permitted the field.
abbrev pub HasRole : Names → Text → Option Permissions → Option Token → Type 0
HasRole names field none token = ⊥
HasRole names field (some perms) none = ⊥
HasRole names field (some perms) (some token) =
    IsPermitted field perms (token.get_string names.role)

abbrev pub IsAllowed : Verdict → Type 0
IsAllowed verdict = is_allowed_verdict verdict ≡ true

check_role-access :
    (names : Names) (perms : Permissions) (o : Option Text)
    → IsAllowed (check_role names factory_access (some perms) o) ↔ IsPermitted names.access perms o
unfolding check_role
check_role-access names perms none = (λ e. absurd (cc e), λ h. absurd h)
check_role-access names perms (some role) = elim (Bool-cases (is_allowed perms role names.access)) [
  | inl e ↦ rw (check_role, e) (λ h. refl, λ h. refl)
  | inr e ↦ rw (check_role, e) (λ h. absurd (cc h), λ h. absurd (cc h))
]

check_role-construct :
    (names : Names) (perms : Permissions) (o : Option Text)
    → IsAllowed (check_role names factory_construct (some perms) o)
      ↔ IsPermitted names.construct perms o
unfolding check_role
check_role-construct names perms none = (λ e. absurd (cc e), λ h. absurd h)
check_role-construct names perms (some role) =
    elim (Bool-cases (is_allowed perms role names.construct)) [
      | inl e ↦ rw (check_role, e) (λ h. refl, λ h. refl)
      | inr e ↦ rw (check_role, e) (λ h. absurd (cc h), λ h. absurd (cc h))
    ]

check_factory-access :
    (names : Names) (perms : Option Permissions) (token : Option Token)
    → IsAllowed (check_factory names factory_access perms token)
      ↔ HasRole names names.access perms token
unfolding check_factory check_role
check_factory-access names none none = (λ e. absurd (cc e), λ h. absurd h)
check_factory-access names (some perms) none = (λ e. absurd (cc e), λ h. absurd h)
check_factory-access names none (some token) = (λ e. absurd (cc e), λ h. absurd h)
check_factory-access names (some perms) (some token) =
    check_role-access names perms (token.get_string names.role)

check_factory-construct :
    (names : Names) (perms : Option Permissions) (token : Option Token)
    → IsAllowed (check_factory names factory_construct perms token)
      ↔ HasRole names names.construct perms token
unfolding check_factory check_role
check_factory-construct names none none = (λ e. absurd (cc e), λ h. absurd h)
check_factory-construct names (some perms) none = (λ e. absurd (cc e), λ h. absurd h)
check_factory-construct names none (some token) = (λ e. absurd (cc e), λ h. absurd h)
check_factory-construct names (some perms) (some token) =
    check_role-construct names perms (token.get_string names.role)

-- With an auth, a client may access a factory exactly if the factory has permissions and the
-- client's token, the default one if the header names none, has a role that is allowed
-- media.factory.access, and construct its media exactly if the role is allowed
-- media.factory.construct.
pub auth_check_lem :
    (names : Names) (auth : Auth) (method : Method) (header : Option Text)
    (perms : Option Permissions)
    → (IsAllowed (auth_check names (some auth) none method header perms factory_access)
        ↔ HasRole names names.access perms (default_authenticate auth header))
      × (IsAllowed (auth_check names (some auth) none method header perms factory_construct)
          ↔ HasRole names names.construct perms (default_authenticate auth header))
unfolding auth_check default_check
auth_check_lem names auth method header perms = (
  check_factory-access names perms (default_authenticate auth header),
  check_factory-construct names perms (default_authenticate auth header),
)
