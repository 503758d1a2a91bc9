-- ===== src/Auth/Checks.antt =====
-- What the checks of gst/rtsp-server/rtsp-auth.c answer.
use gst_rtsp_server_wfd.Prelude.{
  ◌≢◌, refl, inl, inr, Bool, true, false, Option, none, some, Bool-cases,
}
use gst_rtsp_server_wfd.Text.{Text}
use gst_rtsp_server_wfd.Permissions.{Permissions, Token, is_allowed}
use gst_rtsp_server_wfd.Auth.{
  Auth, Names, Method, Check, check_connect, check_url, factory_access, factory_construct,
  client_settings, Verdict, allowed, refused, refused_with, auth_check, check_factory, check_role,
  check_methods, default_authenticate, or_else,
}

-- The check passed, or a response was sent.
abbrev pub IsAnswered : Verdict → Type 0
IsAnswered allowed = Unit {0}
IsAnswered refused = ⊥
IsAnswered (refused_with code) = Unit {0}

check_role-IsAnswered :
    (names : Names) (c : Check) (perms : Option Permissions) (role : Option Text)
    → IsAnswered (check_role names c perms role)
unfolding check_role
check_role-IsAnswered names c none role = tt
check_role-IsAnswered names c (some perms) none = tt
check_role-IsAnswered names factory_access (some perms) (some role) =
    elim (Bool-cases (is_allowed perms role names.access)) [
      | inl e ↦ rw (e, check_role) tt
      | inr e ↦ rw (e, check_role) tt
    ]
check_role-IsAnswered names factory_construct (some perms) (some role) =
    elim (Bool-cases (is_allowed perms role names.construct)) [
      | inl e ↦ rw (e, check_role) tt
      | inr e ↦ rw (e, check_role) tt
    ]
check_role-IsAnswered names check_connect (some perms) (some role) = tt
check_role-IsAnswered names check_url (some perms) (some role) = tt
check_role-IsAnswered names client_settings (some perms) (some role) = tt

check_methods-IsAnswered : (b : Bool) (token : Option Token) → IsAnswered (check_methods b token)
unfolding check_methods
check_methods-IsAnswered false token = tt
check_methods-IsAnswered true none = tt
check_methods-IsAnswered true (some token) = tt

check_factory-IsAnswered :
    (names : Names) (c : Check) (perms : Option Permissions) (token : Option Token)
    → IsAnswered (check_factory names c perms token)
unfolding check_factory
check_factory-IsAnswered names c perms none = tt
check_factory-IsAnswered names c none (some token) = tt
check_factory-IsAnswered names c (some perms) (some token) =
    check_role-IsAnswered names c (some perms) (token.get_string names.role)

-- Every check but the one for the client's transport settings either passes or has sent a response.
pub auth_check-IsAnswered :
    (names : Names) (auth : Option Auth) (token : Option Token) (method : Method)
    (header : Option Text) (perms : Option Permissions) (c : Check)
    → c ≢ client_settings
    → IsAnswered (auth_check names auth token method header perms c)
unfolding auth_check
auth_check-IsAnswered names none token method header perms client_settings h = absurd (h refl)
auth_check-IsAnswered names none token method header perms check_connect h = tt
auth_check-IsAnswered names none token method header perms check_url h = tt
auth_check-IsAnswered names none token method header perms factory_access h = tt
auth_check-IsAnswered names none token method header perms factory_construct h = tt
auth_check-IsAnswered names (some auth) token method header perms client_settings h =
    absurd (h refl)
auth_check-IsAnswered names (some auth) token method header perms check_connect h = tt
auth_check-IsAnswered names (some auth) token method header perms check_url h =
    check_methods-IsAnswered (auth.methods method)
      (or_else token (default_authenticate auth header))
auth_check-IsAnswered names (some auth) token method header perms factory_access h =
    check_factory-IsAnswered names factory_access perms
      (or_else token (default_authenticate auth header))
auth_check-IsAnswered names (some auth) token method header perms factory_construct h =
    check_factory-IsAnswered names factory_construct perms
      (or_else token (default_authenticate auth header))
