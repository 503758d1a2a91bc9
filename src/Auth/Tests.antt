-- ===== src/Auth/Tests.antt =====
-- The theorems on gst/rtsp-server/rtsp-auth.c at concrete credentials.
use gst_rtsp_server_wfd.Prelude.{
  ◌≡◌, ◌↔◌, refl, arith, inl, inr, [], ◌∷◌, ◌++◌, true, none, some, if◌then◌else◌,
}
use gst_rtsp_server_wfd.Text.{Text, equal_texts}
use gst_rtsp_server_wfd.Permissions.{Permissions, Token}
use gst_rtsp_server_wfd.Auth.{
  Auth, Names, Method, factory_access, factory_construct, auth_check, add_basic, remove_basic,
  default_authenticate,
}
use gst_rtsp_server_wfd.Auth.Access.{IsAllowed, HasRole, auth_check_lem}
use gst_rtsp_server_wfd.Auth.Basic.{has_basic, add_basic_lem}

-- "Basic "
abbrev basic_scheme : Text
basic_scheme = 66 ∷ 97 ∷ 115 ∷ 105 ∷ 99 ∷ 32 ∷ []

abbrev names : Names
names = record { role = 114 ∷ []; access = 97 ∷ []; construct = 99 ∷ []; settings = 115 ∷ [] }

abbrev user : Token
user = record { get_string = λ field. some (117 ∷ []); get_boolean = λ field. some true }

abbrev auth : Auth
auth = record { basic = (49 ∷ [], user) ∷ []; default_token = none; methods = λ m. true }

abbrev permissions : Permissions
permissions =
    record { name = 117 ∷ []; get_boolean = λ field. some (equal_texts field (97 ∷ [])) } ∷ []

auth_check_lem_example :
    (IsAllowed (
        auth_check names
          (some auth)
          none
          Method.describe
          (some (basic_scheme ++ 49 ∷ []))
          (some permissions)
          factory_access)
      ↔ HasRole names names.access
          (some permissions)
          (default_authenticate auth (some (basic_scheme ++ 49 ∷ []))))
    × (IsAllowed (
          auth_check names
            (some auth)
            none
            Method.describe
            (some (basic_scheme ++ 49 ∷ []))
            (some permissions)
            factory_construct)
        ↔ HasRole names names.construct
            (some permissions)
            (default_authenticate auth (some (basic_scheme ++ 49 ∷ []))))
auth_check_lem_example =
    auth_check_lem names auth Method.describe (some (basic_scheme ++ 49 ∷ [])) (some permissions)

add_basic_lem_example :
    (default_authenticate (add_basic auth (50 ∷ []) user) (some (basic_scheme ++ 50 ∷ []))
      ≡ (if true then some user else default_authenticate auth (some (basic_scheme ++ 50 ∷ []))))
    × (default_authenticate (remove_basic auth (50 ∷ [])) (some (basic_scheme ++ 50 ∷ []))
        ≡ (if true then none else default_authenticate auth (some (basic_scheme ++ 50 ∷ []))))
unfolding has_basic
add_basic_lem_example =
    add_basic_lem auth basic_scheme (50 ∷ []) (50 ∷ []) user
      (inr (omega arith), (inl refl, (inl refl, (inl refl, (inl refl, (inl refl, tt)))))) (refl, tt)
