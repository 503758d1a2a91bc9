-- ===== src/Auth.antt =====
-- gst/rtsp-server/rtsp-auth.c: who may do what.
--
-- The strings that name the checks are a data type. What a check that fails has sent is part of its
-- answer. The TLS certificate is left out.
pub mod Checks
pub mod Access
pub mod Basic
mod Tests
use gst_rtsp_server_wfd.Prelude.{
  ℕ, List, [], ◌∷◌, Bool, true, false, not, ◌&&◌, Option, none, some, ◌==◌, length, if◌then◌else◌,
  leb, ◌-◌, ◌||◌, ltb, ◌+◌, zero, suc,
}
use gst_rtsp_server_wfd.Text.{Text, equal_texts}
use gst_rtsp_server_wfd.Permissions.{Permissions, Token, is_allowed, token_is_allowed}

pub data Method : Type 0 where
  options describe setup play pause teardown get_parameter set_parameter announce_method
        record_method redirect invalid :
      Method

pub data Check : Type 0 where
  check_connect check_url factory_access factory_construct client_settings : Check

pub record Auth : Type 0 where
  pub basic : List (Text × Token)
  pub default_token : Option Token
  pub methods : Method → Bool

-- The codes are those of RTSP. `refused` has sent no response.
pub data Verdict : Type 0 where
  allowed refused : Verdict
  refused_with : ℕ → Verdict

abbrev pub is_allowed_verdict : Verdict → Bool
is_allowed_verdict allowed = true
is_allowed_verdict _ = false

-- g_hash_table_remove and g_hash_table_replace
remove_key : Text → List (Text × Token) → List (Text × Token)
remove_key key [] = []
remove_key key ((k, t) ∷ rest) =
    let others = remove_key key rest in if equal_texts k key then rest else (k, t) ∷ others

pub lookup_basic : Text → List (Text × Token) → Option Token
lookup_basic key [] = none
lookup_basic key ((k, t) ∷ rest) =
    let other = lookup_basic key rest in if equal_texts k key then some t else other

pub add_basic : Auth → Text → Token → Auth
unfolding remove_key
add_basic auth key token = record auth { basic = (key, token) ∷ remove_key key auth.basic }

pub remove_basic : Auth → Text → Auth
unfolding remove_key
remove_basic auth key = record auth { basic = remove_key key auth.basic }

pub set_default_token : Auth → Option Token → Auth
set_default_token auth token = record auth { default_token = token }

-- The lower-case letter, for `g_ascii_strncasecmp`.
abbrev pub to_lower : ℕ → ℕ
to_lower c = if leb 65 c && leb c 90 then c + 32 else c

-- The rest of the text behind a prefix, in either case.
abbrev pub behind_prefix : Text → Text → Option Text
behind_prefix [] s = some s
behind_prefix (p ∷ ps) [] = none
behind_prefix (p ∷ ps) (c ∷ s) =
    let rest = behind_prefix ps s in if to_lower c == p then rest else none

-- "basic "
abbrev pub basic_prefix : Text
basic_prefix = 98 ∷ 97 ∷ 115 ∷ 105 ∷ 99 ∷ 32 ∷ []

abbrev pub or_else : Option Token → Option Token → Option Token
or_else none other = other
or_else (some t) other = some t

-- The token that default_authenticate sets, for the Authorization header, if there is one. It
-- always succeeds.
pub default_authenticate : Auth → Option Text → Option Token
unfolding lookup_basic
default_authenticate auth none = auth.default_token
default_authenticate auth (some authorization) = elim (behind_prefix basic_prefix authorization) [
  | none ↦ auth.default_token
  | some key ↦ or_else (lookup_basic key auth.basic) auth.default_token
]

abbrev unauthorized : Verdict
unauthorized = refused_with 401

-- media.factory.role, media.factory.access, media.factory.construct and transport.client-settings
pub record Names : Type 0 where
  pub role : Text
  pub access : Text
  pub construct : Text
  pub settings : Text

check_role : Names → Check → Option Permissions → Option Text → Verdict
check_role names check none role = unauthorized
check_role names check (some perms) none = unauthorized
check_role names factory_access (some perms) (some role) =
    if is_allowed perms role names.access then allowed else refused_with 404
check_role names factory_construct (some perms) (some role) =
    if is_allowed perms role names.construct then allowed else unauthorized
check_role names _ (some perms) (some role) = allowed

check_factory : Names → Check → Option Permissions → Option Token → Verdict
unfolding check_role
check_factory names check perms none = unauthorized
check_factory names check perms (some token) =
    check_role names check perms (token.get_string names.role)

check_settings : Names → Option Token → Verdict
check_settings names none = unauthorized
check_settings names (some token) =
    if token_is_allowed token names.settings then allowed else refused

check_methods : Bool → Option Token → Verdict
check_methods false token = allowed
check_methods true none = unauthorized
check_methods true (some token) = allowed

-- default_check, for the token that the context ends up with.
default_check : Names → Auth → Method → Option Permissions → Option Token → Check → Verdict
unfolding check_factory check_settings check_methods
default_check names auth method perms token check_connect = allowed
default_check names auth method perms token check_url = check_methods (auth.methods method) token
default_check names auth method perms token factory_access =
    check_factory names factory_access perms token
default_check names auth method perms token factory_construct =
    check_factory names factory_construct perms token
default_check names auth method perms token client_settings = check_settings names token

unfoldable pub no_auth_check : Check → Verdict
no_auth_check client_settings = refused
no_auth_check _ = allowed

-- gst_rtsp_auth_check, with the auth and the token of the context, the method and the Authorization
-- header of its request and the permissions of its factory.
unfoldable pub auth_check :
    Names → Option Auth → Option Token → Method → Option Text → Option Permissions → Check → Verdict
unfolding default_check no_auth_check default_authenticate
auth_check names none token method header perms check = no_auth_check check
auth_check names (some auth) token method header perms check =
    default_check names auth method perms (or_else token (default_authenticate auth header)) check
