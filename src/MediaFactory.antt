-- ===== src/MediaFactory.antt =====
-- gst/rtsp-server/rtsp-media-factory.c: the media that a factory makes, and those that it shares.
--
-- A media stands for its pointer. The functions of the factory's class are an argument: what
-- `construct` builds is its answer. %u of g_strdup_printf is an argument too.
pub mod Key
pub mod Shared
mod Tests
use gst_rtsp_server_wfd.Prelude.{
  ℕ, List, [], ◌∷◌, ◌++◌, Bool, true, false, not, Option, none, some, ◌==◌, if◌then◌else◌,
}
use gst_rtsp_server_wfd.Text.{Text, equal_texts}
use gst_rtsp_server_wfd.Media.{SuspendMode}
use gst_rtsp_server_wfd.Permissions.{Permissions, Role, add_role}

pub record Url : Type 0 where
  pub port : ℕ
  pub abspath : Text
  pub query : Option Text

-- The settings that a factory hands on to its media.
pub record Settings : Type 0 where
  pub suspend_mode : SuspendMode
  pub shared : Bool
  pub eos_shutdown : Bool
  pub buffer_size : ℕ
  pub protocols : ℕ
  pub address_pool : Option ℕ
  pub permissions : Option Permissions

-- `connected` are the media whose "unprepared" signal the factory listens to.
pub record MediaFactory : Type 0 where
  pub settings : Settings
  pub medias : List (Text × ℕ)
  pub connected : List ℕ

pub record Built : Type 0 where
  pub ptr : ℕ
  pub reusable : Bool
  pub settings : Settings

pub record FactoryClass : Type 0 where
  pub gen_key : Option (Url → Option Text)
  pub construct : Option (Url → Option Built)
  pub configure : Option (Settings → Built → Built)

-- The factory's, if it has one; else the media keeps its own.
abbrev set_if_some {ℓ} : {A : Type ℓ} → Option A → Option A → Option A
set_if_some none own = own
set_if_some (some a) own = some a

pub default_configure : Settings → Built → Built
default_configure factory media = record media {
  settings = record {
    suspend_mode = factory.suspend_mode;
    shared = factory.shared;
    eos_shutdown = factory.eos_shutdown;
    buffer_size = factory.buffer_size;
    protocols = factory.protocols;
    address_pool = set_if_some factory.address_pool media.settings.address_pool;
    permissions = set_if_some factory.permissions media.settings.permissions;
  };
}

-- What the key has for the query; "?" is 63.
abbrev pub query_text : Option Text → Text
query_text none = []
query_text (some query) = 63 ∷ query

pub default_gen_key : (ℕ → Text) → Url → Text
default_gen_key print url = print url.port ++ (url.abspath ++ query_text url.query)

-- g_hash_table_lookup
unfoldable pub lookup : Text → List (Text × ℕ) → Option ℕ
lookup key [] = none
lookup key ((k, m) ∷ rest) =
    let other = lookup key rest in if equal_texts k key then some m else other

-- What gst_rtsp_media_factory_construct returns; a NULL key that is inserted is hashed as a string.
pub data Answer : Type 0 where
  media : ℕ → Answer
  null : Answer
  undefined : Answer

abbrev pub key_of : FactoryClass → Url → Option Text
key_of klass url = elim klass.gen_key [ none ↦ none | some gen_key ↦ gen_key url ]

abbrev cached : Option Text → MediaFactory → Option ℕ
cached none f = none
cached (some key) f = lookup key f.medias

abbrev pub configured : FactoryClass → Settings → Built → Built
configured klass settings b = elim klass.configure [
  | none ↦ b
  | some configure ↦ configure settings b
]

connect : Built → MediaFactory → MediaFactory
connect b f = if b.reusable then f else record f { connected = b.ptr ∷ f.connected }

-- A media that is configured goes to the table, if it is shared.
keep : Option Text → Built → MediaFactory → MediaFactory × Answer
unfolding connect
keep none b f = if b.settings.shared then (f, undefined) else (connect b f, media b.ptr)
keep (some key) b f =
    if b.settings.shared
    then (connect b (record f { medias = (key, b.ptr) ∷ f.medias }), media b.ptr)
    else (connect b f, media b.ptr)

-- Nothing cached was found.
build : FactoryClass → Url → Option Text → MediaFactory → MediaFactory × Answer
unfolding keep
build klass url key f = elim klass.construct [
  | none ↦ (f, null)
  | some construct ↦ elim (construct url) [
    | none ↦ (f, null)
    | some b ↦ keep key (configured klass f.settings b) f
  ]
]

pub construct : FactoryClass → Url → MediaFactory → MediaFactory × Answer
unfolding build
construct klass url f =
    let key = key_of klass url in
    elim (cached key f) [ some m ↦ (f, media m) | none ↦ build klass url key f ]

-- g_hash_table_foreach_remove with compare_media
remove_media : ℕ → List (Text × ℕ) → List (Text × ℕ)
remove_media m [] = []
remove_media m ((k, n) ∷ rest) =
    let others = remove_media m rest in if n == m then others else (k, n) ∷ others

abbrev is_connected : ℕ → List ℕ → Bool
is_connected m [] = false
is_connected m (n ∷ ns) = let rest = is_connected m ns in if n == m then true else rest

-- The signal "unprepared" of a media, for a factory that is still there.
pub media_unprepared : ℕ → MediaFactory → MediaFactory
unfolding remove_media
media_unprepared m f =
    if is_connected m f.connected then record f { medias = remove_media m f.medias } else f

-- gst_rtsp_media_factory_add_role; a factory without permissions gets new ones.
pub factory_add_role : Role → MediaFactory → MediaFactory
factory_add_role r f =
    let permissions : Permissions = elim f.settings.permissions [ none ↦ [] | some p ↦ p ] in
    record f { settings = record f.settings { permissions = some (add_role permissions r) } }
