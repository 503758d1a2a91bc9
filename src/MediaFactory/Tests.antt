-- ===== src/MediaFactory/Tests.antt =====
-- The theorems on gst/rtsp-server/rtsp-media-factory.c at concrete factories and urls.
use gst_rtsp_server_wfd.Prelude.{
  ℕ, zero, suc, ◌≡◌, refl, ap, List, [], ◌∷◌, true, false, none, some, length, arith,
}
use gst_rtsp_server_wfd.Text.{Text, slash}
use gst_rtsp_server_wfd.Media.{suspend_none}
use gst_rtsp_server_wfd.MediaFactory.{
  Url, Settings, MediaFactory, Built, FactoryClass, media, construct, default_configure, lookup,
}
use gst_rtsp_server_wfd.MediaFactory.Key.{IsWithout, default_gen_key_lem}
use gst_rtsp_server_wfd.MediaFactory.Shared.{Call, constructs, unprepares, run, construct-run}

-- %u in unary.
abbrev unary : ℕ → Text
unary zero = []
unary (suc n) = 49 ∷ unary n

length-unary : (n : ℕ) → length (unary n) ≡ n
length-unary zero = refl
length-unary (suc n) = ap (λ m. suc m) (length-unary n)

unary_lem : (m n : ℕ) → unary m ≡ unary n → m ≡ n
unary_lem m n e = let l = ap length e in omega (arith, l, length-unary m, length-unary n)

unary-IsWithout : (n : ℕ) → IsWithout slash (unary n)
unary-IsWithout zero = tt
unary-IsWithout (suc n) = (λ e. omega (arith, e), unary-IsWithout n)

-- /a
abbrev url : Url
url = record { port = 2; abspath = 47 ∷ 97 ∷ []; query = none }

default_gen_key_lem_example :
    (url.port ≡ url.port) × ((url.abspath ≡ url.abspath) × (url.query ≡ url.query))
default_gen_key_lem_example =
    default_gen_key_lem unary url url unary_lem unary-IsWithout
      (refl, (λ e. cc e, (λ e. omega (arith, e), (λ e. omega (arith, e), tt))))
      (refl, (λ e. cc e, (λ e. omega (arith, e), (λ e. omega (arith, e), tt)))) refl

abbrev settings : Settings
settings = record {
  suspend_mode = suspend_none;
  shared = true;
  eos_shutdown = false;
  buffer_size = 524288;
  protocols = 7;
  address_pool = none;
  permissions = none;
}

abbrev factory : MediaFactory
factory = record { settings = settings; medias = []; connected = [] }

abbrev built : ℕ → Built
built m = record { ptr = m; reusable = false; settings = record settings { shared = false } }

abbrev making : ℕ → FactoryClass
making m = record {
  gen_key = some (λ u. some u.abspath);
  construct = some (λ u. some (built m));
  configure = some default_configure;
}

abbrev other : Url
other = record { port = 2; abspath = 47 ∷ 98 ∷ []; query = none }

abbrev calls : List Call
calls = constructs (making 5) other ∷ unprepares 5 ∷ []

construct-run_example :
    construct (making 9) url (run calls (construct (making 4) url factory).0)
    ≡ (run calls (construct (making 4) url factory).0, media 4)
unfolding lookup default_configure
construct-run_example =
    construct-run (making 4) (making 9) url url factory url.abspath
      (default_configure settings (built 4)) calls
      (record {
        make = λ u. some (built 4);
        raw = built 4;
        keyed = refl;
        makes = refl;
        made = refl;
        done = refl;
        shared = refl;
        is_new = refl;
      })
      (λ e. omega (arith, e), tt) refl
