-- ===== src/MediaFactory/Shared.antt =====
-- The shared media of gst/rtsp-server/rtsp-media-factory.c.
use gst_rtsp_server_wfd.Prelude.{
  ℕ, ◌≡◌, ◌≢◌, refl, sym, ◌∙◌, ap, inl, inr, List, [], ◌∷◌, true, false, Option, none, some, ◌==◌,
  Bool-cases, Option-cases, ==_iff,
}
use mathlib.Core.Option.{some-injective}
use gst_rtsp_server_wfd.Text.{Text, equal_texts, equal_texts_eq, equal_texts_self}
use gst_rtsp_server_wfd.MediaFactory.{
  Url, MediaFactory, Built, FactoryClass, lookup, media, key_of, cached, configured, connect, keep,
  build, construct, remove_media, is_connected, media_unprepared,
}

not_equal : (a b : ℕ) → a ≢ b → (a == b) ≡ false
not_equal a b h = elim (Bool-cases (a == b)) [ inl e ↦ absurd (h ((==_iff a b).0 e)) | inr e ↦ e ]

-- A media that is found stays, if another one is removed.
lookup-remove_media :
    (key : Text) (m n : ℕ) (l : List (Text × ℕ))
    → lookup key l ≡ some m
    → n ≢ m
    → lookup key (remove_media n l) ≡ some m
unfolding lookup remove_media
lookup-remove_media key m n [] h d = h
lookup-remove_media key m n ((k, x) ∷ rest) h d = elim (Bool-cases (equal_texts k key)) [
  | inl e ↦
      let same : x ≡ m = some-injective x m (rw e at h) in
      let stays : (x == n) ≡ false = not_equal x n (λ y. d (sym y ∙ same)) in
      rw (remove_media, stays, e) (ap some same)
  | inr e ↦
      let hyp = lookup-remove_media key m n rest (rw e at h) d in
      elim (Bool-cases (x == n)) [
        | inl g ↦ rw (remove_media, g) hyp
        | inr g ↦ rw (remove_media, g, e) hyp
      ]
]

media_unprepared-lookup :
    (key : Text) (m n : ℕ) (f : MediaFactory)
    → lookup key f.medias ≡ some m
    → n ≢ m
    → lookup key (media_unprepared n f).medias ≡ some m
unfolding media_unprepared
media_unprepared-lookup key m n f h d = elim (Bool-cases (is_connected n f.connected)) [
  | inl e ↦ rw (media_unprepared, e) (lookup-remove_media key m n f.medias h d)
  | inr e ↦ rw (media_unprepared, e) h
]

connect_medias : (b : Built) (f : MediaFactory) → (connect b f).medias ≡ f.medias
unfolding connect
connect_medias b f = elim (Bool-cases b.reusable) [
  | inl e ↦ rw (connect, e) refl
  | inr e ↦ rw (connect, e) refl
]

-- What was not found under a key can be put there without hiding another key's media.
lookup_behind :
    (key k : Text) (m n : ℕ) (l : List (Text × ℕ))
    → lookup key l ≡ some m
    → lookup k l ≡ none
    → lookup key ((k, n) ∷ l) ≡ some m
unfolding lookup
lookup_behind key k m n l h g = elim (Bool-cases (equal_texts k key)) [
  | inr e ↦ rw e h
  | inl e ↦
      let found : lookup k l ≡ some m = ap (λ x. lookup x l) (equal_texts_eq k key e) ∙ h in
      absurd (cc (found, g))
]

keep-lookup :
    (key : Text) (m : ℕ) (o : Option Text) (b : Built) (f : MediaFactory)
    → cached o f ≡ none
    → lookup key f.medias ≡ some m
    → lookup key (keep o b f).0.medias ≡ some m
unfolding keep
keep-lookup key m none b f c h = elim (Bool-cases b.settings.shared) [
  | inl e ↦ rw (keep, e) h
  | inr e ↦ rw (keep, e) (ap (lookup key) (connect_medias b f) ∙ h)
]
keep-lookup key m (some k) b f c h = elim (Bool-cases b.settings.shared) [
  | inl e ↦
      rw (keep, e)
        (ap (lookup key) (connect_medias b (record f { medias = (k, b.ptr) ∷ f.medias }))
          ∙ lookup_behind key k m b.ptr f.medias h c)
  | inr e ↦ rw (keep, e) (ap (lookup key) (connect_medias b f) ∙ h)
]

build-lookup :
    (key : Text) (m : ℕ) (klass : FactoryClass) (url : Url) (o : Option Text) (f : MediaFactory)
    → cached o f ≡ none
    → lookup key f.medias ≡ some m
    → lookup key (build klass url o f).0.medias ≡ some m
unfolding build
build-lookup key m klass url o f c h = elim (Option-cases klass.construct) [
  | inl e ↦ rw (build, e) h
  | inr (make, e) ↦ elim (Option-cases (make url)) [
    | inl g ↦ rw (build, e, g) h
    | inr (b, g) ↦ rw (build, e, g) (keep-lookup key m o (configured klass f.settings b) f c h)
  ]
]

construct-lookup :
    (key : Text) (m : ℕ) (klass : FactoryClass) (url : Url) (f : MediaFactory)
    → lookup key f.medias ≡ some m
    → lookup key (construct klass url f).0.medias ≡ some m
unfolding construct
construct-lookup key m klass url f h = elim (Option-cases (cached (key_of klass url) f)) [
  | inl e ↦ rw (construct, e) (build-lookup key m klass url (key_of klass url) f e h)
  | inr (n, e) ↦ rw (construct, e) h
]

pub data Call : Type 0 where
  constructs : FactoryClass → Url → Call
  unprepares : ℕ → Call

abbrev pub run : List Call → MediaFactory → MediaFactory
run [] f = f
run (constructs klass url ∷ calls) f = run calls (construct klass url f).0
run (unprepares n ∷ calls) f = run calls (media_unprepared n f)

-- The media is not unprepared among the calls.
abbrev pub IsSpared : ℕ → List Call → Type 0
IsSpared m [] = Unit {0}
IsSpared m (constructs klass url ∷ calls) = IsSpared m calls
IsSpared m (unprepares n ∷ calls) = (n ≢ m) × IsSpared m calls

run-lookup :
    (key : Text) (m : ℕ) (calls : List Call) (f : MediaFactory)
    → IsSpared m calls
    → lookup key f.medias ≡ some m
    → lookup key (run calls f).medias ≡ some m
run-lookup key m [] f s h = h
run-lookup key m (constructs klass url ∷ calls) f s h =
    run-lookup key m calls (construct klass url f).0 s (construct-lookup key m klass url f h)
run-lookup key m (unprepares n ∷ calls) f (d, s) h =
    run-lookup key m calls (media_unprepared n f) s (media_unprepared-lookup key m n f h d)

-- What a class constructs for the url, configured by the factory: a shared media.
pub record Makes (klass : FactoryClass) (url : Url) (f : MediaFactory) (key : Text) (b : Built)
    : Type 0 where
  pub make : Url → Option Built
  pub raw : Built
  pub keyed : key_of klass url ≡ some key
  pub makes : klass.construct ≡ some make
  pub made : make url ≡ some raw
  pub done : configured klass f.settings raw ≡ b
  pub shared : b.settings.shared ≡ true
  pub is_new : lookup key f.medias ≡ none

keep_shared :
    (key : Text) (b : Built) (f : MediaFactory)
    → b.settings.shared ≡ true
    → lookup key (keep (some key) b f).0.medias ≡ some b.ptr
unfolding keep lookup
keep_shared key b f e =
    rw (keep, e)
      (ap (lookup key) (connect_medias b (record f { medias = (key, b.ptr) ∷ f.medias }))
        ∙ rw (equal_texts_self key) refl)

-- A media that is cached is returned, and nothing changes.
construct_cached :
    (klass : FactoryClass) (url : Url) (f : MediaFactory) (key : Text) (m : ℕ)
    → key_of klass url ≡ some key
    → lookup key f.medias ≡ some m
    → construct klass url f ≡ (f, media m)
unfolding construct
construct_cached klass url f key m k h = rw (construct, k, h) refl

construct-Makes :
    (klass : FactoryClass) (url : Url) (f : MediaFactory) (key : Text) (b : Built)
    → Makes klass url f key b
    → lookup key (construct klass url f).0.medias ≡ some b.ptr
unfolding construct build
construct-Makes klass url f key b h =
    rw (construct, h.keyed, h.is_new, build, h.makes, h.made, h.done, h.keyed)
      (keep_shared key b f h.shared)

-- A shared media that gst_rtsp_media_factory_construct makes for a key is what every later call for
-- the same key returns, without a change of the factory, whatever other media are constructed or
-- unprepared in between, until that media itself is unprepared.
pub construct-run :
    (klass klass' : FactoryClass) (url url' : Url) (f : MediaFactory) (key : Text) (b : Built)
    (calls : List Call)
    → Makes klass url f key b
    → IsSpared b.ptr calls
    → key_of klass' url' ≡ some key
    → construct klass' url' (run calls (construct klass url f).0)
      ≡ (run calls (construct klass url f).0, media b.ptr)
construct-run klass klass' url url' f key b calls h s k =
    let f' = (construct klass url f).0 in
    let found : lookup key (run calls f').medias ≡ some b.ptr =
      run-lookup key b.ptr calls f' s (construct-Makes klass url f key b h) in
    construct_cached klass' url' (run calls f') key b.ptr k found
