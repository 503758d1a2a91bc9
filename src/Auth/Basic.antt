-- ===== src/Auth/Basic.antt =====
-- The basic authentication of gst/rtsp-server/rtsp-auth.c.
use gst_rtsp_server_wfd.Prelude.{
  ℕ, ◌≡◌, ◌≤◌, ◌+◌, ◌⊎◌, ◌==◌, All, arith, refl, sym, ◌∙◌, ap, inl, inr, List, [], ◌∷◌, ◌++◌, Bool,
  true, false, none, some, Bool-cases, if◌then◌else◌,
}
use gst_rtsp_server_wfd.Text.{Text, equal_texts, equal_texts_eq, equal_texts_comm}
use gst_rtsp_server_wfd.Permissions.{Token}
use gst_rtsp_server_wfd.Auth.{
  Auth, remove_key, lookup_basic, add_basic, remove_basic, basic_prefix, or_else,
  default_authenticate, to_lower, behind_prefix,
}

unfoldable pub has_basic : Text → List (Text × Token) → Bool
has_basic key [] = false
has_basic key ((k, t) ∷ rest) =
    let other = has_basic key rest in if equal_texts k key then true else other

-- No two entries have the same key.
abbrev pub IsUnique : List (Text × Token) → Type 0
IsUnique [] = Unit {0}
IsUnique ((k, t) ∷ rest) = (has_basic k rest ≡ false) × IsUnique rest

has_basic-lookup_basic :
    (key : Text) (l : List (Text × Token)) → has_basic key l ≡ false → lookup_basic key l ≡ none
unfolding has_basic lookup_basic
has_basic-lookup_basic key [] h = refl
has_basic-lookup_basic key ((k, t) ∷ rest) h = elim (Bool-cases (equal_texts k key)) [
  | inl e ↦ absurd (cc (rw e at h))
  | inr e ↦ rw e (has_basic-lookup_basic key rest (rw e at h))
]

-- The key is gone, and the others are as they were.
lookup_basic-remove_key :
    (key other : Text) (l : List (Text × Token))
    → IsUnique l
    → lookup_basic other (remove_key key l)
      ≡ (if equal_texts key other then none else lookup_basic other l)
unfolding lookup_basic remove_key has_basic
lookup_basic-remove_key key other [] u = elim (Bool-cases (equal_texts key other)) [
  | inl e ↦ rw e refl
  | inr e ↦ rw e refl
]
lookup_basic-remove_key key other ((k, t) ∷ rest) (h, u) = elim (Bool-cases (equal_texts k key)) [
  | inl e ↦
      let same = equal_texts_eq k key e in
      elim (Bool-cases (equal_texts key other)) [
        | inl f ↦
            let gone : has_basic other rest ≡ false =
              ap (λ x. has_basic x rest) (sym (same ∙ equal_texts_eq key other f)) ∙ h in
            rw (remove_key, e, f) (has_basic-lookup_basic other rest gone)
        | inr f ↦
            let apart : equal_texts k other ≡ false = ap (λ x. equal_texts x other) same ∙ f in
            rw (remove_key, e, f, apart) refl
      ]
  | inr e ↦ elim (Bool-cases (equal_texts k other)) [
    | inr f ↦ rw (remove_key, e, f) (lookup_basic-remove_key key other rest u)
    | inl f ↦
        let apart : equal_texts key other ≡ false =
          equal_texts_comm other key
            (ap (λ x. equal_texts x key) (sym (equal_texts_eq k other f)) ∙ e) in
        rw (remove_key, e, f, apart) refl
  ]
]

-- The header of a client that uses the key.
abbrev pub header_for : Text → Text
header_for key = basic_prefix ++ key

-- The text spells the prefix, in upper or lower case.
abbrev pub Spells : Text → Text → Type 0
Spells [] [] = Unit {0}
Spells [] (p ∷ ps) = ⊥
Spells (c ∷ s) [] = ⊥
Spells (c ∷ s) (p ∷ ps) = ((c ≡ p) ⊎ ((97 ≤ p) × (p ≤ 122) × (c + 32 ≡ p))) × Spells s ps

to_lower_spelt :
    (c p : ℕ)
    → ¬ ((65 ≤ p) × (p ≤ 90))
    → (c ≡ p) ⊎ ((97 ≤ p) × (p ≤ 122) × (c + 32 ≡ p))
    → (to_lower c == p) ≡ true
to_lower_spelt c p lower (inl e) = ground (arith, lower, e)
to_lower_spelt c p lower (inr e) = ground (arith, e)

behind_prefix-Spells :
    (s prefix key : Text)
    → All (λ p. ¬ ((65 ≤ p) × (p ≤ 90))) prefix
    → Spells s prefix
    → behind_prefix prefix (s ++ key) ≡ some key
behind_prefix-Spells [] [] key lower h = refl
behind_prefix-Spells [] (p ∷ ps) key lower h = absurd h
behind_prefix-Spells (c ∷ s) [] key lower h = absurd h
behind_prefix-Spells (c ∷ s) (p ∷ ps) key lower h =
    rw (to_lower_spelt c p lower.0 h.0) (behind_prefix-Spells s ps key lower.1 h.1)

default_authenticate_lookup :
    (auth : Auth) (scheme key : Text)
    → Spells scheme basic_prefix
    → default_authenticate auth (some (scheme ++ key))
      ≡ or_else (lookup_basic key auth.basic) auth.default_token
unfolding default_authenticate
default_authenticate_lookup auth scheme key h =
    rw (default_authenticate, behind_prefix-Spells scheme basic_prefix key (omega arith) h) refl

-- A client that sends "Basic", in any mixture of upper and lower case, a space and a key gets the
-- token that was added for the key last; after the key was removed it gets the default token, if
-- the keys are unique. Neither touches other keys.
pub add_basic_lem :
    (auth : Auth) (scheme key other : Text) (token : Token)
    → Spells scheme basic_prefix
    → IsUnique auth.basic
    → (default_authenticate (add_basic auth key token) (some (scheme ++ other)) ≡ (
        if equal_texts key other
        then some token
        else default_authenticate auth (some (scheme ++ other))))
      × (default_authenticate (remove_basic auth key) (some (scheme ++ other)) ≡ (
          if equal_texts key other
          then auth.default_token
          else default_authenticate auth (some (scheme ++ other))))
unfolding add_basic remove_basic lookup_basic
add_basic_lem auth scheme key other token h u =
    let removed = lookup_basic-remove_key key other auth.basic u in
    rw
      (
        default_authenticate_lookup auth scheme other h,
        default_authenticate_lookup (add_basic auth key token) scheme other h,
        default_authenticate_lookup (remove_basic auth key) scheme other h,
      )
      (elim (Bool-cases (equal_texts key other)) [
        | inl e ↦ (rw e refl, rw (removed, e) refl)
        | inr e ↦ (rw (e, removed, e) refl, rw (removed, e) refl)
      ])
