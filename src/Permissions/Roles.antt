-- ===== src/Permissions/Roles.antt =====
-- The roles of gst/rtsp-server/rtsp-permissions.c as a map from names.
use gst_rtsp_server_wfd.Prelude.{
  ◌≡◌, ◌≢◌, refl, sym, ◌∙◌, ap, inl, inr, [], ◌∷◌, ◌++◌, Bool, true, false, Option, none, some,
  if◌then◌else◌, Bool-cases,
}
use gst_rtsp_server_wfd.Text.{Text, equal_texts, equal_texts_comm, equal_texts_eq, equal_texts_self}
use gst_rtsp_server_wfd.Permissions.{Role, Permissions, remove_role, add_role, get_role}
use gst_rtsp_server_wfd.Permissions.Swap.{
  has_role, IsUnique, has_role-parts, remove_head_fast-IsUnique, get_role-remove_head_fast,
  has_role-remove_head_fast,
}

nothing :
    (b : Bool) → let no_role : Option Role = none in no_role ≡ (if b then no_role else no_role)
nothing true = refl
nothing false = refl

has_role-get_role : (n : Text) (rs : Permissions) → has_role n rs ≡ false → get_role rs n ≡ none
unfolding has_role get_role
has_role-get_role n [] h = refl
has_role-get_role n (r ∷ rs) h =
    let (e, f) = has_role-parts n r rs h in rw e (has_role-get_role n rs f)

has_role-remove_role :
    (n k : Text) (rs : Permissions) → has_role n rs ≡ false → has_role n (remove_role rs k) ≡ false
unfolding has_role remove_role
has_role-remove_role n k [] h = refl
has_role-remove_role n k (r ∷ rs) h =
    let (e, f) = has_role-parts n r rs h in
    elim (Bool-cases (equal_texts r.name k)) [
      | inl x ↦ rw (remove_role, x) (has_role-remove_head_fast n r rs f)
      | inr x ↦ rw (remove_role, x, has_role, e) (has_role-remove_role n k rs f)
    ]

remove_role-IsUnique : (k : Text) (rs : Permissions) → IsUnique rs → IsUnique (remove_role rs k)
unfolding remove_role
remove_role-IsUnique k [] h = tt
remove_role-IsUnique k (r ∷ rs) (h, u) = elim (Bool-cases (equal_texts r.name k)) [
  | inl x ↦ rw (remove_role, x) (remove_head_fast-IsUnique r rs (h, u))
  | inr x ↦ rw (remove_role, x) (has_role-remove_role r.name k rs h, remove_role-IsUnique k rs u)
]

-- The one role of a name was the head.
get_role_removed :
    (k n : Text) (r : Role) (rs : Permissions)
    → r.name ≡ k
    → has_role r.name rs ≡ false
    → get_role rs n ≡ (if equal_texts k n then none else get_role (r ∷ rs) n)
unfolding get_role
get_role_removed k n r rs same h = elim (Bool-cases (equal_texts k n)) [
  | inl e ↦
      let gone : has_role n rs ≡ false =
        ap (λ t. has_role t rs) (sym (same ∙ equal_texts_eq k n e)) ∙ h in
      rw e (has_role-get_role n rs gone)
  | inr e ↦
      let apart : equal_texts r.name n ≡ false = ap (λ t. equal_texts t n) same ∙ e in
      rw (e, apart) refl
]

get_role_kept :
    (k n : Text) (r : Role) (rs rest : Permissions)
    → equal_texts r.name k ≡ false
    → get_role rest n ≡ (if equal_texts k n then none else get_role rs n)
    → get_role (r ∷ rest) n ≡ (if equal_texts k n then none else get_role (r ∷ rs) n)
unfolding get_role
get_role_kept k n r rs rest x hyp = elim (Bool-cases (equal_texts r.name n)) [
  | inl e ↦
      let apart : equal_texts k n ≡ false =
        ap (λ t. equal_texts k t) (sym (equal_texts_eq r.name n e)) ∙ equal_texts_comm r.name k x in
      rw (e, apart) refl
  | inr e ↦ rw e hyp
]

get_role-remove_role :
    (k n : Text) (rs : Permissions)
    → IsUnique rs
    → get_role (remove_role rs k) n ≡ (if equal_texts k n then none else get_role rs n)
unfolding remove_role get_role
get_role-remove_role k n [] h = nothing (equal_texts k n)
get_role-remove_role k n (r ∷ rs) (h, u) = elim (Bool-cases (equal_texts r.name k)) [
  | inl x ↦
      rw (remove_role, x)
        (get_role-remove_head_fast n r rs (h, u)
          ∙ get_role_removed k n r rs (equal_texts_eq r.name k x) h)
  | inr x ↦
      rw (remove_role, x)
        (get_role_kept k n r rs (remove_role rs k) x (get_role-remove_role k n rs u))
]

-- Roles with unique names are a map: after remove_role the names are unique, no role has the name,
-- and each other name has the role that it had.
pub remove_role_lem :
    (k : Text) (rs : Permissions)
    → IsUnique rs
    → IsUnique (remove_role rs k)
      × ((n : Text)
          → get_role (remove_role rs k) n ≡ (if equal_texts k n then none else get_role rs n))
remove_role_lem k rs u = (remove_role-IsUnique k rs u, λ n. get_role-remove_role k n rs u)

has_role-append :
    (n : Text) (r : Role) (rs : Permissions)
    → has_role n rs ≡ false
    → equal_texts r.name n ≡ false
    → has_role n (rs ++ r ∷ []) ≡ false
unfolding has_role
has_role-append n r [] h e = rw e refl
has_role-append n r (s ∷ rs) h e =
    let (x, f) = has_role-parts n s rs h in rw x (has_role-append n r rs f e)

append-IsUnique :
    (r : Role) (rs : Permissions)
    → IsUnique rs
    → has_role r.name rs ≡ false
    → IsUnique (rs ++ r ∷ [])
unfolding has_role
append-IsUnique r [] u h = (refl, tt)
append-IsUnique r (s ∷ rs) (g, u) h =
    let (x, f) = has_role-parts r.name s rs h in
    (has_role-append s.name r rs g (equal_texts_comm s.name r.name x), append-IsUnique r rs u f)

get_role-append :
    (n : Text) (r : Role) (rs : Permissions)
    → get_role (rs ++ r ∷ []) n ≡ elim (get_role rs n) [
      | none ↦ (if equal_texts r.name n then some r else none)
      | some s ↦ some s
    ]
unfolding get_role
get_role-append n r [] = refl
get_role-append n r (s ∷ rs) = elim (Bool-cases (equal_texts s.name n)) [
  | inl e ↦ rw e refl
  | inr e ↦ rw e (get_role-append n r rs)
]

not_none : (r : Role) → some r ≢ none
not_none r e = cc e

same_option :
    (r : Role) (b : Bool) (o : Option Role)
    → b ≡ false
    → elim o [ none ↦ (if b then some r else none) | some s ↦ some s ] ≡ o
same_option r b none h = rw h refl
same_option r b (some s) h = refl

get_role-has_role : (n : Text) (rs : Permissions) → get_role rs n ≡ none → has_role n rs ≡ false
unfolding has_role get_role
get_role-has_role n [] h = refl
get_role-has_role n (r ∷ rs) h = elim (Bool-cases (equal_texts r.name n)) [
  | inl e ↦ absurd (not_none r (sym (rw e refl) ∙ h))
  | inr e ↦ rw e (get_role-has_role n rs (sym (rw e refl) ∙ h))
]

-- After add_role the names are unique, the name of the new role has it, and each other name has the
-- role that it had.
pub add_role_lem :
    (r : Role) (rs : Permissions)
    → IsUnique rs
    → IsUnique (add_role rs r)
      × ((n : Text)
          → get_role (add_role rs r) n ≡ (if equal_texts r.name n then some r else get_role rs n))
unfolding add_role
add_role_lem r rs u =
    let (v, map) = remove_role_lem r.name rs u in
    (
      append-IsUnique r (remove_role rs r.name) v (
          get_role-has_role r.name (remove_role rs r.name)
            (map r.name ∙ rw (equal_texts_self r.name) refl)),
      λ n. elim (Bool-cases (equal_texts r.name n)) [
        | inl e ↦ get_role-append n r (remove_role rs r.name) ∙ rw (map n, e, e) refl
        | inr e ↦
            get_role-append n r (remove_role rs r.name)
            ∙ same_option r (equal_texts r.name n) (get_role (remove_role rs r.name) n) e
            ∙ map n
            ∙ rw e refl
      ],
    )
