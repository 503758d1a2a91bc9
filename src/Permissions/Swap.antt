-- ===== src/Permissions/Swap.antt =====
-- The roles of gst/rtsp-server/rtsp-permissions.c where the last one takes the place of the first.
use gst_rtsp_server_wfd.Prelude.{
  ◌≡◌, refl, sym, ◌∙◌, ap, inl, inr, [], ◌∷◌, Bool, true, false, some, if◌then◌else◌, Bool-cases,
}
use gst_rtsp_server_wfd.Text.{Text, equal_texts, equal_texts_comm, equal_texts_eq}
use gst_rtsp_server_wfd.Permissions.{
  Role, Permissions, last_of, all_but_last, remove_head_fast, get_role,
}

unfoldable pub has_role : Text → Permissions → Bool
has_role name [] = false
has_role name (r ∷ rs) =
    let rest = has_role name rs in if equal_texts r.name name then true else rest

-- No two roles have the same name.
abbrev pub IsUnique : Permissions → Type 0
IsUnique [] = Unit {0}
IsUnique (r ∷ rs) = (has_role r.name rs ≡ false) × IsUnique rs

has_role-last_of :
    (k : Text) (r : Role) (rs : Permissions)
    → has_role k (r ∷ rs) ≡ false
    → equal_texts (last_of r rs).name k ≡ false
unfolding has_role
has_role-last_of k r [] h = elim (Bool-cases (equal_texts r.name k)) [
  | inl e ↦ absurd (cc (h, e))
  | inr e ↦ e
]
has_role-last_of k r (s ∷ rs) h = elim (Bool-cases (equal_texts r.name k)) [
  | inl e ↦ absurd (cc (h, e))
  | inr e ↦ has_role-last_of k s rs (sym (rw e refl) ∙ h)
]

-- A removed head gives its place to the last element, which nothing that has unique names shows.
get_role-swap :
    (n : Text) (r : Role) (rs : Permissions)
    → IsUnique (r ∷ rs)
    → get_role (last_of r rs ∷ all_but_last r rs) n ≡ get_role (r ∷ rs) n
unfolding get_role
get_role-swap n r [] h = refl
get_role-swap n r (s ∷ rs) (h, u) =
    let hyp = get_role-swap n s rs u in
    elim (Bool-cases (equal_texts (last_of s rs).name n)) [
      | inl e ↦
          let apart : equal_texts r.name n ≡ false = equal_texts_comm n r.name (
            ap (λ t. equal_texts t r.name) (sym (equal_texts_eq (last_of s rs).name n e))
            ∙ has_role-last_of r.name s rs h) in
          rw (e, apart) (sym (rw e refl) ∙ hyp)
      | inr e ↦ rw e (ap (λ o. if equal_texts r.name n then some r else o) (sym (rw e refl) ∙ hyp))
    ]

has_role-swap :
    (n : Text) (r : Role) (rs : Permissions)
    → has_role n (last_of r rs ∷ all_but_last r rs) ≡ has_role n (r ∷ rs)
unfolding has_role
has_role-swap n r [] = refl
has_role-swap n r (s ∷ rs) =
    let hyp = has_role-swap n s rs in
    elim (Bool-cases (equal_texts (last_of s rs).name n)) [
      | inl e ↦ elim (Bool-cases (equal_texts r.name n)) [
        | inl f ↦ rw (e, f) refl
        | inr f ↦ rw (e, f) (sym (rw e refl) ∙ hyp)
      ]
      | inr e ↦ rw e (ap (λ b. if equal_texts r.name n then true else b) (sym (rw e refl) ∙ hyp))
    ]

-- Neither the head nor the rest has the name.
pub has_role-parts :
    (n : Text) (r : Role) (rs : Permissions)
    → has_role n (r ∷ rs) ≡ false
    → (equal_texts r.name n ≡ false) × (has_role n rs ≡ false)
unfolding has_role
has_role-parts n r rs h = elim (Bool-cases (equal_texts r.name n)) [
  | inl e ↦ absurd (cc (h, e))
  | inr e ↦ (e, sym (rw e refl) ∙ h)
]

swap-IsUnique :
    (r : Role) (rs : Permissions) → IsUnique (r ∷ rs) → IsUnique (last_of r rs ∷ all_but_last r rs)
unfolding has_role
swap-IsUnique r [] h = (refl, tt)
swap-IsUnique r (s ∷ rs) (h, u) =
    let (free, others) = swap-IsUnique s rs u in
    let apart = equal_texts_comm (last_of s rs).name r.name (has_role-last_of r.name s rs h) in
    (
      rw apart free,
      (
        (has_role-parts r.name (last_of s rs) (all_but_last s rs)
            (has_role-swap r.name s rs ∙ h)).1,
        others,
      ),
    )

pub remove_head_fast-IsUnique :
    (r : Role) (rs : Permissions) → IsUnique (r ∷ rs) → IsUnique (remove_head_fast (r ∷ rs))
unfolding remove_head_fast
remove_head_fast-IsUnique r [] h = tt
remove_head_fast-IsUnique r (s ∷ rs) (h, u) = swap-IsUnique s rs u

pub get_role-remove_head_fast :
    (n : Text) (r : Role) (rs : Permissions)
    → IsUnique (r ∷ rs)
    → get_role (remove_head_fast (r ∷ rs)) n ≡ get_role rs n
unfolding remove_head_fast get_role
get_role-remove_head_fast n r [] h = refl
get_role-remove_head_fast n r (s ∷ rs) (h, u) = get_role-swap n s rs u

pub has_role-remove_head_fast :
    (n : Text) (r : Role) (rs : Permissions)
    → has_role n rs ≡ false
    → has_role n (remove_head_fast (r ∷ rs)) ≡ false
unfolding remove_head_fast has_role
has_role-remove_head_fast n r [] h = refl
has_role-remove_head_fast n r (s ∷ rs) h = has_role-swap n s rs ∙ h
