-- ===== src/WfdClient/Resolution.antt =====
-- The resolution that gst/rtsp-server/rtsp-client-wfd.c chooses.
use gst_rtsp_server_wfd.Prelude.{
  ℕ, zero, suc, ◌<◌, ◌≡◌, refl, subst, ltb, ltb→lt, ◌⊎◌, inl, inr, true, ◌&&◌, Option, none, some,
  arith, Bool-cases,
}
use gst_rtsp_server_wfd.WfdClient.{has_bit, flag, find_bit, get_prefered_resolution}

abbrev pub IsCommon : ℕ → ℕ → ℕ → Type 0
IsCommon src sink k = (has_bit sink k && has_bit src k) ≡ true

-- The highest bit below n that both masks have.
abbrev IsHighest : ℕ → ℕ → ℕ → Option ℕ → Type 0
IsHighest n src sink none = (j : ℕ) → j < n → ¬ IsCommon src sink j
IsHighest n src sink (some k) =
    (k < n) × (IsCommon src sink k × ((j : ℕ) → k < j → j < n → ¬ IsCommon src sink j))

below_cases : (j n : ℕ) → j < suc n → (j < n) ⊎ (j ≡ n)
below_cases j n h = elim (Bool-cases (ltb j n)) [
  | inl e ↦ inl (ltb→lt j n e)
  | inr e ↦ inr (ground (arith, e, h))
]

one_more :
    (n src sink : ℕ) (o : Option ℕ)
    → ¬ IsCommon src sink n
    → IsHighest n src sink o
    → IsHighest (suc n) src sink o
one_more n src sink none lacks h = λ j below c. elim (below_cases j n below) [
  | inl less ↦ h j less c
  | inr e ↦ lacks (subst (IsCommon src sink) e c)
]
one_more n src sink (some k) lacks (less, (is, top)) = (
  omega (arith, less),
  (
    is,
    λ j above below c. elim (below_cases j n below) [
      | inl under ↦ top j above under c
      | inr e ↦ lacks (subst (IsCommon src sink) e c)
    ],
  ),
)

find_bit-IsHighest : (n src sink : ℕ) → IsHighest n src sink (find_bit n src sink)
unfolding find_bit
find_bit-IsHighest zero src sink = λ j h c. omega (arith, h)
find_bit-IsHighest (suc n) src sink = elim (Bool-cases (has_bit sink n && has_bit src n)) [
  | inl e ↦ rw (find_bit, e) (omega arith, (e, λ j above below c. omega (arith, above, below)))
  | inr e ↦
      rw (find_bit, e)
        (one_more n src sink (find_bit n src sink) (λ c. cc (c, e)) (find_bit-IsHighest n src sink))
]

-- The answer stands for the highest of the bits 0 to 31 that both masks have, or it is 0 and they
-- have none of them in common.
abbrev pub IsPrefered : ℕ → ℕ → ℕ → Type 0
IsPrefered src sink r =
    ((r ≡ 0) × ((j : ℕ) → j < 32 → ¬ IsCommon src sink j))
    ⊎ ((k : ℕ) × ((r ≡ flag k)
          × ((k < 32)
              × (IsCommon src sink k × ((j : ℕ) → k < j → j < 32 → ¬ IsCommon src sink j)))))

chosen-IsPrefered :
    (src sink : ℕ) (o : Option ℕ)
    → IsHighest 32 src sink o
    → IsPrefered src sink (elim o [ none ↦ 0 | some k ↦ flag k ])
chosen-IsPrefered src sink none h = inl (refl, h)
chosen-IsPrefered src sink (some k) (less, (is, top)) = inr (k, (refl, (less, (is, top))))

-- wfd_get_prefered_resolution returns the flag of the highest of the bits 0 to 31 that the masks of
-- the source and of the sink have in common, or 0 if there is none.
pub get_prefered_resolution_lem :
    (src sink : ℕ) → IsPrefered src sink (get_prefered_resolution src sink)
unfolding get_prefered_resolution
get_prefered_resolution_lem src sink =
    chosen-IsPrefered src sink (find_bit 32 src sink) (find_bit-IsHighest 32 src sink)
