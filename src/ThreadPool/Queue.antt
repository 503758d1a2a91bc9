-- ===== src/ThreadPool/Queue.antt =====
-- The queue of gst/rtsp-server/rtsp-thread-pool.c over gst_rtsp_thread_pool_get_thread.
use gst_rtsp_server_wfd.Prelude.{
  ℕ, suc, ◌≤◌, ◌<◌, ◌≡◌, refl, ap, ◌∙◌, ◌⊎◌, inl, inr, List, [], ◌∷◌, ◌++◌, Bool, true, false,
  Option, none, some, length, arith, Bool-cases,
}
use gst_rtsp_server_wfd.Prelude.Int.{ℤ, pos, is_positive, increment}
use gst_rtsp_server_wfd.ThreadPool.{
  Thread, ThreadPool, client, get_thread, get_client_thread, recycle, make_thread, reuse,
  max_reached, is_none,
}

-- The thread, used once more.
abbrev again : Thread → Thread
again t = record t { reused = increment t.reused }

-- What a queue of at most n threads becomes, and what thread is handed out.
abbrev pub Recycles : ℕ → Bool → Thread → List Thread → List Thread → Option Thread → Type 0
Recycles n pushed new before after answer =
    ((t : Thread) × (ts : List Thread) × (before ≡ t ∷ ts)
      × (length before ≡ n)
      × (is_positive t.reused ≡ true)
      × (after ≡ ts ++ again t ∷ [])
      × (answer ≡ some (again t)))
    ⊎ ((rest : List Thread) × ((rest ≡ before)
          ⊎ ((t : Thread) × (before ≡ t ∷ rest)
              × (length before ≡ n)
              × (is_positive t.reused ≡ false)))
        × (length rest < n)
        × (((pushed ≡ true) × (after ≡ rest ++ new ∷ []) × (answer ≡ some new))
            ⊎ ((pushed ≡ false) × (after ≡ rest) × (answer ≡ none))))

max_reached_lem :
    (n : ℕ) (ts : List Thread)
    → length ts ≤ suc n
    → max_reached (pos (suc n)) ts ≡ true
    → length ts ≡ suc n
max_reached_lem n ts le h = ground (arith, le, h)

max_missed : (n : ℕ) (ts : List Thread) → max_reached (pos (suc n)) ts ≡ false → length ts < suc n
max_missed n ts h = ground (arith, h)

below_max : (n : ℕ) (ts : List Thread) → length ts < suc n → max_reached (pos (suc n)) ts ≡ false
below_max n ts h = ground (arith, h)

-- One more thread fits in.
Grown : ℤ → Bool → ℕ → List Thread → Type 0
Grown max pushed ptr ts =
    ((pushed ≡ true)
      × (recycle max pushed ptr ts ≡ (ts ++ make_thread ptr ∷ [], some (make_thread ptr))))
    ⊎ ((pushed ≡ false) × (recycle max pushed ptr ts ≡ (ts, none)))

recycle-Grown :
    (max : ℤ) (pushed : Bool) (ptr : ℕ) (ts : List Thread)
    → max_reached max ts ≡ false
    → Grown max pushed ptr ts
unfolding Grown recycle
recycle-Grown max true ptr [] h = inl (refl, refl)
recycle-Grown max false ptr [] h = inr (refl, refl)
recycle-Grown max true ptr (t ∷ ts) h = inl (refl, rw (recycle, h) refl)
recycle-Grown max false ptr (t ∷ ts) h = inr (refl, rw (recycle, h) refl)

-- The part of Recycles about a new thread.
Grown-Recycles :
    (n : ℕ) (pushed : Bool) (ptr : ℕ) (before rest : List Thread) (r : List Thread × Option Thread)
    → (rest ≡ before)
      ⊎ ((t : Thread) × (before ≡ t ∷ rest)
          × (length before ≡ suc n)
          × (is_positive t.reused ≡ false))
    → length rest < suc n
    → r ≡ recycle (pos (suc n)) pushed ptr rest
    → Recycles (suc n) pushed (make_thread ptr) before r.0 r.1
unfolding Grown
Grown-Recycles n pushed ptr before rest r o l e =
    elim (recycle-Grown (pos (suc n)) pushed ptr rest (below_max n rest l)) [
      | inl (p, g) ↦ inr (rest, o, l, inl (p, ap (λ x. x.0) (e ∙ g), ap (λ x. x.1) (e ∙ g)))
      | inr (p, g) ↦ inr (rest, o, l, inr (p, ap (λ x. x.0) (e ∙ g), ap (λ x. x.1) (e ∙ g)))
    ]

recycle_alive :
    (max : ℤ) (pushed : Bool) (ptr : ℕ) (t : Thread) (ts : List Thread)
    → max_reached max (t ∷ ts) ≡ true
    → is_positive t.reused ≡ true
    → recycle max pushed ptr (t ∷ ts) ≡ (ts ++ again t ∷ [], some (again t))
unfolding recycle reuse
recycle_alive max pushed ptr t ts h a = rw (recycle, h, a) refl

recycle_dead :
    (max : ℤ) (pushed : Bool) (ptr : ℕ) (t : Thread) (ts : List Thread)
    → max_reached max (t ∷ ts) ≡ true
    → is_positive t.reused ≡ false
    → recycle max pushed ptr (t ∷ ts) ≡ recycle max pushed ptr ts
unfolding recycle reuse
recycle_dead max pushed ptr t ts h a = rw (recycle, h, a) refl

recycle-Recycles :
    (n : ℕ) (pushed : Bool) (ptr : ℕ) (ts : List Thread)
    → length ts ≤ suc n
    → Recycles
        (suc n)
        pushed
        (make_thread ptr)
        ts
        (recycle (pos (suc n)) pushed ptr ts).0
        (recycle (pos (suc n)) pushed ptr ts).1
recycle-Recycles n pushed ptr [] le =
    Grown-Recycles n pushed ptr [] [] (recycle (pos (suc n)) pushed ptr []) (inl refl) (omega arith)
      refl
recycle-Recycles n pushed ptr (t ∷ ts) le = elim (Bool-cases (max_reached (pos (suc n)) (t ∷ ts))) [
  | inr h ↦
      Grown-Recycles n pushed ptr (t ∷ ts) (t ∷ ts) (recycle (pos (suc n)) pushed ptr (t ∷ ts))
        (inl refl) (max_missed n (t ∷ ts) h) refl
  | inl h ↦ elim (Bool-cases (is_positive t.reused)) [
    | inl a ↦
        let e = recycle_alive (pos (suc n)) pushed ptr t ts h a in
        inl (t, ts, refl, max_reached_lem n (t ∷ ts) le h, a, ap (λ x. x.0) e, ap (λ x. x.1) e)
    | inr a ↦
        Grown-Recycles n pushed ptr (t ∷ ts) ts (recycle (pos (suc n)) pushed ptr (t ∷ ts))
          (inr (t, refl, max_reached_lem n (t ∷ ts) le h, a)) (omega (arith, le))
          (recycle_dead (pos (suc n)) pushed ptr t ts h a)
  ]
]

-- gst_rtsp_thread_pool_get_thread for a client, with a positive limit and a queue within it: where
-- the queue is full and its first thread is not stopping, that thread is used once more and goes
-- to the end; else a new thread goes to the end, if GLib takes it, and the first one leaves the
-- queue only if it is full and that one is stopping. Without a thread, and only then, the pool's
-- mutex stays locked.
pub get_thread-Recycles :
    (pushed : Bool) (ptr n : ℕ) (p : ThreadPool)
    → p.max_threads ≡ pos (suc n)
    → length p.threads ≤ suc n
    → Recycles
        (suc n)
        pushed
        (make_thread ptr)
        p.threads
        (get_thread client pushed ptr p).0.threads
        (get_thread client pushed ptr p).1
      × ((get_thread client pushed ptr p).0.locked ≡ is_none (get_thread client pushed ptr p).1)
unfolding get_thread get_client_thread
get_thread-Recycles pushed ptr n p m le =
    rw (get_thread, get_client_thread, m) (recycle-Recycles n pushed ptr p.threads le, refl)
