-- ===== src/Telemetry/Timers.antt =====
-- The named timers of `telemetry.cpp`.
pub mod Tests
pub mod Words
use hft_sdk.Base.{
  Bool-cases, DoubleOps, Name, [], ap, arith, inl, inr, none, pos, refl, same_name, same_name-true,
  same_name_refl, some, sym, ℤ, ◌-ℤ◌, ◌∙◌, ◌∷◌, ◌≡◌, ◌≢◌, ◌⊎◌,
}
use hft_sdk.Types.{Timestamp}
use hft_sdk.Histogram.{LatencyHistogram, record_latency}
use hft_sdk.Telemetry.Timers.Words.{Within, contains_cases}
use hft_sdk.Telemetry.{
  contains, e2e_word, match_word, md_word, Timers, find_timer, put_timer, erase_timer, Telemetry,
  start_timer, end_timer, record_named,
}

find-put_timer :
    (n : Name) (now : Timestamp) (ts : Timers) → find_timer n (put_timer n now ts) ≡ some now
unfolding find_timer put_timer
find-put_timer n now [] = rw (same_name_refl n) refl
find-put_timer n now ((m, begun) ∷ ts) = elim (Bool-cases (same_name m n)) [
  | inl e ↦ rw (e, e) refl
  | inr e ↦ rw (e, e) (find-put_timer n now ts)
]

erase-put_timer :
    (n : Name) (now : Timestamp) (ts : Timers)
    → erase_timer n (put_timer n now ts) ≡ erase_timer n ts
unfolding erase_timer put_timer
erase-put_timer n now [] = rw (same_name_refl n) refl
erase-put_timer n now ((m, begun) ∷ ts) = elim (Bool-cases (same_name m n)) [
  | inl e ↦ rw (e, e) refl
  | inr e ↦ rw (e, e) (ap (λ l. (m, begun) ∷ l) (erase-put_timer n now ts))
]

find-erase_timer :
    (n k : Name) (ts : Timers) → k ≢ n → find_timer k (erase_timer n ts) ≡ find_timer k ts
unfolding find_timer erase_timer
find-erase_timer n k [] ne = refl
find-erase_timer n k ((m, begun) ∷ ts) ne = elim (Bool-cases (same_name m n)) [
  | inl e ↦ elim (Bool-cases (same_name m k)) [
    | inl f ↦ absurd (ne (sym (same_name-true m k f) ∙ same_name-true m n e))
    | inr f ↦ rw (e, f) (find-erase_timer n k ts ne)
  ]
  | inr e ↦ elim (Bool-cases (same_name m k)) [
    | inl f ↦ rw (e, f) refl
    | inr f ↦ rw (e, f) (find-erase_timer n k ts ne)
  ]
]

find-erase_timer_self : (n : Name) (ts : Timers) → find_timer n (erase_timer n ts) ≡ none
unfolding find_timer erase_timer
find-erase_timer_self n [] = refl
find-erase_timer_self n ((m, begun) ∷ ts) = elim (Bool-cases (same_name m n)) [
  | inl e ↦ rw e (find-erase_timer_self n ts)
  | inr e ↦ rw (e, e) (find-erase_timer_self n ts)
]

module _ {D : Type 0} (ops : DoubleOps D) where
  -- One sample in a latency histogram of 10000 buckets of 100 ns.
  abbrev sampled : LatencyHistogram D → ℤ → LatencyHistogram D
  sampled h ns = record_latency 10000 100 ops h ns

  -- The telemetry `out` is `t` with a sample in the histogram of the first of the words "e2e", "match" and
  -- "md" that is part of the name, and else as it was, the timers apart.
  abbrev pub IsRouted : Telemetry D → Name → ℤ → Telemetry D → Type 0
  IsRouted t n ns out =
      let e2e = Within (101 ∷ 50 ∷ 101 ∷ []) n in
      let match = Within (109 ∷ 97 ∷ 116 ∷ 99 ∷ 104 ∷ []) n in
      let md = Within (109 ∷ 100 ∷ []) n in
      let ts = out.active_timers in
      (e2e × (out ≡ record t { e2e_latency = sampled t.e2e_latency ns; active_timers = ts }))
      ⊎ ((¬ e2e)
          × match
          × (out
              ≡ record t { matching_latency = sampled t.matching_latency ns; active_timers = ts }))
      ⊎ ((¬ e2e)
          × (¬ match)
          × md
          × (out ≡ record t { md_latency = sampled t.md_latency ns; active_timers = ts }))
      ⊎ ((¬ e2e) × (¬ match) × (¬ md) × (out ≡ record t { active_timers = ts }))

  record_named-IsRouted :
      (t : Telemetry D) (n : Name) (ns : ℤ) (ts us : Timers)
      → IsRouted t n ns
          (record (record_named ops (record t { active_timers = ts }) n ns) { active_timers = us })
  unfolding record_named
  record_named-IsRouted t n ns ts us = elim (contains_cases 101 (50 ∷ 101 ∷ []) n) [
    | inl (e, w) ↦ rw e (inl (w, refl))
    | inr (e, w) ↦ elim (contains_cases 109 (97 ∷ 116 ∷ 99 ∷ 104 ∷ []) n) [
      | inl (f, x) ↦ rw (e, f) (inr (inl (w, x, refl)))
      | inr (f, x) ↦ elim (contains_cases 109 (100 ∷ []) n) [
        | inl (g, y) ↦ rw (e, f, g) (inr (inr (inl (w, x, y, refl))))
        | inr (g, y) ↦ rw (e, f, g) (inr (inr (inr (w, x, y, refl))))
      ]
    ]
  ]

  -- What a timer leaves that was started at `a` and ended at `b`.
  pub record Times (t : Telemetry D) (n : Name) (a b : Timestamp) (out : Telemetry D) : Type 0 where
    pub routed : IsRouted t n (pos b -ℤ pos a) out
    pub gone : find_timer n out.active_timers ≡ none
    pub others : (k : Name) → k ≢ n → find_timer k out.active_timers ≡ find_timer k t.active_timers

  active_timers-record_named :
      (t : Telemetry D) (n : Name) (ns : ℤ)
      → (record_named ops t n ns).active_timers ≡ t.active_timers
  unfolding record_named
  active_timers-record_named t n ns = ground arith

  -- A timer that is started at one time and ended at another leaves the telemetry with one sample
  -- of the difference, in the histogram of the first of the words e2e, match and md that is a part
  -- of its name, or with none if no word is, and without a timer of the name, also where one was
  -- active before; the timers of other names and all else stay.
  pub end_timer-Times :
      (t : Telemetry D) (n : Name) (a b : Timestamp)
      → Times t n a b (end_timer ops (start_timer ops t n a) n b)
  unfolding end_timer
  end_timer-Times t n a b =
      let started = put_timer n a t.active_timers in
      let kept =
        active_timers-record_named (record t { active_timers = started }) n (pos b -ℤ pos a) in
      let left = ap (erase_timer n) kept ∙ erase-put_timer n a t.active_timers in
      rw (find-put_timer n a t.active_timers, end_timer)
        (rw left (record {
          routed =
              record_named-IsRouted t n (pos b -ℤ pos a) started (erase_timer n t.active_timers);
          gone = find-erase_timer_self n t.active_timers;
          others = λ k ne. find-erase_timer n k t.active_timers ne;
        }))
