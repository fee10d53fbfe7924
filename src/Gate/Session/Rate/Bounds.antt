-- ===== src/Gate/Session/Rate/Bounds.antt =====
-- No window ever holds more admitted requests than its limit.
use xkk.Common.{
  ℕ, ◌+◌, ◌≤◌, ◌≡◌, inl, inr, true, List, [], ◌∷◌, ◌++◌, arith, if◌then◌else◌, filter, All,
  All-append, All-map_of, length-append, filter-append, Bool-cases,
}
use xkk.Gate.Session.{SessionConfig, ClientSession}
use xkk.Gate.Session.Rate.{admits, admit_all, rate_run, rate_run-eq-admit_all}
use xkk.Gate.Session.Rate.Windows.{within, count_within, Ascending}

-- A later window sees no more of the past.
count_mono :
    (window t now : ℕ) (history : List ℕ)
    → t ≤ now
    → All (λ at. at ≤ t) history
    → count_within window now history ≤ count_within window t history
unfolding count_within
count_mono w t now [] le h = omega arith
count_mono w t now (x ∷ xs) le h = ground (arith, count_mono w t now xs)

count-snoc :
    (window t now : ℕ) (history : List ℕ)
    → count_within window now (history ++ (t ∷ [])) ≡ (
        if within window now t
        then count_within window now history + 1
        else count_within window now history)
unfolding count_within
count-snoc w t now h =
    rw (filter-append (within w now) h (t ∷ []))
      (ground (arith, length-append (filter (within w now) h) (filter (within w now) (t ∷ []))))

abbrev IsBounded : SessionConfig → List ℕ → Type 0
IsBounded config history =
    (now : ℕ)
    → (count_within config.request_window now history ≤ config.request_window_count)
      × (count_within config.burst_window now history ≤ config.burst_count)

admit-IsBounded :
    (config : SessionConfig) (history : List ℕ) (t : ℕ)
    → All (λ at. at ≤ t) history
    → admits config history t ≡ true
    → IsBounded config history
    → IsBounded config (history ++ (t ∷ []))
unfolding admits
admit-IsBounded config history t past h bounded now = ground (
  arith,
  bounded now,
  count-snoc config.request_window t now history,
  count-snoc config.burst_window t now history,
  count_mono config.request_window t now history,
  count_mono config.burst_window t now history,
)

admit_all-IsBounded :
    (config : SessionConfig) (history : List ℕ) (last : ℕ) (ts : List ℕ)
    → Ascending last ts
    → All (λ at. at ≤ last) history
    → IsBounded config history
    → IsBounded config (admit_all config history ts)
unfolding admit_all
admit_all-IsBounded config history last [] a past b = b
admit_all-IsBounded config history last (t ∷ ts) a past b =
    let past' = All-map_of (λ at. at ≤ last) (λ at. at ≤ t) (λ at h. omega arith) history past in
    elim (Bool-cases (admits config history t)) [
      | inl e ↦ rw e (
          admit_all-IsBounded config (history ++ (t ∷ [])) t ts a.1
            (All-append (λ at. at ≤ t) history (t ∷ []) past' (omega arith, tt))
            (admit-IsBounded config history t past' e b))
      | inr e ↦ rw e (admit_all-IsBounded config history t ts a.1 past' b)
    ]

-- For requests whose times do not fall, the limiter of a session whose queue is empty never lets a
-- window hold more requests than its limit: whatever time `now` a window ends at, at most
-- `request_window_count` of the admitted requests lie in the request window and at most
-- `burst_count` in the burst window; this is where the burst window is no longer than the request
-- window.
pub rate_run_bounded :
    {C P : Type 0} (config : SessionConfig)
    → config.burst_window ≤ config.request_window
    → (s : ClientSession C P) (ts : List ℕ) → s.request_times ≡ []
    → Ascending 0 ts
    → (now : ℕ)
    → (count_within config.request_window now (rate_run s config [] ts)
        ≤ config.request_window_count)
      × (count_within config.burst_window now (rate_run s config [] ts) ≤ config.burst_count)
unfolding count_within
rate_run_bounded config shorter s ts e a now =
    rw (rate_run-eq-admit_all config shorter s ts e a)
      (admit_all-IsBounded config [] 0 ts a tt (λ _. (omega arith, omega arith)) now)
