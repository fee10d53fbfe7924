-- ===== src/Gate/Session/Rate.antt =====
-- The request limiter of a session against one that keeps every request it ever admitted: the
-- pruned queue and the scan that stops early decide as the whole history would.
pub mod Windows
pub mod Bounds
use mathlib.Core.List.{reverse}
use xkk.Common.{
  ℕ, suc, ◌+◌, ◌-◌, ◌≤◌, ◌<◌, ◌≡◌, refl, sym, ap, ◌∙◌, inl, inr, Bool, true, false, not, ◌&&◌, List,
  [], ◌∷◌, ◌++◌, arith, ltb, leb, if◌then◌else◌, length, filter, drop_while, take_while, All,
  All-append, All-append_left, All-map₂, subst, All-map_of, length-append, filter-append,
  filter_none, drop_while_split, length-filter-reverse, append_assoc, append-nil, Bool-cases,
}
use xkk.Gate.Session.{SessionConfig, ClientSession, accept_rate}
use Windows.{
  within, count_within, Ascending, Descending, Descending-reverse, scan-eq-count, pruned-eq-count,
  Ascending-drop, Ascending-snoc, All-drop, All-reverse,
}

-- The reference limiter over all admitted times, oldest first.
pub admits : SessionConfig → List ℕ → ℕ → Bool
admits config history now =
    ltb (count_within config.request_window now history) config.request_window_count
    && ltb (count_within config.burst_window now history) config.burst_count

pub admit_all : SessionConfig → List ℕ → List ℕ → List ℕ
admit_all config history [] = history
admit_all config history (t ∷ ts) =
    admit_all config (if admits config history t then history ++ (t ∷ []) else history) ts

-- The session's limiter, with the times that it admitted put behind `history`.
unfoldable pub rate_run :
    {C P : Type 0} → ClientSession C P → SessionConfig → List ℕ → List ℕ → List ℕ
rate_run s config history [] = history
rate_run s config history (t ∷ ts) =
    let (s', accepted) = accept_rate s t config in
    rate_run s' config (if accepted then history ++ (t ∷ []) else history) ts

-- What ties the queue of a session to the history at time `now`: the history is old times, all of
-- them outside the window, and then the queue, which rises up to `now`.
record Tracks (config : SessionConfig) (history : List ℕ) (now : ℕ) (queue : List ℕ) : Type 0 where
  old : List ℕ
  split : history ≡ old ++ queue
  aged : All (λ at. at + config.request_window ≤ now) old
  rises : Ascending 0 queue
  past : All (λ at. at ≤ now) queue

-- Times that have left the longer window are in no shorter one.
old_count :
    (window longer last now : ℕ) (old queue : List ℕ)
    → window ≤ longer
    → last ≤ now
    → All (λ at. at + longer ≤ last) old
    → count_within window now (old ++ queue) ≡ count_within window now queue
unfolding count_within
old_count w l last now old q h le a = rw (
  filter-append (within w now) old q,
  filter_none (within w now) old (
      All-map_of (λ at. at + l ≤ last) (λ at. within w now at ≡ false) (λ at k. ground arith) old
        a),
)

Tracks-drop :
    (config : SessionConfig) (history : List ℕ) (last now : ℕ) (queue : List ℕ)
    → last ≤ now
    → Tracks config history last queue
    → Tracks config history now (drop_while (λ at. leb config.request_window (now - at)) queue)
Tracks-drop config history last now queue le k =
    let window = config.request_window in
    let stale = λ (at : ℕ). leb window (now - at) in
    let (pre, s, h) = drop_while_split stale queue in
    record {
      old = k.old ++ pre;
      split = k.split ∙ ap (◌++◌ k.old) s ∙ sym (append_assoc k.old pre (drop_while stale queue));
      aged =
          All-append (λ at. at + window ≤ now) k.old pre
            (All-map_of (λ at. at + window ≤ last) (λ at. at + window ≤ now) (λ at e. omega arith)
              k.old k.aged)
            (All-map₂ (λ at. stale at ≡ true) (λ at. at ≤ last) (λ at. at + window ≤ now)
              (λ at e f. ground arith) pre h
              (All-append_left (λ at. at ≤ last) pre (drop_while stale queue)
                (subst (All (λ at. at ≤ last)) s k.past)));
      rises = Ascending-drop stale 0 queue k.rises;
      past =
          All-drop (λ at. at ≤ now) stale queue
            (All-map_of (λ at. at ≤ last) (λ at. at ≤ now) (λ at e. omega arith) queue k.past);
    }

Tracks-admit :
    (config : SessionConfig) (history : List ℕ) (now : ℕ) (queue : List ℕ)
    → Tracks config history now queue
    → Tracks config (history ++ (now ∷ [])) now (queue ++ (now ∷ []))
Tracks-admit config history now queue k = record {
  old = k.old;
  split = ap (λ l. l ++ (now ∷ [])) k.split ∙ append_assoc k.old queue (now ∷ []);
  aged = k.aged;
  rises = Ascending-snoc 0 now queue k.rises k.past (omega arith);
  past = All-append (λ at. at ≤ now) queue (now ∷ []) k.past (omega arith, tt);
}

-- The two counts of the session's limiter are those of the reference.
long_count :
    (config : SessionConfig) (history : List ℕ) (last now : ℕ) (queue : List ℕ)
    → last ≤ now
    → Tracks config history last queue
    → length (drop_while (λ at. leb config.request_window (now - at)) queue)
      ≡ count_within config.request_window now history
unfolding count_within
long_count config history last now queue le k = rw (k.split) (
    pruned-eq-count config.request_window now 0 queue k.rises
      (All-map_of (λ at. at ≤ last) (λ at. at ≤ now) (λ at e. omega arith) queue k.past)
    ∙ sym (
        old_count config.request_window config.request_window last now k.old queue (omega arith) le
          k.aged))

burst_count :
    (config : SessionConfig) (history : List ℕ) (now : ℕ) (queue : List ℕ)
    → config.burst_window ≤ config.request_window
    → Tracks config history now queue
    → length (take_while (λ at. ltb (now - at) config.burst_window) (reverse queue))
      ≡ count_within config.burst_window now history
unfolding count_within
burst_count config history now queue h k = rw (k.split) (
    scan-eq-count config.burst_window now now (reverse queue) (omega arith)
      (Descending-reverse 0 now queue k.rises k.past)
    ∙ length-filter-reverse (within config.burst_window now) queue
    ∙ sym (
        old_count config.burst_window config.request_window now now k.old queue h (omega arith)
          k.aged))

module _ {C P : Type 0} (config : SessionConfig)
    (shorter : config.burst_window ≤ config.request_window) where
  accept_rate-eq-admits :
      (s : ClientSession C P) (history : List ℕ) (last now : ℕ)
      → last ≤ now
      → Tracks config history last s.request_times
      → (accept_rate s now config).1 ≡ admits config history now
  unfolding accept_rate admits
  accept_rate-eq-admits s history last now le k =
      let times = drop_while (λ at. leb config.request_window (now - at)) s.request_times in
      ground (
        arith,
        long_count config history last now s.request_times le k,
        burst_count config history now times shorter
            (Tracks-drop config history last now s.request_times le k),
      )

  accept_rate-Tracks :
      (s : ClientSession C P) (history : List ℕ) (last now : ℕ)
      → last ≤ now
      → Tracks config history last s.request_times
      → let (t, accepted) = accept_rate s now config in
        Tracks config (if accepted then history ++ (now ∷ []) else history) now t.request_times
  unfolding accept_rate
  accept_rate-Tracks s history last now le k =
      let kept = Tracks-drop config history last now s.request_times le k in
      let times = drop_while (λ at. leb config.request_window (now - at)) s.request_times in
      let burst = length (take_while (λ at. ltb (now - at) config.burst_window) (reverse times)) in
      elim (Bool-cases (leb config.request_window_count (length times))) [
        | inl full ↦ rw full kept
        | inr room ↦ elim (Bool-cases (leb config.burst_count burst)) [
          | inl full ↦ rw (room, full) kept
          | inr calm ↦ rw (room, calm) (Tracks-admit config history now times kept)
        ]
      ]

  rate_run-eq-admit_all_from :
      (s : ClientSession C P) (history : List ℕ) (last : ℕ) (ts : List ℕ)
      → Ascending last ts
      → Tracks config history last s.request_times
      → rate_run s config history ts ≡ admit_all config history ts
  unfolding rate_run admit_all
  rate_run-eq-admit_all_from s history last [] a k = refl
  rate_run-eq-admit_all_from s history last (t ∷ ts) a k =
      let same = accept_rate-eq-admits s history last t a.0 k in
      let next = accept_rate-Tracks s history last t a.0 k in
      rate_run-eq-admit_all_from (accept_rate s t config).0 _ t ts a.1 next
      ∙ ap (λ b. admit_all config (if b then history ++ (t ∷ []) else history) ts) same

  -- For requests whose times do not fall, the limiter of a session whose queue is empty admits
  -- exactly the requests that the reference limiter admits, which counts over all admitted times;
  -- this is where the burst window is no longer than the request window.
  pub rate_run-eq-admit_all :
      (s : ClientSession C P) (ts : List ℕ)
      → s.request_times ≡ []
      → Ascending 0 ts
      → rate_run s config [] ts ≡ admit_all config [] ts
  rate_run-eq-admit_all s ts e a =
      rate_run-eq-admit_all_from s [] 0 ts a
        (rw e (record { old = []; split = refl; aged = tt; rises = tt; past = tt }))
