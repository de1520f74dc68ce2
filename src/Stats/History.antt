-- ===== src/Stats/History.antt =====
-- The history of src/debug/stats_collector.c as the end of a log.
use native.Mathlib.Decide.{dec_lt}
use nomalloc.Prelude.{
  ℕ, zero, suc, ◌-◌, ◌≤◌, ◌<◌, ◌≡◌, refl, sym, ◌∙◌, ap, true, false, List, [], ◌∷◌, ◌++◌, some, leb,
  ◌==◌, length, length-drop, take, drop, arith,
}
use nomalloc.Stats.Types.{StatsHistoryEntry, StatsHistory, StatsCollector}
use nomalloc.Stats.Reads.{
  shift_entries, new_history_entry, stats_collector_update_global, stats_collector_update_history,
}

module _ {ℓ} {A : Type ℓ} where
  -- The last entries of a log, as many as there is room for.
  unfoldable pub last_of : ℕ → List A → List A
  last_of n xs = drop (length xs - n) xs

  take_all : (n : ℕ) (xs : List A) → length xs ≤ n → take n xs ≡ xs
  take_all zero [] h = refl
  take_all (suc n) [] h = refl
  take_all zero (x ∷ xs) h = absurd (omega arith)
  take_all (suc n) (x ∷ xs) h = ap (λ ys. x ∷ ys) (take_all n xs (omega arith))

  drop-drop : (n : ℕ) (xs : List A) → drop 1 (drop n xs) ≡ drop (suc n) xs
  drop-drop zero xs = refl
  drop-drop (suc n) [] = refl
  drop-drop (suc n) (x ∷ xs) = drop-drop n xs

  drop-append : (n : ℕ) (xs ys : List A) → n ≤ length xs → drop n (xs ++ ys) ≡ drop n xs ++ ys
  drop-append zero xs ys h = refl
  drop-append (suc n) [] ys h = absurd (omega arith)
  drop-append (suc n) (x ∷ xs) ys h = drop-append n xs ys (omega arith)

  length-snoc : (xs : List A) (x : A) → length (xs ++ (x ∷ [])) ≡ suc (length xs)
  length-snoc [] x = refl
  length-snoc (y ∷ ys) x = ap suc (length-snoc ys x)

  -- One more entry: with room for it the log is whole, and otherwise its first entry goes.
  last_of_room :
      (n : ℕ) (log : List A) (x : A)
      → length log < n
      → last_of n (log ++ (x ∷ [])) ≡ last_of n log ++ (x ∷ [])
  unfolding last_of
  last_of_room n log x room =
      let fits : length (log ++ (x ∷ [])) - n ≡ 0 = omega (arith, length-snoc log x) in
      let fitted : length log - n ≡ 0 = omega arith in rw (fits, fitted) refl

  last_of_full :
      (n : ℕ) (log : List A) (x : A)
      → 0 < n
      → n ≤ length log
      → last_of n (log ++ (x ∷ [])) ≡ take (n - 1) (drop 1 (last_of n log)) ++ (x ∷ [])
  unfolding last_of
  last_of_full n log x some_room full =
      let more : length (log ++ (x ∷ [])) - n ≡ suc (length log - n) =
        omega (arith, length-snoc log x) in
      rw more (
        drop-append (suc (length log - n)) log (x ∷ []) (omega arith)
        ∙ ap (λ ys. ys ++ (x ∷ []))
            (sym (drop-drop (length log - n) log)
              ∙ sym (
                  take_all (n - 1) (drop 1 (drop (length log - n) log)) (
                    omega (
                      arith,
                      length-drop 1 (drop (length log - n) log),
                      length-drop (length log - n) log,
                    )))))

length-last_of {ℓ} :
    {A : Type ℓ} (n : ℕ) (log : List A) → length (last_of n log) ≡ length log - (length log - n)
unfolding last_of
length-last_of n log = length-drop (length log - n) log

shift_entries_lem :
    (h : StatsHistory) (log : List StatsHistoryEntry) (e : StatsHistoryEntry)
    → 0 < h.capacity
    → h.entries ≡ last_of h.capacity log
    → (entries : List StatsHistoryEntry) × (shift_entries h ≡ some entries)
      × (entries ++ (e ∷ []) ≡ last_of h.capacity (log ++ (e ∷ [])))
unfolding shift_entries
shift_entries_lem h log e some_room held =
    let held_length = ap length held ∙ length-last_of h.capacity log in
    elim (dec_lt (length log) h.capacity) [
      | yes room ↦
          let test : leb h.capacity (length h.entries) ≡ false = ground arith in
          (
            h.entries,
            rw (shift_entries, test) refl,
            ap (λ ys. ys ++ (e ∷ [])) held ∙ sym (last_of_room h.capacity log e room),
          )
      | no full ↦
          let test : leb h.capacity (length h.entries) ≡ true = ground arith in
          let filled : (h.capacity == 0) ≡ false = ground arith in
          (
            take (h.capacity - 1) (drop 1 h.entries),
            rw (shift_entries, test, filled) refl,
            ap (λ ys. take (h.capacity - 1) (drop 1 ys) ++ (e ∷ [])) held
                ∙ sym (last_of_full h.capacity log e some_room (omega arith)),
          )
    ]

-- The history is the end of the log of all entries: if it holds the last entries of a log, as many
-- as it has room for, `stats_collector_update_history` returns and leaves it with the last entries
-- of the log with one more entry, made of the clock and the byte counts of the moment.
pub update_history_log :
    (log : List StatsHistoryEntry) (timestamp now : ℕ) (s : StatsCollector)
    → 0 < s.history.capacity
    → s.history.entries ≡ last_of s.history.capacity log
    → (s' : StatsCollector) × (stats_collector_update_history timestamp now s ≡ some s')
      × (s'.history.entries
          ≡ last_of s.history.capacity (log ++ (new_history_entry timestamp s ∷ [])))
      × (s'.history.capacity ≡ s.history.capacity)
unfolding stats_collector_update_history
update_history_log log timestamp now s some_room held =
    let (entries, shifted, kept) =
      shift_entries_lem s.history log (new_history_entry timestamp s) some_room held in
    (
      stats_collector_update_global now (record s {
        history = record (s.history) { entries = entries ++ (new_history_entry timestamp s ∷ []) };
      }),
      rw (stats_collector_update_history, shifted) refl,
      kept,
      refl,
    )
