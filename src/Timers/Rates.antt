-- ===== src/Timers/Rates.antt =====
-- How often the handler of a timer of src/Timer.cpp runs, and which handlers an emitter posts.
use mathlib.Core.List.{append_assoc, append-nil}
use the_game_server.Timers.{emit, subscribe, tick, wait_over, Timer}
use the_game_server.Audience.{emplace}
use the_game_server.Base.{
  ℕ, ◌+◌, ◌*◌, ◌≡◌, refl, sym, ap, ◌∙◌, inl, inr, Bool, true, false, ◌||◌, List, [], ◌∷◌, ◌++◌,
  arith, ◌==◌, if◌then◌else◌, Bool-cases, length,
}

-- The timer looks at the clock at some times, each no earlier than the wait needs, however late.
unfoldable pub run_late : List ℕ → ℕ × Timer → ℕ × Timer
run_late [] s = s
run_late (late ∷ lates) (runs, t) = run_late lates (wait_over (t.expiration_time + late) (runs, t))

wait_step :
    (late runs : ℕ) (t : Timer)
    → t.waiting ≡ true
    → wait_over (t.expiration_time + late) (runs, t) ≡ (runs + 1, tick t)
unfolding wait_over
wait_step late runs t h = ground (arith, h)

-- A wait that is under way, however late its handler runs each time: as many runs of the timer's handler later,
-- the next run is due as many intervals later, so that lateness does not add up.
pub run_late-no_drift :
    (lates : List ℕ) (runs : ℕ) (t : Timer)
    → t.waiting ≡ true
    → let s = run_late lates (runs, t) in
      (s.0 ≡ runs + length lates)
      × (s.1.expiration_time ≡ t.expiration_time + length lates * t.interval)
      × (s.1.interval ≡ t.interval)
      × (s.1.waiting ≡ true)
unfolding run_late tick
run_late-no_drift [] runs t h = (omega arith, omega arith, refl, h)
run_late-no_drift (late ∷ lates) runs t h =
    let later = run_late-no_drift lates (runs + 1) (tick t) refl in
    let next = ap (run_late lates) (wait_step late runs t h) in
    (
      ap (λ (s : ℕ × Timer). s.0) next ∙ omega (arith, later.0),
      ap (λ (s : ℕ × Timer). s.1.expiration_time) next ∙ omega (arith, later.1),
      ap (λ (s : ℕ × Timer). s.1.interval) next ∙ later.2,
      ap (λ (s : ℕ × Timer). s.1.waiting) next ∙ later.3,
    )

module _ {H : Type 0} where
  abbrev pub has_tag : ℕ → List (ℕ × H) → Bool
  has_tag tag [] = false
  has_tag tag ((t, h) ∷ rest) = t == tag || has_tag tag rest

  emit_append :
      (subscribers : List (ℕ × H)) (posted : List H)
      → emit subscribers posted ≡ posted ++ emit subscribers []
  unfolding emit
  emit_append [] posted = sym (append-nil posted)
  emit_append ((tag, h) ∷ rest) posted =
      emit_append rest (posted ++ h ∷ [])
      ∙ append_assoc posted (h ∷ []) (emit rest [])
      ∙ ap (λ xs. posted ++ xs) (sym (emit_append rest (h ∷ [])))

  -- An emitter posts one handler more once a handler is subscribed under a tag that has none, and the same
  -- handlers where the tag has one.
  pub emit-subscribe :
      (tag : ℕ) (handler : H) (subscribers : List (ℕ × H)) (posted : List H)
      → emit (subscribe tag handler subscribers) posted
        ≡ emit subscribers posted ++ (if has_tag tag subscribers then [] else handler ∷ [])
  unfolding emit subscribe emplace
  emit-subscribe tag handler [] posted = refl
  emit-subscribe tag handler ((t, h) ∷ rest) posted = elim (Bool-cases (t == tag)) [
    | inl same ↦ rw same (sym (append-nil _))
    | inr other ↦ rw other (emit-subscribe tag handler rest (posted ++ h ∷ []))
  ]
