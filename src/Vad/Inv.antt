-- ===== src/Vad/Inv.antt =====
-- What holds of the detector at every frame: its thresholds, and the length of a recording.
use openwrt_demo.Prelude.{
  ℕ, ◌*◌, ◌/◌, ◌≤◌, ◌<◌, ◌≡◌, refl, List, [], ◌∷◌, inl, inr, ltb, leb, if◌then◌else◌, Bool-cases,
  arith, ℤ, pos, negsuc,
}
use openwrt_demo.Vad.{
  State, wait_start, speech, finished, Vad, init, mul32, baseline, measured, calibrate, wait_step,
  speech_step, judge, counted, step, process, run,
}

-- A recording in progress is shorter than 15 seconds, and its silence shorter than itself.
abbrev pub InLimits : State → Vad → Type 0
InLimits speech v =
    (0 < v.speech_frames) × (v.speech_frames < 750) × (v.silence_frames < v.speech_frames)
InLimits _ v = Unit {0}

pub record IsValid (v : Vad) : Type 0 where
  pub frame_ms : v.frame_ms ≡ 20
  pub min_speech_ms : v.min_speech_ms ≡ 200
  pub max_speech_ms : v.max_speech_ms ≡ 15000
  pub lead_in_ms : v.lead_in_ms ≡ 5000
  pub hysteresis : v.end_rms ≤ v.start_rms
  pub in_limits : InLimits v.state v

-- `vad_init` starts in a valid state, in both modes.
pub init-IsValid :
    (sr : ℕ) (start_rms : ℤ) (silence_ms : ℕ) → IsValid (init sr start_rms silence_ms)
unfolding init
init-IsValid sr (negsuc n) silence_ms = ground arith
init-IsValid sr (pos n) silence_ms = ground arith

wait_step-IsValid :
    (v : Vad) (rms : ℕ) → v.state ≡ wait_start → IsValid v → IsValid (wait_step v rms)
unfolding wait_step
wait_step-IsValid v rms s h = ground arith

speech_step-IsValid :
    (v : Vad) (rms : ℕ) → v.state ≡ speech → IsValid v → IsValid (speech_step v rms)
unfolding speech_step
speech_step-IsValid v rms s h =
    let lim : InLimits speech v = rw s at h.in_limits in
    record {
      frame_ms = ground (arith, h.frame_ms);
      min_speech_ms = ground (arith, h.min_speech_ms);
      max_speech_ms = ground (arith, h.max_speech_ms);
      lead_in_ms = ground (arith, h.lead_in_ms);
      hysteresis = ground (arith, h.hysteresis);
      in_limits = ground (arith, lim, h.frame_ms, h.max_speech_ms);
    }

-- The limits speak of the frames of a recording only.
InLimits-of :
    (s : State) (v w : Vad)
    → w.speech_frames ≡ v.speech_frames
    → w.silence_frames ≡ v.silence_frames
    → InLimits s v
    → InLimits s w
InLimits-of wait_start v w e f h = tt
InLimits-of speech v w e f h = omega arith
InLimits-of finished v w e f h = tt

calibrate-IsValid : (v : Vad) (rms : ℕ) → IsValid v → IsValid (calibrate v rms)
unfolding calibrate
calibrate-IsValid v rms h =
    elim (Bool-cases (
      leb (measured v rms).calibrate_ms
        (mul32 (measured v rms).wait_frames (measured v rms).frame_ms))) [
          | inl over ↦ rw over (record {
            frame_ms = h.frame_ms;
            min_speech_ms = h.min_speech_ms;
            max_speech_ms = h.max_speech_ms;
            lead_in_ms = h.lead_in_ms;
            hysteresis = thresholds (baseline (measured v rms).noise_buf (measured v rms).noise_n);
            in_limits = InLimits-of v.state v _ refl refl h.in_limits;
          })
          | inr more ↦ rw more (record {
            frame_ms = h.frame_ms;
            min_speech_ms = h.min_speech_ms;
            max_speech_ms = h.max_speech_ms;
            lead_in_ms = h.lead_in_ms;
            hysteresis = h.hysteresis;
            in_limits = InLimits-of v.state v _ refl refl h.in_limits;
          })
        ]
  where
    thresholds :
        (base : ℕ)
        → (if ltb 4000 (base * 15 / 10) then 4000 else base * 15 / 10)
          ≤ (if ltb 8000 (base * 3) then 8000 else base * 3)
    thresholds base = ground arith

judge-IsValid : (s : State) (v : Vad) (rms : ℕ) → v.state ≡ s → IsValid v → IsValid (judge s v rms)
unfolding judge
judge-IsValid wait_start v rms e h = wait_step-IsValid v rms e h
judge-IsValid speech v rms e h = speech_step-IsValid v rms e h
judge-IsValid finished v rms e h = h

step-IsValid : (v : Vad) (rms : ℕ) → IsValid v → IsValid (step v rms)
unfolding step
step-IsValid v rms h = elim (Bool-cases (ltb 0 v.skip_ms)) [
  | inl skips ↦ rw skips (record {
    frame_ms = h.frame_ms;
    min_speech_ms = h.min_speech_ms;
    max_speech_ms = h.max_speech_ms;
    lead_in_ms = h.lead_in_ms;
    hysteresis = h.hysteresis;
    in_limits = InLimits-of v.state v _ refl refl h.in_limits;
  })
  | inr steady ↦ rw steady (elim (Bool-cases (ltb 0 v.calibrate_ms)) [
    | inl measures ↦ rw measures (calibrate-IsValid v rms h)
    | inr judges ↦ rw judges (judge-IsValid v.state v rms refl h)
  ])
]

counted-IsValid : (v : Vad) (rms : ℕ) → IsValid v → IsValid (counted v rms)
unfolding counted
counted-IsValid v rms h = record {
  frame_ms = h.frame_ms;
  min_speech_ms = h.min_speech_ms;
  max_speech_ms = h.max_speech_ms;
  lead_in_ms = h.lead_in_ms;
  hysteresis = h.hysteresis;
  in_limits = InLimits-of v.state v _ refl refl h.in_limits;
}

pub process-IsValid : (v : Vad) (rms : ℕ) → IsValid v → IsValid (process v rms)
unfolding process
process-IsValid v rms h = cases v.state refl
  where
    stepped : IsValid (step (counted v rms) rms)
    stepped = step-IsValid (counted v rms) rms (counted-IsValid v rms h)

    cases :
        (s : State) → v.state ≡ s → IsValid (elim s [ finished ↦ v | _ ↦ step (counted v rms) rms ])
    cases wait_start e = stepped
    cases speech e = stepped
    cases finished e = h

run-IsValid_from : (frames : List ℕ) (v : Vad) → IsValid v → IsValid (run v frames)
unfolding run
run-IsValid_from [] v h = h
run-IsValid_from (rms ∷ frames) v h =
    run-IsValid_from frames (process v rms) (process-IsValid v rms h)

-- After any frames, in both modes, the threshold that ends speech is not above the one that starts
-- it, and a recording in progress has fewer than 750 frames of 20 ms, not all of them silent.
pub run-IsValid :
    (sr : ℕ) (start_rms : ℤ) (silence_ms : ℕ) (frames : List ℕ)
    → IsValid (run (init sr start_rms silence_ms) frames)
run-IsValid sr start_rms silence_ms frames =
    run-IsValid_from frames (init sr start_rms silence_ms) (init-IsValid sr start_rms silence_ms)
