-- ===== src/Vad/Tests.antt =====
-- Runs of the detector, and its theorems at concrete recordings.
use openwrt_demo.Prelude.{ℕ, ◌+◌, ◌<◌, ◌≡◌, refl, List, [], ◌∷◌, ◌++◌, arith, replicate, pos}
use openwrt_demo.Vad.{wait_start, speech, finished, Vad, init, run, process, sort_noise, zeroed}
use openwrt_demo.Vad.Inv.{IsValid, run-IsValid}
use openwrt_demo.Vad.Limits.{IsCalibrated, quiet_gives_up}

-- 300 ms dropped, 300 ms measured at energy 100 with one spike
adaptive_thresholds : (run (init 0 (pos 0) 0) (replicate 29 100 ++ 9000 ∷ [])).start_rms ≡ 300
unfolding run init process
adaptive_thresholds = refl

sort_noise_example : sort_noise (300 ∷ 100 ∷ 200 ∷ 100 ∷ []) ≡ 100 ∷ 100 ∷ 200 ∷ 300 ∷ []
unfolding sort_noise
sort_noise_example = refl

run-IsValid_example : IsValid (run (init 16000 (pos 500) 800) (600 ∷ 100 ∷ []))
run-IsValid_example = run-IsValid 16000 (pos 500) 800 (600 ∷ 100 ∷ [])

-- a recording of twenty frames, of which the last nine were silent
abbrev talking : Vad
talking = record zeroed {
  frame_ms = 20;
  silence_ms = 200;
  min_speech_ms = 200;
  max_speech_ms = 15000;
  lead_in_ms = 5000;
  start_rms = 500;
  end_rms = 300;
  state = speech;
  speech_frames = 20;
  silence_frames = 9;
}

talking-IsValid : IsValid talking
talking-IsValid = record {
  frame_ms = refl;
  min_speech_ms = refl;
  max_speech_ms = refl;
  lead_in_ms = refl;
  hysteresis = omega arith;
  in_limits = (omega arith, omega arith, omega arith);
}

talking-IsCalibrated : IsCalibrated talking
talking-IsCalibrated = record { skip_ms = refl; calibrate_ms = refl }

talking_stops : (process talking 10).state ≡ finished
unfolding process
talking_stops = refl

abbrev noise : List ℕ
noise = replicate 740 1000

abbrev waiting : Vad
waiting = record talking {
  state = wait_start;
  speech_frames = 0;
  silence_frames = 0;
  wait_frames = 248;
}

quiet_gives_up_example :
    (248 + 2 < 250 → (run waiting (7 ∷ 7 ∷ [])).state ≡ wait_start)
    × (248 + 2 ≡ 250 → (run waiting (7 ∷ 7 ∷ [])).state ≡ finished)
quiet_gives_up_example =
    quiet_gives_up (7 ∷ 7 ∷ []) waiting
      (record {
        frame_ms = refl;
        min_speech_ms = refl;
        max_speech_ms = refl;
        lead_in_ms = refl;
        hysteresis = omega arith;
        in_limits = tt;
      })
      (record { skip_ms = refl; calibrate_ms = refl }) refl (omega arith)
      (omega arith, (omega arith, tt))
