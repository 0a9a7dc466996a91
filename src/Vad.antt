-- ===== src/Vad.antt =====
-- voice/vad.c and vad.h: the voice activity detector, a state machine over the energy of frames.
-- `unsigned` products wrap at 2^32. An `int` that the code keeps at 0 or above is a number.
pub mod Sort
pub mod Inv
pub mod Limits
mod Tests
use openwrt_demo.Prelude.{
  ℕ, zero, suc, ◌+◌, ◌-◌, ◌*◌, ◌/◌, ◌%◌, ◌^◌, Bool, true, false, ◌&&◌, Option, none, some, List, [],
  ◌∷◌, ◌++◌, ltb, leb, ◌==◌, if◌then◌else◌, length, get_or, ℤ, pos, negsuc, pos_part, neg_part,
}
use mathlib.Core.List.{reverse}

-- VAD_WAIT_START, VAD_SPEECH, VAD_DONE
pub data State : Type 0 where
  wait_start speech finished : State

-- `vad_t`; `noise_buf` holds the first `noise_n` entries of the array
pub record Vad : Type 0 where
  pub sample_rate : ℕ
  pub frame_ms : ℕ
  pub start_rms : ℕ
  pub end_rms : ℕ
  pub silence_ms : ℕ
  pub min_speech_ms : ℕ
  pub max_speech_ms : ℕ
  pub lead_in_ms : ℕ
  pub baseline_rms : ℕ
  pub noise_samples : ℕ
  pub noise_sum : ℕ
  pub calibrate_ms : ℕ
  pub noise_buf : List ℕ
  pub noise_n : ℕ
  pub skip_ms : ℕ
  pub state : State
  pub speech_frames : ℕ
  pub silence_frames : ℕ
  pub wait_frames : ℕ
  pub peak_rms : ℕ
  pub sum_rms : ℕ

-- the sum of the squares of the samples
pub energy : List ℤ → ℕ
energy [] = 0
energy (x ∷ xs) = (pos_part x + neg_part x) * (pos_part x + neg_part x) + energy xs

-- `vad_frame_rms`; `root sum n` is `(int)sqrt((double)sum / (double)n)` of the C library
unfoldable pub frame_rms : (ℕ → ℕ → ℕ) → List ℤ → ℕ
unfolding energy
frame_rms root [] = 0
frame_rms root (x ∷ xs) = root (energy (x ∷ xs)) (length (x ∷ xs))

abbrev pub zeroed : Vad
zeroed = record {
  sample_rate = 0;
  frame_ms = 0;
  start_rms = 0;
  end_rms = 0;
  silence_ms = 0;
  min_speech_ms = 0;
  max_speech_ms = 0;
  lead_in_ms = 0;
  baseline_rms = 0;
  noise_samples = 0;
  noise_sum = 0;
  calibrate_ms = 0;
  noise_buf = [];
  noise_n = 0;
  skip_ms = 0;
  state = wait_start;
  speech_frames = 0;
  silence_frames = 0;
  wait_frames = 0;
  peak_rms = 0;
  sum_rms = 0;
}

-- the settings of both modes
pub settings : ℕ → ℕ → Vad
settings sr silence_ms = record zeroed {
  sample_rate = if sr == 0 then 16000 else sr;
  frame_ms = 20;
  silence_ms = if silence_ms == 0 then 800 else silence_ms;
  min_speech_ms = 200;
  max_speech_ms = 15000;
  lead_in_ms = 5000;
}

pub adaptive : Vad → Vad
adaptive v = record v { calibrate_ms = 300; skip_ms = 300 }

-- `vad_init`
pub init : ℕ → ℤ → ℕ → Vad
unfolding settings adaptive
init sr (negsuc n) silence_ms = adaptive (settings sr silence_ms)
init sr (pos n) silence_ms =
    if ltb 0 n
    then record (settings sr silence_ms) { start_rms = n; end_rms = n * 6 / 10 }
    else adaptive (settings sr silence_ms)

-- a product of `unsigned`
abbrev pub mul32 : ℕ → ℕ → ℕ
mul32 a b = a * b % 2 ^ 32

-- an `unsigned` that is incremented
abbrev pub inc32 : ℕ → ℕ
inc32 a = (a + 1) % 2 ^ 32

-- the inner loop of the insertion sort, from the right: the sorted part is listed from its end
pub shift_in : ℕ → List ℕ → List ℕ
shift_in key [] = key ∷ []
shift_in key (x ∷ xs) = if ltb key x then x ∷ shift_in key xs else key ∷ x ∷ xs

pub sort_onto : List ℕ → List ℕ → List ℕ
sort_onto sorted [] = sorted
sort_onto sorted (x ∷ xs) = sort_onto (shift_in x sorted) xs

-- the array after the sort
pub sort_noise : List ℕ → List ℕ
unfolding shift_in sort_onto
sort_noise xs = reverse (sort_onto [] xs)

-- the baseline: the middle of the sorted array, and 20 at least
pub baseline : List ℕ → ℕ → ℕ
unfolding sort_noise
baseline buf n =
    let base = if n == 0 then 300 else get_or (sort_noise buf) (n / 2) 0 in
    if ltb base 20 then 20 else base

-- the thresholds from a baseline, and the end of the calibration
pub calibrated : Vad → Vad
unfolding baseline
calibrated v =
    let base = baseline v.noise_buf v.noise_n in
    record v {
      noise_buf = sort_noise v.noise_buf;
      baseline_rms = base;
      start_rms = if ltb 8000 (base * 3) then 8000 else base * 3;
      end_rms = if ltb 4000 (base * 15 / 10) then 4000 else base * 15 / 10;
      calibrate_ms = 0;
      wait_frames = 0;
    }

-- one frame of the calibration; the array has 32 entries
pub measured : Vad → ℕ → Vad
measured v rms = record v {
  noise_sum = v.noise_sum + rms;
  noise_samples = v.noise_samples + 1;
  noise_buf = if ltb v.noise_n 32 then v.noise_buf ++ rms ∷ [] else v.noise_buf;
  noise_n = if ltb v.noise_n 32 then v.noise_n + 1 else v.noise_n;
  wait_frames = inc32 v.wait_frames;
}

pub calibrate : Vad → ℕ → Vad
unfolding measured calibrated
calibrate v rms =
    let w = measured v rms in
    if leb w.calibrate_ms (mul32 w.wait_frames w.frame_ms) then calibrated w else w

-- case VAD_WAIT_START
pub wait_step : Vad → ℕ → Vad
wait_step v rms =
    let w = record v { wait_frames = inc32 v.wait_frames } in
    if leb v.start_rms rms
    then record w { state = speech; speech_frames = 1; silence_frames = 0 }
    else if leb v.lead_in_ms (mul32 (inc32 v.wait_frames) v.frame_ms)
    then record w { state = finished }
    else w

-- a quiet frame of speech; `v` has counted it in `speech_frames`
pub quiet_step : Vad → Vad
quiet_step v =
    let w = record v { silence_frames = inc32 v.silence_frames } in
    if leb v.silence_ms (mul32 (inc32 v.silence_frames) v.frame_ms)
    then (if leb v.min_speech_ms
          (mul32 ((v.speech_frames + 2 ^ 32 - inc32 v.silence_frames) % 2 ^ 32) v.frame_ms)
        then record w { state = finished }
        else record w { state = wait_start; speech_frames = 0; silence_frames = 0 })
    else w

-- case VAD_SPEECH
pub speech_step : Vad → ℕ → Vad
unfolding quiet_step
speech_step v rms =
    let w = record v { speech_frames = inc32 v.speech_frames } in
    let u = if ltb rms v.end_rms then quiet_step w else record w { silence_frames = 0 } in
    if leb v.max_speech_ms (mul32 u.speech_frames v.frame_ms)
    then record u { state = finished }
    else u

pub judge : State → Vad → ℕ → Vad
unfolding wait_step speech_step
judge wait_start v rms = wait_step v rms
judge speech v rms = speech_step v rms
judge finished v rms = v

pub counted : Vad → ℕ → Vad
counted v rms = record v {
  peak_rms = if ltb v.peak_rms rms then rms else v.peak_rms;
  sum_rms = v.sum_rms + rms;
}

-- from the transient on; `v` has counted the frame
pub step : Vad → ℕ → Vad
unfolding calibrate judge
step v rms =
    if ltb 0 v.skip_ms
    then record v { skip_ms = if ltb v.frame_ms v.skip_ms then v.skip_ms - v.frame_ms else 0 }
    else if ltb 0 v.calibrate_ms
    then calibrate v rms
    else judge v.state v rms

-- `vad_process` for a frame of energy `rms`; the state is its return value
pub process : Vad → ℕ → Vad
unfolding step counted
process v rms = elim v.state [ finished ↦ v | _ ↦ step (counted v rms) rms ]

-- the frames of a recording
pub run : Vad → List ℕ → Vad
run v [] = v
run v (rms ∷ frames) = run (process v rms) frames
