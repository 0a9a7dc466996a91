-- ===== src/Vad/Limits.antt =====
-- How long the detector records and waits, and why a recording ends.
use openwrt_demo.Prelude.{
  ℕ, suc, ◌+◌, ◌*◌, ◌≤◌, ◌<◌, ◌≡◌, ◌≢◌, ◌⊎◌, refl, ap, sym, subst, ◌∙◌, List, [], ◌∷◌, inl, inr,
  ltb, Bool-cases, arith, ltb→lt, ltb→ge, length, take, All,
}
use openwrt_demo.Vad.{
  State, wait_start, speech, finished, Vad, wait_step, speech_step, judge, counted, step, process,
  run,
}
use openwrt_demo.Vad.Inv.{InLimits, IsValid, process-IsValid}

-- The transient is over and the noise is measured.
pub record IsCalibrated (v : Vad) : Type 0 where
  pub skip_ms : v.skip_ms ≡ 0
  pub calibrate_ms : v.calibrate_ms ≡ 0

step-judge : (v : Vad) (rms : ℕ) → IsCalibrated v → step v rms ≡ judge v.state v rms
unfolding step
step-judge v rms c = elim (Bool-cases (ltb 0 v.skip_ms)) [
  | inl skips ↦ absurd (omega (arith, ltb→lt _ _ skips, c.skip_ms))
  | inr steady ↦ rw steady (elim (Bool-cases (ltb 0 v.calibrate_ms)) [
    | inl measures ↦ absurd (omega (arith, ltb→lt _ _ measures, c.calibrate_ms))
    | inr judges ↦ rw judges
  ])
]

counted-IsCalibrated : (v : Vad) (rms : ℕ) → IsCalibrated v → IsCalibrated (counted v rms)
unfolding counted
counted-IsCalibrated v rms c = record { skip_ms = c.skip_ms; calibrate_ms = c.calibrate_ms }

-- A state that is not finished steps.
process-step :
    (v : Vad) (rms : ℕ) (s : State)
    → v.state ≡ s
    → s ≢ finished
    → process v rms ≡ step (counted v rms) rms
unfolding process
process-step v rms s e ne =
    ap (λ t. elim t [ finished ↦ v | _ ↦ step (counted v rms) rms ]) e ∙ (cases s ne)
  where
    cases :
        (s : State)
        → s ≢ finished
        → elim s [ finished ↦ v | _ ↦ step (counted v rms) rms ] ≡ step (counted v rms) rms
    cases wait_start ne = refl
    cases speech ne = refl
    cases finished ne = absurd (ne refl)

state-counted : (v : Vad) (rms : ℕ) → (counted v rms).state ≡ v.state
unfolding counted
state-counted v rms = refl

judge-speech : (v : Vad) (rms : ℕ) → judge speech v rms ≡ speech_step v rms
unfolding judge
judge-speech v rms = refl

judge-wait : (v : Vad) (rms : ℕ) → judge wait_start v rms ≡ wait_step v rms
unfolding judge
judge-wait v rms = refl

process-speech :
    (v : Vad) (rms : ℕ)
    → IsCalibrated v
    → v.state ≡ speech
    → process v rms ≡ speech_step (counted v rms) rms
process-speech v rms c s =
    process-step v rms speech s (λ e. cc e)
    ∙ step-judge (counted v rms) rms (counted-IsCalibrated v rms c)
    ∙ ap (λ t. judge t (counted v rms) rms) (state-counted v rms ∙ s)
    ∙ judge-speech (counted v rms) rms

process-wait :
    (v : Vad) (rms : ℕ)
    → IsCalibrated v
    → v.state ≡ wait_start
    → process v rms ≡ wait_step (counted v rms) rms
process-wait v rms c s =
    process-step v rms wait_start s (λ e. cc e)
    ∙ step-judge (counted v rms) rms (counted-IsCalibrated v rms c)
    ∙ ap (λ t. judge t (counted v rms) rms) (state-counted v rms ∙ s)
    ∙ judge-wait (counted v rms) rms

-- A frame of speech counts, and leaves the detector calibrated.
speech_step_lem :
    (v : Vad) (rms : ℕ)
    → v.speech_frames < 750
    → IsCalibrated v
    → IsCalibrated (speech_step v rms)
      × ((speech_step v rms).state ≡ speech
          → (speech_step v rms).speech_frames ≡ v.speech_frames + 1)
unfolding speech_step
speech_step_lem v rms lt c = (
  record { skip_ms = ground (arith, c.skip_ms); calibrate_ms = ground (arith, c.calibrate_ms) },
  λ s. ground arith,
)

ended :
    (v : Vad) (rms : ℕ)
    → v.frame_ms ≡ 20
    → v.max_speech_ms ≡ 15000
    → v.min_speech_ms ≡ 200
    → v.state ≡ speech
    → v.speech_frames < 750
    → v.silence_frames < v.speech_frames
    → (speech_step v rms).state ≡ finished
    → (750 ≤ (speech_step v rms).speech_frames)
      ⊎ (((speech_step v rms).silence_frames + 10 ≤ (speech_step v rms).speech_frames)
          × (v.silence_ms ≤ (speech_step v rms).silence_frames * 20))
unfolding speech_step
ended v rms f m n s lt sil e = ground arith

-- A recording ends only at 15 seconds, or by a silence as long as `silence_ms` asks for, with at
-- least ten frames, 200 ms, that were not of this silence.
process_ends :
    (v : Vad) (rms : ℕ)
    → IsValid v
    → IsCalibrated v
    → v.state ≡ speech
    → (process v rms).state ≡ finished
    → (750 ≤ (process v rms).speech_frames)
      ⊎ (((process v rms).silence_frames + 10 ≤ (process v rms).speech_frames)
          × (v.silence_ms ≤ (process v rms).silence_frames * 20))
process_ends v rms h c s e =
    let lim : InLimits speech v = rw s at h.in_limits in
    let w = process-speech v rms c s in
    rw w (
      unfold counted in
      ended (counted v rms) rms h.frame_ms h.max_speech_ms h.min_speech_ms s lim.1 lim.2
        (rw w at e))

speech_counts :
    (v : Vad) (rms : ℕ)
    → IsCalibrated v
    → v.state ≡ speech
    → v.speech_frames < 750
    → IsCalibrated (process v rms)
      × ((process v rms).state ≡ speech → (process v rms).speech_frames ≡ v.speech_frames + 1)
speech_counts v rms c s lt = rw (process-speech v rms c s) (
    unfold counted in
    speech_step_lem (counted v rms) rms lt
      (record { skip_ms = c.skip_ms; calibrate_ms = c.calibrate_ms }))

speech-or-not : (s : State) → (s ≡ speech) ⊎ (s ≢ speech)
speech-or-not wait_start = inr (λ e. cc e)
speech-or-not speech = inl refl
speech-or-not finished = inr (λ e. cc e)

-- A recording in progress does not stay one for 750 more frames, 15 seconds, whatever they hold.
speech_leaves :
    (frames : List ℕ) (v : Vad)
    → IsValid v
    → IsCalibrated v
    → v.state ≡ speech
    → 750 ≤ v.speech_frames + length frames
    → (k : ℕ) × (k ≤ length frames) × ((run v (take k frames)).state ≢ speech)
unfolding run
speech_leaves [] v h c s m =
    let lim : InLimits speech v = rw s at h.in_limits in absurd (omega (arith, lim.1))
speech_leaves (rms ∷ frames) v h c s m =
    let lim : InLimits speech v = rw s at h.in_limits in
    let next = speech_counts v rms c s lim.1 in
    elim (speech-or-not (process v rms).state) [
      | inr left ↦ (1, omega arith, left)
      | inl stays ↦
          let (k, le, left) =
            speech_leaves frames (process v rms) (process-IsValid v rms h) next.0 stays
              (omega (arith, next.1 stays)) in
          (suc k, omega arith, left)
    ]

-- What a quiet frame does while the detector waits.
wait_quiet :
    (v : Vad) (rms : ℕ)
    → v.frame_ms ≡ 20
    → v.lead_in_ms ≡ 5000
    → v.state ≡ wait_start
    → v.wait_frames < 250
    → rms < v.start_rms
    → ((wait_step v rms).wait_frames ≡ v.wait_frames + 1)
      × ((wait_step v rms).start_rms ≡ v.start_rms)
      × ((wait_step v rms).skip_ms ≡ v.skip_ms)
      × ((wait_step v rms).calibrate_ms ≡ v.calibrate_ms)
      × (v.wait_frames < 249 → (wait_step v rms).state ≡ wait_start)
      × (v.wait_frames ≡ 249 → (wait_step v rms).state ≡ finished)
unfolding wait_step
wait_quiet v rms f l s lt q = (
  ground arith,
  ground arith,
  ground arith,
  ground arith,
  (λ h. ground arith),
  (λ h. ground arith),
)

process_quiet :
    (v : Vad) (rms : ℕ)
    → IsValid v
    → IsCalibrated v
    → v.state ≡ wait_start
    → v.wait_frames < 250
    → rms < v.start_rms
    → ((process v rms).wait_frames ≡ v.wait_frames + 1)
      × ((process v rms).start_rms ≡ v.start_rms)
      × ((process v rms).skip_ms ≡ v.skip_ms)
      × ((process v rms).calibrate_ms ≡ v.calibrate_ms)
      × (v.wait_frames < 249 → (process v rms).state ≡ wait_start)
      × (v.wait_frames ≡ 249 → (process v rms).state ≡ finished)
process_quiet v rms h c s lt q =
    rw (process-wait v rms c s)
      (unfold counted in wait_quiet (counted v rms) rms h.frame_ms h.lead_in_ms s lt q)

-- While every frame is quieter than the threshold, a calibrated detector waits, and it gives up at
-- the frame that completes 250 waiting frames, 5 seconds, and no sooner.
pub quiet_gives_up :
    (frames : List ℕ) (v : Vad)
    → IsValid v
    → IsCalibrated v
    → v.state ≡ wait_start
    → v.wait_frames < 250
    → All (λ rms. rms < v.start_rms) frames
    → (v.wait_frames + length frames < 250 → (run v frames).state ≡ wait_start)
      × (v.wait_frames + length frames ≡ 250 → (run v frames).state ≡ finished)
unfolding run
quiet_gives_up [] v h c s lt q = ((λ m. s), (λ m. absurd (omega arith)))
quiet_gives_up (rms ∷ []) v h c s lt q =
    let p = process_quiet v rms h c s lt q.0 in ((λ m. p.4 (omega arith)), (λ m. p.5 (omega arith)))
quiet_gives_up (rms ∷ next ∷ frames) v h c s lt q =
    let p = process_quiet v rms h c s lt q.0 in
    elim (Bool-cases (ltb v.wait_frames 249)) [
      | inr last ↦ (
        (λ m. absurd (omega (arith, ltb→ge _ _ last))),
        (λ m. absurd (omega (arith, ltb→ge _ _ last))),
      )
      | inl more ↦
          let later =
            quiet_gives_up (next ∷ frames) (process v rms) (process-IsValid v rms h)
              (record { skip_ms = p.2 ∙ c.skip_ms; calibrate_ms = p.3 ∙ c.calibrate_ms })
              (p.4 (ltb→lt _ _ more)) (omega (arith, p.0, ltb→lt _ _ more))
              (subst (λ b. All (λ r. r < b) (next ∷ frames)) (sym p.1) q.1) in
          ((λ m. later.0 (omega (arith, p.0))), (λ m. later.1 (omega (arith, p.0))))
    ]
