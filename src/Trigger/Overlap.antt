-- ===== src/Trigger/Overlap.antt =====
-- No two dialogues at a time.
use openwrt_demo.Trigger.{line_buf_size, Cfg, TrigState, is_idle, Event, reap, byte, level}
use openwrt_demo.Prelude.{ℕ, ◌+◌, ◌≤◌, ◌<◌, ◌≡◌, Bool, true, false, ◌⊎◌, length}

-- The line fits its buffer with the terminator, and no child runs where the state is idle.
pub record IsValid (st : TrigState) : Type 0 where
  pub line : length st.linebuf < line_buf_size
  pub idle : is_idle st.state ≡ true → st.child ≡ 0

-- What a change does to the child and the time of the last start, at a time, where `waitpid` reports the child or does not.
pub Keeps : Cfg → Bool → ℕ → TrigState → TrigState → Type 0
Keeps cfg exited now st st' =
    ((st'.child ≡ st.child) × (st'.last_trigger_ms ≡ st.last_trigger_ms))
    ⊎ ((exited ≡ true) × (st'.child ≡ 0) × (st'.last_trigger_ms ≡ st.last_trigger_ms))
    ⊎ ((st.child ≡ 0)
        × (st'.last_trigger_ms ≡ now)
        × ((st.last_trigger_ms ≡ 0) ⊎ (st.last_trigger_ms + cfg.debounce_ms ≤ now)))

-- the time of an event
pub time : Event → ℕ
time (reap exited) = 0
time (byte c now fork) = now
time (level v now fork) = now

-- `waitpid` reports the child.
pub exits : Event → Bool
exits (reap exited) = exited
exits (byte c now fork) = false
exits (level v now fork) = false

module _ (cfg : Cfg) where
  abbrev Good : ℕ → TrigState → TrigState → Type 0
  Good now st st' = IsValid st' × Keeps cfg false now st st'

  abbrev GoodReap : Bool → TrigState → TrigState → Type 0
  GoodReap exited st st' = IsValid st' × Keeps cfg exited 0 st st'
