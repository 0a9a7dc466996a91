-- ===== src/Trigger.antt =====
-- voice/trigger.c: the state machine that starts a dialogue on a line of the serial port or on a
-- level of a GPIO pin. What the kernel answers (the byte that is read, the level, the time, the
-- process that `fork` makes, whether `waitpid` reports the child) comes with each event; the process
-- is 0 where there is none. A keyword that is NULL is an empty one. The milliseconds are those of a
-- clock that does not go back.
pub mod Overlap
mod Tests
use openwrt_demo.Prelude.{
  ℕ, ◌+◌, ◌-◌, Bool, true, false, not, ◌&&◌, ◌||◌, Option, none, some, List, [], ◌∷◌, ◌++◌, ltb,
  ◌==◌, if◌then◌else◌, length, cut_at, skip_blanks,
}

-- LINE_BUF_SIZE
abbrev pub line_buf_size : ℕ
line_buf_size = 256

-- ST_IDLE, ST_LISTENING
pub data Mode : Type 0 where
  st_idle : Mode
  st_listening : Mode

-- the settings that decide, with the defaults of `trigger_run` in place
pub record Cfg : Type 0 where
  pub uart_keyword : List ℕ
  pub gpio_active : ℕ
  pub debounce_ms : ℕ

-- `struct trig_state`; the line is the first `linelen` bytes, a level of -1 is none
pub record TrigState : Type 0 where
  pub linebuf : List ℕ
  pub gpio_last : Option ℕ
  pub state : Mode
  pub child : ℕ
  pub last_trigger_ms : ℕ

pub is_idle : Mode → Bool
is_idle st_idle = true
is_idle st_listening = false

-- `fire`; a `fork` of none is one that fails
pub fire : ℕ → Option ℕ → TrigState → TrigState
fire now none st = st
fire now (some pid) st = record st { child = pid; state = st_listening; last_trigger_ms = now }

-- st.last_trigger_ms && now_ms() - st.last_trigger_ms < debounce_ms
pub debounced : Cfg → ℕ → TrigState → Bool
debounced cfg now st =
    not (st.last_trigger_ms == 0) && ltb now (st.last_trigger_ms + cfg.debounce_ms)

-- the two tests before `fire`
pub attempt : Cfg → ℕ → Option ℕ → TrigState → TrigState
attempt cfg now fork st =
    if debounced cfg now st then st else if not (is_idle st.state) then st else fire now fork st

-- `reap_child`; `exited` says that `waitpid` returns the child
pub reap_child : Bool → TrigState → TrigState
reap_child exited st =
    if st.child == 0
    then st
    else if exited
    then record st { child = 0; state = st_idle; linebuf = [] }
    else st

-- the blanks behind a line
pub trim_end : List ℕ → List ℕ
trim_end [] = []
trim_end (c ∷ cs) = elim (trim_end cs) [
  | [] ↦ if c == 32 || c == 9 then [] else c ∷ []
  | d ∷ ds ↦ c ∷ d ∷ ds
]

-- strstr(line, keyword) for a keyword that is not empty
pub begins : List ℕ → List ℕ → Bool
begins [] s = true
begins (k ∷ ks) [] = false
begins (k ∷ ks) (c ∷ cs) = k == c && begins ks cs

pub contains : List ℕ → List ℕ → Bool
contains k [] = begins k []
contains k (c ∷ cs) = begins k (c ∷ cs) || contains k cs

-- `handle_line`, for a line without its terminator
pub handle_line : Cfg → List ℕ → ℕ → Option ℕ → TrigState → TrigState
handle_line cfg line now fork st =
    let text = trim_end (skip_blanks line) in
    if length text == 0
    then st
    else if not (length cfg.uart_keyword == 0) && not (contains cfg.uart_keyword text)
    then st
    else attempt cfg now fork st

-- st.linelen = 0
pub clear : TrigState → TrigState
clear st = record st { linebuf = [] }

-- the line that is handled, which ends at the first byte of 0
pub submit : Cfg → ℕ → Option ℕ → TrigState → TrigState
submit cfg now fork st = clear (handle_line cfg (cut_at 0 st.linebuf) now fork st)

-- after a byte has been put into the buffer
pub spot : Cfg → ℕ → Option ℕ → TrigState → TrigState
spot cfg now fork st =
    if not (length cfg.uart_keyword == 0) && contains cfg.uart_keyword (cut_at 0 st.linebuf)
    then submit cfg now fork st
    else st

-- a byte of the serial port
pub on_byte : Cfg → ℕ → ℕ → Option ℕ → TrigState → TrigState
on_byte cfg c now fork st =
    if c == 10 || c == 13
    then (if ltb 0 (length st.linebuf) then submit cfg now fork st else st)
    else if ltb (length st.linebuf) (line_buf_size - 1)
    then spot cfg now fork (record st { linebuf = st.linebuf ++ c ∷ [] })
    else clear st

pub same_level : ℕ → Option ℕ → Bool
same_level v none = false
same_level v (some last) = v == last

-- a level of the pin; none is a failed read
pub on_level : Cfg → Option ℕ → ℕ → Option ℕ → TrigState → TrigState
on_level cfg none now fork st = st
on_level cfg (some v) now fork st =
    if same_level v st.gpio_last
    then st
    else record (if v == cfg.gpio_active then attempt cfg now fork st else st) {
      gpio_last = some v;
    }

-- What a round of the loop of `trigger_run` meets: `waitpid`, a byte, a level.
pub data Event : Type 0 where
  reap : (exited : Bool) → Event
  byte : (c now : ℕ) (fork : Option ℕ) → Event
  level : (v : Option ℕ) (now : ℕ) (fork : Option ℕ) → Event

pub step : Cfg → Event → TrigState → TrigState
step cfg (reap exited) st = reap_child exited st
step cfg (byte c now fork) st = on_byte cfg c now fork st
step cfg (level v now fork) st = on_level cfg v now fork st

pub run : Cfg → List Event → TrigState → TrigState
run cfg [] st = st
run cfg (e ∷ es) st = run cfg es (step cfg e st)

-- the state before the loop, with the level that is read first
abbrev pub start : Option ℕ → TrigState
start first = record {
  linebuf = [];
  gpio_last = first;
  state = st_idle;
  child = 0;
  last_trigger_ms = 0;
}
