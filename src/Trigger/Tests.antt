-- ===== src/Trigger/Tests.antt =====
-- Two wake words, of which the second comes too soon.
use openwrt_demo.Trigger.{
  Cfg, st_listening, is_idle, fire, debounced, attempt, reap_child, trim_end, begins, contains,
  handle_line, clear, submit, spot, on_byte, same_level, on_level, Event, reap, byte, level, step,
  run, start,
}
use openwrt_demo.Prelude.{ℕ, ◌≡◌, refl, true, Option, some, List, [], ◌∷◌, ◌++◌, bytes_of}

abbrev cfg : Cfg
cfg = record { uart_keyword = bytes_of "WAKE"; gpio_active = 1; debounce_ms = 3000 }

-- the bytes of a text, all at one time
abbrev typed : ℕ → Option ℕ → List ℕ → List Event
typed now fork [] = []
typed now fork (c ∷ cs) = byte c now fork ∷ typed now fork cs

abbrev events : List Event
events = typed 5000 (some 71) (bytes_of "x WAKE") ++ typed 6000 (some 72) (bytes_of "WAKE")

one_child : run cfg events (start (some 0)) ≡ record {
  linebuf = [];
  gpio_last = some 0;
  state = st_listening;
  child = 71;
  last_trigger_ms = 5000;
}
unfolding run step on_byte spot submit clear handle_line contains begins trim_end attempt debounced
    fire is_idle
one_child = refl

after_the_child :
    (run cfg (events ++ reap true ∷ level (some 1) 9000 (some 73) ∷ []) (start (some 0))).child ≡ 73
unfolding run step on_byte spot submit clear handle_line contains begins trim_end attempt debounced
    fire is_idle reap_child on_level same_level
after_the_child = refl
