-- ===== src/Shcmd/Request/Tests.antt =====
-- A request that runs a command.
use openwrt_demo.Prelude.{
  ℕ, ◌-◌, ◌≡◌, refl, arith, true, false, Option, none, some, List, [], ◌∷◌, bytes_of, ℤ, pos,
}
use openwrt_demo.Proto.Http.{starts_with, c_string, mem_find, find_from}
use openwrt_demo.Shcmd.Access.{
  addr_allowed, any_allows, rule_allows, prefix_mask, token_ok, any_equal, ct_equal, diff_loop,
}
use openwrt_demo.Shcmd.Access.Prefix.{Permits}
use openwrt_demo.Shcmd.Params.{param_get, param_loop, after_amp, url_decode, decode_loop}
use openwrt_demo.Shcmd.Slot.{build_slot, slot_loop, slot_cap, values_room, turn, place_at, put}
use openwrt_demo.Shcmd.Request.{
  Entry, Config, Request, run_argv, given, request_token, request_name, entry_find, arg_key,
  add_arg, collect_loop, extra_args, enum_ok, number_ok, range_ok, args_ok, add_slot, build_argv,
  run_built, run_entry, run_found, run_named, route, handle_client,
}
use openwrt_demo.Shcmd.Request.Runs.{Runs, handle_client-Runs}

-- the numbers of one digit
abbrev strtol : List ℕ → Option ℤ
strtol (c ∷ []) = some (pos (c - 48))
strtol other = none

abbrev ping : Entry
ping = record {
  name = bytes_of "ping";
  argv = bytes_of "sh" ∷ bytes_of "-c" ∷ bytes_of "ping -c {a1} x" ∷ [];
  timeout = 10;
  args = record { enums = none; range = some (pos 1, pos 5); required = true } ∷ [];
}

abbrev cfg : Config
cfg = record {
  tokens = bytes_of "secret" ∷ [];
  addrs = record { family = 2; bits = 24; raw = 192 ∷ 168 ∷ 1 ∷ 0 ∷ [] } ∷ [];
  entries = ping ∷ [];
  max_args = 4;
}

abbrev request : Request
request = record {
  is_post = false;
  target = bytes_of "/r";
  query = some (bytes_of "n=ping&a=3");
  auth_hdr = bytes_of "Bearer secret";
  body = [];
}

abbrev command : List (List ℕ)
command = bytes_of "sh" ∷ bytes_of "-c" ∷ bytes_of "ping -c 3 x" ∷ []

runs : handle_client strtol cfg 2 (192 ∷ 168 ∷ 1 ∷ 77 ∷ []) request ≡ run_argv command 10
unfolding handle_client route run_named run_found run_entry run_built build_argv add_slot args_ok
    range_ok number_ok enum_ok extra_args collect_loop add_arg arg_key entry_find request_name
    request_token given build_slot slot_loop slot_cap values_room turn place_at put param_get
    param_loop after_amp url_decode decode_loop starts_with c_string mem_find find_from addr_allowed
    any_allows rule_allows prefix_mask token_ok any_equal ct_equal diff_loop
runs = refl

handle_client-Runs_example :
    Permits cfg.addrs 2 (192 ∷ 168 ∷ 1 ∷ 77 ∷ [])
    × (request.target ≡ bytes_of "/r")
    × Runs strtol cfg request command 10
handle_client-Runs_example =
    handle_client-Runs strtol cfg 2 (192 ∷ 168 ∷ 1 ∷ 77 ∷ []) request command 10 (ground arith)
      (ground arith) runs

-- The second parameter is taken for the first one, which is required and missing.
shifted :
    handle_client strtol cfg 2
      (192 ∷ 168 ∷ 1 ∷ 77 ∷ [])
      (record request { query = some (bytes_of "n=ping&a1=3") })
    ≡ run_argv command 10
unfolding handle_client route run_named run_found run_entry run_built build_argv add_slot args_ok
    range_ok number_ok enum_ok extra_args collect_loop add_arg arg_key entry_find request_name
    request_token given build_slot slot_loop slot_cap values_room turn place_at put param_get
    param_loop after_amp url_decode decode_loop starts_with c_string mem_find find_from addr_allowed
    any_allows rule_allows prefix_mask token_ok any_equal ct_equal diff_loop
shifted = refl
