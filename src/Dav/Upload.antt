-- ===== src/Dav/Upload.antt =====
-- The copy of an uploaded file to the disk, of dav-bridge/src/dav-bridge.c: `find_bytes` and
-- `sr_copy_until_boundary`. A file is the list of its bytes, and the hash context the list of the
-- bytes that `MD5_Update` was given. `fwrite` is a parameter: whether it writes the bytes behind
-- those that the file has.
pub mod First
pub mod Block
pub mod Copy
pub mod Malformed
use openwrt_demo.Prelude.{
  ℕ, zero, suc, ◌+◌, ◌-◌, Bool, true, false, not, ◌&&◌, ◌||◌, Option, none, some, List, [], ◌∷◌,
  ◌++◌, ltb, leb, ◌==◌, if◌then◌else◌, length, take, drop,
}
use openwrt_demo.Dav.Reader.{Reader, window, sr_peek}
use openwrt_demo.Proto.Http.{find_from}

-- The loop is the same as that of `mem_find`; -1 is none.
unfoldable pub find_bytes : List ℕ → ℕ → List ℕ → Option ℕ
find_bytes hay from needle =
    if ltb (length hay) from || length needle == 0 || ltb (length hay - from) (length needle)
    then none
    else find_from (drop from hay) needle from

-- 0, -1, -2 and -3, and no answer: the fuel of the loop ran out
pub data CopyStatus : Type 0 where
  copied : CopyStatus
  malformed : CopyStatus
  write_error : CopyStatus
  too_large : CopyStatus
  unfinished : CopyStatus

pub record Sink : Type 0 where
  pub file : List ℕ
  pub total : ℕ
  pub hashed : Option (List ℕ)

-- if (md5ctx) MD5_Update(md5ctx, …);
pub hash_more : Option (List ℕ) → List ℕ → Option (List ℕ)
hash_more none bytes = none
hash_more (some before) bytes = some (before ++ bytes)

-- what the function does next: return, or go on with another turn
pub data Turn : Type 0 where
  finished : CopyStatus × Reader × Sink → Turn
  go_on : Reader → Sink → Turn

module _ (fwrite : List ℕ → List ℕ → Bool) (max : ℕ) where
  -- the block of `writable` bytes, which the function has twice
  pub put_window : ℕ → Reader → Sink → CopyStatus × Reader × Sink
  put_window writable r s =
      let bytes = take writable (window r) in
      let r' : Reader = record { buf = r.buf; pos = r.pos + writable; input = r.input } in
      let s' : Sink = record {
        file = s.file ++ bytes;
        total = s.total + writable;
        hashed = hash_more s.hashed bytes;
      } in
      if writable == 0
      then (copied, r, s)
      else if not (fwrite s.file bytes)
      then (write_error, r, s)
      else if ltb max (s.total + writable)
      then (too_large, r', s')
      else (copied, r', s')

  -- behind the block at the loop's end
  pub after_block : CopyStatus → Reader → Sink → Turn
  after_block copied r s = go_on r s
  after_block status r s = finished (status, r, s)

  pub after_search : List ℕ → Option ℕ → Reader → Sink → Turn
  after_search pat (some found) r s = finished (put_window (found - r.pos) r s)
  after_search pat none r s =
      let (status, r', s') = put_window (length (window r) - (length pat - 1)) r s in
      after_block status r' s'

  pub after_peek : List ℕ → Bool → Reader → Sink → Turn
  after_peek pat false r s = finished (malformed, r, s)
  after_peek pat true r s = after_search pat (find_bytes r.buf r.pos pat) r s

  -- one turn of the loop
  pub copy_turn : List ℕ → Reader → Sink → Turn
  copy_turn pat r s = let (there, r') = sr_peek (length pat) r in after_peek pat there r' s

  -- The loop, on fuel. A turn that goes on makes the input shorter.
  pub copy_loop : ℕ → List ℕ → Reader → Sink → CopyStatus × Reader × Sink
  copy_loop zero pat r s = (unfinished, r, s)
  copy_loop (suc fuel) pat r s = elim (copy_turn pat r s) [
    | finished result ↦ result
    | go_on r' s' ↦ copy_loop fuel pat r' s'
  ]

  -- `left` is not below the number of bytes that are left to read.
  unfoldable pub sr_copy_until_boundary : ℕ → List ℕ → Reader → Sink → CopyStatus × Reader × Sink
  sr_copy_until_boundary left pat r s = copy_loop (suc left) pat r s
