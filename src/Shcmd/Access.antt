-- ===== src/Shcmd/Access.antt =====
-- Who may use the daemon of shcmd/src/shcmd.c: `ct_equal`, `token_ok` and `addr_allowed`. A byte is
-- below 256, and a `size_t` is a number.
pub mod Equal
pub mod Prefix
use Prim.Native.Nat.{bit_xor, bit_or, bit_and}
use openwrt_demo.Prelude.{
  ℕ, zero, suc, ◌+◌, ◌-◌, ◌*◌, ◌/◌, ◌%◌, ◌^◌, max, Bool, true, false, not, ◌&&◌, ◌||◌, Option, none,
  some, List, [], ◌∷◌, ◌==◌, ltb, if◌then◌else◌, length, take, get_or, same_bytes,
}

-- the loop of `ct_equal`, `n` turns from `i` on
unfoldable pub diff_loop : ℕ → ℕ → List ℕ → List ℕ → ℕ → ℕ
diff_loop zero i a b diff = diff
diff_loop (suc n) i a b diff =
    let ca = get_or a i 0 in
    let cb = get_or b i 0 in diff_loop n (i + 1) a b (bit_or diff (bit_xor ca cb % 256))

unfoldable pub ct_equal : List ℕ → List ℕ → Bool
ct_equal a b =
    diff_loop (max (length a) (length b)) 0 a b (bit_xor (length a) (length b) % 256) == 0

unfoldable pub any_equal : List ℕ → List (List ℕ) → Bool
any_equal cand [] = false
any_equal cand (t ∷ ts) = let rest = any_equal cand ts in if ct_equal cand t then true else rest

-- A candidate that is NULL does not occur: the caller passes an array.
unfoldable pub token_ok : List (List ℕ) → List ℕ → Bool
token_ok tokens cand = if length tokens == 0 then false else any_equal cand tokens

pub record AddrRule : Type 0 where
  pub family : ℕ
  pub bits : ℕ
  pub raw : List ℕ

-- (unsigned char)(0xff << (8 - rem))
unfoldable pub prefix_mask : ℕ → ℕ
prefix_mask rem = 255 * 2 ^ (8 - rem) % 256

unfoldable pub rule_allows : AddrRule → ℕ → List ℕ → Bool
rule_allows r ss_family cand =
    let whole = r.bits / 8 in
    let rem = r.bits % 8 in
    if not (r.family == ss_family)
    then false
    else if not (same_bytes (take whole cand) (take whole r.raw))
    then false
    else if rem == 0
    then true
    else bit_and (get_or cand whole 0) (prefix_mask rem)
      == bit_and (get_or r.raw whole 0) (prefix_mask rem)

unfoldable pub any_allows : List AddrRule → ℕ → List ℕ → Bool
any_allows [] ss_family cand = false
any_allows (r ∷ rs) ss_family cand =
    let rest = any_allows rs ss_family cand in if rule_allows r ss_family cand then true else rest

unfoldable pub addr_allowed : List AddrRule → ℕ → List ℕ → Bool
addr_allowed rules ss_family cand =
    if length rules == 0 then true else any_allows rules ss_family cand
