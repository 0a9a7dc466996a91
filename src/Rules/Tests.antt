-- ===== src/Rules/Tests.antt =====
-- The rules at a concrete file.
use openwrt_demo.Rules.{
  Rule, l7_tcp, hexval, finished, digits, proto_of, cat_of, skipped, proto_fits, port_fits,
  at_offset, magic_fits, fits, l7_match, number_of, magic_of, rule, rule_of, parse_line, l7_load,
}
use openwrt_demo.Rules.Hex.{rule-bad_magic}
use openwrt_demo.Rules.Order.{l7_match-l7_load}
use openwrt_demo.Prelude.{
  ℕ, ◌+◌, ◌-◌, ◌*◌, ◌≡◌, refl, Bool, true, ◌&&◌, none, some, List, [], ◌∷◌, ◌++◌, arith, bytes_of,
  ℤ, pos,
}

-- stands in for `atoi`: the digits up to the end
abbrev atoi_from : ℕ → List ℕ → ℤ
atoi_from n [] = pos n
atoi_from n (c ∷ cs) = atoi_from (n * 10 + (c - 48)) cs

abbrev atoi : List ℕ → ℤ
atoi = atoi_from 0

abbrev ssh_line : List ℕ
ssh_line = bytes_of "tcp,22,0,5353 482d,SSH,Remote"

abbrev ssh : Rule
ssh = record {
  proto = l7_tcp;
  port = pos 22;
  offset = pos 0;
  magic = bytes_of "SSH-";
  app = bytes_of "SSH";
  cat = bytes_of "Remote";
}

abbrev earlier : List (List ℕ × Bool)
earlier = (bytes_of "tcp,22,*,*,Shell", true) ∷ (bytes_of "# rules", true) ∷ []

abbrev later : List (List ℕ × Bool)
later = (bytes_of "udp,*,*,*,Games", true) ∷ []

abbrev payload : List ℕ
payload = bytes_of "SSH-2.0"

ssh_parsed : parse_line atoi ssh_line ≡ some ssh
unfolding parse_line skipped rule_of rule magic_of number_of digits finished hexval proto_of cat_of
ssh_parsed = refl

odd_magic : digits (bytes_of "535") none [] ≡ []
unfolding digits finished hexval
odd_magic = refl

l7_match-l7_load_example :
    l7_match 6 22 (some payload) (l7_load atoi (some (earlier ++ (ssh_line, true) ∷ later)) []).0
    ≡ some (bytes_of "SSH", bytes_of "Remote")
unfolding fits proto_fits port_fits magic_fits at_offset parse_line skipped rule_of rule magic_of
    number_of digits finished hexval proto_of cat_of
l7_match-l7_load_example =
    l7_match-l7_load atoi earlier later ssh_line ssh [] 6 22 payload (omega arith) ssh_parsed refl
      (refl, tt)

rule-bad_magic_example :
    fits 6 80 (bytes_of "GET /") (
      rule atoi
        (bytes_of "tcp")
        (bytes_of "80")
        (bytes_of "0")
        (bytes_of "53" ++ b'x' ∷ bytes_of "48")
        (bytes_of "Odd")
        none)
    ≡ proto_fits l7_tcp 6 && port_fits (pos 80) 80
unfolding hexval rule proto_of number_of
rule-bad_magic_example =
    rule-bad_magic atoi (bytes_of "tcp") (bytes_of "80") (bytes_of "0") (bytes_of "53")
      (bytes_of "48") (bytes_of "Odd") none b'x' 6 80 (bytes_of "GET /") refl refl (omega arith)
