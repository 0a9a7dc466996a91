-- ===== src/Crypto/Stream/Absorb.antt =====
-- What `update` keeps of a message: the state after its whole blocks, and the rest in the buffer.
use openwrt_demo.Crypto.Words.{splice}
use openwrt_demo.Crypto.Stream.{Ctx, index, blocks, whole_blocks, fill_first, update}
use openwrt_demo.Crypto.Stream.Blocks.{
  blocks_rest, blocks-append, blocks_short, blocks_long, take-append-ge, drop-append-ge,
}
use openwrt_demo.Prelude.{
  ℕ, zero, suc, ◌+◌, ◌-◌, ◌*◌, ◌%◌, ◌^◌, ◌≤◌, ◌<◌, ◌≡◌, refl, sym, ap, ◌∙◌, false, List, [], ◌∷◌,
  ◌++◌, inl, inr, ltb, ◌==◌, Bool-cases, arith, length, take, drop, length-append, length-drop,
  length-take, take_all, take-append, ltb→lt, ltb→ge,
}

pub length-splice :
    (buf : List ℕ) (i : ℕ) (xs : List ℕ)
    → i + length xs ≤ length buf
    → length (splice buf i xs) ≡ length buf
length-splice buf i xs h = omega (
  arith,
  length-append (take i buf ++ xs) (drop (i + length xs) buf),
  length-append (take i buf) xs,
  length-take i buf,
  length-drop (i + length xs) buf,
  h,
)

-- What was copied stands behind what was there.
take-splice :
    (buf : List ℕ) (i n : ℕ) (xs : List ℕ)
    → n ≡ i + length xs
    → n ≤ length buf
    → take n (splice buf i xs) ≡ take i buf ++ xs
take-splice buf i n xs e h =
    take-append (take i buf ++ xs) (drop (i + length xs) buf) n
      (omega (arith, length-append (take i buf) xs, length-take i buf, e, h))

drop_all : (n : ℕ) (xs : List ℕ) → length xs ≤ n → drop n xs ≡ []
drop_all zero [] h = refl
drop_all zero (x ∷ xs) h = absurd (omega arith)
drop_all (suc n) [] h = refl
drop_all (suc n) (x ∷ xs) h = drop_all n xs (omega arith)

empty : (xs : List ℕ) → length xs ≡ 0 → xs ≡ []
empty [] h = refl
empty (x ∷ xs) h = absurd (omega arith)

module _ (transform : List ℕ → List ℕ → List ℕ) where
  -- The context has taken in the message, from the state `start` on.
  pub record Holds (start message : List ℕ) (c : Ctx) : Type 0 where
    pub count : c.count ≡ length message * 8
    pub size : length c.buffer ≡ 64
    pub taken :
        blocks transform (length message) start message
        ≡ (c.state, take (length message % 64) c.buffer)

  whole_blocks-Holds :
      (start message : List ℕ) (c : Ctx) (p : List ℕ)
      → c.count ≡ length message * 8
      → length c.buffer ≡ 64
      → blocks transform (length message) start message ≡ blocks transform (length p) c.state p
      → length message % 64 ≡ length p % 64
      → Holds start message (whole_blocks transform c p)
  unfolding whole_blocks
  whole_blocks-Holds start message c p count size e m =
      let rest = (blocks transform (length p) c.state p).1 in
      let n : length rest ≡ length p % 64 =
        blocks_rest transform (length p) c.state p (omega arith) in
      elim (Bool-cases (ltb 0 (length rest))) [
        | inr none_left ↦
            let gone : length rest ≡ 0 = omega (arith, ltb→ge _ _ none_left) in
            let zero_left : 0 ≡ length message % 64 = omega (arith, gone, n, m) in
            rw none_left (record {
              count = count;
              size = size;
              taken =
                  e
                  ∙ ap (λ t. ((blocks transform (length p) c.state p).0, t))
                      (empty rest gone ∙ ap (λ k. take k c.buffer) zero_left);
            })
        | inl left ↦ rw left (record {
          count = count;
          size = length-splice c.buffer 0 rest (omega (arith, n, size)) ∙ size;
          taken =
              e
              ∙ ap (λ t. ((blocks transform (length p) c.state p).0, t))
                  (sym (
                    take-splice c.buffer 0 (length message % 64) rest (omega (arith, n, m))
                      (omega (arith, size))));
        })
      ]

  -- The step that fills the buffer up first, if it holds a rest of `idx` bytes.
  fill_first-Holds :
      (start message : List ℕ) (c : Ctx) (idx : ℕ) (p : List ℕ)
      → c.count ≡ length message * 8
      → length c.buffer ≡ 64
      → idx < 64
      → length message % 64 ≡ (idx + length p) % 64
      → blocks transform (length message) start message
        ≡ blocks transform (length (take idx c.buffer ++ p)) c.state (take idx c.buffer ++ p)
      → Holds start message (fill_first transform c idx p)
  unfolding fill_first
  fill_first-Holds start message c zero p count size lt m e =
      whole_blocks-Holds start message c p count size e (omega (arith, m))
  fill_first-Holds start message c (suc k) p count size lt m e =
      let idx = suc k in
      let inside : (suc k == 0) ≡ false = ground arith in
      let kept : length (take idx c.buffer) ≡ idx = omega (arith, length-take idx c.buffer, size) in
      elim (Bool-cases (ltb (length p) (64 - idx))) [
        | inl short ↦
            let room = ltb→lt _ _ short in
            rw (inside, short)
              (record {
                count = count;
                size = length-splice c.buffer idx p (omega arith) ∙ size;
                taken =
                    e
                    ∙ blocks_short transform (length (take idx c.buffer ++ p)) c.state
                        (take idx c.buffer ++ p)
                        (omega (arith, length-append (take idx c.buffer) p, kept, room))
                    ∙ ap (λ t. (c.state, t))
                        (sym (
                          take-splice c.buffer idx (length message % 64) p (omega (arith, m, room))
                            (omega arith)));
              })
        | inr enough ↦
            let many = ltb→ge _ _ enough in
            let part = take (64 - idx) p in
            let len : length part ≡ 64 - idx = omega (arith, length-take (64 - idx) p, many) in
            let full = splice c.buffer idx part in
            let whole : length full ≡ 64 =
              length-splice c.buffer idx part (omega (arith, len)) ∙ size in
            let block : take 64 (take idx c.buffer ++ p) ≡ full =
              take-append-ge 64 (64 - idx) (take idx c.buffer) p (omega (arith, kept))
              ∙ sym (
                  sym (take_all 64 full (omega (arith, whole)))
                  ∙ take-splice c.buffer idx 64 part (omega (arith, len)) (omega (arith, size))) in
            let rest : drop 64 (take idx c.buffer ++ p) ≡ drop (64 - idx) p =
              drop-append-ge 64 (64 - idx) (take idx c.buffer) p (omega (arith, kept)) in
            let tail =
              blocks_long transform c.state (take idx c.buffer ++ p)
                (omega (arith, length-append (take idx c.buffer) p, kept, many)) in
            rw (inside, enough)
              (whole_blocks-Holds start message
                (record c { state = transform c.state full; buffer = full }) (drop (64 - idx) p)
                count whole (e ∙ tail ∙ rw (block, rest) refl)
                (omega (arith, m, length-drop (64 - idx) p, many)))
      ]

  -- The bytes that come are taken in behind those that came before.
  pub update-Holds :
      (start message : List ℕ) (c : Ctx) (p : List ℕ)
      → Holds start message c
      → length (message ++ p) * 8 < 2 ^ 64
      → Holds start (message ++ p) (update transform c p)
  unfolding update
  update-Holds start message c p h small =
      let n = length-append message p in
      let at : index c.count ≡ length message % 64 = omega (arith, h.count) in
      fill_first-Holds start (message ++ p) (record c { count = (c.count + length p * 8) % 2 ^ 64 })
        (index c.count) p (omega (arith, h.count, n, small)) h.size (omega arith)
        (omega (arith, at, n))
        (blocks-append transform (length message) start message p (omega arith)
          ∙ rw (h.taken, at) refl)
