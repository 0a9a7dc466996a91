-- ===== src/Shcmd/Request/Words.antt =====
-- The words of a constraint of shcmd/src/shcmd.c, which stand between commas.
use mathlib.Core.List.{append_assoc}
use openwrt_demo.Prelude.{
  ℕ, zero, suc, ◌≡◌, ◌⊎◌, refl, sym, ap, ◌∙◌, Bool, true, false, Option, none, some, List, [], ◌∷◌,
  ◌++◌, ◌==◌, ==→eq, inl, inr, Bool-cases, cut_at, length, same_bytes, same_bytes-eq,
}
use openwrt_demo.Shcmd.Request.{after_comma, enum_loop, enum_ok}

-- One of the words of a list with commas between them.
pub record IsWord (v enums : List ℕ) : Type 0 where
  pub before : List ℕ
  pub after : List ℕ
  pub split : enums ≡ before ++ (v ++ after)
  pub starts : (before ≡ []) ⊎ ((b : List ℕ) × (before ≡ b ++ (b',' ∷ [])))
  pub ends : (after ≡ []) ⊎ ((a : List ℕ) × (after ≡ b',' ∷ a))

-- The value is a word, where there is a list of words.
abbrev pub IsListed : Option (List ℕ) → List ℕ → Type 0
IsListed none v = Unit
IsListed (some enums) v = IsWord v enums

-- the first word, and what stands behind it
behind_first : Option (List ℕ) → List ℕ
behind_first none = []
behind_first (some rest) = b',' ∷ rest

first_word : (s : List ℕ) → s ≡ cut_at b',' s ++ behind_first (after_comma s)
unfolding behind_first
first_word [] = refl
first_word (c ∷ cs) = elim (Bool-cases (c == b',')) [
  | inl comma ↦ rw comma (ap (λ d. d ∷ cs) (==→eq c b',' comma))
  | inr other ↦ rw other (ap (λ t. c ∷ t) (first_word cs))
]

behind_first-ends :
    (o : Option (List ℕ)) → (behind_first o ≡ []) ⊎ ((a : List ℕ) × (behind_first o ≡ b',' ∷ a))
unfolding behind_first
behind_first-ends none = inl refl
behind_first-ends (some rest) = inr (rest, refl)

-- A word of what stands behind the first comma is one of the list.
behind_comma : (v first rest s : List ℕ) → s ≡ first ++ (b',' ∷ rest) → IsWord v rest → IsWord v s
behind_comma v first rest s e w = record {
  before = first ++ (b',' ∷ w.before);
  after = w.after;
  split =
      e
      ∙ ap (λ t. first ++ (b',' ∷ t)) w.split
      ∙ sym (append_assoc first (b',' ∷ w.before) (v ++ w.after));
  starts = inr (elim w.starts [
    | inl nothing ↦ (first, ap (λ t. first ++ (b',' ∷ t)) nothing)
    | inr (b, same) ↦ (
      first ++ (b',' ∷ b),
      ap (λ t. first ++ (b',' ∷ t)) same ∙ sym (append_assoc first (b',' ∷ b) (b',' ∷ [])),
    )
  ]);
  ends = w.ends;
}

enum_loop-IsWord : (fuel : ℕ) (s v : List ℕ) → enum_loop fuel s v ≡ true → IsWord v s
unfolding enum_loop behind_first
enum_loop-IsWord zero s v h = cc
enum_loop-IsWord (suc fuel) [] v h = cc
enum_loop-IsWord (suc fuel) (c ∷ cs) v h =
    found (λ rest. enum_loop-IsWord fuel rest v) (same_bytes (cut_at b',' (c ∷ cs)) v)
      (after_comma (c ∷ cs)) refl refl h
  where
    found :
        ((rest : List ℕ) → enum_loop fuel rest v ≡ true → IsWord v rest)
        → (b : Bool) (o : Option (List ℕ)) → same_bytes (cut_at b',' (c ∷ cs)) v ≡ b
        → after_comma (c ∷ cs) ≡ o
        → elim b [
          | true ↦ true
          | false ↦ elim o [ none ↦ false | some rest ↦ enum_loop fuel rest v ]
        ]
          ≡ true
        → IsWord v (c ∷ cs)
    found later true o is e h = record {
      before = [];
      after = behind_first (after_comma (c ∷ cs));
      split =
          first_word (c ∷ cs)
          ∙ ap (λ w. w ++ behind_first (after_comma (c ∷ cs))) (same_bytes-eq _ v is);
      starts = inl refl;
      ends = behind_first-ends (after_comma (c ∷ cs));
    }
    found later false none other e h = cc
    found later false (some rest) other e h =
        behind_comma v (cut_at b',' (c ∷ cs)) rest (c ∷ cs)
          (first_word (c ∷ cs) ∙ ap (λ o. cut_at b',' (c ∷ cs) ++ behind_first o) e) (later rest h)

pub enum_ok-IsListed :
    (enums : Option (List ℕ)) (v : List ℕ) → enum_ok enums v ≡ true → IsListed enums v
unfolding enum_ok
enum_ok-IsListed none v h = tt
enum_ok-IsListed (some enums) v h = enum_loop-IsWord (length enums) enums v h
