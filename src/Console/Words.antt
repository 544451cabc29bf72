-- ===== src/Console/Words.antt =====
-- cmd/libmqtt: the texts that commands are made of, by `strings.Split` at one byte, and numbers.
use libmqtt.Prelude.{
  ℕ, ◌+◌, ◌-◌, ◌*◌, ◌^◌, ◌≡◌, refl, ◌∙◌, ap, arith, false, ◌&&◌, List, [], ◌∷◌, ◌++◌, ltb, leb,
  ◌==◌, if◌then◌else◌, Option, none, some, ℤ, pos, negsuc, All, zero, suc,
}
use libmqtt.Util.Bytes.{Bytes}

-- A byte in front of the first word.
abbrev pub grow_first : ℕ → List Bytes → List Bytes
grow_first b [] = (b ∷ []) ∷ []
grow_first b (w ∷ ws) = (b ∷ w) ∷ ws

unfoldable pub split : ℕ → Bytes → List Bytes
split sep [] = [] ∷ []
split sep (b ∷ bs) = let rest = split sep bs in if b == sep then [] ∷ rest else grow_first b rest

-- The digits of a number that is not below 0, behind `n`.
unfoldable pub digits : ℕ → Bytes → Option ℕ
digits n [] = some n
digits n (b ∷ bs) =
    let rest = digits (n * 10 + (b - b'0')) bs in if leb b'0' b && leb b b'9' then rest else none

abbrev minus : ℕ → ℤ
minus zero = pos 0
minus (suc n) = negsuc n

abbrev positive : Option ℕ → Option ℤ
positive none = none
positive (some n) = if ltb n (2 ^ 63) then some (pos n) else none

abbrev negative : Option ℕ → Option ℤ
negative none = none
negative (some n) = if leb n (2 ^ 63) then some (minus n) else none

-- At least one digit.
abbrev natural : Bytes → Option ℕ
natural [] = none
natural (b ∷ bs) = digits 0 (b ∷ bs)

-- `strconv.Atoi`, where an `int` has 64 bits: `none` is any of its errors.
unfoldable pub atoi : Bytes → Option ℤ
atoi [] = none
atoi (b ∷ bs) =
    if b == b'-'
    then negative (natural bs)
    else if b == b'+'
    then positive (natural bs)
    else positive (natural (b ∷ bs))

-- The words with the byte between them.
unfoldable pub joined : ℕ → Bytes → List Bytes → Bytes
joined sep w [] = w
joined sep w (v ∷ vs) = w ++ sep ∷ joined sep v vs

-- No byte of a word is the one that it is split at.
abbrev pub IsWord : ℕ → Bytes → Type 0
IsWord sep w = All (λ b. (b == sep) ≡ false) w

split_word : (sep : ℕ) (w : Bytes) → IsWord sep w → split sep w ≡ w ∷ []
unfolding split
split_word sep [] h = refl
split_word sep (b ∷ w) h = rw (h.0, split_word sep w h.1)

split_behind :
    (sep : ℕ) (w rest : Bytes) → IsWord sep w → split sep (w ++ sep ∷ rest) ≡ w ∷ split sep rest
unfolding split
split_behind sep [] rest h = ground arith
split_behind sep (b ∷ w) rest h = rw (h.0, split_behind sep w rest h.1)

-- Words that do not have the byte are what `Split` gives for the text that has it between them.
pub split-joined :
    (sep : ℕ) (w : Bytes) (ws : List Bytes)
    → IsWord sep w
    → All (IsWord sep) ws
    → split sep (joined sep w ws) ≡ w ∷ ws
unfolding joined
split-joined sep w [] h hs = split_word sep w h
split-joined sep w (v ∷ vs) h hs =
    split_behind sep w (joined sep v vs) h ∙ ap (◌∷◌ w) (split-joined sep v vs hs.0 hs.1)
