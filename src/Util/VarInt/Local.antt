-- ===== src/Util/VarInt/Local.antt =====
-- `getRemainLength` does not look past the number: the bytes that it took say how many they are,
-- whatever follows them.
use libmqtt.Prelude.{
  ℕ, zero, suc, ◌+◌, ◌*◌, ◌^◌, ◌≤◌, ◌<◌, ◌≡◌, refl, arith, ◌⊎◌, [], ◌∷◌, ◌++◌, take, length,
  bit_and, bit_or,
}
use libmqtt.Util.Bytes.{Bytes}
use libmqtt.Util.VarInt.{remain_length_loop, get_remain_length}

abbrev count : ℕ → ℕ → Bytes → ℕ
count m acc bs = (remain_length_loop m acc bs).byte_count

-- The count grows with each byte, unless the input ends.
count_grows :
    (bs : Bytes) (m acc j : ℕ) → m ≡ 7 * j → (count m acc bs ≡ 0) ⊎ (j + 1 ≤ count m acc bs)
unfolding remain_length_loop
count_grows [] m acc j e = ground arith
count_grows (b ∷ bs) m acc j e =
    ground (arith, count_grows bs (m + 7) (bit_or acc (bit_and b 127 * 2 ^ m)) (j + 1))

count_local :
    (bs w : Bytes) (m acc j n : ℕ)
    → m ≡ 7 * j
    → j ≤ 4
    → count m acc bs ≡ j + suc n
    → suc n ≤ length bs
    → count m acc (take (suc n) bs ++ w) ≡ j + suc n
unfolding remain_length_loop
count_local [] w m acc j n e hj h len = absurd (omega arith)
count_local (b ∷ bs) w m acc j zero e hj h len =
    ground (arith, count_grows bs (m + 7) (bit_or acc (bit_and b 127 * 2 ^ m)) (j + 1))
count_local (b ∷ bs) w m acc j (suc n) e hj h len =
    ground (arith, count_local bs w (m + 7) (bit_or acc (bit_and b 127 * 2 ^ m)) (j + 1) n)

pub byte_count_local :
    (bs w : Bytes)
    → 0 < (get_remain_length bs).byte_count
    → (get_remain_length bs).byte_count ≤ length bs
    → (get_remain_length (take (get_remain_length bs).byte_count bs ++ w)).byte_count
      ≡ (get_remain_length bs).byte_count
unfolding get_remain_length
byte_count_local bs w some_bytes len = at (count 0 0 bs) refl
  where
    at : (n : ℕ) → count 0 0 bs ≡ n → count 0 0 (take (count 0 0 bs) bs ++ w) ≡ count 0 0 bs
    at zero e = absurd (omega (arith, e, some_bytes))
    at (suc n) e = rw e (
        omega (
          arith,
          count_local bs w 0 0 0 n refl (omega arith) (omega (arith, e)) (omega (arith, e, len)),
        ))
