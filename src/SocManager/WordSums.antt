-- ===== src/SocManager/WordSums.antt =====
-- The bytes of the words of a response, and what the checksum loop makes of them.
use mcu_fw_cpp.Prelude.{
  ℕ, zero, suc, ◌+◌, ◌*◌, ◌-◌, ◌^◌, ◌≤◌, ◌<◌, ◌≡◌, refl, u32, arith, ◌>>>◌, ltb, leb, true, List,
  [], ◌∷◌, ◌++◌, if◌then◌else◌, sub32,
}
use mcu_fw_cpp.Prelude.Masks.{bit_and-mod}
use mcu_fw_cpp.SocManager.Response.{
  MailboxResponse, word_count, remaining_bytes, valid_part, add_bytes,
}
use mcu_fw_cpp.SocManager.Checksum.{sum, word_bytes, calc_checksum, calc_checksum_balances}

-- The first `n` bytes.
abbrev pub take : ℕ → List ℕ → List ℕ
take zero xs = []
take (suc n) [] = []
take (suc n) (x ∷ xs) = x ∷ take n xs

pub add_bytes-valid_part :
    (r w c : ℕ)
    → 0 < r
    → r ≤ 4
    → add_bytes r 0 (valid_part r w) c ≡ u32 (c + sum (take r (word_bytes w)))
unfolding add_bytes valid_part
add_bytes-valid_part zero w c pos le = absurd (omega arith)
add_bytes-valid_part (suc zero) w c pos le =
    omega (arith, bit_and-mod 8 w, bit_and-mod 8 (valid_part 1 w >>> 0))
add_bytes-valid_part (suc (suc zero)) w c pos le = omega (
  arith,
  bit_and-mod 16 w,
  bit_and-mod 8 (valid_part 2 w >>> 0),
  bit_and-mod 8 (valid_part 2 w >>> 8),
)
add_bytes-valid_part (suc (suc (suc zero))) w c pos le = omega (
  arith,
  bit_and-mod 24 w,
  bit_and-mod 8 (valid_part 3 w >>> 0),
  bit_and-mod 8 (valid_part 3 w >>> 8),
  bit_and-mod 8 (valid_part 3 w >>> 16),
)
add_bytes-valid_part (suc (suc (suc (suc zero)))) w c pos le = omega (
  arith,
  bit_and-mod 8 (w >>> 0),
  bit_and-mod 8 (w >>> 8),
  bit_and-mod 8 (w >>> 16),
  bit_and-mod 8 (w >>> 24),
)
add_bytes-valid_part (suc (suc (suc (suc (suc r))))) w c pos le = absurd (omega (arith, le))

pub sum-take-nil : (n : ℕ) → sum (take n []) ≡ 0
sum-take-nil zero = refl
sum-take-nil (suc n) = refl

-- The bytes of one word, and those of the words after it.
pub sum-take-word :
    (n w : ℕ) (rest : List ℕ)
    → sum (take n (word_bytes w ++ rest))
      ≡ sum (take (if ltb 4 n then 4 else n) (word_bytes w)) + sum (take (n - 4) rest)
sum-take-word zero w rest = refl
sum-take-word (suc zero) w rest = omega arith
sum-take-word (suc (suc zero)) w rest = omega arith
sum-take-word (suc (suc (suc zero))) w rest = omega arith
sum-take-word (suc (suc (suc (suc zero)))) w rest = omega arith
sum-take-word (suc (suc (suc (suc (suc n))))) w rest =
    let more : ltb 4 (suc (suc (suc (suc (suc n))))) ≡ true = ground arith in
    let left : suc (suc (suc (suc (suc n)))) - 4 ≡ suc n = omega arith in
    rw (more, left) (omega arith)

pub sum_of_word :
    (r : MailboxResponse) (w : ℕ) (rest : List ℕ)
    → 4 * r.idx < r.dlen_bytes
    → r.dlen_bytes < 2 ^ 32
    → u32 (
        add_bytes (remaining_bytes r r.idx) 0 (valid_part (remaining_bytes r r.idx) w) r.checksum
        + sum (take (r.dlen_bytes - 4 * (r.idx + 1)) rest))
      ≡ u32 (r.checksum + sum (take (r.dlen_bytes - 4 * r.idx) (word_bytes w ++ rest)))
unfolding remaining_bytes
sum_of_word r w rest more fits =
    let n = r.dlen_bytes - 4 * r.idx in
    let next : r.dlen_bytes - 4 * (r.idx + 1) ≡ n - 4 = omega arith in
    let here : sub32 r.dlen_bytes (u32 (r.idx * 4)) ≡ n = omega arith in
    let k = if ltb 4 n then 4 else n in
    let low : 0 < k = ground arith in
    let high : k ≤ 4 = ground arith in
    rw (next, here)
      (omega (arith, sum-take-word n w rest, add_bytes-valid_part k w r.checksum low high))

pub index_inside :
    (r : MailboxResponse)
    → r.idx < word_count r
    → r.dlen_bytes + 3 < 2 ^ 32
    → 4 * r.idx < r.dlen_bytes
unfolding word_count
index_inside r more fits = omega (arith, more)

pub same_count :
    (r : MailboxResponse) (k c : ℕ) → word_count r ≡ word_count (record r { idx = k; checksum = c })
unfolding word_count
same_count r k c = refl

pub calc_checksum-lt : (bytes : List ℕ) → calc_checksum 0 bytes < 2 ^ 32
unfolding calc_checksum
calc_checksum-lt bytes = omega arith

-- The negated sum, which the iterator compares.
pub checksum_of : (bytes : List ℕ) → sub32 0 (u32 (0 + sum bytes)) ≡ calc_checksum 0 bytes
checksum_of bytes = omega (arith, calc_checksum_balances 0 bytes, calc_checksum-lt bytes)

pub leb_refl : (a : ℕ) → leb a a ≡ true
leb_refl a = ground arith
