-- ===== src/SocManager/Response.antt =====
-- The response iterator `CaliptraMailboxResponse`.
use mcu_fw_cpp.Prelude.{
  ℕ, zero, suc, ◌+◌, ◌*◌, ◌-◌, ◌/◌, u32, sub32, bit_and, Bool, true, false, Option, none, some,
  ◌==◌, ltb, leb, if◌then◌else◌, ◌<<<◌, ◌>>>◌,
}
use mcu_fw_cpp.Bus.{Bus, Hw, read_reg, write_reg}
use mcu_fw_cpp.Error.{McuResult, ok, err, mbox_invalid_response}

pub record MailboxResponse : Type 0 where
  pub mbox_base : ℕ
  pub idx : ℕ
  pub dlen_bytes : ℕ
  pub checksum : ℕ
  pub expected_checksum : ℕ
  pub released : Bool

-- The offsets as this class declares them.
abbrev pub mbox_dataout : ℕ
mbox_dataout = 0x00

abbrev pub mbox_execute : ℕ
mbox_execute = 0x04

-- The constructor.
unfoldable pub respond : ℕ → ℕ → ℕ → MailboxResponse
respond mbox_base dlen_bytes expected_checksum = record {
  mbox_base = mbox_base;
  idx = 0;
  dlen_bytes = dlen_bytes;
  checksum = 0;
  expected_checksum = expected_checksum;
  released = false;
}

unfoldable pub len : MailboxResponse → ℕ
len r = r.dlen_bytes

unfoldable pub is_empty : MailboxResponse → Bool
is_empty r = r.dlen_bytes == 0

-- `(dlen_bytes_ + 3) / 4`, on a 32-bit `size_t`.
unfoldable pub word_count : MailboxResponse → ℕ
word_count r = u32 (r.dlen_bytes + 3) / 4

-- The move constructor: the new response, and the one moved from.
unfoldable pub move : MailboxResponse → MailboxResponse × MailboxResponse
move other = (other, record other { released = true })

unfoldable pub reset : MailboxResponse → MailboxResponse
reset r = record r { idx = 0; checksum = 0 }

unfoldable pub verify_checksum : MailboxResponse → McuResult (Unit {0})
verify_checksum r =
    if sub32 0 r.checksum == r.expected_checksum then ok tt else err mbox_invalid_response

-- The checksum loop: the low `count` bytes of the word from byte `i` on.
unfoldable pub add_bytes : ℕ → ℕ → ℕ → ℕ → ℕ
add_bytes zero i word checksum = checksum
add_bytes (suc count) i word checksum =
    add_bytes count (i + 1) word (u32 (checksum + bit_and (word >>> (i * 8)) 0xff))

-- The bytes of the word at index `i` that belong to the response, four at most.
unfoldable pub remaining_bytes : MailboxResponse → ℕ → ℕ
remaining_bytes r i = let rest = sub32 r.dlen_bytes (u32 (i * 4)) in if ltb 4 rest then 4 else rest

-- The word with the bytes beyond the response masked off.
unfoldable pub valid_part : ℕ → ℕ → ℕ
valid_part remaining word =
    if ltb remaining 4 then bit_and word (u32 (1 <<< (remaining * 8)) - 1) else word

module _ {S : Type 0} ⦃bus : Bus S⦄ where
  unfoldable pub next : MailboxResponse → Hw S (Option ℕ × MailboxResponse)
  unfolding word_count remaining_bytes valid_part add_bytes
  next r s =
      if leb (word_count r) r.idx
      then ((none, r), s)
      else if r.idx == 0
      then ((some r.expected_checksum, record r { idx = 1 }), s)
      else let (word, s') = read_reg r.mbox_base mbox_dataout s in
        let remaining = remaining_bytes r r.idx in
        let valid = valid_part remaining word in
        (
          (
            some valid,
            record r { idx = r.idx + 1; checksum = add_bytes remaining 0 valid r.checksum },
          ),
          s',
        )

  -- The destructor.
  unfoldable pub release : MailboxResponse → Hw S (Unit {0})
  release r s = if r.released then (tt, s) else write_reg r.mbox_base mbox_execute 0 s

  -- The move assignment: what `this` becomes, and what `other` becomes.
  unfoldable pub assign :
      MailboxResponse → MailboxResponse → Hw S (MailboxResponse × MailboxResponse)
  unfolding release
  assign this other s =
      let (_, s') = release this s in ((other, record other { released = true }), s')
