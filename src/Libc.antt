-- ===== src/Libc.antt =====
-- The C library functions of the ROM (platforms/emulator/rom/src/libc_stubs.cpp), on a memory of
-- bytes by address. Pointers stay below the end of the address space.
pub mod Compare
pub mod Copy
use mcu_fw_cpp.Prelude.{
  ℕ, zero, suc, ◌+◌, ◌-◌, u8, Bool, true, false, Option, none, some, ◌==◌, ltb, if◌then◌else◌,
}

abbrev pub Bytes : Type 0
Bytes = ℕ → ℕ

abbrev pub put : Bytes → ℕ → ℕ → Bytes
put m p v q = if p == q then v else m q

unfoldable pub memset : ℕ → ℕ → ℕ → Bytes → Bytes
memset d ch zero m = m
memset d ch (suc count) m = memset (d + 1) ch count (put m d (u8 ch))

-- `*d++ = *s++`, which `memcpy` and the first branch of `memmove` repeat.
unfoldable pub copy_up : ℕ → ℕ → ℕ → Bytes → Bytes
copy_up d s zero m = m
copy_up d s (suc count) m = copy_up (d + 1) (s + 1) count (put m d (m s))

-- `*--d = *--s`, from behind the last byte.
unfoldable pub copy_down : ℕ → ℕ → ℕ → Bytes → Bytes
copy_down d s zero m = m
copy_down d s (suc count) m = copy_down (d - 1) (s - 1) count (put m (d - 1) (m (s - 1)))

unfoldable pub memcpy : ℕ → ℕ → ℕ → Bytes → Bytes
unfolding copy_up
memcpy dest src count = copy_up dest src count

unfoldable pub memmove : ℕ → ℕ → ℕ → Bytes → Bytes
unfolding copy_up copy_down
memmove dest src count m =
    if ltb dest src
    then copy_up dest src count m
    else copy_down (dest + count) (src + count) count m

-- The results -1, 0 and 1.
pub data Sign : Type 0 where
  negative nought positive : Sign

unfoldable pub memcmp : ℕ → ℕ → ℕ → Bytes → Sign
memcmp l r zero m = nought
memcmp l r (suc count) m =
    let rest = memcmp (l + 1) (r + 1) count m in
    if m l == m r then rest else if ltb (m l) (m r) then negative else positive

-- The loop has no bound: `none` is a text that outlasts the fuel.
unfoldable pub strlen_from : ℕ → ℕ → ℕ → Bytes → Option ℕ
strlen_from zero str len m = none
strlen_from (suc fuel) str len m =
    let rest = strlen_from fuel (str + 1) (len + 1) m in if m str == 0 then some len else rest

unfoldable pub strlen : ℕ → ℕ → Bytes → Option ℕ
unfolding strlen_from
strlen fuel str m = strlen_from fuel str 0 m
