-- ===== src/Rom/Soc/Users.antt =====
-- The stores of `Soc::set_axi_users`.
use mcu_fw_cpp.Prelude.{
  ℕ, ◌+◌, ◌*◌, ◌<◌, ◌≡◌, ap, u32, arith, leb, false, List, [], ◌∷◌, Option, none, some,
}
use mcu_fw_cpp.Bus.{Bus, reg, write_reg}
use mcu_fw_cpp.Rom.Soc.{Soc, AxiUsers, returned, set_cptra_mbox_valid_axi_user, set_cptra_wdt_cfg}

-- The two stores for each user that is given, in the order of the users.
abbrev pub mbox_stores : Soc → ℕ → List (Option ℕ) → List (ℕ × ℕ)
mbox_stores soc i [] = []
mbox_stores soc i (none ∷ rest) = mbox_stores soc (i + 1) rest
mbox_stores soc i (some user ∷ rest) =
    (reg soc.base_addr (0x20 + i * 4), u32 user)
    ∷ (reg soc.base_addr (0x34 + i * 4), 1)
    ∷ mbox_stores soc (i + 1) rest

-- The stores for the fuse, entropy and memory access users.
abbrev pub other_stores : Soc → AxiUsers → List (ℕ × ℕ)
other_stores soc users =
    (reg soc.base_addr 0x48, u32 users.fuse_user)
    ∷ (reg soc.base_addr 0x4c, 1)
    ∷ (reg soc.base_addr 0x50, u32 users.trng_user)
    ∷ (reg soc.base_addr 0x54, 1)
    ∷ (reg soc.base_addr 0x58, u32 users.dma_user)
    ∷ []

module _ {S : Type 0} ⦃bus : Bus S⦄ (soc : Soc) where
  -- On every device, an index from 5 to 9 of `set_cptra_wdt_cfg`, which has no check of its index,
  -- stores what `set_cptra_mbox_valid_axi_user` stores for the mailbox users 0 to 4.
  set_cptra_wdt_cfg-overlaps :
      (i value : ℕ) (s : S)
      → i < 5
      → set_cptra_mbox_valid_axi_user soc i value s
        ≡ (returned tt, (set_cptra_wdt_cfg soc (i + 5) value s).1)
  unfolding set_cptra_mbox_valid_axi_user set_cptra_wdt_cfg write_reg
  set_cptra_wdt_cfg-overlaps i value s h =
      rw in_range (ap (λ (a : ℕ). (returned tt, bus.store a (u32 value) s)) (omega arith))
    where
      in_range : leb 5 i ≡ false
      in_range = ground arith
