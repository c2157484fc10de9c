-- ===== src/Rom/Soc/Programmed.antt =====
-- What `Soc::populate_fuses` programs, over the fuse controller that it reads from.
use mcu_fw_cpp.Prelude.{ℕ, ◌≤◌, ◌<◌, ◌≡◌, ◌≢◌, refl, ap, sym, ◌∙◌, u32, arith, List, [], ◌∷◌}
use mcu_fw_cpp.Bus.{Bus, reg, stores, write_reg}
use mcu_fw_cpp.Bus.Storage.{IsStorage, Apart, Distinct, Holds, stores-keeps, stores-Holds}
use mcu_fw_cpp.Error.{McuResult, ok, err}
use mcu_fw_cpp.Otp.{
  Otp, reg_direct_access_addr, reg_direct_access_cmd, default_timeout_cycles, read_word,
}
use mcu_fw_cpp.Otp.Fuses.{View, IsController}
use mcu_fw_cpp.Otp.Steps.{read_word-Step}
use mcu_fw_cpp.Otp.Keeps.{read_word-keeps}
use mcu_fw_cpp.Rom.Soc.{Soc, store_svn, populate_fuses}

-- The block of the fuse registers and straps of the SoC interface.
abbrev pub FuseReg : Soc → ℕ → Type 0
FuseReg soc a = (offset : ℕ) × (0x100 ≤ offset) × (offset < 0x210) × (a ≡ reg soc.base_addr offset)

-- The constants that `populate_fuses` stores: the seed's address, the number of the idle bit in the
-- upper half of its strap, the offset of the command register, and the kind of the key.
abbrev pub constants : Soc → List (ℕ × ℕ)
constants soc =
    (reg soc.base_addr 0x200, 0)
    ∷ (reg soc.base_addr 0x204, 0)
    ∷ (reg soc.base_addr 0x208, 0x160000)
    ∷ (reg soc.base_addr 0x20c, 0x60)
    ∷ (reg soc.base_addr 0x140, 1)
    ∷ []

-- The manifest's security version register after an answer of the fuse controller.
abbrev pub svn_after : McuResult ℕ → ℕ → ℕ
svn_after (ok svn) before = u32 svn
svn_after (err e) before = before

module _ {S : Type 0} ⦃bus : Bus S⦄ (soc : Soc) (o : Otp) {cell : ℕ → S → ℕ}
    (d : IsStorage bus (FuseReg soc) cell)
    (apart : (a : ℕ)
      → FuseReg soc a
      → (reg o.base_addr reg_direct_access_addr ≢ a)
        × (reg o.base_addr reg_direct_access_cmd ≢ a)) where
  fuse_reg : (offset : ℕ) → 0x100 ≤ offset → offset < 0x210 → FuseReg soc (reg soc.base_addr offset)
  fuse_reg offset low high = (offset, low, high, refl)

  constants-Distinct : Distinct d (constants soc)
  constants-Distinct = (
    fuse_reg 0x200 (omega arith) (omega arith),
    (omega arith, (omega arith, (omega arith, (omega arith, tt)))),
    (
      fuse_reg 0x204 (omega arith) (omega arith),
      (omega arith, (omega arith, (omega arith, tt))),
      (
        fuse_reg 0x208 (omega arith) (omega arith),
        (omega arith, (omega arith, tt)),
        (
          fuse_reg 0x20c (omega arith) (omega arith),
          (omega arith, tt),
          (fuse_reg 0x140 (omega arith) (omega arith), tt, tt),
        ),
      ),
    ),
  )

  abbrev svn_reg : ℕ
  svn_reg = reg soc.base_addr 0x144

  svn_reg-FuseReg : FuseReg soc svn_reg
  svn_reg-FuseReg = fuse_reg 0x144 (omega arith) (omega arith)

  svn_reg-Apart : Apart d svn_reg (constants soc)
  svn_reg-Apart = (omega arith, (omega arith, (omega arith, (omega arith, (omega arith, tt)))))

  -- The device after the constants.
  abbrev programmed : S → S
  programmed s = stores (constants soc) s

  populate_fuses-steps :
      (s : S)
      → (populate_fuses soc o s).1
        ≡ (store_svn soc (read_word o 0 (programmed s)).0 (read_word o 0 (programmed s)).1).1
  unfolding populate_fuses write_reg
  populate_fuses-steps s = refl

  -- The registers but that of the version.
  store_svn-keeps :
      (answer : McuResult ℕ) (s : S) (b : ℕ)
      → FuseReg soc b
      → svn_reg ≢ b
      → cell b (store_svn soc answer s).1 ≡ cell b s
  unfolding store_svn write_reg
  store_svn-keeps (ok svn) s b r ne = d.store_keeps svn_reg b (u32 svn) s r ne
  store_svn-keeps (err e) s b r ne = refl

  store_svn-svn :
      (answer : McuResult ℕ) (s : S)
      → cell svn_reg (store_svn soc answer s).1 ≡ svn_after answer (cell svn_reg s)
  unfolding store_svn write_reg
  store_svn-svn (ok svn) s = d.store_cell svn_reg (u32 svn) s svn_reg-FuseReg
  store_svn-svn (err e) s = refl

  read-keeps : (b : ℕ) (s : S) → FuseReg soc b → cell b (read_word o 0 s).1 ≡ cell b s
  read-keeps b s r = read_word-keeps d o b (cell b s) r 0 s (apart b r).0 (apart b r).1 refl

  Holds-populate :
      (l : List (ℕ × ℕ)) (s : S)
      → Distinct d l
      → Apart d svn_reg l
      → Holds d l (programmed s)
      → Holds d l (populate_fuses soc o s).1
  Holds-populate [] s distinct other h = tt
  Holds-populate ((b, v) ∷ rest) s (r, _, distinct) (ne, other) (h, hs) = (
    ap (cell b) (populate_fuses-steps s)
        ∙ store_svn-keeps (read_word o 0 (programmed s)).0 _ b r (λ e. ne (sym e))
        ∙ read-keeps b (programmed s) r
        ∙ h,
    Holds-populate rest s distinct other hs,
  )

  -- Where the block of fuse registers of the SoC interface is plain storage, apart from the fuse
  -- controller's registers, and whatever the controller answers: `populate_fuses` leaves the five
  -- constants in their registers, and the version register holds the word that was read, or, if the
  -- read failed, what it held before.
  pub populate_fuses-programmed :
      (s : S)
      → Holds d (constants soc) (populate_fuses soc o s).1
        × (cell (reg soc.base_addr 0x144) (populate_fuses soc o s).1
            ≡ svn_after
                (read_word o 0 (stores (constants soc) s)).0
                (cell (reg soc.base_addr 0x144) s))
  populate_fuses-programmed s = (
    Holds-populate (constants soc) s constants-Distinct svn_reg-Apart
        (stores-Holds d (constants soc) s constants-Distinct),
    ap (cell svn_reg) (populate_fuses-steps s)
        ∙ store_svn-svn (read_word o 0 (programmed s)).0 _
        ∙ ap (svn_after (read_word o 0 (programmed s)).0) (
            read-keeps svn_reg (programmed s) svn_reg-FuseReg
            ∙ stores-keeps d svn_reg (constants soc) s svn_reg-FuseReg svn_reg-Apart),
  )

  module _ {view : S → View} {latency : ℕ} (k : IsController bus o view latency)
      (short : latency < default_timeout_cycles)
      (hidden : (a v : ℕ) (s : S) → FuseReg soc a → view (bus.store a v s) ≡ view s) where
    stores-view : (l : List (ℕ × ℕ)) (s : S) → Distinct d l → view (stores l s) ≡ view s
    stores-view [] s distinct = refl
    stores-view ((a, v) ∷ rest) s (r, _, distinct) =
        stores-view rest (bus.store a v s) distinct ∙ hidden a v s r

    store_svn-view : (answer : McuResult ℕ) (s : S) → view (store_svn soc answer s).1 ≡ view s
    unfolding store_svn write_reg
    store_svn-view (ok svn) s = hidden svn_reg (u32 svn) s svn_reg-FuseReg
    store_svn-view (err e) s = refl

    -- Over a fuse controller without faults that is idle again in time, and that does not see the
    -- stores to the fuse registers of the SoC interface, which are plain storage: `populate_fuses`
    -- leaves the five constants in their registers and the first word of the fuse array in the
    -- version register, and the fuses as they were.
    pub populate_fuses-refines :
        (s : S)
        → (view s).wait < default_timeout_cycles
        → Holds d
            ((reg soc.base_addr 0x144, u32 ((view s).fuses 0)) ∷ constants soc)
            (populate_fuses soc o s).1
          × ((view (populate_fuses soc o s).1).fuses ≡ (view s).fuses)
    populate_fuses-refines s h =
        let (five, svn) = populate_fuses-programmed s in
        let v = stores-view (constants soc) s constants-Distinct in
        let (s', e, after) = read_word-Step o k short 0 (view s) h (programmed s) v in
        (
          (
            svn ∙ ap (λ (out : McuResult ℕ × S). svn_after out.0 (cell svn_reg s)) e ∙ omega arith,
            five,
          ),
          ap (λ (t : S). (view t).fuses) (populate_fuses-steps s)
              ∙ ap (λ (w : View). w.fuses) (store_svn-view (read_word o 0 (programmed s)).0 _)
              ∙ ap (λ (out : McuResult ℕ × S). (view out.1).fuses) e
              ∙ ap (λ (w : View). w.fuses) after,
        )
