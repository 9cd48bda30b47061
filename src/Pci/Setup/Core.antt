-- ===== src/Pci/Setup/Core.antt =====
-- How kernel/pci/pci.c finds the PCI core of the board.
use native.Mathlib.Decide.{ℕ_discrete}
use ninjastorms.Prelude.{
  ℕ, zero, suc, ◌+◌, ◌-◌, ◌*◌, ◌%◌, ◌^◌, ◌<◌, ◌≤◌, ◌≡◌, refl, ap, sym, ◌∙◌, subst, Bool, true,
  false, List, ◌∷◌, if◌then◌else◌, ◌==◌, ◌&&◌, bit_or, arith, Bool-cases, ◌⊎◌, inl, inr,
}
use ninjastorms.Device.{got, put, History, Hardware, last_put, pure, ◌>>◌}
use ninjastorms.Logger.{log}
use ninjastorms.Pci.{pci_vendor_id, device_addr}
use ninjastorms.Pci.Setup.{
  pci_self_config, self_addr, pci_command, pci_class_revision, core_command, pci_imap0, pci_imap1,
  pci_imap2, pci_selfid, vp_pci_dev_id, vp_pci_class_id, is_core, find_core, configure_board,
  enable_core, no_core,
}

-- What the registers of the slots say at the addresses from `pci_self_config` on does not change.
abbrev pub Fixed : Hardware → (ℕ → ℕ) → Type 0
Fixed hw config = (h : History) (a : ℕ) → a < 2 ^ 16 → hw h 4 (pci_self_config + a) ≡ config a

-- Whether the core stands in a slot.
abbrev pub core_in : (ℕ → ℕ) → ℕ → Bool
core_in config i =
    (config (i * 2 ^ 11) % 2 ^ 32 == vp_pci_dev_id)
    && (config (i * 2 ^ 11 + pci_class_revision) % 2 ^ 32 == vp_pci_class_id)

-- The first slot with the core from `i` on below `end`; 0 says that there is none.
abbrev pub FirstCore : (ℕ → ℕ) → ℕ → ℕ → ℕ → Type 0
FirstCore config i end slot =
    (((j : ℕ) → i ≤ j → j < end → core_in config j ≡ false) × (slot ≡ 0))
    ⊎ ((i ≤ slot)
        × (slot < end)
        × (core_in config slot ≡ true)
        × ((j : ℕ) → i ≤ j → j < slot → core_in config j ≡ false))

-- Reads change no register.
abbrev Quiet : History → History → Type 0
Quiet h h' = (a : ℕ) → last_put a h' ≡ last_put a h

before :
    (config : ℕ → ℕ) (i end : ℕ)
    → core_in config i ≡ false
    → ((j : ℕ) → i + 1 ≤ j → j < end → core_in config j ≡ false)
    → (j : ℕ) → i ≤ j
    → j < end
    → core_in config j ≡ false
before config i end f all j a b = elim (ℕ_discrete i j) [
  | yes p ↦ subst (λ k. core_in config k ≡ false) p f
  | no n ↦ all j (omega arith) b
]

FirstCore-before :
    (config : ℕ → ℕ) (i n slot : ℕ)
    → core_in config i ≡ false
    → FirstCore config (i + 1) (i + 1 + n) slot
    → FirstCore config i (i + suc n) slot
FirstCore-before config i n slot f (inl (all, e)) =
    inl ((λ j a b. before config i (i + 1 + n) f all j a (omega arith)), e)
FirstCore-before config i n slot f (inr (a, b, t, all)) =
    inr (omega arith, omega arith, t, before config i slot f all)

-- What `configure_board` makes of the slots.
abbrev pub Configured : (ℕ → ℕ) → ℕ → History → History → Type 0
Configured config r h h' =
    ((slot : ℕ) × FirstCore config 11 32 slot
      × (0 < slot)
      × (r ≡ 0)
      × (last_put pci_selfid h' ≡ slot)
      × ((value : ℕ) × (last_put (device_addr slot + pci_command) h' ≡ bit_or value core_command)))
    ⊎ (FirstCore config 11 32 0
        × (r ≡ 2 ^ 32 - 1)
        × (last_put pci_selfid h' ≡ last_put pci_selfid h))

-- Behind the writes of the three windows.
abbrev windows : History → History
windows h = put 4 pci_imap2 6 ∷ put 4 pci_imap1 5 ∷ put 4 pci_imap0 4 ∷ h

module _ (hw : Hardware) (config : ℕ → ℕ) (fixed : Fixed hw config) where
  is_core_lem :
      (i : ℕ) (h : History)
      → i < 32
      → ((is_core i hw h).0 ≡ core_in config i) × Quiet h (is_core i hw h).1
  is_core_lem i h l =
      let id = hw h 4 (self_addr i + pci_vendor_id) % 2 ^ 32 in
      let h' = got 4 (self_addr i + pci_vendor_id) id ∷ h in
      let e : id ≡ config (i * 2 ^ 11) % 2 ^ 32 =
        ap (λ a. hw h 4 a % 2 ^ 32) {x = self_addr i + pci_vendor_id}
          {y = pci_self_config + i * 2 ^ 11} (omega arith)
        ∙ ap (λ x. x % 2 ^ 32) (fixed h (i * 2 ^ 11) (omega arith)) in
      let e' : hw h' 4 (self_addr i + pci_class_revision) % 2 ^ 32
          ≡ config (i * 2 ^ 11 + pci_class_revision) % 2 ^ 32 =
        ap (λ a. hw h' 4 a % 2 ^ 32) {x = self_addr i + pci_class_revision}
          {y = pci_self_config + (i * 2 ^ 11 + pci_class_revision)} (omega arith)
        ∙ ap (λ x. x % 2 ^ 32) (fixed h' (i * 2 ^ 11 + pci_class_revision) (omega arith)) in
      elim (Bool-cases (id == vp_pci_dev_id)) [
        | inl t ↦
            let t' : (config (i * 2 ^ 11) % 2 ^ 32 == vp_pci_dev_id) ≡ true =
              ap (λ x. x == vp_pci_dev_id) (sym e) ∙ t in
            rw (t, t') (ap (λ x. x == vp_pci_class_id) e', λ a. refl)
        | inr f ↦
            let f' : (config (i * 2 ^ 11) % 2 ^ 32 == vp_pci_dev_id) ≡ false =
              ap (λ x. x == vp_pci_dev_id) (sym e) ∙ f in
            rw (f, f') (refl, λ a. refl)
      ]

  find_core_lem :
      (n i : ℕ) (h : History)
      → 0 < i
      → i + n ≤ 32
      → FirstCore config i (i + n) (find_core n i hw h).0 × Quiet h (find_core n i hw h).1
  unfolding find_core
  find_core_lem zero i h pos l = (inl ((λ j a b. absurd (omega arith)), refl), λ a. refl)
  find_core_lem (suc n) i h pos l =
      let (e, quiet) = is_core_lem i h (omega arith) in
      let (found, quiet') =
        find_core_lem n (i + 1) (is_core i hw h).1 (omega arith) (omega arith) in
      elim (Bool-cases (is_core i hw h).0) [
        | inl t ↦
            rw t (inr (omega arith, omega arith, sym e ∙ t, λ j a b. absurd (omega arith)), quiet)
        | inr f ↦ rw f (FirstCore-before config i n _ (sym e ∙ f) found, λ a. quiet' a ∙ quiet a)
      ]

  -- Behind the loop.
  found_lem :
      (clock : ℕ) (file : List ℕ) (h : History) (slot : ℕ) (h₂ : History)
      → FirstCore config 11 32 slot
      → Quiet (windows h) h₂
      → let (r, h') =
          (if slot == 0 then log clock 3 file no_core >> pure (2 ^ 32 - 1) else enable_core slot) hw
            h₂ in
        (last_put pci_imap0 h' ≡ 4)
        × (last_put pci_imap1 h' ≡ 5)
        × (last_put pci_imap2 h' ≡ 6)
        × Configured config r h h'
  found_lem clock file h slot h₂ (inl (all, e)) quiet =
      let t : (slot == 0) ≡ true = ground arith in
      rw t (
        quiet pci_imap0,
        quiet pci_imap1,
        quiet pci_imap2,
        inr (inl (all, refl), refl, quiet pci_selfid),
      )
  found_lem clock file h slot h₂ (inr (a, b, core, all)) quiet =
      let t : (slot == 0) ≡ false = ground arith in
      let command = device_addr slot + pci_command in
      let d₀ : (command == pci_imap0) ≡ false = ground arith in
      let d₁ : (command == pci_imap1) ≡ false = ground arith in
      let d₂ : (command == pci_imap2) ≡ false = ground arith in
      let d₃ : (command == pci_selfid) ≡ false = ground arith in
      let same : (command == command) ≡ true = ground arith in
      rw t (
        rw d₀ (quiet pci_imap0),
        rw d₁ (quiet pci_imap1),
        rw d₂ (quiet pci_imap2),
        inl (
          slot,
          inr (a, b, core, all),
          omega arith,
          refl,
          rw d₃ refl,
          (hw (put 4 pci_selfid slot ∷ h₂) 4 command % 2 ^ 32, rw same refl),
        ),
      )

-- Behind `configure_board`, on a board whose slots answer always the same: either the core stands in a first slot from
-- 11 to 31, the result is 0, the register of the own slot holds that slot, and in the command register of the slot the
-- three bits of `core_command` were set; or it stands in none, the result is -1 and the register of the own slot is
-- as it was. The three windows of the memory are set in both cases.
pub configure_board_lem :
    (hw : Hardware) (config : ℕ → ℕ) (clock : ℕ) (file : List ℕ) (h : History)
    → Fixed hw config
    → let (r, h') = configure_board clock file hw h in
      (last_put pci_imap0 h' ≡ 4)
      × (last_put pci_imap1 h' ≡ 5)
      × (last_put pci_imap2 h' ≡ 6)
      × Configured config r h h'
unfolding configure_board
configure_board_lem hw config clock file h fixed =
    let h₁ = windows h in
    let (found, quiet) = find_core_lem hw config fixed 21 11 h₁ (omega arith) (omega arith) in
    found_lem hw config fixed clock file h (find_core 21 11 hw h₁).0 (find_core 21 11 hw h₁).1 found
      quiet
