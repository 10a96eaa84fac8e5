-- ===== src/Setup/Params/Stores.antt =====
-- `SetBit` of com0com/setup/params.cpp and the DWORD that it writes.
use com0com.Base.{
  ℕ, Bool, true, false, List, ◌==◌, nonzero, if◌then◌else◌, Option, some, none, bit_and, bit_or,
  ◌≡◌, refl, sym, ap, ◌∙◌, subst, ==_iff,
}
use com0com.Setup.Params.{
  Bit, PortParameters, set_bit, get_dw, set_dw, store, kind, mask, marked, port_name,
  real_port_name, emu_br, emu_overrun, plug_in_mode, exclusive_mode, hidden_mode, all_data_bits,
  pin_cts, pin_dsr, pin_dcd, pin_ri, emu_noise, add_rtto, add_rito,
}
use com0com.Setup.Params.Values.{Named, Reads, eq_fold}

-- A call that succeeded, and left a value in the parameter.
abbrev pub Holds : Bit → ℕ → Option PortParameters → Type 0
Holds b v none = ⊥
Holds b v (some q) = get_dw b q ≡ some v

-- A parameter that is a DWORD can be written through its pointer.
get_dw-set_dw :
    (b : Bit) (v m : ℕ) (p : PortParameters)
    → Named (kind b)
    → get_dw b (record (set_dw b v p) { mask_changed = m }) ≡ some v
get_dw-set_dw emu_br v m p n = refl
get_dw-set_dw emu_overrun v m p n = refl
get_dw-set_dw plug_in_mode v m p n = refl
get_dw-set_dw exclusive_mode v m p n = refl
get_dw-set_dw hidden_mode v m p n = refl
get_dw-set_dw all_data_bits v m p n = refl
get_dw-set_dw pin_cts v m p n = refl
get_dw-set_dw pin_dsr v m p n = refl
get_dw-set_dw pin_dcd v m p n = refl
get_dw-set_dw pin_ri v m p n = refl
get_dw-set_dw port_name v m p n = absurd n
get_dw-set_dw real_port_name v m p n = absurd n
get_dw-set_dw emu_noise v m p n = absurd n
get_dw-set_dw add_rtto v m p n = absurd n
get_dw-set_dw add_rito v m p n = absurd n

get_dw-mask_explicit :
    (b : Bit) (e : ℕ) (p : PortParameters) → get_dw b (record p { mask_explicit = e }) ≡ get_dw b p
get_dw-mask_explicit port_name e p = refl
get_dw-mask_explicit real_port_name e p = refl
get_dw-mask_explicit emu_br e p = refl
get_dw-mask_explicit emu_overrun e p = refl
get_dw-mask_explicit plug_in_mode e p = refl
get_dw-mask_explicit exclusive_mode e p = refl
get_dw-mask_explicit hidden_mode e p = refl
get_dw-mask_explicit all_data_bits e p = refl
get_dw-mask_explicit pin_cts e p = refl
get_dw-mask_explicit pin_dsr e p = refl
get_dw-mask_explicit pin_dcd e p = refl
get_dw-mask_explicit pin_ri e p = refl
get_dw-mask_explicit emu_noise e p = refl
get_dw-mask_explicit add_rtto e p = refl
get_dw-mask_explicit add_rito e p = refl

get_dw-Some : (b : Bit) (p : PortParameters) → Named (kind b) → (old : ℕ) × (get_dw b p ≡ some old)
get_dw-Some emu_br p n = (p.emu_br_dw, refl)
get_dw-Some emu_overrun p n = (p.emu_overrun_dw, refl)
get_dw-Some plug_in_mode p n = (p.plug_in_mode_dw, refl)
get_dw-Some exclusive_mode p n = (p.exclusive_mode_dw, refl)
get_dw-Some hidden_mode p n = (p.hidden_mode_dw, refl)
get_dw-Some all_data_bits p n = (p.all_data_bits_dw, refl)
get_dw-Some pin_cts p n = (p.pin_cts_dw, refl)
get_dw-Some pin_dsr p n = (p.pin_dsr_dw, refl)
get_dw-Some pin_dcd p n = (p.pin_dcd_dw, refl)
get_dw-Some pin_ri p n = (p.pin_ri_dw, refl)
get_dw-Some port_name p n = absurd n
get_dw-Some real_port_name p n = absurd n
get_dw-Some emu_noise p n = absurd n
get_dw-Some add_rtto p n = absurd n
get_dw-Some add_rito p n = absurd n

explicit-Holds :
    (b : Bit) (v e : ℕ) (p : PortParameters)
    → get_dw b p ≡ some v
    → (c : Bool) → get_dw b (if c then record p { mask_explicit = e } else p) ≡ some v
explicit-Holds b v e p h true = get_dw-mask_explicit b e p ∙ h
explicit-Holds b v e p h false = h

marked-Holds : (b : Bit) (v : ℕ) (o : Option PortParameters) → Holds b v o → Holds b v (marked b o)
marked-Holds b v none h = h
marked-Holds b v (some p) h =
    explicit-Holds b v (bit_or p.mask_explicit (mask b)) p h
      (nonzero (bit_and p.mask_changed (mask b)))

-- The value is stored, unless it is there already.
changed-Holds :
    (b : Bit) (v old : ℕ) (p : PortParameters)
    → Named (kind b)
    → get_dw b p ≡ some old
    → (c : Bool) → (c ≡ true → old ≡ v)
    → Holds b v (
        some (
          if c then p else record (set_dw b v p) { mask_changed = bit_or p.mask_changed (mask b) }))
changed-Holds b v old p n h true e = h ∙ ap some (e refl)
changed-Holds b v old p n h false e = get_dw-set_dw b v (bit_or p.mask_changed (mask b)) p n

store-Holds : (b : Bit) (v : ℕ) (p : PortParameters) → Named (kind b) → Holds b v (store b v p)
store-Holds b v p n =
    let old = get_dw-Some b p n in
    let e = old.1 in
    subst (Holds b v)
      (sym (
        ap
          (λ o. elim o as (λ x. Option PortParameters) [
            | none ↦ none
            | some w ↦ some (
                if w == v
                then p
                else record (set_dw b v p) { mask_changed = bit_or p.mask_changed (mask b) })
          ])
          e))
      (changed-Holds b v old.0 p n e (old.0 == v) (==_iff old.0 v).0)

-- A call whose value is read as `v` stores it.
pub set_bit-Stores :
    (s : List ℕ) (b : Bit) (v : ℕ) (p : PortParameters)
    → Named (kind b)
    → Reads eq_fold (kind b) v s
    → Holds b v (set_bit eq_fold s b p)
unfolding set_bit
set_bit-Stores s b v p n h =
    let call : set_bit eq_fold s b p ≡ marked b (store b v p) = rw (h.1, h.2, h.0) refl in
    subst (Holds b v) (sym call) (marked-Holds b v (store b v p) (store-Holds b v p n))
