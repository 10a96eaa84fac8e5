-- ===== src/Setup/Params.antt =====
-- `PortParameters` of com0com/setup/params.cpp, as far as it parses values. A string is the list of
-- its characters. `lstrcmpi` of Windows is the parameter `same`.
pub mod Values
pub mod Stores
pub mod RoundTrip
pub mod Sources
use com0com.Base.{
  ℕ, zero, suc, ◌+◌, ◌-◌, ◌*◌, ◌/◌, ◌%◌, ◌^◌, ◌≤◌, Bool, true, false, not, ◌&&◌, ◌||◌, List, [],
  ◌∷◌, ◌++◌, length, ltb, leb, ◌==◌, nonzero, if◌then◌else◌, Option, some, none, bit_and, bit_or,
}

pub data Bit : Type 0 where
  port_name real_port_name emu_br emu_overrun plug_in_mode exclusive_mode hidden_mode
        all_data_bits :
      Bit
  pin_cts pin_dsr pin_dcd pin_ri emu_noise add_rtto add_rito : Bit

pub data Kind : Type 0 where
  other flag pin probability unsigned : Kind

abbrev pub mask : Bit → ℕ
mask port_name = 0x00000001
mask emu_br = 0x00000002
mask emu_overrun = 0x00000004
mask plug_in_mode = 0x00000008
mask exclusive_mode = 0x00000010
mask hidden_mode = 0x00000020
mask all_data_bits = 0x00000040
mask pin_cts = 0x00000100
mask pin_dsr = 0x00000200
mask pin_dcd = 0x00000400
mask pin_ri = 0x00000800
mask emu_noise = 0x00010000
mask add_rtto = 0x00020000
mask add_rito = 0x00040000
mask real_port_name = 0x01000000

abbrev pub kind : Bit → Kind
kind port_name = other
kind real_port_name = other
kind emu_br = flag
kind emu_overrun = flag
kind plug_in_mode = flag
kind exclusive_mode = flag
kind hidden_mode = flag
kind all_data_bits = flag
kind pin_cts = pin
kind pin_dsr = pin
kind pin_dcd = pin
kind pin_ri = pin
kind emu_noise = probability
kind add_rtto = unsigned
kind add_rito = unsigned

pub record PortParameters : Type 0 where
  pub mask_changed : ℕ
  pub mask_explicit : ℕ
  pub name : List ℕ
  pub real_name : List ℕ
  pub emu_br_dw : ℕ
  pub emu_overrun_dw : ℕ
  pub plug_in_mode_dw : ℕ
  pub exclusive_mode_dw : ℕ
  pub hidden_mode_dw : ℕ
  pub all_data_bits_dw : ℕ
  pub pin_cts_dw : ℕ
  pub pin_dsr_dw : ℕ
  pub pin_dcd_dw : ℕ
  pub pin_ri_dw : ℕ
  pub emu_noise_dw : ℕ
  pub add_rtto_dw : ℕ
  pub add_rito_dw : ℕ

unfoldable pub init : PortParameters
init = record {
  mask_changed = 0;
  mask_explicit = 0;
  name = [];
  real_name = [];
  emu_br_dw = 0;
  emu_overrun_dw = 0;
  plug_in_mode_dw = 0;
  exclusive_mode_dw = 0;
  hidden_mode_dw = 0;
  all_data_bits_dw = 0;
  pin_cts_dw = 0;
  pin_dsr_dw = 0;
  pin_dcd_dw = 0;
  pin_ri_dw = 0;
  emu_noise_dw = 0;
  add_rtto_dw = 0;
  add_rito_dw = 0;
}

-- `GetDwPtr`: the DWORD that it points to, and a write through it.
abbrev pub get_dw : Bit → PortParameters → Option ℕ
get_dw emu_br p = some p.emu_br_dw
get_dw emu_overrun p = some p.emu_overrun_dw
get_dw plug_in_mode p = some p.plug_in_mode_dw
get_dw exclusive_mode p = some p.exclusive_mode_dw
get_dw hidden_mode p = some p.hidden_mode_dw
get_dw all_data_bits p = some p.all_data_bits_dw
get_dw pin_cts p = some p.pin_cts_dw
get_dw pin_dsr p = some p.pin_dsr_dw
get_dw pin_dcd p = some p.pin_dcd_dw
get_dw pin_ri p = some p.pin_ri_dw
get_dw emu_noise p = some p.emu_noise_dw
get_dw add_rtto p = some p.add_rtto_dw
get_dw add_rito p = some p.add_rito_dw
get_dw _ p = none

abbrev pub set_dw : Bit → ℕ → PortParameters → PortParameters
set_dw emu_br v p = record p { emu_br_dw = v }
set_dw emu_overrun v p = record p { emu_overrun_dw = v }
set_dw plug_in_mode v p = record p { plug_in_mode_dw = v }
set_dw exclusive_mode v p = record p { exclusive_mode_dw = v }
set_dw hidden_mode v p = record p { hidden_mode_dw = v }
set_dw all_data_bits v p = record p { all_data_bits_dw = v }
set_dw pin_cts v p = record p { pin_cts_dw = v }
set_dw pin_dsr v p = record p { pin_dsr_dw = v }
set_dw pin_dcd v p = record p { pin_dcd_dw = v }
set_dw pin_ri v p = record p { pin_ri_dw = v }
set_dw emu_noise v p = record p { emu_noise_dw = v }
set_dw add_rtto v p = record p { add_rtto_dw = v }
set_dw add_rito v p = record p { add_rito_dw = v }
set_dw _ v p = p

-- The end of each setter: a new value is stored, and the parameter marked as changed.
abbrev pub store : Bit → ℕ → PortParameters → Option PortParameters
store b v p = elim (get_dw b p) [
  | none ↦ none
  | some old ↦ some (
      if old == v
      then p
      else record (set_dw b v p) { mask_changed = bit_or p.mask_changed (mask b) })
]

abbrev pub yes : List ℕ
yes = 121 ∷ 101 ∷ 115 ∷ []

abbrev pub no : List ℕ
no = 110 ∷ 111 ∷ []

abbrev pub star : List ℕ
star = 42 ∷ []

abbrev pub minus : List ℕ
minus = 45 ∷ []

abbrev pub pin_negative : ℕ
pin_negative = 0x80000000

-- The sources of a pin, by name.
abbrev pub pins : List (List ℕ × ℕ)
pins =
    (114 ∷ 114 ∷ 116 ∷ 115 ∷ [], 0x00000001)
    ∷ (114 ∷ 100 ∷ 116 ∷ 114 ∷ [], 0x00000002)
    ∷ (114 ∷ 111 ∷ 117 ∷ 116 ∷ 49 ∷ [], 0x00000004)
    ∷ (114 ∷ 111 ∷ 117 ∷ 116 ∷ 50 ∷ [], 0x00000008)
    ∷ (114 ∷ 111 ∷ 112 ∷ 101 ∷ 110 ∷ [], 0x00000080)
    ∷ (108 ∷ 114 ∷ 116 ∷ 115 ∷ [], 0x00000100)
    ∷ (108 ∷ 100 ∷ 116 ∷ 114 ∷ [], 0x00000200)
    ∷ (108 ∷ 111 ∷ 117 ∷ 116 ∷ 49 ∷ [], 0x00000400)
    ∷ (108 ∷ 111 ∷ 117 ∷ 116 ∷ 50 ∷ [], 0x00000800)
    ∷ (108 ∷ 111 ∷ 112 ∷ 101 ∷ 110 ∷ [], 0x00008000)
    ∷ (111 ∷ 110 ∷ [], 0x10000000)
    ∷ []

-- The first part of `SetUnsigned`: a DWORD wraps.
unfoldable pub unsigned_from : List ℕ → ℕ → Option ℕ
unsigned_from [] v = some v
unsigned_from (c ∷ cs) v =
    let rest = unsigned_from cs ((v * 10 + (c - 48)) % 2 ^ 32) in
    if ltb c 48 || ltb 57 c then none else rest

abbrev zeros : List ℕ → Option ℕ → Option ℕ
zeros [] v = v
zeros (c ∷ cs) v = if c == 48 then zeros cs v else none

-- The loop of `SetProbability`, so many digits.
unfoldable pub digits_from : ℕ → List ℕ → ℕ → Option ℕ
digits_from zero cs v = zeros cs (some v)
digits_from (suc n) [] v = digits_from n [] (v * 10)
digits_from (suc n) (c ∷ cs) v =
    let rest = digits_from n cs (v * 10 + (c - 48)) in if ltb c 48 || ltb 57 c then none else rest

-- C0C_PROBABILITY_ONE is ten to this power.
abbrev probability_digits : ℕ
probability_digits = 8

abbrev after_zero : List ℕ → Option ℕ
after_zero [] = some 0
after_zero (c ∷ cs) = if c == 46 then digits_from probability_digits cs 0 else some 0

unfoldable pub probability_of : List ℕ → Option ℕ
probability_of [] = none
probability_of (c ∷ cs) = if c == 48 then after_zero cs else none

abbrev pub negated : Option ℕ → Option ℕ
negated none = none
negated (some v) = some (bit_or pin_negative v)

abbrev pub stored : Bit → PortParameters → Option ℕ → Option PortParameters
stored b p none = none
stored b p (some v) = store b v p

abbrev and_not : ℕ → ℕ → ℕ
and_not x m = x - bit_and x m

abbrev pub marked : Bit → Option PortParameters → Option PortParameters
marked b none = none
marked b (some p) = some (
    if nonzero (bit_and p.mask_changed (mask b))
    then record p { mask_explicit = bit_or p.mask_explicit (mask b) }
    else p)

module _ (same : List ℕ → List ℕ → Bool) where
  unfoldable pub flag_of : List ℕ → Option ℕ
  flag_of val = if same val yes then some 0xFFFFFFFF else if same val no then some 0 else none

  unfoldable pub find_pin : List (List ℕ × ℕ) → List ℕ → Option ℕ
  find_pin [] val = none
  find_pin (e ∷ es) val = let rest = find_pin es val in if same val e.0 then some e.1 else rest

  unfoldable pub pin_of : List ℕ → Option ℕ
  pin_of [] = find_pin pins []
  pin_of (c ∷ cs) = if c == 33 then negated (find_pin pins cs) else find_pin pins (c ∷ cs)

  -- The value that a string stands for, for a parameter that is a DWORD.
  abbrev pub value_of : Kind → List ℕ → Option ℕ
  value_of flag val = flag_of val
  value_of pin val = pin_of val
  value_of probability val = probability_of val
  value_of unsigned val = unsigned_from val 0
  value_of other val = none

  -- `SetBit` for a DWORD parameter; `none` for FALSE. The texts "*" and "-" come first.
  unfoldable pub set_bit : List ℕ → Bit → PortParameters → Option PortParameters
  set_bit val b p =
      if same val star
      then some p
      else if same minus val
      then some (
          if nonzero (bit_and p.mask_explicit (mask b))
          then record p {
            mask_explicit = and_not p.mask_explicit (mask b);
            mask_changed = bit_or p.mask_changed (mask b);
          }
          else p)
      else marked b (stored b p (value_of (kind b) val))
