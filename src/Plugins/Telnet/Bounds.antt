-- ===== src/Plugins/Telnet/Bounds.antt =====
-- Where TelnetProtocol::Decode (hub4com/plugins/telnet/telnet.cpp) reads `options[]`: the array has
-- BYTE(-1) entries, one less than a byte has values.
use com0com.Base.{
  ℕ, Bool, true, false, List, [], ◌∷◌, leb, ◌==◌, ◌≡◌, refl, ◌∙◌, arith, inl, inr, Option, none,
  some, get_elem?, length, length-set, get_elem?_of_lt, Bool-cases, ◌&&◌, ◌||◌, get_elem?_of_ge,
}
use com0com.Plugins.Telnet.Code.{cd_iac, cd_se, cd_will, cd_wont, cd_do, cd_dont}
use com0com.Plugins.Telnet.{
  Protocol, Kind, plain, terminal_type, os_no, os_yes, TelnetOption, Phase, st_data, st_code,
  st_option, st_sub_params, st_sub_code, decode_in, decode_bytes, in_data, in_code, in_sub_params,
  in_sub_code, in_option, on_will, on_wont, on_do, on_dont, on_sub_negotiation, with_option,
  sub_end, send_option, send_sub_negotiation,
}

abbrev pub negotiates : ℕ → Bool
negotiates c = c == cd_will || c == cd_wont || c == cd_do || c == cd_dont

-- The bytes that make `Decode` read behind the array: the option 255 of a negotiation, and the SE
-- of a sub-negotiation about it.
unfoldable pub past : Phase → ℕ → Protocol → Bool
past st_option ch p = negotiates p.code && leb 255 ch
past st_sub_code ch p = ch == cd_se && leb 255 p.option
past _ ch p = false

-- What every call keeps: the array has its 255 entries.
abbrev pub Sized : Protocol → Type 0
Sized p = length p.options ≡ 255

abbrev Kept : Protocol → Protocol → Type 0
Kept p q = length q.options ≡ length p.options

on_will-Kept : (ch : ℕ) (e : Option TelnetOption) (p : Protocol) → Kept p (on_will ch e p)
unfolding on_will send_option
on_will-Kept ch none p = refl
on_will-Kept ch (some o) p =
    ground (arith, length-set p.options ch (some (record o { state_remote = os_yes })))

on_wont-Kept : (ch : ℕ) (e : Option TelnetOption) (p : Protocol) → Kept p (on_wont ch e p)
unfolding on_wont send_option
on_wont-Kept ch none p = refl
on_wont-Kept ch (some o) p =
    ground (arith, length-set p.options ch (some (record o { state_remote = os_no })))

on_do-Kept : (ch : ℕ) (e : Option TelnetOption) (p : Protocol) → Kept p (on_do ch e p)
unfolding on_do send_option
on_do-Kept ch none p = refl
on_do-Kept ch (some o) p =
    ground (arith, length-set p.options ch (some (record o { state_local = os_yes })))

on_dont-Kept : (ch : ℕ) (e : Option TelnetOption) (p : Protocol) → Kept p (on_dont ch e p)
unfolding on_dont send_option
on_dont-Kept ch none p = refl
on_dont-Kept ch (some o) p =
    ground (arith, length-set p.options ch (some (record o { state_local = os_no })))

on_sub_negotiation-Kept :
    (k : Kind) (o : ℕ) (ps : List ℕ) (p : Protocol) → Kept p (on_sub_negotiation k o ps p)
unfolding on_sub_negotiation send_sub_negotiation send_option
on_sub_negotiation-Kept plain o ps p = refl
on_sub_negotiation-Kept (terminal_type n) o [] p = refl
on_sub_negotiation-Kept (terminal_type n) o (b ∷ bs) p = ground arith

-- A byte is refused when the flag is on, and otherwise leaves a protocol with the whole array.
abbrev pub Outcome : Bool → Option Protocol → Type 0
Outcome true none = Unit {0}
Outcome true (some q) = ⊥
Outcome false none = ⊥
Outcome false (some q) = Sized q

with_option-Outcome :
    (i : ℕ) (f : Option TelnetOption → Protocol → Protocol) (p : Protocol)
    → Sized p
    → ((e : Option TelnetOption) → Kept p (f e p))
    → Outcome (leb 255 i) (with_option i f p)
with_option-Outcome i f p l k = elim (Bool-cases (leb 255 i)) [
  | inl b ↦
      let g : get_elem? p.options i ≡ none = get_elem?_of_ge p.options i (ground arith) in
      rw (b, g, with_option) tt
  | inr b ↦
      let (e, g) = get_elem?_of_lt p.options i (ground arith) in rw (b, g, with_option) (k e ∙ l)
]

in_option-Outcome :
    (ch : ℕ) (p : Protocol) → Sized p → Outcome (past st_option ch p) (in_option ch p)
unfolding in_option past
in_option-Outcome ch p l = elim (Bool-cases (p.code == 250)) [
  | inl a ↦ let n : negotiates p.code ≡ false = ground arith in rw (a, n) l
  | inr a ↦ elim (Bool-cases (p.code == 251)) [
    | inl b ↦ rw (a, b) (with_option-Outcome ch (on_will ch) p l (λ e. on_will-Kept ch e p))
    | inr b ↦ elim (Bool-cases (p.code == 252)) [
      | inl c ↦ rw (a, b, c) (with_option-Outcome ch (on_wont ch) p l (λ e. on_wont-Kept ch e p))
      | inr c ↦ elim (Bool-cases (p.code == 253)) [
        | inl d ↦ rw (a, b, c, d) (with_option-Outcome ch (on_do ch) p l (λ e. on_do-Kept ch e p))
        | inr d ↦ elim (Bool-cases (p.code == 254)) [
          | inl f ↦
              rw (a, b, c, d, f)
                (with_option-Outcome ch (on_dont ch) p l (λ e. on_dont-Kept ch e p))
          | inr f ↦ rw (a, b, c, d, f) l
        ]
      ]
    ]
  ]
]

sub_end-Kept : (e : Option TelnetOption) (p : Protocol) → Kept p (sub_end e p)
sub_end-Kept none p = refl
sub_end-Kept (some o) p = on_sub_negotiation-Kept o.kind p.option p.params p

in_sub_code-Outcome :
    (ch : ℕ) (p : Protocol) → Sized p → Outcome (past st_sub_code ch p) (in_sub_code ch p)
unfolding in_sub_code past
in_sub_code-Outcome ch p l = elim (Bool-cases (ch == cd_se)) [
  | inl a ↦
      let n : (ch == cd_iac) ≡ false = ground arith in
      rw (a, n) (with_option-Outcome p.option sub_end p l (λ e. sub_end-Kept e p))
  | inr a ↦ elim (Bool-cases (ch == cd_iac)) [ inl b ↦ rw (a, b) l | inr b ↦ rw (a, b) l ]
]

in_data-Kept : (ch : ℕ) (p : Protocol) → Kept p (in_data ch p)
unfolding in_data
in_data-Kept ch p = ground arith

in_code-Kept : (ch : ℕ) (p : Protocol) → Kept p (in_code ch p)
unfolding in_code
in_code-Kept ch p = ground arith

in_sub_params-Kept : (ch : ℕ) (p : Protocol) → Kept p (in_sub_params ch p)
unfolding in_sub_params
in_sub_params-Kept ch p = ground arith

-- `decode_in` reads behind `options[]` exactly at the bytes that `past` describes, and any other
-- byte, in any state, leaves the array with its 255 entries.
pub decode_in-Outcome :
    (s : Phase) (ch : ℕ) (p : Protocol) → Sized p → Outcome (past s ch p) (decode_in s ch p)
unfolding decode_in past
decode_in-Outcome st_data ch p l = in_data-Kept ch p ∙ l
decode_in-Outcome st_code ch p l = in_code-Kept ch p ∙ l
decode_in-Outcome st_option ch p l = in_option-Outcome ch p l
decode_in-Outcome st_sub_params ch p l = in_sub_params-Kept ch p ∙ l
decode_in-Outcome st_sub_code ch p l = in_sub_code-Outcome ch p l

-- Whatever the array holds, the three bytes IAC, a command WILL, WONT, DO or DONT, and 255 make
-- `Decode` read behind its end.
decode_bytes-past :
    (cmd : ℕ) (p : Protocol)
    → negotiates cmd ≡ true
    → p.state ≡ st_data
    → Sized p
    → decode_bytes p (cd_iac ∷ cmd ∷ 255 ∷ []) ≡ none
unfolding decode_bytes decode_in in_data in_code in_option
decode_bytes-past cmd p n e l =
    let g : get_elem? p.options 255 ≡ none = get_elem?_of_ge p.options 255 (ground arith) in
    ground arith
