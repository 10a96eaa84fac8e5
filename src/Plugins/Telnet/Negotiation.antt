-- ===== src/Plugins/Telnet/Negotiation.antt =====
-- Option negotiation (hub4com/plugins/telnet/telnet.cpp): between two ends that run this code it
-- ends, and in agreement.
pub mod Talk
use com0com.Base.{
  ℕ, zero, suc, Bool, true, false, List, [], ◌∷◌, ◌++◌, ltb, leb, ◌==◌, ◌<◌, ◌≤◌, ◌≡◌, ◌≢◌, refl,
  sym, ap, ◌∙◌, arith, ◌⊎◌, inl, inr, if◌then◌else◌, Option, none, some, Option-cases, get_elem?,
  set, length, length-set, get_elem?_of_lt, Bool-cases, ◌&&◌, ◌||◌, get_elem?-set_self, subst,
  length-get_elem?, ap₂,
}
use com0com.Plugins.Telnet.Code.{cd_sb, cd_iac, cd_se, cd_will, cd_wont, cd_do, cd_dont}
use com0com.Plugins.Telnet.{
  Protocol, Kind, plain, terminal_type, OptionState, os_cant, os_no, os_yes, TelnetOption, Phase,
  st_data, st_code, st_option, st_sub_params, st_sub_code, decode_in, decode_bytes, in_data,
  in_code, in_sub_params, in_sub_code, in_option, on_will, on_wont, on_do, on_dont, send_option,
  with_option, set_options, encoded, to_phase,
}

-- The four commands, and what `case stOption` calls on one.
pub data Command : Type 0 where
  cmd_will cmd_wont cmd_do cmd_dont : Command

abbrev pub cmd_byte : Command → ℕ
cmd_byte cmd_will = cd_will
cmd_byte cmd_wont = cd_wont
cmd_byte cmd_do = cd_do
cmd_byte cmd_dont = cd_dont

abbrev cmd_handler : Command → ℕ → Option TelnetOption → Protocol → Protocol
cmd_handler cmd_will = on_will
cmd_handler cmd_wont = on_wont
cmd_handler cmd_do = on_do
cmd_handler cmd_dont = on_dont

abbrev pub command : Command → ℕ → List ℕ
command c i = cd_iac ∷ cmd_byte c ∷ i ∷ []

-- The entry's two states; a missing option can do nothing.
abbrev pub local_of : Option TelnetOption → OptionState
local_of none = os_cant
local_of (some o) = o.state_local

abbrev pub remote_of : Option TelnetOption → OptionState
remote_of none = os_cant
remote_of (some o) = o.state_remote

abbrev pub is_yes : OptionState → Bool
is_yes os_yes = true
is_yes _ = false

-- One end reads what the other wrote; its own answer is taken out of its stream.
abbrev pub taken : Protocol → List ℕ × Protocol
taken q = (q.stream_encoded, record q { stream_encoded = [] })

unfoldable pub hears : List ℕ → Protocol → Option (List ℕ × Protocol)
hears m p = elim (decode_bytes p m) [ none ↦ none | some q ↦ some (taken q) ]

-- Ready to talk about option `i`, whose entry is `e`: between data, with nothing left to send.
abbrev pub Idle : ℕ → Option TelnetOption → Protocol → Type 0
Idle i e p = (p.state ≡ st_data) × (p.stream_encoded ≡ []) × (get_elem? p.options i ≡ some e)

abbrev at_option : Command → Protocol → Protocol
at_option c p = record p { state = st_option; code = cmd_byte c }

-- A whole command arrives between data.
hears-command :
    (c : Command) (i : ℕ) (e : Option TelnetOption) (p : Protocol)
    → Idle i e p
    → hears (command c i) p ≡ some (taken (to_phase st_data (cmd_handler c i e (at_option c p))))
unfolding hears decode_bytes decode_in in_data in_code in_option
hears-command cmd_will i e p (s, z, g) = ground arith
hears-command cmd_wont i e p (s, z, g) = ground arith
hears-command cmd_do i e p (s, z, g) = ground arith
hears-command cmd_dont i e p (s, z, g) = ground arith

pub hears-nothing : (p : Protocol) → hears [] p ≡ some (taken p)
unfolding hears decode_bytes
hears-nothing p = refl

pub OptionState-cases : (s : OptionState) → (s ≡ os_cant) ⊎ ((s ≡ os_no) ⊎ (s ≡ os_yes))
OptionState-cases os_cant = inl refl
OptionState-cases os_no = inr (inl refl)
OptionState-cases os_yes = inr (inr refl)

-- Nothing changes but the last command, and the answer is `a`.
abbrev pub Hears : Command → ℕ → List ℕ → Protocol → Type 0
Hears c i a p =
    hears (command c i) p
    ≡ some (a, record p { state = st_data; code = cmd_byte c; stream_encoded = [] })

-- The entry becomes `o`, and the answer is `a`.
abbrev pub HearsSet : Command → ℕ → List ℕ → TelnetOption → Protocol → Type 0
HearsSet c i a o p =
    hears (command c i) p
    ≡ some (
      a,
      record p {
        state = st_data;
        code = cmd_byte c;
        stream_encoded = [];
        options = set p.options i (some o);
      },
    )

pub will-cant :
    (i : ℕ) (e : Option TelnetOption) (p : Protocol)
    → Idle i e p
    → remote_of e ≡ os_cant
    → Hears cmd_will i (command cmd_dont i) p
unfolding on_will send_option
will-cant i none p (s, z, g) h = hears-command cmd_will i none p (s, z, g) ∙ ground arith
will-cant i (some o) p (s, z, g) h = hears-command cmd_will i (some o) p (s, z, g) ∙ ground arith

pub will-no :
    (i : ℕ) (o : TelnetOption) (p : Protocol)
    → Idle i (some o) p
    → o.state_remote ≡ os_no
    → HearsSet cmd_will i (command cmd_do i) (record o { state_remote = os_yes }) p
unfolding on_will send_option
will-no i o p (s, z, g) h = hears-command cmd_will i (some o) p (s, z, g) ∙ ground arith

pub will-yes :
    (i : ℕ) (o : TelnetOption) (p : Protocol)
    → Idle i (some o) p
    → o.state_remote ≡ os_yes
    → Hears cmd_will i [] p
unfolding on_will send_option
will-yes i o p (s, z, g) h = hears-command cmd_will i (some o) p (s, z, g) ∙ ground arith

pub wont-off :
    (i : ℕ) (e : Option TelnetOption) (p : Protocol)
    → Idle i e p
    → is_yes (remote_of e) ≡ false
    → Hears cmd_wont i [] p
unfolding on_wont send_option
wont-off i none p (s, z, g) h = hears-command cmd_wont i none p (s, z, g) ∙ ground arith
wont-off i (some o) p (s, z, g) h = hears-command cmd_wont i (some o) p (s, z, g) ∙ ground arith

pub wont-yes :
    (i : ℕ) (o : TelnetOption) (p : Protocol)
    → Idle i (some o) p
    → o.state_remote ≡ os_yes
    → HearsSet cmd_wont i (command cmd_dont i) (record o { state_remote = os_no }) p
unfolding on_wont send_option
wont-yes i o p (s, z, g) h = hears-command cmd_wont i (some o) p (s, z, g) ∙ ground arith

pub do-cant :
    (i : ℕ) (e : Option TelnetOption) (p : Protocol)
    → Idle i e p
    → local_of e ≡ os_cant
    → Hears cmd_do i (command cmd_wont i) p
unfolding on_do send_option
do-cant i none p (s, z, g) h = hears-command cmd_do i none p (s, z, g) ∙ ground arith
do-cant i (some o) p (s, z, g) h = hears-command cmd_do i (some o) p (s, z, g) ∙ ground arith

pub do-no :
    (i : ℕ) (o : TelnetOption) (p : Protocol)
    → Idle i (some o) p
    → o.state_local ≡ os_no
    → HearsSet cmd_do i (command cmd_will i) (record o { state_local = os_yes }) p
unfolding on_do send_option
do-no i o p (s, z, g) h = hears-command cmd_do i (some o) p (s, z, g) ∙ ground arith

pub do-yes :
    (i : ℕ) (o : TelnetOption) (p : Protocol)
    → Idle i (some o) p
    → o.state_local ≡ os_yes
    → Hears cmd_do i [] p
unfolding on_do send_option
do-yes i o p (s, z, g) h = hears-command cmd_do i (some o) p (s, z, g) ∙ ground arith

pub dont-off :
    (i : ℕ) (e : Option TelnetOption) (p : Protocol)
    → Idle i e p
    → is_yes (local_of e) ≡ false
    → Hears cmd_dont i [] p
unfolding on_dont send_option
dont-off i none p (s, z, g) h = hears-command cmd_dont i none p (s, z, g) ∙ ground arith
dont-off i (some o) p (s, z, g) h = hears-command cmd_dont i (some o) p (s, z, g) ∙ ground arith

pub dont-yes :
    (i : ℕ) (o : TelnetOption) (p : Protocol)
    → Idle i (some o) p
    → o.state_local ≡ os_yes
    → HearsSet cmd_dont i (command cmd_wont i) (record o { state_local = os_no }) p
unfolding on_dont send_option
dont-yes i o p (s, z, g) h = hears-command cmd_dont i (some o) p (s, z, g) ∙ ground arith
