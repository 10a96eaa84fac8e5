-- ===== src/Com2tcp/Telnet/Negotiation.antt =====
-- Option negotiation of com2tcp/telnet.cpp, with fields that the compiler takes as signed or not.
use com0com.Base.{ℕ, true, false, [], ◌∷◌, ◌++◌, ◌≡◌, arith}
use com0com.Plugins.Telnet.{os_no, os_yes, st_data}
use com0com.Plugins.Telnet.Code.{cd_iac, cd_wont, cd_dont}
use com0com.Com2tcp.Telnet.{
  Protocol, set_at, write, write_byte, in_data, in_code, in_option, on_wont, on_dont, send_option,
}

-- Signed fields: WONT and DONT leave everything but the last command as it was, whatever the state of
-- the option, and are not answered.
pub write-wont_signed :
    (ch : ℕ) (p : Protocol)
    → p.state ≡ st_data
    → (write true (cd_iac ∷ cd_wont ∷ ch ∷ []) p ≡ record p { code = cd_wont })
      × (write true (cd_iac ∷ cd_dont ∷ ch ∷ []) p ≡ record p { code = cd_dont })
unfolding write write_byte in_data in_code in_option on_wont on_dont
write-wont_signed ch p e = (ground arith, ground arith)

-- Unsigned fields: for an option that is on at both sides, WONT turns it off for the far side and
-- DONT for this one, and both are answered.
pub write-wont_unsigned :
    (ch : ℕ) (p : Protocol)
    → p.state ≡ st_data
    → p.remote_option_state ch ≡ os_yes
    → p.local_option_state ch ≡ os_yes
    → (write false (cd_iac ∷ cd_wont ∷ ch ∷ []) p ≡ record p {
      code = cd_wont;
      remote_option_state = set_at p.remote_option_state ch os_no;
      stream_send_read = p.stream_send_read ++ cd_iac ∷ cd_dont ∷ ch ∷ [];
    })
      × (write false (cd_iac ∷ cd_dont ∷ ch ∷ []) p ≡ record p {
        code = cd_dont;
        local_option_state = set_at p.local_option_state ch os_no;
        stream_send_read = p.stream_send_read ++ cd_iac ∷ cd_wont ∷ ch ∷ [];
      })
unfolding write write_byte in_data in_code in_option on_wont on_dont send_option
write-wont_unsigned ch p e h l = (ground arith, ground arith)
