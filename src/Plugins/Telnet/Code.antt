-- ===== src/Plugins/Telnet/Code.antt =====
-- The TELNET codes of hub4com/plugins/telnet/telnet.h and com2tcp/telnet.cpp.
use com0com.Base.{ℕ}

abbrev pub cd_se : ℕ
cd_se = 240

abbrev pub cd_nop : ℕ
cd_nop = 241

abbrev pub cd_sb : ℕ
cd_sb = 250

abbrev pub cd_will : ℕ
cd_will = 251

abbrev pub cd_wont : ℕ
cd_wont = 252

abbrev pub cd_do : ℕ
cd_do = 253

abbrev pub cd_dont : ℕ
cd_dont = 254

abbrev pub cd_iac : ℕ
cd_iac = 255
