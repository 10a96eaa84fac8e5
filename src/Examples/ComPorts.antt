-- ===== src/Examples/ComPorts.antt =====
-- The COM-PORT option: hub4com/plugins/telnet/opt_comport.cpp.
use com0com.Base.{true, false, [], ◌∷◌, map, some, ◌≡◌, refl, arith}
use com0com.Plugins.ComPort.{Winbase, Masks, ComPort, new_com_port}
use com0com.Plugins.ComPort.Client
use com0com.Plugins.ComPort.Server
use com0com.Plugins.ComPort.Server.{Server, new_server}
use com0com.Plugins.ComPort.BaudRate.{Taken, Passes, set_br-Passes}
use com0com.Plugins.ComPort.LineControl.{rlc, set_lc-inserted}
use com0com.Plugins.ComPort.Malformed.{server-refuses}
use com0com.Plugins.ComPort.Suspension.{Turned, turns, turns-InStep, wanted, changes}

-- The constants as winbase.h documents them.
abbrev winbase : Winbase
winbase = record {
  no_parity = 0;
  odd_parity = 1;
  even_parity = 2;
  mark_parity = 3;
  space_parity = 4;
  one_stop_bit = 0;
  one5_stop_bits = 1;
  two_stop_bits = 2;
}

-- Everything is asked for.
abbrev all_masks : Masks
all_masks = record { go0 = 0xffffffff; go1 = 0xffffffff; so = 0xffffffff }

abbrev server : Server
server = new_server all_masks

abbrev client : ComPort
client = new_com_port true

set_br-Passes_example :
    Taken
      (λ ps. Server.on_sub_negotiation winbase all_masks ps server)
      (Passes winbase all_masks 9600 19200 client)
      (Client.set_br 9600)
set_br-Passes_example =
    set_br-Passes winbase all_masks all_masks 9600 19200 server client
      (omega arith, omega arith, λ e. omega (arith, e)) (omega arith, omega arith) refl refl refl

-- Eight bits, even parity and two stop bits, the byte size not to be set.
set_lc-inserted_example :
    map
      (λ ps. (Server.on_sub_negotiation winbase all_masks ps server).inserted)
      (Client.set_lc winbase 0x6020208)
    ≡ rlc 0x2000200 ∷ rlc 0x4020000 ∷ []
set_lc-inserted_example =
    set_lc-inserted winbase all_masks server 0x6020208 refl (refl, refl, refl) (refl, refl, refl)

-- SET-BAUDRATE with three bytes.
server-refuses_example :
    Server.on_sub_negotiation winbase all_masks (1 ∷ 0 ∷ 0 ∷ 37 ∷ []) server ≡ Server.refuses server
server-refuses_example = server-refuses winbase all_masks (1 ∷ 0 ∷ 0 ∷ 37 ∷ []) server refl

two_xoffs : wanted 0 (true ∷ true ∷ false ∷ []) ≡ some 1
unfolding wanted
two_xoffs = refl

turns-InStep_example :
    Turned 1
      (changes 0 (true ∷ true ∷ false ∷ []))
      (turns winbase all_masks (true ∷ true ∷ false ∷ []) (client, server))
turns-InStep_example =
    turns-InStep winbase all_masks (true ∷ true ∷ false ∷ []) 0 1 (client, server) (omega arith)
      (refl, refl, refl) two_xoffs
