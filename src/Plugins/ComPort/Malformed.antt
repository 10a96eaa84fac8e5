-- ===== src/Plugins/ComPort/Malformed.antt =====
-- Sub-negotiations that neither side of hub4com/plugins/telnet/opt_comport.cpp can read.
use com0com.Base.{ℕ, Bool, false, ◌&&◌, ◌||◌, List, [], ◌∷◌, length, leb, ◌==◌, ◌≡◌, refl, arith}
use com0com.Plugins.ComPort.{Winbase, Masks}
use com0com.Plugins.ComPort.Server
use com0com.Plugins.ComPort.Server.{Server}

-- The requests of RFC 2217 that the server knows, with the number of parameter bytes.
abbrev pub well_sized : ℕ → ℕ → Bool
well_sized code n =
    (code == 1 && n == 4)
    || ((leb 2 code && leb code 5) && n == 1)
    || ((leb 8 code && leb code 9) && n == 0)
    || ((leb 10 code && leb code 12) && n == 1)

abbrev pub known : List ℕ → Bool
known [] = false
known (code ∷ ps) = well_sized code (length ps)

server_par-refuses :
    (w : Winbase) (m : Masks) (code par : ℕ) (s : Server)
    → well_sized code 1 ≡ false
    → Server.on_par w m code par s ≡ Server.refuses s
unfolding Server.on_par
server_par-refuses w m code par s h =
    let t2 : (code == 2) ≡ false = ground arith in
    let t3 : (code == 3) ≡ false = ground arith in
    let t4 : (code == 4) ≡ false = ground arith in
    let t5 : (code == 5) ≡ false = ground arith in
    let t10 : (code == 10) ≡ false = ground arith in
    let t11 : (code == 11) ≡ false = ground arith in
    let t12 : (code == 12) ≡ false = ground arith in rw (t2, t3, t4, t5, t10, t11, t12) refl

server_none-refuses :
    (code : ℕ) (s : Server) → well_sized code 0 ≡ false → Server.on_none code s ≡ Server.refuses s
unfolding Server.on_none
server_none-refuses code s h =
    let t8 : (code == 8) ≡ false = ground arith in
    let t9 : (code == 9) ≡ false = ground arith in rw (t8, t9) refl

-- A sub-negotiation with a code that the server does not know, or with a number of parameter bytes
-- that its code does not have, and an empty one too, is refused: it changes nothing in the server,
-- is not answered and puts nothing into the stream.
pub server-refuses :
    (w : Winbase) (m : Masks) (ps : List ℕ) (s : Server)
    → known ps ≡ false
    → Server.on_sub_negotiation w m ps s ≡ Server.refuses s
unfolding Server.on_sub_negotiation
server-refuses w m [] s h = refl
server-refuses w m (code ∷ []) s h = server_none-refuses code s h
server-refuses w m (code ∷ a ∷ []) s h = server_par-refuses w m code a s h
server-refuses w m (code ∷ a ∷ b ∷ []) s h = refl
server-refuses w m (code ∷ a ∷ b ∷ c ∷ []) s h = refl
server-refuses w m (code ∷ a ∷ b ∷ c ∷ d ∷ []) s h =
    let t : (code == 1) ≡ false = ground arith in rw t refl
server-refuses w m (code ∷ a ∷ b ∷ c ∷ d ∷ e ∷ es) s h = refl
