-- ===== src/Plugins/ComPort/Suspension.antt =====
-- FLOWCONTROL-SUSPEND and FLOWCONTROL-RESUME between two COM-PORT options of
-- hub4com/plugins/telnet/opt_comport.cpp: `AddXoffXon` of one and `OnSuspendResume` of the other.
use com0com.Base.{
  ℕ, zero, suc, ◌+◌, ◌-◌, ◌%◌, ◌^◌, ◌<◌, Bool, true, false, List, [], ◌∷◌, ◌++◌, ◌==◌, nonzero,
  if◌then◌else◌, Option, some, none, ◌≡◌, refl, ap₂, ◌∙◌, length, subst, arith,
}
use com0com.Hub.Msg.{Msg}
use com0com.Plugins.ComPort.{
  Winbase, Masks, ComPort, add_xoff_xon, on_suspend_resume, val_msg, add_xoff_xon_type,
}
use com0com.Plugins.ComPort.Server
use com0com.Plugins.ComPort.Server.{Server, new_server}

-- The server takes each sub-negotiation in its turn; what it puts into the stream, in order.
abbrev messages : Option Msg → List Msg
messages none = []
messages (some m) = m ∷ []

unfoldable pub serve : Winbase → Masks → List (List ℕ) → Server → Server × List Msg
serve w m [] s = (s, [])
serve w m (ps ∷ pss) s =
    let a = Server.on_sub_negotiation w m ps s in
    let rest = serve w m pss a.state in (rest.0, messages a.inserted ++ rest.1)

-- A call of AddXoffXon at the client, and the server behind it.
unfoldable pub turn : Winbase → Masks → Bool → ComPort × Server → (ComPort × Server) × List Msg
unfolding serve
turn w m xoff r =
    let sent = add_xoff_xon xoff r.0 in
    let done = serve w m sent.1 r.1 in ((sent.0, done.0), done.1)

unfoldable pub turns :
    Winbase → Masks → List Bool → ComPort × Server → (ComPort × Server) × List Msg
unfolding turn
turns w m [] r = (r, [])
turns w m (x ∷ xs) r =
    let now = turn w m x r in let rest = turns w m xs now.0 in (rest.0, now.1 ++ rest.1)

-- How many calls want the stream stopped: as many XOFF as XON behind them are missing. No XON comes
-- without an XOFF before it.
unfoldable pub wanted : ℕ → List Bool → Option ℕ
wanted n [] = some n
wanted n (true ∷ xs) = wanted (suc n) xs
wanted zero (false ∷ xs) = none
wanted (suc n) (false ∷ xs) = wanted n xs

-- The client counts `n`, and the server is suspended just when there are any.
abbrev pub InStep : ℕ → ComPort × Server → Type 0
InStep n r = (r.0.is_client ≡ true) × (r.0.count_xoff ≡ n) × (r.1.port.suspended ≡ nonzero n)

-- The messages at the changes: ADD_XOFF_XON with 1 when the first XOFF comes, with 0 when the last
-- is taken back.
unfoldable pub changes : ℕ → List Bool → List Msg
changes n [] = []
changes n (true ∷ xs) =
    let rest = changes (suc n) xs in if n == 0 then val_msg add_xoff_xon_type 1 ∷ rest else rest
changes n (false ∷ xs) =
    let rest = changes (n - 1) xs in if n == 1 then val_msg add_xoff_xon_type 0 ∷ rest else rest

abbrev pub Turned : ℕ → List Msg → (ComPort × Server) × List Msg → Type 0
Turned n ms t = InStep n t.0 × (t.1 ≡ ms)

module _ (w : Winbase) (m : Masks) where
  turn-first :
      (r : ComPort × Server)
      → InStep 0 r
      → Turned 1 (val_msg add_xoff_xon_type 1 ∷ []) (turn w m true r)
  unfolding turn serve add_xoff_xon on_suspend_resume Server.on_sub_negotiation Server.on_none
  turn-first r h = rw (h.0, h.1, h.2) ((refl, refl, refl), refl)

  turn-more :
      (n : ℕ) (r : ComPort × Server)
      → suc n < 2 ^ 32 - 1
      → InStep (suc n) r
      → Turned (suc (suc n)) [] (turn w m true r)
  unfolding turn serve add_xoff_xon
  turn-more n r b h =
      let t : (suc n == 0) ≡ false = ground arith in
      let e : (suc n + 1) % 2 ^ 32 ≡ suc (suc n) = omega arith in
      let u : nonzero (suc n) ≡ nonzero (suc (suc n)) = ground arith in
      rw (h.0, h.1, t, e) ((refl, refl, h.2 ∙ u), refl)

  turn-last :
      (r : ComPort × Server)
      → InStep 1 r
      → Turned 0 (val_msg add_xoff_xon_type 0 ∷ []) (turn w m false r)
  unfolding turn serve add_xoff_xon on_suspend_resume Server.on_sub_negotiation Server.on_none
  turn-last r h = rw (h.0, h.1, h.2) ((refl, refl, refl), refl)

  turn-less :
      (n : ℕ) (r : ComPort × Server)
      → suc (suc n) < 2 ^ 32
      → InStep (suc (suc n)) r
      → Turned (suc n) [] (turn w m false r)
  unfolding turn serve add_xoff_xon
  turn-less n r b h =
      let e : (suc (suc n) + (2 ^ 32 - 1)) % 2 ^ 32 ≡ suc n = omega arith in
      let t : (suc n == 0) ≡ false = ground arith in
      let u : nonzero (suc (suc n)) ≡ true = ground arith in
      rw (h.0, h.1, e, t) ((refl, refl, h.2 ∙ u), refl)

  abbrev Ends : Option ℕ → List Msg → (ComPort × Server) × List Msg → Type 0
  Ends none ms t = Unit
  Ends (some n) ms t = Turned n ms t

  Ends-append :
      (o : Option ℕ) (ms ns : List Msg) (said : List Msg) (r : (ComPort × Server) × List Msg)
      → said ≡ ms
      → Ends o ns r
      → Ends o (ms ++ ns) (r.0, said ++ r.1)
  Ends-append none ms ns said r e h = tt
  Ends-append (some n) ms ns said r e h = (h.0, ap₂ (λ a b. a ++ b) e h.1)

  turns-Ends :
      (xs : List Bool) (n : ℕ) (r : ComPort × Server)
      → n + length xs < 2 ^ 32 - 1
      → InStep n r
      → Ends (wanted n xs) (changes n xs) (turns w m xs r)
  unfolding turns wanted changes
  turns-Ends [] n r b h = (h, refl)
  turns-Ends (true ∷ xs) zero r b h =
      let t = turn-first r h in
      Ends-append (wanted 1 xs) (val_msg add_xoff_xon_type 1 ∷ []) (changes 1 xs) _ _ t.1
        (turns-Ends xs 1 (turn w m true r).0 (omega arith) t.0)
  turns-Ends (true ∷ xs) (suc n) r b h =
      let t = turn-more n r (omega arith) h in
      let e : (suc n == 0) ≡ false = ground arith in
      rw e (
        Ends-append (wanted (suc (suc n)) xs) [] (changes (suc (suc n)) xs) _ _ t.1
          (turns-Ends xs (suc (suc n)) (turn w m true r).0 (omega arith) t.0))
  turns-Ends (false ∷ xs) zero r b h = tt
  turns-Ends (false ∷ xs) (suc zero) r b h =
      let t = turn-last r h in
      Ends-append (wanted 0 xs) (val_msg add_xoff_xon_type 0 ∷ []) (changes 0 xs) _ _ t.1
        (turns-Ends xs 0 (turn w m false r).0 (omega arith) t.0)
  turns-Ends (false ∷ xs) (suc (suc n)) r b h =
      let t = turn-less n r (omega arith) h in
      let e : (suc (suc n) == 1) ≡ false = ground arith in
      let d : suc (suc n) - 1 ≡ suc n = omega arith in
      rw (e, d)
        (Ends-append (wanted (suc n) xs) [] (changes (suc n) xs) _ _ t.1
          (turns-Ends xs (suc n) (turn w m false r).0 (omega arith) t.0))

  -- Calls of AddXoffXon at the client, where no XON comes without an XOFF before it, leave the server
  -- suspended just when an XOFF is not taken back yet, and the server puts ADD_XOFF_XON into the
  -- stream just at the first XOFF and at the last XON. This starts from any two states in step, with
  -- fewer than 2 ^ 32 - 1 calls and XOFFs together.
  pub turns-InStep :
      (xs : List Bool) (n k : ℕ) (r : ComPort × Server)
      → n + length xs < 2 ^ 32 - 1
      → InStep n r
      → wanted n xs ≡ some k
      → Turned k (changes n xs) (turns w m xs r)
  turns-InStep xs n k r b h e =
      subst (λ o. Ends o (changes n xs) (turns w m xs r)) e (turns-Ends xs n r b h)
