-- ===== src/Plugins/Echo/Stream.antt =====
-- The echo filter (hub4com/plugins/echo/filter.cpp) on a whole chain.
use com0com.Base.{
  true, List, [], ◌∷◌, ◌++◌, ◌==◌, ◌≡◌, refl, ap, ap₂, ◌∙◌, arith, if◌then◌else◌, append-nil,
}
use com0com.Hub.Word.{t2n}
use com0com.Hub.Msg.{Msg}
use com0com.Hub.Chain.{new_buf}
use com0com.Hub.Chain.Content.{Event, bytes, content, content-append, says}
use com0com.Hub.Filters.{in_all}
use com0com.Plugins.Echo.{echo_of, in_method}

-- The data of a chain.
abbrev pub data_of : List Msg → List Event
data_of [] = []
data_of (m ∷ ms) = (if t2n m.type == 1 then bytes m.buf else []) ++ data_of ms

content-echo_of : (m : Msg) → content (echo_of m) ≡ (if t2n m.type == 1 then bytes m.buf else [])
unfolding echo_of new_buf says
content-echo_of m = ground (arith, append-nil (bytes m.buf))

module _ {W : Type 0} where
  -- Every chain passes as it is, and what comes back to the port is its data, all of it and in order.
  pub in_all-in_method :
      (ms : List Msg) (w : W)
      → ((in_all in_method ms w).ok ≡ true)
        × ((in_all in_method ms w).world ≡ w)
        × ((in_all in_method ms w).msgs ≡ ms)
        × (content (in_all in_method ms w).echo ≡ data_of ms)
  unfolding in_all in_method
  in_all-in_method [] w = (refl, refl, refl, refl)
  in_all-in_method (m ∷ ms) w =
      let (o, v, l, e) = in_all-in_method ms w in
      let c : (if (in_all in_method ms w).ok then echo_of m ++ (in_all in_method ms w).echo else [])
          ≡ echo_of m ++ (in_all in_method ms w).echo =
        ap (λ b. if b then echo_of m ++ (in_all in_method ms w).echo else []) o in
      (
        o,
        v,
        ap (◌∷◌ m) l,
        ap content c
            ∙ content-append (echo_of m) (in_all in_method ms w).echo
            ∙ ap₂ ◌++◌ (content-echo_of m) e,
      )
