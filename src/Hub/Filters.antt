-- ===== src/Hub/Filters.antt =====
-- Class Filters of hub4com/filters.cpp: the messages of a port go through the `InMethod`s of its
-- filter instances, what they echo and what is sent to the port through their `OutMethod`s.
-- `W` is the state that the filters keep. A method is called on one message of a chain and leaves
-- that message, perhaps changed, with what it inserted behind it; the loops have read `Next()` before.
-- The instances of a port are a list, empty where `portFilters` has none.
pub mod Order
use com0com.Base.{
  ℕ, Bool, true, false, List, [], ◌∷◌, ◌++◌, ◌==◌, ◌||◌, if◌then◌else◌, Option, none, some, reverse,
}
use com0com.Hub.Msg.{Msg}

-- What a call, or a loop over a chain, comes to: the BOOL, the state, the chain, and the echo.
pub record Result (W : Type 0) : Type 0 where
  pub ok : Bool
  pub world : W
  pub msgs : List Msg
  pub echo : List Msg

abbrev pub InMethod : Type 0 → Type 0
InMethod W = Msg → W → Result W

-- The first argument is the port that the message comes from. There is no echo.
abbrev pub OutMethod : Type 0 → Type 0
OutMethod W = ℕ → Msg → W → Result W

-- FilterInstance of hub4com/filters.h.
pub record Instance (W : Type 0) : Type 0 where
  pub in_method : Option (InMethod W)
  pub out_method : Option (OutMethod W)
  pub src_ports : Option (List ℕ)

abbrev pub member : ℕ → List ℕ → Bool
member p [] = false
member p (q ∷ qs) = p == q || member p qs

module _ {W : Type 0} where
  abbrev pub succeed : List Msg → W → Result W
  succeed ms w = record { ok = true; world = w; msgs = ms; echo = [] }

  -- The loop over the chain: it stops at the first FALSE, and then the echo is deleted.
  unfoldable pub in_all : InMethod W → List Msg → W → Result W
  in_all f [] w = succeed [] w
  in_all f (m ∷ ms) w =
      let r : Result W = f m w in
      let rest : Result W = in_all f ms r.world in
      if r.ok
      then record {
        ok = rest.ok;
        world = rest.world;
        msgs = r.msgs ++ rest.msgs;
        echo = if rest.ok then r.echo ++ rest.echo else [];
      }
      else record { ok = false; world = r.world; msgs = r.msgs ++ ms; echo = [] }

  unfoldable pub out_all : OutMethod W → ℕ → List Msg → W → Result W
  out_all f from [] w = succeed [] w
  out_all f from (m ∷ ms) w =
      let r : Result W = f from m w in
      let rest : Result W = out_all f from ms r.world in
      if r.ok
      then record { ok = rest.ok; world = rest.world; msgs = r.msgs ++ rest.msgs; echo = [] }
      else record { ok = false; world = r.world; msgs = r.msgs ++ ms; echo = [] }

  unfoldable pub in_if : Option (InMethod W) → List Msg → W → Result W
  unfolding in_all
  in_if none ms w = succeed ms w
  in_if (some f) ms w = in_all f ms w

  unfoldable pub out_if : Option (OutMethod W) → ℕ → List Msg → W → Result W
  unfolding out_all
  out_if none from ms w = succeed ms w
  out_if (some f) from ms w = out_all f from ms w

  -- The echo of the instances behind one passes its `OutMethod`, and goes behind its own echo.
  abbrev pub echoed : Instance W → ℕ → List Msg → Result W → Result W
  echoed i from own behind =
      let out : Result W = out_if i.out_method from behind.echo behind.world in
      if behind.ok
      then record {
        ok = out.ok;
        world = out.world;
        msgs = behind.msgs;
        echo = if out.ok then own ++ out.msgs else out.msgs;
      }
      else behind

  -- `InMethod` from one instance on.
  unfoldable pub in_filters : ℕ → List (Instance W) → List Msg → W → Result W
  unfolding in_if out_if
  in_filters from [] ms w = succeed ms w
  in_filters from (i ∷ is) ms w =
      let r : Result W = in_if i.in_method ms w in
      let behind : Result W = in_filters from is r.msgs r.world in
      if r.ok then echoed i from r.echo behind else r

  -- Whether the `OutMethod` of an instance sees the messages of a port.
  abbrev pub applies : Instance W → ℕ → Bool
  applies i from = elim i.src_ports [ none ↦ true | some ports ↦ member from ports ]

  -- The loop of `OutMethod`, over the instances from the last to the first.
  unfoldable pub out_loop : ℕ → List (Instance W) → List Msg → W → Result W
  unfolding out_if
  out_loop from [] ms w = succeed ms w
  out_loop from (i ∷ is) ms w =
      let r : Result W = if applies i from then out_if i.out_method from ms w else succeed ms w in
      let rest : Result W = out_loop from is r.msgs r.world in if r.ok then rest else r

  unfoldable pub out_filters : ℕ → List (Instance W) → List Msg → W → Result W
  unfolding out_loop
  out_filters from is ms w = out_loop from (reverse is) ms w
