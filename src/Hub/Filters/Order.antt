-- ===== src/Hub/Filters/Order.antt =====
-- The order in which hub4com/filters.cpp applies the filters of a port.
use mathlib.Core.List.{reverse-append}
use com0com.Base.{
  ℕ, Bool, true, false, List, [], ◌∷◌, ◌++◌, if◌then◌else◌, none, reverse, ◌≡◌, refl, sym, ap, ◌∙◌,
  inl, inr, Bool-cases,
}
use com0com.Hub.Msg.{Msg}
use com0com.Hub.Filters.{
  Result, Instance, succeed, in_if, out_if, echoed, in_filters, applies, out_loop, out_filters,
}

if_same : (c : Bool) (l : List Msg) → (if c then l else l) ≡ l
if_same true l = refl
if_same false l = refl

module _ {W : Type 0} where
  -- A message that has gone through some instances goes on to the next ones.
  abbrev pub go_on : ℕ → List (Instance W) → Result W → Result W
  go_on from is r = let rest = out_loop from is r.msgs r.world in if r.ok then rest else r

  abbrev one : ℕ → Instance W → List Msg → W → Result W
  one from i ms w = if applies i from then out_if i.out_method from ms w else succeed ms w

  go_on-true :
      (from : ℕ) (is : List (Instance W)) (r : Result W)
      → r.ok ≡ true
      → go_on from is r ≡ out_loop from is r.msgs r.world
  go_on-true from is r e = ap (λ (b : Bool). if b then out_loop from is r.msgs r.world else r) e

  go_on-false :
      (from : ℕ) (is : List (Instance W)) (r : Result W) → r.ok ≡ false → go_on from is r ≡ r
  go_on-false from is r e = ap (λ (b : Bool). if b then out_loop from is r.msgs r.world else r) e

  out_loop-append :
      (from : ℕ) (is js : List (Instance W)) (ms : List Msg) (w : W)
      → out_loop from (is ++ js) ms w ≡ go_on from js (out_loop from is ms w)
  unfolding out_loop
  out_loop-append from [] js ms w = refl
  out_loop-append from (i ∷ is) js ms w =
      let r = one from i ms w in
      elim (Bool-cases r.ok) [
        | inl e ↦
            go_on-true from (is ++ js) r e
            ∙ out_loop-append from is js r.msgs r.world
            ∙ ap (go_on from js) (sym (go_on-true from is r e))
        | inr e ↦
            go_on-false from (is ++ js) r e
            ∙ sym (go_on-false from js r e)
            ∙ ap (go_on from js) (sym (go_on-false from is r e))
      ]

  -- What is sent to a port goes through its instances from the last to the first: of two groups, the
  -- one that stands behind comes first, and the other only sees what that lets through.
  pub out_filters-append :
      (from : ℕ) (is js : List (Instance W)) (ms : List Msg) (w : W)
      → out_filters from (is ++ js) ms w ≡ go_on from (reverse is) (out_filters from js ms w)
  unfolding out_filters
  out_filters-append from is js ms w =
      ap (λ l. out_loop from l ms w) (reverse-append is js)
      ∙ out_loop-append from (reverse js) (reverse is) ms w

  -- Instances that have no `InMethod` and take part whatever the source port is.
  abbrev pub OutOnly : List (Instance W) → Type 0
  OutOnly [] = Unit {0}
  OutOnly (i ∷ is) = (i.in_method ≡ none) × (i.src_ports ≡ none) × OutOnly is

  -- The echo of a result, sent to the port through some instances.
  abbrev pub echo_through : ℕ → List (Instance W) → Result W → Result W
  echo_through from is b =
      let o : Result W = out_filters from is b.echo b.world in
      if b.ok then record { ok = o.ok; world = o.world; msgs = b.msgs; echo = o.msgs } else b

  -- A result whose echo is replaced by what a loop leaves of it.
  abbrev with_echo : Result W → Result W → Result W
  with_echo b o = record { ok = o.ok; world = o.world; msgs = b.msgs; echo = o.msgs }

  echo_through-true :
      (from : ℕ) (is : List (Instance W)) (b : Result W)
      → b.ok ≡ true
      → echo_through from is b ≡ with_echo b (out_filters from is b.echo b.world)
  echo_through-true from is b e =
      ap (λ (c : Bool). if c then with_echo b (out_filters from is b.echo b.world) else b) e

  echo_through-false :
      (from : ℕ) (is : List (Instance W)) (b : Result W) → b.ok ≡ false → echo_through from is b ≡ b
  echo_through-false from is b e =
      ap (λ (c : Bool). if c then with_echo b (out_filters from is b.echo b.world) else b) e

  echo_through-nil : (from : ℕ) (b : Result W) → echo_through from [] b ≡ b
  unfolding out_filters out_loop
  echo_through-nil from b = elim (Bool-cases b.ok) [
    | inl e ↦ echo_through-true from [] b e ∙ ap (λ (c : Bool). record b { ok = c }) (sym e)
    | inr e ↦ echo_through-false from [] b e
  ]

  with_echo-same :
      (b r : Result W) → with_echo b (if r.ok then succeed r.msgs r.world else r) ≡ with_echo b r
  with_echo-same b r = elim (Bool-cases r.ok) [
    | inl e ↦
        ap (λ (c : Bool). with_echo b (if c then succeed r.msgs r.world else r)) e
        ∙ ap (λ (c : Bool). record (with_echo b r) { ok = c }) (sym e)
    | inr e ↦ ap (λ (c : Bool). with_echo b (if c then succeed r.msgs r.world else r)) e
  ]

  -- One more instance behind a loop, as far as the echo shows it.
  with_echo-one :
      (from : ℕ) (i : Instance W) (b o : Result W)
      → i.src_ports ≡ none
      → with_echo b (out_loop from (i ∷ []) o.msgs o.world)
        ≡ with_echo b (out_if i.out_method from o.msgs o.world)
  unfolding out_loop
  with_echo-one from i b o n =
      let r = out_if i.out_method from o.msgs o.world in
      let e : applies i from ≡ true = rw n refl in
      let f : out_loop from (i ∷ []) o.msgs o.world ≡ (if r.ok then succeed r.msgs r.world else r) =
        rw e refl in
      ap (with_echo b) f ∙ with_echo-same b r

  abbrev echoed_ok : ℕ → Instance W → Result W → Result W
  echoed_ok from i x =
      let out : Result W = out_if i.out_method from x.echo x.world in
      record {
        ok = out.ok;
        world = out.world;
        msgs = x.msgs;
        echo = if out.ok then out.msgs else out.msgs;
      }

  echoed-true :
      (from : ℕ) (i : Instance W) (x : Result W)
      → x.ok ≡ true
      → echoed i from [] x ≡ with_echo x (out_if i.out_method from x.echo x.world)
  echoed-true from i x e =
      let out = out_if i.out_method from x.echo x.world in
      ap (λ (c : Bool). if c then echoed_ok from i x else x) e
      ∙ ap (λ l. record (with_echo x out) { echo = l }) (if_same out.ok out.msgs)

  echoed-false : (from : ℕ) (i : Instance W) (x : Result W) → x.ok ≡ false → echoed i from [] x ≡ x
  echoed-false from i x e = ap (λ (c : Bool). if c then echoed_ok from i x else x) e

  echoed-with_echo :
      (from : ℕ) (i : Instance W) (b o : Result W)
      → i.src_ports ≡ none
      → echoed i from [] (with_echo b o) ≡ with_echo b (go_on from (i ∷ []) o)
  echoed-with_echo from i b o n = elim (Bool-cases o.ok) [
    | inl e ↦
        echoed-true from i (with_echo b o) e
        ∙ sym (with_echo-one from i b o n)
        ∙ ap (with_echo b) (sym (go_on-true from (i ∷ []) o e))
    | inr e ↦
        echoed-false from i (with_echo b o) e
        ∙ ap (with_echo b) (sym (go_on-false from (i ∷ []) o e))
  ]

  echoed-echo_through :
      (from : ℕ) (i : Instance W) (is : List (Instance W)) (b : Result W)
      → i.src_ports ≡ none
      → echoed i from [] (echo_through from is b) ≡ echo_through from (i ∷ is) b
  echoed-echo_through from i is b n = elim (Bool-cases b.ok) [
    | inl e ↦
        ap (echoed i from []) (echo_through-true from is b e)
        ∙ echoed-with_echo from i b (out_filters from is b.echo b.world) n
        ∙ ap (with_echo b) (sym (out_filters-append from (i ∷ []) is b.echo b.world))
        ∙ sym (echo_through-true from (i ∷ is) b e)
    | inr e ↦
        ap (echoed i from []) (echo_through-false from is b e)
        ∙ echoed-false from i b e
        ∙ sym (echo_through-false from (i ∷ is) b e)
  ]

  in_filters-cons :
      (from : ℕ) (i : Instance W) (is : List (Instance W)) (ms : List Msg) (w : W)
      → i.in_method ≡ none
      → in_filters from (i ∷ is) ms w ≡ echoed i from [] (in_filters from is ms w)
  unfolding in_filters in_if
  in_filters-cons from i is ms w e = rw e refl

  -- What instances echo that stand behind others goes through those as what is sent to the port does:
  -- through their `OutMethod`s from the last to the first, and the incoming chain is as it was left.
  -- This is where those in front have no `InMethod` and take part whatever the source port is; the
  -- way of the echo does not look at the source ports, and that of what is sent to the port does.
  pub in_filters-append :
      (from : ℕ) (is js : List (Instance W)) (ms : List Msg) (w : W)
      → OutOnly is
      → in_filters from (is ++ js) ms w ≡ echo_through from is (in_filters from js ms w)
  in_filters-append from [] js ms w o = sym (echo_through-nil from (in_filters from js ms w))
  in_filters-append from (i ∷ is) js ms w o =
      in_filters-cons from i (is ++ js) ms w o.0
      ∙ ap (echoed i from []) (in_filters-append from is js ms w o.2)
      ∙ echoed-echo_through from i is (in_filters from js ms w) o.1
