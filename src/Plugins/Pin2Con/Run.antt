-- ===== src/Plugins/Pin2Con/Run.antt =====
-- Runs of hub4com/plugins/pin2con/filter.cpp over messages.
use com0com.Base.{
  if_either, ℕ, Bool, true, not, ◌&&◌, List, [], ◌∷◌, ◌++◌, ◌==◌, nonzero, some, ◌≡◌, refl, ap, ◌∙◌,
  Bool-cases, inl, inr, arith,
}
use com0com.Hub.Word.{t2n}
use com0com.Hub.Memory.{Memory}
use com0com.Hub.Msg.{Msg}
use com0com.Hub.Chain.{Chain}
use com0com.Plugins.Pin2Con.{Filter, State, same, insert_last, is_timer, on_tick, in_method}
use com0com.Plugins.Pin2Con.Connection.{reports, alternate, up_to_date, same_refl, in_method-Right}
use com0com.Plugins.Pin2Con.Level.{level, in_method-last_connect}

-- A run over messages, each with its `u.hv2`: the state behind it and all that is passed on.
abbrev pub run : Filter → State → Memory → List (Msg × (ℕ × ℕ)) → State × List Msg
run f s mem [] = (s, [])
run f s mem (x ∷ xs) =
    let r = in_method f s x.0 x.1 mem in let rest = run f r.0.0 r.1 xs in (rest.0, r.0.1 ++ rest.1)

-- The level of the pin behind some messages.
abbrev pub level_after : Filter → Bool → List (Msg × (ℕ × ℕ)) → Bool
level_after f b [] = b
level_after f b (x ∷ xs) = level_after f (level f b x.0) xs

reports-++ : (ms ns : List Msg) → reports (ms ++ ns) ≡ reports ms ++ reports ns
reports-++ [] ns = refl
reports-++ (m ∷ ms) ns = elim (Bool-cases (t2n m.type == 2)) [
  | inl e ↦ rw (e, reports-++ ms ns) refl
  | inr e ↦ rw (e, reports-++ ms ns) refl
]

alternate-++ :
    (b c : Bool) (xs ys : List Bool)
    → alternate b xs ≡ some c
    → alternate b (xs ++ ys) ≡ alternate c ys
alternate-++ b c [] ys e = ap (λ z. alternate z ys) (ground arith)
alternate-++ b c (x ∷ xs) ys e = elim (Bool-cases (same b x)) [
  | inl d ↦ ground arith
  | inr d ↦ rw (d) (alternate-++ x c xs ys (ground arith))
]

-- Whatever messages come, the connections reported are each another than the one before, from the
-- state at first to the state at last; the state at last is the pin's last level, with the sense of
-- the option, or the pin has fallen and the timer for the delay runs.
pub run-Follows :
    (f : Filter) (s : State) (mem : Memory) (xs : List (Msg × (ℕ × ℕ)))
    → up_to_date f s ≡ true
    → (alternate s.connect (reports (run f s mem xs).1) ≡ some (run f s mem xs).0.connect)
      × (up_to_date f (run f s mem xs).0 ≡ true)
      × ((run f s mem xs).0.last_connect ≡ level_after f s.last_connect xs)
run-Follows f s mem [] u = (refl, u, refl)
run-Follows f s mem (x ∷ xs) u =
    let r = in_method f s x.0 x.1 mem in
    let rest = run f r.0.0 r.1 xs in
    let head = in_method-Right f s x.0 x.1 mem u in
    let tail = run-Follows f r.0.0 r.1 xs head.1 in
    (
      ap (alternate s.connect) (reports-++ r.0.1 rest.1)
          ∙ alternate-++ s.connect r.0.0.connect (reports r.0.1) (reports rest.1) head.0
          ∙ tail.0,
      tail.1,
      tail.2 ∙ ap (λ b. level_after f b xs) (in_method-last_connect f s x.0 x.1 mem),
    )

-- The timer that runs ends the delay: the state is the pin's last level then.
on_tick-ends :
    (f : Filter) (s : State) (m : Msg) (hv : ℕ × ℕ) (mem : Memory)
    → (hv.0 == s.id) ≡ true
    → is_timer s.timer hv.1 ≡ true
    → same (on_tick f s m hv mem).0.0.connect s.last_connect ≡ true
unfolding on_tick insert_last
on_tick-ends f s m hv mem e t =
    let P : State × Chain → Type 0 = λ r. same r.0.connect s.last_connect ≡ true in
    rw (e, t)
      (elim (Bool-cases (same s.connect s.last_connect)) [
        | inl d ↦ rw (d) d
        | inr d ↦ rw (d) (
            if_either P (not s.last_connect && nonzero f.delay_disconnect)
              (same_refl s.last_connect) (same_refl s.last_connect))
      ])
