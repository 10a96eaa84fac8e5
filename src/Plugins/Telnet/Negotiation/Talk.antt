-- ===== src/Plugins/Telnet/Negotiation/Talk.antt =====
-- Two ends that run hub4com/plugins/telnet/telnet.cpp and talk about one option: the talk ends, and
-- the ends agree.
use com0com.Base.{
  ℕ, zero, suc, List, [], ◌≡◌, refl, sym, ap, ap₂, subst, ◌∙◌, arith, inl, inr, Option, none, some,
  get_elem?, set, get_elem?-set_self, length-get_elem?,
}
use com0com.Plugins.Telnet.{Protocol, os_no, os_yes, TelnetOption}
use com0com.Plugins.Telnet.Negotiation.{
  cmd_will, cmd_do, command, local_of, remote_of, is_yes, hears, Idle, hears-nothing,
  OptionState-cases, will-cant, will-no, will-yes, wont-off, wont-yes, do-cant, do-no, do-yes,
  dont-off, dont-yes,
}

-- `q` reads a message and `p` the answer to it, `n` times.
unfoldable pub talk : ℕ → List ℕ → Protocol → Protocol → Option (List ℕ × Protocol × Protocol)
talk zero m p q = some (m, p, q)
talk (suc n) m p q = elim (hears m q) [
  | none ↦ none
  | some (a, q1) ↦ elim (hears a p) [ none ↦ none | some (b, p1) ↦ talk n b p1 q1 ]
]

-- A round in which both sides hear something, or nothing.
talk-suc :
    (n : ℕ) (m a b : List ℕ) (p q p1 q1 : Protocol)
    → hears m q ≡ some (a, q1)
    → hears a p ≡ some (b, p1)
    → talk (suc n) m p q ≡ talk n b p1 q1
unfolding talk
talk-suc n m a b p q p1 q1 e f = rw (e, f, talk) refl

abbrev pub entry : ℕ → Protocol → Option TelnetOption
entry i p = elim (get_elem? p.options i) [ none ↦ none | some e ↦ e ]

-- The talk is over, nothing was read behind the options, and `R` holds of the two ends.
abbrev pub Settled : (Protocol → Protocol → Type 0) → Option (List ℕ × Protocol × Protocol) → Type 0
Settled R none = ⊥
Settled R (some (m, p, q)) = (m ≡ []) × R p q

-- The one end has the option on for its own side exactly if the other has it on for the far side.
abbrev pub Agree : ℕ → Protocol → Protocol → Type 0
Agree i p q = is_yes (local_of (entry i p)) ≡ is_yes (remote_of (entry i q))

entry-set :
    (i : ℕ) (e : Option TelnetOption) (o : TelnetOption) (p : Protocol)
    → get_elem? p.options i ≡ some e
    → get_elem? (set p.options i (some o)) i ≡ some (some o)
entry-set i e o p g = get_elem?-set_self p.options i (some o) (length-get_elem? p.options i e g)

quiet : (p : Protocol) → p.stream_encoded ≡ [] → hears [] p ≡ some ([], p)
quiet p z = hears-nothing p ∙ ap₂ (λ l k. some (l, record p { stream_encoded = k })) z (sym z)

talk-Settled :
    (R : Protocol → Protocol → Type 0) (m a b : List ℕ) (p q p1 q1 q2 : Protocol)
    → hears m q ≡ some (a, q1)
    → hears a p ≡ some (b, p1)
    → hears b q1 ≡ some ([], q2)
    → hears [] p1 ≡ some ([], p1)
    → R p1 q2
    → Settled R (talk 2 m p q)
talk-Settled R m a b p q p1 q1 q2 e f g h k =
    let z : talk 0 [] p1 q2 ≡ some ([], p1, q2) = unfold talk in refl in
    subst (Settled R)
      (sym (talk-suc 1 m a b p q p1 q1 e f ∙ talk-suc 0 b [] [] p1 q1 p1 q2 g h ∙ z)) (refl, k)

-- An end whose own side of an option is on sends IAC WILL, as `Start` does; the other end is in any
-- state of the option. After at most two messages each way nothing more is sent, no index is out of
-- range, and the two ends agree whether the option is on. Both ends are between data.
pub talk_will :
    (i : ℕ) (o : TelnetOption) (e : Option TelnetOption) (p q : Protocol)
    → Idle i (some o) p
    → o.state_local ≡ os_yes
    → Idle i e q
    → Settled (Agree i) (talk 2 (command cmd_will i) p q)
talk_will i o none p q (s, z, g) y (s2, z2, g2) =
    talk-Settled (Agree i) _ _ _ p q _ _ _ (will-cant i none q (s2, z2, g2) refl)
      (dont-yes i o p (s, z, g) y) (wont-off i none _ (refl, refl, g2) refl) (quiet _ refl)
      (ground (arith, entry-set i (some o) (record o { state_local = os_no }) p g))
talk_will i o (some e) p q (s, z, g) y (s2, z2, g2) = elim (OptionState-cases e.state_remote) [
  | inl c ↦
      talk-Settled (Agree i) _ _ _ p q _ _ _ (will-cant i (some e) q (s2, z2, g2) c)
        (dont-yes i o p (s, z, g) y) (wont-off i (some e) _ (refl, refl, g2) (ap is_yes c))
        (quiet _ refl) (ground (arith, entry-set i (some o) (record o { state_local = os_no }) p g))
  | inr (inl n) ↦
      talk-Settled (Agree i) _ _ _ p q _ _ _ (will-no i e q (s2, z2, g2) n)
        (do-yes i o p (s, z, g) y) (quiet _ refl) (quiet _ refl)
        (ground (arith, entry-set i (some e) (record e { state_remote = os_yes }) q g2))
  | inr (inr n) ↦
      talk-Settled (Agree i) _ _ _ p q _ _ _ (will-yes i e q (s2, z2, g2) n) (quiet p z)
        (quiet _ refl) (quiet p z) (ground arith)
]

-- An end that has the far side of an option on sends IAC DO, as `Start` does; the other end is in
-- any state of the option. After at most two messages each way nothing more is sent, no index is
-- out of range, and the two ends agree whether the option is on. Both ends are between data.
pub talk_do :
    (i : ℕ) (o : TelnetOption) (e : Option TelnetOption) (p q : Protocol)
    → Idle i (some o) p
    → o.state_remote ≡ os_yes
    → Idle i e q
    → Settled (λ x y. Agree i y x) (talk 2 (command cmd_do i) p q)
talk_do i o none p q (s, z, g) y (s2, z2, g2) =
    talk-Settled (λ x y. Agree i y x) _ _ _ p q _ _ _ (do-cant i none q (s2, z2, g2) refl)
      (wont-yes i o p (s, z, g) y) (dont-off i none _ (refl, refl, g2) refl) (quiet _ refl)
      (ground (arith, entry-set i (some o) (record o { state_remote = os_no }) p g))
talk_do i o (some e) p q (s, z, g) y (s2, z2, g2) = elim (OptionState-cases e.state_local) [
  | inl c ↦
      talk-Settled (λ x y. Agree i y x) _ _ _ p q _ _ _ (do-cant i (some e) q (s2, z2, g2) c)
        (wont-yes i o p (s, z, g) y) (dont-off i (some e) _ (refl, refl, g2) (ap is_yes c))
        (quiet _ refl)
        (ground (arith, entry-set i (some o) (record o { state_remote = os_no }) p g))
  | inr (inl n) ↦
      talk-Settled (λ x y. Agree i y x) _ _ _ p q _ _ _ (do-no i e q (s2, z2, g2) n)
        (will-yes i o p (s, z, g) y) (quiet _ refl) (quiet _ refl)
        (ground (arith, entry-set i (some e) (record e { state_local = os_yes }) q g2))
  | inr (inr n) ↦
      talk-Settled (λ x y. Agree i y x) _ _ _ p q _ _ _ (do-yes i e q (s2, z2, g2) n) (quiet p z)
        (quiet _ refl) (quiet p z) (ground arith)
]
