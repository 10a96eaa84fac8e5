-- ===== src/Plugins/AwakSeq/Filtering.antt =====
-- The awakening sequence filter on messages (hub4com/plugins/awakseq/filter.cpp).
use com0com.Base.{
  ℕ, true, ◌||◌, List, [], ◌∷◌, ◌++◌, ◌≡◌, ◌⊎◌, refl, sym, ap, subst, ◌∙◌, arith, inl, inr,
  Bool-cases, append-nil,
}
use com0com.Hub.Msg
use com0com.Hub.Msg.{Msg}
use com0com.Hub.Chain.{replace_val, insert_none}
use com0com.Hub.Chain.Content.{Event, bytes, value, content, says}
use com0com.Plugins.AwakSeq.{
  State, scan, after_scan, in_line_data, in_connect, in_method, out_method,
}
use com0com.Plugins.AwakSeq.Scan.{scan-finds}

-- What one message of data comes to.
abbrev pub heard : List ℕ × List ℕ → List Event
heard ([], rest) = value Msg.connect 1 ∷ bytes rest
heard (x ∷ xs, rest) = []

content-after_scan :
    (r : List ℕ × List ℕ) (m : Msg) (s : State)
    → m.type ≡ Msg.line_data
    → content (after_scan r m s).1 ≡ heard r
unfolding replace_val insert_none says
content-after_scan ([], []) m s h = ground arith
content-after_scan ([], b ∷ bs) m s h = ground (arith, append-nil (bytes bs))
content-after_scan (x ∷ xs, rest) m s h = ground arith

in_method-data :
    (seq : List ℕ) (m : Msg) (s : State)
    → m.type ≡ Msg.line_data
    → in_method seq m s ≡ in_line_data seq m s
unfolding in_method
in_method-data seq m s h = ground arith

in_line_data-waiting :
    (seq : List ℕ) (b : ℕ) (bs : List ℕ) (m : Msg) (s : State)
    → m.buf ≡ b ∷ bs
    → s.wait_awak_seq ≡ true
    → in_line_data seq m s ≡ after_scan (scan seq s.awak_seq_next (b ∷ bs)) m s
unfolding in_line_data
in_line_data-waiting seq b bs m s e w = rw (e, w) refl

-- What a waiting filter lets through of a message.
abbrev pub Woken : List ℕ → List ℕ → List Event → Type 0
Woken seq buf out =
    (pre : List ℕ) × (rest : List ℕ) × ((buf ≡ pre ++ (seq ++ rest))
      × (out ≡ value Msg.connect 1 ∷ bytes rest))

Woken-scan :
    (seq bs : List ℕ) (m : Msg) (s : State) (r : List ℕ × List ℕ)
    → m.type ≡ Msg.line_data
    → scan seq seq bs ≡ r
    → (content (after_scan r m s).1 ≡ []) ⊎ Woken seq bs (content (after_scan r m s).1)
Woken-scan seq bs m s ([], rest) h e =
    let (pre, p) = scan-finds seq bs rest e in
    inr (pre, rest, (p, content-after_scan ([], rest) m s h))
Woken-scan seq bs m s (x ∷ xs, rest) h e = inl (content-after_scan (x ∷ xs, rest) m s h)

in_line_data-nothing :
    (seq : List ℕ) (m : Msg) (s : State) → m.buf ≡ [] → in_line_data seq m s ≡ (s, m ∷ [])
unfolding in_line_data
in_line_data-nothing seq m s e = rw e refl

content-no_data : (m : Msg) → m.type ≡ Msg.line_data → m.buf ≡ [] → content (m ∷ []) ≡ []
unfolding says
content-no_data m h e = ground arith

in_method-Woken_buf :
    (seq buf : List ℕ) (m : Msg) (s : State)
    → m.buf ≡ buf
    → m.type ≡ Msg.line_data
    → s.wait_awak_seq ≡ true
    → s.awak_seq_next ≡ seq
    → (content (in_method seq m s).1 ≡ []) ⊎ Woken seq buf (content (in_method seq m s).1)
in_method-Woken_buf seq [] m s z h w e =
    let r : in_method seq m s ≡ (s, m ∷ []) =
      in_method-data seq m s h ∙ in_line_data-nothing seq m s z in
    inl (ap (λ (x : State × List Msg). content x.1) r ∙ content-no_data m h z)
in_method-Woken_buf seq (b ∷ bs) m s z h w e =
    let r : in_method seq m s ≡ after_scan (scan seq seq (b ∷ bs)) m s =
      in_method-data seq m s h
      ∙ in_line_data-waiting seq b bs m s z w
      ∙ ap (λ l. after_scan (scan seq l (b ∷ bs)) m s) e in
    subst (λ (x : State × List Msg). (content x.1 ≡ []) ⊎ Woken seq (b ∷ bs) (content x.1)) (sym r)
      (Woken-scan seq (b ∷ bs) m s (scan seq seq (b ∷ bs)) h refl)

-- A filter that waits for the whole sequence lets nothing of a message of data through, or the
-- message holds the sequence and what comes out is CONNECT(TRUE) and the bytes behind it.
pub in_method-Woken :
    (seq : List ℕ) (m : Msg) (s : State)
    → m.type ≡ Msg.line_data
    → s.wait_awak_seq ≡ true
    → s.awak_seq_next ≡ seq
    → (content (in_method seq m s).1 ≡ []) ⊎ Woken seq m.buf (content (in_method seq m s).1)
in_method-Woken seq m s h w e = in_method-Woken_buf seq m.buf m s refl h w e

-- A filter that does not wait has sent CONNECT(TRUE).
abbrev pub Announced : State → Type 0
Announced s = (s.wait_awak_seq || s.connect_sent) ≡ true

after_scan-Announced :
    (r : List ℕ × List ℕ) (m : Msg) (s : State) → Announced s → Announced (after_scan r m s).0
after_scan-Announced ([], rest) m s h = ground arith
after_scan-Announced (x ∷ xs, rest) m s h = h

in_line_data-Announced :
    (seq buf : List ℕ) (m : Msg) (s : State)
    → m.buf ≡ buf
    → Announced s
    → Announced (in_line_data seq m s).0
unfolding in_line_data
in_line_data-Announced seq [] m s e h = rw e h
in_line_data-Announced seq (b ∷ bs) m s e h = elim (Bool-cases s.wait_awak_seq) [
  | inl w ↦
      subst (λ (x : State × List Msg). Announced x.0) (sym (in_line_data-waiting seq b bs m s e w))
        (after_scan-Announced (scan seq s.awak_seq_next (b ∷ bs)) m s h)
  | inr w ↦
      let r : in_line_data seq m s ≡ (s, m ∷ []) = rw (e, w) refl in
      subst (λ (x : State × List Msg). Announced x.0) (sym r) h
]

-- `InMethod` keeps it, whatever the message: the filter stops waiting only by sending CONNECT(TRUE),
-- and passes on CONNECT(FALSE) only by waiting again.
pub in_method-Announced :
    (seq : List ℕ) (m : Msg) (s : State) → Announced s → Announced (in_method seq m s).0
unfolding in_method in_connect
in_method-Announced seq m s h = ground (arith, in_line_data-Announced seq m.buf m s refl h)

-- `OutMethod` keeps it too.
pub out_method-Announced :
    (seq : List ℕ) (m : Msg) (s : State) → Announced s → Announced (out_method seq m s)
unfolding out_method
out_method-Announced seq m s h = ground arith
