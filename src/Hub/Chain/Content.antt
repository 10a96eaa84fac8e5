-- ===== src/Hub/Chain/Content.antt =====
-- What a chain of messages says, whatever its split into messages: the data bytes and the values in
-- their order. The routines of hub4com/export.cpp add to the end of it.
use mathlib.Core.List.{reverse-cons}
use com0com.Base.{
  ℕ, true, false, List, [], ◌∷◌, ◌++◌, ◌==◌, if◌then◌else◌, ◌≡◌, refl, sym, ap, ◌∙◌, map, reverse,
  append_assoc, append-nil, map-append, Bool-cases, inl, inr,
}
use com0com.Hub.Msg.{Msg, new, line_data, empty}
use com0com.Hub.Chain.{Chain, messages, insert, insert_buf, insert_val}

pub data Event : Type 0 where
  data_byte : ℕ → Event
  value : ℕ → ℕ → Event

abbrev pub bytes : List ℕ → List Event
bytes = map data_byte

unfoldable pub says : Msg → List Event
says m =
    if m.type == line_data
    then bytes m.buf
    else if m.type == empty
    then []
    else value m.type m.val ∷ []

abbrev pub content : List Msg → List Event
content [] = []
content (m ∷ ms) = says m ++ content ms

pub content-append : (a b : List Msg) → content (a ++ b) ≡ content a ++ content b
content-append [] b = refl
content-append (m ∷ ms) b =
    ap (◌++◌ (says m)) (content-append ms b) ∙ sym (append_assoc (says m) (content ms) (content b))

abbrev pub said : Chain → List Event
said c = content (reverse c.before) ++ says c.here

pub content-messages : (c : Chain) → content (messages c) ≡ said c
content-messages c =
    content-append (reverse c.before) (c.here ∷ [])
    ∙ ap (◌++◌ (content (reverse c.before))) (append-nil (says c.here))

pub said-insert : (m : Msg) (c : Chain) → said (insert m c) ≡ said c ++ says m
said-insert m c =
    ap (λ l. content l ++ says m) (reverse-cons c.here c.before)
    ∙ ap (λ l. l ++ says m) (content-messages c)

says_data : (m : Msg) → (m.type == line_data) ≡ true → says m ≡ bytes m.buf
unfolding says
says_data m e = rw e

pub said-insert_val :
    (t v : ℕ) (c : Chain)
    → (t == line_data) ≡ false
    → (t == empty) ≡ false
    → said (insert_val t v c) ≡ said c ++ value t v ∷ []
unfolding insert_val says
said-insert_val t v c d e = said-insert (record new { val = v; type = t }) c ∙ rw (d, e)

said-append :
    (src : List ℕ) (c : Chain)
    → (c.here.type == line_data) ≡ true
    → said (record c { here = record (c.here) { buf = c.here.buf ++ src } }) ≡ said c ++ bytes src
said-append src c e =
    rw (says_data c.here e, says_data (record (c.here) { buf = c.here.buf ++ src }) e)
      (rw map-append
        (sym (append_assoc (content (reverse c.before)) (bytes c.here.buf) (bytes src))))

-- The bytes of `msg_insert_buf` come last, whether they make a new message or not.
pub said-insert_buf :
    (src : List ℕ) (c : Chain) → said (insert_buf line_data src c) ≡ said c ++ bytes src
unfolding insert_buf
said-insert_buf src c = elim (Bool-cases (c.here.type == line_data)) [
  | inl e ↦ rw (e, insert_buf) (said-append src c e)
  | inr e ↦
      rw (e, insert_buf)
        (said-insert (record new { buf = src; type = line_data }) c
          ∙ ap (◌++◌ (said c)) (says_data (record new { buf = src; type = line_data }) refl))
]
