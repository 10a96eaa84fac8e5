-- ===== src/Driver/Buffer/Write.antt =====
-- `WriteToBuffer` of com0com/sys/bufutils.c on a line without noise and break: the escaped bytes go
-- to the end of the queue.
use com0com.Base.{
  ℕ, zero, suc, ◌+◌, ◌-◌, ◌≤◌, ◌<◌, true, false, List, [], ◌∷◌, ◌++◌, length, take, drop, leb, ◌==◌,
  Option, some, none, bit_and, ◌≡◌, ◌⊎◌, inl, inr, refl, sym, ap, ap₂, subst, ◌∙◌, arith,
  append_assoc, append-nil, take-add, length-drop, lt_or_ge,
}
use com0com.Plugins.Lsrmst.{Lsrmst}
use com0com.Driver.Port.{Serial, IoPort, Wire}
use com0com.Driver.Line.{FlowFilter, Sender, data_mask}
use com0com.Driver.Escape.{fate, copy_chars_with_escape}
use com0com.Driver.Escape.Arrivals.{char_bytes, arrivals, copy_chars_with_escape-Copies}
use com0com.Driver.Escape.Quiet.{IsQuiet, encode, arrivals-Sent}
use com0com.Driver.Buffer.{
  Buffer, out_of, room_of, filled, Written, done_before, write_loop, write_to_buffer,
}
use com0com.Driver.Buffer.Queue.{Queued}
use com0com.Driver.Buffer.Fill.{room_of-positive, filled-Queued, done-Puts, shorter}

abbrev pub sender_of : Wire → FlowFilter → List ℕ → Sender
sender_of w f cs = record { wire = w; filter = f; write_buf = some cs }

-- Of the `n` characters `cs` some were used, and their bytes are at the end of the queue `xs`. The
-- buffer, with `start` bytes in it before, is not filled over its limit; if not all characters were
-- used, it is full up to the limit.
pub record Ends (sc : Lsrmst) (limit start : ℕ) (w : Wire) (flags : ℕ) (xs cs : List ℕ) (n : ℕ)
    (r : Written) : Type 0 where
  pub used : r.done ≤ n
  pub queue : Queued r.buf (xs ++ encode sc w.reader flags (data_mask w) (take r.done cs))
  pub same_limit : r.buf.limit ≡ limit
  pub bounded : (r.buf.busy ≤ limit) ⊎ (r.buf.busy ≡ start)
  pub stops : (r.done ≡ n) ⊎ (limit ≤ r.buf.busy)
  pub same_wire : r.sender.wire ≡ w
  pub same_flags : r.sender.filter.flags ≡ flags

abbrev pub Writes : Lsrmst → ℕ → ℕ → Wire → ℕ → List ℕ → List ℕ → ℕ → Option Written → Type 0
Writes sc limit start w flags xs cs n none = ⊥
Writes sc limit start w flags xs cs n (some r) = Ends sc limit start w flags xs cs n r

pub encode-append :
    (sc : Lsrmst) (p : IoPort) (flags mask : ℕ) (xs ys : List ℕ)
    → encode sc p flags mask (xs ++ ys) ≡ encode sc p flags mask xs ++ encode sc p flags mask ys
unfolding encode
encode-append sc p flags mask [] ys = refl
encode-append sc p flags mask (x ∷ xs) ys =
    let cur = bit_and x mask in
    let bs = char_bytes sc p (fate p flags cur) cur in
    ap (◌++◌ bs) (encode-append sc p flags mask xs ys)
    ∙ sym (append_assoc bs (encode sc p flags mask xs) (encode sc p flags mask ys))

module _ (se : Serial) (sc : Lsrmst) where
  write_loop-done :
      (fuel : ℕ) (b : Buffer) (s : Sender)
      → write_loop se sc false (suc fuel) b s 0
        ≡ some (record { buf = b; sender = s; done = 0; overrun = 0 })
  unfolding write_loop
  write_loop-done fuel b s = refl

  write_loop-full :
      (fuel n : ℕ) (b : Buffer) (s : Sender)
      → 0 < n
      → b.limit ≤ b.busy
      → write_loop se sc false (suc fuel) b s n
        ≡ some (record { buf = b; sender = s; done = 0; overrun = 0 })
  unfolding write_loop
  write_loop-full fuel n b s hn h =
      let e : (n == 0) ≡ false = ground arith in
      let f : leb b.limit b.busy ≡ true = ground arith in rw (e, f) refl

  write_loop-turn :
      (fuel n : ℕ) (b : Buffer) (w : Wire) (f : FlowFilter) (cs : List ℕ)
      → 0 < n
      → b.busy < b.limit
      → write_loop se sc false (suc fuel) b (sender_of w f cs) n ≡ (
          let (s', o, done) =
            copy_chars_with_escape se sc n (sender_of w f cs) (out_of b (room_of b)) in
          done_before done (
            write_loop se sc false fuel
              (filled b o)
              (sender_of s'.wire s'.filter (drop done cs))
              (n - done)))
  unfolding write_loop
  write_loop-turn fuel n b w f cs hn h =
      let e : (n == 0) ≡ false = ground arith in
      let g : leb b.limit b.busy ≡ false = ground arith in rw (e, g) refl

  -- One turn, and the rest of the loop.
  turn-Writes :
      (limit start next n d : ℕ) (w w' : Wire) (flags flags' : ℕ) (xs cs : List ℕ)
      (rest : Option Written)
      → d ≤ n
      → next ≤ limit
      → w' ≡ w
      → flags' ≡ flags
      → Writes sc limit next w' flags'
          (xs ++ encode sc w.reader flags (data_mask w) (take d cs))
          (drop d cs)
          (n - d)
          rest
      → Writes sc limit start w flags xs cs n (done_before d rest)
  turn-Writes limit start next n d w w' flags flags' xs cs none hd hl ew ef h = h
  turn-Writes limit start next n d w w' flags flags' xs cs (some r) hd hl ew ef h = record {
    used = omega (arith, h.used);
    queue =
        subst (Queued r.buf)
          (append_assoc xs (enc (take d cs)) _
            ∙ ap (◌++◌ xs) (
                ap (◌++◌ (enc (take d cs))) (
                  ap₂
                    (λ (v : Wire) (fl : ℕ).
                      encode sc v.reader fl (data_mask v) (take r.done (drop d cs)))
                    ew ef)
                ∙ sym (
                    encode-append sc w.reader flags (data_mask w) (take d cs)
                      (take r.done (drop d cs)))
                ∙ ap enc (sym (take-add d r.done cs))))
          h.queue;
    same_limit = h.same_limit;
    bounded = elim h.bounded [ inl e ↦ inl e | inr e ↦ inl (omega (arith, e, hl)) ];
    stops = elim h.stops [ inl e ↦ inl (omega arith) | inr e ↦ inr e ];
    same_wire = h.same_wire ∙ ew;
    same_flags = h.same_flags ∙ ef;
  }
    where
      enc : List ℕ → List ℕ
      enc = encode sc w.reader flags (data_mask w)

  Ends-now :
      (b : Buffer) (w : Wire) (f : FlowFilter) (xs cs : List ℕ) (n : ℕ)
      → Queued b xs
      → (0 ≡ n) ⊎ (b.limit ≤ b.busy)
      → Ends sc b.limit b.busy w f.flags xs cs n
          (record { buf = b; sender = sender_of w f cs; done = 0; overrun = 0 })
  unfolding encode
  Ends-now b w f xs cs n u st = record {
    used = omega arith;
    queue = subst (Queued b) (sym (append-nil xs)) u;
    same_limit = refl;
    bounded = inr refl;
    stops = st;
    same_wire = refl;
    same_flags = refl;
  }

  write_loop-Writes :
      (fuel n : ℕ) (b : Buffer) (w : Wire) (f : FlowFilter) (xs cs : List ℕ)
      → IsQuiet se w
      → n ≤ length cs
      → Queued b xs
      → ((n ≡ 0) × (0 < fuel)) ⊎ (b.limit - b.busy < fuel)
      → Writes sc b.limit b.busy w f.flags xs cs n
          (write_loop se sc false fuel b (sender_of w f cs) n)
  write_loop-Writes zero n b w f xs cs q hc u h = absurd (ground arith)
  write_loop-Writes (suc fuel) zero b w f xs cs q hc u h =
      subst (Writes sc b.limit b.busy w f.flags xs cs 0)
        (sym (write_loop-done fuel b (sender_of w f cs))) (Ends-now b w f xs cs 0 u (inl refl))
  write_loop-Writes (suc fuel) (suc m) b w f xs cs q hc u h =
      let n = suc m in
      let s = sender_of w f cs in
      elim (lt_or_ge b.busy b.limit) [
        | inr hb ↦
            subst (Writes sc b.limit b.busy w f.flags xs cs n)
              (sym (write_loop-full fuel n b s (omega arith) hb))
              (Ends-now b w f xs cs n u (inr hb))
        | inl hb ↦
            let st = u.stored in
            let room = room_of b in
            let res = copy_chars_with_escape se sc n s (out_of b room) in
            let c = copy_chars_with_escape-Copies se sc n s (out_of b room) refl st.raw refl in
            let t = arrivals-Sent se sc res.2 s cs q refl (omega (arith, c.at_most)) in
            let ew : res.0.wire ≡ w = ap (λ (v : Sender). v.wire) c.sender ∙ t.wire in
            let ef : res.0.filter.flags ≡ f.flags =
              ap (λ (v : Sender). v.filter.flags) c.sender ∙ t.flags in
            let bs = arrivals se sc res.2 s in
            let fq =
              filled-Queued b xs bs room res.1 u (omega (arith, st.limited)) (ground arith)
                c.puts in
            let d = done-Puts b room bs res.1 c.puts in
            let inside : b.busy + res.1.done ≤ b.limit = ground (arith, d.0, d.1, hb) in
            let pos = room_of-positive b u.live st hb in
            let measure : ((n - res.2 ≡ 0) × (0 < fuel))
                ⊎ (b.limit - (b.busy + res.1.done) < fuel) =
              shorter n res.2 b.limit b.busy res.1.done res.1.room room (length res.1.out) fuel
                c.stops d.0 d.1 pos hb (omega arith) h in
            subst (Writes sc b.limit b.busy w f.flags xs cs n)
              (sym (write_loop-turn fuel n b w f cs (omega arith) hb))
              (turn-Writes b.limit b.busy (b.busy + res.1.done) n res.2 w res.0.wire f.flags
                res.0.filter.flags xs cs _ c.at_most inside ew ef
                (write_loop-Writes fuel (n - res.2) (filled b res.1) res.0.wire res.0.filter
                  (xs ++ encode sc w.reader f.flags (data_mask w) (take res.2 cs)) (drop res.2 cs)
                  (subst (IsQuiet se) (sym ew) q) (omega (arith, length-drop res.2 cs))
                  (subst (λ (ys : List ℕ). Queued (filled b res.1) (xs ++ ys)) t.bytes fq) measure))
      ]

  -- `WriteToBuffer` without pOverrun, on a line without noise and break, for a buffer that stands
  -- for the queue `xs`: it ends, having used some of the `n` characters; their bytes, escaped for
  -- escapeChar, are at the end of the queue, nothing of which is lost; the
  -- buffer is not filled over its limit; and if characters are left over, it is full up to the limit.
  pub write_to_buffer-Writes :
      (n : ℕ) (b : Buffer) (w : Wire) (f : FlowFilter) (xs cs : List ℕ)
      → IsQuiet se w
      → n ≤ length cs
      → Queued b xs
      → Writes sc b.limit b.busy w f.flags xs cs n
          (write_to_buffer se sc false b (sender_of w f cs) n)
  unfolding write_to_buffer
  write_to_buffer-Writes n b w f xs cs q hc u =
      write_loop-Writes (suc (b.limit - b.busy)) n b w f xs cs q hc u (inr (omega arith))
