-- ===== src/Network/Sender/Drained.antt =====
-- Once nothing more is sent, the queue runs empty, and a connection that is to end does end.
use mathlib.Core.List.{append-nil}
use freekill_asio.Base.{
  ℕ, zero, suc, ◌≡◌, ◌≢◌, refl, sym, ap, ◌∙◌, true, false, List, [], ◌∷◌, ◌++◌, length, arith,
}
use freekill_asio.Network.Sender.{
  Message, Sender, do_close, send_loop, disconnect_from_host, on_written, reader_ended, Step, sent,
  closed, wrote, read_ended, Run, begun, then_step,
}
use freekill_asio.Network.Sender.Fifo.{
  IsOrdered, head_of, sent_to, written_from, begins_with_write, Run-IsOrdered,
}

-- One that is to end, with nothing left to write, has ended.
abbrev IsEnded : Sender → Type 0
IsEnded s = (s.is_open ≡ false) × (s.has_callback ≡ false)

Ends : Sender → Type 0
Ends s = s.is_closing ≡ true → s.send_queue ≡ [] → IsEnded s

-- The handlers of `n` writes, one after the other.
abbrev pub after_writes : ℕ → Sender → Sender
after_writes zero s = s
after_writes (suc n) s = after_writes n (on_written s)

written-Ends :
    (m : Message) (q : List Message) (s : Sender)
    → s.send_queue ≡ m ∷ q
    → s.writes ≡ m ∷ []
    → Ends (on_written s) × ((on_written s).is_closing ≡ s.is_closing)
unfolding Ends on_written send_loop do_close
written-Ends m [] s h w = rw (h, w) (λ c e. (ground (arith, c), ground (arith, c)), ground arith)
written-Ends m (x ∷ q) s h w = rw (h, w) (λ c e. absurd (ground (arith, e)), refl)

not_empty : (m : Message) (q : List Message) → q ++ m ∷ [] ≢ []
not_empty m [] h = absurd (ground (arith, h))
not_empty m (x ∷ q) h = absurd (ground (arith, h))

Step-Ends : {ms ns : List Message} {s t : Sender} → IsOrdered s → Ends s → Step ms s ns t → Ends t
unfolding Ends disconnect_from_host reader_ended do_close
Step-Ends {s = s} o h (sent m) =
    λ c e. absurd (not_empty m s.send_queue (sym (sent_to m s.send_queue s refl o.one_write).0 ∙ e))
Step-Ends {s = s} o h closed = λ c e. (ground (arith, e), ground (arith, e))
Step-Ends {s = s} o h read_ended = λ c e. ((h c e).0, refl)
Step-Ends {s = s} o h (wrote m rest w) =
    let (q, f) = begins_with_write s.send_queue m rest (sym o.one_write ∙ w) in
    (written-Ends m q s f (o.one_write ∙ ap head_of f)).0

Run-Ends : {ms : List Message} {s : Sender} → Run ms s → Ends s
unfolding Ends
Run-Ends begun = λ c e. absurd (ground (arith, c))
Run-Ends (then_step r x) = Step-Ends (Run-IsOrdered r).0 (Run-Ends r) x

drains :
    {ms : List Message} (q : List Message) (s : Sender)
    → Run ms s
    → s.send_queue ≡ q
    → let t = after_writes (length q) s in
      Run ms t × (t.send_queue ≡ []) × (t.is_closing ≡ s.is_closing)
drains [] s r e = (r, e, refl)
drains (m ∷ q) s r e =
    let w = (Run-IsOrdered r).0.one_write ∙ ap head_of e in
    let (a, b, c, d) = written_from m q s e w in
    let (f, g, h) = drains q (on_written s) (then_step r (wrote m [] w)) a in
    (f, g, h ∙ (written-Ends m q s e w).1)

-- When nothing more is sent, the ends of as many writes as there are messages in the queue empty it:
-- the writes of everything that was sent have ended, in order; and a connection that is to end is
-- closed then, with its callback called exactly once.
pub after_writes_lem :
    {ms : List Message} {s : Sender}
    → Run ms s
    → let t = after_writes (length s.send_queue) s in
      (t.send_queue ≡ [])
      × (t.written ≡ ms)
      × (s.is_closing ≡ true → (t.is_open ≡ false) × (t.called ≡ 1))
unfolding Ends
after_writes_lem {s = s} r =
    let (f, g, h) = drains s.send_queue s r refl in
    let t = after_writes (length s.send_queue) s in
    let (o, e) = Run-IsOrdered f in
    (
      g,
      sym (append-nil t.written) ∙ sym (ap (λ (q : List Message). t.written ++ q) g) ∙ sym e,
      λ c. let (i, j) = Run-Ends f (h ∙ c) g in (i, ground (arith, j, o.one_call)),
    )
