-- ===== src/Network/Sender/Fifo.antt =====
-- The queue is a channel: what is written is what was sent, in order, one message at a time.
use mathlib.Core.List.{append_assoc}
use freekill_asio.Base.{
  ℕ, ◌+◌, ◌≡◌, refl, sym, ap, ◌∙◌, Bool, true, false, List, [], ◌∷◌, ◌++◌, arith,
}
use freekill_asio.Network.Sender.{
  Message, Sender, do_close, send_loop, send, disconnect_from_host, on_written, reader_ended, Step,
  sent, closed, wrote, read_ended, Run, begun, then_step,
}

-- A channel: what has been delivered, and what waits.
pub record Channel : Type 0 where
  pub delivered : List Message
  pub waiting : List Message

pub data ChannelStep : Channel → Channel → Type 0 where
  put : (c : Channel) (m : Message) → ChannelStep c (record c { waiting = c.waiting ++ m ∷ [] })
  take :
      (d : List Message) (m : Message) (ms : List Message)
      → ChannelStep
          (record { delivered = d; waiting = m ∷ ms })
          (record { delivered = d ++ m ∷ []; waiting = ms })
  stay : (c : Channel) → ChannelStep c c

abbrev pub view : Sender → Channel
view s = record { delivered = s.written; waiting = s.send_queue }

-- The message at the head of the queue is the one that is being written.
abbrev pub head_of : List Message → List Message
head_of [] = []
head_of (m ∷ ms) = m ∷ []

abbrev pub calls_left : Bool → ℕ
calls_left true = 1
calls_left false = 0

-- The callback has been called, or is still to be called, once.
pub record IsOrdered (s : Sender) : Type 0 where
  pub one_write : s.writes ≡ head_of s.send_queue
  pub one_call : s.called + calls_left s.has_callback ≡ 1

-- How the fields change with `send` and with the end of a write, by what the queue holds.
pub sent_to :
    (m : Message) (q : List Message) (s : Sender)
    → s.send_queue ≡ q
    → s.writes ≡ head_of q
    → ((send m s).send_queue ≡ q ++ m ∷ [])
      × ((send m s).writes ≡ head_of (q ++ m ∷ []))
      × ((send m s).written ≡ s.written)
      × ((send m s).called + calls_left (send m s).has_callback
          ≡ s.called + calls_left s.has_callback)
unfolding send send_loop do_close
sent_to m [] s h w = rw (h, w) (refl, refl, refl, refl)
sent_to m (x ∷ []) s h w = rw (h, w) (refl, refl, refl, refl)
sent_to m (x ∷ y ∷ q) s h w = rw (h, w) (ground arith, ground arith, ground arith, ground arith)

pub written_from :
    (m : Message) (q : List Message) (s : Sender)
    → s.send_queue ≡ m ∷ q
    → s.writes ≡ m ∷ []
    → ((on_written s).send_queue ≡ q)
      × ((on_written s).writes ≡ head_of q)
      × ((on_written s).written ≡ s.written ++ m ∷ [])
      × ((on_written s).called + calls_left (on_written s).has_callback
          ≡ s.called + calls_left s.has_callback)
unfolding on_written send_loop do_close
written_from m [] s h w = rw (h, w) (ground arith, ground arith, ground arith, ground arith)
written_from m (x ∷ q) s h w = rw (h, w) (refl, refl, refl, refl)

disconnected_lem :
    (s : Sender)
    → let t = disconnect_from_host s in
      (t.send_queue ≡ s.send_queue)
      × (t.writes ≡ s.writes)
      × (t.written ≡ s.written)
      × (t.called + calls_left t.has_callback ≡ s.called + calls_left s.has_callback)
unfolding disconnect_from_host do_close
disconnected_lem s = (ground arith, ground arith, ground arith, ground arith)

-- A queue that is being written begins with the message that is written.
pub begins_with_write :
    (q : List Message) (m : Message) (rest : List Message)
    → head_of q ≡ m ∷ rest
    → (ms : List Message) × (q ≡ m ∷ ms)
begins_with_write [] m rest h = absurd (ground (arith, h))
begins_with_write (x ∷ q) m rest h = (q, ground (arith, h))

abbrev pub IsRefined : Sender → Sender → Type 0
IsRefined s t = IsOrdered t × ChannelStep (view s) (view t)

-- A step of a sender that is in order, with one write at most and one call of its callback at most,
-- leaves it in order, and is a step of the channel that it stands for: a message is put in at the
-- end, or the oldest is delivered, or nothing moves.
pub Step-IsRefined :
    {ms ns : List Message} {s t : Sender} → IsOrdered s → Step ms s ns t → IsRefined s t
unfolding reader_ended
Step-IsRefined {s} o (sent m) =
    let (a, b, c, d) = sent_to m s.send_queue s refl o.one_write in
    (
      record { one_write = b ∙ ap head_of (sym a); one_call = d ∙ o.one_call },
      rw (a, c) (put (view s) m),
    )
Step-IsRefined {s} o closed =
    let (a, b, c, d) = disconnected_lem s in
    (
      record { one_write = b ∙ o.one_write ∙ ap head_of (sym a); one_call = d ∙ o.one_call },
      rw (a, c) (stay (view s)),
    )
Step-IsRefined {s} o read_ended =
    (record { one_write = o.one_write; one_call = ground (arith, o.one_call) }, stay (view s))
Step-IsRefined {s} o (wrote m rest w) =
    let (q, e) = begins_with_write s.send_queue m rest (sym o.one_write ∙ w) in
    let (a, b, c, d) = written_from m q s e (o.one_write ∙ ap head_of e) in
    (
      record { one_write = b ∙ ap head_of (sym a); one_call = d ∙ o.one_call },
      rw (a, c, e) (take s.written m q),
    )

sent_kept :
    {ms ns : List Message} {s t : Sender}
    → IsOrdered s
    → ms ≡ s.written ++ s.send_queue
    → Step ms s ns t
    → ns ≡ t.written ++ t.send_queue
unfolding reader_ended
sent_kept {s = s} o e (sent m) =
    let (a, b, c, d) = sent_to m s.send_queue s refl o.one_write in
    rw (a, c, e) (append_assoc s.written s.send_queue (m ∷ []))
sent_kept {s = s} o e closed = let (a, b, c, d) = disconnected_lem s in rw (a, c) e
sent_kept o e read_ended = e
sent_kept {s = s} o e (wrote m rest w) =
    let (q, f) = begins_with_write s.send_queue m rest (sym o.one_write ∙ w) in
    let (a, b, c, d) = written_from m q s f (o.one_write ∙ ap head_of f) in
    rw (a, c, e, f) (sym (append_assoc s.written (m ∷ []) q))

-- In every run what is sent is what is written, followed by what waits.
pub Run-IsOrdered :
    {ms : List Message} {s : Sender} → Run ms s → IsOrdered s × (ms ≡ s.written ++ s.send_queue)
Run-IsOrdered begun = (record { one_write = refl; one_call = refl }, refl)
Run-IsOrdered (then_step r x) =
    let (o, e) = Run-IsOrdered r in ((Step-IsRefined o x).0, sent_kept o e x)
