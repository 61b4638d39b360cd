-- ===== src/Network/Sender.antt =====
-- The sending half of src/network/client_socket.cpp: the queue of messages, one write at a time, and
-- the end of the connection once the queue is empty.
pub mod Fifo
pub mod Drained
mod Tests
use freekill_asio.Base.{
  ℕ, suc, ◌+◌, ◌≡◌, Bool, true, false, List, [], ◌∷◌, ◌++◌, length, if◌then◌else◌, ◌==◌,
}

-- The bytes of a message.
abbrev pub Message : Type 0
Message = List ℕ

pub record Sender : Type 0 where
  pub send_queue : List Message
  pub is_closing : Bool
  pub is_open : Bool
  -- the callback that is set from outside, or the empty one
  pub has_callback : Bool
  -- the writes that `async_write` has begun and not ended, how often the callback was called, and
  -- the messages whose write has ended, oldest first
  pub writes : List Message
  pub called : ℕ
  pub written : List Message

abbrev pub new_sender : Sender
new_sender = record {
  send_queue = [];
  is_closing = false;
  is_open = true;
  has_callback = true;
  writes = [];
  called = 0;
  written = [];
}

-- The callback, which is then replaced by the empty one.
abbrev pub call_back : Sender → Sender
call_back s = record s {
  called = if s.has_callback then s.called + 1 else s.called;
  has_callback = false;
}

unfoldable pub do_close : Sender → Sender
do_close s = call_back (record s { is_open = false })

abbrev begin_write : List Message → Sender → Sender
begin_write [] s = s
begin_write (m ∷ ms) s = record s { writes = s.writes ++ m ∷ [] }

abbrev is_idle : List Message → Bool
is_idle [] = true
is_idle (m ∷ ms) = false

unfoldable pub send_loop : Sender → Sender
unfolding do_close
send_loop s =
    if is_idle s.send_queue
    then if s.is_closing then do_close s else s
    else begin_write s.send_queue s

unfoldable pub send : Message → Sender → Sender
unfolding send_loop
send m s =
    let t : Sender = record s { send_queue = s.send_queue ++ m ∷ [] } in
    if length t.send_queue == 1 then send_loop t else t

unfoldable pub disconnect_from_host : Sender → Sender
unfolding do_close
disconnect_from_host s =
    let t : Sender = record s { is_closing = true } in
    if is_idle t.send_queue then do_close t else t

-- `send_queue.pop_front()`
abbrev pub pop_front : List Message → List Message
pop_front [] = []
pop_front (m ∷ ms) = ms

-- The handler of the oldest write, with or without an error: the write has ended.
abbrev end_write : List Message → Sender → Sender
end_write [] s = s
end_write (m ∷ ms) s = record s { writes = ms; written = s.written ++ m ∷ [] }

unfoldable pub on_written : Sender → Sender
unfolding send_loop
on_written s =
    send_loop
      (record (end_write s.writes s) { send_queue = pop_front (queue_of (end_write s.writes s)) })
  where
    queue_of : Sender → List Message
    queue_of t = t.send_queue

-- The end of `reader`, whose cause is an end of the stream or malformed data.
unfoldable pub reader_ended : Sender → Sender
reader_ended s = call_back s

-- What may happen to a connection, and the messages that have been given to `send`.
pub data Step : List Message → Sender → List Message → Sender → Type 0 where
  sent : {ms : List Message} {s : Sender} (m : Message) → Step ms s (ms ++ m ∷ []) (send m s)
  closed : {ms : List Message} {s : Sender} → Step ms s ms (disconnect_from_host s)
  wrote :
      {ms : List Message} {s : Sender} (m : Message) (rest : List Message)
      → s.writes ≡ m ∷ rest
      → Step ms s ms (on_written s)
  read_ended : {ms : List Message} {s : Sender} → Step ms s ms (reader_ended s)

pub data Run : List Message → Sender → Type 0 where
  begun : Run [] new_sender
  then_step : {ms ns : List Message} {s t : Sender} → Run ms s → Step ms s ns t → Run ns t
