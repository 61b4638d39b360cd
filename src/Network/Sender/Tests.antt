-- ===== src/Network/Sender/Tests.antt =====
-- Two messages and the end of a connection.
use freekill_asio.Base.{◌≡◌, refl, true, false, [], ◌∷◌, length}
use freekill_asio.Network.Sender.{
  Message, Sender, new_sender, send, send_loop, disconnect_from_host, on_written, sent, closed,
  wrote, Run, begun, then_step,
}
use freekill_asio.Network.Sender.Fifo.{IsRefined, Step-IsRefined, Run-IsOrdered}
use freekill_asio.Network.Sender.Drained.{after_writes, after_writes_lem}

abbrev hello : Message
hello = 104 ∷ 105 ∷ []

abbrev bye : Message
bye = 98 ∷ 121 ∷ []

-- Both are sent, the first is written, and the server ends the connection.
abbrev ending : Sender
ending = disconnect_from_host (on_written (send bye (send hello new_sender)))

ending-Run : Run (hello ∷ bye ∷ []) ending
unfolding send send_loop
ending-Run =
    then_step
      (then_step (then_step (then_step begun (sent hello)) (sent bye)) (wrote hello [] refl)) closed

Step-IsRefined_example : IsRefined ending (on_written ending)
unfolding send send_loop disconnect_from_host on_written
Step-IsRefined_example =
    Step-IsRefined (Run-IsOrdered ending-Run).0
      (wrote {ms = hello ∷ bye ∷ []} {s = ending} bye [] refl)

after_writes_lem_example :
    let t = after_writes (length ending.send_queue) ending in
    (t.send_queue ≡ [])
    × (t.written ≡ hello ∷ bye ∷ [])
    × (ending.is_closing ≡ true → (t.is_open ≡ false) × (t.called ≡ 1))
after_writes_lem_example = after_writes_lem ending-Run
