-- ===== src/Server/Heartbeat/Kept.antt =====
-- What a beat of `Server::heartbeat` of src/server/server.cpp keeps.
use freekill_asio.Base.{ℤ, ◌≡◌, Bool, List, [], ◌∷◌, some, if_cases}
use freekill_asio.Base.Map.{find}
use freekill_asio.Server.World.{World, ServerPlayer, is_online}
use freekill_asio.Server.Sound.{IsSound, tell-IsSound, set_player-IsSound}
use freekill_asio.Server.Sound.Ends.{found-IsSound, kick_all-IsSound}
use freekill_asio.Server.Heartbeat.{expired, beat, beat_all, heartbeat}
use freekill_asio.Server.Connection.{kick_all}

beat-IsSound :
    (conn : ℤ) (p : ServerPlayer) (w : World)
    → find conn w.players_map ≡ some p
    → IsSound w
    → IsSound (beat p w)
unfolding beat
beat-IsSound conn p w h s =
    if_cases IsSound (is_online p)
      (λ _. tell-IsSound _ _ (set_player-IsSound _ w (s.players_fine conn p h) s)) (λ _. s)

beat_all-IsSound : (ps : List (ℤ × ℤ)) (w : World) → IsSound w → IsSound (beat_all ps w)
unfolding beat_all
beat_all-IsSound [] w s = s
beat_all-IsSound ((id, conn) ∷ ps) w s =
    beat_all-IsSound ps _ (found-IsSound conn beat w (λ p h. beat-IsSound conn p w h s) s)

module _ (drained : ServerPlayer → Bool) where
  pub heartbeat-IsSound : (w : World) → IsSound w → IsSound (heartbeat drained w)
  unfolding heartbeat
  heartbeat-IsSound w s =
      let conns = expired w.online_players_map w in
      let v = kick_all drained conns w in
      beat_all-IsSound v.online_players_map v (kick_all-IsSound drained conns w s)
