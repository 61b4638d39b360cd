-- ===== src/Server/Game/Over.antt =====
-- The end of a game: `Room::_gameOver` and `updatePlayerGameTime` of src/server/room/room.cpp. The
-- statements for the data base are events; the time that a player's timer shows is a parameter.
use freekill_asio.Base.{ℤ, ◌+ℤ◌, not, ◌&&◌, ◌||◌, List, [], ◌∷◌, if◌then◌else◌, is_positive}
use freekill_asio.Base.Map.{remove_all}
use freekill_asio.Server.World.{
  World, ServerPlayer, Room, trust, online, offline, kicked, temporarily_ban, game_time_saved,
  run_counted, is_online, set_player, set_room, tell, do_notify, do_broadcast_notify,
}
use freekill_asio.Server.Users.{find_player}
use freekill_asio.Server.Room.{same_state, set_state}
use freekill_asio.Server.Leave.{is_outdated, forget_md5}
use freekill_asio.Server.Game.{with_player, with_user}

-- The other players of the room are told, and the user's object gets the time.
unfoldable pub count_time : List ℤ → ℤ → ServerPlayer → ℤ → World → World
unfolding do_broadcast_notify find_player
count_time players conn p time w =
    with_user p.id
      (λ q v.
        let r : ServerPlayer = record q { total_game_time = q.total_game_time +ℤ time } in
        tell (do_notify r "AddTotalGameTime") (set_player r v))
      (tell
        (game_time_saved p.id time
          ∷ do_broadcast_notify (remove_all conn players) "AddTotalGameTime" w)
        w)

module _ (game_time : ServerPlayer → ℤ) where
  unfoldable pub count_times : List ℤ → List ℤ → World → World
  unfolding count_time
  count_times players [] w = w
  count_times players (conn ∷ conns) w = count_times players conns (
      with_player conn
        (λ p v. if is_positive p.id then count_time players conn p (game_time p) v else v) w)

  -- `Room::updatePlayerGameTime`
  unfoldable pub update_player_game_time : Room → World → World
  unfolding count_times
  update_player_game_time r w = count_times r.players r.players w

-- One who is offline is banned if the room is of the present version and the player has run away.
unfoldable pub settle_offline : Room → ServerPlayer → World → World
settle_offline r p w =
    if is_online p || not (same_state p.state offline)
    then w
    else let v = set_room (forget_md5 r w) w in
      if not (is_outdated r w) && p.runned
      then tell (temporarily_ban p.id ∷ []) v
      else tell (kicked p.conn_id ∷ []) v

unfoldable pub settle : Room → ServerPlayer → World → World
unfolding settle_offline set_state
settle r p w =
    let v = if p.runned then tell (run_counted p.id r.game_mode ∷ []) w else w in
    if same_state p.state trust
    then settle_offline r (record p { state = online }) (set_state online p v)
    else settle_offline r p v

unfoldable pub settle_all : Room → List ℤ → World → World
unfolding settle
settle_all r [] w = w
settle_all r (conn ∷ conns) w =
    settle_all r conns (with_player conn (λ p v. if is_positive p.id then settle r p v else v) w)

-- `Room::_gameOver`, which the main thread runs while the caller of `gameOver` waits.
unfoldable pub game_over : (ServerPlayer → ℤ) → Room → World → World
unfolding update_player_game_time settle_all
game_over game_time r w = settle_all r r.players (update_player_game_time game_time r w)
