-- ===== src/Server/Users.antt =====
-- src/server/user/user_manager.cpp: the three maps of the user manager.
use freekill_asio.Base.{
  zero, suc, ℤ, pos, negsuc, ◌≡◌, ◌≢◌, Bool, true, false, ltb, Option, none, some, if◌then◌else◌,
  is_positive, is_negative, ◌==ℤ◌, ==ℤ_iff, arith,
}
use freekill_asio.Base.Map.{find, put, erase, find-put, find-erase}
use freekill_asio.Server.World.{World, ServerPlayer, robot, max_ttl}

-- The connection id of the object that a user id, or a robot id, leads to.
unfoldable pub find_player : ℤ → World → Option ℤ
find_player id w = if is_negative id then find id w.robots_map else find id w.online_players_map

unfoldable pub add_player : ServerPlayer → World → World
add_player p w =
    if is_positive p.id
    then record w {
      online_players_map = put p.id p.conn_id w.online_players_map;
      players_map = put p.conn_id p w.players_map;
    }
    else record w {
      robots_map = put p.id p.conn_id w.robots_map;
      players_map = put p.conn_id p w.players_map;
    }

abbrev leads_to : Option ℤ → ℤ → Bool
leads_to none conn = false
leads_to (some c) conn = c ==ℤ conn

-- The entry of a user goes only if it is for this very object; that of a robot in any case.
unfoldable pub remove_player : ServerPlayer → ℤ → World → World
remove_player p id w = record w {
  online_players_map =
      if leads_to (find id w.online_players_map) p.conn_id
      then erase id w.online_players_map
      else w.online_players_map;
  robots_map = erase id w.robots_map;
}

unfoldable pub remove_player_by_conn_id : ℤ → World → World
remove_player_by_conn_id conn w = record w { players_map = erase conn w.players_map }

unfoldable pub delete_player : ServerPlayer → World → World
unfolding remove_player remove_player_by_conn_id
delete_player p w = remove_player_by_conn_id p.conn_id (remove_player p p.id w)

-- `nextRobotId--`, back to -2 below 0x800000FF; `negsuc 1` is -2.
unfoldable pub after_robot_id : ℤ → ℤ
after_robot_id (pos zero) = negsuc 0
after_robot_id (pos (suc n)) = pos n
after_robot_id (negsuc n) = if ltb 2147483392 (suc n) then negsuc 1 else negsuc (suc n)

-- `nextConnId++`, back to 1000 from 0x7FFFFF00 on.
unfoldable pub after_conn_id : ℤ → ℤ
after_conn_id (pos n) = if ltb (suc n) 2147483392 then pos (suc n) else pos 1000
after_conn_id (negsuc zero) = pos 0
after_conn_id (negsuc (suc n)) = negsuc n

-- The screen name "COMP-<id>" is left out.
unfoldable pub create_robot : World → World × ServerPlayer
unfolding add_player
create_robot w =
    let r : ServerPlayer = record {
      conn_id = w.next_conn_id;
      id = w.next_robot_id;
      state = robot;
      ready = true;
      died = false;
      runned = false;
      thinking = false;
      room_id = pos 0;
      socket = none;
      screen_name = "";
      avatar = "guanyu";
      last_game_mode = "";
      total_game_time = pos 0;
      total_games = pos 0;
      win_count = pos 0;
      run_count = pos 0;
      ttl = max_ttl;
    } in
    (
      add_player r (record w {
        next_conn_id = after_conn_id w.next_conn_id;
        next_robot_id = after_robot_id w.next_robot_id;
      }),
      r,
    )

-- A player that is added is found by the connection id, and by the user or robot id if that is not
-- 0; what other ids lead to stays.
pub add_player_lem :
    (p : ServerPlayer) (w : World) (j : ℤ)
    → (find j (add_player p w).players_map
        ≡ (if p.conn_id ==ℤ j then some p else find j w.players_map))
      × (p.id ≢ pos 0
          → find_player j (add_player p w)
            ≡ (if p.id ==ℤ j then some p.conn_id else find_player j w))
unfolding add_player find_player
add_player_lem p w j = (
  ground (arith, find-put j p.conn_id p w.players_map),
  λ h. ground (
    arith,
    find-put j p.id p.conn_id w.online_players_map,
    find-put j p.id p.conn_id w.robots_map,
    ==ℤ_iff p.id j,
  ),
)

-- When a player has been replaced under the same user id by another object (as happens to one who
-- runs away from a game), deleting the old object takes only that object away: the user id still
-- leads to the new one, which is still found by its connection id, and so is everybody else.
pub delete_player-add_player :
    (old new : ServerPlayer) (w : World)
    → old.id ≡ new.id
    → is_positive new.id ≡ true
    → old.conn_id ≢ new.conn_id
    → let v = delete_player old (add_player new w) in
      (find_player new.id v ≡ some new.conn_id)
      × (find new.conn_id v.players_map ≡ some new)
      × (find old.conn_id v.players_map ≡ none)
      × ((j : ℤ) → j ≢ old.conn_id → find j v.players_map ≡ find j (add_player new w).players_map)
unfolding delete_player add_player find_player
delete_player-add_player old new w same user other = (
  ground (
    arith,
    find-put new.id new.id new.conn_id w.online_players_map,
    find-put old.id new.id new.conn_id w.online_players_map,
    ==ℤ_iff new.id new.id,
    ==ℤ_iff new.conn_id old.conn_id,
  ),
  ground (
    arith,
    find-put new.conn_id new.conn_id new w.players_map,
    find-erase new.conn_id old.conn_id (put new.conn_id new w.players_map),
    ==ℤ_iff new.conn_id new.conn_id,
    ==ℤ_iff old.conn_id new.conn_id,
  ),
  ground (
    arith,
    find-erase old.conn_id old.conn_id (put new.conn_id new w.players_map),
    ==ℤ_iff old.conn_id old.conn_id,
  ),
  λ j h.
      ground (
        arith,
        find-erase j old.conn_id (put new.conn_id new w.players_map),
        ==ℤ_iff old.conn_id j,
      ),
)

-- A player that is added and deleted again leaves the maps without an entry for the object, whether
-- user or robot.
pub delete_player_self :
    (p : ServerPlayer) (w : World)
    → p.id ≢ pos 0
    → let v = delete_player p (add_player p w) in
      (find_player p.id v ≡ none) × (find p.conn_id v.players_map ≡ none)
unfolding delete_player add_player find_player
delete_player_self p w h = (
  ground (
    arith,
    find-put p.id p.id p.conn_id w.online_players_map,
    find-erase p.id p.id (put p.id p.conn_id w.online_players_map),
    find-erase p.id p.id (put p.id p.conn_id w.robots_map),
    ==ℤ_iff p.id p.id,
    ==ℤ_iff p.conn_id p.conn_id,
  ),
  ground (
    arith,
    find-erase p.conn_id p.conn_id (put p.conn_id p w.players_map),
    ==ℤ_iff p.conn_id p.conn_id,
  ),
)
