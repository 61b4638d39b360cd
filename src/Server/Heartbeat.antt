-- ===== src/Server/Heartbeat.antt =====
-- One beat of `Server::heartbeat` of src/server/server.cpp, which comes every 30 seconds.
pub mod Kept
use freekill_asio.Base.{
  ℤ, negsuc, Bool, false, not, ◌&&◌, List, [], ◌∷◌, ◌++◌, Option, none, some, if◌then◌else◌,
  is_positive, ◌+ℤ◌,
}
use freekill_asio.Base.Map.{find}
use freekill_asio.Server.World.{World, ServerPlayer, set_player, tell, do_notify, is_online}
use freekill_asio.Server.Game.{with_player}
use freekill_asio.Server.Connection.{kick_all}

-- Online, and too many beats without an answer.
abbrev is_expired : Option ServerPlayer → Bool
is_expired none = false
is_expired (some p) = is_online p && not (is_positive p.ttl)

-- `to_delete`, as connection ids
unfoldable pub expired : List (ℤ × ℤ) → World → List ℤ
expired [] w = []
expired ((id, conn) ∷ ps) w =
    let rest = expired ps w in if is_expired (find conn w.players_map) then conn ∷ rest else rest

-- `p->ttl--`, and the packet "Heartbeat"
unfoldable pub beat : ServerPlayer → World → World
beat p w =
    if is_online p
    then tell (do_notify p "Heartbeat") (set_player (record p { ttl = p.ttl +ℤ negsuc 0 }) w)
    else w

unfoldable pub beat_all : List (ℤ × ℤ) → World → World
unfolding beat
beat_all [] w = w
beat_all ((id, conn) ∷ ps) w = beat_all ps (with_player conn beat w)

module _ (drained : ServerPlayer → Bool) where
  -- One turn of the loop of `Server::heartbeat`
  unfoldable pub heartbeat : World → World
  unfolding expired beat_all kick_all
  heartbeat w =
      let v = kick_all drained (expired w.online_players_map w) w in beat_all v.online_players_map v
