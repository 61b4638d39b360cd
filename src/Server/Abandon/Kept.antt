-- ===== src/Server/Abandon/Kept.antt =====
-- When a room goes away.
use freekill_asio.Base.{◌≡◌, ℤ, true, false, List}
use freekill_asio.Base.Map.{find, contains}
use freekill_asio.Server.World.{World, is_online_conn}

-- No player in the room has a socket; observers do not count.
unfoldable pub IsEmptied : List ℤ → World → Type 0
IsEmptied conns w =
    (conn : ℤ) → contains conn conns ≡ true → is_online_conn (find conn w.players_map) ≡ false
