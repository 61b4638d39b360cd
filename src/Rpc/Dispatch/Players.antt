-- ===== src/Rpc/Dispatch/Players.antt =====
-- The dispatchers for players, and those that write to the log.
use Prim.Native.String.{String}
use freekill_asio.Base.{ℕ, zero, suc, ℤ, Bool, true, false, ◌&&◌, [], ◌∷◌, if◌then◌else◌}
use freekill_asio.Base.Map.{find}
use freekill_asio.Rpc.Packet.{RpcPacket, Param, view, boolean, thrown}
use freekill_asio.Rpc.Dispatch.Guards.{
  Handler, refuse, missing, succeed, give, found, one_view, one_int, int_view, int_bool,
  int_view_view, counting, on_int, on_int64, on_view,
}
use freekill_asio.Rpc.Dispatch.Saves.{
  save_state, get_save_state, save_global_state, get_global_save_state, wake_of_player,
}
use freekill_asio.Server.World.{
  World, ServerPlayer, online, kicked, request_sent, set_player, tell, do_notify,
}
use freekill_asio.Server.Room.{same_state}

-- `qDebug`, `qInfo`, `qWarning` and `qCritical`; the log is not part of the state.
unfoldable pub log_line : RpcPacket → Handler
log_line p = one_view p (λ s w. succeed w)

abbrev is_view : Param → Bool
is_view (view s) = true
is_view _ = false

-- Whether the first `n` parameters are text; beyond the fifth nothing is read.
abbrev pub are_views : ℕ → RpcPacket → Bool
are_views zero p = true
are_views (suc zero) p = is_view p.param1
are_views (suc (suc zero)) p = is_view p.param1 && is_view p.param2
are_views (suc (suc (suc zero))) p = is_view p.param1 && is_view p.param2 && is_view p.param3
are_views (suc (suc (suc (suc zero)))) p =
    is_view p.param1 && is_view p.param2 && is_view p.param3 && is_view p.param4
are_views (suc (suc (suc (suc (suc n))))) p =
    is_view p.param1 && is_view p.param2 && is_view p.param3 && is_view p.param4 && is_view p.param5

-- `print`, the only dispatcher without a guard: `std::get` throws on another kind.
unfoldable pub print : RpcPacket → Handler
print p w =
    if are_views p.param_count p then succeed w else (w, thrown "std::get: wrong index for variant")

-- `ServerPlayer::doRequest`; the router's part of it stands in Network.Router.
unfoldable pub do_request : ServerPlayer → String → ℤ → ℤ → World → World
do_request q command timeout timestamp w =
    if same_state q.state online
    then tell (request_sent q.conn_id command timeout timestamp ∷ []) w
    else w

unfoldable pub player_do_request : RpcPacket → Handler
unfolding do_request
player_do_request p = counting 5 p (
    on_int p.param1 (λ conn. on_view p.param2 (λ command. on_view p.param3 (λ d.
      on_int p.param4 (λ timeout. on_int64 p.param5 (λ stamp w.
        found (find conn w.players_map) (missing "Player not found")
          (λ q v. succeed (do_request q command timeout stamp v)) w))))))

unfoldable pub player_do_notify : RpcPacket → Handler
player_do_notify p = int_view_view p (λ conn command d w.
    found (find conn w.players_map) (missing "Player not found")
      (λ q v. succeed (tell (do_notify q command) v)) w)

unfoldable pub player_thinking : RpcPacket → Handler
player_thinking p = one_int p (λ conn w.
    found (find conn w.players_map) (missing "Player not found") (λ q. give (boolean q.thinking)) w)

unfoldable pub player_set_thinking : RpcPacket → Handler
player_set_thinking p = int_bool p (λ conn b w.
    found (find conn w.players_map) (missing "Player not found")
      (λ q v. succeed (set_player (record q { thinking = b }) v)) w)

unfoldable pub player_set_died : RpcPacket → Handler
player_set_died p = int_bool p (λ conn b w.
    found (find conn w.players_map) (missing "Player not found")
      (λ q v. succeed (set_player (record q { died = b }) v)) w)

unfoldable pub player_emit_kick : RpcPacket → Handler
player_emit_kick p = one_int p (λ conn w.
    found (find conn w.players_map) (missing "Player not found")
      (λ q v. succeed (tell (kicked q.conn_id ∷ []) v)) w)

unfoldable pub player_save_state : RpcPacket → Handler
unfolding save_state
player_save_state p = int_view p (λ conn d w.
    found (find conn w.players_map) refuse
      (λ q v. give (boolean true) (save_state q (wake_of_player q v) v)) w)

unfoldable pub player_get_save_state : RpcPacket → Handler
unfolding get_save_state
player_get_save_state p = one_int p (λ conn w.
    found (find conn w.players_map) refuse
      (λ q v. give (boolean true) (get_save_state q (wake_of_player q v) v)) w)

unfoldable pub player_save_global_state : RpcPacket → Handler
unfolding save_global_state
player_save_global_state p = int_view_view p (λ conn key d w.
    found (find conn w.players_map) refuse
      (λ q v. give (boolean true) (save_global_state q key (wake_of_player q v) v)) w)

unfoldable pub player_get_global_save_state : RpcPacket → Handler
unfolding get_global_save_state
player_get_global_save_state p = int_view p (λ conn key w.
    found (find conn w.players_map) refuse
      (λ q v. give (boolean true) (get_global_save_state q key (wake_of_player q v) v)) w)
