-- ===== src/Server/Steps.antt =====
-- The steps of the server, one handler at a time, and the states that they lead to.
pub mod Examples
mod Tests
mod ShellTests
use Prim.Native.String.{String}
use text.Mathlib.Text.{◌==◌ as str_eq}
use freekill_asio.Base.{
  ℕ, not, Bool, if◌then◌else◌, ℤ, pos, ◌≡◌, ◌∙◌, sym, ap, refl, true, false, List, [], ◌∷◌, Option,
  none, some, is_negative, if_cases, leb, length, arith,
}
use freekill_asio.Base.Map.{find}
use freekill_asio.Network.Builder.{Packet}
use freekill_asio.Task.{Task}
use freekill_asio.Rpc.Packet.{RpcPacket, handle_request}
use freekill_asio.Rpc.Dispatch.Methods.{lookup, server_rpc_methods}
use freekill_asio.Rpc.Dispatch.InOrder.{handle_request-IsSound}
use freekill_asio.Server.World.{World, ServerPlayer, Room, CheckAbandonReason, tell}
use freekill_asio.Server.Users.{add_player, after_conn_id}
use freekill_asio.Server.Connection.{tell_few}
use freekill_asio.Server.Leave.Owner.{IsKeyed}
use freekill_asio.Server.Game.{remove_reject_id}
use freekill_asio.Server.Game.Over.{game_over}
use freekill_asio.Server.Abandon.{
  check_abandoned, increase_ref_count, decrease_ref_count, add_npc, remove_npc,
}
use freekill_asio.Server.Threads.{release_room}
use freekill_asio.Server.Lobby.{lobby_check_abandoned}
use freekill_asio.Server.Connection.{on_disconnected, reconnect}
use freekill_asio.Server.Heartbeat.{heartbeat}
use freekill_asio.Server.Heartbeat.Kept.{heartbeat-IsSound}
use freekill_asio.Server.Refresh.{refresh_md5}
use freekill_asio.Server.Auth.{Libraries, Visit}
use freekill_asio.Server.Auth.Setup.{Setup}
use freekill_asio.Server.Auth.Enter.{Login, player_of, enter_lobby, create_new_player}
use freekill_asio.Server.Packets.{Readers, Context, on_notification}
use freekill_asio.Server.Admin.{server_stat}
use freekill_asio.Server.Admin.Http.{
  HttpConfig, Request, HttpResponse, Route, api_help, list_players, list_rooms, list_packages,
  show_stat, run_route, routed, check_auth, answer_request,
}
use freekill_asio.Server.Shell.{handle_line, ran}
use freekill_asio.Server.Shell.Times.{Clock}
use freekill_asio.Server.Shell.Lines.{handle_line-IsSound}
use freekill_asio.Server.Packets.Kept.{on_notification-IsSound}
use freekill_asio.Server.Sound.{IsSound, IsFine, same_maps, tell-IsSound, add_player-IsSound}
use freekill_asio.Server.Sound.Rooms.{lobby_add_player-IsSound}
use freekill_asio.Server.Sound.Games.{remove_reject_id-IsSound, game_over-IsSound}
use freekill_asio.Server.Sound.Ends.{
  check_abandoned-IsSound, increase_ref_count-IsSound, decrease_ref_count-IsSound, add_npc-IsSound,
  remove_npc-IsSound, on_disconnected-IsSound, reconnect-IsSound, tell_few-IsSound,
}
use freekill_asio.Server.Sound.Lobbies.{
  refresh_threads-IsSound, release_room-IsSound, lobby_check_abandoned-IsSound, refresh_md5-IsSound,
}

-- What timers, posted functions, Lua, the ends of connections and the administration do to the world, whichever
-- objects and rooms they are about.
pub data Inner : World → World → Type 0 where
  disconnected : {w : World} (p : ServerPlayer) → Inner w (on_disconnected p w)
  -- a user whose game goes on comes back over another connection
  reconnected :
      {w : World} (p : ServerPlayer) (socket : ℤ)
      → is_negative p.id ≡ false
      → Inner w (reconnect p socket w)
  rejection_over : {w : World} (id : ℤ) (r : Room) → Inner w (remove_reject_id id r w)
  room_checked :
      {w : World} (reason : CheckAbandonReason) (r : Room) → Inner w (check_abandoned reason r w)
  lobby_checked : {w : World} → Inner w (lobby_check_abandoned w)
  counted_up : {w : World} (r : Room) → Inner w (increase_ref_count r w)
  counted_down : {w : World} (r : Room) → Inner w (decrease_ref_count r w)
  game_ended : {w : World} (time : ServerPlayer → ℤ) (r : Room) → Inner w (game_over time r w)
  npc_added : {w : World} (r : Room) → Inner w (add_npc r w).0
  npc_removed : {w : World} (p : ServerPlayer) (r : Room) → Inner w (remove_npc p r w)
  room_released : {w : World} (r : Room) → Inner w (release_room r w)
  refreshed :
      {w : World} (drained : ServerPlayer → Bool) (md5 : String)
      → Inner w (refresh_md5 drained md5 w)
  -- the timer of 30 seconds
  beaten : {w : World} (drained : ServerPlayer → Bool) → Inner w (heartbeat drained w)
  http_asked :
      {w : World} (bytes_of : String → List ℕ) (c : HttpConfig) (r : Request)
      → Inner w (answer_request bytes_of c r w).1

run_route-IsSound :
    (expose : Bool) (t : Route) (w : World) → IsSound w → IsSound (run_route expose t w).1
unfolding run_route server_stat
run_route-IsSound expose api_help w s = s
run_route-IsSound expose list_players w s = s
run_route-IsSound expose list_rooms w s = s
run_route-IsSound expose list_packages w s = s
run_route-IsSound expose show_stat w s = refresh_threads-IsSound w s

routed-IsSound :
    (bytes_of : String → List ℕ) (expose : Bool) (o : Option Route) (method path : String)
    (w : World)
    → IsSound w
    → IsSound (routed bytes_of expose o method path w).1
unfolding routed
routed-IsSound bytes_of expose none method path w s = s
routed-IsSound bytes_of expose (some t) method path w s = run_route-IsSound expose t w s

answer_request-IsSound :
    (bytes_of : String → List ℕ) (c : HttpConfig) (r : Request) (w : World)
    → IsSound w
    → IsSound (answer_request bytes_of c r w).1
unfolding answer_request
answer_request-IsSound bytes_of c r w s =
    if_cases (λ (a : HttpResponse × World). IsSound a.1) (str_eq r.method "OPTIONS") (λ _. s)
      (λ _.
        if_cases (λ (a : HttpResponse × World). IsSound a.1) (not (check_auth c r)) (λ _. s)
          (λ _. routed-IsSound bytes_of c.expose_room_password _ r.method _ w s))

IsFine-user : (o : Option ℤ) (id : ℤ) → is_negative id ≡ false → IsFine o id
unfolding IsFine
IsFine-user o id h e = h

Inner-IsSound : {w v : World} → Inner w v → IsSound w → IsSound v
Inner-IsSound (disconnected {w = w} p) s = on_disconnected-IsSound p w s
Inner-IsSound (reconnected {w = w} p socket h) s =
    reconnect-IsSound p socket w (IsFine-user (some socket) p.id h) s
Inner-IsSound (rejection_over {w = w} id r) s = remove_reject_id-IsSound id r w s
Inner-IsSound (room_checked {w = w} reason r) s = check_abandoned-IsSound reason r w s
Inner-IsSound (lobby_checked {w = w}) s = lobby_check_abandoned-IsSound w s
Inner-IsSound (counted_up {w = w} r) s = increase_ref_count-IsSound r w s
Inner-IsSound (counted_down {w = w} r) s = decrease_ref_count-IsSound r w s
Inner-IsSound (game_ended {w = w} time r) s = game_over-IsSound time r w s
Inner-IsSound (npc_added {w = w} r) s = add_npc-IsSound r w s
Inner-IsSound (npc_removed {w = w} p r) s = remove_npc-IsSound p r w s
Inner-IsSound (room_released {w = w} r) s = release_room-IsSound r w s
Inner-IsSound (refreshed {w = w} drained md5) s = refresh_md5-IsSound drained md5 w s
Inner-IsSound (beaten {w = w} drained) s = heartbeat-IsSound drained w s
Inner-IsSound (http_asked {w = w} bytes_of c r) s = answer_request-IsSound bytes_of c r w s

enter_lobby-IsSound :
    (p : ServerPlayer) (w : World) → IsFine p.socket p.id → IsSound w → IsSound (enter_lobby p w)
unfolding enter_lobby
enter_lobby-IsSound p w f s = lobby_add_player-IsSound p _ f (
    tell-IsSound _ _
      (add_player-IsSound p _ f (same_maps (tell_few w) _ refl refl refl (tell_few-IsSound w s))))

module _ {Db J : Type 0} (x : Libraries Db) (d : Readers J) where
  -- One handler of the main thread. Ids that the data base gives out are not negative.
  pub data Step : Login Db → Login Db → Type 0 where
    packet :
        {l : Login Db} (c : Context) (k : Packet) (conn : ℤ) (p : ServerPlayer) (m : Login Db)
        → find conn l.world.players_map ≡ some p
        → on_notification x d c k p l ≡ some m
        → Step l m
    logged_in :
        {l : Login Db} (v : Visit) (s : Setup) (avatar : String) (id : ℤ)
        → is_negative id ≡ false
        → Step l (create_new_player x v s avatar id l)
    -- a line of the shell after which the server goes on
    typed :
        {l : Login Db} (k : Clock) (words_of : String → List String) (line : Option String)
        (m : Login Db)
        → handle_line x k words_of line l ≡ ran (some m)
        → Step l m
    within :
        {l : Login Db} (w : World) (db : Db)
        → Inner l.world w
        → Step l (record { db = db; world = w })
    -- a request of Lua
    called :
        {l : Login Db} (player_object : ServerPlayer → String) (task_object : Task → String)
        (room_object : Room → ℤ → List String → String) (game_time : ServerPlayer → ℤ)
        (q : RpcPacket)
        → Step l (record l {
          world =
              (handle_request
                (lookup (server_rpc_methods player_object task_object room_object game_time))
                q
                l.world).0;
        })

  -- The states that a server reaches from one without users, rooms and threads.
  pub data Reached : Login Db → Type 0 where
    started :
        (l : Login Db)
        → l.world.players_map ≡ []
        → l.world.rooms ≡ []
        → l.world.threads ≡ []
        → Reached l
    next : {l m : Login Db} → Step l m → Reached l → Reached m

  Step-IsSound : {l m : Login Db} → Step l m → IsSound l.world → IsSound m.world
  unfolding create_new_player
  Step-IsSound (packet {l = l} c k conn p m h e) s =
      on_notification-IsSound x d c k p l m (s.players_fine conn p h) s e
  Step-IsSound (logged_in {l = l} v t avatar id h) s =
      enter_lobby-IsSound (player_of x v t avatar id l) l.world (IsFine-user (some v.socket) id h) s
  Step-IsSound (typed {l = l} k words_of line m e) s = handle_line-IsSound x k words_of line l m s e
  Step-IsSound (within {l = l} w db i) s = Inner-IsSound i s
  Step-IsSound (called {l = l} a b c g q) s = handle_request-IsSound l.world s q a b c g

  -- In every state that a server reaches, each object, room and thread stands under its own id, and
  -- no robot has a socket.
  pub Reached-IsSound : {l : Login Db} → Reached l → IsSound l.world
  unfolding find
  Reached-IsSound (started l a b c) = record {
    players_keyed = λ j p h. absurd (ground (arith, h, a));
    players_fine = λ j p h. absurd (ground (arith, h, a));
    rooms_keyed = λ j p h. absurd (ground (arith, h, b));
    threads_keyed = λ j p h. absurd (ground (arith, h, c));
  }
  Reached-IsSound (next t r) = Step-IsSound t (Reached-IsSound r)

  Reached-IsKeyed : {l : Login Db} → Reached l → IsKeyed l.world
  unfolding IsKeyed IsFine
  Reached-IsKeyed r j p h =
      let s = Reached-IsSound r in (IsSound.players_keyed s j p h, IsSound.players_fine s j p h)
