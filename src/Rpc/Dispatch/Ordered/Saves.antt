-- ===== src/Rpc/Dispatch/Ordered/Saves.antt =====
-- The save states are in no map.
use Prim.Native.String.{String}
use freekill_asio.Base.{Bool, true, false, Option, none, some}
use freekill_asio.Server.World.{World, ServerPlayer, Room, Event, Wake}
use freekill_asio.Rpc.Dispatch.Saves.{
  query_if, room_of_player, save_in, load_in, save_state, get_save_state, save_global_state,
  get_global_save_state, base_save_global_state, base_get_global_save_state,
}
use freekill_asio.Server.Sound.{IsSound, sound, tell-IsSound}

pub query_if-IsSound :
    (b : Bool) (e : Event) (k : Wake) (w : World) → IsSound w → IsSound (query_if b e k w)
query_if-IsSound true e k w s = tell-IsSound _ w s
query_if-IsSound false e k w s = tell-IsSound _ w s

save_in-IsSound :
    (p : ServerPlayer) (k : Wake) (o : Option Room) (w : World)
    → IsSound w
    → IsSound (save_in p k o w)
unfolding save_in
save_in-IsSound p k none w s = tell-IsSound _ w s
save_in-IsSound p k (some r) w s = query_if-IsSound _ _ _ w s

pub save_state-IsSound :
    (p : ServerPlayer) (k : Wake) (w : World) → IsSound w → IsSound (save_state p k w)
unfolding save_state
save_state-IsSound p k w s = search (sound, save_in-IsSound) depth 12

load_in-IsSound :
    (p : ServerPlayer) (k : Wake) (o : Option Room) (w : World)
    → IsSound w
    → IsSound (load_in p k o w)
unfolding load_in
load_in-IsSound p k none w s = tell-IsSound _ w s
load_in-IsSound p k (some r) w s = query_if-IsSound _ _ _ w s

pub get_save_state-IsSound :
    (p : ServerPlayer) (k : Wake) (w : World) → IsSound w → IsSound (get_save_state p k w)
unfolding get_save_state
get_save_state-IsSound p k w s = load_in-IsSound p k (room_of_player p w) w s

pub save_global_state-IsSound :
    (p : ServerPlayer) (key : String) (k : Wake) (w : World)
    → IsSound w
    → IsSound (save_global_state p key k w)
unfolding save_global_state
save_global_state-IsSound p key k w s = search (sound, query_if-IsSound) depth 12

pub get_global_save_state-IsSound :
    (p : ServerPlayer) (key : String) (k : Wake) (w : World)
    → IsSound w
    → IsSound (get_global_save_state p key k w)
unfolding get_global_save_state
get_global_save_state-IsSound p key k w s = query_if-IsSound _ _ _ w s

pub base_save_global_state-IsSound :
    (key : String) (k : Wake) (w : World) → IsSound w → IsSound (base_save_global_state key k w)
unfolding base_save_global_state
base_save_global_state-IsSound key k w s = query_if-IsSound _ _ _ w s

pub base_get_global_save_state-IsSound :
    (key : String) (k : Wake) (w : World) → IsSound w → IsSound (base_get_global_save_state key k w)
unfolding base_get_global_save_state
base_get_global_save_state-IsSound key k w s = query_if-IsSound _ _ _ w s
