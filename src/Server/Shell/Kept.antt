-- ===== src/Server/Shell/Kept.antt =====
-- The commands of the shell keep the maps of the server in order.
use Prim.Native.String.{String}
use freekill_asio.Base.{ℕ, ℤ, Bool, true, false, List, [], ◌∷◌, Option, none, some}
use freekill_asio.Server.World.{World, Room, no_human}
use freekill_asio.Server.Auth.{Row, field, Libraries}
use freekill_asio.Server.Auth.Enter.{Login}
use freekill_asio.Server.Shell.{kick_named, kick_command, msg_command, kick_users, kill_room}
use freekill_asio.Server.Shell.Bans.{
  kick_user, kick_if, user_row, ban_row, ban_account, ban_address, ban_ip_by_name, ban_device,
  ban_devices_of, ban_uuid_by_name, for_each, ban_command, unban_command, banip_command,
  ban_uuid_command,
}
use freekill_asio.Server.Shell.Times.{
  Clock, Until, invalid, undefined, second, read_until, tempban_row, tempban_until, tempban_command,
  tempmute_row, tempmute_until, tempmute_command, unmute_row, unmute_command,
}
use freekill_asio.Server.Packets.Sound.{KeepsOrder, kept, thrown}
use freekill_asio.Server.Sound.{IsSound, sound, tell-IsSound}
use freekill_asio.Server.Sound.Ends.{check_abandoned-IsSound}

kick_user-IsSound : (id : ℤ) (w : World) → IsSound w → IsSound (kick_user id w)
unfolding kick_user
kick_user-IsSound id w s = search sound depth 12

kick_named-IsSound :
    (name : String) (ps : List (ℤ × ℤ)) (w : World) → IsSound w → IsSound (kick_named name ps w)
unfolding kick_named
kick_named-IsSound name [] w s = s
kick_named-IsSound name ((id, conn) ∷ ps) w s =
    let rest = kick_named-IsSound name ps w s in search sound depth 12

pub kick_command-IsSound : (ws : List String) (w : World) → IsSound w → IsSound (kick_command ws w)
unfolding kick_command
kick_command-IsSound [] w s = s
kick_command-IsSound (name ∷ names) w s = kick_named-IsSound name w.online_players_map w s

pub msg_command-IsSound : (ws : List String) (w : World) → IsSound w → IsSound (msg_command ws w)
unfolding msg_command
msg_command-IsSound [] w s = s
msg_command-IsSound (word ∷ words) w s = tell-IsSound _ w s

kick_users-IsSound : (conns : List ℤ) (w : World) → IsSound w → IsSound (kick_users conns w)
unfolding kick_users
kick_users-IsSound [] w s = s
kick_users-IsSound (conn ∷ conns) w s = kick_users-IsSound conns _ (search sound depth 12)

pub kill_room-IsSound : (r : Room) (w : World) → IsSound w → IsSound (kill_room r w)
unfolding kill_room
kill_room-IsSound r w s = check_abandoned-IsSound no_human r _ (kick_users-IsSound r.players w s)

module _ {Db : Type 0} (x : Libraries Db) where
  kick_if-IsSound :
      (b : Bool) (id : ℤ) (l : Login Db) → IsSound l.world → IsSound (kick_if x b id l).world
  unfolding kick_if
  kick_if-IsSound true id l s = kick_user-IsSound id l.world s
  kick_if-IsSound false id l s = s

  ban_row-IsSound :
      (b : Bool) (o : Option Row) (l : Login Db) → IsSound l.world → IsSound (ban_row x b o l).world
  unfolding ban_row
  ban_row-IsSound b none l s = s
  ban_row-IsSound b (some obj) l s = kick_if-IsSound b _ _ s

  ban_account-IsSound :
      (b : Bool) (name : String) (l : Login Db)
      → IsSound l.world
      → IsSound (ban_account x b name l).world
  unfolding ban_account
  ban_account-IsSound b name l s = ban_row-IsSound b (user_row x "id" name l.db) l s

  ban_address-IsSound :
      (b : Bool) (o : Option Row) (l : Login Db)
      → IsSound l.world
      → IsSound (ban_address x b o l).world
  unfolding ban_address kick_if
  ban_address-IsSound b none l s = s
  ban_address-IsSound true (some obj) l s = kick_user-IsSound (x.atoi (field obj "id")) l.world s
  ban_address-IsSound false (some obj) l s = s

  ban_ip_by_name-IsSound :
      (b : Bool) (name : String) (l : Login Db)
      → IsSound l.world
      → IsSound (ban_ip_by_name x b name l).world
  unfolding ban_ip_by_name
  ban_ip_by_name-IsSound b name l s =
      ban_address-IsSound b (user_row x "id, lastLoginIp" name l.db) l s

  ban_device-IsSound :
      (b : Bool) (id : ℤ) (o : Option Row) (l : Login Db)
      → IsSound l.world
      → IsSound (ban_device x b id o l).world
  unfolding ban_device kick_if
  ban_device-IsSound b id none l s = s
  ban_device-IsSound true id (some obj) l s = kick_user-IsSound id l.world s
  ban_device-IsSound false id (some obj) l s = s

  ban_devices_of-IsSound :
      (b : Bool) (o : Option Row) (l : Login Db)
      → IsSound l.world
      → IsSound (ban_devices_of x b o l).world
  unfolding ban_devices_of
  ban_devices_of-IsSound b none l s = s
  ban_devices_of-IsSound b (some obj) l s = ban_device-IsSound b (x.atoi (field obj "id")) _ l s

  ban_uuid_by_name-IsSound :
      (b : Bool) (name : String) (l : Login Db)
      → IsSound l.world
      → IsSound (ban_uuid_by_name x b name l).world
  unfolding ban_uuid_by_name
  ban_uuid_by_name-IsSound b name l s = ban_devices_of-IsSound b (user_row x "id" name l.db) l s

  pub for_each-IsSound :
      (f : String → Login Db → Login Db) (names : List String) (l : Login Db)
      → ((name : String) (m : Login Db) → IsSound m.world → IsSound (f name m).world)
      → IsSound l.world
      → IsSound (for_each x f names l).world
  unfolding for_each
  for_each-IsSound f [] l g s = s
  for_each-IsSound f (name ∷ names) l g s = for_each-IsSound f names (f name l) g (g name l s)

  pub ban_command-IsSound :
      (ws : List String) (l : Login Db) → IsSound l.world → IsSound (ban_command x ws l).world
  unfolding ban_command
  ban_command-IsSound ws l s = for_each-IsSound _ ws l (ban_account-IsSound true) s

  pub unban_command-IsSound :
      (ws : List String) (l : Login Db) → IsSound l.world → IsSound (unban_command x ws l).world
  unfolding unban_command
  unban_command-IsSound ws l s =
      for_each-IsSound _ ws (for_each x (ban_account x false) ws l) (ban_uuid_by_name-IsSound false)
        (for_each-IsSound _ ws l (ban_account-IsSound false) s)

  pub banip_command-IsSound :
      (b : Bool) (ws : List String) (l : Login Db)
      → IsSound l.world
      → IsSound (banip_command x b ws l).world
  unfolding banip_command
  banip_command-IsSound b ws l s = for_each-IsSound _ ws l (ban_ip_by_name-IsSound b) s

  pub ban_uuid_command-IsSound :
      (b : Bool) (ws : List String) (l : Login Db)
      → IsSound l.world
      → IsSound (ban_uuid_command x b ws l).world
  unfolding ban_uuid_command
  ban_uuid_command-IsSound b ws l s = for_each-IsSound _ ws l (ban_uuid_by_name-IsSound b) s

  tempban_row-IsSound :
      (t : ℕ) (o : Option Row) (l : Login Db)
      → IsSound l.world
      → IsSound (tempban_row x t o l).world
  unfolding tempban_row kick_if
  tempban_row-IsSound t none l s = s
  tempban_row-IsSound t (some obj) l s = kick_user-IsSound (x.atoi (field obj "id")) l.world s

  tempban_until-KeepsOrder :
      (u : Until) (name : String) (l : Login Db)
      → IsSound l.world
      → KeepsOrder (tempban_until x u name l)
  unfolding tempban_until
  tempban_until-KeepsOrder invalid name l s = kept l s
  tempban_until-KeepsOrder undefined name l s = thrown
  tempban_until-KeepsOrder (second t) name l s =
      kept _ (tempban_row-IsSound t (user_row x "id" name l.db) l s)

  pub tempban_command-KeepsOrder :
      (k : Clock) (ws : List String) (l : Login Db)
      → IsSound l.world
      → KeepsOrder (tempban_command x k ws l)
  unfolding tempban_command
  tempban_command-KeepsOrder k (name ∷ duration ∷ []) l s =
      tempban_until-KeepsOrder (read_until k.now (k.stol duration)) name l s
  tempban_command-KeepsOrder k [] l s = kept l s
  tempban_command-KeepsOrder k (name ∷ []) l s = kept l s
  tempban_command-KeepsOrder k (name ∷ duration ∷ rest ∷ more) l s = kept l s

  tempmute_row-IsSound :
      (t : ℕ) (o : Option Row) (l : Login Db)
      → IsSound l.world
      → IsSound (tempmute_row x t o l).world
  unfolding tempmute_row
  tempmute_row-IsSound t none l s = s
  tempmute_row-IsSound t (some obj) l s = s

  tempmute_until-KeepsOrder :
      (u : Until) (name : String) (l : Login Db)
      → IsSound l.world
      → KeepsOrder (tempmute_until x u name l)
  unfolding tempmute_until
  tempmute_until-KeepsOrder invalid name l s = kept l s
  tempmute_until-KeepsOrder undefined name l s = thrown
  tempmute_until-KeepsOrder (second t) name l s =
      kept _ (tempmute_row-IsSound t (user_row x "id" name l.db) l s)

  pub tempmute_command-KeepsOrder :
      (k : Clock) (ws : List String) (l : Login Db)
      → IsSound l.world
      → KeepsOrder (tempmute_command x k ws l)
  unfolding tempmute_command
  tempmute_command-KeepsOrder k (name ∷ duration ∷ []) l s =
      tempmute_until-KeepsOrder (read_until k.now (k.stol duration)) name l s
  tempmute_command-KeepsOrder k [] l s = kept l s
  tempmute_command-KeepsOrder k (name ∷ []) l s = kept l s
  tempmute_command-KeepsOrder k (name ∷ duration ∷ rest ∷ more) l s = kept l s

  unmute_row-IsSound :
      (o : Option Row) (l : Login Db) → IsSound l.world → IsSound (unmute_row x o l).world
  unfolding unmute_row
  unmute_row-IsSound none l s = s
  unmute_row-IsSound (some obj) l s = s

  pub unmute_command-IsSound :
      (ws : List String) (l : Login Db) → IsSound l.world → IsSound (unmute_command x ws l).world
  unfolding unmute_command
  unmute_command-IsSound ws l s =
      for_each-IsSound _ ws l (λ name m. unmute_row-IsSound (user_row x "id" name m.db) m) s
