-- ===== src/Server/Shell/Lines.antt =====
-- A line of the shell keeps the maps of the server in order.
use Prim.Native.String.{String}
use text.Mathlib.Text.{◌==◌ as str_eq, starts_with}
use freekill_asio.Base.{
  ap, ◌≡◌, true, false, not, List, [], ◌∷◌, Option, none, some, if_cases, refl,
}
use freekill_asio.Util.SqlText.{check_string}
use freekill_asio.Server.World.{World}
use freekill_asio.Server.Lobby.{lobby_check_abandoned}
use freekill_asio.Server.Refresh.{refresh_threads}
use freekill_asio.Server.Auth.{Libraries}
use freekill_asio.Server.Auth.Enter.{Login}
use freekill_asio.Server.Packets.{handler_of}
use freekill_asio.Server.Packets.Sound.{KeepsOrder, kept, thrown, All, no-All, and-All}
use freekill_asio.Server.Shell.{
  kick_command, msg_command, msg_room_command, kill_room_command, whitelist_one, in_transaction,
  whitelist_command, reset_password_command, handler_map, run_found, run_words, LineEnd, stopped,
  crashed, ran, handle_line,
}
use freekill_asio.Server.Shell.Bans.{run_sql}
use freekill_asio.Server.Shell.Times.{Clock}
use freekill_asio.Server.Shell.Kept.{
  kick_command-IsSound, msg_command-IsSound, kill_room-IsSound, for_each-IsSound,
  ban_command-IsSound, unban_command-IsSound, banip_command-IsSound, ban_uuid_command-IsSound,
  tempban_command-KeepsOrder, tempmute_command-KeepsOrder, unmute_command-IsSound,
}
use freekill_asio.Server.Sound.{IsSound, sound}
use freekill_asio.Server.Sound.Lobbies.{lobby_check_abandoned-IsSound, refresh_threads-IsSound}

module _ {Db : Type 0} (x : Libraries Db) (k : Clock) (words_of : String → List String) where
  msg_room_command-IsSound :
      (ws : List String) (w : World) → IsSound w → IsSound (msg_room_command x k words_of ws w)
  unfolding msg_room_command
  msg_room_command-IsSound [] w s = s
  msg_room_command-IsSound (id ∷ []) w s = s
  msg_room_command-IsSound (id ∷ word ∷ words) w s = search sound depth 12

  kill_room_command-IsSound :
      (ws : List String) (w : World) → IsSound w → IsSound (kill_room_command x k words_of ws w)
  unfolding kill_room_command
  kill_room_command-IsSound [] w s = s
  kill_room_command-IsSound (id ∷ rest) w s = search (sound, kill_room-IsSound) depth 12

  whitelist_one-IsSound :
      (before after name : String) (l : Login Db)
      → IsSound l.world
      → IsSound (whitelist_one x k words_of before after name l).world
  unfolding whitelist_one
  whitelist_one-IsSound before after name l s =
      if_cases (λ (m : Login Db). IsSound m.world) (not (check_string name)) (λ _. s) (λ _. s)

  whitelist_command-IsSound :
      (ws : List String) (l : Login Db)
      → IsSound l.world
      → IsSound (whitelist_command x k words_of ws l).world
  unfolding whitelist_command in_transaction
  whitelist_command-IsSound [] l s = s
  whitelist_command-IsSound (op ∷ []) l s = s
  whitelist_command-IsSound (op ∷ name ∷ names) l s =
      let begun = run_sql x ("BEGIN;" ∷ []) l in
      if_cases (λ (m : Login Db). IsSound m.world) (str_eq op "add")
        (λ _.
          for_each-IsSound x _ (name ∷ names) begun
            (whitelist_one-IsSound "INSERT INTO whitelist VALUES ('" "');") s)
        (λ _.
          if_cases (λ (m : Login Db). IsSound m.world) (str_eq op "rm")
            (λ _.
              for_each-IsSound x _ (name ∷ names) begun
                (whitelist_one-IsSound "DELETE FROM whitelist WHERE name='" "';") s)
            (λ _. s))

  reset_password_command-IsSound :
      (ws : List String) (l : Login Db)
      → IsSound l.world
      → IsSound (reset_password_command x k words_of ws l).world
  unfolding reset_password_command
  reset_password_command-IsSound ws l s = for_each-IsSound x _ ws l (λ name m t. t) s

  abbrev CommandKeeps : (List String → Login Db → Option (Login Db)) → Type 0
  CommandKeeps f = (ws : List String) (l : Login Db) → IsSound l.world → KeepsOrder (f ws l)

  in_world-CommandKeeps :
      (f : List String → World → World)
      → ((ws : List String) (w : World) → IsSound w → IsSound (f ws w))
      → CommandKeeps (λ ws l. some (record l { world = f ws l.world }))
  in_world-CommandKeeps f g ws l s = kept _ (g ws l.world s)

  some-CommandKeeps :
      (f : List String → Login Db → Login Db)
      → ((ws : List String) (l : Login Db) → IsSound l.world → IsSound (f ws l).world)
      → CommandKeeps (λ ws l. some (f ws l))
  some-CommandKeeps f g ws l s = kept (f ws l) (g ws l s)

  handler_map-All : All CommandKeeps (handler_map x k words_of)
  unfolding handler_map
  handler_map-All =
      let kick = in_world-CommandKeeps kick_command kick_command-IsSound in
      let message = in_world-CommandKeeps msg_command msg_command-IsSound in
      let room_message =
        in_world-CommandKeeps (msg_room_command x k words_of) msg_room_command-IsSound in
      let reset =
        some-CommandKeeps (reset_password_command x k words_of) reset_password_command-IsSound in
      let stat = in_world-CommandKeeps (λ ws. refresh_threads) (λ ws. refresh_threads-IsSound) in
      and-All _ _ _ _ kick (
        and-All _ _ _ _ message (
          and-All _ _ _ _ message (
            and-All _ _ _ _ room_message (
              and-All _ _ _ _ room_message (
                and-All _ _ _ _ (some-CommandKeeps _ (ban_command-IsSound x)) (
                  and-All _ _ _ _ (some-CommandKeeps _ (unban_command-IsSound x)) (
                    and-All _ _ _ _ (some-CommandKeeps _ (banip_command-IsSound x true)) (
                      and-All _ _ _ _ (some-CommandKeeps _ (banip_command-IsSound x false)) (
                        and-All _ _ _ _ (some-CommandKeeps _ (ban_uuid_command-IsSound x true)) (
                          and-All _ _ _ _ (some-CommandKeeps _ (ban_uuid_command-IsSound x false)) (
                            and-All _ _ _ _ (tempban_command-KeepsOrder x k) (
                              and-All _ _ _ _ (tempmute_command-KeepsOrder x k) (
                                and-All _ _ _ _ (some-CommandKeeps _ (unmute_command-IsSound x)) (
                                  and-All _ _ _ _ (some-CommandKeeps _ whitelist_command-IsSound) (
                                    and-All _ _ _ _ reset (
                                      and-All _ _ _ _ reset (
                                        and-All _ _ _ _ stat (
                                          and-All _ _ _ _ stat (
                                            and-All _ _ _ _
                                              (in_world-CommandKeeps _ kill_room_command-IsSound)
                                              (and-All _ _ _ _
                                                (in_world-CommandKeeps (λ ws. lobby_check_abandoned)
                                                  (λ ws. lobby_check_abandoned-IsSound))
                                                (no-All _)))))))))))))))))))))

  run_words-KeepsOrder :
      (ws : List String) (l : Login Db) → IsSound l.world → KeepsOrder (run_words x k words_of ws l)
  unfolding run_words run_found All
  run_words-KeepsOrder [] l s = kept l s
  run_words-KeepsOrder (command ∷ ws) l s =
      found (handler_of (handler_map x k words_of) command) (λ f e. handler_map-All command f e)
    where
      found :
          (o : Option (List String → Login Db → Option (Login Db)))
          → ((f : List String → Login Db → Option (Login Db)) → o ≡ some f → CommandKeeps f)
          → KeepsOrder (run_found x k words_of o ws l)
      found none g = kept l s
      found (some f) g = g f refl ws l s

  abbrev after_line : LineEnd Db → Option (Login Db)
  after_line stopped = none
  after_line crashed = none
  after_line (ran o) = o

  -- Whatever line is typed into the shell: if the server goes on after it, the maps of the server
  -- are in order if they were before.
  pub handle_line-IsSound :
      (line : Option String) (l m : Login Db)
      → IsSound l.world
      → handle_line x k words_of line l ≡ ran (some m)
      → IsSound m.world
  unfolding handle_line
  handle_line-IsSound none l m s e = thrown m (ap after_line e)
  handle_line-IsSound (some line) l m s e =
      if_cases (λ (r : LineEnd Db). KeepsOrder (after_line r)) (starts_with line "quit")
        (λ _. thrown)
        (λ _.
          if_cases (λ (r : LineEnd Db). KeepsOrder (after_line r)) (starts_with line "crash")
            (λ _. thrown) (λ _. run_words-KeepsOrder (words_of line) l s))
        m (ap after_line e)
