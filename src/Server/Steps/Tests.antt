-- ===== src/Server/Steps/Tests.antt =====
-- Packets, lines of the shell and the states that a server reaches, at concrete inputs.
use Prim.Native.String.{String}
use mathlib.Core.List.{Perm}
use freekill_asio.Base.{
  pos, ◌≡◌, refl, true, false, not, ◌&&◌, List, ◌∷◌, ◌++◌, Option, none, some, length,
}
use freekill_asio.Base.Map.{find, put, contains}
use freekill_asio.Util.Hex.{to_hex}
use freekill_asio.Server.Users.{add_player, after_conn_id}
use freekill_asio.Server.Room.{lobby_add_player}
use freekill_asio.Server.Connection.{tell_few}
use freekill_asio.Server.Auth.Setup.{reset}
use freekill_asio.Server.Auth.Password.{check_ban_word}
use freekill_asio.Server.Auth.Enter.{Login, enter_lobby, create_new_player}
use freekill_asio.Server.Packets.{on_notification, lobby_handle_packet, lobby_actions}
use freekill_asio.Server.Packets.Account.{update_password, password_sql}
use freekill_asio.Server.Packets.Account.Changed.{update_password_lem}
use freekill_asio.Server.Packets.Chat.{object, chat, is_muted, say, say_unless}
use freekill_asio.Server.Packets.Chat.Heard.{TellsThose, audience, fits, chat_heard}
use freekill_asio.Server.Packets.RoomList.{RoomRow, room_list}
use freekill_asio.Server.Packets.RoomList.Whole.{all_rows, AllShow, room_list_lem}
use freekill_asio.Server.Sound.{IsSound}
use freekill_asio.Server.Steps.{Reached, started, next, logged_in, packet, Reached-IsSound}
use freekill_asio.Server.Steps.Examples.{
  libraries, readers, context, first_state, visit, chat_packet, alice, entered, two_rooms,
}

alice_is_in : find (pos 1003) entered.world.players_map ≡ some alice
unfolding entered create_new_player find enter_lobby add_player lobby_add_player tell_few
    after_conn_id put contains
alice_is_in = refl

abbrev or_else : Login (List String) → Option (Login (List String)) → Login (List String)
or_else l none = l
or_else l (some m) = m

unfoldable heard : Login (List String)
unfolding on_notification entered
heard = or_else entered (on_notification libraries readers context chat_packet alice entered)

chat_is_heard : on_notification libraries readers context chat_packet alice entered ≡ some heard
unfolding heard on_notification lobby_handle_packet lobby_actions chat say_unless is_muted say
chat_is_heard = refl

entered-IsReached : Reached libraries readers entered
unfolding entered
entered-IsReached =
    next (logged_in visit reset "liubei" (pos 1) refl) (started first_state refl refl refl)

heard_in_order : IsSound heard.world
heard_in_order = Reached-IsSound libraries readers (
    next (packet context chat_packet (pos 1003) alice heard alice_is_in chat_is_heard)
      entered-IsReached)

not_muted : is_muted libraries context.stoll (pos 1000) alice entered.db ≡ some (false, entered.db)
unfolding is_muted entered
not_muted = refl

chat_heard_example :
    (m : Login (List String)) × (chat libraries context.stoll context.config
        (pos 1000)
        (object (some (pos 1)) (some "hi"))
        alice
        none
        entered
      ≡ some m)
    × TellsThose entered.world m.world (λ j.
      check_ban_word libraries context.config.ban_words "hi"
      && not false
      && fits (pos 1) none
      && contains j (audience none entered.world))
chat_heard_example =
    chat_heard libraries context.stoll context.config (pos 1000) (pos 1) "hi" alice none entered
      false entered.db (Reached-IsSound libraries readers entered-IsReached) not_muted

room_list_lem_example :
    Perm (room_list two_rooms) (all_rows two_rooms two_rooms.rooms)
    × (length (room_list two_rooms) ≡ 2)
    × ((open_rows : List RoomRow) × (full_rows : List RoomRow) × (room_list two_rooms
          ≡ open_rows ++ full_rows)
        × AllShow false open_rows
        × AllShow true full_rows)
room_list_lem_example = room_list_lem two_rooms

update_password_lem_example :
    (update_password libraries
      (record { count = 2; old = some "a"; fresh = some "b" })
      alice
      entered).db
    ≡ password_sql libraries alice "hash" ∷ entered.db
unfolding to_hex
update_password_lem_example =
    ((update_password_lem libraries alice "a" "b" entered refl refl).1 refl).0
