-- ===== src/Server/Rates.antt =====
-- The rates of `Room` in src/server/room/room.cpp: games won, lost and drawn, and runs, which stand
-- in the data base, and the record of a player that they make.
use Prim.Native.String.{String}
use freekill_asio.Base.{
  ℤ, pos, Bool, not, ◌||◌, List, [], ◌∷◌, Option, none, some, if◌then◌else◌, ◌==ℤ◌, ==ℤ_iff,
  is_negative, ◌≡◌, ◌≢◌, refl, arith,
}
use freekill_asio.Base.Map.{find, contains}
use freekill_asio.Util.SqlText.{check_string}
use freekill_asio.Task.{increment}
use freekill_asio.Server.World.{
  World, ServerPlayer, robot, Room, set_player, tell, do_broadcast_notify,
}
use freekill_asio.Server.Users.{find_player}
use freekill_asio.Server.Room.{same_state}
use freekill_asio.Server.Auth.{Row, field, Libraries, joined}
use freekill_asio.Server.Auth.Enter.{Login, found_player}
use freekill_asio.Server.Shell.Bans.{first_row}

-- Games won, lost and drawn.
pub record Tally : Type 0 where
  pub win : ℤ
  pub lose : ℤ
  pub draw : ℤ

abbrev one_more_if : Bool → ℤ → ℤ
one_more_if b n = if b then increment n else n

-- A tally with one more game: 1 is a win, 2 a loss, 3 a draw, and anything else counts nowhere.
unfoldable pub tally_after : ℤ → Tally → Tally
tally_after result t = record {
  win = one_more_if (result ==ℤ pos 1) t.win;
  lose = one_more_if (result ==ℤ pos 2) t.lose;
  draw = one_more_if (result ==ℤ pos 3) t.draw;
}

module _ {Db : Type 0} (x : Libraries Db) where
  unfoldable pub tally_of : Option Row → Tally
  tally_of none = record { win = pos 0; lose = pos 0; draw = pos 0 }
  tally_of (some obj) = record {
    win = x.atoi (field obj "win");
    lose = x.atoi (field obj "lose");
    draw = x.atoi (field obj "draw");
  }

  -- How a tally is written: over the row that is there, or as a new one.
  abbrev pub set_sql : String → Tally → List String → String
  set_sql table t place = joined (
      "UPDATE "
      ∷ table
      ∷ " SET win = "
      ∷ x.show t.win
      ∷ ", lose = "
      ∷ x.show t.lose
      ∷ ", draw = "
      ∷ x.show t.draw
      ∷ " WHERE "
      ∷ joined place
      ∷ [])

  abbrev pub insert_sql : String → List String → Tally → String
  insert_sql head values t = joined (
      head
      ∷ joined values
      ∷ ", "
      ∷ x.show t.win
      ∷ ", "
      ∷ x.show t.lose
      ∷ ", "
      ∷ x.show t.draw
      ∷ ");"
      ∷ [])

  unfoldable pub tally_sql : String → String → List String → List String → ℤ → Option Row → String
  unfolding tally_after tally_of
  tally_sql table head place values result none =
      insert_sql head values (tally_after result (tally_of none))
  tally_sql table head place values result (some obj) =
      set_sql table (tally_after result (tally_of (some obj))) place

  abbrev find_sql : String → List String → String
  find_sql table place =
      joined ("SELECT win, lose, draw FROM " ∷ table ∷ " WHERE " ∷ joined place ∷ [])

  abbrev pub player_place : ℤ → String → String → List String
  player_place id mode role =
      "id = " ∷ x.show id ∷ " and mode = '" ∷ mode ∷ "' and role = '" ∷ role ∷ "';" ∷ []

  unfoldable pub player_row : ℤ → String → String → Db → Option Row
  player_row id mode role db =
      first_row (x.select (find_sql "pWinRate" (player_place id mode role)) db)

  unfoldable pub write_player_rate : ℤ → String → String → ℤ → Db → Db
  unfolding tally_sql player_row
  write_player_rate id mode role result db =
      x.exec
        (tally_sql "pWinRate" "INSERT INTO pWinRate (id, mode, role, win, lose, draw) VALUES ("
          (player_place id mode role) (x.show id ∷ ", '" ∷ mode ∷ "', '" ∷ role ∷ "'" ∷ []) result
          (player_row id mode role db))
        db

  -- `updateGeneralWinRate`
  unfoldable pub update_general_win_rate : String → String → String → ℤ → Db → Db
  unfolding check_string tally_sql
  update_general_win_rate general mode role result db =
      let place =
        "general = '" ∷ general ∷ "' and mode = '" ∷ mode ∷ "' and role = '" ∷ role ∷ "';" ∷ [] in
      if not (check_string general) || not (check_string mode)
      then db
      else x.exec
          (tally_sql "gWinRate"
            "INSERT INTO gWinRate (general, mode, role, win, lose, draw) VALUES (" place
            ("'" ∷ general ∷ "', '" ∷ mode ∷ "', '" ∷ role ∷ "'" ∷ []) result
            (first_row (x.select (find_sql "gWinRate" place) db)))
          db

  abbrev run_row : ℤ → String → Db → Option Row
  run_row id mode db = first_row (
      x.select
        (joined
          ("SELECT run FROM runRate WHERE id = " ∷ x.show id ∷ " and mode = '" ∷ mode ∷ "';" ∷ []))
        db)

  run_sql_of : ℤ → String → Option Row → String
  run_sql_of id mode none =
      joined
        ("INSERT INTO runRate (id, mode, run) VALUES (" ∷ x.show id ∷ ", '" ∷ mode ∷ "', 1);" ∷ [])
  run_sql_of id mode (some obj) = joined (
      "UPDATE runRate SET run = "
      ∷ x.show (increment (x.atoi (field obj "run")))
      ∷ " WHERE id = "
      ∷ x.show id
      ∷ " and mode = '"
      ∷ mode
      ∷ "';"
      ∷ [])

  -- `addRunRate`
  unfoldable pub add_run_rate : ℤ → String → Db → Db
  unfolding run_sql_of
  add_run_rate id mode db = x.exec (run_sql_of id mode (run_row id mode db)) db

  abbrev number_in : Option Row → String → ℤ
  number_in none key = pos 0
  number_in (some obj) key = x.atoi (field obj key)

  -- The record of a player in a mode.
  abbrev pub with_game_data : ServerPlayer → String → Db → ServerPlayer
  with_game_data p mode db =
      let rate = first_row (
        x.select
          (joined (
            "SELECT win, total FROM pWinRateView WHERE id = "
            ∷ x.show p.id
            ∷ " and mode = '"
            ∷ mode
            ∷ "';"
            ∷ []))
          db) in
      record p {
        total_games = number_in rate "total";
        win_count = number_in rate "win";
        run_count = number_in (run_row p.id mode db) "run";
      }

  unfoldable pub show_record : ServerPlayer → String → Option Room → Login Db → Login Db
  show_record p mode none l = l
  show_record p mode (some r) l = if same_state p.state robot then l else record l {
    world =
        tell (do_broadcast_notify r.players "UpdateGameData" l.world)
          (set_player (with_game_data p mode l.db) l.world);
  }

  abbrev room_of_found : ServerPlayer → World → Option Room
  room_of_found p w = if p.room_id ==ℤ pos 0 then none else find p.room_id w.rooms

  unfoldable pub game_data_of : String → Option ServerPlayer → Login Db → Login Db
  unfolding show_record
  game_data_of mode none l = l
  game_data_of mode (some p) l = show_record p mode (room_of_found p l.world) l

  -- `updatePlayerGameData`
  unfoldable pub update_player_game_data : ℤ → String → Login Db → Login Db
  unfolding game_data_of find_player
  update_player_game_data id mode l =
      if is_negative id
      then l
      else game_data_of mode (found_player (find_player id l.world) l.world) l

  unfoldable pub after_rate : ℤ → String → Room → Option ServerPlayer → Login Db → Login Db
  unfolding update_player_game_data
  after_rate id mode r none l = l
  after_rate id mode r (some p) l =
      if contains p.conn_id r.players
      then update_player_game_data id mode
          (record l { world = set_player (record p { last_game_mode = mode }) l.world })
      else l

  -- `updatePlayerWinRate`
  unfoldable pub update_player_win_rate : ℤ → String → String → ℤ → Room → Login Db → Login Db
  unfolding check_string write_player_rate after_rate find_player
  update_player_win_rate id mode role result r l =
      if not (check_string mode)
      then l
      else after_rate id mode r (found_player (find_player id l.world) l.world)
          (record l { db = write_player_rate id mode role result l.db })

-- A result of 1, 2 or 3 counts one game in exactly one place, and another result none.
pub tally_after_lem :
    (result : ℤ) (t : Tally)
    → let c = tally_after result t in
      (result ≡ pos 1 → c ≡ record t { win = increment t.win })
      × (result ≡ pos 2 → c ≡ record t { lose = increment t.lose })
      × (result ≡ pos 3 → c ≡ record t { draw = increment t.draw })
      × (result ≢ pos 1 → result ≢ pos 2 → result ≢ pos 3 → c ≡ t)
unfolding tally_after
tally_after_lem result t = (
  λ e. rw e refl,
  λ e. rw e refl,
  λ e. rw e refl,
  λ a b c.
      ground
        (arith, a, b, c, ==ℤ_iff result (pos 1), ==ℤ_iff result (pos 2), ==ℤ_iff result (pos 3)),
)
