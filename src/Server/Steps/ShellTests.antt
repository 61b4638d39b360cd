-- ===== src/Server/Steps/ShellTests.antt =====
-- The shell and the administration at concrete inputs.
use Prim.Native.String.{String}
use freekill_asio.Base.{
  if◌then◌else◌, ℤ, arith, inl, inr, ltb, ◌⊎◌, ℕ, pos, ◌≡◌, refl, true, false, List, [], ◌∷◌, none,
  some,
}
use text.Mathlib.Text.{starts_with}
use freekill_asio.Util.SqlText.{check_string}
use freekill_asio.Server.World.{World}
use freekill_asio.Server.Auth.Setup.{reset}
use freekill_asio.Server.Auth.Enter.{Login, check_login}
use freekill_asio.Server.Auth.{Row, Libraries, Config}
use freekill_asio.Server.Users.{find_player}
use freekill_asio.Base.Map.{find}
use freekill_asio.Server.Shell.Bans.{user_row, ban_account, ban_row, kick_if, kick_user}
use freekill_asio.Server.Shell.Times.{
  Clock, second, undefined, seconds_of, read_until, until_of, end_of, end_after,
}
use freekill_asio.Server.Shell.Duration.{IsUnit, read_until_lem}
use freekill_asio.Server.Shell.Banned.{IsUpdating, IsLasting, ban_account-check_login}
use freekill_asio.Server.Admin.Masked.{with_passwords}
use freekill_asio.Server.Admin.Http.{HttpConfig, Request, answer_request, unauthorized}
use freekill_asio.Server.Admin.Http.Guarded.{answer_request_guarded, answer_request_masked}
use freekill_asio.Server.Auth.Setup.{is_temp_banned}
use freekill_asio.Server.TempBans.{
  Turn, banned_now, timer_ended, after_turns, ends_of, bans_of, IsTimely, target, address_of,
  is_temp_banned-after_turns,
}
use freekill_asio.Server.Steps.Examples.{
  context, visit, alice_row, libraries, alice, first_state, two_rooms,
}

abbrev clock : Clock
clock = record { now = 1700000000000000000; stol = λ text. some (pos 30, "d") }

-- Thirty days.
read_until_lem_example : read_until 1700000000000000000 (some (pos 30, "d")) ≡ second 1702592000
read_until_lem_example =
    (read_until_lem 1700000000000000000 0 (pos 30) "d").1 30 86400 refl
      (unfold IsUnit in inr (inr (inl (refl, refl)))) (omega arith)

-- A ban of 4000 months.
too_long : read_until 1700000000000000000 (some (pos 4000, "mo")) ≡ undefined
unfolding read_until until_of end_of end_after seconds_of
too_long = refl

abbrev http_config : HttpConfig
http_config = record {
  enabled = true;
  token = "t0ken";
  port = pos 8080;
  cors_origins = [];
  expose_room_password = false;
}

abbrev get_rooms : Request
get_rooms = record {
  method = "GET";
  target = "/api/rooms?all";
  authorization = some "Bearer t0ken";
  origin = none;
}

abbrev no_bytes : String → List ℕ
no_bytes s = []

answer_request_guarded_example :
    (get_rooms.authorization ≡ some "Bearer t0ken")
    ⊎ ((w : World) → answer_request no_bytes http_config get_rooms w ≡ (unauthorized no_bytes, w))
answer_request_guarded_example = answer_request_guarded no_bytes http_config get_rooms refl

answer_request_masked_example :
    (answer_request no_bytes http_config get_rooms
      (record two_rooms { rooms = with_passwords (λ r. "other") two_rooms.rooms })).0
    ≡ (answer_request no_bytes http_config get_rooms two_rooms).0
answer_request_masked_example =
    answer_request_masked no_bytes (λ r. "other") (λ r. refl) http_config get_rooms two_rooms refl

abbrev one_address : ℤ → String
one_address socket = "1.2.3.4"

abbrev with_alice : Login (List String)
with_alice = record first_state {
  world = record first_state.world {
    online_players_map = (pos 1, pos 1003) ∷ [];
    players_map = (pos 1003, alice) ∷ [];
  };
}

-- The same user is banned twice, and one of the timers has ended.
abbrev banned_twice : List (Turn libraries one_address (λ p. false))
banned_twice =
    banned_now (pos 1) with_alice
    ∷ timer_ended "5.6.7.8"
    ∷ banned_now (pos 1) with_alice
    ∷ timer_ended "1.2.3.4"
    ∷ []

is_temp_banned-after_turns_example :
    is_temp_banned "1.2.3.4" (after_turns libraries one_address (λ p. false) banned_twice [])
    ≡ ltb
        (ends_of libraries one_address (λ p. false) "1.2.3.4" banned_twice)
        (bans_of libraries one_address (λ p. false) "1.2.3.4" banned_twice)
is_temp_banned-after_turns_example =
    is_temp_banned-after_turns libraries one_address (λ p. false) "1.2.3.4" banned_twice
      (unfold IsTimely target address_of find_player find in (omega arith, (omega arith, tt)))

-- A data base with the row of one user, whom any statement bans.
abbrev rows_of : String → List String → List Row
rows_of sql [] = if starts_with sql "SELECT uid" then [] else alice_row ∷ []
rows_of sql (s ∷ ss) =
    if starts_with sql "SELECT uid" then [] else (("banned", "1") ∷ alice_row) ∷ []

abbrev one_user : Libraries (List String)
one_user = record libraries { select = rows_of }

abbrev config : Config
config = context.config

ban_account-check_login_example :
    ((check_login one_user config visit
        (record reset { name = "alice" })
        (ban_account one_user true "alice" with_alice)).0
      ≡ none)
    × ((check_login one_user config visit
          (record reset { name = "alice" })
          (ban_account one_user true "alice" with_alice)).1.db
        ≡ (ban_account one_user true "alice" with_alice).db)
ban_account-check_login_example =
    (ban_account-check_login one_user "alice" alice_row alice_row [] with_alice
        (unfold user_row check_string in refl) refl (unfold IsUpdating in refl)).2
      config visit (record reset { name = "alice" }) refl lasting
  where
    lasting :
        IsLasting one_user alice_row visit.now (ban_account one_user true "alice" with_alice).db
    lasting =
        unfold IsLasting ban_account ban_row kick_if user_row check_string kick_user in inl refl
