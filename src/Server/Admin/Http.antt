-- ===== src/Server/Admin/Http.antt =====
-- src/server/admin/admin_http.cpp: the answer to one request of HTTP, once it has been read, and
-- when the service is started (src/server/server.cpp). The packages are left out of an answer.
pub mod Guarded
use Prim.Native.String.{String, len, slice, ◌++◌}
use text.Mathlib.Text.{◌==◌ as str_eq, starts_with, find?}
use freekill_asio.Base.{
  ℕ, suc, ◌+◌, ◌*◌, ◌-◌, ◌^◌, ℤ, pos, negsuc, Bool, true, false, not, ◌&&◌, ◌||◌, List, [], ◌∷◌,
  Option, none, some, if◌then◌else◌, ltb, leb, leb_ℤ,
}
use freekill_asio.Server.World.{World}
use freekill_asio.Server.Packets.{handler_of}
use freekill_asio.Server.Admin.{
  PlayerInfo, RoomInfo, ThreadStat, AdminResult, success, error, http_status, ls_players,
  ls_room_info, server_stat,
}

pub record HttpConfig : Type 0 where
  pub enabled : Bool
  pub token : String
  pub port : ℤ
  pub cors_origins : List String
  pub expose_room_password : Bool

pub record Request : Type 0 where
  pub method : String
  pub target : String
  pub authorization : Option String
  pub origin : Option String

pub data Body : Type 0 where
  empty help packages : Body
  players : List PlayerInfo → Body
  rooms : RoomInfo → Body
  stat : List ThreadStat × ℕ → Body
  failure : String → String → Body

pub record HttpResponse : Type 0 where
  pub status : ℕ
  pub body : Body

-- `Server::listen` starts the service only with a token and a port.
abbrev pub is_started_with : HttpConfig → Bool
is_started_with c =
    c.enabled && not (str_eq c.token "") && leb_ℤ (pos 1) c.port && leb_ℤ c.port (pos 65535)

abbrev until_query : String → Option ℕ → String
until_query target none = target
until_query target (some i) = slice target 0 i

-- `requestPath`
unfoldable pub request_path : Request → String
request_path r = until_query r.target (find? r.target "?")

abbrev pub is_digit : ℕ → Bool
is_digit b = leb 48 b && leb b 57

unfoldable pub digits_value : ℕ → List ℕ → Option ℕ
digits_value n [] = some n
digits_value n (b ∷ bs) =
    let rest = digits_value (n * 10 + (b - 48)) bs in if is_digit b then rest else none

-- Beyond 64 bits `std::stoll` throws, and the code takes no more than an `int`.
abbrev pub int_if : Option ℕ → Option ℕ
int_if none = none
int_if (some n) = if ltb n (2 ^ 31) then some n else none

-- `parseRoomId`
unfoldable pub parse_room_id : List ℕ → Option ℕ
unfolding digits_value
parse_room_id [] = none
parse_room_id (b ∷ bs) = int_if (digits_value 0 (b ∷ bs))

unfoldable pub bearer : HttpConfig → Option String → Bool
bearer c none = false
bearer c (some v) = starts_with v "Bearer " && str_eq (slice v 7 (len v)) c.token

-- `checkAuth`
unfoldable pub check_auth : HttpConfig → Request → Bool
unfolding bearer
check_auth c r = bearer c r.authorization

-- `applyCors`: the origin that the answer allows, if any.
unfoldable pub allowed_origin : List String → Option String → Option String
allowed_origin origins none = none
allowed_origin [] (some o) = none
allowed_origin (a ∷ origins) (some o) =
    let rest = allowed_origin origins (some o) in
    if str_eq a o || str_eq a "*" then some o else rest

unfoldable pub apply_cors : HttpConfig → Request → Option String
unfolding allowed_origin
apply_cors c r = allowed_origin c.cors_origins r.origin

-- The handlers of `registerRoutes`.
pub data Route : Type 0 where
  api_help list_players list_rooms list_packages show_stat : Route

abbrev pub routes : List (String × Route)
routes =
    ("GET /api", api_help)
    ∷ ("GET /api/players", list_players)
    ∷ ("GET /api/rooms", list_rooms)
    ∷ ("GET /api/packages", list_packages)
    ∷ ("GET /api/server/stat", show_stat)
    ∷ []

abbrev pub json_error : ℕ → String → String → HttpResponse
json_error status code message = record { status = status; body = failure code message }

-- `fromAdminResult`
unfoldable pub from_admin_result : {A : Type 0} → (A → Body) → AdminResult A → HttpResponse
unfolding http_status
from_admin_result show (success d) = record { status = http_status (success d); body = show d }
from_admin_result show (error code message status) = json_error status code message

unfoldable pub run_route : Bool → Route → World → HttpResponse × World
unfolding from_admin_result ls_players ls_room_info server_stat
run_route expose api_help w = (record { status = 200; body = help }, w)
run_route expose list_players w = (from_admin_result players (ls_players w), w)
run_route expose list_rooms w = (from_admin_result rooms (ls_room_info (negsuc 0) expose w), w)
run_route expose list_packages w = (record { status = 200; body = packages }, w)
run_route expose show_stat w =
    let (data_of, v) = server_stat w in (record { status = 200; body = stat data_of }, v)

unfoldable pub ends_with : String → String → Bool
ends_with s t = leb (len t) (len s) && str_eq (slice s (len s - len t) (len s)) t

unfoldable pub ends_a_route : List (String × Route) → String → Bool
unfolding ends_with
ends_a_route [] suffix = false
ends_a_route ((key, r) ∷ rs) suffix =
    let rest = ends_a_route rs suffix in if ends_with key suffix then true else rest

-- `isKnownPath`
unfoldable pub is_known_path : String → String → Bool
unfolding ends_a_route
is_known_path method path =
    ends_a_route routes (" " ++ path)
    || (not (str_eq method "GET") && starts_with path "/api/rooms/")

module _ (bytes_of : String → List ℕ) where
  unfoldable pub room_by_id : Bool → Option ℕ → World → HttpResponse
  unfolding from_admin_result ls_room_info
  room_by_id expose none w = json_error 400 "BAD_REQUEST" "Invalid room id"
  room_by_id expose (some id) w = from_admin_result rooms (ls_room_info (pos id) expose w)

  unfoldable pub without_route : Bool → String → String → World → HttpResponse
  unfolding room_by_id parse_room_id is_known_path
  without_route expose method path w =
      if str_eq method "GET" && starts_with path "/api/rooms/"
      then room_by_id expose (parse_room_id (bytes_of (slice path 11 (len path)))) w
      else if is_known_path method path
      then json_error 405 "METHOD_NOT_ALLOWED" "Method not allowed"
      else json_error 404 "NOT_FOUND" "Not found"

  unfoldable pub routed : Bool → Option Route → String → String → World → HttpResponse × World
  unfolding run_route without_route
  routed expose none method path w = (without_route expose method path w, w)
  routed expose (some r) method path w = run_route expose r w

  abbrev pub unauthorized : HttpResponse
  unauthorized = json_error 401 "UNAUTHORIZED" "Missing or invalid Authorization: Bearer <token>"

  -- The part of `session` between reading a request and writing its answer.
  unfoldable pub answer_request : HttpConfig → Request → World → HttpResponse × World
  unfolding check_auth routed request_path
  answer_request c r w =
      if str_eq r.method "OPTIONS"
      then (record { status = 204; body = empty }, w)
      else if not (check_auth c r)
      then (unauthorized, w)
      else let path = request_path r in
        routed c.expose_room_password (handler_of routes (r.method ++ (" " ++ path))) r.method path
          w
