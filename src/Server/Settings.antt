-- ===== src/Server/Settings.antt =====
-- `Room::setSettings` of src/server/room/room.cpp: game mode and password stand in a map that
-- libcbor loads from the settings. A pair of the map is given by its key and its value, where they
-- are text.
pub mod Order
use Prim.Native.String.{String}
use text.Mathlib.Text.{starts_with}
use freekill_asio.Base.{
  ℕ, suc, Bool, true, false, List, [], ◌∷◌, Option, none, some, if◌then◌else◌, leb,
}

pub record Pair : Type 0 where
  pub key : Option String
  pub value : Option String

pub record Found : Type 0 where
  pub game_mode : String
  pub password : String
  pub iter : ℕ

-- `strncmp` with the length of the word: a key that goes on after it is taken as well.
abbrev pub has_word : Option String → String → Bool
has_word none word = false
has_word (some key) word = starts_with key word

abbrev pub set_mode : Option String → Found → Found
set_mode none f = f
set_mode (some v) f = record f { game_mode = v; iter = suc f.iter }

abbrev pub set_password : Option String → Found → Found
set_password none f = f
set_password (some v) f = record f { password = v; iter = suc f.iter }

abbrev pub read_pair : Pair → Found → Found
read_pair p f =
    if has_word p.key "gameMode"
    then set_mode p.value f
    else if has_word p.key "password"
    then set_password p.value f
    else f

unfoldable pub read_pairs : List Pair → Found → Found
read_pairs [] f = f
read_pairs (p ∷ ps) f =
    let g = read_pair p f in let rest = read_pairs ps g in if leb 2 g.iter then g else rest

abbrev pub nothing_found : Found
nothing_found = record { game_mode = ""; password = ""; iter = 0 }

read_loaded : Option (List Pair) → Found
unfolding read_pairs
read_loaded none = nothing_found
read_loaded (some ps) = read_pairs ps nothing_found

-- The game mode and the password; both are empty where the settings are no map.
unfoldable pub read_settings : (String → Option (List Pair)) → String → String × String
unfolding read_loaded
read_settings cbor_load settings =
    let f = read_loaded (cbor_load settings) in (f.game_mode, f.password)
