-- ===== src/Server/Auth/Password.antt =====
-- The name and the password: `queryUserInfo`, `getBanExpire` and `checkPassword`, with
-- `checkBanWord` and `nameIsInWhiteList` of src/server/server.cpp.
use Prim.Native.String.{String}
use freekill_asio.Base.{
  ℕ, ℤ, Bool, true, false, not, ◌||◌, List, [], ◌∷◌, ◌++◌, if◌then◌else◌, leb_ℤ,
}
use freekill_asio.Util.Hex.{to_hex}
use freekill_asio.Server.Auth.{Row, field, first, is_nil, Libraries, Config, Visit, quoted, joined}
use freekill_asio.Server.Auth.Setup.{Setup}

-- The text that stands for "expired" and "forever" in the code, or the time of the end.
pub data BanExpire : Type 0 where
  expired forever : BanExpire
  until : ℤ → BanExpire

module _ {Db : Type 0} (x : Libraries Db) where
  abbrev pub exec_all : List String → Db → Db
  exec_all [] db = db
  exec_all (s ∷ ss) db = exec_all ss (x.exec s db)

  abbrev pub check_ban_word : List String → String → Bool
  check_ban_word [] name = true
  check_ban_word (s ∷ ss) name =
      let rest = check_ban_word ss name in if x.find name s then false else rest

  abbrev pub name_is_in_white_list : Config → String → Db → Bool
  name_is_in_white_list c name db =
      not c.enable_whitelist
      || not (is_nil (x.select (quoted "SELECT name FROM whitelist WHERE name='" name) db))

  abbrev pub hash_of : List ℕ → String → String
  hash_of password salt = x.text_of (to_hex (x.sha256 (password ++ x.bytes_of salt)))

  abbrev find_sql : Setup → String
  find_sql s = quoted "SELECT * FROM userinfo WHERE name='" s.name

  -- A new user: the row is made, and read again for its id.
  abbrev register : Visit → Setup → List ℕ → Db → Row × Db
  register v s password db =
      let made =
        x.exec
          (joined (
            "INSERT INTO userinfo (name, password, salt, avatar, lastLoginIp, banned) VALUES ('"
            ∷ s.name
            ∷ "','"
            ∷ hash_of password v.salt
            ∷ "','"
            ∷ v.salt
            ∷ "','liubei','"
            ∷ v.peer_address
            ∷ "',FALSE);"
            ∷ []))
          db in
      let obj = first (x.select (find_sql s) made) in
      (
        obj,
        x.exec
            (joined (
              "INSERT INTO usergameinfo (id, registerTime) VALUES ("
              ∷ field obj "id"
              ∷ ", "
              ∷ x.show v.now
              ∷ ");"
              ∷ []))
            made,
      )

  unfoldable pub query_user_info : Config → Visit → Setup → List ℕ → Db → Row × Db
  query_user_info c v s password db =
      if not (is_nil (x.select (find_sql s) db))
      then (first (x.select (find_sql s) db), db)
      else if leb_ℤ c.max_players_per_device (
          x.atoi (
            field
              (first
                (x.select (quoted "SELECT COUNT() AS cnt FROM uuidinfo WHERE uuid='" s.uuid) db))
              "cnt"))
      then ([], db)
      else register v s password db

  unfoldable pub get_ban_expire : Visit → Row → Db → BanExpire × Db
  get_ban_expire v info db =
      let result =
        x.select
          (joined ("SELECT uid, expireAt FROM tempban WHERE uid=" ∷ field info "id" ∷ ";" ∷ []))
          db in
      let expire = x.atoll (field (first result) "expireAt") in
      if is_nil result
      then (forever, db)
      else if leb_ℤ expire v.now
      then (
        expired,
        exec_all
            (joined ("DELETE FROM tempban WHERE uid=" ∷ field info "id" ∷ ";" ∷ [])
              ∷ joined ("UPDATE userinfo SET banned=0 WHERE id=" ∷ field info "id" ∷ ";" ∷ [])
              ∷ [])
            db,
      )
      else (until expire, db)
