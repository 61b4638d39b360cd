-- ===== src/Server/Shell/Banned.antt =====
-- What a ban from the shell means for a login.
use Prim.Native.String.{String}
use freekill_asio.Base.{
  ℕ, ℤ, ◌≡◌, ◌⊎◌, refl, sym, ap, ◌∙◌, drop, Bool-cases, inl, inr, true, false, List, [], ◌∷◌,
  Option, none, some, leb_ℤ, arith,
}
use freekill_asio.Base.Map.{find}
use freekill_asio.Server.World.{World, ServerPlayer, kicked, tell}
use freekill_asio.Server.Users.{find_player}
use freekill_asio.Server.Auth.{Row, field, first, is_nil, Libraries, Config, Visit, joined, quoted}
use freekill_asio.Server.Auth.Setup.{Setup}
use freekill_asio.Server.Auth.Password.{get_ban_expire, query_user_info}
use freekill_asio.Server.Auth.Enter.{
  Login, found_player, after_query, after_ban, check_password, check_md5, check_uuid, check_login,
}
use freekill_asio.Server.Game.{with_found}
use freekill_asio.Server.Shell.Bans.{user_row, ban_account, ban_row, kick_if, kick_user}

module _ {Db : Type 0} (x : Libraries Db) where
  abbrev pub tempban_rows : Row → Db → List Row
  tempban_rows row db =
      x.select (joined ("SELECT uid, expireAt FROM tempban WHERE uid=" ∷ field row "id" ∷ ";" ∷ []))
        db

  kick_user_lem :
      (id : ℤ) (w : World)
      → ((p : ServerPlayer)
          → found_player (find_player id w) w ≡ some p
          → kick_user id w ≡ tell (kicked p.conn_id ∷ []) w)
        × (found_player (find_player id w) w ≡ none → kick_user id w ≡ w)
  unfolding kick_user
  kick_user_lem id w = by_conn (find_player id w)
    where
      by_object :
          (o : Option ServerPlayer)
          → ((p : ServerPlayer)
              → o ≡ some p
              → with_found o (λ q v. tell (kicked q.conn_id ∷ []) v) w
                ≡ tell (kicked p.conn_id ∷ []) w)
            × (o ≡ none → with_found o (λ q v. tell (kicked q.conn_id ∷ []) v) w ≡ w)
      by_object none = (λ p e. absurd (ground (arith, e)), λ _. refl)
      by_object (some q) = (λ p e. ground (arith, e), λ e. absurd (ground (arith, e)))

      by_conn :
          (o : Option ℤ)
          → ((p : ServerPlayer)
              → found_player o w ≡ some p
              → with_found o
                  (λ conn v.
                    with_found (find conn v.players_map) (λ q u. tell (kicked q.conn_id ∷ []) u) v)
                  w
                ≡ tell (kicked p.conn_id ∷ []) w)
            × (found_player o w ≡ none
                → with_found o
                    (λ conn v.
                      with_found
                        (find conn v.players_map)
                        (λ q u. tell (kicked q.conn_id ∷ []) u)
                        v)
                    w
                  ≡ w)
      by_conn none = (λ p e. absurd (ground (arith, e)), λ _. refl)
      by_conn (some conn) = by_object (find conn w.players_map)

  abbrev pub named : String → String
  named name = quoted "SELECT * FROM userinfo WHERE name='" name

  -- What the data base does with the statement of a ban: the user's row says so when it is read
  -- again.
  unfoldable pub IsUpdating : String → Row → List Row → Db → Type 0
  IsUpdating name row rest db =
      let id = x.show (x.atoi (field row "id")) in
      x.select (named name)
        (x.exec (joined ("UPDATE userinfo SET banned=" ∷ "1" ∷ " WHERE id=" ∷ id ∷ ";" ∷ [])) db)
      ≡ (("banned", "1") ∷ row) ∷ rest

  -- A temporary ban of the user is not there, or not over.
  unfoldable pub IsLasting : Row → ℤ → Db → Type 0
  IsLasting row now db =
      (is_nil (tempban_rows row db) ≡ true)
      ⊎ (leb_ℤ (x.atoll (field (first (tempban_rows row db)) "expireAt")) now ≡ false)

  not_lifted :
      (v : Visit) (s : Setup) (password : List ℕ) (row : Row) (l : Login Db)
      → IsLasting row v.now l.db
      → let q = after_query x v s password (("banned", "1") ∷ row) l in
        (q.0 ≡ none) × (q.1.db ≡ l.db)
  unfolding after_query after_ban get_ban_expire IsLasting
  not_lifted v s password row l (inl e) = (rw e refl, rw e refl)
  not_lifted v s password row l (inr e) = elim (Bool-cases (is_nil (tempban_rows row l.db))) [
    | inl n ↦ (rw n refl, rw n refl)
    | inr n ↦ (rw (n, e) refl, rw (n, e) refl)
  ]

  refused_by_password :
      (c : Config) (v : Visit) (s : Setup) (row : Row) (rest : List Row) (l : Login Db)
      → x.select (named s.name) l.db ≡ (("banned", "1") ∷ row) ∷ rest
      → IsLasting row v.now l.db
      → let q = check_password x c v s l in (q.0 ≡ none) × (q.1.db ≡ l.db)
  unfolding check_password query_user_info
  refused_by_password c v s row rest l e t =
      let password = drop 32 (x.rsa_private_decrypt s.password) in
      let (a, b) = not_lifted v s password row l t in
      (rw e (ground (arith, a)), rw e (ground (arith, b)))

  refused_at_login :
      (c : Config) (v : Visit) (s : Setup) (l : Login Db)
      → (let q = check_password x c v s l in (q.0 ≡ none) × (q.1.db ≡ l.db))
      → let q = check_login x c v s l in (q.0 ≡ none) × (q.1.db ≡ l.db)
  unfolding check_login check_uuid check_md5
  refused_at_login c v s l (a, b) = (ground (arith, a), ground (arith, b))

  -- A ban of a user who has a row kicks the user's object, if there is one. If the data base does
  -- with the statement of the ban what it says, then right after the ban no login under the user's
  -- name comes through, whatever the password, the version and the device, and none changes the
  -- data base, unless there is a temporary ban of the user that is over by the time of the login.
  pub ban_account-check_login :
      (name : String) (obj row : Row) (rest : List Row) (l : Login Db)
      → user_row x "id" name l.db ≡ some obj
      → field row "id" ≡ field obj "id"
      → IsUpdating name row rest l.db
      → let id = x.atoi (field obj "id") in
        let m = ban_account x true name l in
        ((p : ServerPlayer)
          → found_player (find_player id l.world) l.world ≡ some p
          → m.world ≡ tell (kicked p.conn_id ∷ []) l.world)
        × (found_player (find_player id l.world) l.world ≡ none → m.world ≡ l.world)
        × ((c : Config) (v : Visit) (s : Setup)
            → s.name ≡ name
            → IsLasting row v.now m.db
            → ((check_login x c v s m).0 ≡ none) × ((check_login x c v s m).1.db ≡ m.db))
  unfolding ban_account ban_row kick_if IsUpdating
  ban_account-check_login name obj row rest l e i u =
      let id = x.atoi (field obj "id") in
      let (kick, keep) = kick_user_lem id l.world in
      (
        λ p h. rw e (kick p h),
        λ h. rw e (keep h),
        λ c v s n t.
            let m = ban_account x true name l in
            let k : x.select (named name) m.db ≡ (("banned", "1") ∷ row) ∷ rest =
              rw e (rw (sym i) u) in
            refused_at_login c v s m
              (refused_by_password c v s row rest m (ap (λ j. x.select (named j) m.db) n ∙ k) t),
      )
