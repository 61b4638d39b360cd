-- ===== src/Server/Auth/Created.antt =====
-- A connection becomes a new user only by a login that has passed every check.
use freekill_asio.Base.{
  ℕ, ◌≡◌, ◌≢◌, refl, ℤ, true, List, [], ◌∷◌, ◌++◌, drop, Option, none, some, Bool-cases,
  Option-cases, inl, inr, arith,
}
use freekill_asio.Network.Builder.{Packet}
use freekill_asio.Server.World.{World, ServerPlayer, signup_cancelled, kicked, do_notify, tell}
use freekill_asio.Server.Connection.{next_conn_id-reconnect}
use freekill_asio.Server.Users.{find_player}
use freekill_asio.Server.Auth.{Row, Libraries, Config, Visit, field}
use freekill_asio.Server.Auth.Setup.{Setup, is_setup, is_valid, reset, read_setup, load_setup_data}
use freekill_asio.Server.Auth.Password.{BanExpire, expired, forever, until, get_ban_expire}
use freekill_asio.Server.Auth.Enter.{
  Login, found_player, take_over, check_hash, after_ban, after_query, check_password, check_md5,
  check_uuid, check_login, enter, process_new_connection, update_user_login_data,
}
use freekill_asio.Server.Auth.Admitted.{IsAdmitted, check_login-IsAdmitted, queried, secret}

abbrev pub next_of : {Db : Type 0} → Login Db → ℤ
next_of l = go l.world
  where
    go : World → ℤ
    go w = w.next_conn_id

module _ {Db : Type 0} (x : Libraries Db) (v : Visit) (s : Setup) where
  next-take_over :
      (row : Row) (p : Option ServerPlayer) (l : Login Db)
      → next_of (take_over x v s row p l).1 ≡ next_of l
  unfolding take_over update_user_login_data
  next-take_over row none l = refl
  next-take_over row (some p) l = ground (
    arith,
    next_conn_id-reconnect p v.socket l.world,
    next_conn_id-reconnect p v.socket
        (tell (do_notify p "ErrorDlg" ++ kicked p.conn_id ∷ []) l.world),
  )

  next-check_hash :
      (pw : List ℕ) (row : Row) (l : Login Db) → next_of (check_hash x v s pw row l).1 ≡ next_of l
  unfolding check_hash
  next-check_hash pw row l = ground (
    arith,
    next-take_over row (found_player (find_player (x.atoi (field row "id")) l.world) l.world) l,
  )

  next-after_ban :
      (pw : List ℕ) (row : Row) (l : Login Db) (b : BanExpire)
      → next_of (after_ban x v s pw row l b).1 ≡ next_of l
  unfolding after_ban
  next-after_ban pw row l expired = next-check_hash pw row l
  next-after_ban pw row l forever = refl
  next-after_ban pw row l (until t) = refl

  next-after_query :
      (pw : List ℕ) (row : Row) (l : Login Db) → next_of (after_query x v s pw row l).1 ≡ next_of l
  unfolding after_query
  next-after_query pw row l =
      let (ban, db) = get_ban_expire x v row l.db in
      ground (arith, next-check_hash pw row l, next-after_ban pw row (record l { db = db }) ban)

  next-check_login : (c : Config) (l : Login Db) → next_of (check_login x c v s l).1 ≡ next_of l
  unfolding check_login check_uuid check_md5 check_password
  next-check_login c l = ground (
    arith,
    next-after_query (drop 32 (secret x c v s l)) (queried x c v s l).0
        (record l { db = (queried x c v s l).1 }),
  )

  next-load_setup_data :
      (p : Packet) (w : World) → (load_setup_data x v p s w).2.next_conn_id ≡ w.next_conn_id
  unfolding load_setup_data
  next-load_setup_data p w = ground arith

module _ {Db : Type 0} (x : Libraries Db) (c : Config) (v : Visit) where
  -- The login once the signup timer is cancelled, on which the checks run.
  abbrev pub checked : Login Db → Login Db
  checked l = record l { world = tell (signup_cancelled v.socket ∷ []) l.world }

  -- A connection whose first packet leads to a new connection id, which only a new user has, has sent
  -- a setup message with five texts, and its login has passed every check.
  pub process_new_connection-IsAdmitted :
      (p : Packet) (s : Setup) (l : Login Db)
      → let r = process_new_connection x c v p s l in
        next_of r.1 ≢ next_of l
        → (is_setup p ≡ true)
          × (is_valid r.0 ≡ true)
          × (obj : Row) × IsAdmitted x c v r.0 (checked l) obj
  unfolding process_new_connection load_setup_data enter
  process_new_connection-IsAdmitted p s l h =
      let t = read_setup x 6 p.cbor_data reset in
      let k = next-check_login x v t c (checked l) in
      elim (Bool-cases (is_setup p)) [
        | inl e ↦ elim (Bool-cases (is_valid t)) [
          | inl f ↦ elim (Option-cases (check_login x c v t (checked l)).0) [
            | inl n ↦ absurd (h (rw (e, f, n) k))
            | inr (obj, n) ↦
                rw (e, f) (refl, f, obj, check_login-IsAdmitted x c v t (checked l) obj n)
          ]
          | inr f ↦ absurd (h (rw (e, f) refl))
        ]
        | inr e ↦ absurd (h (rw e refl))
      ]
