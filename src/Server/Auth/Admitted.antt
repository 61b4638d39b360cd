-- ===== src/Server/Auth/Admitted.antt =====
-- A user is let in only after every check.
use text.Mathlib.Text.{◌==◌ as str_eq}
use mathlib.Core.Option.{some-injective}
use freekill_asio.Base.{
  subst, ℕ, ◌<◌, ◌≡◌, refl, Bool, true, false, not, ◌||◌, List, length, leb, drop, Option, none,
  some, if◌then◌else◌, ◌⊎◌, inl, inr, Bool-cases, arith,
}
use freekill_asio.Util.SqlText.{check_string}
use freekill_asio.Server.World.{ServerPlayer, inside_game}
use freekill_asio.Server.Users.{find_player}
use freekill_asio.Server.Auth.{Row, field, is_nil, Libraries, Config, Visit, quoted}
use freekill_asio.Server.Auth.Setup.{Setup}
use freekill_asio.Server.Auth.Password.{
  expired, check_ban_word, name_is_in_white_list, hash_of, query_user_info, get_ban_expire,
  BanExpire, forever, until,
}
use freekill_asio.Server.Auth.Enter.{
  Login, found_player, take_over, check_hash, after_ban, after_query, check_password, check_md5,
  check_uuid, check_login,
}

module _ {Db : Type 0} (x : Libraries Db) (c : Config) (v : Visit) (s : Setup) (l : Login Db) where
  abbrev pub secret : List ℕ
  secret = x.rsa_private_decrypt s.password

  -- The user that the name, and the number of users of the device, lead to.
  abbrev pub queried : Row × Db
  queried = query_user_info x c v s (drop 32 secret) l.db

  -- What the checks have found of the user `obj` that is let in.
  pub record IsAdmitted (obj : Row) : Type 0 where
    pub version_in_range : x.in_range s.version ≡ true
    pub uuid_safe : check_string s.uuid ≡ true
    pub uuid_free :
        is_nil (x.select (quoted "SELECT * FROM banuuid WHERE uuid='" s.uuid) l.db) ≡ true
    pub md5_same : str_eq l.world.md5 s.md5 ≡ true
    pub name_given : str_eq s.name "" ≡ false
    pub name_safe : check_string s.name ≡ true
    pub name_allowed : check_ban_word x c.ban_words s.name ≡ true
    pub name_listed : name_is_in_white_list x c s.name l.db ≡ true
    pub secret_long : 32 < length secret
    pub is_queried : obj ≡ queried.0
    pub is_known : is_nil obj ≡ false
    pub not_banned :
        (str_eq (field obj "banned") "0" ≡ true) ⊎ ((get_ban_expire x v obj queried.1).0 ≡ expired)
    pub password_right :
        str_eq (hash_of x (drop 32 secret) (field obj "salt")) (field obj "password") ≡ true

module _ {Db : Type 0} where
  passed :
      (b : Bool) (m n : Option Row × Login Db) (obj : Row)
      → n.0 ≡ none
      → (if b then m else n).0 ≡ some obj
      → (b ≡ true) × (m.0 ≡ some obj)
  passed true m n obj z h = (refl, h)
  passed false m n obj z h = absurd (ground (arith, z, h))

  not_failed :
      (b : Bool) (m n : Option Row × Login Db) (obj : Row)
      → n.0 ≡ none
      → (if b then n else m).0 ≡ some obj
      → (b ≡ false) × (m.0 ≡ some obj)
  not_failed false m n obj z h = (refl, h)
  not_failed true m n obj z h = absurd (ground (arith, z, h))

module _ {Db : Type 0} (x : Libraries Db) (v : Visit) (s : Setup) where
  take_over_lets_in :
      (obj row : Row) (p : Option ServerPlayer) (l : Login Db)
      → (take_over x v s row p l).0 ≡ some obj
      → row ≡ obj
  unfolding take_over
  take_over_lets_in obj row none l h = some-injective _ _ h
  take_over_lets_in obj row (some p) l h =
      some-injective _ _ (not_failed (inside_game p l.world) _ _ obj refl h).1

  check_hash_lets_in :
      (secret : List ℕ) (row obj : Row) (l : Login Db)
      → (check_hash x v s secret row l).0 ≡ some obj
      → (str_eq (hash_of x secret (field row "salt")) (field row "password") ≡ true) × (row ≡ obj)
  unfolding check_hash
  check_hash_lets_in secret row obj l h =
      let (e, f) =
        passed (str_eq (hash_of x secret (field row "salt")) (field row "password")) _ _ obj refl
          h in
      (
        e,
        take_over_lets_in obj row
            (found_player (find_player (x.atoi (field row "id")) l.world) l.world) l f,
      )

  after_ban_lets_in :
      (secret : List ℕ) (row obj : Row) (l : Login Db) (b : BanExpire)
      → (after_ban x v s secret row l b).0 ≡ some obj
      → (b ≡ expired) × ((check_hash x v s secret row l).0 ≡ some obj)
  unfolding after_ban
  after_ban_lets_in secret row obj l expired h = (refl, h)
  after_ban_lets_in secret row obj l forever h = absurd (ground (arith, h))
  after_ban_lets_in secret row obj l (until t) h = absurd (ground (arith, h))

  after_query_lets_in :
      (secret : List ℕ) (row obj : Row) (l : Login Db)
      → (after_query x v s secret row l).0 ≡ some obj
      → (is_nil row ≡ false)
        × ((str_eq (field row "banned") "0" ≡ true) ⊎ ((get_ban_expire x v row l.db).0 ≡ expired))
        × (str_eq (hash_of x secret (field row "salt")) (field row "password") ≡ true)
        × (row ≡ obj)
  unfolding after_query
  after_query_lets_in secret row obj l h =
      let (n, f) = not_failed (is_nil row) _ _ obj refl h in
      elim (Bool-cases (str_eq (field row "banned") "0")) [
        | inl b ↦
            let (e, g) = check_hash_lets_in secret row obj l (ground (arith, b, f)) in
            (n, inl b, e, g)
        | inr b ↦
            let (k, f2) =
              after_ban_lets_in secret row obj (record l { db = (get_ban_expire x v row l.db).1 })
                (get_ban_expire x v row l.db).0 (ground (arith, b, f)) in
            let (e, g) =
              check_hash_lets_in secret row obj (record l { db = (get_ban_expire x v row l.db).1 })
                f2 in
            (n, inr k, e, g)
      ]

module _ {Db : Type 0} (x : Libraries Db) (c : Config) (v : Visit) (s : Setup) (l : Login Db) where
  abbrev after : Login Db
  after = record l { db = (queried x c v s l).1 }

  HasPassword : Row → Type 0
  HasPassword obj =
      (str_eq s.name "" || not (check_string s.name) || not (check_ban_word x c.ban_words s.name)
        ≡ false)
      × (name_is_in_white_list x c s.name l.db ≡ true)
      × (leb (length (secret x c v s l)) 32 ≡ false)
      × ((after_query x v s (drop 32 (secret x c v s l)) (queried x c v s l).0 after).0 ≡ some obj)

  check_password_lets_in : (obj : Row) → (check_password x c v s l).0 ≡ some obj → HasPassword obj
  unfolding check_password HasPassword
  check_password_lets_in obj h =
      let (a, e) =
        not_failed
          (str_eq s.name ""
            || not (check_string s.name)
            || not (check_ban_word x c.ban_words s.name))
          _ _ obj refl h in
      let (b, f) = not_failed (not (name_is_in_white_list x c s.name l.db)) _ _ obj refl e in
      let (d, g) = not_failed (leb (length (secret x c v s l)) 32) _ _ obj refl f in
      (a, ground (arith, b), d, g)

  IsSound : Row → Type 0
  IsSound obj =
      (x.in_range s.version ≡ true)
      × (check_string s.uuid ≡ true)
      × (is_nil (x.select (quoted "SELECT * FROM banuuid WHERE uuid='" s.uuid) l.db) ≡ true)
      × (str_eq l.world.md5 s.md5 ≡ true)
      × HasPassword obj

  check_login_lets_in : (obj : Row) → (check_login x c v s l).0 ≡ some obj → IsSound obj
  unfolding check_login check_uuid check_md5 IsSound
  check_login_lets_in obj h =
      let (a, e) = passed (x.in_range s.version) _ _ obj refl h in
      let (b, f) = not_failed (not (check_string s.uuid)) _ _ obj refl e in
      let (d, g) =
        passed (is_nil (x.select (quoted "SELECT * FROM banuuid WHERE uuid='" s.uuid) l.db)) _ _ obj
          refl f in
      let (k, m) = passed (str_eq l.world.md5 s.md5) _ _ obj refl g in
      (a, ground (arith, b), d, k, check_password_lets_in obj m)

  -- A login that gives a user has passed every check: the version is in range, the device's id is
  -- safe text and not banned, the server's hash is the client's, the name is not empty, safe text,
  -- without a forbidden word and on the white list if there is one, the secret is longer than its
  -- random part, the user is the one that the query gives, is not banned or no longer, and the rest
  -- of the secret with the user's salt has the hash that is stored.
  pub check_login-IsAdmitted :
      (obj : Row) → (check_login x c v s l).0 ≡ some obj → IsAdmitted x c v s l obj
  unfolding IsSound HasPassword
  check_login-IsAdmitted obj h =
      let (a, b, d, e, (f, g, k, m)) = check_login_lets_in obj h in
      let (n, o, q, r) =
        after_query_lets_in x v s (drop 32 (secret x c v s l)) (queried x c v s l).0 obj after m in
      subst (λ (row : Row). IsAdmitted x c v s l row) r
        (record {
          version_in_range = a;
          uuid_safe = b;
          uuid_free = d;
          md5_same = e;
          name_given = ground (arith, f);
          name_safe = ground (arith, f);
          name_allowed = ground (arith, f);
          name_listed = g;
          secret_long = ground (arith, k);
          is_queried = refl;
          is_known = n;
          not_banned = o;
          password_right = q;
        })
