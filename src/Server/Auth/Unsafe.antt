-- ===== src/Server/Auth/Unsafe.antt =====
-- How the setup message is read, and what a login with text that may not stand in SQL leaves behind.
use Prim.Native.String.{String}
use freekill_asio.Base.{ℕ, ◌≡◌, refl, true, false, none, List, [], ◌∷◌, drop, arith}
use freekill_asio.Util.SqlText.{check_string}
use freekill_asio.Network.Buffer.{finished}
use freekill_asio.Network.Builder.{Packet}
use freekill_asio.Server.World.{World}
use freekill_asio.Server.Auth.{Libraries, Config, Visit}
use freekill_asio.Server.Auth.Setup.{Setup, is_setup, read_setup, load_setup_data}
use freekill_asio.Server.Auth.Enter.{Login, check_password, check_md5, check_uuid, check_login}

module _ {Db : Type 0} (x : Libraries Db) where
  -- The bytes start with the items whose callbacks have these texts.
  abbrev pub Decodes : List ℕ → List (List String) → Type 0
  Decodes bytes [] = Unit
  Decodes bytes (ts ∷ rest) =
      ((x.decode bytes).status ≡ finished)
      × ((x.decode bytes).text ≡ ts)
      × Decodes (drop (x.decode bytes).read bytes) rest

  -- A setup packet whose data starts with an array and five texts is read as these texts, in the
  -- order of name, password, hash, version and device, whatever was read before it.
  pub load_setup_data_lem :
      (v : Visit) (p : Packet) (s : Setup) (w : World) (name password md5 version uuid : String)
      → is_setup p ≡ true
      → Decodes p.cbor_data
          ([] ∷ (name ∷ []) ∷ (password ∷ []) ∷ (md5 ∷ []) ∷ (version ∷ []) ∷ (uuid ∷ []) ∷ [])
      → load_setup_data x v p s w ≡ (
        true,
        record {
          current_idx = 5;
          name = name;
          password = password;
          md5 = md5;
          version = version;
          uuid = uuid;
        },
        w,
      )
  unfolding load_setup_data read_setup
  load_setup_data_lem v p s w name password md5 version uuid i
        (a, a1, (b, b1, (c, c1, (d, d1, (e, e1, (f, f1, t)))))) =
      rw (i, a, a1, b, b1, c, c1, d, d1, e, e1, f, f1) refl

  check_password_unsafe :
      (c : Config) (v : Visit) (s : Setup) (l : Login Db)
      → check_string s.name ≡ false
      → ((check_password x c v s l).0 ≡ none) × ((check_password x c v s l).1.db ≡ l.db)
  unfolding check_password
  check_password_unsafe c v s l h = (ground (arith, h), ground (arith, h))

  -- No login comes of a name, or of a device's id, that is no safe text, whatever else is sent and
  -- whatever the data base holds, and the data base stays as it was. In the second case, with a
  -- version in range, the server stays as it was, too: the connection is neither told nor ended.
  pub check_login_unsafe :
      (c : Config) (v : Visit) (s : Setup) (l : Login Db)
      → (check_string s.name ≡ false
          → ((check_login x c v s l).0 ≡ none) × ((check_login x c v s l).1.db ≡ l.db))
        × (check_string s.uuid ≡ false
            → ((check_login x c v s l).0 ≡ none)
              × ((check_login x c v s l).1.db ≡ l.db)
              × (x.in_range s.version ≡ true → (check_login x c v s l).1 ≡ l))
  unfolding check_login check_uuid check_md5
  check_login_unsafe c v s l = (
    λ h. let (a, b) = check_password_unsafe c v s l h in (ground (arith, a), ground (arith, b)),
    λ h. (ground (arith, h), ground (arith, h), λ r. ground (arith, h, r)),
  )
