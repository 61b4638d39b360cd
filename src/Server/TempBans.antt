-- ===== src/Server/TempBans.antt =====
-- Bans for a time of `Server` in src/server/server.cpp: the list of addresses, and the timers that
-- shorten it.
use Prim.Native.String.{String}
use text.Mathlib.Text.{◌==◌ as str_eq}
use text.Mathlib.TextEquality.{eq_iff}
use text.Mathlib.TextPositions.{eq_refl}
use freekill_asio.Base.{
  ℕ, suc, ◌+◌, ◌-◌, ◌≤◌, ltb, ℤ, ◌≡◌, refl, sym, subst, ◌∙◌, Bool, true, false, List, [], ◌∷◌, ◌++◌,
  Option, none, some, if◌then◌else◌, Bool-cases, Option-cases, inl, inr, arith,
}
use freekill_asio.Server.World.{World, ServerPlayer}
use freekill_asio.Server.Connection.{kick}
use freekill_asio.Server.Users.{find_player}
use freekill_asio.Server.Auth.{Row, field, Libraries, joined}
use freekill_asio.Server.Auth.Setup.{is_temp_banned}
use freekill_asio.Server.Auth.Enter.{Login, found_player}
use freekill_asio.Server.Shell.Bans.{first_row}

-- The end of a timer: the first entry of the address goes.
unfoldable pub ban_ended : String → List String → List String
ban_ended address [] = []
ban_ended address (a ∷ as_banned) =
    let rest = ban_ended address as_banned in if str_eq a address then as_banned else a ∷ rest

module _ {Db : Type 0} (x : Libraries Db) (peer_address : ℤ → String)
    (drained : ServerPlayer → Bool) where
  -- Where a player's connection comes from, or came from at the last login.
  unfoldable pub address_of : ServerPlayer → Option ℤ → Db → Option String
  address_of p (some socket) db = some (peer_address socket)
  address_of p none db = last_ip (
      first_row (
        x.select (joined ("SELECT lastLoginIp FROM userinfo WHERE id=" ∷ x.show p.id ∷ ";" ∷ []))
          db))
    where
      last_ip : Option Row → Option String
      last_ip none = none
      last_ip (some obj) = some (field obj "lastLoginIp")

  ban_address_of : ServerPlayer → Option String → List String → World → List String × World
  unfolding kick
  ban_address_of p none banned w = (banned, w)
  ban_address_of p (some address) banned w = (banned ++ address ∷ [], kick drained p w)

  ban_found : Option ServerPlayer → List String → Login Db → List String × World
  unfolding address_of ban_address_of
  ban_found none banned l = (banned, l.world)
  ban_found (some p) banned l = ban_address_of p (address_of p p.socket l.db) banned l.world

  -- `Server::temporarilyBan`, without its timer
  unfoldable pub temporarily_ban : ℤ → List String → Login Db → List String × World
  unfolding ban_found find_player
  temporarily_ban id banned l = ban_found (found_player (find_player id l.world) l.world) banned l

-- How often an address is banned.
unfoldable pub ban_count : String → List String → ℕ
ban_count address [] = 0
ban_count address (a ∷ as_banned) =
    let rest = ban_count address as_banned in if str_eq a address then suc rest else rest

banned_if_counted :
    (address : String) (banned : List String)
    → is_temp_banned address banned ≡ ltb 0 (ban_count address banned)
unfolding ban_count
banned_if_counted address [] = refl
banned_if_counted address (a ∷ as_banned) = ground (arith, banned_if_counted address as_banned)

-- Two texts of which one is an address and the other is not it.
different :
    (a b address : String) → str_eq a b ≡ false → str_eq a address ≡ true → str_eq b address ≡ false
different a b address e f = elim (Bool-cases (str_eq b address)) [
  | inl g ↦
      absurd
        (ground (arith, e, (eq_iff a b).1 ((eq_iff a address).0 f ∙ sym ((eq_iff b address).0 g))))
  | inr g ↦ g
]

count-ban_ended :
    (address b : String) (banned : List String)
    → ban_count address (ban_ended b banned)
      ≡ ban_count address banned - (if str_eq b address then 1 else 0)
unfolding ban_count ban_ended
count-ban_ended address b [] = ground arith
count-ban_ended address b (a ∷ as_banned) = elim (Bool-cases (str_eq a b)) [
  | inl e ↦ rw ((eq_iff a b).0 e, eq_refl b) (ground arith)
  | inr e ↦ elim (Bool-cases (str_eq a address)) [
    | inl f ↦
        rw (e, f) (ground (arith, different a b address e f, count-ban_ended address b as_banned))
    | inr f ↦ rw (e, f) (count-ban_ended address b as_banned)
  ]
]

count-append :
    (address b : String) (banned : List String)
    → ban_count address (banned ++ b ∷ [])
      ≡ ban_count address banned + (if str_eq b address then 1 else 0)
unfolding ban_count
count-append address b [] = ground arith
count-append address b (a ∷ as_banned) = ground (arith, count-append address b as_banned)

module _ {Db : Type 0} (x : Libraries Db) (peer_address : ℤ → String)
    (drained : ServerPlayer → Bool) where
  -- What happens to the list: a player is banned, in some state of the server, or a timer ends.
  pub data Turn : Type 0 where
    banned_now : ℤ → Login Db → Turn
    timer_ended : String → Turn

  -- The list after them all
  unfoldable pub after_turns : List Turn → List String → List String
  unfolding temporarily_ban ban_ended
  after_turns [] banned = banned
  after_turns (banned_now id l ∷ ts) banned =
      after_turns ts (temporarily_ban x peer_address drained id banned l).0
  after_turns (timer_ended a ∷ ts) banned = after_turns ts (ban_ended a banned)

  -- The address that a ban of a player is for, if there is one.
  unfoldable pub target : Option ServerPlayer → Db → Option String
  unfolding address_of
  target none db = none
  target (some p) db = address_of x peer_address drained p p.socket db

  abbrev hits : String → Option String → ℕ
  hits address none = 0
  hits address (some b) = if str_eq b address then 1 else 0

  -- How many bans of the address are made, and how many timers of it end.
  unfoldable pub bans_of : String → List Turn → ℕ
  unfolding target
  bans_of address [] = 0
  bans_of address (banned_now id l ∷ ts) =
      hits address (target (found_player (find_player id l.world) l.world) l.db)
      + bans_of address ts
  bans_of address (timer_ended a ∷ ts) = bans_of address ts

  unfoldable pub ends_of : String → List Turn → ℕ
  ends_of address [] = 0
  ends_of address (banned_now id l ∷ ts) = ends_of address ts
  ends_of address (timer_ended a ∷ ts) = (if str_eq a address then 1 else 0) + ends_of address ts

  -- With so many bans of the address under way, no timer of it ends without a ban of its own.
  unfoldable pub IsTimely : String → ℕ → List Turn → Type 0
  unfolding target
  IsTimely address n [] = Unit
  IsTimely address n (banned_now id l ∷ ts) =
      IsTimely address
        (n + hits address (target (found_player (find_player id l.world) l.world) l.db)) ts
  IsTimely address n (timer_ended a ∷ ts) =
      ((if str_eq a address then 1 else 0) ≤ n)
      × IsTimely address (n - (if str_eq a address then 1 else 0)) ts

  count-ban_found :
      (address : String) (o : Option ServerPlayer) (banned : List String) (l : Login Db)
      → ban_count address (ban_found x peer_address drained o banned l).0
        ≡ ban_count address banned + hits address (target o l.db)
  unfolding ban_found ban_address_of target
  count-ban_found address none banned l = omega arith
  count-ban_found address (some p) banned l =
      elim (Option-cases (address_of x peer_address drained p p.socket l.db)) [
        | inl e ↦ rw e (omega arith)
        | inr (b, e) ↦ rw e (count-append address b banned)
      ]

  count-after_turns :
      (address : String) (ts : List Turn) (banned : List String)
      → IsTimely address (ban_count address banned) ts
      → ban_count address (after_turns ts banned) + ends_of address ts
        ≡ ban_count address banned + bans_of address ts
  unfolding after_turns bans_of ends_of IsTimely temporarily_ban
  count-after_turns address [] banned t = refl
  count-after_turns address (banned_now id l ∷ ts) banned t =
      let o = found_player (find_player id l.world) l.world in
      let e = count-ban_found address o banned l in
      ground
        (arith, e, count-after_turns address ts _ (subst (λ n. IsTimely address n ts) (sym e) t))
  count-after_turns address (timer_ended a ∷ ts) banned (le, t) =
      let e = count-ban_ended address a banned in
      ground (
        arith,
        le,
        e,
        count-after_turns address ts _ (subst (λ n. IsTimely address n ts) (sym e) t),
      )

  -- From an empty list, after whatever bans of whatever players and ends of timers in whatever
  -- order: if no timer of an address ends without a ban of its own before it, the address is banned
  -- exactly if more bans of it were made than timers of it have ended.
  pub is_temp_banned-after_turns :
      (address : String) (ts : List Turn)
      → IsTimely address 0 ts
      → is_temp_banned address (after_turns ts []) ≡ ltb (ends_of address ts) (bans_of address ts)
  unfolding ban_count
  is_temp_banned-after_turns address ts t =
      banned_if_counted address (after_turns ts [])
      ∙ ground (arith, count-after_turns address ts [] t)
