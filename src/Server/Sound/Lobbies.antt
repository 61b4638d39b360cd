-- ===== src/Server/Sound/Lobbies.antt =====
-- The lobby, the threads and the refresh of the hash keep the maps in order.
use Prim.Native.String.{String}
use mathlib.Core.Option.{some-injective}
use freekill_asio.Base.{
  ℕ, ℤ, pos, ◌≡◌, refl, ap, sym, subst, ◌∙◌, inl, inr, Bool, List, [], ◌∷◌, Option, none, some,
  ◌==ℤ◌, Bool-cases, arith,
}
use freekill_asio.Base.Map.{find, erase, erase_found, remove_all}
use freekill_asio.Server.World.{World, ServerPlayer, Room, RoomThread}
use freekill_asio.Server.Threads.{
  find_available, create_thread, found_or_new, get_available_thread, remove_thread,
  set_thread_entry, set_thread, thread_decrease_ref_count, release_room, thread_is_outdated,
  thread_is_full,
}
use freekill_asio.Server.Lobby.{
  RoomFields, RoomData, drop_from_lobby, lobby_check_abandoned, unready, set_data, leave_if_in,
  enter_created, join_found, join_room, change_to, change_room, create_room, create_with,
  lobby_create_room, new_room,
}
use freekill_asio.Server.Game.{with_found}
use freekill_asio.Server.Abandon.{destroy_player, offline_ones}
use freekill_asio.Server.Users.{delete_player}
use freekill_asio.Server.Lobby.Tasks.{
  Content, broken, plain, array, take_type, new_task_in, take_content, handle_task,
}
use freekill_asio.Server.Refresh.{
  room_ids, refresh_found, refresh_room, refresh_rooms, asked, to_remove, erase_all,
  refresh_threads, refresh_md5,
}
use freekill_asio.Server.Settings.{Pair}
use freekill_asio.Server.Sound.{
  IsSound, IsFine, sound, same_maps, tell-IsSound, erase-IsSound, delete_player-IsSound,
  set_thread_entry-IsSound,
}
use freekill_asio.Server.Sound.Rooms.{set_ready-IsSound, room_add_player-IsSound}
use freekill_asio.Server.Sound.Games.{add_observer-IsSound}
use freekill_asio.Server.Sound.Ends.{
  kick_all-IsSound, destroy_player-IsSound, lobby_remove_player-IsSound,
}

-- What stands in `us` stands in `ts`, if for its hash.
abbrev IsFrom : List (ℤ × RoomThread) → List (ℤ × RoomThread) → Type 0
IsFrom us ts =
    (j : ℤ) (u : RoomThread)
    → find j us ≡ some u
    → (t : RoomThread) × (find j ts ≡ some t) × (t.id ≡ u.id)

IsFrom-self : (ts : List (ℤ × RoomThread)) → IsFrom ts ts
IsFrom-self ts j u h = (u, h, refl)

more :
    (id : ℤ) (t u : RoomThread) (us ts : List (ℤ × RoomThread))
    → t.id ≡ u.id
    → IsFrom us ts
    → IsFrom ((id, u) ∷ us) ((id, t) ∷ ts)
unfolding find
more id t u us ts e k j v h = elim (Bool-cases (id ==ℤ j)) [
  | inl y ↦ (
    t,
    ground (arith, y),
    e ∙ ap (λ (x : RoomThread). x.id) (some-injective u v (ground (arith, h, y))),
  )
  | inr y ↦ let (x, f, g) = k j v (ground (arith, h, y)) in (x, ground (arith, y, f), g)
]

find_available-IsFrom :
    (md5 : String) (ts : List (ℤ × RoomThread)) → IsFrom (find_available md5 ts).0 ts
unfolding find_available
find_available-IsFrom md5 [] = IsFrom-self []
find_available-IsFrom md5 ((id, t) ∷ ts) =
    let rest = find_available-IsFrom md5 ts in
    elim (Bool-cases (thread_is_outdated md5 t)) [
      | inl y ↦ rw y (more id t _ _ ts refl rest)
      | inr y ↦ elim (Bool-cases (thread_is_full t)) [
        | inl z ↦ rw (y, z) (more id t t _ ts refl rest)
        | inr z ↦ rw (y, z) (IsFrom-self ((id, t) ∷ ts))
      ]
    ]

asked-IsFrom : (md5 : String) (ts : List (ℤ × RoomThread)) → IsFrom (asked md5 ts) ts
unfolding asked
asked-IsFrom md5 [] = IsFrom-self []
asked-IsFrom md5 ((id, t) ∷ ts) = more id t _ _ ts (ground arith) (asked-IsFrom md5 ts)

erase_all_found :
    (ids : List ℤ) (ts : List (ℤ × RoomThread)) (j : ℤ) (u : RoomThread)
    → find j (erase_all ids ts) ≡ some u
    → find j ts ≡ some u
unfolding erase_all
erase_all_found [] ts j u h = h
erase_all_found (id ∷ ids) ts j u h =
    erase_found j id u ts (erase_all_found ids (erase id ts) j u h)

other_threads :
    (us : List (ℤ × RoomThread)) (w : World)
    → IsFrom us w.threads
    → IsSound w
    → IsSound (record w { threads = us })
other_threads us w f s = record {
  players_keyed = s.players_keyed;
  players_fine = s.players_fine;
  rooms_keyed = s.rooms_keyed;
  threads_keyed = λ j u h. let (t, e, g) = f j u h in sym g ∙ s.threads_keyed j t e;
}

create_thread-IsSound :
    (capacity : ℤ) (w : World) → IsSound w → IsSound (create_thread capacity w).0
unfolding create_thread
create_thread-IsSound capacity w s =
    same_maps (set_thread_entry (create_thread capacity w).1 w) _ refl refl refl
      (set_thread_entry-IsSound (create_thread capacity w).1 w s)

found_or_new-IsSound :
    (capacity : ℤ) (o : Option RoomThread) (w : World)
    → IsSound w
    → IsSound (found_or_new capacity w o).0
unfolding found_or_new
found_or_new-IsSound capacity (some t) w s = s
found_or_new-IsSound capacity none w s = create_thread-IsSound capacity w s

get_available_thread-IsSound :
    (capacity : ℤ) (w : World) → IsSound w → IsSound (get_available_thread capacity w).0
unfolding get_available_thread
get_available_thread-IsSound capacity w s =
    found_or_new-IsSound capacity (find_available w.md5 w.threads).1 _
      (other_threads _ w (find_available-IsFrom w.md5 w.threads) s)

pub refresh_threads-IsSound : (w : World) → IsSound w → IsSound (refresh_threads w)
unfolding refresh_threads
refresh_threads-IsSound w s =
    other_threads _ w
      (λ j u h.
        asked-IsFrom w.md5 w.threads j u
          (erase_all_found (to_remove w.md5 w.threads) (asked w.md5 w.threads) j u h))
      s

set_thread-IsSound :
    (t : RoomThread) (r : Room) (w : World) → IsSound w → IsSound (set_thread t r w)
unfolding set_thread
set_thread-IsSound t r w s = search sound depth 12

remove_thread-IsSound : (id : ℤ) (w : World) → IsSound w → IsSound (remove_thread id w)
unfolding remove_thread
remove_thread-IsSound id w s =
    erase-IsSound w _ (pos 0) (pos 0) id (inl refl) (inl refl) (inr refl) s

thread_decrease_ref_count-IsSound :
    (t : RoomThread) (w : World) → IsSound w → IsSound (thread_decrease_ref_count t w)
unfolding thread_decrease_ref_count
thread_decrease_ref_count-IsSound t w s = search (sound, remove_thread-IsSound) depth 12

pub release_room-IsSound : (r : Room) (w : World) → IsSound w → IsSound (release_room r w)
unfolding release_room
release_room-IsSound r w s = search (sound, thread_decrease_ref_count-IsSound) depth 12

module _ (drained : ServerPlayer → Bool) where
  refresh_room-IsSound : (r : Room) (w : World) → IsSound w → IsSound (refresh_room drained r w)
  unfolding refresh_room
  refresh_room-IsSound r w s = let t = kick_all-IsSound drained in search (sound, t) depth 12

  refresh_found-IsSound :
      (o : Option Room) (w : World) → IsSound w → IsSound (refresh_found drained o w)
  refresh_found-IsSound none w s = s
  refresh_found-IsSound (some r) w s = refresh_room-IsSound r w s

  refresh_rooms-IsSound :
      (ids : List ℤ) (w : World) → IsSound w → IsSound (refresh_rooms drained ids w)
  unfolding refresh_rooms
  refresh_rooms-IsSound [] w s = s
  refresh_rooms-IsSound (id ∷ ids) w s =
      refresh_rooms-IsSound ids _ (refresh_found-IsSound (find id w.rooms) w s)

  pub refresh_md5-IsSound :
      (md5 : String) (w : World) → IsSound w → IsSound (refresh_md5 drained md5 w)
  unfolding refresh_md5
  refresh_md5-IsSound md5 w s =
      let t : IsSound (record w { md5 = md5 }) = same_maps w _ refl refl refl s in
      let u = refresh_rooms drained (room_ids w.rooms) (record w { md5 = md5 }) in
      kick_all-IsSound drained (refresh_threads u).lobby (refresh_threads u)
        (refresh_threads-IsSound u (refresh_rooms-IsSound (room_ids w.rooms) _ t))

dropped-IsSound :
    (conn : ℤ) (o : Option ServerPlayer) (w : World)
    → find conn w.players_map ≡ o
    → IsSound w
    → let v = with_found o delete_player w in
      IsSound (with_found o destroy_player (record v { lobby = remove_all conn v.lobby }))
dropped-IsSound conn none w e s = same_maps w _ refl refl refl s
dropped-IsSound conn (some p) w e s =
    destroy_player-IsSound p _ (s.players_fine conn p e)
      (same_maps (delete_player p w) _ refl refl refl (delete_player-IsSound p w s))

drop_from_lobby-IsSound :
    (conns : List ℤ) (w : World) → IsSound w → IsSound (drop_from_lobby conns w)
unfolding drop_from_lobby
drop_from_lobby-IsSound [] w s = s
drop_from_lobby-IsSound (conn ∷ conns) w s =
    drop_from_lobby-IsSound conns _ (dropped-IsSound conn (find conn w.players_map) w refl s)

pub lobby_check_abandoned-IsSound : (w : World) → IsSound w → IsSound (lobby_check_abandoned w)
unfolding lobby_check_abandoned
lobby_check_abandoned-IsSound w s = drop_from_lobby-IsSound (offline_ones w.lobby w) w s

unready-IsSound : (conns : List ℤ) (w : World) → IsSound w → IsSound (unready conns w)
unfolding unready
unready-IsSound [] w s = s
unready-IsSound (conn ∷ conns) w s =
    unready-IsSound conns _ (search (sound, set_ready-IsSound) depth 12)

leave_if_in-IsSound :
    (id : ℤ) (p : ServerPlayer) (w : World) → IsSound w → IsSound (leave_if_in id p w)
unfolding leave_if_in
leave_if_in-IsSound id p w s = search (sound, lobby_remove_player-IsSound) depth 12

enter_created-IsSound :
    (p : ServerPlayer) (w : World) (o : Option ℤ)
    → IsFine p.socket p.id
    → IsSound w
    → IsSound (enter_created p (w, o))
unfolding enter_created
enter_created-IsSound p w none f s = s
enter_created-IsSound p w (some id) f s =
    search (sound, leave_if_in-IsSound, room_add_player-IsSound) depth 12

join_found-IsSound :
    (observe : Bool) (pw : String) (p : ServerPlayer) (o : Option Room) (w : World)
    → IsFine p.socket p.id
    → IsSound w
    → IsSound (join_found observe pw p o w)
unfolding join_found
join_found-IsSound observe pw p none w f s = search sound depth 12
join_found-IsSound observe pw p (some r) w f s =
    search (sound, leave_if_in-IsSound, room_add_player-IsSound, add_observer-IsSound) depth 12

pub join_room-IsSound :
    (observe : Bool) (count : ℕ) (id : Option ℤ) (pw : Option String) (p : ServerPlayer) (w : World)
    → IsFine p.socket p.id
    → IsSound w
    → IsSound (join_room observe count id pw p w)
unfolding join_room
join_room-IsSound observe count none pw p w f s = s
join_room-IsSound observe count (some id) none p w f s = s
join_room-IsSound observe count (some id) (some pw) p w f s =
    search (sound, join_found-IsSound) depth 12

module _ (cbor_load : String → Option (List Pair)) where
  change_to-IsSound :
      (o : Option RoomData) (p : ServerPlayer) (r : Room) (w : World)
      → IsSound w
      → IsSound (change_to cbor_load o p r w)
  unfolding change_to
  change_to-IsSound none p r w s = s
  change_to-IsSound (some d) p r w s = search (sound, unready-IsSound) depth 12

  pub change_room-IsSound :
      (g : RoomFields) (p : ServerPlayer) (r : Room) (w : World)
      → IsSound w
      → IsSound (change_room cbor_load g p r w)
  unfolding change_room
  change_room-IsSound g p r w s = search (sound, change_to-IsSound) depth 12

  create_room-IsSound :
      (allowed : String → Bool) (per_thread : ℤ) (p : ServerPlayer) (d : RoomData) (w : World)
      → IsSound w
      → IsSound (create_room cbor_load allowed per_thread p d w).0
  unfolding create_room
  create_room-IsSound allowed per_thread p d w s = elim (Bool-cases (allowed d.name)) [
    | inl e ↦
        let (v, t) = get_available_thread per_thread w in
        rw e (
          set_thread-IsSound t (set_data cbor_load d (new_room v)) _
            (same_maps v _ refl refl refl (get_available_thread-IsSound per_thread w s)))
    | inr e ↦ rw e (tell-IsSound _ w s)
  ]

  create_with-IsSound :
      (allowed : String → Bool) (per_thread : ℤ) (o : Option RoomData) (p : ServerPlayer)
      (w : World)
      → IsFine p.socket p.id
      → IsSound w
      → IsSound (create_with cbor_load allowed per_thread o p w)
  unfolding create_with
  create_with-IsSound allowed per_thread none p w f s = s
  create_with-IsSound allowed per_thread (some d) p w f s =
      enter_created-IsSound p _ _ f (create_room-IsSound allowed per_thread p d w s)

  pub lobby_create_room-IsSound :
      (allowed : String → Bool) (per_thread : ℤ) (g : RoomFields) (p : ServerPlayer) (w : World)
      → IsFine p.socket p.id
      → IsSound w
      → IsSound (lobby_create_room cbor_load allowed per_thread g p w)
  unfolding lobby_create_room
  lobby_create_room-IsSound allowed per_thread g p w f s =
      create_with-IsSound allowed per_thread _ p w f s

module _ {ℓ} {J : Type ℓ} (from_cbor : List ℕ → Content J) (to_text : J → Option String)
    (to_cbor : J → String) where
  take_type-IsSound :
      (capacity : ℤ) (p : ServerPlayer) (o : Option String) (b : J) (w v : World)
      → IsSound w
      → take_type from_cbor to_text to_cbor capacity p o b w ≡ some v
      → IsSound v
  unfolding take_type new_task_in
  take_type-IsSound capacity p none b w v s h = absurd (ground (arith, h))
  take_type-IsSound capacity p (some t) b w v s h = subst IsSound (some-injective _ v h) (
      same_maps (get_available_thread capacity w).0 _ refl refl refl
        (get_available_thread-IsSound capacity w s))

  take_content-IsSound :
      (capacity : ℤ) (p : ServerPlayer) (c : Content J) (w v : World)
      → IsSound w
      → take_content from_cbor to_text to_cbor capacity p c w ≡ some v
      → IsSound v
  unfolding take_content
  take_content-IsSound capacity p broken w v s h = subst IsSound (some-injective w v h) s
  take_content-IsSound capacity p plain w v s h = subst IsSound (some-injective w v h) s
  take_content-IsSound capacity p (array []) w v s h = subst IsSound (some-injective w v h) s
  take_content-IsSound capacity p (array (a ∷ [])) w v s h = subst IsSound (some-injective w v h) s
  take_content-IsSound capacity p (array (a ∷ b ∷ [])) w v s h =
      take_type-IsSound capacity p (to_text a) b w v s h
  take_content-IsSound capacity p (array (a ∷ b ∷ c ∷ rest)) w v s h =
      subst IsSound (some-injective w v h) s

  pub handle_task-IsSound :
      (capacity : ℤ) (p : ServerPlayer) (bytes : List ℕ) (w v : World)
      → IsSound w
      → handle_task from_cbor to_text to_cbor capacity p bytes w ≡ some v
      → IsSound v
  unfolding handle_task
  handle_task-IsSound capacity p bytes w v s h =
      take_content-IsSound capacity p (from_cbor bytes) w v s h
