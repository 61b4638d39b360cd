-- ===== src/Server/Lobby/Create.antt =====
-- New rooms, and rooms that change.
use Prim.Native.String.{String}
use freekill_asio.Base.{
  Option, ℕ, ◌≤◌, ◌≡◌, ◌≢◌, refl, ℤ, pos, negsuc, Bool, true, false, List, [], ◌∷◌, none, some,
  ◌==ℤ◌, ==ℤ_iff, ltb, length, arith, Bool-cases, Option-cases, inl, inr, ◌⊎◌,
}
use freekill_asio.Base.Map.{find, contains, find-put}
use freekill_asio.Server.World.{World, ServerPlayer, Room, set_room, do_broadcast_notify, tell}
use freekill_asio.Server.Room.{set_ready}
use freekill_asio.Task.{increment}
use freekill_asio.Server.Room.Entering.{is_let_in}
use freekill_asio.Server.Lobby.{
  RoomFields, RoomData, set_data, to_size_t, change_room, change_to, fewer_than, read_fields,
  create_room, new_room, unready,
}
use freekill_asio.Server.Settings.{Pair}
use freekill_asio.Server.Threads.{set_thread, get_available_thread}
use freekill_asio.Server.Threads.Available.{rooms-get_available_thread}

rooms-unready : (conns : List ℤ) (w : World) → (unready conns w).rooms ≡ w.rooms
unfolding unready set_ready
rooms-unready [] w = refl
rooms-unready (conn ∷ conns) w = elim (Option-cases (find conn w.players_map)) [
  | inl e ↦ rw (unready, e) (rooms-unready conns w)
  | inr (p, e) ↦ rw (unready, e) (rooms-unready conns (set_ready false p w))
]

not_fewer : (c : ℤ) (n : ℕ) → fewer_than c n ≡ false → n ≤ to_size_t c
unfolding to_size_t
not_fewer (pos m) n h = ground (arith, h)
not_fewer (negsuc m) n h = absurd (ground (arith, h))

module _ (cbor_load : String → Option (List Pair)) where
  -- A new room has the next id, after which that of the room to come is one more, no
  -- players, and the capacity asked for, and the other rooms stay as they are; one whose name is not
  -- allowed is not made. Its creator is let in exactly if the capacity is not zero.
  pub create_room_lem :
      (allowed : String → Bool) (per_thread : ℤ) (p : ServerPlayer) (d : RoomData) (w : World)
      → let (v, made) = create_room cbor_load allowed per_thread p d w in
        (allowed d.name ≡ false → (v.rooms ≡ w.rooms) × (made ≡ none))
        × (allowed d.name ≡ true
            → (r : Room) × (made ≡ some w.next_room_id)
              × (find w.next_room_id v.rooms ≡ some r)
              × (r.id ≡ w.next_room_id)
              × (v.next_room_id ≡ increment w.next_room_id)
              × ((j : ℤ) → j ≢ w.next_room_id → find j v.rooms ≡ find j w.rooms)
              × (r.players ≡ [])
              × (r.capacity ≡ to_size_t d.capacity)
              × (is_let_in p r ≡ ltb 0 (to_size_t d.capacity)))
  unfolding create_room set_thread set_data contains
  create_room_lem allowed per_thread p d w = (
    λ h. (ground (arith, h), ground (arith, h)),
    λ h.
        let (v, t) = get_available_thread per_thread w in
        let (rooms, next) = rooms-get_available_thread per_thread w in
        let r : Room = record (set_data cbor_load d (new_room v)) {
          thread_id = t.id;
          md5 = t.md5;
        } in
        (
          r,
          ground (arith, h, next),
          ground (
            arith,
            h,
            next,
            ==ℤ_iff v.next_room_id v.next_room_id,
            find-put v.next_room_id v.next_room_id r v.rooms,
          ),
          next,
          ground (arith, h, next),
          λ j n. ground (
            arith,
            h,
            next,
            rooms,
            n,
            ==ℤ_iff v.next_room_id j,
            find-put j v.next_room_id r v.rooms,
          ),
          refl,
          refl,
          ground (arith, h),
        ),
  )

  after_change :
      (d : RoomData) (r : Room) (w : World)
      → let s = set_data cbor_load d r in
        let v = set_room s w in
        find r.id (unready r.players (tell (do_broadcast_notify r.players "ChangeRoom" v) v)).rooms
        ≡ some s
  unfolding set_data
  after_change d r w =
      let s = set_data cbor_load d r in
      let v = set_room s w in
      rw (rooms-unready r.players (tell (do_broadcast_notify r.players "ChangeRoom" v) v))
        (ground (arith, ==ℤ_iff r.id r.id, find-put r.id r.id s w.rooms))

  -- What `change_room` may make of the rooms of `w`: nothing, or a room with other data.
  abbrev pub IsRightlyChanged : RoomFields → ServerPlayer → Room → World → World → Type 0
  IsRightlyChanged f p r w v =
      (v.rooms ≡ w.rooms)
      ⊎ ((p.conn_id ≡ r.owner_conn_id)
          × (d : RoomData) × (read_fields f ≡ some d)
          × (find r.id v.rooms ≡ some (set_data cbor_load d r))
          × (length r.players ≤ (set_data cbor_load d r).capacity))

  -- Changing a room leaves the rooms as they are, or the player is the owner, the data can be read,
  -- and the room has them, with a capacity that its players do not exceed.
  pub change_room_lem :
      (f : RoomFields) (p : ServerPlayer) (r : Room) (w : World)
      → IsRightlyChanged f p r w (change_room cbor_load f p r w)
  unfolding change_room change_to set_data to_size_t
  change_room_lem f p r w = elim (Bool-cases (p.conn_id ==ℤ r.owner_conn_id)) [
    | inr e ↦ inl (ground (arith, e))
    | inl e ↦ elim (Option-cases (read_fields f)) [
      | inl n ↦ inl (rw (e, n) refl)
      | inr (d, n) ↦ elim (Bool-cases (fewer_than d.capacity (length r.players))) [
        | inl l ↦ inl (rw (e, n, l) refl)
        | inr l ↦ inr (
          ground (arith, e, ==ℤ_iff p.conn_id r.owner_conn_id),
          d,
          n,
          rw (e, n, l) (after_change d r w),
          not_fewer d.capacity (length r.players) l,
        )
      ]
    ]
  ]
