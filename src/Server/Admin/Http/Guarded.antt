-- ===== src/Server/Admin/Http/Guarded.antt =====
-- Who gets an answer from the administration, and what it shows.
use Prim.Native.String.{String, len, slice, ◌++◌}
use text.Mathlib.Text.{◌==◌ as str_eq, starts_with}
use text.Mathlib.TextEquality.{eq_iff, starts_with_iff}
use text.Mathlib.TextPositions.{eq_refl, len-append, slice-append_right, starts_with-append}
use freekill_asio.Base.{
  ℕ, pos, negsuc, ◌≡◌, refl, ap, sym, ◌∙◌, subst, ◌⊎◌, inl, inr, true, false, ◌&&◌, List, Option,
  none, some, Bool-cases, arith,
}
use freekill_asio.Server.World.{World, Room}
use freekill_asio.Server.Admin.{ls_players, server_stat}
use freekill_asio.Server.Admin.{conns_of}
use freekill_asio.Server.Admin.Masked.{infos_of_same, with_passwords, ls_room_info_masked}
use freekill_asio.Server.Admin.Http.{
  from_admin_result, rooms, HttpConfig, Request, bearer, check_auth, Route, api_help, list_players,
  list_rooms, list_packages, show_stat, run_route, room_by_id, without_route, routed, unauthorized,
  answer_request,
}

behind_prefix : (u : String) → slice ("Bearer " ++ u) 7 (len ("Bearer " ++ u)) ≡ u
behind_prefix u =
    ap (slice ("Bearer " ++ u) 7) (len-append "Bearer " u) ∙ slice-append_right "Bearer " u

-- A value of the header is accepted exactly if it is the token behind "Bearer ".
pub bearer_iff :
    (c : HttpConfig) (o : Option String)
    → (bearer c o ≡ true → o ≡ some ("Bearer " ++ c.token))
      × (o ≡ some ("Bearer " ++ c.token) → bearer c o ≡ true)
unfolding bearer
bearer_iff c none = (λ h. absurd (ground (arith, h)), λ h. absurd (ground (arith, h)))
bearer_iff c (some v) = (
  λ h.
      let (u, e) = (starts_with_iff v "Bearer ").0 (ground (arith, h)) in
      let same : slice v 7 (len v) ≡ c.token =
        (eq_iff (slice v 7 (len v)) c.token).0 (ground (arith, h)) in
      ap some (
        sym e
        ∙ ap (λ t. "Bearer " ++ t) (sym (behind_prefix u) ∙ ap (λ s. slice s 7 (len s)) e ∙ same)),
  λ h.
      subst (λ (o : Option String). bearer c o ≡ true) (sym h)
        (rw (starts_with-append "Bearer " c.token, behind_prefix c.token, eq_refl c.token) refl),
)

module _ (bytes_of : String → List ℕ) where
  -- A request other than OPTIONS either holds the token behind "Bearer ", or has, whatever the state
  -- of the server, the same answer of status 401, and changes nothing.
  pub answer_request_guarded :
      (c : HttpConfig) (r : Request)
      → str_eq r.method "OPTIONS" ≡ false
      → (r.authorization ≡ some ("Bearer " ++ c.token))
        ⊎ ((w : World) → answer_request bytes_of c r w ≡ (unauthorized bytes_of, w))
  unfolding answer_request check_auth
  answer_request_guarded c r m = elim (Bool-cases (bearer c r.authorization)) [
    | inl e ↦ inl ((bearer_iff c r.authorization).0 e)
    | inr e ↦ inr (λ w. rw (m, e) refl)
  ]

  module _ (other : Room → String) (kept : (r : Room) → str_eq (other r) "" ≡ false) where
    abbrev changed : World → World
    changed w = record w { rooms = with_passwords other w.rooms }

    run_route_masked :
        (t : Route) (w : World) → (run_route false t (changed w)).0 ≡ (run_route false t w).0
    unfolding run_route from_admin_result ls_players server_stat
    run_route_masked api_help w = refl
    run_route_masked list_players w =
        rw (infos_of_same (conns_of w.online_players_map) w (changed w) refl) refl
    run_route_masked list_rooms w =
        ap (from_admin_result rooms) (ls_room_info_masked other kept (negsuc 0) w)
    run_route_masked list_packages w = refl
    run_route_masked show_stat w = refl

    room_by_id_masked :
        (o : Option ℕ) (w : World)
        → room_by_id bytes_of false o (changed w) ≡ room_by_id bytes_of false o w
    unfolding room_by_id
    room_by_id_masked none w = refl
    room_by_id_masked (some id) w = rw (ls_room_info_masked other kept (pos id) w) refl

    without_route_masked :
        (method path : String) (w : World)
        → without_route bytes_of false method path (changed w)
          ≡ without_route bytes_of false method path w
    unfolding without_route
    without_route_masked method path w =
        elim (Bool-cases (str_eq method "GET" && starts_with path "/api/rooms/")) [
          | inl e ↦ rw e (room_by_id_masked _ w)
          | inr e ↦ rw e refl
        ]

    routed_masked :
        (o : Option Route) (method path : String) (w : World)
        → (routed bytes_of false o method path (changed w)).0
          ≡ (routed bytes_of false o method path w).0
    unfolding routed
    routed_masked none method path w = without_route_masked method path w
    routed_masked (some t) method path w = run_route_masked t w

    -- Unless the configuration exposes them, no request has an answer that depends on the passwords
    -- of rooms: with other non-empty passwords in place of those of the rooms that have one, the
    -- answer is the same.
    pub answer_request_masked :
        (c : HttpConfig) (r : Request) (w : World)
        → c.expose_room_password ≡ false
        → (answer_request bytes_of c r (changed w)).0 ≡ (answer_request bytes_of c r w).0
    unfolding answer_request
    answer_request_masked c r w h = elim (Bool-cases (str_eq r.method "OPTIONS")) [
      | inl e ↦ rw e refl
      | inr e ↦ elim (Bool-cases (check_auth c r)) [
        | inl a ↦ rw (e, a, h) (routed_masked _ r.method _ w)
        | inr a ↦ rw (e, a) refl
      ]
    ]
