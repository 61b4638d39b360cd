-- ===== src/Rpc/Dispatch/Ordered.antt =====
-- Handlers that leave the maps of the server in order if they find them so.
pub mod Saves
pub mod Calls
use Prim.Native.String.{String}
use freekill_asio.Base.{ℕ, ℤ, ◌≡◌, Bool, Option, none, some, refl, if◌then◌else◌}
use freekill_asio.Base.Map.{find}
use freekill_asio.Rpc.Packet.{RpcPacket, Param, Outcome}
use freekill_asio.Rpc.Dispatch.Guarded.{
  counting-all, on_int-all, on_int64-all, on_view-all, on_bool-all, guarded-all,
}
use freekill_asio.Rpc.Dispatch.Guards.{
  Handler, refuse, counting, on_int, on_int64, on_view, on_bool, found,
}
use freekill_asio.Server.World.{World, ServerPlayer}
use freekill_asio.Server.Sound.{IsSound, IsFine}

unfoldable pub IsOrdered : World × Outcome → Type 0
IsOrdered r = IsSound r.0

pub out-IsOrdered : (u : World) (o : Outcome) → IsSound u → IsOrdered (u, o)
unfolding IsOrdered
out-IsOrdered u o s = s

module _ (w : World) (sound : IsSound w) where
  pub counting-IsOrdered :
      (n : ℕ) (p : RpcPacket) (f : Handler) → IsOrdered (f w) → IsOrdered (counting n p f w)
  counting-IsOrdered n p f s = counting-all IsOrdered w (out-IsOrdered w _ sound) n p f s

  pub on_int-IsOrdered :
      (p : Param) (f : ℤ → Handler) → ((n : ℤ) → IsOrdered (f n w)) → IsOrdered (on_int p f w)
  on_int-IsOrdered p f s = on_int-all IsOrdered w (out-IsOrdered w _ sound) p f s

  pub on_int64-IsOrdered :
      (p : Param) (f : ℤ → Handler) → ((n : ℤ) → IsOrdered (f n w)) → IsOrdered (on_int64 p f w)
  on_int64-IsOrdered p f s = on_int64-all IsOrdered w (out-IsOrdered w _ sound) p f s

  pub on_view-IsOrdered :
      (p : Param) (f : String → Handler)
      → ((t : String) → IsOrdered (f t w))
      → IsOrdered (on_view p f w)
  on_view-IsOrdered p f s = on_view-all IsOrdered w (out-IsOrdered w _ sound) p f s

  pub on_bool-IsOrdered :
      (p : Param) (f : Bool → Handler)
      → ((b : Bool) → IsOrdered (f b w))
      → IsOrdered (on_bool p f w)
  on_bool-IsOrdered p f s = on_bool-all IsOrdered w (out-IsOrdered w _ sound) p f s

  pub guarded-IsOrdered :
      (b : Bool) (f : Handler) → IsOrdered (f w) → IsOrdered ((if b then refuse else f) w)
  guarded-IsOrdered b f s = guarded-all IsOrdered w (out-IsOrdered w _ sound) b f s

  pub found-IsOrdered :
      {A : Type 0} (o : Option A) (other : Handler) (f : A → Handler)
      → IsOrdered (other w)
      → ((x : A) → IsOrdered (f x w))
      → IsOrdered (found o other f w)
  found-IsOrdered none other f s t = s
  found-IsOrdered (some x) other f s t = t x

  -- An object that is found is fine.
  pub found_player-IsOrdered :
      (conn : ℤ) (other : Handler) (f : ServerPlayer → Handler)
      → IsOrdered (other w)
      → ((p : ServerPlayer) → IsFine p.socket p.id → IsOrdered (f p w))
      → IsOrdered (found (find conn w.players_map) other f w)
  found_player-IsOrdered conn other f s t =
      chosen (find conn w.players_map) (λ p e. t p (IsSound.players_fine sound conn p e))
    where
      chosen :
          (o : Option ServerPlayer)
          → ((p : ServerPlayer) → o ≡ some p → IsOrdered (f p w))
          → IsOrdered (found o other f w)
      chosen none g = s
      chosen (some p) g = g p refl

pub ruleset ordered = (
  out-IsOrdered, counting-IsOrdered, on_int-IsOrdered, on_int64-IsOrdered, on_view-IsOrdered,
  on_bool-IsOrdered, guarded-IsOrdered, found-IsOrdered,
)
