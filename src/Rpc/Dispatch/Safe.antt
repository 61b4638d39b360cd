-- ===== src/Rpc/Dispatch/Safe.antt =====
-- A call from Lua that is not answered with success changes nothing.
use Prim.Native.String.{String}
use freekill_asio.Base.{
  ℕ, ℤ, ◌≡◌, refl, Bool, true, false, Option, none, some, if◌then◌else◌, arith,
}
use freekill_asio.Rpc.Packet.{RpcPacket, Param, Outcome, returned, thrown}
use freekill_asio.Rpc.Dispatch.Guarded.{
  counting-all, on_int-all, on_int64-all, on_view-all, on_bool-all, guarded-all,
}
use freekill_asio.Rpc.Dispatch.Guards.{
  Handler, refuse, found, counting, on_int, on_int64, on_view, on_bool,
}
use freekill_asio.Server.World.{World}

abbrev pub succeeded : Outcome → Bool
succeeded (returned b v) = b
succeeded (thrown what) = false

unfoldable pub IsSafe : World → World × Outcome → Type 0
IsSafe w r = succeeded r.1 ≡ false → r.0 ≡ w

module _ (w : World) where
  pub kept-IsSafe : (o : Outcome) → IsSafe w (w, o)
  unfolding IsSafe
  kept-IsSafe o h = refl

  pub done-IsSafe : (u : World) (v : Param) → IsSafe w (u, returned true v)
  unfolding IsSafe
  done-IsSafe u v h = absurd (ground (arith, h))

  pub counting-IsSafe :
      (n : ℕ) (p : RpcPacket) (f : Handler) → IsSafe w (f w) → IsSafe w (counting n p f w)
  counting-IsSafe n p f s = counting-all (IsSafe w) w (kept-IsSafe _) n p f s

  pub on_int-IsSafe :
      (p : Param) (f : ℤ → Handler) → ((n : ℤ) → IsSafe w (f n w)) → IsSafe w (on_int p f w)
  on_int-IsSafe p f s = on_int-all (IsSafe w) w (kept-IsSafe _) p f s

  pub on_int64-IsSafe :
      (p : Param) (f : ℤ → Handler) → ((n : ℤ) → IsSafe w (f n w)) → IsSafe w (on_int64 p f w)
  on_int64-IsSafe p f s = on_int64-all (IsSafe w) w (kept-IsSafe _) p f s

  pub on_view-IsSafe :
      (p : Param) (f : String → Handler)
      → ((t : String) → IsSafe w (f t w))
      → IsSafe w (on_view p f w)
  on_view-IsSafe p f s = on_view-all (IsSafe w) w (kept-IsSafe _) p f s

  pub on_bool-IsSafe :
      (p : Param) (f : Bool → Handler) → ((b : Bool) → IsSafe w (f b w)) → IsSafe w (on_bool p f w)
  on_bool-IsSafe p f s = on_bool-all (IsSafe w) w (kept-IsSafe _) p f s

  pub guarded-IsSafe :
      (b : Bool) (f : Handler) → IsSafe w (f w) → IsSafe w ((if b then refuse else f) w)
  guarded-IsSafe b f s = guarded-all (IsSafe w) w (kept-IsSafe _) b f s

  pub found-IsSafe :
      {A : Type 0} (o : Option A) (other : Handler) (f : A → Handler)
      → IsSafe w (other w)
      → ((x : A) → IsSafe w (f x w))
      → IsSafe w (found o other f w)
  found-IsSafe none other f s t = s
  found-IsSafe (some x) other f s t = t x

pub ruleset safe = (
  kept-IsSafe, done-IsSafe, counting-IsSafe, on_int-IsSafe, on_int64-IsSafe, on_view-IsSafe,
  on_bool-IsSafe, found-IsSafe, guarded-IsSafe,
)
