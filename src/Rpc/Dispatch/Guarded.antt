-- ===== src/Rpc/Dispatch/Guarded.antt =====
-- What holds of a request that is refused, and of what the guards let through, holds behind them.
use freekill_asio.Base.{ℕ, ℤ, Bool, false, if_cases, ◌==◌, if◌then◌else◌}
use Prim.Native.String.{String}
use freekill_asio.Rpc.Packet.{
  RpcPacket, Param, int, int64, string, view, boolean, null, Outcome, returned,
}
use freekill_asio.Rpc.Dispatch.Guards.{
  Handler, refuse, counting, on_int, on_int64, on_view, on_bool,
}
use freekill_asio.Server.World.{World}

module _ (P : World × Outcome → Type 0) (w : World) (refused : P (w, returned false null)) where
  pub counting-all : (n : ℕ) (p : RpcPacket) (f : Handler) → P (f w) → P (counting n p f w)
  counting-all n p f s =
      if_cases (λ (g : Handler). P (g w)) (p.param_count == n) (λ _. s) (λ _. refused)

  pub on_int-all : (p : Param) (f : ℤ → Handler) → ((n : ℤ) → P (f n w)) → P (on_int p f w)
  on_int-all (int n) f s = s n
  on_int-all (int64 n) f s = refused
  on_int-all (string t) f s = refused
  on_int-all (view t) f s = refused
  on_int-all (boolean b) f s = refused
  on_int-all null f s = refused

  pub on_int64-all : (p : Param) (f : ℤ → Handler) → ((n : ℤ) → P (f n w)) → P (on_int64 p f w)
  on_int64-all (int n) f s = refused
  on_int64-all (int64 n) f s = s n
  on_int64-all (string t) f s = refused
  on_int64-all (view t) f s = refused
  on_int64-all (boolean b) f s = refused
  on_int64-all null f s = refused

  pub on_view-all :
      (p : Param) (f : String → Handler) → ((t : String) → P (f t w)) → P (on_view p f w)
  on_view-all (int n) f s = refused
  on_view-all (int64 n) f s = refused
  on_view-all (string t) f s = refused
  on_view-all (view t) f s = s t
  on_view-all (boolean b) f s = refused
  on_view-all null f s = refused

  pub on_bool-all : (p : Param) (f : Bool → Handler) → ((b : Bool) → P (f b w)) → P (on_bool p f w)
  on_bool-all (int n) f s = refused
  on_bool-all (int64 n) f s = refused
  on_bool-all (string t) f s = refused
  on_bool-all (view t) f s = refused
  on_bool-all (boolean b) f s = s b
  on_bool-all null f s = refused

  pub guarded-all : (b : Bool) (f : Handler) → P (f w) → P ((if b then refuse else f) w)
  guarded-all b f s = if_cases (λ (g : Handler). P (g w)) b (λ _. refused) (λ _. s)
