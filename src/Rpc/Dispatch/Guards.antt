-- ===== src/Rpc/Dispatch/Guards.antt =====
-- The guards at the head of every dispatcher: the number of parameters, their kinds, and whether the
-- object that is meant exists.
use Prim.Native.String.{String}
use freekill_asio.Base.{ℕ, ℤ, Bool, true, false, Option, none, some, ◌==◌, if◌then◌else◌}
use freekill_asio.Rpc.Packet.{RpcPacket, Param, int, int64, view, boolean, null, Outcome, returned}
use freekill_asio.Server.World.{World}

abbrev pub Handler : Type 0
Handler = World → World × Outcome

abbrev pub refuse : Handler
refuse w = (w, returned false null)

abbrev pub missing : String → Handler
missing what w = (w, returned false (view what))

abbrev pub succeed : World → World × Outcome
succeed w = (w, returned true null)

abbrev pub give : Param → World → World × Outcome
give v w = (w, returned true v)

-- `std::holds_alternative`, and the value
abbrev pub on_int : Param → (ℤ → Handler) → Handler
on_int (int n) f = f n
on_int _ f = refuse

abbrev pub on_int64 : Param → (ℤ → Handler) → Handler
on_int64 (int64 n) f = f n
on_int64 _ f = refuse

abbrev pub on_view : Param → (String → Handler) → Handler
on_view (view s) f = f s
on_view _ f = refuse

abbrev pub on_bool : Param → (Bool → Handler) → Handler
on_bool (boolean b) f = f b
on_bool _ f = refuse

abbrev pub counting : ℕ → RpcPacket → Handler → Handler
counting n p f = if p.param_count == n then f else refuse

-- An object that is there, or else the answer without it.
abbrev pub found : {A : Type 0} → Option A → Handler → (A → Handler) → Handler
found none other f = other
found (some x) other f = f x

-- The kinds of parameters that dispatchers take.
abbrev pub one_view : RpcPacket → (String → Handler) → Handler
one_view p f = counting 1 p (on_view p.param1 f)

abbrev pub one_int : RpcPacket → (ℤ → Handler) → Handler
one_int p f = counting 1 p (on_int p.param1 f)

abbrev pub two_ints : RpcPacket → (ℤ → ℤ → Handler) → Handler
two_ints p f = counting 2 p (on_int p.param1 (λ a. on_int p.param2 (f a)))

abbrev pub int_view : RpcPacket → (ℤ → String → Handler) → Handler
int_view p f = counting 2 p (on_int p.param1 (λ a. on_view p.param2 (f a)))

abbrev pub int_bool : RpcPacket → (ℤ → Bool → Handler) → Handler
int_bool p f = counting 2 p (on_int p.param1 (λ a. on_bool p.param2 (f a)))

abbrev pub int_view_view : RpcPacket → (ℤ → String → String → Handler) → Handler
int_view_view p f =
    counting 3 p (on_int p.param1 (λ a. on_view p.param2 (λ b. on_view p.param3 (f a b))))
