-- ===== src/Rpc/Builder/Roundtrip.antt =====
-- A request that the server's side writes is read back by the builder.
use Prim.Native.String.{String}
use freekill_asio.Base.{
  ℕ, zero, suc, ◌^◌, ◌≤◌, ◌<◌, ◌≡◌, refl, ap, subst, ◌∙◌, ℤ, pos, negsuc, true, false, List, [],
  ◌∷◌, ◌++◌, some, to_int, to_int64, arith,
}
use freekill_asio.Rpc.Packet.{
  Param, int, int64, string, view, boolean, null, RpcPacket, reset_packet,
}
use freekill_asio.Rpc.Encode.{
  Item, uint8, uint16, uint32, uint64, negint8, negint16, negint32, negint64, byte_string,
  array_start, map_start, bool, other, value_of, Encoder, IsEncoder, to_uint64, send_param,
  send_params, send_request,
}
use freekill_asio.Rpc.Builder.{
  Builder, reading_params, wait_value, fin, new_builder, on_item, on_items, handle_integer,
  handle_integer_in, handle_bytes, handle_bytes_in, handle_bool, handle_bool_in, read_param,
  int_param, int_value, next_key, start_array, start_map, start_map_in, bytes_value,
}

-- The parameters that can be sent and read: numbers of an `int`, text, truth values.
abbrev pub IsSent : Param → Type 0
IsSent (int (pos n)) = n < 2 ^ 31
IsSent (int (negsuc n)) = n < 2 ^ 31
IsSent (string s) = Unit
IsSent (view s) = Unit
IsSent (boolean b) = Unit
IsSent (int64 n) = true ≡ false
IsSent null = true ≡ false

abbrev pub as_read : Param → Param
as_read (string s) = view s
as_read p = p

on_item-pos :
    (x : Item) (n : ℕ) (b : Builder)
    → value_of x ≡ some (pos n)
    → n < 2 ^ 63
    → on_item x b ≡ handle_integer (pos n) b
unfolding on_item to_int64
on_item-pos x n b h l = ground (arith, h, l)

to_int-pos : (n : ℕ) → n < 2 ^ 31 → to_int (pos n) ≡ pos n
unfolding to_int
to_int-pos n h = ground (arith, h)

id_sent : (z : ℤ) (n : ℕ) → z ≡ pos n → n < 2 ^ 31 → to_uint64 z ≡ n
id_sent z n h l = rw h (omega arith)

int_param-pos : (n : ℕ) → n < 2 ^ 31 → int_param (pos n) ≡ int (pos n)
unfolding int_param to_int
int_param-pos n h = ground (arith, h)

on_item-negsuc :
    (x : Item) (n : ℕ) (b : Builder)
    → value_of x ≡ some (negsuc n)
    → ((m : ℕ) → x ≡ negint32 m → 2 ^ 16 ≤ m)
    → n < 2 ^ 31
    → b.state ≡ reading_params
    → on_item x b ≡ read_param (int (negsuc n)) b
unfolding on_item handle_integer handle_integer_in int_param to_int to_int64
on_item-negsuc (negint8 m) n b h s l r = rw r (ground (arith, h, l))
on_item-negsuc (negint16 m) n b h s l r = rw r (ground (arith, h, l))
on_item-negsuc (negint32 m) n b h s l r = rw r (ground (arith, h, l, s m refl))
on_item-negsuc (negint64 m) n b h s l r = rw r (ground (arith, h, l))
on_item-negsuc (uint8 m) n b h s l r = absurd (ground (arith, h))
on_item-negsuc (uint16 m) n b h s l r = absurd (ground (arith, h))
on_item-negsuc (uint32 m) n b h s l r = absurd (ground (arith, h))
on_item-negsuc (uint64 m) n b h s l r = absurd (ground (arith, h))
on_item-negsuc (byte_string t) n b h s l r = absurd (ground (arith, h))
on_item-negsuc (array_start m) n b h s l r = absurd (ground (arith, h))
on_item-negsuc (map_start m) n b h s l r = absurd (ground (arith, h))
on_item-negsuc (bool v) n b h s l r = absurd (ground (arith, h))
on_item-negsuc other n b h s l r = absurd (ground (arith, h))

module _ (e : Encoder) (is_encoder : IsEncoder e) where
  param_read :
      (v : Param) (rest : List Item) (b : Builder)
      → IsSent v
      → b.state ≡ reading_params
      → on_items (send_param e v ++ rest) b ≡ on_items rest (read_param (as_read v) b)
  unfolding on_items send_param on_item handle_bytes handle_bytes_in handle_bool handle_bool_in
      handle_integer handle_integer_in
  param_read (int (pos n)) rest b s r = ap (on_items rest) (
      on_item-pos (e.uint n) n b (is_encoder.uint_value n (omega arith)) (omega arith)
      ∙ rw (r, int_param-pos n s) refl)
  param_read (int (negsuc n)) rest b s r = ap (on_items rest) (
      on_item-negsuc (e.negint n) n b (is_encoder.negint_value n (omega arith))
        (λ m h. (is_encoder.shortest n m h).0) s r)
  param_read (string t) rest b s r = rw r refl
  param_read (view t) rest b s r = rw r refl
  param_read (boolean v) rest b s r = rw r refl
  param_read (int64 n) rest b s r = absurd (ground (arith, s))
  param_read null rest b s r = absurd (ground (arith, s))

  -- The builder after the head of a request, before its array of parameters.
  abbrev after_head : RpcPacket → String → ℕ → Builder
  after_head p method id = record (new_builder p) {
    state = wait_value;
    key_count = 4;
    valid = true;
    current_key = pos 102;
    value_readed = 3;
    pkt = record (reset_packet p) { method = method; id = pos id };
  }

  abbrev before_id : RpcPacket → String → Builder
  before_id p method = record (new_builder p) {
    state = wait_value;
    key_count = 4;
    valid = true;
    current_key = pos 104;
    value_readed = 2;
    pkt = record (reset_packet p) { method = method };
  }

  head_read :
      (p : RpcPacket) (method : String) (id : ℕ) (rest : List Item)
      → id < 2 ^ 31
      → on_items
          (map_start 4
            ∷ uint8 100
            ∷ byte_string "2.0"
            ∷ uint8 101
            ∷ byte_string method
            ∷ uint8 104
            ∷ e.uint id
            ∷ uint8 102
            ∷ rest)
          (new_builder p)
        ≡ on_items rest (after_head p method id)
  unfolding on_items on_item handle_integer handle_integer_in handle_bytes handle_bytes_in
      bytes_value int_value next_key start_map start_map_in new_builder reset_packet
  head_read p method id rest h =
      ap (on_items (uint8 102 ∷ rest)) (
        on_item-pos (e.uint id) id (before_id p method) (is_encoder.uint_value id (omega arith))
          (omega arith))
      ∙ rw (to_int-pos id h) refl

-- The parameters that a request counts can be sent and read.
abbrev pub AreSent : ℕ → RpcPacket → Type 0
AreSent zero q = Unit
AreSent (suc zero) q = IsSent q.param1
AreSent (suc (suc zero)) q = IsSent q.param1 × IsSent q.param2
AreSent (suc (suc (suc n))) q = IsSent q.param1 × IsSent q.param2 × IsSent q.param3

-- What the reader's packet `p` is once `q` is read.
abbrev read_head : RpcPacket → RpcPacket → RpcPacket
read_head q p = record (reset_packet p) {
  id = q.id;
  method = q.method;
  param_count = q.param_count;
}

abbrev pub read_back : ℕ → RpcPacket → RpcPacket → RpcPacket
read_back zero q p = read_head q p
read_back (suc zero) q p = record (read_head q p) { param1 = as_read q.param1 }
read_back (suc (suc zero)) q p = record (read_head q p) {
  param1 = as_read q.param1;
  param2 = as_read q.param2;
}
read_back (suc (suc (suc n))) q p = record (read_head q p) {
  param1 = as_read q.param1;
  param2 = as_read q.param2;
  param3 = as_read q.param3;
}

-- The builder once the size of the array is known.
abbrev after_array : RpcPacket → RpcPacket → ℕ → ℕ → Builder
after_array q p id k = record (new_builder p) {
  state = reading_params;
  key_count = 4;
  valid = true;
  current_key = pos 102;
  value_readed = 3;
  param_count = k;
  pkt = record (reset_packet p) { method = q.method; id = pos id; param_count = k };
}

module _ (e : Encoder) (is_encoder : IsEncoder e) where
  params_read :
      (q p : RpcPacket) (id : ℕ) (k : ℕ)
      → k ≤ 3
      → AreSent k q
      → let b =
          on_items (array_start k ∷ send_params e k q) (after_head e is_encoder p q.method id) in
        (b.state ≡ fin) × (b.pkt ≡ read_back k (record q { id = pos id; param_count = k }) p)
  unfolding on_items on_item start_array send_params next_key new_builder reset_packet read_param
  params_read q p id zero l s = (refl, refl)
  params_read q p id (suc zero) l s =
      rw (param_read e is_encoder q.param1 [] (after_array q p id 1) s refl) (refl, refl)
  params_read q p id (suc (suc zero)) l (s, t) =
      let b = after_array q p id 2 in
      rw
        (
          param_read e is_encoder q.param1 (send_param e q.param2 ++ []) b s refl,
          param_read e is_encoder q.param2 [] (read_param (as_read q.param1) b) t refl,
        )
        (refl, refl)
  params_read q p id (suc (suc (suc zero))) l (s, t, u) =
      let b = after_array q p id 3 in
      let c = read_param (as_read q.param1) b in
      rw
        (
          param_read e is_encoder q.param1 (send_param e q.param2 ++ (send_param e q.param3 ++ []))
              b s refl,
          param_read e is_encoder q.param2 (send_param e q.param3 ++ []) c t refl,
          param_read e is_encoder q.param3 [] (read_param (as_read q.param2) c) u refl,
        )
        (refl, refl)
  params_read q p id (suc (suc (suc (suc n)))) l s = absurd (omega arith)

  -- A request with an id that fits an `int`, and at most three parameters, each a number of an
  -- `int`, text or a truth value, is read back as it was sent: the builder ends in its final state,
  -- and its packet has the request's id, method and parameters, with text as views.
  pub on_items-send_request :
      (q p : RpcPacket) (id : ℕ)
      → q.id ≡ pos id
      → id < 2 ^ 31
      → q.param_count ≤ 3
      → AreSent q.param_count q
      → let b = on_items (send_request e q) (new_builder p) in
        (b.state ≡ fin) × (b.pkt ≡ read_back q.param_count q p)
  unfolding send_request
  on_items-send_request q p id h l m s =
      rw
        (
          ap
              (λ n.
                on_items
                  (map_start 4
                    ∷ uint8 100
                    ∷ byte_string "2.0"
                    ∷ uint8 101
                    ∷ byte_string q.method
                    ∷ uint8 104
                    ∷ e.uint n
                    ∷ uint8 102
                    ∷ array_start q.param_count
                    ∷ send_params e q.param_count q)
                  (new_builder p))
              (id_sent q.id id h l),
          head_read e is_encoder p q.method id
              (array_start q.param_count ∷ send_params e q.param_count q) l,
          h,
        )
        (params_read (record q { id = pos id }) p id q.param_count m
          (subst (λ z. AreSent q.param_count (record q { id = z })) h s))
