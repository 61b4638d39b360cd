-- ===== src/Rpc/Builder/Stuck.antt =====
-- After an item that does not fit, no item brings the builder back.
use freekill_asio.Base.{◌≡◌, refl, List, [], ◌∷◌, arith}
use freekill_asio.Rpc.Builder.{
  Builder, error, Item, on_item, on_items, handle_integer, handle_integer_in, handle_bytes,
  handle_bytes_in, handle_bool, handle_bool_in, start_array, start_map, start_map_in,
}

pub on_item-error : (x : Item) (b : Builder) → b.state ≡ error → on_item x b ≡ b
unfolding on_item handle_integer handle_integer_in handle_bytes handle_bytes_in handle_bool
    handle_bool_in start_array start_map start_map_in
on_item-error x b h = ground (arith, h)

-- A builder in the error state stays as it is, whatever items come.
pub on_items-error : (xs : List Item) (b : Builder) → b.state ≡ error → on_items xs b ≡ b
unfolding on_items
on_items-error [] b h = refl
on_items-error (x ∷ xs) b h = rw (on_item-error x b h) (on_items-error xs b h)
