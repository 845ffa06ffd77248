-- ===== src/Examples/Protocol.antt =====
-- The theorems on mc_protocol.py at concrete bytes.
use crafty_server_watcher.Common.{◌≡◌, refl, [], ◌∷◌, ◌+ℤ◌, negsuc}
use crafty_server_watcher.McProtocol.{
  err, bad_value, read_varint, read_varint_loop, write_varint, write_varint_loop,
}

minus_one_bytes : write_varint (negsuc 0) ≡ 255 ∷ 255 ∷ 255 ∷ 255 ∷ 15 ∷ []
unfolding write_varint write_varint_loop ◌+ℤ◌
minus_one_bytes = refl

-- A fifth byte with its top bit set is too much.
too_big : read_varint (255 ∷ 255 ∷ 255 ∷ 255 ∷ 255 ∷ 1 ∷ []) ≡ err bad_value
unfolding read_varint read_varint_loop
too_big = refl
