-- ===== src/RakNet/Echo.antt =====
-- Numbers of 8 bytes are read as they were written, and a pong gives a ping's time back.
use crafty_server_watcher.Common.{
  ℕ, zero, suc, All, ◌-◌, ◌/◌, ◌%◌, ◌^◌, ◌<◌, ◌≤◌, ◌≡◌, refl, String, true, some, List, [], ◌∷◌,
  ◌++◌, length, take, drop, length-take, length-drop, ℤ, pos, negsuc, ◌≤ℤ◌, ◌<ℤ◌, arith,
}
use crafty_server_watcher.Utf8.{encode}
use crafty_server_watcher.RakNet.{
  raknet_magic, first_is, slice, unpack_64, pack_64, unpack_signed, pack_signed,
  parse_unconnected_ping, server_name, build_unconnected_pong,
}

unpack-pack_64 : (n : ℕ) → n < 2 ^ 64 → unpack_64 (pack_64 n) ≡ n
unfolding unpack_64 pack_64
unpack-pack_64 n h = omega arith

unpack-pack_signed :
    (n : ℤ) → negsuc (2 ^ 63 - 1) ≤ℤ n → n <ℤ pos (2 ^ 63) → unpack_signed (pack_signed n) ≡ n
unfolding unpack_signed pack_signed
unpack-pack_signed (pos n) l h = rw (unpack-pack_64 n (omega arith)) (ground arith)
unpack-pack_signed (negsuc n) l h =
    rw (unpack-pack_64 (2 ^ 64 - suc n) (omega arith)) (ground arith)

-- Bytes.
abbrev pub AreBytes : List ℕ → Type 0
AreBytes = All (λ b. b < 256)

AreBytes-take : (n : ℕ) (bytes : List ℕ) → AreBytes bytes → AreBytes (take n bytes)
AreBytes-take zero bytes p = tt
AreBytes-take (suc n) [] p = tt
AreBytes-take (suc n) (b ∷ bytes) (h, p) = (h, AreBytes-take n bytes p)

AreBytes-drop : (n : ℕ) (bytes : List ℕ) → AreBytes bytes → AreBytes (drop n bytes)
AreBytes-drop zero bytes p = p
AreBytes-drop (suc n) [] p = tt
AreBytes-drop (suc n) (b ∷ bytes) (h, p) = AreBytes-drop n bytes p

pack-unpack_64 :
    (bytes : List ℕ) → length bytes ≡ 8 → AreBytes bytes → pack_64 (unpack_64 bytes) ≡ bytes
unfolding unpack_64 pack_64
pack-unpack_64 (a ∷ b ∷ c ∷ d ∷ e ∷ f ∷ g ∷ h ∷ []) l
      (pa, (pb, (pc, (pd, (pe, (pf, (pg, (ph, _)))))))) =
    let n = unpack_64 (a ∷ b ∷ c ∷ d ∷ e ∷ f ∷ g ∷ h ∷ []) in
    let a1 : n / 2 ^ 56 ≡ a = omega arith in
    let b1 : n / 2 ^ 48 % 256 ≡ b = omega arith in
    let c1 : n / 2 ^ 40 % 256 ≡ c = omega arith in
    let d1 : n / 2 ^ 32 % 256 ≡ d = omega arith in
    let e1 : n / 2 ^ 24 % 256 ≡ e = omega arith in
    let f1 : n / 2 ^ 16 % 256 ≡ f = omega arith in
    let g1 : n / 2 ^ 8 % 256 ≡ g = omega arith in
    let h1 : n % 256 ≡ h = omega arith in rw (a1, b1, c1, d1, e1, f1, g1, h1) refl
pack-unpack_64 _ l p = absurd (omega arith)

-- What a ping that is parsed has at its time.
parsed_time :
    (bytes : List ℕ) (time : ℕ) (guid : ℤ)
    → parse_unconnected_ping bytes ≡ some (time, guid)
    → (time ≡ unpack_64 (slice 1 9 bytes)) × (33 ≤ length bytes)
unfolding parse_unconnected_ping
parsed_time bytes time guid e = ground arith

pub time_back :
    (bytes : List ℕ) (time : ℕ) (guid : ℤ)
    → AreBytes bytes
    → parse_unconnected_ping bytes ≡ some (time, guid)
    → pack_64 time ≡ slice 1 9 bytes
time_back bytes time guid p e =
    let (same, long) = parsed_time bytes time guid e in
    let long_enough : 8 ≤ length (drop 1 bytes) = omega (arith, length-drop 1 bytes) in
    rw same (
      pack-unpack_64 (slice 1 9 bytes) (length-take 8 (drop 1 bytes) long_enough)
        (AreBytes-take 8 (drop 1 bytes) (AreBytes-drop 1 bytes p)))

-- A pong whose name fits has the time at its second byte and the magic after the server's number.
pub built_pong :
    (time : ℕ) (guid : ℤ) (motd : String) (online max_players port : ℤ)
    → length (encode (server_name guid motd online max_players port)) < 65536
    → (pong : List ℕ) × (build_unconnected_pong time guid motd online max_players port ≡ some pong)
      × (first_is 0x1c pong ≡ true)
      × (slice 1 9 pong ≡ pack_64 time)
      × (slice 17 33 pong ≡ raknet_magic)
unfolding build_unconnected_pong pack_64 pack_signed
built_pong time guid motd online max_players port short =
    let name = encode (server_name guid motd online max_players port) in
    let size = (length name / 256) ∷ (length name % 256) ∷ [] in
    (
      0x1c ∷ pack_64 time ++ (pack_signed guid ++ (raknet_magic ++ (size ++ name))),
      ground arith,
      refl,
      refl,
      refl,
    )
