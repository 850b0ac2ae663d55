-- ===== src/Core/Checksum.antt =====
-- core/checksum.hpp and checksum.cpp: FNV-1a over 64-bit words, least significant byte first.
use Prim.Native.Nat.{bit_xor}
use native.Mathlib.Nat.{div-div-eq-div-mul, pow-suc}
use asterion.Prelude.{
  ℕ, zero, suc, ◌+◌, ◌<◌, All, arith, ap, sym, ◌∙◌, ◌-◌, ◌*◌, ◌/◌, ◌%◌, ◌^◌, ◌≡◌, refl, List, [],
  ◌∷◌, ◌++◌, length,
}
use asterion.Prelude.Int.{ℤ, pos, negsuc}

abbrev pub fnv_offset_basis : ℕ
fnv_offset_basis = 14695981039346656037

abbrev pub fnv_prime : ℕ
fnv_prime = 1099511628211

unfoldable pub fnv1a_append_byte : ℕ → ℕ → ℕ
fnv1a_append_byte seed byte = bit_xor seed byte * fnv_prime % 2 ^ 64

unfoldable pub fnv1a_append : ℕ → List ℕ → ℕ
fnv1a_append seed [] = seed
fnv1a_append seed (byte ∷ bytes) = fnv1a_append (fnv1a_append_byte seed byte) bytes

-- The loop of `checksum_append` from the byte `i` on, with `left` bytes to go.
unfoldable pub append_bytes : ℕ → ℕ → ℕ → ℕ → ℕ
unfolding fnv1a_append_byte
append_bytes zero i seed value = seed
append_bytes (suc left) i seed value =
    append_bytes left (suc i) (fnv1a_append_byte seed (value / 2 ^ (i * 8) % 256)) value

-- `checksum_append` for an unsigned type of `size` bytes.
unfoldable pub checksum_append : ℕ → ℕ → ℕ → ℕ
unfolding append_bytes
checksum_append size seed value = append_bytes size 0 seed value

-- `static_cast<std::uint64_t>` of a signed value.
unfoldable pub to_u64 : ℤ → ℕ
to_u64 (pos n) = n % 2 ^ 64
to_u64 (negsuc n) = 2 ^ 64 - 1 - n % 2 ^ 64

unfoldable pub append_u64 : ℕ → ℕ → ℕ
append_u64 seed value = checksum_append 8 seed value

unfoldable pub append_u32 : ℕ → ℕ → ℕ
append_u32 seed value = checksum_append 4 seed value

unfoldable pub append_u8 : ℕ → ℕ → ℕ
append_u8 seed value = checksum_append 1 seed value

unfoldable pub append_i64 : ℕ → ℤ → ℕ
append_i64 seed value = checksum_append 8 seed (to_u64 value)

-- `checksum_append_string`: the length first, so that neighbouring strings do not run together.
unfoldable pub checksum_append_string : ℕ → List ℕ → ℕ
checksum_append_string seed value = fnv1a_append (append_u64 seed (length value)) value

-- The number that bytes stand for, least significant first.
abbrev pub little_endian : List ℕ → ℕ
little_endian [] = 0
little_endian (byte ∷ bytes) = byte + little_endian bytes * 256

pow_byte : (n : ℕ) → 2 ^ (suc (suc (suc (suc (suc (suc (suc (suc n)))))))) ≡ 256 * 2 ^ n
pow_byte n = omega (
  arith,
  pow-suc 2 n,
  pow-suc 2 (suc n),
  pow-suc 2 (suc (suc n)),
  pow-suc 2 (suc (suc (suc n))),
  pow-suc 2 (suc (suc (suc (suc n)))),
  pow-suc 2 (suc (suc (suc (suc (suc n))))),
  pow-suc 2 (suc (suc (suc (suc (suc (suc n)))))),
  pow-suc 2 (suc (suc (suc (suc (suc (suc (suc n))))))),
)

the_byte : (i : ℕ) → suc i * 8 ≡ suc (suc (suc (suc (suc (suc (suc (suc (i * 8))))))))
the_byte i = omega arith

shift_byte : (byte v i : ℕ) → byte < 256 → (byte + v * 256) / 2 ^ (suc i * 8) ≡ v / 2 ^ (i * 8)
shift_byte byte v i h =
    let bits : 2 ^ (suc i * 8) ≡ 256 * 2 ^ (i * 8) =
      ap (λ n. 2 ^ n) (the_byte i) ∙ pow_byte (i * 8) in
    let low : (byte + v * 256) / 256 ≡ v = omega arith in
    ap (λ m. (byte + v * 256) / m) bits
    ∙ sym (div-div-eq-div-mul (byte + v * 256) 256 (2 ^ (i * 8)))
    ∙ ap (λ x. x / 2 ^ (i * 8)) low

append_bytes-shift :
    (left i seed byte v : ℕ)
    → byte < 256
    → append_bytes left (suc i) seed (byte + v * 256) ≡ append_bytes left i seed v
unfolding append_bytes
append_bytes-shift zero i seed byte v h = refl
append_bytes-shift (suc left) i seed byte v h =
    ap (λ x. append_bytes left (suc (suc i)) (fnv1a_append_byte seed (x % 256)) (byte + v * 256))
      (shift_byte byte v i h)
    ∙ append_bytes-shift left (suc i) (fnv1a_append_byte seed (v / 2 ^ (i * 8) % 256)) byte v h

-- Appending the integer that some bytes stand for, least significant first, is hashing these bytes.
pub checksum_append-little_endian :
    (bytes : List ℕ) (seed : ℕ)
    → All (λ byte. byte < 256) bytes
    → checksum_append (length bytes) seed (little_endian bytes) ≡ fnv1a_append seed bytes
unfolding checksum_append append_bytes fnv1a_append
checksum_append-little_endian [] seed h = refl
checksum_append-little_endian (byte ∷ bytes) seed h =
    let first : (byte + little_endian bytes * 256) / 2 ^ 0 % 256 ≡ byte = omega (arith, h.0) in
    append_bytes-shift (length bytes) 0
      (fnv1a_append_byte seed ((byte + little_endian bytes * 256) / 2 ^ 0 % 256)) byte
      (little_endian bytes) h.0
    ∙ ap (λ x. append_bytes (length bytes) 0 (fnv1a_append_byte seed x) (little_endian bytes)) first
    ∙ checksum_append-little_endian bytes (fnv1a_append_byte seed byte) h.1

-- Hashing a stream in two pieces is hashing it whole.
pub fnv1a_append-append :
    (seed : ℕ) (xs ys : List ℕ)
    → fnv1a_append seed (xs ++ ys) ≡ fnv1a_append (fnv1a_append seed xs) ys
unfolding fnv1a_append
fnv1a_append-append seed [] ys = refl
fnv1a_append-append seed (x ∷ xs) ys = fnv1a_append-append (fnv1a_append_byte seed x) xs ys

known_hash : fnv1a_append fnv_offset_basis (97 ∷ []) ≡ 0xaf63dc4c8601ec8c
unfolding fnv1a_append fnv1a_append_byte
known_hash = refl
