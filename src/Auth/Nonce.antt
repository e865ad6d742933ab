-- ===== src/Auth/Nonce.antt =====
-- pkg/auth/auth.go: GenerateNonce. The random bytes are an argument.
use qtrp.Common.{ℕ, ◌*◌, ◌/◌, ◌%◌, ◌<◌, ◌≡◌, refl, [], ◌∷◌, arith, All, length}
use qtrp.Auth.{hex_digit, hex_encode}
use qtrp.Go.Io.{Bytes}
use qtrp.Go.Strings.{Text}

-- GenerateNonce, by the 16 bytes that rand.Read gives.
unfoldable pub generate_nonce : Bytes → Text
generate_nonce bytes = hex_encode bytes

hex_digit-injective : (c d : ℕ) → c < 16 → d < 16 → hex_digit c ≡ hex_digit d → c ≡ d
unfolding hex_digit
hex_digit-injective c d small small' h = ground arith

byte-injective :
    (b c : ℕ)
    → b < 256
    → c < 256
    → hex_digit (b / 16) ≡ hex_digit (c / 16)
    → hex_digit (b % 16) ≡ hex_digit (c % 16)
    → b ≡ c
byte-injective b c small small' high low =
    let h = hex_digit-injective (b / 16) (c / 16) (omega arith) (omega arith) high in
    let l = hex_digit-injective (b % 16) (c % 16) (omega arith) (omega arith) low in
    omega (arith, h, l)

-- Nonces of different random bytes are different.
pub generate_nonce-injective :
    (bytes others : Bytes)
    → All (λ b. b < 256) bytes
    → All (λ b. b < 256) others
    → generate_nonce bytes ≡ generate_nonce others
    → bytes ≡ others
unfolding generate_nonce hex_encode
generate_nonce-injective [] [] s s' h = refl
generate_nonce-injective [] (c ∷ others) s s' h = cc
generate_nonce-injective (b ∷ bytes) [] s s' h = cc
generate_nonce-injective (b ∷ bytes) (c ∷ others) (s, ss) (s', ss') h =
    let high : hex_digit (b / 16) ≡ hex_digit (c / 16) = cc in
    let low : hex_digit (b % 16) ≡ hex_digit (c % 16) = cc in
    let rest : generate_nonce bytes ≡ generate_nonce others = cc in
    let same = byte-injective b c s s' high low in
    let tail = generate_nonce-injective bytes others ss ss' rest in cc

length-generate_nonce : (bytes : Bytes) → length (generate_nonce bytes) ≡ 2 * length bytes
unfolding generate_nonce hex_encode
length-generate_nonce [] = refl
length-generate_nonce (b ∷ bytes) = omega (arith, length-generate_nonce bytes)
