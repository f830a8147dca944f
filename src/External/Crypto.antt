-- ===== src/External/Crypto.antt =====
-- The crates `x25519_dalek`, `hkdf` with `sha2`, and `chacha20poly1305`.
use orf_veil.Prelude.{ℕ, ◌+◌, ◌≤◌, ◌≡◌, Option, some, length, All}
use orf_veil.Prelude.Bytes.{Bytes, IsByte}
use orf_veil.External.Random.{Rng}

-- X25519 keys and their exchange; HKDF-SHA256 with no salt, from the input key material and the info
-- to 32 bytes (`none` is the error of `expand`); ChaCha20-Poly1305 from key, nonce and text.
pub record Crypto (r : Rng) : Type 1 where
  pub PublicKey : Type 0
  pub StaticSecret : Type 0
  pub public_from_bytes : Bytes → PublicKey
  pub public_as_bytes : PublicKey → Bytes
  pub secret_from_bytes : Bytes → StaticSecret
  pub secret_to_bytes : StaticSecret → Bytes
  pub random_secret : r.State → StaticSecret × r.State
  pub public_of : StaticSecret → PublicKey
  pub diffie_hellman : StaticSecret → PublicKey → Bytes
  pub hkdf_expand : Bytes → Bytes → Option Bytes
  pub encrypt : Bytes → Bytes → Bytes → Option Bytes
  pub decrypt : Bytes → Bytes → Bytes → Option Bytes

-- The plaintext limit of ChaCha20-Poly1305: 2 ^ 32 - 1 blocks of 64 bytes.
abbrev pub max_plaintext : ℕ
max_plaintext = 274877906880

-- What the code relies on. A key has 32 bytes, which determine it; the exchange is symmetric; 32 bytes
-- of key material are always available; sealing adds a tag of 16 bytes, opening is its inverse.
pub record CryptoLaws (r : Rng) (c : Crypto r) : Type 1 where
  pub length-public_as_bytes : (p : c.PublicKey) → length (c.public_as_bytes p) ≡ 32
  pub public_as_bytes-IsByte : (p : c.PublicKey) → All IsByte (c.public_as_bytes p)
  pub public_from_bytes-as_bytes : (p : c.PublicKey) → c.public_from_bytes (c.public_as_bytes p) ≡ p
  pub length-secret_to_bytes : (s : c.StaticSecret) → length (c.secret_to_bytes s) ≡ 32
  pub secret_to_bytes-IsByte : (s : c.StaticSecret) → All IsByte (c.secret_to_bytes s)
  pub secret_from_bytes-to_bytes :
      (s : c.StaticSecret) → c.secret_from_bytes (c.secret_to_bytes s) ≡ s
  pub diffie_hellman_comm :
      (a b : c.StaticSecret)
      → c.diffie_hellman a (c.public_of b) ≡ c.diffie_hellman b (c.public_of a)
  pub hkdf_expand_total :
      (shared info : Bytes) → (key : Bytes) × (c.hkdf_expand shared info ≡ some key)
  pub encrypt_total :
      (key nonce text : Bytes)
      → All IsByte text
      → length text ≤ max_plaintext
      → (sealed : Bytes) × (c.encrypt key nonce text ≡ some sealed)
  pub length-encrypt :
      (key nonce text sealed : Bytes)
      → c.encrypt key nonce text ≡ some sealed
      → length sealed ≡ length text + 16
  pub encrypt-IsByte :
      (key nonce text sealed : Bytes) → c.encrypt key nonce text ≡ some sealed → All IsByte sealed
  pub decrypt-encrypt :
      (key nonce text sealed : Bytes)
      → c.encrypt key nonce text ≡ some sealed
      → c.decrypt key nonce sealed ≡ some text
  pub encrypt-decrypt :
      (key nonce text sealed : Bytes)
      → c.decrypt key nonce sealed ≡ some text
      → c.encrypt key nonce text ≡ some sealed
  pub decrypt-IsByte :
      (key nonce text sealed : Bytes) → c.decrypt key nonce sealed ≡ some text → All IsByte text
