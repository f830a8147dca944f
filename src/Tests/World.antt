-- ===== src/Tests/World.antt =====
-- A small generator and a small cipher, for which the documented laws hold.
use orf_veil.Prelude.{
  ℕ, suc, ◌+◌, ◌%◌, ◌≡◌, refl, ap, ap₂, sym, ◌∙◌, arith, inl, inr, Bool, true, false, Bool-cases,
  ◌&&◌, ltb, ◌==◌, if◌then◌else◌, [], ◌∷◌, ◌++◌, Option, none, some, length, length-append,
  length-replicate, All, All-append, All-replicate, replicate, get_or,
}
use orf_veil.Prelude.Bytes.{Bytes, IsByte}
use orf_veil.External.Random.{Rng, RngLaws}
use orf_veil.External.Crypto.{Crypto, CryptoLaws}
use mathlib.Core.List.Perm
use mathlib.Core.Option
use mathlib.Core.Path.{subst}

-- Every byte drawn is the number of the draw.
abbrev pub rng : Rng
rng = record {
  State = ℕ;
  fill_bytes = λ n s. (replicate n (s % 256), suc s);
  next_u64 = λ s. (s, suc s);
  shuffle = λ A xs s. (xs, suc s);
}

pub rng_laws : RngLaws rng
rng_laws = record {
  length-fill_bytes = λ n s. length-replicate n (s % 256);
  fill_bytes-IsByte = λ n s. All-replicate IsByte n (s % 256) (omega arith);
  shuffle-perm = λ A xs s. Perm.refl xs;
}

-- A public key is one of two; the exchange tells whether the keys differ.
unfoldable pub key_bytes : Bool → Bytes
key_bytes true = replicate 32 1
key_bytes false = replicate 32 0

unfoldable pub key_of_bytes : Bytes → Bool
key_of_bytes [] = false
key_of_bytes (b ∷ bs) = b == 1

unfoldable pub exchange : Bool → Bool → Bytes
exchange true true = replicate 32 2
exchange true false = replicate 32 3
exchange false true = replicate 32 3
exchange false false = replicate 32 2

unfoldable pub all_bytes : Bytes → Bool
all_bytes [] = true
all_bytes (b ∷ bs) = ltb b 256 && all_bytes bs

all_bytes-All : (bs : Bytes) → all_bytes bs ≡ true → All IsByte bs
unfolding all_bytes
all_bytes-All [] h = tt
all_bytes-All (b ∷ bs) h = (ground arith, all_bytes-All bs (ground arith))

All-all_bytes : (bs : Bytes) → All IsByte bs → all_bytes bs ≡ true
unfolding all_bytes
All-all_bytes [] h = refl
All-all_bytes (b ∷ bs) h = ground (arith, h.0, All-all_bytes bs h.1)

unfoldable pub strip_prefix : Bytes → Bytes → Option Bytes
strip_prefix [] ys = some ys
strip_prefix (x ∷ xs) [] = none
strip_prefix (x ∷ xs) (y ∷ ys) = if x == y then strip_prefix xs ys else none

strip_prefix-append : (xs ys : Bytes) → strip_prefix xs (xs ++ ys) ≡ some ys
unfolding strip_prefix
strip_prefix-append [] ys = refl
strip_prefix-append (x ∷ xs) ys =
    let e : (x == x) ≡ true = ground arith in rw (e, strip_prefix) (strip_prefix-append xs ys)

strip_prefix-eq-some : (xs ys zs : Bytes) → strip_prefix xs ys ≡ some zs → ys ≡ xs ++ zs
unfolding strip_prefix
strip_prefix-eq-some [] ys zs h = cc
strip_prefix-eq-some (x ∷ xs) [] zs h = cc
strip_prefix-eq-some (x ∷ xs) (y ∷ ys) zs h = elim (Bool-cases (x == y)) [
  | inl e ↦
      let p : x ≡ y = ground arith in
      let q =
        strip_prefix-eq-some xs ys zs
          (subst (λ b. (if b then strip_prefix xs ys else none) ≡ some zs) e h) in
      cc
  | inr e ↦
      let h' : (if false then strip_prefix xs ys else none) ≡ some zs =
        subst (λ b. (if b then strip_prefix xs ys else none) ≡ some zs) e h in
      cc
]

-- The tag is drawn from the key and stands before the text, which is left open.
unfoldable pub tag : Bytes → Bytes
unfolding get_or
tag key = replicate 16 (get_or key 0 0 % 256)

unfoldable pub checked : Bool → Bytes → Option Bytes
checked true text = some text
checked false text = none

unfoldable pub seal : Bytes → Bytes → Option Bytes
seal key text = checked (all_bytes text) (tag key ++ text)

unfoldable pub unseal : Bytes → Bytes → Option Bytes
unseal key sealed =
    Option.bind (strip_prefix (tag key) sealed) (λ text. checked (all_bytes text) text)

abbrev pub crypto : Crypto rng
crypto = record {
  PublicKey = Bool;
  StaticSecret = Bool;
  public_from_bytes = key_of_bytes;
  public_as_bytes = key_bytes;
  secret_from_bytes = key_of_bytes;
  secret_to_bytes = key_bytes;
  random_secret = λ s. (s % 2 == 1, suc s);
  public_of = λ a. a;
  diffie_hellman = exchange;
  hkdf_expand = λ shared info. some shared;
  encrypt = λ key nonce text. seal key text;
  decrypt = λ key nonce sealed. unseal key sealed;
}

length-key_bytes : (b : Bool) → length (key_bytes b) ≡ 32
unfolding key_bytes
length-key_bytes true = length-replicate 32 1
length-key_bytes false = length-replicate 32 0

key_bytes-IsByte : (b : Bool) → All IsByte (key_bytes b)
unfolding key_bytes
key_bytes-IsByte true = All-replicate IsByte 32 1 (omega arith)
key_bytes-IsByte false = All-replicate IsByte 32 0 (omega arith)

key_of_bytes-key_bytes : (b : Bool) → key_of_bytes (key_bytes b) ≡ b
unfolding key_of_bytes key_bytes replicate
key_of_bytes-key_bytes true = refl
key_of_bytes-key_bytes false = refl

exchange_comm : (a b : Bool) → exchange a b ≡ exchange b a
unfolding exchange
exchange_comm true true = refl
exchange_comm true false = refl
exchange_comm false true = refl
exchange_comm false false = refl

length-tag : (key : Bytes) → length (tag key) ≡ 16
unfolding tag
length-tag key = length-replicate 16 _

tag-IsByte : (key : Bytes) → All IsByte (tag key)
unfolding tag
tag-IsByte key = All-replicate IsByte 16 _ (omega arith)

checked_text : (b : Bool) (a text : Bytes) → checked b a ≡ some text → (b ≡ true) × (a ≡ text)
unfolding checked
checked_text true a text h = (refl, cc)
checked_text false a text h = cc

module _ (key text sealed : Bytes) where
  opened :
      (o : Option Bytes)
      → strip_prefix (tag key) sealed ≡ o
      → Option.bind o (λ t. checked (all_bytes t) t) ≡ some text
      → (all_bytes text ≡ true) × (sealed ≡ tag key ++ text)
  unfolding Option.bind
  opened none s h = cc
  opened (some t) s h =
      let (b, q) = checked_text (all_bytes t) t text h in
      (rw (← q) b, strip_prefix-eq-some (tag key) sealed t s ∙ ap (λ x. tag key ++ x) q)

  unseal-eq-some :
      unseal key sealed ≡ some text → (all_bytes text ≡ true) × (sealed ≡ tag key ++ text)
  unfolding unseal
  unseal-eq-some h = opened (strip_prefix (tag key) sealed) refl h

  seal-eq-some : seal key text ≡ some sealed → (all_bytes text ≡ true) × (sealed ≡ tag key ++ text)
  unfolding seal
  seal-eq-some h =
      let (b, e) = checked_text (all_bytes text) (tag key ++ text) sealed h in (b, sym e)

  sealed_length : seal key text ≡ some sealed → length sealed ≡ length text + 16
  sealed_length h =
      let e = (seal-eq-some h).1 in
      ap length e ∙ omega (arith, length-append (tag key) text, length-tag key)

  sealed-IsByte : seal key text ≡ some sealed → All IsByte sealed
  sealed-IsByte h =
      let (b, e) = seal-eq-some h in
      rw e (All-append IsByte (tag key) text (tag-IsByte key) (all_bytes-All text b))

  unseal-seal : seal key text ≡ some sealed → unseal key sealed ≡ some text
  unfolding unseal Option.bind checked
  unseal-seal h =
      let (b, e) = seal-eq-some h in
      rw (e, strip_prefix-append (tag key) text) (ap (λ x. checked x text) b)

  seal-unseal : unseal key sealed ≡ some text → seal key text ≡ some sealed
  unfolding seal checked
  seal-unseal h = let (b, e) = unseal-eq-some h in ap₂ checked b (sym e)

  unsealed-IsByte : unseal key sealed ≡ some text → All IsByte text
  unsealed-IsByte h = all_bytes-All text (unseal-eq-some h).0

seal_total : (key text : Bytes) → All IsByte text → (sealed : Bytes) × (seal key text ≡ some sealed)
unfolding seal checked
seal_total key text h =
    (tag key ++ text, ap (λ b. checked b (tag key ++ text)) (All-all_bytes text h))

pub crypto_laws : CryptoLaws rng crypto
crypto_laws = record {
  length-public_as_bytes = length-key_bytes;
  public_as_bytes-IsByte = key_bytes-IsByte;
  public_from_bytes-as_bytes = key_of_bytes-key_bytes;
  length-secret_to_bytes = length-key_bytes;
  secret_to_bytes-IsByte = key_bytes-IsByte;
  secret_from_bytes-to_bytes = key_of_bytes-key_bytes;
  diffie_hellman_comm = exchange_comm;
  hkdf_expand_total = λ shared info. (shared, refl);
  encrypt_total = λ key nonce text h fits. seal_total key text h;
  length-encrypt = λ key nonce text sealed h. sealed_length key text sealed h;
  encrypt-IsByte = λ key nonce text sealed h. sealed-IsByte key text sealed h;
  decrypt-encrypt = λ key nonce text sealed h. unseal-seal key text sealed h;
  encrypt-decrypt = λ key nonce text sealed h. seal-unseal key text sealed h;
  decrypt-IsByte = λ key nonce text sealed h. unsealed-IsByte key text sealed h;
}
