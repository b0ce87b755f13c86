-- ===== src/Db/Crypt.antt =====
-- db/crypt.go: AES-GCM. The cipher and the source of randomness are Go's standard library, so they
-- are a value of `Crypto`; a text is the list of its bytes.
use catalogger.Base.{
  ltb, if◌then◌else◌, length, take, drop, length-append, ◌>>=◌, Result-cases, Result, sentinel, ok,
  err, ℕ, zero, suc, ◌≡◌, refl, ap, inl, inr, false, List, [], ◌∷◌, ◌++◌, arith,
}

abbrev pub Text : Type 0
Text = List ℕ

-- What `cipher.NewGCM` returns. What was sealed under a nonce of the right size is opened under it.
pub record Gcm : Type 0 where
  pub nonce_size : ℕ
  pub seal : Text → Text → Text
  pub open_sealed : Text → Text → Result Text
  pub open-seal :
      (nonce plaintext : Text)
      → length nonce ≡ nonce_size
      → open_sealed nonce (seal nonce plaintext) ≡ ok plaintext

-- `gcm key` is `aes.NewCipher` and `cipher.NewGCM`; `random i n` is the i-th `io.ReadFull` of n bytes
-- from the source of randomness, which reads n bytes or fails.
pub record Crypto : Type 0 where
  pub gcm : Text → Result Gcm
  pub random : ℕ → ℕ → Result Text
  pub length-random : (i n : ℕ) (r : Text) → random i n ≡ ok r → length r ≡ n

-- `draw` counts the reads from the source of randomness.
unfoldable pub encrypt : Crypto → ℕ → Text → Text → Result Text
encrypt c draw plaintext key = do
  g ← c.gcm key
  nonce ← c.random draw g.nonce_size
  ok (nonce ++ g.seal nonce plaintext)

-- the part of `Decrypt` behind the construction of the cipher
unfoldable pub opening : Gcm → Text → Result Text
opening g ciphertext =
    if ltb (length ciphertext) g.nonce_size
    then err (sentinel "malformed ciphertext")
    else g.open_sealed (take g.nonce_size ciphertext) (drop g.nonce_size ciphertext)

unfoldable pub decrypt : Crypto → Text → Text → Result Text
unfolding opening
decrypt c ciphertext key = do g ← c.gcm key; opening g ciphertext

take-append : (n : ℕ) (xs ys : Text) → length xs ≡ n → take n (xs ++ ys) ≡ xs
take-append zero [] ys h = refl
take-append zero (x ∷ xs) ys h = absurd (omega arith)
take-append (suc n) [] ys h = absurd (omega arith)
take-append (suc n) (x ∷ xs) ys h = ap (λ l. x ∷ l) (take-append n xs ys (omega arith))

drop-append : (n : ℕ) (xs ys : Text) → length xs ≡ n → drop n (xs ++ ys) ≡ ys
drop-append zero [] ys h = refl
drop-append zero (x ∷ xs) ys h = absurd (omega arith)
drop-append (suc n) [] ys h = absurd (omega arith)
drop-append (suc n) (x ∷ xs) ys h = drop-append n xs ys (omega arith)

long_enough : (n : ℕ) (xs ys : Text) → length xs ≡ n → ltb (length (xs ++ ys)) n ≡ false
long_enough n xs ys h = ground (arith, length-append xs ys)

opening-seal :
    (g : Gcm) (nonce plaintext : Text)
    → length nonce ≡ g.nonce_size
    → opening g (nonce ++ g.seal nonce plaintext) ≡ ok plaintext
unfolding opening
opening-seal g nonce plaintext h =
    rw
      (
        long_enough g.nonce_size nonce (g.seal nonce plaintext) h,
        take-append g.nonce_size nonce (g.seal nonce plaintext) h,
        drop-append g.nonce_size nonce (g.seal nonce plaintext) h,
      )
      (g.open-seal nonce plaintext h)

-- the steps of an encryption that went well
pub record Encrypted (c : Crypto) (draw : ℕ) (plaintext key ciphertext : Text) : Type 0 where
  pub g : Gcm
  pub nonce : Text
  pub cipher : c.gcm key ≡ ok g
  pub drawn : c.random draw g.nonce_size ≡ ok nonce
  pub sealed : nonce ++ g.seal nonce plaintext ≡ ciphertext

encrypt-inv :
    (c : Crypto) (draw : ℕ) (plaintext key ciphertext : Text)
    → encrypt c draw plaintext key ≡ ok ciphertext
    → Encrypted c draw plaintext key ciphertext
unfolding encrypt
encrypt-inv c draw plaintext key ciphertext e = elim (Result-cases (c.gcm key)) [
  | inr (x, no_cipher) ↦ absurd (ground arith)
  | inl (g, cipher) ↦ elim (Result-cases (c.random draw g.nonce_size)) [
    | inr (x, no_nonce) ↦ absurd (ground arith)
    | inl (nonce, drawn) ↦ record {
      g = g;
      nonce = nonce;
      cipher = cipher;
      drawn = drawn;
      sealed = ground arith;
    }
  ]
]

-- What was encrypted is decrypted under the same key, whatever the nonce that was drawn.
pub decrypt-encrypt :
    (c : Crypto) (draw : ℕ) (plaintext key ciphertext : Text)
    → encrypt c draw plaintext key ≡ ok ciphertext
    → decrypt c ciphertext key ≡ ok plaintext
unfolding decrypt
decrypt-encrypt c draw plaintext key ciphertext e =
    let x = encrypt-inv c draw plaintext key ciphertext e in
    rw (x.cipher, ← x.sealed)
      (opening-seal x.g x.nonce plaintext (c.length-random draw x.g.nonce_size x.nonce x.drawn))
