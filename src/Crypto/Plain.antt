-- ===== src/Crypto/Plain.antt =====
-- Primitives to run the definitions of Crypto with: a cipher that leaves bytes as they are.
use mega_basterd_cli.Prelude.{
  ℕ, ◌%◌, some, [], ◌∷◌, ◌≡◌, refl, length, replicate, map, arith, suc, ap,
}
use mega_basterd_cli.State.Hex.{Bytes, AreBytes}
use mega_basterd_cli.Crypto.PasswordLink.Shared.{IsHashing}
use mega_basterd_cli.Prelude.{length-replicate, All-replicate}
use mega_basterd_cli.Crypto.Primitives.{Primitives, IsCipher, IsStream, IsCounter}

abbrev pub plain : Primitives
plain = record {
  cbc_encrypt = λ key iv bs. some bs;
  cbc_decrypt = λ key iv bs. some bs;
  ctr_encrypt = λ key nonce counter bs. bs;
  ctr_decrypt = λ key nonce counter bs. map (λ (b : ℕ). b % 256) bs;
  pbkdf2 = λ password salt size rounds. replicate size 7;
  hmac_sha256 = λ key body. replicate 32 9;
}

pub plain-IsCipher : IsCipher plain
plain-IsCipher key iv bs k i l h =
    (bs, record { encrypts = refl; decrypts = refl; same_length = refl; sealed_bytes = h })

length-bytes : (bs : Bytes) → length (map (λ (b : ℕ). b % 256) bs) ≡ length bs
length-bytes [] = refl
length-bytes (b ∷ bs) = ap suc (length-bytes bs)

are_bytes : (bs : Bytes) → AreBytes (map (λ (b : ℕ). b % 256) bs)
are_bytes [] = tt
are_bytes (b ∷ bs) = (omega arith, are_bytes bs)

pub plain-IsStream : IsStream plain
plain-IsStream key nonce sealed counter = (length-bytes sealed, are_bytes sealed)

pub plain-IsHashing : IsHashing plain
plain-IsHashing = record {
  derived_length = λ password salt size rounds. length-replicate size 7;
  derived_bytes = λ password salt size rounds. All-replicate _ size 7 (omega arith);
  mac_length = λ key body. refl;
  mac_bytes = λ key body. omega arith;
}

bytes-kept : (bs : Bytes) → AreBytes bs → map (λ (b : ℕ). b % 256) bs ≡ bs
bytes-kept [] h = refl
bytes-kept (b ∷ bs) (small, h) = ground (arith, bytes-kept bs h, small)

pub plain-IsCounter : IsCounter plain
plain-IsCounter key nonce bs counter h = bytes-kept bs h
