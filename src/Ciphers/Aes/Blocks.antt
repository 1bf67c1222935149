-- ===== src/Ciphers/Aes/Blocks.antt =====
-- aes block by block: encrypting and decrypting with the same key gives the argument back.
use melang.Base.{
  ℕ, zero, suc, ◌*◌, ◌≡◌, refl, [], ◌∷◌, length, take, drop, length-append, take-append,
  drop-append, take-drop, length-take, length-drop, arith,
}
use melang.Script.{Bytes}
use melang.Ciphers.Aes.{blocks}

pub length-blocks :
    (f : Bytes → Bytes) (n : ℕ) (s : Bytes)
    → ((b : Bytes) → length b ≡ 16 → length (f b) ≡ 16)
    → length s ≡ 16 * n
    → length (blocks f n s) ≡ 16 * n
unfolding blocks
length-blocks f zero s keeps h = omega arith
length-blocks f (suc n) s keeps h = omega (
  arith,
  length-append (f (take 16 s)) (blocks f n (drop 16 s)),
  keeps (take 16 s) (length-take 16 s (omega (arith, h))),
  length-blocks f n (drop 16 s) keeps (omega (arith, h, length-drop 16 s)),
)

-- A block cipher that `g` undoes is undone over any number of blocks.
pub blocks-inverse :
    (f g : Bytes → Bytes) (n : ℕ) (s : Bytes)
    → ((b : Bytes) → length b ≡ 16 → length (f b) ≡ 16)
    → ((b : Bytes) → length b ≡ 16 → g (f b) ≡ b)
    → length s ≡ 16 * n
    → blocks g n (blocks f n s) ≡ s
unfolding blocks
blocks-inverse f g zero [] keeps undoes h = refl
blocks-inverse f g zero (x ∷ s) keeps undoes h = absurd (omega (arith, h))
blocks-inverse f g (suc n) s keeps undoes h =
    let full : length (take 16 s) ≡ 16 = length-take 16 s (omega (arith, h)) in
    let head = f (take 16 s) in
    let rest = blocks f n (drop 16 s) in
    rw
      (
        take-append head rest 16 (keeps (take 16 s) full),
        drop-append head rest 16 (keeps (take 16 s) full),
        undoes (take 16 s) full,
        blocks-inverse f g n (drop 16 s) keeps undoes (omega (arith, h, length-drop 16 s)),
      )
      (take-drop 16 s)
