-- ===== src/Prelude/Buffer.antt =====
-- An output `Vec<u8>` that is resized and then written in place.
use Prim.Native.Nat.{ℕ, zero, suc}
use mathlib.Core.Path.{◌≡◌, refl, ap}
use mathlib.Core.List.{[], ◌∷◌, ◌++◌}
use native.Mathlib.Omega.{arith}
use pajamax.Prelude.Lists.{length, replicate, Bytes}

-- `output[at..at + bytes.len()].copy_from_slice(bytes)`, where the range lies inside.
unfoldable pub write_at : ℕ → Bytes → Bytes → Bytes
write_at zero [] out = out
write_at zero (b ∷ bs) [] = []
write_at zero (b ∷ bs) (x ∷ xs) = b ∷ write_at zero bs xs
write_at (suc n) bs [] = []
write_at (suc n) bs (x ∷ xs) = x ∷ write_at n bs xs

-- `output.resize(output.len() + n, 0)`.
abbrev pub grow : ℕ → Bytes → Bytes
grow n out = out ++ replicate n 0

write_at-zero :
    (bs old rest : Bytes) → length bs ≡ length old → write_at 0 bs (old ++ rest) ≡ bs ++ rest
unfolding write_at
write_at-zero [] [] rest h = refl
write_at-zero [] (x ∷ old) rest h = absurd (omega arith)
write_at-zero (b ∷ bs) [] rest h = absurd (omega arith)
write_at-zero (b ∷ bs) (x ∷ old) rest h = ap (◌∷◌ b) (write_at-zero bs old rest (omega arith))

-- A write over a stretch of its own length replaces that stretch alone.
pub write_at-append :
    (pre bs old rest : Bytes) (n : ℕ)
    → n ≡ length pre
    → length bs ≡ length old
    → write_at n bs (pre ++ (old ++ rest)) ≡ pre ++ (bs ++ rest)
unfolding write_at
write_at-append [] bs old rest zero e h = write_at-zero bs old rest h
write_at-append [] bs old rest (suc n) e h = absurd (omega arith)
write_at-append (x ∷ pre) bs old rest zero e h = absurd (omega arith)
write_at-append (x ∷ pre) bs old rest (suc n) e h =
    ap (◌∷◌ x) (write_at-append pre bs old rest n (omega arith) h)
