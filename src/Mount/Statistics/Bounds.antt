-- ===== src/Mount/Statistics/Bounds.antt =====
-- The usage of a file system, in the bounds of 64-bit integers.
use vcd_csi.Prelude.{ℕ, ◌+◌, ◌-◌, ◌*◌, ◌^◌, ◌≤◌, ◌<◌, ◌≡◌, arith, ap, ◌∙◌, leb, if◌then◌else◌}
use mathlib.Core.Path.{subst}
use native.Mathlib.Nat.{add-mul, mul-le-mul_right}
use vcd_csi.Go.Int.{ℤ, pos, wrap, negate, mul, times, minus, wrap-pos}
use vcd_csi.Mount.Host.{Statfs}
use vcd_csi.Mount.Statistics.{int64, file_system_statistics}

-- Numbers whose parts make up at most the total.
abbrev pub Fits : ℤ → ℤ → ℤ → Type 0
Fits (pos used) (pos available) (pos total) = used + available ≤ total
Fits _ _ _ = ⊥

times-pos : (a k : ℕ) → a * k < 2 ^ 63 → times (pos a) (pos k) ≡ pos (a * k)
unfolding times mul
times-pos a k h = wrap-pos (a * k) h

inside : (a b : ℕ) → b ≤ a → (if leb b a then pos (a - b) else negate (b - a)) ≡ pos (a - b)
inside a b h = ground arith

int64-pos : (n : ℕ) → n < 2 ^ 63 → int64 n ≡ pos n
int64-pos n h = wrap-pos n h

minus-pos : (a b : ℕ) → b ≤ a → a < 2 ^ 63 → minus (pos a) (pos b) ≡ pos (a - b)
unfolding minus
minus-pos a b h k = ap wrap (inside a b h) ∙ wrap-pos (a - b) (omega arith)

-- The parts of a product.
parts : (a b c k : ℕ) → c ≤ b → b ≤ a → (a - b) * k + c * k ≤ a * k
parts a b c k h l = subst (λ n. n ≤ a * k) (add-mul (a - b) c k) (mul-le-mul_right k (omega arith))

Fits-times :
    (a b c k : ℕ)
    → c ≤ b
    → b ≤ a
    → a * k < 2 ^ 63
    → Fits (times (pos (a - b)) (pos k)) (times (pos c) (pos k)) (times (pos a) (pos k))
Fits-times a b c k h l m =
    let p = parts a b c k h l in
    rw (times-pos (a - b) k (omega arith))
      (rw (times-pos c k (omega arith)) (rw (times-pos a k m) p))

-- For a block size that is not negative, counts of available, free and total blocks in ascending
-- order, at most as many free as total inodes, and a total of blocks, of inodes and of bytes below
-- 2^63, the used and the available bytes together are at most the total, none of them negative,
-- and the same holds of the used and the free inodes.
pub file_system_statistics-Fits :
    (statfs : Statfs) (bsize : ℕ)
    → statfs.bsize ≡ pos bsize
    → statfs.bavail ≤ statfs.bfree
    → statfs.bfree ≤ statfs.blocks
    → statfs.ffree ≤ statfs.files
    → statfs.blocks < 2 ^ 63
    → statfs.files < 2 ^ 63
    → statfs.blocks * bsize < 2 ^ 63
    → let stats = file_system_statistics statfs in
      Fits stats.used_bytes stats.available_bytes stats.total_bytes
      × Fits stats.used_inodes stats.available_inodes stats.total_inodes
unfolding file_system_statistics
file_system_statistics-Fits statfs bsize e a b c d f g = rw (int64-pos statfs.blocks d) (
    rw (int64-pos statfs.bfree (omega arith)) (
      rw (int64-pos statfs.bavail (omega arith)) (
        rw (int64-pos statfs.files f) (
          rw (int64-pos statfs.ffree (omega arith)) (
            rw (minus-pos statfs.blocks statfs.bfree b d) (
              rw (minus-pos statfs.files statfs.ffree c f) (
                rw e (
                  Fits-times statfs.blocks statfs.bfree statfs.bavail bsize a b g,
                  omega arith,
                ))))))))
