-- ===== src/Pcm/Words.antt =====
-- Sums and products of `uint64_t`, as the integers that their signed readings stand for.
use ubersdr_dsc.Base.{ℕ, ◌+◌, ◌-◌, ◌*◌, ◌/◌, ◌%◌, ◌^◌, ◌≤◌, ◌<◌, ◌≡◌, ap, arith}
use ubersdr_dsc.Base.Int.{
  ℤ, pos, negsuc, pos_part, neg_part, magnitude, ◌+ℤ◌, ◌-ℤ◌, ◌*ℤ◌, +ℤ_parts, -ℤ_parts, *ℤ_parts,
}
use ubersdr_dsc.Pcm.Arith.{to_uint, to_int}

-- A number that differs from an integer by a multiple of `2 ^ 64`.
abbrev pub Stands : ℕ → ℤ → Type 0
Stands u a = (j : ℕ) × (k : ℕ) × (u + neg_part a + 2 ^ 64 * j ≡ pos_part a + 2 ^ 64 * k)

pub to_uint-Stands : (a : ℤ) → Stands (to_uint 64 a) a
unfolding to_uint
to_uint-Stands (pos n) = (n / 2 ^ 64, 0, omega arith)
to_uint-Stands (negsuc n) = (0, n / 2 ^ 64 + 1, omega arith)

pub Stands-mod : (u : ℕ) (a : ℤ) → Stands u a → Stands (u % 2 ^ 64) a
Stands-mod u a (j, k, e) = (j + u / 2 ^ 64, k, omega arith)

-- A word stands for an integer in one way.
pub Stands-eq : (u : ℕ) (a : ℤ) → u < 2 ^ 64 → Stands u a → u ≡ to_uint 64 a
unfolding to_uint
Stands-eq u (pos n) h (j, k, e) = omega arith
Stands-eq u (negsuc n) h (j, k, e) = omega arith

pub Stands-add : (u v : ℕ) (a b : ℤ) → Stands u a → Stands v b → Stands (u + v) (a +ℤ b)
Stands-add u v a b (j, k, e) (j', k', e') = (j + j', k + k', omega (arith, +ℤ_parts a b))

pub Stands-sub :
    (u v : ℕ) (a b : ℤ) → v ≤ 2 ^ 64 → Stands u a → Stands v b → Stands (u + 2 ^ 64 - v) (a -ℤ b)
Stands-sub u v a b h (j, k, e) (j', k', e') = (j + k', k + j' + 1, omega (arith, -ℤ_parts a b))

pub Stands-mul : (u v : ℕ) (a b : ℤ) → Stands u a → Stands v b → Stands (u * v) (a *ℤ b)
Stands-mul u v a b (j, k, e) (j', k', e') = (
  j * v + j' * pos_part a + k' * neg_part a,
  k * v + k' * pos_part a + j' * neg_part a,
  grind (
    arith,
    *ℤ_parts a b,
    ap (λ (t : ℕ). t * v) e,
    ap (λ (t : ℕ). pos_part a * t) e',
    ap (λ (t : ℕ). neg_part a * t) e',
  ),
)

pub to_int-to_uint : (a : ℤ) → magnitude a < 2 ^ 63 → to_int 64 (to_uint 64 a) ≡ a
unfolding to_int to_uint
to_int-to_uint (pos n) h = ground arith
to_int-to_uint (negsuc n) h = ground arith
