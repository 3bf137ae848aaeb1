-- ===== src/Floats/Fixed.antt =====
-- A concrete instance of the float interface: fixed-point numbers with six decimals over the
-- integers. The transcendental functions are replaced by monotone stand-ins. The examples run on it.
use planrace_subnet.Prelude.{
  ℕ, zero, suc, ◌+◌, ◌*◌, ◌/◌, ◌^◌, ◌≡◌, Bool, true, false, ◌&&◌, some, List, [], ◌∷◌, leb, arith,
  all, refl, if◌then◌else◌, nat_beq, nat_eq,
}
use mathlib.Core.Path.{subst}
use planrace_subnet.Prelude.Int.{ℤ, pos, negsuc, pos_part, neg_part, sub_ℕ, ◌+ℤ◌, ◌-ℤ◌, ltb_ℤ}
use planrace_subnet.Floats.Interface.{Floats}

abbrev scale : ℕ
scale = 10 ^ 6

abbrev leb_ℤ : ℤ → ℤ → Bool
leb_ℤ a b = leb (pos_part a + neg_part b) (pos_part b + neg_part a)

abbrev scaled : ℕ → ℤ
scaled n = pos (n * scale)

-- The quotient of two magnitudes under the sign of their product.
abbrev signed : ℤ → ℤ → ℕ → ℤ
signed (pos a) (pos b) m = sub_ℕ m 0
signed (pos a) (negsuc b) m = sub_ℕ 0 m
signed (negsuc a) (pos b) m = sub_ℕ 0 m
signed (negsuc a) (negsuc b) m = sub_ℕ m 0

abbrev magnitude : ℤ → ℕ
magnitude a = pos_part a + neg_part a

-- The integer square root, digit by digit in base four.
pub root : ℕ → ℕ → ℕ
root zero n = 0
root (suc fuel) n = let r = 2 * root fuel (n / 4) in if leb ((r + 1) * (r + 1)) n then r + 1 else r

pub le_of_lt : (x y : ℤ) → ltb_ℤ x y ≡ true → leb_ℤ x y ≡ true
le_of_lt x y h = ground arith

pub le_of_ℕ : (m n : ℕ) → leb m n ≡ true → leb_ℤ (scaled m) (scaled n) ≡ true
le_of_ℕ m n h = ground arith

pub lt_irrefl : (x : ℤ) → ltb_ℤ x x ≡ false
lt_irrefl x = ground arith

pub lt_asymm : (x y : ℤ) → ltb_ℤ x y ≡ true → leb_ℤ y x ≡ false
lt_asymm x y h = ground arith

pub total_from : ℤ → List ℤ → ℤ
total_from acc [] = acc
total_from acc (x ∷ xs) = total_from (acc +ℤ x) xs

pub add_pos :
    (x y : ℤ)
    → leb_ℤ (scaled 0) x ≡ true
    → ltb_ℤ (scaled 0) y ≡ true
    → ltb_ℤ (scaled 0) (x +ℤ y) ≡ true
unfolding ◌+ℤ◌
add_pos x y hx hy = ground arith

total_from_pos :
    (acc : ℤ) (xs : List ℤ)
    → ltb_ℤ (scaled 0) acc ≡ true
    → all (λ y. ltb_ℤ (scaled 0) y) xs ≡ true
    → leb_ℤ (total_from acc xs) (scaled 0) ≡ false
unfolding total_from
total_from_pos acc [] h hs = ground arith
total_from_pos acc (x ∷ xs) h hs =
    total_from_pos (acc +ℤ x) xs (add_pos acc x (ground arith) (ground arith)) (ground arith)

pub fsum_pos :
    (x : ℤ) (xs : List ℤ) (total : ℤ)
    → all (λ y. ltb_ℤ (scaled 0) y) (x ∷ xs) ≡ true
    → some (total_from (pos 0) (x ∷ xs)) ≡ some total
    → leb_ℤ total (scaled 0) ≡ false
unfolding total_from
fsum_pos x xs total h e =
    let same : total_from (pos 0 +ℤ x) xs ≡ total = ground arith in
    subst (λ t. leb_ℤ t (scaled 0) ≡ false) same
      (total_from_pos (pos 0 +ℤ x) xs (add_pos (pos 0) x refl (ground arith)) (ground arith))

unfoldable pub fixed : Floats
unfolding ◌+ℤ◌ ◌-ℤ◌ root total_from
fixed = record {
  Float = ℤ;
  of_ℕ = scaled;
  decimal = λ n k. pos (n * scale / 10 ^ k);
  add = ◌+ℤ◌;
  sub = ◌-ℤ◌;
  mul = λ x y. signed x y (magnitude x * magnitude y / scale);
  quotient = λ x y. signed x y (magnitude x * scale / magnitude y);
  lt = ltb_ℤ;
  le = leb_ℤ;
  eq = λ x y. nat_beq (pos_part x) (pos_part y) && nat_beq (neg_part x) (neg_part y);
  is_finite = λ x. true;
  trunc = λ x. pos_part x / scale;
  sqrt = λ x. pos (root 64 (pos_part x * scale));
  square = λ x. signed x x (magnitude x * magnitude x / scale);
  log2 = λ x. some (x -ℤ scaled 1);
  log = λ x. some (x -ℤ scaled 1);
  exp = λ x. some (x +ℤ scaled 1);
  pow2 = λ x. some (x +ℤ scaled 1);
  fsum = λ xs. some (total_from (pos 0) xs);
  le_of_lt = le_of_lt;
  le_of_ℕ = le_of_ℕ;
  lt_irrefl = lt_irrefl;
  lt_asymm = lt_asymm;
  add_pos = add_pos;
  fsum_pos = fsum_pos;
}
