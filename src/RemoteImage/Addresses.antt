-- ===== src/RemoteImage/Addresses.antt =====
-- The addresses of version 4 that are blocked, as ranges.
use docsmint.Prelude.{
  ℕ, ◌+◌, ◌*◌, ◌≤◌, ◌<◌, ◌≡◌, refl, ◌∙◌, Bool, true, false, ◌&&◌, ◌||◌, some, List, [], ◌∷◌, any,
  ◌==◌, leb, arith,
}
use docsmint.RemoteImage.{are_blocked}

-- A range of addresses, from its first one to its last one.
pub record Range : Type 0 where
  pub from : ℕ
  pub to : ℕ

abbrev pub value : ℕ → ℕ → ℕ → ℕ → ℕ
value a b c d = a * 16777216 + b * 65536 + c * 256 + d

abbrev range : ℕ → ℕ → ℕ → ℕ → Range
range a b e f = record { from = value a b 0 0; to = value e f 255 255 }

-- 0.0.0.0/8, 10.0.0.0/8, 127.0.0.0/8, 224.0.0.0/3, 169.254.0.0/16, 172.16.0.0/12, 192.168.0.0/16 and
-- 100.64.0.0/10
abbrev pub private_ranges : List Range
private_ranges =
    range 0 0 0 255
    ∷ range 10 0 10 255
    ∷ range 127 0 127 255
    ∷ range 224 0 255 255
    ∷ range 169 254 169 254
    ∷ range 172 16 172 31
    ∷ range 192 168 192 168
    ∷ range 100 64 100 127
    ∷ []

abbrev pub in_range : ℕ → Range → Bool
in_range n r = leb r.from n && leb n r.to

or-false : (b : Bool) → (b || false) ≡ b
or-false true = refl
or-false false = refl

module _ (a b c d : ℕ) (la : a < 256) (lb : b < 256) (lc : c < 256) (ld : d < 256) where
  first_octet : (x : ℕ) → in_range (value a b c d) (range x 0 x 255) ≡ (a == x)
  first_octet x = ground arith

  from_octet : in_range (value a b c d) (range 224 0 255 255) ≡ leb 224 a
  from_octet = ground arith

  second_octet :
      (x y z : ℕ)
      → y ≤ z
      → z < 256
      → in_range (value a b c d) (range x y x z) ≡ (a == x && (leb y b && leb b z))
  second_octet x y z l m = ground arith

  one_octet : (x y : ℕ) → y < 256 → in_range (value a b c d) (range x y x y) ≡ (a == x && b == y)
  one_octet x y m = second_octet x y y (omega arith) m ∙ ground arith

-- An address of four octets is blocked exactly if it lies in one of the private ranges.
pub are_blocked-in_range :
    (a b c d : ℕ)
    → a < 256
    → b < 256
    → c < 256
    → d < 256
    → are_blocked (some a ∷ some b ∷ some c ∷ some d ∷ [])
      ≡ any (in_range (value a b c d)) private_ranges
unfolding are_blocked
are_blocked-in_range a b c d la lb lc ld = rw (first_octet a b c d la lb lc ld 0) (
    rw (first_octet a b c d la lb lc ld 10) (
      rw (first_octet a b c d la lb lc ld 127) (
        rw (from_octet a b c d la lb lc ld) (
          rw (one_octet a b c d la lb lc ld 169 254 (omega arith)) (
            rw (second_octet a b c d la lb lc ld 172 16 31 (omega arith) (omega arith)) (
              rw (one_octet a b c d la lb lc ld 192 168 (omega arith)) (
                rw (second_octet a b c d la lb lc ld 100 64 127 (omega arith) (omega arith))
                  (rw (or-false (a == 100 && (leb 64 b && leb b 127))) refl))))))))
