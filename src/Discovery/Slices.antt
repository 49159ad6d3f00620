-- ===== src/Discovery/Slices.antt =====
-- Bytes of a packet of crates/rowd-core/src/discovery.rs: its slices and its port.
use rowd.Base.{
  ℕ, zero, suc, ◌+◌, ◌*◌, ◌/◌, ◌%◌, ◌^◌, ◌<◌, true, not, ◌==◌, List, [], ◌∷◌, ◌++◌, length, take,
  drop, take-append, drop-append, All, ◌≡◌, refl, sym, ap, ◌∙◌, arith, subst,
}
use rowd.Discovery.{slice}
use rowd.Invitation.{be_bytes_16, from_be_bytes_16}

take-drop : (n : ℕ) (xs : List ℕ) → take n xs ++ drop n xs ≡ xs
take-drop zero xs = refl
take-drop (suc n) [] = refl
take-drop (suc n) (x ∷ xs) = ap (λ t. x ∷ t) (take-drop n xs)

drop-nil : (n : ℕ) → drop {A = ℕ} n [] ≡ []
drop-nil zero = refl
drop-nil (suc n) = refl

pub drop-drop : (m n : ℕ) (xs : List ℕ) → drop m (drop n xs) ≡ drop (n + m) xs
drop-drop m zero xs = ap (λ k. drop k xs) (omega arith)
drop-drop zero (suc n) [] = sym (drop-nil (suc n + zero))
drop-drop (suc m) (suc n) [] = sym (drop-nil (suc n + suc m))
drop-drop m (suc n) (x ∷ xs) =
    let counts : suc (n + m) ≡ suc n + m = omega arith in
    drop-drop m n xs ∙ ap (λ k. drop k (x ∷ xs)) counts

-- A packet, cut where its parts end.
pub cut :
    (packet : List ℕ)
    → packet
      ≡ slice 0 4 packet
        ++ (slice 4 2 packet ++ (slice 6 32 packet ++ (slice 38 32 packet ++ drop 70 packet)))
cut packet = sym (
    ap (λ t. slice 0 4 packet ++ (slice 4 2 packet ++ (slice 6 32 packet ++ t)))
      (ap (λ t. slice 38 32 packet ++ t) (sym (drop-drop 32 38 packet))
        ∙ take-drop 32 (drop 38 packet))
    ∙ ap (λ t. slice 0 4 packet ++ (slice 4 2 packet ++ t))
        (ap (λ t. slice 6 32 packet ++ t) (sym (drop-drop 32 6 packet))
          ∙ take-drop 32 (drop 6 packet))
    ∙ ap (λ t. slice 0 4 packet ++ t)
        (ap (λ t. slice 4 2 packet ++ t) (sym (drop-drop 2 4 packet)) ∙ take-drop 2 (drop 4 packet))
    ∙ take-drop 4 packet)

pub length-drop : (n : ℕ) (xs : List ℕ) (k : ℕ) → length xs ≡ n + k → length (drop n xs) ≡ k
length-drop zero xs k h = omega (arith, h)
length-drop (suc n) [] k h = absurd (omega (arith, h))
length-drop (suc n) (x ∷ xs) k h = length-drop n xs k (omega (arith, h))

high : (a b : ℕ) → a < 256 → b < 256 → (a * 256 + b) / 2 ^ 8 % 256 ≡ a
high a b fa fb = omega (arith, fa, fb)

low : (a b : ℕ) → b < 256 → (a * 256 + b) % 256 ≡ b
low a b fb = omega (arith, fb)

-- Two bytes are those of the number that they spell.
pub two_bytes :
    (xs : List ℕ) → length xs ≡ 2 → All (λ b. b < 256) xs → be_bytes_16 (from_be_bytes_16 xs) ≡ xs
unfolding be_bytes_16 from_be_bytes_16
two_bytes (a ∷ b ∷ []) h (fa, (fb, _)) =
    ap (λ c. c ∷ (a * 256 + b) % 256 ∷ []) (high a b fa fb) ∙ ap (λ c. a ∷ c ∷ []) (low a b fb)
two_bytes [] h small = absurd (omega (arith, h))
two_bytes (a ∷ []) h small = absurd (omega (arith, h))
two_bytes (a ∷ b ∷ c ∷ xs) h small = absurd (omega (arith, h))

pub port_back : (port : ℕ) → port < 65536 → from_be_bytes_16 (be_bytes_16 port) ≡ port
unfolding be_bytes_16 from_be_bytes_16
port_back port h = omega (arith, h)

pub take-exact : (n : ℕ) (xs ys : List ℕ) → length xs ≡ n → take n (xs ++ ys) ≡ xs
take-exact n xs ys h = subst (λ k. take k (xs ++ ys) ≡ xs) h (take-append xs ys)

pub drop-exact : (n : ℕ) (xs ys : List ℕ) → length xs ≡ n → drop n (xs ++ ys) ≡ ys
drop-exact n xs ys h = subst (λ k. drop k (xs ++ ys) ≡ ys) h (drop-append xs ys)

pub not-zero : (n : ℕ) → not (n == 0) ≡ true → 0 < n
not-zero n h = ground (arith, h)

pub All-drop : (n : ℕ) (xs : List ℕ) → All (λ b. b < 256) xs → All (λ b. b < 256) (drop n xs)
All-drop zero xs h = h
All-drop (suc n) [] h = tt
All-drop (suc n) (x ∷ xs) h = All-drop n xs h.1

pub port_small : (xs : List ℕ) → All (λ b. b < 256) xs → from_be_bytes_16 xs < 65536
unfolding from_be_bytes_16
port_small [] h = omega arith
port_small (a ∷ []) h = omega arith
port_small (a ∷ b ∷ []) (fa, (fb, _)) = omega (arith, fa, fb)
port_small (a ∷ b ∷ c ∷ xs) h = omega arith
