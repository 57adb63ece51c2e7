-- ===== src/Auth/Security/Compare.antt =====
-- What the comparison in constant time decides.
use Prim.Native.Nat.{bit_or, bit_xor, max}
use vais_lang.Prelude.{
  ℕ, zero, suc, List, [], ◌∷◌, ◌≡◌, refl, ap₂, arith, true, ◌↔◌, ◌%◌, ◌^◌, ◌≤◌, ◌<◌, length,
  nat_beq_iff, String, bit_xor-eq_zero, bit_or-eq_zero,
}
use vais_lang.Auth.Security.{TextEncoder, padded, accumulate, timing_safe_equal}

accumulate-eq_zero :
    (len diff : ℕ) (as_ bs : List ℕ)
    → accumulate diff (padded len as_) (padded len bs) ≡ 0
    → (diff ≡ 0) × (padded len as_ ≡ padded len bs)
unfolding accumulate
accumulate-eq_zero zero diff as_ bs h = (h, refl)
accumulate-eq_zero (suc len) diff [] [] h =
    let (d, e) = accumulate-eq_zero len (bit_or diff (bit_xor 0 0)) [] [] h in
    (((bit_or-eq_zero diff (bit_xor 0 0)).0 d).0, refl)
accumulate-eq_zero (suc len) diff [] (b ∷ bs) h =
    let (d, e) = accumulate-eq_zero len (bit_or diff (bit_xor 0 b)) [] bs h in
    let (z, x) = (bit_or-eq_zero diff (bit_xor 0 b)).0 d in
    (z, ap₂ (λ c cs. c ∷ cs) ((bit_xor-eq_zero 0 b).0 x) e)
accumulate-eq_zero (suc len) diff (a ∷ as_) [] h =
    let (d, e) = accumulate-eq_zero len (bit_or diff (bit_xor a 0)) as_ [] h in
    let (z, x) = (bit_or-eq_zero diff (bit_xor a 0)).0 d in
    (z, ap₂ (λ c cs. c ∷ cs) ((bit_xor-eq_zero a 0).0 x) e)
accumulate-eq_zero (suc len) diff (a ∷ as_) (b ∷ bs) h =
    let (d, e) = accumulate-eq_zero len (bit_or diff (bit_xor a b)) as_ bs h in
    let (z, x) = (bit_or-eq_zero diff (bit_xor a b)).0 d in
    (z, ap₂ (λ c cs. c ∷ cs) ((bit_xor-eq_zero a b).0 x) e)

accumulate_self : (bs : List ℕ) → accumulate 0 bs bs ≡ 0
unfolding accumulate
accumulate_self [] = refl
accumulate_self (b ∷ bs) =
    rw ((bit_xor-eq_zero b b).1 refl)
      (rw ((bit_or-eq_zero 0 0).1 (refl, refl)) (accumulate_self bs))

padded-injective :
    (len : ℕ) (as_ bs : List ℕ)
    → length as_ ≡ length bs
    → length bs ≤ len
    → padded len as_ ≡ padded len bs
    → as_ ≡ bs
padded-injective len [] [] e p h = refl
padded-injective len [] (b ∷ bs) e p h = absurd (omega arith)
padded-injective len (a ∷ as_) [] e p h = absurd (omega arith)
padded-injective zero (a ∷ as_) (b ∷ bs) e p h = absurd (omega arith)
padded-injective (suc len) (a ∷ as_) (b ∷ bs) e p h =
    ap₂ (λ c cs. c ∷ cs) (cc) (padded-injective len as_ bs (omega arith) (omega arith) (cc))

-- Two texts of fewer than 2 ^ 32 bytes compare as equal exactly when they are the same text: a shorter
-- one is never taken for one that goes on with zero bytes.
pub timing_safe_equal_iff :
    (encoder : TextEncoder) (a b : String)
    → length (encoder.encode a) < 2 ^ 32
    → length (encoder.encode b) < 2 ^ 32
    → (timing_safe_equal encoder a b ≡ true) ↔ (a ≡ b)
unfolding timing_safe_equal
timing_safe_equal_iff encoder a b p q = (
  λ h.
      let xs = encoder.encode a in
      let ys = encoder.encode b in
      let len = max (length xs) (length ys) in
      let diff = bit_xor (length xs % 2 ^ 32) (length ys % 2 ^ 32) in
      let zero_at_end = (nat_beq_iff (accumulate diff (padded len xs) (padded len ys)) 0).0 h in
      let (d, e) = accumulate-eq_zero len diff xs ys zero_at_end in
      let same = (bit_xor-eq_zero (length xs % 2 ^ 32) (length ys % 2 ^ 32)).0 d in
      encoder.encode_injective a b
        (padded-injective len xs ys (omega (arith, same)) (omega arith) e),
  λ e.
      let n = length (encoder.encode b) in
      rw e (
        rw ((bit_xor-eq_zero (n % 2 ^ 32) (n % 2 ^ 32)).1 refl)
          (rw (accumulate_self (padded (max n n) (encoder.encode b))) refl)),
)
