-- ===== src/Channel/Rounds.antt =====
-- The parts of a list that a reader takes in rounds, and the numbers of a header.
use Prim.Native.Nat.{◌/◌, ◌%◌, ◌*◌}
use nixfied.Prelude.{
  ℕ, zero, suc, ◌+◌, ◌≤◌, ◌<◌, ◌≡◌, refl, sym, ap, ◌∙◌, List, [], ◌∷◌, ◌++◌, length, length-drop,
  take, drop, drop-append, drop-add, arith,
}
use nixfied.Channel.Frame.{to_be_bytes, from_be_bytes}
use nixfied.Channel.Socket.{moved}

module _ {A : Type 0} where
  pub length-drop_le : (k : ℕ) (xs : List A) → k ≤ length xs → k + length (drop k xs) ≡ length xs
  length-drop_le k xs h = omega (arith, length-drop k xs, h)

  take-append_le : (m : ℕ) (xs after : List A) → m ≤ length xs → take m (xs ++ after) ≡ take m xs
  take-append_le zero xs after h = refl
  take-append_le (suc m) [] after h = absurd (omega (arith, h))
  take-append_le (suc m) (x ∷ xs) after h =
      ap (λ l. x ∷ l) (take-append_le m xs after (omega (arith, h)))

  -- A round takes the next elements of the list.
  pub take_round :
      (k m n : ℕ) (xs after : List A)
      → n ≡ k + m
      → n ≤ length xs
      → take k xs ++ take m (drop k xs ++ after) ≡ take n xs
  take_round zero m n xs after e h =
      let same : n ≡ m = omega (arith, e) in
      rw same (take-append_le m xs after (omega (arith, same, h)))
  take_round (suc k) m zero xs after e h = absurd (omega (arith, e))
  take_round (suc k) m (suc n) [] after e h = absurd (omega (arith, h))
  take_round (suc k) m (suc n) (x ∷ xs) after e h =
      ap (λ l. x ∷ l) (take_round k m n xs after (omega (arith, e)) (omega (arith, h)))

  pub drop_round :
      (k m : ℕ) (xs after : List A)
      → k + m ≤ length xs
      → drop m (drop k xs ++ after) ≡ drop (k + m) xs ++ after
  drop_round k m xs after h =
      drop-append m (drop k xs) after (omega (arith, length-drop k xs, h))
      ∙ ap (λ l. l ++ after) (sym (drop-add k m xs))

  pub take-append_past :
      (k j : ℕ) (h t : List A) → k ≡ length h + j → take k (h ++ t) ≡ h ++ take j t
  take-append_past k j [] t l = let same : k ≡ j = omega (arith, l) in rw same refl
  take-append_past zero j (x ∷ h) t l = absurd (omega (arith, l))
  take-append_past (suc k) j (x ∷ h) t l =
      ap (λ r. x ∷ r) (take-append_past k j h t (omega (arith, l)))

pub from_be_bytes-to_be_bytes : (n : ℕ) → n < 4294967296 → from_be_bytes (to_be_bytes n) ≡ n
unfolding from_be_bytes to_be_bytes
from_be_bytes-to_be_bytes n h = omega (arith, h)

pub to_be_bytes-from_be_bytes :
    (a b c d : ℕ)
    → a < 256
    → b < 256
    → c < 256
    → d < 256
    → to_be_bytes (from_be_bytes (a ∷ b ∷ c ∷ d ∷ [])) ≡ a ∷ b ∷ c ∷ d ∷ []
unfolding from_be_bytes to_be_bytes
to_be_bytes-from_be_bytes a b c d ha hb hc hd =
    let n = a * 16777216 + b * 65536 + c * 256 + d in
    let p : (n / 16777216) % 256 ≡ a = omega (arith, ha, hb, hc, hd) in
    let q : (n / 65536) % 256 ≡ b = omega (arith, ha, hb, hc, hd) in
    let r : (n / 256) % 256 ≡ c = omega (arith, ha, hb, hc, hd) in
    let s : n % 256 ≡ d = omega (arith, ha, hb, hc, hd) in rw (p, q, r, s) refl

pub moved-range :
    (wanted more : ℕ) → 0 < wanted → (0 < moved wanted more) × (moved wanted more ≤ wanted)
unfolding moved
moved-range wanted more h = ground (arith, h)
