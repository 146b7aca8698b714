-- ===== src/Huffman/Shape.antt =====
-- src/huffman.rs: a code by its lowest one and the bits behind it.
use msdelta.Base.{
  ℕ, zero, suc, ◌+◌, ◌-◌, ◌*◌, ◌/◌, ◌%◌, ◌^◌, ◌≤◌, ◌<◌, ◌≡◌, ◌≢◌, inl, inr, sym, ap, ◌∙◌, arith,
  eq_cases, List, [], ◌∷◌, get_or, set,
}
use msdelta.Base.Bits.{
  two-pow-suc, mod-two-pow-suc, mod-two-pow-add, mod-mod_two-pow, mod-div_two-pow, div_two-pow-lt,
}
use msdelta.Bitstream.Words.Zeros.{trailing_zeros_lem}
use msdelta.Huffman.Codes.{reverse_bits, assign_codes}
use msdelta.Huffman.Table.{ctz_of, extra_of}
use msdelta.Huffman.Arrays.{AllPairs}
use native.Mathlib.Nat.{div-add-mod}

lowest_one : (w x : ℕ) → 0 < x → x < 2 ^ w → (k : ℕ) × (k < w) × (x % 2 ^ suc k ≡ 2 ^ k)
lowest_one zero x h lt = absurd (omega arith)
lowest_one (suc w) x h lt = elim (eq_cases (x % 2) 1) [
  | inl odd ↦ (0, omega arith, odd)
  | inr even ↦
      let (k, short, at_k) = lowest_one w (x / 2) (omega arith) (omega (arith, two-pow-suc w)) in
      (suc k, omega arith, omega (arith, mod-two-pow-suc x (suc k), two-pow-suc k, at_k))
]

-- A code of a length: `k` zeros below the lowest one, and `e` bits behind that.
pub record IsShape (len code k e : ℕ) : Type 0 where
  pub len_is : k + 1 + e ≡ len
  pub low_is : code % 2 ^ (k + 1) ≡ 2 ^ k
  pub high_lt : code / 2 ^ (k + 1) < 2 ^ e
  pub ctz_is : ctz_of code ≡ k
  pub extra_is : extra_of len code ≡ e
  pub short : len ≤ 16

abbrev pub HasShape : ℕ → ℕ → Type 0
HasShape len code = (k : ℕ) × (e : ℕ) × IsShape len code k e

pub code-HasShape : (len code : ℕ) → len ≤ 16 → code < 2 ^ len → code ≢ 0 → HasShape len code
code-HasShape len code short lt some_ =
    let (k, below, at_k) = lowest_one len code (omega (arith, some_)) lt in
    let is_k : ctz_of code ≡ k = trailing_zeros_lem 32 k code at_k (omega (arith, below, short)) in
    let e : suc k ≡ k + 1 = omega arith in
    let rest : len - k - 1 ≡ len - (k + 1) = omega arith in
    (
      k,
      len - k - 1,
      record {
        len_is = omega (arith, below);
        low_is = rw e at at_k;
        high_lt = rw rest (div_two-pow-lt code (k + 1) len (omega (arith, below)) lt);
        ctz_is = is_k;
        extra_is = ap (λ (t : ℕ). len - t - 1) is_k;
        short = short;
      },
    )

-- The next bits are those of a code.
abbrev pub Matches : ℕ → ℕ → ℕ → Type 0
Matches bits len code = bits % 2 ^ len ≡ code

-- Where the next bits are a code's, the lowest one is the code's, and so are the bits behind it.
pub Matches-parts :
    (bits len code k e : ℕ)
    → IsShape len code k e
    → Matches bits len code
    → (bits % 2 ^ (k + 1) ≡ 2 ^ k)
      × (ctz_of bits ≡ k)
      × (bits / 2 ^ (k + 1) % 2 ^ e ≡ code / 2 ^ (k + 1))
Matches-parts bits len code k e s m =
    let le : k + 1 ≤ len = omega (arith, s.len_is) in
    let low : bits % 2 ^ (k + 1) ≡ 2 ^ k =
      sym (mod-mod_two-pow bits (k + 1) len le) ∙ ap (λ (t : ℕ). t % 2 ^ (k + 1)) m ∙ s.low_is in
    let e' : k + 1 ≡ suc k = omega arith in
    let rest : len - (k + 1) ≡ e = omega (arith, s.len_is) in
    let high = mod-div_two-pow bits (k + 1) len le in
    (
      low,
      trailing_zeros_lem 32 k bits (rw e' at low) (omega (arith, le, s.short)),
      sym (rw (m, rest) at high),
    )

-- And the other way round.
pub parts-Matches :
    (bits len code k e : ℕ)
    → IsShape len code k e
    → bits % 2 ^ (k + 1) ≡ 2 ^ k
    → bits / 2 ^ (k + 1) % 2 ^ e ≡ code / 2 ^ (k + 1)
    → Matches bits len code
parts-Matches bits len code k e s low high =
    let split = mod-two-pow-add bits (k + 1) e in
    let own = div-add-mod code (2 ^ (k + 1)) in
    let both = rw (s.len_is, low, high) at split in both ∙ omega (arith, own, s.low_is)

-- The codes that `from_lengths` assigns fit their lengths.
reverse_bits-lt : (n c r : ℕ) → reverse_bits n c r < (r + 1) * 2 ^ n
unfolding reverse_bits
reverse_bits-lt zero c r = omega arith
reverse_bits-lt (suc n) c r =
    let bit : 2 * r + c % 2 + 1 ≤ 2 * (r + 1) = omega arith in
    let more : (2 * r + c % 2 + 1) * 2 ^ n ≤ 2 * (r + 1) * 2 ^ n = grind arith in
    omega (
      arith,
      reverse_bits-lt n (c / 2) (2 * r + c % 2),
      more,
      ap (λ (t : ℕ). (r + 1) * t) (two-pow-suc n),
    )

abbrev pub FitsLength : ℕ → ℕ → Type 0
FitsLength len code = code < 2 ^ len

pub assign_codes-FitsLength :
    (ls assigned : List ℕ) → AllPairs FitsLength ls (assign_codes ls assigned)
unfolding assign_codes
assign_codes-FitsLength [] assigned = tt
assign_codes-FitsLength (zero ∷ ls) assigned = (omega arith, assign_codes-FitsLength ls assigned)
assign_codes-FitsLength (suc l ∷ ls) assigned =
    let canonical : ℕ = get_or assigned (suc l) 0 in
    (
      omega (arith, reverse_bits-lt (suc l) canonical 0),
      assign_codes-FitsLength ls (set assigned (suc l) (suc canonical)),
    )
