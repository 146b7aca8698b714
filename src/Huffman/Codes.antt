-- ===== src/Huffman/Codes.antt =====
-- src/huffman.rs: the codes that `from_lengths` assigns. The lengths of a table's symbols are at
-- most 16, so a code has no more bits than that and no sum here wraps.
use msdelta.Base.{ℕ, zero, suc, ◌+◌, ◌*◌, ◌/◌, ◌%◌, max, List, [], ◌∷◌, get_or, set, replicate}

abbrev pub max_code_len : ℕ
max_code_len = 16

unfoldable pub longest : List ℕ → ℕ
longest [] = 0
longest (l ∷ ls) = max l (longest ls)

-- How many symbols have each length.
unfoldable pub count_lengths : List ℕ → List ℕ → List ℕ
count_lengths [] count = count
count_lengths (l ∷ ls) count = count_lengths ls (set count l (suc (get_or count l 0)))

-- The first code of each length, from `len` down to 1.
unfoldable pub base_codes : ℕ → ℕ → List ℕ → List ℕ → List ℕ
base_codes zero acc count base_code = base_code
base_codes (suc len) acc count base_code =
    base_codes len ((acc + get_or count (suc len) 0) / 2) count (set base_code (suc len) acc)

unfoldable pub reverse_bits : ℕ → ℕ → ℕ → ℕ
reverse_bits zero c reversed = reversed
reverse_bits (suc n) c reversed = reverse_bits n (c / 2) (2 * reversed + c % 2)

-- The bit-reversed code of each symbol; `assigned` has the next code of each length.
unfoldable pub assign_codes : List ℕ → List ℕ → List ℕ
assign_codes [] assigned = []
assign_codes (zero ∷ ls) assigned = 0 ∷ assign_codes ls assigned
assign_codes (suc l ∷ ls) assigned =
    let canonical = get_or assigned (suc l) 0 in
    reverse_bits (suc l) canonical 0 ∷ assign_codes ls (set assigned (suc l) (suc canonical))

unfoldable pub codes_of : List ℕ → List ℕ
codes_of code_lengths =
    let max_len = longest code_lengths in
    let count = set (count_lengths code_lengths (replicate (max_len + 1) 0)) 0 0 in
    assign_codes code_lengths (base_codes max_len 0 count (replicate (max_len + 1) 0))
