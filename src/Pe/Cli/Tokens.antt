-- ===== src/Pe/Cli/Tokens.antt =====
-- src/pe/cli/tokens.rs: tables, row numbers and the tokens of both.
use msdelta.Base.{
  ℕ, ◌+◌, ◌*◌, ◌/◌, ◌%◌, ◌^◌, ◌≤◌, ◌<◌, ◌≡◌, sym, ◌∙◌, arith, bit_and, bit_or, leb, ◌==◌,
  if◌then◌else◌, ne→==, le→leb, leb→le, false,
}
use msdelta.Base.Bits.{bit_and_mask}
use msdelta.Base.Bits.Or.{bit_or_disjoint_left}
use mathlib.Core.Path.{subst}
use msdelta.Errors.{malformed}
use msdelta.Errors.{Result, ok, err, ◌>>=◌, >>=-ok, ok-injective, unless-ok, when-ok}

pub record MetadataToken : Type 0 where
  pub table : ℕ
  pub rid : ℕ

-- `MetadataTableId::new` and `MetadataRid::new`; the types keep the number.
unfoldable pub new_table : ℕ → Result ℕ
new_table value =
    if leb value 0x3f then ok value else err (malformed "CLI metadata token: invalid table id")

unfoldable pub new_rid : ℕ → Result ℕ
new_rid value =
    if value == 0
    then err (malformed "CLI metadata token: RID is zero")
    else if leb value 0x00ff_ffff
    then ok value
    else err (malformed "CLI metadata token: RID is too large")

-- `(self.0 as u32) << 24`
unfoldable pub token_type : ℕ → ℕ
token_type table = table * 2 ^ 24 % 2 ^ 32

unfoldable pub from_raw : ℕ → Result MetadataToken
from_raw raw = do
  table ← new_table (raw / 2 ^ 24 % 256)
  rid ← new_rid (bit_and raw 0x00ff_ffff)
  ok (record { table = table; rid = rid })

unfoldable pub to_raw : MetadataToken → ℕ
to_raw token = bit_or (token_type token.table) token.rid

-- The tokens that the constructors let through.
unfoldable pub IsToken : MetadataToken → Type 0
IsToken token = (token.table ≤ 0x3f) × (0 < token.rid) × (token.rid ≤ 0x00ff_ffff)

to_raw_lem :
    (token : MetadataToken) → IsToken token → to_raw token ≡ token.table * 2 ^ 24 + token.rid
unfolding to_raw token_type IsToken
to_raw_lem token h =
    let (t, _, r) = h in
    let word : token.table * 2 ^ 24 % 2 ^ 32 ≡ token.table * 2 ^ 24 = omega (arith, t) in
    rw word (bit_or_disjoint_left 24 token.table token.rid (omega (arith, r)))

-- A token is read back from its number.
pub from_raw-to_raw_token :
    (token : MetadataToken) → IsToken token → from_raw (to_raw token) ≡ ok token
unfolding from_raw new_table new_rid IsToken
from_raw-to_raw_token token h =
    let (t, some_, r) = h in
    let raw : ℕ = token.table * 2 ^ 24 + token.rid in
    let high : raw / 2 ^ 24 % 256 ≡ token.table = omega (arith, t, r) in
    let low : bit_and raw 0x00ff_ffff ≡ token.rid = bit_and_mask 24 raw ∙ omega (arith, t, r) in
    rw (
      to_raw_lem token h,
      high,
      low,
      le→leb {a = token.table} {b = 0x3f} t,
      ne→== {a = token.rid} {b = 0} (omega (arith, some_)),
      le→leb {a = token.rid} {b = 0x00ff_ffff} r,
    )

new_table-ok : (v t : ℕ) → new_table v ≡ ok t → (v ≤ 0x3f) × (v ≡ t)
unfolding new_table
new_table-ok v t e = let (fits, out) = when-ok (leb v 0x3f) _ e in (leb→le fits, ok-injective out)

new_rid-ok : (v r : ℕ) → new_rid v ≡ ok r → (0 < v) × (v ≤ 0x00ff_ffff) × (v ≡ r)
unfolding new_rid
new_rid-ok v r e =
    let (some_, e1) = unless-ok (v == 0) _ e in
    let (fits, out) = when-ok (leb v 0x00ff_ffff) _ e1 in
    (positive v some_, leb→le fits, ok-injective out)
  where
    positive : (v : ℕ) → (v == 0) ≡ false → 0 < v
    positive v h = ground arith

-- A number that is read as a token is the token's, and the token is one that the constructors make.
pub to_raw-from_raw-IsToken :
    (raw : ℕ) (token : MetadataToken)
    → raw < 2 ^ 32
    → from_raw raw ≡ ok token
    → IsToken token × (to_raw token ≡ raw)
unfolding from_raw IsToken
to_raw-from_raw-IsToken raw token word e =
    let (table, et, e1) = >>=-ok (new_table (raw / 2 ^ 24 % 256)) _ e in
    let (rid, er, e2) = >>=-ok (new_rid (bit_and raw 0x00ff_ffff)) _ e1 in
    let same : record { table = table; rid = rid } ≡ token = ok-injective e2 in
    let (t_fits, at_table) = new_table-ok _ table et in
    let (some_, r_fits, at_rid) = new_rid-ok _ rid er in
    let low : rid ≡ raw % 2 ^ 24 = sym at_rid ∙ bit_and_mask 24 raw in
    let valid : IsToken (record { table = table; rid = rid }) = (
      omega (arith, t_fits, at_table),
      omega (arith, some_, at_rid),
      omega (arith, r_fits, at_rid),
    ) in
    let number : to_raw (record { table = table; rid = rid }) ≡ raw =
      to_raw_lem (record { table = table; rid = rid }) valid ∙ omega (arith, at_table, low, word) in
    let both : IsToken (record { table = table; rid = rid })
        × (to_raw (record { table = table; rid = rid }) ≡ raw) =
      (valid, number) in
    subst (λ t. IsToken t × (to_raw t ≡ raw)) same both
